-- ===== src/Context/Tests.antt =====
-- The theorems on run contexts at a new context, and in a test.
use quality_flow.Base.{ℕ, ◌≡◌, refl, ◌<>◌, none, some, [], ◌∷◌, arith, Result, ok, text_dec}
use quality_flow.Base.Dict.{lookup, insert}
use quality_flow.Base.Text.{strip}
use quality_flow.Context.Store.{null, num, ref, Store, get_item}
use quality_flow.Context.Paths.{to_index, path_tokens}
use quality_flow.Context.Record.{
  RunContext, Memory, create_run_context, build_run_context_payload, alloc_scopes, dict_or_new,
}
use quality_flow.Context.Record.Fresh.{AreJoined, create_run_context-AreJoined, local_items}
use quality_flow.Context.Access.{
  set_context_var, resolve_constant_value, write_context_path, constants_of,
}
use quality_flow.Context.Access.Variables.{
  IsName, HasScopes, set_context_var-resolve, set_context_var-auto, write_context_path-bypass,
}
use quality_flow.Context.Binding.{bind_suite_item_context, enter_suite_item}
use quality_flow.Context.Binding.Restore.{bind_suite_item_context-restores}

-- The tokens of a path with an index.
indexed_path : path_tokens " $.local.items[2].name " ≡ ok ("local" ∷ "items" ∷ "2" ∷ "name" ∷ [])
unfolding path_tokens strip ◌<>◌
indexed_path = refl

abbrev empty_store : Store
empty_store = record { next = 0; cell = λ _. none }

abbrev hook_memory : Memory
hook_memory = create_run_context "run" null null none empty_store

abbrev hook_context : RunContext
hook_context = hook_memory.context

-- The same context while a test is executed.
abbrev test_context : RunContext
test_context = record hook_context { current_item_kind = "test" }

x-IsName : IsName "x"
unfolding to_index strip
x-IsName = record {
  is_plain = record { plain = refl; stripped = refl; non_empty = refl };
  no_index = refl;
}

create_run_context-AreJoined_example :
    AreJoined hook_context hook_memory.store hook_context.run_envelope
create_run_context-AreJoined_example = create_run_context-AreJoined "run" null null none empty_store

hook_scopes : HasScopes hook_context hook_memory.store 5 3
unfolding create_run_context build_run_context_payload alloc_scopes dict_or_new
hook_scopes = create_run_context-AreJoined_example.scopes_own

test_scopes : HasScopes test_context hook_memory.store 5 3
unfolding create_run_context build_run_context_payload alloc_scopes dict_or_new
test_scopes = record {
  local_own = hook_scopes.local_own;
  global_own = hook_scopes.global_own;
  constants_apart = hook_scopes.constants_apart;
  local_apart = hook_scopes.local_apart;
  global_apart = hook_scopes.global_apart;
}

set_context_var-resolve_example :
    let (r, s') = set_context_var (some hook_context) "x" (num 3) "local" hook_memory.store in
    (r ≡ ok tt) × (resolve_constant_value (some hook_context) "x" s' ≡ num 3)
set_context_var-resolve_example =
    set_context_var-resolve hook_context hook_memory.store "x" (num 3) 5 x-IsName
      hook_scopes.local_own

set_context_var-auto_example :
    let (r, s') = set_context_var (some test_context) "x" (num 3) "auto" hook_memory.store in
    (r ≡ ok tt)
    × (lookup "x" (constants_of s' test_context.local_scope) ≡ some (num 3))
    × (constants_of s' test_context.global_scope
        ≡ constants_of hook_memory.store test_context.global_scope)
unfolding text_dec
set_context_var-auto_example =
    set_context_var-auto test_context hook_memory.store "x" (num 3) 5 3 x-IsName test_scopes

-- A test writes to the global constants, through the local scope.
write_context_path-bypass_example :
    let (r, s') =
      write_context_path
        (some test_context)
        ("$.local.global.constants." <> "x")
        (num 3)
        hook_memory.store in
    (r ≡ ok tt) × (lookup "x" (constants_of s' test_context.global_scope) ≡ some (num 3))
unfolding create_run_context build_run_context_payload alloc_scopes dict_or_new text_dec lookup
write_context_path-bypass_example =
    write_context_path-bypass test_context hook_memory.store "x" (num 3) 5 3 (local_items 2)
      x-IsName test_scopes.global_own refl refl

abbrev set_x : Memory → Result ℕ × Memory
set_x m = (ok 1, m)

bind_suite_item_context-restores_example :
    let (r', m') =
      bind_suite_item_context "test" none (some (ref 0)) (some (ref 1)) set_x hook_memory in
    (r' ≡ ok 1)
    × (m'.context.current_item_kind ≡ hook_context.current_item_kind)
    × (m'.context.current_hook_phase ≡ hook_context.current_hook_phase)
    × (m'.context.visible_sources ≡ hook_context.visible_sources)
    × (get_item m'.store hook_context.local_scope "constants" ≡ ref 5)
unfolding create_run_context build_run_context_payload alloc_scopes dict_or_new enter_suite_item
    text_dec lookup insert
bind_suite_item_context-restores_example =
    bind_suite_item_context-restores "test" none (some (ref 0)) (some (ref 1)) set_x hook_memory 5
      11 [] [] refl refl refl refl refl (omega arith)
