-- ===== src/Context/Access.antt =====
-- Reads and writes of a run context through paths and names. `none` stands for no bound context,
-- on which every operation does nothing.
pub mod Variables
use quality_flow.Base.{
  ℕ, ◌&&◌, not, String, ◌<>◌, Option, none, some, List, [], ◌∷◌, ◌++◌, if◌then◌else◌, ◌==◌, one_of,
  Result, ok, err,
}
use quality_flow.Base.Dict.{Dict, lookup}
use quality_flow.Base.Text.{is_empty, strip, or_else}
use quality_flow.Context.Store.{
  Value, null, ref, dict, array, Store, alloc, put, as_dict, as_array, dict_at, get_item, set_item,
}
use quality_flow.Context.Paths.{path_tokens, extract_context_root}
use quality_flow.Context.Assign.{assign_nested_value, remove_nested_value}
use quality_flow.Context.Record.{RunContext, kind_test}

-- `_target_from_root`: the address of the dict that a root stands for.
unfoldable pub target_from_root : RunContext → String → Store → Result ℕ × Store
target_from_root c root s =
    if root == "runEnvelope"
    then (ok c.run_envelope, s)
    else if root == "global"
    then (ok c.global_scope, s)
    else if root == "local"
    then (ok c.local_scope, s)
    else if root == "result"
    then (ok c.result_scope, s)
    else if root == "response"
    then elim (as_dict s (get_item s c.result_scope "commands")) [
      | some (a, _) ↦ (ok a, s)
      | none ↦
          let (a, s') = alloc (dict []) s in (ok a, set_item c.result_scope "commands" (ref a) s')
    ]
    else (err ("Unsupported context root '" <> root <> "'."), s)

-- What a test may not write to.
abbrev pub immutable_error : RunContext → String → Option String
immutable_error c root =
    if root == "global" && c.current_item_kind == kind_test
    then some "Global context is immutable during test execution."
    else if root == "runEnvelope" && c.current_item_kind == kind_test
    then some "RunEnvelope context is immutable during test execution."
    else none

-- A scope's own entries are reached by name; any other name is one of its constants.
abbrev pub scope_tokens : String → List String → List String
scope_tokens root [] = []
scope_tokens root (token ∷ rest) =
    if one_of root ("runEnvelope" ∷ "global" ∷ "local" ∷ [])
      && not (one_of token ("constants" ∷ "event" ∷ "run_id" ∷ "runEnvelope" ∷ "global" ∷ []))
    then "constants" ∷ token ∷ rest
    else token ∷ rest

abbrev pub tokens_below : Result (List String) → List String
tokens_below (ok (_ ∷ rest)) = rest
tokens_below (ok []) = []
tokens_below (err _) = []

-- `target.clear()` and `target.update(value)`: the items are read after the first call.
abbrev pub replace_root : ℕ → Value → Store → Result (Unit {0}) × Store
replace_root target value s = elim (as_dict s value) [
  | none ↦ (err "Root assignment requires a JSON object value.", s)
  | some (a, _) ↦ let s' = put target (dict []) s in (ok tt, put target (dict (dict_at s' a)) s')
]

abbrev pub assign_target : ℕ → List String → Value → Store → Result (Unit {0}) × Store
assign_target target [] value s = replace_root target value s
assign_target target (t ∷ ts) value s = assign_nested_value (ref target) (t ∷ ts) value s

-- The write once the root is known and allowed.
unfoldable pub write_root :
    RunContext → String → List String → Value → Store → Result (Unit {0}) × Store
write_root c root tokens value s =
    let (r, s') = target_from_root c root s in
    elim r [
      | ok target ↦ assign_target target (scope_tokens root tokens) value s'
      | err e ↦ (err e, s')
    ]

-- `write_context_path`
unfoldable pub write_context_path :
    Option RunContext → String → Value → Store → Result (Unit {0}) × Store
write_context_path none path value s = (ok tt, s)
write_context_path (some c) path value s = elim (extract_context_root path) [
  | err e ↦ (err e, s)
  | ok none ↦ (err "Unsupported target path. Use $.runEnvelope, $.global, $.local or $.result.", s)
  | ok (some root) ↦ elim (immutable_error c root) [
    | some e ↦ (err e, s)
    | none ↦ write_root c root (tokens_below (path_tokens path)) value s
  ]
]

unfoldable pub remove_root : RunContext → String → List String → Store → Result (Unit {0}) × Store
remove_root c root tokens s =
    let (r, s') = target_from_root c root s in
    elim r [
      | ok target ↦ (ok tt, remove_nested_value (ref target) (scope_tokens root tokens) s')
      | err e ↦ (err e, s')
    ]

-- `remove_context_path`
unfoldable pub remove_context_path : Option RunContext → String → Store → Result (Unit {0}) × Store
remove_context_path none path s = (ok tt, s)
remove_context_path (some c) path s = elim (extract_context_root path) [
  | err e ↦ (err e, s)
  | ok none ↦ (ok tt, s)
  | ok (some root) ↦ elim (immutable_error c root) [
    | some e ↦ (err e, s)
    | none ↦ remove_root c root (tokens_below (path_tokens path)) s
  ]
]

-- The scope that `set_context_var` writes to: `auto` is `local` in a test and `global` elsewhere.
abbrev pub variable_scope : RunContext → String → String
variable_scope c scope =
    if scope == "auto"
    then (if c.current_item_kind == kind_test then "local" else "global")
    else scope

-- `set_context_var`
unfoldable pub set_context_var :
    Option RunContext → String → Value → String → Store → Result (Unit {0}) × Store
set_context_var none key value scope s = (ok tt, s)
set_context_var (some c) key value scope s =
    if is_empty (strip key)
    then (err "Context variable key is required.", s)
    else write_context_path (some c)
        ("$." <> variable_scope c (strip (or_else scope "local")) <> ".constants." <> strip key)
        value s

-- The dict in a slot of a dict, which is put there if it is missing.
unfoldable pub dict_in_slot : ℕ → String → Store → ℕ × Store
dict_in_slot a key s = elim (as_dict s (get_item s a key)) [
  | some (b, _) ↦ (b, s)
  | none ↦ let (b, s') = alloc (dict []) s in (b, set_item a key (ref b) s')
]

append_item : ℕ → String → Value → Store → Store
append_item a key item s = elim (as_array s (get_item s a key)) [
  | some (items, xs) ↦ put items (array (xs ++ (item ∷ []))) s
  | none ↦ let (items, s') = alloc (array (item ∷ [])) s in set_item a key (ref items) s'
]

-- `append_assert_artifact`
unfoldable pub append_assert_artifact : Option RunContext → Value → Store → Store
unfolding dict_in_slot append_item
append_assert_artifact none artifact s = s
append_assert_artifact (some c) artifact s =
    let (artifacts, s') = dict_in_slot c.result_scope "artifacts" s in
    append_item artifacts "asserts" artifact s'

-- The items of a scope's dict of constants, `{}` where that is no dict. The properties
-- `global_vars` and `local_vars` are this at the scope's address.
abbrev pub constants_of : Store → ℕ → Dict Value
constants_of s scope = elim (as_dict s (get_item s scope "constants")) [
  | none ↦ []
  | some (_, d) ↦ d
]

-- The first of the dicts that has the name.
abbrev pub first_with : String → List (Dict Value) → Value
first_with name [] = null
first_with name (d ∷ ds) = elim (lookup name d) [ some v ↦ v | none ↦ first_with name ds ]

-- `resolve_constant_value`
unfoldable pub resolve_constant_value : Option RunContext → String → Store → Value
resolve_constant_value none name s = null
resolve_constant_value (some c) name s =
    if is_empty (strip name)
    then null
    else first_with (strip name) (
        constants_of s c.local_scope
        ∷ constants_of s c.global_scope
        ∷ constants_of s c.run_envelope
        ∷ constants_of s c.result_scope
        ∷ [])
