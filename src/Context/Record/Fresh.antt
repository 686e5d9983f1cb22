-- ===== src/Context/Record/Fresh.antt =====
-- How the scopes of a new run context are joined.
use quality_flow.Base.{ℕ, suc, ◌≡◌, ◌≢◌, refl, String, Option, some, [], ◌∷◌, arith, text_dec}
use quality_flow.Base.Dict.{Dict, lookup}
use quality_flow.Context.Store.{Value, ref, dict, Store, get_item}
use quality_flow.Context.Record.{
  RunContext, alloc_scopes, build_run_context_payload, create_run_context,
}
use quality_flow.Context.Access.Variables.{HasConstants, HasScopes}

-- The scopes as they are laid out from an address on.
pub record AreJoined (c : RunContext) (s : Store) (n : ℕ) : Type 0 where
  pub scopes_own : HasScopes c s (suc (suc (suc n))) (suc n)
  pub local_global : get_item s c.local_scope "global" ≡ ref c.global_scope
  pub global_envelope : get_item s c.global_scope "runEnvelope" ≡ ref c.run_envelope

abbrev pub local_items : ℕ → Dict Value
local_items n = ("global", ref (suc (suc n))) ∷ ("constants", ref (suc (suc (suc n)))) ∷ []

abbrev pub global_items : ℕ → Dict Value
global_items n = ("runEnvelope", ref n) ∷ ("constants", ref (suc n)) ∷ []

module _ (scope a : ℕ) (s : Store) (d : Dict Value) where
  -- A scope whose constants are empty.
  fresh_constants :
      s.cell scope ≡ some (dict d)
      → lookup "constants" d ≡ some (ref a)
      → s.cell a ≡ some (dict [])
      → a ≢ scope
      → HasConstants s scope a
  fresh_constants e f g ne = record {
    scope_items = d;
    scope_cell = e;
    entry = f;
    items = [];
    items_cell = g;
    apart = ne;
  }

-- In a new run context the local and the global scope have dicts of constants of their own, the
-- local scope refers to the global one, and the global one to the run's envelope, whatever event
-- and variables it was made from.
pub create_run_context-AreJoined :
    (run_id : String) (event vars : Value) (invocation_id : Option String) (s : Store)
    → let m = create_run_context run_id event vars invocation_id s in
      AreJoined m.context m.store m.context.run_envelope
unfolding create_run_context build_run_context_payload alloc_scopes text_dec lookup
create_run_context-AreJoined run_id event vars invocation_id s = record {
  scopes_own = record {
    local_own =
        fresh_constants _ _ _ (local_items run_envelope) (ground arith) refl (ground arith)
          (omega arith);
    global_own =
        fresh_constants _ _ _ (global_items run_envelope) (ground arith) refl (ground arith)
          (omega arith);
    constants_apart = omega arith;
    local_apart = omega arith;
    global_apart = omega arith;
  };
  local_global = ground arith;
  global_envelope = ground arith;
}
  where
    open (create_run_context run_id event vars invocation_id s).context use {run_envelope}
