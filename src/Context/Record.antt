-- ===== src/Context/Record.antt =====
-- The class `RunContext`, and the objects that a new one is made of.
pub mod Fresh
use quality_flow.Base.{ℕ, String, Option, none, some, [], ◌∷◌}
use quality_flow.Base.Text.{strip, or_empty, or_none}
use quality_flow.Context.Store.{Value, null, text, ref, Object, dict, Store, alloc, as_dict}

-- The four scopes are dicts in the store. `last` is the dict of the last item's result.
pub record RunContext : Type 0 where
  pub run_id : String
  pub run_envelope : ℕ
  pub global_scope : ℕ
  pub local_scope : ℕ
  pub result_scope : ℕ
  pub invocation_id : Option String
  pub current_item_kind : String
  pub current_hook_phase : Option String
  pub visible_sources : Value
  pub last : Value

-- A context and the objects that it and its users hold.
pub record Memory : Type 0 where
  pub context : RunContext
  pub store : Store

abbrev pub kind_test : String
kind_test = "test"

abbrev pub kind_hook : String
kind_hook = "hook"

-- `v if isinstance(v, dict) else {}`
unfoldable pub dict_or_new : Value → Store → Value × Store
dict_or_new v s = elim (as_dict s v) [
  | some _ ↦ (v, s)
  | none ↦ let (a, s') = alloc (dict []) s in (ref a, s')
]

-- `{"item_id": item_id, "data": data}`
abbrev pub last_dict : String → Value → Object
last_dict item_id data_value = dict (("item_id", text item_id) ∷ ("data", data_value) ∷ [])

-- The addresses of the envelope and of the three scopes.
pub record Scopes : Type 0 where
  pub envelope : ℕ
  pub global : ℕ
  pub local : ℕ
  pub result : ℕ

-- The dicts of `_build_run_context_payload`, once the event and the variables are dicts.
unfoldable pub alloc_scopes : String → Value → Value → Store → Scopes × Store
alloc_scopes run_id event vars s0 =
    let (envelope, s1) =
      alloc (dict (("run_id", text (strip run_id)) ∷ ("event", event) ∷ ("constants", vars) ∷ []))
        s0 in
    let (global_constants, s2) = alloc (dict []) s1 in
    let (global, s3) =
      alloc (dict (("runEnvelope", ref envelope) ∷ ("constants", ref global_constants) ∷ [])) s2 in
    let (local_constants, s4) = alloc (dict []) s3 in
    let (local, s5) =
      alloc (dict (("global", ref global) ∷ ("constants", ref local_constants) ∷ [])) s4 in
    let (artifacts, s6) = alloc (dict []) s5 in
    let (commands, s7) = alloc (dict []) s6 in
    let (result_constants, s8) = alloc (dict []) s7 in
    let (result, s9) =
      alloc
        (dict (
          ("artifacts", ref artifacts)
          ∷ ("commands", ref commands)
          ∷ ("constants", ref result_constants)
          ∷ []))
        s8 in
    (record { envelope = envelope; global = global; local = local; result = result }, s9)

-- `_build_run_context_payload`
unfoldable pub build_run_context_payload : String → Value → Value → Store → Scopes × Store
build_run_context_payload run_id event initial_vars s0 =
    let (ev, s1) = dict_or_new event s0 in
    let (vars, s2) = dict_or_new initial_vars s1 in alloc_scopes run_id ev vars s2

-- `create_run_context`, with the default values of the class for the other fields.
unfoldable pub create_run_context : String → Value → Value → Option String → Store → Memory
create_run_context run_id event initial_vars invocation_id s =
    let (scopes, s1) = build_run_context_payload run_id event initial_vars s in
    let (sources, s2) = alloc (dict []) s1 in
    let (last, s3) = alloc (last_dict "" null) s2 in
    record {
      context = record {
        run_id = strip run_id;
        run_envelope = scopes.envelope;
        global_scope = scopes.global;
        local_scope = scopes.local;
        result_scope = scopes.result;
        invocation_id = or_none (strip (or_empty invocation_id));
        current_item_kind = kind_hook;
        current_hook_phase = none;
        visible_sources = ref sources;
        last = ref last;
      };
      store = s3;
    }
