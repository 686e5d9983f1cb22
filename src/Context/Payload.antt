-- ===== src/Context/Payload.antt =====
-- A run context as a plain dict, and back: `serialize_run_context` and `deserialize_run_context`.
-- The scopes are passed on as they are, not copied.
use quality_flow.Base.{ℕ, String, Option, none, some, [], ◌∷◌}
use quality_flow.Base.Dict.{Dict, lookup}
use quality_flow.Base.Text.{strip, or_else, or_empty, or_none}
use quality_flow.Context.Store.{Value, null, text, ref, dict, Store, alloc, as_dict, set_item}
use quality_flow.Context.Record.{RunContext, Memory, last_dict, dict_or_new, create_run_context}

abbrev text_or_null : Option String → Value
text_or_null none = null
text_or_null (some s) = text s

-- `serialize_run_context`
unfoldable pub serialize_run_context : RunContext → Store → Value × Store
serialize_run_context c s =
    let (a, s') =
      alloc
        (dict (
          ("run_id", text (strip c.run_id))
          ∷ ("runEnvelope", ref c.run_envelope)
          ∷ ("global", ref c.global_scope)
          ∷ ("local", ref c.local_scope)
          ∷ ("result", ref c.result_scope)
          ∷ ("invocation_id", text_or_null (or_none (strip (or_empty c.invocation_id))))
          ∷ ("visible_sources", c.visible_sources)
          ∷ ("last", c.last)
          ∷ []))
        s in
    (ref a, s')

-- `str(v or "")` at a text or `None`
abbrev pub value_text : Value → String
value_text (text s) = s
value_text _ = ""

-- The dict that a value is, as a plain dict of items; any other value has none.
abbrev items : Store → Value → Dict Value
items s v = elim (as_dict s v) [ none ↦ [] | some (_, d) ↦ d ]

abbrev entry : String → Dict Value → Value
entry key d = elim (lookup key d) [ none ↦ null | some v ↦ v ]

abbrev non_empty_dict : Store → Value → Option ℕ
non_empty_dict s v = elim (as_dict s v) [
  | none ↦ none
  | some (a, d) ↦ elim d [ [] ↦ none | _ ∷ _ ↦ some a ]
]

-- `result_payload or {"artifacts": {}, "commands": {}, "constants": {}}`
result_or_new : Value → Store → ℕ × Store
result_or_new v s = elim (non_empty_dict s v) [
  | some a ↦ (a, s)
  | none ↦
      let (artifacts, s1) = alloc (dict []) s in
      let (commands, s2) = alloc (dict []) s1 in
      let (constants, s3) = alloc (dict []) s2 in
      alloc
        (dict (
          ("artifacts", ref artifacts)
          ∷ ("commands", ref commands)
          ∷ ("constants", ref constants)
          ∷ []))
        s3
]

last_or_new : Value → Store → Value × Store
last_or_new v s = elim (as_dict s v) [
  | some _ ↦ (v, s)
  | none ↦ let (a, s') = alloc (last_dict "" null) s in (ref a, s')
]

-- `deserialize_run_context`
unfoldable pub deserialize_run_context : Value → Store → Memory
unfolding dict_or_new result_or_new last_or_new
deserialize_run_context payload s =
    let source = items s payload in
    let envelope = items s (entry "runEnvelope" source) in
    let m =
      create_run_context
        (or_else (value_text (entry "run_id" source)) (value_text (entry "run_id" envelope)))
        (entry "event" envelope) (entry "constants" envelope)
        (or_none (strip (value_text (entry "invocation_id" source)))) s in
    let (global_constants, s1) =
      dict_or_new (entry "constants" (items s (entry "global" source))) m.store in
    let s2 = set_item m.context.global_scope "constants" global_constants s1 in
    let (local_constants, s3) =
      dict_or_new (entry "constants" (items s (entry "local" source))) s2 in
    let s4 = set_item m.context.local_scope "constants" local_constants s3 in
    let (result, s5) = result_or_new (entry "result" source) s4 in
    let (sources, s6) = dict_or_new (entry "visible_sources" source) s5 in
    let (last, s7) = last_or_new (entry "last" source) s6 in
    record {
      context = record (m.context) {
        result_scope = result;
        visible_sources = sources;
        last = last;
      };
      store = s7;
    }
