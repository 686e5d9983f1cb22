-- ===== src/Constants/Plan/Checks.antt =====
-- What a command may refer to.
use quality_flow.Base.{
  ◌≡◌, ◌↔◌, refl, sym, ap, subst, ◌∙◌, true, false, inl, inr, Bool-cases, String, Option, none,
  some, List, [], ◌∷◌, if◌then◌else◌, ◌==◌, one_of, All, arith, ok, bind-eq-ok,
}
use quality_flow.Base.Int.{ℤ}
use quality_flow.Base.Dict.{lookup, IsApart, IsDict, lookup-IsApart}
use quality_flow.Base.Text.{strip, or_empty}
use quality_flow.Constants.Tables.{
  type_dataset, type_json_array, type_compatibility, readable_scopes, writable_scopes,
}
use quality_flow.Constants.Config.{
  ConstantConfig, RefRole, Refs, definition_refs, ConfigClass, delete_constant, init_constant,
  run_suite, read_api, write_api, other_command, HttpFields, no_fields, field, HttpInputNode, node,
  object, array, other,
}
use quality_flow.Constants.Plan.{
  PlannedDefinition, Definitions, scopes_of, is_active, active_definitions, is_compatible,
  is_target, validate_visible_ref, validate_ref, validate_refs, validate_form_body,
  validate_form_fields, form_definition, form_node, validate_ref_visibility,
}

abbrev pub active_of : List String → ℤ → Option PlannedDefinition → Option PlannedDefinition
active_of scopes order none = none
active_of scopes order (some d) = if is_active scopes order d then some d else none

active_definitions-IsApart :
    (scopes : List String) (order : ℤ) (k : String) (ds : Definitions)
    → IsApart k ds
    → IsApart k (active_definitions scopes order ds)
unfolding active_definitions
active_definitions-IsApart scopes order k [] h = tt
active_definitions-IsApart scopes order k ((i, d) ∷ ds) (h, hs) =
    elim (Bool-cases (is_active scopes order d)) [
      | inl active ↦ rw active (h, active_definitions-IsApart scopes order k ds hs)
      | inr hidden ↦ rw hidden (active_definitions-IsApart scopes order k ds hs)
    ]

-- The definition of an id that a command sees is the one of the map, if it is active.
pub active_definitions-lookup :
    (scopes : List String) (order : ℤ) (id : String) (ds : Definitions)
    → IsDict ds
    → lookup id (active_definitions scopes order ds) ≡ active_of scopes order (lookup id ds)
unfolding active_definitions lookup
active_definitions-lookup scopes order id [] h = refl
active_definitions-lookup scopes order id ((i, d) ∷ ds) (h, hs) =
    elim (Bool-cases (is_active scopes order d)) [
      | inl active ↦ elim (Bool-cases (i == id)) [
        | inl same ↦ rw (active, same, active) refl
        | inr differ ↦ rw (active, differ) (active_definitions-lookup scopes order id ds hs)
      ]
      | inr hidden ↦ elim (Bool-cases (i == id)) [
        | inl same ↦
            rw (hidden, same, hidden)
              (lookup-IsApart id _ (
                active_definitions-IsApart scopes order id ds
                  (subst (λ k. IsApart k ds) (ground arith) h)))
        | inr differ ↦ rw (hidden, differ) (active_definitions-lookup scopes order id ds hs)
      ]
    ]

-- A reference of a command in a section is to a definition in the map that is active there, has a
-- type that fits the command and, if it is to be deleted, a scope that the section writes to.
pub record RefAllowed (command_code section : String) (order : ℤ) (ds : Definitions)
    (ref : RefRole × String) : Type 0 where
  pub definition : PlannedDefinition
  pub found : lookup ref.1 ds ≡ some definition
  pub active : is_active (scopes_of section readable_scopes) order definition ≡ true
  pub compatible :
      is_compatible (lookup command_code type_compatibility) definition.value_type ≡ true
  pub deletable :
      is_target ref.0 ≡ true
      → one_of definition.context_scope (scopes_of section writable_scopes) ≡ true

module _ (code section : String) (order : ℤ) (ds : Definitions) (distinct : IsDict ds) where
  ref_sound :
      (role : RefRole) (id : String) (found : Option PlannedDefinition)
      → lookup id ds ≡ found
      → validate_ref code section role id
          (active_of (scopes_of section readable_scopes) order found)
        ≡ ok tt
      → RefAllowed code section order ds (role, id)
  unfolding validate_ref validate_visible_ref
  ref_sound role id none e h = cc
  ref_sound role id (some d) e h =
      elim (Bool-cases (is_active (scopes_of section readable_scopes) order d)) [
        | inl active ↦ record {
          definition = d;
          found = e;
          active = active;
          compatible = ground arith;
          deletable = λ t. ground arith;
        }
        | inr hidden ↦ ground arith
      ]

  refs_sound :
      (refs : Refs)
      → validate_refs code section refs
          (active_definitions (scopes_of section readable_scopes) order ds)
        ≡ ok tt
      → All (RefAllowed code section order ds) refs
  unfolding validate_refs
  refs_sound [] h = tt
  refs_sound ((role, id) ∷ refs) h =
      let (_, e, f) = bind-eq-ok _ _ h in
      (
        ref_sound role id (lookup id ds) refl (
            ap (validate_ref code section role id) (
              sym (
                active_definitions-lookup (scopes_of section readable_scopes) order id ds distinct))
            ∙ e),
        refs_sound refs f,
      )

  refs_complete :
      (refs : Refs)
      → All (RefAllowed code section order ds) refs
      → validate_refs code section refs
          (active_definitions (scopes_of section readable_scopes) order ds)
        ≡ ok tt
  unfolding validate_refs validate_ref validate_visible_ref
  refs_complete [] h = refl
  refs_complete ((role, id) ∷ refs) (a, h) =
      rw
        (
          active_definitions-lookup (scopes_of section readable_scopes) order id ds distinct,
          a.found,
          a.active,
        )
        (ground (arith, refs_complete refs h, a.compatible, a.deletable))

-- A node in a field of a form is no source, and if it refers to a constant that is active there, this
-- is neither a dataset nor an array.
pub record NodeAllowed (section : String) (order : ℤ) (ds : Definitions) (n : HttpInputNode)
    : Type 0 where
  pub no_source : (n.kind == "source") ≡ false
  pub no_rows :
      (d : PlannedDefinition)
      → (n.kind == "runtimeValue") ≡ true
      → lookup (strip (or_empty n.definition_id)) ds ≡ some d
      → is_active (scopes_of section readable_scopes) order d ≡ true
      → one_of d.value_type (type_dataset ∷ type_json_array ∷ []) ≡ false

-- So it is for each field that is a node.
abbrev pub FieldsAllowed : String → ℤ → Definitions → HttpFields → Type 0
FieldsAllowed section order ds no_fields = Unit
FieldsAllowed section order ds (field k (node n) fields) =
    NodeAllowed section order ds n × FieldsAllowed section order ds fields
FieldsAllowed section order ds (field k v fields) = FieldsAllowed section order ds fields

-- So it is for the body of a `writeApi` command that is a form.
abbrev pub FormAllowed : String → ℤ → Definitions → ConfigClass → Type 0
FormAllowed section order ds (write_api request body_type (some (object fields))) =
    (strip (or_empty body_type) == "formUrlEncoded") ≡ true → FieldsAllowed section order ds fields
FormAllowed section order ds c = Unit

module _ (section : String) (order : ℤ) (ds : Definitions) (distinct : IsDict ds) where
  abbrev readable : List String
  readable = scopes_of section readable_scopes

  form_definition_sound :
      (k : String) (found : Option PlannedDefinition)
      → form_definition k (active_of readable order found) ≡ ok tt
      → (d : PlannedDefinition) → found ≡ some d
      → is_active readable order d ≡ true
      → one_of d.value_type (type_dataset ∷ type_json_array ∷ []) ≡ false
  form_definition_sound k none h d e active = cc
  form_definition_sound k (some c) h d e active =
      let same = ap (λ o. elim o [ none ↦ c | some x ↦ x ]) e in
      subst (λ x. one_of x.value_type (type_dataset ∷ type_json_array ∷ []) ≡ false) same
        (checked (subst (λ x. is_active readable order x ≡ true) (sym same) active))
    where
      checked :
          is_active readable order c ≡ true
          → one_of c.value_type (type_dataset ∷ type_json_array ∷ []) ≡ false
      checked a = ground arith

  form_definition_complete :
      (k : String) (found : Option PlannedDefinition)
      → ((d : PlannedDefinition)
          → found ≡ some d
          → is_active readable order d ≡ true
          → one_of d.value_type (type_dataset ∷ type_json_array ∷ []) ≡ false)
      → form_definition k (active_of readable order found) ≡ ok tt
  form_definition_complete k none h = refl
  form_definition_complete k (some c) h = elim (Bool-cases (is_active readable order c)) [
    | inl active ↦ rw (active, h c refl active) refl
    | inr hidden ↦ rw hidden refl
  ]

  form_node_sound :
      (k : String) (n : HttpInputNode)
      → form_node k n (active_definitions readable order ds) ≡ ok tt
      → NodeAllowed section order ds n
  form_node_sound k n h = record {
    no_source = ground arith;
    no_rows = λ d runtime found active.
        form_definition_sound k (lookup (strip (or_empty n.definition_id)) ds)
          (ap (form_definition k) (
              sym (
                active_definitions-lookup readable order (strip (or_empty n.definition_id)) ds
                  distinct))
            ∙ ground arith)
          d found active;
  }

  form_node_complete :
      (k : String) (n : HttpInputNode)
      → NodeAllowed section order ds n
      → form_node k n (active_definitions readable order ds) ≡ ok tt
  form_node_complete k n h = elim (Bool-cases (n.kind == "runtimeValue")) [
    | inl runtime ↦
        rw
          (
            h.no_source,
            runtime,
            active_definitions-lookup readable order (strip (or_empty n.definition_id)) ds distinct,
          )
          (form_definition_complete k (lookup (strip (or_empty n.definition_id)) ds)
            (λ d. h.no_rows d runtime))
    | inr not_runtime ↦ rw (h.no_source, not_runtime) refl
  ]

  form_fields_sound :
      (fields : HttpFields)
      → validate_form_fields fields (active_definitions readable order ds) ≡ ok tt
      → FieldsAllowed section order ds fields
  unfolding validate_form_fields
  form_fields_sound no_fields h = tt
  form_fields_sound (field k (node n) fields) h =
      let (_, e, f) = bind-eq-ok (form_node k n (active_definitions readable order ds)) _ h in
      (form_node_sound k n e, form_fields_sound fields f)
  form_fields_sound (field k (object o) fields) h = form_fields_sound fields h
  form_fields_sound (field k (array a) fields) h = form_fields_sound fields h
  form_fields_sound (field k other fields) h = form_fields_sound fields h

  form_fields_complete :
      (fields : HttpFields)
      → FieldsAllowed section order ds fields
      → validate_form_fields fields (active_definitions readable order ds) ≡ ok tt
  unfolding validate_form_fields
  form_fields_complete no_fields h = refl
  form_fields_complete (field k (node n) fields) (h, hs) =
      rw (form_node_complete k n h) (form_fields_complete fields hs)
  form_fields_complete (field k (object o) fields) h = form_fields_complete fields h
  form_fields_complete (field k (array a) fields) h = form_fields_complete fields h
  form_fields_complete (field k other fields) h = form_fields_complete fields h

  form_body_iff :
      (c : ConfigClass)
      → (validate_form_body c (active_definitions readable order ds) ≡ ok tt)
        ↔ FormAllowed section order ds c
  unfolding validate_form_body
  form_body_iff (write_api request body_type (some (object fields))) = (
    λ h form. form_fields_sound fields (ground arith),
    λ h. elim (Bool-cases (strip (or_empty body_type) == "formUrlEncoded")) [
      | inl form ↦ rw form (form_fields_complete fields (h form))
      | inr none_such ↦ rw none_such refl
    ],
  )
  form_body_iff (write_api request body_type (some (node n))) = (λ h. tt, λ h. refl)
  form_body_iff (write_api request body_type (some (array a))) = (λ h. tt, λ h. refl)
  form_body_iff (write_api request body_type (some other)) = (λ h. tt, λ h. refl)
  form_body_iff (write_api request body_type none) = (λ h. tt, λ h. refl)
  form_body_iff (delete_constant id) = (λ h. tt, λ h. refl)
  form_body_iff (init_constant id name context value_type) = (λ h. tt, λ h. refl)
  form_body_iff (run_suite ids) = (λ h. tt, λ h. refl)
  form_body_iff (read_api r) = (λ h. tt, λ h. refl)
  form_body_iff other_command = (λ h. tt, λ h. refl)

-- A command passes the check of its references exactly if each of them is to a definition of the
-- map that was declared by an earlier command or in a section before, has not been deleted yet, is
-- in a scope that the command's section reads, has a type that fits the command, and is in a scope
-- that the section writes to if the command deletes it; and if in the body of a `writeApi` command
-- that is a form, no field is a source or refers to a definition seen there that is an array or a
-- dataset.
pub validate_ref_visibility_iff :
    (cfg : ConstantConfig) (section : String) (order : ℤ) (ds : Definitions)
    → IsDict ds
    → (validate_ref_visibility cfg section order ds ≡ ok tt) ↔ (
        All (RefAllowed cfg.command_code section order ds) (definition_refs cfg)
        × FormAllowed section order ds cfg.config_class)
unfolding validate_ref_visibility
validate_ref_visibility_iff cfg section order ds distinct = (sound, complete)
  where
    sound :
        validate_ref_visibility cfg section order ds ≡ ok tt
        → All (RefAllowed cfg.command_code section order ds) (definition_refs cfg)
          × FormAllowed section order ds cfg.config_class
    sound h =
        let (_, e, f) =
          bind-eq-ok
            (validate_refs cfg.command_code section (definition_refs cfg)
              (active_definitions (scopes_of section readable_scopes) order ds))
            _ h in
        (
          refs_sound cfg.command_code section order ds distinct (definition_refs cfg) e,
          (form_body_iff section order ds distinct cfg.config_class).0 f,
        )

    complete :
        All (RefAllowed cfg.command_code section order ds) (definition_refs cfg)
          × FormAllowed section order ds cfg.config_class
        → validate_ref_visibility cfg section order ds ≡ ok tt
    complete (h, form) =
        rw (refs_complete cfg.command_code section order ds distinct (definition_refs cfg) h)
          ((form_body_iff section order ds distinct cfg.config_class).1 form)
