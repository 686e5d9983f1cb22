-- ===== src/Constants/Plan/Unique.antt =====
-- Names: no two constants of a scope that are live have one name.
use quality_flow.Base.{
  ◌≡◌, ap, ◌∙◌, Bool, true, false, ◌&&◌, inl, inr, Bool-cases, String, none, some, List, [], ◌∷◌,
  ◌==◌, one_of, arith, ok, bind, bind-eq-ok,
}
use quality_flow.Base.Dict.{lookup, insert, lookup-insert}
use quality_flow.Constants.Tables.{writable_scopes}
use quality_flow.Constants.Plan.{
  PlannedDefinition, Definitions, scopes_of, validate_duplicate_name, check_declarations, declare,
}

-- A definition that nothing has deleted.
abbrev pub IsLive : PlannedDefinition → Type 0
IsLive d = d.deleted_at_order ≡ none

abbrev pub same_slot : PlannedDefinition → PlannedDefinition → Bool
same_slot d e = d.name == e.name && d.context_scope == e.context_scope

-- Two live definitions with one name and one scope are one.
abbrev pub HasUniqueNames : Definitions → Type 0
HasUniqueNames ds =
    (i j : String) (d e : PlannedDefinition)
    → lookup i ds ≡ some d
    → lookup j ds ≡ some e
    → IsLive d
    → IsLive e
    → same_slot d e ≡ true
    → i ≡ j

-- The live definitions are among the active ones.
abbrev pub LiveAreActive : Definitions → Definitions → Type 0
LiveAreActive ds active =
    (i : String) (d : PlannedDefinition)
    → lookup i ds ≡ some d
    → IsLive d
    → lookup i active ≡ some d

no_duplicate :
    (active : Definitions) (name scope : String) (j : String) (e : PlannedDefinition)
    → validate_duplicate_name active name scope ≡ ok tt
    → lookup j active ≡ some e
    → (e.name == name && e.context_scope == scope) ≡ false
unfolding validate_duplicate_name lookup
no_duplicate [] name scope j e h k = cc
no_duplicate ((i, d) ∷ ds) name scope j e h k =
    elim (Bool-cases (d.name == name && d.context_scope == scope)) [
      | inl taken ↦ ground arith
      | inr free ↦ elim (Bool-cases (i == j)) [
        | inl same ↦ ground arith
        | inr differ ↦ no_duplicate ds name scope j e (ground arith) (ground arith)
      ]
    ]

same_slot_comm : (d e : PlannedDefinition) → same_slot d e ≡ same_slot e d
same_slot_comm d e = ground arith

insert-HasUniqueNames :
    (d : PlannedDefinition) (ds active : Definitions)
    → HasUniqueNames ds
    → LiveAreActive ds active
    → validate_duplicate_name active d.name d.context_scope ≡ ok tt
    → HasUniqueNames (insert d.definition_id d ds)
insert-HasUniqueNames d ds active u l v i j e f le lf live_e live_f same =
    elim (Bool-cases (d.definition_id == i)) [
      | inl here ↦ elim (Bool-cases (d.definition_id == j)) [
        | inl here' ↦ ground arith
        | inr there' ↦
            let at_j : lookup j ds ≡ some f =
              ground (arith, lookup-insert j d.definition_id d ds) in
            let is_d : e ≡ d = ground (arith, lookup-insert i d.definition_id d ds) in
            let clash = no_duplicate active d.name d.context_scope j f v (l j f at_j live_f) in
            ground (arith, same_slot_comm e f, ap (same_slot f) is_d)
      ]
      | inr there ↦ elim (Bool-cases (d.definition_id == j)) [
        | inl here' ↦
            let at_i : lookup i ds ≡ some e =
              ground (arith, lookup-insert i d.definition_id d ds) in
            let is_d : f ≡ d = ground (arith, lookup-insert j d.definition_id d ds) in
            let clash = no_duplicate active d.name d.context_scope i e v (l i e at_i live_e) in
            ground (arith, ap (same_slot e) is_d)
        | inr there' ↦
            u i j e f (ground (arith, lookup-insert i d.definition_id d ds))
              (ground (arith, lookup-insert j d.definition_id d ds)) live_e live_f same
      ]
    ]

insert-LiveAreActive :
    (d : PlannedDefinition) (ds active : Definitions)
    → LiveAreActive ds active
    → LiveAreActive (insert d.definition_id d ds) (insert d.definition_id d active)
insert-LiveAreActive d ds active l i e le live = elim (Bool-cases (d.definition_id == i)) [
  | inl here ↦
      ground (arith, lookup-insert i d.definition_id d ds, lookup-insert i d.definition_id d active)
  | inr there ↦
      lookup-insert i d.definition_id d active
      ∙ rw there (l i e (ground (arith, lookup-insert i d.definition_id d ds)) live)
]

-- What the loop over the declarations checks of the first one.
pub check_declarations-cons :
    (section : String) (d : PlannedDefinition) (new : List PlannedDefinition) (active : Definitions)
    → check_declarations section (d ∷ new) active ≡ ok tt
    → (one_of d.context_scope (scopes_of section writable_scopes) ≡ true)
      × (validate_duplicate_name active d.name d.context_scope ≡ ok tt)
      × (check_declarations section new (insert d.definition_id d active) ≡ ok tt)
unfolding check_declarations
check_declarations-cons section d new active h =
    elim (Bool-cases (one_of d.context_scope (scopes_of section writable_scopes))) [
      | inr refused ↦ ground arith
      | inl writable ↦
          let h' : bind (validate_duplicate_name active d.name d.context_scope)
                (λ _. check_declarations section new (insert d.definition_id d active))
              ≡ ok tt =
            ground arith in
          let (_, v, k) = bind-eq-ok (validate_duplicate_name active d.name d.context_scope) _ h' in
          (writable, v, k)
    ]

-- The declarations of a command keep the names apart.
pub declare-HasUniqueNames :
    (section : String) (new : List PlannedDefinition) (ds active : Definitions)
    → check_declarations section new active ≡ ok tt
    → HasUniqueNames ds
    → LiveAreActive ds active
    → HasUniqueNames (declare new ds)
declare-HasUniqueNames section [] ds active h u l = u
declare-HasUniqueNames section (d ∷ new) ds active h u l =
    let (_, v, k) = check_declarations-cons section d new active h in
    declare-HasUniqueNames section new (insert d.definition_id d ds)
      (insert d.definition_id d active) k (insert-HasUniqueNames d ds active u l v)
      (insert-LiveAreActive d ds active l)
