-- ===== src/Constants/Plan/Invariant.antt =====
-- What holds of the definitions after each command of a section.
use quality_flow.Base.{
  ◌≡◌, refl, ap, subst, ◌∙◌, true, inl, inr, Bool-cases, String, Option, none, some, List, [], ◌∷◌,
  ◌==◌, one_of, All, All-append, arith, ok,
}
use quality_flow.Base.Int.{ℤ, suc_ℤ, ◌≤ℤ◌, ltb-suc_ℤ}
use quality_flow.Base.Dict.{lookup, insert, lookup-insert, IsDict, insert-IsDict}
use quality_flow.Constants.Tables.{writable_scopes}
use quality_flow.Constants.Config.{
  ConstantConfig, ConfigClass, delete_constant, init_constant, run_suite, read_api, write_api,
  other_command, ResultConstant,
}
use quality_flow.Constants.Plan.{
  PlannedDefinition, Definitions, scopes_of, is_active, active_definitions, check_declarations,
  all_scopes, declare, planned_declarations, init_declaration, result_declaration,
}
use quality_flow.Constants.Plan.Checks.{active_of, active_definitions-lookup}
use quality_flow.Constants.Plan.Unique.{
  IsLive, HasUniqueNames, LiveAreActive, check_declarations-cons,
}

-- A map whose ids are distinct, whose live definitions have distinct names in each scope, and whose
-- scopes are the four.
pub record IsNamed (ds : Definitions) : Type 0 where
  pub distinct : IsDict ds
  pub unique : HasUniqueNames ds
  pub known :
      (i : String) (d : PlannedDefinition)
      → lookup i ds ≡ some d
      → one_of d.context_scope all_scopes ≡ true

-- And nothing of it is declared after an order.
pub record IsPlanned (order : ℤ) (ds : Definitions) : Type 0 where
  pub named : IsNamed ds
  pub before :
      (i : String) (d : PlannedDefinition) → lookup i ds ≡ some d → d.command_order ≤ℤ order

-- A definition of a section: it is live, and in a scope that the section writes to.
pub record IsDeclared (section : String) (d : PlannedDefinition) : Type 0 where
  pub of_section : d.section_type ≡ section
  pub writable : one_of d.context_scope (scopes_of section writable_scopes) ≡ true
  pub live : IsLive d

pub empty-IsNamed : IsNamed []
unfolding lookup
empty-IsNamed = record {
  distinct = tt;
  unique = λ i j d e h. ground arith;
  known = λ i d h. ground arith;
}

pub live_are_active :
    (order : ℤ) (ds : Definitions)
    → IsPlanned order ds
    → LiveAreActive ds (active_definitions all_scopes (suc_ℤ order) ds)
live_are_active order ds p i d h live =
    active_definitions-lookup all_scopes (suc_ℤ order) i ds p.named.distinct
    ∙ ap (active_of all_scopes (suc_ℤ order)) h
    ∙ rw active refl
  where
    active : is_active all_scopes (suc_ℤ order) d ≡ true
    active =
        ground (arith, p.named.known i d h, ltb-suc_ℤ d.command_order order (p.before i d h), live)

pub writable_known :
    (section scope : String)
    → one_of scope (scopes_of section writable_scopes) ≡ true
    → one_of scope all_scopes ≡ true
unfolding lookup
writable_known section scope h = ground arith

pub check_declarations-writable :
    (section : String) (new : List PlannedDefinition) (active : Definitions)
    → check_declarations section new active ≡ ok tt
    → All (λ d. one_of d.context_scope (scopes_of section writable_scopes) ≡ true) new
check_declarations-writable section [] active h = tt
check_declarations-writable section (d ∷ new) active h =
    let (writable, _, k) = check_declarations-cons section d new active h in
    (writable, check_declarations-writable section new (insert d.definition_id d active) k)

-- What holds of each declaration and of each definition of the map holds of each after it.
pub declare-lookup :
    (P : PlannedDefinition → Type 0) (new : List PlannedDefinition) (ds : Definitions)
    → All P new
    → ((i : String) (d : PlannedDefinition) → lookup i ds ≡ some d → P d)
    → (i : String) (d : PlannedDefinition) → lookup i (declare new ds) ≡ some d
    → P d
declare-lookup P [] ds a h i d e = h i d e
declare-lookup P (n ∷ new) ds (a, rest) h i d e =
    declare-lookup P new (insert n.definition_id n ds) rest step i d e
  where
    step :
        (j : String) (f : PlannedDefinition) → lookup j (insert n.definition_id n ds) ≡ some f → P f
    step j f g = elim (Bool-cases (n.definition_id == j)) [
      | inl same ↦ subst P (ground (arith, lookup-insert j n.definition_id n ds)) a
      | inr differ ↦ h j f (ground (arith, lookup-insert j n.definition_id n ds))
    ]

pub declare-IsDict :
    (new : List PlannedDefinition) (ds : Definitions) → IsDict ds → IsDict (declare new ds)
declare-IsDict [] ds h = h
declare-IsDict (d ∷ new) ds h = declare-IsDict new _ (insert-IsDict d.definition_id d ds h)

-- What the declarations of a command have in common.
pub record IsNew (order : ℤ) (section : String) (d : PlannedDefinition) : Type 0 where
  pub order_is : d.command_order ≡ order
  pub section_is : d.section_type ≡ section
  pub live : IsLive d

init-IsNew :
    (c : ConfigClass) (id : String) (order : ℤ) (section : String)
    → All (IsNew order section) (init_declaration c id order section)
init-IsNew (delete_constant t) id order section = tt
init-IsNew (init_constant i n k v) id order section =
    (record { order_is = refl; section_is = refl; live = refl }, tt)
init-IsNew (run_suite ids) id order section = tt
init-IsNew (read_api r) id order section = tt
init-IsNew (write_api r t b) id order section = tt
init-IsNew other_command id order section = tt

result-IsNew :
    (r : Option ResultConstant) (code id : String) (order : ℤ) (section : String)
    → All (IsNew order section) (result_declaration r code id order section)
result-IsNew none code id order section = tt
result-IsNew (some r) code id order section =
    (record { order_is = refl; section_is = refl; live = refl }, tt)

pub planned-IsNew :
    (cfg : ConstantConfig) (id : String) (order : ℤ) (section : String)
    → All (IsNew order section) (planned_declarations cfg id order section)
unfolding planned_declarations
planned-IsNew cfg id order section =
    All-append (IsNew order section) _ _ (init-IsNew cfg.config_class id order section)
      (result-IsNew cfg.result_constant cfg.command_code id order section)
