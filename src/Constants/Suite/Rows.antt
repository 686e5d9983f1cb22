-- ===== src/Constants/Suite/Rows.antt =====
-- Which rows the table has after a suite's definitions are written.
use quality_flow.Base.{
  ℕ, ◌≡◌, refl, sym, ap, subst, ◌∙◌, inl, inr, not, Option-cases, String, Option, none, some, List,
  [], ◌∷◌, ◌++◌, All, All-append, arith, Result, ok, bind-eq-ok, ok_injective,
}
use quality_flow.Base.Dict.{Dict, lookup}
use quality_flow.Context.Store.{Value}
use quality_flow.Suite.Item.{SuiteItem}
use quality_flow.Constants.Tables.{
  suite_section_test, suite_section_before_all, suite_section_before_each, suite_section_after_each,
  suite_section_after_all,
}
use quality_flow.Constants.Config.{ConstantConfig}
use quality_flow.Constants.Plan.{PlannedDefinition, Definitions, plan_definitions_for_commands}
use quality_flow.Constants.Plan.Invariant.{IsDeclared}
use quality_flow.Constants.Plan.Declared.{plan_definitions-IsDeclared}
use quality_flow.Constants.Mock.{is_owner}
use quality_flow.Constants.Mock.Rows.{keep, keep-keep}
use quality_flow.Constants.Suite.{
  DefinitionEntity, suite_entities, commands_for_item, rebuild_hook, rebuild_tests,
  rebuild_sections, delete_by_suite_id, stored_hooks, stored_tests,
  rebuild_suite_constant_definitions,
}

-- A row of a suite: its definition is in a scope that its section writes to.
pub record IsSuiteRow (suite_id : String) (e : DefinitionEntity) : Type 0 where
  pub declared : IsDeclared e.definition.section_type e.definition
  pub of_suite : e.suite_id ≡ some suite_id

suite_entities-IsSuiteRow :
    (suite_id item_id section : String) (ds : List PlannedDefinition)
    → All (IsDeclared section) ds
    → All (IsSuiteRow suite_id) (suite_entities suite_id item_id ds)
suite_entities-IsSuiteRow suite_id item_id section [] h = tt
suite_entities-IsSuiteRow suite_id item_id section (d ∷ ds) (h, hs) = (
  record { declared = subst (λ t. IsDeclared t d) (sym h.of_section) h; of_suite = refl },
  suite_entities-IsSuiteRow suite_id item_id section ds hs,
)

module _ {Raw : Type 0} (convert : Raw → Result ConstantConfig) (new_id : ℕ → String)
    (source_type : Value → String) where
  rebuild_hook-rows :
      (suite_id : String) (hook : Option (SuiteItem Raw)) (section : String) (initial : Definitions)
      (r : List DefinitionEntity × Definitions)
      → rebuild_hook convert new_id source_type suite_id hook section initial ≡ ok r
      → All (IsSuiteRow suite_id) r.0
  unfolding rebuild_hook
  rebuild_hook-rows suite_id none section initial r h =
      subst (λ p. All (IsSuiteRow suite_id) p.0) (ok_injective h) tt
  rebuild_hook-rows suite_id (some item) section initial r h =
      let commands = commands_for_item item.operations 1 in
      let (plan, e, f) =
        bind-eq-ok (plan_definitions_for_commands convert new_id commands section initial) _ h in
      subst (λ p. All (IsSuiteRow suite_id) p.0) (ok_injective f)
        (suite_entities-IsSuiteRow suite_id item.id section plan.0
          (plan_definitions-IsDeclared convert new_id section commands initial plan e))

  rebuild_tests-rows :
      (suite_id : String) (tests : List (SuiteItem Raw)) (initial : Definitions)
      (rows : List DefinitionEntity)
      → rebuild_tests convert new_id source_type suite_id tests initial ≡ ok rows
      → All (IsSuiteRow suite_id) rows
  unfolding rebuild_tests
  rebuild_tests-rows suite_id [] initial rows h =
      subst (All (IsSuiteRow suite_id)) {x = []} (ground arith) tt
  rebuild_tests-rows suite_id (test ∷ tests) initial rows h =
      let (r, e, f) =
        bind-eq-ok
          (rebuild_hook convert new_id source_type suite_id (some test) suite_section_test initial)
          _ h in
      let (more, g, k) =
        bind-eq-ok (rebuild_tests convert new_id source_type suite_id tests initial) _ f in
      subst (All (IsSuiteRow suite_id)) {x = r.0 ++ more} (ground arith) (
        All-append (IsSuiteRow suite_id) r.0 more
          (rebuild_hook-rows suite_id (some test) suite_section_test initial r e)
          (rebuild_tests-rows suite_id tests initial more g))

  rebuild_sections-rows :
      (suite_id : String) (hooks : Dict (SuiteItem Raw)) (tests : List (SuiteItem Raw))
      (rows : List DefinitionEntity)
      → rebuild_sections convert new_id source_type suite_id hooks tests ≡ ok rows
      → All (IsSuiteRow suite_id) rows
  unfolding rebuild_sections
  rebuild_sections-rows suite_id hooks tests rows h =
      let (all, e, h1) = bind-eq-ok (rebuild "before-all" suite_section_before_all []) _ h in
      let a = rebuild_hook-rows suite_id (lookup "before-all" hooks) _ _ all e in
      let (each, f, h2) = bind-eq-ok (rebuild "before-each" suite_section_before_each all.1) _ h1 in
      let b = rebuild_hook-rows suite_id (lookup "before-each" hooks) _ _ each f in
      let (mid, g, h3) =
        bind-eq-ok (rebuild_tests convert new_id source_type suite_id tests each.1) _ h2 in
      let m = rebuild_tests-rows suite_id tests each.1 mid g in
      let (after, i, h4) = bind-eq-ok (rebuild "after-each" suite_section_after_each each.1) _ h3 in
      let c = rebuild_hook-rows suite_id (lookup "after-each" hooks) _ _ after i in
      let (last, j, h5) = bind-eq-ok (rebuild "after-all" suite_section_after_all all.1) _ h4 in
      let d = rebuild_hook-rows suite_id (lookup "after-all" hooks) _ _ last j in
      let P = All (IsSuiteRow suite_id) in
      subst P {x = all.0 ++ (each.0 ++ (mid ++ (after.0 ++ last.0)))} (ground arith) (
        All-append _ all.0 _ a
          (All-append _ each.0 _ b (All-append _ mid _ m (All-append _ after.0 last.0 c d))))
    where
      rebuild : String → String → Definitions → Result (List DefinitionEntity × Definitions)
      rebuild phase section initial =
          rebuild_hook convert new_id source_type suite_id (lookup phase hooks) section initial

-- The rows that are not of a suite.
abbrev pub foreign_to : String → List DefinitionEntity → List DefinitionEntity
foreign_to suite_id = keep (λ e. not (is_owner suite_id e.suite_id))

delete_suite-keep :
    (suite_id : String) (es : List DefinitionEntity)
    → delete_by_suite_id suite_id es ≡ foreign_to suite_id es
unfolding delete_by_suite_id
delete_suite-keep suite_id [] = refl
delete_suite-keep suite_id (e ∷ es) = elim (Option-cases e.suite_id) [
  | inl free ↦ simp free (ap (◌∷◌ e) (delete_suite-keep suite_id es))
  | inr (id, owned) ↦ ground (arith, delete_suite-keep suite_id es)
]

foreign_to-append :
    (suite_id : String) (xs ys : List DefinitionEntity)
    → foreign_to suite_id (xs ++ ys) ≡ foreign_to suite_id xs ++ foreign_to suite_id ys
foreign_to-append suite_id [] ys = refl
foreign_to-append suite_id (e ∷ xs) ys = ground (arith, foreign_to-append suite_id xs ys)

foreign_to_own :
    (suite_id : String) (es : List DefinitionEntity)
    → All (IsSuiteRow suite_id) es
    → foreign_to suite_id es ≡ []
foreign_to_own suite_id [] h = refl
foreign_to_own suite_id (e ∷ es) (h, hs) =
    rw h.of_suite (ground (arith, foreign_to_own suite_id es hs))

append_nil : (es : List DefinitionEntity) → es ++ [] ≡ es
append_nil [] = refl
append_nil (e ∷ es) = ap (◌∷◌ e) (append_nil es)

-- Where a suite's definitions can be written, the table keeps exactly the rows that are not of this suite,
-- and after these it has rows of this suite, each declared in a scope that its section writes to; and
-- writing them again changes nothing.
pub rebuild_suite-rows :
    {Raw : Type 0} (convert : Raw → Result ConstantConfig) (new_id : ℕ → String)
    (source_type : Value → String) (suite_id : String) (items : List (SuiteItem Raw))
    (table after : List DefinitionEntity)
    → rebuild_suite_constant_definitions convert new_id source_type suite_id items table ≡ ok after
    → ((rows : List DefinitionEntity) × (after ≡ foreign_to suite_id table ++ rows)
        × All (IsSuiteRow suite_id) rows)
      × (rebuild_suite_constant_definitions convert new_id source_type suite_id items after
          ≡ ok after)
unfolding rebuild_suite_constant_definitions
rebuild_suite-rows convert new_id source_type suite_id items table after h =
    let (rows, e, f) =
      bind-eq-ok
        (rebuild_sections convert new_id source_type suite_id (stored_hooks items [])
          (stored_tests items))
        _ h in
    let a = rebuild_sections-rows convert new_id source_type suite_id _ _ rows e in
    let same = sym (ok_injective f) ∙ ap (◌++ rows) (delete_suite-keep suite_id table) in
    (
      (rows, same, a),
      rw e (
          ap ok (
            ap (λ t. t ++ rows)
              (delete_suite-keep suite_id after
                ∙ ap (foreign_to suite_id) same
                ∙ foreign_to-append suite_id (foreign_to suite_id table) rows
                ∙ ap (foreign_to suite_id (foreign_to suite_id table) ++◌)
                    (foreign_to_own suite_id rows a)
                ∙ append_nil _
                ∙ keep-keep _ _ _ table (λ e. ground arith))
            ∙ sym same)),
    )
