-- ===== src/Suite/Run/Shape.antt =====
-- What each part of a run adds to the rows, and that their order is that of a run.
use mathlib.Core.List.{append-nil, append_assoc, map-append}
use mathlib.Core.Path.{ap₂}
use quality_flow.Base.{
  ℕ, ◌≡◌, refl, sym, ap, subst, ◌∙◌, Bool, true, false, ◌&&◌, ◌||◌, inl, inr, Bool-cases, String,
  Option, none, some, List, [], ◌∷◌, ◌++◌, length, arith, Result, ok, err,
}
use quality_flow.Context.Store.{Value}
use quality_flow.Context.Record.{Memory}
use quality_flow.Command.Policy.{CommandConfig}
use quality_flow.Command.Runtime.{ExecutionContext}
use quality_flow.Command.Execute.{ExecutionResult}
use quality_flow.Suite.Item.{SuiteItem}
use quality_flow.Suite.ItemRun.{ItemExecution}
use quality_flow.Suite.Run.{
  Run, SuiteInput, has_failed, aborts, count_test, continue_tests, run_hook, run_test, end_round,
  after_test, after_before, run_round, run_tests, run_tests_if_sound, run_outer_hook, run_last,
  run_after_first, run_parts,
}
use quality_flow.Suite.Run.Trace.{
  any_failed, any_failed-append, Added, Added-nil, Added-trans, ItemAdded, run_item-adds,
}
use quality_flow.Suite.Run.Order.{ids, hook_ids, round_ids, Rounds, done, stop, next, IsRunOf}

module _ {Config : Type 0} (convert : Config → Result CommandConfig)
    (execute_operation : String → CommandConfig → Value → Memory → Result ExecutionResult × Memory)
    (env : ExecutionContext) (execution : ℕ) (suite : SuiteInput Config) where
  -- A part that has added rows of the given items, and tells whether one of them failed.
  PartAdded : List String → Run → Bool → Run → Type 0
  PartAdded names r failed r' =
      (new : List ItemExecution) × (ids new ≡ names) × (any_failed new ≡ failed) × Added r new r'

  OptionAdded : List String → Run → Result (Option String) × Run → Type 0
  OptionAdded names r (err e, r') = Unit
  OptionAdded names r (ok f, r') = PartAdded names r (has_failed f) r'

  FlagAdded : List String → Run → Result Bool × Run → Type 0
  FlagAdded names r (err e, r') = Unit
  FlagAdded names r (ok failed, r') = PartAdded names r failed r'

  option_of_item :
      (item : SuiteItem Config) (r : Run) (res : Result (Option String) × Run)
      → ItemAdded convert execute_operation env execution suite item r res
      → OptionAdded (item.id ∷ []) r res
  unfolding ItemAdded OptionAdded PartAdded
  option_of_item item r (err e, r') h = tt
  option_of_item item r (ok f, r') (row, e, g, a) = (row ∷ [], ap (λ i. i ∷ []) e, ground arith, a)

  run_hook-adds :
      (hook : Option (SuiteItem Config)) (local_vars : Value) (r : Run)
      → OptionAdded
          (hook_ids hook)
          r
          (run_hook convert execute_operation env execution suite hook local_vars r)
  unfolding run_hook
  run_hook-adds none local_vars r =
      unfold OptionAdded PartAdded in ([], refl, refl, Added-nil r r refl refl refl refl)
  run_hook-adds (some hook) local_vars r =
      option_of_item hook r _
        (run_item-adds convert execute_operation env execution suite hook local_vars r)

  -- A step before a part that adds nothing.
  after_nothing :
      (names : List String) (r0 r : Run) (res : Result (Option String) × Run)
      → Added r0 [] r
      → OptionAdded names r res
      → OptionAdded names r0 res
  unfolding OptionAdded PartAdded
  after_nothing names r0 r (err e, r') a h = tt
  after_nothing names r0 r (ok f, r') a (new, e, g, b) = (new, e, g, Added-trans a b)

  run_outer_hook-adds :
      (hook : Option (SuiteItem Config)) (r : Run)
      → OptionAdded
          (hook_ids hook)
          r
          (run_outer_hook convert execute_operation env execution suite hook r)
  unfolding run_outer_hook
  run_outer_hook-adds none r =
      unfold OptionAdded PartAdded in ([], refl, refl, Added-nil r r refl refl refl refl)
  run_outer_hook-adds (some hook) r = after_nothing _ r _ _ (Added-nil r _ refl refl refl refl) (
      option_of_item hook _ _
        (run_item-adds convert execute_operation env execution suite hook _ _))

  -- A step after a part that changes neither the rows nor what they determine.
  then_same :
      (names : List String) (failed : Bool) (r r' r'' : Run)
      → Added r' [] r''
      → PartAdded names r failed r'
      → PartAdded names r failed r''
  unfolding PartAdded
  then_same names failed r r' r'' b (new, e, g, a) =
      (new, e, g, subst (λ rows. Added r rows r'') (append-nil new) (Added-trans a b))

  -- Two parts, one after the other.
  join :
      (names names' : List String) (f g : Bool) (r r' r'' : Run)
      → PartAdded names r f r'
      → PartAdded names' r' g r''
      → PartAdded (names ++ names') r (f || g) r''
  unfolding PartAdded
  join names names' f g r r' r'' (xs, e, h, a) (ys, e', h', b) = (
    xs ++ ys,
    map-append _ xs ys ∙ ap₂ ◌++◌ e e',
    any_failed-append xs ys ∙ ap₂ ◌||◌ h h',
    Added-trans a b,
  )

  counted :
      (names : List String) (total : ℕ) (r : Run) (res : Result (Option String)) (r' : Run)
      → OptionAdded names r (res, r')
      → OptionAdded names r (count_test total res r')
  unfolding OptionAdded count_test
  counted names total r (err e) r' h = tt
  counted names total r (ok f) r' h =
      then_same names (has_failed f) r r' _ (Added-nil r' _ refl refl refl refl) h

  run_test-adds :
      (total : ℕ) (test : SuiteItem Config) (local_vars : Value) (r : Run)
      → OptionAdded
          (test.id ∷ [])
          r
          (run_test convert execute_operation env execution suite total test local_vars r)
  unfolding run_test
  run_test-adds total test local_vars r = counted _ total r _ _ (
      option_of_item test r _
        (run_item-adds convert execute_operation env execution suite test local_vars r))

  end_round-adds :
      (names names' : List String) (f : Bool) (r r' : Run) (res : Result (Option String))
      (r'' : Run)
      → PartAdded names r f r'
      → OptionAdded names' r' (res, r'')
      → FlagAdded
          (names ++ names')
          r
          (end_round convert execute_operation env execution suite f res r'')
  unfolding end_round OptionAdded FlagAdded
  end_round-adds names names' f r r' (err e) r'' h k = tt
  end_round-adds names names' f r r' (ok a) r'' h k =
      then_same _ _ r r'' _ (Added-nil r'' _ refl refl refl refl)
        (join names names' f (has_failed a) r r' r'' h k)

  after_test-adds :
      (names names' : List String) (local_vars : Value) (f : Bool) (r r' : Run)
      (res : Result (Option String)) (r'' : Run)
      → PartAdded names r f r'
      → OptionAdded names' r' (res, r'')
      → FlagAdded
          ((names ++ names') ++ hook_ids suite.after_each)
          r
          (after_test convert execute_operation env execution suite local_vars f res r'')
  unfolding after_test OptionAdded FlagAdded
  after_test-adds names names' local_vars f r r' (err e) r'' h k = tt
  after_test-adds names names' local_vars f r r' (ok g) r'' h k =
      end_round-adds _ _ _ r r'' _ _ (join names names' f (has_failed g) r r' r'' h k)
        (run_hook-adds suite.after_each local_vars r'')

  after_before-adds :
      (names : List String) (total : ℕ) (test : SuiteItem Config) (local_vars : Value) (r : Run)
      (res : Result (Option String)) (r' : Run)
      → OptionAdded names r (res, r')
      → FlagAdded
          ((names ++ (test.id ∷ [])) ++ hook_ids suite.after_each)
          r
          (after_before convert execute_operation env execution suite total test local_vars res r')
  unfolding after_before OptionAdded FlagAdded
  after_before-adds names total test local_vars r (err e) r' h = tt
  after_before-adds names total test local_vars r (ok b) r' h =
      after_test-adds _ _ local_vars (has_failed b) r r' _ _ h
        (run_test-adds total test local_vars r')

  run_round-adds :
      (total : ℕ) (test : SuiteItem Config) (r : Run)
      → FlagAdded
          (round_ids suite test)
          r
          (run_round convert execute_operation env execution suite total test r)
  unfolding run_round
  run_round-adds total test r =
      subst
        (λ names.
          FlagAdded names r (run_round convert execute_operation env execution suite total test r))
        (append_assoc (hook_ids suite.before_each) _ _)
        (after_before-adds _ total test _ r _ _ (
          after_nothing _ r _ _ (Added-nil r _ refl refl refl refl)
            (run_hook-adds suite.before_each _ _)))

  -- What the loop has added where it ended.
  LoopAdded : List (SuiteItem Config) → Run → Result (Unit {0}) × Run → Type 0
  LoopAdded tests r (err e, r') = Unit
  LoopAdded tests r (ok _, r') =
      (new : List ItemExecution) × Rounds suite tests new × Added r new r'

  continued :
      (test : SuiteItem Config) (tests : List (SuiteItem Config)) (r : Run) (failed : Result Bool)
      (r' : Run) (rest : Result (Unit {0}) × Run)
      → FlagAdded (round_ids suite test) r (failed, r')
      → LoopAdded tests r' rest
      → LoopAdded (test ∷ tests) r (continue_tests test failed r' rest)
  unfolding LoopAdded FlagAdded PartAdded continue_tests
  continued test tests r (err e) r' rest h k = tt
  continued test tests r (ok failed) r' rest (new, e, g, a) k =
      elim (Bool-cases (failed && aborts test)) [
        | inl ends ↦ rw ends (new, stop e (rw g ends), a)
        | inr goes ↦ rw goes (after goes rest k)
      ]
    where
      after :
          (failed && aborts test) ≡ false
          → (rest : Result (Unit {0}) × Run) → LoopAdded tests r' rest
          → LoopAdded (test ∷ tests) r rest
      after goes (err m, r'') k = tt
      after goes (ok _, r'') (more, rounds, b) =
          (new ++ more, next new more refl e (rw g goes) rounds, Added-trans a b)

  run_tests-adds :
      (total : ℕ) (tests : List (SuiteItem Config)) (r : Run)
      → LoopAdded tests r (run_tests convert execute_operation env execution suite total tests r)
  unfolding run_tests
  run_tests-adds total [] r = unfold LoopAdded in ([], done, Added-nil r r refl refl refl refl)
  run_tests-adds total (test ∷ tests) r =
      continued test tests r _ _ _ (run_round-adds total test r) (run_tests-adds total tests _)

  -- What the tests have added after the rows of the first hook.
  MiddleAdded :
      List (SuiteItem Config) → List ItemExecution → Run → Result (Unit {0}) × Run → Type 0
  MiddleAdded tests first r (err e, r') = Unit
  MiddleAdded tests first r (ok _, r') =
      (new : List ItemExecution) × (any_failed first ≡ true → new ≡ [])
      × (any_failed first ≡ false → Rounds suite tests new)
      × Added r new r'

  middle_of_loop :
      (tests : List (SuiteItem Config)) (first : List ItemExecution) (r : Run)
      (res : Result (Unit {0}) × Run)
      → any_failed first ≡ false
      → LoopAdded tests r res
      → MiddleAdded tests first r res
  unfolding MiddleAdded LoopAdded
  middle_of_loop tests first r (err e, r') sound h = tt
  middle_of_loop tests first r (ok _, r') sound (new, rounds, a) =
      (new, (λ f. cc), (λ _. rounds), a)

  run_tests_if_sound-adds :
      (tests : List (SuiteItem Config)) (first : List ItemExecution) (r : Run)
      → r.any_error ≡ any_failed first
      → MiddleAdded tests first r
          (run_tests_if_sound convert execute_operation env execution suite tests r)
  unfolding run_tests_if_sound
  run_tests_if_sound-adds tests first r e = elim (Bool-cases r.any_error) [
    | inl failed ↦
        simp failed (
          unfold MiddleAdded in ([], (λ _. refl), (λ sound. cc), Added-nil r r refl refl refl refl))
    | inr sound ↦
        simp sound
          (middle_of_loop tests first r _ (sym e ∙ sound) (run_tests-adds (length tests) tests r))
  ]

  unfoldable pub WholeAdded : List (SuiteItem Config) → Run → Result (Option String) × Run → Type 0
  WholeAdded tests r (err e, r') = Unit
  WholeAdded tests r (ok _, r') =
      (new : List ItemExecution) × IsRunOf suite tests new × Added r new r'

  last-adds :
      (tests : List (SuiteItem Config)) (first middle : List ItemExecution) (r r' : Run)
      (res : Result (Option String) × Run)
      → Added r (first ++ middle) r'
      → ids first ≡ hook_ids suite.before_all
      → (any_failed first ≡ true → middle ≡ [])
      → (any_failed first ≡ false → Rounds suite tests middle)
      → OptionAdded (hook_ids suite.after_all) r' res
      → WholeAdded tests r res
  unfolding WholeAdded OptionAdded PartAdded
  last-adds tests first middle r r' (err e, r'') a e1 sk ro h = tt
  last-adds tests first middle r r' (ok f, r'') a e1 sk ro (last, e2, g, b) = (
    (first ++ middle) ++ last,
    record {
      first = first;
      middle = middle;
      last = last;
      parts = append_assoc first middle last;
      first_ids = e1;
      last_ids = e2;
      skipped = sk;
      rounds = ro;
    },
    Added-trans a b,
  )

  run_last-adds :
      (tests : List (SuiteItem Config)) (first : List ItemExecution) (r r' : Run)
      (res : Result (Unit {0})) (r'' : Run)
      → Added r first r'
      → ids first ≡ hook_ids suite.before_all
      → MiddleAdded tests first r' (res, r'')
      → WholeAdded tests r (run_last convert execute_operation env execution suite res r'')
  unfolding run_last MiddleAdded
  run_last-adds tests first r r' (err e) r'' a e1 h = unfold WholeAdded in tt
  run_last-adds tests first r r' (ok _) r'' a e1 (middle, sk, ro, b) =
      last-adds tests first middle r r'' _ (Added-trans a b) e1 sk ro
        (run_outer_hook-adds suite.after_all r'')

  run_after_first-adds :
      (tests : List (SuiteItem Config)) (r : Run) (res : Result (Option String)) (r' : Run)
      → r.any_error ≡ false
      → OptionAdded (hook_ids suite.before_all) r (res, r')
      → WholeAdded tests r
          (run_after_first convert execute_operation env execution suite tests res r')
  unfolding run_after_first OptionAdded PartAdded
  run_after_first-adds tests r (err e) r' start h = unfold WholeAdded in tt
  run_after_first-adds tests r (ok f) r' start (first, e1, g, a) =
      run_last-adds tests first r r' _ _ a e1
        (run_tests_if_sound-adds tests first r' (a.failed ∙ rw start))

  pub run_parts-adds :
      (tests : List (SuiteItem Config)) (r : Run)
      → r.any_error ≡ false
      → WholeAdded tests r (run_parts convert execute_operation env execution suite tests r)
  unfolding run_parts
  run_parts-adds tests r start =
      run_after_first-adds tests r _ _ start (run_outer_hook-adds suite.before_all r)
