-- ===== src/Suite/Run/Report.antt =====
-- What a run of a suite comes to.
use quality_flow.Base.{
  ℕ, suc, ◌≡◌, refl, sym, ap, subst, ◌∙◌, ◌++◌, ◌||◌, false, String, Option, List, [], All,
  if◌then◌else◌, Result, ok, err,
}
use quality_flow.Base.Text.{or_none, or_else}
use quality_flow.Context.Store.{Value, Store}
use quality_flow.Context.Record.{Memory}
use quality_flow.Command.Policy.{CommandConfig}
use quality_flow.Command.Runtime.{ExecutionContext}
use quality_flow.Command.Execute.{success, error, ExecutionResult}
use quality_flow.Suite.Item.{SuiteItem}
use quality_flow.Suite.ItemRun.{ItemExecution}
use quality_flow.Suite.Run.{
  Run, SuiteInput, SuiteExecution, Outcome, resolve_tests_to_execute, close_run, execute_resolved,
  execute_suite, suite_env,
}
use quality_flow.Suite.Run.Trace.{rows_of, any_failed, first_message, IsNumbered, IsFinished}
use quality_flow.Suite.Run.Order.{IsRunOf}
use quality_flow.Suite.Run.Shape.{WholeAdded, run_parts-adds}

-- The rows of a run are those of its items in order, with positions from 1, none still running;
-- the row of the suite tells whether one of them has an error, and the first message among them.
pub record IsReport {Config : Type 0} (suite : SuiteInput Config) (tests : List (SuiteItem Config))
    (rows : List ItemExecution) (row : SuiteExecution) : Type 0 where
  pub order : IsRunOf suite tests rows
  pub numbered : IsNumbered 1 rows
  pub all_finished : All IsFinished rows
  pub status : row.status ≡ (if any_failed rows then error else success)
  pub message : row.error_message ≡ or_none (first_message rows)

-- A run that ends with an error of its own leaves no row.
abbrev pub Reports :
    {Config : Type 0} → SuiteInput Config → List (SuiteItem Config) → Outcome → Type 0
Reports suite tests o = elim o.result [
  | ok row ↦ IsReport suite tests o.item_executions row
  | err _ ↦ o.item_executions ≡ []
]

module _ {Config : Type 0} (convert : Config → Result CommandConfig)
    (execute_operation : String → CommandConfig → Value → Memory → Result ExecutionResult × Memory)
    (run_id : ℕ → String) (env : ExecutionContext) (execution : ℕ) (suite : SuiteInput Config)
    (s : Store) where
  close_run-Reports :
      (tests : List (SuiteItem Config)) (r : Run) (res : Result (Option String) × Run)
      → rows_of r ≡ []
      → r.execution_position ≡ 0
      → r.any_error ≡ false
      → r.first_error_message ≡ ""
      → WholeAdded convert execute_operation
          (suite_env convert execute_operation run_id env execution suite s)
          execution
          suite
          tests
          r
          res
      → Reports suite tests (close_run res)
  unfolding close_run WholeAdded
  close_run-Reports tests r (err e, r') e1 e2 e3 e4 h = refl
  close_run-Reports tests r (ok f, r') e1 e2 e3 e4 (new, order, a) = record {
    order = subst (IsRunOf suite tests) (sym rows) order;
    numbered = subst (IsNumbered 1) (sym rows) (subst (λ n. IsNumbered (suc n) new) e2 a.numbered);
    all_finished = subst (All IsFinished) (sym rows) a.all_finished;
    status =
        ap (λ b. if b then error else success)
          (a.failed ∙ ap (λ b. b || any_failed new) e3 ∙ ap any_failed (sym rows));
    message =
        ap or_none
          (a.message ∙ ap (λ m. or_else m (first_message new)) e4 ∙ ap first_message (sym rows));
  }
    where
      rows : rows_of r' ≡ new
      rows = a.rows ∙ ap (λ t. t ++ new) e1

  -- A run whose tests are known reports on exactly the items that it executed.
  pub execute_resolved-Reports :
      (tests : List (SuiteItem Config))
      → Reports suite tests
          (execute_resolved convert execute_operation run_id env execution suite s (ok tests))
  unfolding execute_resolved
  execute_resolved-Reports tests =
      close_run-Reports tests _ _ refl refl refl refl
        (run_parts-adds convert execute_operation _ execution suite tests _ refl)

  -- Whatever commands a suite has and whatever they do, its execution either leaves the rows of
  -- the items that the order of hooks and tests calls for, each finished and with positions from
  -- 1, and then the status `error` exactly if an item failed, with the first message of a failed
  -- item that is not empty; or it ends with an error of its own and leaves no row.
  pub execute_suite-Reports :
      (tests : List (SuiteItem Config))
      → resolve_tests_to_execute suite.tests suite.target_suite_item_id ≡ ok tests
      → Reports suite tests (execute_suite convert execute_operation run_id env execution suite s)
  unfolding execute_suite
  execute_suite-Reports tests e = rw e (execute_resolved-Reports tests)
