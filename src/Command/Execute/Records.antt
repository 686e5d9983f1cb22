-- ===== src/Command/Execute/Records.antt =====
-- What the loop over the commands leaves in the table of a suite's command executions.
use mathlib.Core.List.{append_assoc, append-nil}
use quality_flow.Base.{
  ℕ, ◌≡◌, refl, sym, ap, ◌∙◌, inl, inr, String, Option, none, some, List, [], ◌∷◌, ◌++◌, length,
  get_elem?-last, set-last, Result, Result-cases, ok, err,
}
use quality_flow.Context.Store.{Value}
use quality_flow.Context.Record.{Memory}
use quality_flow.Command.Policy.{CommandConfig}
use quality_flow.Command.Runtime.{ExecutionContext}
use quality_flow.Command.Execute.{
  success, error, status_of, OperationExecution, Machine, Operation, operation_row, ExecutionResult,
  update_row, attempt_operation, conclude_operation, run_converted, run_operation, run_operations,
}

abbrev pub failure_of {ℓ} : {A : Type ℓ} → Result A → Option String
failure_of (ok _) = none
failure_of (err e) = some e

update_row-last :
    (failure : Option String) (rows : List OperationExecution) (row : OperationExecution)
    → update_row (status_of failure) failure (some (length rows)) (rows ++ (row ∷ []))
      ≡ rows ++ (record row { status = status_of failure; error_message = failure } ∷ [])
unfolding update_row
update_row-last failure rows row = rw (get_elem?-last rows row) (set-last rows row _)

-- A row with the status of a result.
abbrev pub row_with : {A : Type 0} → OperationExecution → Result A → OperationExecution
row_with row r = record row { status = status_of (failure_of r); error_message = failure_of r }

conclude-records :
    (env : ExecutionContext) (op_id : String) (test_row : Option ℕ) (result : ExecutionResult)
    (r : Result ExecutionResult) (m : Machine) (rows : List OperationExecution)
    (row : OperationExecution)
    → m.suite_operations ≡ rows ++ (row ∷ [])
    → let (r', m') = conclude_operation env op_id test_row (some (length rows)) result r m in
      m'.suite_operations ≡ rows ++ (row_with row r' ∷ [])
unfolding conclude_operation
conclude-records env op_id test_row result (ok new) m rows row e =
    ap (update_row success none (some (length rows))) e ∙ update_row-last none rows row
conclude-records env op_id test_row result (err x) m rows row e =
    ap (update_row error (some x) (some (length rows))) e ∙ update_row-last (some x) rows row

module _ {Config : Type 0} (convert : Config → Result CommandConfig)
    (execute_operation : String → CommandConfig → Value → Memory → Result ExecutionResult × Memory)
    (env : ExecutionContext) (scope : Option String) (suite item : ℕ) where
  -- The row of a command, by what became of it: where its configuration cannot be converted it
  -- stays as it was inserted, and else it has the status of its result.
  unfoldable pub row_after :
      Operation Config → Result CommandConfig → Result ExecutionResult → OperationExecution
  row_after op (err _) r = operation_row env.suite_item_id op suite item
  row_after op (ok _) r = row_with (operation_row env.suite_item_id op suite item) r

  converted-records :
      (op : Operation Config) (result : ExecutionResult) (test_row : Option ℕ) (m : Machine)
      (rows : List OperationExecution) (cfg : Result CommandConfig)
      → m.suite_operations ≡ rows ++ (operation_row env.suite_item_id op suite item ∷ [])
      → let (r, m') =
          run_converted convert execute_operation env scope op.id test_row
            (some (length rows))
            result
            m
            cfg in
        m'.suite_operations ≡ rows ++ (row_after op cfg r ∷ [])
  unfolding run_converted attempt_operation row_after
  converted-records op result test_row m rows (err x) e = e
  converted-records op result test_row m rows (ok cfg) e =
      conclude-records env op.id test_row result _ _ rows _ e

  -- What the loop leaves: a row with the status `success` for each command up to the first that
  -- failed, and a row for that one, whose status is `error`, or `running` if its configuration
  -- could not be converted.
  pub data Recorded
      : List (Operation Config) → Result ExecutionResult → List OperationExecution → Type 0 where
    finished : {r : ExecutionResult} → Recorded [] (ok r) []
    failed_at :
        {op : Operation Config} {ops : List (Operation Config)} {e : String}
        → Recorded (op ∷ ops) (err e) (row_after op (convert op.configuration) (err e) ∷ [])
    done_at :
        {op : Operation Config} {ops : List (Operation Config)} {result : Result ExecutionResult}
        {rows : List OperationExecution} (r : ExecutionResult)
        → Recorded ops result rows
        → Recorded
            (op ∷ ops)
            result
            (row_with (operation_row env.suite_item_id op suite item) (ok r) ∷ rows)

  -- A command whose configuration cannot be converted does not succeed.
  converted-ok :
      (op : Operation Config) (result : ExecutionResult) (test_row suite_row : Option ℕ)
      (m : Machine) (cfg : Result CommandConfig) (r : ExecutionResult)
      → (run_converted convert execute_operation env scope op.id test_row suite_row result m cfg).0
        ≡ ok r
      → row_after op cfg (ok r) ≡ row_with (operation_row env.suite_item_id op suite item) (ok r)
  unfolding run_converted row_after
  converted-ok op result test_row suite_row m (err x) r e = cc
  converted-ok op result test_row suite_row m (ok cfg) r e = refl

  module _ (suite_known : env.test_suite_execution_id ≡ some suite)
      (item_known : env.suite_item_execution_id ≡ some item) where
    -- A command adds one row to the table.
    run_operation-records :
        (op : Operation Config) (result : ExecutionResult) (m : Machine)
        → let (r, m') = run_operation convert execute_operation env scope op result m in
          m'.suite_operations
          ≡ m.suite_operations ++ (row_after op (convert op.configuration) r ∷ [])
    unfolding run_operation
    run_operation-records op result m =
        simp (suite_known, item_known) (converted-records op result _ _ m.suite_operations _ refl)

    run_operation-ok :
        (op : Operation Config) (result : ExecutionResult) (m : Machine) (r : ExecutionResult)
        → (run_operation convert execute_operation env scope op result m).0 ≡ ok r
        → row_after op (convert op.configuration) (ok r)
          ≡ row_with (operation_row env.suite_item_id op suite item) (ok r)
    unfolding run_operation
    run_operation-ok op result m r e = converted-ok op result _ _ _ _ r e

    -- The loop adds the rows of the commands that it came to, in order, and leaves all others as
    -- they were, where the executions of the suite and of the item are known.
    pub run_operations-Recorded :
        (ops : List (Operation Config)) (result : ExecutionResult) (m : Machine)
        → let (r, m') = run_operations convert execute_operation env scope ops result m in
          (new : List OperationExecution) × Recorded ops r new
          × (m'.suite_operations ≡ m.suite_operations ++ new)
    unfolding run_operations
    run_operations-Recorded [] result m = ([], finished, sym (append-nil m.suite_operations))
    run_operations-Recorded (op ∷ ops) result m =
        elim (Result-cases (run_operation convert execute_operation env scope op result m).0) [
          | inl (r, e) ↦ go_on r e (run_operations-Recorded ops r _)
          | inr (x, e) ↦
              rw (e, run_operations)
                (
                  row_after op (convert op.configuration) (err x) ∷ [],
                  failed_at,
                  added _ (ap (row_after op (convert op.configuration)) e),
                )
        ]
      where
        added :
            (row : OperationExecution)
            → row_after op
                (convert op.configuration)
                (run_operation convert execute_operation env scope op result m).0
              ≡ row
            → (run_operation convert execute_operation env scope op result m).1.suite_operations
              ≡ m.suite_operations ++ (row ∷ [])
        added row e = run_operation-records op result m ∙ ap (λ w. m.suite_operations ++ (w ∷ [])) e

        go_on :
            (r : ExecutionResult)
            → (run_operation convert execute_operation env scope op result m).0 ≡ ok r
            → (let (r', m') =
                  run_operations convert execute_operation env scope ops r
                    (run_operation convert execute_operation env scope op result m).1 in
                (new : List OperationExecution) × Recorded ops r' new
                × (m'.suite_operations
                    ≡ (run_operation convert execute_operation env scope op result
                        m).1.suite_operations
                      ++ new))
            → let (r', m') =
                run_operations convert execute_operation env scope (op ∷ ops) result m in
              (new : List OperationExecution) × Recorded (op ∷ ops) r' new
              × (m'.suite_operations ≡ m.suite_operations ++ new)
        go_on r e (new, recorded, rows) =
            rw (e, run_operations)
              (
                row_with (operation_row env.suite_item_id op suite item) (ok r) ∷ new,
                done_at r recorded,
                rows
                    ∙ ap (λ t. t ++ new)
                        (added _ (
                          ap (row_after op (convert op.configuration)) e
                          ∙ run_operation-ok op result m r e))
                    ∙ append_assoc m.suite_operations _ new,
              )
