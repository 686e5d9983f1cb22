-- ===== src/Command/Runtime.antt =====
-- The context variables of app/elaborations/services/suite_runs/execution_runtime_context.py. A
-- thread has its own; `none` is `None`. The ids of rows are the numbers that the tables gave them.
use quality_flow.Base.{ℕ, String, Option, none, some}

pub record ExecutionContext : Type 0 where
  pub execution_id : Option String
  pub suite_id : Option String
  pub suite_test_id : Option String
  pub suite_execution_id : Option ℕ
  pub suite_test_execution_id : Option ℕ
  pub test_suite_id : Option String
  pub suite_item_id : Option String
  pub test_suite_execution_id : Option ℕ
  pub suite_item_execution_id : Option ℕ

abbrev pub no_execution : ExecutionContext
no_execution = record {
  execution_id = none;
  suite_id = none;
  suite_test_id = none;
  suite_execution_id = none;
  suite_test_execution_id = none;
  test_suite_id = none;
  suite_item_id = none;
  test_suite_execution_id = none;
  suite_item_execution_id = none;
}

-- A variable is set only to what is given.
abbrev pub given {ℓ} : {A : Type ℓ} → Option A → Option A → Option A
given none old = old
given (some v) old = some v

-- `bind_execution_context`: the variables that the body sees, from those outside. The `finally`
-- puts back each variable that was set, so outside nothing has changed.
unfoldable pub bind_execution_context : ExecutionContext → ExecutionContext → ExecutionContext
bind_execution_context new old = record {
  execution_id = given new.execution_id old.execution_id;
  suite_id = given new.suite_id old.suite_id;
  suite_test_id = given new.suite_test_id old.suite_test_id;
  suite_execution_id = given new.suite_execution_id old.suite_execution_id;
  suite_test_execution_id = given new.suite_test_execution_id old.suite_test_execution_id;
  test_suite_id = given new.test_suite_id old.test_suite_id;
  suite_item_id = given new.suite_item_id old.suite_item_id;
  test_suite_execution_id = given new.test_suite_execution_id old.test_suite_execution_id;
  suite_item_execution_id = given new.suite_item_execution_id old.suite_item_execution_id;
}
