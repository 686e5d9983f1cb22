-- ===== src/Suite/Run/Order.antt =====
-- The rows that a run of a suite may leave, by the order of its items.
use quality_flow.Base.{◌≡◌, true, false, ◌&&◌, String, Option, none, some, List, [], ◌∷◌, ◌++◌, map}
use quality_flow.Suite.Item.{SuiteItem}
use quality_flow.Suite.ItemRun.{ItemExecution}
use quality_flow.Suite.Run.{SuiteInput, aborts}
use quality_flow.Suite.Run.Trace.{any_failed}

abbrev pub ids : List ItemExecution → List String
ids = map (λ row. row.suite_item_id)

abbrev pub hook_ids : {Config : Type 0} → Option (SuiteItem Config) → List String
hook_ids none = []
hook_ids (some hook) = hook.id ∷ []

-- A test between the hooks around each test.
abbrev pub round_ids : {Config : Type 0} → SuiteInput Config → SuiteItem Config → List String
round_ids suite test = hook_ids suite.before_each ++ (test.id ∷ hook_ids suite.after_each)

-- The rows that the loop over the tests may leave: a round for each test, in order, up to and with
-- the first failed one whose test says that a failure aborts.
pub data Rounds {Config : Type 0} (suite : SuiteInput Config)
    : List (SuiteItem Config) → List ItemExecution → Type 0 where
  done : Rounds suite [] []
  stop :
      {test : SuiteItem Config} {tests : List (SuiteItem Config)} {rows : List ItemExecution}
      → ids rows ≡ round_ids suite test
      → (any_failed rows && aborts test) ≡ true
      → Rounds suite (test ∷ tests) rows
  next :
      {test : SuiteItem Config} {tests : List (SuiteItem Config)} {rows : List ItemExecution}
      (here rest : List ItemExecution)
      → rows ≡ here ++ rest
      → ids here ≡ round_ids suite test
      → (any_failed here && aborts test) ≡ false
      → Rounds suite tests rest
      → Rounds suite (test ∷ tests) rows

-- The rows that a whole run may leave: the first hook, then no test if it failed and else the
-- rounds of the tests, and in any case the last hook.
pub record IsRunOf {Config : Type 0} (suite : SuiteInput Config) (tests : List (SuiteItem Config))
    (rows : List ItemExecution) : Type 0 where
  pub first : List ItemExecution
  pub middle : List ItemExecution
  pub last : List ItemExecution
  pub parts : rows ≡ first ++ (middle ++ last)
  pub first_ids : ids first ≡ hook_ids suite.before_all
  pub last_ids : ids last ≡ hook_ids suite.after_all
  pub skipped : any_failed first ≡ true → middle ≡ []
  pub rounds : any_failed first ≡ false → Rounds suite tests middle
