-- ===== src/Suite/Run/Success.antt =====
-- When a run of a suite comes to its end.
use quality_flow.Base.{◌≡◌, true, Option, none, some, List, All}
use quality_flow.Base.Dict.{Dict}
use quality_flow.Context.Store.{Store}
use quality_flow.Suite.Item.{SuiteItem}
use quality_flow.Suite.Sources.Visible.{seen_sources}
use quality_flow.Suite.Sources.Distinct.{codes_are_distinct}
use quality_flow.Suite.Run.{Run, SuiteInput}

-- No two sources of the sections that an item sees have the same code.
abbrev pub HasSources : {Config : Type 0} → SuiteInput Config → SuiteItem Config → Type 0
HasSources suite item =
    codes_are_distinct (seen_sources suite.before_all suite.before_each item) ≡ true

abbrev pub HookHasSources :
    {Config : Type 0} → SuiteInput Config → Option (SuiteItem Config) → Type 0
HookHasSources suite none = Unit
HookHasSources suite (some hook) = HasSources suite hook

-- So it is for each hook and each of the tests.
pub record AllHaveSources {Config : Type 0} (suite : SuiteInput Config)
    (tests : List (SuiteItem Config)) : Type 0 where
  pub before_all : HookHasSources suite suite.before_all
  pub before_each : HookHasSources suite suite.before_each
  pub after_each : HookHasSources suite suite.after_each
  pub after_all : HookHasSources suite suite.after_all
  pub each_test : All (HasSources suite) tests
