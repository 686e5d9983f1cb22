-- ===== src/Suite/Sources.antt =====
-- The sources that an item sees: app/elaborations/services/suite_source_registry.py.
pub mod Visible
pub mod Distinct
pub mod Graph
use quality_flow.Base.{
  Bool, String, ◌<>◌, Option, none, some, List, [], ◌∷◌, if◌then◌else◌, ◌==◌, one_of, is_some,
  Result, ok, err, bind,
}
use quality_flow.Base.Dict.{Dict, lookup, insert}
use quality_flow.Base.Text.{strip, lower, or_empty, is_empty}
use quality_flow.Context.Store.{Value}
use quality_flow.Context.Record.{kind_hook}
use quality_flow.Suite.Item.{SuiteItem, Source}

abbrev section_of_phase : String → String
section_of_phase hook_phase =
    if hook_phase == "before-all"
    then "beforeAll"
    else if hook_phase == "before-each"
    then "beforeEach"
    else if hook_phase == "after-each"
    then "afterEach"
    else if hook_phase == "after-all"
    then "afterAll"
    else "test"

-- `_section_type_for_item`
unfoldable pub section_type_for_item : {Config : Type 0} → SuiteItem Config → String
section_type_for_item item =
    if lower (strip item.kind) == kind_hook
    then section_of_phase (lower (strip (or_empty item.hook_phase)))
    else "test"

-- `_source_dicts`
abbrev pub source_dicts : {Config : Type 0} → Option (SuiteItem Config) → List Source
source_dicts none = []
source_dicts (some item) = item.sources

-- `_add_sources`: a source with no code is skipped, and a code that is taken is an error.
unfoldable pub add_sources : Dict Value → List Source → String → Result (Dict Value)
add_sources target [] owner = ok target
add_sources target (source ∷ sources) owner =
    let code = strip source.source_code in
    let skip = add_sources target sources owner in
    let rest = add_sources (insert code source.body target) sources owner in
    if is_empty code
    then skip
    else if is_some (lookup code target)
    then err ("Source '" <> code <> "' is visible from multiple sections (" <> owner <> ").")
    else rest

-- The sources of a section, where the item sees it.
abbrev pub add_if : Bool → List Source → String → Dict Value → Result (Dict Value)
add_if sees sources owner target = if sees then add_sources target sources owner else ok target

-- `build_visible_sources_for_suite_item`
unfoldable pub build_visible_sources :
    {Config : Type 0}
    → Option (SuiteItem Config)
    → Option (SuiteItem Config)
    → SuiteItem Config
    → Result (Dict Value)
unfolding add_sources
build_visible_sources before_all before_each current =
    let section = section_type_for_item current in
    bind
      (add_if (one_of section ("beforeEach" ∷ "test" ∷ "afterAll" ∷ [])) (source_dicts before_all)
        "beforeAll" [])
      (λ visible.
        bind
          (add_if (one_of section ("test" ∷ "afterEach" ∷ [])) (source_dicts before_each)
            "beforeEach" visible)
          (λ visible'. add_sources visible' (source_dicts (some current)) section))
