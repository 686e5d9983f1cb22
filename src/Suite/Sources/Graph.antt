-- ===== src/Suite/Sources/Graph.antt =====
-- The check of the sources that the commands of a suite refer to, when the suite is saved:
-- `validate_suite_sources_graph`.
use quality_flow.Base.{
  ◌≡◌, ◌↔◌, refl, sym, ap, subst, ◌∙◌, is_ok, Bool, true, false, not, inl, inr, Bool-cases, String,
  ◌<>◌, Option, none, some, List, [], ◌∷◌, ◌++◌, if◌then◌else◌, ◌==◌, ◌||◌, ◌&&◌, one_of, is_nil,
  All, arith, Result, ok, err, bind, bind-eq-ok,
}
use mathlib.Core.Path.{fun_ext}
use quality_flow.Base.Dict.{Dict, lookup, insert}
use quality_flow.Base.Text.{strip, or_empty}
use quality_flow.Context.Store.{Value}
use quality_flow.Command.Execute.{Operation}
use quality_flow.Suite.Item.{SuiteItem}
use quality_flow.Suite.Sources.{build_visible_sources}
use quality_flow.Suite.Sources.Visible.{seen_sources}
use quality_flow.Suite.Sources.Distinct.{
  codes_are_distinct, visible_source, build_visible_sources-is_ok,
  build_visible_sources-visible_source,
}
use quality_flow.Constants.Config.{ConstantConfig, InputRef}

-- `_SOURCE_TYPE_COMPATIBILITY`
abbrev pub source_type_compatibility : Dict (List String)
source_type_compatibility =
    ("sendMessageQueue", "dataset" ∷ "jsonArray" ∷ [])
    ∷ ("saveTable", "dataset" ∷ "jsonArray" ∷ [])
    ∷ ("exportDataset", "dataset" ∷ "jsonArray" ∷ [])
    ∷ ("jsonArrayEquals", "jsonArray" ∷ [])
    ∷ ("jsonArrayEmpty", "jsonArray" ∷ [])
    ∷ ("jsonArrayNotEmpty", "jsonArray" ∷ [])
    ∷ ("jsonArrayContains", "jsonArray" ∷ [])
    ∷ []

abbrev pub fits : Option (List String) → String → Bool
fits none source_type = true
fits (some types) source_type = is_nil types || one_of source_type types

-- The hooks by phase; the last hook of a phase counts.
abbrev pub hooks_from :
    {Config : Type 0} → List (SuiteItem Config) → Dict (SuiteItem Config) → Dict (SuiteItem Config)
hooks_from [] hooks = hooks
hooks_from (item ∷ items) hooks =
    hooks_from items (insert (strip (or_empty item.hook_phase)) item hooks)

-- The suite that is to be saved.
pub record SuiteDto (Config : Type 0) : Type 0 where
  pub hooks : List (SuiteItem Config)
  pub tests : List (SuiteItem Config)

-- `source_type` reads the field of a source's dict, and `convert` a command's configuration.
module _ {Config : Type 0} (convert : Config → Result ConstantConfig)
    (source_type : Value → String) where
  not_visible : String → String → String
  not_visible code command =
      "Source '" <> code <> "' is not visible for command '" <> command <> "'."

  -- The type of a source that is found, where it is checked.
  unfoldable pub check_source : Bool → String → String → Option Value → Result (Unit {0})
  unfolding not_visible
  check_source typed command code none = err (not_visible code command)
  check_source typed command code (some source) =
      if typed
        && not
            (fits (lookup (strip command) source_type_compatibility) (strip (source_type source)))
      then err (
          "Source '"
          <> code
          <> "' has incompatible type '"
          <> strip (source_type source)
          <> "' for command '"
          <> command
          <> "'.")
      else ok tt

  -- The check of one reference, which may be to a constant or absent.
  unfoldable pub check_source_ref : Bool → String → Option InputRef → Dict Value → Result (Unit {0})
  check_source_ref typed command none visible = ok tt
  check_source_ref typed command (some r) visible =
      if r.kind == "source"
      then check_source typed command (or_empty r.source_code)
          (lookup (strip (or_empty r.source_code)) visible)
      else ok tt

  -- The three references of a command; the type of an actual value is not checked.
  unfoldable pub check_sources : ConstantConfig → Dict Value → Result (Unit {0})
  check_sources cfg visible =
      bind (check_source_ref true cfg.command_code cfg.input_ref visible) (λ _.
        bind (check_source_ref false cfg.command_code cfg.actual_ref visible)
          (λ _. check_source_ref true cfg.command_code cfg.expected_ref visible))

  -- The loop over the commands of an item.
  unfoldable pub check_commands : List (Operation Config) → Dict Value → Result (Unit {0})
  check_commands [] visible = ok tt
  check_commands (op ∷ ops) visible =
      let rest = check_commands ops visible in
      bind (convert op.configuration) (λ cfg. bind (check_sources cfg visible) (λ _. rest))

  -- The loop over the items.
  unfoldable pub check_items :
      Option (SuiteItem Config)
      → Option (SuiteItem Config)
      → List (SuiteItem Config)
      → Result (Unit {0})
  check_items before_all before_each [] = ok tt
  check_items before_all before_each (item ∷ items) =
      let rest = check_items before_all before_each items in
      bind (build_visible_sources before_all before_each item)
        (λ visible. bind (check_commands item.operations visible) (λ _. rest))

  -- `validate_suite_sources_graph`
  unfoldable pub validate_suite_sources_graph : SuiteDto Config → Result (Unit {0})
  unfolding check_items
  validate_suite_sources_graph dto =
      let hooks = hooks_from dto.hooks [] in
      check_items (lookup "before-all" hooks) (lookup "before-each" hooks) (dto.hooks ++ dto.tests)

  -- A reference is to no source, or to one that is found and, where that is checked, of a type
  -- that fits the command.
  pub data RefFits (typed : Bool) (command : String) (find : String → Option Value)
      : Option InputRef → Type 0 where
    no_ref : RefFits typed command find none
    no_source : {r : InputRef} → (r.kind == "source") ≡ false → RefFits typed command find (some r)
    to_source :
        {r : InputRef} (source : Value)
        → (r.kind == "source") ≡ true
        → find (strip (or_empty r.source_code)) ≡ some source
        → (typed ≡ true
            → fits (lookup (strip command) source_type_compatibility) (strip (source_type source))
              ≡ true)
        → RefFits typed command find (some r)

  pub record CommandFits (find : String → Option Value) (op : Operation Config) : Type 0 where
    pub cfg : ConstantConfig
    pub converted : convert op.configuration ≡ ok cfg
    pub input_fits : RefFits true cfg.command_code find cfg.input_ref
    pub actual_fits : RefFits false cfg.command_code find cfg.actual_ref
    pub expected_fits : RefFits true cfg.command_code find cfg.expected_ref

  -- No two sources of the sections that an item sees have the same code, and each of its commands
  -- refers to these sources.
  pub record ItemFits (before_all before_each : Option (SuiteItem Config)) (item : SuiteItem Config)
      : Type 0 where
    pub distinct : codes_are_distinct (seen_sources before_all before_each item) ≡ true
    pub commands_fit :
        All
          (CommandFits (visible_source (seen_sources before_all before_each item)))
          item.operations

  abbrev found_in : Dict Value → String → Option Value
  found_in visible code = lookup code visible

  found_fits :
      (typed : Bool) (command : String) (visible : Dict Value) (r : InputRef) (found : Option Value)
      → (r.kind == "source") ≡ true
      → lookup (strip (or_empty r.source_code)) visible ≡ found
      → check_source typed command (or_empty r.source_code) found ≡ ok tt
      → RefFits typed command (found_in visible) (some r)
  unfolding check_source
  found_fits typed command visible r none k e h = cc
  found_fits typed command visible r (some source) k e h = to_source source k e (λ t. ground arith)

  check_source_ref_sound :
      (typed : Bool) (command : String) (r : Option InputRef) (visible : Dict Value)
      → check_source_ref typed command r visible ≡ ok tt
      → RefFits typed command (found_in visible) r
  unfolding check_source_ref
  check_source_ref_sound typed command none visible h = no_ref
  check_source_ref_sound typed command (some r) visible h = elim (Bool-cases (r.kind == "source")) [
    | inr other ↦ no_source other
    | inl same ↦ found_fits typed command visible r _ same refl (ground arith)
  ]

  check_source_ref_complete :
      (typed : Bool) (command : String) (r : Option InputRef) (visible : Dict Value)
      → RefFits typed command (found_in visible) r
      → check_source_ref typed command r visible ≡ ok tt
  unfolding check_source_ref check_source
  check_source_ref_complete typed command none visible no_ref = refl
  check_source_ref_complete typed command (some r) visible (no_source other) = rw other refl
  check_source_ref_complete typed command (some r) visible (to_source source same found fit) =
      rw (same, found) (checked typed fit)
    where
      checked :
          (b : Bool)
          → (b ≡ true
              → fits (lookup (strip command) source_type_compatibility) (strip (source_type source))
                ≡ true)
          → check_source b command (or_empty r.source_code) (some source) ≡ ok tt
      checked true f = rw (f refl) refl
      checked false f = refl

  commands_sound :
      (ops : List (Operation Config)) (visible : Dict Value)
      → check_commands ops visible ≡ ok tt
      → All (CommandFits (found_in visible)) ops
  unfolding check_commands check_sources
  commands_sound [] visible h = tt
  commands_sound (op ∷ ops) visible h =
      let (cfg, e, f) = bind-eq-ok (convert op.configuration) _ h in
      let (_, g, k) = bind-eq-ok (check_sources cfg visible) _ f in
      let (_, i, l) =
        bind-eq-ok (check_source_ref true cfg.command_code cfg.input_ref visible) _ g in
      let (_, a, x) =
        bind-eq-ok (check_source_ref false cfg.command_code cfg.actual_ref visible) _ l in
      (
        record {
          cfg = cfg;
          converted = e;
          input_fits = check_source_ref_sound true cfg.command_code cfg.input_ref visible i;
          actual_fits = check_source_ref_sound false cfg.command_code cfg.actual_ref visible a;
          expected_fits = check_source_ref_sound true cfg.command_code cfg.expected_ref visible x;
        },
        commands_sound ops visible k,
      )

  commands_complete :
      (ops : List (Operation Config)) (visible : Dict Value)
      → All (CommandFits (found_in visible)) ops
      → check_commands ops visible ≡ ok tt
  unfolding check_commands check_sources
  commands_complete [] visible h = refl
  commands_complete (op ∷ ops) visible (h, hs) =
      rw
        (
          h.converted,
          check_source_ref_complete true h.cfg.command_code h.cfg.input_ref visible h.input_fits,
          check_source_ref_complete false h.cfg.command_code h.cfg.actual_ref visible h.actual_fits,
          check_source_ref_complete true h.cfg.command_code h.cfg.expected_ref visible
              h.expected_fits,
        )
        (commands_complete ops visible hs)

  -- What a code finds in the dict is what it finds among the sources that the item sees.
  found_in_seen :
      (before_all before_each : Option (SuiteItem Config)) (item : SuiteItem Config)
      (visible : Dict Value)
      → build_visible_sources before_all before_each item ≡ ok visible
      → found_in visible ≡ visible_source (seen_sources before_all before_each item)
  found_in_seen before_all before_each item visible e =
      fun_ext (build_visible_sources-visible_source before_all before_each item visible e)

  items_sound :
      (before_all before_each : Option (SuiteItem Config)) (items : List (SuiteItem Config))
      → check_items before_all before_each items ≡ ok tt
      → All (ItemFits before_all before_each) items
  unfolding check_items
  items_sound before_all before_each [] h = tt
  items_sound before_all before_each (item ∷ items) h =
      let (visible, e, f) = bind-eq-ok (build_visible_sources before_all before_each item) _ h in
      let (_, g, k) = bind-eq-ok (check_commands item.operations visible) _ f in
      (
        record {
          distinct = sym (build_visible_sources-is_ok before_all before_each item) ∙ ap is_ok e;
          commands_fit =
              subst (λ find. All (CommandFits find) item.operations)
                (found_in_seen before_all before_each item visible e)
                (commands_sound item.operations visible g);
        },
        items_sound before_all before_each items k,
      )

  item_complete :
      (before_all before_each : Option (SuiteItem Config)) (item : SuiteItem Config)
      (built : Result (Dict Value))
      → build_visible_sources before_all before_each item ≡ built
      → ItemFits before_all before_each item
      → bind built (check_commands item.operations) ≡ ok tt
  item_complete before_all before_each item (ok visible) e h =
      commands_complete item.operations visible (
        subst (λ find. All (CommandFits find) item.operations)
          (sym (found_in_seen before_all before_each item visible e)) h.commands_fit)
  item_complete before_all before_each item (err m) e h =
      ground (arith, build_visible_sources-is_ok before_all before_each item, h.distinct)

  items_complete :
      (before_all before_each : Option (SuiteItem Config)) (items : List (SuiteItem Config))
      → All (ItemFits before_all before_each) items
      → check_items before_all before_each items ≡ ok tt
  unfolding check_items
  items_complete before_all before_each [] h = refl
  items_complete before_all before_each (item ∷ items) (h, hs) =
      let (visible, e, f) =
        bind-eq-ok (build_visible_sources before_all before_each item)
          (check_commands item.operations) (item_complete before_all before_each item _ refl h) in
      rw (e, f) (items_complete before_all before_each items hs)

  -- A suite passes the check of its sources exactly if, for each of its hooks and tests, the
  -- sources of the sections that it sees have distinct codes, each of its commands can be converted, and each
  -- source that a command refers to is visible and, unless it is the actual value of an assert, of
  -- a type that fits the command.
  pub validate_suite_sources_graph_iff :
      (dto : SuiteDto Config)
      → (validate_suite_sources_graph dto ≡ ok tt)
        ↔ All
            (ItemFits
              (lookup "before-all" (hooks_from dto.hooks []))
              (lookup "before-each" (hooks_from dto.hooks [])))
            (dto.hooks ++ dto.tests)
  unfolding validate_suite_sources_graph
  validate_suite_sources_graph_iff dto =
      (items_sound _ _ (dto.hooks ++ dto.tests), items_complete _ _ (dto.hooks ++ dto.tests))
