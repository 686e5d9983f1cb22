-- ===== src/Suite/Sources/Visible.antt =====
-- Which sources an item sees, and under which code.
use quality_flow.Base.{
  ◌≡◌, refl, sym, ap, ◌∙◌, Bool, true, false, inl, inr, Bool-cases, String, Option, none, some,
  List, [], ◌∷◌, ◌++◌, arith, if◌then◌else◌, ◌==◌, one_of, is_some, ok, bind-eq-ok,
}
use quality_flow.Base.Dict.{Dict, lookup, insert, lookup-insert}
use quality_flow.Base.Text.{strip, is_empty}
use quality_flow.Context.Store.{Value}
use quality_flow.Suite.Item.{SuiteItem, Source}
use quality_flow.Suite.Sources.{
  section_type_for_item, source_dicts, add_sources, add_if, build_visible_sources,
}

-- The first of two values that is there.
abbrev pub first_of : Option Value → Option Value → Option Value
first_of none v = v
first_of (some u) v = some u

-- The first source of a code.
abbrev pub source_named : String → List Source → Option Value
source_named code [] = none
source_named code (s ∷ ss) =
    if strip s.source_code == code then some s.body else source_named code ss

abbrev pub seen_if : Bool → List Source → List Source
seen_if sees sources = if sees then sources else []

-- The sources of the sections that an item's section sees, and its own.
abbrev pub seen_sources :
    {Config : Type 0}
    → Option (SuiteItem Config)
    → Option (SuiteItem Config)
    → SuiteItem Config
    → List Source
seen_sources before_all before_each current =
    let section = section_type_for_item current in
    seen_if (one_of section ("beforeEach" ∷ "test" ∷ "afterAll" ∷ [])) (source_dicts before_all)
    ++ (seen_if (one_of section ("test" ∷ "afterEach" ∷ [])) (source_dicts before_each)
        ++ source_dicts (some current))

source_named-append :
    (code : String) (xs ys : List Source)
    → source_named code (xs ++ ys) ≡ first_of (source_named code xs) (source_named code ys)
source_named-append code [] ys = refl
source_named-append code (x ∷ xs) ys = ground (arith, source_named-append code xs ys)

first_of_assoc : (u v w : Option Value) → first_of (first_of u v) w ≡ first_of u (first_of v w)
first_of_assoc none v w = refl
first_of_assoc (some u) v w = refl

not_named :
    (code : String) → is_empty code ≡ false → (t : String) → is_empty t ≡ true → (t == code) ≡ false
not_named code e t f = ground arith

add_sources-lookup :
    (code : String) (target visible : Dict Value) (sources : List Source) (owner : String)
    → is_empty code ≡ false
    → add_sources target sources owner ≡ ok visible
    → lookup code visible ≡ first_of (lookup code target) (source_named code sources)
unfolding add_sources
add_sources-lookup code target visible [] owner e h = ground arith
add_sources-lookup code target visible (s ∷ ss) owner e h =
    elim (Bool-cases (is_empty (strip s.source_code))) [
      | inl blank ↦ ground (
        arith,
        add_sources-lookup code target visible ss owner e,
        not_named code e (strip s.source_code) blank,
      )
      | inr named ↦ elim (Bool-cases (is_some (lookup (strip s.source_code) target))) [
        | inl taken ↦ ground arith
        | inr free ↦ ground (
          arith,
          add_sources-lookup code (insert (strip s.source_code) s.body target) visible ss owner e,
          lookup-insert code (strip s.source_code) s.body target,
        )
      ]
    ]

add_if-lookup :
    (code : String) (sees : Bool) (target visible : Dict Value) (sources : List Source)
    (owner : String)
    → is_empty code ≡ false
    → add_if sees sources owner target ≡ ok visible
    → lookup code visible ≡ first_of (lookup code target) (source_named code (seen_if sees sources))
add_if-lookup code true target visible sources owner e h =
    add_sources-lookup code target visible sources owner e h
add_if-lookup code false target visible sources owner e h = ground arith

-- Where the sources of an item can be put together, a code stands for the first source of that code
-- in the sections that the item sees (those of the hook before all in the hook before each, in a
-- test and in the hook after all; those of the hook before each in a test and in the hook after
-- each; and its own), and a code that none of these has stands for nothing.
pub build_visible_sources-lookup :
    {Config : Type 0} (before_all before_each : Option (SuiteItem Config))
    (current : SuiteItem Config) (visible : Dict Value) (code : String)
    → is_empty code ≡ false
    → build_visible_sources before_all before_each current ≡ ok visible
    → lookup code visible ≡ source_named code (seen_sources before_all before_each current)
unfolding build_visible_sources lookup
build_visible_sources-lookup before_all before_each current visible code e h =
    let section = section_type_for_item current in
    let sees1 = one_of section ("beforeEach" ∷ "test" ∷ "afterAll" ∷ []) in
    let sees2 = one_of section ("test" ∷ "afterEach" ∷ []) in
    let named1 = source_named code (seen_if sees1 (source_dicts before_all)) in
    let named2 = source_named code (seen_if sees2 (source_dicts before_each)) in
    let (v1, f, h1) = bind-eq-ok (add_if sees1 (source_dicts before_all) "beforeAll" []) _ h in
    let (v2, g, h2) = bind-eq-ok (add_if sees2 (source_dicts before_each) "beforeEach" v1) _ h1 in
    add_sources-lookup code v2 visible current.sources section e h2
    ∙ ap (λ o. first_of o (source_named code current.sources))
        (add_if-lookup code sees2 v1 v2 (source_dicts before_each) "beforeEach" e g
          ∙ ap (λ o. first_of o named2)
              (add_if-lookup code sees1 [] v1 (source_dicts before_all) "beforeAll" e f))
    ∙ sym (
        source_named-append code (seen_if sees1 (source_dicts before_all)) _
        ∙ ap (first_of named1)
            (source_named-append code (seen_if sees2 (source_dicts before_each)) current.sources)
        ∙ sym (first_of_assoc named1 named2 (source_named code current.sources)))
