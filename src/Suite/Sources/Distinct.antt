-- ===== src/Suite/Sources/Distinct.antt =====
-- When the sources that an item sees can be put together.
use quality_flow.Base.{
  ◌≡◌, refl, sym, ap, ◌∙◌, Bool, true, false, ◌&&◌, ◌||◌, not, inl, inr, Bool-cases, String, Option,
  none, List, [], ◌∷◌, ◌++◌, arith, if◌then◌else◌, ◌==◌, one_of, is_some, Result, ok, is_ok, bind,
  bind-eq-ok,
}
use quality_flow.Base.Dict.{Dict, lookup, insert, lookup-insert}
use quality_flow.Base.Text.{strip, is_empty}
use quality_flow.Context.Store.{Value}
use quality_flow.Suite.Item.{SuiteItem, Source}
use quality_flow.Suite.Sources.{
  section_type_for_item, source_dicts, add_sources, add_if, build_visible_sources,
}
use quality_flow.Suite.Sources.Visible.{
  seen_if, seen_sources, source_named, build_visible_sources-lookup,
}

-- Whether a source has the code.
abbrev has_code : String → List Source → Bool
has_code code [] = false
has_code code (s ∷ ss) = strip s.source_code == code || has_code code ss

-- No two sources have the same code, apart from those that have none.
abbrev pub codes_are_distinct : List Source → Bool
codes_are_distinct [] = true
codes_are_distinct (s ∷ ss) =
    (is_empty (strip s.source_code) || not (has_code (strip s.source_code) ss))
    && codes_are_distinct ss

-- No source has a code of the dict.
abbrev are_free : Dict Value → List Source → Bool
are_free target [] = true
are_free target (s ∷ ss) =
    (is_empty (strip s.source_code) || not (is_some (lookup (strip s.source_code) target)))
    && are_free target ss

are_free-insert :
    (code : String) (v : Value) (target : Dict Value) (sources : List Source)
    → is_empty code ≡ false
    → are_free (insert code v target) sources
      ≡ (are_free target sources && not (has_code code sources))
are_free-insert code v target [] e = refl
are_free-insert code v target (s ∷ ss) e =
    ground
      (arith, are_free-insert code v target ss e, lookup-insert (strip s.source_code) code v target)

are_free_none : (sources : List Source) → are_free [] sources ≡ true
unfolding lookup
are_free_none [] = refl
are_free_none (s ∷ ss) = ground (arith, are_free_none ss)

add_sources-is_ok :
    (target : Dict Value) (sources : List Source) (owner : String)
    → is_ok (add_sources target sources owner)
      ≡ (are_free target sources && codes_are_distinct sources)
unfolding add_sources
add_sources-is_ok target [] owner = refl
add_sources-is_ok target (s ∷ ss) owner = elim (Bool-cases (is_empty (strip s.source_code))) [
  | inl blank ↦ rw blank (add_sources-is_ok target ss owner)
  | inr named ↦ ground (
    arith,
    add_sources-is_ok (insert (strip s.source_code) s.body target) ss owner,
    are_free-insert (strip s.source_code) s.body target ss named,
  )
]

-- Sources that are added one list after the other are added as one list.
add_sources-append :
    (target : Dict Value) (xs ys : List Source) (owner : String)
    (k : Dict Value → Result (Dict Value))
    → ((v : Dict Value) → is_ok (k v) ≡ is_ok (add_sources v ys ""))
    → is_ok (bind (add_sources target xs owner) k) ≡ is_ok (add_sources target (xs ++ ys) "")
unfolding add_sources
add_sources-append target [] ys owner k h = h target
add_sources-append target (s ∷ ss) ys owner k h = ground (
  arith,
  add_sources-append target ss ys owner k h,
  add_sources-append (insert (strip s.source_code) s.body target) ss ys owner k h,
)

add_if-append :
    (sees : Bool) (target : Dict Value) (xs ys : List Source) (owner : String)
    (k : Dict Value → Result (Dict Value))
    → ((v : Dict Value) → is_ok (k v) ≡ is_ok (add_sources v ys ""))
    → is_ok (bind (add_if sees xs owner target) k)
      ≡ is_ok (add_sources target (seen_if sees xs ++ ys) "")
add_if-append true target xs ys owner k h = add_sources-append target xs ys owner k h
add_if-append false target xs ys owner k h = h target

-- The sources of an item can be put together exactly if those of the sections that it sees have
-- distinct codes.
pub build_visible_sources-is_ok :
    {Config : Type 0} (before_all before_each : Option (SuiteItem Config))
    (current : SuiteItem Config)
    → is_ok (build_visible_sources before_all before_each current)
      ≡ codes_are_distinct (seen_sources before_all before_each current)
unfolding build_visible_sources
build_visible_sources-is_ok before_all before_each current =
    let section = section_type_for_item current in
    let seen = seen_sources before_all before_each current in
    add_if-append (one_of section ("beforeEach" ∷ "test" ∷ "afterAll" ∷ [])) []
      (source_dicts before_all) _ "beforeAll" _
      (λ v.
        add_if-append (one_of section ("test" ∷ "afterEach" ∷ [])) v (source_dicts before_each)
          current.sources "beforeEach" _
          (λ w.
            add_sources-is_ok w current.sources section
            ∙ sym (add_sources-is_ok w current.sources "")))
    ∙ add_sources-is_ok [] seen ""
    ∙ ap (λ b. b && codes_are_distinct seen) (are_free_none seen)

-- The source that a reference finds: none for the empty code.
abbrev pub visible_source : List Source → String → Option Value
visible_source sources code = if is_empty code then none else source_named code sources

other_than_blank :
    (code : String) → is_empty code ≡ true → (t : String) → is_empty t ≡ false → (t == code) ≡ false
other_than_blank code e t f = ground arith

add_sources-lookup_blank :
    (code : String) (target visible : Dict Value) (sources : List Source) (owner : String)
    → is_empty code ≡ true
    → add_sources target sources owner ≡ ok visible
    → lookup code visible ≡ lookup code target
unfolding add_sources
add_sources-lookup_blank code target visible [] owner e h = ground arith
add_sources-lookup_blank code target visible (s ∷ ss) owner e h =
    elim (Bool-cases (is_empty (strip s.source_code))) [
      | inl blank ↦ ground (arith, add_sources-lookup_blank code target visible ss owner e)
      | inr named ↦ elim (Bool-cases (is_some (lookup (strip s.source_code) target))) [
        | inl taken ↦ ground arith
        | inr free ↦ ground (
          arith,
          add_sources-lookup_blank code (insert (strip s.source_code) s.body target) visible ss
              owner e,
          lookup-insert code (strip s.source_code) s.body target,
          other_than_blank code e (strip s.source_code) named,
        )
      ]
    ]

add_if-lookup_blank :
    (code : String) (sees : Bool) (target visible : Dict Value) (sources : List Source)
    (owner : String)
    → is_empty code ≡ true
    → add_if sees sources owner target ≡ ok visible
    → lookup code visible ≡ lookup code target
add_if-lookup_blank code true target visible sources owner e h =
    add_sources-lookup_blank code target visible sources owner e h
add_if-lookup_blank code false target visible sources owner e h = ground arith

build_visible_sources_blank :
    {Config : Type 0} (before_all before_each : Option (SuiteItem Config))
    (current : SuiteItem Config) (visible : Dict Value) (code : String)
    → is_empty code ≡ true
    → build_visible_sources before_all before_each current ≡ ok visible
    → lookup code visible ≡ none
unfolding build_visible_sources lookup
build_visible_sources_blank before_all before_each current visible code e h =
    let section = section_type_for_item current in
    let (v, f, h1) =
      bind-eq-ok
        (add_if (one_of section ("beforeEach" ∷ "test" ∷ "afterAll" ∷ [])) (source_dicts before_all)
          "beforeAll" [])
        _ h in
    let (w, g, h2) =
      bind-eq-ok
        (add_if (one_of section ("test" ∷ "afterEach" ∷ [])) (source_dicts before_each) "beforeEach"
          v)
        _ h1 in
    add_sources-lookup_blank code w visible current.sources section e h2
    ∙ add_if-lookup_blank code _ v w (source_dicts before_each) "beforeEach" e g
    ∙ add_if-lookup_blank code _ [] v (source_dicts before_all) "beforeAll" e f

-- What a code finds among the visible sources is what it finds in the sections that the item sees.
pub build_visible_sources-visible_source :
    {Config : Type 0} (before_all before_each : Option (SuiteItem Config))
    (current : SuiteItem Config) (visible : Dict Value)
    → build_visible_sources before_all before_each current ≡ ok visible
    → (code : String)
    → lookup code visible ≡ visible_source (seen_sources before_all before_each current) code
build_visible_sources-visible_source before_all before_each current visible h code =
    elim (Bool-cases (is_empty code)) [
      | inl blank ↦
          rw blank (build_visible_sources_blank before_all before_each current visible code blank h)
      | inr named ↦
          rw named
            (build_visible_sources-lookup before_all before_each current visible code named h)
    ]
