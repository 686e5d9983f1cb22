-- ===== src/Asserts/Compare.antt =====
-- When the evaluators of arrays accept.
use quality_flow.Base.{
  ℕ, suc, ◌+◌, ◌<◌, ◌≡◌, ◌↔◌, refl, sym, ap, subst, ◌∙◌, true, false, inl, inr, Bool-cases, String,
  Option, List, [], ◌∷◌, map, is_nil, All, arith, ok, bind-eq-ok,
}
use quality_flow.Asserts.{
  Json, JsonObject, JsonPayload, normalize_rows, load_expected_rows, Key, Multiset, get_count,
  add_one, has_keys, key_of, count_rows, build_multiset, multisets_of, both_multisets,
  evaluate_array_contains, evaluate_array_equals,
}
use quality_flow.Asserts.Multisets.{
  count, IsDistinct, get_count-add_one, add_one-IsDistinct, equal_multisets_iff, is_contained_sound,
  is_contained_complete,
}

abbrev pub HaveKeys : List String → List JsonObject → Type 0
HaveKeys compare_keys = All (λ row. has_keys compare_keys row ≡ true)

module _ (dumps : Json → String) where
  -- How often a tuple occurs among those of rows.
  abbrev pub occurrences : List String → List JsonObject → Key → ℕ
  occurrences compare_keys rows k = count k (map (key_of dumps compare_keys) rows)

  -- The multiset of rows that have the keys: it counts on from the one before.
  record IsCounted (keys : List String) (rows : List JsonObject) (m m' : Multiset) : Type 0 where
    pub have_keys : HaveKeys keys rows
    pub counts : (k : Key) → get_count k m' ≡ get_count k m + occurrences keys rows k
    pub distinct : IsDistinct m → IsDistinct m'

  count_rows-IsCounted :
      (keys : List String) (label : String) (rows : List JsonObject) (m m' : Multiset)
      → count_rows dumps keys label rows m ≡ ok m'
      → IsCounted keys rows m m'
  unfolding count_rows
  count_rows-IsCounted keys label [] m m' h = record {
    have_keys = tt;
    counts = λ k. ground arith;
    distinct = λ d. subst IsDistinct (ground arith) d;
  }
  count_rows-IsCounted keys label (row ∷ rows) m m' h = elim (Bool-cases (has_keys keys row)) [
    | inl has ↦ go_on has (count_rows-IsCounted keys label rows _ m' (ground arith))
    | inr lacks ↦ ground arith
  ]
    where
      go_on :
          has_keys keys row ≡ true
          → IsCounted keys rows (add_one (key_of dumps keys row) m) m'
          → IsCounted keys (row ∷ rows) m m'
      go_on has c = record {
        have_keys = (has, c.have_keys);
        counts = λ k. ground (arith, c.counts k, get_count-add_one k (key_of dumps keys row) m);
        distinct = λ d. c.distinct (add_one-IsDistinct _ m d);
      }

  count_rows-ok :
      (keys : List String) (label : String) (rows : List JsonObject) (m : Multiset)
      → HaveKeys keys rows
      → (m' : Multiset) × (count_rows dumps keys label rows m ≡ ok m')
  unfolding count_rows
  count_rows-ok keys label [] m h = (m, refl)
  count_rows-ok keys label (row ∷ rows) m (h, hs) =
      let (m', e) = count_rows-ok keys label rows (add_one (key_of dumps keys row) m) hs in
      (m', rw h e)

  module _ (find : String → Option JsonPayload) (compare_keys : List String)
      (actual expected : Json) (id : Option String) where
    -- What both evaluators need: keys to compare, two arrays of objects, and the keys in each of
    -- their rows.
    pub record IsComparison (actual_rows expected_rows : List JsonObject) : Type 0 where
      pub keys : is_nil compare_keys ≡ false
      pub actual_array : normalize_rows "Actual data" actual ≡ ok actual_rows
      pub expected_array : load_expected_rows find expected id ≡ ok expected_rows
      pub actual_keys : HaveKeys compare_keys actual_rows
      pub expected_keys : HaveKeys compare_keys expected_rows

    record BothCounted (a e : Multiset) : Type 0 where
      pub actual_rows : List JsonObject
      pub expected_rows : List JsonObject
      pub comparison : IsComparison actual_rows expected_rows
      pub actual_counts : (k : Key) → get_count k a ≡ occurrences compare_keys actual_rows k
      pub expected_counts : (k : Key) → get_count k e ≡ occurrences compare_keys expected_rows k
      pub distinct : IsDistinct a

    multisets_of_sound :
        (a e : Multiset)
        → is_nil compare_keys ≡ false
        → multisets_of dumps find compare_keys actual expected id ≡ ok (a, e)
        → BothCounted a e
    unfolding multisets_of get_count
    multisets_of_sound a e some_key h =
        let (rows, f, h1) = bind-eq-ok (normalize_rows "Actual data" actual) _ h in
        let (rows', g, h2) = bind-eq-ok (load_expected_rows find expected id) _ h1 in
        let (a', f', h3) = bind-eq-ok (build_multiset dumps compare_keys rows "Actual data") _ h2 in
        let (e', g', h4) =
          bind-eq-ok (build_multiset dumps compare_keys rows' "Expected json-array payload") _ h3 in
        let same_a : a' ≡ a = ground arith in
        let same_e : e' ≡ e = ground arith in
        let c = count_rows-IsCounted compare_keys _ rows [] a (f' ∙ ap ok same_a) in
        let d = count_rows-IsCounted compare_keys _ rows' [] e (g' ∙ ap ok same_e) in
        record {
          actual_rows = rows;
          expected_rows = rows';
          comparison = record {
            keys = some_key;
            actual_array = f;
            expected_array = g;
            actual_keys = c.have_keys;
            expected_keys = d.have_keys;
          };
          actual_counts = λ k. ground (arith, c.counts k);
          expected_counts = λ k. ground (arith, d.counts k);
          distinct = c.distinct tt;
        }

    both_multisets_sound :
        (a e : Multiset)
        → both_multisets dumps find compare_keys actual expected id ≡ ok (a, e)
        → BothCounted a e
    unfolding both_multisets
    both_multisets_sound a e h = elim (Bool-cases (is_nil compare_keys)) [
      | inl empty ↦ ground arith
      | inr some_key ↦ multisets_of_sound a e some_key (ground arith)
    ]

    both_multisets_complete :
        (rows rows' : List JsonObject)
        → IsComparison rows rows'
        → (a : Multiset) × (e : Multiset) × (both_multisets dumps find compare_keys actual expected
              id
            ≡ ok (a, e))
          × IsCounted compare_keys rows [] a
          × IsCounted compare_keys rows' [] e
    unfolding both_multisets multisets_of
    both_multisets_complete rows rows' c =
        let (a, f) = count_rows-ok compare_keys "Actual data" rows [] c.actual_keys in
        let (e, g) =
          count_rows-ok compare_keys "Expected json-array payload" rows' [] c.expected_keys in
        (
          a,
          e,
          rw (c.keys, c.actual_array, c.expected_array, f, g) refl,
          count_rows-IsCounted compare_keys _ rows [] a f,
          count_rows-IsCounted compare_keys _ rows' [] e g,
        )

    -- The evaluator of equality accepts exactly if there are keys to compare, the actual value is
    -- an array of objects, the expected rows are those of an array of objects, of a single object, or,
    -- where no value is expected, of the stored payload of the id, which is of the type `json-array`
    -- and either of these, all rows have the keys, and every tuple of values at the keys occurs as
    -- often in the actual rows as in the expected ones, in whatever order.
    pub evaluate_array_equals_iff :
        (evaluate_array_equals dumps find compare_keys actual expected id ≡ ok tt) ↔ (
          (rows : List JsonObject) × (rows' : List JsonObject) × IsComparison rows rows'
          × ((k : Key) → occurrences compare_keys rows k ≡ occurrences compare_keys rows' k))
    unfolding evaluate_array_equals get_count
    evaluate_array_equals_iff = (sound, complete)
      where
        sound :
            evaluate_array_equals dumps find compare_keys actual expected id ≡ ok tt
            → (rows : List JsonObject) × (rows' : List JsonObject) × IsComparison rows rows'
              × ((k : Key) → occurrences compare_keys rows k ≡ occurrences compare_keys rows' k)
        sound h =
            let ((a, e), f, g) =
              bind-eq-ok (both_multisets dumps find compare_keys actual expected id) _ h in
            let b = both_multisets_sound a e f in
            (
              b.actual_rows,
              b.expected_rows,
              b.comparison,
              λ k.
                  sym (b.actual_counts k)
                  ∙ (equal_multisets_iff a e).0 (ground arith) k
                  ∙ b.expected_counts k,
            )

        complete :
            ((rows : List JsonObject) × (rows' : List JsonObject) × IsComparison rows rows'
              × ((k : Key) → occurrences compare_keys rows k ≡ occurrences compare_keys rows' k))
            → evaluate_array_equals dumps find compare_keys actual expected id ≡ ok tt
        complete (rows, rows', c, h) =
            let (a, e, f, g, g') = both_multisets_complete rows rows' c in
            rw
              (
                f,
                (equal_multisets_iff a e).1
                    (λ k. g.counts k ∙ ground (arith, h k) ∙ sym (g'.counts k)),
              )
              refl

    -- The evaluator of containment accepts exactly if there are keys to compare, the actual value is
    -- an array of objects, the expected rows are those of an array of objects, of a single object, or,
    -- where no value is expected, of the stored payload of the id, which is of the type `json-array`
    -- and either of these, all rows have the keys, and no tuple of values at the keys occurs more
    -- often in the actual rows than in the expected ones.
    pub evaluate_array_contains_iff :
        (evaluate_array_contains dumps find compare_keys actual expected id ≡ ok tt) ↔ (
          (rows : List JsonObject) × (rows' : List JsonObject) × IsComparison rows rows'
          × ((k : Key) → occurrences compare_keys rows k < suc (occurrences compare_keys rows' k)))
    unfolding evaluate_array_contains get_count
    evaluate_array_contains_iff = (sound, complete)
      where
        sound :
            evaluate_array_contains dumps find compare_keys actual expected id ≡ ok tt
            → (rows : List JsonObject) × (rows' : List JsonObject) × IsComparison rows rows'
              × ((k : Key)
                  → occurrences compare_keys rows k < suc (occurrences compare_keys rows' k))
        sound h =
            let ((a, e), f, g) =
              bind-eq-ok (both_multisets dumps find compare_keys actual expected id) _ h in
            let b = both_multisets_sound a e f in
            (
              b.actual_rows,
              b.expected_rows,
              b.comparison,
              λ k. ground (
                arith,
                is_contained_sound a e k (ground arith),
                b.actual_counts k,
                b.expected_counts k,
              ),
            )

        complete :
            ((rows : List JsonObject) × (rows' : List JsonObject) × IsComparison rows rows'
              × ((k : Key)
                  → occurrences compare_keys rows k < suc (occurrences compare_keys rows' k)))
            → evaluate_array_contains dumps find compare_keys actual expected id ≡ ok tt
        complete (rows, rows', c, h) =
            let (a, e, f, g, g') = both_multisets_complete rows rows' c in
            rw
              (
                f,
                is_contained_complete a e (g.distinct tt)
                    (λ k. ground (arith, g.counts k, g'.counts k, h k)),
              )
              refl
