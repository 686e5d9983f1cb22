-- ===== src/Asserts/Tests.antt =====
-- The theorems on asserts at two arrays of two rows, in another order.
use quality_flow.Base.{suc, ◌<◌, ◌≡◌, ◌↔◌, refl, String, Option, none, List, [], ◌∷◌, ok, text_dec}
use quality_flow.Asserts.{
  Json, null, scalar, text, array, object, empty_array, item, empty_object, field, JsonObject,
  JsonPayload, Key, evaluate_array_contains, evaluate_array_equals, both_multisets, multisets_of,
  normalize_rows, normalize_items, load_expected_rows, count_rows, get_field, same_key, get_count,
  add_one, counts_agree,
}
use quality_flow.Asserts.Compare.{
  IsComparison, occurrences, evaluate_array_equals_iff, evaluate_array_contains_iff,
}

-- Stands for `json.dumps` on texts and scalars.
abbrev dumps : Json → String
dumps null = "null"
dumps (scalar s) = s
dumps (text s) = s
dumps (array _) = "array"
dumps (object _) = "object"

abbrev row : String → JsonObject
row n = field "id" (scalar n) (field "name" (text "x") empty_object)

abbrev actual : Json
actual = array (item (object (row "1")) (item (object (row "2")) empty_array))

abbrev expected : Json
expected = array (item (object (row "2")) (item (object (row "1")) empty_array))

abbrev find : String → Option JsonPayload
find id = none

accepted : evaluate_array_equals dumps find ("id" ∷ []) actual expected none ≡ ok tt
unfolding evaluate_array_equals both_multisets multisets_of normalize_rows normalize_items
    load_expected_rows count_rows get_field same_key get_count add_one counts_agree text_dec
accepted = refl

evaluate_array_equals_iff_example :
    (evaluate_array_equals dumps find ("id" ∷ []) actual expected none ≡ ok tt) ↔ (
      (rows : List JsonObject) × (rows' : List JsonObject) × IsComparison dumps find
        ("id" ∷ [])
        actual
        expected
        none
        rows
        rows'
      × ((k : Key) → occurrences dumps ("id" ∷ []) rows k ≡ occurrences dumps ("id" ∷ []) rows' k))
evaluate_array_equals_iff_example =
    evaluate_array_equals_iff dumps find ("id" ∷ []) actual expected none

evaluate_array_contains_iff_example :
    (evaluate_array_contains dumps find ("id" ∷ []) actual expected none ≡ ok tt) ↔ (
      (rows : List JsonObject) × (rows' : List JsonObject) × IsComparison dumps find
        ("id" ∷ [])
        actual
        expected
        none
        rows
        rows'
      × ((k : Key)
          → occurrences dumps ("id" ∷ []) rows k < suc (occurrences dumps ("id" ∷ []) rows' k)))
evaluate_array_contains_iff_example =
    evaluate_array_contains_iff dumps find ("id" ∷ []) actual expected none
