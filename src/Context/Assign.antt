-- ===== src/Context/Assign.antt =====
-- Writes and removals below a container: `_assign_nested_value` and `_remove_nested_value`.
use quality_flow.Base.{
  ℕ, zero, suc, ◌-◌, Bool, String, Option, none, some, List, [], ◌∷◌, ◌++◌, ltb, is_some,
  if◌then◌else◌, length, get_elem?, set, remove_at, Result, ok, err,
}
use quality_flow.Base.Dict.{lookup, erase}
use quality_flow.Context.Store.{
  Value, null, ref, Object, dict, array, Store, alloc, put, as_dict, as_array, value_or_null,
  set_item,
}
use quality_flow.Context.Paths.{to_index}

-- `n` new empty dicts at the end of a list.
unfoldable pub grow : ℕ → List Value → Store → List Value × Store
grow zero xs s = (xs, s)
grow (suc n) xs s = let (a, s') = alloc (dict []) s in grow n (xs ++ (ref a ∷ [])) s'

-- `_ensure_list_size` on the list at `a`: the list now holds index `i`.
unfoldable pub ensure_list_size : ℕ → List Value → ℕ → Store → List Value × Store
unfolding grow
ensure_list_size a xs i s =
    let (xs', s') = grow (suc i - length xs) xs s in (xs', put a (array xs') s')

-- The last token names a slot of the container, which is set.
unfoldable pub assign_last : Value → String → Value → Store → Result (Unit {0}) × Store
unfolding ensure_list_size
assign_last current token value s = elim (to_index token) [
  | some i ↦ elim (as_array s current) [
    | none ↦ (err "Target path expects a list segment.", s)
    | some (a, xs) ↦
        let (xs', s') = ensure_list_size a xs i s in (ok tt, put a (array (set xs' i value)) s')
  ]
  | none ↦ elim (as_dict s current) [
    | none ↦ (err "Target path expects an object segment.", s)
    | some (a, d) ↦ (ok tt, set_item a token value s)
  ]
]

abbrev is_index : String → Bool
is_index token = is_some (to_index token)

-- The container that a missing slot is given: a list if the next token is an index.
abbrev pub new_container : String → Object
new_container next = if is_index next then array [] else dict []

-- The value in a slot of the list at `a`; in place of `None` stands a new container.
abbrev pub open_index : ℕ → List Value → ℕ → String → Value → Store → Value × Store
open_index a xs i next null s =
    let (c, s') = alloc (new_container next) s in (ref c, put a (array (set xs i (ref c))) s')
open_index a xs i next v s = (v, s)

abbrev pub open_key : ℕ → String → String → Value → Store → Value × Store
open_key a token next null s =
    let (c, s') = alloc (new_container next) s in (ref c, set_item a token (ref c) s')
open_key a token next v s = (v, s)

-- One round of the loop that is not the last: the value that the next token goes into.
unfoldable pub descend : Value → String → String → Store → Result Value × Store
unfolding ensure_list_size
descend current token next s = elim (to_index token) [
  | some i ↦ elim (as_array s current) [
    | none ↦ (err "Target path expects a list segment.", s)
    | some (a, xs) ↦
        let (xs', s') = ensure_list_size a xs i s in
        let (v, s'') = open_index a xs' i next (value_or_null (get_elem? xs' i)) s' in (ok v, s'')
  ]
  | none ↦ elim (as_dict s current) [
    | none ↦ (err "Target path expects an object segment.", s)
    | some (a, d) ↦
        let (v, s') = open_key a token next (value_or_null (lookup token d)) s in (ok v, s')
  ]
]

-- `_assign_nested_value`
unfoldable pub assign_nested_value : Value → List String → Value → Store → Result (Unit {0}) × Store
assign_nested_value current [] value s = (err "Target path must include at least one segment.", s)
assign_nested_value current (token ∷ []) value s = assign_last current token value s
assign_nested_value current (token ∷ next ∷ rest) value s =
    let (r, s') = descend current token next s in
    elim r [ ok v ↦ assign_nested_value v (next ∷ rest) value s' | err e ↦ (err e, s') ]

-- The value in a slot that exists.
abbrev pub child : Value → String → Store → Option Value
child current token s = elim (to_index token) [
  | some i ↦ elim (as_array s current) [ none ↦ none | some (_, xs) ↦ get_elem? xs i ]
  | none ↦ elim (as_dict s current) [ none ↦ none | some (_, d) ↦ lookup token d ]
]

-- The last token names a slot, which is taken out if it is there.
unfoldable pub remove_last : Value → String → Store → Store
remove_last current token s = elim (to_index token) [
  | some i ↦ elim (as_array s current) [
    | none ↦ s
    | some (a, xs) ↦ if ltb i (length xs) then put a (array (remove_at xs i)) s else s
  ]
  | none ↦ elim (as_dict s current) [
    | none ↦ s
    | some (a, d) ↦ if is_some (lookup token d) then put a (dict (erase token d)) s else s
  ]
]

-- `_remove_nested_value`
unfoldable pub remove_nested_value : Value → List String → Store → Store
remove_nested_value current [] s = s
remove_nested_value current (token ∷ []) s = remove_last current token s
remove_nested_value current (token ∷ next ∷ rest) s = elim (child current token s) [
  | none ↦ s
  | some v ↦ remove_nested_value v (next ∷ rest) s
]
