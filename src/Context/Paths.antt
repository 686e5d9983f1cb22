-- ===== src/Context/Paths.antt =====
-- Target paths, such as `$.local.constants.items[0]`, and their tokens.
pub mod Names
use Prim.Native.Char.{Char, code}
use quality_flow.Base.{
  ℕ, ◌+◌, ◌-◌, ◌*◌, Bool, true, false, ◌&&◌, String, Option, none, some, List, [], ◌∷◌, ◌++◌, ◌==ℕ◌,
  leb, if◌then◌else◌, ◌==◌, one_of, Result, ok, err, bind,
}
use quality_flow.Base.Text.{is_empty, strip, push}

-- `normalized[1:]` if `normalized` starts with a dot
drop_dot : String → String
drop_dot String.[] = String.[]
drop_dot (String.◌∷◌ c s) = if code c ==ℕ b'.' then s else String.◌∷◌ c s

normalized_target : String → Result String
unfolding drop_dot
normalized_target String.[] = err "Target path is required."
normalized_target (String.◌∷◌ c s) =
    if code c ==ℕ b'$' then ok (drop_dot s) else ok (String.◌∷◌ c s)

-- `_normalize_target_path`
unfoldable pub normalize_target_path : String → Result String
unfolding normalized_target
normalize_target_path path = normalized_target (strip path)

-- A token joins the result unless it is empty.
abbrev pub keep : String → List String → List String
keep token result = if is_empty token then result else result ++ (token ∷ [])

-- The loop of `_segment_tokens` over the characters left, with `result`, `buffer` and `index_mode`.
unfoldable pub segment_loop : String → List String → String → Bool → List String
segment_loop String.[] result buffer index_mode =
    keep (if index_mode then strip buffer else buffer) result
segment_loop (String.◌∷◌ c s) result buffer index_mode =
    segment_loop s
      (if code c ==ℕ b'['
        then keep buffer result
        else if code c ==ℕ b']'
        then keep (strip buffer) result
        else result)
      (if code c ==ℕ b'[' then "" else if code c ==ℕ b']' then "" else push buffer c)
      (if code c ==ℕ b'[' then true else if code c ==ℕ b']' then false else index_mode)

-- `_segment_tokens`
unfoldable pub segment_tokens : String → List String
unfolding segment_loop
segment_tokens segment = segment_loop (strip segment) [] "" false

abbrev cons_first : Char → List String → List String
cons_first c [] = String.◌∷◌ c String.[] ∷ []
cons_first c (p ∷ ps) = String.◌∷◌ c p ∷ ps

-- `normalized.split(".")`
unfoldable pub split_dots : String → List String
split_dots String.[] = "" ∷ []
split_dots (String.◌∷◌ c s) =
    let rest = split_dots s in if code c ==ℕ b'.' then "" ∷ rest else cons_first c rest

-- The loop of `_path_tokens` over the parts; empty parts have no tokens.
unfoldable pub part_tokens : List String → List String
unfolding segment_tokens
part_tokens [] = []
part_tokens (part ∷ parts) = segment_tokens part ++ part_tokens parts

-- `_path_tokens`
unfoldable pub path_tokens : String → Result (List String)
unfolding normalize_target_path part_tokens split_dots
path_tokens path = bind (normalize_target_path path) (λ n. ok (part_tokens (split_dots n)))

-- The root that the first token names.
abbrev pub root_of : String → Option String
root_of root =
    if root == "vars"
    then some "global"
    else if root == "response"
    then some "response"
    else if one_of root ("runEnvelope" ∷ "global" ∷ "local" ∷ "result" ∷ [])
    then some root
    else none

abbrev pub root_of_tokens : List String → Option String
root_of_tokens [] = none
root_of_tokens (token ∷ _) = root_of (strip token)

-- `extract_context_root`
unfoldable pub extract_context_root : String → Result (Option String)
extract_context_root path = bind (path_tokens path) (λ tokens. ok (root_of_tokens tokens))

abbrev is_digit : Char → Bool
is_digit c = leb b'0' (code c) && leb (code c) b'9'

-- The number of a text of digits, read from the left.
digits_value : String → ℕ → Option ℕ
digits_value String.[] acc = some acc
digits_value (String.◌∷◌ c s) acc =
    let rest = digits_value s (acc * 10 + (code c - b'0')) in if is_digit c then rest else none

index_of : String → Option ℕ
unfolding digits_value
index_of String.[] = none
index_of (String.◌∷◌ c s) = digits_value (String.◌∷◌ c s) 0

-- `_to_index`
unfoldable pub to_index : String → Option ℕ
unfolding index_of
to_index token = index_of (strip token)
