-- ===== src/Context/Store.antt =====
-- The Python objects that a run context is made of. Dicts and lists are shared and mutable, so a
-- value holds the address of one, and a store maps addresses to objects.
use quality_flow.Base.{ℕ, suc, Bool, String, Option, none, some, List, [], ◌==ℕ◌, if◌then◌else◌}
use quality_flow.Base.Dict.{Dict, lookup, insert}

pub data Value : Type 0 where
  null : Value
  bool : Bool → Value
  num : ℕ → Value
  text : String → Value
  -- any other immutable object, such as a float or a date, by a number
  opaque : ℕ → Value
  ref : ℕ → Value

pub data Object : Type 0 where
  dict : Dict Value → Object
  array : List Value → Object

pub record Store : Type 0 where
  pub next : ℕ
  pub cell : ℕ → Option Object

-- Allocation of a new object.
abbrev pub alloc : Object → Store → ℕ × Store
alloc o s =
    (s.next, record { next = suc s.next; cell = λ a. if s.next ==ℕ a then some o else s.cell a })

-- The object at an address is changed in place.
abbrev pub put : ℕ → Object → Store → Store
put a o s = record s { cell = λ b. if a ==ℕ b then some o else s.cell b }

abbrev dict_cell : Option Object → Option (Dict Value)
dict_cell (some (dict d)) = some d
dict_cell (some (array _)) = none
dict_cell none = none

abbrev array_cell : Option Object → Option (List Value)
array_cell (some (array xs)) = some xs
array_cell (some (dict _)) = none
array_cell none = none

-- `d` where `isinstance(v, dict)` holds
abbrev pub as_dict : Store → Value → Option (ℕ × Dict Value)
as_dict s (ref a) = elim (dict_cell (s.cell a)) [ none ↦ none | some d ↦ some (a, d) ]
as_dict s _ = none

-- `xs` where `isinstance(v, list)` holds
abbrev pub as_array : Store → Value → Option (ℕ × List Value)
as_array s (ref a) = elim (array_cell (s.cell a)) [ none ↦ none | some xs ↦ some (a, xs) ]
as_array s _ = none

-- `d.get(key)` of the dict at an address, with `None` for a missing key
abbrev pub value_or_null : Option Value → Value
value_or_null none = null
value_or_null (some v) = v

abbrev pub dict_at : Store → ℕ → Dict Value
dict_at s a = elim (dict_cell (s.cell a)) [ none ↦ [] | some d ↦ d ]

abbrev pub get_item : Store → ℕ → String → Value
get_item s a key = value_or_null (lookup key (dict_at s a))

-- `d[key] = v` on the dict at an address
abbrev pub set_item : ℕ → String → Value → Store → Store
set_item a key v s = put a (dict (insert key v (dict_at s a))) s
