-- ===== src/Asserts/Multisets.antt =====
-- What the comparisons of arrays decide, in terms of how often each tuple occurs.
use quality_flow.Base.{
  ℕ, suc, ◌<◌, ◌≡◌, ◌↔◌, refl, sym, ◌∙◌, Bool, true, false, ◌||◌, not, ◌⊎◌, inl, inr, Bool-cases,
  String, List, [], ◌∷◌, ltb, if◌then◌else◌, ◌==◌, arith,
}
use quality_flow.Asserts.{
  Key, same_key, Multiset, get_count, add_one, counts_agree, equal_multisets, is_contained,
}

-- How often a tuple occurs.
abbrev pub count : Key → List Key → ℕ
count k [] = 0
count k (j ∷ js) = if same_key j k then suc (count k js) else count k js

==_comm : (s t : String) → (s == t) ≡ (t == s)
==_comm s t = ground arith

same_key_sound : (j k : Key) → same_key j k ≡ true → j ≡ k
unfolding same_key
same_key_sound [] [] h = refl
same_key_sound [] (y ∷ ys) h = cc
same_key_sound (x ∷ xs) [] h = cc
same_key_sound (x ∷ xs) (y ∷ ys) h = ground (arith, same_key_sound xs ys)

same_key_refl : (k : Key) → same_key k k ≡ true
unfolding same_key
same_key_refl [] = refl
same_key_refl (x ∷ xs) = ground (arith, same_key_refl xs)

same_key_comm : (j k : Key) → same_key j k ≡ same_key k j
unfolding same_key
same_key_comm [] [] = refl
same_key_comm [] (y ∷ ys) = refl
same_key_comm (x ∷ xs) [] = refl
same_key_comm (x ∷ xs) (y ∷ ys) = rw (==_comm x y, same_key_comm xs ys) refl

pub get_count-add_one :
    (j k : Key) (m : Multiset)
    → get_count j (add_one k m) ≡ (if same_key k j then suc (get_count j m) else get_count j m)
unfolding get_count add_one
get_count-add_one j k [] = ground arith
get_count-add_one j k ((i, n) ∷ m) = elim (Bool-cases (same_key i k)) [
  | inl same ↦ ground (arith, same_key_sound i k same)
  | inr differ ↦ rw differ (elim (Bool-cases (same_key i j)) [
    | inl same ↦ ground (arith, same_key_sound i j same, same_key_comm i k)
    | inr differ' ↦ ground (arith, get_count-add_one j k m)
  ])
]

abbrev pub has_key : Key → Multiset → Bool
has_key k [] = false
has_key k ((j, n) ∷ m) = same_key j k || has_key k m

-- Each key has one entry.
abbrev pub IsDistinct : Multiset → Type 0
IsDistinct [] = Unit
IsDistinct ((k, n) ∷ m) = (has_key k m ≡ false) × IsDistinct m

has_key-add_one :
    (j k : Key) (m : Multiset) → has_key j (add_one k m) ≡ (has_key j m || same_key k j)
unfolding add_one
has_key-add_one j k [] = ground arith
has_key-add_one j k ((i, n) ∷ m) = elim (Bool-cases (same_key i k)) [
  | inl same ↦ ground (arith, same_key_sound i k same)
  | inr differ ↦ ground (arith, has_key-add_one j k m)
]

pub add_one-IsDistinct : (k : Key) (m : Multiset) → IsDistinct m → IsDistinct (add_one k m)
unfolding add_one
add_one-IsDistinct k [] h = (refl, tt)
add_one-IsDistinct k ((i, n) ∷ m) (h, hs) = elim (Bool-cases (same_key i k)) [
  | inl same ↦ rw same (h, hs)
  | inr differ ↦
      rw differ
        (has_key-add_one i k m ∙ rw (h, same_key_comm k i, differ) refl, add_one-IsDistinct k m hs)
]

has_key-get_count : (k : Key) (m : Multiset) → has_key k m ≡ false → get_count k m ≡ 0
unfolding get_count
has_key-get_count k [] h = refl
has_key-get_count k ((i, n) ∷ m) h = ground (arith, has_key-get_count k m)

-- A key that has no entry does not count, and at each entry the counts agree.
counts_agree_sound :
    (a b m : Multiset) (k : Key)
    → counts_agree a b m ≡ true
    → (has_key k m ≡ false) ⊎ (get_count k a ≡ get_count k b)
unfolding counts_agree
counts_agree_sound a b [] k h = inl refl
counts_agree_sound a b ((j, n) ∷ m) k h = elim (Bool-cases (same_key j k)) [
  | inl same ↦ inr (ground (arith, same_key_sound j k same))
  | inr differ ↦ elim (counts_agree_sound a b m k (ground arith)) [
    | inl e ↦ inl (ground arith)
    | inr e ↦ inr e
  ]
]

counts_agree_complete :
    (a b m : Multiset) → ((k : Key) → get_count k a ≡ get_count k b) → counts_agree a b m ≡ true
unfolding counts_agree
counts_agree_complete a b [] h = refl
counts_agree_complete a b ((j, n) ∷ m) h = ground (arith, h j, counts_agree_complete a b m h)

pub equal_multisets_iff :
    (a b : Multiset) → (equal_multisets a b ≡ true) ↔ ((k : Key) → get_count k a ≡ get_count k b)
equal_multisets_iff a b =
    (sound, λ h. ground (arith, counts_agree_complete a b a h, counts_agree_complete a b b h))
  where
    sound : equal_multisets a b ≡ true → (k : Key) → get_count k a ≡ get_count k b
    sound h k = elim (counts_agree_sound a b a k (ground arith)) [
      | inr e ↦ e
      | inl e ↦ elim (counts_agree_sound a b b k (ground arith)) [
        | inr f ↦ f
        | inl f ↦ has_key-get_count k a e ∙ sym (has_key-get_count k b f)
      ]
    ]

pub is_contained_sound :
    (m e : Multiset) (k : Key) → is_contained m e ≡ true → get_count k m < suc (get_count k e)
unfolding is_contained get_count
is_contained_sound [] e k h = omega arith
is_contained_sound ((j, n) ∷ m) e k h = elim (Bool-cases (same_key j k)) [
  | inl same ↦ ground (arith, same_key_sound j k same)
  | inr differ ↦ ground (arith, is_contained_sound m e k)
]

pub is_contained_complete :
    (m e : Multiset)
    → IsDistinct m
    → ((k : Key) → get_count k m < suc (get_count k e))
    → is_contained m e ≡ true
unfolding is_contained get_count
is_contained_complete [] e d h = refl
is_contained_complete ((j, n) ∷ m) e (d, ds) h =
    let head : not (ltb (get_count j e) n) ≡ true = ground (arith, h j, same_key_refl j) in
    rw head (
      is_contained_complete m e ds (λ k. elim (Bool-cases (same_key j k)) [
        | inl same ↦ ground (arith, same_key_sound j k same, has_key-get_count j m d)
        | inr differ ↦ ground (arith, h k)
      ]))
