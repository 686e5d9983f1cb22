-- ===== src/Base/Dict.antt =====
-- Python dicts with text keys, in insertion order.
use Prim.Native.String.{String}
use mathlib.Core.Path.{◌≡◌, refl, subst}
use mathlib.Core.Logic.{inl, inr}
use mathlib.Core.Bool.{true, false}
use mathlib.Core.Option.{Option, none, some}
use mathlib.Core.List.{List, [], ◌∷◌}
use native.Mathlib.Omega.{arith}
use quality_flow.Base.Equality.{◌==◌}
use quality_flow.Base.Tests.{if◌then◌else◌, Bool-cases}
use quality_flow.Base.Lists.{All}

abbrev pub Dict {ℓ} : Type ℓ → Type ℓ
Dict V = List (String × V)

module _ {ℓ} {V : Type ℓ} where
  -- `d.get(k)`
  unfoldable pub lookup : String → Dict V → Option V
  lookup k [] = none
  lookup k ((j, v) ∷ d) = if j == k then some v else lookup k d

  -- `d[k] = v`
  unfoldable pub insert : String → V → Dict V → Dict V
  insert k v [] = (k, v) ∷ []
  insert k v ((j, w) ∷ d) = if j == k then (k, v) ∷ d else (j, w) ∷ insert k v d

  -- `d.pop(k, None)`: a dict holds a key once
  unfoldable pub erase : String → Dict V → Dict V
  erase k [] = []
  erase k ((j, w) ∷ d) = if j == k then d else (j, w) ∷ erase k d

  pub lookup-insert :
      (j k : String) (v : V) (d : Dict V)
      → lookup j (insert k v d) ≡ (if k == j then some v else lookup j d)
  unfolding lookup insert
  lookup-insert j k v [] = refl
  lookup-insert j k v ((i, w) ∷ d) = ground (arith, lookup-insert j k v d)

  pub lookup-insert_self : (k : String) (v : V) (d : Dict V) → lookup k (insert k v d) ≡ some v
  lookup-insert_self k v d = ground (arith, lookup-insert k k v d)

  pub lookup-erase_ne :
      (j k : String) (d : Dict V) → (k == j) ≡ false → lookup j (erase k d) ≡ lookup j d
  unfolding lookup erase
  lookup-erase_ne j k [] h = refl
  lookup-erase_ne j k ((i, w) ∷ d) h = ground (arith, lookup-erase_ne j k d h)

  -- No entry has the key.
  abbrev pub IsApart : String → Dict V → Type 0
  IsApart k = All (λ e. (e.0 == k) ≡ false)

  -- Each key has one entry.
  abbrev pub IsDict : Dict V → Type 0
  IsDict [] = Unit
  IsDict ((k, v) ∷ d) = IsApart k d × IsDict d

  pub lookup-IsApart : (k : String) (d : Dict V) → IsApart k d → lookup k d ≡ none
  unfolding lookup
  lookup-IsApart k [] h = refl
  lookup-IsApart k ((j, w) ∷ d) (h, hs) = rw h (lookup-IsApart k d hs)

  insert-IsApart :
      (j k : String) (v : V) (d : Dict V)
      → (k == j) ≡ false
      → IsApart j d
      → IsApart j (insert k v d)
  unfolding insert
  insert-IsApart j k v [] e h = (e, tt)
  insert-IsApart j k v ((i, w) ∷ d) e (h, hs) = elim (Bool-cases (i == k)) [
    | inl same ↦ rw same (e, hs)
    | inr differ ↦ rw differ (h, insert-IsApart j k v d e hs)
  ]

  pub insert-IsDict : (k : String) (v : V) (d : Dict V) → IsDict d → IsDict (insert k v d)
  unfolding insert
  insert-IsDict k v [] h = (tt, tt)
  insert-IsDict k v ((i, w) ∷ d) (h, hs) = elim (Bool-cases (i == k)) [
    | inl same ↦ rw same (apart same, hs)
    | inr differ ↦ rw differ (insert-IsApart i k v d (ground arith) h, insert-IsDict k v d hs)
  ]
    where
      apart : (i == k) ≡ true → IsApart k d
      apart same = subst (λ j. IsApart j d) (ground arith) h

  erase-IsApart : (j k : String) (d : Dict V) → IsApart j d → IsApart j (erase k d)
  unfolding erase
  erase-IsApart j k [] h = tt
  erase-IsApart j k ((i, w) ∷ d) (h, hs) = elim (Bool-cases (i == k)) [
    | inl same ↦ rw same hs
    | inr differ ↦ rw differ (h, erase-IsApart j k d hs)
  ]

  pub erase-IsDict : (k : String) (d : Dict V) → IsDict d → IsDict (erase k d)
  unfolding erase
  erase-IsDict k [] h = tt
  erase-IsDict k ((i, w) ∷ d) (h, hs) = elim (Bool-cases (i == k)) [
    | inl same ↦ rw same hs
    | inr differ ↦ rw differ (erase-IsApart i k d h, erase-IsDict k d hs)
  ]

  pub lookup-erase_self : (k : String) (d : Dict V) → IsDict d → lookup k (erase k d) ≡ none
  unfolding lookup erase
  lookup-erase_self k [] h = refl
  lookup-erase_self k ((i, w) ∷ d) (h, hs) = elim (Bool-cases (i == k)) [
    | inl same ↦ rw same (lookup-IsApart k d (subst (λ j. IsApart j d) {x = i} (ground arith) h))
    | inr differ ↦ rw (differ, differ) (lookup-erase_self k d hs)
  ]

  pub lookup-erase :
      (j k : String) (d : Dict V)
      → IsDict d
      → lookup j (erase k d) ≡ (if k == j then none else lookup j d)
  lookup-erase j k d h = elim (Bool-cases (k == j)) [
    | inl same ↦
        rw same (
          subst (λ i. lookup j (erase i d) ≡ none) {x = j} (ground arith) (lookup-erase_self j d h))
    | inr differ ↦ rw differ (lookup-erase_ne j k d differ)
  ]
