-- ===== src/Constants/Plan/Carry.antt =====
-- What a section takes over from the one before it.
use quality_flow.Base.{
  ◌≡◌, refl, sym, ap, subst, false, inl, inr, Bool-cases, String, Option, none, some, [], ◌∷◌, ◌==◌,
  arith,
}
use quality_flow.Base.Int.{ℤ, pos, ◌≤ℤ◌, ≤ℤ_refl, ≤ℤ_trans}
use quality_flow.Base.Dict.{lookup-IsApart, lookup, IsApart, IsDict}
use quality_flow.Constants.Plan.{
  PlannedDefinition, Definitions, carry, carried, carry_over_visible_map,
}
use quality_flow.Constants.Plan.Unique.{IsLive}
use quality_flow.Constants.Plan.Invariant.{IsNamed, IsPlanned}

carry-IsApart :
    (k : String) (ds : Definitions) → IsApart k ds → IsApart k (carry_over_visible_map ds)
unfolding carry_over_visible_map
carry-IsApart k [] h = tt
carry-IsApart k ((i, d) ∷ ds) (h, hs) = go (carry-IsApart k ds hs) d.deleted_at_order
  where
    go :
        IsApart k (carry_over_visible_map ds)
        → (n : Option ℤ) → IsApart k (carry i n d (carry_over_visible_map ds))
    go rest none = (h, rest)
    go rest (some _) = rest

carry-IsDict : (ds : Definitions) → IsDict ds → IsDict (carry_over_visible_map ds)
unfolding carry_over_visible_map
carry-IsDict [] h = tt
carry-IsDict ((i, d) ∷ ds) (h, hs) = go (carry-IsDict ds hs) d.deleted_at_order
  where
    go :
        IsDict (carry_over_visible_map ds)
        → (n : Option ℤ) → IsDict (carry i n d (carry_over_visible_map ds))
    go rest none = (carry-IsApart i ds h, rest)
    go rest (some _) = rest

-- The live definition that a carried one comes from.
pub record IsCarried (ds : Definitions) (i : String) (d : PlannedDefinition) : Type 0 where
  pub before : PlannedDefinition
  pub found : lookup i ds ≡ some before
  pub live : IsLive before
  pub same : d ≡ carried before

-- A map that is carried over has the live definitions of the map before.
pub carry-lookup :
    (ds : Definitions) (i : String) (d : PlannedDefinition)
    → IsDict ds
    → lookup i (carry_over_visible_map ds) ≡ some d
    → IsCarried ds i d
unfolding carry_over_visible_map lookup
carry-lookup [] i d u h = cc
carry-lookup ((j, e) ∷ ds) i d (a, u) h = go (carry-lookup ds i d u) e.deleted_at_order refl h
  where
    later : (j == i) ≡ false → IsCarried ds i d → IsCarried ((j, e) ∷ ds) i d
    later differ c = record {
      before = c.before;
      found = ground (arith, c.found);
      live = c.live;
      same = c.same;
    }

    go :
        (lookup i (carry_over_visible_map ds) ≡ some d → IsCarried ds i d)
        → (n : Option ℤ) → e.deleted_at_order ≡ n
        → lookup i (carry j n e (carry_over_visible_map ds)) ≡ some d
        → IsCarried ((j, e) ∷ ds) i d
    go rest none live k = elim (Bool-cases (j == i)) [
      | inl same ↦ record { before = e; found = rw same refl; live = live; same = ground arith }
      | inr differ ↦ later differ (rest (ground arith))
    ]
    go rest (some n) gone k = elim (Bool-cases (j == i)) [
      | inr differ ↦ later differ (rest k)
      | inl same ↦
          let c = rest k in
          let absent = lookup-IsApart i ds (subst (λ t. IsApart t ds) (ground arith) a) in
          ground (arith, c.found, absent)
    ]

pub carry-IsPlanned :
    (ds : Definitions) → IsNamed ds → IsPlanned (pos 0) (carry_over_visible_map ds)
carry-IsPlanned ds h = record {
  named = record {
    distinct = carry-IsDict ds h.distinct;
    unique = λ i j d e k l live_d live_e same.
        let c = carry-lookup ds i d h.distinct k in
        let b = carry-lookup ds j e h.distinct l in
        h.unique i j c.before b.before c.found b.found c.live b.live
          (ground (arith, c.same, b.same, same));
    known = λ i d k.
        let c = carry-lookup ds i d h.distinct k in
        ground (arith, c.same, h.known i c.before c.found);
  };
  before = λ i d k.
      let c = carry-lookup ds i d h.distinct k in
      subst (λ n. n ≤ℤ pos 0) (sym (ap (λ x. x.command_order) c.same)) (≤ℤ_refl (pos 0));
}

pub IsPlanned-later : (n m : ℤ) (ds : Definitions) → n ≤ℤ m → IsPlanned n ds → IsPlanned m ds
IsPlanned-later n m ds e p = record {
  named = p.named;
  before = λ i d k. ≤ℤ_trans d.command_order n m (p.before i d k) e;
}
