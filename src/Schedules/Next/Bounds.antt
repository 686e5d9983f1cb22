-- ===== src/Schedules/Next/Bounds.antt =====
-- Where the next run lies, and when there is none.
use quality_flow.Base.{
  ℕ, ◌+◌, ◌*◌, ◌<◌, ◌≡◌, ◌⊎◌, inl, inr, refl, sym, ap, ◌∙◌, Bool, true, false, ◌&&◌, not, String,
  Option, none, some, [], ◌∷◌, one_of, if◌then◌else◌, ◌==◌, ◌==ℕ◌, ltb, leb, Bool-cases, ok, is_ok,
  bind, bind-eq-ok, ok_injective, arith, subst,
}
use quality_flow.Base.Text.{strip, lower}
use quality_flow.Schedules.Next.{
  minutes, hours, days, frequency_delta, is_before, is_after, is_empty_window, next_candidate,
  clamp, add_delta, within_window, datetime_max, compute_next_run_at,
}

-- `reference_time or current_time`
abbrev pub base_time : ℕ → Option ℕ → ℕ
base_time now none = now
base_time now (some reference) = reference

-- A run is after the time that it is computed from and in the schedule's window, and it is one
-- period after that time or at the start of the window.
pub record IsNextRun (start end_at : Option ℕ) (base delta t : ℕ) : Type 0 where
  pub later : base < t
  pub started : is_before t start ≡ false
  pub not_ended : is_after t end_at ≡ false
  pub exact : (t ≡ base + delta) ⊎ (start ≡ some t)

frequency_delta_positive :
    (unit : String) (value delta : ℕ)
    → (value ==ℕ 0) ≡ false
    → frequency_delta unit value ≡ ok delta
    → 0 < delta
unfolding frequency_delta
frequency_delta_positive unit value delta v h = ground arith

clamp-IsNextRun :
    (start : ℕ) (end_at : Option ℕ) (base delta : ℕ)
    → 0 < delta
    → is_after (clamp (base + delta) (some start)) end_at ≡ false
    → IsNextRun (some start) end_at base delta (clamp (base + delta) (some start))
clamp-IsNextRun start end_at base delta d h = elim (Bool-cases (ltb (base + delta) start)) [
  | inl early ↦ rw early (record {
    later = ground arith;
    started = ground arith;
    not_ended = ground arith;
    exact = inr refl;
  })
  | inr late ↦
      rw late
        (record { later = omega arith; started = late; not_ended = ground arith; exact = inl refl })
]

add_delta_sum : (time delta sum : ℕ) → add_delta time delta ≡ ok sum → sum ≡ time + delta
add_delta_sum time delta sum h = ground arith

clamped :
    (start end_at : Option ℕ) (base delta c t : ℕ)
    → 0 < delta
    → c ≡ base + delta
    → clamp c start ≡ t
    → is_after t end_at ≡ false
    → IsNextRun start end_at base delta t
clamped none end_at base delta c t d e f h = record {
  later = omega arith;
  started = refl;
  not_ended = h;
  exact = inl (omega arith);
}
clamped (some start) end_at base delta c t d e f h =
    let same = ap (λ x. clamp x (some start)) (sym e) ∙ f in
    subst (IsNextRun (some start) end_at base delta) same (
      clamp-IsNextRun start end_at base delta d
        (subst (λ u. is_after u end_at ≡ false) (sym same) h))

next_candidate-IsNextRun :
    (start end_at : Option ℕ) (now : ℕ) (reference : Option ℕ) (delta t : ℕ)
    → 0 < delta
    → next_candidate start now reference delta ≡ ok t
    → is_after t end_at ≡ false
    → IsNextRun start end_at (base_time now reference) delta t
next_candidate-IsNextRun none end_at now none delta t d e h =
    let same = add_delta_sum now delta t e in
    record { later = omega arith; started = refl; not_ended = h; exact = inl same }
next_candidate-IsNextRun start end_at now (some reference) delta t d e h =
    let (c, f, g) = bind-eq-ok (add_delta reference delta) _ e in
    clamped start end_at reference delta c t d (add_delta_sum reference delta c f) (ok_injective g)
      h
next_candidate-IsNextRun (some start) end_at now none delta t d e h =
    elim (Bool-cases (ltb now start)) [
      | inl later ↦
          let same = ok_injective {a = start} {b = t} (ground arith) in
          subst (IsNextRun (some start) end_at now delta) same (record {
            later = ground arith;
            started = ground arith;
            not_ended = subst (λ u. is_after u end_at ≡ false) (sym same) h;
            exact = inr refl;
          })
      | inr begun ↦
          let (c, f, g) =
            bind-eq-ok (add_delta now delta) (λ candidate. ok (clamp candidate (some start)))
              {b = t} (ground arith) in
          clamped (some start) end_at now delta c t d (add_delta_sum now delta c f) (ok_injective g)
            h
    ]

-- A next run is computed for active schedules only. It is after the time that it is computed from and
-- in the schedule's window, and it is one period after that time or at the start of the window.
pub compute_next_run_at-IsNextRun :
    (active : Bool) (unit : String) (value : ℕ) (start end_at : Option ℕ) (now : ℕ)
    (reference : Option ℕ) (t : ℕ)
    → compute_next_run_at active unit value start end_at now reference ≡ ok (some t)
    → (active ≡ true)
      × (delta : ℕ) × (frequency_delta unit value ≡ ok delta)
      × IsNextRun start end_at (base_time now reference) delta t
unfolding compute_next_run_at
compute_next_run_at-IsNextRun active unit value start end_at now reference t h =
    let (delta, found, e) =
      bind-eq-ok (frequency_delta unit value)
        (λ delta.
          bind (next_candidate start now reference delta)
            (λ candidate. ok (within_window end_at candidate)))
        {b = some t} (ground arith) in
    let (c, f, g) =
      bind-eq-ok (next_candidate start now reference delta)
        (λ candidate. ok (within_window end_at candidate)) e in
    (
      ground arith,
      delta,
      found,
      subst (IsNextRun start end_at (base_time now reference) delta) {x = c} (ground arith) (
          next_candidate-IsNextRun start end_at now reference delta c
            (frequency_delta_positive unit value delta (ground arith) found) f (ground arith)),
    )

-- The microseconds of a frequency in minutes, hours or else days.
abbrev pub period : String → ℕ → ℕ
period unit value =
    if unit == minutes
    then value * 60000000
    else if unit == hours
    then value * 3600000000
    else value * 86400000000

-- One period after a time there is a date.
abbrev pub is_in_range : ℕ → String → ℕ → Bool
is_in_range now unit value = leb (now + period unit value) datetime_max

-- The computation does not raise where the frequency is positive, the window not empty, the unit one of
-- the three, and one period after the time that it is computed from there is a date.
pub compute_next_run_at-is_ok :
    (active : Bool) (unit : String) (value : ℕ) (start end_at : Option ℕ) (now : ℕ)
    → (not (value ==ℕ 0)
        && not (is_empty_window start end_at)
        && one_of (lower (strip unit)) (minutes ∷ hours ∷ days ∷ []))
      ≡ true
    → is_in_range now (lower (strip unit)) value ≡ true
    → is_ok (compute_next_run_at active unit value start end_at now (some now)) ≡ true
unfolding compute_next_run_at frequency_delta
compute_next_run_at-is_ok active unit value start end_at now h r = ground arith
