-- ===== src/Schedules/Process/Pending.antt =====
-- What a trigger keeps of the table, and which rows are still to be triggered.
use quality_flow.Base.{
  ℕ, ◌≡◌, refl, sym, ap, subst, ◌∙◌, true, false, inl, inr, Bool-cases, String, some, List, [], ◌∷◌,
  if◌then◌else◌, ◌==◌, one_of, All, if_intro, arith,
}
use quality_flow.Schedules.Trigger.{
  Schedule, SuiteRow, find_schedule, update_fields, refresh_schedule, refresh_states,
}
use quality_flow.Schedules.Process.{is_due, schedule_ids}
use quality_flow.Schedules.Process.Plan.{
  IsScheduled, SamePlan, refresh_schedule-SamePlan, SamePlan-IsScheduled, SamePlan-is_due,
}
use quality_flow.Schedules.Process.Settled.{Settles}

abbrev pub IsUnlisted : String → List String → Type 0
IsUnlisted id = All (λ i. (i == id) ≡ false)

-- Each id is there once.
abbrev pub HasUniqueIds : List String → Type 0
HasUniqueIds [] = Unit
HasUniqueIds (id ∷ ids) = IsUnlisted id ids × HasUniqueIds ids

-- A row is the schedule if it has its id.
abbrev pub IsOnly : String → Schedule → List Schedule → Type 0
IsOnly id s = All (λ p. (p.id == id) ≡ true → p ≡ s)

unlisted-IsOnly :
    (id : String) (s : Schedule) (table : List Schedule)
    → IsUnlisted id (schedule_ids table)
    → IsOnly id s table
unlisted-IsOnly id s [] h = tt
unlisted-IsOnly id s (p ∷ ps) (h, hs) = (λ e. ground arith, unlisted-IsOnly id s ps hs)

pub find_schedule-IsOnly :
    (id : String) (s : Schedule) (table : List Schedule)
    → HasUniqueIds (schedule_ids table)
    → find_schedule id table ≡ some s
    → IsOnly id s table
unfolding find_schedule
find_schedule-IsOnly id s [] u h = tt
find_schedule-IsOnly id s (p ∷ ps) (a, u) h = elim (Bool-cases (p.id == id)) [
  | inl same ↦ (
    λ _. ground arith,
    unlisted-IsOnly id s ps
        (subst (λ i. IsUnlisted i (schedule_ids ps)) {x = p.id} (ground arith) a),
  )
  | inr differ ↦ (λ e. ground arith, find_schedule-IsOnly id s ps u (ground arith))
]

-- An id of the table is that of a row.
pub find_schedule-some :
    (P : Schedule → Type 0) (id : String) (table : List Schedule)
    → one_of id (schedule_ids table) ≡ true
    → All P table
    → (s : Schedule) × (find_schedule id table ≡ some s) × (s.id ≡ id) × P s
unfolding find_schedule
find_schedule-some P id [] o h = ground arith
find_schedule-some P id (p ∷ ps) o (h, hs) = elim (Bool-cases (p.id == id)) [
  | inl same ↦ (p, ground arith, ground arith, h)
  | inr differ ↦
      let (s, e, i, g) = find_schedule-some P id ps (ground arith) hs in (s, ground arith, i, g)
]

-- What a pass keeps of a row, of which the ids are still to be triggered.
pub record IsPending (suites : List String) (now : ℕ) (ids : List String) (p : Schedule)
    : Type 0 where
  pub scheduled : IsScheduled suites now p
  pub listed : is_due now p ≡ true → one_of p.id ids ≡ true

module _ (suites : List String) (now : ℕ) (executions : List SuiteRow) (clock : ℕ) (id : String)
    (ids : List String) (s : Schedule) (f : Schedule → Schedule)
    (settles : Settles suites now s f) where
  row-IsPending :
      (p : Schedule)
      → IsPending suites now (id ∷ ids) p
      → ((p.id == id) ≡ true → p ≡ s)
      → IsPending suites now ids (
          if (refresh_schedule executions clock p).id == id
          then f (refresh_schedule executions clock p)
          else refresh_schedule executions clock p)
  row-IsPending p h only =
      let same = refresh_schedule-SamePlan executions clock p in
      if_intro (IsPending suites now ids) ((refresh_schedule executions clock p).id == id) _ _
        (λ e.
          let of_s =
            subst (λ r. SamePlan r (refresh_schedule executions clock p))
              (only (ground (arith, same.same_id))) same in
          record {
            scheduled = settles.scheduled (refresh_schedule executions clock p) of_s;
            listed =
                λ due. ground (arith, settles.not_due (refresh_schedule executions clock p) of_s);
          })
        (λ e. record {
          scheduled =
              SamePlan-IsScheduled suites now p (refresh_schedule executions clock p) same
                h.scheduled;
          listed = λ due. still (refresh_schedule executions clock p) same.same_id e (
              h.listed
                (sym (SamePlan-is_due now p (refresh_schedule executions clock p) same) ∙ due));
        })
    where
      still :
          (q : Schedule)
          → q.id ≡ p.id
          → (q.id == id) ≡ false
          → one_of p.id (id ∷ ids) ≡ true
          → one_of q.id ids ≡ true
      still q i e o = ground (arith, i)

  pub table-IsPending :
      (table : List Schedule)
      → All (IsPending suites now (id ∷ ids)) table
      → IsOnly id s table
      → All (IsPending suites now ids) (update_fields id f (refresh_states executions clock table))
  unfolding update_fields refresh_states
  table-IsPending [] h only = tt
  table-IsPending (p ∷ ps) (h, hs) (o, os) = (row-IsPending p h o, table-IsPending ps hs os)

  pub update-schedule_ids :
      (table : List Schedule)
      → IsOnly id s table
      → schedule_ids (update_fields id f (refresh_states executions clock table))
        ≡ schedule_ids table
  unfolding update_fields refresh_states
  update-schedule_ids [] only = refl
  update-schedule_ids (p ∷ ps) (o, os) =
      let same = refresh_schedule-SamePlan executions clock p in
      ap (λ i. i ∷ schedule_ids (update_fields id f (refresh_states executions clock ps)))
        (if_intro {A = Schedule} (λ q. q.id ≡ p.id) ((refresh_schedule executions clock p).id == id)
          _ _ (λ e. settles.keeps_id (refresh_schedule executions clock p) ∙ same.same_id)
          (λ e. same.same_id))
      ∙ ap (◌∷◌ p.id) (update-schedule_ids ps os)

pub refresh-schedule_ids :
    (executions : List SuiteRow) (clock : ℕ) (table : List Schedule)
    → schedule_ids (refresh_states executions clock table) ≡ schedule_ids table
unfolding refresh_states
refresh-schedule_ids executions clock [] = refl
refresh-schedule_ids executions clock (p ∷ ps) =
    ap (λ i. i ∷ schedule_ids (refresh_states executions clock ps))
      (refresh_schedule-SamePlan executions clock p).same_id
    ∙ ap (◌∷◌ p.id) (refresh-schedule_ids executions clock ps)

pub refresh-IsScheduled :
    (suites : List String) (now : ℕ) (executions : List SuiteRow) (clock : ℕ)
    (table : List Schedule)
    → All (IsScheduled suites now) table
    → All (IsScheduled suites now) (refresh_states executions clock table)
unfolding refresh_states
refresh-IsScheduled suites now executions clock [] h = tt
refresh-IsScheduled suites now executions clock (p ∷ ps) (h, hs) = (
  SamePlan-IsScheduled suites now p (refresh_schedule executions clock p)
      (refresh_schedule-SamePlan executions clock p) h,
  refresh-IsScheduled suites now executions clock ps hs,
)
