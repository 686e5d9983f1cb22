-- ===== src/Schedules/Next.antt =====
-- `compute_next_run_at`. A time is the number of microseconds since `datetime.min`.
pub mod Bounds
use quality_flow.Base.{
  ℕ, ◌+◌, ◌*◌, Bool, false, ◌&&◌, not, String, ◌<>◌, Option, none, some, if◌then◌else◌, ◌==◌, ◌==ℕ◌,
  ltb, leb, Result, ok, err, bind,
}
use quality_flow.Base.Text.{strip, lower}

abbrev pub minutes : String
minutes = "minutes"

abbrev pub hours : String
hours = "hours"

abbrev pub days : String
days = "days"

-- `datetime.max`, at the end of the year 9999
abbrev pub datetime_max : ℕ
datetime_max = 315537897599999999

-- A `timedelta` has at most 999999999 days.
abbrev pub timedelta_limit : ℕ
timedelta_limit = 86400000000000000000

-- `timedelta` raises on a duration that is too long.
abbrev pub timedelta : ℕ → Result ℕ
timedelta duration =
    if ltb duration timedelta_limit
    then ok duration
    else err "days must have magnitude <= 999999999"

-- `delta`
unfoldable pub frequency_delta : String → ℕ → Result ℕ
frequency_delta unit value =
    if lower (strip unit) == minutes
    then timedelta (value * 60000000)
    else if lower (strip unit) == hours
    then timedelta (value * 3600000000)
    else if lower (strip unit) == days
    then timedelta (value * 86400000000)
    else err ("Unsupported frequency unit '" <> unit <> "'.")

-- `base_time + delta` raises after the last date.
abbrev pub add_delta : ℕ → ℕ → Result ℕ
add_delta time delta =
    if leb (time + delta) datetime_max then ok (time + delta) else err "date value out of range"

-- `start_at and t < start_at`
abbrev pub is_before : ℕ → Option ℕ → Bool
is_before t none = false
is_before t (some start) = ltb t start

-- `end_at and t > end_at`
abbrev pub is_after : ℕ → Option ℕ → Bool
is_after t none = false
is_after t (some end_at) = ltb end_at t

-- `start_at and end_at and start_at >= end_at`
abbrev pub is_empty_window : Option ℕ → Option ℕ → Bool
is_empty_window none end_at = false
is_empty_window (some start) none = false
is_empty_window (some start) (some end_at) = leb end_at start

-- `candidate`, once it is raised to the start
abbrev pub clamp : ℕ → Option ℕ → ℕ
clamp candidate none = candidate
clamp candidate (some start) = if ltb candidate start then start else candidate

-- The candidate, from the start, the current time and the reference time.
abbrev pub next_candidate : Option ℕ → ℕ → Option ℕ → ℕ → Result ℕ
next_candidate start now (some reference) delta =
    bind (add_delta reference delta) (λ candidate. ok (clamp candidate start))
next_candidate none now none delta = add_delta now delta
next_candidate (some start) now none delta =
    if ltb now start
    then ok start
    else bind (add_delta now delta) (λ candidate. ok (clamp candidate (some start)))

abbrev pub within_window : Option ℕ → ℕ → Option ℕ
within_window end_at candidate = if is_after candidate end_at then none else some candidate

abbrev pub next_in_window : Option ℕ → Option ℕ → ℕ → Option ℕ → Result ℕ → Result (Option ℕ)
next_in_window start end_at now reference period = bind period (λ delta.
    bind (next_candidate start now reference delta)
      (λ candidate. ok (within_window end_at candidate)))

-- `compute_next_run_at`
unfoldable pub compute_next_run_at :
    Bool → String → ℕ → Option ℕ → Option ℕ → ℕ → Option ℕ → Result (Option ℕ)
compute_next_run_at active unit value start end_at now reference =
    if not active
    then ok none
    else if value ==ℕ 0
    then err "frequency_value must be greater than zero."
    else if is_empty_window start end_at
    then err "start_at must be earlier than end_at."
    else next_in_window start end_at now reference (frequency_delta unit value)
