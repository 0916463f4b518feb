-- ===== src/BusinessHours.antt =====
-- app/services/business_hours.py. An instant is its local wall-clock time (`astimezone(LOCAL_TZ)`)
-- in seconds from 1970-01-01, which was a Thursday; the times of a day are in seconds too, `none`
-- where the text is no time.
pub mod Next
pub mod Open
pub mod Sync
use cheering_shop_backend.Prelude.{
  ℕ, zero, suc, ◌+◌, ◌*◌, ◌/◌, ◌%◌, Bool, true, false, Option, none, some, List, [], ◌∷◌, ◌++◌,
  ◌&&◌, not, ltb, leb, if◌then◌else◌, any_of,
}
use cheering_shop_backend.Enums.{RestaurantStatus}

abbrev pub day_seconds : ℕ
day_seconds = 86_400

-- One entry of `business_hours`; a day without one is not open.
pub record DayHours : Type 0 where
  pub is_open : Bool
  pub opens_at : Option ℕ
  pub closes_at : Option ℕ

-- By `date.weekday()`: Monday is 0.
abbrev pub Hours : Type 0
Hours = ℕ → DayHours

abbrev pub weekday : ℕ → ℕ
weekday day = (day + 3) % 7

abbrev pub span : ℕ → ℕ → ℕ → List (ℕ × ℕ)
span day opens closes =
    let start = day * day_seconds + opens in
    let end = day * day_seconds + closes in
    if leb end start then (start, end + day_seconds) ∷ [] else (start, end) ∷ []

abbrev pub span_between : ℕ → Option ℕ → Option ℕ → List (ℕ × ℕ)
span_between day (some opens) (some closes) = span day opens closes
span_between day none closes = []
span_between day (some opens) none = []

abbrev pub spans_of : DayHours → ℕ → List (ℕ × ℕ)
spans_of entry day = if entry.is_open then span_between day entry.opens_at entry.closes_at else []

abbrev pub spans_starting : Hours → ℕ → List (ℕ × ℕ)
spans_starting hours day = spans_of (hours (weekday day)) day

abbrev pub holds : ℕ → ℕ × ℕ → Bool
holds at (start, end) = leb start at && ltb at end

-- Yesterday's period first, then today's; day 0 has no yesterday.
abbrev pub open_on : Hours → ℕ → ℕ → Bool
open_on hours zero at = any_of (holds at) (spans_starting hours 0)
open_on hours (suc day) at =
    any_of (holds at) (spans_starting hours day ++ spans_starting hours (suc day))

unfoldable pub is_open_at : Hours → ℕ → Bool
is_open_at hours at = open_on hours (at / day_seconds) at
