-- ===== src/BusinessHours/Open.antt =====
-- When `is_open_at` of app/services/business_hours.py says open, by the time of the day.
use mathlib.Core.Bool.{◌||◌}
use cheering_shop_backend.Prelude.{
  ℕ, suc, ◌+◌, ◌*◌, ◌<◌, ◌≡◌, Bool, false, Option, none, some, ◌&&◌, ltb, leb, arith, any_of, ◌/◌,
  [], ◌∷◌, ◌++◌, List, refl, ap, ◌∙◌, inl, inr, Bool-cases,
}
use cheering_shop_backend.BusinessHours.{
  DayHours, Hours, day_seconds, weekday, spans_of, open_on, is_open_at, holds, span_between,
}

-- `opens ≤ t`, up to `closes` or to midnight where the period runs past it.
abbrev pub within : Option ℕ → Option ℕ → ℕ → Bool
within (some opens) (some closes) t = leb opens t && (leb closes opens || ltb t closes)
within none closes t = false
within (some opens) none t = false

abbrev pub spilt : Option ℕ → Option ℕ → ℕ → Bool
spilt (some opens) (some closes) t = leb closes opens && ltb t closes
spilt none closes t = false
spilt (some opens) none t = false

-- The period that began today, and the one of yesterday that runs past midnight.
abbrev pub open_today : DayHours → ℕ → Bool
open_today d t = d.is_open && within d.opens_at d.closes_at t

abbrev pub open_since_yesterday : DayHours → ℕ → Bool
open_since_yesterday d t = d.is_open && spilt d.opens_at d.closes_at t

abbrev pub IsTime : Option ℕ → Type 0
IsTime none = Unit
IsTime (some t) = t < day_seconds

pub any_of-append :
    {A : Type 0} (p : A → Bool) (xs ys : List A)
    → any_of p (xs ++ ys) ≡ (any_of p xs || any_of p ys)
any_of-append p [] ys = refl
any_of-append p (x ∷ xs) ys = ground (arith, any_of-append p xs ys)

within_lem :
    (day t : ℕ) (o c : Option ℕ)
    → t < day_seconds
    → IsTime o
    → IsTime c
    → any_of (holds (day * day_seconds + t)) (span_between day o c) ≡ within o c t
within_lem day t none c h k l = refl
within_lem day t (some o) none h k l = refl
within_lem day t (some o) (some c) h k l = ground arith

spilt_lem :
    (day t : ℕ) (o c : Option ℕ)
    → t < day_seconds
    → IsTime o
    → IsTime c
    → any_of (holds (suc day * day_seconds + t)) (span_between day o c) ≡ spilt o c t
spilt_lem day t none c h k l = refl
spilt_lem day t (some o) none h k l = refl
spilt_lem day t (some o) (some c) h k l = ground arith

of_today :
    (day t : ℕ) (d : DayHours)
    → t < day_seconds
    → IsTime d.opens_at
    → IsTime d.closes_at
    → any_of (holds (day * day_seconds + t)) (spans_of d day) ≡ open_today d t
of_today day t d h k l = elim (Bool-cases d.is_open) [
  | inl y ↦ rw y (within_lem day t d.opens_at d.closes_at h k l)
  | inr n ↦ rw n refl
]

of_yesterday :
    (day t : ℕ) (d : DayHours)
    → t < day_seconds
    → IsTime d.opens_at
    → IsTime d.closes_at
    → any_of (holds (suc day * day_seconds + t)) (spans_of d day) ≡ open_since_yesterday d t
of_yesterday day t d h k l = elim (Bool-cases d.is_open) [
  | inl y ↦ rw y (spilt_lem day t d.opens_at d.closes_at h k l)
  | inr n ↦ rw n refl
]

-- Where every saved time is within its day, a store is open at the time `t` of a day exactly when
-- that day's period has begun and, unless it runs past midnight, has not ended, or when the
-- period of the day before runs past midnight and ends after `t`.
pub is_open_at_iff :
    (hours : Hours) (day t : ℕ)
    → t < day_seconds
    → ((d : ℕ) → IsTime (hours d).opens_at × IsTime (hours d).closes_at)
    → is_open_at hours (suc day * day_seconds + t)
      ≡ (open_since_yesterday (hours (weekday day)) t || open_today (hours (weekday (suc day))) t)
unfolding is_open_at
is_open_at_iff hours day t h k =
    let of_day : (suc day * day_seconds + t) / day_seconds ≡ suc day = omega arith in
    let a = of_yesterday day t (hours (weekday day)) h (k (weekday day)).0 (k (weekday day)).1 in
    let b =
      of_today (suc day) t (hours (weekday (suc day))) h (k (weekday (suc day))).0
        (k (weekday (suc day))).1 in
    ap (λ d. open_on hours d (suc day * day_seconds + t)) of_day
    ∙ any_of-append (holds (suc day * day_seconds + t)) (spans_of (hours (weekday day)) day)
        (spans_of (hours (weekday (suc day))) (suc day))
    ∙ cc
