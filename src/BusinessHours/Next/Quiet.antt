-- ===== src/BusinessHours/Next/Quiet.antt =====
-- Between two starts or ends of a period the schedule of app/services/business_hours.py says the
-- same, and it repeats from week to week.
use mathlib.Core.Bool.{◌||◌}
use cheering_shop_backend.Prelude.{
  ℕ, zero, suc, ◌+◌, ◌*◌, ◌/◌, ◌-◌, ◌%◌, ◌<◌, ◌≤◌, ◌≡◌, ◌≢◌, ◌⊎◌, refl, sym, ap, ◌∙◌, Bool, true,
  false, Option, none, some, List, [], ◌∷◌, ◌++◌, ◌==◌, any_of, All, arith, Bool-cases, inl, inr,
}
use cheering_shop_backend.BusinessHours.{
  Hours, day_seconds, weekday, spans_starting, open_on, is_open_at, holds, span_between,
}
use cheering_shop_backend.BusinessHours.Next.{ends, ends_from, moments}
use cheering_shop_backend.BusinessHours.Open.{IsTime, any_of-append, is_open_at_iff}

abbrev pub AreTimes : Hours → Type 0
AreTimes hours = (d : ℕ) → IsTime (hours d).opens_at × IsTime (hours d).closes_at

-- The periods that began yesterday.
abbrev pub spans_before : Hours → ℕ → List (ℕ × ℕ)
spans_before hours zero = []
spans_before hours (suc day) = spans_starting hours day

abbrev says : Hours → ℕ → ℕ → Bool
says hours day at =
    any_of (holds at) (spans_before hours day) || any_of (holds at) (spans_starting hours day)

open_on_lem : (hours : Hours) (day at : ℕ) → open_on hours day at ≡ says hours day at
open_on_lem hours zero at = refl
open_on_lem hours (suc day) at =
    any_of-append (holds at) (spans_starting hours day) (spans_starting hours (suc day))

-- No start or end at the next second: the same periods hold.
same_holds :
    (c : ℕ) (spans : List (ℕ × ℕ))
    → All (λ e. e ≢ suc c) (ends spans)
    → any_of (holds (suc c)) spans ≡ any_of (holds c) spans
same_holds c [] h = refl
same_holds c ((start, end) ∷ spans) (s, (e, h)) = ground (arith, same_holds c spans h)

early_between :
    (day at : ℕ) (o c : Option ℕ)
    → at < day * day_seconds
    → any_of (holds at) (span_between day o c) ≡ false
early_between day at none c h = refl
early_between day at (some o) none h = refl
early_between day at (some o) (some c) h = ground arith

early :
    (hours : Hours) (day at : ℕ)
    → at < day * day_seconds
    → any_of (holds at) (spans_starting hours day) ≡ false
early hours day at h =
    let d = hours (weekday day) in
    elim (Bool-cases d.is_open) [
      | inl y ↦ rw y (early_between day at d.opens_at d.closes_at h)
      | inr n ↦ rw n refl
    ]

late_between :
    (day at : ℕ) (o c : Option ℕ)
    → (day + 2) * day_seconds ≤ suc at
    → IsTime o
    → IsTime c
    → any_of (holds at) (span_between day o c) ≡ false
late_between day at none c h k l = refl
late_between day at (some o) none h k l = refl
late_between day at (some o) (some c) h k l = ground arith

late :
    (hours : Hours) (day at : ℕ)
    → AreTimes hours
    → suc at ≡ suc day * day_seconds
    → any_of (holds at) (spans_before hours day) ≡ false
late hours zero at k h = refl
late hours (suc day) at k h =
    let d = hours (weekday day) in
    elim (Bool-cases d.is_open) [
      | inl y ↦ rw y (
          late_between day at d.opens_at d.closes_at (omega (arith, h)) (k (weekday day)).0
            (k (weekday day)).1)
      | inr n ↦ rw n refl
    ]

or_false : (b : Bool) → (b || false) ≡ b
or_false true = refl
or_false false = refl

-- At midnight the period before yesterday's has ended, and the new day's has not begun.
turned :
    (hours : Hours) (day c : ℕ)
    → AreTimes hours
    → suc c ≡ suc day * day_seconds
    → says hours (suc day) c ≡ says hours day c
turned hours day c k h =
    let new = early hours (suc day) c (omega (arith, h)) in
    let old = late hours day c k h in
    rw (new, old) (or_false (any_of (holds c) (spans_starting hours day)))

same_second :
    (hours : Hours) (c : ℕ)
    → AreTimes hours
    → let day = suc c / day_seconds in
      All (λ e. e ≢ suc c) (ends (spans_before hours day))
      → All (λ e. e ≢ suc c) (ends (spans_starting hours day))
      → is_open_at hours (suc c) ≡ is_open_at hours c
unfolding is_open_at
same_second hours c k p q =
    let day = suc c / day_seconds in
    let a = same_holds c (spans_before hours day) p in
    let b = same_holds c (spans_starting hours day) q in
    let same : says hours day (suc c) ≡ says hours day c = rw (a, b) refl in
    elim (Bool-cases (c / day_seconds == day)) [
      | inl stays ↦
          let eq : day ≡ c / day_seconds = ground arith in
          open_on_lem hours day (suc c)
          ∙ same
          ∙ ap (λ d. says hours d c) eq
          ∙ sym (open_on_lem hours (c / day_seconds) c)
      | inr turns ↦
          let next : day ≡ suc (c / day_seconds) = ground arith in
          let midnight : suc c ≡ suc (c / day_seconds) * day_seconds = ground arith in
          open_on_lem hours day (suc c)
          ∙ same
          ∙ ap (λ d. says hours d c) next
          ∙ turned hours (c / day_seconds) c k midnight
          ∙ sym (open_on_lem hours (c / day_seconds) c)
    ]

-- The moments that `next_change` looks at are those of yesterday and of the next seven days.
module _ (P : ℕ → Type 0) (hours : Hours) where
  All-append_split : (xs ys : List ℕ) → All P (xs ++ ys) → All P xs × All P ys
  All-append_split [] ys h = (tt, h)
  All-append_split (x ∷ xs) ys (h, hs) =
      let (left, right) = All-append_split xs ys hs in ((h, left), right)

  All-ends_from :
      (days day k : ℕ)
      → All P (ends_from hours days day)
      → day ≤ k
      → k < day + days
      → All P (ends (spans_starting hours k))
  All-ends_from zero day k h low high = absurd (omega (arith, low, high))
  All-ends_from (suc days) day k h low high =
      let (now, later) =
        All-append_split (ends (spans_starting hours day)) (ends_from hours days (suc day)) h in
      elim (Bool-cases (day == k)) [
        | inl hit ↦ let same : day ≡ k = ground arith in rw same at now
        | inr miss ↦ All-ends_from days (suc day) k later (ground arith) (omega (arith, high))
      ]

  All-moments :
      (day k : ℕ)
      → All P (moments hours day)
      → day ≤ suc k
      → k ≤ day + 7
      → All P (ends (spans_starting hours k))
  All-moments zero k h low high = All-ends_from 8 0 k h (omega arith) (omega (arith, high))
  All-moments (suc day) k h low high =
      All-ends_from 9 day k h (omega (arith, low)) (omega (arith, high))

  All-moments_before :
      (day k : ℕ)
      → All P (moments hours day)
      → day ≤ k
      → k ≤ day + 7
      → All P (ends (spans_before hours k))
  All-moments_before day zero h low high = tt
  All-moments_before day (suc k) h low high = All-moments day k h low (omega (arith, high))

module _ (P : ℕ → Type 0) where
  pub All-mono : {Q : ℕ → Type 0} (xs : List ℕ) → ((x : ℕ) → P x → Q x) → All P xs → All Q xs
  All-mono [] f h = tt
  All-mono (x ∷ xs) f (h, hs) = (f x h, All-mono xs f hs)

-- Either no element is `x`, or what holds at an element that is.
apart_or : {Q : Type 0} (x : ℕ) (es : List ℕ) → All (λ e. e ≡ x → Q) es → All (λ e. e ≢ x) es ⊎ Q
apart_or x [] h = inl tt
apart_or x (e ∷ es) (h, hs) = elim (Bool-cases (e == x)) [
  | inl hit ↦ inr (h (ground arith))
  | inr miss ↦ elim (apart_or x es hs) [
    | inl rest ↦ inl ((λ same. ground arith), rest)
    | inr q ↦ inr q
  ]
]

abbrev last_second : ℕ → ℕ
last_second at = (at / day_seconds + 8) * day_seconds

abbrev pub Follows : Hours → (at m : ℕ) → ℕ → Type 0
Follows hours at m e = at < e → e < m → is_open_at hours e ≡ is_open_at hours at

quiet_second :
    (hours : Hours) (at m c : ℕ)
    → AreTimes hours
    → All (Follows hours at m) (moments hours (at / day_seconds))
    → at ≤ c
    → suc c < m
    → suc c < last_second at
    → is_open_at hours c ≡ is_open_at hours at
    → is_open_at hours (suc c) ≡ is_open_at hours at
quiet_second hours at m c k h low high far was =
    let day = suc c / day_seconds in
    let first = at / day_seconds in
    let after : first ≤ day = omega (arith, low) in
    let within : day ≤ first + 7 = omega (arith, far) in
    let Q = is_open_at hours (suc c) ≡ is_open_at hours at in
    let at_moment : (e : ℕ) → Follows hours at m e → e ≡ suc c → Q =
      λ e f same. let f' = rw same at f in f' (omega (arith, low)) high in
    let old = All-moments_before (Follows hours at m) hours first day h after within in
    let new = All-moments (Follows hours at m) hours first day h (omega (arith, after)) within in
    elim (apart_or (suc c) (ends (spans_before hours day))
      (All-mono (Follows hours at m) (ends (spans_before hours day)) at_moment old)) [
        | inr changed ↦ changed
        | inl p ↦
            elim (apart_or (suc c) (ends (spans_starting hours day))
              (All-mono (Follows hours at m) (ends (spans_starting hours day)) at_moment new)) [
                | inr changed ↦ changed
                | inl q ↦ same_second hours c k p q ∙ was
              ]
      ]

-- So it is as far as the moments go.
quiet :
    (hours : Hours) (at m c : ℕ)
    → AreTimes hours
    → All (Follows hours at m) (moments hours (at / day_seconds))
    → at ≤ c
    → c < m
    → c < last_second at
    → is_open_at hours c ≡ is_open_at hours at
quiet hours at m zero k h low high far =
    let same : at ≡ 0 = omega (arith, low) in ap (is_open_at hours) (sym same)
quiet hours at m (suc c) k h low high far = elim (Bool-cases (at == suc c)) [
  | inl hit ↦ let same : at ≡ suc c = ground arith in ap (is_open_at hours) (sym same)
  | inr miss ↦
      let below : at ≤ c = ground arith in
      quiet_second hours at m c k h below high far
        (quiet hours at m c k h below (omega (arith, high)) (omega (arith, far)))
]

-- From the second day of 1970 on, the schedule says the same a week later.
next_week :
    (hours : Hours) (at : ℕ)
    → AreTimes hours
    → day_seconds ≤ at
    → is_open_at hours (at + 7 * day_seconds) ≡ is_open_at hours at
next_week hours at k h =
    let d = at / day_seconds - 1 in
    let t = at % day_seconds in
    let here : at ≡ suc d * day_seconds + t = omega (arith, h) in
    let there : at + 7 * day_seconds ≡ suc (d + 7) * day_seconds + t = omega (arith, h) in
    let eve : weekday (d + 7) ≡ weekday d = omega arith in
    let own : weekday (suc (d + 7)) ≡ weekday (suc d) = omega arith in
    ap (is_open_at hours) there
    ∙ is_open_at_iff hours (d + 7) t (omega arith) k
    ∙ rw (eve, own) refl
    ∙ sym (is_open_at_iff hours d t (omega arith) k)
    ∙ ap (is_open_at hours) (sym here)

weeks_on :
    (hours : Hours) (at n : ℕ)
    → AreTimes hours
    → day_seconds ≤ at
    → is_open_at hours (n * (7 * day_seconds) + at) ≡ is_open_at hours at
weeks_on hours at zero k h = ap (is_open_at hours) (omega arith)
weeks_on hours at (suc n) k h =
    let more : suc n * (7 * day_seconds) + at ≡ n * (7 * day_seconds) + at + 7 * day_seconds =
      omega arith in
    ap (is_open_at hours) more
    ∙ next_week hours (n * (7 * day_seconds) + at) k (omega (arith, h))
    ∙ weeks_on hours at n k h

-- If the schedule says at every moment before `m` what it says at `at`, it says so at every second
-- before `m`: a later week is like the first.
pub quiet_until :
    (hours : Hours) (at m c : ℕ)
    → AreTimes hours
    → day_seconds ≤ at
    → All (Follows hours at m) (moments hours (at / day_seconds))
    → at ≤ c
    → c < m
    → is_open_at hours c ≡ is_open_at hours at
quiet_until hours at m c k h follows low high =
    let first = at + (c - at) % (7 * day_seconds) in
    let later : c ≡ (c - at) / (7 * day_seconds) * (7 * day_seconds) + first = omega (arith, low) in
    ap (is_open_at hours) later
    ∙ weeks_on hours first ((c - at) / (7 * day_seconds)) k (omega (arith, h))
    ∙ quiet hours at m first k follows (omega arith) (omega (arith, low, high)) (omega arith)
