-- ===== src/BusinessHours/Next/First.antt =====
-- What `next_change` of app/services/business_hours.py answers: the first change.
use cheering_shop_backend.Prelude.{
  ℕ, suc, none, ◌≤◌, ◌<◌, ◌/◌, ◌≡◌, ◌≢◌, refl, Bool, true, false, some, List, [], ◌∷◌, ltb, leb,
  find?, keep, All, All-find?, sorted, insert_sorted, arith, Bool-cases, inl, inr,
}
use mathlib.Core.Option.{some-injective}
use cheering_shop_backend.Prelude.Lookups.{find?-hit}
use cheering_shop_backend.BusinessHours.{Hours, day_seconds, is_open_at}
use cheering_shop_backend.BusinessHours.Next.Quiet.{AreTimes, All-mono, quiet_until}
use cheering_shop_backend.BusinessHours.Next.{moments, candidates, differs, next_change}

abbrev IsSorted : List ℕ → Type 0
IsSorted [] = Unit
IsSorted (x ∷ xs) = All (λ y. x ≤ y) xs × IsSorted xs

module _ (P : ℕ → Type 0) where
  All-insert_sorted : (a : ℕ) (xs : List ℕ) → P a → All P xs → All P (insert_sorted leb a xs)
  All-insert_sorted a [] h k = (h, tt)
  All-insert_sorted a (x ∷ xs) h (k, ks) = elim (Bool-cases (leb a x)) [
    | inl le ↦ rw le (h, (k, ks))
    | inr gt ↦ rw gt (k, All-insert_sorted a xs h ks)
  ]

  All-insert_sorted_back : (a : ℕ) (xs : List ℕ) → All P (insert_sorted leb a xs) → P a × All P xs
  All-insert_sorted_back a [] h = h
  All-insert_sorted_back a (x ∷ xs) h = elim (Bool-cases (leb a x)) [
    | inl le ↦ rw le at h
    | inr gt ↦
        let (k, ks) : P x × All P (insert_sorted leb a xs) = rw gt at h in
        let (own, rest) = All-insert_sorted_back a xs ks in (own, (k, rest))
  ]

  All-sorted_back : (xs : List ℕ) → All P (sorted leb xs) → All P xs
  All-sorted_back [] h = tt
  All-sorted_back (x ∷ xs) h =
      let (own, rest) = All-insert_sorted_back x (sorted leb xs) h in (own, All-sorted_back xs rest)

  All-keep_back : (p : ℕ → Bool) (xs : List ℕ) → All P (keep p xs) → All (λ x. p x ≡ true → P x) xs
  All-keep_back p [] h = tt
  All-keep_back p (x ∷ xs) h = elim (Bool-cases (p x)) [
    | inl hit ↦
        let (k, ks) : P x × All P (keep p xs) = rw hit at h in (λ _. k, All-keep_back p xs ks)
    | inr miss ↦ (λ hit. cc, All-keep_back p xs (rw miss at h))
  ]

  kept : (p : ℕ → Bool) (xs : List ℕ) → ((x : ℕ) → p x ≡ true → P x) → All P (keep p xs)
  kept p [] f = tt
  kept p (x ∷ xs) f = elim (Bool-cases (p x)) [
    | inl hit ↦ rw hit (f x hit, kept p xs f)
    | inr miss ↦ rw miss (kept p xs f)
  ]

  All-sorted : (xs : List ℕ) → All P xs → All P (sorted leb xs)
  All-sorted [] h = tt
  All-sorted (x ∷ xs) (h, hs) = All-insert_sorted x (sorted leb xs) h (All-sorted xs hs)

insert_sorted-IsSorted : (a : ℕ) (xs : List ℕ) → IsSorted xs → IsSorted (insert_sorted leb a xs)
insert_sorted-IsSorted a [] h = (tt, tt)
insert_sorted-IsSorted a (x ∷ xs) (least, h) = elim (Bool-cases (leb a x)) [
  | inl le ↦
      let low : a ≤ x = ground arith in
      rw le ((low, All-mono (λ y. x ≤ y) xs (λ y k. omega (arith, low, k)) least), (least, h))
  | inr gt ↦
      let low : x ≤ a = ground arith in
      rw gt (All-insert_sorted (λ y. x ≤ y) a xs low least, insert_sorted-IsSorted a xs h)
]

sorted-IsSorted : (xs : List ℕ) → IsSorted (sorted leb xs)
sorted-IsSorted [] = tt
sorted-IsSorted (x ∷ xs) = insert_sorted-IsSorted x (sorted leb xs) (sorted-IsSorted xs)

-- A search in order passes over what lies before its answer.
passed_over :
    (p : ℕ → Bool) (xs : List ℕ) {m : ℕ}
    → IsSorted xs
    → find? p xs ≡ some m
    → All (λ c. c < m → p c ≡ false) xs
passed_over p [] h e = tt
passed_over p (x ∷ xs) {m} (least, h) e = elim (Bool-cases (p x)) [
  | inl hit ↦
      let same : x ≡ m = some-injective x m (rw hit at e) in
      (
        λ early. absurd (omega (arith, early, same)),
        All-mono (λ y. x ≤ y) xs (λ y later early. absurd (omega (arith, early, later, same)))
            least,
      )
  | inr miss ↦ (λ _. miss, passed_over p xs h (rw miss at e))
]

same_of : (a b : Bool) → differs a b ≡ false → a ≡ b
same_of true true e = refl
same_of true false e = cc
same_of false true e = cc
same_of false false e = refl

differs_sound : (a b : Bool) → differs a b ≡ true → a ≢ b
differs_sound true true e same = cc
differs_sound true false e same = cc
differs_sound false true e same = cc
differs_sound false false e same = cc

-- The answer of `next_change` is the first change. Where every saved time is within its day, and from
-- the second day of 1970 on: an answer lies after the instant, the schedule says the other thing
-- there, and at every second from the instant to the answer it says what it says at the instant.
pub next_change_first :
    (hours : Hours) (at m c : ℕ)
    → AreTimes hours
    → day_seconds ≤ at
    → next_change hours at ≡ some m
    → at ≤ c
    → c < m
    → (at < m)
      × (is_open_at hours m ≢ is_open_at hours at)
      × (is_open_at hours c ≡ is_open_at hours at)
unfolding next_change
next_change_first hours at m c k h e low high =
    let p : ℕ → Bool = λ c. differs (is_open_at hours c) (is_open_at hours at) in
    let within = moments hours (at / day_seconds) in
    let future = keep (λ c. ltb at c) within in
    let after =
      All-sorted (λ c. at < c) future
        (kept (λ c. at < c) (λ c. ltb at c) within (λ c h. ground arith)) in
    let still =
      All-keep_back (λ c. c < m → p c ≡ false) (λ c. ltb at c) within
        (All-sorted_back (λ c. c < m → p c ≡ false) future
          (passed_over p (candidates hours at) (sorted-IsSorted future) e)) in
    let follows =
      All-mono (λ c. ltb at c ≡ true → c < m → p c ≡ false) within
        (λ c h late early.
          same_of (is_open_at hours c) (is_open_at hours at) (h (ground arith) early))
        still in
    (
      All-find? (λ c. at < c) p (candidates hours at) after e,
      differs_sound (is_open_at hours m) (is_open_at hours at)
          (find?-hit p (candidates hours at) e),
      quiet_until hours at m c k h follows low high,
    )

none_differ : (p : ℕ → Bool) (xs : List ℕ) → find? p xs ≡ none → All (λ c. p c ≡ false) xs
none_differ p [] e = tt
none_differ p (x ∷ xs) e = elim (Bool-cases (p x)) [
  | inl hit ↦ let found = rw hit at e in cc
  | inr miss ↦ (miss, none_differ p xs (rw miss at e))
]

-- Without an answer the schedule never changes after the instant.
next_change_never :
    (hours : Hours) (at c : ℕ)
    → AreTimes hours
    → day_seconds ≤ at
    → next_change hours at ≡ none
    → at ≤ c
    → is_open_at hours c ≡ is_open_at hours at
unfolding next_change
next_change_never hours at c k h e low =
    let p : ℕ → Bool = λ c. differs (is_open_at hours c) (is_open_at hours at) in
    let within = moments hours (at / day_seconds) in
    let future = keep (λ c. ltb at c) within in
    let still =
      All-keep_back (λ c. p c ≡ false) (λ c. ltb at c) within
        (All-sorted_back (λ c. p c ≡ false) future (none_differ p (candidates hours at) e)) in
    quiet_until hours at (suc c) c k h
      (All-mono (λ c. ltb at c ≡ true → p c ≡ false) within
        (λ c h late early. same_of (is_open_at hours c) (is_open_at hours at) (h (ground arith)))
        still)
      low (omega arith)
