-- ===== src/Prelude/Lists.antt =====
-- Lists over the native numbers: lengths, sums, searches and updates.
use Prim.Native.Nat.{ℕ, suc, ◌+◌, ◌≤◌}
use mathlib.Core.Path.{◌≡◌, subst}
use mathlib.Core.Logic.{inl, inr}
use mathlib.Core.Bool.{Bool, true, false}
use mathlib.Core.Option.{Option, none, some, some-injective}
use mathlib.Core.List.{List, [], ◌∷◌, ◌++◌}
use native.Mathlib.Omega.{arith}
use cheering_shop_backend.Prelude.Tests.{if◌then◌else◌, Bool-cases}

module _ {ℓ} {A : Type ℓ} where
  abbrev pub length : List A → ℕ
  length [] = 0
  length (x ∷ xs) = suc (length xs)

  -- `sum(f(x) for x in xs)`
  abbrev pub sum_of : (A → ℕ) → List A → ℕ
  sum_of f [] = 0
  sum_of f (x ∷ xs) = f x + sum_of f xs

  -- `next((x for x in xs if p(x)), None)`
  abbrev pub find? : (A → Bool) → List A → Option A
  find? p [] = none
  find? p (x ∷ xs) = if p x then some x else find? p xs

  -- `[x for x in xs if p(x)]`
  abbrev pub keep : (A → Bool) → List A → List A
  keep p [] = []
  keep p (x ∷ xs) = let rest = keep p xs in if p x then x ∷ rest else rest

  -- `sum(1 for x in xs if p(x))`, which is `SELECT count(*) ... WHERE p`
  abbrev pub count_of : (A → Bool) → List A → ℕ
  count_of p [] = 0
  count_of p (x ∷ xs) = (if p x then 1 else 0) + count_of p xs

  -- A write to every row that `p` selects, as an UPDATE does.
  abbrev pub update_where : (A → Bool) → (A → A) → List A → List A
  update_where p f [] = []
  update_where p f (x ∷ xs) = (if p x then f x else x) ∷ update_where p f xs

  -- A write to the one row that a lookup by primary key loads.
  abbrev pub update_first : (A → Bool) → (A → A) → List A → List A
  update_first p f [] = []
  update_first p f (x ∷ xs) = let rest = update_first p f xs in if p x then f x ∷ xs else x ∷ rest

  abbrev pub any_of : (A → Bool) → List A → Bool
  any_of p [] = false
  any_of p (x ∷ xs) = if p x then true else any_of p xs

  abbrev pub All {κ} : (A → Type κ) → List A → Type κ
  All P [] = Unit
  All P (x ∷ xs) = P x × All P xs

  pub All-append {κ} : (P : A → Type κ) (xs ys : List A) → All P xs → All P ys → All P (xs ++ ys)
  All-append P [] ys _ q = q
  All-append P (x ∷ xs) ys (p, ps) q = (p, All-append P xs ys ps q)

  pub sum_of-append : (f : A → ℕ) (xs ys : List A) → sum_of f (xs ++ ys) ≡ sum_of f xs + sum_of f ys
  sum_of-append f [] ys = omega arith
  sum_of-append f (x ∷ xs) ys = omega (arith, sum_of-append f xs ys)

  pub sum_of_mono : (f g : A → ℕ) (xs : List A) → ((x : A) → f x ≤ g x) → sum_of f xs ≤ sum_of g xs
  sum_of_mono f g [] h = omega arith
  sum_of_mono f g (x ∷ xs) h = omega (arith, h x, sum_of_mono f g xs h)

  pub All-find? {κ} :
      (P : A → Type κ) (p : A → Bool) (xs : List A) {x : A} → All P xs → find? p xs ≡ some x → P x
  All-find? P p [] h e = cc
  All-find? P p (y ∷ ys) h e = elim (Bool-cases (p y)) [
    | inl hit ↦ subst P (some-injective _ _ (rw hit at e)) h.0
    | inr miss ↦ All-find? P p ys h.1 (rw miss at e)
  ]

  -- An UPDATE keeps what each updated row keeps.
  pub All-update_where {κ} :
      (P : A → Type κ) (p : A → Bool) (f : A → A) (xs : List A)
      → ((x : A) → p x ≡ true → P x → P (f x))
      → All P xs
      → All P (update_where p f xs)
  All-update_where P p f [] k h = tt
  All-update_where P p f (x ∷ xs) k h = elim (Bool-cases (p x)) [
    | inl hit ↦ (rw hit (k x hit h.0), All-update_where P p f xs k h.1)
    | inr miss ↦ (rw miss h.0, All-update_where P p f xs k h.1)
  ]

  -- Writing one row changes a sum by that row's share.
  pub sum_of-update_first :
      (f : A → ℕ) (p : A → Bool) (g : A → A) (xs : List A) {x : A}
      → find? p xs ≡ some x
      → sum_of f (update_first p g xs) + f x ≡ sum_of f xs + f (g x)
  sum_of-update_first f p g [] e = cc
  sum_of-update_first f p g (y ∷ ys) {x} e = elim (Bool-cases (p y)) [
    | inl hit ↦
        let same : y ≡ x = some-injective _ _ (rw hit at e) in
        rw hit (
          subst (λ z. f (g y) + sum_of f ys + f z ≡ f y + sum_of f ys + f (g z)) same (omega arith))
    | inr miss ↦ rw miss (omega (arith, sum_of-update_first f p g ys (rw miss at e)))
  ]

module _ {A : Type 0} (P : A → Type 0) (p : A → Bool) where
  -- A DELETE keeps what holds of every row.
  pub All-keep : (xs : List A) → All P xs → All P (keep p xs)
  All-keep [] h = tt
  All-keep (x ∷ xs) (h, hs) = elim (Bool-cases (p x)) [
    | inl hit ↦ rw hit (h, All-keep xs hs)
    | inr miss ↦ rw miss (All-keep xs hs)
  ]

  pub All-update_first :
      (f : A → A) (xs : List A) → ((x : A) → P (f x)) → All P xs → All P (update_first p f xs)
  All-update_first f [] k h = tt
  All-update_first f (x ∷ xs) k (h, hs) = elim (Bool-cases (p x)) [
    | inl hit ↦ rw hit (k x, hs)
    | inr miss ↦ rw miss (h, All-update_first f xs k hs)
  ]

-- `sorted`: insertion before the first element that is not smaller keeps equal ones in order.
module _ {A : Type 0} (le : A → A → Bool) where
  abbrev pub insert_sorted : A → List A → List A
  insert_sorted a [] = a ∷ []
  insert_sorted a (x ∷ xs) = if le a x then a ∷ x ∷ xs else x ∷ insert_sorted a xs

  abbrev pub sorted : List A → List A
  sorted [] = []
  sorted (x ∷ xs) = insert_sorted x (sorted xs)
