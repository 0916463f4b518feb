-- ===== src/Prelude/Lookups.antt =====
-- Looking a row up in a table after another row of it was written or deleted.
use mathlib.Core.Path.{◌≡◌, refl, sym, subst}
use mathlib.Core.Logic.{inl, inr}
use mathlib.Core.Bool.{Bool, true, false}
use mathlib.Core.Option.{Option, some, some-injective}
use mathlib.Core.List.{List, [], ◌∷◌}
use cheering_shop_backend.Prelude.Tests.{Bool-cases, if◌then◌else◌}
use cheering_shop_backend.Prelude.Lists.{find?, keep, any_of, update_first, update_where}

module _ {A : Type 0} where
  -- What a query returns meets its condition.
  pub find?-hit : (p : A → Bool) (xs : List A) {x : A} → find? p xs ≡ some x → p x ≡ true
  find?-hit p [] e = cc
  find?-hit p (y ∷ ys) {x} e = elim (Bool-cases (p y)) [
    | inl hit ↦ subst (λ z. p z ≡ true) (some-injective y x (rw hit at e)) hit
    | inr miss ↦ find?-hit p ys (rw miss at e)
  ]

  pub find?-head :
      (p : A → Bool) (x : A) (xs : List A) {y : A} → p x ≡ true → find? p (x ∷ xs) ≡ some y → x ≡ y
  find?-head p x xs {y} hit e = some-injective x y (rw hit at e)

  pub find?-tail :
      (p : A → Bool) (x : A) (xs : List A) {y : A}
      → p x ≡ false
      → find? p (x ∷ xs) ≡ some y
      → find? p xs ≡ some y
  find?-tail p x xs miss e = rw miss at e

  pub find?-skip :
      (p : A → Bool) (x : A) (xs : List A) {o : Option A}
      → p x ≡ false
      → find? p xs ≡ o
      → find? p (x ∷ xs) ≡ o
  find?-skip p x xs miss e = rw miss e

  -- A condition that the found row meets is met by some row.
  pub any_of-found :
      (p q : A → Bool) (rows : List A) {row : A}
      → find? q rows ≡ some row
      → p row ≡ true
      → any_of p rows ≡ true
  any_of-found p q [] e h = cc
  any_of-found p q (r ∷ rows) {row} e h = elim (Bool-cases (q r)) [
    | inl hit ↦
        let here : p r ≡ true = subst (λ x. p x ≡ true) (sym (find?-head q r rows hit e)) h in
        rw here refl
    | inr miss ↦ elim (Bool-cases (p r)) [
      | inl here ↦ rw here refl
      | inr there ↦ rw there (any_of-found p q rows (find?-tail q r rows miss e) h)
    ]
  ]

  -- The row that was written is found, with what was written.
  pub find?-written :
      (p : A → Bool) (f : A → A) (xs : List A) {x : A}
      → find? p xs ≡ some x
      → p (f x) ≡ true
      → find? p (update_first p f xs) ≡ some (f x)
  find?-written p f [] e k = cc
  find?-written p f (y ∷ ys) {x} e k = elim (Bool-cases (p y)) [
    | inl hit ↦
        let same : y ≡ x = some-injective y x (rw hit at e) in
        let kept : p (f y) ≡ true = subst (λ z. p (f z) ≡ true) (sym same) k in
        rw (hit, kept, same) refl
    | inr miss ↦ rw (miss, miss) (find?-written p f ys (rw miss at e) k)
  ]

  -- A write to a row that a query does not select, neither before nor after, leaves its answer.
  pub find?-update_first :
      (q p : A → Bool) (f : A → A) (xs : List A)
      → ((x : A) → p x ≡ true → q x ≡ false)
      → ((x : A) → p x ≡ true → q (f x) ≡ false)
      → find? q (update_first p f xs) ≡ find? q xs
  find?-update_first q p f [] before after = refl
  find?-update_first q p f (x ∷ xs) before after = elim (Bool-cases (p x)) [
    | inl hit ↦ rw (hit, before x hit, after x hit) refl
    | inr miss ↦ rw (miss, find?-update_first q p f xs before after) refl
  ]

  -- A DELETE that spares the row which a query finds leaves its answer.
  pub find?-keep :
      (q p : A → Bool) (xs : List A) {x : A}
      → find? q xs ≡ some x
      → p x ≡ true
      → find? q (keep p xs) ≡ some x
  find?-keep q p [] e k = cc
  find?-keep q p (y ∷ ys) {x} e k = elim (Bool-cases (q y)) [
    | inl hit ↦
        let same : y ≡ x = some-injective y x (rw hit at e) in
        let kept : p y ≡ true = subst (λ z. p z ≡ true) (sym same) k in rw (kept, hit, same) refl
    | inr miss ↦ elim (Bool-cases (p y)) [
      | inl stays ↦ rw (stays, miss) (find?-keep q p ys (rw miss at e) k)
      | inr goes ↦ rw goes (find?-keep q p ys (rw miss at e) k)
    ]
  ]

  -- A write to rows that a filter drops, before and after, leaves what it keeps.
  pub keep-update_where :
      (q p : A → Bool) (f : A → A) (xs : List A)
      → ((x : A) → p x ≡ true → q x ≡ false)
      → ((x : A) → p x ≡ true → q (f x) ≡ false)
      → keep q (update_where p f xs) ≡ keep q xs
  keep-update_where q p f [] before after = refl
  keep-update_where q p f (x ∷ xs) before after = elim (Bool-cases (p x)) [
    | inl hit ↦ rw (hit, before x hit, after x hit) (keep-update_where q p f xs before after)
    | inr miss ↦ rw (miss, keep-update_where q p f xs before after) refl
  ]

  -- A search by what an update keeps finds the row, updated where the update applies.
  pub find?-update_where :
      (q p : A → Bool) (f : A → A) (xs : List A) {x : A}
      → ((y : A) → q (f y) ≡ q y)
      → find? q xs ≡ some x
      → find? q (update_where p f xs) ≡ some (if p x then f x else x)
  find?-update_where q p f [] same e = cc
  find?-update_where q p f (y ∷ ys) {x} same e = elim (Bool-cases (q y)) [
    | inl hit ↦
        let found : y ≡ x = some-injective y x (rw hit at e) in
        subst (λ z. find? q (update_where p f (y ∷ ys)) ≡ some (if p z then f z else z)) found
          (elim (Bool-cases (p y)) [
            | inl edited ↦ rw (edited, same y, hit) refl
            | inr left ↦ rw (left, hit) refl
          ])
    | inr miss ↦
        let rest = find?-update_where q p f ys same (rw miss at e) in
        elim (Bool-cases (p y)) [
          | inl edited ↦ rw (edited, same y, miss) rest
          | inr left ↦ rw (left, miss) rest
        ]
  ]
