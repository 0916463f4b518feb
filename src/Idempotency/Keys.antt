-- ===== src/Idempotency/Keys.antt =====
-- The row of one key, under calls that carry another key or none.
use text.Mathlib.Text.{◌==◌ as str_eq}
use text.Mathlib.TextEquality.{eq_iff}
use cheering_shop_backend.Prelude.{
  both_true, ℕ, ◌≡◌, refl, sym, ◌∙◌, ◌⊎◌, Bool, true, false, Option, none, some, String, List, ◌&&◌,
  not, ◌==◌, ltb, find?, arith, Bool-cases, Option-cases, inl, inr,
}
use cheering_shop_backend.Prelude.Text.{is_empty}
use cheering_shop_backend.Prelude.Lookups.{find?-update_first}
use cheering_shop_backend.Result.{Result, ok, err, saved, ◌>>=◌}
use cheering_shop_backend.Idempotency.{
  IdempotencyKey, is_key, claim_key, claimed, replayed, reclaimed, answered, begin, complete,
}

is_key_same :
    {Json : Type 0} (user : ℕ) (key : String) (r : IdempotencyKey Json)
    → is_key user key r ≡ true
    → (r.user_id ≡ user) × (r.key ≡ key)
is_key_same user key r mine =
    let (u, k) = both_true (r.user_id == user) (str_eq r.key key) mine in
    (ground arith, (eq_iff r.key key).0 k)

-- Two primary keys that differ in the user or in the key.
abbrev pub differs : (user : ℕ) (key : String) (user' : ℕ) (key' : String) → Bool
differs user key user' key' = not (user' == user && str_eq key' key)

pub not_differs :
    (user : ℕ) (key : String) (user' : ℕ) (key' : String)
    → differs user key user' key' ≡ false
    → (user' ≡ user) × (key' ≡ key)
not_differs user key user' key' e =
    let (u, k) = both_true (user' == user) (str_eq key' key) (ground arith) in
    (ground arith, (eq_iff key' key).0 k)

key_differs :
    {Json : Type 0} (user : ℕ) (key : String) (user' : ℕ) (key' : String) (r : IdempotencyKey Json)
    → differs user key user' key' ≡ true
    → is_key user' key' r ≡ true
    → is_key user key r ≡ false
key_differs user key user' key' r other mine = elim (Bool-cases (is_key user key r)) [
  | inl both ↦
      let (u, k) = is_key_same user key r both in
      let (u', k') = is_key_same user' key' r mine in
      let same_key : str_eq key' key ≡ true = (eq_iff key' key).1 (sym k' ∙ k) in
      let same_user : (user' == user) ≡ true = ground arith in
      let clash = rw (same_user, same_key) at other in cc
  | inr apart ↦ apart
]

-- A call that does not carry this user's key: no header, or another primary key.
abbrev pub Spares : ℕ → String → ℕ → Option String → Type 0
Spares user key user' none = Unit
Spares user key user' (some key') = (is_empty key' ≡ true) ⊎ (differs user key user' key' ≡ true)

pub own_key :
    (Json : Type 0) (now user : ℕ) (key endpoint hash : String)
    → is_key user key (claimed {Json = Json} now user key endpoint hash) ≡ true
own_key Json now user key endpoint hash =
    let same : (user == user) ≡ true = ground arith in
    let text : str_eq key key ≡ true = (eq_iff key key).1 refl in rw (same, text) refl

module _ {Json : Type 0} (user : ℕ) (key : String) where
  pub complete-Spares :
      (user' : ℕ) (key' : Option String) (status : ℕ) (body : Json)
      (keys : List (IdempotencyKey Json))
      → Spares user key user' key'
      → find? (is_key user key) (complete user' key' status body keys)
        ≡ find? (is_key user key) keys
  unfolding complete
  complete-Spares user' none status body keys apart = refl
  complete-Spares user' (some k) status body keys apart = elim (Bool-cases (is_empty k)) [
    | inl empty ↦ rw empty refl
    | inr real ↦ rw real (elim apart [
      | inl empty ↦ cc
      | inr other ↦
          find?-update_first (is_key user key) (is_key user' k) (answered status body) keys
            (λ r hit. key_differs user key user' k r other hit)
            (λ r hit. key_differs user key user' k (answered status body r) other hit)
    ])
  ]

  -- The row of this user's key, after a part of a call.
  abbrev pub Leaves :
      List (IdempotencyKey Json)
      → Result (List (IdempotencyKey Json)) (List (IdempotencyKey Json) × Option Json)
      → Type 0
  Leaves keys (ok (after, stored)) = find? (is_key user key) after ≡ find? (is_key user key) keys
  Leaves keys (err e) = Unit
  Leaves keys (saved after e) = find? (is_key user key) after ≡ find? (is_key user key) keys

  replayed-Leaves :
      (hash : String) (r : IdempotencyKey Json) (keys : List (IdempotencyKey Json))
      → Leaves keys (replayed hash r >>= λ stored. ok (keys, some stored))
  replayed-Leaves hash r keys = elim (Bool-cases (str_eq r.request_hash hash)) [
    | inr other ↦ rw other tt
    | inl same ↦ elim (Option-cases r.response_body) [
      | inl waits ↦ rw (same, waits) tt
      | inr (b, done) ↦ rw (same, done) refl
    ]
  ]

  claim_key-Leaves :
      (now user' : ℕ) (k endpoint hash : String) (keys : List (IdempotencyKey Json))
      (found : Option (IdempotencyKey Json))
      → differs user key user' k ≡ true
      → Leaves keys (claim_key now user' k endpoint hash keys found)
  claim_key-Leaves now user' k endpoint hash keys none other =
      let new = claimed {Json = Json} now user' k endpoint hash in
      let mine' : is_key user' k new ≡ true = own_key Json now user' k endpoint hash in
      rw (key_differs user key user' k new other mine') refl
  claim_key-Leaves now user' k endpoint hash keys (some r) other =
      elim (Bool-cases (ltb r.expires_at now)) [
        | inl old ↦ rw old (
            find?-update_first (is_key user key) (is_key user' k) (reclaimed now endpoint hash) keys
              (λ r hit. key_differs user key user' k r other hit)
              (λ r hit. key_differs user key user' k (reclaimed now endpoint hash r) other hit))
        | inr live ↦ rw live (replayed-Leaves hash r keys)
      ]

  pub begin-Leaves :
      (now user' : ℕ) (key' : Option String) (endpoint hash : String)
      (keys : List (IdempotencyKey Json))
      → Spares user key user' key'
      → Leaves keys (begin now user' key' endpoint hash keys)
  unfolding begin
  begin-Leaves now user' none endpoint hash keys apart = refl
  begin-Leaves now user' (some k) endpoint hash keys apart = elim (Bool-cases (is_empty k)) [
    | inl empty ↦ rw empty refl
    | inr real ↦ rw real (elim apart [
      | inl empty ↦ cc
      | inr other ↦ claim_key-Leaves now user' k endpoint hash keys _ other
    ])
  ]
