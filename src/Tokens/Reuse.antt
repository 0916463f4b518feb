-- ===== src/Tokens/Reuse.antt =====
-- A spent refresh token stays spent.
use mathlib.Core.Path.{subst}
use mathlib.Core.Option.{some-injective}
use text.Mathlib.Text.{◌==◌ as str_eq}
use cheering_shop_backend.Prelude.{
  ℕ, ◌≤◌, ◌≡◌, refl, sym, ◌∙◌, Bool, true, false, Option, none, some, String, List, [], ◌∷◌, ◌&&◌,
  not, ◌==◌, leb, find?, update_where, count_of, arith, Bool-cases, Option-cases, inl, inr, All,
  All-update_where, All-keep,
}
use cheering_shop_backend.Result.{rows_after}
use cheering_shop_backend.Store.{User}
use cheering_shop_backend.Tokens.{
  RefreshToken, Signing, Minted, has_hash, is_live, live_of, revoked, replaced, is_old, new_row,
  issue_token_pair, revoke_all_for_user, is_active_user, redeem, rotate, revoke_one, ended,
  prune_expired_refresh_tokens,
}

-- No live row has this hash.
abbrev pub IsSpent : String → RefreshToken → Type 0
IsSpent hash r = has_hash hash r ≡ true → is_live r ≡ false

All-vacuous :
    (hash : String) (p : RefreshToken → Bool) (f : RefreshToken → RefreshToken)
    (rows : List RefreshToken)
    → ((r : RefreshToken) → has_hash hash (f r) ≡ has_hash hash r)
    → count_of (has_hash hash) rows ≡ 0
    → All (IsSpent hash) (update_where p f rows)
All-vacuous hash p f [] kept e = tt
All-vacuous hash p f (r ∷ rows) kept e = elim (Bool-cases (has_hash hash r)) [
  | inl hit ↦ let no_row = rw hit at e in ground arith
  | inr miss ↦ (
    elim (Bool-cases (p r)) [
      | inl hit ↦ rw hit (λ is. let clash = sym (kept r) ∙ is in cc)
      | inr skip ↦ rw skip (λ is. cc)
    ],
    All-vacuous hash p f rows kept (let rest = rw miss at e in omega (arith, rest)),
  )
]

-- The row with a unique hash is spent by a write that selects it.
pub spent :
    (hash : String) (p : RefreshToken → Bool) (f : RefreshToken → RefreshToken)
    (rows : List RefreshToken) {row : RefreshToken}
    → ((r : RefreshToken) → has_hash hash (f r) ≡ has_hash hash r)
    → ((r : RefreshToken) → is_live (f r) ≡ false)
    → count_of (has_hash hash) rows ≤ 1
    → find? (has_hash hash) rows ≡ some row
    → p row ≡ true
    → All (IsSpent hash) (update_where p f rows)
spent hash p f [] kept dead one found chosen = cc
spent hash p f (r ∷ rows) {row} kept dead one found chosen = elim (Bool-cases (has_hash hash r)) [
  | inl hit ↦
      let same : r ≡ row = some-injective r row (rw hit at found) in
      let here : p r ≡ true = subst (λ x. p x ≡ true) (sym same) chosen in
      let none_left : count_of (has_hash hash) rows ≡ 0 =
        let few = rw hit at one in omega (arith, few) in
      (rw here (λ is. dead r), All-vacuous hash p f rows kept none_left)
  | inr miss ↦ (
    elim (Bool-cases (p r)) [ inl hit ↦ rw hit (λ is. dead r) | inr skip ↦ rw skip (λ is. cc) ],
    spent hash p f rows kept dead (let rest = rw miss at one in omega (arith, rest))
        (rw miss at found) chosen,
  )
]

-- What happens to the table of refresh tokens.
pub data Event : Type 0 where
  sign_in : (now user : ℕ) → Minted → Event
  refresh : (now : ℕ) → List User → Minted → String → Event
  sign_out : (now : ℕ) → String → (user : ℕ) → Event
  sign_out_all : (now user : ℕ) → Event
  prune : ℕ → Event

abbrev pub minted_by : Event → Option Minted
minted_by (Event.sign_in now user minted) = some minted
minted_by (Event.refresh now users minted token) = some minted
minted_by (Event.sign_out now token user) = none
minted_by (Event.sign_out_all now user) = none
minted_by (Event.prune now) = none

module _ (signing : Signing) where
  -- The refresh token minted by the call, if any, has another hash.
  abbrev pub IsOther : String → Option Minted → Type 0
  IsOther hash none = Unit
  IsOther hash (some minted) = str_eq (signing.sha256 minted.refresh) hash ≡ false

  abbrev pub step : List RefreshToken → Event → List RefreshToken
  step rows (Event.sign_in now user minted) = issue_token_pair signing now user minted none rows
  step rows (Event.refresh now users minted token) =
      rows_after rows (rotate signing now users minted token rows)
  step rows (Event.sign_out now token user) = (revoke_one signing now token user rows).0
  step rows (Event.sign_out_all now user) = (revoke_all_for_user signing now user rows).0
  step rows (Event.prune now) = prune_expired_refresh_tokens now rows

  abbrev pub steps : List RefreshToken → List Event → List RefreshToken
  steps rows [] = rows
  steps rows (e ∷ es) = steps (step rows e) es

  new_row-IsSpent :
      (hash : String) (now user : ℕ) (minted : Minted) (rows : List RefreshToken)
      → IsOther hash (some minted)
      → All (IsSpent hash) rows
      → All (IsSpent hash) (new_row signing now user minted ∷ rows)
  new_row-IsSpent hash now user minted rows other h = ((λ is. cc), h)

  written-IsSpent :
      (hash : String) (p : RefreshToken → Bool) (f : RefreshToken → RefreshToken)
      (rows : List RefreshToken)
      → ((r : RefreshToken) → is_live (f r) ≡ false)
      → All (IsSpent hash) rows
      → All (IsSpent hash) (update_where p f rows)
  written-IsSpent hash p f rows dead h =
      All-update_where (IsSpent hash) p f rows (λ r hit was is. dead r) h

  ended-IsSpent :
      (hash : String) (now : ℕ) (rows : List RefreshToken) (found : Option RefreshToken)
      → All (IsSpent hash) rows
      → All (IsSpent hash) (ended signing now found rows).0
  ended-IsSpent hash now rows none h = h
  ended-IsSpent hash now rows (some row) h =
      written-IsSpent hash (λ r. r.id == row.id) (revoked now) rows (λ r. refl) h

  redeem-IsSpent :
      (hash : String) (now : ℕ) (users : List User) (minted : Minted) (sub : ℕ) (row : RefreshToken)
      (rows : List RefreshToken)
      → IsOther hash (some minted)
      → All (IsSpent hash) rows
      → All (IsSpent hash) (rows_after rows (redeem signing now users minted sub row rows))
  unfolding issue_token_pair
  redeem-IsSpent hash now users minted sub row rows other h = elim (Bool-cases (is_live row)) [
    | inr dead ↦
        rw dead (written-IsSpent hash (live_of row.user_id) (revoked now) rows (λ r. refl) h)
    | inl live ↦ elim (Bool-cases (leb row.expires_at now)) [
      | inl old ↦ rw (live, old) h
      | inr current ↦ elim (Bool-cases (is_active_user signing users sub)) [
        | inr gone ↦ rw (live, current, gone) h
        | inl active ↦
            rw (live, current, active)
              (new_row-IsSpent hash now sub minted _ other (
                written-IsSpent hash (λ r. r.id == row.id) (replaced now minted.id) rows (λ r. refl)
                  h))
      ]
    ]
  ]

  rotate-IsSpent :
      (hash : String) (now : ℕ) (users : List User) (minted : Minted) (token : String)
      (rows : List RefreshToken)
      → IsOther hash (some minted)
      → All (IsSpent hash) rows
      → All (IsSpent hash) (rows_after rows (rotate signing now users minted token rows))
  unfolding rotate
  rotate-IsSpent hash now users minted token rows other h =
      elim (Option-cases (signing.decode now token)) [
        | inl bad ↦ rw bad h
        | inr (sub, good) ↦ elim (Option-cases (find? (has_hash (signing.sha256 token)) rows)) [
          | inl absent ↦ rw (good, absent) h
          | inr (row, found) ↦
              rw (good, found) (redeem-IsSpent hash now users minted sub row rows other h)
        ]
      ]

  step-IsSpent :
      (hash : String) (e : Event) (rows : List RefreshToken)
      → IsOther hash (minted_by e)
      → All (IsSpent hash) rows
      → All (IsSpent hash) (step rows e)
  unfolding issue_token_pair revoke_one revoke_all_for_user prune_expired_refresh_tokens
  step-IsSpent hash (Event.sign_in now user minted) rows other h =
      new_row-IsSpent hash now user minted rows other h
  step-IsSpent hash (Event.refresh now users minted token) rows other h =
      rotate-IsSpent hash now users minted token rows other h
  step-IsSpent hash (Event.sign_out now token user) rows other h =
      ended-IsSpent hash now rows
        (find? (λ r. has_hash (signing.sha256 token) r && live_of user r) rows) h
  step-IsSpent hash (Event.sign_out_all now user) rows other h =
      written-IsSpent hash (live_of user) (revoked now) rows (λ r. refl) h
  step-IsSpent hash (Event.prune now) rows other h =
      All-keep (IsSpent hash) (λ r. not (is_old now r)) rows h

  pub steps-IsSpent :
      (hash : String) (es : List Event) (rows : List RefreshToken)
      → All (λ e. IsOther hash (minted_by e)) es
      → All (IsSpent hash) rows
      → All (IsSpent hash) (steps rows es)
  steps-IsSpent hash [] rows other h = h
  steps-IsSpent hash (e ∷ es) rows other h =
      steps-IsSpent hash es (step rows e) other.1 (step-IsSpent hash e rows other.0 h)
