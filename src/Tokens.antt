-- ===== src/Tokens.antt =====
-- app/services/token_service.py, app/models/user.py (RefreshToken), and
-- `prune_expired_refresh_tokens` of app/workers/tasks.py.
pub mod Reuse
pub mod Once
use text.Mathlib.Text.{◌==◌ as str_eq}
use cheering_shop_backend.Prelude.{
  ℕ, ◌+◌, Bool, true, false, Option, none, some, String, List, [], ◌∷◌, ◌&&◌, ◌||◌, not, ◌==◌, ltb,
  leb, if◌then◌else◌, find?, keep, update_where, count_of, is_none,
}
use cheering_shop_backend.Result.{Result, ok, err, saved, Error, ◌>>=◌, ◌>>◌, raise_if, or_raise}
use cheering_shop_backend.Store.{User}

-- REFRESH_TOKEN_TTL_DAYS and REFRESH_TOKEN_RETENTION, both 30 days
abbrev pub refresh_token_ttl : ℕ
refresh_token_ttl = 2592000

abbrev pub refresh_token_retention : ℕ
refresh_token_retention = 2592000

pub record RefreshToken : Type 0 where
  pub id : ℕ
  pub user_id : ℕ
  pub token_hash : String
  pub expires_at : ℕ
  pub revoked_at : Option ℕ
  pub replaced_by_id : Option ℕ

abbrev pub has_hash : String → RefreshToken → Bool
has_hash hash r = str_eq r.token_hash hash

abbrev pub is_live : RefreshToken → Bool
is_live r = is_none r.revoked_at

abbrev pub live_of : ℕ → RefreshToken → Bool
live_of user r = r.user_id == user && is_live r

abbrev pub revoked : ℕ → RefreshToken → RefreshToken
revoked now r = record r { revoked_at = some now }

abbrev pub replaced : (now by : ℕ) → RefreshToken → RefreshToken
replaced now by r = record r { revoked_at = some now; replaced_by_id = some by }

-- What the service takes from outside: `decode_token` with the subject of a refresh token that is
-- signed and current, and SHA-256 (`hash_refresh_token`).
pub record Signing : Type 0 where
  pub decode : (now : ℕ) → String → Option ℕ
  pub sha256 : String → String

-- A new row: its id, and the refresh token that `create_refresh_token` minted.
pub record Minted : Type 0 where
  pub id : ℕ
  pub refresh : String

module _ (signing : Signing) where
  open signing use {decode, sha256}

  abbrev pub new_row : (now user : ℕ) → Minted → RefreshToken
  new_row now user minted = record {
    id = minted.id;
    user_id = user;
    token_hash = sha256 minted.refresh;
    expires_at = now + refresh_token_ttl;
    revoked_at = none;
    replaced_by_id = none;
  }

  -- `replaces` is the row that a rotation redeems. The pair of tokens that the client receives is
  -- the minted one.
  unfoldable pub issue_token_pair :
      (now user : ℕ)
      → Minted
      → (replaces : Option RefreshToken) → List RefreshToken
      → List RefreshToken
  issue_token_pair now user minted none rows = new_row now user minted ∷ rows
  issue_token_pair now user minted (some row) rows =
      new_row now user minted ∷ update_where (λ r. r.id == row.id) (replaced now minted.id) rows

  -- The UPDATE of `_handle_token_reuse` and of `revoke_all_for_user`.
  abbrev pub revoke_live : (now user : ℕ) → List RefreshToken → List RefreshToken
  revoke_live now user rows = update_where (live_of user) (revoked now) rows

  -- The rows after the call, and how many it revoked.
  unfoldable pub revoke_all_for_user : (now user : ℕ) → List RefreshToken → List RefreshToken × ℕ
  revoke_all_for_user now user rows = (revoke_live now user rows, count_of (live_of user) rows)

  abbrev pub handle_token_reuse :
      ℕ → RefreshToken → List RefreshToken → Result (List RefreshToken) (List RefreshToken)
  handle_token_reuse now row rows =
      saved (revoke_live now row.user_id rows)
        (Error.unauthorized "Session revoked. Please sign in again")

  abbrev pub is_active_user : List User → ℕ → Bool
  is_active_user users id = elim (find? (λ u. u.id == id) users) [
    | none ↦ false
    | some u ↦ u.is_active
  ]

  -- The part of `rotate` for a row that was found.
  abbrev pub redeem :
      (now : ℕ)
      → List User
      → Minted
      → (sub : ℕ) → RefreshToken
      → List RefreshToken
      → Result (List RefreshToken) (List RefreshToken)
  redeem now users minted sub row rows =
      if not (is_live row)
      then handle_token_reuse now row rows
      else if leb row.expires_at now
      then err (Error.unauthorized "Refresh token has expired")
      else if not (is_active_user users sub)
      then err (Error.unauthorized "Account is no longer active")
      else ok (issue_token_pair now sub minted (some row) rows)

  unfoldable pub rotate :
      (now : ℕ)
      → List User
      → Minted
      → (refresh_token : String) → List RefreshToken
      → Result (List RefreshToken) (List RefreshToken)
  unfolding issue_token_pair
  rotate now users minted refresh_token rows = do
    sub ← or_raise (decode now refresh_token) (Error.unauthorized "Invalid token")
    row ←
        or_raise (find? (has_hash (sha256 refresh_token)) rows)
          (Error.unauthorized "Refresh token is not recognised")
    redeem now users minted sub row rows

  -- The logout path: the rows after the call, and whether a live session was ended.
  abbrev pub ended : ℕ → Option RefreshToken → List RefreshToken → List RefreshToken × Bool
  ended now none rows = (rows, false)
  ended now (some row) rows = (update_where (λ r. r.id == row.id) (revoked now) rows, true)

  unfoldable pub revoke_one :
      (now : ℕ)
      → (refresh_token : String) → (user : ℕ) → List RefreshToken
      → List RefreshToken × Bool
  revoke_one now refresh_token user rows =
      ended now (find? (λ r. has_hash (sha256 refresh_token) r && live_of user r) rows) rows

-- The cutoff `now - REFRESH_TOKEN_RETENTION` is compared without a subtraction.
abbrev pub is_old : ℕ → RefreshToken → Bool
is_old now r =
    ltb (r.expires_at + refresh_token_retention) now
    && (elim r.revoked_at [ none ↦ true | some at ↦ ltb (at + refresh_token_retention) now ])

unfoldable pub prune_expired_refresh_tokens : ℕ → List RefreshToken → List RefreshToken
prune_expired_refresh_tokens now rows = keep (λ r. not (is_old now r)) rows
