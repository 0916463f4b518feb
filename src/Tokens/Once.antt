-- ===== src/Tokens/Once.antt =====
-- A refresh token is redeemed at most once, and presenting it again ends every session of its user.
use mathlib.Core.Path.{subst}
use cheering_shop_backend.Prelude.{
  ℕ, ◌≤◌, ◌<◌, ◌≡◌, ◌≢◌, refl, sym, true, false, some, String, List, [], ◌∷◌, not, ◌==◌, leb, find?,
  keep, update_where, count_of, arith, Bool-cases, inl, inr, All, both_true, All-find?, ==_refl,
}
use cheering_shop_backend.Prelude.Lookups.{find?-hit, keep-update_where}
use cheering_shop_backend.Result.{
  ok, saved, Error, or_raise, >>=-eq-ok, or_raise-eq-ok, ok-injective,
}
use cheering_shop_backend.Store.{User}
use cheering_shop_backend.Tokens.{
  RefreshToken, Signing, Minted, has_hash, is_live, live_of, revoked, replaced, new_row,
  issue_token_pair, revoke_live, is_active_user, rotate,
}
use cheering_shop_backend.Tokens.Reuse.{
  IsSpent, IsOther, Event, minted_by, steps, steps-IsSpent, spent,
}

module _ (signing : Signing) where
  open signing use {decode, sha256}

  -- What a rotation that returned has found and written.
  rotate-eq-ok :
      (now : ℕ) (users : List User) (minted : Minted) (token : String) (rows : List RefreshToken)
      {after : List RefreshToken}
      → rotate signing now users minted token rows ≡ ok after
      → (row : RefreshToken) × (sub : ℕ) × (find? (has_hash (sha256 token)) rows ≡ some row)
        × (is_live row ≡ true)
        × (now < row.expires_at)
        × (after
            ≡ new_row signing now sub minted
              ∷ update_where (λ r. r.id == row.id) (replaced now minted.id) rows)
  unfolding rotate issue_token_pair
  rotate-eq-ok now users minted token rows returned =
      let (sub, _, e1) =
        >>=-eq-ok (or_raise (decode now token) (Error.unauthorized "Invalid token")) _ returned in
      let (row, found, e2) =
        >>=-eq-ok
          (or_raise (find? (has_hash (sha256 token)) rows)
            (Error.unauthorized "Refresh token is not recognised"))
          _ e1 in
      elim (Bool-cases (is_live row)) [
        | inr dead ↦ let refused = rw dead at e2 in cc
        | inl live ↦ elim (Bool-cases (leb row.expires_at now)) [
          | inl old ↦ let refused = rw (live, old) at e2 in cc
          | inr current ↦ elim (Bool-cases (is_active_user signing users sub)) [
            | inr gone ↦ let refused = rw (live, current, gone) at e2 in cc
            | inl active ↦ (
              row,
              sub,
              or_raise-eq-ok _ _ found,
              live,
              ground arith,
              sym (ok-injective (rw (live, current, active) at e2)),
            )
          ]
        ]
      ]

  redeemed-IsSpent :
      (now : ℕ) (users : List User) (minted : Minted) (token : String)
      (rows after : List RefreshToken)
      → count_of (has_hash (sha256 token)) rows ≤ 1
      → IsOther signing (sha256 token) (some minted)
      → rotate signing now users minted token rows ≡ ok after
      → All (IsSpent (sha256 token)) after
  redeemed-IsSpent now users minted token rows after one other returned =
      let (row, sub, found, _, _, e) = rotate-eq-ok now users minted token rows returned in
      subst (All (IsSpent (sha256 token))) (sym e) (
        (λ is. cc),
        spent (sha256 token) (λ r. r.id == row.id) (replaced now minted.id) rows (λ r. refl)
            (λ r. refl) one found (==_refl row.id),
      )

  -- A refresh token that was redeemed is never redeemed again, whatever sign-ins, rotations,
  -- sign-outs and prunes follow: its hash is unique in the table, and the tokens minted then have
  -- other hashes.
  pub rotate_once :
      (now : ℕ) (users : List User) (minted : Minted) (token : String)
      (rows after : List RefreshToken) (es : List Event) (later : ℕ) (users' : List User)
      (minted' : Minted) (again : List RefreshToken)
      → count_of (has_hash (sha256 token)) rows ≤ 1
      → IsOther signing (sha256 token) (some minted)
      → All (λ e. IsOther signing (sha256 token) (minted_by e)) es
      → rotate signing now users minted token rows ≡ ok after
      → rotate signing later users' minted' token (steps signing after es) ≢ ok again
  rotate_once now users minted token rows after es later users' minted' again one other others
        returned twice =
      let gone = redeemed-IsSpent now users minted token rows after one other returned in
      let still = steps-IsSpent signing (sha256 token) es after others gone in
      let (row, sub, found, live, _, _) =
        rotate-eq-ok later users' minted' token (steps signing after es) twice in
      let dead =
        All-find? (IsSpent (sha256 token)) (has_hash (sha256 token)) (steps signing after es) still
          found (find?-hit (has_hash (sha256 token)) (steps signing after es) found) in
      cc

  -- No session of this user is live.
  abbrev pub IsSignedOut : ℕ → RefreshToken → Type 0
  IsSignedOut user r = r.user_id ≡ user → is_live r ≡ false

  revoke_live-IsSignedOut :
      (now user : ℕ) (rows : List RefreshToken)
      → All (IsSignedOut user) (revoke_live signing now user rows)
  revoke_live-IsSignedOut now user [] = tt
  revoke_live-IsSignedOut now user (r ∷ rows) = (
    elim (Bool-cases (live_of user r)) [
      | inl hit ↦ rw hit (λ own. refl)
      | inr miss ↦
          rw miss (λ own. let same : (r.user_id == user) ≡ true = ground arith in rw same at miss)
    ],
    revoke_live-IsSignedOut now user rows,
  )

  -- Presenting a token that decodes and whose row is revoked commits the end of every session of the
  -- row's user, and raises; the rows of other users stay.
  pub rotate_reused :
      (now sub : ℕ) (users : List User) (minted : Minted) (token : String) (row : RefreshToken)
      (rows : List RefreshToken)
      → decode now token ≡ some sub
      → find? (has_hash (sha256 token)) rows ≡ some row
      → is_live row ≡ false
      → (after : List RefreshToken) × (rotate signing now users minted token rows
          ≡ saved after (Error.unauthorized "Session revoked. Please sign in again"))
        × All (IsSignedOut row.user_id) after
        × (keep (λ r. not (r.user_id == row.user_id)) after
            ≡ keep (λ r. not (r.user_id == row.user_id)) rows)
  unfolding rotate
  rotate_reused now sub users minted token row rows good found dead = (
    revoke_live signing now row.user_id rows,
    rw (good, found, dead) refl,
    revoke_live-IsSignedOut now row.user_id rows,
    keep-update_where (λ r. not (r.user_id == row.user_id)) (live_of row.user_id) (revoked now) rows
        (λ r hit. ground (arith, both_true (r.user_id == row.user_id) (is_live r) hit))
        (λ r hit. ground (arith, both_true (r.user_id == row.user_id) (is_live r) hit)),
  )
