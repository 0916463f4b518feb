-- ===== src/Otp/Accept.antt =====
-- When a code is accepted.
use mathlib.Core.Path.{subst}
use mathlib.Core.Option.{some-injective}
use text.Mathlib.Text.{◌==◌ as str_eq}
use text.Mathlib.TextEquality.{eq_iff}
use cheering_shop_backend.Prelude.{
  ℕ, ◌<◌, ◌≡◌, ◌↔◌, refl, sym, ap, ◌∙◌, Option, none, some, String, List, leb, find?, update_first,
  arith, Bool-cases, inl, inr,
}
use cheering_shop_backend.Result.{ok-injective, ok}
use cheering_shop_backend.Otp.{
  OtpCode, OtpPurpose, Outside, otp_max_attempts, pending, burned, judged, newest_judged,
  normalise_identifier, verify_otp, verify_and_consume,
}

module _ (outside : Outside) where
  judged_iff :
      (now : ℕ) (who code : String) (purpose : OtpPurpose) (rows after : List OtpCode)
      (row : OtpCode)
      → (judged outside now who code purpose rows row ≡ ok after) ↔ (
          (now < row.expires_at)
          × (row.attempts < otp_max_attempts)
          × (outside.hash_otp code who ≡ row.code_hash)
          × (after ≡ update_first (pending outside who purpose) (burned now) rows))
  unfolding verify_otp
  judged_iff now who code purpose rows after row = elim (Bool-cases (leb row.expires_at now)) [
    | inl old ↦ rw old ((λ e. cc), λ (live, _, _, _). ground arith)
    | inr live ↦ elim (Bool-cases (leb otp_max_attempts row.attempts)) [
      | inl locked ↦ rw (live, locked) ((λ e. cc), λ (_, few, _, _). ground arith)
      | inr few ↦ elim (Bool-cases (str_eq (outside.hash_otp code who) row.code_hash)) [
        | inl right ↦
            rw (live, few, right)
              (
                (λ e. (ground arith, ground arith, (eq_iff _ _).0 right, sym (ok-injective e))),
                λ (_, _, _, e). sym (ap ok e),
              )
        | inr wrong ↦
            rw (live, few, wrong)
              (
                (λ e. cc),
                λ (_, _, e, _).
                    let yes = (eq_iff (outside.hash_otp code who) row.code_hash).1 e in cc,
              )
      ]
    ]
  ]

  newest_judged_iff :
      (now : ℕ) (who code : String) (purpose : OtpPurpose) (rows after : List OtpCode)
      (found : Option OtpCode)
      → (newest_judged outside now who code purpose rows found ≡ ok after) ↔ (
          (row : OtpCode) × (found ≡ some row)
          × (now < row.expires_at)
          × (row.attempts < otp_max_attempts)
          × (outside.hash_otp code who ≡ row.code_hash)
          × (after ≡ update_first (pending outside who purpose) (burned now) rows))
  newest_judged_iff now who code purpose rows after none = ((λ e. cc), λ (_, e, _, _, _, _). cc)
  newest_judged_iff now who code purpose rows after (some row) =
      let (there, back) = judged_iff now who code purpose rows after row in
      (
        (λ e. let (a, b, c, d) = there e in (row, refl, a, b, c, d)),
        λ (r, same, a, b, c, d).
            let here : r ≡ row = sym (some-injective row r same) in
            back (
              subst (λ x. now < x.expires_at) here a,
              subst (λ x. x.attempts < otp_max_attempts) here b,
              c ∙ ap (λ x. x.code_hash) here,
              d,
            ),
      )

  -- A code is accepted exactly when the newest pending row of the identifier and purpose has not
  -- expired, has seen fewer than three wrong codes, and stores this code's digest; that row is then
  -- consumed.
  pub verify_and_consume_iff :
      (now : ℕ) (identifier code : String) (purpose : OtpPurpose) (rows after : List OtpCode)
      → (verify_and_consume outside now identifier code purpose rows ≡ ok after) ↔ (
          (row : OtpCode) × (find?
              (pending outside (normalise_identifier outside identifier) purpose)
              rows
            ≡ some row)
          × (now < row.expires_at)
          × (row.attempts < otp_max_attempts)
          × (outside.hash_otp code (normalise_identifier outside identifier) ≡ row.code_hash)
          × (after
              ≡ update_first
                  (pending outside (normalise_identifier outside identifier) purpose)
                  (burned now)
                  rows))
  unfolding verify_and_consume
  verify_and_consume_iff now identifier code purpose rows after =
      newest_judged_iff now (normalise_identifier outside identifier) code purpose rows after
        (find? (pending outside (normalise_identifier outside identifier) purpose) rows)
