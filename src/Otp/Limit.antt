-- ===== src/Otp/Limit.antt =====
-- How many codes may be tried against one identifier, and how often one is sent.
use text.Mathlib.Text.{◌==◌ as str_eq}
use text.Mathlib.TextEquality.{eq_iff}
use cheering_shop_backend.Prelude.{
  ℕ, ◌+◌, ◌*◌, ◌≤◌, ◌≡◌, refl, Bool, true, false, String, List, [], ◌∷◌, ◌&&◌, not, if◌then◌else◌,
  find?, is_none, arith, Bool-cases, inl, inr,
}
use cheering_shop_backend.Result.{Result, ok, err, saved}
use cheering_shop_backend.Redis.{Redis}
use cheering_shop_backend.Otp.{
  OtpCode, OtpPurpose, Outside, Issuing, same_purpose, pending, normalise_identifier,
  verify_and_consume, send_otp, issued, cooldown_key, prune_expired_otps, retained,
}
use cheering_shop_backend.Prelude.{both_true}
use cheering_shop_backend.Otp.Guesses.{
  compared, rows_left, budget, left, found_le, found_spends, sum_of-keep_le,
}

-- What happens to the table of codes.
pub data Event : Type 0 where
  guess : (now : ℕ) (identifier code : String) → OtpPurpose → Event
  send : (now : ℕ) (identifier generated : String) → OtpPurpose → Event
  prune : ℕ → Event

purpose_same : (p q : OtpPurpose) → same_purpose p q ≡ true → p ≡ q
purpose_same OtpPurpose.signup OtpPurpose.signup e = refl
purpose_same OtpPurpose.login OtpPurpose.login e = refl
purpose_same OtpPurpose.password_reset OtpPurpose.password_reset e = refl
purpose_same OtpPurpose.signup OtpPurpose.login e = cc
purpose_same OtpPurpose.signup OtpPurpose.password_reset e = cc
purpose_same OtpPurpose.login OtpPurpose.signup e = cc
purpose_same OtpPurpose.login OtpPurpose.password_reset e = cc
purpose_same OtpPurpose.password_reset OtpPurpose.signup e = cc
purpose_same OtpPurpose.password_reset OtpPurpose.login e = cc

module _ (outside : Outside) where
  -- Whether a guess is for this identifier and purpose.
  abbrev pub is_for : String → OtpPurpose → (identifier : String) → OtpPurpose → Bool
  is_for who purpose identifier purpose' =
      str_eq (normalise_identifier outside identifier) who && same_purpose purpose' purpose

  verify_spends :
      (now : ℕ) (who identifier code : String) (purpose purpose' : OtpPurpose) (rows : List OtpCode)
      → (if is_for who purpose identifier purpose'
            then compared (verify_and_consume outside now identifier code purpose' rows)
            else 0)
          + budget outside who purpose
              (rows_left rows (verify_and_consume outside now identifier code purpose' rows))
        ≤ budget outside who purpose rows
  unfolding verify_and_consume
  verify_spends now who identifier code purpose purpose' rows =
      elim (Bool-cases (is_for who purpose identifier purpose')) [
        | inr other ↦ rw other (
            omega (
              arith,
              found_le outside now who (normalise_identifier outside identifier) code purpose
                  purpose' rows
                  (find? (pending outside (normalise_identifier outside identifier) purpose') rows),
            ))
        | inl own ↦
            let (text, kind) =
              both_true (str_eq (normalise_identifier outside identifier) who)
                (same_purpose purpose' purpose) own in
            let to : normalise_identifier outside identifier ≡ who = (eq_iff _ _).0 text in
            rw (own, to, purpose_same purpose' purpose kind)
              (found_spends outside now who code purpose rows
                (find? (pending outside who purpose) rows) refl)
      ]

  module _ {Cache : Type 0} (redis : Redis Cache) where
    abbrev pub State : Type 0
    State = Issuing outside redis

    abbrev pub rows_after_send : State → Result State State → State
    rows_after_send s (ok after) = after
    rows_after_send s (err _) = s
    rows_after_send s (saved after _) = after

    abbrev pub step : State → Event → State
    step s (Event.guess now identifier code purpose) = record s {
      codes = rows_left s.codes (verify_and_consume outside now identifier code purpose s.codes);
    }
    step s (Event.send now identifier generated purpose) =
        rows_after_send s (send_otp outside redis now identifier generated purpose s)
    step s (Event.prune now) = record s { codes = prune_expired_otps now s.codes }

    abbrev pub steps : State → List Event → State
    steps s [] = s
    steps s (e ∷ es) = steps (step s e) es

    -- A guess for `who` and `purpose` that reached the comparison.
    abbrev pub tried : String → OtpPurpose → State → Event → ℕ
    tried who purpose s (Event.guess now identifier code purpose') =
        if is_for who purpose identifier purpose'
        then compared (verify_and_consume outside now identifier code purpose' s.codes)
        else 0
    tried who purpose s (Event.send now identifier generated purpose') = 0
    tried who purpose s (Event.prune now) = 0

    abbrev pub is_sent : Result State State → Bool
    is_sent (ok _) = true
    is_sent (err _) = false
    is_sent (saved _ _) = false

    -- A code sent that `who` can use for `purpose`.
    abbrev pub granted : String → OtpPurpose → State → Event → ℕ
    granted who purpose s (Event.guess now identifier code purpose') = 0
    granted who purpose s (Event.send now identifier generated purpose') =
        if is_sent (send_otp outside redis now identifier generated purpose' s)
          && pending outside who purpose
              (issued outside now (normalise_identifier outside identifier) generated purpose')
        then 1
        else 0
    granted who purpose s (Event.prune now) = 0

    -- The sum over the states that a sequence of events passes through.
    abbrev pub total : (State → Event → ℕ) → State → List Event → ℕ
    total count s [] = 0
    total count s (e ∷ es) = count s e + total count (step s e) es

    module _ (who : String) (purpose : OtpPurpose) where
      issued_left :
          (now : ℕ) (identifier generated : String) (purpose' : OtpPurpose)
          → left outside who purpose (issued outside now identifier generated purpose') ≡ (
              if pending outside who purpose (issued outside now identifier generated purpose')
              then 3
              else 0)
      issued_left now identifier generated purpose' = refl

      send_grants :
          (now : ℕ) (identifier generated : String) (purpose' : OtpPurpose) (s : State)
          → budget outside who purpose (step s (Event.send now identifier generated purpose')).codes
            ≤ budget outside who purpose s.codes
              + 3 * granted who purpose s (Event.send now identifier generated purpose')
      unfolding send_otp
      send_grants now identifier generated purpose' s =
          let to = normalise_identifier outside identifier in
          elim (Bool-cases
            (not (is_none (redis.look now (cooldown_key outside redis purpose' to) s.cache)))) [
              | inl cooling ↦ rw cooling (omega arith)
              | inr free ↦
                  elim (Bool-cases
                    (pending outside who purpose (issued outside now to generated purpose'))) [
                      | inl fits ↦ rw (free, fits) (omega arith)
                      | inr other ↦ rw (free, other) (omega arith)
                    ]
            ]

      step_spends :
          (s : State) (e : Event)
          → tried who purpose s e + budget outside who purpose (step s e).codes
            ≤ budget outside who purpose s.codes + 3 * granted who purpose s e
      unfolding prune_expired_otps
      step_spends s (Event.guess now identifier code purpose') =
          omega (arith, verify_spends now who identifier code purpose purpose' s.codes)
      step_spends s (Event.send now identifier generated purpose') =
          omega (arith, send_grants now identifier generated purpose' s)
      step_spends s (Event.prune now) =
          omega (arith, sum_of-keep_le (left outside who purpose) (retained now) s.codes)

      -- In any sequence of guesses, sends and prunes, for any identifiers and purposes, the guesses
      -- for one identifier and purpose whose code is compared with a digest are at most the attempts
      -- that its pending codes have left, and three more for each code that is sent to it meanwhile.
      pub guesses_capped :
          (s : State) (es : List Event)
          → total (tried who purpose) s es
            ≤ budget outside who purpose s.codes + 3 * total (granted who purpose) s es
      guesses_capped s [] = omega arith
      guesses_capped s (e ∷ es) = omega (arith, step_spends s e, guesses_capped (step s e) es)
