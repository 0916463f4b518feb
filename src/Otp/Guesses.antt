-- ===== src/Otp/Guesses.antt =====
-- What a tried code costs.
use text.Mathlib.Text.{◌==◌ as str_eq}
use cheering_shop_backend.Prelude.{
  ℕ, ◌+◌, ◌-◌, ◌≤◌, ◌<◌, ◌≡◌, refl, Bool, true, false, Option, none, some, String, List, [], ◌∷◌,
  ◌&&◌, leb, if◌then◌else◌, find?, keep, update_first, sum_of, sum_of-update_first, arith,
  Bool-cases, inl, inr,
}
use cheering_shop_backend.Prelude.Lookups.{find?-hit}
use cheering_shop_backend.Result.{Result, ok, err, saved, Error}
use cheering_shop_backend.Otp.{
  OtpCode, OtpPurpose, Outside, otp_max_attempts, same_purpose, pending, burned, missed, judged,
  newest_judged, verify_otp,
}

sum_of-update_first_le :
    {A : Type 0} (g : A → ℕ) (p : A → Bool) (f : A → A) (xs : List A)
    → ((x : A) → g (f x) ≤ g x)
    → sum_of g (update_first p f xs) ≤ sum_of g xs
sum_of-update_first_le g p f [] h = omega arith
sum_of-update_first_le g p f (x ∷ xs) h = elim (Bool-cases (p x)) [
  | inl hit ↦ rw hit (omega (arith, h x))
  | inr miss ↦ rw miss (omega (arith, sum_of-update_first_le g p f xs h))
]

pub sum_of-keep_le :
    {A : Type 0} (g : A → ℕ) (p : A → Bool) (xs : List A) → sum_of g (keep p xs) ≤ sum_of g xs
sum_of-keep_le g p [] = omega arith
sum_of-keep_le g p (x ∷ xs) = elim (Bool-cases (p x)) [
  | inl hit ↦ rw hit (omega (arith, sum_of-keep_le g p xs))
  | inr miss ↦ rw miss (omega (arith, sum_of-keep_le g p xs))
]

-- The digest of the code was compared, and differs.
abbrev pub is_wrong : Error → Bool
is_wrong (Error.validation text) = str_eq text "Incorrect code"
is_wrong _ = false

-- Whether the digest was compared: the answers "right" and "Incorrect code".
abbrev pub compared : Result (List OtpCode) (List OtpCode) → ℕ
compared (ok _) = 1
compared (err e) = if is_wrong e then 1 else 0
compared (saved _ e) = if is_wrong e then 1 else 0

abbrev pub rows_left : List OtpCode → Result (List OtpCode) (List OtpCode) → List OtpCode
rows_left rows (ok after) = after
rows_left rows (err _) = rows
rows_left rows (saved after _) = after

never : (a b : Bool) → (a && b && false) ≡ false
never a b = ground arith

module _ (outside : Outside) where
  -- How many more codes the pending rows of one identifier and purpose admit.
  abbrev pub left : String → OtpPurpose → OtpCode → ℕ
  left who purpose r = if pending outside who purpose r then otp_max_attempts - r.attempts else 0

  abbrev pub budget : String → OtpPurpose → List OtpCode → ℕ
  budget who purpose rows = sum_of (left who purpose) rows

  left-burned :
      (who : String) (purpose : OtpPurpose) (now : ℕ) (r : OtpCode)
      → left who purpose (burned now r) ≡ 0
  left-burned who purpose now r =
      ground (arith, never (outside.same_citext r.identifier who) (same_purpose r.purpose purpose))

  left-missed :
      (who : String) (purpose : OtpPurpose) (r : OtpCode)
      → left who purpose (missed r) ≡ left who purpose r - 1
  left-missed who purpose r = elim (Bool-cases (pending outside who purpose r)) [
    | inl waits ↦ rw waits (omega arith)
    | inr gone ↦ rw gone refl
  ]

  left_waiting :
      (who : String) (purpose : OtpPurpose) (r : OtpCode)
      → pending outside who purpose r ≡ true
      → left who purpose r ≡ otp_max_attempts - r.attempts
  left_waiting who purpose r waits = rw waits refl

  -- Judging a code for any identifier and purpose does not raise the budget.
  judged_le :
      (now : ℕ) (who who' code : String) (purpose purpose' : OtpPurpose) (rows : List OtpCode)
      (row : OtpCode)
      → budget who purpose (rows_left rows (judged outside now who' code purpose' rows row))
        ≤ budget who purpose rows
  judged_le now who who' code purpose purpose' rows row =
      let burning =
        sum_of-update_first_le (left who purpose) (pending outside who' purpose') (burned now) rows
          (λ r. omega (arith, left-burned who purpose now r)) in
      let missing =
        sum_of-update_first_le (left who purpose) (pending outside who' purpose') missed rows
          (λ r. omega (arith, left-missed who purpose r)) in
      elim (Bool-cases (leb row.expires_at now)) [
        | inl old ↦ rw old (omega arith)
        | inr live ↦ elim (Bool-cases (leb otp_max_attempts row.attempts)) [
          | inl locked ↦ rw (live, locked) burning
          | inr few ↦ elim (Bool-cases (verify_otp outside code who' row.code_hash)) [
            | inl right ↦ rw (live, few, right) burning
            | inr wrong ↦ rw (live, few, wrong) missing
          ]
        ]
      ]

  -- A code that is compared costs the budget of its identifier and purpose one.
  judged_spends :
      (now : ℕ) (who code : String) (purpose : OtpPurpose) (rows : List OtpCode) (row : OtpCode)
      → find? (pending outside who purpose) rows ≡ some row
      → compared (judged outside now who code purpose rows row)
          + budget who purpose (rows_left rows (judged outside now who code purpose rows row))
        ≤ budget who purpose rows
  judged_spends now who code purpose rows row found =
      let waits =
        left_waiting who purpose row (find?-hit (pending outside who purpose) rows found) in
      let burning =
        sum_of-update_first (left who purpose) (pending outside who purpose) (burned now) rows
          found in
      let missing =
        sum_of-update_first (left who purpose) (pending outside who purpose) missed rows found in
      let burnt = left-burned who purpose now row in
      let miss = left-missed who purpose row in
      elim (Bool-cases (leb row.expires_at now)) [
        | inl old ↦ rw old (omega arith)
        | inr live ↦ elim (Bool-cases (leb otp_max_attempts row.attempts)) [
          | inl locked ↦ rw (live, locked) (omega (arith, burning, burnt))
          | inr few ↦
              let more : row.attempts < otp_max_attempts = ground arith in
              elim (Bool-cases (verify_otp outside code who row.code_hash)) [
                | inl right ↦ rw (live, few, right) (omega (arith, burning, burnt, waits, more))
                | inr wrong ↦ rw (live, few, wrong) (omega (arith, missing, miss, waits, more))
              ]
        ]
      ]

  pub found_le :
      (now : ℕ) (who who' code : String) (purpose purpose' : OtpPurpose) (rows : List OtpCode)
      (found : Option OtpCode)
      → budget who purpose
          (rows_left rows (newest_judged outside now who' code purpose' rows found))
        ≤ budget who purpose rows
  found_le now who who' code purpose purpose' rows none = omega arith
  found_le now who who' code purpose purpose' rows (some row) =
      judged_le now who who' code purpose purpose' rows row

  pub found_spends :
      (now : ℕ) (who code : String) (purpose : OtpPurpose) (rows : List OtpCode)
      (found : Option OtpCode)
      → find? (pending outside who purpose) rows ≡ found
      → compared (newest_judged outside now who code purpose rows found)
          + budget who purpose
              (rows_left rows (newest_judged outside now who code purpose rows found))
        ≤ budget who purpose rows
  found_spends now who code purpose rows none e = omega arith
  found_spends now who code purpose rows (some row) e =
      judged_spends now who code purpose rows row e
