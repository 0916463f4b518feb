-- ===== src/Payouts/Rows.antt =====
-- What each finance decision does to the money that is out of an owner's balance.
use mathlib.Core.Path.{subst}
use mathlib.Core.Option.{some-injective}
use cheering_shop_backend.Prelude.{
  ℕ, ◌+◌, ◌-◌, ◌*◌, ◌%◌, ◌^◌, ◌≡◌, refl, Bool, true, false, Option, some, String, List, [], ◌∷◌,
  ◌&&◌, ◌==◌, if◌then◌else◌, find?, any_of, sum_of, sum_of-append, sum_of-update_first, arith,
  Option-cases, Bool-cases, inl, inr,
}
use cheering_shop_backend.Prelude.Int.{ℤ, pos, ◌-ℤ◌, ◌≤ℤ◌, int_laws}
use cheering_shop_backend.Result.{ok}
use cheering_shop_backend.Enums.{PayoutStatus}
use cheering_shop_backend.Payouts.{
  Payout, PayoutCreateRequest, is_processing, is_completed, has_id, sum_with, balance,
  generate_reference, new_payout, grant, completed_row, failed_row, reopened_row, admin_complete,
  admin_fail, admin_reopen,
}

-- What one row takes out of an owner's balance: its amount, unless it FAILED.
abbrev pub is_out : PayoutStatus → Bool
is_out PayoutStatus.failed = false
is_out _ = true

abbrev pub taken : ℕ → Payout → ℕ
taken owner p = if p.owner == owner && is_out p.status then p.amount else 0

abbrev pub out : ℕ → List Payout → ℕ
out owner = sum_of (taken owner)

sums-out :
    (owner : ℕ) (ps : List Payout)
    → sum_with is_completed owner ps + sum_with is_processing owner ps ≡ out owner ps
sums-out owner [] = refl
sums-out owner (p ∷ ps) = ground (arith, sums-out owner ps)

-- The balance is what was earned less the rows that are out.
pub balance-out :
    (earned : ℤ) (owner : ℕ) (ps : List Payout)
    → balance earned owner ps ≡ earned -ℤ pos (out owner ps)
unfolding balance
balance-out earned owner ps = omega (int_laws, sums-out owner ps)

-- The row that a decision is about, and the move of the total that is out.
module _ (owner payout_id : ℕ) (ps ps' : List Payout) where
  -- Confirming a transfer moves nobody's balance.
  pub out-admin_complete :
      (admin now : ℕ)
      → admin_complete payout_id admin now ps ≡ ok ps'
      → out owner ps' ≡ out owner ps
  unfolding admin_complete
  out-admin_complete admin now e = elim (Option-cases (find? (has_id payout_id) ps)) [
    | inl missing ↦ ground arith
    | inr (q, found) ↦ ground (
      arith,
      sum_of-update_first (taken owner) (has_id payout_id) (completed_row admin now) ps found,
    )
  ]

  -- A payout that an operator fails was there, and returns just its amount, and to its owner alone.
  pub out-admin_fail :
      (admin : ℕ) (reason : Option String) (now : ℕ)
      → admin_fail payout_id admin reason now ps ≡ ok ps'
      → (p : Payout) × (find? (has_id payout_id) ps ≡ some p)
        × (out owner ps' + (if p.owner == owner then p.amount else 0) ≡ out owner ps)
  unfolding admin_fail
  out-admin_fail admin reason now e = elim (Option-cases (find? (has_id payout_id) ps)) [
    | inl missing ↦ absurd (ground arith)
    | inr (q, found) ↦ (
      q,
      found,
      ground (
        arith,
        sum_of-update_first (taken owner) (has_id payout_id) (failed_row admin reason now) ps found,
      ),
    )
  ]

  -- Taking back a COMPLETED claim moves nobody's balance.
  pub out-admin_reopen :
      (admin : ℕ) (reason : String) (now : ℕ)
      → admin_reopen payout_id admin reason now ps ≡ ok ps'
      → out owner ps' ≡ out owner ps
  unfolding admin_reopen
  out-admin_reopen admin reason now e = elim (Option-cases (find? (has_id payout_id) ps)) [
    | inl missing ↦ ground arith
    | inr (q, found) ↦ ground (
      arith,
      sum_of-update_first (taken owner) (has_id payout_id) (reopened_row admin reason now) ps found,
    )
  ]

generate_reference_new :
    (draws : List (ℕ × ℕ)) (ps : List Payout) (reference : ℕ)
    → generate_reference draws ps ≡ some reference
    → any_of (λ p. p.reference == reference) ps ≡ false
unfolding generate_reference
generate_reference_new [] ps reference e = cc
generate_reference_new ((digits, draw) ∷ more) ps reference e =
    let candidate = draw % (9 * 10 ^ (digits - 1)) + 10 ^ (digits - 1) in
    elim (Bool-cases (any_of (λ p. p.reference == candidate) ps)) [
      | inl used ↦ generate_reference_new more ps reference (rw used at e)
      | inr unused ↦
          subst (λ r. any_of (λ p. p.reference == r) ps ≡ false)
            (some-injective _ _ (rw unused at e)) unused
    ]

-- A granted withdrawal was covered by the balance that was read, and takes out just its amount, of
-- its owner's balance alone.
pub out-grant :
    (available : ℤ) (id owner : ℕ) (draws : List (ℕ × ℕ)) (body : PayoutCreateRequest) (amount : ℕ)
    (ps ps' : List Payout) (other : ℕ)
    → grant available id owner draws body amount ps ≡ ok ps'
    → (pos amount ≤ℤ available)
      × (out other ps' ≡ out other ps + (if owner == other then amount else 0))
out-grant available id owner draws body amount ps ps' other e =
    elim (Option-cases (generate_reference draws ps)) [
      | inl spent ↦ ground arith
      | inr (r, fresh) ↦
          ground (arith, sum_of-append (taken other) ps (new_payout id owner r amount body ∷ []))
    ]
