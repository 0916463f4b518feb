-- ===== src/Payouts.antt =====
-- app/models/payout.py and the withdrawals of app/services/vendor/finance.py and
-- app/services/rider/earnings.py, which share their rules. `owner` is the restaurant or the rider.
pub mod Rows
pub mod Vendor
pub mod Rider
use text.Mathlib.Text.{◌==◌ as str_eq}
use cheering_shop_backend.Prelude.{
  ℕ, ◌+◌, ◌-◌, ◌*◌, ◌^◌, ◌%◌, Bool, true, false, Option, none, some, String, List, [], ◌∷◌, ◌++◌,
  ◌&&◌, not, ◌==◌, ltb, if◌then◌else◌, find?, update_first, any_of, sum_of,
}
use cheering_shop_backend.Prelude.Text.{strip}
use cheering_shop_backend.Prelude.Int.{ℤ, pos, ◌-ℤ◌, ltb_ℤ}
use cheering_shop_backend.Result.{Result, ok, err, Error, ◌>>=◌, ◌>>◌, raise_if, or_raise}
use cheering_shop_backend.Enums.{PayoutStatus, PayoutMethod}
use cheering_shop_backend.Money.{Decimal, to_minor}

pub record Payout : Type 0 where
  pub id : ℕ
  pub owner : ℕ
  -- the digits behind the prefix of the reference
  pub reference : ℕ
  pub amount : ℕ
  pub method : PayoutMethod
  pub account_number : String
  pub account_name : String
  pub bank_name : Option String
  pub branch_name : Option String
  pub status : PayoutStatus
  pub failure_reason : Option String
  pub processed_by : Option ℕ
  pub processed_at : Option ℕ
  pub reopened_at : Option ℕ
  pub reopened_by : Option ℕ
  pub reopen_reason : Option String

-- PayoutCreateRequest
pub record PayoutCreateRequest : Type 0 where
  pub amount : Decimal
  pub method : PayoutMethod
  pub account_number : String
  pub account_name : String
  pub bank_name : Option String
  pub branch_name : Option String

abbrev pub is_processing : PayoutStatus → Bool
is_processing PayoutStatus.processing = true
is_processing _ = false

abbrev pub is_completed : PayoutStatus → Bool
is_completed PayoutStatus.completed = true
is_completed _ = false

abbrev pub has_id : ℕ → Payout → Bool
has_id id p = p.id == id

-- `SELECT sum(amount) ... WHERE owner AND status`
abbrev pub sum_with : (PayoutStatus → Bool) → ℕ → List Payout → ℕ
sum_with test owner = sum_of (λ p. if p.owner == owner && test p.status then p.amount else 0)

-- `_payout_sums_minor`: (completed, processing)
unfoldable pub payout_sums : ℕ → List Payout → ℕ × ℕ
payout_sums owner ps = (sum_with is_completed owner ps, sum_with is_processing owner ps)

-- `earned - completed - processing`
unfoldable pub balance : ℤ → ℕ → List Payout → ℤ
unfolding payout_sums
balance earned owner ps =
    let (completed, processing) = payout_sums owner ps in earned -ℤ pos completed -ℤ pos processing

-- `_generate_reference`: four draws of `secrets.randbelow`, the first that no payout has yet.
-- `none` is the RuntimeError.
unfoldable pub generate_reference : List (ℕ × ℕ) → List Payout → Option ℕ
generate_reference [] ps = none
generate_reference ((digits, draw) ∷ more) ps =
    let low = 10 ^ (digits - 1) in
    let candidate = draw % (9 * low) + low in
    let rest = generate_reference more ps in
    if any_of (λ p. p.reference == candidate) ps then rest else some candidate

abbrev pub is_bank : PayoutMethod → Bool
is_bank PayoutMethod.bank = true
is_bank _ = false

abbrev pub is_missing : Option String → Bool
is_missing none = true
is_missing (some s) = str_eq s ""

-- The checks on the request alone, and the amount in paisa.
abbrev pub checked_amount : ℕ → PayoutCreateRequest → Result (List Payout) ℕ
checked_amount min_amount body = do
  raise_if (is_bank body.method && is_missing body.bank_name)
      (Error.validation "bank_name is required for bank payouts")
  raise_if (ltb (to_minor body.amount) (to_minor (record { coefficient = min_amount; places = 0 })))
      (Error.validation "Minimum withdrawal is .. taka")
  ok (to_minor body.amount)

abbrev pub new_payout : ℕ → ℕ → ℕ → ℕ → PayoutCreateRequest → Payout
new_payout id owner reference amount body = record {
  id = id;
  owner = owner;
  reference = reference;
  amount = amount;
  method = body.method;
  account_number = strip body.account_number;
  account_name = strip body.account_name;
  bank_name = body.bank_name;
  branch_name = body.branch_name;
  status = PayoutStatus.processing;
  failure_reason = none;
  processed_by = none;
  processed_at = none;
  reopened_at = none;
  reopened_by = none;
  reopen_reason = none;
}

-- The rest of `request_payout`, at a balance that was read under the owner's row lock.
abbrev pub grant :
    ℤ
    → ℕ
    → ℕ
    → List (ℕ × ℕ)
    → PayoutCreateRequest
    → ℕ
    → List Payout
    → Result (List Payout) (List Payout)
grant available id owner draws body amount ps = do
  raise_if (ltb_ℤ available (pos amount)) (Error.validation "Insufficient balance")
  reference ←
      or_raise (generate_reference draws ps)
        (Error.conflict "could not allocate a payout reference")
  ok (ps ++ (new_payout id owner reference amount body ∷ []))

abbrev pub completed_row : ℕ → ℕ → Payout → Payout
completed_row admin now p = record p {
  status = PayoutStatus.completed;
  processed_by = some admin;
  processed_at = some now;
}

-- `admin_complete`
unfoldable pub admin_complete : ℕ → ℕ → ℕ → List Payout → Result (List Payout) (List Payout)
admin_complete payout_id admin now ps = do
  p ← or_raise (find? (has_id payout_id) ps) (Error.not_found "Payout not found")
  raise_if (not (is_processing p.status)) (Error.validation "This payout is already ..")
  ok (update_first (has_id payout_id) (completed_row admin now) ps)

abbrev pub failed_row : ℕ → Option String → ℕ → Payout → Payout
failed_row admin reason now p = record p {
  status = PayoutStatus.failed;
  failure_reason = reason;
  processed_by = some admin;
  processed_at = some now;
}

-- `admin_fail`
unfoldable pub admin_fail :
    ℕ → ℕ → Option String → ℕ → List Payout → Result (List Payout) (List Payout)
admin_fail payout_id admin reason now ps = do
  p ← or_raise (find? (has_id payout_id) ps) (Error.not_found "Payout not found")
  raise_if (not (is_processing p.status)) (Error.validation "This payout is already ..")
  ok (update_first (has_id payout_id) (failed_row admin reason now) ps)

abbrev pub reopened_row : ℕ → String → ℕ → Payout → Payout
reopened_row admin reason now p = record p {
  status = PayoutStatus.processing;
  processed_by = none;
  processed_at = none;
  reopened_at = some now;
  reopened_by = some admin;
  reopen_reason = some reason;
}

-- `admin_reopen`
unfoldable pub admin_reopen : ℕ → ℕ → String → ℕ → List Payout → Result (List Payout) (List Payout)
admin_reopen payout_id admin reason now ps = do
  p ← or_raise (find? (has_id payout_id) ps) (Error.not_found "Payout not found")
  raise_if (not (is_completed p.status))
      (Error.validation "Only a completed payout can be reopened")
  ok (update_first (has_id payout_id) (reopened_row admin reason now) ps)
