-- ===== src/Orders/Handoff.antt =====
-- The handoff PIN of app/services/vendor/orders.py: `mark_ready` issues it and `handoff_order`
-- checks it. HMAC-SHA256, Fernet and the random digits are not the program's code, so they are
-- the fields of `Crypto` and an argument.
pub mod Pin
use text.Mathlib.Text.{◌==◌ as str_eq}
use cheering_shop_backend.Prelude.{
  ℕ, ◌+◌, not, Bool, Option, none, some, String, if◌then◌else◌, leb, is_none,
}
use cheering_shop_backend.Result.{Result, ok, err, saved, Error, ◌>>=◌, ◌>>◌, raise_if}
use cheering_shop_backend.Enums.{OrderStatus, same_status}
use cheering_shop_backend.Orders.{Order, Change, unlogged}
use cheering_shop_backend.Orders.Vendor.{transition}

-- settings.HANDOFF_MAX_ATTEMPTS
abbrev pub handoff_max_attempts : ℕ
handoff_max_attempts = 5

-- `if not order.rider_pin_hash: raise ...`
abbrev pub issued_digest : Option String → Result Change String
issued_digest none = err (Error.conflict "No handoff PIN has been issued for this order")
issued_digest (some h) =
    if str_eq h ""
    then err (Error.conflict "No handoff PIN has been issued for this order")
    else ok h

pub record Crypto : Type 0 where
  -- the digest of a message made of an order's id and a PIN
  pub hmac : ℕ → String → String
  pub encrypt_secret : String → String
  pub decrypt_secret : String → String

-- The checks of `handoff_order` before the PIN is compared; the result is the stored digest.
unfoldable pub handoff_ready : Order → Result Change String
handoff_ready o = do
  raise_if (not (same_status o.status OrderStatus.ready))
      (Error.conflict "An order that is .. cannot be handed over")
  digest ← issued_digest o.rider_pin_hash
  raise_if (is_none o.rider_id) (Error.conflict "No rider has been assigned to this order yet")
  raise_if (leb handoff_max_attempts o.handoff_attempts)
      (Error.conflict "Too many incorrect PIN attempts for this order")
  ok digest

module _ (crypto : Crypto) where
  open crypto use {hmac, encrypt_secret, decrypt_secret}

  unfoldable pub hash_rider_pin : String → ℕ → String
  hash_rider_pin pin order_id = hmac order_id pin

  unfoldable pub verify_rider_pin : String → ℕ → String → Bool
  unfolding hash_rider_pin
  verify_rider_pin pin order_id stored = str_eq (hash_rider_pin pin order_id) stored

  -- The fields that every call of `mark_ready` writes, with the status already READY.
  abbrev pub issue_pin : Order → String → ℕ → Order
  issue_pin o pin now = record o {
    rider_pin_hash = some (hash_rider_pin pin o.id);
    rider_pin_cipher = some (encrypt_secret pin);
    rider_pin_issued_at = some now;
    handoff_attempts = 0;
  }

  -- A READY order is not moved again: its PIN is issued anew and nothing is logged.
  unfoldable pub mark_ready : Order → ℕ → String → ℕ → Result Change Change
  unfolding transition
  mark_ready o actor_id pin now =
      if same_status o.status OrderStatus.ready then ok (unlogged (issue_pin o pin now)) else do
        moved ← transition o OrderStatus.ready actor_id none now
        let stamped = record (moved.order) { ready_at = some now }
        ok (record moved { order = issue_pin stamped pin now })

  -- A wrong guess is counted and committed before the error is raised.
  unfoldable pub handoff_order : Order → ℕ → String → ℕ → Result Change Change
  unfolding handoff_ready transition
  handoff_order o actor_id rider_pin now = do
    digest ← handoff_ready o
    if verify_rider_pin rider_pin o.id digest
        then (do
          moved ← transition o OrderStatus.picked_up actor_id none now
          ok (record moved {
            order = record (moved.order) { picked_up_at = some now; rider_pin_hash = none };
          }))
        else saved (unlogged (record o { handoff_attempts = o.handoff_attempts + 1 }))
            (Error.validation "Incorrect rider PIN")

  abbrev pub shown_code : Option String → Option String
  shown_code none = none
  shown_code (some c) = if str_eq c "" then none else some (decrypt_secret c)

  -- The code that `get_order_detail` and the rider's `job_detail` show: only while READY.
  unfoldable pub handoff_code : Order → Option String
  handoff_code o =
      if same_status o.status OrderStatus.ready then shown_code o.rider_pin_cipher else none
