-- ===== src/Orders/Vendor.antt =====
-- The vendor's moves of app/services/vendor/orders.py, on the row that `_get_order` loaded.
use cheering_shop_backend.Prelude.{
  ℕ, not, Option, none, some, String, [], ◌∷◌, if◌then◌else◌, Bool, text_or,
}
use cheering_shop_backend.Result.{Result, ok, err, Error, ◌>>=◌, ◌>>◌, raise_if}
use cheering_shop_backend.Enums.{
  OrderStatus, PaymentStatus, ActorType, one_of, order_transitions, is_paid,
}
use cheering_shop_backend.Orders.{Order, Change, history_row}

abbrev pub vendor_cancellable : OrderStatus → Bool
vendor_cancellable s = one_of s (OrderStatus.pending ∷ OrderStatus.preparing ∷ [])

-- `_transition`: refuse what ORDER_TRANSITIONS does not list, else move the order and log it.
unfoldable pub transition : Order → OrderStatus → ℕ → Option String → ℕ → Result Change Change
transition o to_status actor_id note now =
    if one_of to_status (order_transitions o.status)
    then ok (record {
      order = record o { status = to_status; updated_at = now };
      history = history_row o to_status ActorType.vendor (some actor_id) note ∷ [];
    })
    else err (Error.conflict "An order that is .. cannot become ..")

unfoldable pub accept_order : Order → ℕ → ℕ → Result Change Change
unfolding transition
accept_order o actor_id now = do
  moved ← transition o OrderStatus.preparing actor_id none now
  ok (record moved {
    order = record (moved.order) { accepted_at = some now; auto_decline_at = none };
  })

-- The refund of a rejection, for money that was taken.
abbrev pub refund_if_paid : Order → Option ℕ → String → ℕ → Order
refund_if_paid o actor_id reason now =
    if is_paid o.payment_status
    then record o {
      payment_status = PaymentStatus.refunded;
      refunded_at = some now;
      refunded_by = actor_id;
      refund_reason = some reason;
    }
    else o

unfoldable pub reject_order : Order → ℕ → Option String → ℕ → Result Change Change
unfolding transition
reject_order o actor_id reason now = do
  raise_if (not (vendor_cancellable o.status))
      (Error.conflict "An order that is .. can no longer be rejected")
  moved ← transition o OrderStatus.cancelled actor_id reason now
  let cancelled = record (moved.order) {
    cancelled_at = some now;
    cancelled_by = some ActorType.vendor;
    cancellation_reason = reason;
    auto_decline_at = none;
  }
  ok (record moved {
    order =
        refund_if_paid cancelled (some actor_id) (text_or reason "Rejected by the restaurant") now;
  })
