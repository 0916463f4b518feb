-- ===== src/Orders/Moves.antt =====
-- The moves of an order that are not the vendor's, on the loaded row: the customer's and the
-- operator's cancellation, the refund, the delivery, the sweep, and who carries the order
-- (app/services/customer/orders.py, admin/orders.py, rider/jobs.py, rider/dispatch.py,
-- rider/offers.py and the sweep of vendor/orders.py); and what account_deletion.py erases of it.
use cheering_shop_backend.Prelude.{
  ℕ, not, Option, none, some, String, Bool, false, [], ◌∷◌, ◌&&◌, if◌then◌else◌, leb, is_none,
  text_or,
}
use cheering_shop_backend.Result.{Result, ok, Error, ◌>>◌, raise_if}
use cheering_shop_backend.Enums.{
  UserRole, OrderStatus, PaymentStatus, ActorType, same_status, one_of, order_transitions, is_paid,
  is_cod, cancellable_statuses,
}
use cheering_shop_backend.Orders.{Order, Change, unlogged, history_row}
use cheering_shop_backend.Orders.Vendor.{refund_if_paid}

-- customer/orders.py `cancel_order`: the countdown and the payment are left as they are.
unfoldable pub customer_cancel : Order → ℕ → Option String → ℕ → Result Change Change
customer_cancel o user_id reason now = do
  raise_if (not (one_of o.status cancellable_statuses))
      (Error.conflict "This order can no longer be cancelled")
  ok (record {
    order = record o {
      status = OrderStatus.cancelled;
      cancelled_at = some now;
      cancelled_by = some ActorType.customer;
      cancellation_reason = reason;
      updated_at = now;
    };
    history =
        history_row o OrderStatus.cancelled ActorType.customer (some user_id)
          (some (text_or reason "Cancelled by customer"))
        ∷ [];
  })

-- admin/orders.py `cancel_order`
unfoldable pub admin_cancel : Order → ℕ → String → ℕ → Result Change Change
admin_cancel o admin_id reason now = do
  raise_if (not (one_of OrderStatus.cancelled (order_transitions o.status)))
      (Error.conflict "An order that is .. cannot be cancelled")
  let cancelled = record o {
    status = OrderStatus.cancelled;
    cancelled_at = some now;
    cancelled_by = some ActorType.admin;
    cancellation_reason = some reason;
    auto_decline_at = none;
    updated_at = now;
  }
  ok (record {
    order = refund_if_paid cancelled (some admin_id) reason now;
    history =
        history_row o OrderStatus.cancelled ActorType.admin (some admin_id) (some reason) ∷ [];
  })

-- admin/orders.py `refund_order`
unfoldable pub refund_order : Order → ℕ → String → ℕ → Result Change Change
refund_order o admin_id reason now = do
  raise_if (not (is_paid o.payment_status)) (Error.conflict "Only a paid order can be refunded")
  ok (unlogged (record (refund_if_paid o (some admin_id) reason now) { updated_at = now }))

-- rider/jobs.py `_complete`: the rider has taken the cash of a COD order.
unfoldable pub complete : Order → ActorType → ℕ → ℕ → Result Change Change
complete o actor actor_id now = do
  raise_if (not (same_status o.status OrderStatus.picked_up))
      (Error.conflict "An order that is .. cannot be delivered")
  ok (record {
    order = record o {
      status = OrderStatus.delivered;
      delivered_at = some now;
      updated_at = now;
      payment_status =
          if is_cod (o.placement.payment_method) then PaymentStatus.paid else o.payment_status;
    };
    history = history_row o OrderStatus.delivered actor (some actor_id) none ∷ [];
  })

-- vendor/orders.py `auto_decline_due`: which rows the sweep selects, and what it does to one.
abbrev pub due_by : Option ℕ → ℕ → Bool
due_by none now = false
due_by (some t) now = leb t now

unfoldable pub is_due : ℕ → Order → Bool
is_due now o = same_status o.status OrderStatus.pending && due_by o.auto_decline_at now

abbrev pub auto_decline_reason : String
auto_decline_reason = "Not accepted in time"

unfoldable pub auto_decline : ℕ → Order → Change
auto_decline now o =
    let cancelled = record o {
      status = OrderStatus.cancelled;
      cancelled_at = some now;
      cancelled_by = some ActorType.system;
      cancellation_reason = some auto_decline_reason;
      auto_decline_at = none;
      updated_at = now;
    } in
    record {
      order = refund_if_paid cancelled o.refunded_by auto_decline_reason now;
      history =
          record (history_row o OrderStatus.cancelled ActorType.system none
            (some auto_decline_reason)) { from_status = some OrderStatus.pending }
          ∷ [];
    }

-- rider/dispatch.py ASSIGNABLE and rider/offers.py OFFERABLE
abbrev pub assignable : OrderStatus → Bool
assignable s = one_of s (OrderStatus.pending ∷ OrderStatus.preparing ∷ OrderStatus.ready ∷ [])

abbrev pub offerable : OrderStatus → Bool
offerable s = one_of s (OrderStatus.preparing ∷ OrderStatus.ready ∷ [])

-- rider/dispatch.py `assign_rider`, once the rider is chosen
unfoldable pub assign_rider : Order → ℕ → Result Change Change
assign_rider o rider = do
  raise_if (not (assignable o.status))
      (Error.conflict "An order that is .. cannot be assigned a rider")
  ok (unlogged (record o { rider_id = some rider; rider_role = some UserRole.rider }))

-- rider/offers.py `_open`, and the row that the conditional UPDATE of `accept` writes
unfoldable pub is_offer : Order → Bool
is_offer o = is_none o.rider_id && offerable o.status

unfoldable pub claim : ℕ → ℕ → Order → Order
claim rider now o = record o {
  rider_id = some rider;
  rider_role = some UserRole.rider;
  updated_at = now;
}

-- rider/dispatch.py IN_FLIGHT
abbrev pub in_flight : OrderStatus → Bool
in_flight s =
    one_of s
      (OrderStatus.pending ∷ OrderStatus.preparing ∷ OrderStatus.ready ∷ OrderStatus.picked_up ∷ [])

-- account_deletion.py `delete_account`: the order is kept, how to reach its customer is not.
abbrev pub without_contact : Order → Order
without_contact o = record o {
  placement = record o.placement { delivery_contact_phone = none; special_instructions = none };
}

-- What the deletion of the customer's account asks of one of their orders, and does to it.
unfoldable pub forget_contact : Order → Result Change Change
forget_contact o = do
  raise_if (in_flight o.status) (Error.conflict "You have orders in progress.")
  ok (unlogged (without_contact o))
