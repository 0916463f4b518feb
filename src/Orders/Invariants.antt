-- ===== src/Orders/Invariants.antt =====
-- What holds of an order's row between two calls, beyond the CHECK constraints.
use cheering_shop_backend.Prelude.{◌≤◌, ◌≡◌, true, not, ◌||◌, none, [], ◌∷◌, is_none}
use cheering_shop_backend.Enums.{OrderStatus, PaymentStatus, one_of, same_status, is_paid}
use cheering_shop_backend.Orders.{Order}
use cheering_shop_backend.Orders.Checks.{MeetsChecks, IsPriced, is_refunded}
use cheering_shop_backend.Orders.Handoff.{handoff_max_attempts}

-- Money is taken at the door, so only a delivered order has any to keep or to give back.
pub record IsSettled (o : Order) : Type 0 where
  pub checks : MeetsChecks o
  pub collected :
      (not (is_paid o.payment_status || is_refunded o.payment_status)
        || same_status o.status OrderStatus.delivered)
      ≡ true

-- The PIN is issued at READY and dies with the handoff, and its guesses are counted.
pub record IsGuarded (o : Order) : Type 0 where
  pub pin_at_ready :
      (is_none o.rider_pin_hash || one_of o.status (OrderStatus.ready ∷ OrderStatus.cancelled ∷ []))
      ≡ true
  pub no_early_code :
      (not (one_of o.status (OrderStatus.pending ∷ OrderStatus.preparing ∷ []))
        || is_none o.rider_pin_cipher)
      ≡ true
  pub guesses_capped : o.handoff_attempts ≤ handoff_max_attempts

-- Every stage that an order has passed left its stamp, and the countdown stops at the first.
pub record IsStamped (o : Order) : Type 0 where
  pub accepted_stamped :
      (one_of o.status (OrderStatus.pending ∷ OrderStatus.cancelled ∷ [])
        || not (is_none o.accepted_at))
      ≡ true
  pub ready_stamped :
      (not
          (one_of o.status (OrderStatus.ready ∷ OrderStatus.picked_up ∷ OrderStatus.delivered ∷ []))
        || not (is_none o.ready_at))
      ≡ true
  pub picked_up_stamped :
      (not (one_of o.status (OrderStatus.picked_up ∷ OrderStatus.delivered ∷ []))
        || not (is_none o.picked_up_at))
      ≡ true
  pub countdown_stopped :
      (is_none o.auto_decline_at
        || one_of o.status (OrderStatus.pending ∷ OrderStatus.cancelled ∷ []))
      ≡ true

pub record IsSound (o : Order) : Type 0 where
  pub settled : IsSettled o
  pub guarded : IsGuarded o
  pub stamped : IsStamped o

-- A row as `place_order` inserts it: everything but these columns is free.
pub record IsFresh (o : Order) : Type 0 where
  pub priced : IsPriced o.bill
  pub is_pending : o.status ≡ OrderStatus.pending
  pub is_unpaid : o.payment_status ≡ PaymentStatus.unpaid
  pub no_rider : (o.rider_id ≡ none) × (o.rider_role ≡ none)
  pub no_pin : (o.rider_pin_hash ≡ none) × (o.rider_pin_cipher ≡ none) × (o.handoff_attempts ≡ 0)
  pub no_end : (o.cancelled_at ≡ none) × (o.delivered_at ≡ none) × (o.refunded_at ≡ none)
