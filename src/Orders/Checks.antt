-- ===== src/Orders/Checks.antt =====
-- The CHECK constraints of the orders table (app/models/order.py, `__table_args__`).
use cheering_shop_backend.Prelude.{
  ◌+◌, ◌≤◌, ◌≡◌, Bool, true, false, not, ◌||◌, Option, none, some, [], ◌∷◌, is_none,
}
use cheering_shop_backend.Enums.{UserRole, OrderStatus, PaymentStatus, same_status, one_of}
use cheering_shop_backend.Orders.{DeliveryType, Bill, Order}

-- The constraints on the money columns; ck_orders_money_nonneg is in their type.
pub record IsPriced (b : Bill) : Type 0 where
  -- ck_orders_total_math
  pub total_math :
      b.grand_total + b.discount
      ≡ b.item_total + b.delivery_fee + b.priority_fee + b.packaging_fee + b.tax_amount
        + b.platform_fee + b.tip
  -- ck_orders_priority_fee
  pub priority_fee_only : b.delivery_type ≡ DeliveryType.standard → b.priority_fee ≡ 0
  -- ck_orders_commission
  pub commission_le : b.commission_amount ≤ b.item_total

abbrev pub rider_only : Option UserRole → Bool
rider_only none = true
rider_only (some UserRole.rider) = true
rider_only (some _) = false

abbrev pub is_refunded : PaymentStatus → Bool
is_refunded PaymentStatus.refunded = true
is_refunded _ = false

-- The constraints on the lifecycle columns, as Boolean expressions over the row.
pub record MeetsChecks (o : Order) : Type 0 where
  pub priced : IsPriced o.bill
  -- ck_orders_rider_role
  pub rider_role_only : rider_only o.rider_role ≡ true
  -- ck_orders_rider_pair
  pub rider_pair : is_none o.rider_id ≡ is_none o.rider_role
  -- ck_orders_cancelled
  pub cancelled_stamped : same_status o.status OrderStatus.cancelled ≡ not (is_none o.cancelled_at)
  -- ck_orders_delivered
  pub delivered_stamped :
      (not (same_status o.status OrderStatus.delivered) || not (is_none o.delivered_at)) ≡ true
  -- ck_orders_refund_status
  pub refund_status : (is_none o.refunded_at || is_refunded o.payment_status) ≡ true
  -- ck_orders_rider_required
  pub rider_required :
      (not (one_of o.status (OrderStatus.picked_up ∷ OrderStatus.delivered ∷ []))
        || not (is_none o.rider_id))
      ≡ true
