-- ===== src/Tests.antt =====
-- Concrete rows for the examples below, which run the development's theorems on them.
mod Lifecycle
mod Memory
mod Accounts
mod Vendor
mod Money
mod Basket
use cheering_shop_backend.Prelude.{ℕ, ◌≡◌, refl, none, some, String, List, [], ◌∷◌, arith, true}
use cheering_shop_backend.Enums.{
  UserRole, OrderStatus, PaymentMethod, PaymentStatus, PayoutStatus, PayoutMethod, DiscountType,
}
use cheering_shop_backend.Orders.{DeliveryType, Bill, Placement, Order}
use cheering_shop_backend.Orders.Checks.{IsPriced}
use cheering_shop_backend.Orders.Handoff.{Crypto}
use cheering_shop_backend.Orders.Invariants.{IsFresh}
use cheering_shop_backend.Pricing.{Config, DeliveryFees, QuoteLine}
use cheering_shop_backend.Promos.{PromoCode}
use cheering_shop_backend.Payouts.{Payout, PayoutCreateRequest}
use cheering_shop_backend.Store.{Tables, RiderProfile, User}

abbrev pub crypto : Crypto
crypto = record { hmac = λ id pin. pin; encrypt_secret = λ s. s; decrypt_secret = λ s. s }

abbrev pub bill : Bill
bill = record {
  item_total = 1000;
  delivery_fee = 100;
  priority_fee = 0;
  packaging_fee = 0;
  tax_amount = 0;
  platform_fee = 20;
  tip = 30;
  discount = 50;
  grand_total = 1100;
  commission_amount = 200;
  delivery_type = DeliveryType.standard;
}

abbrev pub placement : Placement
placement = record {
  payment_method = PaymentMethod.cod;
  promo_code_id = none;
  delivery_address_id = some 4;
  delivery_address_text = "Road 1";
  delivery_contact_phone = none;
  special_instructions = none;
  placed_at = 0;
  scheduled_for = none;
  estimated_delivery_at = none;
}

abbrev pub pending : Order
pending = record {
  id = 1;
  customer_id = 10;
  restaurant_id = 20;
  bill = bill;
  placement = placement;
  status = OrderStatus.pending;
  payment_status = PaymentStatus.unpaid;
  rider_id = none;
  rider_role = none;
  rider_pin_hash = none;
  rider_pin_cipher = none;
  rider_pin_issued_at = none;
  handoff_attempts = 0;
  auto_decline_at = some 900;
  accepted_at = none;
  ready_at = none;
  picked_up_at = none;
  delivered_at = none;
  cancelled_at = none;
  cancelled_by = none;
  cancellation_reason = none;
  refunded_at = none;
  refunded_by = none;
  refund_reason = none;
  updated_at = 0;
}

abbrev pub preparing : Order
preparing = record pending {
  status = OrderStatus.preparing;
  accepted_at = some 10;
  auto_decline_at = none;
}

-- READY with a rider and a PIN
abbrev pub waiting : Order
waiting = record preparing {
  status = OrderStatus.ready;
  ready_at = some 20;
  rider_id = some 30;
  rider_role = some UserRole.rider;
  rider_pin_hash = some "1234";
  rider_pin_cipher = some "1234";
}

abbrev pub delivered : Order
delivered = record waiting {
  status = OrderStatus.delivered;
  rider_pin_hash = none;
  picked_up_at = some 30;
  delivered_at = some 40;
}

abbrev pub tables : Tables
tables = record {
  orders = preparing ∷ [];
  history = [];
  profiles =
      record { user_id = 30; is_online = true; is_verified = true; total_deliveries = 0 } ∷ [];
  users = record { id = 30; role = UserRole.rider; is_active = true; created_at = 0 } ∷ [];
}

pub pending-IsFresh : IsFresh pending
pending-IsFresh = record {
  priced = record { total_math = refl; priority_fee_only = λ _. refl; commission_le = omega arith };
  is_pending = refl;
  is_unpaid = refl;
  no_rider = (refl, refl);
  no_pin = (refl, refl, refl);
  no_end = (refl, refl, refl);
}

abbrev pub config : Config
config = record {
  delivery_fee_base = record { coefficient = 30; places = 0 };
  delivery_fee_per_km = record { coefficient = 10; places = 0 };
  priority_delivery_fee = record { coefficient = 20; places = 0 };
  free_delivery_threshold = 500;
  platform_fee_basis_points = 100;
}

abbrev pub fees : DeliveryFees
fees = record { base = 3000; per_km = 1000; minimum = 0; surcharge = 0; priority = 2000 }

abbrev pub dish_line : QuoteLine
dish_line = record {
  menu_item_id = 7;
  name = "Kacchi";
  quantity = 2;
  unit_price = 20_000;
  add_ons_total = 500;
  add_ons = [];
  notes = none;
  commission_rate = none;
}

abbrev pub promo : PromoCode
promo = record {
  id = 3;
  code = "EID";
  restaurant_id = none;
  discount_type = DiscountType.percentage;
  discount_value = 1000;
  min_order_amount = 10_000;
  max_discount = none;
  budget_cap = some 90_000;
  applies_to_item_ids = none;
  usage_limit = some 100;
  per_user_limit = 1;
  times_used = 0;
  is_active = true;
  valid_from = 0;
  valid_until = 4000;
}

abbrev pub payout : Payout
payout = record {
  id = 9;
  owner = 20;
  reference = 100;
  amount = 50_000;
  method = PayoutMethod.bkash;
  account_number = "01700000000";
  account_name = "Shop";
  bank_name = none;
  branch_name = none;
  status = PayoutStatus.processing;
  failure_reason = none;
  processed_by = none;
  processed_at = none;
  reopened_at = none;
  reopened_by = none;
  reopen_reason = none;
}
