-- ===== src/Checkout.antt =====
-- app/services/customer/orders.py: the bill before it is agreed to, and the placement of an order.
-- The parameters are what the program reads from outside its own code: distances, which are floats
-- of a trigonometric formula, and the comparison of promo codes in the database.
pub mod Place
use cheering_shop_backend.Prelude.{
  ℕ, ◌+◌, ◌*◌, ◌-◌, max, Bool, true, false, Option, none, some, String, List, [], ◌∷◌, ◌++◌, ◌&&◌,
  not, ◌==◌, ltb, if◌then◌else◌, find?, update_where, any_of, sum_of, is_none, is_just,
}
use cheering_shop_backend.Prelude.Text.{is_empty}
use cheering_shop_backend.Result.{Result, ok, err, Error, ◌>>=◌, ◌>>◌, raise_if, or_raise}
use cheering_shop_backend.Money.{Decimal, to_minor}
use cheering_shop_backend.Enums.{
  OrderStatus, PaymentMethod, PaymentStatus, ActorType, RestaurantStatus, is_open,
}
use cheering_shop_backend.Orders.{DeliveryType, Bill, Placement, Order, StatusHistory}
use cheering_shop_backend.Pricing.{
  Distance, Config, DeliveryFees, QuoteLine, QuoteAddOn, line_total, is_priority, quote,
}
use cheering_shop_backend.Promos.{PromoCode, PromoRedemption, PromoResult, validate}
use cheering_shop_backend.Cart.{Cart}
use cheering_shop_backend.Cart.Price.{Menu, quote_lines_for}
use cheering_shop_backend.Cart.Edit.Calls.{clear}
use cheering_shop_backend.BusinessHours.{Hours, is_open_at}

abbrev pub priority_minutes_saved : ℕ
priority_minutes_saved = 10

abbrev pub eta_window_minutes : ℕ
eta_window_minutes = 10

abbrev pub schedule_min_lead_seconds : ℕ
schedule_min_lead_seconds = 1_800

abbrev pub schedule_max_ahead_seconds : ℕ
schedule_max_ahead_seconds = 345_600

abbrev pub auto_decline_seconds : ℕ
auto_decline_seconds = 900

pub record Restaurant : Type 0 where
  pub id : ℕ
  pub name : String
  pub status : RestaurantStatus
  pub min_order_amount : ℕ
  pub avg_prep_time_mins : ℕ
  pub commission_rate : ℕ
  -- `none` where no hours are saved
  pub business_hours : Option Hours

pub record Address : Type 0 where
  pub id : ℕ
  pub user_id : ℕ
  pub text : String
  pub contact_phone : Option String

-- OrderCreateRequest; `address_id` is `none` where it is no UUID.
pub record OrderCreateRequest : Type 0 where
  pub payment_method : PaymentMethod
  pub address_id : Option ℕ
  pub promo_code : Option String
  pub tip : Decimal
  pub special_instructions : Option String
  pub scheduled_for : Option ℕ
  pub delivery_type : DeliveryType

-- OrderItem with its OrderItemAddOn rows
pub record OrderItem : Type 0 where
  pub order_id : ℕ
  pub menu_item_id : ℕ
  pub item_name : String
  pub unit_price : ℕ
  pub add_ons_total : ℕ
  pub quantity : ℕ
  pub line_total : ℕ
  pub notes : Option String
  pub add_ons : List QuoteAddOn

-- The rows that placement reads and writes, seen by one customer.
pub record Shop : Type 0 where
  pub user_id : ℕ
  pub menu : Menu
  pub cart : Option Cart
  pub restaurants : List Restaurant
  pub addresses : List Address
  pub promos : List PromoCode
  pub redemptions : List PromoRedemption
  pub fees : DeliveryFees
  pub orders : List Order
  pub history : List StatusHistory
  pub order_items : List OrderItem

abbrev pub ShopResult : Type 0 → Type 0
ShopResult A = Result Shop A

-- What `_prepare` returns, with the distance that it measured.
pub record Prepared (Km : Type 0) : Type 0 where
  pub cart : Cart
  pub restaurant : Restaurant
  pub address : Address
  pub lines : List QuoteLine
  pub distance_km : Km
  pub bill : Bill
  pub promo : PromoResult

-- `_load_address`: an address of someone else is not found.
abbrev pub load_address : Shop → Option ℕ → ShopResult Address
load_address shop address_id = do
  id ← or_raise address_id (Error.validation "address_id is not a valid id")
  or_raise (find? (λ a. a.id == id && a.user_id == shop.user_id) shop.addresses)
      (Error.not_found "Delivery address not found")

-- `if cart is None or not lines: raise ValidationError`
abbrev pub filled_cart : Option Cart → List QuoteLine → ShopResult Cart
filled_cart none lines = err (Error.validation "Your cart is empty")
filled_cart (some cart) [] = err (Error.validation "Your cart is empty")
filled_cart (some cart) (l ∷ ls) = ok cart

-- `_validate_schedule`
abbrev pub closed_then : Option Hours → ℕ → Bool
closed_then none at = false
closed_then (some hours) at = not (is_open_at hours at)

unfoldable pub validate_schedule :
    Option ℕ → Restaurant → (local : ℕ → ℕ) (now : ℕ) → ShopResult (Option ℕ)
unfolding is_open_at
validate_schedule none restaurant local now = ok none
validate_schedule (some at) restaurant local now = do
  raise_if (ltb at (now + schedule_min_lead_seconds))
      (Error.validation "Schedule at least 30 minutes ahead")
  raise_if (ltb (now + schedule_max_ahead_seconds) at)
      (Error.validation "Orders can be scheduled up to 4 days ahead")
  raise_if (closed_then restaurant.business_hours (local at))
      (Error.validation "The restaurant is not open at that time")
  ok (some at)

-- The columns that the insert leaves at their defaults are empty.
abbrev pub new_order : (id customer restaurant : ℕ) → Bill → Placement → Option ℕ → ℕ → Order
new_order id customer restaurant bill placement auto_decline_at now = record {
  id = id;
  customer_id = customer;
  restaurant_id = restaurant;
  bill = bill;
  placement = placement;
  status = OrderStatus.pending;
  payment_status = PaymentStatus.unpaid;
  rider_id = none;
  rider_role = none;
  rider_pin_hash = none;
  rider_pin_cipher = none;
  rider_pin_issued_at = none;
  handoff_attempts = 0;
  auto_decline_at = auto_decline_at;
  accepted_at = none;
  ready_at = none;
  picked_up_at = none;
  delivered_at = none;
  cancelled_at = none;
  cancelled_by = none;
  cancellation_reason = none;
  refunded_at = none;
  refunded_by = none;
  refund_reason = none;
  updated_at = now;
}

abbrev pub promo_id : Option PromoCode → Option ℕ
promo_id none = none
promo_id (some p) = some p.id

abbrev pub redemption : Shop → PromoCode → ℕ → ℕ → PromoRedemption
redemption shop p order discount = record {
  promo_code_id = p.id;
  user_id = shop.user_id;
  order_id = order;
  discount_applied = discount;
}

-- The redemption row and `times_used += 1`.
abbrev pub redeem : Option PromoCode → ℕ → ℕ → Shop → Shop
redeem none order discount shop = shop
redeem (some p) order discount shop = record shop {
  promos =
      update_where (λ q. q.id == p.id) (λ q. record q { times_used = q.times_used + 1 })
        shop.promos;
  redemptions = redemption shop p order discount ∷ shop.redemptions;
}

abbrev pub get_time : Option ℕ → ℕ → ℕ
get_time none now = now
get_time (some at) now = at

-- One of the two rows of the Delivery tab.
pub record DeliveryOption : Type 0 where
  pub delivery_type : DeliveryType
  pub extra_fee : ℕ
  pub eta_min_minutes : ℕ
  pub eta_max_minutes : ℕ
  pub is_selected : Bool

pub record CheckoutSummary : Type 0 where
  pub bill : Bill
  pub estimated_delivery_minutes : ℕ
  pub delivery_options : List DeliveryOption
  pub promo_error : Option String

abbrev pub has_error : Option String → PromoResult → Bool
has_error none promo = false
has_error (some code) promo = not (is_empty code) && not (is_none promo.error)
