-- ===== src/Enums.antt =====
-- app/models/enums.py: the enum types of the order lifecycle and `ORDER_TRANSITIONS`.
pub mod Graph
use cheering_shop_backend.Prelude.{ℕ, ◌==◌, Bool, true, false, List, [], ◌∷◌, any_of}

pub data UserRole : Type 0 where
  customer vendor rider admin : UserRole

pub data OrderStatus : Type 0 where
  pending preparing ready picked_up delivered cancelled : OrderStatus

pub data PaymentMethod : Type 0 where
  cod wallet bkash card : PaymentMethod

pub data PaymentStatus : Type 0 where
  unpaid paid failed refunded : PaymentStatus

pub data ActorType : Type 0 where
  customer vendor rider admin system : ActorType

pub data PayoutStatus : Type 0 where
  processing completed failed : PayoutStatus

pub data PayoutMethod : Type 0 where
  bank bkash nagad rocket : PayoutMethod

pub data RestaurantStatus : Type 0 where
  opened closed : RestaurantStatus

pub data DiscountType : Type 0 where
  percentage fixed free_delivery : DiscountType

-- Equality of two statuses, by their positions in the enum.
abbrev pub position : OrderStatus → ℕ
position OrderStatus.pending = 0
position OrderStatus.preparing = 1
position OrderStatus.ready = 2
position OrderStatus.picked_up = 3
position OrderStatus.delivered = 4
position OrderStatus.cancelled = 5

abbrev pub same_status : OrderStatus → OrderStatus → Bool
same_status s t = position s == position t

-- `s in statuses`
abbrev pub one_of : OrderStatus → List OrderStatus → Bool
one_of s statuses = any_of (same_status s) statuses

-- CANCELLABLE_STATUSES
abbrev pub cancellable_statuses : List OrderStatus
cancellable_statuses = OrderStatus.pending ∷ []

-- ORDER_TRANSITIONS
abbrev pub order_transitions : OrderStatus → List OrderStatus
order_transitions OrderStatus.pending = OrderStatus.preparing ∷ OrderStatus.cancelled ∷ []
order_transitions OrderStatus.preparing = OrderStatus.ready ∷ OrderStatus.cancelled ∷ []
order_transitions OrderStatus.ready = OrderStatus.picked_up ∷ OrderStatus.cancelled ∷ []
order_transitions OrderStatus.picked_up = OrderStatus.delivered ∷ []
order_transitions OrderStatus.delivered = []
order_transitions OrderStatus.cancelled = []

abbrev pub is_paid : PaymentStatus → Bool
is_paid PaymentStatus.paid = true
is_paid _ = false

abbrev pub is_cod : PaymentMethod → Bool
is_cod PaymentMethod.cod = true
is_cod _ = false

abbrev pub is_open : RestaurantStatus → Bool
is_open RestaurantStatus.opened = true
is_open RestaurantStatus.closed = false
