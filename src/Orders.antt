-- ===== src/Orders.antt =====
-- app/models/order.py: the order row, its bill, and the status history. Ids and instants are
-- numbers (an instant is in seconds), optional columns are options.
pub mod Checks
pub mod Vendor
pub mod Handoff
pub mod Moves
pub mod Invariants
pub mod Lifecycle
use cheering_shop_backend.Prelude.{ℕ, Option, none, some, String, Bool, List, [], ◌∷◌}
use cheering_shop_backend.Enums.{UserRole, OrderStatus, PaymentMethod, PaymentStatus, ActorType}

-- The delivery choices of app/services/pricing.py.
pub data DeliveryType : Type 0 where
  standard priority : DeliveryType

-- The money columns, in paisa. They are written when the order is placed.
pub record Bill : Type 0 where
  pub item_total : ℕ
  pub delivery_fee : ℕ
  pub priority_fee : ℕ
  pub packaging_fee : ℕ
  pub tax_amount : ℕ
  pub platform_fee : ℕ
  pub tip : ℕ
  pub discount : ℕ
  pub grand_total : ℕ
  pub commission_amount : ℕ
  pub delivery_type : DeliveryType

-- What the order snapshots of the customer's request and address.
pub record Placement : Type 0 where
  pub payment_method : PaymentMethod
  pub promo_code_id : Option ℕ
  pub delivery_address_id : Option ℕ
  pub delivery_address_text : String
  pub delivery_contact_phone : Option String
  pub special_instructions : Option String
  pub placed_at : ℕ
  pub scheduled_for : Option ℕ
  pub estimated_delivery_at : Option ℕ

pub record Order : Type 0 where
  pub id : ℕ
  pub customer_id : ℕ
  pub restaurant_id : ℕ
  pub bill : Bill
  pub placement : Placement
  pub status : OrderStatus
  pub payment_status : PaymentStatus
  pub rider_id : Option ℕ
  pub rider_role : Option UserRole
  pub rider_pin_hash : Option String
  pub rider_pin_cipher : Option String
  pub rider_pin_issued_at : Option ℕ
  pub handoff_attempts : ℕ
  pub auto_decline_at : Option ℕ
  pub accepted_at : Option ℕ
  pub ready_at : Option ℕ
  pub picked_up_at : Option ℕ
  pub delivered_at : Option ℕ
  pub cancelled_at : Option ℕ
  pub cancelled_by : Option ActorType
  pub cancellation_reason : Option String
  pub refunded_at : Option ℕ
  pub refunded_by : Option ℕ
  pub refund_reason : Option String
  pub updated_at : ℕ

-- OrderStatusHistory
pub record StatusHistory : Type 0 where
  pub order_id : ℕ
  pub from_status : Option OrderStatus
  pub to_status : OrderStatus
  pub actor : ActorType
  pub actor_id : Option ℕ
  pub note : Option String

-- What an operation on one order leaves behind: the row, and the history rows that it added.
pub record Change : Type 0 where
  pub order : Order
  pub history : List StatusHistory

abbrev pub unlogged : Order → Change
unlogged o = record { order = o; history = [] }

abbrev pub history_row : Order → OrderStatus → ActorType → Option ℕ → Option String → StatusHistory
history_row o to actor actor_id note = record {
  order_id = o.id;
  from_status = some o.status;
  to_status = to;
  actor = actor;
  actor_id = actor_id;
  note = note;
}
