-- ===== src/Pricing.antt =====
-- app/services/pricing.py: the delivery fee and the bill. A distance is a float that is computed
-- by trigonometry, so its type and the three things that the program reads off it are a parameter.
pub mod Fee
pub mod Quoted
use cheering_shop_backend.Prelude.{
  ℕ, ◌+◌, ◌-◌, ◌*◌, ◌/◌, ◌≤◌, min, max, Bool, true, false, Option, none, some, List, [], ◌∷◌,
  String, ◌&&◌, not, ◌==◌, ltb, leb, if◌then◌else◌, sum_of,
}
use cheering_shop_backend.Money.{percentage_of, Decimal, to_minor}
use cheering_shop_backend.Commission.{basis_points}
use cheering_shop_backend.Orders.{Bill, DeliveryType}

-- What the code does with a distance in kilometres: `max(0, round(km * 1000))`, `round(km * 3)`,
-- and the comparison with MAX_DELIVERY_DISTANCE_KM.
pub record Distance (Km : Type 0) : Type 0 where
  pub metres : Km → ℕ
  pub ride_minutes : Km → ℕ
  pub out_of_reach : Km → Bool

-- The values of app/core/config.py that pricing reads, in the units of the file.
pub record Config : Type 0 where
  pub delivery_fee_base : Decimal
  pub delivery_fee_per_km : Decimal
  pub priority_delivery_fee : Decimal
  pub free_delivery_threshold : ℕ
  pub platform_fee_basis_points : ℕ

pub record QuoteAddOn : Type 0 where
  pub add_on_id : ℕ
  pub name : String
  pub price : ℕ
  pub quantity : ℕ

pub record QuoteLine : Type 0 where
  pub menu_item_id : ℕ
  pub name : String
  pub quantity : ℕ
  pub unit_price : ℕ
  pub add_ons_total : ℕ
  pub add_ons : List QuoteAddOn
  pub notes : Option String
  pub commission_rate : Option ℕ

unfoldable pub line_total : QuoteLine → ℕ
line_total l = (l.unit_price + l.add_ons_total) * l.quantity

pub record DeliveryFees : Type 0 where
  pub base : ℕ
  pub per_km : ℕ
  pub minimum : ℕ
  pub surcharge : ℕ
  pub priority : ℕ

-- `DeliveryFees.from_config`
unfoldable pub from_config : Config → DeliveryFees
from_config c = record {
  base = to_minor c.delivery_fee_base;
  per_km = to_minor c.delivery_fee_per_km;
  minimum = 0;
  surcharge = 0;
  priority = to_minor c.priority_delivery_fee;
}

-- `threshold and item_total >= to_minor(threshold)`; the threshold is in whole taka.
unfoldable pub is_waived : ℕ → ℕ → Bool
is_waived threshold item_total =
    not (threshold == 0)
    && leb (to_minor (record { coefficient = threshold; places = 0 })) item_total

unfoldable pub distance_fee : ℕ → DeliveryFees → ℕ
distance_fee metres fees = fees.base + (fees.per_km * metres + 500) / 1000

unfoldable pub delivery_fee_minor : ℕ → ℕ → ℕ → DeliveryFees → ℕ
unfolding is_waived distance_fee
delivery_fee_minor threshold metres item_total fees =
    if is_waived threshold item_total
    then 0
    else max (distance_fee metres fees) fees.minimum + fees.surcharge

-- `delivery_reach_km`: no distance, every distance, or `numerator / per_km` kilometres.
pub data Reach : Type 0 where
  nowhere everywhere : Reach
  up_to : (numerator per_km : ℕ) → Reach

unfoldable pub delivery_reach_km : ℕ → DeliveryFees → Reach
delivery_reach_km budget fees =
    if ltb budget (fees.surcharge + max fees.base fees.minimum)
    then Reach.nowhere
    else if fees.per_km == 0
    then Reach.everywhere
    else Reach.up_to (budget - fees.surcharge - fees.base) fees.per_km

abbrev pub is_priority : DeliveryType → Bool
is_priority DeliveryType.priority = true
is_priority DeliveryType.standard = false

abbrev pub line_commission : ℕ → QuoteLine → ℕ
line_commission rate l = percentage_of (line_total l) (basis_points l.commission_rate rate)

-- `quote`, at a distance of so many metres. The delivery type is an enum here, so the ValueError
-- for an unknown one cannot arise; packaging and tax are the columns' 0.
unfoldable pub quote : Config → List QuoteLine → ℕ → ℕ → ℕ → ℕ → DeliveryFees → DeliveryType → Bill
unfolding delivery_fee_minor
quote config lines metres commission_rate discount tip delivery delivery_type =
    let item_total = sum_of line_total lines in
    let delivery_fee =
      delivery_fee_minor config.free_delivery_threshold metres item_total delivery in
    let priority_fee = if is_priority delivery_type then delivery.priority else 0 in
    let platform = percentage_of item_total config.platform_fee_basis_points in
    let subtotal = item_total + delivery_fee + priority_fee + platform + tip in
    let off = max 0 (min discount subtotal) in
    record {
      item_total = item_total;
      delivery_fee = delivery_fee;
      priority_fee = priority_fee;
      packaging_fee = 0;
      tax_amount = 0;
      platform_fee = platform;
      tip = tip;
      discount = off;
      grand_total = subtotal - off;
      commission_amount = sum_of (line_commission commission_rate) lines;
      delivery_type = delivery_type;
    }
