-- ===== src/Checkout/Place.antt =====
-- `_prepare`, `checkout_summary` and `place_order` of app/services/customer/orders.py.
pub mod Placed
pub mod Charged
pub mod Budget
use cheering_shop_backend.Prelude.{
  ℕ, ◌+◌, ◌*◌, ◌-◌, max, Bool, Option, none, some, String, List, [], ◌∷◌, ◌++◌, ◌&&◌, not, ◌==◌,
  ltb, if◌then◌else◌, find?, any_of, sum_of, is_none, map,
}
use cheering_shop_backend.Result.{Result, ok, err, Error, ◌>>=◌, ◌>>◌, raise_if, or_raise}
use cheering_shop_backend.Money.{to_minor}
use cheering_shop_backend.Enums.{OrderStatus, ActorType, is_open}
use cheering_shop_backend.Orders.{DeliveryType, Bill, Placement, Order, StatusHistory}
use cheering_shop_backend.Pricing.{Distance, Config, QuoteLine, line_total, is_priority, quote}
use cheering_shop_backend.Promos.{PromoCode, validate}
use cheering_shop_backend.Cart.{Cart}
use cheering_shop_backend.Cart.Price.{quote_lines_for}
use cheering_shop_backend.Cart.Edit.Calls.{clear}
use cheering_shop_backend.Checkout.{
  priority_minutes_saved, eta_window_minutes, auto_decline_seconds, Restaurant, Address,
  OrderCreateRequest, OrderItem, Shop, ShopResult, Prepared, load_address, filled_cart,
  validate_schedule, new_order, promo_id, redeem, get_time, DeliveryOption, CheckoutSummary,
  has_error,
}

-- The distance between a restaurant and an address with what is read off it, the comparison of
-- promo codes, and the local wall-clock time of an instant.
pub record World : Type 1 where
  pub Km : Type 0
  pub measure : Distance Km
  pub haversine_km : Restaurant → Address → Km
  pub same_code : String → String → Bool
  pub local : ℕ → ℕ

-- `_eta_minutes`
unfoldable pub eta_minutes : (w : World) → Restaurant → w.Km → DeliveryType → ℕ
eta_minutes w restaurant distance_km kind =
    let standard = restaurant.avg_prep_time_mins + max 5 (w.measure.ride_minutes distance_km) in
    if is_priority kind
    then max restaurant.avg_prep_time_mins (standard - priority_minutes_saved)
    else standard

module _ (w : World) (config : Config) (now : ℕ) (shop : Shop) where
  unfoldable pub bill_of :
      Cart → Restaurant → Address → List QuoteLine → OrderCreateRequest → ShopResult (Prepared w.Km)
  unfolding quote validate
  bill_of cart restaurant address lines body =
      let distance_km = w.haversine_km restaurant address in
      let item_total = sum_of line_total lines in
      let promo =
        validate w.same_code shop.promos shop.redemptions body.promo_code now shop.user_id
          restaurant.id item_total in
      do
        raise_if (w.measure.out_of_reach distance_km)
            (Error.validation "The restaurant does not deliver that far")
        ok (record {
          cart = cart;
          restaurant = restaurant;
          address = address;
          lines = lines;
          distance_km = distance_km;
          bill =
              quote config lines (w.measure.metres distance_km) restaurant.commission_rate
                promo.discount (to_minor body.tip) shop.fees body.delivery_type;
          promo = promo;
        })

  -- `_prepare` for a cart that has lines
  unfoldable pub for_cart : OrderCreateRequest → Cart → ShopResult (Prepared w.Km)
  unfolding bill_of quote_lines_for
  for_cart body cart = do
    restaurant ←
        or_raise (find? (λ r. r.id == cart.restaurant_id) shop.restaurants)
          (Error.not_found "Restaurant not found")
    address ← load_address shop body.address_id
    bill_of cart restaurant address (quote_lines_for shop.menu shop.cart) body

  unfoldable pub prepare : OrderCreateRequest → ShopResult (Prepared w.Km)
  unfolding for_cart
  prepare body = do
    cart ← filled_cart shop.cart (quote_lines_for shop.menu shop.cart)
    for_cart body cart

  abbrev pub delivery_option : Prepared w.Km → DeliveryType → ℕ → Bool → DeliveryOption
  delivery_option p kind extra selected =
      let eta = eta_minutes w p.restaurant p.distance_km kind in
      record {
        delivery_type = kind;
        extra_fee = extra;
        eta_min_minutes = eta;
        eta_max_minutes = eta + eta_window_minutes;
        is_selected = selected;
      }

  abbrev pub summary : OrderCreateRequest → Prepared w.Km → CheckoutSummary
  summary body p = record {
    bill = p.bill;
    estimated_delivery_minutes = eta_minutes w p.restaurant p.distance_km body.delivery_type;
    delivery_options =
        delivery_option p DeliveryType.standard 0 (not (is_priority p.bill.delivery_type))
        ∷ delivery_option p DeliveryType.priority shop.fees.priority
            (is_priority p.bill.delivery_type)
        ∷ [];
    promo_error = p.promo.error;
  }

  -- The call's address, code, tip and delivery type are fields of the request here.
  unfoldable pub checkout_summary : OrderCreateRequest → ShopResult CheckoutSummary
  unfolding prepare eta_minutes
  checkout_summary body = do p ← prepare body; ok (summary body p)

  abbrev pub placement_of : Prepared w.Km → OrderCreateRequest → Option ℕ → Placement
  placement_of p body scheduled_for = record {
    payment_method = body.payment_method;
    promo_code_id = promo_id p.promo.promo;
    delivery_address_id = some p.address.id;
    delivery_address_text = p.address.text;
    delivery_contact_phone = p.address.contact_phone;
    special_instructions = body.special_instructions;
    placed_at = now;
    scheduled_for = scheduled_for;
    estimated_delivery_at = some (
        get_time scheduled_for now
        + 60 * eta_minutes w p.restaurant p.distance_km p.bill.delivery_type);
  }

  -- A scheduled order is not on the clock yet.
  abbrev pub countdown : Option ℕ → Option ℕ
  countdown none = some (now + auto_decline_seconds)
  countdown (some at) = none

  -- The guards of `place_order` after the schedule is known, from the closed store on.
  unfoldable pub still_sold : Prepared w.Km → Option ℕ → ShopResult (Prepared w.Km × Option ℕ)
  still_sold p scheduled_for = do
    raise_if (is_none scheduled_for && not (is_open p.restaurant.status))
        (Error.conflict "The restaurant is closed right now")
    raise_if (any_of (λ l. l.quantity == 0) p.lines)
        (Error.conflict "Some items are no longer available")
    raise_if (ltb p.bill.item_total p.restaurant.min_order_amount)
        (Error.validation "Minimum order is .. taka")
    ok (p, scheduled_for)

  -- The guards between `_prepare` and those.
  unfoldable pub agreed : OrderCreateRequest → Prepared w.Km → ShopResult (Prepared w.Km × Option ℕ)
  unfolding still_sold validate_schedule
  agreed body p = do
    raise_if (has_error body.promo_code p.promo) (Error.validation "The promo code's error")
    scheduled_for ← validate_schedule body.scheduled_for p.restaurant w.local now
    still_sold p scheduled_for

  unfoldable pub admitted : OrderCreateRequest → ShopResult (Prepared w.Km × Option ℕ)
  unfolding prepare agreed
  admitted body = do
    raise_if (is_priority body.delivery_type && not (is_none body.scheduled_for))
        (Error.validation "Priority delivery is for orders sent now")
    p ← prepare body
    agreed body p

  abbrev pub placed : ℕ → OrderCreateRequest → Prepared w.Km → Option ℕ → Order
  placed id body p scheduled_for =
      new_order id shop.user_id p.restaurant.id p.bill (placement_of p body scheduled_for)
        (countdown scheduled_for) now

  abbrev pub placed_row : ℕ → StatusHistory
  placed_row id = record {
    order_id = id;
    from_status = none;
    to_status = OrderStatus.pending;
    actor = ActorType.customer;
    actor_id = some shop.user_id;
    note = some "Order placed";
  }

  abbrev pub item_row : ℕ → QuoteLine → OrderItem
  item_row id line = record {
    order_id = id;
    menu_item_id = line.menu_item_id;
    item_name = line.name;
    unit_price = line.unit_price;
    add_ons_total = line.add_ons_total;
    quantity = line.quantity;
    line_total = line_total line;
    notes = line.notes;
    add_ons = line.add_ons;
  }

  -- The order, its lines, its first history row, and the emptied cart.
  abbrev pub inserted : ℕ → OrderCreateRequest → Prepared w.Km → Option ℕ → Shop
  inserted id body p scheduled_for = record shop {
    orders = placed id body p scheduled_for ∷ shop.orders;
    history = placed_row id ∷ shop.history;
    order_items = map (item_row id) p.lines ++ shop.order_items;
    cart = clear shop.cart;
  }

  -- The rows after the call; `id` is the new order's.
  unfoldable pub place_order : ℕ → OrderCreateRequest → ShopResult Shop
  unfolding admitted line_total
  place_order id body = do
    found ← admitted body
    ok (redeem found.0.promo.promo id found.0.bill.discount (inserted id body found.0 found.1))
