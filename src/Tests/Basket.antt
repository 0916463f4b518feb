-- ===== src/Tests/Basket.antt =====
-- Examples of the theorems on the cart and on checkout.
use cheering_shop_backend.Prelude.{
  ℕ, ◌≡◌, refl, true, false, Option, none, some, List, [], ◌∷◌, ◌++◌, arith, All, sum_of,
}
use cheering_shop_backend.Result.{ok, rows_after}
use cheering_shop_backend.Enums.{PaymentMethod, RestaurantStatus}
use cheering_shop_backend.Orders.{Order, DeliveryType}
use cheering_shop_backend.Orders.Invariants.{IsFresh}
use cheering_shop_backend.Commission.{line_rate}
use cheering_shop_backend.Prelude.Text.{strip}
use cheering_shop_backend.Promos.{judge}
use cheering_shop_backend.Money.{percentage_of}
use cheering_shop_backend.Pricing.Quoted.{HasRate}
use cheering_shop_backend.Cart.{MenuItem, CartItem, Cart}
use cheering_shop_backend.Cart.Price.{quote_lines_for}
use cheering_shop_backend.Cart.Edit.{
  Mode, CartItemRequest, CartLineUpdateRequest, NewRow, change_line,
}
use cheering_shop_backend.Cart.Edit.Calls.{Digest, modify_item, update_line}
use cheering_shop_backend.Cart.Edit.Kept.{IsKept, modify_item-IsKept}
use cheering_shop_backend.Checkout.{OrderCreateRequest, OrderItem, Shop, CheckoutSummary}
use cheering_shop_backend.Checkout.Place.{World, checkout_summary, place_order}
use cheering_shop_backend.Checkout.Place.Charged.{
  place_order_as_quoted, place_order-IsFresh, place_order_itemised, place_order_once,
}
use cheering_shop_backend.Checkout.Place.Budget.{IsWithin, place_order-IsWithin}
use cheering_shop_backend.Tests.{config, fees, promo}

abbrev dish : MenuItem
dish = record {
  id = 7;
  restaurant_id = 20;
  category_id = 2;
  name = "Kacchi";
  base_price = 20_000;
  is_available = true;
  is_hidden = false;
  is_deleted = false;
  commission_rate = none;
  variants = [];
  add_ons = [];
}

abbrev digest : Digest
digest = record { id_text = λ n. "id"; number_text = λ n. "n"; hash = λ s. s }

abbrev line : CartItem
line = record {
  id = 50;
  menu_item_id = 7;
  variant_id = none;
  add_ons = [];
  add_ons_fingerprint = "";
  quantity = 2;
  notes = none;
  created_at = 0;
}

abbrev basket : Cart
basket = record { id = 5; restaurant_id = 20; items = line ∷ [] }

basket-IsKept : IsKept (some basket)
basket-IsKept = (omega arith, ((omega arith, omega arith), tt))

abbrev more : CartItemRequest
more = record {
  menu_item_id = some 7;
  variant_id = none;
  add_on_ids = [];
  add_ons = [];
  quantity = 3;
  mode = Mode.add;
  notes = none;
}

abbrev new_row : NewRow
new_row = record { cart_id = 6; line_id = 51; now = 10 }

abbrev fuller : Option Cart
fuller = some (record basket { items = record line { quantity = 5 } ∷ [] })

added : modify_item digest (dish ∷ []) new_row (some basket) more ≡ ok fuller
unfolding modify_item change_line
added = refl

modify_item-IsKept_example : IsKept fuller
modify_item-IsKept_example =
    modify_item-IsKept digest (dish ∷ []) new_row (some basket) more fuller basket-IsKept
      (omega arith) added

abbrev four : CartLineUpdateRequest
four = record { quantity = 4; notes = none }

abbrev four_left : Option Cart
four_left = some (record basket { items = record line { quantity = 4 } ∷ [] })

changed : update_line (some basket) (some 50) four ≡ ok four_left
unfolding update_line
changed = refl

-- Distances in metres, three minutes a kilometre.
abbrev world : World
world = record {
  Km = ℕ;
  measure = record { metres = λ d. d; ride_minutes = λ d. 9; out_of_reach = λ d. false };
  haversine_km = λ r a. 3000;
  same_code = λ a b. true;
  local = λ t. t;
}

abbrev shop : Shop
shop = record {
  user_id = 10;
  menu = record { items = dish ∷ []; variants = []; add_ons = []; category_rate = λ c. none };
  cart = some basket;
  restaurants =
      record {
        id = 20;
        name = "Star";
        status = RestaurantStatus.opened;
        min_order_amount = 10_000;
        avg_prep_time_mins = 20;
        commission_rate = 1500;
        business_hours = none;
      }
      ∷ [];
  addresses = record { id = 4; user_id = 10; text = "Road 1"; contact_phone = none } ∷ [];
  promos = promo ∷ [];
  redemptions = [];
  fees = fees;
  orders = [];
  history = [];
  order_items = [];
}

abbrev wanted : OrderCreateRequest
wanted = record {
  payment_method = PaymentMethod.cod;
  address_id = some 4;
  promo_code = some "EID";
  tip = record { coefficient = 20; places = 0 };
  special_instructions = none;
  scheduled_for = none;
  delivery_type = DeliveryType.priority;
}

abbrev after : Shop
after = rows_after shop (place_order world config 100 shop 77 wanted)

returned : place_order world config 100 shop 77 wanted ≡ ok after
unfolding place_order strip judge percentage_of
returned = refl

place_order_as_quoted_example :
    (s : CheckoutSummary) × (o : Order) × (checkout_summary world config 100 shop wanted ≡ ok s)
    × (after.orders ≡ o ∷ [])
    × (o.bill ≡ s.bill)
place_order_as_quoted_example = place_order_as_quoted world config 100 shop 77 wanted after returned

rated : All HasRate (quote_lines_for shop.menu shop.cart)
unfolding quote_lines_for line_rate
rated = (tt, tt)

place_order-IsFresh_example : (o : Order) × (after.orders ≡ o ∷ []) × IsFresh o
place_order-IsFresh_example =
    place_order-IsFresh world config 100 shop 77 wanted after (omega arith, tt) rated returned

place_order_itemised_example :
    (o : Order) × (rows : List OrderItem) × (after.orders ≡ o ∷ [])
    × (after.order_items ≡ rows ++ [])
    × (sum_of (λ r. r.line_total) rows ≡ o.bill.item_total)
    × All (λ r. r.order_id ≡ o.id) rows
place_order_itemised_example = place_order_itemised world config 100 shop 77 wanted after returned

place_order_once_example : ¬ (place_order world config 200 after 78 wanted ≡ ok shop)
place_order_once_example =
    place_order_once world config 100 200 shop 77 78 wanted wanted after shop returned

place_order-IsWithin_example : All (IsWithin after.redemptions) after.promos
place_order-IsWithin_example =
    place_order-IsWithin world config 100 shop 77 wanted after ((λ e. refl, tt), tt)
      ((omega arith, omega arith), tt) returned
