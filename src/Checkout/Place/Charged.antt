-- ===== src/Checkout/Place/Charged.antt =====
-- What the customer is charged: the bill of the summary, for the lines of the order, once.
use mathlib.Core.Path.{subst}
use cheering_shop_backend.Prelude.{
  ℕ, ◌≤◌, ◌+◌, ◌≡◌, refl, Option, none, some, List, [], ◌∷◌, ◌++◌, All, sum_of, map, sym, ap, ◌∙◌,
}
use cheering_shop_backend.Result.{ok, ◌>>=◌, >>=-eq-ok}
use cheering_shop_backend.Pricing.{Config, QuoteLine, quote, line_total}
use cheering_shop_backend.Pricing.Quoted.{quote-IsPriced, HasRate}
use cheering_shop_backend.Promos.{PromoCode}
use cheering_shop_backend.Orders.{Order}
use cheering_shop_backend.Orders.Checks.{IsPriced}
use cheering_shop_backend.Orders.Invariants.{IsFresh}
use cheering_shop_backend.Cart.Price.{quote_lines_for}
use cheering_shop_backend.Checkout.{
  OrderItem, OrderCreateRequest, Shop, Prepared, CheckoutSummary, redeem, filled_cart,
}
use cheering_shop_backend.Checkout.Place.{
  World, prepare, admitted, summary, checkout_summary, place_order, placed, inserted, item_row,
}
use cheering_shop_backend.Checkout.Place.Placed.{
  IsAdmitted, admitted-IsAdmitted, prepare-IsPrepared,
}

-- Recording a redemption touches nothing but the promo tables.
pub redeem-orders :
    (o : Option PromoCode) (id discount : ℕ) (shop : Shop)
    → let after = redeem o id discount shop in
      (after.orders ≡ shop.orders)
      × (after.cart ≡ shop.cart)
      × (after.order_items ≡ shop.order_items)
      × (after.menu ≡ shop.menu)
redeem-orders none id discount shop = (refl, refl, refl, refl)
redeem-orders (some p) id discount shop = (refl, refl, refl, refl)

pub All-always : {A : Type 0} (xs : List A) → All (λ x. Unit {0}) xs
All-always [] = tt
All-always (x ∷ xs) = (tt, All-always xs)

module _ (w : World) (config : Config) (now : ℕ) (shop : Shop) where
  sum_of-item_rows :
      (id : ℕ) (lines : List QuoteLine)
      → sum_of (λ r. r.line_total) (map (item_row w config now shop id) lines)
        ≡ sum_of line_total lines
  sum_of-item_rows id [] = refl
  sum_of-item_rows id (l ∷ ls) = ap (λ n. line_total l + n) (sum_of-item_rows id ls)

  All-item_rows :
      (id : ℕ) (lines : List QuoteLine)
      → All (λ r. r.order_id ≡ id) (map (item_row w config now shop id) lines)
  All-item_rows id [] = tt
  All-item_rows id (l ∷ ls) = (refl, All-item_rows id ls)

  prepare_empty :
      (body : OrderCreateRequest) {p : Prepared w.Km}
      → shop.cart ≡ none
      → ¬ (prepare w config now shop body ≡ ok p)
  unfolding prepare
  prepare_empty body empty e =
      let (cart, got, _) =
        >>=-eq-ok (filled_cart shop.cart (quote_lines_for shop.menu shop.cart)) _ e in
      let no = rw empty at got in cc

  -- What a call that returned has found and written.
  pub place_order-IsAdmitted :
      (id : ℕ) (body : OrderCreateRequest) {after : Shop}
      → place_order w config now shop id body ≡ ok after
      → (p : Prepared w.Km) × (at : Option ℕ) × (IsAdmitted w config now shop body p at)
        × (redeem p.promo.promo id p.bill.discount (inserted w config now shop id body p at)
            ≡ after)
  unfolding place_order
  place_order-IsAdmitted id body e =
      let (found, same, rest) = >>=-eq-ok (admitted w config now shop body) _ e in
      (found.0, found.1, admitted-IsAdmitted w config now shop body found.0 found.1 same, cc)

  -- An order that is placed carries the bill that the checkout summary shows for the same request.
  pub place_order_as_quoted :
      (id : ℕ) (body : OrderCreateRequest) (after : Shop)
      → place_order w config now shop id body ≡ ok after
      → (s : CheckoutSummary) × (o : Order) × (checkout_summary w config now shop body ≡ ok s)
        × (after.orders ≡ o ∷ shop.orders)
        × (o.bill ≡ s.bill)
  unfolding checkout_summary
  place_order_as_quoted id body after e =
      let (p, at, good, written) = place_order-IsAdmitted id body e in
      let (orders, _, _, _) =
        redeem-orders p.promo.promo id p.bill.discount (inserted w config now shop id body p at) in
      (
        summary w config now shop body p,
        placed w config now shop id body p at,
        ap (λ r. r >>= λ p. ok (summary w config now shop body p)) good.prepared,
        ap (λ s. s.orders) (sym written) ∙ orders,
        refl,
      )

  -- Where the rates are at most 100 %, the order that is placed is a pending, unpaid row without a
  -- rider or a PIN whose bill meets the constraints of the orders table.
  pub place_order-IsFresh :
      (id : ℕ) (body : OrderCreateRequest) (after : Shop)
      → All (λ r. r.commission_rate ≤ 10_000) shop.restaurants
      → All HasRate (quote_lines_for shop.menu shop.cart)
      → place_order w config now shop id body ≡ ok after
      → (o : Order) × (after.orders ≡ o ∷ shop.orders) × IsFresh o
  place_order-IsFresh id body after rates lines e =
      let (p, at, good, written) = place_order-IsAdmitted id body e in
      let (orders, _, _, _) =
        redeem-orders p.promo.promo id p.bill.discount (inserted w config now shop id body p at) in
      let (rate, facts) =
        prepare-IsPrepared w config now shop (λ r. r.commission_rate ≤ 10_000) body rates
          good.prepared in
      let (_, _, bill) = facts in
      (
        placed w config now shop id body p at,
        ap (λ s. s.orders) (sym written) ∙ orders,
        record {
          priced = subst IsPriced (sym bill) (
              quote-IsPriced config (quote_lines_for shop.menu shop.cart)
                (w.measure.metres p.distance_km) p.restaurant.commission_rate shop.fees _ _ _ rate
                lines);
          is_pending = refl;
          is_unpaid = refl;
          no_rider = (refl, refl);
          no_pin = (refl, refl, refl);
          no_end = (refl, refl, refl);
        },
      )

  -- The charged price of the food is the sum of the line totals that are recorded with the order.
  pub place_order_itemised :
      (id : ℕ) (body : OrderCreateRequest) (after : Shop)
      → place_order w config now shop id body ≡ ok after
      → (o : Order) × (rows : List OrderItem) × (after.orders ≡ o ∷ shop.orders)
        × (after.order_items ≡ rows ++ shop.order_items)
        × (sum_of (λ r. r.line_total) rows ≡ o.bill.item_total)
        × All (λ r. r.order_id ≡ o.id) rows
  unfolding quote
  place_order_itemised id body after e =
      let (p, at, good, written) = place_order-IsAdmitted id body e in
      let (orders, _, items, _) =
        redeem-orders p.promo.promo id p.bill.discount (inserted w config now shop id body p at) in
      let (_, facts) =
        prepare-IsPrepared w config now shop (λ r. Unit {0}) body (All-always shop.restaurants)
          good.prepared in
      let (_, same_lines, bill) = facts in
      (
        placed w config now shop id body p at,
        map (item_row w config now shop id) p.lines,
        ap (λ s. s.orders) (sym written) ∙ orders,
        ap (λ s. s.order_items) (sym written) ∙ items,
        sum_of-item_rows id p.lines
            ∙ ap (sum_of line_total) same_lines
            ∙ sym (ap (λ b. b.item_total) bill),
        All-item_rows id p.lines,
      )

-- The cart is empty after a placement, so nobody can place an order from it again.
pub place_order_once :
    (w : World) (config : Config) (now later : ℕ) (shop : Shop) (id id' : ℕ)
    (body body' : OrderCreateRequest) (after again : Shop)
    → place_order w config now shop id body ≡ ok after
    → ¬ (place_order w config later after id' body' ≡ ok again)
place_order_once w config now later shop id id' body body' after again e e' =
    let (p, at, good, written) = place_order-IsAdmitted w config now shop id body e in
    let (_, cart, _, _) =
      redeem-orders p.promo.promo id p.bill.discount (inserted w config now shop id body p at) in
    let (p', at', good', written') = place_order-IsAdmitted w config later after id' body' e' in
    prepare_empty w config later after body' (ap (λ s. s.cart) (sym written) ∙ cart) good'.prepared
