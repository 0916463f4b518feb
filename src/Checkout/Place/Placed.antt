-- ===== src/Checkout/Place/Placed.antt =====
-- What a placed order is: the bill that the summary showed, an order that meets the table's
-- constraints, and an empty cart.
use mathlib.Core.Path.{subst}
use cheering_shop_backend.Prelude.{
  inl, inr, Bool-cases, ℕ, ◌≤◌, ◌≡◌, Bool, false, Option, ◌&&◌, not, any_of, is_none, All,
  All-find?, sum_of, find?, arith, sym, ◌==◌,
}
use cheering_shop_backend.Result.{ok, Error, or_raise, >>=-eq-ok, or_raise-eq-ok}
use cheering_shop_backend.Enums.{is_open}
use cheering_shop_backend.Pricing.{Config, quote, is_priority, line_total}
use cheering_shop_backend.Money.{to_minor}
use cheering_shop_backend.Promos.{validate}
use cheering_shop_backend.Cart.{Cart}
use cheering_shop_backend.Cart.Price.{quote_lines_for}
use cheering_shop_backend.Checkout.{
  Restaurant, Address, OrderCreateRequest, Shop, Prepared, has_error, validate_schedule,
  filled_cart, load_address,
}
use cheering_shop_backend.Checkout.Place.{
  World, bill_of, prepare, admitted, for_cart, still_sold, agreed,
}

-- What `prepare` computed, from the parts that it found.
abbrev pub IsPrepared :
    (w : World) → Config → ℕ → Shop → OrderCreateRequest → Prepared w.Km → Type 0
IsPrepared w config now shop body p =
    let lines = quote_lines_for shop.menu shop.cart in
    let promo =
      validate w.same_code shop.promos shop.redemptions body.promo_code now shop.user_id
        p.restaurant.id (sum_of line_total lines) in
    (p.promo ≡ promo)
    × (p.lines ≡ lines)
    × (p.bill
        ≡ quote config lines (w.measure.metres p.distance_km) p.restaurant.commission_rate
            promo.discount (to_minor body.tip) shop.fees body.delivery_type)

module _ (w : World) (config : Config) (now : ℕ) (shop : Shop) where
  bill_of-IsPrepared :
      (cart : Cart) (restaurant : Restaurant) (address : Address) (body : OrderCreateRequest)
      {p : Prepared w.Km}
      → bill_of w config now shop cart restaurant address (quote_lines_for shop.menu shop.cart) body
        ≡ ok p
      → IsPrepared w config now shop body p × (p.restaurant ≡ restaurant)
  unfolding bill_of
  bill_of-IsPrepared cart restaurant address body e = ground arith

  -- What the guards of `place_order` have checked when it goes on to write.
  pub record IsAdmitted (body : OrderCreateRequest) (p : Prepared w.Km) (at : Option ℕ)
      : Type 0 where
    pub prepared : prepare w config now shop body ≡ ok p
    pub code_applied : has_error body.promo_code p.promo ≡ false
    pub on_schedule : validate_schedule body.scheduled_for p.restaurant w.local now ≡ ok at
    pub open_now : (is_none at && not (is_open p.restaurant.status)) ≡ false
    pub all_counted : any_of (λ l. l.quantity == 0) p.lines ≡ false
    pub minimum_met : p.restaurant.min_order_amount ≤ p.bill.item_total

  still_sold-eq-ok :
      (p : Prepared w.Km) (at : Option ℕ) {r : Prepared w.Km × Option ℕ}
      → still_sold w config now shop p at ≡ ok r
      → (r ≡ (p, at))
        × ((is_none at && not (is_open p.restaurant.status)) ≡ false)
        × (any_of (λ l. l.quantity == 0) p.lines ≡ false)
        × (p.restaurant.min_order_amount ≤ p.bill.item_total)
  unfolding still_sold
  still_sold-eq-ok p at e = ground arith

  agreed-eq-ok :
      (body : OrderCreateRequest) (p : Prepared w.Km) {r : Prepared w.Km × Option ℕ}
      → agreed w config now shop body p ≡ ok r
      → (has_error body.promo_code p.promo ≡ false)
        × (at : Option ℕ) × (validate_schedule body.scheduled_for p.restaurant w.local now ≡ ok at)
        × (still_sold w config now shop p at ≡ ok r)
  unfolding agreed
  agreed-eq-ok body p e = elim (Bool-cases (has_error body.promo_code p.promo)) [
    | inl bad ↦ let no = rw bad at e in cc
    | inr fine ↦
        let (at, a, b) =
          >>=-eq-ok (validate_schedule body.scheduled_for p.restaurant w.local now) _
            (rw fine at e) in
        (fine, at, a, b)
  ]

  admitted-eq-ok :
      (body : OrderCreateRequest) {r : Prepared w.Km × Option ℕ}
      → admitted w config now shop body ≡ ok r
      → (p : Prepared w.Km) × (prepare w config now shop body ≡ ok p)
        × (agreed w config now shop body p ≡ ok r)
  unfolding admitted
  admitted-eq-ok body e =
      elim (Bool-cases (is_priority body.delivery_type && not (is_none body.scheduled_for))) [
        | inl bad ↦ let no = rw bad at e in cc
        | inr fine ↦ >>=-eq-ok (prepare w config now shop body) _ (rw fine at e)
      ]

  pub admitted-IsAdmitted :
      (body : OrderCreateRequest) (p : Prepared w.Km) (at : Option ℕ)
      → admitted w config now shop body ≡ ok (p, at)
      → IsAdmitted body p at
  admitted-IsAdmitted body p at e =
      let (q, prepared, e1) = admitted-eq-ok body e in
      let (code, slot, schedule, e2) = agreed-eq-ok body q e1 in
      let (same, opened, counted, least) = still_sold-eq-ok q slot e2 in
      let same_q : q ≡ p = cc in
      let same_at : slot ≡ at = cc in
      subst (λ z. IsAdmitted body z at) same_q
        (subst (λ z. IsAdmitted body q z) same_at
          (record {
            prepared = prepared;
            code_applied = code;
            on_schedule = schedule;
            open_now = opened;
            all_counted = counted;
            minimum_met = least;
          }))

  for_cart-IsPrepared :
      (P : Restaurant → Type 0) (cart : Cart) (body : OrderCreateRequest) {p : Prepared w.Km}
      → All P shop.restaurants
      → for_cart w config now shop body cart ≡ ok p
      → P p.restaurant × IsPrepared w config now shop body p
  unfolding for_cart
  for_cart-IsPrepared P cart body every e =
      let at_cart : Restaurant → Bool = λ r. r.id == cart.restaurant_id in
      let (restaurant, found, e2) =
        >>=-eq-ok
          (or_raise (find? at_cart shop.restaurants) (Error.not_found "Restaurant not found")) _
          e in
      let (address, _, e3) = >>=-eq-ok (load_address shop body.address_id) _ e2 in
      let (is_prepared, same) = bill_of-IsPrepared cart restaurant address body e3 in
      let there = All-find? P at_cart shop.restaurants every (or_raise-eq-ok _ _ found) in
      (subst P (sym same) there, is_prepared)

  pub prepare-IsPrepared :
      (P : Restaurant → Type 0) (body : OrderCreateRequest) {p : Prepared w.Km}
      → All P shop.restaurants
      → prepare w config now shop body ≡ ok p
      → P p.restaurant × IsPrepared w config now shop body p
  unfolding prepare
  prepare-IsPrepared P body every e =
      let (cart, _, e1) =
        >>=-eq-ok (filled_cart shop.cart (quote_lines_for shop.menu shop.cart)) _ e in
      for_cart-IsPrepared P cart body every e1
