-- ===== src/Orders/Lifecycle/Fixed.antt =====
-- What the calls of Orders.Lifecycle.Action leave as it is.
use cheering_shop_backend.Prelude.{◌≡◌, true, List, [], ◌∷◌, arith, refl, ◌∙◌}
use cheering_shop_backend.Enums.{OrderStatus, one_of}
use cheering_shop_backend.Orders.{Order}
use cheering_shop_backend.Orders.Handoff.{Crypto}
use cheering_shop_backend.Orders.Lifecycle.{Action, perform, settled, live}

-- The parties, the money, and the snapshot of the request but for the contact and the instructions,
-- which the deletion of the customer's account erases.
abbrev pub SameDeal : Order → Order → Type 0
SameDeal o p =
    (p.id ≡ o.id)
    × (p.customer_id ≡ o.customer_id)
    × (p.restaurant_id ≡ o.restaurant_id)
    × (p.bill ≡ o.bill)
    × (p.placement.payment_method ≡ o.placement.payment_method)
    × (p.placement.promo_code_id ≡ o.placement.promo_code_id)
    × (p.placement.delivery_address_id ≡ o.placement.delivery_address_id)
    × (p.placement.delivery_address_text ≡ o.placement.delivery_address_text)
    × (p.placement.placed_at ≡ o.placement.placed_at)
    × (p.placement.scheduled_for ≡ o.placement.scheduled_for)
    × (p.placement.estimated_delivery_at ≡ o.placement.estimated_delivery_at)

module _ (crypto : Crypto) where
  finished_step :
      (a : Action) (o : Order)
      → one_of o.status (OrderStatus.delivered ∷ OrderStatus.cancelled ∷ []) ≡ true
      → (settled o (perform crypto a o)).order.status ≡ o.status
  unfolding perform
  finished_step (Action.accept actor now) o h = ground arith
  finished_step a o h = ground arith

  held_step :
      (a : Action) (o : Order)
      → one_of o.status (OrderStatus.picked_up ∷ OrderStatus.delivered ∷ []) ≡ true
      → let p = (settled o (perform crypto a o)).order in
        (p.rider_id ≡ o.rider_id)
        × (one_of p.status (OrderStatus.picked_up ∷ OrderStatus.delivered ∷ []) ≡ true)
  unfolding perform
  held_step (Action.accept actor now) o h = ground arith
  held_step a o h = ground arith

  -- A delivered or cancelled order keeps its status through any calls on placed orders.
  pub live_finished :
      (actions : List Action) (o : Order)
      → one_of o.status (OrderStatus.delivered ∷ OrderStatus.cancelled ∷ []) ≡ true
      → (live crypto actions o).status ≡ o.status
  unfolding live
  live_finished [] o h = refl
  live_finished (a ∷ more) o h =
      let p = (settled o (perform crypto a o)).order in
      let same = finished_step a o h in live_finished more p (rw same h) ∙ same

  -- Once the food is with a rider, the order's rider never changes.
  pub live_held :
      (actions : List Action) (o : Order)
      → one_of o.status (OrderStatus.picked_up ∷ OrderStatus.delivered ∷ []) ≡ true
      → (live crypto actions o).rider_id ≡ o.rider_id
  unfolding live
  live_held [] o h = refl
  live_held (a ∷ more) o h =
      let p = (settled o (perform crypto a o)).order in
      let (same, held) = held_step a o h in live_held more p held ∙ same
