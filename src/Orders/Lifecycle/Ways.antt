-- ===== src/Orders/Lifecycle/Ways.antt =====
-- No order is stuck: from every status but CANCELLED there are calls that end in a delivery.
use text.Mathlib.Text.{◌==◌ as str_eq}
use text.Mathlib.TextEquality.{eq_iff}
use cheering_shop_backend.Prelude.{ℕ, ◌≡◌, refl, true, false, none, some, String, List, [], ◌∷◌}
use cheering_shop_backend.Enums.{OrderStatus, ActorType, UserRole}
use cheering_shop_backend.Orders.{Order}
use cheering_shop_backend.Orders.Handoff.{
  Crypto, mark_ready, issue_pin, handoff_ready, hash_rider_pin, verify_rider_pin, handoff_order,
}
use cheering_shop_backend.Orders.Moves.{complete}
use cheering_shop_backend.Orders.Lifecycle.{Action, perform, live}

module _ (vendor rider now : ℕ) (pin : String) where
  -- The calls that are left: from READY on, a rider is named and the PIN is issued anew.
  abbrev pub from_picked_up : List Action
  from_picked_up = Action.deliver ActorType.rider rider now ∷ []

  abbrev pub from_kitchen : List Action
  from_kitchen =
      Action.assign rider
      ∷ Action.prepare vendor pin now
      ∷ Action.hand_over vendor pin now
      ∷ from_picked_up

  abbrev pub way : OrderStatus → List Action
  way OrderStatus.pending = Action.accept vendor now ∷ from_kitchen
  way OrderStatus.preparing = from_kitchen
  way OrderStatus.ready = from_kitchen
  way OrderStatus.picked_up = from_picked_up
  way OrderStatus.delivered = []
  way OrderStatus.cancelled = []

  abbrev pub destination : OrderStatus → OrderStatus
  destination OrderStatus.cancelled = OrderStatus.cancelled
  destination _ = OrderStatus.delivered

  module _ (crypto : Crypto) where
    last_leg :
        (o : Order)
        → str_eq (crypto.hmac o.id pin) "" ≡ false
        → (live crypto (Action.hand_over vendor pin now ∷ from_picked_up) (
            issue_pin crypto
              (record o { status = OrderStatus.ready; rider_id = some rider })
              pin
              now)).status
          ≡ OrderStatus.delivered
    unfolding live perform handoff_order handoff_ready verify_rider_pin hash_rider_pin complete
    last_leg o real =
        let own : str_eq (crypto.hmac o.id pin) (crypto.hmac o.id pin) ≡ true =
          (eq_iff (crypto.hmac o.id pin) (crypto.hmac o.id pin)).1 refl in
        rw
          (live, perform, handoff_order, handoff_ready, verify_rider_pin, hash_rider_pin, real, own)
          refl

    way_ends :
        (s : OrderStatus) (o : Order)
        → str_eq (crypto.hmac o.id pin) "" ≡ false
        → (live crypto (way s) (record o { status = s })).status ≡ destination s
    unfolding live perform mark_ready
    way_ends OrderStatus.pending o real =
        last_leg
          (record o {
            rider_role = some UserRole.rider;
            auto_decline_at = none;
            accepted_at = some now;
            ready_at = some now;
            updated_at = now;
          })
          real
    way_ends OrderStatus.preparing o real =
        last_leg
          (record o { rider_role = some UserRole.rider; ready_at = some now; updated_at = now })
          real
    way_ends OrderStatus.ready o real =
        last_leg (record o { rider_role = some UserRole.rider }) real
    way_ends OrderStatus.picked_up o real = refl
    way_ends OrderStatus.delivered o real = refl
    way_ends OrderStatus.cancelled o real = refl

    -- No order is stuck. Whatever its row, and however many wrong PINs were tried, the calls that
    -- are left from its status on (accept, assign a rider, issue a PIN, hand over with it, deliver)
    -- end with the order DELIVERED, unless it was CANCELLED; the digest of the PIN is not the
    -- empty text.
    pub way_delivers :
        (o : Order)
        → str_eq (crypto.hmac o.id pin) "" ≡ false
        → (live crypto (way o.status) o).status ≡ destination o.status
    way_delivers o real = way_ends o.status o real
