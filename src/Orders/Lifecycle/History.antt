-- ===== src/Orders/Lifecycle/History.antt =====
-- The status history is the whole story of an order's status.
use cheering_shop_backend.Prelude.{
  ℕ, ◌+◌, ◌≤◌, ◌≡◌, true, some, List, [], ◌∷◌, ◌++◌, length, arith, refl,
}
use cheering_shop_backend.Enums.{OrderStatus, position, one_of, order_transitions}
use cheering_shop_backend.Enums.Graph.{transition_forward}
use cheering_shop_backend.Orders.{Order, StatusHistory}
use cheering_shop_backend.Orders.Handoff.{Crypto}
use cheering_shop_backend.Orders.Lifecycle.{Action, perform, settled, live, logged}

-- The rows lead from `s` to `t`: each starts where the one before ended, and ORDER_TRANSITIONS
-- allows each.
abbrev pub IsTrail : ℕ → OrderStatus → List StatusHistory → OrderStatus → Type 0
IsTrail id s [] t = s ≡ t
IsTrail id s (h ∷ rows) t =
    (h.order_id ≡ id)
    × (h.from_status ≡ some s)
    × (one_of h.to_status (order_transitions s) ≡ true)
    × IsTrail id h.to_status rows t

IsTrail-append :
    (id : ℕ) (s t u : OrderStatus) (xs ys : List StatusHistory)
    → IsTrail id s xs t
    → IsTrail id t ys u
    → IsTrail id s (xs ++ ys) u
IsTrail-append id s t u [] ys p q = ground arith
IsTrail-append id s t u (x ∷ xs) ys p q =
    (p.0, p.1, p.2, IsTrail-append id x.to_status t u xs ys p.3 q)

length-IsTrail :
    (id : ℕ) (s t : OrderStatus) (rows : List StatusHistory)
    → IsTrail id s rows t
    → length rows + position s ≤ position t
length-IsTrail id s t [] p = ground arith
length-IsTrail id s t (h ∷ rows) p =
    omega (arith, transition_forward s h.to_status p.2, length-IsTrail id h.to_status t rows p.3)

module _ (crypto : Crypto) where
  pub perform-id : (a : Action) (o : Order) → (settled o (perform crypto a o)).order.id ≡ o.id
  unfolding perform
  perform-id (Action.accept actor now) o = ground arith
  perform-id a o = ground arith

  -- One call logs just the move that it makes.
  perform-IsTrail :
      (a : Action) (o : Order)
      → let c = settled o (perform crypto a o) in IsTrail o.id o.status c.history c.order.status
  unfolding perform
  perform-IsTrail (Action.accept actor now) o = ground arith
  perform-IsTrail a o = ground arith

  -- Through any calls the history rows lead, move by allowed move, from the first status to the last.
  pub logged-IsTrail :
      (actions : List Action) (o : Order)
      → IsTrail o.id o.status (logged crypto actions o) (live crypto actions o).status
  unfolding live logged
  logged-IsTrail [] o = refl
  logged-IsTrail (a ∷ more) o =
      let c = settled o (perform crypto a o) in
      IsTrail-append o.id o.status c.order.status _ c.history _ (perform-IsTrail a o)
        (rw (perform-id a o) at (logged-IsTrail more c.order))

  -- Through any calls, an order that starts PENDING adds at most five rows to its history.
  length-logged :
      (actions : List Action) (o : Order)
      → o.status ≡ OrderStatus.pending
      → length (logged crypto actions o) ≤ 5
  length-logged actions o p = ground (arith, length-IsTrail _ _ _ _ (logged-IsTrail actions o))
