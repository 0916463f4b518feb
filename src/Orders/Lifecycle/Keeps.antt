-- ===== src/Orders/Lifecycle/Keeps.antt =====
-- What every call keeps of an order's row, one part of the invariant after the other.
use cheering_shop_backend.Prelude.{arith, List, [], ◌∷◌}
use cheering_shop_backend.Orders.{Order}
use cheering_shop_backend.Orders.Invariants.{IsSettled, IsGuarded, IsStamped, IsSound, IsFresh}
use cheering_shop_backend.Orders.Moves.{without_contact}
use cheering_shop_backend.Orders.Handoff.{Crypto}
use cheering_shop_backend.Orders.Lifecycle.{Action, perform, settled, live}

-- A freshly placed order satisfies the invariant.
pub IsFresh-IsSound : (o : Order) → IsFresh o → IsSound o
IsFresh-IsSound o f = ground arith

module _ (crypto : Crypto) where
  perform-IsSettled :
      (a : Action) (o : Order) → IsSettled o → IsSettled (settled o (perform crypto a o)).order
  unfolding perform
  perform-IsSettled (Action.accept actor now) o m = ground arith
  perform-IsSettled a o m = ground arith

  perform-IsGuarded :
      (a : Action) (o : Order) → IsGuarded o → IsGuarded (settled o (perform crypto a o)).order
  unfolding perform
  perform-IsGuarded (Action.accept actor now) o m = ground arith
  perform-IsGuarded a o m = ground arith

  perform-IsStamped :
      (a : Action) (o : Order) → IsStamped o → IsStamped (settled o (perform crypto a o)).order
  unfolding perform
  perform-IsStamped (Action.accept actor now) o m = ground arith
  perform-IsStamped a o m = ground arith

  -- Every call, by whomever and whenever, keeps the invariant.
  pub perform-IsSound :
      (a : Action) (o : Order) → IsSound o → IsSound (settled o (perform crypto a o)).order
  perform-IsSound a o s = record {
    settled = perform-IsSettled a o s.settled;
    guarded = perform-IsGuarded a o s.guarded;
    stamped = perform-IsStamped a o s.stamped;
  }

  -- So does the deletion of the customer's account.
  pub without_contact-IsSound : (o : Order) → IsSound o → IsSound (without_contact o)
  without_contact-IsSound o s = ground arith

  -- A sound row stays sound through any calls.
  pub live-IsSound :
      (actions : List Action) (o : Order) → IsSound o → IsSound (live crypto actions o)
  unfolding live
  live-IsSound [] o s = s
  live-IsSound (a ∷ more) o s =
      live-IsSound more (settled o (perform crypto a o)).order (perform-IsSound a o s)
