-- ===== src/Orders/Lifecycle.antt =====
-- The calls that write an order after it is placed (those of Orders/Vendor, Orders/Handoff and
-- Orders/Moves), as one step function, so that the life of an order is a list of calls by any
-- parties in any order.
pub mod Keeps
pub mod History
pub mod Fixed
pub mod Ways
use cheering_shop_backend.Prelude.{ℕ, Option, String, List, [], ◌∷◌, ◌++◌, if◌then◌else◌}
use cheering_shop_backend.Result.{Result, ok, err, saved, Error}
use cheering_shop_backend.Enums.{ActorType}
use cheering_shop_backend.Orders.{Order, Change, StatusHistory, unlogged}
use cheering_shop_backend.Orders.Vendor.{accept_order, reject_order}
use cheering_shop_backend.Orders.Handoff.{Crypto, mark_ready, handoff_order}
use cheering_shop_backend.Orders.Moves.{
  customer_cancel, admin_cancel, refund_order, complete, is_due, auto_decline, assign_rider,
  is_offer, claim, forget_contact,
}

-- A call with its caller and what the program does not choose: the clock and the random PIN.
pub data Action : Type 0 where
  accept : (actor now : ℕ) → Action
  reject : (actor : ℕ) (reason : Option String) (now : ℕ) → Action
  prepare : (actor : ℕ) (pin : String) (now : ℕ) → Action
  hand_over : (actor : ℕ) (guess : String) (now : ℕ) → Action
  cancel : (user : ℕ) (reason : Option String) (now : ℕ) → Action
  operator_cancel : (admin : ℕ) (reason : String) (now : ℕ) → Action
  refund : (admin : ℕ) (reason : String) (now : ℕ) → Action
  deliver : (actor : ActorType) (actor_id now : ℕ) → Action
  sweep : (now : ℕ) → Action
  assign : (rider : ℕ) → Action
  take_offer : (rider now : ℕ) → Action
  forget : Action

module _ (crypto : Crypto) where
  unfoldable pub perform : Action → Order → Result Change Change
  unfolding accept_order reject_order mark_ready handoff_order customer_cancel admin_cancel
      refund_order complete is_due auto_decline assign_rider is_offer claim forget_contact
  perform (Action.accept actor now) o = accept_order o actor now
  perform (Action.reject actor reason now) o = reject_order o actor reason now
  perform (Action.prepare actor pin now) o = mark_ready crypto o actor pin now
  perform (Action.hand_over actor guess now) o = handoff_order crypto o actor guess now
  perform (Action.cancel user reason now) o = customer_cancel o user reason now
  perform (Action.operator_cancel admin reason now) o = admin_cancel o admin reason now
  perform (Action.refund admin reason now) o = refund_order o admin reason now
  perform (Action.deliver actor actor_id now) o = complete o actor actor_id now
  perform (Action.sweep now) o = if is_due now o then ok (auto_decline now o) else ok (unlogged o)
  perform (Action.assign rider) o = assign_rider o rider
  perform (Action.take_offer rider now) o =
      if is_offer o
      then ok (unlogged (claim rider now o))
      else err (Error.conflict "This order is no longer available")
  perform Action.forget o = forget_contact o

-- What the database holds after a call that started from the row `o`.
abbrev pub settled : Order → Result Change Change → Change
settled o (ok c) = c
settled o (err _) = unlogged o
settled o (saved c _) = c

module _ (crypto : Crypto) where
  unfoldable pub live : List Action → Order → Order
  live [] o = o
  live (a ∷ more) o = live more (settled o (perform crypto a o)).order

  -- The history rows that a life adds, oldest first.
  unfoldable pub logged : List Action → Order → List StatusHistory
  logged [] o = []
  logged (a ∷ more) o = let c = settled o (perform crypto a o) in c.history ++ logged more c.order
