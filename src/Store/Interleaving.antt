-- ===== src/Store/Interleaving.antt =====
-- Calls on placed orders by anybody in any order, one after another, and the invariant of all rows.
use cheering_shop_backend.Prelude.{
  ◌≡◌, ℕ, ◌==◌, Bool, Option, String, List, ◌&&◌, not, update_where, All, All-update_where, arith,
  true,
}
use cheering_shop_backend.Result.{rows_after}
use cheering_shop_backend.Orders.{Order}
use cheering_shop_backend.Orders.Handoff.{Crypto}
use cheering_shop_backend.Orders.Moves.{is_due, auto_decline, claim, without_contact}
use cheering_shop_backend.Orders.Invariants.{IsSound}
use cheering_shop_backend.Orders.Lifecycle.{Action, perform, settled}
use cheering_shop_backend.Orders.Lifecycle.Keeps.{perform-IsSound, without_contact-IsSound}
use cheering_shop_backend.Store.{
  Tables, on_order, vendor_accept, vendor_reject, vendor_ready, vendor_handoff, cancel_own,
  operator_cancel, operator_refund, deliver, deliver_as_admin, auto_decline_due, of_restaurant,
  of_customer, by_id, forget_orders,
}
use cheering_shop_backend.Store.Dispatch.{assign_to_order, accept_offer, claimable}
use cheering_shop_backend.Store.Sound.{
  AllSound, rows_after-AllSound, on_order-Ends, deliver-Ends, deliver_as_admin-Ends,
  assign_to_order-Ends,
}

-- One call on placed orders by anybody, with the rows that its endpoint commits.
pub data Step (crypto : Crypto) (t u : Tables) : Type 0 where
  accept :
      (restaurant order actor now : ℕ)
      → u ≡ rows_after t (vendor_accept crypto restaurant order actor now t)
      → Step crypto t u
  reject :
      (restaurant order actor : ℕ) (reason : Option String) (now : ℕ)
      → u ≡ rows_after t (vendor_reject crypto restaurant order actor reason now t)
      → Step crypto t u
  ready :
      (restaurant order actor : ℕ) (pin : String) (now : ℕ)
      → u ≡ rows_after t (vendor_ready crypto restaurant order actor pin now t)
      → Step crypto t u
  handoff :
      (restaurant order actor : ℕ) (pin : String) (now : ℕ)
      → u ≡ rows_after t (vendor_handoff crypto restaurant order actor pin now t)
      → Step crypto t u
  cancel :
      (user order : ℕ) (reason : Option String) (now : ℕ)
      → u ≡ rows_after t (cancel_own user order reason now t)
      → Step crypto t u
  stop :
      (admin order : ℕ) (reason : String) (now : ℕ)
      → u ≡ rows_after t (operator_cancel admin order reason now t)
      → Step crypto t u
  refund :
      (admin order : ℕ) (reason : String) (now : ℕ)
      → u ≡ rows_after t (operator_refund admin order reason now t)
      → Step crypto t u
  delivery : (rider order now : ℕ) → u ≡ rows_after t (deliver rider order now t) → Step crypto t u
  override :
      (admin order now : ℕ)
      → u ≡ rows_after t (deliver_as_admin admin order now t)
      → Step crypto t u
  sweep : (locked : ℕ → Bool) (now : ℕ) → u ≡ auto_decline_due locked now t → Step crypto t u
  assign :
      (order : ℕ) (rider : Option ℕ) (near : Option (List ℕ))
      → u ≡ rows_after t (assign_to_order order rider near t)
      → Step crypto t u
  take : (rider order now : ℕ) → u ≡ rows_after t (accept_offer rider order now t) → Step crypto t u
  leave : (user : ℕ) → u ≡ rows_after t (forget_orders user t) → Step crypto t u

pub data Reach (crypto : Crypto) (t : Tables) : Tables → Type 0 where
  here : Reach crypto t t
  next : {u v : Tables} → Reach crypto t u → Step crypto u v → Reach crypto t v

module _ (crypto : Crypto) where
  sweep_row :
      (o : Order) (now : ℕ) (free : Bool)
      → (is_due now o && free) ≡ true
      → settled o (perform crypto (Action.sweep now) o) ≡ auto_decline now o
  unfolding perform
  sweep_row o now free h = ground arith

  sweep-AllSound :
      (locked : ℕ → Bool) (now : ℕ) (t : Tables)
      → AllSound t
      → AllSound (auto_decline_due locked now t)
  unfolding auto_decline_due
  sweep-AllSound locked now t all =
      All-update_where IsSound (λ o. is_due now o && not (locked o.id)) _ t.orders
        (λ o due s.
          rw (sweep_row o now (not (locked o.id)) due) at
            (perform-IsSound crypto (Action.sweep now) o s))
        all

  claim_row :
      (o : Order) (rider order now : ℕ)
      → claimable order o ≡ true
      → (settled o (perform crypto (Action.take_offer rider now) o)).order ≡ claim rider now o
  unfolding perform
  claim_row o rider order now h = ground arith

  claimed-AllSound :
      (rider order now : ℕ) (t : Tables)
      → AllSound t
      → All IsSound (update_where (claimable order) (claim rider now) t.orders)
  claimed-AllSound rider order now t all =
      All-update_where IsSound (claimable order) (claim rider now) t.orders
        (λ o open_offer s.
          rw (claim_row o rider order now open_offer) at
            (perform-IsSound crypto (Action.take_offer rider now) o s))
        all

  accept_offer-AllSound :
      (rider order now : ℕ) (t : Tables)
      → AllSound t
      → AllSound (rows_after t (accept_offer rider order now t))
  unfolding accept_offer
  accept_offer-AllSound rider order now t all =
      ground (arith, claimed-AllSound rider order now t all)

  forget_orders-AllSound :
      (user : ℕ) (t : Tables) → AllSound t → AllSound (rows_after t (forget_orders user t))
  unfolding forget_orders
  forget_orders-AllSound user t all =
      let kept =
        All-update_where IsSound (λ o. o.customer_id == user) without_contact t.orders
          (λ o own s. without_contact-IsSound crypto o s) all in
      ground (arith, kept)

  after-AllSound :
      (a : Action) (scope : Order → Bool) (t : Tables)
      → AllSound t
      → AllSound (rows_after t (on_order scope (perform crypto a) t))
  after-AllSound a scope t all =
      rows_after-AllSound t (on_order scope (perform crypto a) t)
        (on_order-Ends scope (perform crypto a) t (perform-IsSound crypto a) all) all

  -- One call keeps the invariant of every order.
  Step-AllSound : {t u : Tables} → Step crypto t u → AllSound t → AllSound u
  unfolding vendor_accept vendor_reject vendor_ready vendor_handoff cancel_own operator_cancel
      operator_refund perform
  Step-AllSound {t} (accept restaurant order actor now e) all =
      rw e (after-AllSound (Action.accept actor now) (of_restaurant restaurant order) t all)
  Step-AllSound {t} (reject restaurant order actor reason now e) all =
      rw e (after-AllSound (Action.reject actor reason now) (of_restaurant restaurant order) t all)
  Step-AllSound {t} (ready restaurant order actor pin now e) all =
      rw e (after-AllSound (Action.prepare actor pin now) (of_restaurant restaurant order) t all)
  Step-AllSound {t} (handoff restaurant order actor pin now e) all =
      rw e (after-AllSound (Action.hand_over actor pin now) (of_restaurant restaurant order) t all)
  Step-AllSound {t} (cancel user order reason now e) all =
      rw e (after-AllSound (Action.cancel user reason now) (of_customer user order) t all)
  Step-AllSound {t} (stop admin order reason now e) all =
      rw e (after-AllSound (Action.operator_cancel admin reason now) (by_id order) t all)
  Step-AllSound {t} (refund admin order reason now e) all =
      rw e (after-AllSound (Action.refund admin reason now) (by_id order) t all)
  Step-AllSound {t} (delivery rider order now e) all =
      rw e (rows_after-AllSound t _ (deliver-Ends crypto rider order now t all) all)
  Step-AllSound {t} (override admin order now e) all =
      rw e (rows_after-AllSound t _ (deliver_as_admin-Ends crypto admin order now t all) all)
  Step-AllSound {t} (sweep locked now e) all = rw e (sweep-AllSound locked now t all)
  Step-AllSound {t} (assign order rider near e) all =
      rw e (rows_after-AllSound t _ (assign_to_order-Ends crypto order rider near t all) all)
  Step-AllSound {t} (take rider order now e) all =
      rw e (accept_offer-AllSound rider order now t all)
  Step-AllSound {t} (leave user e) all = rw e (forget_orders-AllSound user t all)

  -- From tables whose order rows are all sound, every row is sound again after any calls on placed
  -- orders by anybody, in any order.
  pub Reach-AllSound : {t u : Tables} → Reach crypto t u → AllSound t → AllSound u
  Reach-AllSound here all = all
  Reach-AllSound (next r step) all = Step-AllSound step (Reach-AllSound r all)
