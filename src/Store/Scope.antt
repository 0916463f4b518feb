-- ===== src/Store/Scope.antt =====
-- Who may touch which order: the calls of a vendor on the orders of other restaurants.
use cheering_shop_backend.Prelude.{
  ℕ, String, ◌≡◌, ◌≢◌, refl, false, Option, none, some, List, [], ◌∷◌, ◌==◌, find?, any_of,
  update_where, arith, ◌∙◌,
}
use cheering_shop_backend.Result.{Result, ok, err, saved, rows_after}
use cheering_shop_backend.Orders.{Order, Change}
use cheering_shop_backend.Orders.Handoff.{Crypto}
use cheering_shop_backend.Orders.Lifecycle.{Action, perform, settled}
use cheering_shop_backend.Orders.Lifecycle.History.{perform-id}
use cheering_shop_backend.Store.{
  Tables, write, written, served, on_order, of_restaurant, by_id, vendor_accept, vendor_reject,
  vendor_ready, vendor_handoff,
}
use cheering_shop_backend.Store.Dispatch.Offers.{IsKeyed}

find?-id :
    (restaurant order : ℕ) (os : List Order) (o : Order)
    → find? (of_restaurant restaurant order) os ≡ some o
    → o.id ≡ order
find?-id restaurant order [] o e = cc
find?-id restaurant order (x ∷ xs) o e = ground (arith, find?-id restaurant order xs o)

foreign_none :
    (restaurant j : ℕ) (os : List Order)
    → any_of (by_id j) os ≡ false
    → find? (of_restaurant restaurant j) os ≡ none
foreign_none restaurant j [] h = refl
foreign_none restaurant j (o ∷ os) h = ground (arith, foreign_none restaurant j os)

foreign_hidden :
    (restaurant j : ℕ) (os : List Order) (x : Order)
    → IsKeyed os
    → find? (by_id j) os ≡ some x
    → x.restaurant_id ≢ restaurant
    → find? (of_restaurant restaurant j) os ≡ none
foreign_hidden restaurant j [] x k e ne = refl
foreign_hidden restaurant j (o ∷ os) x k e ne =
    ground (arith, foreign_hidden restaurant j os x k.1, foreign_none restaurant j os)

find?-write :
    (j : ℕ) (c : Order) (os : List Order)
    → j ≢ c.id
    → find? (by_id j) (update_where (λ x. x.id == c.id) (λ _. c) os) ≡ find? (by_id j) os
find?-write j c [] ne = refl
find?-write j c (o ∷ os) ne = ground (arith, find?-write j c os ne)

written_elsewhere :
    (j : ℕ) (t : Tables) (o : Order) (r : Result Change Change)
    → (settled o r).order.id ≡ o.id
    → j ≢ o.id
    → find? (by_id j) (rows_after t (written t r)).orders ≡ find? (by_id j) t.orders
unfolding write
written_elsewhere j t o (ok c) same ne = find?-write j c.order t.orders (λ e. ne (ground arith))
written_elsewhere j t o (err e) same ne = refl
written_elsewhere j t o (saved c e) same ne =
    find?-write j c.order t.orders (λ e. ne (ground arith))

served_elsewhere :
    (crypto : Crypto) (a : Action) (j : ℕ) (t : Tables) (found : Option Order)
    → ((o : Order) → found ≡ some o → j ≢ o.id)
    → find? (by_id j) (rows_after t (served t (perform crypto a) found)).orders
      ≡ find? (by_id j) t.orders
served_elsewhere crypto a j t none ne = refl
served_elsewhere crypto a j t (some o) ne =
    written_elsewhere j t o (perform crypto a o) (perform-id crypto a o) (ne o refl)

on_order_foreign :
    (crypto : Crypto) (a : Action) (restaurant order j : ℕ) (t : Tables) (x : Order)
    → IsKeyed t.orders
    → find? (by_id j) t.orders ≡ some x
    → x.restaurant_id ≢ restaurant
    → find?
        (by_id j)
        (rows_after t (on_order (of_restaurant restaurant order) (perform crypto a) t)).orders
      ≡ some x
unfolding on_order
on_order_foreign crypto a restaurant order j t x k e ne =
    served_elsewhere crypto a j t (find? (of_restaurant restaurant order) t.orders) (λ o found same.
      let eo = find?-id restaurant order t.orders o found in
      let hidden = foreign_hidden restaurant j t.orders x k e ne in ground arith)
    ∙ e

-- The calls on orders of app/services/vendor/orders.py, as one type.
pub data VendorCall : Type 0 where
  accept : (actor now : ℕ) → VendorCall
  reject : (actor : ℕ) (reason : Option String) (now : ℕ) → VendorCall
  ready : (actor : ℕ) (pin : String) (now : ℕ) → VendorCall
  handoff : (actor : ℕ) (guess : String) (now : ℕ) → VendorCall

module _ (crypto : Crypto) (restaurant order : ℕ) where
  abbrev pub vendor_call : VendorCall → Tables → Result Tables Tables
  vendor_call (VendorCall.accept actor now) = vendor_accept crypto restaurant order actor now
  vendor_call (VendorCall.reject actor reason now) =
      vendor_reject crypto restaurant order actor reason now
  vendor_call (VendorCall.ready actor pin now) = vendor_ready crypto restaurant order actor pin now
  vendor_call (VendorCall.handoff actor guess now) =
      vendor_handoff crypto restaurant order actor guess now

  -- Where order ids are unique, whatever a vendor calls (accept, reject, ready, handoff) on whatever
  -- order id in the name of their restaurant, every order of another restaurant stays as it was.
  pub vendor_call_foreign :
      (call : VendorCall) (j : ℕ) (t : Tables) (x : Order)
      → IsKeyed t.orders
      → find? (by_id j) t.orders ≡ some x
      → x.restaurant_id ≢ restaurant
      → find? (by_id j) (rows_after t (vendor_call call t)).orders ≡ some x
  unfolding vendor_accept vendor_reject vendor_ready vendor_handoff perform
  vendor_call_foreign (VendorCall.accept actor now) j t x k e ne =
      on_order_foreign crypto (Action.accept actor now) restaurant order j t x k e ne
  vendor_call_foreign (VendorCall.reject actor reason now) j t x k e ne =
      on_order_foreign crypto (Action.reject actor reason now) restaurant order j t x k e ne
  vendor_call_foreign (VendorCall.ready actor pin now) j t x k e ne =
      on_order_foreign crypto (Action.prepare actor pin now) restaurant order j t x k e ne
  vendor_call_foreign (VendorCall.handoff actor guess now) j t x k e ne =
      on_order_foreign crypto (Action.hand_over actor guess now) restaurant order j t x k e ne
