-- ===== src/Store/Sweep.antt =====
-- The auto-decline sweep of app/services/vendor/orders.py, over the whole table.
use cheering_shop_backend.Prelude.Lookups.{find?-hit, find?-update_where}
use cheering_shop_backend.Prelude.{
  ℕ, ◌≡◌, ◌≢◌, ◌≤◌, ◌⊎◌, Bool, true, false, none, some, List, ◌&&◌, not, find?, update_where, arith,
  if◌then◌else◌, ◌==◌,
}
use cheering_shop_backend.Result.{ok}
use cheering_shop_backend.Enums.{OrderStatus, PaymentStatus, ActorType}
use cheering_shop_backend.Orders.{Order}
use cheering_shop_backend.Orders.Moves.{is_due, auto_decline}
use cheering_shop_backend.Orders.Vendor.{accept_order}
use cheering_shop_backend.Orders.{Change}
use cheering_shop_backend.Store.{Tables, by_id, auto_decline_due}

auto_decline_id : (now j : ℕ) (o : Order) → by_id j (auto_decline now o).order ≡ by_id j o
unfolding auto_decline
auto_decline_id now j o = ground arith

swept_row :
    (locked : ℕ → Bool) (now j : ℕ) (os : List Order) (o : Order)
    → find? (by_id j) os ≡ some o
    → find?
        (by_id j)
        (update_where (λ x. is_due now x && not (locked x.id)) (λ x. (auto_decline now x).order) os)
      ≡ some (if is_due now o && not (locked o.id) then (auto_decline now o).order else o)
swept_row locked now j os o e =
    find?-update_where (by_id j) (λ x. is_due now x && not (locked x.id))
      (λ x. (auto_decline now x).order) os (auto_decline_id now j) e

-- What the sweep owes the customer of an order that it takes: the order is cancelled by the system,
-- its countdown is over, and a payment is given back.
pub record IsDeclined (o p : Order) : Type 0 where
  pub same_order : p.id ≡ o.id
  pub cancelled : p.status ≡ OrderStatus.cancelled
  pub by_system : p.cancelled_by ≡ some ActorType.system
  pub stopped : p.auto_decline_at ≡ none
  pub unpaid : p.payment_status ≢ PaymentStatus.paid
  pub given_back :
      o.payment_status ≢ PaymentStatus.paid ⊎ (p.payment_status ≡ PaymentStatus.refunded)

-- After a sweep at `now`, an order that was PENDING with a deadline at or before `now`, and that no
-- other transaction held, is cancelled by the system, has no deadline, and is refunded if it was paid.
pub auto_decline_due_declines :
    (locked : ℕ → Bool) (now j deadline : ℕ) (t : Tables) (o : Order)
    → find? (by_id j) t.orders ≡ some o
    → o.status ≡ OrderStatus.pending
    → o.auto_decline_at ≡ some deadline
    → deadline ≤ now
    → locked j ≡ false
    → (p : Order) × (find? (by_id j) (auto_decline_due locked now t).orders ≡ some p)
      × IsDeclined o p
unfolding auto_decline_due is_due auto_decline
auto_decline_due_declines locked now j deadline t o found waits set late free =
    let row = swept_row locked now j t.orders o found in
    let own : (o.id == j) ≡ true = find?-hit (by_id j) t.orders found in
    let same : j ≡ o.id = ground arith in
    let free_row : locked o.id ≡ false = rw same at free in
    let due : (is_due now o && not (locked o.id)) ≡ true = ground arith in
    ((auto_decline now o).order, rw due at row, ground arith)

-- The sweep leaves every other order as it was.
auto_decline_due_spares :
    (locked : ℕ → Bool) (now j : ℕ) (t : Tables) (o : Order)
    → find? (by_id j) t.orders ≡ some o
    → is_due now o ≡ false
    → find? (by_id j) (auto_decline_due locked now t).orders ≡ some o
unfolding auto_decline_due
auto_decline_due_spares locked now j t o found early =
    rw early at (swept_row locked now j t.orders o found)

-- An order that the kitchen has accepted is never swept, however late it is.
accept_order_stops_clock :
    (o : Order) (actor now later : ℕ) (c : Change)
    → accept_order o actor now ≡ ok c
    → is_due later c.order ≡ false
unfolding accept_order is_due
accept_order_stops_clock o actor now later c e = ground arith
