-- ===== src/Store.antt =====
-- The service calls on the tables: what each loads, within whose scope, and what it writes back
-- (app/services/vendor/orders.py, customer/orders.py, admin/orders.py, rider/jobs.py,
-- rider/dispatch.py and rider/offers.py). A call that raises leaves the tables to the rollback.
pub mod Dispatch
pub mod Sound
pub mod Interleaving
pub mod Scope
pub mod Sweep
use cheering_shop_backend.Prelude.{
  ℕ, ◌+◌, Bool, Option, none, some, String, List, [], ◌∷◌, ◌++◌, ◌&&◌, ◌==◌, not, ltb, leb,
  if◌then◌else◌, find?, keep, count_of, update_where, any_of, is_none, is_just,
}
use mathlib.Core.List.{flat_map}
use cheering_shop_backend.Result.{Result, ok, err, saved, Error, ◌>>=◌, ◌>>◌, raise_if, or_raise}
use cheering_shop_backend.Enums.{UserRole, OrderStatus, ActorType, one_of}
use cheering_shop_backend.Orders.{Order, Change, StatusHistory}
use cheering_shop_backend.Orders.Vendor.{accept_order, reject_order}
use cheering_shop_backend.Orders.Handoff.{Crypto, mark_ready, handoff_order}
use cheering_shop_backend.Orders.Moves.{
  customer_cancel, admin_cancel, refund_order, complete, is_due, auto_decline, assign_rider,
  is_offer, claim, in_flight, without_contact,
}

-- app/models/rider.py `RiderProfile`, the columns that dispatch reads
pub record RiderProfile : Type 0 where
  pub user_id : ℕ
  pub is_online : Bool
  pub is_verified : Bool
  pub total_deliveries : ℕ

-- app/models/user.py `User`, the columns that dispatch reads
pub record User : Type 0 where
  pub id : ℕ
  pub role : UserRole
  pub is_active : Bool
  pub created_at : ℕ

pub record Tables : Type 0 where
  pub orders : List Order
  pub history : List StatusHistory
  pub profiles : List RiderProfile
  pub users : List User

-- settings.MAX_CONCURRENT_JOBS
abbrev pub max_concurrent_jobs : ℕ
max_concurrent_jobs = 3

-- Writing a row back by its primary key, with the history rows that the call added.
unfoldable pub write : Tables → Change → Tables
write t c = record t {
  orders = update_where (λ x. x.id == c.order.id) (λ _. c.order) t.orders;
  history = t.history ++ c.history;
}

abbrev pub written : Tables → Result Change Change → Result Tables Tables
written t (ok c) = ok (write t c)
written t (err e) = err e
written t (saved c e) = saved (write t c) e

abbrev pub served : Tables → (Order → Result Change Change) → Option Order → Result Tables Tables
served t op none = err (Error.not_found "Order not found")
served t op (some o) = written t (op o)

-- Load the one row that the predicate selects, or 404; run the operation on it; write it back.
unfoldable pub on_order :
    (Order → Bool) → (Order → Result Change Change) → Tables → Result Tables Tables
on_order scope op t = served t op (find? scope t.orders)

-- `_get_order`: the restaurant's own order.
abbrev pub of_restaurant : ℕ → ℕ → Order → Bool
of_restaurant restaurant_id order_id o = o.id == order_id && o.restaurant_id == restaurant_id

-- `_load_order`: the customer's own order.
abbrev pub of_customer : ℕ → ℕ → Order → Bool
of_customer user_id order_id o = o.id == order_id && o.customer_id == user_id

-- `_load_job`: an order that the rider carries.
abbrev pub of_rider : ℕ → ℕ → Order → Bool
of_rider rider_id order_id o = o.id == order_id && is_just o.rider_id rider_id

abbrev pub by_id : ℕ → Order → Bool
by_id order_id o = o.id == order_id

abbrev pub count_delivery : Option ℕ → Tables → Tables
count_delivery rider t = record t {
  profiles =
      update_where (λ p. is_just rider p.user_id)
        (λ p. record p { total_deliveries = p.total_deliveries + 1 }) t.profiles;
}

-- `_complete` also counts the delivery on the profile of the order's rider.
unfoldable pub complete_row : Order → ActorType → ℕ → ℕ → Tables → Result Tables Tables
complete_row o actor actor_id now t = do
  t' ← written t (complete o actor actor_id now)
  ok (count_delivery o.rider_id t')

module _ (crypto : Crypto) where
  -- POST /vendor/orders/{id}/accept, /reject, /ready and /handoff
  unfoldable pub vendor_accept : (restaurant order actor now : ℕ) → Tables → Result Tables Tables
  unfolding on_order
  vendor_accept restaurant order actor now =
      on_order (of_restaurant restaurant order) (λ o. accept_order o actor now)

  unfoldable pub vendor_reject :
      (restaurant order actor : ℕ) → Option String → ℕ → Tables → Result Tables Tables
  unfolding on_order
  vendor_reject restaurant order actor reason now =
      on_order (of_restaurant restaurant order) (λ o. reject_order o actor reason now)

  unfoldable pub vendor_ready :
      (restaurant order actor : ℕ) → String → ℕ → Tables → Result Tables Tables
  unfolding on_order
  vendor_ready restaurant order actor pin now =
      on_order (of_restaurant restaurant order) (λ o. mark_ready crypto o actor pin now)

  unfoldable pub vendor_handoff :
      (restaurant order actor : ℕ) → String → ℕ → Tables → Result Tables Tables
  unfolding on_order
  vendor_handoff restaurant order actor pin now =
      on_order (of_restaurant restaurant order) (λ o. handoff_order crypto o actor pin now)

-- POST /orders/{id}/cancel
unfoldable pub cancel_own : (user order : ℕ) → Option String → ℕ → Tables → Result Tables Tables
unfolding on_order
cancel_own user order reason now =
    on_order (of_customer user order) (λ o. customer_cancel o user reason now)

-- POST /admin/orders/{id}/cancel and /refund
unfoldable pub operator_cancel : (admin order : ℕ) → String → ℕ → Tables → Result Tables Tables
unfolding on_order
operator_cancel admin order reason now =
    on_order (by_id order) (λ o. admin_cancel o admin reason now)

unfoldable pub operator_refund : (admin order : ℕ) → String → ℕ → Tables → Result Tables Tables
unfolding on_order
operator_refund admin order reason now =
    on_order (by_id order) (λ o. refund_order o admin reason now)

-- `deliver` and `deliver_as_admin`
unfoldable pub deliver : (rider order now : ℕ) → Tables → Result Tables Tables
unfolding complete_row
deliver rider order now t = do
  o ← or_raise (find? (of_rider rider order) t.orders) (Error.not_found "No order assigned to you")
  complete_row o ActorType.rider rider now t

unfoldable pub deliver_as_admin : (admin order now : ℕ) → Tables → Result Tables Tables
unfolding complete_row
deliver_as_admin admin order now t = do
  o ← or_raise (find? (by_id order) t.orders) (Error.not_found "No order with that id")
  raise_if (is_none o.rider_id) (Error.conflict "That order has no rider")
  complete_row o ActorType.admin admin now t

-- `auto_decline_due`; SKIP LOCKED passes over the rows that another transaction holds.
unfoldable pub auto_decline_due : (locked : ℕ → Bool) → ℕ → Tables → Tables
unfolding is_due auto_decline
auto_decline_due locked now t =
    let due = λ (o : Order). is_due now o && not (locked o.id) in
    record t {
      orders = update_where due (λ o. (auto_decline now o).order) t.orders;
      history = t.history ++ flat_map (λ o. (auto_decline now o).history) (keep due t.orders);
    }

-- `delete_account` of account_deletion.py, on the orders of a customer: refused while one is under
-- way.
unfoldable pub forget_orders : (user : ℕ) → Tables → Result Tables Tables
forget_orders user t = do
  raise_if (any_of (λ o. o.customer_id == user && in_flight o.status) t.orders)
      (Error.conflict "You have orders in progress.")
  ok (record t { orders = update_where (λ o. o.customer_id == user) without_contact t.orders })
