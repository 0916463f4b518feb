-- ===== src/Store/Dispatch.antt =====
-- app/services/rider/dispatch.py and offers.py: who may carry an order, who is chosen for it, and
-- who wins an offer. The geo search is Redis's: its answer is an argument, the riders' ids from the
-- nearest on.
pub mod Offers
use cheering_shop_backend.Prelude.{
  ℕ, Bool, true, false, Option, none, some, List, [], ◌∷◌, ◌&&◌, ◌||◌, not, ◌==◌, ltb, leb,
  if◌then◌else◌, find?, count_of, update_where, any_of, is_just,
}
use cheering_shop_backend.Result.{Result, ok, Error, ◌>>=◌, ◌>>◌, raise_if, or_raise}
use cheering_shop_backend.Enums.{UserRole, OrderStatus, one_of}
use cheering_shop_backend.Orders.{Order}
use cheering_shop_backend.Orders.Moves.{in_flight, assign_rider, assignable, is_offer, claim}
use cheering_shop_backend.Store.{RiderProfile, User, Tables, max_concurrent_jobs, by_id, written}

abbrev pub carries : ℕ → Order → Bool
carries rider o = is_just o.rider_id rider && in_flight o.status

unfoldable pub count_in_flight : ℕ → Tables → ℕ
count_in_flight rider t = count_of (carries rider) t.orders

abbrev pub is_rider : UserRole → Bool
is_rider UserRole.rider = true
is_rider _ = false

abbrev pub on_shift : ℕ → RiderProfile → Bool
on_shift user p = p.user_id == user && p.is_online && p.is_verified

-- `_available_riders_query`
unfoldable pub available : Tables → User → Bool
available t u = is_rider u.role && u.is_active && any_of (on_shift u.id) t.profiles

abbrev pub can_take : Tables → ℕ → User → Bool
can_take t rider u =
    u.id == rider && available t u && ltb (count_in_flight rider t) max_concurrent_jobs

-- `_pick_nearest`: the first of the riders near by who is available and not full.
unfoldable pub pick_nearest : Tables → List ℕ → Option User
unfolding available count_in_flight
pick_nearest t [] = none
pick_nearest t (r ∷ near) =
    let rest = pick_nearest t near in
    elim (find? (can_take t r) t.users) [ some u ↦ some u | none ↦ rest ]

-- `ORDER BY load, created_at`
abbrev pub idler : Tables → User → User → Bool
idler t u v =
    ltb (count_in_flight u.id t) (count_in_flight v.id t)
    || (count_in_flight u.id t == count_in_flight v.id t && ltb u.created_at v.created_at)

abbrev pub better : Tables → User → Option User → User
better t u none = u
better t u (some v) = if idler t v u then v else u

-- The first row of the available riders in that order.
unfoldable pub pick_idlest : Tables → List User → Option User
unfolding available count_in_flight
pick_idlest t [] = none
pick_idlest t (u ∷ us) =
    let rest = pick_idlest t us in if available t u then some (better t u rest) else rest

-- `_pick_rider`; with no restaurant row there is no position to search from.
unfoldable pub pick_rider : Tables → Option (List ℕ) → Option User
unfolding pick_nearest pick_idlest
pick_rider t none = pick_idlest t t.users
pick_rider t (some near) = elim (pick_nearest t near) [
  | some u ↦ some u
  | none ↦ pick_idlest t t.users
]

-- `_resolve_rider`
unfoldable pub resolve_rider : ℕ → Tables → Result Tables User
resolve_rider rider t = do
  u ←
      or_raise (find? (λ u. u.id == rider && is_rider u.role) t.users)
        (Error.not_found "No rider account with that id")
  raise_if (not u.is_active) (Error.conflict "That rider account is deactivated")
  raise_if (not (any_of (λ p. p.user_id == rider && p.is_verified) t.profiles))
      (Error.conflict "That rider is not verified")
  ok u

abbrev pub choose : Option ℕ → Option (List ℕ) → Tables → Result Tables User
choose none near t =
    or_raise (pick_rider t near) (Error.conflict "No rider is available to take this order")
choose (some rider) near t = resolve_rider rider t

-- `assign_to_order`: refused for a picked-up order before any rider is looked for.
unfoldable pub assign_to_order : ℕ → Option ℕ → Option (List ℕ) → Tables → Result Tables Tables
unfolding pick_rider resolve_rider
assign_to_order order rider near t = do
  o ← or_raise (find? (by_id order) t.orders) (Error.not_found "No order with that id")
  raise_if (not (assignable o.status))
      (Error.conflict "An order that is .. cannot be assigned a rider")
  u ← choose rider near t
  written t (assign_rider o u.id)

-- `_require_available`
abbrev pub require_available : ℕ → Tables → Result Tables RiderProfile
require_available rider t = do
  p ←
      or_raise (find? (λ p. p.user_id == rider) t.profiles)
        (Error.not_found "That account has no rider profile")
  raise_if (not p.is_verified) (Error.conflict "You are not cleared to carry orders yet")
  raise_if (not p.is_online) (Error.conflict "Go on shift to see and accept orders")
  ok p

abbrev pub claimable : ℕ → Order → Bool
claimable order o = is_offer o && o.id == order

-- `accept`: the guards, then one conditional UPDATE.
unfoldable pub accept_offer : (rider order now : ℕ) → Tables → Result Tables Tables
unfolding count_in_flight is_offer claim
accept_offer rider order now t = do
  require_available rider t
  raise_if (leb max_concurrent_jobs (count_in_flight rider t))
      (Error.conflict "You already carry .. orders")
  raise_if (not (any_of (by_id order) t.orders)) (Error.not_found "Order not found")
  raise_if (not (any_of (claimable order) t.orders))
      (Error.conflict "This order is no longer available")
  ok (record t { orders = update_where (claimable order) (claim rider now) t.orders })
