-- ===== src/Store/Dispatch/Offers.antt =====
-- First come, first served: what `accept` of app/services/rider/offers.py guarantees.
use cheering_shop_backend.Prelude.{
  ℕ, ◌+◌, ◌≤◌, ◌≡◌, ◌≢◌, refl, false, List, [], ◌∷◌, count_of, update_where, any_of, arith,
}
use cheering_shop_backend.Result.{ok}
use cheering_shop_backend.Orders.{Order}
use cheering_shop_backend.Orders.Moves.{is_offer, claim}
use cheering_shop_backend.Store.{Tables, max_concurrent_jobs, by_id}
use cheering_shop_backend.Store.Dispatch.{accept_offer, count_in_flight, claimable, carries}

-- No two rows have the same primary key.
abbrev pub IsKeyed : List Order → Type 0
IsKeyed [] = Unit
IsKeyed (o ∷ os) = (any_of (by_id o.id) os ≡ false) × IsKeyed os

-- A claimed row is no offer, so nothing is left to claim.
claimed_gone :
    (order rider now : ℕ) (os : List Order)
    → any_of (claimable order) (update_where (claimable order) (claim rider now) os) ≡ false
unfolding is_offer claim
claimed_gone order rider now [] = refl
claimed_gone order rider now (o ∷ os) = ground (arith, claimed_gone order rider now os)

-- Whoever accepts first wins: once an offer is accepted, a second acceptance of the same order, by
-- any rider, is refused.
pub accept_offer_once :
    (t t' : Tables) (rider rival order now later : ℕ)
    → accept_offer rider order now t ≡ ok t'
    → (t'' : Tables) → accept_offer rival order later t' ≢ ok t''
unfolding accept_offer
accept_offer_once t t' rider rival order now later e t'' f =
    ground (arith, claimed_gone order rider now t.orders)

unclaimed_same :
    (order rider now : ℕ) (os : List Order)
    → any_of (by_id order) os ≡ false
    → count_of (carries rider) (update_where (claimable order) (claim rider now) os)
      ≡ count_of (carries rider) os
unfolding is_offer
unclaimed_same order rider now [] h = refl
unclaimed_same order rider now (o ∷ os) h = ground (arith, unclaimed_same order rider now os)

claim_adds_one :
    (order rider now : ℕ) (os : List Order)
    → IsKeyed os
    → count_of (carries rider) (update_where (claimable order) (claim rider now) os)
      ≤ count_of (carries rider) os + 1
unfolding is_offer claim
claim_adds_one order rider now [] k = omega arith
claim_adds_one order rider now (o ∷ os) k =
    ground (arith, claim_adds_one order rider now os k.1, unclaimed_same order rider now os)

-- Where order ids are unique, a rider who accepts an offer then carries at most MAX_CONCURRENT_JOBS orders.
pub accept_offer_capped :
    (t t' : Tables) (rider order now : ℕ)
    → IsKeyed t.orders
    → accept_offer rider order now t ≡ ok t'
    → count_in_flight rider t' ≤ max_concurrent_jobs
unfolding accept_offer count_in_flight
accept_offer_capped t t' rider order now k e =
    ground (arith, claim_adds_one order rider now t.orders k)
