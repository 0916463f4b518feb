-- ===== src/Pricing/Fee.antt =====
-- The delivery fee of app/services/pricing.py and its inverse for the "max delivery fee" filter.
use cheering_shop_backend.Prelude.{ℕ, ◌*◌, ◌≤◌, arith, Bool-cases, inl, inr}
use cheering_shop_backend.Pricing.{
  DeliveryFees, delivery_fee_minor, distance_fee, is_waived, delivery_reach_km, Reach,
}

distance_fee_mono :
    (near far : ℕ) (fees : DeliveryFees)
    → near ≤ far
    → distance_fee near fees ≤ distance_fee far fees
unfolding distance_fee
distance_fee_mono near far fees h =
    let product : fees.per_km * near ≤ fees.per_km * far = grind arith in omega arith

-- A longer trip never costs less.
delivery_fee_minor_mono :
    (threshold item_total near far : ℕ) (fees : DeliveryFees)
    → near ≤ far
    → delivery_fee_minor threshold near item_total fees
      ≤ delivery_fee_minor threshold far item_total fees
delivery_fee_minor_mono threshold item_total near far fees h =
    unfold delivery_fee_minor in
    elim (Bool-cases (is_waived threshold item_total)) [
      | inl waived ↦ rw waived (omega arith)
      | inr charged ↦ rw charged (omega (arith, distance_fee_mono near far fees h))
    ]

abbrev pub Reaches : ℕ → Reach → Type 0
Reaches metres Reach.nowhere = ⊥
Reaches metres Reach.everywhere = Unit
Reaches metres (Reach.up_to numerator per_km) = metres * per_km ≤ 1000 * numerator

-- A distance within the reach of a budget has a fee that fits the budget, if no cart is waived.
delivery_reach_km_fits :
    (budget metres item_total : ℕ) (fees : DeliveryFees)
    → Reaches metres (delivery_reach_km budget fees)
    → delivery_fee_minor 0 metres item_total fees ≤ budget
unfolding delivery_fee_minor delivery_reach_km
delivery_reach_km_fits budget metres item_total fees h = ground arith
