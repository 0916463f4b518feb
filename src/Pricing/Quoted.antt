-- ===== src/Pricing/Quoted.antt =====
-- What the bill of app/services/pricing.py guarantees.
use cheering_shop_backend.Prelude.{
  ℕ, ◌+◌, ◌≤◌, ◌≡◌, refl, none, some, Option, List, [], ◌∷◌, All, sum_of, arith,
}
use cheering_shop_backend.Money.Rounding.{percentage_of-le}
use cheering_shop_backend.Commission.{basis_points}
use cheering_shop_backend.Orders.{DeliveryType}
use cheering_shop_backend.Orders.Checks.{IsPriced}
use cheering_shop_backend.Pricing.{
  Config, QuoteLine, DeliveryFees, quote, line_total, line_commission,
}

-- A rate of at most 100 %, where one is set (ck on the rate columns).
abbrev pub IsRate : Option ℕ → Type 0
IsRate none = Unit
IsRate (some rate) = rate ≤ 10_000

abbrev pub HasRate : QuoteLine → Type 0
HasRate l = IsRate l.commission_rate

basis_points-le :
    (o : Option ℕ) (rate : ℕ) → IsRate o → rate ≤ 10_000 → basis_points o rate ≤ 10_000
basis_points-le none rate h k = k
basis_points-le (some r) rate h k = h

commission-le :
    (lines : List QuoteLine) (rate : ℕ)
    → rate ≤ 10_000
    → All HasRate lines
    → sum_of (line_commission rate) lines ≤ sum_of line_total lines
commission-le [] rate h k = omega arith
commission-le (l ∷ ls) rate h (r, rs) = omega (
  arith,
  percentage_of-le (line_total l) (basis_points l.commission_rate rate)
      (basis_points-le l.commission_rate rate r h),
  commission-le ls rate h rs,
)

module _ (config : Config) (lines : List QuoteLine) (metres rate : ℕ) (fees : DeliveryFees) where
  -- Where the rates are at most 100 %, every bill meets the constraints of the orders table, so the
  -- insert is never refused for its money: the total is the sum of its parts less the discount, no priority fee is charged on a
  -- standard order, and the commission is at most the price of the food.
  pub quote-IsPriced :
      (discount tip : ℕ) (kind : DeliveryType)
      → rate ≤ 10_000
      → All HasRate lines
      → IsPriced (quote config lines metres rate discount tip fees kind)
  unfolding quote
  quote-IsPriced discount tip kind h k = ground (arith, commission-le lines rate h k)

  -- Without a discount, priority costs its fee and nothing else, also where the delivery is free.
  quote_priority :
      (tip : ℕ)
      → (quote config lines metres rate 0 tip fees DeliveryType.priority).grand_total
        ≡ (quote config lines metres rate 0 tip fees DeliveryType.standard).grand_total
          + fees.priority
  unfolding quote
  quote_priority tip = omega arith

  -- A discount or a tip changes neither what the vendor is paid nor the delivery fee.
  pub quote_vendor_share :
      (discount discount' tip tip' : ℕ) (kind : DeliveryType)
      → let a = quote config lines metres rate discount tip fees kind in
        let b = quote config lines metres rate discount' tip' fees kind in
        (a.item_total ≡ b.item_total)
        × (a.commission_amount ≡ b.commission_amount)
        × (a.delivery_fee ≡ b.delivery_fee)
  unfolding quote
  quote_vendor_share discount discount' tip tip' kind = (refl, refl, refl)

  -- The bill never takes off more than the discount that it was given.
  pub quote_discount-le :
      (discount tip : ℕ) (kind : DeliveryType)
      → (quote config lines metres rate discount tip fees kind).discount ≤ discount
  unfolding quote
  quote_discount-le discount tip kind = omega arith
