-- ===== src/Payouts/Rider/Split.antt =====
-- Where a customer's money goes, and that the rider's balance survives the wire.
use cheering_shop_backend.Prelude.{
  ℕ, ◌+◌, ◌-◌, ◌≡◌, refl, List, [], ◌∷◌, sum_of, if◌then◌else◌, arith,
}
use cheering_shop_backend.Prelude.Int.{ℤ, pos, negsuc, ◌-ℤ◌, int_laws}
use cheering_shop_backend.Money.Rounding.{to_minor-to_major}
use cheering_shop_backend.Orders.{Order}
use cheering_shop_backend.Orders.Checks.{IsPriced}
use cheering_shop_backend.Payouts.Rows.{out, balance-out}
use cheering_shop_backend.Payouts.Rider.{
  rider_earning, delivered_by, Wallet, summary_balance, through_wire, incentives_of,
}

-- Every taka is somebody's: on a bill that meets the table's constraints, without packaging fee and
-- tax, the total and the discount are the
-- vendor's payout, the rider's earning, the commission and the platform fee.
rider_earning_split :
    (o : Order)
    → IsPriced o.bill
    → o.bill.packaging_fee ≡ 0
    → o.bill.tax_amount ≡ 0
    → o.bill.grand_total + o.bill.discount
      ≡ (o.bill.item_total - o.bill.commission_amount)
        + rider_earning o
        + o.bill.commission_amount
        + o.bill.platform_fee
unfolding rider_earning
rider_earning_split o p no_packaging no_tax = omega (arith, p.total_math, p.commission_le)

-- Sending the balance through the wire's taka loses nothing, also below zero.
pub through_wire_same : (z : ℤ) → through_wire z ≡ z
through_wire_same (pos n) = rw to_minor-to_major
through_wire_same (negsuc n) = rw to_minor-to_major (omega int_laws)

-- A rider's total is the sum of what each delivered order paid, plus the incentives.
earned_total-rider_earning :
    (rider : ℕ) (orders : List Order)
    → sum_of
          (λ o. if delivered_by rider o then o.bill.delivery_fee + o.bill.priority_fee else 0)
          orders
        + sum_of (λ o. if delivered_by rider o then o.bill.tip else 0) orders
      ≡ sum_of (λ o. if delivered_by rider o then rider_earning o else 0) orders
unfolding rider_earning
earned_total-rider_earning rider [] = refl
earned_total-rider_earning rider (o ∷ os) = ground (arith, earned_total-rider_earning rider os)

-- A rider's balance is the sum of `rider_earning` over the delivered orders, with the incentives,
-- less the payouts that are out.
pub summary_balance-rider_earning :
    (rider : ℕ) (w : Wallet)
    → summary_balance rider w
      ≡ pos (
          sum_of (λ o. if delivered_by rider o then rider_earning o else 0) w.orders
          + incentives_of rider w.incentives)
        -ℤ pos (out rider w.payouts)
unfolding summary_balance
summary_balance-rider_earning rider w =
    rw balance-out (omega (int_laws, earned_total-rider_earning rider w.orders))
