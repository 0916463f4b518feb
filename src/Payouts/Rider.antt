-- ===== src/Payouts/Rider.antt =====
-- app/services/rider/earnings.py: what a rider has earned, the balance and the withdrawals.
pub mod Split
use cheering_shop_backend.Prelude.{
  ℕ, suc, ◌+◌, Bool, List, ◌&&◌, ◌==◌, String, sum_of, count_of, any_of, not, if◌then◌else◌,
  is_just, [], ◌∷◌, ◌++◌,
}
use cheering_shop_backend.Prelude.Text.{strip}
use cheering_shop_backend.Prelude.Int.{ℤ, pos, negsuc, ◌-ℤ◌}
use cheering_shop_backend.Result.{Result, ok, Error, ◌>>=◌, ◌>>◌, raise_if}
use cheering_shop_backend.Money.{Decimal, to_minor, to_major}
use cheering_shop_backend.Enums.{OrderStatus, same_status}
use cheering_shop_backend.Orders.{Order}
use cheering_shop_backend.Store.{RiderProfile}
use cheering_shop_backend.Payouts.{Payout, PayoutCreateRequest, balance, checked_amount, grant}
use cheering_shop_backend.Payouts.Vendor.{payout_min_amount}

-- app/services/rider/offers.py `rider_earning`
unfoldable pub rider_earning : Order → ℕ
rider_earning o = o.bill.delivery_fee + o.bill.priority_fee + o.bill.tip

pub record RiderIncentive : Type 0 where
  pub rider_id : ℕ
  pub amount : ℕ
  pub reason : String
  pub created_by : ℕ

abbrev pub delivered_by : ℕ → Order → Bool
delivered_by rider o = is_just o.rider_id rider && same_status o.status OrderStatus.delivered

-- `_order_money` over all time: (orders, delivery and priority fees, tips).
unfoldable pub order_money : ℕ → List Order → ℕ × ℕ × ℕ
order_money rider orders = (
  count_of (delivered_by rider) orders,
  sum_of (λ o. if delivered_by rider o then o.bill.delivery_fee + o.bill.priority_fee else 0)
      orders,
  sum_of (λ o. if delivered_by rider o then o.bill.tip else 0) orders,
)

-- `_incentives`
unfoldable pub incentives_of : ℕ → List RiderIncentive → ℕ
incentives_of rider = sum_of (λ i. if i.rider_id == rider then i.amount else 0)

pub record Wallet : Type 0 where
  pub orders : List Order
  pub incentives : List RiderIncentive
  pub payouts : List Payout
  pub profiles : List RiderProfile

-- `summary`: the total earned, and the available balance in paisa.
unfoldable pub earned_total : ℕ → Wallet → ℕ
unfolding order_money incentives_of
earned_total rider w =
    let (_, fees, tips) = order_money rider w.orders in
    fees + tips + incentives_of rider w.incentives

unfoldable pub summary_balance : ℕ → Wallet → ℤ
unfolding earned_total
summary_balance rider w = balance (pos (earned_total rider w)) rider w.payouts

-- `to_minor(to_major(n))`, for an amount with a sign: the quotient is rounded away from zero.
abbrev pub through_wire : ℤ → ℤ
through_wire (pos n) = pos (to_minor (to_major n))
through_wire (negsuc n) = pos 0 -ℤ pos (to_minor (to_major (suc n)))

-- `request_payout` reads the balance off the summary, which has it in taka.
unfoldable pub request_payout :
    ℕ → ℕ → List (ℕ × ℕ) → PayoutCreateRequest → Wallet → Result (List Payout) (List Payout)
unfolding summary_balance
request_payout rider id draws body w = do
  amount ← checked_amount payout_min_amount body
  raise_if (not (any_of (λ p. p.user_id == rider) w.profiles))
      (Error.not_found "That rider account has no rider profile")
  grant (through_wire (summary_balance rider w)) id rider draws body amount w.payouts

-- `grant_incentive`
unfoldable pub grant_incentive : ℕ → ℕ → Decimal → String → Wallet → Result Wallet Wallet
grant_incentive admin rider amount reason w = do
  raise_if (not (any_of (λ p. p.user_id == rider) w.profiles))
      (Error.not_found "No rider with that id")
  ok (record w {
    incentives =
        w.incentives
        ++ (record {
          rider_id = rider;
          amount = to_minor amount;
          reason = strip reason;
          created_by = admin;
        }
            ∷ []);
  })
