-- ===== src/Payouts/Vendor.antt =====
-- app/services/vendor/finance.py: what a restaurant has earned, its balance and its withdrawals.
pub mod Solvent
use cheering_shop_backend.Prelude.{
  ℕ, ◌+◌, Bool, true, false, List, String, Option, ◌&&◌, ◌==◌, count_of, sum_of, if◌then◌else◌,
}
use cheering_shop_backend.Prelude.Int.{ℤ, pos, ◌-ℤ◌}
use cheering_shop_backend.Result.{Result, ◌>>=◌}
use cheering_shop_backend.Enums.{OrderStatus, same_status}
use cheering_shop_backend.Orders.{Order}
use cheering_shop_backend.Payouts.{Payout, PayoutCreateRequest, balance, checked_amount, grant}

-- settings.PAYOUT_MIN_AMOUNT, in taka
abbrev pub payout_min_amount : ℕ
payout_min_amount = 100

-- `_delivered`: the orders that earn.
abbrev pub earns : ℕ → Order → Bool
earns restaurant o = o.restaurant_id == restaurant && same_status o.status OrderStatus.delivered

-- `_totals_minor` over all time: (orders, gross sales, commission).
unfoldable pub totals_minor : ℕ → List Order → ℕ × ℕ × ℕ
totals_minor restaurant orders = (
  count_of (earns restaurant) orders,
  sum_of (λ o. if earns restaurant o then o.bill.item_total else 0) orders,
  sum_of (λ o. if earns restaurant o then o.bill.commission_amount else 0) orders,
)

unfoldable pub lifetime_earnings_minor : ℕ → List Order → ℤ
unfolding totals_minor
lifetime_earnings_minor restaurant orders =
    let (_, gross, commission) = totals_minor restaurant orders in pos gross -ℤ pos commission

pub record Finance : Type 0 where
  pub orders : List Order
  pub payouts : List Payout

unfoldable pub available_balance_minor : ℕ → Finance → ℤ
unfolding lifetime_earnings_minor
available_balance_minor restaurant f =
    balance (lifetime_earnings_minor restaurant f.orders) restaurant f.payouts

-- `request_payout`; the balance is read with the restaurant's row locked, so nothing comes between.
unfoldable pub request_payout :
    ℕ → ℕ → List (ℕ × ℕ) → PayoutCreateRequest → Finance → Result (List Payout) (List Payout)
unfolding available_balance_minor
request_payout restaurant id draws body f = do
  amount ← checked_amount payout_min_amount body
  grant (available_balance_minor restaurant f) id restaurant draws body amount f.payouts
