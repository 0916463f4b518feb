-- ===== src/Tests/Money.antt =====
-- Examples of the theorems on prices, promo codes, payouts and opening hours.
use cheering_shop_backend.Prelude.{
  find?, ◌↔◌, inl, update_where, ◌≡◌, ◌≢◌, ◌<◌, ◌*◌, refl, Bool, true, false, ◌||◌, none, some,
  String, List, [], ◌∷◌, ◌+◌, arith, sum_of, if◌then◌else◌,
}
use cheering_shop_backend.Orders.Lifecycle.{Action, perform, settled}
use cheering_shop_backend.Store.{by_id}
use cheering_shop_backend.Enums.{ActorType}
use cheering_shop_backend.Prelude.Text.{strip, is_empty}
use cheering_shop_backend.Prelude.Int.{pos, ◌-ℤ◌, ◌≤ℤ◌}
use cheering_shop_backend.Result.{ok}
use cheering_shop_backend.Money.{percentage_of}
use cheering_shop_backend.Orders.{DeliveryType}
use cheering_shop_backend.Orders.Checks.{IsPriced}
use cheering_shop_backend.Pricing.{quote, delivery_reach_km}
use cheering_shop_backend.Pricing.Fee.{Reaches}
use cheering_shop_backend.Pricing.Quoted.{quote-IsPriced}
use cheering_shop_backend.Promos.{judge, validate, discount_of}
use cheering_shop_backend.Promos.Limits.{validate_explains}
use cheering_shop_backend.Promos.Exact.{IsUsable, applied, validate_iff}
use cheering_shop_backend.Payouts.{Payout, admin_fail, failed_row}
use cheering_shop_backend.Payouts.Rows.{out}
use cheering_shop_backend.Payouts.Vendor.{Finance, available_balance_minor}
use cheering_shop_backend.Payouts.Vendor.Solvent.{Step, Reach as Course, available_balance_nonneg}
use cheering_shop_backend.Payouts.Rider.{
  Wallet, rider_earning, summary_balance, delivered_by, incentives_of,
}
use cheering_shop_backend.Payouts.Rider.Split.{summary_balance-rider_earning}
use cheering_shop_backend.BusinessHours.{Hours, is_open_at, weekday}
use cheering_shop_backend.BusinessHours.Next.{next_change}
use cheering_shop_backend.BusinessHours.Next.First.{next_change_first}
use cheering_shop_backend.BusinessHours.Open.{is_open_at_iff, open_today, open_since_yesterday}
use cheering_shop_backend.Tests.{
  crypto, pending, delivered, pending-IsFresh, config, fees, dish_line, promo, payout,
}

reached : Reaches 2000 (delivery_reach_km 6000 fees)
unfolding delivery_reach_km
reached = omega arith

quote-IsPriced_example :
    IsPriced (quote config (dish_line ∷ []) 3000 1500 200 50 fees DeliveryType.priority)
quote-IsPriced_example =
    quote-IsPriced config (dish_line ∷ []) 3000 1500 fees 200 50 DeliveryType.priority (omega arith)
      (tt, tt)

abbrev same : String → String → Bool
same a b = true

spoken : is_empty (strip "EID") ≡ false
unfolding strip
spoken = refl

expired : (validate same (promo ∷ []) [] (some "EID") 5000 10 20 30_000).promo ≡ none
unfolding validate strip judge
expired = refl

validate_iff_example :
    (validate same (promo ∷ []) [] (some "EID") 50 10 20 30_000 ≡ applied promo 30_000) ↔ (
      (find? (λ q. same q.code (strip "EID")) (promo ∷ []) ≡ some promo)
      × IsUsable promo [] 50 10 20 30_000)
validate_iff_example = validate_iff [] 50 10 20 30_000 same (promo ∷ []) "EID" promo spoken

eid-IsUsable : IsUsable promo [] 50 10 20 30_000
unfolding discount_of percentage_of
eid-IsUsable = record {
  active = refl;
  started = omega arith;
  running = omega arith;
  here = tt;
  spent_enough = omega arith;
  claims_left = omega arith;
  user_left = inl refl;
  in_budget = omega arith;
}

eid_applied : validate same (promo ∷ []) [] (some "EID") 50 10 20 30_000 ≡ applied promo 30_000
eid_applied =
    (validate_iff [] 50 10 20 30_000 same (promo ∷ []) "EID" promo spoken).1 (refl, eid-IsUsable)

validate_explains_example :
    ((validate same (promo ∷ []) [] (some "EID") 5000 10 20 30_000).discount ≡ 0)
    × ((validate same (promo ∷ []) [] (some "EID") 5000 10 20 30_000).error ≢ none)
validate_explains_example =
    validate_explains same (promo ∷ []) [] "EID" 5000 10 20 30_000 spoken expired

abbrev bounced : List Payout
bounced = failed_row 1 none 70 payout ∷ []

fail_ok : admin_fail 9 1 none 70 (payout ∷ []) ≡ ok bounced
unfolding admin_fail
fail_ok = refl

abbrev ledger : Finance
ledger = record { orders = []; payouts = [] }

-- Placed, accepted, given to a rider, made ready, handed over and delivered.
abbrev course : List Action
course =
    Action.accept 5 10
    ∷ Action.assign 30
    ∷ Action.prepare 5 "1234" 20
    ∷ Action.hand_over 5 "1234" 30
    ∷ Action.deliver ActorType.rider 30 40
    ∷ []

abbrev called : Finance → Action → Finance
called f a = record f {
  orders = update_where (by_id 1) (λ o. (settled o (perform crypto a o)).order) f.orders;
}

abbrev called_all : Finance → List Action → Finance
called_all f [] = f
called_all f (a ∷ more) = called_all (called f a) more

course-Reach :
    {g : Finance} (f : Finance) (calls : List Action)
    → Course crypto g f
    → Course crypto g (called_all f calls)
course-Reach f [] r = r
course-Reach f (a ∷ more) r =
    course-Reach (called f a) more (Course.next r (Step.order_call 1 a refl))

abbrev placed_ledger : Finance
placed_ledger = record ledger { orders = pending ∷ [] }

abbrev later : Finance
later = called_all placed_ledger course

available_balance_nonneg_example : pos 0 ≤ℤ available_balance_minor 20 later
available_balance_nonneg_example =
    available_balance_nonneg crypto {f = ledger} {g = later} 20 refl refl (
      course-Reach placed_ledger course
        (Course.next Course.here (Step.place pending pending-IsFresh refl)))

abbrev wallet : Wallet
wallet = record { orders = delivered ∷ []; incentives = []; payouts = []; profiles = [] }

summary_balance-rider_earning_example :
    summary_balance 30 wallet
    ≡ pos (
        sum_of (λ o. if delivered_by 30 o then rider_earning o else 0) wallet.orders
        + incentives_of 30 wallet.incentives)
      -ℤ pos (out 30 wallet.payouts)
summary_balance-rider_earning_example = summary_balance-rider_earning 30 wallet

-- Six in the evening to two at night, on every day.
abbrev evenings : Hours
evenings day = record { is_open = true; opens_at = some 64_800; closes_at = some 7200 }

is_open_at_iff_example : is_open_at evenings (101 * 86_400 + 3600) ≡ (
    open_since_yesterday (evenings (weekday 100)) 3600 || open_today (evenings (weekday 101)) 3600)
is_open_at_iff_example =
    is_open_at_iff evenings 100 3600 (omega arith) (λ d. (omega arith, omega arith))

-- At one at night the store closes at two.
evenings_close : next_change evenings (101 * 86_400 + 3600) ≡ some (101 * 86_400 + 7200)
unfolding next_change is_open_at
evenings_close = refl

next_change_first_example :
    (101 * 86_400 + 3600 < 101 * 86_400 + 7200)
    × (is_open_at evenings (101 * 86_400 + 7200) ≢ is_open_at evenings (101 * 86_400 + 3600))
    × (is_open_at evenings (101 * 86_400 + 5000) ≡ is_open_at evenings (101 * 86_400 + 3600))
next_change_first_example =
    next_change_first evenings (101 * 86_400 + 3600) (101 * 86_400 + 7200) (101 * 86_400 + 5000)
      (λ d. (omega arith, omega arith)) (omega arith) evenings_close (omega arith) (omega arith)
