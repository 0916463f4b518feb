-- ===== src/Payouts/Vendor/Solvent.antt =====
-- No restaurant ever withdraws more than it has earned.
use mathlib.Core.Path.{subst}
use native.Mathlib.Decide.{ℕ_discrete}
use cheering_shop_backend.Prelude.{
  ℕ, ◌+◌, ◌-◌, ◌≤◌, ◌≡◌, refl, Option, String, List, [], ◌∷◌, ◌++◌, All, All-append,
  All-update_where, sum_of, sum_of-append, update_where, if◌then◌else◌, arith,
}
use cheering_shop_backend.Prelude.Int.{pos, ◌-ℤ◌, ◌≤ℤ◌, int_laws}
use cheering_shop_backend.Result.{ok, >>=-eq-ok}
use cheering_shop_backend.Orders.{Order}
use cheering_shop_backend.Orders.Handoff.{Crypto}
use cheering_shop_backend.Orders.Invariants.{IsSound, IsFresh}
use cheering_shop_backend.Orders.Lifecycle.{Action, perform, settled}
use cheering_shop_backend.Orders.Lifecycle.Keeps.{perform-IsSound, IsFresh-IsSound}
use cheering_shop_backend.Store.{by_id}
use cheering_shop_backend.Payouts.{
  Payout, PayoutCreateRequest, admin_complete, admin_fail, admin_reopen, grant, checked_amount,
}
use cheering_shop_backend.Payouts.Rows.{
  out, balance-out, out-admin_complete, out-admin_fail, out-admin_reopen, out-grant,
}
use cheering_shop_backend.Payouts.Vendor.{
  Finance, earns, available_balance_minor, request_payout, payout_min_amount,
}

-- What one order is worth to a restaurant.
abbrev pub share : ℕ → Order → ℕ
share restaurant o = if earns restaurant o then o.bill.item_total - o.bill.commission_amount else 0

-- The commission never exceeds the sales, so the earnings are the sum of the shares.
lifetime_earnings-share :
    (restaurant : ℕ) (orders : List Order)
    → All IsSound orders
    → sum_of (λ o. if earns restaurant o then o.bill.item_total else 0) orders
      ≡ sum_of (λ o. if earns restaurant o then o.bill.commission_amount else 0) orders
        + sum_of (share restaurant) orders
lifetime_earnings-share restaurant [] all = refl
lifetime_earnings-share restaurant (o ∷ os) (s, all) =
    let le = s.settled.checks.priced.commission_le in
    ground (arith, le, lifetime_earnings-share restaurant os all)

pub available_balance-share :
    (restaurant : ℕ) (f : Finance)
    → All IsSound f.orders
    → available_balance_minor restaurant f
      ≡ pos (sum_of (share restaurant) f.orders) -ℤ pos (out restaurant f.payouts)
unfolding available_balance_minor
available_balance-share restaurant f all =
    rw balance-out (omega (int_laws, lifetime_earnings-share restaurant f.orders all))

abbrev pub IsSolvent : Finance → Type 0
IsSolvent f =
    All IsSound f.orders
    × ((restaurant : ℕ) → out restaurant f.payouts ≤ sum_of (share restaurant) f.orders)

-- Everything that moves a restaurant's money: its orders' lives, its withdrawals, and the finance
-- team's decisions.
pub data Step (crypto : Crypto) (f g : Finance) : Type 0 where
  place : (o : Order) → IsFresh o → g ≡ record f { orders = f.orders ++ (o ∷ []) } → Step crypto f g
  order_call :
      (order : ℕ) (a : Action)
      → g ≡ record f {
        orders = update_where (by_id order) (λ o. (settled o (perform crypto a o)).order) f.orders;
      }
      → Step crypto f g
  withdraw :
      (restaurant id : ℕ) (draws : List (ℕ × ℕ)) (body : PayoutCreateRequest)
      (payouts : List Payout)
      → request_payout restaurant id draws body f ≡ ok payouts
      → g ≡ record f { payouts = payouts }
      → Step crypto f g
  confirm :
      (payout admin now : ℕ) (payouts : List Payout)
      → admin_complete payout admin now f.payouts ≡ ok payouts
      → g ≡ record f { payouts = payouts }
      → Step crypto f g
  bounce :
      (payout admin : ℕ) (reason : Option String) (now : ℕ) (payouts : List Payout)
      → admin_fail payout admin reason now f.payouts ≡ ok payouts
      → g ≡ record f { payouts = payouts }
      → Step crypto f g
  reopen :
      (payout admin : ℕ) (reason : String) (now : ℕ) (payouts : List Payout)
      → admin_reopen payout admin reason now f.payouts ≡ ok payouts
      → g ≡ record f { payouts = payouts }
      → Step crypto f g

pub data Reach (crypto : Crypto) (f : Finance) : Finance → Type 0 where
  here : Reach crypto f f
  next : {g h : Finance} → Reach crypto f g → Step crypto g h → Reach crypto f h

granted_amount :
    (restaurant id : ℕ) (draws : List (ℕ × ℕ)) (body : PayoutCreateRequest) (f : Finance)
    (payouts : List Payout)
    → request_payout restaurant id draws body f ≡ ok payouts
    → (amount : ℕ) × (checked_amount payout_min_amount body ≡ ok amount)
      × (grant (available_balance_minor restaurant f) id restaurant draws body amount f.payouts
          ≡ ok payouts)
unfolding request_payout
granted_amount restaurant id draws body f payouts e =
    >>=-eq-ok (checked_amount payout_min_amount body) _ e

-- A withdrawal that was granted fits what the restaurant has left.
withdraw_covered :
    (restaurant id : ℕ) (draws : List (ℕ × ℕ)) (body : PayoutCreateRequest) (f : Finance)
    (payouts : List Payout)
    → IsSolvent f
    → request_payout restaurant id draws body f ≡ ok payouts
    → (r : ℕ) → out r payouts ≤ sum_of (share r) f.orders
withdraw_covered restaurant id draws body f payouts (all, covered) e r =
    let (amount, _, granted) = granted_amount restaurant id draws body f payouts e in
    let (fits, grown) =
      out-grant (available_balance_minor restaurant f) id restaurant draws body amount f.payouts
        payouts r granted in
    let left : amount + out restaurant f.payouts ≤ sum_of (share restaurant) f.orders =
      omega (int_laws, rw (available_balance-share restaurant f all) at fits, covered restaurant) in
    elim (ℕ_discrete restaurant r) [
      | yes own ↦ subst (λ x. out x payouts ≤ sum_of (share x) f.orders) own (ground (arith, grown))
      | no other ↦ ground (arith, grown, covered r)
    ]

module _ (crypto : Crypto) where
  -- A delivered order keeps its worth, and no other order has any.
  perform-share :
      (restaurant : ℕ) (a : Action) (o : Order)
      → share restaurant o ≤ share restaurant (settled o (perform crypto a o)).order
  unfolding perform
  perform-share restaurant (Action.accept actor now) o = ground arith
  perform-share restaurant a o = ground arith

  share-update_where :
      (restaurant order : ℕ) (a : Action) (os : List Order)
      → sum_of (share restaurant) os
        ≤ sum_of
            (share restaurant)
            (update_where (by_id order) (λ o. (settled o (perform crypto a o)).order) os)
  share-update_where restaurant order a [] = omega arith
  share-update_where restaurant order a (o ∷ os) =
      ground (arith, perform-share restaurant a o, share-update_where restaurant order a os)

  Step-IsSolvent : {f g : Finance} → Step crypto f g → IsSolvent f → IsSolvent g
  Step-IsSolvent {f} (place o fresh e) (all, covered) = rw e (
    All-append IsSound f.orders (o ∷ []) all (IsFresh-IsSound o fresh, tt),
    λ r. omega (arith, covered r, sum_of-append (share r) f.orders (o ∷ [])),
  )
  Step-IsSolvent {f} (order_call order a e) (all, covered) = rw e (
    All-update_where IsSound (by_id order) _ f.orders (λ o _. perform-IsSound crypto a o) all,
    λ r. omega (arith, covered r, share-update_where r order a f.orders),
  )
  Step-IsSolvent {f} (withdraw restaurant id draws body payouts granted e) (all, covered) =
      rw e (all, withdraw_covered restaurant id draws body f payouts (all, covered) granted)
  Step-IsSolvent {f} (confirm payout admin now payouts done e) (all, covered) =
      rw e (all, λ r. rw (out-admin_complete r payout f.payouts payouts admin now done) (covered r))
  Step-IsSolvent {f} (bounce payout admin reason now payouts done e) (all, covered) = rw e (
    all,
    λ r.
        let (p, _, less) = out-admin_fail r payout f.payouts payouts admin reason now done in
        omega (arith, less, covered r),
  )
  Step-IsSolvent {f} (reopen payout admin reason now payouts done e) (all, covered) =
      rw e (
        all,
        λ r. rw (out-admin_reopen r payout f.payouts payouts admin reason now done) (covered r),
      )

  Reach-IsSolvent : {f g : Finance} → Reach crypto f g → IsSolvent f → IsSolvent g
  Reach-IsSolvent here s = s
  Reach-IsSolvent (next r step) s = Step-IsSolvent step (Reach-IsSolvent r s)

  -- From an empty ledger, through any orders, withdrawals and decisions in any order, no
  -- restaurant's available balance is ever negative.
  pub available_balance_nonneg :
      {f g : Finance} (restaurant : ℕ)
      → f.orders ≡ []
      → f.payouts ≡ []
      → Reach crypto f g
      → pos 0 ≤ℤ available_balance_minor restaurant g
  available_balance_nonneg {f} {g} restaurant no_orders no_payouts r =
      let start : IsSolvent f = (rw no_orders tt, λ x. rw (no_orders, no_payouts) (omega arith)) in
      let (all, covered) = Reach-IsSolvent r start in
      rw (available_balance-share restaurant g all) (omega (int_laws, covered restaurant))
