-- ===== src/Promos/Exact.antt =====
-- When `validate` of app/services/customer/promos.py applies a code, and what it is worth.
use mathlib.Core.Path.{subst}
use mathlib.Core.Option.{some-injective}
use cheering_shop_backend.Prelude.{
  ℕ, ◌+◌, ◌≤◌, ◌<◌, ◌≡◌, ◌↔◌, ◌⊎◌, refl, sym, ap, Bool, true, false, Option, none, some, String,
  List, find?, count_of, arith, min,
}
use cheering_shop_backend.Prelude.Text.{strip, is_empty}
use cheering_shop_backend.Promos.{
  PromoCode, PromoRedemption, PromoResult, judge, judged, validate, used_by, spent_on, discount_of,
  reaches, exceeds, elsewhere,
}

abbrev pub IsFor : (scope : Option ℕ) → (restaurant : ℕ) → Type 0
IsFor none restaurant = Unit
IsFor (some own) restaurant = own ≡ restaurant

-- No limit, or one that is not passed.
abbrev pub IsUnder : ℕ → Option ℕ → Type 0
IsUnder n none = Unit
IsUnder n (some limit) = n ≤ limit

-- What a code asks of an order, with one more claim and its whole discount counted in.
pub record IsUsable (promo : PromoCode) (redemptions : List PromoRedemption)
    (now user restaurant item_total : ℕ) : Type 0 where
  pub active : promo.is_active ≡ true
  pub started : promo.valid_from ≤ now
  pub running : now ≤ promo.valid_until
  pub here : IsFor promo.restaurant_id restaurant
  pub spent_enough : promo.min_order_amount ≤ item_total
  pub claims_left : IsUnder (promo.times_used + 1) promo.usage_limit
  pub user_left :
      (count_of (used_by promo.id user) redemptions ≡ 0)
      ⊎ (count_of (used_by promo.id user) redemptions < promo.per_user_limit)
  pub in_budget :
      IsUnder (spent_on promo.id redemptions + discount_of promo item_total) promo.budget_cap

abbrev pub applied : PromoCode → ℕ → PromoResult
applied promo item_total = record {
  discount = min (discount_of promo item_total) item_total;
  promo = some promo;
  error = none;
}

here_iff :
    (scope : Option ℕ) (restaurant : ℕ)
    → (elsewhere scope restaurant ≡ false) ↔ IsFor scope restaurant
here_iff none restaurant = (λ _. tt, λ _. refl)
here_iff (some own) restaurant = (λ e. ground arith, λ e. ground arith)

claims_iff : (n : ℕ) (limit : Option ℕ) → (reaches n limit ≡ false) ↔ IsUnder (n + 1) limit
claims_iff n none = (λ _. tt, λ _. refl)
claims_iff n (some limit) = (λ e. ground arith, λ e. ground arith)

budget_iff : (n : ℕ) (cap : Option ℕ) → (exceeds n cap ≡ false) ↔ IsUnder n cap
budget_iff n none = (λ _. tt, λ _. refl)
budget_iff n (some cap) = (λ e. ground arith, λ e. ground arith)

module _ (redemptions : List PromoRedemption) (now user restaurant item_total : ℕ) where
  judge-IsUsable :
      (promo p : PromoCode)
      → (judge promo redemptions now user restaurant item_total).promo ≡ some p
      → (promo ≡ p) × IsUsable promo redemptions now user restaurant item_total
  unfolding judge
  judge-IsUsable promo p e =
      let here = (here_iff promo.restaurant_id restaurant).0 in
      let claims = (claims_iff promo.times_used promo.usage_limit).0 in
      let budget =
        (budget_iff (spent_on promo.id redemptions + discount_of promo item_total)
          promo.budget_cap).0 in
      ground arith

  IsUsable-judge :
      (promo : PromoCode)
      → IsUsable promo redemptions now user restaurant item_total
      → judge promo redemptions now user restaurant item_total ≡ applied promo item_total
  unfolding judge
  IsUsable-judge promo u =
      let here = (here_iff promo.restaurant_id restaurant).1 u.here in
      let claims = (claims_iff promo.times_used promo.usage_limit).1 u.claims_left in
      let budget =
        (budget_iff (spent_on promo.id redemptions + discount_of promo item_total)
            promo.budget_cap).1
          u.in_budget in
      ground arith

  judged_iff :
      (found : Option PromoCode) (p : PromoCode)
      → (judged found redemptions now user restaurant item_total ≡ applied p item_total)
        ↔ ((found ≡ some p) × IsUsable p redemptions now user restaurant item_total)
  judged_iff none p = (λ e. let absent = ap (λ r. r.promo) e in cc, λ (absent, _). cc)
  judged_iff (some q) p = (
    λ e.
        let (same, u) = judge-IsUsable q p (ap (λ r. r.promo) e) in
        (ap some same, subst (λ z. IsUsable z redemptions now user restaurant item_total) same u),
    λ (same, u).
        let eq = some-injective q p same in
        subst (λ z. judge z redemptions now user restaurant item_total ≡ applied p item_total)
          (sym eq) (IsUsable-judge p u),
  )

  -- A code that was sent is applied, at the smaller of its discount and the price of the food, exactly
  -- when the promo that the lookup finds is active, inside its window, of this restaurant or of all,
  -- earned by the spend, and has a claim and the budget for its whole discount left, and the user has
  -- not claimed it before or fewer times than its limit per user.
  pub validate_iff :
      (same_code : String → String → Bool) (promos : List PromoCode) (raw : String) (p : PromoCode)
      → is_empty (strip raw) ≡ false
      → (validate same_code promos redemptions (some raw) now user restaurant item_total
          ≡ applied p item_total)
        ↔ ((find? (λ q. same_code q.code (strip raw)) promos ≡ some p)
            × IsUsable p redemptions now user restaurant item_total)
  unfolding validate
  validate_iff same_code promos raw p text =
      rw text (judged_iff (find? (λ q. same_code q.code (strip raw)) promos) p)
