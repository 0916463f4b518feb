-- ===== src/Promos/Limits.antt =====
-- What a promo that was applied has passed.
use mathlib.Core.Path.{subst}
use cheering_shop_backend.Prelude.{
  All, All-find?, ℕ, ◌+◌, ◌≤◌, ◌<◌, ◌≡◌, ◌≢◌, ◌⊎◌, refl, Bool, true, false, Option, none, some,
  String, List, find?, count_of, arith, Bool-cases, inl, inr,
}
use cheering_shop_backend.Prelude.Text.{strip, is_empty}
use cheering_shop_backend.Promos.{
  PromoCode, PromoRedemption, judge, judged, validate, used_by, spent_on, reaches, exceeds,
  elsewhere,
}

-- Every rule that the code must meet at this order, with the discount that it gives.
pub record IsEarned (promo : PromoCode) (redemptions : List PromoRedemption)
    (now user restaurant item_total : ℕ) (discount : ℕ) : Type 0 where
  pub active : promo.is_active ≡ true
  pub started : promo.valid_from ≤ now
  pub running : now ≤ promo.valid_until
  pub here : elsewhere promo.restaurant_id restaurant ≡ false
  pub spent_enough : promo.min_order_amount ≤ item_total
  pub claims_left : reaches promo.times_used promo.usage_limit ≡ false
  pub user_left :
      (count_of (used_by promo.id user) redemptions ≡ 0)
      ⊎ (count_of (used_by promo.id user) redemptions < promo.per_user_limit)
  pub in_budget : exceeds (spent_on promo.id redemptions + discount) promo.budget_cap ≡ false
  pub at_most_food : discount ≤ item_total

judge-IsEarned :
    (promo p : PromoCode) (redemptions : List PromoRedemption) (now user restaurant item_total : ℕ)
    → let r = judge promo redemptions now user restaurant item_total in
      r.promo ≡ some p → IsEarned p redemptions now user restaurant item_total r.discount
unfolding judge
judge-IsEarned promo p redemptions now user restaurant item_total e = ground arith

judged-IsEarned :
    (found : Option PromoCode) (p : PromoCode) (redemptions : List PromoRedemption)
    (now user restaurant item_total : ℕ)
    → (judged found redemptions now user restaurant item_total).promo ≡ some p
    → IsEarned p redemptions now user restaurant item_total
        (judged found redemptions now user restaurant item_total).discount
judged-IsEarned none p redemptions now user restaurant item_total e = cc
judged-IsEarned (some q) p redemptions now user restaurant item_total e =
    judge-IsEarned q p redemptions now user restaurant item_total e

module _ (same_code : String → String → Bool) (promos : List PromoCode) where
  -- A promo that `validate` applies is active, inside its window, meant for the restaurant, earned
  -- by the spend, and within its claims, its user's claims and its budget; the discount is at most
  -- the price of the food.
  pub validate-IsEarned :
      (redemptions : List PromoRedemption) (raw : Option String)
      (now user restaurant item_total : ℕ) (p : PromoCode)
      → let r = validate same_code promos redemptions raw now user restaurant item_total in
        r.promo ≡ some p → IsEarned p redemptions now user restaurant item_total r.discount
  unfolding validate
  validate-IsEarned redemptions none now user restaurant item_total p e = cc
  validate-IsEarned redemptions (some raw) now user restaurant item_total p e =
      elim (Bool-cases (is_empty (strip raw))) [
        | inl blank ↦ ground arith
        | inr text ↦ rw text (
            judged-IsEarned (find? (λ p. same_code p.code (strip raw)) promos) p redemptions now
              user restaurant item_total (rw text at e))
      ]

  judged_explains :
      (found : Option PromoCode) (redemptions : List PromoRedemption)
      (now user restaurant item_total : ℕ)
      → let r = judged found redemptions now user restaurant item_total in
        (r.promo ≡ none) → (r.discount ≡ 0) × (r.error ≢ none)
  unfolding judge
  judged_explains none redemptions now user restaurant item_total e = ground arith
  judged_explains (some p) redemptions now user restaurant item_total e = ground arith

  -- A code that was sent and not applied gives no discount, and an error that says why.
  pub validate_explains :
      (redemptions : List PromoRedemption) (raw : String) (now user restaurant item_total : ℕ)
      → is_empty (strip raw) ≡ false
      → let r = validate same_code promos redemptions (some raw) now user restaurant item_total in
        r.promo ≡ none → (r.discount ≡ 0) × (r.error ≢ none)
  unfolding validate
  validate_explains redemptions raw now user restaurant item_total text e = rw text (
      judged_explains (find? (λ p. same_code p.code (strip raw)) promos) redemptions now user
        restaurant item_total (rw text at e))

  judged-found :
      (P : PromoCode → Type 0) (found : Option PromoCode) (redemptions : List PromoRedemption)
      (now user restaurant item_total : ℕ) (p : PromoCode)
      → ((q : PromoCode) → found ≡ some q → P q)
      → (judged found redemptions now user restaurant item_total).promo ≡ some p
      → P p
  unfolding judge
  judged-found P none redemptions now user restaurant item_total p h e = cc
  judged-found P (some q) redemptions now user restaurant item_total p h e =
      let same : q ≡ p = ground arith in subst P same (h q refl)

  -- A promo that `validate` applies is one of the table's.
  pub validate-found :
      (P : PromoCode → Type 0) (redemptions : List PromoRedemption) (raw : Option String)
      (now user restaurant item_total : ℕ) (p : PromoCode)
      → All P promos
      → (validate same_code promos redemptions raw now user restaurant item_total).promo ≡ some p
      → P p
  unfolding validate
  validate-found P redemptions none now user restaurant item_total p every e = cc
  validate-found P redemptions (some raw) now user restaurant item_total p every e =
      elim (Bool-cases (is_empty (strip raw))) [
        | inl blank ↦ let no = rw blank at e in cc
        | inr text ↦
            judged-found P (find? (λ p. same_code p.code (strip raw)) promos) redemptions now user
              restaurant item_total p
              (λ q found. All-find? P (λ p. same_code p.code (strip raw)) promos every found)
              (rw text at e)
      ]
