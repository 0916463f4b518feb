-- ===== src/Checkout/Place/Budget.antt =====
-- Placing an order keeps every promo code inside its budget and its claims.
use mathlib.Core.Path.{subst}
use cheering_shop_backend.Prelude.{
  inl, inr, Bool-cases, ℕ, ◌≤◌, ◌+◌, ◌≡◌, refl, true, false, Option, none, some, List, [], ◌∷◌, All,
  update_where, arith, sym, ap, ◌∙◌, ◌==◌, if◌then◌else◌, ==_refl, sum_of,
}
use cheering_shop_backend.Result.{ok}
use cheering_shop_backend.Money.{to_minor}
use cheering_shop_backend.Cart.Price.{quote_lines_for}
use cheering_shop_backend.Pricing.Quoted.{quote_discount-le}
use cheering_shop_backend.Pricing.{Config, line_total}
use cheering_shop_backend.Promos.{PromoCode, PromoRedemption, validate, spent_on, reaches, exceeds}
use cheering_shop_backend.Promos.Limits.{validate-IsEarned, validate-found}
use cheering_shop_backend.Checkout.{OrderCreateRequest, Shop, redemption, redeem}
use cheering_shop_backend.Checkout.Place.{World, place_order, inserted}
use cheering_shop_backend.Checkout.Place.Placed.{prepare-IsPrepared}
use cheering_shop_backend.Checkout.Place.Charged.{place_order-IsAdmitted, All-always}

abbrev pub AtMost : ℕ → Option ℕ → Type 0
AtMost n none = Unit
AtMost n (some limit) = n ≤ limit

-- What a code has given away is within its budget, and its claims are within its limit.
abbrev pub IsWithin : List PromoRedemption → PromoCode → Type 0
IsWithin redemptions p =
    AtMost (spent_on p.id redemptions) p.budget_cap × AtMost p.times_used p.usage_limit

-- `id` is the primary key of promo_codes.
abbrev pub IsKeyed : List PromoCode → Type 0
IsKeyed promos = All (λ p. All (λ q. q.id ≡ p.id → q ≡ p) promos) promos

exceeds-AtMost : (n : ℕ) (cap : Option ℕ) → exceeds n cap ≡ false → AtMost n cap
exceeds-AtMost n none h = tt
exceeds-AtMost n (some cap) h = ground arith

reaches-AtMost : (n : ℕ) (limit : Option ℕ) → reaches n limit ≡ false → AtMost (n + 1) limit
reaches-AtMost n none h = tt
reaches-AtMost n (some limit) h = ground arith

abbrev pub claimed : PromoCode → PromoCode → PromoCode
claimed p q = if q.id == p.id then record q { times_used = q.times_used + 1 } else q

abbrev pub with_claim : PromoCode → PromoCode
with_claim q = record q { times_used = q.times_used + 1 }

claimed_hit : (p q : PromoCode) → (q.id == p.id) ≡ true → claimed p q ≡ with_claim q
claimed_hit p q h = ap (λ b. if b then with_claim q else q) h

claimed_miss : (p q : PromoCode) → (q.id == p.id) ≡ false → claimed p q ≡ q
claimed_miss p q h = ap (λ b. if b then with_claim q else q) h

module _ (p : PromoCode) (r : PromoRedemption) (redemptions : List PromoRedemption) where
  same-IsWithin :
      exceeds (spent_on p.id redemptions + r.discount_applied) p.budget_cap ≡ false
      → reaches p.times_used p.usage_limit ≡ false
      → r.promo_code_id ≡ p.id
      → IsWithin (r ∷ redemptions) (claimed p p)
  same-IsWithin h k same =
      let spent : spent_on p.id (r ∷ redemptions) ≡ spent_on p.id redemptions + r.discount_applied =
        ground arith in
      subst (IsWithin (r ∷ redemptions)) (sym (claimed_hit p p (==_refl p.id))) (
        subst (λ n. AtMost n p.budget_cap) (sym spent)
            (exceeds-AtMost (spent_on p.id redemptions + r.discount_applied) p.budget_cap h),
        reaches-AtMost p.times_used p.usage_limit k,
      )

  other-IsWithin :
      (q : PromoCode)
      → (q.id == p.id) ≡ false
      → r.promo_code_id ≡ p.id
      → IsWithin redemptions q
      → IsWithin (r ∷ redemptions) (claimed p q)
  other-IsWithin q other same (budget, claims) =
      let spent : spent_on q.id (r ∷ redemptions) ≡ spent_on q.id redemptions = ground arith in
      subst (IsWithin (r ∷ redemptions)) (sym (claimed_miss p q other))
        (subst (λ n. AtMost n q.budget_cap) (sym spent) budget, claims)

  redeemed-IsWithin :
      (q : PromoCode)
      → exceeds (spent_on p.id redemptions + r.discount_applied) p.budget_cap ≡ false
      → reaches p.times_used p.usage_limit ≡ false
      → r.promo_code_id ≡ p.id
      → (q.id ≡ p.id → q ≡ p)
      → IsWithin redemptions q
      → IsWithin (r ∷ redemptions) (claimed p q)
  redeemed-IsWithin q h k same key was = elim (Bool-cases (q.id == p.id)) [
    | inl hit ↦
        subst (λ z. IsWithin (r ∷ redemptions) (claimed p z)) (sym (key (ground arith)))
          (same-IsWithin h k same)
    | inr miss ↦ other-IsWithin q miss same was
  ]

  All-redeemed :
      (promos : List PromoCode)
      → exceeds (spent_on p.id redemptions + r.discount_applied) p.budget_cap ≡ false
      → reaches p.times_used p.usage_limit ≡ false
      → r.promo_code_id ≡ p.id
      → All (λ q. q.id ≡ p.id → q ≡ p) promos
      → All (IsWithin redemptions) promos
      → All (IsWithin (r ∷ redemptions)) (
          update_where (λ q. q.id == p.id) (λ q. record q { times_used = q.times_used + 1 }) promos)
  All-redeemed [] h k same keys were = tt
  All-redeemed (q ∷ qs) h k same (key, keys) (was, were) =
      (redeemed-IsWithin q h k same key was, All-redeemed qs h k same keys were)

exceeds_mono : (n m : ℕ) (cap : Option ℕ) → n ≤ m → exceeds m cap ≡ false → exceeds n cap ≡ false
exceeds_mono n m none h k = refl
exceeds_mono n m (some cap) h k = ground arith

redeem-IsWithin :
    (o : Option PromoCode) (id discount : ℕ) (shop : Shop)
    → ((p : PromoCode)
        → o ≡ some p
        → (exceeds (spent_on p.id shop.redemptions + discount) p.budget_cap ≡ false)
          × (reaches p.times_used p.usage_limit ≡ false)
          × All (λ q. q.id ≡ p.id → q ≡ p) shop.promos)
    → All (IsWithin shop.redemptions) shop.promos
    → All (IsWithin (redeem o id discount shop).redemptions) (redeem o id discount shop).promos
redeem-IsWithin none id discount shop h were = were
redeem-IsWithin (some p) id discount shop h were =
    let (budget, claims, keys) = h p refl in
    All-redeemed p (redemption shop p id discount) shop.redemptions shop.promos budget claims refl
      keys were

-- Where promo ids are unique and every promo code is within its budget and its claims, every code is
-- so after an order is placed, whichever code the order used.
pub place_order-IsWithin :
    (w : World) (config : Config) (now : ℕ) (shop : Shop) (id : ℕ) (body : OrderCreateRequest)
    (after : Shop)
    → IsKeyed shop.promos
    → All (IsWithin shop.redemptions) shop.promos
    → place_order w config now shop id body ≡ ok after
    → All (IsWithin after.redemptions) after.promos
place_order-IsWithin w config now shop id body after keyed were e =
    let (p, at, good, written) = place_order-IsAdmitted w config now shop id body e in
    let (_, facts) =
      prepare-IsPrepared w config now shop (λ r. Unit {0}) body (All-always shop.restaurants)
        good.prepared in
    let (promo, _, bill) = facts in
    let raw = body.promo_code in
    let total = sum_of line_total (quote_lines_for shop.menu shop.cart) in
    let v =
      validate w.same_code shop.promos shop.redemptions raw now shop.user_id p.restaurant.id
        total in
    let less : p.bill.discount ≤ v.discount =
      subst (λ b. b.discount ≤ v.discount) (sym bill)
        (quote_discount-le config (quote_lines_for shop.menu shop.cart)
          (w.measure.metres p.distance_km) p.restaurant.commission_rate shop.fees v.discount
          (to_minor body.tip) body.delivery_type) in
    subst (λ s. All (IsWithin s.redemptions) s.promos) written
      (redeem-IsWithin p.promo.promo id p.bill.discount (inserted w config now shop id body p at)
        (λ q applied.
          let hit : v.promo ≡ some q = ap (λ r. r.promo) (sym promo) ∙ applied in
          let earned =
            validate-IsEarned w.same_code shop.promos shop.redemptions raw now shop.user_id
              p.restaurant.id total q hit in
          (
            exceeds_mono (spent_on q.id shop.redemptions + p.bill.discount)
                (spent_on q.id shop.redemptions + v.discount) q.budget_cap (omega (arith, less))
                earned.in_budget,
            earned.claims_left,
            validate-found w.same_code shop.promos (λ p. All (λ q. q.id ≡ p.id → q ≡ p) shop.promos)
                shop.redemptions raw now shop.user_id p.restaurant.id total q keyed hit,
          ))
        were)
