-- ===== src/Promos.antt =====
-- app/services/customer/promos.py and app/models/promo.py: from a code to a discount in paisa, or
-- to an explained refusal.
pub mod Exact
pub mod Limits
use cheering_shop_backend.Prelude.{
  ℕ, ◌+◌, min, Bool, true, false, Option, none, some, String, List, [], ◌∷◌, ◌&&◌, not, ◌==◌, ltb,
  leb, if◌then◌else◌, find?, count_of, sum_of,
}
use cheering_shop_backend.Prelude.Text.{strip, is_empty}
use cheering_shop_backend.Money.{percentage_of}
use cheering_shop_backend.Enums.{DiscountType}

pub record PromoCode : Type 0 where
  pub id : ℕ
  pub code : String
  pub restaurant_id : Option ℕ
  pub discount_type : DiscountType
  pub discount_value : ℕ
  pub min_order_amount : ℕ
  pub max_discount : Option ℕ
  pub budget_cap : Option ℕ
  pub applies_to_item_ids : Option (List ℕ)
  pub usage_limit : Option ℕ
  pub per_user_limit : ℕ
  pub times_used : ℕ
  pub is_active : Bool
  pub valid_from : ℕ
  pub valid_until : ℕ

pub record PromoRedemption : Type 0 where
  pub promo_code_id : ℕ
  pub user_id : ℕ
  pub order_id : ℕ
  pub discount_applied : ℕ

pub record PromoResult : Type 0 where
  pub discount : ℕ
  pub promo : Option PromoCode
  pub error : Option String

abbrev pub nothing_applied : PromoResult
nothing_applied = record { discount = 0; promo = none; error = none }

abbrev pub refusal : String → PromoResult
refusal text = record { discount = 0; promo = none; error = some text }

abbrev pub is_percentage : DiscountType → Bool
is_percentage DiscountType.percentage = true
is_percentage _ = false

abbrev pub capped : ℕ → Option ℕ → ℕ
capped discount none = discount
capped discount (some cap) = min discount cap

-- `limit is not None and n >= limit`
abbrev pub reaches : ℕ → Option ℕ → Bool
reaches n none = false
reaches n (some limit) = leb limit n

-- `limit is not None and n > limit`
abbrev pub exceeds : ℕ → Option ℕ → Bool
exceeds n none = false
exceeds n (some limit) = ltb limit n

abbrev pub elsewhere : Option ℕ → ℕ → Bool
elsewhere none restaurant = false
elsewhere (some r) restaurant = not (r == restaurant)

abbrev pub used_by : ℕ → ℕ → PromoRedemption → Bool
used_by promo user r = r.promo_code_id == promo && r.user_id == user

-- `SELECT sum(discount_applied) WHERE promo`
abbrev pub spent_on : ℕ → List PromoRedemption → ℕ
spent_on promo = sum_of (λ r. if r.promo_code_id == promo then r.discount_applied else 0)

unfoldable pub discount_of : PromoCode → ℕ → ℕ
discount_of promo item_total =
    if is_percentage promo.discount_type
    then capped (percentage_of item_total promo.discount_value) promo.max_discount
    else promo.discount_value

-- The checks on a code that exists, in the source's order.
unfoldable pub judge :
    PromoCode → List PromoRedemption → (now user restaurant item_total : ℕ) → PromoResult
unfolding discount_of
judge promo redemptions now user restaurant item_total =
    let used = count_of (used_by promo.id user) redemptions in
    let discount = discount_of promo item_total in
    if not promo.is_active
    then refusal "That promo code is no longer active"
    else if ltb now promo.valid_from
    then refusal "That promo code is not active yet"
    else if ltb promo.valid_until now
    then refusal "That promo code has expired"
    else if elsewhere promo.restaurant_id restaurant
    then refusal "That promo code is not valid at this restaurant"
    else if ltb item_total promo.min_order_amount
    then refusal "Spend at least .. taka to use this code"
    else if reaches promo.times_used promo.usage_limit
    then refusal "That promo code has been fully claimed"
    else if not (used == 0) && leb promo.per_user_limit used
    then refusal "You have already used this promo code"
    else if exceeds (spent_on promo.id redemptions + discount) promo.budget_cap
    then refusal "That promo code has reached its budget"
    else record { discount = min discount item_total; promo = some promo; error = none }

abbrev pub judged :
    Option PromoCode → List PromoRedemption → (now user restaurant item_total : ℕ) → PromoResult
judged none redemptions now user restaurant item_total = refusal "That promo code does not exist"
judged (some promo) redemptions now user restaurant item_total =
    judge promo redemptions now user restaurant item_total

-- `same_code` is the comparison of the CITEXT column, which ignores case.
unfoldable pub validate :
    (same_code : String → String → Bool)
    → List PromoCode
    → List PromoRedemption
    → Option String
    → (now user restaurant item_total : ℕ) → PromoResult
validate same_code promos redemptions none now user restaurant item_total = nothing_applied
validate same_code promos redemptions (some raw) now user restaurant item_total =
    if is_empty (strip raw)
    then nothing_applied
    else judged (find? (λ p. same_code p.code (strip raw)) promos) redemptions now user restaurant
        item_total
