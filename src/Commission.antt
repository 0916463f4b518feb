-- ===== src/Commission.antt =====
-- app/services/commission.py. A rate is a Numeric(5,4), kept as its number of ten-thousandths: the
-- basis points that `_basis_points` of app/services/pricing.py reads off it.
use cheering_shop_backend.Prelude.{ℕ, Option, none, some, get_or, ◌≡◌, arith}

pub data Level : Type 0 where
  product category restaurant : Level

unfoldable pub resolve : Option ℕ → Option ℕ → ℕ → ℕ × Level
resolve (some rate) _ _ = (rate, Level.product)
resolve none (some rate) _ = (rate, Level.category)
resolve none none rate = (rate, Level.restaurant)

unfoldable pub line_rate : Option ℕ → Option ℕ → Option ℕ
line_rate (some rate) _ = some rate
line_rate none (some rate) = some rate
line_rate none none = none

-- `_basis_points`
abbrev pub basis_points : Option ℕ → ℕ → ℕ
basis_points line_rate restaurant_rate = get_or line_rate restaurant_rate

-- The rate that checkout charges is the rate that the console shows: both resolve to the most
-- specific rate that is set.
basis_points-line_rate :
    (product_rate category_rate : Option ℕ) (restaurant_rate : ℕ)
    → basis_points (line_rate product_rate category_rate) restaurant_rate
      ≡ (resolve product_rate category_rate restaurant_rate).0
unfolding line_rate resolve
basis_points-line_rate product_rate category_rate restaurant_rate = ground arith
