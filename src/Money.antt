-- ===== src/Money.antt =====
-- app/core/money.py: the conversions between taka on the wire and paisa in the database, and
-- percentages in basis points. A wire amount is a non-negative decimal; every amount that the
-- schemas accept is one.
pub mod Rounding
use cheering_shop_backend.Prelude.{ℕ, ◌+◌, ◌*◌, ◌/◌, ◌^◌}

-- settings.CURRENCY_MINOR_UNITS
abbrev pub minor_units : ℕ
minor_units = 100

-- A `Decimal`, which is `coefficient` / 10 ^ `places`.
pub record Decimal : Type 0 where
  pub coefficient : ℕ
  pub places : ℕ

-- `(a / b).quantize(Decimal("1"), rounding=ROUND_HALF_UP)` for a non-negative `a`
unfoldable pub round_half_up : ℕ → ℕ → ℕ
round_half_up a b = (2 * a + b) / (2 * b)

unfoldable pub to_minor : Decimal → ℕ
unfolding round_half_up
to_minor amount = round_half_up (amount.coefficient * minor_units) (10 ^ amount.places)

-- Two places and a hundred minor units: the quotient is exact, so the coefficient is the amount.
unfoldable pub to_major : ℕ → Decimal
unfolding round_half_up
to_major minor = record { coefficient = round_half_up (minor * 100) minor_units; places = 2 }

unfoldable pub percentage_of : ℕ → ℕ → ℕ
unfolding round_half_up
percentage_of minor basis_points = round_half_up (minor * basis_points) 10_000
