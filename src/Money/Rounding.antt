-- ===== src/Money/Rounding.antt =====
-- What the conversions of app/core/money.py guarantee.
use cheering_shop_backend.Prelude.{ℕ, ◌+◌, ◌*◌, ◌≤◌, ◌<◌, ◌≡◌, arith}
use cheering_shop_backend.Money.{to_minor, to_major, percentage_of}

-- Paisa written out as taka and read back are the same paisa: `to_minor` undoes `to_major`.
pub to_minor-to_major : (minor : ℕ) → to_minor (to_major minor) ≡ minor
unfolding to_minor to_major
to_minor-to_major minor = omega arith

-- A percentage is the whole paisa nearest to the exact value, and a tie goes up.
percentage_of_nearest :
    (minor basis_points : ℕ)
    → (percentage_of minor basis_points * 10_000 ≤ minor * basis_points + 5000)
      × (minor * basis_points < percentage_of minor basis_points * 10_000 + 5000)
unfolding percentage_of
percentage_of_nearest minor basis_points = omega arith

-- At a rate of at most 100 % a percentage never exceeds the amount.
pub percentage_of-le :
    (minor basis_points : ℕ) → basis_points ≤ 10_000 → percentage_of minor basis_points ≤ minor
unfolding percentage_of
percentage_of-le minor basis_points h = grind arith
