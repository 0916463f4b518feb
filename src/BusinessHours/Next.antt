-- ===== src/BusinessHours/Next.antt =====
-- `next_change` of app/services/business_hours.py.
pub mod Quiet
pub mod First
use cheering_shop_backend.Prelude.{
  ℕ, zero, suc, ◌/◌, Bool, true, false, Option, List, [], ◌∷◌, ◌++◌, not, ltb, leb, find?, keep,
  sorted,
}
use cheering_shop_backend.BusinessHours.{Hours, day_seconds, spans_starting, is_open_at}

abbrev pub ends : List (ℕ × ℕ) → List ℕ
ends [] = []
ends ((start, end) ∷ spans) = start ∷ end ∷ ends spans

abbrev pub ends_from : Hours → (days day : ℕ) → List ℕ
ends_from hours zero day = []
ends_from hours (suc days) day = ends (spans_starting hours day) ++ ends_from hours days (suc day)

-- `range(-1, 8)`: the periods of yesterday and of the next seven days; day 0 has no yesterday.
abbrev pub moments : Hours → ℕ → List ℕ
moments hours zero = ends_from hours 8 0
moments hours (suc day) = ends_from hours 9 day

abbrev pub candidates : Hours → ℕ → List ℕ
candidates hours at = sorted leb (keep (λ m. ltb at m) (moments hours (at / day_seconds)))

abbrev pub differs : Bool → Bool → Bool
differs true b = not b
differs false b = b

unfoldable pub next_change : Hours → ℕ → Option ℕ
next_change hours at =
    find? (λ m. differs (is_open_at hours m) (is_open_at hours at)) (candidates hours at)
