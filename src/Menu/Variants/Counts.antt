-- ===== src/Menu/Variants/Counts.antt =====
-- How many of an item's variants are its default.
use cheering_shop_backend.Prelude.{
  ℕ, ◌+◌, ◌≡◌, refl, Bool, true, false, List, [], ◌∷◌, ◌++◌, ◌||◌, if◌then◌else◌, update_first,
  count_of, any_of, arith, Bool-cases, inl, inr,
}
use cheering_shop_backend.Menu.{ItemVariant, by_id, chosen, clear_all}
use cheering_shop_backend.Menu.Variants.{VariantCreateRequest, is_none_left, new_variant, with_new}

abbrev pub defaults : List ItemVariant → ℕ
defaults vs = count_of (λ v. v.is_default) vs

-- One default, unless there is nothing to choose.
abbrev pub HasDefault : List ItemVariant → Type 0
HasDefault [] = Unit
HasDefault (v ∷ vs) = defaults (v ∷ vs) ≡ 1

pub defaults-clear_all : (vs : List ItemVariant) → defaults (clear_all vs) ≡ 0
defaults-clear_all [] = refl
defaults-clear_all (v ∷ vs) = omega (arith, defaults-clear_all vs)

pub defaults-snoc :
    (vs : List ItemVariant) (v : ItemVariant)
    → defaults (vs ++ (v ∷ [])) ≡ defaults vs + (if v.is_default then 1 else 0)
defaults-snoc [] v = omega arith
defaults-snoc (w ∷ ws) v = omega (arith, defaults-snoc ws v)

-- Choosing one of rows that are none of them the default.
pub defaults-chosen :
    (p : ItemVariant → Bool) (vs : List ItemVariant)
    → defaults vs ≡ 0
    → any_of p vs ≡ true
    → defaults (update_first p chosen vs) ≡ 1
defaults-chosen p [] none' there = cc
defaults-chosen p (v ∷ vs) none' there = elim (Bool-cases (p v)) [
  | inl hit ↦ rw hit (ground (arith, none'))
  | inr miss ↦ rw miss (ground (arith, none', defaults-chosen p vs, rw miss at there))
]

pub HasDefault-one : (vs : List ItemVariant) → defaults vs ≡ 1 → HasDefault vs
HasDefault-one [] e = tt
HasDefault-one (v ∷ vs) e = e

pub any_of-clear_all :
    (id : ℕ) (vs : List ItemVariant) → any_of (by_id id) (clear_all vs) ≡ any_of (by_id id) vs
any_of-clear_all id [] = refl
any_of-clear_all id (v ∷ vs) = rw (any_of-clear_all id vs) refl

pub HasDefault-some :
    (vs : List ItemVariant) → is_none_left vs ≡ false → HasDefault vs → defaults vs ≡ 1
HasDefault-some [] some' h = cc
HasDefault-some (v ∷ vs) some' h = h

pub or_false : (a b : Bool) → (a || b) ≡ false → b ≡ false
or_false true b e = cc
or_false false b e = e

pub with_new-HasDefault :
    (id : ℕ) (body : VariantCreateRequest) (vs : List ItemVariant)
    → HasDefault vs
    → defaults (with_new id body vs) ≡ 1
with_new-HasDefault id body vs h = elim (Bool-cases (body.is_default || is_none_left vs)) [
  | inl first ↦ rw first (
      omega (
        arith,
        defaults-snoc (clear_all vs) (new_variant id body true (clear_all vs)),
        defaults-clear_all vs,
      ))
  | inr other ↦
      let one = HasDefault-some vs (or_false body.is_default (is_none_left vs) other) h in
      rw other (omega (arith, defaults-snoc vs (new_variant id body false vs), one))
]
