-- ===== src/Menu/Variants/Default.antt =====
-- An item with variants has exactly one default variant, whichever of its rows is edited.
use mathlib.Core.Path.{subst}
use mathlib.Core.Option.{some-injective}
use cheering_shop_backend.Prelude.{
  ℕ, ◌+◌, ◌≡◌, refl, sym, ◌∙◌, Bool, true, false, some, List, [], ◌∷◌, ◌&&◌, not, ◌==◌, leb,
  if◌then◌else◌, find?, update_first, length, any_of, arith, Bool-cases, inl, inr, ==_refl,
}
use cheering_shop_backend.Prelude.Lookups.{find?-hit}
use cheering_shop_backend.Result.{
  ok, Error, raise_if, or_raise, >>=-eq-ok, or_raise-eq-ok, ok-injective,
}
use cheering_shop_backend.Menu.{
  ItemVariant, MenuItem, Database, max_options_per_item, by_id, chosen, clear_all, remove_first,
}
use cheering_shop_backend.Menu.Variants.{
  VariantCreateRequest, VariantUpdateRequest, with_new, add_variant, edited, sent, updated,
  update_variant, first_shown, is_before, with_promoted, delete_variant, flushed, with_variants,
}
use cheering_shop_backend.Menu.Variants.Counts.{
  HasDefault, HasDefault-one, any_of-clear_all, defaults, defaults-chosen, defaults-clear_all,
  with_new-HasDefault,
}

-- The edit leaves one default, or no variants, and changes nothing but the variants.
abbrev pub Settles : MenuItem → MenuItem → Type 0
Settles item after = HasDefault after.variants × (with_variants item after.variants ≡ after)

-- A flush that was accepted.
pub flushed-eq-ok :
    (accepted : Bool) (clash : Error) (item : MenuItem) {after : MenuItem}
    → flushed accepted clash item ≡ ok after
    → (accepted ≡ true) × (item ≡ after)
flushed-eq-ok true clash item e = (refl, ok-injective e)
flushed-eq-ok false clash item e = cc

-- Adding a variant to an item that has one default among its variants, or none, leaves it with
-- one default.
pub add_variant-HasDefault :
    (db : Database) (id : ℕ) (body : VariantCreateRequest) (item after : MenuItem)
    → HasDefault item.variants
    → add_variant db id body item ≡ ok after
    → Settles item after
unfolding add_variant
add_variant-HasDefault db id body item after h e =
    let (_, _, e1) =
      >>=-eq-ok
        (raise_if (leb max_options_per_item (length item.variants))
          (Error.conflict "An item can hold at most 50 variants"))
        _ e in
    let (_, same) = flushed-eq-ok _ _ _ e1 in
    subst (Settles item) same (
      HasDefault-one (with_new id body item.variants) (with_new-HasDefault id body item.variants h),
      refl,
    )

find?-any_of :
    (p : ItemVariant → Bool) (vs : List ItemVariant) {v : ItemVariant}
    → find? p vs ≡ some v
    → any_of p vs ≡ true
find?-any_of p [] e = cc
find?-any_of p (w ∷ ws) e = elim (Bool-cases (p w)) [
  | inl hit ↦ rw hit refl
  | inr miss ↦ rw miss (find?-any_of p ws (rw miss at e))
]

find?-HasDefault :
    (p : ItemVariant → Bool) (vs : List ItemVariant) {v : ItemVariant}
    → find? p vs ≡ some v
    → HasDefault vs
    → defaults vs ≡ 1
find?-HasDefault p [] e h = cc
find?-HasDefault p (w ∷ ws) e h = h

module _ (p : ItemVariant → Bool) (f : ItemVariant → ItemVariant) where
  defaults-update_first :
      (vs : List ItemVariant)
      → ((v : ItemVariant) → (f v).is_default ≡ v.is_default)
      → defaults (update_first p f vs) ≡ defaults vs
  defaults-update_first [] same = refl
  defaults-update_first (v ∷ vs) same = elim (Bool-cases (p v)) [
    | inl hit ↦ rw (hit, same v) refl
    | inr miss ↦ rw (miss, defaults-update_first vs same) refl
  ]

  any_of-update_first :
      (id : ℕ) (vs : List ItemVariant)
      → ((v : ItemVariant) → (f v).id ≡ v.id)
      → any_of (by_id id) (update_first p f vs) ≡ any_of (by_id id) vs
  any_of-update_first id [] same = refl
  any_of-update_first id (v ∷ vs) same = elim (Bool-cases (p v)) [
    | inl hit ↦ rw (hit, same v) refl
    | inr miss ↦ rw (miss, any_of-update_first id vs same) refl
  ]

found_id :
    (id : ℕ) (vs : List ItemVariant) {v : ItemVariant} → find? (by_id id) vs ≡ some v → v.id ≡ id
found_id id vs e = let hit = find?-hit (by_id id) vs e in ground arith

updated-HasDefault :
    (id : ℕ) (body : VariantUpdateRequest) (variant : ItemVariant) (vs : List ItemVariant)
    → find? (by_id id) vs ≡ some variant
    → HasDefault vs
    → defaults (updated body variant vs) ≡ 1
updated-HasDefault id body variant vs found h =
    let rows = update_first (by_id variant.id) (edited body) vs in
    let one : defaults rows ≡ 1 =
      defaults-update_first (by_id variant.id) (edited body) vs (λ v. refl)
      ∙ find?-HasDefault (by_id id) vs found h in
    let there : any_of (by_id variant.id) vs ≡ true =
      subst (λ k. any_of (by_id k) vs ≡ true) (sym (found_id id vs found))
        (find?-any_of (by_id id) vs found) in
    elim (Bool-cases (sent body.is_default true && not variant.is_default)) [
      | inr stays ↦ rw stays one
      | inl promotes ↦ rw promotes (
          defaults-chosen (by_id variant.id) (clear_all rows) (defaults-clear_all rows) (
            any_of-clear_all variant.id rows
            ∙ any_of-update_first (by_id variant.id) (edited body) variant.id vs (λ v. refl)
            ∙ there))
    ]

pub update_variant-HasDefault :
    (db : Database) (id : ℕ) (body : VariantUpdateRequest) (item after : MenuItem)
    → HasDefault item.variants
    → update_variant db id body item ≡ ok after
    → Settles item after
unfolding update_variant
update_variant-HasDefault db id body item after h e =
    let (variant, found, e1) =
      >>=-eq-ok
        (or_raise (find? (by_id id) item.variants)
          (Error.not_found "Variant not found on this item"))
        _ e in
    let (_, _, e2) =
      >>=-eq-ok
        (raise_if (sent body.is_default false && variant.is_default)
          (Error.validation "A variant cannot un-default itself"))
        _ e1 in
    let (_, same) = flushed-eq-ok _ _ _ e2 in
    subst (Settles item) same (
      HasDefault-one (updated body variant item.variants)
          (updated-HasDefault id body variant item.variants (or_raise-eq-ok _ _ found) h),
      refl,
    )

defaults-remove_first :
    (p : ItemVariant → Bool) (vs : List ItemVariant) {v : ItemVariant}
    → find? p vs ≡ some v
    → defaults (remove_first p vs) + (if v.is_default then 1 else 0) ≡ defaults vs
defaults-remove_first p [] e = cc
defaults-remove_first p (w ∷ ws) {v} e = elim (Bool-cases (p w)) [
  | inl hit ↦
      let same : w ≡ v = some-injective w v (rw hit at e) in
      rw hit (
        subst (λ x. defaults ws + (if x.is_default then 1 else 0) ≡ defaults (w ∷ ws)) same
          (omega arith))
  | inr miss ↦ rw miss (omega (arith, defaults-remove_first p ws (rw miss at e)))
]

any_of-swap :
    (p : ItemVariant → Bool) (v w : ItemVariant) (ws : List ItemVariant)
    → any_of p (v ∷ ws) ≡ true
    → any_of p (v ∷ w ∷ ws) ≡ true
any_of-swap p v w ws e = elim (Bool-cases (p v)) [
  | inl hit ↦ rw hit refl
  | inr miss ↦ elim (Bool-cases (p w)) [
    | inl next ↦ rw (miss, next) refl
    | inr skip ↦ rw (miss, skip) (rw miss at e)
  ]
]

any_of-behind :
    (p : ItemVariant → Bool) (v : ItemVariant) (vs : List ItemVariant)
    → any_of p vs ≡ true
    → any_of p (v ∷ vs) ≡ true
any_of-behind p v vs e = elim (Bool-cases (p v)) [ inl hit ↦ rw hit refl | inr miss ↦ rw miss e ]

either_there :
    (before : Bool) (v w : ItemVariant) (ws : List ItemVariant)
    → any_of (by_id (first_shown w ws).id) (w ∷ ws) ≡ true
    → any_of (by_id (first_shown v ws).id) (v ∷ ws) ≡ true
    → any_of (by_id (first_shown (if before then w else v) ws).id) (v ∷ w ∷ ws) ≡ true
either_there true v w ws next here = any_of-behind (by_id (first_shown w ws).id) v (w ∷ ws) next
either_there false v w ws next here = any_of-swap (by_id (first_shown v ws).id) v w ws here

first_shown_there :
    (v : ItemVariant) (vs : List ItemVariant) → any_of (by_id (first_shown v vs).id) (v ∷ vs) ≡ true
first_shown_there v [] = let same : (v.id == v.id) ≡ true = ==_refl v.id in rw same refl
first_shown_there v (w ∷ ws) =
    either_there (is_before w v) v w ws (first_shown_there w ws) (first_shown_there v ws)

with_promoted-HasDefault :
    (was_default : Bool) (vs : List ItemVariant)
    → defaults vs + (if was_default then 1 else 0) ≡ 1
    → HasDefault (with_promoted was_default vs)
with_promoted-HasDefault was_default [] e = tt
with_promoted-HasDefault false (v ∷ vs) e = omega (arith, e)
with_promoted-HasDefault true (v ∷ vs) e =
    HasDefault-one (update_first (by_id (first_shown v vs).id) chosen (v ∷ vs)) (
      defaults-chosen (by_id (first_shown v vs).id) (v ∷ vs) (omega (arith, e))
        (first_shown_there v vs))

pub delete_variant-HasDefault :
    (id : ℕ) (item after : MenuItem)
    → HasDefault item.variants
    → delete_variant id item ≡ ok after
    → Settles item after
unfolding delete_variant
delete_variant-HasDefault id item after h e =
    let (variant, found', e1) =
      >>=-eq-ok
        (or_raise (find? (by_id id) item.variants)
          (Error.not_found "Variant not found on this item"))
        _ e in
    let found = or_raise-eq-ok _ _ found' in
    let found_again : find? (by_id variant.id) item.variants ≡ some variant =
      subst (λ k. find? (by_id k) item.variants ≡ some variant)
        (sym (found_id id item.variants found)) found in
    let one = find?-HasDefault (by_id id) item.variants found h in
    subst (Settles item) (ok-injective e1) (
      with_promoted-HasDefault variant.is_default (remove_first (by_id variant.id) item.variants)
          (defaults-remove_first (by_id variant.id) item.variants found_again ∙ one),
      refl,
    )
