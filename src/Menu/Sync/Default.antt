-- ===== src/Menu/Sync/Default.antt =====
-- A replace-set leaves exactly one default.
use mathlib.Core.Path.{subst}
use cheering_shop_backend.Prelude.{
  ℕ, ◌+◌, ◌≤◌, ◌≡◌, refl, sym, ◌⊎◌, ◌∙◌, true, some, List, [], ◌∷◌, not, ◌==◌, ltb, find?, keep,
  count_of, arith, Bool-cases, inl, inr,
}
use cheering_shop_backend.Prelude.Text.{strip}
use cheering_shop_backend.Prelude.Lookups.{find?-skip}
use cheering_shop_backend.Result.{Result, ok, Error, raise_if, >>=-eq-ok, ok-injective}
use cheering_shop_backend.Menu.{ItemVariant, MenuItem, VariantRequest, Database, by_name, clear_all}
use cheering_shop_backend.Menu.Sync.{
  Synced, positional, numbered, all_zero, is_flagged, first_flagged, resolve_default, is_kept,
  sync_entries, remaining, settled, sync_variants,
}
use cheering_shop_backend.Menu.Variants.Counts.{
  HasDefault, HasDefault-one, defaults-clear_all, defaults-chosen,
}
use cheering_shop_backend.Menu.Sync.Held.{
  IsOnce, any_of-clear_all, flagged-Holds, ids, named_remains,
}

keep_none : (rows : List ItemVariant) → keep (λ v. is_kept [] v.id) rows ≡ []
keep_none [] = refl
keep_none (r ∷ rows) = keep_none rows

flagged_first :
    (e : VariantRequest) (es : List VariantRequest)
    → find? is_flagged (first_flagged (e ∷ es)) ≡ some (record e { is_default = true })
flagged_first e es = refl

counted_flagged :
    (es : List VariantRequest)
    → 1 ≤ count_of is_flagged es
    → (e : VariantRequest) × (find? is_flagged es ≡ some e)
counted_flagged [] some' = absurd (omega (arith, some'))
counted_flagged (e ∷ es) some' = elim (Bool-cases (is_flagged e)) [
  | inl hit ↦ (e, rw hit refl)
  | inr miss ↦
      let few : 1 ≤ count_of is_flagged es = let rest = rw miss at some' in omega (arith, rest) in
      let (f, found) = counted_flagged es few in (f, find?-skip is_flagged e es miss found)
]

ids-numbered :
    (position : ℕ) (es : List VariantRequest)
    → ids (numbered (λ n e. record e { sort_order = n }) position es) ≡ ids es
ids-numbered position [] = refl
ids-numbered position (e ∷ es) = rw (ids-numbered (position + 1) es) refl

ids-positional : (es : List VariantRequest) → ids (positional es) ≡ ids es
ids-positional es = elim (Bool-cases (all_zero (λ e. e.sort_order) es)) [
  | inl zeros ↦ rw zeros (ids-numbered 0 es)
  | inr given ↦ rw given refl
]

-- The same ids, and a flagged entry unless there is none at all.
abbrev IsResolved : List VariantRequest → List VariantRequest → Type 0
IsResolved es entries =
    (ids entries ≡ ids es)
    × ((entries ≡ []) ⊎ ((e : VariantRequest) × (find? is_flagged entries ≡ some e)))

first_flagged-IsResolved : (es : List VariantRequest) → IsResolved es (first_flagged es)
first_flagged-IsResolved [] = (refl, inl refl)
first_flagged-IsResolved (e ∷ es) = (refl, inr (record e { is_default = true }, refl))

pub resolved :
    (es : List VariantRequest) {entries : List VariantRequest}
    → ◌≡◌ {A = Result MenuItem (List VariantRequest)} (resolve_default es) (ok entries)
    → IsResolved es entries
unfolding resolve_default
resolved es done = elim (Bool-cases (ltb 1 (count_of is_flagged es))) [
  | inl many ↦ let refused = rw many at done in cc
  | inr few ↦ elim (Bool-cases (count_of is_flagged es == 0)) [
    | inl none_at_all ↦
        subst (IsResolved es) (ok-injective (rw (few, none_at_all) at done))
          (first_flagged-IsResolved es)
    | inr one ↦
        subst (IsResolved es) (ok-injective (rw (few, one) at done))
          (refl, inr (counted_flagged es (ground arith)))
  ]
]

settled-HasDefault :
    (fresh : ℕ → ℕ) (entries : List VariantRequest) (variants : List ItemVariant)
    (s : Synced ItemVariant)
    → IsOnce (ids entries)
    → (entries ≡ []) ⊎ ((e : VariantRequest) × (find? is_flagged entries ≡ some e))
    → ◌≡◌ {A = Result MenuItem (Synced ItemVariant)}
        (sync_entries fresh entries (record { existing = variants; created = []; kept = [] }))
        (ok s)
    → HasDefault (settled entries s)
settled-HasDefault fresh entries variants s once (inl empty) done =
    let nothing : record { existing = variants; created = []; kept = [] } ≡ s =
      ok-injective (rw empty at done) in
    subst (λ t. HasDefault (settled entries t)) nothing (rw (empty, keep_none variants) tt)
settled-HasDefault fresh entries variants s once (inr (e, found)) done =
    let (w, held) =
      flagged-Holds fresh entries (record { existing = variants; created = []; kept = [] }) once
        found done in
    let there =
      any_of-clear_all (strip e.name) (remaining s) ∙ named_remains (strip e.name) w s held in
    HasDefault-one (settled entries s) (
      rw found (
        defaults-chosen (by_name (strip e.name)) (clear_all (remaining s))
          (defaults-clear_all (remaining s)) there))

-- A replace-set that is accepted, in which no two entries name the same row, leaves the item with
-- exactly one default variant, or with no variants where the list is empty; which rows and defaults
-- the item had before does not matter.
pub sync_variants-HasDefault :
    (db : Database) (fresh : ℕ → ℕ) (payload : List VariantRequest)
    (variants after : List ItemVariant)
    → IsOnce (ids payload)
    → sync_variants db fresh payload variants ≡ ok after
    → HasDefault after
unfolding sync_variants
sync_variants-HasDefault db fresh payload variants after once done =
    let (entries, first, e1) = >>=-eq-ok (resolve_default (positional payload)) _ done in
    let (s, all, e2) =
      >>=-eq-ok
        (sync_entries fresh entries (record { existing = variants; created = []; kept = [] })) _
        e1 in
    let (_, _, e3) =
      >>=-eq-ok
        (raise_if (not (db.flush_variants variants (settled entries s)))
          (Error.conflict "Variant and add-on names must be unique within an item"))
        _ e2 in
    let (same_ids, flagged) = resolved (positional payload) first in
    let once' : IsOnce (ids entries) =
      subst IsOnce (sym (same_ids ∙ ids-positional payload)) once in
    subst HasDefault (ok-injective e3)
      (settled-HasDefault fresh entries variants s once' flagged all)

first_flagged_count :
    (es : List VariantRequest)
    → count_of is_flagged es ≡ 0
    → (es ≡ []) ⊎ (count_of is_flagged (first_flagged es) ≡ 1)
first_flagged_count [] zero' = inl refl
first_flagged_count (e ∷ es) zero' = inr (omega (arith, zero'))

-- One entry is flagged, unless there is none at all.
pub resolved_count :
    {S : Type 0} (es : List VariantRequest) {entries : List VariantRequest}
    → ◌≡◌ {A = Result S (List VariantRequest)} (resolve_default es) (ok entries)
    → (entries ≡ []) ⊎ (count_of is_flagged entries ≡ 1)
unfolding resolve_default
resolved_count es done = elim (Bool-cases (ltb 1 (count_of is_flagged es))) [
  | inl many ↦ let refused = rw many at done in cc
  | inr few ↦ elim (Bool-cases (count_of is_flagged es == 0)) [
    | inl none_at_all ↦
        let zero' : count_of is_flagged es ≡ 0 = ground arith in
        elim (first_flagged_count es zero') [
          | inl empty ↦ inl (sym (ok-injective (rw (few, none_at_all) at done)) ∙ rw empty refl)
          | inr one ↦ inr (
              subst (λ l. count_of is_flagged l ≡ 1) (ok-injective (rw (few, none_at_all) at done))
                one)
        ]
    | inr some' ↦ inr (
        subst (λ l. count_of is_flagged l ≡ 1) (ok-injective (rw (few, some') at done))
          (ground arith))
  ]
]
