-- ===== src/Menu/Sync/Held.antt =====
-- The name of the flagged entry stays on a row that the replace-set leaves.
use mathlib.Core.Path.{subst}
use text.Mathlib.Text.{◌==◌ as str_eq}
use text.Mathlib.TextEquality.{eq_iff}
use cheering_shop_backend.Prelude.{
  ℕ, ◌≡◌, refl, sym, ◌∙◌, Bool, true, false, Option, none, some, String, List, [], ◌∷◌, ◌++◌, ◌||◌,
  not, ◌==◌, find?, keep, any_of, update_first, length, All, arith, Bool-cases, Option-cases, inl,
  inr, ==_refl,
}
use cheering_shop_backend.Prelude.Text.{strip}
use cheering_shop_backend.Prelude.Lookups.{
  any_of-found, find?-head, find?-tail, find?-hit, find?-written, find?-update_first, find?-keep,
}
use cheering_shop_backend.Result.{Result, ok, >>=-eq-ok, ok-injective}
use cheering_shop_backend.Menu.{ItemVariant, MenuItem, VariantRequest, by_id, by_name, clear_all}
use cheering_shop_backend.Menu.Sync.{
  Synced, is_flagged, is_kept, written, created_from, sync_variant, sync_entries, remaining,
}

-- An entry that does not name this row.
abbrev pub is_apart : Option ℕ → Option (Option ℕ) → Bool
is_apart (some id) (some (some j)) = not (j == id)
is_apart _ _ = true

-- The row that an entry names.
abbrev pub target : Option (Option ℕ) → Option ℕ
target none = none
target (some id) = id

abbrev pub ids : List VariantRequest → List (Option (Option ℕ))
ids [] = []
ids (e ∷ es) = e.id ∷ ids es

-- No two entries name the same row.
abbrev pub IsOnce : List (Option (Option ℕ)) → Type 0
IsOnce [] = Unit
IsOnce (o ∷ os) = All (λ o'. is_apart (target o) o' ≡ true) os × IsOnce os

pub any_of-append :
    (p : ItemVariant → Bool) (xs ys : List ItemVariant)
    → any_of p (xs ++ ys) ≡ (any_of p xs || any_of p ys)
any_of-append p [] ys = refl
any_of-append p (x ∷ xs) ys = elim (Bool-cases (p x)) [
  | inl hit ↦ rw hit refl
  | inr miss ↦ rw (miss, any_of-append p xs ys) refl
]

pub or_right : (a b : Bool) → b ≡ true → (a || b) ≡ true
or_right a b e = ground arith

-- A row that will have this name: one that the call created, or a kept row of the item.
abbrev pub Holds : String → Option ℕ → Synced ItemVariant → Type 0
Holds name none s = any_of (by_name name) s.created ≡ true
Holds name (some id) s =
    (row : ItemVariant) × (find? (by_id id) s.existing ≡ some row)
    × (str_eq row.name name ≡ true)
    × (is_kept s.kept id ≡ true)

module _ (fresh : ℕ → ℕ) where
  -- What one entry with an id does.
  pub sync_variant-eq-ok :
      (e : VariantRequest) (id : ℕ) (s : Synced ItemVariant) {after : Synced ItemVariant}
      → ◌≡◌ {A = Result MenuItem (Synced ItemVariant)}
          (sync_variant fresh e (some (some id)) s)
          (ok after)
      → (row : ItemVariant) × (find? (by_id id) s.existing ≡ some row)
        × (record s {
          existing = update_first (by_id id) (written e) s.existing;
          kept = id ∷ s.kept;
        }
            ≡ after)
  sync_variant-eq-ok e id s done = elim (Option-cases (find? (by_id id) s.existing)) [
    | inl absent ↦ let no_row = rw absent at done in cc
    | inr (row, found) ↦ (row, found, ok-injective (rw found at done))
  ]

  pub sync_variant-Holds :
      (name : String) (w : Option ℕ) (e : VariantRequest) (o : Option (Option ℕ))
      (s : Synced ItemVariant) {after : Synced ItemVariant}
      → is_apart w o ≡ true
      → ◌≡◌ {A = Result MenuItem (Synced ItemVariant)} (sync_variant fresh e o s) (ok after)
      → Holds name w s
      → Holds name w after
  sync_variant-Holds name w e (some none) s apart done h = cc
  sync_variant-Holds name none e none s apart done h = subst (Holds name none) (ok-injective done) (
      any_of-append (by_name name) s.created (created_from (fresh (length s.created)) e ∷ [])
      ∙ rw h refl)
  sync_variant-Holds name (some id) e none s apart done h =
      subst (Holds name (some id)) (ok-injective done) h
  sync_variant-Holds name none e (some (some j)) s apart done h =
      let (_, _, same) = sync_variant-eq-ok e j s done in subst (Holds name none) same h
  sync_variant-Holds name (some id) e (some (some j)) s apart done (row, found, named, kept) =
      let (_, _, same) = sync_variant-eq-ok e j s done in
      let other : (v : ItemVariant) → by_id j v ≡ true → by_id id v ≡ false =
        λ v hit. ground arith in
      subst (Holds name (some id)) same (
        row,
        find?-update_first (by_id id) (by_id j) (written e) s.existing other (λ v hit. other v hit)
            ∙ found,
        named,
        ground arith,
      )

  pub entry-Holds :
      (e : VariantRequest) (o : Option (Option ℕ)) (s : Synced ItemVariant)
      {after : Synced ItemVariant}
      → ◌≡◌ {A = Result MenuItem (Synced ItemVariant)} (sync_variant fresh e o s) (ok after)
      → Holds (strip e.name) (target o) after
  entry-Holds e (some none) s done = cc
  entry-Holds e none s done =
      let own : str_eq (strip e.name) (strip e.name) ≡ true =
        (eq_iff (strip e.name) (strip e.name)).1 refl in
      subst (Holds (strip e.name) none) (ok-injective done) (
        any_of-append (by_name (strip e.name)) s.created
          (created_from (fresh (length s.created)) e ∷ [])
        ∙ rw own (or_right (any_of (by_name (strip e.name)) s.created) true refl))
  entry-Holds e (some (some id)) s done =
      let (row, found, same) = sync_variant-eq-ok e id s done in
      let own : str_eq (strip e.name) (strip e.name) ≡ true =
        (eq_iff (strip e.name) (strip e.name)).1 refl in
      let mine : (id == id) ≡ true = ==_refl id in
      subst (Holds (strip e.name) (some id)) same (
        written e row,
        find?-written (by_id id) (written e) s.existing found
            (find?-hit (by_id id) s.existing found),
        own,
        rw mine refl,
      )

  pub sync_entries-Holds :
      (name : String) (w : Option ℕ) (es : List VariantRequest) (s : Synced ItemVariant)
      {after : Synced ItemVariant}
      → All (λ o. is_apart w o ≡ true) (ids es)
      → ◌≡◌ {A = Result MenuItem (Synced ItemVariant)} (sync_entries fresh es s) (ok after)
      → Holds name w s
      → Holds name w after
  sync_entries-Holds name w [] s apart done h = subst (Holds name w) (ok-injective done) h
  sync_entries-Holds name w (e ∷ es) s apart done h =
      let (next, first, rest) = >>=-eq-ok (sync_variant fresh e e.id s) _ done in
      sync_entries-Holds name w es next apart.1 rest
        (sync_variant-Holds name w e e.id s apart.0 first h)

  pub flagged-Holds :
      (es : List VariantRequest) (s : Synced ItemVariant) {e : VariantRequest}
      {after : Synced ItemVariant}
      → IsOnce (ids es)
      → find? is_flagged es ≡ some e
      → ◌≡◌ {A = Result MenuItem (Synced ItemVariant)} (sync_entries fresh es s) (ok after)
      → (w : Option ℕ) × Holds (strip e.name) w after
  flagged-Holds [] s once found done = cc
  flagged-Holds (x ∷ es) s {e} once found done =
      let (next, first, rest) = >>=-eq-ok (sync_variant fresh x x.id s) _ done in
      elim (Bool-cases x.is_default) [
        | inl hit ↦
            let same : x ≡ e = find?-head is_flagged x es hit found in
            (
              target x.id,
              sync_entries-Holds (strip e.name) (target x.id) es next once.0 rest (
                  subst (λ y. Holds (strip y.name) (target x.id) next) same
                    (entry-Holds x x.id s first)),
            )
        | inr miss ↦ flagged-Holds es next once.1 (find?-tail is_flagged x es miss found) rest
      ]

pub named_remains :
    (name : String) (w : Option ℕ) (s : Synced ItemVariant)
    → Holds name w s
    → any_of (by_name name) (remaining s) ≡ true
named_remains name none s h =
    any_of-append (by_name name) (keep (λ v. is_kept s.kept v.id) s.existing) s.created
    ∙ or_right (any_of (by_name name) (keep (λ v. is_kept s.kept v.id) s.existing))
        (any_of (by_name name) s.created) h
named_remains name (some id) s (row, found, named, kept) =
    let own : row.id ≡ id = let hit = find?-hit (by_id id) s.existing found in ground arith in
    let stays : is_kept s.kept row.id ≡ true =
      subst (λ k. is_kept s.kept k ≡ true) (sym own) kept in
    let there =
      any_of-found (by_name name) (by_id id) (keep (λ v. is_kept s.kept v.id) s.existing)
        (find?-keep (by_id id) (λ v. is_kept s.kept v.id) s.existing found stays) named in
    any_of-append (by_name name) (keep (λ v. is_kept s.kept v.id) s.existing) s.created
    ∙ rw there refl

pub any_of-clear_all :
    (name : String) (vs : List ItemVariant)
    → any_of (by_name name) (clear_all vs) ≡ any_of (by_name name) vs
any_of-clear_all name [] = refl
any_of-clear_all name (v ∷ vs) = rw (any_of-clear_all name vs) refl
