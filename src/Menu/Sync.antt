-- ===== src/Menu/Sync.antt =====
-- The replace-sets of app/services/menu_service.py: `_apply_positional_order`, `_resolve_default`,
-- `_sync_variants` and `_sync_add_ons`.
pub mod Held
pub mod Default
use text.Mathlib.Text.{◌==◌ as str_eq}
use cheering_shop_backend.Prelude.{
  ℕ, ◌+◌, Bool, true, false, Option, none, some, String, List, [], ◌∷◌, ◌++◌, ◌&&◌, ◌||◌, not, ◌==◌,
  ltb, leb, if◌then◌else◌, find?, keep, any_of, update_first, count_of, length, is_none, get_or,
}
use cheering_shop_backend.Prelude.Text.{strip}
use cheering_shop_backend.Result.{Result, ok, err, Error, ◌>>=◌, ◌>>◌, raise_if, or_raise}
use cheering_shop_backend.Money.{Decimal, to_minor}
use cheering_shop_backend.Menu.{
  ItemVariant, ItemAddOn, MenuItem, Database, MenuResult, VariantRequest, AddOnRequest, by_id,
  by_name, chosen, clear_all,
}

-- `all(e.sort_order == 0 for e in entries)`
abbrev pub all_zero : {A : Type 0} → (A → ℕ) → List A → Bool
all_zero order [] = true
all_zero order (e ∷ es) = order e == 0 && all_zero order es

abbrev pub numbered : {A : Type 0} → (ℕ → A → A) → ℕ → List A → List A
numbered place position [] = []
numbered place position (e ∷ es) = place position e ∷ numbered place (position + 1) es

abbrev pub apply_positional_order : {A : Type 0} → (A → ℕ) → (ℕ → A → A) → List A → List A
apply_positional_order order place entries =
    if all_zero order entries then numbered place 0 entries else entries

abbrev pub positional : List VariantRequest → List VariantRequest
positional entries =
    apply_positional_order (λ e. e.sort_order) (λ n e. record e { sort_order = n }) entries

abbrev pub positional_add_ons : List AddOnRequest → List AddOnRequest
positional_add_ons entries =
    apply_positional_order (λ e. e.sort_order) (λ n e. record e { sort_order = n }) entries

abbrev pub is_flagged : VariantRequest → Bool
is_flagged e = e.is_default

abbrev pub first_flagged : List VariantRequest → List VariantRequest
first_flagged [] = []
first_flagged (e ∷ es) = record e { is_default = true } ∷ es

unfoldable pub resolve_default : {S : Type 0} → List VariantRequest → Result S (List VariantRequest)
resolve_default entries =
    if ltb 1 (count_of is_flagged entries)
    then err (Error.validation "Only one variant can be the default")
    else ok (if count_of is_flagged entries == 0 then first_flagged entries else entries)

-- The rows that were there, those that the payload adds, and the ids that it mentions.
pub record Synced (Row : Type 0) : Type 0 where
  pub existing : List Row
  pub created : List Row
  pub kept : List ℕ

abbrev pub is_kept : List ℕ → ℕ → Bool
is_kept kept id = any_of (λ k. k == id) kept

abbrev pub written : VariantRequest → ItemVariant → ItemVariant
written e v = record v {
  name = strip e.name;
  price = to_minor e.price;
  is_available = e.is_available;
  sort_order = e.sort_order;
}

abbrev pub created_from : ℕ → VariantRequest → ItemVariant
created_from id e = record {
  id = id;
  name = strip e.name;
  price = to_minor e.price;
  is_default = false;
  is_available = e.is_available;
  sort_order = e.sort_order;
}

-- `fresh` gives the ids of new rows, by how many the call has created before.
abbrev pub sync_variant :
    {S : Type 0}
    → (fresh : ℕ → ℕ) → VariantRequest
    → Option (Option ℕ)
    → Synced ItemVariant
    → Result S (Synced ItemVariant)
sync_variant fresh e none s =
    ok (record s { created = s.created ++ (created_from (fresh (length s.created)) e ∷ []) })
sync_variant fresh e (some none) s = err (Error.validation "variant id is not a valid id")
sync_variant fresh e (some (some id)) s =
    if is_none (find? (by_id id) s.existing)
    then err (Error.not_found "Variant .. does not belong to this item")
    else ok
        (record s { existing = update_first (by_id id) (written e) s.existing; kept = id ∷ s.kept })

abbrev pub sync_entries :
    {S : Type 0}
    → (fresh : ℕ → ℕ) → List VariantRequest
    → Synced ItemVariant
    → Result S (Synced ItemVariant)
sync_entries fresh [] s = ok s
sync_entries fresh (e ∷ es) s = do next ← sync_variant fresh e e.id s; sync_entries fresh es next

abbrev pub remaining : Synced ItemVariant → List ItemVariant
remaining s = keep (λ v. is_kept s.kept v.id) s.existing ++ s.created

-- The last loop: the first row with the name of the flagged entry becomes the default.
abbrev pub with_default : Option VariantRequest → List ItemVariant → List ItemVariant
with_default none rows = rows
with_default (some e) rows = update_first (by_name (strip e.name)) chosen rows

abbrev pub settled : List VariantRequest → Synced ItemVariant → List ItemVariant
settled payload s = with_default (find? is_flagged payload) (clear_all (remaining s))

-- The item's variants after the call. What the flushes refuse is a name clash of the rows.
unfoldable pub sync_variants :
    Database
    → (fresh : ℕ → ℕ) → List VariantRequest
    → List ItemVariant
    → Result MenuItem (List ItemVariant)
unfolding resolve_default strip to_minor
sync_variants db fresh payload variants = do
  entries ← resolve_default (positional payload)
  s ← sync_entries fresh entries (record { existing = variants; created = []; kept = [] })
  raise_if (not (db.flush_variants variants (settled entries s)))
      (Error.conflict "Variant and add-on names must be unique within an item")
  ok (settled entries s)

abbrev pub add_on_by_id : ℕ → ItemAddOn → Bool
add_on_by_id id a = a.id == id

abbrev pub add_on_written : AddOnRequest → ItemAddOn → ItemAddOn
add_on_written e a = record a {
  name = strip e.name;
  price = to_minor e.price;
  is_available = e.is_available;
  sort_order = e.sort_order;
  max_quantity = e.max_quantity;
}

abbrev pub add_on_from : ℕ → AddOnRequest → ItemAddOn
add_on_from id e = record {
  id = id;
  name = strip e.name;
  price = to_minor e.price;
  is_available = e.is_available;
  sort_order = e.sort_order;
  max_quantity = e.max_quantity;
}

abbrev pub sync_add_on :
    {S : Type 0}
    → (fresh : ℕ → ℕ) → AddOnRequest
    → Option (Option ℕ)
    → Synced ItemAddOn
    → Result S (Synced ItemAddOn)
sync_add_on fresh e none s =
    ok (record s { created = s.created ++ (add_on_from (fresh (length s.created)) e ∷ []) })
sync_add_on fresh e (some none) s = err (Error.validation "add-on id is not a valid id")
sync_add_on fresh e (some (some id)) s =
    if is_none (find? (add_on_by_id id) s.existing)
    then err (Error.not_found "Add-on .. does not belong to this item")
    else ok (record s {
      existing = update_first (add_on_by_id id) (add_on_written e) s.existing;
      kept = id ∷ s.kept;
    })

abbrev pub sync_every :
    {S : Type 0}
    → (fresh : ℕ → ℕ) → List AddOnRequest
    → Synced ItemAddOn
    → Result S (Synced ItemAddOn)
sync_every fresh [] s = ok s
sync_every fresh (e ∷ es) s = do next ← sync_add_on fresh e e.id s; sync_every fresh es next

unfoldable pub sync_add_ons :
    Database
    → (fresh : ℕ → ℕ) → List AddOnRequest
    → List ItemAddOn
    → Result MenuItem (List ItemAddOn)
unfolding strip to_minor
sync_add_ons db fresh payload add_ons = do
  s ←
      sync_every fresh (positional_add_ons payload)
        (record { existing = add_ons; created = []; kept = [] })
  let after = keep (λ a. is_kept s.kept a.id) s.existing ++ s.created in
      raise_if (not (db.flush_add_ons add_ons after))
        (Error.conflict "Variant and add-on names must be unique within an item")
      >> ok after
