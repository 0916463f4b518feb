-- ===== src/Menu.antt =====
-- The vendor's menu: the rows of app/models/menu.py that app/services/menu_service.py edits, the
-- requests of app/schemas/requests/vendor_menu.py, and what the edits share.
pub mod Variants
pub mod Sync
pub mod Items
pub mod Sections
pub mod Kept
pub mod Filed
pub mod Calls
use text.Mathlib.Text.{◌==◌ as str_eq}
use cheering_shop_backend.Prelude.{
  ℕ, ◌+◌, Bool, true, false, Option, none, some, String, List, [], ◌∷◌, ◌&&◌, ◌||◌, not, ◌==◌, ltb,
  if◌then◌else◌, max, is_none,
}
use cheering_shop_backend.Result.{Result, ok, err, Error, ◌>>=◌, ◌>>◌, raise_if, or_raise}
use cheering_shop_backend.Money.{Decimal}

pub record ItemVariant : Type 0 where
  pub id : ℕ
  pub name : String
  pub price : ℕ
  pub is_default : Bool
  pub is_available : Bool
  pub sort_order : ℕ

pub record ItemAddOn : Type 0 where
  pub id : ℕ
  pub name : String
  pub price : ℕ
  pub is_available : Bool
  pub sort_order : ℕ
  pub max_quantity : ℕ

pub record MenuItem : Type 0 where
  pub id : ℕ
  pub category_id : ℕ
  pub restaurant_id : ℕ
  pub name : String
  pub description : Option String
  pub base_price : ℕ
  pub image_url : Option String
  pub is_available : Bool
  pub is_veg : Bool
  pub prep_time_mins : Option ℕ
  pub sort_order : ℕ
  pub deleted_at : Option ℕ
  pub variants : List ItemVariant
  pub add_ons : List ItemAddOn

-- `id`: absent or empty, no UUID, or an id.
pub record VariantRequest : Type 0 where
  pub id : Option (Option ℕ)
  pub name : String
  pub price : Decimal
  pub is_default : Bool
  pub is_available : Bool
  pub sort_order : ℕ

pub record AddOnRequest : Type 0 where
  pub id : Option (Option ℕ)
  pub name : String
  pub price : Decimal
  pub is_available : Bool
  pub sort_order : ℕ
  pub max_quantity : ℕ

-- The database's answer to a flush, from the rows before and after it: false is an IntegrityError.
pub record Database : Type 0 where
  pub flush_variants : (before after : List ItemVariant) → Bool
  pub flush_add_ons : (before after : List ItemAddOn) → Bool

-- MAX_OPTIONS_PER_ITEM
abbrev pub max_options_per_item : ℕ
max_options_per_item = 50

abbrev pub by_id : ℕ → ItemVariant → Bool
by_id id v = v.id == id

abbrev pub by_name : String → ItemVariant → Bool
by_name name v = str_eq v.name name

abbrev pub cleared : ItemVariant → ItemVariant
cleared v = record v { is_default = false }

abbrev pub chosen : ItemVariant → ItemVariant
chosen v = record v { is_default = true }

-- `for v in item.variants: v.is_default = False`
abbrev pub clear_all : List ItemVariant → List ItemVariant
clear_all [] = []
clear_all (v ∷ vs) = cleared v ∷ clear_all vs

-- `_next_sort_order`: `max(…, default=-1) + 1`
unfoldable pub next_sort_order : {A : Type 0} → (A → ℕ) → List A → ℕ
next_sort_order order [] = 0
next_sort_order order (r ∷ rows) = max (order r + 1) (next_sort_order order rows)

-- `collection.remove(row)`, of the row that a lookup by id loaded.
abbrev pub remove_first : {A : Type 0} → (A → Bool) → List A → List A
remove_first p [] = []
remove_first p (x ∷ xs) = let rest = remove_first p xs in if p x then xs else x ∷ rest

abbrev pub MenuResult : Type 0
MenuResult = Result MenuItem MenuItem

-- `PATCH`: a field that is absent or null is left alone.
abbrev pub patch : {A : Type 0} → Option A → A → A
patch none old = old
patch (some new) old = new
