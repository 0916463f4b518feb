-- ===== src/Menu/Items.antt =====
-- The calls of app/services/menu_service.py on whole items: `create_item`, `update_item`,
-- `set_item_status` and `delete_item`, behind the lookups `_get_item` and `_get_category`.
use cheering_shop_backend.Prelude.{
  ℕ, suc, Bool, false, Option, none, some, String, List, [], ◌∷◌, ◌&&◌, not, ◌==◌, find?,
  update_where, is_none,
}
use cheering_shop_backend.Prelude.Text.{strip}
use cheering_shop_backend.Result.{Result, ok, err, saved, Error, ◌>>=◌, ◌>>◌, raise_if, or_raise}
use cheering_shop_backend.Money.{Decimal, to_minor}
use cheering_shop_backend.Menu.{
  ItemVariant, ItemAddOn, MenuItem, Database, MenuResult, VariantRequest, AddOnRequest, patch,
}
use cheering_shop_backend.Menu.Sync.{
  positional, positional_add_ons, resolve_default, sync_variants, sync_add_ons,
}

pub record MenuCategory : Type 0 where
  pub id : ℕ
  pub restaurant_id : ℕ
  pub name : String
  pub sort_order : ℕ
  pub is_active : Bool
  pub category_id : Option ℕ

pub record VendorMenu : Type 0 where
  pub categories : List MenuCategory
  pub items : List MenuItem

abbrev pub Edited : Type 0
Edited = Result VendorMenu VendorMenu

-- `category_id` is no UUID, or an id.
pub record MenuItemCreateRequest : Type 0 where
  pub category_id : Option ℕ
  pub name : String
  pub description : Option String
  pub base_price : Decimal
  pub image_url : Option String
  pub is_available : Bool
  pub is_veg : Bool
  pub prep_time_mins : Option ℕ
  pub sort_order : ℕ
  pub variants : List VariantRequest
  pub add_ons : List AddOnRequest

-- A field that was not sent, or is null where null means the same, is `none`.
pub record MenuItemUpdateRequest : Type 0 where
  pub category_id : Option (Option ℕ)
  pub name : Option String
  pub description : Option (Option String)
  pub base_price : Option Decimal
  pub image_url : Option (Option String)
  pub is_available : Option Bool
  pub is_veg : Option Bool
  pub prep_time_mins : Option (Option ℕ)
  pub sort_order : Option ℕ
  pub variants : Option (List VariantRequest)
  pub add_ons : Option (List AddOnRequest)

abbrev pub is_category : (restaurant id : ℕ) → MenuCategory → Bool
is_category restaurant id c = c.id == id && c.restaurant_id == restaurant

-- `_get_item`: a live item of this restaurant.
abbrev pub is_live_item : (restaurant id : ℕ) → MenuItem → Bool
is_live_item restaurant id i = i.id == id && i.restaurant_id == restaurant && is_none i.deleted_at

abbrev pub get_category : (restaurant id : ℕ) → VendorMenu → Result VendorMenu MenuCategory
get_category restaurant id menu =
    or_raise (find? (is_category restaurant id) menu.categories)
      (Error.not_found "Menu category not found")

abbrev pub get_item : (restaurant id : ℕ) → VendorMenu → Result VendorMenu MenuItem
get_item restaurant id menu =
    or_raise (find? (is_live_item restaurant id) menu.items) (Error.not_found "Menu item not found")

abbrev pub put_item : VendorMenu → MenuItem → VendorMenu
put_item menu item = record menu {
  items = update_where (λ i. i.id == item.id) (λ _. item) menu.items;
}

-- The menu after an edit of the loaded item.
abbrev pub stored : VendorMenu → MenuResult → Edited
stored menu (ok item) = ok (put_item menu item)
stored menu (err e) = err e
stored menu (saved item e) = saved (put_item menu item) e

unfoldable pub on_item : (restaurant id : ℕ) → (MenuItem → MenuResult) → VendorMenu → Edited
on_item restaurant id edit menu = do item ← get_item restaurant id menu; stored menu (edit item)

-- A new row per entry, with the default that `_resolve_default` settled.
abbrev pub variant_rows : (fresh : ℕ → ℕ) → ℕ → List VariantRequest → List ItemVariant
variant_rows fresh n [] = []
variant_rows fresh n (e ∷ es) =
    record {
      id = fresh n;
      name = strip e.name;
      price = to_minor e.price;
      is_default = e.is_default;
      is_available = e.is_available;
      sort_order = e.sort_order;
    }
    ∷ variant_rows fresh (suc n) es

-- `create_item` gives no `max_quantity`: the column's default is 1.
abbrev pub add_on_rows : (fresh : ℕ → ℕ) → ℕ → List AddOnRequest → List ItemAddOn
add_on_rows fresh n [] = []
add_on_rows fresh n (e ∷ es) =
    record {
      id = fresh n;
      name = strip e.name;
      price = to_minor e.price;
      is_available = e.is_available;
      sort_order = e.sort_order;
      max_quantity = 1;
    }
    ∷ add_on_rows fresh (suc n) es

abbrev pub item_of :
    (id restaurant category : ℕ)
    → MenuItemCreateRequest
    → List ItemVariant
    → List ItemAddOn
    → MenuItem
item_of id restaurant category body variants add_ons = record {
  id = id;
  category_id = category;
  restaurant_id = restaurant;
  name = strip body.name;
  description = body.description;
  base_price = to_minor body.base_price;
  image_url = body.image_url;
  is_available = body.is_available;
  is_veg = body.is_veg;
  prep_time_mins = body.prep_time_mins;
  sort_order = body.sort_order;
  deleted_at = none;
  variants = variants;
  add_ons = add_ons;
}

unfoldable pub create_item :
    Database → (fresh : ℕ → ℕ) → (restaurant id : ℕ) → MenuItemCreateRequest → VendorMenu → Edited
unfolding resolve_default strip to_minor
create_item db fresh restaurant id body menu = do
  category_id ← or_raise body.category_id (Error.validation "category_id is not a valid id")
  category ← get_category restaurant category_id menu
  entries ← resolve_default (positional body.variants)
  raise_if
      (not (
        db.flush_variants [] (variant_rows fresh 0 entries)
        && db.flush_add_ons [] (add_on_rows fresh 0 (positional_add_ons body.add_ons))))
      (Error.conflict "Variant and add-on names must be unique within an item")
  ok (record menu {
    items =
        item_of id restaurant category.id body (variant_rows fresh 0 entries)
          (add_on_rows fresh 0 (positional_add_ons body.add_ons))
        ∷ menu.items;
  })

-- The section that the item moves to, if the request names one.
abbrev pub moved_to : (restaurant : ℕ) → Option (Option ℕ) → VendorMenu → ℕ → Result VendorMenu ℕ
moved_to restaurant none menu old = ok old
moved_to restaurant (some none) menu old = err (Error.validation "category_id is not a valid id")
moved_to restaurant (some (some id)) menu old = do
  category ← get_category restaurant id menu
  ok category.id

abbrev pub within_menu : {B : Type 0} → Result MenuItem B → Result VendorMenu B
within_menu (ok after) = ok after
within_menu (err e) = err e
within_menu (saved item e) = err e

-- `variants` and `add_ons` that were not sent stay as they are.
abbrev pub synced :
    {A B : Type 0} → Option A → (A → B → Result MenuItem B) → B → Result VendorMenu B
synced none sync rows = ok rows
synced (some payload) sync rows = within_menu (sync payload rows)

abbrev pub rewritten :
    MenuItemUpdateRequest → ℕ → List ItemVariant → List ItemAddOn → MenuItem → MenuItem
rewritten body category variants add_ons item = record item {
  category_id = category;
  name = elim body.name [ none ↦ item.name | some name ↦ strip name ];
  description = patch body.description item.description;
  base_price = elim body.base_price [ none ↦ item.base_price | some price ↦ to_minor price ];
  image_url = patch body.image_url item.image_url;
  is_available = patch body.is_available item.is_available;
  is_veg = patch body.is_veg item.is_veg;
  prep_time_mins = patch body.prep_time_mins item.prep_time_mins;
  sort_order = patch body.sort_order item.sort_order;
  variants = variants;
  add_ons = add_ons;
}

unfoldable pub update_item :
    Database → (fresh : ℕ → ℕ) → (restaurant id : ℕ) → MenuItemUpdateRequest → VendorMenu → Edited
unfolding strip to_minor sync_variants sync_add_ons
update_item db fresh restaurant id body menu = do
  item ← get_item restaurant id menu
  category ← moved_to restaurant body.category_id menu item.category_id
  variants ← synced body.variants (sync_variants db fresh) item.variants
  add_ons ← synced body.add_ons (sync_add_ons db fresh) item.add_ons
  ok (put_item menu (rewritten body category variants add_ons item))

unfoldable pub set_item_status : (restaurant id : ℕ) → Bool → VendorMenu → Edited
unfolding on_item
set_item_status restaurant id is_available menu =
    on_item restaurant id (λ item. ok (record item { is_available = is_available })) menu

unfoldable pub delete_item : (restaurant id now : ℕ) → VendorMenu → Edited
unfolding on_item
delete_item restaurant id now menu =
    on_item restaurant id (λ item. ok (record item { deleted_at = some now; is_available = false }))
      menu
