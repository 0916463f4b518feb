-- ===== src/Menu/Sections.antt =====
-- `create_category`, `update_category`, `delete_category` and `reorder` of app/services/menu_service.py.
use text.Mathlib.Text.{◌==◌ as str_eq}
use cheering_shop_backend.Prelude.{
  ℕ, Bool, true, false, Option, none, some, String, List, [], ◌∷◌, ◌&&◌, not, ◌==◌, if◌then◌else◌,
  keep, any_of, count_of, update_where, is_none,
}
use cheering_shop_backend.Prelude.Text.{strip}
use cheering_shop_backend.Result.{Result, ok, Error, ◌>>=◌, ◌>>◌, raise_if, or_raise}
use cheering_shop_backend.Menu.{MenuItem, patch}
use cheering_shop_backend.Menu.Items.{
  MenuCategory, VendorMenu, Edited, is_category, is_live_item, get_category,
}

pub record MenuCategoryCreateRequest : Type 0 where
  pub name : String
  pub sort_order : ℕ
  pub is_active : Bool

-- An id that is no UUID is `none`.
pub record ReorderEntry : Type 0 where
  pub id : Option ℕ
  pub sort_order : ℕ

pub record MenuReorderRequest : Type 0 where
  pub categories : List ReorderEntry
  pub items : List ReorderEntry

-- `uq_menu_categories_name`
abbrev pub is_named : (restaurant : ℕ) → String → MenuCategory → Bool
is_named restaurant name c = c.restaurant_id == restaurant && str_eq c.name name

abbrev pub new_category : (restaurant id category : ℕ) → MenuCategoryCreateRequest → MenuCategory
new_category restaurant id category body = record {
  id = id;
  restaurant_id = restaurant;
  name = strip body.name;
  sort_order = body.sort_order;
  is_active = body.is_active;
  category_id = some category;
}

-- `platform` is the answer of `_platform_for`: the browse category, or the error of its lookup.
unfoldable pub create_category :
    (platform : Result VendorMenu ℕ)
    → (restaurant id : ℕ) → MenuCategoryCreateRequest
    → VendorMenu
    → Edited
unfolding strip
create_category platform restaurant id body menu = do
  category ← platform
  raise_if (any_of (is_named restaurant (strip body.name)) menu.categories)
      (Error.conflict "A category named .. already exists")
  ok (record menu { categories = new_category restaurant id category body ∷ menu.categories })

-- `platform_category_id` is left out, null, no UUID, or an id.
pub record MenuCategoryUpdateRequest : Type 0 where
  pub name : Option String
  pub sort_order : Option ℕ
  pub is_active : Option Bool
  pub platform_category_id : Option (Option (Option ℕ))

-- The answers of category_service.py: the ids of the platform's categories.
pub record Taxonomy : Type 0 where
  pub get_active : ℕ → Result VendorMenu ℕ
  pub find_by_name : String → Option ℕ
  pub resolve : String → ℕ
  pub get_by_id : ℕ → Option ℕ

abbrev pub renamed : Option String → String → String
renamed none old = old
renamed (some name) old = strip name

abbrev pub section_edited : MenuCategoryUpdateRequest → MenuCategory → MenuCategory
section_edited body c = record c {
  name = renamed body.name c.name;
  sort_order = patch body.sort_order c.sort_order;
  is_active = patch body.is_active c.is_active;
}

abbrev pub matched : Taxonomy → MenuCategory → Option ℕ → Option ℕ
matched platform c (some found) = some found
matched platform c none = elim c.category_id [
  | none ↦ some (platform.resolve c.name)
  | some current ↦ platform.get_by_id current
]

-- The section's platform category, from the field, whether it was renamed, and its row.
abbrev pub linked :
    Taxonomy → Option (Option (Option ℕ)) → Bool → MenuCategory → Result VendorMenu (Option ℕ)
linked platform (some none) renamed c = ok none
linked platform (some (some sent)) renamed c = do
  id ← or_raise sent (Error.validation "platform_category_id is not a valid id")
  found ← platform.get_active id
  ok (some found)
linked platform none true c = ok (matched platform c (platform.find_by_name c.name))
linked platform none false c = ok c.category_id

-- The UPDATE of the section's row.
abbrev pub section_saved : MenuCategory → Option ℕ → MenuCategory → MenuCategory
section_saved edited link c = record c {
  name = edited.name;
  sort_order = edited.sort_order;
  is_active = edited.is_active;
  category_id = link;
}

unfoldable pub update_category :
    Taxonomy → (restaurant id : ℕ) → MenuCategoryUpdateRequest → VendorMenu → Edited
unfolding strip
update_category platform restaurant id body menu = do
  category ← get_category restaurant id menu
  let edited = section_edited body category
  link ← linked platform body.platform_category_id (not (str_eq edited.name category.name)) edited
  raise_if
      (any_of (λ c. not (c.id == category.id) && is_named restaurant edited.name c) menu.categories)
      (Error.conflict "Another category already uses that name")
  ok (record menu {
    categories =
        update_where (λ c. c.id == category.id) (section_saved edited link) menu.categories;
  })

abbrev pub is_live_in : ℕ → MenuItem → Bool
is_live_in category i = i.category_id == category && is_none i.deleted_at

-- The foreign key of menu_items deletes the rows that are left in the category.
abbrev pub without_category : MenuCategory → VendorMenu → VendorMenu
without_category category menu = record {
  categories = keep (λ c. not (c.id == category.id)) menu.categories;
  items = keep (λ i. not (i.category_id == category.id)) menu.items;
}

unfoldable pub delete_category : (restaurant id : ℕ) → VendorMenu → Edited
delete_category restaurant id menu = do
  category ← get_category restaurant id menu
  raise_if (not (count_of (is_live_in category.id) menu.items == 0))
      (Error.conflict "This category still holds .. item(s).")
  ok (without_category category menu)

-- `[_as_uuid(e.id, …) for e in entries]`
abbrev pub parsed : {S : Type 0} → String → List ReorderEntry → Result S (List (ℕ × ℕ))
parsed what [] = ok []
parsed what (e ∷ es) = do
  id ← or_raise e.id (Error.validation what)
  rest ← parsed what es
  ok ((id, e.sort_order) ∷ rest)

abbrev pub any_missing : {A : Type 0} → (ℕ → A → Bool) → List A → List (ℕ × ℕ) → Bool
any_missing owns rows [] = false
any_missing owns rows ((id, order) ∷ rest) =
    if any_of (owns id) rows then any_missing owns rows rest else true

abbrev pub order_categories : List (ℕ × ℕ) → List MenuCategory → List MenuCategory
order_categories [] rows = rows
order_categories ((id, order) ∷ rest) rows =
    order_categories rest
      (update_where (λ c. c.id == id) (λ c. record c { sort_order = order }) rows)

abbrev pub order_items : List (ℕ × ℕ) → List MenuItem → List MenuItem
order_items [] rows = rows
order_items ((id, order) ∷ rest) rows =
    order_items rest (update_where (λ i. i.id == id) (λ i. record i { sort_order = order }) rows)

abbrev pub is_nothing : {A : Type 0} → List A → Bool
is_nothing [] = true
is_nothing (_ ∷ _) = false

unfoldable pub reorder : (restaurant : ℕ) → MenuReorderRequest → VendorMenu → Edited
reorder restaurant body menu = do
  raise_if (is_nothing body.categories && is_nothing body.items)
      (Error.validation "Nothing to reorder")
  category_ids ← parsed "category id is not a valid id" body.categories
  item_ids ← parsed "item id is not a valid id" body.items
  raise_if (any_missing (is_category restaurant) menu.categories category_ids)
      (Error.not_found "Categories not found on this menu: ..")
  raise_if (any_missing (is_live_item restaurant) menu.items item_ids)
      (Error.not_found "Items not found on this menu: ..")
  ok (record {
    categories = order_categories category_ids menu.categories;
    items = order_items item_ids menu.items;
  })
