-- ===== src/Menu/Calls.antt =====
-- The calls of app/services/menu_service.py that write a menu, as one type, and what they keep.
use mathlib.Core.Path.{subst}
use cheering_shop_backend.Prelude.{ℕ, ◌≡◌, Bool, false, some}
use cheering_shop_backend.Result.{Result, ok, ok-injective}
use cheering_shop_backend.Menu.{Database}
use cheering_shop_backend.Menu.Variants.{
  VariantCreateRequest, VariantUpdateRequest, AddOnCreateRequest, AddOnUpdateRequest, add_variant,
  update_variant, delete_variant, add_add_on, update_add_on, delete_add_on,
}
use cheering_shop_backend.Menu.Variants.Default.{
  add_variant-HasDefault, update_variant-HasDefault, delete_variant-HasDefault,
}
use cheering_shop_backend.Menu.Items.{
  VendorMenu, Edited, MenuItemCreateRequest, MenuItemUpdateRequest, on_item, create_item,
  update_item, set_item_status, delete_item,
}
use cheering_shop_backend.Menu.Sections.{
  MenuCategoryCreateRequest, MenuCategoryUpdateRequest, MenuReorderRequest, Taxonomy,
  create_category, update_category, delete_category, reorder,
}
use cheering_shop_backend.Menu.Kept.{
  IsListed, IsMenu, on_item-IsMenu, settled-IsListed, add_ons-IsListed, add_add_on_only,
  update_add_on_only, delete_add_on_only, create_item-IsMenu, update_item-IsMenu, NamesOnce,
}
use cheering_shop_backend.Menu.Filed.{
  create_category-IsMenu, update_category-IsMenu, delete_category-IsMenu, reorder-IsMenu,
}

-- A call of one restaurant's vendor. `id` of a creation is the new row's.
pub data Call : Type 0 where
  create : (id : ℕ) → MenuItemCreateRequest → Call
  update : (id : ℕ) → MenuItemUpdateRequest → Call
  status : (id : ℕ) → Bool → Call
  remove : (id now : ℕ) → Call
  variant_add : (item id : ℕ) → VariantCreateRequest → Call
  variant_update : (item id : ℕ) → VariantUpdateRequest → Call
  variant_delete : (item id : ℕ) → Call
  add_on_add : (item id : ℕ) → AddOnCreateRequest → Call
  add_on_update : (item id : ℕ) → AddOnUpdateRequest → Call
  add_on_delete : (item id : ℕ) → Call
  category_create : Result VendorMenu ℕ → (id : ℕ) → MenuCategoryCreateRequest → Call
  category_update : Taxonomy → (id : ℕ) → MenuCategoryUpdateRequest → Call
  category_delete : (id : ℕ) → Call
  reordering : MenuReorderRequest → Call

module _ (db : Database) (fresh : ℕ → ℕ) (restaurant : ℕ) where
  abbrev pub perform : Call → VendorMenu → Edited
  perform (Call.create id body) menu = create_item db fresh restaurant id body menu
  perform (Call.update id body) menu = update_item db fresh restaurant id body menu
  perform (Call.status id b) menu = set_item_status restaurant id b menu
  perform (Call.remove id now) menu = delete_item restaurant id now menu
  perform (Call.variant_add item id body) menu =
      on_item restaurant item (add_variant db id body) menu
  perform (Call.variant_update item id body) menu =
      on_item restaurant item (update_variant db id body) menu
  perform (Call.variant_delete item id) menu = on_item restaurant item (delete_variant id) menu
  perform (Call.add_on_add item id body) menu = on_item restaurant item (add_add_on db id body) menu
  perform (Call.add_on_update item id body) menu =
      on_item restaurant item (update_add_on db id body) menu
  perform (Call.add_on_delete item id) menu = on_item restaurant item (delete_add_on id) menu
  perform (Call.category_create platform id body) menu =
      create_category platform restaurant id body menu
  perform (Call.category_update platform id body) menu =
      update_category platform restaurant id body menu
  perform (Call.category_delete id) menu = delete_category restaurant id menu
  perform (Call.reordering body) menu = reorder restaurant body menu

-- What the theorem asks of a request that replaces an item's variants.
abbrev pub Admits : Call → Type 0
Admits (Call.update id body) = NamesOnce body.variants
Admits _ = Unit

-- With a menu on which every item has one default among its variants (or no variants) and a section
-- of its own restaurant, any call that returns leaves such a menu: creating, editing, hiding and
-- deleting items, variants, add-ons and sections, and reordering. A request that replaces an
-- item's variants names each row at most once.
pub perform-IsMenu :
    (db : Database) (fresh : ℕ → ℕ) (restaurant : ℕ) (call : Call) (menu after : VendorMenu)
    → Admits call
    → IsMenu menu
    → perform db fresh restaurant call menu ≡ ok after
    → IsMenu after
unfolding set_item_status delete_item
perform-IsMenu db fresh restaurant (Call.create id body) menu after admits h e =
    create_item-IsMenu db fresh restaurant id body menu after h e
perform-IsMenu db fresh restaurant (Call.update id body) menu after admits h e =
    update_item-IsMenu db fresh restaurant id body menu after admits h e
perform-IsMenu db fresh restaurant (Call.status id b) menu after admits h e =
    on_item-IsMenu restaurant id (λ item. ok (record item { is_available = b })) menu after
      (λ i j was done. subst (IsListed menu.categories) (ok-injective done) was) h e
perform-IsMenu db fresh restaurant (Call.remove id now) menu after admits h e =
    on_item-IsMenu restaurant id
      (λ item. ok (record item { deleted_at = some now; is_available = false })) menu after
      (λ i j was done. subst (IsListed menu.categories) (ok-injective done) was) h e
perform-IsMenu db fresh restaurant (Call.variant_add item id body) menu after admits h e =
    on_item-IsMenu restaurant item (add_variant db id body) menu after
      (λ i j was done.
        settled-IsListed menu.categories i j was (add_variant-HasDefault db id body i j was.0 done))
      h e
perform-IsMenu db fresh restaurant (Call.variant_update item id body) menu after admits h e =
    on_item-IsMenu restaurant item (update_variant db id body) menu after
      (λ i j was done.
        settled-IsListed menu.categories i j was
          (update_variant-HasDefault db id body i j was.0 done))
      h e
perform-IsMenu db fresh restaurant (Call.variant_delete item id) menu after admits h e =
    on_item-IsMenu restaurant item (delete_variant id) menu after
      (λ i j was done.
        settled-IsListed menu.categories i j was (delete_variant-HasDefault id i j was.0 done))
      h e
perform-IsMenu db fresh restaurant (Call.add_on_add item id body) menu after admits h e =
    on_item-IsMenu restaurant item (add_add_on db id body) menu after
      (λ i j was done.
        add_ons-IsListed menu.categories i j was (add_add_on_only db id body i j done))
      h e
perform-IsMenu db fresh restaurant (Call.add_on_update item id body) menu after admits h e =
    on_item-IsMenu restaurant item (update_add_on db id body) menu after
      (λ i j was done.
        add_ons-IsListed menu.categories i j was (update_add_on_only db id body i j done))
      h e
perform-IsMenu db fresh restaurant (Call.add_on_delete item id) menu after admits h e =
    on_item-IsMenu restaurant item (delete_add_on id) menu after
      (λ i j was done. add_ons-IsListed menu.categories i j was (delete_add_on_only id i j done)) h
      e
perform-IsMenu db fresh restaurant (Call.category_create platform id body) menu after admits h e =
    create_category-IsMenu platform restaurant id body menu after h e
perform-IsMenu db fresh restaurant (Call.category_update platform id body) menu after admits h e =
    update_category-IsMenu platform restaurant id body menu after h e
perform-IsMenu db fresh restaurant (Call.category_delete id) menu after admits h e =
    delete_category-IsMenu restaurant id menu after h e
perform-IsMenu db fresh restaurant (Call.reordering body) menu after admits h e =
    reorder-IsMenu restaurant body menu after h e
