-- ===== src/Menu/Kept.antt =====
-- What the menu's calls keep: one default among an item's variants, and a section for every item.
use mathlib.Core.Path.{subst}
use cheering_shop_backend.Prelude.{
  ℕ, suc, ◌≡◌, refl, sym, ap, ◌∙◌, ◌⊎◌, true, Option, none, some, List, [], ◌∷◌, ◌&&◌, not, ◌==◌,
  leb, length, find?, any_of, count_of, All, All-find?, All-update_where, arith, inl, inr, is_none,
  both_true, ==_refl,
}
use cheering_shop_backend.Prelude.Lookups.{find?-hit, any_of-found}
use cheering_shop_backend.Result.{
  Result, ok, err, saved, Error, raise_if, or_raise, >>=-eq-ok, or_raise-eq-ok, ok-injective,
}
use cheering_shop_backend.Menu.{
  ItemVariant, MenuItem, MenuResult, Database, VariantRequest, max_options_per_item,
}
use cheering_shop_backend.Menu.Variants.{
  AddOnCreateRequest, AddOnUpdateRequest, add_add_on, update_add_on, delete_add_on, with_add_ons,
  add_on_by_id,
}
use cheering_shop_backend.Menu.Variants.Counts.{HasDefault, HasDefault-one, defaults}
use cheering_shop_backend.Menu.Variants.Default.{Settles, flushed-eq-ok}
use cheering_shop_backend.Menu.Sync.{
  positional, positional_add_ons, is_flagged, resolve_default, sync_variants, sync_add_ons,
}
use cheering_shop_backend.Menu.Sync.Held.{ids, IsOnce}
use cheering_shop_backend.Menu.Sync.Default.{sync_variants-HasDefault, resolved_count}
use cheering_shop_backend.Menu.Items.{
  MenuCategory, VendorMenu, MenuItemCreateRequest, MenuItemUpdateRequest, is_category, is_live_item,
  get_category, get_item, put_item, stored, on_item, variant_rows, add_on_rows, create_item,
  moved_to, synced, within_menu, rewritten, update_item,
}

-- The item's section is one of the item's restaurant.
abbrev pub IsFiled : List MenuCategory → MenuItem → Type 0
IsFiled categories i = any_of (is_category i.restaurant_id i.category_id) categories ≡ true

abbrev pub IsListed : List MenuCategory → MenuItem → Type 0
IsListed categories i = HasDefault i.variants × IsFiled categories i

abbrev pub IsMenu : VendorMenu → Type 0
IsMenu menu = All (IsListed menu.categories) menu.items

put_item-IsMenu :
    (menu : VendorMenu) (item : MenuItem)
    → IsMenu menu
    → IsListed menu.categories item
    → IsMenu (put_item menu item)
put_item-IsMenu menu item h good =
    All-update_where (IsListed menu.categories) (λ i. i.id == item.id) (λ _. item) menu.items
      (λ i hit was. good) h

stored-eq-ok :
    (menu : VendorMenu) (r : MenuResult) {after : VendorMenu}
    → stored menu r ≡ ok after
    → (item : MenuItem) × (r ≡ ok item) × (put_item menu item ≡ after)
stored-eq-ok menu (ok item) e = (item, refl, ok-injective e)
stored-eq-ok menu (err _) e = cc
stored-eq-ok menu (saved _ _) e = cc

-- An edit of one item that keeps it listed keeps the menu.
pub on_item-IsMenu :
    (restaurant id : ℕ) (edit : MenuItem → MenuResult) (menu after : VendorMenu)
    → ((item after : MenuItem)
        → IsListed menu.categories item
        → edit item ≡ ok after
        → IsListed menu.categories after)
    → IsMenu menu
    → on_item restaurant id edit menu ≡ ok after
    → IsMenu after
unfolding on_item
on_item-IsMenu restaurant id edit menu after keeps h e =
    let (item, found, e1) = >>=-eq-ok (get_item restaurant id menu) _ e in
    let (item', done, same) = stored-eq-ok menu (edit item) e1 in
    let was =
      All-find? (IsListed menu.categories) (is_live_item restaurant id) menu.items h
        (or_raise-eq-ok _ _ found) in
    subst IsMenu same (put_item-IsMenu menu item' h (keeps item item' was done))

pub settled-IsListed :
    (categories : List MenuCategory) (item after : MenuItem)
    → IsListed categories item
    → Settles item after
    → IsListed categories after
settled-IsListed categories item after (one, filed) (one', same) =
    (one', subst (IsFiled categories) same filed)

-- An edit of the add-ons only.
abbrev pub OnlyAddOns : MenuItem → MenuItem → Type 0
OnlyAddOns item after = with_add_ons item after.add_ons ≡ after

pub add_ons-IsListed :
    (categories : List MenuCategory) (item after : MenuItem)
    → IsListed categories item
    → OnlyAddOns item after
    → IsListed categories after
add_ons-IsListed categories item after h same = subst (IsListed categories) same h

pub add_add_on_only :
    (db : Database) (id : ℕ) (body : AddOnCreateRequest) (item after : MenuItem)
    → add_add_on db id body item ≡ ok after
    → OnlyAddOns item after
unfolding add_add_on
add_add_on_only db id body item after e =
    let (_, _, e1) =
      >>=-eq-ok
        (raise_if (leb max_options_per_item (length item.add_ons))
          (Error.conflict "An item can hold at most 50 add-ons"))
        _ e in
    let (_, same) = flushed-eq-ok _ _ _ e1 in subst (OnlyAddOns item) same refl

pub update_add_on_only :
    (db : Database) (id : ℕ) (body : AddOnUpdateRequest) (item after : MenuItem)
    → update_add_on db id body item ≡ ok after
    → OnlyAddOns item after
unfolding update_add_on
update_add_on_only db id body item after e =
    let (_, _, e1) =
      >>=-eq-ok
        (or_raise (find? (add_on_by_id id) item.add_ons)
          (Error.not_found "Add-on not found on this item"))
        _ e in
    let (_, same) = flushed-eq-ok _ _ _ e1 in subst (OnlyAddOns item) same refl

pub delete_add_on_only :
    (id : ℕ) (item after : MenuItem) → delete_add_on id item ≡ ok after → OnlyAddOns item after
unfolding delete_add_on
delete_add_on_only id item after e =
    let (_, _, e1) =
      >>=-eq-ok
        (or_raise (find? (add_on_by_id id) item.add_ons)
          (Error.not_found "Add-on not found on this item"))
        _ e in
    subst (OnlyAddOns item) (ok-injective e1) refl

-- The variants that `create_item` inserts.
defaults-variant_rows :
    (fresh : ℕ → ℕ) (n : ℕ) (es : List VariantRequest)
    → defaults (variant_rows fresh n es) ≡ count_of is_flagged es
defaults-variant_rows fresh n [] = refl
defaults-variant_rows fresh n (e ∷ es) = rw (defaults-variant_rows fresh (suc n) es) refl

variant_rows-HasDefault :
    (fresh : ℕ → ℕ) (es : List VariantRequest)
    → (es ≡ []) ⊎ (count_of is_flagged es ≡ 1)
    → HasDefault (variant_rows fresh 0 es)
variant_rows-HasDefault fresh es (inl empty) = rw empty tt
variant_rows-HasDefault fresh es (inr one) =
    HasDefault-one (variant_rows fresh 0 es) (defaults-variant_rows fresh 0 es ∙ one)

-- A section that a lookup found is one of the restaurant's.
found_files :
    (restaurant id : ℕ) (menu : VendorMenu) {category : MenuCategory}
    → get_category restaurant id menu ≡ ok category
    → any_of (is_category restaurant category.id) menu.categories ≡ true
found_files restaurant id menu {category} e =
    let found = or_raise-eq-ok _ _ e in
    let hit = find?-hit (is_category restaurant id) menu.categories found in
    let (_, own) = both_true (category.id == id) (category.restaurant_id == restaurant) hit in
    let itself : (category.id == category.id) ≡ true = ==_refl category.id in
    any_of-found (is_category restaurant category.id) (is_category restaurant id) menu.categories
      found (rw (itself, own) refl)

pub create_item-IsMenu :
    (db : Database) (fresh : ℕ → ℕ) (restaurant id : ℕ) (body : MenuItemCreateRequest)
    (menu after : VendorMenu)
    → IsMenu menu
    → create_item db fresh restaurant id body menu ≡ ok after
    → IsMenu after
unfolding create_item
create_item-IsMenu db fresh restaurant id body menu after h e =
    let (category_id, _, e1) =
      >>=-eq-ok (or_raise body.category_id (Error.validation "category_id is not a valid id")) _
        e in
    let (category, found, e2) = >>=-eq-ok (get_category restaurant category_id menu) _ e1 in
    let (entries, settled, e3) = >>=-eq-ok (resolve_default (positional body.variants)) _ e2 in
    let (_, _, e4) =
      >>=-eq-ok
        (raise_if
          (not (
            db.flush_variants [] (variant_rows fresh 0 entries)
            && db.flush_add_ons [] (add_on_rows fresh 0 (positional_add_ons body.add_ons))))
          (Error.conflict "Variant and add-on names must be unique within an item"))
        _ e3 in
    subst IsMenu (ok-injective e4) (
      (
        variant_rows-HasDefault fresh entries (resolved_count (positional body.variants) settled),
        found_files restaurant category_id menu found,
      ),
      h,
    )

moved_files :
    (restaurant : ℕ) (to : Option (Option ℕ)) (menu : VendorMenu) (old : ℕ) {new : ℕ}
    → any_of (is_category restaurant old) menu.categories ≡ true
    → moved_to restaurant to menu old ≡ ok new
    → any_of (is_category restaurant new) menu.categories ≡ true
moved_files restaurant none menu old filed e =
    subst (λ k. any_of (is_category restaurant k) menu.categories ≡ true) (ok-injective e) filed
moved_files restaurant (some none) menu old filed e = cc
moved_files restaurant (some (some id)) menu old filed e =
    let (category, found, e1) = >>=-eq-ok (get_category restaurant id menu) _ e in
    subst (λ k. any_of (is_category restaurant k) menu.categories ≡ true) (ok-injective e1)
      (found_files restaurant id menu found)

-- The entries of a request that replaces the variants name each row at most once.
abbrev pub NamesOnce : Option (List VariantRequest) → Type 0
NamesOnce none = Unit
NamesOnce (some payload) = IsOnce (ids payload)

within_menu-eq-ok :
    {B : Type 0} (r : Result MenuItem B) {after : B} → within_menu r ≡ ok after → r ≡ ok after
within_menu-eq-ok (ok b) e = ap ok (ok-injective e)
within_menu-eq-ok (err _) e = cc
within_menu-eq-ok (saved _ _) e = cc

synced-HasDefault :
    (db : Database) (fresh : ℕ → ℕ) (sent : Option (List VariantRequest)) (rows : List ItemVariant)
    {after : List ItemVariant}
    → NamesOnce sent
    → HasDefault rows
    → synced sent (sync_variants db fresh) rows ≡ ok after
    → HasDefault after
synced-HasDefault db fresh none rows once h e = subst HasDefault (ok-injective e) h
synced-HasDefault db fresh (some payload) rows {after} once h e =
    sync_variants-HasDefault db fresh payload rows after once (within_menu-eq-ok _ e)

live_restaurant :
    (restaurant id : ℕ) (item : MenuItem)
    → is_live_item restaurant id item ≡ true
    → item.restaurant_id ≡ restaurant
live_restaurant restaurant id item hit =
    let (scoped, _) =
      both_true (item.id == id && item.restaurant_id == restaurant) (is_none item.deleted_at) hit in
    let (_, own) = both_true (item.id == id) (item.restaurant_id == restaurant) scoped in
    ground arith

pub update_item-IsMenu :
    (db : Database) (fresh : ℕ → ℕ) (restaurant id : ℕ) (body : MenuItemUpdateRequest)
    (menu after : VendorMenu)
    → NamesOnce body.variants
    → IsMenu menu
    → update_item db fresh restaurant id body menu ≡ ok after
    → IsMenu after
unfolding update_item
update_item-IsMenu db fresh restaurant id body menu after once h e =
    let (item, found, e1) = >>=-eq-ok (get_item restaurant id menu) _ e in
    let (category, moved, e2) =
      >>=-eq-ok (moved_to restaurant body.category_id menu item.category_id) _ e1 in
    let (variants, v, e3) =
      >>=-eq-ok (synced body.variants (sync_variants db fresh) item.variants) _ e2 in
    let (add_ons, _, e4) =
      >>=-eq-ok (synced body.add_ons (sync_add_ons db fresh) item.add_ons) _ e3 in
    let live = or_raise-eq-ok _ _ found in
    let (one, filed) =
      All-find? (IsListed menu.categories) (is_live_item restaurant id) menu.items h live in
    let own : item.restaurant_id ≡ restaurant =
      live_restaurant restaurant id item (find?-hit (is_live_item restaurant id) menu.items live) in
    let filed' : any_of (is_category restaurant item.category_id) menu.categories ≡ true =
      subst (λ r. any_of (is_category r item.category_id) menu.categories ≡ true) own filed in
    let good = moved_files restaurant body.category_id menu item.category_id filed' moved in
    subst IsMenu (ok-injective e4) (
      put_item-IsMenu menu (rewritten body category variants add_ons item) h (
        synced-HasDefault db fresh body.variants item.variants once one v,
        subst (λ r. any_of (is_category r category) menu.categories ≡ true) (sym own) good,
      ))
