-- ===== src/Menu/Filed.antt =====
-- What the calls on sections keep: every item stays in a section of its restaurant.
use mathlib.Core.Path.{subst}
use text.Mathlib.Text.{◌==◌ as str_eq}
use cheering_shop_backend.Prelude.{
  ℕ, ◌≡◌, refl, ap, ◌∙◌, Bool, true, false, List, [], ◌∷◌, ◌&&◌, not, ◌==◌, keep, any_of,
  update_where, count_of, All, All-update_where, arith, Bool-cases, inl, inr, is_none,
}
use cheering_shop_backend.Prelude.Text.{strip}
use cheering_shop_backend.Result.{
  Result, ok, raise_if-eq-ok, Error, raise_if, >>=-eq-ok, ok-injective,
}
use cheering_shop_backend.Menu.{MenuItem}
use cheering_shop_backend.Menu.Items.{
  MenuCategory, VendorMenu, is_category, is_live_item, get_category,
}
use cheering_shop_backend.Menu.Sections.{
  MenuCategoryCreateRequest, MenuReorderRequest, is_named, new_category, create_category,
  is_live_in, delete_category, parsed, any_missing, order_categories, order_items, is_nothing,
  reorder, Taxonomy, MenuCategoryUpdateRequest, section_edited, section_saved, linked,
  update_category,
}
use cheering_shop_backend.Menu.Kept.{IsListed, IsMenu}

All-map :
    {P Q : MenuItem → Type 0} (xs : List MenuItem)
    → ((x : MenuItem) → P x → Q x)
    → All P xs
    → All Q xs
All-map [] f h = tt
All-map (x ∷ xs) f (h, hs) = (f x h, All-map xs f hs)

any_of-behind :
    (p : MenuCategory → Bool) (c : MenuCategory) (cs : List MenuCategory)
    → any_of p cs ≡ true
    → any_of p (c ∷ cs) ≡ true
any_of-behind p c cs e = elim (Bool-cases (p c)) [ inl hit ↦ rw hit refl | inr miss ↦ rw miss e ]

pub create_category-IsMenu :
    (platform : Result VendorMenu ℕ) (restaurant id : ℕ) (body : MenuCategoryCreateRequest)
    (menu after : VendorMenu)
    → IsMenu menu
    → create_category platform restaurant id body menu ≡ ok after
    → IsMenu after
unfolding create_category
create_category-IsMenu platform restaurant id body menu after h e =
    let (category, _, e1) = >>=-eq-ok platform _ e in
    let (_, _, e2) =
      >>=-eq-ok
        (raise_if (any_of (is_named restaurant (strip body.name)) menu.categories)
          (Error.conflict "A category named .. already exists"))
        _ e1 in
    subst IsMenu (ok-injective e2) (
      All-map menu.items
        (λ i (one, filed). (
          one,
          any_of-behind (is_category i.restaurant_id i.category_id)
              (new_category restaurant id category body) menu.categories filed,
        ))
        h)

-- Deleting a section keeps the section of an item that is filed elsewhere.
any_of-without :
    (r k gone : ℕ) (cs : List MenuCategory)
    → (k == gone) ≡ false
    → any_of (is_category r k) cs ≡ true
    → any_of (is_category r k) (keep (λ c. not (c.id == gone)) cs) ≡ true
any_of-without r k gone [] other e = cc
any_of-without r k gone (c ∷ cs) other e = elim (Bool-cases (c.id == gone)) [
  | inl dropped ↦
      let apart : (c.id == k) ≡ false = ground arith in
      rw dropped (any_of-without r k gone cs other (rw apart at e))
  | inr stays ↦ elim (Bool-cases (is_category r k c)) [
    | inl hit ↦ rw (stays, hit) refl
    | inr miss ↦ rw (stays, miss) (any_of-without r k gone cs other (rw miss at e))
  ]
]

without-IsListed :
    (gone : ℕ) (cs : List MenuCategory) (items : List MenuItem)
    → All (IsListed cs) items
    → All
        (IsListed (keep (λ c. not (c.id == gone)) cs))
        (keep (λ i. not (i.category_id == gone)) items)
without-IsListed gone cs [] h = tt
without-IsListed gone cs (i ∷ items) (listed, h) = elim (Bool-cases (i.category_id == gone)) [
  | inl dropped ↦ rw dropped (without-IsListed gone cs items h)
  | inr stays ↦
      let (one, filed) = listed in
      rw stays (
        (one, any_of-without i.restaurant_id i.category_id gone cs stays filed),
        without-IsListed gone cs items h,
      )
]

pub delete_category-IsMenu :
    (restaurant id : ℕ) (menu after : VendorMenu)
    → IsMenu menu
    → delete_category restaurant id menu ≡ ok after
    → IsMenu after
unfolding delete_category
delete_category-IsMenu restaurant id menu after h e =
    let (category, _, e1) = >>=-eq-ok (get_category restaurant id menu) _ e in
    let (_, _, e2) =
      >>=-eq-ok
        (raise_if (not (count_of (is_live_in category.id) menu.items == 0))
          (Error.conflict "This category still holds .. item(s)."))
        _ e1 in
    subst IsMenu (ok-injective e2) (without-IsListed category.id menu.categories menu.items h)

any_of-update_where :
    (p q : MenuCategory → Bool) (f : MenuCategory → MenuCategory) (cs : List MenuCategory)
    → ((c : MenuCategory) → q (f c) ≡ q c)
    → any_of q (update_where p f cs) ≡ any_of q cs
any_of-update_where p q f [] same = refl
any_of-update_where p q f (c ∷ cs) same = elim (Bool-cases (p c)) [
  | inl hit ↦ rw (hit, same c, any_of-update_where p q f cs same) refl
  | inr miss ↦ rw (miss, any_of-update_where p q f cs same) refl
]

any_of-ordered :
    (r k : ℕ) (ids : List (ℕ × ℕ)) (cs : List MenuCategory)
    → any_of (is_category r k) (order_categories ids cs) ≡ any_of (is_category r k) cs
any_of-ordered r k [] cs = refl
any_of-ordered r k ((id, order) ∷ rest) cs =
    any_of-ordered r k rest
      (update_where (λ c. c.id == id) (λ c. record c { sort_order = order }) cs)
    ∙ any_of-update_where (λ c. c.id == id) (is_category r k) (λ c. record c { sort_order = order })
        cs (λ c. refl)

ordered-IsListed :
    (cs : List MenuCategory) (ids : List (ℕ × ℕ)) (items : List MenuItem)
    → All (IsListed cs) items
    → All (IsListed cs) (order_items ids items)
ordered-IsListed cs [] items h = h
ordered-IsListed cs ((id, order) ∷ rest) items h = ordered-IsListed cs rest _ (
    All-update_where (IsListed cs) (λ i. i.id == id) (λ i. record i { sort_order = order }) items
      (λ i hit was. was) h)

-- What a reordering that was accepted did.
reorder-eq-ok :
    (restaurant : ℕ) (body : MenuReorderRequest) (menu : VendorMenu) {after : VendorMenu}
    → reorder restaurant body menu ≡ ok after
    → (category_ids : List (ℕ × ℕ)) × (item_ids : List (ℕ × ℕ)) × (any_missing
          (is_category restaurant)
          menu.categories
          category_ids
        ≡ false)
      × (any_missing (is_live_item restaurant) menu.items item_ids ≡ false)
      × (record {
        categories = order_categories category_ids menu.categories;
        items = order_items item_ids menu.items;
      }
          ≡ after)
unfolding reorder
reorder-eq-ok restaurant body menu e =
    let (_, _, e1) =
      >>=-eq-ok
        (raise_if (is_nothing body.categories && is_nothing body.items)
          (Error.validation "Nothing to reorder"))
        _ e in
    let (category_ids, _, e2) =
      >>=-eq-ok (parsed "category id is not a valid id" body.categories) _ e1 in
    let (item_ids, _, e3) = >>=-eq-ok (parsed "item id is not a valid id" body.items) _ e2 in
    let (_, c, e4) =
      >>=-eq-ok
        (raise_if (any_missing (is_category restaurant) menu.categories category_ids)
          (Error.not_found "Categories not found on this menu: .."))
        _ e3 in
    let (_, i, e5) =
      >>=-eq-ok
        (raise_if (any_missing (is_live_item restaurant) menu.items item_ids)
          (Error.not_found "Items not found on this menu: .."))
        _ e4 in
    (category_ids, item_ids, raise_if-eq-ok _ _ c, raise_if-eq-ok _ _ i, ok-injective e5)

pub reorder-IsMenu :
    (restaurant : ℕ) (body : MenuReorderRequest) (menu after : VendorMenu)
    → IsMenu menu
    → reorder restaurant body menu ≡ ok after
    → IsMenu after
reorder-IsMenu restaurant body menu after h e =
    let (category_ids, item_ids, _, _, same) = reorder-eq-ok restaurant body menu e in
    subst IsMenu same (
      All-map (order_items item_ids menu.items)
        (λ i (one, filed).
          (one, any_of-ordered i.restaurant_id i.category_id category_ids menu.categories ∙ filed))
        (ordered-IsListed menu.categories item_ids menu.items h))

pub update_category-IsMenu :
    (platform : Taxonomy) (restaurant id : ℕ) (body : MenuCategoryUpdateRequest)
    (menu after : VendorMenu)
    → IsMenu menu
    → update_category platform restaurant id body menu ≡ ok after
    → IsMenu after
unfolding update_category
update_category-IsMenu platform restaurant id body menu after h e =
    let (category, _, e1) = >>=-eq-ok (get_category restaurant id menu) _ e in
    let edited = section_edited body category in
    let (link, _, e2) =
      >>=-eq-ok
        (linked platform body.platform_category_id (not (str_eq edited.name category.name)) edited)
        _ e1 in
    let (_, _, e3) =
      >>=-eq-ok
        (raise_if
          (any_of (λ c. not (c.id == category.id) && is_named restaurant edited.name c)
            menu.categories)
          (Error.conflict "Another category already uses that name"))
        _ e2 in
    subst IsMenu (ok-injective e3) (
      All-map menu.items
        (λ i (one, filed). (
          one,
          any_of-update_where (λ c. c.id == category.id) (is_category i.restaurant_id i.category_id)
                (section_saved edited link) menu.categories (λ c. refl)
              ∙ filed,
        ))
        h)

rest_live :
    (gone : ℕ) (i : MenuItem) (items : List MenuItem)
    → count_of (is_live_in gone) (i ∷ items) ≡ 0
    → count_of (is_live_in gone) items ≡ 0
rest_live gone i items zero' = omega (arith, zero')

keep_live :
    (gone : ℕ) (items : List MenuItem)
    → count_of (is_live_in gone) items ≡ 0
    → keep (λ i. is_none i.deleted_at) (keep (λ i. not (i.category_id == gone)) items)
      ≡ keep (λ i. is_none i.deleted_at) items
keep_live gone [] zero' = refl
keep_live gone (i ∷ items) zero' = elim (Bool-cases (i.category_id == gone)) [
  | inr stays ↦ elim (Bool-cases (is_none i.deleted_at)) [
    | inl live ↦
        rw (stays, live) (ap (λ l. i ∷ l) (keep_live gone items (rest_live gone i items zero')))
    | inr dead ↦ rw (stays, dead) (keep_live gone items (rest_live gone i items zero'))
  ]
  | inl dropped ↦ elim (Bool-cases (is_none i.deleted_at)) [
    | inl live ↦ let none_live = rw (dropped, live) at zero' in absurd (omega (arith, none_live))
    | inr dead ↦
        let left = rw (dropped, dead) at zero' in
        rw (dropped, dead) (keep_live gone items (omega (arith, left)))
  ]
]

-- A section is deleted only when it holds no live item: the live items after the call are those
-- before it.
pub delete_category_spares :
    (restaurant id : ℕ) (menu after : VendorMenu)
    → delete_category restaurant id menu ≡ ok after
    → keep (λ i. is_none i.deleted_at) after.items ≡ keep (λ i. is_none i.deleted_at) menu.items
unfolding delete_category
delete_category_spares restaurant id menu after e =
    let (category, _, e1) = >>=-eq-ok (get_category restaurant id menu) _ e in
    let (_, empty, e2) =
      >>=-eq-ok
        (raise_if (not (count_of (is_live_in category.id) menu.items == 0))
          (Error.conflict "This category still holds .. item(s)."))
        _ e1 in
    subst
      (λ m. keep (λ i. is_none i.deleted_at) m.items ≡ keep (λ i. is_none i.deleted_at) menu.items)
      (ok-injective e2)
      (keep_live category.id menu.items (let none_live = raise_if-eq-ok _ _ empty in ground arith))
