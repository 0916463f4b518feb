-- ===== src/Menu/Variants.antt =====
-- The calls of app/services/menu_service.py that edit one variant or one add-on of a loaded item.
pub mod Counts
pub mod Default
use Prim.Native.Nat.{Ordering}
use Prim.Native.String.{compare}
use cheering_shop_backend.Prelude.{
  ℕ, ◌+◌, Bool, true, false, Option, none, some, String, List, [], ◌∷◌, ◌++◌, ◌&&◌, ◌||◌, not, ◌==◌,
  ltb, leb, if◌then◌else◌, find?, update_first, length, is_none, get_or,
}
use cheering_shop_backend.Prelude.Text.{strip}
use cheering_shop_backend.Result.{Result, ok, err, Error, ◌>>=◌, ◌>>◌, raise_if, or_raise}
use cheering_shop_backend.Money.{Decimal, to_minor}
use cheering_shop_backend.Menu.{
  ItemVariant, ItemAddOn, MenuItem, Database, MenuResult, max_options_per_item, by_id, chosen,
  clear_all, next_sort_order, remove_first, patch,
}

pub record VariantCreateRequest : Type 0 where
  pub name : String
  pub price : Decimal
  pub is_default : Bool
  pub is_available : Bool
  pub sort_order : Option ℕ

pub record VariantUpdateRequest : Type 0 where
  pub name : Option String
  pub price : Option Decimal
  pub is_default : Option Bool
  pub is_available : Option Bool
  pub sort_order : Option ℕ

pub record AddOnCreateRequest : Type 0 where
  pub name : String
  pub price : Decimal
  pub is_available : Bool
  pub sort_order : Option ℕ
  pub max_quantity : ℕ

pub record AddOnUpdateRequest : Type 0 where
  pub name : Option String
  pub price : Option Decimal
  pub is_available : Option Bool
  pub sort_order : Option ℕ
  pub max_quantity : Option ℕ

abbrev pub is_none_left : {A : Type 0} → List A → Bool
is_none_left [] = true
is_none_left (_ ∷ _) = false

-- `id` is the new row's.
abbrev pub new_variant : ℕ → VariantCreateRequest → Bool → List ItemVariant → ItemVariant
new_variant id body make_default variants = record {
  id = id;
  name = strip body.name;
  price = to_minor body.price;
  is_default = make_default;
  is_available = body.is_available;
  sort_order = get_or body.sort_order (next_sort_order (λ v. v.sort_order) variants);
}

abbrev pub with_variants : MenuItem → List ItemVariant → MenuItem
with_variants item variants = record item { variants = variants }

abbrev pub with_add_ons : MenuItem → List ItemAddOn → MenuItem
with_add_ons item add_ons = record item { add_ons = add_ons }

-- `await db.flush()` under `except IntegrityError`
abbrev pub flushed : Bool → Error → MenuItem → MenuResult
flushed accepted clash item = if accepted then ok item else err clash

abbrev pub with_new : ℕ → VariantCreateRequest → List ItemVariant → List ItemVariant
with_new id body variants =
    let make_default = body.is_default || is_none_left variants in
    let others = if make_default then clear_all variants else variants in
    others ++ (new_variant id body make_default others ∷ [])

unfoldable pub add_variant : Database → ℕ → VariantCreateRequest → MenuItem → MenuResult
unfolding strip to_minor next_sort_order
add_variant db id body item = do
  raise_if (leb max_options_per_item (length item.variants))
      (Error.conflict "An item can hold at most 50 variants")
  flushed (db.flush_variants item.variants (with_new id body item.variants))
      (Error.conflict "This item already has a variant named ..")
      (with_variants item (with_new id body item.variants))

-- The fields that the request carries, but for the default.
abbrev pub edited : VariantUpdateRequest → ItemVariant → ItemVariant
edited body v = record v {
  name = elim body.name [ none ↦ v.name | some name ↦ strip name ];
  price = elim body.price [ none ↦ v.price | some price ↦ to_minor price ];
  is_available = patch body.is_available v.is_available;
  sort_order = patch body.sort_order v.sort_order;
}

abbrev pub sent : Option Bool → Bool → Bool
sent none b = false
sent (some true) b = b
sent (some false) b = not b

-- `true` on a variant that is not the default demotes the others.
abbrev pub promoted : VariantUpdateRequest → ItemVariant → List ItemVariant → List ItemVariant
promoted body variant variants =
    if sent body.is_default true && not variant.is_default
    then update_first (by_id variant.id) chosen (clear_all variants)
    else variants

abbrev pub updated : VariantUpdateRequest → ItemVariant → List ItemVariant → List ItemVariant
updated body variant variants =
    promoted body variant (update_first (by_id variant.id) (edited body) variants)

unfoldable pub update_variant : Database → ℕ → VariantUpdateRequest → MenuItem → MenuResult
unfolding strip to_minor
update_variant db id body item = do
  variant ←
      or_raise (find? (by_id id) item.variants) (Error.not_found "Variant not found on this item")
  raise_if (sent body.is_default false && variant.is_default)
      (Error.validation "A variant cannot un-default itself")
  flushed (db.flush_variants item.variants (updated body variant item.variants))
      (Error.conflict "This item already has a variant with that name")
      (with_variants item (updated body variant item.variants))

-- Python's `<` on texts, by code points.
abbrev pub str_lt : String → String → Bool
str_lt a b = elim (compare a b) [ Ordering.lt ↦ true | _ ↦ false ]

-- `(v.sort_order, v.name) < (w.sort_order, w.name)`
abbrev pub is_before : ItemVariant → ItemVariant → Bool
is_before v w =
    ltb v.sort_order w.sort_order || (v.sort_order == w.sort_order && str_lt v.name w.name)

-- `sorted(...)[0]`: the first among equals.
abbrev pub first_shown : ItemVariant → List ItemVariant → ItemVariant
first_shown v [] = v
first_shown v (w ∷ ws) = first_shown (if is_before w v then w else v) ws

abbrev pub with_promoted : Bool → List ItemVariant → List ItemVariant
with_promoted was_default [] = []
with_promoted was_default (v ∷ vs) =
    if was_default then update_first (by_id (first_shown v vs).id) chosen (v ∷ vs) else v ∷ vs

unfoldable pub delete_variant : ℕ → MenuItem → MenuResult
delete_variant id item = do
  variant ←
      or_raise (find? (by_id id) item.variants) (Error.not_found "Variant not found on this item")
  ok (
      with_variants item
        (with_promoted variant.is_default (remove_first (by_id variant.id) item.variants)))

abbrev pub add_on_by_id : ℕ → ItemAddOn → Bool
add_on_by_id id a = a.id == id

abbrev pub new_add_on : ℕ → AddOnCreateRequest → List ItemAddOn → ItemAddOn
new_add_on id body add_ons = record {
  id = id;
  name = strip body.name;
  price = to_minor body.price;
  is_available = body.is_available;
  sort_order = get_or body.sort_order (next_sort_order (λ a. a.sort_order) add_ons);
  max_quantity = body.max_quantity;
}

unfoldable pub add_add_on : Database → ℕ → AddOnCreateRequest → MenuItem → MenuResult
unfolding strip to_minor next_sort_order
add_add_on db id body item = do
  raise_if (leb max_options_per_item (length item.add_ons))
      (Error.conflict "An item can hold at most 50 add-ons")
  flushed (db.flush_add_ons item.add_ons (item.add_ons ++ (new_add_on id body item.add_ons ∷ [])))
      (Error.conflict "This item already has an add-on named ..")
      (with_add_ons item (item.add_ons ++ (new_add_on id body item.add_ons ∷ [])))

abbrev pub add_on_edited : AddOnUpdateRequest → ItemAddOn → ItemAddOn
add_on_edited body a = record a {
  name = elim body.name [ none ↦ a.name | some name ↦ strip name ];
  price = elim body.price [ none ↦ a.price | some price ↦ to_minor price ];
  is_available = patch body.is_available a.is_available;
  sort_order = patch body.sort_order a.sort_order;
  max_quantity = patch body.max_quantity a.max_quantity;
}

unfoldable pub update_add_on : Database → ℕ → AddOnUpdateRequest → MenuItem → MenuResult
unfolding strip to_minor
update_add_on db id body item = do
  add_on ←
      or_raise (find? (add_on_by_id id) item.add_ons)
        (Error.not_found "Add-on not found on this item")
  flushed
      (db.flush_add_ons item.add_ons
        (update_first (add_on_by_id add_on.id) (add_on_edited body) item.add_ons))
      (Error.conflict "This item already has an add-on with that name")
      (with_add_ons item (update_first (add_on_by_id add_on.id) (add_on_edited body) item.add_ons))

unfoldable pub delete_add_on : ℕ → MenuItem → MenuResult
delete_add_on id item = do
  add_on ←
      or_raise (find? (add_on_by_id id) item.add_ons)
        (Error.not_found "Add-on not found on this item")
  ok (with_add_ons item (remove_first (add_on_by_id add_on.id) item.add_ons))
