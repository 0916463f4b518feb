-- ===== src/Cart/Edit.antt =====
-- The steps of `modify_item` of app/services/customer/cart.py, and `_remove_line`.
pub mod Kept
pub mod Calls
use cheering_shop_backend.Prelude.{
  sorted, ℕ, ◌+◌, Bool, true, false, Option, none, some, String, List, [], ◌∷◌, ◌++◌, ◌&&◌, not,
  ◌==◌, ltb, leb, if◌then◌else◌, find?, keep, any_of, update_first, is_none, or_else,
}
use text.Mathlib.Text.{◌==◌ as str_eq}
use cheering_shop_backend.Result.{Result, ok, err, Error, ◌>>=◌, ◌>>◌, raise_if, or_raise}
use cheering_shop_backend.Cart.{ItemVariant, ItemAddOn, MenuItem, CartItem, Cart, same_id}
use cheering_shop_backend.Cart.Price.{Menu, on_menu}

abbrev pub max_line_quantity : ℕ
max_line_quantity = 99

pub data Mode : Type 0 where
  set add : Mode

-- CartItemRequest. `variant_id` is absent, no UUID, or an id.
pub record CartItemRequest : Type 0 where
  pub menu_item_id : Option ℕ
  pub variant_id : Option (Option ℕ)
  pub add_on_ids : List (Option ℕ)
  pub add_ons : List (Option ℕ × ℕ)
  pub quantity : ℕ
  pub mode : Mode
  pub notes : Option String

-- CartLineUpdateRequest; `notes` is `none` where the field was not sent.
pub record CartLineUpdateRequest : Type 0 where
  pub quantity : ℕ
  pub notes : Option (Option String)

abbrev pub is_add : Mode → Bool
is_add Mode.add = true
is_add Mode.set = false

abbrev pub CartResult : Type 0 → Type 0
CartResult A = Result (Option Cart) A

-- `counts[id] += n` on a Counter, which keeps the order of first use.
abbrev pub count_add : ℕ → ℕ → List (ℕ × ℕ) → List (ℕ × ℕ)
count_add id n [] = (id, n) ∷ []
count_add id n ((j, m) ∷ rest) =
    let more = count_add id n rest in if id == j then (j, m + n) ∷ rest else (j, m) ∷ more

-- `what` is the field that the message names.
abbrev pub count_all :
    (what : String) → List (Option ℕ × ℕ) → List (ℕ × ℕ) → CartResult (List (ℕ × ℕ))
count_all what [] counts = ok counts
count_all what ((id, n) ∷ rest) counts = do
  a ← or_raise id (Error.validation what)
  count_all what rest (count_add a n counts)

abbrev pub once : List (Option ℕ) → List (Option ℕ × ℕ)
once [] = []
once (id ∷ ids) = (id, 1) ∷ once ids

abbrev pub is_unknown : List ItemAddOn → ℕ × ℕ → Bool
is_unknown add_ons (id, n) = is_none (find? (λ a. a.id == id) add_ons)

abbrev pub too_many : List ItemAddOn → ℕ × ℕ → Bool
too_many add_ons (id, n) = any_of (λ a. a.id == id && ltb a.max_quantity n) add_ons

-- `_requested_add_ons`
unfoldable pub requested_add_ons : MenuItem → CartItemRequest → CartResult (List (ℕ × ℕ))
requested_add_ons item body = do
  listed ← count_all "add_on_ids is not a valid id" (once body.add_on_ids) []
  counts ← count_all "add_on_id is not a valid id" body.add_ons listed
  raise_if (any_of (is_unknown item.add_ons) counts)
      (Error.validation "Those add-ons do not belong to this item")
  raise_if (any_of (too_many item.add_ons) counts) (Error.validation "Too many of an add-on")
  ok counts

-- The variant that the request names (decision D4).
abbrev pub find_variant : List ItemVariant → Option ℕ → CartResult (Option ℕ)
find_variant variants none = err (Error.validation "variant_id is not a valid id")
find_variant variants (some id) =
    if any_of (λ v. v.id == id) variants
    then ok (some id)
    else err (Error.validation "That variant does not belong to this item")

unfoldable pub requested_variant : List ItemVariant → Option (Option ℕ) → CartResult (Option ℕ)
requested_variant [] none = ok none
requested_variant [] (some id) = err (Error.validation ".. has no variants")
requested_variant (v ∷ vs) none = err (Error.validation ".. requires a variant")
requested_variant (v ∷ vs) (some id) = find_variant (v ∷ vs) id

-- The line with this configuration.
abbrev pub is_line : ℕ → Option ℕ → String → CartItem → Bool
is_line item variant fingerprint l =
    l.menu_item_id == item
    && same_id l.variant_id variant
    && str_eq l.add_ons_fingerprint fingerprint

-- `_remove_line`: an empty cart is deleted.
abbrev pub without : CartItem → Cart → Option Cart
without line cart =
    let left = keep (λ l. not (l.id == line.id)) cart.items in
    elim left [ [] ↦ none | l ∷ ls ↦ some (record cart { items = l ∷ ls }) ]

abbrev pub with_notes : Mode → Option String → Option String → Option String
with_notes Mode.set sent old = sent
with_notes Mode.add sent old = or_else sent old

abbrev pub rewritten : Cart → CartItem → ℕ → Option String → Cart
rewritten cart line quantity notes = record cart {
  items =
      update_first (λ l. l.id == line.id) (λ l. record l { quantity = quantity; notes = notes })
        cart.items;
}

-- The branch of `modify_item` for a line that is there.
unfoldable pub change_line : Cart → CartItem → CartItemRequest → CartResult (Option Cart)
change_line cart line body =
    let quantity = if is_add body.mode then line.quantity + body.quantity else body.quantity in
    do
      raise_if (ltb max_line_quantity quantity)
          (Error.validation "At most 99 of one item per order")
      ok (some (rewritten cart line quantity (with_notes body.mode body.notes line.notes)))

-- What the database gives a new row.
pub record NewRow : Type 0 where
  pub cart_id : ℕ
  pub line_id : ℕ
  pub now : ℕ

abbrev pub new_line :
    NewRow → MenuItem → Option ℕ → List (ℕ × ℕ) → String → CartItemRequest → CartItem
new_line new item variant requested fingerprint body = record {
  id = new.line_id;
  menu_item_id = item.id;
  variant_id = variant;
  add_ons = requested;
  add_ons_fingerprint = fingerprint;
  quantity = body.quantity;
  notes = body.notes;
  created_at = new.now;
}

-- The cart that the line goes to: the customer's, or a new one of the item's restaurant.
abbrev pub cart_for : Option Cart → NewRow → MenuItem → CartResult Cart
cart_for none new item =
    ok (record { id = new.cart_id; restaurant_id = item.restaurant_id; items = [] })
cart_for (some cart) new item =
    if cart.restaurant_id == item.restaurant_id
    then ok cart
    else err (Error.conflict "Your cart already has items from another restaurant")

abbrev pub with_line : Cart → CartItem → Cart
with_line cart new = record cart { items = cart.items ++ (new ∷ []) }

abbrev pub place_line :
    Cart → Option CartItem → CartItem → CartItemRequest → CartResult (Option Cart)
place_line cart (some line) new body =
    if body.quantity == 0 then ok (without line cart) else change_line cart line body
place_line cart none new body =
    if body.quantity == 0 then ok (some cart) else ok (some (with_line cart new))
