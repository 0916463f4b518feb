-- ===== src/Cart/Edit/Calls.antt =====
-- The calls of app/services/customer/cart.py that change the cart. Each takes the cart of the
-- customer's row, if there is one, and returns what is left of it.
use Prim.Native.String.{compare, ◌++◌ as ◌+s◌}
use text.Mathlib.Text.{is_le}
use cheering_shop_backend.Prelude.{
  sorted, ℕ, Option, none, some, String, List, [], ◌∷◌, ◌&&◌, ◌==◌, if◌then◌else◌, find?, get_or,
  map,
}
use cheering_shop_backend.Result.{ok, Error, ◌>>=◌, ◌>>◌, raise_if, or_raise}
use cheering_shop_backend.Cart.{MenuItem, CartItem, Cart}
use cheering_shop_backend.Cart.Price.{on_menu}
use cheering_shop_backend.Cart.Edit.{
  CartItemRequest, CartLineUpdateRequest, CartResult, NewRow, requested_add_ons, requested_variant,
  is_add, is_line, without, new_line, cart_for, place_line, rewritten,
}

-- `str` of an id and of a number, and the first 32 hexadecimal digits of SHA-256.
pub record Digest : Type 0 where
  pub id_text : ℕ → String
  pub number_text : ℕ → String
  pub hash : String → String

-- `str(a) if n == 1 else f"{a}*{n}"`
abbrev pub choice_text : Digest → ℕ × ℕ → String
choice_text d (id, n) = if n == 1 then d.id_text id else d.id_text id +s "*" +s d.number_text n

-- `",".join`
abbrev pub join : List String → String
join [] = ""
join (a ∷ []) = a
join (a ∷ b ∷ rest) = a +s "," +s join (b ∷ rest)

-- `_fingerprint`
unfoldable pub fingerprint : Digest → List (ℕ × ℕ) → String
fingerprint d [] = ""
fingerprint d (c ∷ cs) =
    d.hash (join (sorted (λ a b. is_le (compare a b)) (map (choice_text d) (c ∷ cs))))

-- What is left to do once the request is known to be about `item`.
abbrev pub modify_cart :
    Digest
    → MenuItem
    → Option ℕ
    → List (ℕ × ℕ)
    → NewRow
    → Option Cart
    → CartItemRequest
    → CartResult (Option Cart)
modify_cart d item variant requested new cart body =
    let mark = fingerprint d requested in
    do
      cart ← cart_for cart new item
      place_line cart (find? (is_line item.id variant mark) cart.items)
          (new_line new item variant requested mark body) body

-- No cart and nothing to put into one leaves no cart.
abbrev pub put :
    Digest
    → MenuItem
    → Option ℕ
    → List (ℕ × ℕ)
    → NewRow
    → Option Cart
    → CartItemRequest
    → CartResult (Option Cart)
put d item variant requested new none body =
    if body.quantity == 0 then ok none else modify_cart d item variant requested new none body
put d item variant requested new (some c) body =
    modify_cart d item variant requested new (some c) body

unfoldable pub modify_item :
    Digest → List MenuItem → NewRow → Option Cart → CartItemRequest → CartResult (Option Cart)
unfolding requested_add_ons requested_variant fingerprint
modify_item d items new cart body = do
  menu_item_id ← or_raise body.menu_item_id (Error.validation "menu_item_id is not a valid id")
  item ← or_raise (find? (on_menu menu_item_id) items) (Error.not_found "Menu item not found")
  variant ← requested_variant item.variants body.variant_id
  requested ← requested_add_ons item body
  raise_if (is_add body.mode && body.quantity == 0)
      (Error.validation "quantity must be at least 1 when adding")
  put d item variant requested new cart body

-- `i for i in cart.items if i.id == wanted`, with the cart that it is in
abbrev pub in_cart : Cart → Option CartItem → Option (Cart × CartItem)
in_cart cart none = none
in_cart cart (some l) = some (cart, l)

abbrev pub line_in : Option Cart → ℕ → Option (Cart × CartItem)
line_in none wanted = none
line_in (some cart) wanted = in_cart cart (find? (λ l. l.id == wanted) cart.items)

abbrev pub set_line : Cart → CartItem → CartLineUpdateRequest → Cart
set_line cart line body = rewritten cart line body.quantity (get_or body.notes line.notes)

unfoldable pub update_line :
    Option Cart → Option ℕ → CartLineUpdateRequest → CartResult (Option Cart)
update_line cart line_id body = do
  wanted ← or_raise line_id (Error.validation "line_id is not a valid id")
  found ← or_raise (line_in cart wanted) (Error.not_found "That line is not in your cart")
  if body.quantity == 0
      then ok (without found.1 found.0)
      else ok (some (set_line found.0 found.1 body))

-- `clear` deletes the cart row, and its lines with it.
abbrev pub clear : Option Cart → Option Cart
clear cart = none
