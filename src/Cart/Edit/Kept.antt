-- ===== src/Cart/Edit/Kept.antt =====
-- What the cart's calls keep, and that a change to a line is a change to that line only.
use mathlib.Core.Path.{subst}
use cheering_shop_backend.Prelude.{
  ℕ, ◌+◌, ◌≤◌, ◌≡◌, refl, Bool, Option, none, some, String, List, [], ◌∷◌, ◌++◌, not, ◌==◌, ltb,
  if◌then◌else◌, find?, keep, update_first, length, All, All-append, All-keep, All-update_first,
  arith, inl, inr, Bool-cases, sym, ◌&&◌,
}
use cheering_shop_backend.Result.{ok, Error, raise_if, or_raise, >>=-eq-ok, or_raise-eq-ok}
use cheering_shop_backend.Cart.{MenuItem, CartItem, Cart}
use cheering_shop_backend.Cart.Price.{on_menu}
use cheering_shop_backend.Cart.Edit.{
  CartItemRequest, CartLineUpdateRequest, CartResult, NewRow, max_line_quantity, requested_add_ons,
  requested_variant, is_add, without, change_line, place_line, rewritten, with_line, with_notes,
}
use cheering_shop_backend.Cart.Edit.Calls.{
  Digest, put, modify_cart, modify_item, in_cart, line_in, update_line,
}

-- The table's ck_cart_items_quantity, with the cap of one order.
abbrev pub IsLine : CartItem → Type 0
IsLine l = (1 ≤ l.quantity) × (l.quantity ≤ max_line_quantity)

abbrev pub IsCart : Cart → Type 0
IsCart c = (1 ≤ length c.items) × All IsLine c.items

-- No row, or a row with lines that are all within their bounds.
abbrev pub IsKept : Option Cart → Type 0
IsKept none = Unit
IsKept (some c) = IsCart c

length-update_first :
    {A : Type 0} (p : A → Bool) (f : A → A) (xs : List A) → length (update_first p f xs) ≡ length xs
length-update_first p f [] = refl
length-update_first p f (x ∷ xs) = ground (arith, length-update_first p f xs)

length-snoc : {A : Type 0} (xs : List A) (x : A) → 1 ≤ length (xs ++ (x ∷ []))
length-snoc [] x = omega arith
length-snoc (y ∷ ys) x = omega arith

ok-injective : {a b : Option Cart} → ◌≡◌ {A = CartResult (Option Cart)} (ok a) (ok b) → a ≡ b
ok-injective e = cc

without_lines :
    (c : Cart) (ls : List CartItem)
    → All IsLine ls
    → IsKept (elim ls [ [] ↦ none | l ∷ ls ↦ some (record c { items = l ∷ ls }) ])
without_lines c [] h = tt
without_lines c (l ∷ ls) h = (omega arith, h)

without-IsKept : (line : CartItem) (c : Cart) → All IsLine c.items → IsKept (without line c)
without-IsKept line c h =
    without_lines c (keep (λ l. not (l.id == line.id)) c.items)
      (All-keep IsLine (λ l. not (l.id == line.id)) c.items h)

rewritten-IsCart :
    (c : Cart) (line : CartItem) (quantity : ℕ) (notes : Option String)
    → (1 ≤ quantity) × (quantity ≤ max_line_quantity)
    → IsCart c
    → IsCart (rewritten c line quantity notes)
rewritten-IsCart c line quantity notes q (many, lines) =
    let same =
      length-update_first (λ l. l.id == line.id)
        (λ l. record l { quantity = quantity; notes = notes }) c.items in
    (
      omega (arith, same, many),
      All-update_first IsLine (λ l. l.id == line.id)
          (λ l. record l { quantity = quantity; notes = notes }) c.items (λ x. q) lines,
    )

with_line-IsCart :
    (c : Cart) (new : CartItem) → All IsLine c.items → IsLine new → IsCart (with_line c new)
with_line-IsCart c new lines good =
    (length-snoc c.items new, All-append IsLine c.items (new ∷ []) lines (good, tt))

change_line-IsKept :
    (c : Cart) (line : CartItem) (body : CartItemRequest) {after : Option Cart}
    → IsCart c
    → 1 ≤ body.quantity
    → change_line c line body ≡ ok after
    → IsKept after
unfolding change_line
change_line-IsKept c line body {after} kept positive e =
    let quantity = if is_add body.mode then line.quantity + body.quantity else body.quantity in
    elim (Bool-cases (ltb max_line_quantity quantity)) [
      | inl over ↦ let no = rw over at e in cc
      | inr fits ↦
          let same : some (rewritten c line quantity (with_notes body.mode body.notes line.notes))
              ≡ after =
            ok-injective (rw fits at e) in
          subst IsKept same (rewritten-IsCart c line quantity _ (ground arith, ground arith) kept)
    ]

place_line-IsKept :
    (c : Cart) (line : Option CartItem) (new : CartItem) (body : CartItemRequest)
    {after : Option Cart}
    → IsCart c
    → new.quantity ≡ body.quantity
    → body.quantity ≤ max_line_quantity
    → place_line c line new body ≡ ok after
    → IsKept after
place_line-IsKept c none new body kept same capped e = elim (Bool-cases (body.quantity == 0)) [
  | inl nothing ↦ subst IsKept (ok-injective (rw nothing at e)) kept
  | inr some' ↦
      subst IsKept (ok-injective (rw some' at e))
        (with_line-IsCart c new kept.1 (ground arith, ground arith))
]
place_line-IsKept c (some line) new body kept same capped e =
    elim (Bool-cases (body.quantity == 0)) [
      | inl nothing ↦ subst IsKept (ok-injective (rw nothing at e)) (without-IsKept line c kept.1)
      | inr some' ↦ change_line-IsKept c line body kept (ground arith) (rw some' at e)
    ]

modify_cart-IsKept :
    (d : Digest) (item : MenuItem) (variant : Option ℕ) (requested : List (ℕ × ℕ)) (new : NewRow)
    (c : Cart) (body : CartItemRequest) {after : Option Cart}
    → IsCart c
    → body.quantity ≤ max_line_quantity
    → modify_cart d item variant requested new (some c) body ≡ ok after
    → IsKept after
modify_cart-IsKept d item variant requested new c body kept capped e =
    elim (Bool-cases (c.restaurant_id == item.restaurant_id)) [
      | inl here ↦ place_line-IsKept c _ _ body kept refl capped (rw here at e)
      | inr elsewhere ↦ let no = rw elsewhere at e in cc
    ]

put-IsKept :
    (d : Digest) (item : MenuItem) (variant : Option ℕ) (requested : List (ℕ × ℕ)) (new : NewRow)
    (cart : Option Cart) (body : CartItemRequest) {after : Option Cart}
    → IsKept cart
    → body.quantity ≤ max_line_quantity
    → put d item variant requested new cart body ≡ ok after
    → IsKept after
put-IsKept d item variant requested new (some c) body kept capped e =
    modify_cart-IsKept d item variant requested new c body kept capped e
put-IsKept d item variant requested new none body kept capped e =
    elim (Bool-cases (body.quantity == 0)) [
      | inl nothing ↦ subst IsKept (ok-injective (rw nothing at e)) tt
      | inr some' ↦
          subst IsKept (ok-injective (rw some' at e)) (omega arith, ((ground arith, capped), tt))
    ]

-- What a call of `modify_item` that returned has found, and what it then did.
modify_item-eq-ok :
    (d : Digest) (items : List MenuItem) (new : NewRow) (cart : Option Cart)
    (body : CartItemRequest) {after : Option Cart}
    → modify_item d items new cart body ≡ ok after
    → (id : ℕ) × (item : MenuItem) × (variant : Option ℕ) × (requested : List (ℕ × ℕ))
      × (body.menu_item_id ≡ some id)
      × (find? (on_menu id) items ≡ some item)
      × (put d item variant requested new cart body ≡ ok after)
unfolding modify_item
modify_item-eq-ok d items new cart body e =
    let (id, named, e1) =
      >>=-eq-ok (or_raise body.menu_item_id (Error.validation "menu_item_id is not a valid id")) _
        e in
    let (item, found, e2) =
      >>=-eq-ok (or_raise (find? (on_menu id) items) (Error.not_found "Menu item not found")) _
        e1 in
    let (variant, _, e3) = >>=-eq-ok (requested_variant item.variants body.variant_id) _ e2 in
    let (requested, _, e4) = >>=-eq-ok (requested_add_ons item body) _ e3 in
    let (_, _, e5) =
      >>=-eq-ok
        (raise_if (is_add body.mode && body.quantity == 0)
          (Error.validation "quantity must be at least 1 when adding"))
        _ e4 in
    (id, item, variant, requested, or_raise-eq-ok _ _ named, or_raise-eq-ok _ _ found, e5)

-- A call that adds, changes or removes a line, with the quantity that the schema admits, keeps
-- every line between 1 and 99 and leaves no cart without lines.
pub modify_item-IsKept :
    (d : Digest) (items : List MenuItem) (new : NewRow) (cart : Option Cart)
    (body : CartItemRequest) (after : Option Cart)
    → IsKept cart
    → body.quantity ≤ max_line_quantity
    → modify_item d items new cart body ≡ ok after
    → IsKept after
modify_item-IsKept d items new cart body after kept capped e =
    let (id, item, variant, requested, _, _, rest) = modify_item-eq-ok d items new cart body e in
    put-IsKept d item variant requested new cart body kept capped rest

in_cart-cart :
    (c : Cart) (o : Option CartItem) {found : Cart × CartItem}
    → in_cart c o ≡ some found
    → found.0 ≡ c
in_cart-cart c none e = cc
in_cart-cart c (some l) e = cc

-- The − and + of the cart screen, with the quantity that the schema admits, keep every line
-- between 1 and 99 and leave no cart without lines.
update_line-IsKept :
    (cart : Option Cart) (line_id : Option ℕ) (body : CartLineUpdateRequest) (after : Option Cart)
    → IsKept cart
    → body.quantity ≤ max_line_quantity
    → update_line cart line_id body ≡ ok after
    → IsKept after
unfolding update_line
update_line-IsKept none line_id body after kept capped e =
    let (wanted, _, e1) =
      >>=-eq-ok (or_raise line_id (Error.validation "line_id is not a valid id")) _ e in
    cc
update_line-IsKept (some c) line_id body after kept capped e =
    let (wanted, _, e1) =
      >>=-eq-ok (or_raise line_id (Error.validation "line_id is not a valid id")) _ e in
    let (found, there, e2) =
      >>=-eq-ok
        (or_raise (line_in (some c) wanted) (Error.not_found "That line is not in your cart")) _
        e1 in
    let same : found.0 ≡ c = in_cart-cart c _ (or_raise-eq-ok _ _ there) in
    let kept' = subst IsCart (sym same) kept in
    elim (Bool-cases (body.quantity == 0)) [
      | inl nothing ↦
          subst IsKept (ok-injective (rw nothing at e2)) (without-IsKept found.1 found.0 kept'.1)
      | inr some' ↦
          subst IsKept (ok-injective (rw some' at e2))
            (rewritten-IsCart found.0 found.1 body.quantity _ (ground arith, capped) kept')
    ]

-- An item of another restaurant is never put into a cart that is there.
modify_item_one_restaurant :
    (d : Digest) (items : List MenuItem) (new : NewRow) (c : Cart) (body : CartItemRequest)
    (after : Option Cart)
    → modify_item d items new (some c) body ≡ ok after
    → (id : ℕ) × (item : MenuItem) × (body.menu_item_id ≡ some id)
      × (find? (on_menu id) items ≡ some item)
      × (item.restaurant_id ≡ c.restaurant_id)
modify_item_one_restaurant d items new c body after e =
    let (id, item, variant, requested, named, found, rest) =
      modify_item-eq-ok d items new (some c) body e in
    (
      id,
      item,
      named,
      found,
      elim (Bool-cases (c.restaurant_id == item.restaurant_id)) [
        | inl here ↦ ground arith
        | inr elsewhere ↦ let no = rw elsewhere at rest in cc
      ],
    )
