-- ===== src/Cart/Price.antt =====
-- `_price_lines` of app/services/customer/cart.py: every line against the live menu.
use text.Mathlib.Text.{is_le}
use Prim.Native.String.{compare}
use cheering_shop_backend.Prelude.{
  sorted, ℕ, ◌*◌, Bool, true, Option, none, some, List, [], ◌∷◌, ◌&&◌, ◌||◌, not, ◌==◌, ltb, leb,
  find?, sum_of,
}
use cheering_shop_backend.Commission.{line_rate}
use cheering_shop_backend.Pricing.{QuoteLine, QuoteAddOn, line_total}
use cheering_shop_backend.Cart.{ItemVariant, ItemAddOn, MenuItem, CartItem, Cart}

-- The rows of the menu, and the rate of each section's browse category (`section_rates`).
pub record Menu : Type 0 where
  pub items : List MenuItem
  pub variants : List ItemVariant
  pub add_ons : List ItemAddOn
  pub category_rate : ℕ → Option ℕ

abbrev pub on_menu : ℕ → MenuItem → Bool
on_menu id m = m.id == id && not m.is_deleted && not m.is_hidden

-- `variants.get(line.variant_id) if line.variant_id else None`
abbrev pub variant_of : Menu → Option ℕ → Option ItemVariant
variant_of menu none = none
variant_of menu (some id) = find? (λ v. v.id == id) menu.variants

-- The add-ons of a line that still exist, with their quantities.
abbrev pub with_quantity : Option ItemAddOn → ℕ → List (ItemAddOn × ℕ) → List (ItemAddOn × ℕ)
with_quantity none n rest = rest
with_quantity (some a) n rest = (a, n) ∷ rest

abbrev pub chosen_of : Menu → List (ℕ × ℕ) → List (ItemAddOn × ℕ)
chosen_of menu [] = []
chosen_of menu ((id, n) ∷ rest) =
    with_quantity (find? (λ a. a.id == id) menu.add_ons) n (chosen_of menu rest)

-- `key=lambda pair: (pair[0].sort_order, pair[0].name)`
abbrev pub shown_before : ItemAddOn × ℕ → ItemAddOn × ℕ → Bool
shown_before (a, _) (b, _) =
    ltb a.sort_order b.sort_order || (a.sort_order == b.sort_order && is_le (compare a.name b.name))

abbrev pub price_of : MenuItem → Option ItemVariant → ℕ
price_of item none = item.base_price
price_of item (some v) = v.price

abbrev pub variant_available : Option ItemVariant → Bool
variant_available none = true
variant_available (some v) = v.is_available

abbrev pub all_available : List (ItemAddOn × ℕ) → Bool
all_available [] = true
all_available ((a, _) ∷ rest) = a.is_available && all_available rest

-- One line of the answer: what checkout prices, and whether the cart screen marks it available.
pub record Priced : Type 0 where
  pub line_id : ℕ
  pub line : QuoteLine
  pub is_available : Bool

abbrev pub quote_add_ons : List (ItemAddOn × ℕ) → List QuoteAddOn
quote_add_ons [] = []
quote_add_ons ((a, n) ∷ rest) =
    record { add_on_id = a.id; name = a.name; price = a.price; quantity = n } ∷ quote_add_ons rest

unfoldable pub price_line : Menu → CartItem → MenuItem → Priced
price_line menu line item =
    let variant = variant_of menu line.variant_id in
    let chosen = sorted shown_before (chosen_of menu line.add_ons) in
    record {
      line_id = line.id;
      line = record {
        menu_item_id = item.id;
        name = item.name;
        quantity = line.quantity;
        unit_price = price_of item variant;
        add_ons_total = sum_of (λ (a, n). a.price * n) chosen;
        add_ons = quote_add_ons chosen;
        notes = line.notes;
        commission_rate = line_rate item.commission_rate (menu.category_rate item.category_id);
      };
      is_available = item.is_available && variant_available variant && all_available chosen;
    }

-- A dish that was deleted or hidden since is skipped.
abbrev pub priced_or_skipped : Menu → CartItem → Option MenuItem → List Priced → List Priced
priced_or_skipped menu line none rest = rest
priced_or_skipped menu line (some item) rest = price_line menu line item ∷ rest

abbrev pub price_each : Menu → List CartItem → List Priced
price_each menu [] = []
price_each menu (line ∷ lines) =
    priced_or_skipped menu line (find? (on_menu line.menu_item_id) menu.items)
      (price_each menu lines)

-- `sorted(cart.items, key=lambda i: i.created_at)`
unfoldable pub price_lines : Menu → List CartItem → List Priced
unfolding price_line
price_lines menu items = price_each menu (sorted (λ i j. leb i.created_at j.created_at) items)

-- `get_cart`: the item total, how many items, and whether the minimum is met. An absent cart or
-- one without lines is the default CartOut.
pub record CartTotals : Type 0 where
  pub item_total : ℕ
  pub item_count : ℕ
  pub meets_minimum : Bool

abbrev pub empty_totals : CartTotals
empty_totals = record { item_total = 0; item_count = 0; meets_minimum = true }

abbrev pub totals_of : ℕ → List Priced → CartTotals
totals_of minimum lines =
    let item_total = sum_of (λ p. line_total p.line) lines in
    record {
      item_total = item_total;
      item_count = sum_of (λ p. p.line.quantity) lines;
      meets_minimum = leb minimum item_total;
    }

unfoldable pub get_cart : Menu → (minimum : ℕ) → Option Cart → CartTotals
unfolding price_lines
get_cart menu minimum none = empty_totals
get_cart menu minimum (some cart) = elim cart.items [
  | [] ↦ empty_totals
  | l ∷ ls ↦ totals_of minimum (price_lines menu (l ∷ ls))
]

abbrev pub quotes : List Priced → List QuoteLine
quotes [] = []
quotes (p ∷ ps) = p.line ∷ quotes ps

-- The pricing view of the cart's lines.
unfoldable pub quote_lines_for : Menu → Option Cart → List QuoteLine
unfolding price_lines
quote_lines_for menu none = []
quote_lines_for menu (some cart) = quotes (price_lines menu cart.items)
