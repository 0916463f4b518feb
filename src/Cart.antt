-- ===== src/Cart.antt =====
-- app/services/customer/cart.py, on one customer's cart (`carts.user_id` is unique): its lines, the
-- live menu that prices them, and the calls that change it. An id in a request is `none` where it
-- is no UUID.
pub mod Price
pub mod Edit
use cheering_shop_backend.Prelude.{
  ℕ, ◌+◌, ◌*◌, Bool, true, false, Option, none, some, String, List, [], ◌∷◌, ◌==◌, if◌then◌else◌,
  is_just,
}

pub record ItemVariant : Type 0 where
  pub id : ℕ
  pub name : String
  pub price : ℕ
  pub is_available : Bool

pub record ItemAddOn : Type 0 where
  pub id : ℕ
  pub name : String
  pub price : ℕ
  pub is_available : Bool
  pub max_quantity : ℕ
  pub sort_order : ℕ

pub record MenuItem : Type 0 where
  pub id : ℕ
  pub restaurant_id : ℕ
  pub category_id : ℕ
  pub name : String
  pub base_price : ℕ
  pub is_available : Bool
  pub is_hidden : Bool
  pub is_deleted : Bool
  pub commission_rate : Option ℕ
  pub variants : List ItemVariant
  pub add_ons : List ItemAddOn

pub record CartItem : Type 0 where
  pub id : ℕ
  pub menu_item_id : ℕ
  pub variant_id : Option ℕ
  -- add-on ids with their quantities per unit
  pub add_ons : List (ℕ × ℕ)
  pub add_ons_fingerprint : String
  pub quantity : ℕ
  pub notes : Option String
  pub created_at : ℕ

pub record Cart : Type 0 where
  pub id : ℕ
  pub restaurant_id : ℕ
  pub items : List CartItem

-- `a == b` of two nullable ids
abbrev pub same_id : Option ℕ → Option ℕ → Bool
same_id none none = true
same_id none (some b) = false
same_id (some a) b = is_just b a
