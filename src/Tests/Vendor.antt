-- ===== src/Tests/Vendor.antt =====
-- Examples for the menu and the opening hours.
use cheering_shop_backend.Prelude.{
  ℕ, ◌≡◌, refl, true, false, Option, none, some, String, [], ◌∷◌, ◌++◌, is_none, keep,
}
use cheering_shop_backend.Result.{ok}
use cheering_shop_backend.Enums.{RestaurantStatus}
use cheering_shop_backend.BusinessHours.{Hours, is_open_at}
use cheering_shop_backend.BusinessHours.Sync.{
  toggled, pass_row, store, passes, sync_all, sync_all_follows,
}
use cheering_shop_backend.Menu.{ItemVariant, MenuItem, Database, VariantRequest}
use cheering_shop_backend.Menu.Variants.{delete_variant}
use cheering_shop_backend.Menu.Variants.Counts.{HasDefault}
use cheering_shop_backend.Menu.Sync.{sync_variants}
use cheering_shop_backend.Menu.Sync.Default.{sync_variants-HasDefault}
use cheering_shop_backend.Menu.Items.{MenuCategory, VendorMenu, on_item}
use cheering_shop_backend.Menu.Sections.{delete_category}
use cheering_shop_backend.Menu.Kept.{IsMenu}
use cheering_shop_backend.Menu.Filed.{delete_category_spares}
use cheering_shop_backend.Menu.Calls.{Call, perform-IsMenu}

abbrev db : Database
db = record { flush_variants = λ before after. true; flush_add_ons = λ before after. true }

abbrev half : ItemVariant
half = record {
  id = 1;
  name = "Half";
  price = 15000;
  is_default = true;
  is_available = true;
  sort_order = 0;
}

abbrev full : ItemVariant
full = record {
  id = 2;
  name = "Full";
  price = 27000;
  is_default = false;
  is_available = true;
  sort_order = 1;
}

abbrev biryani : MenuItem
biryani = record {
  id = 10;
  category_id = 20;
  restaurant_id = 30;
  name = "Biryani";
  description = none;
  base_price = 15000;
  image_url = none;
  is_available = true;
  is_veg = false;
  prep_time_mins = none;
  sort_order = 0;
  deleted_at = none;
  variants = half ∷ full ∷ [];
  add_ons = [];
}

abbrev rice : MenuCategory
rice = record {
  id = 20;
  restaurant_id = 30;
  name = "Rice";
  sort_order = 0;
  is_active = true;
  category_id = none;
}

abbrev soups : MenuCategory
soups = record rice { id = 21; name = "Soups" }

abbrev menu : VendorMenu
menu = record { categories = rice ∷ soups ∷ []; items = biryani ∷ [] }

abbrev shorter : VendorMenu
shorter = record menu {
  items = record biryani { variants = record full { is_default = true } ∷ [] } ∷ [];
}

perform-IsMenu_example : IsMenu shorter
unfolding delete_variant on_item
perform-IsMenu_example =
    perform-IsMenu db (λ n. n) 30 (Call.variant_delete 10 1) menu shorter tt ((refl, refl), tt) refl

delete_category_spares_example :
    keep (λ i. is_none i.deleted_at) (biryani ∷ []) ≡ keep (λ i. is_none i.deleted_at) menu.items
unfolding delete_category
delete_category_spares_example =
    delete_category_spares 30 21 menu (record menu { categories = rice ∷ [] }) refl

abbrev entry : Option (Option ℕ) → String → VariantRequest
entry id name = record {
  id = id;
  name = name;
  price = record { coefficient = 27000; places = 2 };
  is_default = false;
  is_available = true;
  sort_order = 0;
}

sync_variants-HasDefault_example : HasDefault (
    record full { is_default = true; sort_order = 0 }
    ∷ record {
      id = 5;
      name = "Family";
      price = 27000;
      is_default = false;
      is_available = true;
      sort_order = 1;
    }
    ∷ [])
unfolding sync_variants
sync_variants-HasDefault_example =
    sync_variants-HasDefault db (λ n. 5) (entry (some (some 2)) "Full" ∷ entry none "Family" ∷ [])
      (half ∷ full ∷ [])
      (record full { is_default = true; sort_order = 0 }
        ∷ record {
          id = 5;
          name = "Family";
          price = 27000;
          is_default = false;
          is_available = true;
          sort_order = 1;
        }
        ∷ [])
      ((refl, tt), (tt, tt)) refl

-- Two entries for one row, of which the first is the default: the item is left without one.
twice_leaves_no_default :
    sync_variants db
      (λ n. 5)
      (record (entry (some (some 2)) "Full") { is_default = true }
        ∷ entry (some (some 2)) "Family"
        ∷ [])
      (half ∷ full ∷ [])
    ≡ ok (record full { name = "Family"; sort_order = 1 } ∷ [])
unfolding sync_variants
twice_leaves_no_default = refl

-- Every day from 10:00 to 22:00.
abbrev daily : Hours
daily day = record { is_open = true; opens_at = some 36000; closes_at = some 79200 }

sync_all_follows_example :
    (sync_all 80000 (
      passes (40060 ∷ 40120 ∷ []) (
        []
        ++ (toggled RestaurantStatus.closed
              (pass_row 40000 (store 1 daily RestaurantStatus.closed none) (some daily))
            ∷ [])))).0
    ≡ store 1 daily RestaurantStatus.closed (some false) ∷ []
unfolding sync_all is_open_at
sync_all_follows_example =
    sync_all_follows 1 daily 40000 80000 (40060 ∷ 40120 ∷ []) RestaurantStatus.closed
      RestaurantStatus.closed none [] [] (refl, (refl, tt))
