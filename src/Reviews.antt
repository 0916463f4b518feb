-- ===== src/Reviews.antt =====
-- `create_review` of app/services/customer/reviews.py, and app/models/review.py.
pub mod Rated
use cheering_shop_backend.Prelude.{
  ℕ, Bool, Option, none, some, String, List, [], ◌∷◌, ◌&&◌, not, ◌==◌, if◌then◌else◌, find?, keep,
  count_of, update_where, map, is_none, is_just,
}
use cheering_shop_backend.Result.{Result, ok, Error, ◌>>=◌, ◌>>◌, raise_if, or_raise}
use cheering_shop_backend.Enums.{OrderStatus, same_status}
use cheering_shop_backend.Orders.{Order}

pub record Review : Type 0 where
  pub id : ℕ
  pub order_id : ℕ
  pub customer_id : ℕ
  pub restaurant_id : ℕ
  pub rider_id : Option ℕ
  pub restaurant_rating : ℕ
  pub rider_rating : Option ℕ
  pub comment : Option String

-- ReviewCreateRequest
pub record ReviewCreateRequest : Type 0 where
  pub restaurant_rating : ℕ
  pub rider_rating : Option ℕ
  pub comment : Option String

-- The columns of a restaurant that a review writes.
pub record Rating : Type 0 where
  pub id : ℕ
  pub rating_avg : ℕ
  pub rating_count : ℕ

pub record Rows : Type 0 where
  pub orders : List Order
  pub reviews : List Review
  pub ratings : List Rating

abbrev pub is_order_of : (user order : ℕ) → Order → Bool
is_order_of user order o = o.id == order && o.customer_id == user

abbrev pub is_review_of : ℕ → Review → Bool
is_review_of order r = r.order_id == order

abbrev pub is_about : ℕ → Review → Bool
is_about restaurant r = r.restaurant_id == restaurant

abbrev pub rider_rating_of : Option ℕ → Option ℕ → Option ℕ
rider_rating_of none sent = none
rider_rating_of (some rider) sent = sent

abbrev pub new_review : (id user : ℕ) → Order → ReviewCreateRequest → Review
new_review id user o body = record {
  id = id;
  order_id = o.id;
  customer_id = user;
  restaurant_id = o.restaurant_id;
  rider_id = o.rider_id;
  restaurant_rating = body.restaurant_rating;
  rider_rating = rider_rating_of o.rider_id body.rider_rating;
  comment = body.comment;
}

-- The ratings that the aggregate query reads.
abbrev pub ratings_of : ℕ → List Review → List ℕ
ratings_of restaurant reviews = map (λ r. r.restaurant_rating) (keep (is_about restaurant) reviews)

-- `average` is `round(float(avg or 0), 2)` of the ratings, in hundredths.
abbrev pub rated : (average : List ℕ → ℕ) → ℕ → List Review → Rating → Rating
rated average restaurant reviews r = record r {
  rating_avg = average (ratings_of restaurant reviews);
  rating_count = count_of (is_about restaurant) reviews;
}

abbrev pub with_review : (average : List ℕ → ℕ) → Review → Rows → Rows
with_review average new s = record s {
  reviews = new ∷ s.reviews;
  ratings =
      update_where (λ r. r.id == new.restaurant_id)
        (rated average new.restaurant_id (new ∷ s.reviews)) s.ratings;
}

-- `order_id` is no UUID, or an id; `id` is the new review's.
unfoldable pub create_review :
    (average : List ℕ → ℕ)
    → (user id : ℕ) → (order_id : Option ℕ) → ReviewCreateRequest
    → Rows
    → Result Rows Rows
create_review average user id order_id body s = do
  order ← or_raise order_id (Error.validation "order_id is not a valid id")
  o ← or_raise (find? (is_order_of user order) s.orders) (Error.not_found "Order not found")
  raise_if (not (same_status o.status OrderStatus.delivered))
      (Error.conflict "You can review an order once it has been delivered")
  raise_if (not (is_none (find? (is_review_of o.id) s.reviews)))
      (Error.conflict "You have already reviewed this order")
  ok (with_review average (new_review id user o body) s)
