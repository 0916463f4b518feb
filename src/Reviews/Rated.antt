-- ===== src/Reviews/Rated.antt =====
-- What a review keeps of the aggregates, and that an order is reviewed once.
use mathlib.Core.Path.{subst}
use mathlib.Core.Option.{some-injective}
use cheering_shop_backend.Prelude.{
  ℕ, ◌≡◌, refl, sym, Bool, true, false, Option, none, some, List, [], ◌∷◌, not, ◌==◌, if◌then◌else◌,
  find?, count_of, update_where, All, is_none, arith, Bool-cases, inl, inr, ==_refl,
}
use cheering_shop_backend.Result.{
  ok, Error, raise_if, or_raise, >>=-eq-ok, or_raise-eq-ok, ok-injective, raise_if-eq-ok,
}
use cheering_shop_backend.Enums.{OrderStatus, same_status}
use cheering_shop_backend.Orders.{Order}
use cheering_shop_backend.Reviews.{
  Review, ReviewCreateRequest, Rating, Rows, is_order_of, is_review_of, is_about, new_review,
  ratings_of, rated, with_review, create_review,
}

negation_refuted : (b : Bool) → not b ≡ false → b ≡ true
negation_refuted true e = refl
negation_refuted false e = cc

absent : {A : Type 0} (o : Option A) → not (is_none o) ≡ false → o ≡ none
absent none e = refl
absent (some a) e = cc

module _ (average : List ℕ → ℕ) where
  -- The stored aggregates of a restaurant are those of its reviews.
  abbrev pub IsRated : List Review → Rating → Type 0
  IsRated reviews r =
      (r.rating_count ≡ count_of (is_about r.id) reviews)
      × (r.rating_avg ≡ average (ratings_of r.id reviews))

  renewed-IsRated :
      (new : Review) (reviews : List Review) (r : Rating)
      → r.id ≡ new.restaurant_id
      → IsRated (new ∷ reviews) (rated average new.restaurant_id (new ∷ reviews) r)
  renewed-IsRated new reviews r own =
      let l = new ∷ reviews in
      subst
        (λ k.
          (count_of (is_about new.restaurant_id) l ≡ count_of (is_about k) l)
          × (average (ratings_of new.restaurant_id l) ≡ average (ratings_of k l)))
        (sym own) (refl, refl)

  others-IsRated :
      (new : Review) (reviews : List Review) (r : Rating)
      → (r.id == new.restaurant_id) ≡ false
      → IsRated reviews r
      → IsRated (new ∷ reviews) r
  others-IsRated new reviews r miss (count, mean) =
      let other : is_about r.id new ≡ false = ground arith in rw other (omega (arith, count), mean)

  either-IsRated :
      (l : List Review) (b : Bool) (x y : Rating)
      → (b ≡ true → IsRated l x)
      → (b ≡ false → IsRated l y)
      → IsRated l (if b then x else y)
  either-IsRated l true x y yes' no' = yes' refl
  either-IsRated l false x y yes' no' = no' refl

  rated-IsRated :
      (new : Review) (reviews : List Review) (ratings : List Rating)
      → All (IsRated reviews) ratings
      → All (IsRated (new ∷ reviews)) (
          update_where
            (λ r. r.id == new.restaurant_id)
            (rated average new.restaurant_id (new ∷ reviews))
            ratings)
  rated-IsRated new reviews [] h = tt
  rated-IsRated new reviews (r ∷ ratings) (was, h) = (
    either-IsRated (new ∷ reviews) (r.id == new.restaurant_id)
        (rated average new.restaurant_id (new ∷ reviews) r) r
        (λ hit. renewed-IsRated new reviews r (ground arith))
        (λ miss. others-IsRated new reviews r miss was),
    rated-IsRated new reviews ratings h,
  )

  -- What a call that returned has found and written.
  create_review-eq-ok :
      (user id : ℕ) (order_id : Option ℕ) (body : ReviewCreateRequest) (s : Rows) {after : Rows}
      → create_review average user id order_id body s ≡ ok after
      → (order : ℕ) × (o : Order) × (order_id ≡ some order)
        × (find? (is_order_of user order) s.orders ≡ some o)
        × (same_status o.status OrderStatus.delivered ≡ true)
        × (find? (is_review_of o.id) s.reviews ≡ none)
        × (with_review average (new_review id user o body) s ≡ after)
  unfolding create_review
  create_review-eq-ok user id order_id body s e =
      let (order, sent, e1) =
        >>=-eq-ok (or_raise order_id (Error.validation "order_id is not a valid id")) _ e in
      let (o, found, e2) =
        >>=-eq-ok
          (or_raise (find? (is_order_of user order) s.orders) (Error.not_found "Order not found")) _
          e1 in
      let (_, done, e3) =
        >>=-eq-ok
          (raise_if (not (same_status o.status OrderStatus.delivered))
            (Error.conflict "You can review an order once it has been delivered"))
          _ e2 in
      let (_, first, e4) =
        >>=-eq-ok
          (raise_if (not (is_none (find? (is_review_of o.id) s.reviews)))
            (Error.conflict "You have already reviewed this order"))
          _ e3 in
      (
        order,
        o,
        or_raise-eq-ok _ _ sent,
        or_raise-eq-ok _ _ found,
        negation_refuted (same_status o.status OrderStatus.delivered) (raise_if-eq-ok _ _ done),
        absent (find? (is_review_of o.id) s.reviews) (raise_if-eq-ok _ _ first),
        ok-injective e4,
      )

  -- If every restaurant's stored rating is the average and the number of its reviews, a review that
  -- is accepted leaves it so.
  pub create_review-IsRated :
      (user id : ℕ) (order_id : Option ℕ) (body : ReviewCreateRequest) (s after : Rows)
      → All (IsRated s.reviews) s.ratings
      → create_review average user id order_id body s ≡ ok after
      → All (IsRated after.reviews) after.ratings
  create_review-IsRated user id order_id body s after h e =
      let (order, o, _, _, _, _, same) = create_review-eq-ok user id order_id body s e in
      subst (λ t. All (IsRated t.reviews) t.ratings) same
        (rated-IsRated (new_review id user o body) s.reviews s.ratings h)

  none_counted : (p : Review → Bool) (rs : List Review) → find? p rs ≡ none → count_of p rs ≡ 0
  none_counted p [] e = refl
  none_counted p (r ∷ rs) e = elim (Bool-cases (p r)) [
    | inl hit ↦ let some' = rw hit at e in cc
    | inr miss ↦ let rest = none_counted p rs (rw miss at e) in rw miss (omega (arith, rest))
  ]

  -- A review that is accepted is of an order of the caller that was delivered, and is its only one.
  pub create_review_only :
      (user id order : ℕ) (body : ReviewCreateRequest) (s after : Rows)
      → create_review average user id (some order) body s ≡ ok after
      → (o : Order) × (find? (is_order_of user order) s.orders ≡ some o)
        × (same_status o.status OrderStatus.delivered ≡ true)
        × (count_of (is_review_of o.id) after.reviews ≡ 1)
  create_review_only user id order body s after e =
      let (order', o, sent, found, done, first, same) =
        create_review-eq-ok user id (some order) body s e in
      let own : (o.id == o.id) ≡ true = ==_refl o.id in
      let before = none_counted (is_review_of o.id) s.reviews first in
      (
        o,
        subst (λ k. find? (is_order_of user k) s.orders ≡ some o)
            (sym (some-injective order order' sent)) found,
        done,
        subst (λ t. count_of (is_review_of o.id) t.reviews ≡ 1) same
            (rw own (omega (arith, before))),
      )
