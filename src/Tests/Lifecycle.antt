-- ===== src/Tests/Lifecycle.antt =====
-- Examples of the theorems on the life of an order.
use cheering_shop_backend.Orders.Lifecycle.Ways.{way, way_delivers}
use cheering_shop_backend.Reviews.{
  ReviewCreateRequest, Rows, new_review, with_review, create_review, is_order_of, is_review_of,
}
use cheering_shop_backend.Reviews.Rated.{IsRated, create_review-IsRated, create_review_only}
use cheering_shop_backend.Enums.{same_status}
use cheering_shop_backend.Prelude.{ℕ, count_of, ◌*◌}
use text.Mathlib.Text.{◌==◌ as str_eq}
use text.Mathlib.TextEquality.{eq_iff}
use cheering_shop_backend.Prelude.{
  ◌≡◌, ◌≢◌, ◌↔◌, ◌<◌, ◌≤◌, inr, refl, true, false, none, some, String, List, [], ◌∷◌, All, arith,
  find?,
}
use cheering_shop_backend.Result.{ok, rows_after}
use cheering_shop_backend.Enums.{OrderStatus, PaymentStatus, ActorType}
use cheering_shop_backend.Orders.{Order, Change}
use cheering_shop_backend.Orders.Vendor.{accept_order}
use cheering_shop_backend.Orders.Moves.{claim}
use cheering_shop_backend.Orders.Handoff.{handoff_order, handoff_max_attempts, mark_ready}
use cheering_shop_backend.Orders.Handoff.Pin.{
  is_ok, IsWaiting, guess_all, guess_after, handoff_order_iff, guess_all_locks,
  handoff_order-mark_ready,
}
use cheering_shop_backend.Orders.Lifecycle.{Action, settled, live, logged}
use cheering_shop_backend.Orders.Lifecycle.Keeps.{IsFresh-IsSound}
use cheering_shop_backend.Orders.Lifecycle.History.{IsTrail, logged-IsTrail}
use cheering_shop_backend.Orders.Lifecycle.Fixed.{live_finished, live_held}
use cheering_shop_backend.Store.{Tables, vendor_accept, by_id, auto_decline_due}
use cheering_shop_backend.Store.Sound.{AllSound}
use cheering_shop_backend.Store.Interleaving.{Step, Reach, Reach-AllSound}
use cheering_shop_backend.Store.Dispatch.{accept_offer, count_in_flight}
use cheering_shop_backend.Store.Dispatch.Offers.{accept_offer_once, accept_offer_capped}
use cheering_shop_backend.Store.Scope.{VendorCall, vendor_call, vendor_call_foreign}
use cheering_shop_backend.Store.Sweep.{IsDeclined, auto_decline_due_declines}
use cheering_shop_backend.Tests.{
  crypto, pending, preparing, waiting, delivered, tables, pending-IsFresh,
}

abbrev kitchen : Tables
kitchen = record tables { orders = pending ∷ [] }

abbrev after_accept : Tables
after_accept = rows_after kitchen (vendor_accept crypto 20 1 5 100 kitchen)

kitchen-AllSound : AllSound kitchen
kitchen-AllSound = (IsFresh-IsSound pending pending-IsFresh, tt)

Reach-AllSound_example : AllSound after_accept
Reach-AllSound_example =
    Reach-AllSound crypto {t = kitchen} {u = after_accept}
      (Reach.next Reach.here (Step.accept 20 1 5 100 refl)) kitchen-AllSound

waiting-IsWaiting : IsWaiting crypto waiting "1234"
waiting-IsWaiting = record { is_ready = refl; issued = refl; real = refl; has_rider = λ e. cc }

handoff_order_iff_example : (is_ok (handoff_order crypto waiting 5 "1234" 60) ≡ true) ↔ (
    (digest : String) × IsWaiting crypto waiting digest
    × (waiting.handoff_attempts < handoff_max_attempts)
    × ("1234" ≡ digest))
handoff_order_iff_example = handoff_order_iff crypto waiting 5 60 "1234"

abbrev wrong_guesses : List String
wrong_guesses = "0000" ∷ "1111" ∷ "2222" ∷ "3333" ∷ "4444" ∷ "5555" ∷ []

differs : (a b : String) → str_eq a b ≡ false → a ≢ b
differs a b h e = let same : str_eq a b ≡ true = ground (arith, eq_iff a b) in cc

wrong : (a : String) → str_eq a "1234" ≡ false → a ≢ "1234"
wrong a h = differs a "1234" h

All-wrong : All (λ g. g ≢ "1234") wrong_guesses
All-wrong = (
  wrong "0000" refl,
  (
    wrong "1111" refl,
    (wrong "2222" refl, (wrong "3333" refl, (wrong "4444" refl, (wrong "5555" refl, tt)))),
  ),
)

guess_all_locks_example :
    is_ok (handoff_order crypto (guess_all crypto waiting 5 60 wrong_guesses) 5 "1234" 60) ≢ true
guess_all_locks_example =
    guess_all_locks crypto wrong_guesses waiting 5 60 "1234" "1234" waiting-IsWaiting refl All-wrong
      (omega arith)

abbrev after_ready : Order
after_ready = guess_after waiting (mark_ready crypto waiting 5 "9876" 70)

abbrev after_handoff : Order
after_handoff = guess_after after_ready (handoff_order crypto after_ready 5 "9876" 70)

handoff_order-mark_ready_example :
    (after_handoff.status ≡ OrderStatus.picked_up)
    × (after_handoff.picked_up_at ≡ some 70)
    × (after_handoff.rider_pin_hash ≡ none)
    × (after_handoff.rider_id ≡ some 30)
handoff_order-mark_ready_example =
    handoff_order-mark_ready crypto waiting 5 70 "9876" (inr refl) (λ e. cc) refl

-- From the kitchen to the door, with a refused second acceptance on the way.
abbrev whole_life : List Action
whole_life =
    Action.accept 5 10
    ∷ Action.accept 5 11
    ∷ Action.assign 30
    ∷ Action.prepare 5 "1234" 20
    ∷ Action.hand_over 5 "1234" 30
    ∷ Action.deliver ActorType.rider 30 40
    ∷ Action.forget
    ∷ []

logged-IsTrail_example :
    IsTrail 1 OrderStatus.pending
      (logged crypto whole_life pending)
      (live crypto whole_life pending).status
logged-IsTrail_example = logged-IsTrail crypto whole_life pending

live_finished_example : (live crypto whole_life delivered).status ≡ OrderStatus.delivered
live_finished_example = live_finished crypto whole_life delivered refl

live_held_example : (live crypto whole_life delivered).rider_id ≡ some 30
live_held_example = live_held crypto whole_life delivered refl

abbrev taken : Tables
taken = record tables { orders = claim 30 50 preparing ∷ [] }

accepted : accept_offer 30 1 50 tables ≡ ok taken
unfolding accept_offer
accepted = refl

accept_offer_once_example : accept_offer 31 1 60 taken ≢ ok taken
accept_offer_once_example = accept_offer_once tables taken 30 31 1 50 60 accepted taken

accept_offer_capped_example : count_in_flight 30 taken ≤ 3
accept_offer_capped_example = accept_offer_capped tables taken 30 1 50 (refl, tt) accepted

vendor_call_foreign_example :
    find?
      (by_id 1)
      (rows_after kitchen (vendor_call crypto 21 1 (VendorCall.accept 6 10) kitchen)).orders
    ≡ some pending
vendor_call_foreign_example =
    vendor_call_foreign crypto 21 1 (VendorCall.accept 6 10) 1 kitchen pending (refl, tt) refl
      (λ e. omega arith)

abbrev paid_kitchen : Tables
paid_kitchen = record kitchen {
  orders = record pending { payment_status = PaymentStatus.paid } ∷ [];
}

auto_decline_due_declines_example :
    (p : Order) × (find? (by_id 1) (auto_decline_due (λ id. false) 1000 paid_kitchen).orders
      ≡ some p)
    × IsDeclined (record pending { payment_status = PaymentStatus.paid }) p
auto_decline_due_declines_example =
    auto_decline_due_declines (λ id. false) 1000 1 900 paid_kitchen
      (record pending { payment_status = PaymentStatus.paid }) refl refl refl (omega arith) refl

abbrev accepted_change : Change
accepted_change = settled pending (accept_order pending 5 10)

pending_accepted : accept_order pending 5 10 ≡ ok accepted_change
unfolding accept_order
pending_accepted = refl

way_delivers_example :
    (live crypto (way 5 30 90 "1234" waiting.status) waiting).status ≡ OrderStatus.delivered
way_delivers_example = way_delivers 5 30 90 "1234" crypto waiting refl

abbrev eaten : Rows
eaten = record {
  orders = delivered ∷ [];
  reviews = [];
  ratings = record { id = 20; rating_avg = 0; rating_count = 0 } ∷ [];
}

abbrev five_stars : ReviewCreateRequest
five_stars = record { restaurant_rating = 5; rider_rating = some 4; comment = none }

-- A mean in hundredths, of at most one rating.
abbrev mean : List ℕ → ℕ
mean [] = 0
mean (r ∷ rs) = r * 100

abbrev praised : Rows
praised = with_review mean (new_review 7 10 delivered five_stars) eaten

create_review-IsRated_example : All (IsRated mean praised.reviews) praised.ratings
unfolding create_review
create_review-IsRated_example =
    create_review-IsRated mean 10 7 (some 1) five_stars eaten praised ((refl, refl), tt) refl

create_review_only_example :
    (o : Order) × (find? (is_order_of 10 1) eaten.orders ≡ some o)
    × (same_status o.status OrderStatus.delivered ≡ true)
    × (count_of (is_review_of o.id) praised.reviews ≡ 1)
unfolding create_review
create_review_only_example = create_review_only mean 10 7 1 five_stars eaten praised refl
