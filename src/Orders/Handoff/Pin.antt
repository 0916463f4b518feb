-- ===== src/Orders/Handoff/Pin.antt =====
-- What the handoff PIN protects: who gets the food, and how often one may guess.
use native.Mathlib.Decide.{dec_lt}
use text.Mathlib.Text.{◌==◌ as str_eq}
use text.Mathlib.TextEquality.{eq_iff}
use cheering_shop_backend.Prelude.{
  ℕ, ◌+◌, ◌≤◌, ◌<◌, ◌≡◌, ◌≢◌, ◌↔◌, ◌⊎◌, Bool, true, false, none, some, String, List, [], ◌∷◌,
  length, min, All, arith, Option-cases, inl, inr,
}
use cheering_shop_backend.Result.{Result, ok, err, saved}
use cheering_shop_backend.Enums.{OrderStatus}
use cheering_shop_backend.Orders.{Order, Change}
use cheering_shop_backend.Orders.Handoff.{
  Crypto, mark_ready, handoff_order, handoff_max_attempts, verify_rider_pin,
}

abbrev pub is_ok : {S A : Type 0} → Result S A → Bool
is_ok (ok _) = true
is_ok _ = false

abbrev pub guess_after : Order → Result Change Change → Order
guess_after o (ok c) = c.order
guess_after o (err _) = o
guess_after o (saved c _) = c.order

module _ (crypto : Crypto) where
  open crypto use {hmac}

  -- The row is waiting for a PIN, and this is the digest that was issued.
  pub record IsWaiting (o : Order) (digest : String) : Type 0 where
    pub is_ready : o.status ≡ OrderStatus.ready
    pub issued : o.rider_pin_hash ≡ some digest
    pub real : str_eq digest "" ≡ false
    pub has_rider : o.rider_id ≢ none

  accepted_digest :
      (o : Order) (actor now : ℕ) (pin digest : String)
      → o.rider_pin_hash ≡ some digest
      → is_ok (handoff_order crypto o actor pin now) ≡ true
      → IsWaiting o digest × (o.handoff_attempts < handoff_max_attempts) × (hmac o.id pin ≡ digest)
  unfolding handoff_order verify_rider_pin
  accepted_digest o actor now pin digest e h = ground (arith, eq_iff (hmac o.id pin) digest)

  unissued_refused :
      (o : Order) (actor now : ℕ) (pin : String)
      → o.rider_pin_hash ≡ none
      → is_ok (handoff_order crypto o actor pin now) ≢ true
  unfolding handoff_order
  unissued_refused o actor now pin e = ground arith

  waiting_accepts :
      (o : Order) (actor now : ℕ) (pin digest : String)
      → IsWaiting o digest
      → o.handoff_attempts < handoff_max_attempts
      → hmac o.id pin ≡ digest
      → is_ok (handoff_order crypto o actor pin now) ≡ true
  unfolding handoff_order verify_rider_pin
  waiting_accepts o actor now pin digest w h e = ground (arith, eq_iff (hmac o.id pin) digest)

  -- `handoff_order` succeeds exactly when the order is READY with a rider, a digest was issued,
  -- fewer than HANDOFF_MAX_ATTEMPTS guesses were wrong, and the PIN has that digest.
  pub handoff_order_iff :
      (o : Order) (actor now : ℕ) (pin : String)
      → (is_ok (handoff_order crypto o actor pin now) ≡ true) ↔ (
          (digest : String) × IsWaiting o digest
          × (o.handoff_attempts < handoff_max_attempts)
          × (hmac o.id pin ≡ digest))
  handoff_order_iff o actor now pin = (
    λ h. elim (Option-cases o.rider_pin_hash) [
      | inl e ↦ absurd (unissued_refused o actor now pin e h)
      | inr (d, e) ↦ let (w, few, same) = accepted_digest o actor now pin d e h in (d, w, few, same)
    ],
    λ (d, w, few, same). waiting_accepts o actor now pin d w few same,
  )

  -- The rows after a series of guesses by one caller.
  unfoldable pub guess_all : Order → ℕ → ℕ → List String → Order
  guess_all o actor now [] = o
  guess_all o actor now (g ∷ gs) =
      guess_all (guess_after o (handoff_order crypto o actor g now)) actor now gs

  locked :
      (o : Order) (actor now : ℕ) (g digest : String)
      → IsWaiting o digest
      → handoff_max_attempts ≤ o.handoff_attempts
      → guess_after o (handoff_order crypto o actor g now) ≡ o
  unfolding handoff_order
  locked o actor now g digest w h = ground arith

  wrong_guess :
      (o : Order) (actor now : ℕ) (g digest : String)
      → IsWaiting o digest
      → hmac o.id g ≢ digest
      → o.handoff_attempts < handoff_max_attempts
      → guess_after o (handoff_order crypto o actor g now)
        ≡ record o { handoff_attempts = o.handoff_attempts + 1 }
  unfolding handoff_order verify_rider_pin
  wrong_guess o actor now g digest w ne h = ground (arith, eq_iff (hmac o.id g) digest)

  -- On a READY order with a rider and an issued PIN, wrong guesses are counted up to the cap and
  -- change nothing else, however many are made.
  guess_all-wrong :
      (gs : List String) (o : Order) (actor now : ℕ) (digest : String)
      → IsWaiting o digest
      → o.handoff_attempts ≤ handoff_max_attempts
      → All (λ g. hmac o.id g ≢ digest) gs
      → guess_all o actor now gs
        ≡ record o { handoff_attempts = min handoff_max_attempts (o.handoff_attempts + length gs) }
  unfolding guess_all
  guess_all-wrong [] o actor now digest w cap wrong = ground arith
  guess_all-wrong (g ∷ gs) o actor now digest w cap (ne, wrong) =
      elim (dec_lt o.handoff_attempts handoff_max_attempts) [
        | yes few ↦
            let o' = record o { handoff_attempts = o.handoff_attempts + 1 } in
            ground (
              arith,
              wrong_guess o actor now g digest w ne few,
              guess_all-wrong gs o' actor now digest (ground arith) (omega arith) wrong,
            )
        | no many ↦ ground (
          arith,
          locked o actor now g digest w (omega arith),
          guess_all-wrong gs o actor now digest w cap wrong,
        )
      ]

  -- On a READY order with a rider and an issued PIN, even the right PIN is refused after
  -- HANDOFF_MAX_ATTEMPTS wrong guesses or more, made one after another.
  pub guess_all_locks :
      (gs : List String) (o : Order) (actor now : ℕ) (digest pin : String)
      → IsWaiting o digest
      → o.handoff_attempts ≡ 0
      → All (λ g. hmac o.id g ≢ digest) gs
      → handoff_max_attempts ≤ length gs
      → is_ok (handoff_order crypto (guess_all o actor now gs) actor pin now) ≢ true
  guess_all_locks gs o actor now digest pin w zero_guesses wrong many h =
      let o' = guess_all o actor now gs in
      let same = guess_all-wrong gs o actor now digest w (omega arith) wrong in
      let (_, _, few, _) = (handoff_order_iff o' actor now pin).0 h in ground (arith, same)

  -- On a PREPARING or READY order with a rider, a PIN that `mark_ready` issued is accepted by
  -- `handoff_order`, if its digest is not empty: the order is PICKED_UP, and its digest is gone.
  pub handoff_order-mark_ready :
      (o : Order) (actor now : ℕ) (pin : String)
      → (o.status ≡ OrderStatus.preparing) ⊎ (o.status ≡ OrderStatus.ready)
      → o.rider_id ≢ none
      → str_eq (hmac o.id pin) "" ≡ false
      → let r = guess_after o (mark_ready crypto o actor pin now) in
        let p = guess_after r (handoff_order crypto r actor pin now) in
        (p.status ≡ OrderStatus.picked_up)
        × (p.picked_up_at ≡ some now)
        × (p.rider_pin_hash ≡ none)
        × (p.rider_id ≡ o.rider_id)
  unfolding mark_ready handoff_order verify_rider_pin
  handoff_order-mark_ready o actor now pin st rd real =
      ground (arith, eq_iff (hmac o.id pin) (hmac o.id pin))
