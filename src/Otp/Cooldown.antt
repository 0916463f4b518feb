-- ===== src/Otp/Cooldown.antt =====
-- How often a code is sent.
use mathlib.Core.Path.{subst}
use cheering_shop_backend.Prelude.{
  ℕ, ◌+◌, ◌≤◌, ◌<◌, ◌≡◌, refl, sym, ap, ◌∙◌, false, Option, some, String, List, [], ◌∷◌, not, leb,
  is_none, arith, Bool-cases, inl, inr,
}
use cheering_shop_backend.Result.{ok-injective, ok, err, Error}
use cheering_shop_backend.Redis.{Redis, IsRedis}
use cheering_shop_backend.Otp.{
  OtpPurpose, Outside, Issuing, resend_cooldown, normalise_identifier, send_otp, cooldown_key,
}
use cheering_shop_backend.Redis.{Entry, alive}
use cheering_shop_backend.Otp.Limit.{Event, step, steps}

abbrev pub at : Event → ℕ
at (Event.guess now identifier code purpose) = now
at (Event.send now identifier generated purpose) = now
at (Event.prune now) = now

-- No event is before the one it follows, and all are before `end`.
abbrev pub Within : (start end : ℕ) → List Event → Type 0
Within start end [] = Unit
Within start end (e ∷ es) = (start ≤ at e) × (at e < end) × Within (at e) end es

-- The instant of the last event.
abbrev pub last : ℕ → List Event → ℕ
last now [] = now
last now (e ∷ es) = last (at e) es

module _ (outside : Outside) {Cache : Type 0} (redis : Redis Cache) (laws : IsRedis redis) where
  open redis use {look}

  abbrev cooling : ℕ → Option Entry
  cooling end = some (record { value = 1; expires_at = some end })

  look_cooling :
      (key : String) (now later end : ℕ) (cache : Cache)
      → now ≤ later
      → later < end
      → look now key cache ≡ cooling end
      → look later key cache ≡ cooling end
  look_cooling key now later end cache soon live here =
      let aged = laws.look_later now later key cache soon ∙ ap (alive later) here in
      let open' : leb end later ≡ false = ground arith in rw open' at aged

  refused :
      (now : ℕ) (identifier generated : String) (purpose : OtpPurpose) (s : Issuing outside redis)
      (end : ℕ)
      → look now
          (cooldown_key outside redis purpose (normalise_identifier outside identifier))
          s.cache
        ≡ cooling end
      → send_otp outside redis now identifier generated purpose s
        ≡ err (Error.rate_limited "Please wait .. seconds before requesting another code")
  unfolding send_otp
  refused now identifier generated purpose s end here = rw here refl

  module _ (key : String) (end : ℕ) where
    step_cools :
        (e : Event) (now : ℕ) (s : Issuing outside redis)
        → now ≤ at e
        → at e < end
        → look now key s.cache ≡ cooling end
        → look (at e) key (step outside redis s e).cache ≡ cooling end
    unfolding send_otp
    step_cools (Event.guess later identifier code purpose) now s soon live here =
        look_cooling key now later end s.cache soon live here
    step_cools (Event.prune later) now s soon live here =
        look_cooling key now later end s.cache soon live here
    step_cools (Event.send later identifier generated purpose) now s soon live here =
        let still = look_cooling key now later end s.cache soon live here in
        let key' = cooldown_key outside redis purpose (normalise_identifier outside identifier) in
        elim (Bool-cases (not (is_none (look later key' s.cache)))) [
          | inl busy ↦ rw busy still
          | inr free ↦ rw free (
              laws.setex_other later key' key resend_cooldown s.cache
                (λ same. let clash = rw (sym same, still) at free in cc)
              ∙ still)
        ]

    steps_cool :
        (es : List Event) (now : ℕ) (s : Issuing outside redis)
        → Within now end es
        → look now key s.cache ≡ cooling end
        → look (last now es) key (steps outside redis s es).cache ≡ cooling end
    steps_cool [] now s within here = here
    steps_cool (e ∷ es) now s (soon, live, within) here =
        steps_cool es (at e) (step outside redis s e) within (step_cools e now s soon live here)

  sent_cools :
      (now : ℕ) (identifier generated : String) (purpose : OtpPurpose)
      (s after : Issuing outside redis)
      → send_otp outside redis now identifier generated purpose s ≡ ok after
      → look now
          (cooldown_key outside redis purpose (normalise_identifier outside identifier))
          after.cache
        ≡ cooling (now + resend_cooldown)
  unfolding send_otp
  sent_cools now identifier generated purpose s after sent =
      let to = normalise_identifier outside identifier in
      let key = cooldown_key outside redis purpose to in
      elim (Bool-cases (not (is_none (look now key s.cache)))) [
        | inl busy ↦ let no_send = rw busy at sent in cc
        | inr free ↦
            subst (λ t. look now key t.cache ≡ cooling (now + resend_cooldown))
              (ok-injective (rw free at sent))
              (laws.look_setex now key resend_cooldown s.cache (omega arith))
      ]

  -- Once a code was sent at `now`, then for 60 seconds another one for the same identifier and
  -- purpose is refused, whatever guesses, sends and prunes come in between, in the order of time.
  -- Redis behaves as documented, and nothing else writes the cooldown keys.
  pub send_otp_cools :
      (now later : ℕ) (identifier generated generated' : String) (purpose : OtpPurpose)
      (s after : Issuing outside redis) (es : List Event)
      → send_otp outside redis now identifier generated purpose s ≡ ok after
      → Within now (now + resend_cooldown) es
      → last now es ≤ later
      → later < now + resend_cooldown
      → send_otp outside redis later identifier generated' purpose (steps outside redis after es)
        ≡ err (Error.rate_limited "Please wait .. seconds before requesting another code")
  send_otp_cools now later identifier generated generated' purpose s after es sent within soon
        live =
      let key = cooldown_key outside redis purpose (normalise_identifier outside identifier) in
      let end = now + resend_cooldown in
      let cold = sent_cools now identifier generated purpose s after sent in
      let kept = steps_cool key end es now after within cold in
      refused later identifier generated' purpose (steps outside redis after es) end (
        look_cooling key (last now es) later end (steps outside redis after es).cache soon live
          kept)
