-- ===== src/RateLimit/Window.antt =====
-- The limiter is a counter with a fixed window per key.
use mathlib.Core.Path.{subst}
use cheering_shop_backend.Prelude.{
  ℕ, ◌+◌, ◌≤◌, ◌<◌, ◌≡◌, refl, sym, ap, ◌∙◌, Bool, true, false, Option, none, some, String, List,
  [], ◌∷◌, ◌==◌, ltb, leb, if◌then◌else◌, arith, Bool-cases, inl, inr, All, count_of, map, min,
}
use cheering_shop_backend.Result.{Result, ok, err, saved}
use cheering_shop_backend.Redis.{Redis, IsRedis, Entry, alive, bumped}
use cheering_shop_backend.RateLimit.{LimitResult, counted, verdict, hit, reset}

-- The specification: the attempts of the window that is open, and its end.
pub record Window : Type 0 where
  pub attempts : ℕ
  pub ends_at : ℕ

abbrev pub open_at : ℕ → Option Window → Option Window
open_at now none = none
open_at now (some w) = if leb w.ends_at now then none else some w

-- One more attempt: in the open window, or in a new one.
abbrev pub attempted : ℕ → ℕ → Option Window → Window
attempted seconds now none = record { attempts = 1; ends_at = now + seconds }
attempted seconds now (some w) = record w { attempts = w.attempts + 1 }

abbrev pub shown : Option Window → Option Entry
shown none = none
shown (some w) = some (record { value = w.attempts; expires_at = some w.ends_at })

abbrev pub after_hit : {Cache : Type 0} → Result Cache (Cache × LimitResult) → Cache → Cache
after_hit (ok (cache, _)) _ = cache
after_hit (saved cache _) _ = cache
after_hit (err _) cache = cache

abbrev pub let_through : {Cache : Type 0} → Result Cache (Cache × LimitResult) → Bool
let_through (ok _) = true
let_through (saved _ _) = false
let_through (err _) = false

-- A call on one key, and whether a hit is let through.
pub data Call : Type 0 where
  attempt clear : ℕ → Call

abbrev pub at : Call → ℕ
at (Call.attempt now) = now
at (Call.clear now) = now

-- The specification's answers.
abbrev pub allowed : (limit seconds : ℕ) → Option Window → List Call → List Bool
allowed limit seconds w [] = []
allowed limit seconds w (Call.attempt now ∷ calls) =
    let next = attempted seconds now (open_at now w) in
    leb next.attempts limit ∷ allowed limit seconds (some next) calls
allowed limit seconds w (Call.clear now ∷ calls) = allowed limit seconds none calls

abbrev pub attempts : List ℕ → List Call
attempts times = map Call.attempt times

allowed_capped :
    (limit seconds : ℕ) (w : Window) (times : List ℕ)
    → All (λ t. t < w.ends_at) times
    → count_of (λ b. b) (allowed limit seconds (some w) (attempts times)) + min w.attempts limit
      ≤ limit
allowed_capped limit seconds w [] within = ground arith
allowed_capped limit seconds w (t ∷ times) (soon, within) =
    let live : leb w.ends_at t ≡ false = ground arith in
    let rest = allowed_capped limit seconds (record w { attempts = w.attempts + 1 }) times within in
    rw live (elim (Bool-cases (leb (w.attempts + 1) limit)) [
      | inl through ↦ rw through (ground (arith, rest))
      | inr over ↦ rw over (ground (arith, rest))
    ])

module _ {Cache : Type 0} (redis : Redis Cache) (laws : IsRedis redis) (key : String)
    (limit seconds : ℕ) where
  open redis use {look}

  -- What Redis shows of the key is the open window, which counts at least its first attempt.
  abbrev pub Tracks : ℕ → Cache → Option Window → Type 0
  Tracks now cache none = look now key cache ≡ none
  Tracks now cache (some w) =
      (look now key cache ≡ shown (some w)) × (1 ≤ w.attempts) × (now < w.ends_at)

  Tracks-later :
      (now later : ℕ) (cache : Cache) (w : Option Window)
      → now ≤ later
      → Tracks now cache w
      → Tracks later cache (open_at later w)
  Tracks-later now later cache none soon t =
      laws.look_later now later key cache soon ∙ ap (alive later) t
  Tracks-later now later cache (some w) soon (t, many, live) =
      let aged = laws.look_later now later key cache soon ∙ ap (alive later) t in
      elim (Bool-cases (leb w.ends_at later)) [
        | inl over ↦ rw over (rw over at aged)
        | inr open' ↦ rw open' (rw open' at aged, many, ground arith)
      ]

  counted-Tracks :
      (now : ℕ) (cache : Cache) (w : Option Window)
      → 1 ≤ seconds
      → Tracks now cache w
      → look now key (counted redis now key seconds cache) ≡ shown (some (attempted seconds now w))
  counted-Tracks now cache none some' t =
      let first : look now key (redis.incr now key cache) ≡ some (bumped none) =
        laws.look_incr now key cache ∙ ap (λ o. some (bumped o)) t in
      rw first (laws.look_expire now key seconds _ (bumped none) some' first)
  counted-Tracks now cache (some w) some' (t, many, live) =
      let next : look now key (redis.incr now key cache)
          ≡ some (record { value = w.attempts + 1; expires_at = some w.ends_at }) =
        laws.look_incr now key cache ∙ ap (λ o. some (bumped o)) t in
      let not_first : (w.attempts + 1 == 1) ≡ false = ground arith in rw (next, not_first) next

  verdict-Tracks :
      (now : ℕ) (cache before : Cache) (w : Window)
      → look now key cache ≡ shown (some w)
      → (after_hit (verdict redis now key limit cache) before ≡ cache)
        × (let_through (verdict redis now key limit cache) ≡ leb w.attempts limit)
  verdict-Tracks now cache before w t = elim (Bool-cases (ltb limit w.attempts)) [
    | inl over ↦
        let spent : leb w.attempts limit ≡ false = ground arith in rw (t, over, spent) (refl, refl)
    | inr within ↦
        let left : leb w.attempts limit ≡ true = ground arith in rw (t, within, left) (refl, refl)
  ]

  attempted_live :
      (now : ℕ) (cache : Cache) (w : Option Window)
      → 1 ≤ seconds
      → Tracks now cache w
      → (1 ≤ (attempted seconds now w).attempts) × (now < (attempted seconds now w).ends_at)
  attempted_live now cache none some' t = (omega arith, omega arith)
  attempted_live now cache (some w) some' (t, many, live) = (omega arith, live)

  -- One hit is one attempt of the specification, with its answer.
  hit-Tracks :
      (now : ℕ) (cache : Cache) (w : Option Window)
      → 1 ≤ seconds
      → Tracks now cache w
      → Tracks now
          (after_hit (hit redis now key limit seconds cache) cache)
          (some (attempted seconds now w))
        × (let_through (hit redis now key limit seconds cache)
            ≡ leb (attempted seconds now w).attempts limit)
  unfolding hit
  hit-Tracks now cache w some' t =
      let (same, answer) =
        verdict-Tracks now (counted redis now key seconds cache) cache (attempted seconds now w)
          (counted-Tracks now cache w some' t) in
      let (many, live) = attempted_live now cache w some' t in
      (rw same (counted-Tracks now cache w some' t, many, live), answer)

  reset-Tracks : (now : ℕ) (cache : Cache) → Tracks now (reset redis now key cache) none
  unfolding reset
  reset-Tracks now cache = laws.look_del now key cache

  -- The code's answers to a sequence of calls on the key, and the specification's.
  abbrev pub answers : Cache → List Call → List Bool
  answers cache [] = []
  answers cache (Call.attempt now ∷ calls) =
      let_through (hit redis now key limit seconds cache)
      ∷ answers (after_hit (hit redis now key limit seconds cache) cache) calls
  answers cache (Call.clear now ∷ calls) = answers (reset redis now key cache) calls

  -- No call is before the one it follows.
  abbrev pub InOrder : ℕ → List Call → Type 0
  InOrder now [] = Unit
  InOrder now (c ∷ calls) = (now ≤ at c) × InOrder (at c) calls

  answers-Tracks :
      (now : ℕ) (cache : Cache) (w : Option Window) (calls : List Call)
      → 1 ≤ seconds
      → Tracks now cache w
      → InOrder now calls
      → answers cache calls ≡ allowed limit seconds w calls
  answers-Tracks now cache w [] some' t order = refl
  answers-Tracks now cache w (Call.clear later ∷ calls) some' t (soon, order) =
      answers-Tracks later (reset redis later key cache) none calls some' (reset-Tracks later cache)
        order
  answers-Tracks now cache w (Call.attempt later ∷ calls) some' t (soon, order) =
      let here = Tracks-later now later cache w soon t in
      let (next, answer) = hit-Tracks later cache (open_at later w) some' here in
      let rest =
        answers-Tracks later (after_hit (hit redis later key limit seconds cache) cache)
          (some (attempted seconds later (open_at later w))) calls some' next order in
      rw (answer, rest) refl

  -- On a key that Redis does not hold, any sequence of attempts and resets that follow each other
  -- in time is answered as by the specification: a counter that starts over when its window has
  -- ended or was reset, and lets an attempt through while it is at most the limit. The window lasts
  -- a second or more, and Redis behaves as documented.
  pub hit_refines :
      (now : ℕ) (cache : Cache) (calls : List Call)
      → 1 ≤ seconds
      → look now key cache ≡ none
      → InOrder now calls
      → answers cache calls ≡ allowed limit seconds none calls
  hit_refines now cache calls some' absent order =
      answers-Tracks now cache none calls some' absent order

  -- Of the attempts on a key that Redis does not hold, made one after another before a window's
  -- length has passed since the first and without a reset, at most `limit` are let through.
  pub hit_capped :
      (now : ℕ) (cache : Cache) (times : List ℕ)
      → look now key cache ≡ none
      → InOrder now (attempts (now ∷ times))
      → All (λ t. t < now + seconds) times
      → 1 ≤ seconds
      → count_of (λ b. b) (answers cache (attempts (now ∷ times))) ≤ limit
  hit_capped now cache times absent order within some' =
      let same = hit_refines now cache (attempts (now ∷ times)) some' absent order in
      let first =
        allowed_capped limit seconds (record { attempts = 1; ends_at = now + seconds }) times
          within in
      subst (λ given. count_of (λ b. b) given ≤ limit) (sym same)
        (elim (Bool-cases (leb 1 limit)) [
          | inl through ↦ rw through (ground (arith, first))
          | inr over ↦ rw over (ground (arith, first))
        ])
