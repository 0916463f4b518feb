-- ===== src/RateLimit.antt =====
-- app/core/rate_limit.py: the counter of attempts against a key.
pub mod Window
use cheering_shop_backend.Prelude.{
  ℕ, ◌-◌, Bool, Option, none, some, String, max, ◌==◌, ltb, if◌then◌else◌,
}
use cheering_shop_backend.Result.{Result, ok, saved, Error}
use cheering_shop_backend.Redis.{Redis, Entry}

pub record LimitResult : Type 0 where
  pub hits : ℕ
  pub remaining : ℕ
  pub retry_after : ℕ

-- INCR answers the new value.
abbrev pub count : Option Entry → ℕ
count none = 0
count (some e) = e.value

-- TTL, which is negative for a key that does not expire: `max(ttl, 1)` is 1 then.
abbrev pub wait : ℕ → Option Entry → ℕ
wait now none = 1
wait now (some e) = elim e.expires_at [ none ↦ 1 | some at ↦ max (at - now) 1 ]

module _ {Cache : Type 0} (redis : Redis Cache) where
  open redis use {look, incr, expire, del}

  -- INCR, and EXPIRE on the first hit.
  abbrev pub counted : (now : ℕ) → String → (window : ℕ) → Cache → Cache
  counted now key window cache =
      let cache' = incr now key cache in
      if count (look now key cache') == 1 then expire now key window cache' else cache'

  abbrev pub verdict : (now : ℕ) → String → (limit : ℕ) → Cache → Result Cache (Cache × LimitResult)
  verdict now key limit cache =
      let hits = count (look now key cache) in
      if ltb limit hits
      then saved cache (Error.rate_limited "Too many attempts. Try again in .. seconds")
      else ok (
        cache,
        record {
          hits = hits;
          remaining = max (limit - hits) 0;
          retry_after = wait now (look now key cache);
        },
      )

  -- Redis keeps the count whether or not the call raises.
  unfoldable pub hit :
      (now : ℕ) → String → (limit window : ℕ) → Cache → Result Cache (Cache × LimitResult)
  hit now key limit window cache = verdict now key limit (counted now key window cache)

  unfoldable pub reset : (now : ℕ) → String → Cache → Cache
  reset now key cache = del now key cache
