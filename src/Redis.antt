-- ===== src/Redis.antt =====
-- What app/core/rate_limit.py and app/services/otp_service.py use of Redis, as an interface: the
-- counter under a key, and the commands INCR, EXPIRE, SETEX and DEL.
use cheering_shop_backend.Prelude.{
  ℕ, ◌+◌, ◌≤◌, ◌≡◌, ◌≢◌, Bool, false, Option, none, some, String, leb, if◌then◌else◌,
}

-- A value, and the instant at which the key expires, if it does.
pub record Entry : Type 0 where
  pub value : ℕ
  pub expires_at : Option ℕ

abbrev pub is_past : ℕ → Option ℕ → Bool
is_past now none = false
is_past now (some at) = leb at now

abbrev pub expired : ℕ → Entry → Bool
expired now e = is_past now e.expires_at

-- What is left of an entry at a later instant.
abbrev pub alive : ℕ → Option Entry → Option Entry
alive now none = none
alive now (some e) = if expired now e then none else some e

-- INCR starts a missing key at 1, with no expiry, and keeps the expiry of one that is there.
abbrev pub bumped : Option Entry → Entry
bumped none = record { value = 1; expires_at = none }
bumped (some e) = record e { value = e.value + 1 }

abbrev pub until : ℕ → Entry → Entry
until at e = record e { expires_at = some at }

-- `look` is what GET and TTL tell of a key at an instant.
pub record Redis (Cache : Type 0) : Type 0 where
  pub look : (now : ℕ) → String → Cache → Option Entry
  pub incr : (now : ℕ) → String → Cache → Cache
  pub expire : (now : ℕ) → String → (seconds : ℕ) → Cache → Cache
  pub setex : (now : ℕ) → String → (seconds : ℕ) → Cache → Cache
  pub del : (now : ℕ) → String → Cache → Cache

module _ {Cache : Type 0} (redis : Redis Cache) where
  open redis use {look, incr, expire, setex, del}

  -- The documented behaviour of the commands: each changes its own key only, and time only expires.
  pub record IsRedis : Type 0 where
    pub look_later :
        (now later : ℕ) (k : String) (s : Cache)
        → now ≤ later
        → look later k s ≡ alive later (look now k s)
    pub look_incr :
        (now : ℕ) (k : String) (s : Cache)
        → look now k (incr now k s) ≡ some (bumped (look now k s))
    pub look_expire :
        (now : ℕ) (k : String) (seconds : ℕ) (s : Cache) (e : Entry)
        → 1 ≤ seconds
        → look now k s ≡ some e
        → look now k (expire now k seconds s) ≡ some (until (now + seconds) e)
    pub look_setex :
        (now : ℕ) (k : String) (seconds : ℕ) (s : Cache)
        → 1 ≤ seconds
        → look now k (setex now k seconds s)
          ≡ some (record { value = 1; expires_at = some (now + seconds) })
    pub look_del : (now : ℕ) (k : String) (s : Cache) → look now k (del now k s) ≡ none
    pub incr_other :
        (now : ℕ) (k j : String) (s : Cache) → j ≢ k → look now j (incr now k s) ≡ look now j s
    pub expire_other :
        (now : ℕ) (k j : String) (seconds : ℕ) (s : Cache)
        → j ≢ k
        → look now j (expire now k seconds s) ≡ look now j s
    pub setex_other :
        (now : ℕ) (k j : String) (seconds : ℕ) (s : Cache)
        → j ≢ k
        → look now j (setex now k seconds s) ≡ look now j s
    pub del_other :
        (now : ℕ) (k j : String) (s : Cache) → j ≢ k → look now j (del now k s) ≡ look now j s
