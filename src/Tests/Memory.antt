-- ===== src/Tests/Memory.antt =====
-- A cache in memory, which behaves as `Redis.IsRedis` asks.
use text.Mathlib.Text.{◌==◌ as str_eq}
use text.Mathlib.TextEquality.{eq_iff}
use cheering_shop_backend.Prelude.{
  ℕ, ◌+◌, ◌≤◌, ◌≡◌, ◌≢◌, refl, ap, ◌∙◌, true, false, Option, none, some, String, leb, if◌then◌else◌,
  Bool-cases, inl, inr, arith,
}
use cheering_shop_backend.Redis.{Redis, IsRedis, Entry, alive, is_past, bumped, until}

abbrev pub Memory : Type 0
Memory = String → Option Entry

abbrev pub set_key : String → Option Entry → Memory → Memory
set_key k e s j = if str_eq j k then e else s j

abbrev pub expiring : ℕ → Option Entry → Option Entry
expiring at none = none
expiring at (some e) = some (until at e)

abbrev pub memory : Redis Memory
memory = record {
  look = λ now k s. alive now (s k);
  incr = λ now k s. set_key k (some (bumped (alive now (s k)))) s;
  expire = λ now k seconds s. set_key k (expiring (now + seconds) (alive now (s k))) s;
  setex = λ now k seconds s.
      set_key k (some (record { value = 1; expires_at = some (now + seconds) })) s;
  del = λ now k s. set_key k none s;
}

set_key_here : (k : String) (e : Option Entry) (s : Memory) → set_key k e s k ≡ e
set_key_here k e s = let own : str_eq k k ≡ true = (eq_iff k k).1 refl in rw own refl

set_key_other : (j k : String) (e : Option Entry) (s : Memory) → j ≢ k → set_key k e s j ≡ s j
set_key_other j k e s ne = elim (Bool-cases (str_eq j k)) [
  | inl same ↦ absurd (ne ((eq_iff j k).0 same))
  | inr other ↦ rw other refl
]

past_later :
    (now later : ℕ) (o : Option ℕ) → now ≤ later → is_past now o ≡ true → is_past later o ≡ true
past_later now later none soon e = cc
past_later now later (some at) soon e = ground arith

alive_later :
    (now later : ℕ) (o : Option Entry) → now ≤ later → alive later o ≡ alive later (alive now o)
alive_later now later none soon = refl
alive_later now later (some e) soon = elim (Bool-cases (is_past now e.expires_at)) [
  | inl gone ↦ let still = past_later now later e.expires_at soon gone in rw (gone, still) refl
  | inr live ↦ rw live refl
]

alive-bumped :
    (now : ℕ) (o : Option Entry)
    → alive now (some (bumped (alive now o))) ≡ some (bumped (alive now o))
alive-bumped now none = refl
alive-bumped now (some e) = elim (Bool-cases (is_past now e.expires_at)) [
  | inl gone ↦ rw gone refl
  | inr live ↦ rw (live, live) refl
]

-- A key that expires a second or more from now is there.
alive_soon :
    (now seconds : ℕ) (e : Entry)
    → 1 ≤ seconds
    → alive now (some (until (now + seconds) e)) ≡ some (until (now + seconds) e)
alive_soon now seconds e some' =
    let live : leb (now + seconds) now ≡ false = ground arith in rw live refl

pub memory-IsRedis : IsRedis memory
memory-IsRedis = record {
  look_later = λ now later k s soon. alive_later now later (s k) soon;
  look_incr = λ now k s.
      ap (alive now) (set_key_here k (some (bumped (alive now (s k)))) s) ∙ alive-bumped now (s k);
  look_expire = λ now k seconds s e some' there.
      ap (alive now) (set_key_here k (expiring (now + seconds) (alive now (s k))) s)
      ∙ ap (λ o. alive now (expiring (now + seconds) o)) there
      ∙ alive_soon now seconds e some';
  look_setex = λ now k seconds s some'.
      ap (alive now)
        (set_key_here k (some (record { value = 1; expires_at = some (now + seconds) })) s)
      ∙ alive_soon now seconds (record { value = 1; expires_at = none }) some';
  look_del = λ now k s. ap (alive now) (set_key_here k none s);
  incr_other = λ now k j s ne. ap (alive now) (set_key_other j k _ s ne);
  expire_other = λ now k j seconds s ne. ap (alive now) (set_key_other j k _ s ne);
  setex_other = λ now k j seconds s ne. ap (alive now) (set_key_other j k _ s ne);
  del_other = λ now k j s ne. ap (alive now) (set_key_other j k _ s ne);
}
