-- ===== src/Result.antt =====
-- What a service call returns: a value, or one of the exceptions of app/core/errors.py.
-- The text of an error names the `raise` statement; the messages' formatted parts are left out.
use cheering_shop_backend.Prelude.{◌≡◌, refl, Bool, true, false, Option, none, some, String}

pub data Error : Type 0 where
  not_found conflict validation rate_limited unauthorized : String → Error

-- `saved s e`: the session committed `s` before it raised `e`. After a plain `err` the session is
-- rolled back, so nothing that the call wrote remains.
pub data Result {ℓ} (S A : Type ℓ) : Type ℓ where
  ok : A → Result S A
  err : Error → Result S A
  saved : S → Error → Result S A

infixl 5 ◌>>=◌ ◌>>◌
-- Nothing after an exception runs, whether or not the session was committed before it.
abbrev pub ◌>>=◌ {ℓ} : {S A B : Type ℓ} → Result S A → (A → Result S B) → Result S B
saved rows raised >>= rest = saved rows raised
err raised >>= rest = err raised
ok value >>= rest = rest value

abbrev pub ◌>>◌ {ℓ} : {S A B : Type ℓ} → Result S A → Result S B → Result S B
first >> rest = first >>= λ _. rest

-- `if b: raise e`
abbrev pub raise_if : {S : Type 0} → Bool → Error → Result S Unit
raise_if true e = err e
raise_if false e = ok tt

-- `if x is None: raise e`
abbrev pub or_raise : {S A : Type 0} → Option A → Error → Result S A
or_raise none e = err e
or_raise (some a) e = ok a

-- The rows after the call, committed by its endpoint when it returns.
abbrev pub rows_after : {S : Type 0} → S → Result S S → S
rows_after s (ok s') = s'
rows_after s (err _) = s
rows_after s (saved s' _) = s'

-- A call that returned is a first part that returned, and a rest that did.
pub >>=-eq-ok :
    {S A B : Type 0} {result : B} (first : Result S A) (rest : A → Result S B)
    → ◌≡◌ {A = Result S B} (first >>= rest) (ok result)
    → (value : A) × (first ≡ ok value) × (rest value ≡ ok result)
>>=-eq-ok (err _) rest returned = cc
>>=-eq-ok (saved _ _) rest returned = cc
>>=-eq-ok (ok value) rest returned = (value, refl, returned)

pub or_raise-eq-ok :
    {S A : Type 0} (o : Option A) (e : Error) {a : A} → or_raise {S = S} o e ≡ ok a → o ≡ some a
or_raise-eq-ok none e h = cc
or_raise-eq-ok (some a) e h = cc

pub ok-injective : {S A : Type 0} {a b : A} → ◌≡◌ {A = Result S A} (ok a) (ok b) → a ≡ b
ok-injective e = cc

pub raise_if-eq-ok :
    {S : Type 0} (b : Bool) (e : Error) {u : Unit}
    → ◌≡◌ {A = Result S Unit} (raise_if b e) (ok u)
    → b ≡ false
raise_if-eq-ok true e h = cc
raise_if-eq-ok false e h = refl
