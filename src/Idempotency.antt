-- ===== src/Idempotency.antt =====
-- app/services/idempotency.py, and `create_order` of app/api/v1/endpoints/orders.py, which wraps a
-- placement in it.
mod Keys
pub mod Replay
use cheering_shop_backend.Prelude.{
  ℕ, ◌+◌, Bool, true, false, Option, none, some, String, List, ◌∷◌, ◌&&◌, not, ◌==◌, ltb,
  if◌then◌else◌, find?, keep, update_first,
}
use cheering_shop_backend.Prelude.Text.{is_empty}
use text.Mathlib.Text.{◌==◌ as str_eq}
use cheering_shop_backend.Result.{Result, ok, err, saved, Error, ◌>>=◌, ◌>>◌, raise_if, or_raise}

-- `_TTL`, in seconds
abbrev pub ttl : ℕ
ttl = 86400

module _ (Json : Type 0) where
  -- The row of idempotency_keys; `response_body` is set once the request is answered.
  pub record IdempotencyKey : Type 0 where
    pub user_id : ℕ
    pub key : String
    pub endpoint : String
    pub request_hash : String
    pub status_code : Option ℕ
    pub response_body : Option Json
    pub created_at : ℕ
    pub expires_at : ℕ

  abbrev pub KeyResult : Type 0 → Type 0
  KeyResult A = Result (List IdempotencyKey) A

module _ {Json : Type 0} where
  -- The primary key.
  abbrev pub is_key : ℕ → String → IdempotencyKey Json → Bool
  is_key user key r = r.user_id == user && str_eq r.key key

  abbrev pub claimed : (now user : ℕ) → (key endpoint hash : String) → IdempotencyKey Json
  claimed now user key endpoint hash = record {
    user_id = user;
    key = key;
    endpoint = endpoint;
    request_hash = hash;
    status_code = none;
    response_body = none;
    created_at = now;
    expires_at = now + ttl;
  }

  abbrev pub reclaimed : ℕ → (endpoint hash : String) → IdempotencyKey Json → IdempotencyKey Json
  reclaimed now endpoint hash r = record r {
    endpoint = endpoint;
    request_hash = hash;
    status_code = none;
    response_body = none;
    created_at = now;
    expires_at = now + ttl;
  }

  -- The guards of `begin` on a live row.
  abbrev pub replayed : String → IdempotencyKey Json → KeyResult Json Json
  replayed hash r = do
    raise_if (not (str_eq r.request_hash hash))
        (Error.conflict "That Idempotency-Key was already used with a different request")
    or_raise r.response_body (Error.conflict "An identical request is already being processed")

  abbrev pub claim_key :
      (now user : ℕ)
      → (key endpoint hash : String) → List (IdempotencyKey Json)
      → Option (IdempotencyKey Json)
      → KeyResult Json (List (IdempotencyKey Json) × Option Json)
  claim_key now user key endpoint hash keys none =
      ok (claimed now user key endpoint hash ∷ keys, none)
  claim_key now user key endpoint hash keys (some r) =
      if ltb r.expires_at now
      then ok (update_first (is_key user key) (reclaimed now endpoint hash) keys, none)
      else do stored ← replayed hash r; ok (keys, some stored)

  -- `if not key` holds of an absent and of an empty header.
  -- The table after the call, and the stored response of a replay.
  unfoldable pub begin :
      (now user : ℕ)
      → Option String
      → (endpoint hash : String) → List (IdempotencyKey Json)
      → KeyResult Json (List (IdempotencyKey Json) × Option Json)
  begin now user none endpoint hash keys = ok (keys, none)
  begin now user (some key) endpoint hash keys =
      if is_empty key
      then ok (keys, none)
      else claim_key now user key endpoint hash keys (find? (is_key user key) keys)

  abbrev pub answered : ℕ → Json → IdempotencyKey Json → IdempotencyKey Json
  answered status body r = record r { status_code = some status; response_body = some body }

  -- `body` is what the encoder made of the response.
  unfoldable pub complete :
      ℕ → Option String → ℕ → Json → List (IdempotencyKey Json) → List (IdempotencyKey Json)
  complete user none status body keys = keys
  complete user (some key) status body keys =
      if is_empty key then keys else update_first (is_key user key) (answered status body) keys

  -- `expire_idempotency_keys` of app/workers/tasks.py
  unfoldable pub expire_idempotency_keys :
      ℕ → List (IdempotencyKey Json) → List (IdempotencyKey Json)
  expire_idempotency_keys now keys = keep (λ r. not (ltb r.expires_at now)) keys

-- What the endpoint calls: the placement (user, the new order's id, the request), whose response is
-- not encoded yet, the digest of a request, and the encoder.
pub record Service (Rows Body Json : Type 0) : Type 0 where
  pub place : (now user id : ℕ) → Body → Rows → Result Rows (Rows × Json)
  pub digest : Body → String
  pub encode : Json → Json

pub record Api (Rows Json : Type 0) : Type 0 where
  pub rows : Rows
  pub keys : List (IdempotencyKey Json)

module _ {Rows Body Json : Type 0} (service : Service Rows Body Json) where
  open service use {place, digest, encode}

  -- What a call wrote beside the table of keys, in the same transaction.
  abbrev pub beside :
      {A : Type 0} → List (IdempotencyKey Json) → Result Rows A → Result (Api Rows Json) A
  beside keys (ok a) = ok a
  beside keys (err e) = err e
  beside keys (saved rows e) = saved (record { rows = rows; keys = keys }) e

  abbrev pub key_result : {A : Type 0} → Api Rows Json → KeyResult Json A → Result (Api Rows Json) A
  key_result api (ok a) = ok a
  key_result api (err e) = err e
  key_result api (saved keys e) = saved (record api { keys = keys }) e

  abbrev pub replay_or_place :
      (now user id : ℕ)
      → Option String
      → Body
      → Api Rows Json
      → List (IdempotencyKey Json) × Option Json
      → Result (Api Rows Json) (Api Rows Json × Json)
  replay_or_place now user id key body api (keys, some stored) = ok (api, encode stored)
  replay_or_place now user id key body api (keys, none) = do
    done ← beside keys (place now user id body api.rows)
    ok (record { rows = done.0; keys = complete user key 201 (encode done.1) keys }, encode done.1)

  -- The rows after the call and the body that the client receives, which the framework encodes.
  unfoldable pub create_order :
      (now user id : ℕ)
      → Option String
      → Body
      → Api Rows Json
      → Result (Api Rows Json) (Api Rows Json × Json)
  unfolding begin complete
  create_order now user id key body api = do
    found ← key_result api (begin now user key "POST /orders" (digest body) api.keys)
    replay_or_place now user id key body api found
