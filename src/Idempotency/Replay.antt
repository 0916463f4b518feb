-- ===== src/Idempotency/Replay.antt =====
-- What a retried placement is answered, whatever happened in between.
use mathlib.Core.Path.{subst}
use text.Mathlib.Text.{◌==◌ as str_eq}
use cheering_shop_backend.Prelude.{
  ℕ, ◌+◌, ◌≤◌, ◌≡◌, refl, ◌∙◌, false, Option, none, some, String, List, [], ◌∷◌, not, ltb,
  if◌then◌else◌, find?, All, arith, Bool-cases, inl, inr,
}
use cheering_shop_backend.Prelude.Text.{is_empty}
use cheering_shop_backend.Prelude.Lookups.{find?-keep}
use cheering_shop_backend.Result.{ok-injective, Result, ok, err, saved, Error, ◌>>=◌}
use cheering_shop_backend.Idempotency.{
  IdempotencyKey, Service, Api, ttl, is_key, claimed, answered, begin, complete, create_order,
  expire_idempotency_keys, beside, replay_or_place, key_result,
}
use cheering_shop_backend.Idempotency.Keys.{
  differs, not_differs, Spares, Leaves, complete-Spares, begin-Leaves, own_key,
}

-- What may happen to the rows between a placement and its retry.
pub data Event (Body : Type 0) : Type 0 where
  order : (now user id : ℕ) → Option String → Body → Event Body
  cleanup : ℕ → Event Body

abbrev pub when : {Body : Type 0} → Event Body → ℕ
when (Event.order now user id key body) = now
when (Event.cleanup now) = now

module _ {Rows Body Json : Type 0} (service : Service Rows Body Json) where
  -- The rows after the call, committed or rolled back.
  abbrev pub settle : Api Rows Json → Result (Api Rows Json) (Api Rows Json × Json) → Api Rows Json
  settle api (ok (after, body)) = after
  settle api (err e) = api
  settle api (saved after e) = after

  abbrev pub step : Api Rows Json → Event Body → Api Rows Json
  step api (Event.order now user id key body) =
      settle api (create_order service now user id key body api)
  step api (Event.cleanup now) = record api { keys = expire_idempotency_keys now api.keys }

  abbrev pub steps : Api Rows Json → List (Event Body) → Api Rows Json
  steps api [] = api
  steps api (e ∷ es) = steps (step api e) es

  module _ (user : ℕ) (key : String) where
    placed-Spares :
        (user' : ℕ) (key' : Option String) (api : Api Rows Json) (keys : List (IdempotencyKey Json))
        (r : Result Rows (Rows × Json))
        → Spares user key user' key'
        → find? (is_key user key) keys ≡ find? (is_key user key) api.keys
        → find?
            (is_key user key)
            (settle api (
              beside service keys r >>= λ done. ok (
                record {
                  rows = done.0;
                  keys = complete user' key' 201 (service.encode done.1) keys;
                },
                service.encode done.1,
              ))).keys
          ≡ find? (is_key user key) api.keys
    placed-Spares user' key' api keys (ok (rows, response)) apart same =
        complete-Spares user key user' key' 201 (service.encode response) keys apart ∙ same
    placed-Spares user' key' api keys (err e) apart same = refl
    placed-Spares user' key' api keys (saved rows e) apart same = same

    begun-Spares :
        (now user' id : ℕ) (key' : Option String) (body : Body) (api : Api Rows Json)
        (r : Result (List (IdempotencyKey Json)) (List (IdempotencyKey Json) × Option Json))
        → Spares user key user' key'
        → Leaves user key api.keys r
        → find?
            (is_key user key)
            (settle api (
              key_result service api r >>= replay_or_place service now user' id key' body api)).keys
          ≡ find? (is_key user key) api.keys
    begun-Spares now user' id key' body api (ok (keys, none)) apart same =
        placed-Spares user' key' api keys (service.place now user' id body api.rows) apart same
    begun-Spares now user' id key' body api (ok (keys, some stored)) apart same = refl
    begun-Spares now user' id key' body api (err e) apart same = refl
    begun-Spares now user' id key' body api (saved keys e) apart same = same

    order-Spares :
        (now user' id : ℕ) (key' : Option String) (body : Body) (api : Api Rows Json)
        → Spares user key user' key'
        → find?
            (is_key user key)
            (settle api (create_order service now user' id key' body api)).keys
          ≡ find? (is_key user key) api.keys
    unfolding create_order
    order-Spares now user' id key' body api apart =
        begun-Spares now user' id key' body api
          (begin now user' key' "POST /orders" (service.digest body) api.keys) apart
          (begin-Leaves user key now user' key' "POST /orders" (service.digest body) api.keys apart)

    -- A call with the key of a live, answered row is a replay or is refused: no rows change.
    live_begin :
        (now : ℕ) (endpoint hash : String) (keys : List (IdempotencyKey Json))
        (row : IdempotencyKey Json) (stored : Json)
        → is_empty key ≡ false
        → find? (is_key user key) keys ≡ some row
        → now ≤ row.expires_at
        → row.response_body ≡ some stored
        → begin now user (some key) endpoint hash keys ≡ (
            if str_eq row.request_hash hash
            then ok (keys, some stored)
            else err
                (Error.conflict "That Idempotency-Key was already used with a different request"))
    unfolding begin
    live_begin now endpoint hash keys row stored real found live done =
        let fresh : ltb row.expires_at now ≡ false = ground arith in
        rw (real, found, fresh, done)
          (elim (Bool-cases (str_eq row.request_hash hash)) [
            | inl same ↦ rw same refl
            | inr other ↦ rw other refl
          ])

    pub live_order :
        (now id : ℕ) (body : Body) (api : Api Rows Json) (row : IdempotencyKey Json) (stored : Json)
        → is_empty key ≡ false
        → find? (is_key user key) api.keys ≡ some row
        → now ≤ row.expires_at
        → row.response_body ≡ some stored
        → create_order service now user id (some key) body api ≡ (
            if str_eq row.request_hash (service.digest body)
            then ok (api, service.encode stored)
            else err
                (Error.conflict "That Idempotency-Key was already used with a different request"))
    unfolding create_order
    live_order now id body api row stored real found live done =
        let begun =
          live_begin now "POST /orders" (service.digest body) api.keys row stored real found live
            done in
        rw begun (elim (Bool-cases (str_eq row.request_hash (service.digest body))) [
          | inl same ↦ rw same refl
          | inr other ↦ rw other refl
        ])

    -- Until it expires, an answered row survives every call and every cleanup.
    step_keeps :
        (e : Event Body) (api : Api Rows Json) (row : IdempotencyKey Json) (stored : Json)
        → is_empty key ≡ false
        → find? (is_key user key) api.keys ≡ some row
        → when e ≤ row.expires_at
        → row.response_body ≡ some stored
        → find? (is_key user key) (step api e).keys ≡ some row
    unfolding expire_idempotency_keys
    step_keeps (Event.cleanup now) api row stored real found live done =
        find?-keep (is_key user key) (λ r. not (ltb r.expires_at now)) api.keys found (ground arith)
    step_keeps (Event.order now user' id none body) api row stored real found live done =
        order-Spares now user' id none body api tt ∙ found
    step_keeps (Event.order now user' id (some k) body) api row stored real found live done =
        elim (Bool-cases (differs user key user' k)) [
          | inl other ↦ order-Spares now user' id (some k) body api (inr other) ∙ found
          | inr own ↦
              let (u, same) = not_differs user key user' k own in
              let answer = live_order now id body api row stored real found live done in
              rw (u, same, answer)
                (elim (Bool-cases (str_eq row.request_hash (service.digest body))) [
                  | inl replay ↦ rw replay found
                  | inr refused ↦ rw refused found
                ])
        ]

    steps_keep :
        (es : List (Event Body)) (api : Api Rows Json) (row : IdempotencyKey Json) (stored : Json)
        → is_empty key ≡ false
        → find? (is_key user key) api.keys ≡ some row
        → All (λ e. when e ≤ row.expires_at) es
        → row.response_body ≡ some stored
        → find? (is_key user key) (steps api es).keys ≡ some row
    steps_keep [] api row stored real found live done = found
    steps_keep (e ∷ es) api row stored real found live done =
        steps_keep es (step api e) row stored real
          (step_keeps e api row stored real found live.0 done) live.1 done

    first_row :
        ((j : Json) → service.encode (service.encode j) ≡ service.encode j)
        → (now : ℕ) (hash : String) (keys : List (IdempotencyKey Json))
          (r : Result Rows (Rows × Json)) {done : Api Rows Json × Json}
        → is_empty key ≡ false
        → (beside service (claimed now user key "POST /orders" hash ∷ keys) r >>= λ done. ok (
          record {
            rows = done.0;
            keys =
                complete user
                  (some key)
                  201
                  (service.encode done.1)
                  (claimed now user key "POST /orders" hash ∷ keys);
          },
          service.encode done.1,
        ))
          ≡ ok done
        → (find? (is_key user key) done.0.keys
            ≡ some (answered 201 done.1 (claimed now user key "POST /orders" hash)))
          × (service.encode done.1 ≡ done.1)
    unfolding complete
    first_row encoder now hash keys (ok (rows, response)) {done} real e =
        let own = own_key Json now user key "POST /orders" hash in
        subst
          (λ d.
            (find? (is_key user key) d.0.keys
              ≡ some (answered 201 d.1 (claimed now user key "POST /orders" hash)))
            × (service.encode d.1 ≡ d.1))
          (ok-injective e) (rw (real, own, own) refl, encoder response)
    first_row encoder now hash keys (err _) real e = cc
    first_row encoder now hash keys (saved _ _) real e = cc

    -- The first use of a key that returned has left its answered row.
    first_leaves :
        ((j : Json) → service.encode (service.encode j) ≡ service.encode j)
        → (now id : ℕ) (body : Body) (api : Api Rows Json) {done : Api Rows Json × Json}
        → is_empty key ≡ false
        → find? (is_key user key) api.keys ≡ none
        → create_order service now user id (some key) body api ≡ ok done
        → (find? (is_key user key) done.0.keys
            ≡ some
                (answered 201 done.1 (claimed now user key "POST /orders" (service.digest body))))
          × (service.encode done.1 ≡ done.1)
    unfolding create_order begin
    first_leaves encoder now id body api real absent returned =
        first_row encoder now (service.digest body) api.keys
          (service.place now user id body api.rows) real (rw (real, absent) at returned)

  -- Let a placement with a key that has no row yet have returned an answer at `now`. However many
  -- placements (of any users, with any keys) and cleanups of the table follow within 24 hours, a
  -- retry with the key in that time places nothing and changes no row: with a body of the same
  -- digest it is answered what the first was answered, and with another body it is a conflict. The
  -- encoder is assumed to leave what it has encoded.
  pub create_order_retried :
      (now user id : ℕ) (key : String) (body : Body) (api after : Api Rows Json) (answer : Json)
      (events : List (Event Body)) (later id' : ℕ) (body' : Body)
      → ((j : Json) → service.encode (service.encode j) ≡ service.encode j)
      → is_empty key ≡ false
      → find? (is_key user key) api.keys ≡ none
      → create_order service now user id (some key) body api ≡ ok (after, answer)
      → All (λ e. when e ≤ now + ttl) events
      → later ≤ now + ttl
      → create_order service later user id' (some key) body' (steps after events) ≡ (
          if str_eq (service.digest body) (service.digest body')
          then ok (steps after events, answer)
          else err
              (Error.conflict "That Idempotency-Key was already used with a different request"))
  create_order_retried now user id key body api after answer events later id' body' encoder real
        absent returned within soon =
      let row = answered 201 answer (claimed now user key "POST /orders" (service.digest body)) in
      let (found, wire) = first_leaves user key encoder now id body api real absent returned in
      let kept = steps_keep user key events after row answer real found within refl in
      let retried =
        live_order user key later id' body' (steps after events) row answer real kept soon refl in
      subst
        (λ shown. create_order service later user id' (some key) body' (steps after events) ≡ (
          if str_eq (service.digest body) (service.digest body')
          then ok (steps after events, shown)
          else err
              (Error.conflict "That Idempotency-Key was already used with a different request")))
        wire retried
