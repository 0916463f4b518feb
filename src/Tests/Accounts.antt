-- ===== src/Tests/Accounts.antt =====
-- Examples for codes, tokens, rate limits and idempotency keys.
use cheering_shop_backend.Prelude.{
  ℕ, ◌+◌, ◌*◌, ◌≤◌, ◌≡◌, ◌≢◌, refl, true, false, none, some, String, List, [], ◌∷◌, ◌==◌, arith,
  keep, not, All, count_of,
}
use cheering_shop_backend.Result.{ok, err, saved, Error}
use cheering_shop_backend.Enums.{UserRole}
use cheering_shop_backend.Store.{User}
use cheering_shop_backend.Tests.Memory.{Memory, memory, memory-IsRedis}
use cheering_shop_backend.Idempotency.{Service, Api, create_order}
use cheering_shop_backend.Idempotency.Replay.{Event, steps, create_order_retried}
use cheering_shop_backend.RateLimit.Window.{Call, answers, attempts, hit_refines, hit_capped}
use cheering_shop_backend.Otp.{
  OtpCode, OtpPurpose, Outside, Issuing, verify_and_consume, send_otp, normalise_identifier,
}
use cheering_shop_backend.Otp.Accept.{verify_and_consume_iff}
use cheering_shop_backend.Otp.Guesses.{budget}
use cheering_shop_backend.Otp.Limit as Limit
use cheering_shop_backend.Otp.Limit.{guesses_capped}
use cheering_shop_backend.Otp.Cooldown.{send_otp_cools}
use cheering_shop_backend.Tokens.{RefreshToken, Signing, Minted, rotate}
use cheering_shop_backend.Tokens.Reuse as Reuse
use cheering_shop_backend.Tokens.Once.{rotate_once, rotate_reused, IsSignedOut}

-- A shop whose rows are the ids of its orders.
abbrev service : Service (List ℕ) String ℕ
service = record {
  place = λ now user id body rows. ok (id ∷ rows, id);
  digest = λ body. body;
  encode = λ response. response;
}

abbrev empty : Api (List ℕ) ℕ
empty = record { rows = []; keys = [] }

abbrev api_after : Api (List ℕ) ℕ
api_after = record {
  rows = 11 ∷ [];
  keys =
      record {
        user_id = 7;
        key = "k1";
        endpoint = "POST /orders";
        request_hash = "latte";
        status_code = some 201;
        response_body = some 11;
        created_at = 1000;
        expires_at = 87400;
      }
      ∷ [];
}

abbrev meanwhile : List (Event String)
meanwhile =
    Event.order 1010 8 12 none "mocha"
    ∷ Event.cleanup 1020
    ∷ Event.order 1030 7 13 (some "k1") "latte"
    ∷ []

create_order_retried_example :
    create_order service 1040 7 14 (some "k1") "latte" (steps service api_after meanwhile)
    ≡ ok (steps service api_after meanwhile, 11)
unfolding create_order
create_order_retried_example =
    create_order_retried service 1000 7 11 "k1" "latte" empty api_after 11 meanwhile 1040 14 "latte"
      (λ j. refl) refl refl refl (omega arith, (omega arith, (omega arith, tt))) (omega arith)

abbrev nothing : Memory
nothing key = none

hit_refines_example :
    answers memory memory-IsRedis "login" 1 60 nothing
      (Call.attempt 5 ∷ Call.attempt 6 ∷ Call.clear 7 ∷ Call.attempt 8 ∷ Call.attempt 70 ∷ [])
    ≡ true ∷ false ∷ true ∷ true ∷ []
hit_refines_example =
    hit_refines memory memory-IsRedis "login" 1 60 5 nothing
      (Call.attempt 5 ∷ Call.attempt 6 ∷ Call.clear 7 ∷ Call.attempt 8 ∷ Call.attempt 70 ∷ [])
      (omega arith) refl
      (omega arith, (omega arith, (omega arith, (omega arith, (omega arith, tt)))))

hit_capped_example :
    count_of
      (λ b. b)
      (answers memory memory-IsRedis "login" 2 60 nothing (attempts (5 ∷ 6 ∷ 7 ∷ 8 ∷ [])))
    ≤ 2
hit_capped_example =
    hit_capped memory memory-IsRedis "login" 2 60 5 nothing (6 ∷ 7 ∷ 8 ∷ []) refl
      (omega arith, (omega arith, (omega arith, (omega arith, tt))))
      (omega arith, (omega arith, (omega arith, tt))) (omega arith)

abbrev outside : Outside
outside = record {
  lower = λ text. text;
  hash_otp = λ code identifier. code;
  same_citext = λ a b. true;
}

abbrev code_row : OtpCode
code_row = record {
  identifier = "a@b";
  purpose = OtpPurpose.signup;
  code_hash = "1234";
  expires_at = 400;
  consumed_at = none;
  attempts = 1;
  created_at = 100;
}

verify_and_consume_iff_example :
    verify_and_consume outside 200 "a@b" "1234" OtpPurpose.signup (code_row ∷ [])
    ≡ ok (record code_row { consumed_at = some 200 } ∷ [])
unfolding normalise_identifier
verify_and_consume_iff_example =
    (verify_and_consume_iff outside 200 "a@b" "1234" OtpPurpose.signup (code_row ∷ [])
        (record code_row { consumed_at = some 200 } ∷ [])).1
      (code_row, refl, omega arith, omega arith, refl, refl)

abbrev issuing : Issuing outside memory
issuing = record { codes = code_row ∷ []; cache = nothing }

abbrev grinding : List Limit.Event
grinding =
    Limit.Event.guess 200 "a@b" "1111" OtpPurpose.signup
    ∷ Limit.Event.guess 201 "a@b" "2222" OtpPurpose.signup
    ∷ Limit.Event.guess 202 "a@b" "3333" OtpPurpose.signup
    ∷ Limit.Event.send 210 "a@b" "4321" OtpPurpose.signup
    ∷ Limit.Event.guess 220 "a@b" "4321" OtpPurpose.signup
    ∷ []

guesses_capped_example :
    Limit.total outside memory (Limit.tried outside memory "a@b" OtpPurpose.signup) issuing grinding
    ≤ budget outside "a@b" OtpPurpose.signup (code_row ∷ [])
      + 3
        * Limit.total outside memory
            (Limit.granted outside memory "a@b" OtpPurpose.signup)
            issuing
            grinding
guesses_capped_example = guesses_capped outside memory "a@b" OtpPurpose.signup issuing grinding

send_otp_cools_example :
    send_otp outside memory 50 "a@b" "7777" OtpPurpose.signup (
      Limit.steps outside memory
        (record {
          codes =
              record code_row {
                code_hash = "4321";
                expires_at = 310;
                attempts = 0;
                created_at = 10;
              }
              ∷ [];
          cache = memory.setex 10 "otp:cooldown:SIGNUP:a@b" 60 nothing;
        })
        (Limit.Event.send 20 "c@d" "5555" OtpPurpose.signup ∷ Limit.Event.prune 30 ∷ []))
    ≡ err (Error.rate_limited "Please wait .. seconds before requesting another code")
unfolding send_otp normalise_identifier
send_otp_cools_example =
    send_otp_cools outside memory memory-IsRedis 10 50 "a@b" "4321" "7777" OtpPurpose.signup
      (record { codes = []; cache = nothing })
      (record {
        codes =
            record code_row { code_hash = "4321"; expires_at = 310; attempts = 0; created_at = 10 }
            ∷ [];
        cache = memory.setex 10 "otp:cooldown:SIGNUP:a@b" 60 nothing;
      })
      (Limit.Event.send 20 "c@d" "5555" OtpPurpose.signup ∷ Limit.Event.prune 30 ∷ []) refl
      (omega arith, omega arith, (omega arith, omega arith, tt)) (omega arith) (omega arith)

abbrev signing : Signing
signing = record { decode = λ now token. some 7; sha256 = λ token. token }

abbrev seven : List User
seven = record { id = 7; role = UserRole.customer; is_active = true; created_at = 1 } ∷ []

abbrev session : RefreshToken
session = record {
  id = 1;
  user_id = 7;
  token_hash = "old";
  expires_at = 1000;
  revoked_at = none;
  replaced_by_id = none;
}

abbrev second : Minted
second = record { id = 2; refresh = "new" }

abbrev third : Minted
third = record { id = 3; refresh = "newer" }

abbrev rotated : List RefreshToken
rotated =
    record {
      id = 2;
      user_id = 7;
      token_hash = "new";
      expires_at = 2592100;
      revoked_at = none;
      replaced_by_id = none;
    }
    ∷ record session { revoked_at = some 100; replaced_by_id = some 2 }
    ∷ []

rotate_once_example :
    rotate signing 300 seven third "old" (
      Reuse.steps signing rotated
        (Reuse.Event.refresh 200 seven third "new" ∷ Reuse.Event.prune 250 ∷ []))
    ≢ ok rotated
unfolding rotate
rotate_once_example =
    rotate_once signing 100 seven second "old" (session ∷ []) rotated
      (Reuse.Event.refresh 200 seven third "new" ∷ Reuse.Event.prune 250 ∷ []) 300 seven third
      rotated (omega arith) refl (refl, (tt, tt)) refl

rotate_reused_example :
    (after : List RefreshToken) × (rotate signing 300 seven third "old" rotated
      ≡ saved after (Error.unauthorized "Session revoked. Please sign in again"))
    × All (IsSignedOut signing 7) after
    × (keep (λ r. not (r.user_id == 7)) after ≡ keep (λ r. not (r.user_id == 7)) rotated)
rotate_reused_example =
    rotate_reused signing 300 7 seven third "old"
      (record session { revoked_at = some 100; replaced_by_id = some 2 }) rotated refl refl refl
