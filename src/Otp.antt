-- ===== src/Otp.antt =====
-- app/services/otp_service.py, app/models/user.py (OtpCode), and `prune_expired_otps` of
-- app/workers/tasks.py.
pub mod Accept
pub mod Guesses
pub mod Limit
pub mod Cooldown
use Prim.Native.Char.{Char, code}
use Prim.Native.String.{◌++◌ as ◌+s◌}
use text.Mathlib.Text.{◌==◌ as str_eq}
use cheering_shop_backend.Prelude.{
  ℕ, ◌+◌, Bool, true, false, Option, none, some, String, List, [], ◌∷◌, ◌&&◌, ◌||◌, not, ◌==◌, ltb,
  leb, if◌then◌else◌, find?, keep, update_first, is_none,
}
use cheering_shop_backend.Prelude.Text.{strip}
use cheering_shop_backend.Result.{Result, ok, err, saved, Error, ◌>>=◌, ◌>>◌, raise_if, or_raise}
use cheering_shop_backend.Redis.{Redis}

-- OTP_TTL_SECONDS, OTP_MAX_ATTEMPTS, OTP_RESEND_COOLDOWN_SECONDS and OTP_RETENTION
abbrev pub otp_ttl : ℕ
otp_ttl = 300

abbrev pub otp_max_attempts : ℕ
otp_max_attempts = 3

abbrev pub resend_cooldown : ℕ
resend_cooldown = 60

abbrev pub otp_retention : ℕ
otp_retention = 172800

pub data OtpPurpose : Type 0 where
  signup login password_reset : OtpPurpose

abbrev pub same_purpose : OtpPurpose → OtpPurpose → Bool
same_purpose OtpPurpose.signup OtpPurpose.signup = true
same_purpose OtpPurpose.login OtpPurpose.login = true
same_purpose OtpPurpose.password_reset OtpPurpose.password_reset = true
same_purpose _ _ = false

-- The enum's text.
abbrev pub value : OtpPurpose → String
value OtpPurpose.signup = "SIGNUP"
value OtpPurpose.login = "LOGIN"
value OtpPurpose.password_reset = "PASSWORD_RESET"

pub record OtpCode : Type 0 where
  pub identifier : String
  pub purpose : OtpPurpose
  pub code_hash : String
  pub expires_at : ℕ
  pub consumed_at : Option ℕ
  pub attempts : ℕ
  pub created_at : ℕ

-- `"@" in value`
abbrev pub has_at : String → Bool
has_at String.[] = false
has_at (String.◌∷◌ c s) = code c == 0x40 || has_at s

-- `value.replace(" ", "")`
abbrev pub no_blanks : String → String
no_blanks String.[] = String.[]
no_blanks (String.◌∷◌ c s) =
    let rest = no_blanks s in if code c == 0x20 then rest else String.◌∷◌ c rest

-- What the service takes from outside: `str.lower`, the keyed digest `hash_otp` (HMAC-SHA256 of the
-- code and the identifier under the server's pepper), and the comparison of the CITEXT column.
pub record Outside : Type 0 where
  pub lower : String → String
  pub hash_otp : (code identifier : String) → String
  pub same_citext : String → String → Bool

abbrev pub burned : ℕ → OtpCode → OtpCode
burned now r = record r { consumed_at = some now }

abbrev pub missed : OtpCode → OtpCode
missed r = record r { attempts = r.attempts + 1 }

module _ (outside : Outside) where
  open outside use {lower, hash_otp, same_citext}

  unfoldable pub normalise_identifier : String → String
  unfolding strip
  normalise_identifier identifier =
      let value = strip identifier in if has_at value then lower value else no_blanks value

  unfoldable pub verify_otp : (code identifier stored : String) → Bool
  verify_otp code identifier stored = str_eq (hash_otp code identifier) stored

  -- The rows that `verify_and_consume` asks for.
  abbrev pub pending : String → OtpPurpose → OtpCode → Bool
  pending identifier purpose r =
      same_citext r.identifier identifier && same_purpose r.purpose purpose && is_none r.consumed_at

  -- The table is listed newest first, which is the order by `created_at`, so the row that the query
  -- returns is the first of the pending ones. `judged` is the code after the query.
  abbrev pub judged :
      (now : ℕ)
      → (identifier code : String) → OtpPurpose
      → List OtpCode
      → OtpCode
      → Result (List OtpCode) (List OtpCode)
  judged now identifier code purpose rows row =
      if leb row.expires_at now
      then err (Error.validation "This code has expired")
      else if leb otp_max_attempts row.attempts
      then saved (update_first (pending identifier purpose) (burned now) rows)
          (Error.rate_limited "Too many incorrect attempts. Request a new code")
      else if not (verify_otp code identifier row.code_hash)
      then saved (update_first (pending identifier purpose) missed rows)
          (Error.validation "Incorrect code")
      else ok (update_first (pending identifier purpose) (burned now) rows)

  abbrev pub newest_judged :
      (now : ℕ)
      → (identifier code : String) → OtpPurpose
      → List OtpCode
      → Option OtpCode
      → Result (List OtpCode) (List OtpCode)
  newest_judged now identifier code purpose rows none =
      err (Error.validation "No pending code for this identifier")
  newest_judged now identifier code purpose rows (some row) =
      judged now identifier code purpose rows row

  unfoldable pub verify_and_consume :
      (now : ℕ)
      → (identifier code : String) → OtpPurpose
      → List OtpCode
      → Result (List OtpCode) (List OtpCode)
  unfolding normalise_identifier verify_otp
  verify_and_consume now identifier code purpose rows =
      let who = normalise_identifier identifier in
      newest_judged now who code purpose rows (find? (pending who purpose) rows)

  abbrev pub issued : (now : ℕ) → (identifier code : String) → OtpPurpose → OtpCode
  issued now identifier code purpose = record {
    identifier = identifier;
    purpose = purpose;
    code_hash = hash_otp code identifier;
    expires_at = now + otp_ttl;
    consumed_at = none;
    attempts = 0;
    created_at = now;
  }

  module _ {Cache : Type 0} (redis : Redis Cache) where
    -- The codes and the cooldown keys. The insertion is committed with the endpoint.
    pub record Issuing : Type 0 where
      pub codes : List OtpCode
      pub cache : Cache

    -- `_COOLDOWN_KEY`
    abbrev pub cooldown_key : OtpPurpose → String → String
    cooldown_key purpose identifier = "otp:cooldown:" +s (value purpose +s (":" +s identifier))

    -- `generated` is what `generate_otp` draws; the delivery by mail, whose failure is swallowed, is
    -- left out.
    unfoldable pub send_otp :
        (now : ℕ) → (identifier generated : String) → OtpPurpose → Issuing → Result Issuing Issuing
    unfolding normalise_identifier
    send_otp now identifier generated purpose s =
        let who = normalise_identifier identifier in
        do
          raise_if (not (is_none (redis.look now (cooldown_key purpose who) s.cache)))
              (Error.rate_limited "Please wait .. seconds before requesting another code")
          ok (record {
            codes = issued now who generated purpose ∷ s.codes;
            cache = redis.setex now (cooldown_key purpose who) resend_cooldown s.cache;
          })

-- The cutoff `now - OTP_RETENTION` is compared without a subtraction.
abbrev pub retained : ℕ → OtpCode → Bool
retained now r = not (
    (not (is_none r.consumed_at) || ltb (r.expires_at + otp_retention) now)
    && ltb (r.created_at + otp_retention) now)

unfoldable pub prune_expired_otps : ℕ → List OtpCode → List OtpCode
prune_expired_otps now rows = keep (retained now) rows
