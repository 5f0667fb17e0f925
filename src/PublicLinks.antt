-- ===== src/PublicLinks.antt =====
-- app/services/booking_public_service.py: links with which a customer manages a booking, signed so
-- that no other can be made up.
pub mod Tokens
use Prim.Native.Char.{code}
use Prim.Native.String.{◌++◌}
use appointment_voice_saas.Common.{
  ℕ, suc, zero, ◌+◌, ◌*◌, ◌/◌, ◌-◌, String, Option, none, some, Bool, true, false, not, ◌&&◌, ◌||◌,
  ◌==◌, ltb, leb, find_by, if◌then◌else◌, same_text, all_chars, is_space, strip_of, strip_right,
  split_at,
}
use appointment_voice_saas.Common.Decimal.{decimal, scan_digits}
use appointment_voice_saas.Tables.{Db, Booking}
use appointment_voice_saas.Errors.{
  Error, Result, ok, err, not_found, value_error, type_error, or_raise, require_that, ◌>>=◌, ◌>>◌,
}
use appointment_voice_saas.Env.{Env, digit_value}

-- The integers of Python.
pub data ℤ : Type 0 where
  pos negsuc : ℕ → ℤ

-- str(n)
abbrev pub text_of : ℤ → String
text_of (pos n) = decimal n
text_of (negsuc n) = String.◌∷◌ "-" (decimal (suc n))

abbrev pub is_ascii : String → Bool
is_ascii text = all_chars (λ c. ltb c 128) text

-- The characters that int() removes around a number: of an ASCII text those that C counts as space,
-- of another one those that Unicode does.
abbrev pub is_int_space : Bool → ℕ → Bool
is_int_space ascii c =
    if ltb c 128
    then leb 9 c && leb c 13 || c == 32 || not ascii && leb 28 c && leb c 31
    else is_space c

abbrev pub positive : Option ℕ → Option ℤ
positive none = none
positive (some n) = some (pos n)

abbrev pub negative : Option ℕ → Option ℤ
negative none = none
negative (some zero) = some (pos 0)
negative (some (suc n)) = some (negsuc n)

abbrev pub signed_digits : Env → String → Option ℤ
signed_digits env String.[] = none
signed_digits env (String.◌∷◌ c text) =
    if code c == 45
    then negative (scan_digits (digit_value env) false 0 0 text)
    else if code c == 43
    then positive (scan_digits (digit_value env) false 0 0 text)
    else positive (scan_digits (digit_value env) false 0 0 (String.◌∷◌ c text))

-- int(text)
unfoldable pub int_of : Env → String → Option ℤ
int_of env text = signed_digits env (strip_of (is_int_space (is_ascii text)) text)

-- f"{booking_id}:{exp_unix}"
unfoldable pub message_of : ℤ → ℤ → String
message_of booking_id exp_unix = text_of booking_id ++ ":" ++ text_of exp_unix

-- _sign
unfoldable pub sign : Env → ℤ → ℤ → String
unfolding message_of
sign env booking_id exp_unix = env.hmac_sha256 (message_of booking_id exp_unix)

-- BOOKING_TOKEN_TTL_SECONDS
abbrev pub booking_token_ttl_seconds : ℕ
booking_token_ttl_seconds = 90 * 24 * 3600

-- int(time.time()) + BOOKING_TOKEN_TTL_SECONDS
abbrev pub expiry : Env → ℕ
expiry env = env.now / 1000000 + booking_token_ttl_seconds

unfoldable pub generate_booking_token : Env → ℕ → String
unfolding sign
generate_booking_token env booking_id =
    decimal booking_id
    ++ "."
    ++ decimal (expiry env)
    ++ "."
    ++ sign env (pos booking_id) (pos (expiry env))

-- hmac.compare_digest of two texts
abbrev pub compare_digest : String → String → Result Bool
compare_digest a b = if is_ascii a && is_ascii b then ok (same_text a b) else err type_error

-- time.time() > exp_unix
abbrev pub is_past : Env → ℤ → Bool
is_past env (pos n) = ltb (n * 1000000) env.now
is_past env (negsuc n) = true

-- token.split(".", 2), when it has three parts
abbrev pub three_parts : String → Option (String × String × String)
three_parts token = second (split_at 46 token)
  where
    third : String → Option (String × String) → Option (String × String × String)
    third raw_id none = none
    third raw_id (some (raw_exp, sig)) = some (raw_id, raw_exp, sig)

    second : Option (String × String) → Option (String × String × String)
    second none = none
    second (some (raw_id, rest)) = third raw_id (split_at 46 rest)

abbrev pub invalid_format : Error
invalid_format = value_error "Invalid token format"

unfoldable pub verify_parts : Env → ℤ → ℤ → String → Result ℤ
unfolding sign
verify_parts env booking_id exp_unix sig = do
  genuine ← compare_digest (sign env booking_id exp_unix) sig
  require_that genuine (value_error "Invalid token signature")
  require_that (not (is_past env exp_unix)) (value_error "Token has expired")
  ok booking_id

unfoldable pub verify_booking_token : Env → String → Result ℤ
unfolding verify_parts int_of
verify_booking_token env token = do
  (raw_id, raw_exp, sig) ← or_raise (three_parts token) invalid_format
  booking_id ← or_raise (int_of env raw_id) invalid_format
  exp_unix ← or_raise (int_of env raw_exp) invalid_format
  verify_parts env booking_id exp_unix sig

-- Booking.id == booking_id: no row has a negative id.
abbrev pub has_id : ℤ → Booking → Bool
has_id (pos n) b = b.id == n
has_id (negsuc n) b = false

-- except ValueError: raise NotFoundError("booking")
abbrev pub or_not_found : Result ℤ → Result ℤ
or_not_found (ok booking_id) = ok booking_id
or_not_found (err (value_error message)) = err (not_found "booking")
or_not_found (err e) = err e

unfoldable pub get_booking_by_public_token : Env → Db → String → Result Booking
unfolding verify_booking_token
get_booking_by_public_token env db token = do
  booking_id ← or_not_found (verify_booking_token env token)
  or_raise (find_by (has_id booking_id) db.bookings) (not_found "booking")

-- base.rstrip("/"), and the link below it when there is one
abbrev pub url_below : String → String → Option String
url_below String.[] token = none
url_below (String.◌∷◌ c base) token = some (String.◌∷◌ c base ++ "/" ++ token)

unfoldable pub build_public_management_url : Env → ℕ → Option String
unfolding generate_booking_token
build_public_management_url env booking_id =
    url_below (strip_right (λ c. c == 47) env.booking_public_base_url)
      (generate_booking_token env booking_id)
