-- ===== src/PublicLinks/Tokens.antt =====
-- What the signed links of app/services/booking_public_service.py let through.
pub mod Genuine
use Prim.Native.Char.{code}
use Prim.Native.Nat.{◌^◌}
use Prim.Native.String.{◌++◌}
use Prim.Native.String.append
use appointment_voice_saas.Common.{
  ℕ, suc, zero, ◌+◌, ◌*◌, ◌/◌, ◌≤◌, ◌<◌, String, Option, none, some, Bool, true, false, not, ◌≡◌,
  refl, sym, ◌∙◌, ap, ◌==◌, ltb, leb, if◌then◌else◌, same_text_refl, same_text_sound, all_chars,
  all_chars_weaken, strip_of_none, split_at, split_at-append, Bool-cases, inl, inr, arith,
}
use appointment_voice_saas.Common.Decimal.{decimal, scan_digits}
use appointment_voice_saas.Common.Decimal.RoundTrip.{is_digit, digits-decimal, scan_digits-decimal}
use appointment_voice_saas.Errors.{Result, ok, err, value_error}
use appointment_voice_saas.Env.{Env, digit_value}
use appointment_voice_saas.PublicLinks.{
  ℤ, pos, negsuc, text_of, is_ascii, is_int_space, signed_digits, int_of, message_of, sign, expiry,
  generate_booking_token, compare_digest, three_parts, verify_parts, verify_booking_token, is_past,
}

pub reads_ascii : (env : Env) (d : ℕ) → d < 10 → digit_value env (48 + d) ≡ some d
reads_ascii env d h = ground arith

pub no_space : (ascii : Bool) (c : ℕ) → is_digit c ≡ true → not (is_int_space ascii c) ≡ true
no_space ascii c h = ground arith

pub lacks-decimal :
    (sep n : ℕ) → is_digit sep ≡ false → all_chars (λ c. not (c == sep)) (decimal n) ≡ true
lacks-decimal sep n h =
    all_chars_weaken is_digit (λ c. not (c == sep)) (decimal n) (λ c digit. ground arith)
      (digits-decimal n)

signed_digits_plain :
    (env : Env) (n : ℕ) (text : String)
    → all_chars is_digit text ≡ true
    → scan_digits (digit_value env) false 0 0 text ≡ some n
    → signed_digits env text ≡ some (pos n)
unfolding scan_digits
signed_digits_plain env n String.[] digits h = cc
signed_digits_plain env n (String.◌∷◌ c text) digits h =
    let unsigned : (code c == 45) ≡ false = ground arith in
    let no_plus : (code c == 43) ≡ false = ground arith in rw (unsigned, no_plus, h)

-- int(str(n)) is n.
pub int_of-decimal : (env : Env) (n : ℕ) → n < 10 ^ 4300 → int_of env (decimal n) ≡ some (pos n)
unfolding int_of
int_of-decimal env n fits =
    rw
      (strip_of_none (is_int_space (is_ascii (decimal n))) (decimal n) (
        all_chars_weaken is_digit _ (decimal n) (no_space (is_ascii (decimal n)))
          (digits-decimal n)))
      (signed_digits_plain env n (decimal n) (digits-decimal n)
        (scan_digits-decimal (digit_value env) (reads_ascii env) n fits))

pub dot_append : (text : String) → "." ++ text ≡ String.◌∷◌ "." text
dot_append text = rw (append.cons "." "" text, append.nil text)

three_parts_lem :
    (id exp : ℕ) (sig : String)
    → three_parts (decimal id ++ "." ++ decimal exp ++ "." ++ sig)
      ≡ some (decimal id, decimal exp, sig)
three_parts_lem id exp sig = rw (
  dot_append sig,
  dot_append (decimal exp ++ String.◌∷◌ "." sig),
  split_at-append 46 (decimal id) "." (decimal exp ++ String.◌∷◌ "." sig) refl
      (lacks-decimal 46 id refl),
  split_at-append 46 (decimal exp) "." sig refl (lacks-decimal 46 exp refl),
)

-- A token that this service made is accepted as long as it has not expired, and is then taken for
-- the booking that it was made for; after that it is refused as expired. Ids and expiry times are of
-- 4300 digits at most, as those that int() reads, and the digest is ASCII, as hexdigest() is.
pub verify_booking_token-generate_booking_token :
    (env : Env) (booking_id later : ℕ)
    → booking_id < 10 ^ 4300
    → expiry env < 10 ^ 4300
    → is_ascii (sign env (pos booking_id) (pos (expiry env))) ≡ true
    → verify_booking_token (record env { now = later }) (generate_booking_token env booking_id) ≡ (
        if ltb (expiry env * 1000000) later
        then err (value_error "Token has expired")
        else ok (pos booking_id))
unfolding verify_booking_token generate_booking_token verify_parts sign
verify_booking_token-generate_booking_token env booking_id later fits in_time ascii =
    let sig = sign env (pos booking_id) (pos (expiry env)) in
    let later_env : Env = record env { now = later } in
    rw
      (
        three_parts_lem booking_id (expiry env) sig,
        int_of-decimal later_env booking_id fits,
        int_of-decimal later_env (expiry env) in_time,
        ascii,
        same_text_refl sig,
      )
      (elim (Bool-cases (ltb (expiry env * 1000000) later)) [
        | inl past ↦ rw past
        | inr still ↦ rw still
      ])
