-- ===== src/PublicLinks/Tokens/Genuine.antt =====
-- Tokens that are accepted, and the messages under their digests.
use Prim.Native.Nat.{◌^◌}
use Prim.Native.String.{◌++◌}
use Prim.Native.String.append
use appointment_voice_saas.Common.{
  suc, ◌<◌, String, Option, some, Bool, true, false, not, ◌&&◌, ◌≡◌, refl, sym, ◌∙◌, ap, ◌==◌,
  same_text, same_text_sound, all_chars, all_chars_weaken, strip_of_none, split_at, split_at-append,
  Bool-cases, inl, inr, arith,
}
use appointment_voice_saas.Common.Decimal.{decimal}
use appointment_voice_saas.Common.Decimal.RoundTrip.{is_digit, digits-decimal, scan_digits-decimal}
use appointment_voice_saas.Errors.{
  ok, err, type_error, or_raise, require_that, bind_ok, require_that_ok, or_raise_ok,
}
use appointment_voice_saas.Env.{Env, digit_value}
use appointment_voice_saas.PublicLinks.{
  ℤ, pos, negsuc, text_of, is_ascii, is_int_space, int_of, message_of, sign, compare_digest,
  three_parts, verify_parts, verify_booking_token, is_past,
}
use appointment_voice_saas.PublicLinks.Tokens.{reads_ascii, no_space, lacks-decimal, int_of-decimal}

-- The token names the booking and a time that has not passed, and carries the digest of the two.
pub record Genuine (env : Env) (token : String) (booking_id : ℤ) : Type 0 where
  pub raw_id : String
  pub raw_exp : String
  pub exp_unix : ℤ
  pub parts : three_parts token ≡ some (raw_id, raw_exp, sign env booking_id exp_unix)
  pub its_id : int_of env raw_id ≡ some booking_id
  pub its_exp : int_of env raw_exp ≡ some exp_unix
  pub in_time : is_past env exp_unix ≡ false

digest_same : (a b : String) → compare_digest a b ≡ ok true → a ≡ b
digest_same a b h = elim (Bool-cases (is_ascii a && is_ascii b)) [
  | inl plain ↦
      let same : ok (same_text a b) ≡ ok true = rw plain at h in same_text_sound a b (value same)
  | inr wide ↦ let raised : err type_error ≡ ok true = rw wide at h in absurd (clash raised)
]
  where
    value : {t : Bool} → ok t ≡ ok true → t ≡ true
    value e = cc

    clash : err type_error ≡ ok true → ⊥
    clash e = cc

verify_parts_sound :
    (env : Env) (booking_id exp_unix found : ℤ) (sig : String)
    → verify_parts env booking_id exp_unix sig ≡ ok found
    → (sign env booking_id exp_unix ≡ sig) × (is_past env exp_unix ≡ false) × (booking_id ≡ found)
unfolding verify_parts
verify_parts_sound env booking_id exp_unix found sig h =
    let (genuine, compared, rest) =
      bind_ok (compare_digest (sign env booking_id exp_unix) sig) _ found h in
    let (done, required, later) = bind_ok (require_that genuine _) _ found rest in
    let (done', in_time, last) =
      bind_ok (require_that (not (is_past env exp_unix)) _) _ found later in
    let accepted : genuine ≡ true = require_that_ok genuine _ done required in
    let kept : not (is_past env exp_unix) ≡ true = require_that_ok _ _ done' in_time in
    (
      digest_same (sign env booking_id exp_unix) sig (compared ∙ ap (λ (t : Bool). ok t) accepted),
      ground (arith, kept),
      same last,
    )
  where
    same : {a : ℤ} → ok a ≡ ok found → a ≡ found
    same e = cc

Genuine-parts :
    (env : Env) (token raw_id raw_exp sig : String) (id exp_unix booking_id : ℤ)
    → three_parts token ≡ some (raw_id, raw_exp, sig)
    → int_of env raw_id ≡ some id
    → int_of env raw_exp ≡ some exp_unix
    → (sign env id exp_unix ≡ sig) × (is_past env exp_unix ≡ false) × (id ≡ booking_id)
    → Genuine env token booking_id
Genuine-parts env token raw_id raw_exp sig id exp_unix booking_id split named timed
      (signed, in_time, same) =
    record {
      raw_id = raw_id;
      raw_exp = raw_exp;
      exp_unix = exp_unix;
      parts = rw (← same, signed) split;
      its_id = rw (← same) named;
      its_exp = timed;
      in_time = in_time;
    }

-- A token that is accepted for a booking names that booking and a time that has not passed, and
-- carries the digest, under the signing key, of the message of the two.
pub verify_booking_token-Genuine :
    (env : Env) (token : String) (booking_id : ℤ)
    → verify_booking_token env token ≡ ok booking_id
    → Genuine env token booking_id
unfolding verify_booking_token
verify_booking_token-Genuine env token booking_id h =
    let (parts, split, h₁) = bind_ok (or_raise (three_parts token) _) _ booking_id h in
    let (id, named, h₂) = bind_ok (or_raise (int_of env parts.0) _) _ booking_id h₁ in
    let (exp_unix, timed, h₃) = bind_ok (or_raise (int_of env parts.1) _) _ booking_id h₂ in
    Genuine-parts env token parts.0 parts.1 parts.2 id exp_unix booking_id (or_raise_ok _ _ _ split)
      (or_raise_ok _ _ _ named) (or_raise_ok _ _ _ timed)
      (verify_parts_sound env id exp_unix booking_id parts.2 h₃)

-- Integers that str() and int() take: of 4300 digits at most.
abbrev pub IsPrintable : ℤ → Type 0
IsPrintable (pos n) = n < 10 ^ 4300
IsPrintable (negsuc n) = suc n < 10 ^ 4300

dash_first :
    (ascii : Bool) (text : String)
    → all_chars (λ c. not (is_int_space ascii c)) text ≡ true
    → all_chars (λ c. not (is_int_space ascii c)) (String.◌∷◌ "-" text) ≡ true
dash_first true text h = h
dash_first false text h = h

int_of-text_of : (env : Env) (z : ℤ) → IsPrintable z → int_of env (text_of z) ≡ some z
unfolding int_of
int_of-text_of env (pos n) fits = int_of-decimal env n fits
int_of-text_of env (negsuc n) fits =
    let text : String = String.◌∷◌ "-" (decimal (suc n)) in
    let plain : all_chars (λ c. not (is_int_space (is_ascii text) c)) text ≡ true =
      dash_first (is_ascii text) (decimal (suc n)) (
        all_chars_weaken is_digit _ (decimal (suc n)) (no_space (is_ascii text))
          (digits-decimal (suc n))) in
    rw (
      strip_of_none (is_int_space (is_ascii text)) text plain,
      scan_digits-decimal (digit_value env) (reads_ascii env) (suc n) fits,
    )

lacks-text_of : (z : ℤ) → all_chars (λ c. not (c == 58)) (text_of z) ≡ true
lacks-text_of (pos n) = lacks-decimal 58 n refl
lacks-text_of (negsuc n) = lacks-decimal 58 (suc n) refl

colon_append : (text : String) → ":" ++ text ≡ String.◌∷◌ ":" text
colon_append text = rw (append.cons ":" "" text, append.nil text)

message_parts : (a b : ℤ) → split_at 58 (message_of a b) ≡ some (text_of a, text_of b)
unfolding message_of
message_parts a b = rw (
  colon_append (text_of b),
  split_at-append 58 (text_of a) ":" (text_of b) refl (lacks-text_of a),
)

-- The message that is signed is that of one booking id and one expiry time, where they are of 4300
-- digits at most: no digest is good for two of them.
pub message_of-Injective :
    (env : Env) (a b c d : ℤ)
    → IsPrintable a
    → IsPrintable b
    → IsPrintable c
    → IsPrintable d
    → message_of a b ≡ message_of c d
    → (a ≡ c) × (b ≡ d)
message_of-Injective env a b c d ha hb hc hd same =
    let parts : ◌≡◌ {A = Option (String × String)} (some (text_of a, text_of b))
        (some (text_of c, text_of d)) =
      sym (message_parts a b) ∙ ap (split_at 58) same ∙ message_parts c d in
    let texts = unpair parts in
    (
      unsome (sym (int_of-text_of env a ha) ∙ ap (int_of env) texts.0 ∙ int_of-text_of env c hc),
      unsome (sym (int_of-text_of env b hb) ∙ ap (int_of env) texts.1 ∙ int_of-text_of env d hd),
    )
  where
    unpair :
        {s t u v : String}
        → ◌≡◌ {A = Option (String × String)} (some (s, t)) (some (u, v))
        → (s ≡ u) × (t ≡ v)
    unpair e = (cc, cc)

    unsome : {x y : ℤ} → some x ≡ some y → x ≡ y
    unsome e = cc
