-- ===== src/Common/Decimal/RoundTrip.antt =====
-- The text of a number, and what it is read back as.
use Prim.Native.Nat.{ℕ, zero, suc, ◌+◌, ◌*◌, ◌/◌, ◌%◌, ◌^◌, ◌≤◌, ◌<◌}
use Prim.Native.String.{String}
use mathlib.Core.Path.{◌≡◌, refl, ◌∙◌}
use mathlib.Core.Logic.{inl, inr}
use mathlib.Core.Bool.{Bool, true, false, ◌&&◌}
use mathlib.Core.Option.{Option, some}
use native.Mathlib.Omega.{arith}
use appointment_voice_saas.Common.Tests.{◌==◌, leb, Bool-cases}
use appointment_voice_saas.Common.Texts.{all_chars}
use appointment_voice_saas.Common.Decimal.{digit_char, emit, decimal, scan_digits}

digit_count : ℕ → ℕ → ℕ
digit_count zero n = 0
digit_count (suc fuel) n = elim (n == 0) [ true ↦ 0 | false ↦ digit_count fuel (n / 10) + 1 ]

digit_count_zero : (fuel : ℕ) → digit_count fuel 0 ≡ 0
unfolding digit_count
digit_count_zero zero = refl
digit_count_zero (suc fuel) = refl

digit_count_le : (fuel n k : ℕ) → n < 10 ^ k → digit_count fuel n ≤ k
unfolding digit_count
digit_count_le zero n k h = omega arith
digit_count_le (suc fuel) n zero h = let e : n ≡ 0 = omega arith in rw e (omega arith)
digit_count_le (suc fuel) n (suc k) h = elim (Bool-cases (n == 0)) [
  | inl none_left ↦ rw (digit_count, none_left) (omega arith)
  | inr more ↦
      let below : n / 10 < 10 ^ k = omega arith in
      rw (digit_count, more) (omega (arith, digit_count_le fuel (n / 10) k below))
]

emit_zero : (fuel : ℕ) (text : String) → emit fuel 0 text ≡ text
unfolding emit
emit_zero zero text = refl
emit_zero (suc fuel) text = refl

module _ (digit_value : ℕ → Option ℕ)
    (reads : (d : ℕ) → d < 10 → digit_value (48 + d) ≡ some d) where
  scan_digit :
      (after_digit : Bool) (value count n : ℕ) (text : String)
      → scan_digits digit_value after_digit value count (String.◌∷◌ (digit_char n) text)
        ≡ scan_digits digit_value true (value * 10 + n % 10) (count + 1) text
  unfolding scan_digits digit_char
  scan_digit after_digit value count n text =
      let other : ((48 + n % 10) == 95) ≡ false = ground arith in
      rw (scan_digits, other, reads (n % 10) (omega arith))

  scan-emit :
      (fuel n : ℕ) (text : String)
      → 0 < n
      → n ≤ fuel
      → scan_digits digit_value false 0 0 (emit fuel n text)
        ≡ scan_digits digit_value true n (digit_count fuel n) text
  unfolding emit digit_count
  scan-emit zero n text h fits = absurd (omega arith)
  scan-emit (suc fuel) n text h fits =
      let more : (n == 0) ≡ false = ground arith in
      rw (emit, digit_count, more)
        (elim (Bool-cases (n / 10 == 0)) [
          | inl last ↦
              let e : n / 10 ≡ 0 = ground arith in
              let only : 0 * 10 + n % 10 ≡ n = omega arith in
              rw (e, emit_zero fuel, digit_count_zero fuel) (scan_digit false 0 0 n text ∙ rw only)
          | inr before ↦
              let whole : n / 10 * 10 + n % 10 ≡ n = omega arith in
              let some_left : 0 < n / 10 = ground arith in
              scan-emit fuel (n / 10) (String.◌∷◌ (digit_char n) text) some_left (omega arith)
              ∙ scan_digit true (n / 10) (digit_count fuel (n / 10)) n text
              ∙ rw whole
        ])

  -- What decimal(n) prints is read back as n, where it is of 4300 digits at most.
  pub scan_digits-decimal :
      (n : ℕ) → n < 10 ^ 4300 → scan_digits digit_value false 0 0 (decimal n) ≡ some n
  unfolding decimal scan_digits
  scan_digits-decimal n fits = elim (Bool-cases (n == 0)) [
    | inl nothing ↦ let e : n ≡ 0 = ground arith in rw (e, scan_digits, reads 0 (omega arith))
    | inr more ↦
        let some_left : 0 < n = ground arith in
        let short : leb (digit_count n n) 4300 ≡ true =
          ground (arith, digit_count_le n n 4300 fits) in
        rw (decimal, more)
          (scan-emit n n String.[] some_left (omega arith) ∙ rw (scan_digits, short))
  ]

abbrev pub is_digit : ℕ → Bool
is_digit c = leb 48 c && leb c 57

digits-emit :
    (fuel n : ℕ) (text : String)
    → all_chars is_digit text ≡ true
    → all_chars is_digit (emit fuel n text) ≡ true
unfolding emit digit_char
digits-emit zero n text h = h
digits-emit (suc fuel) n text h = elim (Bool-cases (n == 0)) [
  | inl last ↦ rw (emit, last) h
  | inr more ↦ rw (emit, more) (digits-emit fuel (n / 10) (String.◌∷◌ (digit_char n) text) one_more)
]
  where
    one_more : all_chars is_digit (String.◌∷◌ (digit_char n) text) ≡ true
    one_more = ground (arith, h)

pub digits-decimal : (n : ℕ) → all_chars is_digit (decimal n) ≡ true
unfolding decimal
digits-decimal n = elim (Bool-cases (n == 0)) [
  | inl nothing ↦ rw (decimal, nothing)
  | inr more ↦ rw (decimal, more) (digits-emit n n String.[] refl)
]
