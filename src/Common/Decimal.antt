-- ===== src/Common/Decimal.antt =====
-- Numbers as text: str(n) of a native number, and the digits that int(text) reads.
pub mod RoundTrip
use Prim.Native.Char.{Char, char, code, IsScalar}
use Prim.Native.Nat.{ℕ, zero, suc, ◌+◌, ◌-◌, ◌*◌, ◌/◌, ◌%◌, ◌<◌}
use Prim.Native.String.{String}
use mathlib.Core.Bool.{Bool, true, false, ◌&&◌}
use mathlib.Core.Path.{◌≡◌, refl}
use mathlib.Core.Option.{Option, none, some}
use native.Mathlib.Omega.{arith}
use appointment_voice_saas.Common.Tests.{◌==◌, leb, ltb, if◌then◌else◌}

pub IsScalar-digit : (n : ℕ) → IsScalar (48 + n % 10)
IsScalar-digit n = small (48 + n % 10) (omega arith)
  where
    small : (m : ℕ) → m < 58 → IsScalar m
    small m h = ground arith

-- The last digit.
unfoldable pub digit_char : ℕ → Char
digit_char n = char (48 + n % 10) (IsScalar-digit n)

-- The digits of a number, before a text. A number has no more digits than it counts, so that the
-- number itself is enough fuel.
unfoldable pub emit : ℕ → ℕ → String → String
emit zero n text = text
emit (suc fuel) n text = elim (n == 0) [
  | true ↦ text
  | false ↦ emit fuel (n / 10) (String.◌∷◌ (digit_char n) text)
]

-- str(n)
unfoldable pub decimal : ℕ → String
unfolding emit
decimal n = elim (n == 0) [ true ↦ "0" | false ↦ emit n n String.[] ]

-- What int(text) reads behind the sign: digits, of the values that `digit_value` gives, with single
-- underscores between them, at most 4300 of them. `value` and `count` are of the digits before, and
-- `after_digit` is whether the last character was one.
unfoldable pub scan_digits : (ℕ → Option ℕ) → Bool → ℕ → ℕ → String → Option ℕ
scan_digits digit_value after_digit value count String.[] =
    if after_digit && leb count 4300 then some value else none
scan_digits digit_value after_digit value count (String.◌∷◌ c text) = elim (code c == 95) [
  | true ↦ if after_digit then scan_digits digit_value false value count text else none
  | false ↦ elim (digit_value (code c)) [
    | none ↦ none
    | some d ↦ scan_digits digit_value true (value * 10 + d) (count + 1) text
  ]
]

abbrev pub ascii_digit : ℕ → Option ℕ
ascii_digit c = if leb 48 c && leb c 57 then some (c - 48) else none

decimal_of_some : decimal 1753920000 ≡ "1753920000"
unfolding decimal digit_char
decimal_of_some = refl

scan_of_some : scan_digits ascii_digit false 0 0 "1_753" ≡ some 1753
unfolding scan_digits
scan_of_some = refl
