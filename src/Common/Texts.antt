-- ===== src/Common/Texts.antt =====
-- Texts: their comparison, their characters, slices and str.strip().
use Prim.Native.Char.{Char, code}
use Prim.Native.Nat.{ℕ, zero, suc}
use Prim.Native.String.{String, ◌++◌}
use Prim.Native.String.append
use mathlib.Core.Path.{◌≡◌, refl}
use mathlib.Core.Bool.{Bool, true, false, not, ◌&&◌, ◌||◌}
use mathlib.Core.Option.{Option, none, some}
use native.Mathlib.Omega.{arith}
use text.Mathlib.TextEquality.{Char-path}
use appointment_voice_saas.Common.Tests.{◌==◌, leb, if◌then◌else◌}

abbrev pub same_text : String → String → Bool
same_text String.[] String.[] = true
same_text String.[] (String.◌∷◌ d t) = false
same_text (String.◌∷◌ c s) String.[] = false
same_text (String.◌∷◌ c s) (String.◌∷◌ d t) = code c == code d && same_text s t

-- text[:n]
abbrev pub prefix_of : ℕ → String → String
prefix_of zero text = String.[]
prefix_of (suc n) String.[] = String.[]
prefix_of (suc n) (String.◌∷◌ c text) = String.◌∷◌ c (prefix_of n text)

pub same_text_refl : (s : String) → same_text s s ≡ true
same_text_refl String.[] = refl
same_text_refl (String.◌∷◌ c s) = ground (arith, same_text_refl s)

abbrev pub all_chars : (ℕ → Bool) → String → Bool
all_chars p String.[] = true
all_chars p (String.◌∷◌ c text) = p (code c) && all_chars p text

-- The characters that str.strip() removes.
abbrev pub is_space : ℕ → Bool
is_space c =
    leb 9 c && leb c 13
    || leb 28 c && leb c 32
    || c == 133
    || c == 160
    || c == 5760
    || leb 8192 c && leb c 8202
    || leb 8232 c && leb c 8233
    || c == 8239
    || c == 8287
    || c == 12288

-- `not text.strip()`
abbrev pub is_blank : String → Bool
is_blank text = all_chars is_space text

abbrev pub strip_left : (ℕ → Bool) → String → String
strip_left p String.[] = String.[]
strip_left p (String.◌∷◌ c text) =
    let rest = strip_left p text in if p (code c) then rest else String.◌∷◌ c text

abbrev keep : (ℕ → Bool) → Char → String → String
keep p c String.[] = if p (code c) then String.[] else String.◌∷◌ c String.[]
keep p c (String.◌∷◌ d text) = String.◌∷◌ c (String.◌∷◌ d text)

abbrev pub strip_right : (ℕ → Bool) → String → String
strip_right p String.[] = String.[]
strip_right p (String.◌∷◌ c text) = keep p c (strip_right p text)

abbrev pub strip_of : (ℕ → Bool) → String → String
strip_of p text = strip_right p (strip_left p text)

pub same_text_sound : (s t : String) → same_text s t ≡ true → s ≡ t
same_text_sound String.[] String.[] h = refl
same_text_sound String.[] (String.◌∷◌ d t) h = cc
same_text_sound (String.◌∷◌ c s) String.[] h = cc
same_text_sound (String.◌∷◌ c s) (String.◌∷◌ d t) h =
    let heads : code c ≡ code d = ground arith in
    let tails : same_text s t ≡ true = ground arith in
    rw (Char-path c d heads, same_text_sound s t tails)

strip_right_none :
    (p : ℕ → Bool) (text : String)
    → all_chars (λ c. not (p c)) text ≡ true
    → strip_right p text ≡ text
strip_right_none p String.[] h = refl
strip_right_none p (String.◌∷◌ c text) h =
    let here : p (code c) ≡ false = ground arith in
    let later : all_chars (λ c. not (p c)) text ≡ true = ground arith in
    rw (strip_right_none p text later) (kept here text)
  where
    kept : p (code c) ≡ false → (rest : String) → keep p c rest ≡ String.◌∷◌ c rest
    kept here String.[] = rw here
    kept here (String.◌∷◌ d rest) = refl

-- A text without such characters is left as it is.
pub strip_of_none :
    (p : ℕ → Bool) (text : String) → all_chars (λ c. not (p c)) text ≡ true → strip_of p text ≡ text
strip_of_none p String.[] h = refl
strip_of_none p (String.◌∷◌ c text) h =
    let here : p (code c) ≡ false = ground arith in
    rw here (strip_right_none p (String.◌∷◌ c text) h)

pub all_chars_weaken :
    (p q : ℕ → Bool) (text : String)
    → ((c : ℕ) → p c ≡ true → q c ≡ true)
    → all_chars p text ≡ true
    → all_chars q text ≡ true
all_chars_weaken p q String.[] weaker h = refl
all_chars_weaken p q (String.◌∷◌ c text) weaker h =
    let here : p (code c) ≡ true = ground arith in
    let later : all_chars p text ≡ true = ground arith in
    rw (weaker (code c) here) (all_chars_weaken p q text weaker later)

-- What stands before the first character of this code, and what behind it.
abbrev pub split_at : ℕ → String → Option (String × String)
split_at sep String.[] = none
split_at sep (String.◌∷◌ c text) =
    let rest = split_at sep text in
    if code c == sep then some (String.[], text) else put_before rest
  where
    put_before : Option (String × String) → Option (String × String)
    put_before none = none
    put_before (some (before, behind)) = some (String.◌∷◌ c before, behind)

pub split_at-append :
    (sep : ℕ) (a : String) (c : Char) (b : String)
    → code c ≡ sep
    → all_chars (λ d. not (d == sep)) a ≡ true
    → split_at sep (a ++ String.◌∷◌ c b) ≡ some (a, b)
split_at-append sep String.[] c b here h =
    let it : (code c == sep) ≡ true = ground arith in rw (append.nil (String.◌∷◌ c b), it)
split_at-append sep (String.◌∷◌ d a) c b here h =
    let other : (code d == sep) ≡ false = ground arith in
    let later : all_chars (λ e. not (e == sep)) a ≡ true = ground arith in
    rw (append.cons d a (String.◌∷◌ c b), other, split_at-append sep a c b here later)
