-- ===== src/ReleaseGate/Base64.antt =====
-- Base64 as Python's standard library has it: `base64.b64encode`, `urlsafe_b64encode`, and
-- `b64decode(..., validate=True)` behind `_decode_b64` of .github/scripts/release_gate.py.
pub mod Middle
pub mod RoundTrip
use osac_test_infra.Prelude.{
  ℕ, zero, suc, ◌+◌, ◌-◌, ◌*◌, ◌/◌, ◌%◌, Bool, true, false, Option, none, some, List, [], ◌∷◌, ◌++◌,
  ltb, leb, ◌==◌, ◌&&◌, if◌then◌else◌, length, replicate,
}
use osac_test_infra.Prelude.Search.{Bytes}

-- The two alphabets differ in their last two characters.
pub data Alphabet : Type 0 where
  standard url_safe : Alphabet

abbrev pub last_two : Alphabet → ℕ × ℕ
last_two standard = (b'+', b'/')
last_two url_safe = (b'-', b'_')

-- The character of a six-bit digit.
unfoldable pub char_of : Alphabet → ℕ → ℕ
char_of al d =
    if ltb d 26
    then d + 65
    else if ltb d 52
    then d + 71
    else if ltb d 62
    then d - 4
    else if d == 62
    then (last_two al).0
    else (last_two al).1

unfoldable pub encode : Alphabet → Bytes → Bytes
unfolding char_of
encode al [] = []
encode al (a ∷ []) = char_of al (a / 4) ∷ char_of al (a % 4 * 16) ∷ b'=' ∷ b'=' ∷ []
encode al (a ∷ b ∷ []) =
    char_of al (a / 4) ∷ char_of al (a % 4 * 16 + b / 16) ∷ char_of al (b % 16 * 4) ∷ b'=' ∷ []
encode al (a ∷ b ∷ c ∷ rest) =
    char_of al (a / 4)
    ∷ char_of al (a % 4 * 16 + b / 16)
    ∷ char_of al (b % 16 * 4 + c / 64)
    ∷ char_of al (c % 64)
    ∷ encode al rest

-- The digit of a character of the standard alphabet.
unfoldable pub digit_of : ℕ → Option ℕ
digit_of c =
    if leb 65 c && leb c 90
    then some (c - 65)
    else if leb 97 c && leb c 122
    then some (c - 71)
    else if leb 48 c && leb c 57
    then some (c + 4)
    else if c == b'+'
    then some 62
    else if c == b'/'
    then some 63
    else none

infixl 5 ◌>>=◌
abbrev ◌>>=◌ {ℓ κ} : {A : Type ℓ} {B : Type κ} → Option A → (A → Option B) → Option B
none >>= f = none
some a >>= f = f a

-- One group of four characters that is not padded.
unfoldable pub decode_group : ℕ → ℕ → ℕ → ℕ → Option Bytes
unfolding digit_of
decode_group a b c d = do
  p ← digit_of a
  q ← digit_of b
  r ← digit_of c
  s ← digit_of d
  some ((p * 4 + q / 16) ∷ (q % 16 * 16 + r / 4) ∷ (r % 4 * 64 + s) ∷ [])

-- The last group, which may be padded by one or two equals signs.
unfoldable pub decode_last : ℕ → ℕ → ℕ → ℕ → Option Bytes
unfolding decode_group
decode_last a b c d =
    if c == b'=' && d == b'='
    then (do p ← digit_of a; q ← digit_of b; some ((p * 4 + q / 16) ∷ []))
    else if d == b'='
    then (do
      p ← digit_of a
      q ← digit_of b
      r ← digit_of c
      some ((p * 4 + q / 16) ∷ (q % 16 * 16 + r / 4) ∷ []))
    else decode_group a b c d

-- Whether there is nothing but equals signs, which the decoder passes over behind whole groups (so
-- does that of Python 3.11).
unfoldable pub is_padding : Bytes → Bool
is_padding [] = true
is_padding (x ∷ xs) = x == b'=' && is_padding xs

-- A character outside the alphabet, misplaced padding or a length that is no multiple of four is
-- refused.
unfoldable pub decode : Bytes → Option Bytes
unfolding decode_last is_padding
decode [] = some []
decode (a ∷ b ∷ c ∷ d ∷ []) = decode_last a b c d
decode (a ∷ b ∷ c ∷ d ∷ e ∷ rest) =
    let later = decode (e ∷ rest) in
    let tail = if is_padding (e ∷ rest) then some [] else later in
    do g ← decode_group a b c d; r ← tail; some (g ++ r)
decode _ = none

-- _decode_b64: the text is padded to a multiple of four, and `none` stands for a refusal.
unfoldable pub decode_b64 : Bytes → Option Bytes
unfolding decode
decode_b64 text = decode (text ++ replicate ((4 - length text % 4) % 4) b'=')
