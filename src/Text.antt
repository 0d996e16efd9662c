-- ===== src/Text.antt =====
-- What .github/scripts/release_gate.py uses of Python's texts: UTF-8 with the error handlers
-- "replace" and "surrogateescape", and the escapes of `json.dumps`. A text is the list of its code
-- points.
use osac_test_infra.Prelude.{
  ℕ, zero, suc, ◌+◌, ◌-◌, ◌*◌, ◌/◌, ◌%◌, Bool, true, false, Option, none, some, List, [], ◌∷◌, ◌++◌,
  ◌≡◌, arith, ltb, leb, ◌==◌, ◌&&◌, ◌||◌, if◌then◌else◌, map, not, any, is_empty,
}
use osac_test_infra.Prelude.Search.{Bytes}

abbrev pub Text : Type 0
Text = List ℕ

-- A character that is not complete: the bytes that it wants, the range of the next one, the bits
-- so far, and the bytes read.
record Pending : Type 0 where
  wanted : ℕ
  low : ℕ
  high : ℕ
  bits : ℕ
  read : Bytes

abbrev idle : Pending
idle = record { wanted = 0; low = 0x80; high = 0xbf; bits = 0; read = [] }

-- What an error handler puts in the place of bytes that are no character.
abbrev Handler : Type 0
Handler = Bytes → Text

abbrev replacing : Handler
replacing bad = 0xfffd ∷ []

abbrev escaping : Handler
escaping bad = map (λ b. 0xdc00 + b) bad

abbrev wants : ℕ → ℕ → ℕ → ℕ → ℕ → Text × Pending
wants n low high bits b =
    ([], record { wanted = n; low = low; high = high; bits = bits; read = b ∷ [] })

-- The first byte of a character: what is emitted at once, and what is still wanted.
first_byte : Handler → ℕ → Text × Pending
first_byte on_bad b =
    if ltb b 0x80
    then (b ∷ [], idle)
    else if ltb b 0xc2
    then (on_bad (b ∷ []), idle)
    else if ltb b 0xe0
    then wants 1 0x80 0xbf (b % 32) b
    else if b == 0xe0
    then wants 2 0xa0 0xbf 0 b
    else if b == 0xed
    then wants 2 0x80 0x9f 13 b
    else if ltb b 0xf0
    then wants 2 0x80 0xbf (b % 16) b
    else if b == 0xf0
    then wants 3 0x90 0xbf 0 b
    else if ltb b 0xf4
    then wants 3 0x80 0xbf (b % 8) b
    else if b == 0xf4
    then wants 3 0x80 0x8f 4 b
    else (on_bad (b ∷ []), idle)

-- A byte that does not continue the character hands the part read over, and starts anew.
next_byte : Handler → Pending → ℕ → Text × Pending
unfolding first_byte
next_byte on_bad p b =
    let bits' = p.bits * 64 + b % 64 in
    if p.wanted == 0
    then first_byte on_bad b
    else if not (leb p.low b && leb b p.high)
    then (let (out, q) = first_byte on_bad b in (on_bad p.read ++ out, q))
    else if p.wanted == 1
    then (bits' ∷ [], idle)
    else (
      [],
      record {
        wanted = p.wanted - 1;
        low = 0x80;
        high = 0xbf;
        bits = bits';
        read = p.read ++ b ∷ [];
      },
    )

decode_from : Handler → Pending → Bytes → Text
unfolding next_byte
decode_from on_bad p [] = if p.wanted == 0 then [] else on_bad p.read
decode_from on_bad p (b ∷ bs) =
    let (out, q) = next_byte on_bad p b in out ++ decode_from on_bad q bs

-- data.decode(errors="replace")
unfoldable pub decode_replace : Bytes → Text
unfolding decode_from
decode_replace raw = decode_from replacing idle raw

-- data.decode("utf-8", "surrogateescape")
unfoldable pub decode_escape : Bytes → Text
unfolding decode_from
decode_escape raw = decode_from escaping idle raw

is_escaped : ℕ → Bool
is_escaped c = leb 0xdc80 c && leb c 0xdcff

-- data.decode(): no character of well-formed UTF-8 is a surrogate, so one marks a refused byte.
unfoldable pub decode_strict : Bytes → Option Text
unfolding decode_escape is_escaped
decode_strict raw = let text = decode_escape raw in if any is_escaped text then none else some text

-- A code point of `text.encode("utf-8", "surrogateescape")`; a lone surrogate that stands for no
-- byte raises.
unfoldable pub encode_char : ℕ → Option Bytes
encode_char c =
    if ltb c 0x80
    then some (c ∷ [])
    else if ltb c 0x800
    then some ((0xc0 + c / 64) ∷ (0x80 + c % 64) ∷ [])
    else if leb 0xdc80 c && leb c 0xdcff
    then some ((c - 0xdc00) ∷ [])
    else if leb 0xd800 c && leb c 0xdfff
    then none
    else if ltb c 0x10000
    then some ((0xe0 + c / 4096) ∷ (0x80 + c / 64 % 64) ∷ (0x80 + c % 64) ∷ [])
    else some
        ((0xf0 + c / 262144) ∷ (0x80 + c / 4096 % 64) ∷ (0x80 + c / 64 % 64) ∷ (0x80 + c % 64) ∷ [])

unfoldable pub join_encoded : Option Bytes → Option Bytes → Option Bytes
join_encoded (some x) (some y) = some (x ++ y)
join_encoded _ _ = none

unfoldable pub encode_text : Text → Option Bytes
unfolding encode_char join_encoded
encode_text [] = some []
encode_text (c ∷ cs) = join_encoded (encode_char c) (encode_text cs)

-- text.encode(), which has no bytes for a surrogate.
unfoldable pub encode_strict : Text → Option Bytes
unfolding encode_text
encode_strict text = if any (λ c. leb 0xd800 c && leb c 0xdfff) text then none else encode_text text

pub encode_strict-text :
    (text : Text) (b : Bytes) → encode_strict text ≡ some b → encode_text text ≡ some b
unfolding encode_strict
encode_strict-text text b h = ground arith

-- Code points compared one after another, as Python orders texts.
unfoldable pub text_lt : Text → Text → Bool
text_lt [] [] = false
text_lt [] (d ∷ ds) = true
text_lt (c ∷ cs) [] = false
text_lt (c ∷ cs) (d ∷ ds) = ltb c d || c == d && text_lt cs ds

unfoldable pub insert_text : Text → List Text → List Text
unfolding text_lt
insert_text t [] = t ∷ []
insert_text t (u ∷ us) =
    let later = u ∷ insert_text t us in
    if text_lt t u then t ∷ u ∷ us else if text_lt u t then later else u ∷ us

-- sorted(set(texts))
unfoldable pub sorted_set : List Text → List Text
unfolding insert_text
sorted_set [] = []
sorted_set (t ∷ ts) = insert_text t (sorted_set ts)

-- The white space of `str.split` and `str.lstrip`.
unfoldable pub is_space : ℕ → Bool
is_space c =
    leb 9 c && leb c 13
    || leb 28 c && leb c 32
    || c == 133
    || c == 160
    || c == 5760
    || leb 8192 c && leb c 8202
    || c == 8232
    || c == 8233
    || c == 8239
    || c == 8287
    || c == 12288

-- The words before and after a character is put in front: `word` is the one being read.
unfoldable pub split_scan : Text → Text → List Text
unfolding is_space
split_scan word [] = if is_empty word then [] else word ∷ []
split_scan word (c ∷ cs) =
    let inside = split_scan (word ++ c ∷ []) cs in
    let ended = word ∷ split_scan [] cs in
    let skipped = split_scan [] cs in
    if not (is_space c) then inside else if is_empty word then skipped else ended

-- text.split()
unfoldable pub split_words : Text → List Text
unfolding split_scan
split_words text = split_scan [] text

-- text.lstrip()
unfoldable pub left_strip : Text → Text
unfolding is_space
left_strip [] = []
left_strip (c ∷ cs) = if is_space c then left_strip cs else c ∷ cs

-- The part behind the first colon, if there is one: text.partition(":").
unfoldable pub after_colon : Text → Option Text
after_colon [] = none
after_colon (c ∷ cs) = if c == b':' then some cs else after_colon cs

-- ASCII letters are lowered.
lower_char : ℕ → ℕ
lower_char c = if leb 65 c && leb c 90 then c + 32 else c

unfoldable pub lower : Text → Text
unfolding lower_char
lower text = map lower_char text

decimal_scan : ℕ → ℕ → Text
decimal_scan zero n = []
decimal_scan (suc fuel) n =
    let more = decimal_scan fuel (n / 10) in
    if ltb n 10 then (n + 48) ∷ [] else more ++ (n % 10 + 48) ∷ []

-- str(n): a number has at most n + 1 digits.
unfoldable pub decimal : ℕ → Text
unfolding decimal_scan
decimal n = decimal_scan (suc n) n

hex_digit : ℕ → ℕ
hex_digit d = if ltb d 10 then d + 48 else d + 87

-- \uXXXX
u_escape : ℕ → Bytes
unfolding hex_digit
u_escape n =
    92
    ∷ b'u'
    ∷ hex_digit (n / 4096 % 16)
    ∷ hex_digit (n / 256 % 16)
    ∷ hex_digit (n / 16 % 16)
    ∷ hex_digit (n % 16)
    ∷ []

escape_char : ℕ → Bytes
unfolding u_escape
escape_char c =
    if c == 34
    then 92 ∷ 34 ∷ []
    else if c == 92
    then 92 ∷ 92 ∷ []
    else if c == 10
    then 92 ∷ b'n' ∷ []
    else if c == 13
    then 92 ∷ b'r' ∷ []
    else if c == 9
    then 92 ∷ b't' ∷ []
    else if c == 12
    then 92 ∷ b'f' ∷ []
    else if c == 8
    then 92 ∷ b'b' ∷ []
    else if leb 32 c && leb c 126
    then c ∷ []
    else if ltb c 0x10000
    then u_escape c
    else u_escape (0xd800 + (c - 0x10000) / 1024) ++ u_escape (0xdc00 + (c - 0x10000) % 1024)

-- json.dumps(text)[1:-1].encode(): the escapes are ASCII.
unfoldable pub json_escape : Text → Bytes
unfolding escape_char
json_escape [] = []
json_escape (c ∷ cs) = escape_char c ++ json_escape cs
