-- ===== src/ReleaseGate/Base64/RoundTrip.antt =====
-- What is encoded in the standard alphabet decodes to itself.
use osac_test_infra.Prelude.{
  ℕ, ◌+◌, ◌*◌, ◌/◌, ◌%◌, ◌<◌, ◌≤◌, ◌≡◌, refl, ◌∙◌, false, some, [], ◌∷◌, ◌++◌, arith, length, All,
  ◌==◌,
}
use osac_test_infra.Prelude.Search.{Bytes}
use osac_test_infra.ReleaseGate.Base64.Middle.{length-encode}
use osac_test_infra.ReleaseGate.Base64.{
  is_padding, standard, char_of, encode, digit_of, decode_group, decode_last, decode,
}

digit_of-char_of : (d : ℕ) → d < 64 → digit_of (char_of standard d) ≡ some d
unfolding digit_of char_of
digit_of-char_of d h = ground arith

char_of-ne_equals : (d : ℕ) → d < 64 → (char_of standard d == b'=') ≡ false
unfolding char_of
char_of-ne_equals d h = ground arith

same_one : {a x : ℕ} → x ≡ a → some (x ∷ []) ≡ some (a ∷ [])
same_one p = cc

same_two : {a b x y : ℕ} → x ≡ a → y ≡ b → some (x ∷ y ∷ []) ≡ some (a ∷ b ∷ [])
same_two p q = cc

same_three :
    {a b c x y z : ℕ} → x ≡ a → y ≡ b → z ≡ c → some (x ∷ y ∷ z ∷ []) ≡ some (a ∷ b ∷ c ∷ [])
same_three p q r = cc

decode_group-char_of :
    (a b c : ℕ)
    → a < 256
    → b < 256
    → c < 256
    → decode_group
        (char_of standard (a / 4))
        (char_of standard (a % 4 * 16 + b / 16))
        (char_of standard (b % 16 * 4 + c / 64))
        (char_of standard (c % 64))
      ≡ some (a ∷ b ∷ c ∷ [])
unfolding decode_group
decode_group-char_of a b c ha hb hc =
    rw
      (
        digit_of-char_of (a / 4) (omega arith),
        digit_of-char_of (a % 4 * 16 + b / 16) (omega arith),
        digit_of-char_of (b % 16 * 4 + c / 64) (omega arith),
        digit_of-char_of (c % 64) (omega arith),
      )
      (same_three (omega arith) (omega arith) (omega arith))

decode_last_whole :
    (p q r d : ℕ)
    → d < 64
    → decode_last p q r (char_of standard d) ≡ decode_group p q r (char_of standard d)
unfolding decode_last
decode_last_whole p q r d h = ground (arith, char_of-ne_equals d h)

decode-more :
    (a b c d : ℕ) (s g r : Bytes)
    → 4 ≤ length s
    → is_padding s ≡ false
    → decode_group a b c d ≡ some g
    → decode s ≡ some r
    → decode (a ∷ b ∷ c ∷ d ∷ s) ≡ some (g ++ r)
unfolding decode
decode-more a b c d [] g r h n hg hr = absurd (omega arith)
decode-more a b c d (e ∷ s) g r h n hg hr = rw (hg, n, hr) refl

decode_one : (a : ℕ) → a < 256 → decode (encode standard (a ∷ [])) ≡ some (a ∷ [])
unfolding decode encode decode_last
decode_one a h =
    rw (digit_of-char_of (a / 4) (omega arith), digit_of-char_of (a % 4 * 16) (omega arith))
      (same_one (omega arith))

decode_two :
    (a b : ℕ) → a < 256 → b < 256 → decode (encode standard (a ∷ b ∷ [])) ≡ some (a ∷ b ∷ [])
unfolding decode encode decode_last
decode_two a b h k =
    rw
      (
        char_of-ne_equals (b % 16 * 4) (omega arith),
        digit_of-char_of (a / 4) (omega arith),
        digit_of-char_of (a % 4 * 16 + b / 16) (omega arith),
        digit_of-char_of (b % 16 * 4) (omega arith),
      )
      (same_two (omega arith) (omega arith))

decode_three :
    (a b c : ℕ)
    → a < 256
    → b < 256
    → c < 256
    → decode (encode standard (a ∷ b ∷ c ∷ [])) ≡ some (a ∷ b ∷ c ∷ [])
unfolding decode encode
decode_three a b c ha hb hc =
    decode_last_whole (char_of standard (a / 4)) (char_of standard (a % 4 * 16 + b / 16))
      (char_of standard (b % 16 * 4 + c / 64)) (c % 64) (omega arith)
    ∙ decode_group-char_of a b c ha hb hc

encode-no_padding :
    (d : ℕ) (rest : Bytes) → d < 256 → is_padding (encode standard (d ∷ rest)) ≡ false
unfolding encode is_padding
encode-no_padding d [] h = rw (char_of-ne_equals (d / 4) (omega arith)) refl
encode-no_padding d (b ∷ []) h = rw (char_of-ne_equals (d / 4) (omega arith)) refl
encode-no_padding d (b ∷ c ∷ []) h = rw (char_of-ne_equals (d / 4) (omega arith)) refl
encode-no_padding d (b ∷ c ∷ e ∷ rest) h = rw (char_of-ne_equals (d / 4) (omega arith)) refl

decode_nil : decode [] ≡ some []
unfolding decode
decode_nil = refl

-- Bytes encoded in the standard alphabet decode to themselves.
pub decode-encode : (xs : Bytes) → All (λ b. b < 256) xs → decode (encode standard xs) ≡ some xs
unfolding encode
decode-encode [] h = decode_nil
decode-encode (a ∷ []) h = decode_one a h.0
decode-encode (a ∷ b ∷ []) h = decode_two a b h.0 h.1.0
decode-encode (a ∷ b ∷ c ∷ []) h = decode_three a b c h.0 h.1.0 h.1.1.0
decode-encode (a ∷ b ∷ c ∷ d ∷ rest) h =
    decode-more _ _ _ _ (encode standard (d ∷ rest)) (a ∷ b ∷ c ∷ []) (d ∷ rest)
      (length-encode standard d rest) (encode-no_padding d rest (h.1.1.1.0))
      (decode_group-char_of a b c h.0 h.1.0 h.1.1.0) (decode-encode (d ∷ rest) h.1.1.1)
