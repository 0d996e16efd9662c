-- ===== src/ReleaseGate/Censor/Rounds.antt =====
-- The loop of `censor_known` of .github/scripts/release_gate.py over the base64 tokens: when its search
-- has a pattern, and how many rounds are enough.
use osac_test_infra.Prelude.{
  ℕ, zero, suc, ◌-◌, ◌≤◌, ◌<◌, ◌+◌, ◌≡◌, ◌≢◌, refl, ap, ◌∙◌, true, some, [], ◌∷◌, ◌++◌, ◌==◌, ◌||◌,
  arith, length, length-append, length-drop, drop, take, replicate, Bool-cases, Option-cases, inl,
  inr,
}
use mathlib.Core.Path.{subst}
use osac_test_infra.Prelude.Search.{Bytes, find, starts_with}
use osac_test_infra.Prelude.Search.Occurs.{find_sound}
use osac_test_infra.ReleaseGate.Base64.{Alphabet, encode}
use osac_test_infra.ReleaseGate.Base64.Middle.{but_last_four, length-encode}
use osac_test_infra.ReleaseGate.Variants.{middle}
use osac_test_infra.ReleaseGate.Censor.{replace_tokens, skip_token, is_b64_char}

length-encode_seven : (al : Alphabet) (xs : Bytes) → 7 ≤ length xs → 12 ≤ length (encode al xs)
unfolding encode
length-encode_seven al [] h = absurd (omega arith)
length-encode_seven al (a ∷ []) h = absurd (omega arith)
length-encode_seven al (a ∷ b ∷ []) h = absurd (omega arith)
length-encode_seven al (a ∷ b ∷ c ∷ []) h = absurd (omega arith)
length-encode_seven al (a ∷ b ∷ c ∷ d ∷ []) h = absurd (omega arith)
length-encode_seven al (a ∷ b ∷ c ∷ d ∷ e ∷ []) h = absurd (omega arith)
length-encode_seven al (a ∷ b ∷ c ∷ d ∷ e ∷ f ∷ []) h = absurd (omega arith)
length-encode_seven al (a ∷ b ∷ c ∷ d ∷ e ∷ f ∷ g ∷ rest) h = omega (arith, length-encode al g rest)

taken : (xs : Bytes) → 8 ≤ length xs → but_last_four xs ≢ []
taken [] h q = absurd (omega arith)
taken (a ∷ xs) h q =
    let some_left : length (a ∷ xs) - 4 ≡ suc (length (a ∷ xs) - 5) = omega (arith, h) in
    let q' : ◌≡◌ {A = Bytes} (take (suc (length (a ∷ xs) - 5)) (a ∷ xs)) [] =
      subst (λ n. ◌≡◌ {A = Bytes} (take n (a ∷ xs)) []) some_left q in
    cc

-- The middle of a value of at least seven bytes is not empty, whatever the padding.
middle-ne :
    (al : Alphabet) (pad : ℕ) (needle : Bytes) → 7 ≤ length needle → middle al pad needle ≢ []
unfolding middle
middle-ne al pad needle h =
    let padded = replicate pad 0 ++ needle in
    let long =
      length-encode_seven al padded (omega (arith, length-append (replicate pad 0) needle)) in
    taken (drop 4 (encode al padded)) (omega (arith, long, length-drop 4 (encode al padded)))

starts-nonempty : (c : ℕ) (p xs : Bytes) → starts_with (c ∷ p) xs ≡ true → 1 ≤ length xs
unfolding starts_with
starts-nonempty c p [] h = absurd (cc)
starts-nonempty c p (x ∷ xs) h = omega arith

find-le :
    (c : ℕ) (p xs before from : Bytes)
    → find (c ∷ p) xs ≡ some (before, from)
    → (length from ≤ length xs) × (1 ≤ length from)
find-le c p xs before from h =
    let (split, starts) = find_sound (c ∷ p) xs before from h in
    let total : length xs ≡ length before + length from =
      ap (λ (l : Bytes). length l) split ∙ length-append before from in
    (omega (arith, total), starts-nonempty c p from starts)

skip_token-le : (xs : Bytes) → length (skip_token xs) ≤ length xs
unfolding skip_token
skip_token-le [] = omega arith
skip_token-le (x ∷ xs) = elim (Bool-cases (is_b64_char x || x == b'=')) [
  | inl e ↦ rw e (omega (arith, skip_token-le xs))
  | inr e ↦ rw e (omega arith)
]

-- For a pattern that is not empty, more rounds than the data have bytes all give the same.
replace_tokens_enough :
    (rounds more c : ℕ) (p m rest : Bytes)
    → length rest < rounds
    → length rest < more
    → replace_tokens rounds (c ∷ p) m rest ≡ replace_tokens more (c ∷ p) m rest
unfolding replace_tokens
replace_tokens_enough zero more c p m rest h k = absurd (omega arith)
replace_tokens_enough (suc rounds) zero c p m rest h k = absurd (omega arith)
replace_tokens_enough (suc rounds) (suc more) c p m rest h k =
    elim (Option-cases (find (c ∷ p) rest)) [
      | inl n ↦ rw (n, replace_tokens) refl
      | inr ((before, from), n) ↦
          let (shorter, some_left) = find-le c p rest before from n in
          let left = skip_token (drop (length (c ∷ p)) from) in
          let progress : length left < length rest = omega (
            arith,
            shorter,
            some_left,
            skip_token-le (drop (length (c ∷ p)) from),
            length-drop (length (c ∷ p)) from,
          ) in
          let ih =
            replace_tokens_enough rounds more c p m left (omega (arith, progress))
              (omega (arith, progress)) in
          rw (n, replace_tokens) (rw ih refl)
    ]
