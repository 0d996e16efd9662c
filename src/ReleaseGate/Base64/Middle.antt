-- ===== src/ReleaseGate/Base64/Middle.antt =====
-- The base64 of a part stands inside the base64 of the whole, from the first group that the part
-- fills to the last.
use osac_test_infra.Prelude.{ℕ, suc, ◌-◌, ◌≤◌, ◌≡◌, refl, ap, [], ◌∷◌, ◌++◌, arith, length, take}
use osac_test_infra.Prelude.Search.{Bytes}
use osac_test_infra.ReleaseGate.Base64.{Alphabet, encode}

-- s[:-4]
abbrev pub but_last_four : Bytes → Bytes
but_last_four s = take (length s - 4) s

-- `p` begins `s`.
abbrev pub Begins : Bytes → Bytes → Type 0
Begins p s = (r : Bytes) × (s ≡ p ++ r)

four_and_more : (n : ℕ) → 4 ≤ n → suc (suc (suc (suc n))) - 4 ≡ suc (suc (suc (suc (n - 4))))
four_and_more n h = omega arith

Begins-four :
    (a b c d : ℕ) (s t : Bytes)
    → 4 ≤ length s
    → Begins (but_last_four s) t
    → Begins (but_last_four (a ∷ b ∷ c ∷ d ∷ s)) (a ∷ b ∷ c ∷ d ∷ t)
Begins-four a b c d s t h (r, e) =
    (r, rw (four_and_more (length s) h) (ap (λ x. a ∷ b ∷ c ∷ d ∷ x) e))

pub length-encode : (al : Alphabet) (x : ℕ) (xs : Bytes) → 4 ≤ length (encode al (x ∷ xs))
unfolding encode
length-encode al a [] = omega arith
length-encode al a (b ∷ []) = omega arith
length-encode al a (b ∷ c ∷ rest) = omega arith

-- Whatever follows the bytes, their base64 without its last group begins the base64 of the whole.
pub Begins-encode :
    (al : Alphabet) (xs ys : Bytes) → Begins (but_last_four (encode al xs)) (encode al (xs ++ ys))
unfolding encode
Begins-encode al [] ys = (encode al ys, refl)
Begins-encode al (a ∷ []) ys = (encode al (a ∷ ys), refl)
Begins-encode al (a ∷ b ∷ []) ys = (encode al (a ∷ b ∷ ys), refl)
Begins-encode al (a ∷ b ∷ c ∷ []) ys = (encode al (a ∷ b ∷ c ∷ ys), refl)
Begins-encode al (a ∷ b ∷ c ∷ d ∷ rest) ys =
    Begins-four _ _ _ _ (encode al (d ∷ rest)) (encode al (d ∷ rest ++ ys))
      (length-encode al d rest) (Begins-encode al (d ∷ rest) ys)
