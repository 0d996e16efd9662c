-- ===== src/ReleaseGate/Variants/Complete.antt =====
-- The base64 variants find a value at whatever offset it was encoded.
use osac_test_infra.Prelude.{ℕ, suc, ◌%◌, ◌≤◌, ◌≡◌, true, [], ◌∷◌, ◌++◌, arith, length}
use osac_test_infra.Prelude.Search.{Bytes, contains}
use osac_test_infra.Prelude.Search.Occurs.{contains_middle, contains_append_left}
use osac_test_infra.ReleaseGate.Base64.{Alphabet, encode}
use osac_test_infra.ReleaseGate.Base64.Middle.{but_last_four, Begins, Begins-encode}
use osac_test_infra.ReleaseGate.Variants.{middle}

Begins-contains : (p before d : Bytes) → Begins p d → contains p (before ++ d) ≡ true
Begins-contains p before d (r, e) = contains_append_left p before d (rw e (contains_middle p [] r))

-- The text of `encode` after the first group, at each number of bytes that stand before the value.
aligned :
    (al : Alphabet) (x y z : ℕ) (xs post : Bytes)
    → contains (but_last_four (encode al xs)) (encode al (x ∷ y ∷ z ∷ (xs ++ post))) ≡ true
unfolding encode
aligned al x y z xs post =
    Begins-contains (but_last_four (encode al xs)) (_ ∷ _ ∷ _ ∷ _ ∷ []) (encode al (xs ++ post))
      (Begins-encode al xs post)

mod_three : (n : ℕ) → suc (suc (suc n)) % 3 ≡ n % 3
mod_three n = omega arith

-- Encode a value of three bytes or more anywhere inside a larger byte string: the middle that
-- `variants` computes for the offset modulo three stands in the result, in either alphabet.
pub encode-contains-middle :
    (al : Alphabet) (pre needle post : Bytes)
    → 3 ≤ length needle
    → contains (middle al (length pre % 3) needle) (encode al (pre ++ (needle ++ post))) ≡ true
unfolding middle encode
encode-contains-middle al [] (a ∷ b ∷ c ∷ xs) post h = aligned al a b c xs post
encode-contains-middle al (x ∷ []) (a ∷ b ∷ c ∷ xs) post h = aligned al x a b (c ∷ xs) post
encode-contains-middle al (x ∷ y ∷ []) (a ∷ b ∷ c ∷ xs) post h = aligned al x y a (b ∷ c ∷ xs) post
encode-contains-middle al (x ∷ y ∷ z ∷ pre) needle post h = rw (mod_three (length pre)) (
    contains_append_left _ (_ ∷ _ ∷ _ ∷ _ ∷ []) (encode al (pre ++ (needle ++ post)))
      (encode-contains-middle al pre needle post h))
encode-contains-middle al _ [] post h = absurd (omega arith)
encode-contains-middle al _ (a ∷ []) post h = absurd (omega arith)
encode-contains-middle al _ (a ∷ b ∷ []) post h = absurd (omega arith)
