-- ===== src/ReleaseGate/Variants.antt =====
-- The ways in which a known value shows up in a file: `variants` of
-- .github/scripts/release_gate.py.
pub mod Complete
pub mod Listed
use osac_test_infra.Prelude.{
  ℕ, zero, suc, ◌+◌, Bool, true, false, not, List, [], ◌∷◌, ◌++◌, ◌==◌, ◌&&◌, ◌||◌, if◌then◌else◌,
  codes, drop, replicate, any,
}
use osac_test_infra.Prelude.Search.{Bytes, bytes_eq}
use osac_test_infra.ReleaseGate.Base64.{Alphabet, standard, url_safe, encode}
use osac_test_infra.ReleaseGate.Base64.Middle.{but_last_four}
use osac_test_infra.Text.{Text, decode_replace, json_escape}

pub record Variant : Type 0 where
  pub form : Text
  pub pattern : Bytes
  pub is_b64 : Bool

-- encode(b"\0" * pad + needle)[4:-4]: the first and last group depend on neighbouring bytes.
unfoldable pub middle : Alphabet → ℕ → Bytes → Bytes
middle al pad needle = but_last_four (drop 4 (encode al (replicate pad 0 ++ needle)))

abbrev pub form_name : Alphabet → Text
form_name standard = codes "base64"
form_name url_safe = codes "base64url"

-- One round of the inner loop, with the middles seen so far.
unfoldable pub add_base64 :
    Bytes → ℕ → Alphabet → List Bytes × List Variant → List Bytes × List Variant
unfolding bytes_eq middle
add_base64 needle pad al (seen, found) =
    let m = middle al pad needle in
    if any (bytes_eq m) seen then (seen, found) else (
      m ∷ seen,
      found
          ++ (record {
            form = form_name al ++ (b'+' ∷ (b'0' + pad) ∷ []);
            pattern = m;
            is_b64 = true;
          }
              ∷ []),
    )

unfoldable pub add_pad : Bytes → ℕ → List Bytes × List Variant → List Bytes × List Variant
unfolding add_base64
add_pad needle pad st = add_base64 needle pad url_safe (add_base64 needle pad standard st)

-- The plain form, and the escaped one where it differs.
unfoldable pub text_variants : Bytes → List Variant
unfolding bytes_eq
text_variants needle =
    let escaped = json_escape (decode_replace needle) in
    record { form = codes "plain"; pattern = needle; is_b64 = false }
    ∷ (if bytes_eq escaped needle
        then []
        else record { form = codes "json-escaped"; pattern = escaped; is_b64 = false } ∷ [])

unfoldable pub variants : Bytes → List Variant
unfolding add_pad text_variants
variants needle =
    (add_pad needle 2 (add_pad needle 1 (add_pad needle 0 ([], text_variants needle)))).1
