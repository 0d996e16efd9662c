-- ===== src/Redact/Secrets.antt =====
-- The secrets that gitleaks reports, and how they are looked for under an encoding:
-- `secret_variants`, `collect_secrets`, the decoders and `blob_decodes_to_secret` of
-- .github/scripts/redact.py. Base64, percent decoding and the regular expressions are given.
pub mod Nonempty
use osac_test_infra.Prelude.{
  ℕ, zero, suc, ◌+◌, ◌*◌, ◌-◌, ◌%◌, Bool, true, false, not, Option, none, some, List, [], ◌∷◌, ◌++◌,
  ltb, leb, ◌==◌, ◌&&◌, ◌||◌, if◌then◌else◌, codes, length, is_empty, any, all,
}
use mathlib.Core.List.{reverse}
use osac_test_infra.Prelude.Search.{Bytes, bytes_eq, contains}
use osac_test_infra.Text.{Text, encode_strict}
use osac_test_infra.Redact.Ranges.{Range}

-- The regular expressions: of each the spans that `finditer` gives, of the group where there is one.
pub record Expressions : Type 0 where
  pub esc_quoted_b64 : Bytes → List Range
  pub raw_quoted_b64 : Bytes → List Range
  pub unquoted_assigned_b64 : Bytes → List Range
  pub b64_token : Bytes → List Range
  pub hex_token : Bytes → List Range
  pub percent_run : Bytes → List Range
  pub jwt : Bytes → List Range
  pub jwt_search : Text → Option Text

-- base64.urlsafe_b64decode and b64decode without validation, and urllib's unquote_to_bytes of a
-- string; `none` is an exception.
pub record Decoders : Type 0 where
  pub urlsafe_b64decode : Bytes → Option Bytes
  pub b64decode : Bytes → Option Bytes
  pub unquote_to_bytes : Bytes → Bytes

-- `add` of secret_variants
unfoldable pub add_variant : Text → List Text → List Text
unfolding bytes_eq
add_variant value out =
    if is_empty value || any (bytes_eq value) out then out else out ++ (value ∷ [])

-- The loop that strips a backslash at a time, over the text from its end.
unfoldable pub add_stripped : Text → List Text → List Text
unfolding add_variant
add_stripped [] out = out
add_stripped (c ∷ backwards) out =
    let rest = add_stripped backwards (add_variant (reverse backwards) out) in
    if c == 92 then rest else out

abbrev pub add_found : Option Text → List Text → List Text
add_found none out = out
add_found (some value) out = add_variant value out

unfoldable pub secret_variants : Expressions → Text → List Text
unfolding add_stripped add_variant contains
secret_variants re secret =
    let out = add_stripped (reverse secret) (add_variant secret []) in
    if contains (codes "eyJ") secret then add_found (re.jwt_search secret) out else out

pub record Finding : Type 0 where
  pub secret : Text
  pub file : Text
  pub start_line : ℕ
  pub end_line : ℕ
  pub start_column : ℕ
  pub end_column : ℕ
  pub rule : Text
  pub tags : List Text

unfoldable pub add_variants : List Text → List Text → List Text
unfolding add_variant
add_variants [] variants = variants
add_variants (v ∷ vs) variants = add_variants vs (add_variant v variants)

unfoldable pub all_variants : Expressions → List Finding → List Text → List Text
unfolding secret_variants add_variants
all_variants re [] variants = variants
all_variants re (f ∷ findings) variants =
    all_variants re findings (add_variants (secret_variants re f.secret) variants)

unfoldable pub insert_longest : Text → List Text → List Text
insert_longest v [] = v ∷ []
insert_longest v (w ∷ ws) =
    let later = w ∷ insert_longest v ws in if leb (length w) (length v) then v ∷ w ∷ ws else later

unfoldable pub longest_first : List Text → List Text
unfolding insert_longest
longest_first [] = []
longest_first (v ∷ vs) = insert_longest v (longest_first vs)

-- [s.encode() for s in …]; `none` is a UnicodeEncodeError.
unfoldable pub encode_all : List Text → Option (List Bytes)
unfolding encode_strict
encode_all [] = some []
encode_all (v ∷ vs) = elim (encode_strict v) [
  | none ↦ none
  | some b ↦ elim (encode_all vs) [ none ↦ none | some bs ↦ some (b ∷ bs) ]
]

-- collect_secrets; variants of one length come in an order of their own.
unfoldable pub collect_secrets : Expressions → List Finding → Option (List Bytes)
unfolding all_variants longest_first encode_all
collect_secrets re findings = encode_all (longest_first (all_variants re findings []))

abbrev pub first_of : Option Bytes → Option Bytes → Option Bytes
first_of (some b) other = some b
first_of none other = other

-- try_b64_decode
unfoldable pub try_b64_decode : Decoders → Bytes → Option Bytes
try_b64_decode d blob =
    let padded = blob ++ codes "===" in first_of (d.urlsafe_b64decode padded) (d.b64decode padded)

-- The value of a hexadecimal digit.
abbrev pub is_hex : ℕ → Bool
is_hex c = leb 48 c && leb c 57 || leb 97 c && leb c 102 || leb 65 c && leb c 70

abbrev pub hex_value : ℕ → ℕ
hex_value c = if leb 97 c then c - 87 else if leb 65 c then c - 55 else c - 48

unfoldable pub unhexlify : Bytes → Bytes
unhexlify (a ∷ b ∷ bs) = (hex_value a * 16 + hex_value b) ∷ unhexlify bs
unhexlify _ = []

-- try_hex_decode
unfoldable pub try_hex_decode : Bytes → Option Bytes
unfolding unhexlify
try_hex_decode blob =
    if ltb (length blob) 32 || length blob % 2 == 1
    then none
    else if not (all is_hex blob)
    then none
    else some (unhexlify blob)

-- try_percent_decode
unfoldable pub try_percent_decode : Decoders → Bytes → Option Bytes
unfolding bytes_eq
try_percent_decode d blob =
    let decoded = d.unquote_to_bytes blob in
    if not (any (λ c. c == 37) blob)
    then none
    else if not (all (λ c. ltb c 128) blob)
    then none
    else if bytes_eq decoded blob
    then none
    else some decoded

-- any(secret in blob for secret in secrets)
unfoldable pub holds_secret : List Bytes → Bytes → Bool
unfolding contains
holds_secret secrets blob = any (λ secret. contains secret blob) secrets

-- What the loops of blob_decodes_to_secret keep; `true` in the end is a return of True.
abbrev pub Peel : Type 0
Peel = List Bytes × List Bytes × Bool

abbrev pub next_blob : List Bytes → Bytes → Option Bytes → Peel → Peel
next_blob secrets current decoded (seen, frontier, true) = (seen, frontier, true)
next_blob secrets current none (seen, frontier, false) = (seen, frontier, false)
next_blob secrets current (some decoded) (seen, frontier, false) =
    if bytes_eq decoded current || any (bytes_eq decoded) seen
    then (seen, frontier, false)
    else if holds_secret secrets decoded
    then (seen, frontier, true)
    else (decoded ∷ seen, frontier ++ (decoded ∷ []), false)

-- The three decoders on each blob of the frontier.
unfoldable pub peel_layer : Decoders → List Bytes → List Bytes → Peel → Peel
unfolding try_b64_decode try_hex_decode try_percent_decode
peel_layer d secrets [] p = p
peel_layer d secrets (current ∷ blobs) p = peel_layer d secrets blobs (
    next_blob secrets current (try_percent_decode d current) (
      next_blob secrets current (try_hex_decode current)
        (next_blob secrets current (try_b64_decode d current) p)))

abbrev pub max_decode_depth : ℕ
max_decode_depth = 5

unfoldable pub peel_layers : Decoders → List Bytes → ℕ → List Bytes → List Bytes → Bool
unfolding peel_layer
peel_layers d secrets zero frontier seen = false
peel_layers d secrets (suc depth) frontier seen =
    let (seen', next, found) = peel_layer d secrets frontier (seen, [], false) in
    let deeper = peel_layers d secrets depth next seen' in
    if found then true else if is_empty next then false else deeper

-- blob_decodes_to_secret
unfoldable pub blob_decodes_to_secret : Decoders → List Bytes → Bytes → Bool
unfolding peel_layers
blob_decodes_to_secret d secrets blob =
    peel_layers d secrets max_decode_depth (blob ∷ []) (blob ∷ [])
