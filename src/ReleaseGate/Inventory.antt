-- ===== src/ReleaseGate/Inventory.antt =====
-- The inventory of known values: `collect_needles`, `_add_string`, `needles_from_secret_file` and
-- `needles_from_k8s_secrets` of .github/scripts/release_gate.py.
pub mod Keeps
pub mod Sizes
pub mod Leaves
use osac_test_infra.Prelude.{
  ℕ, zero, suc, ◌+◌, ◌-◌, Bool, true, false, not, Option, none, some, List, [], ◌∷◌, ◌++◌, ltb, leb,
  ◌==◌, ◌&&◌, ◌||◌, if◌then◌else◌, codes, length, is_empty, any,
}
use osac_test_infra.Prelude.Search.{Bytes, starts_with, bytes_eq}
use osac_test_infra.ReleaseGate.Base64.{decode_b64}
use osac_test_infra.Text.{
  Text, decode_replace, decode_strict, encode_text, split_words, left_strip, after_colon, lower,
  decimal,
}
use osac_test_infra.ReleaseGate.Censor.{Inventory}

-- A JSON document, as `json.loads` returns it; the scalars that are no text play no part.
mutual
  pub data Json : Type 0 where
    scalar : Json
    str : Text → Json
    arr : Items → Json
    obj : Fields → Json

  pub data Items : Type 0 where
    no_items : Items
    item : Json → Items → Items

  pub data Fields : Type 0 where
    no_fields : Fields
    field : Text → Json → Fields → Fields

-- What the gate takes from outside: `json.loads`, whose ValueError is `none`, and whether the
-- entropy of a text is 2.5 bits or more, which the source computes in floating point.
pub record Library : Type 0 where
  pub loads : Text → Option Json
  pub high_entropy : Text → Bool

abbrev pub min_len : ℕ
min_len = 16

abbrev pub k8s_min_len : ℕ
k8s_min_len = 12

abbrev pub max_nesting : ℕ
max_nesting = 4

-- The values found, and whether all went well: after an exception the dictionary keeps what it has.
abbrev pub Collected : Type 0
Collected = Inventory × Bool

-- The next statement, unless the one before raised.
abbrev pub next : Collected → (Inventory → Collected) → Collected
next (out, true) f = f out
next (out, false) f = (out, false)

-- out.setdefault(needle, label)
unfoldable pub set_default : Bytes → Text → Inventory → Inventory
unfolding bytes_eq
set_default needle label [] = (needle, label) ∷ []
set_default needle label ((n, l) ∷ out) =
    let rest = (n, l) ∷ set_default needle label out in
    if bytes_eq n needle then (n, l) ∷ out else rest

-- out[needle] = label
unfoldable pub put : Bytes → Text → Inventory → Inventory
unfolding bytes_eq
put needle label [] = (needle, label) ∷ []
put needle label ((n, l) ∷ out) =
    let rest = (n, l) ∷ put needle label out in if bytes_eq n needle then (n, label) ∷ out else rest

-- inventory.update(found)
unfoldable pub update : Inventory → Inventory → Inventory
unfolding put
update inventory [] = inventory
update inventory ((n, l) ∷ found) = update (put n l inventory) found

-- str(key).lower() in _IDENTITY_KEYS
unfoldable pub is_identity : Text → Bool
unfolding bytes_eq
is_identity key =
    let k = lower key in
    bytes_eq k (codes "email") || bytes_eq k (codes "username") || bytes_eq k (codes "user")

abbrev pub sub_label : Text → Text → Text
sub_label label key = if is_empty label then key else label ++ (b'.' ∷ key)

abbrev pub index_label : Text → ℕ → Text
index_label label index = label ++ (b'[' ∷ (decimal index ++ b']' ∷ []))

-- collect_needles, over what is done with a text at this depth.
abbrev pub AddText : Type 0
AddText = Text → Text → Inventory → Collected

unfoldable mutual
  unfolding is_identity

  pub collect : AddText → Json → Text → Inventory → Collected
  collect add scalar label out = (out, true)
  collect add (str text) label out = add text label out
  collect add (arr items) label out = collect_items add items label 0 out
  collect add (obj fields) label out = collect_fields add fields label out

  pub collect_items : AddText → Items → Text → ℕ → Inventory → Collected
  collect_items add no_items label index out = (out, true)
  collect_items add (item v items) label index out =
      next (collect add v (index_label label index) out) (collect_items add items label (index + 1))

  pub collect_fields : AddText → Fields → Text → Inventory → Collected
  collect_fields add no_fields label out = (out, true)
  collect_fields add (field key v fields) label out =
      next (if is_identity key then (out, true) else collect add v (sub_label label key) out)
        (collect_fields add fields label)

-- `collect_needles(nested, …)`, if the text is a JSON object or array.
unfoldable pub add_nested : AddText → Option Json → Text → Inventory → Collected
add_nested add (some (arr items)) label out = collect add (arr items) label out
add_nested add (some (obj fields)) label out = collect add (obj fields) label out
add_nested add _ label out = (out, true)

unfoldable pub add_password : AddText → Option Text → Text → Inventory → Collected
add_password add none label out = (out, true)
add_password add (some password) label out = add password (label ++ codes "(decoded password)") out

-- The password behind a user name, and then the whole decoded text.
unfoldable pub add_decoded_text : AddText → Option Text → Text → Inventory → Collected
unfolding add_password
add_decoded_text add none label out = (out, true)
add_decoded_text add (some text) label out =
    next (add_password add (after_colon text) label out) (add text (label ++ codes "(decoded)"))

unfoldable pub add_decoded : AddText → Option Bytes → Text → Inventory → Collected
unfolding add_decoded_text
add_decoded add none label out = (out, true)
add_decoded add (some []) label out = (out, true)
add_decoded add (some (b ∷ bs)) label out = add_decoded_text add (decode_strict (b ∷ bs)) label out

-- out.setdefault(text.encode(…), label), which may raise, and the rest.
unfoldable pub add_needle : Option Bytes → Text → (Inventory → Collected) → Inventory → Collected
add_needle none label rest out = (out, false)
add_needle (some needle) label rest out = rest (set_default needle label out)

module _ (lib : Library) where
  -- _add_string; the first number is how many levels may still be nested, _MAX_NESTING - depth.
  unfoldable pub add_string : ℕ → ℕ → AddText
  unfolding add_nested add_decoded add_needle
  add_string zero least text label out =
      if ltb (length text) least
      then (out, true)
      else add_needle (encode_text text) label (λ out'. (out', true)) out
  add_string (suc nesting) least text label out =
      let add = add_string nesting min_len in
      let nested = λ (out' : Inventory). add_nested add (lib.loads text) label out' in
      let decoded = λ (out' : Inventory). add_decoded add (decode_b64 text) label out' in
      if ltb (length text) least
      then (out, true)
      else add_needle (encode_text text) label (λ out'. next (nested out') decoded) out

  -- collect_needles at depth 0
  unfoldable pub collect_needles : Json → Text → Inventory → Collected
  unfolding collect add_string
  collect_needles = collect (add_string max_nesting min_len)

  unfoldable pub add_tokens : List Text → ℕ → Inventory → Collected
  unfolding add_string
  add_tokens [] index out = (out, true)
  add_tokens (token ∷ tokens) index out =
      next (add_string max_nesting min_len token (codes "token" ++ decimal index) out)
        (add_tokens tokens (index + 1))

  -- needles_from_secret_file: an exception of the collection leads to the tokens too, since
  -- UnicodeEncodeError is a ValueError.
  unfoldable pub needles_from_secret_file : Text → Collected
  unfolding add_tokens collect_needles
  needles_from_secret_file raw = elim (lib.loads raw) [
    | none ↦ add_tokens (split_words raw) 0 []
    | some document ↦
        let (out, fine) = collect_needles document [] [] in
        let tokens = add_tokens (split_words raw) 0 out in if fine then (out, true) else tokens
  ]

-- An item of `oc get secrets -o json`: its data with `none` for a value that is no text.
pub record Secret : Type 0 where
  pub namespace : Text
  pub name : Text
  pub encoded : List (Text × Option Text)
  pub plain : List (Text × Option Text)

abbrev pub Values : Type 0
Values = List (Text × Text)

unfoldable pub put_value : Text → Text → Values → Values
unfolding bytes_eq
put_value key text [] = (key, text) ∷ []
put_value key text ((k, t) ∷ values) =
    let rest = (k, t) ∷ put_value key text values in
    if bytes_eq k key then (k, text) ∷ values else rest

-- The values of `data`, decoded.
unfoldable pub decode_values : List (Text × Option Text) → Values → Values
unfolding put_value
decode_values [] values = values
decode_values ((key, none) ∷ rest) values = decode_values rest values
decode_values ((key, some encoded) ∷ rest) values = decode_values rest (elim (decode_b64 encoded) [
  | none ↦ values
  | some raw ↦ put_value key (decode_replace raw) values
])

-- values.update(...) by the texts of `stringData`.
unfoldable pub plain_values : List (Text × Option Text) → Values → Values
unfolding put_value
plain_values [] values = values
plain_values ((key, none) ∷ rest) values = plain_values rest values
plain_values ((key, some text) ∷ rest) values = plain_values rest (put_value key text values)

-- Public material: a key of _K8S_PUBLIC_KEYS, or a certificate.
unfoldable pub is_public : Text → Text → Bool
unfolding bytes_eq
is_public key text =
    any (bytes_eq key) (
      codes "ca.crt"
      ∷ codes "tls.crt"
      ∷ codes "ca-bundle.crt"
      ∷ codes "service-ca.crt"
      ∷ codes "namespace"
      ∷ [])
    || starts_with (codes "-----BEGIN CERTIFICATE-----") text

abbrev pub starts_json : Text → Bool
starts_json text = starts_with (b'{' ∷ []) text || starts_with (b'[' ∷ []) text

module _ (lib : Library) where
  -- A value that is no JSON document: long enough and random enough.
  unfoldable pub add_random : Text → Text → Inventory → Collected
  add_random text label out =
      if leb k8s_min_len (length text) && lib.high_entropy text
      then add_string lib max_nesting k8s_min_len text label out
      else (out, true)

  unfoldable pub add_value : Text → Text → Inventory → Collected
  unfolding add_random
  add_value text label out =
      if starts_json (left_strip text)
      then elim (lib.loads text) [
        | none ↦ add_random text label out
        | some document ↦
            let (out', fine) = collect_needles lib document label out in
            if fine then (out', true) else add_random text label out'
      ]
      else add_random text label out

  unfoldable pub add_values : Text → Values → Inventory → Collected
  unfolding is_public add_value
  add_values prefix [] out = (out, true)
  add_values prefix ((key, text) ∷ values) out =
      next (if is_public key text then (out, true) else add_value text (prefix ++ (b'/' ∷ key)) out)
        (add_values prefix values)

  -- needles_from_k8s_secrets, over the items of the document.
  unfoldable pub needles_from_k8s_secrets : List Secret → Inventory → Collected
  unfolding decode_values plain_values add_values
  needles_from_k8s_secrets [] out = (out, true)
  needles_from_k8s_secrets (secret ∷ secrets) out =
      let prefix = codes "secret/" ++ (secret.namespace ++ (b'/' ∷ secret.name)) in
      let values = plain_values secret.plain (decode_values secret.encoded []) in
      next (add_values prefix values out) (needles_from_k8s_secrets secrets)
