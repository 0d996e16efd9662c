-- ===== src/ReleaseGate/Inventory/Sizes.antt =====
-- How short a known value can be.
use osac_test_infra.Prelude.{
  ℕ, ◌+◌, ◌≤◌, Bool, true, false, List, [], ◌∷◌, ◌++◌, arith, if◌then◌else◌, length, codes, All,
  Bool-cases, Option-cases, inl, inr, ◌&&◌, leb,
}
use osac_test_infra.Prelude.Search.{Bytes, bytes_eq}
use osac_test_infra.Text.{Text, split_words, decimal, left_strip}
use osac_test_infra.ReleaseGate.Censor.{Inventory}
use osac_test_infra.ReleaseGate.Inventory.{
  Json, Library, Collected, next, set_default, min_len, k8s_min_len, max_nesting, collect_needles,
  add_string, add_tokens, needles_from_secret_file, Secret, Values, is_public, starts_json,
  add_random, add_value, add_values, needles_from_k8s_secrets, plain_values, decode_values,
}
use osac_test_infra.ReleaseGate.Inventory.Keeps.{add_string-Keeps, collect_needles-keeps}

-- Every value has at least that many bytes.
abbrev pub AreLong : ℕ → Inventory → Type 0
AreLong least out = All (λ e. least ≤ length e.0) out

set_default-AreLong :
    (least : ℕ) (needle : Bytes) (label : Text) (out : Inventory)
    → least ≤ length needle
    → AreLong least out
    → AreLong least (set_default needle label out)
unfolding set_default
set_default-AreLong least needle label [] h q = (h, tt)
set_default-AreLong least needle label ((n, l) ∷ out) h q = elim (Bool-cases (bytes_eq n needle)) [
  | inl t ↦ rw t q
  | inr t ↦ rw t (q.0, set_default-AreLong least needle label out h q.1)
]

next-AreLong :
    (least : ℕ) (c : Collected) (f : Inventory → Collected)
    → AreLong least c.0
    → ((out : Inventory) → AreLong least out → AreLong least (f out).0)
    → AreLong least (next c f).0
next-AreLong least (out, true) f h k = k out h
next-AreLong least (out, false) f h k = h

if-AreLong :
    (least : ℕ) (b : Bool) (c d : Collected)
    → AreLong least c.0
    → AreLong least d.0
    → AreLong least (if b then c else d).0
if-AreLong least true c d hc hd = hc
if-AreLong least false c d hc hd = hd

module _ (lib : Library) where
  add_tokens-AreLong :
      (tokens : List Text) (index : ℕ) (out : Inventory)
      → AreLong min_len out
      → AreLong min_len (add_tokens lib tokens index out).0
  unfolding add_tokens
  add_tokens-AreLong [] index out q = q
  add_tokens-AreLong (token ∷ tokens) index out q =
      next-AreLong min_len
        (add_string lib max_nesting min_len token (codes "token" ++ decimal index) out)
        (add_tokens lib tokens (index + 1))
        (add_string-Keeps (AreLong min_len) min_len (set_default-AreLong min_len) lib max_nesting
          min_len (omega arith) (omega arith) token _ out q)
        (add_tokens-AreLong tokens (index + 1))

  document-AreLong :
      (least : ℕ) (document : Json) (label : Text) (out : Inventory)
      → least ≤ min_len
      → AreLong least out
      → AreLong least (collect_needles lib document label out).0
  document-AreLong least document label out m q =
      collect_needles-keeps (AreLong least) least (set_default-AreLong least) lib m document label
        out q

  -- Every value taken from a secret file has sixteen bytes or more.
  pub needles_from_secret_file-AreLong :
      (raw : Text) → AreLong min_len (needles_from_secret_file lib raw).0
  unfolding needles_from_secret_file
  needles_from_secret_file-AreLong raw = elim (Option-cases (lib.loads raw)) [
    | inl e ↦ rw (e, needles_from_secret_file) (add_tokens-AreLong (split_words raw) 0 [] tt)
    | inr (document, e) ↦
        let done = collect_needles lib document [] [] in
        let q : AreLong min_len done.0 = document-AreLong min_len document [] [] (omega arith) tt in
        rw (e, needles_from_secret_file)
          (if-AreLong min_len done.1 (done.0, true) (add_tokens lib (split_words raw) 0 done.0) q
            (add_tokens-AreLong (split_words raw) 0 done.0 q))
  ]

  add_random-AreLong :
      (text label : Text) (out : Inventory)
      → AreLong k8s_min_len out
      → AreLong k8s_min_len (add_random lib text label out).0
  unfolding add_random
  add_random-AreLong text label out q =
      if-AreLong k8s_min_len (leb k8s_min_len (length text) && lib.high_entropy text)
        (add_string lib max_nesting k8s_min_len text label out) (out, true)
        (add_string-Keeps (AreLong k8s_min_len) k8s_min_len (set_default-AreLong k8s_min_len) lib
          max_nesting k8s_min_len (omega arith) (omega arith) text label out q)
        q

  add_value-AreLong :
      (text label : Text) (out : Inventory)
      → AreLong k8s_min_len out
      → AreLong k8s_min_len (add_value lib text label out).0
  unfolding add_value
  add_value-AreLong text label out q = elim (Bool-cases (starts_json (left_strip text))) [
    | inr other ↦ rw other (add_random-AreLong text label out q)
    | inl json ↦ rw json (elim (Option-cases (lib.loads text)) [
      | inl e ↦ rw e (add_random-AreLong text label out q)
      | inr (document, e) ↦
          let done = collect_needles lib document label out in
          let p : AreLong k8s_min_len done.0 =
            document-AreLong k8s_min_len document label out (omega arith) q in
          rw e (
            if-AreLong k8s_min_len done.1 (done.0, true) (add_random lib text label done.0) p
              (add_random-AreLong text label done.0 p))
    ])
  ]

  add_values-AreLong :
      (prefix : Text) (values : Values) (out : Inventory)
      → AreLong k8s_min_len out
      → AreLong k8s_min_len (add_values lib prefix values out).0
  unfolding add_values
  add_values-AreLong prefix [] out q = q
  add_values-AreLong prefix ((key, text) ∷ values) out q =
      let added = add_value lib text (prefix ++ (b'/' ∷ key)) out in
      next-AreLong k8s_min_len (if is_public key text then (out, true) else added)
        (add_values lib prefix values)
        (if-AreLong k8s_min_len (is_public key text) (out, true) added q
          (add_value-AreLong text (prefix ++ (b'/' ∷ key)) out q))
        (add_values-AreLong prefix values)

  -- Every value taken from Kubernetes Secrets has twelve bytes or more.
  pub needles_from_k8s_secrets-AreLong :
      (secrets : List Secret) (out : Inventory)
      → AreLong k8s_min_len out
      → AreLong k8s_min_len (needles_from_k8s_secrets lib secrets out).0
  unfolding needles_from_k8s_secrets
  needles_from_k8s_secrets-AreLong [] out q = q
  needles_from_k8s_secrets-AreLong (secret ∷ secrets) out q =
      let prefix = codes "secret/" ++ (secret.namespace ++ (b'/' ∷ secret.name)) in
      let values = plain_values secret.plain (decode_values secret.encoded []) in
      next-AreLong k8s_min_len (add_values lib prefix values out)
        (needles_from_k8s_secrets lib secrets) (add_values-AreLong prefix values out q)
        (needles_from_k8s_secrets-AreLong secrets)

  -- Every value that needles_from_secret_file collects has sixteen bytes or more, and
  -- needles_from_k8s_secrets keeps an inventory whose values have twelve bytes or more one.
  pub needles-AreLong :
      (raw : Text) (secrets : List Secret) (out : Inventory)
      → AreLong k8s_min_len out
      → AreLong min_len (needles_from_secret_file lib raw).0
        × AreLong k8s_min_len (needles_from_k8s_secrets lib secrets out).0
  needles-AreLong raw secrets out q =
      (needles_from_secret_file-AreLong raw, needles_from_k8s_secrets-AreLong secrets out q)
