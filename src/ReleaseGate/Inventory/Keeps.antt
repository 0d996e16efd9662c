-- ===== src/ReleaseGate/Inventory/Keeps.antt =====
-- A property of the dictionary that `setdefault` keeps for long enough values is kept by the whole
-- collection, whether it raises or not.
use osac_test_infra.Prelude.{
  ℕ, zero, suc, ◌+◌, ◌≤◌, ◌≡◌, refl, Bool, true, false, Option, none, some, [], ◌∷◌, ◌++◌, arith,
  codes, ltb, if◌then◌else◌, length, length-append, Bool-cases, Option-cases, inl, inr,
}
use osac_test_infra.Prelude.Search.{Bytes}
use osac_test_infra.ReleaseGate.Base64.{decode_b64}
use osac_test_infra.Text.{Text, encode_text, encode_char, decode_strict, after_colon}
use osac_test_infra.ReleaseGate.Censor.{Inventory}
use osac_test_infra.ReleaseGate.Inventory.{
  Json, scalar, str, arr, obj, Items, no_items, item, Fields, no_fields, field, Library, Collected,
  next, set_default, AddText, collect, collect_items, collect_fields, add_nested, add_decoded_text,
  add_decoded, add_string, collect_needles, min_len, max_nesting, is_identity, add_password,
  add_needle, sub_label, index_label,
}

length-encode_char : (c : ℕ) (b : Bytes) → encode_char c ≡ some b → 1 ≤ length b
unfolding encode_char
length-encode_char c b h = ground arith

-- A text has at least as many bytes as characters.
pub length-encode_text :
    (text : Text) (needle : Bytes) → encode_text text ≡ some needle → length text ≤ length needle
unfolding encode_text
length-encode_text [] needle h = omega arith
length-encode_text (c ∷ cs) needle h = elim (Option-cases (encode_char c)) [
  | inl p ↦ absurd (ground arith)
  | inr (b, p) ↦ elim (Option-cases (encode_text cs)) [
    | inl q ↦ absurd (ground arith)
    | inr (bs, q) ↦
        ground (arith, length-append b bs, length-encode_char c b p, length-encode_text cs bs q)
  ]
]

module _ (Q : Inventory → Type 0) (least : ℕ)
    (base : (needle : Bytes) (label : Text) (out : Inventory)
      → least ≤ length needle
      → Q out
      → Q (set_default needle label out)) where
  abbrev pub Keeps : AddText → Type 0
  Keeps add = (text label : Text) (out : Inventory) → Q out → Q (add text label out).0

  next-keeps :
      (c : Collected) (f : Inventory → Collected)
      → Q c.0
      → ((out : Inventory) → Q out → Q (f out).0)
      → Q (next c f).0
  next-keeps (out, true) f h k = k out h
  next-keeps (out, false) f h k = h

  if-keeps : (b : Bool) (c d : Collected) → Q c.0 → Q d.0 → Q (if b then c else d).0
  if-keeps true c d hc hd = hc
  if-keeps false c d hc hd = hd

  mutual
    unfolding collect

    pub collect-keeps :
        (v : Json) (add : AddText) (label : Text) (out : Inventory)
        → Keeps add
        → Q out
        → Q (collect add v label out).0
    collect-keeps scalar add label out k h = h
    collect-keeps (str text) add label out k h = k text label out h
    collect-keeps (arr items) add label out k h = collect_items-keeps items add label 0 out k h
    collect-keeps (obj fields) add label out k h = collect_fields-keeps fields add label out k h

    pub collect_items-keeps :
        (vs : Items) (add : AddText) (label : Text) (index : ℕ) (out : Inventory)
        → Keeps add
        → Q out
        → Q (collect_items add vs label index out).0
    collect_items-keeps no_items add label index out k h = h
    collect_items-keeps (item v vs) add label index out k h =
        next-keeps (collect add v (index_label label index) out)
          (collect_items add vs label (index + 1))
          (collect-keeps v add (index_label label index) out k h)
          (λ out' h'. collect_items-keeps vs add label (index + 1) out' k h')

    pub collect_fields-keeps :
        (vs : Fields) (add : AddText) (label : Text) (out : Inventory)
        → Keeps add
        → Q out
        → Q (collect_fields add vs label out).0
    collect_fields-keeps no_fields add label out k h = h
    collect_fields-keeps (field key v vs) add label out k h =
        next-keeps
          (if is_identity key then (out, true) else collect add v (sub_label label key) out)
          (collect_fields add vs label)
          (if-keeps (is_identity key) (out, true) (collect add v (sub_label label key) out) h
            (collect-keeps v add (sub_label label key) out k h))
          (λ out' h'. collect_fields-keeps vs add label out' k h')

  pub add_nested-keeps :
      (add : AddText) (v : Option Json) (label : Text) (out : Inventory)
      → Keeps add
      → Q out
      → Q (add_nested add v label out).0
  unfolding add_nested
  add_nested-keeps add (some (arr items)) label out k h =
      collect-keeps (arr items) add label out k h
  add_nested-keeps add (some (obj fields)) label out k h =
      collect-keeps (obj fields) add label out k h
  add_nested-keeps add (some scalar) label out k h = h
  add_nested-keeps add (some (str t)) label out k h = h
  add_nested-keeps add none label out k h = h

  password-keeps :
      (add : AddText) (password : Option Text) (label : Text) (out : Inventory)
      → Keeps add
      → Q out
      → Q (add_password add password label out).0
  unfolding add_password
  password-keeps add none label out k h = h
  password-keeps add (some p) label out k h = k p _ out h

  add_decoded_text-keeps :
      (add : AddText) (text : Option Text) (label : Text) (out : Inventory)
      → Keeps add
      → Q out
      → Q (add_decoded_text add text label out).0
  unfolding add_decoded_text
  add_decoded_text-keeps add none label out k h = h
  add_decoded_text-keeps add (some text) label out k h =
      next-keeps (add_password add (after_colon text) label out)
        (add text (label ++ codes "(decoded)"))
        (password-keeps add (after_colon text) label out k h) (k text (label ++ codes "(decoded)"))

  pub add_decoded-keeps :
      (add : AddText) (raw : Option Bytes) (label : Text) (out : Inventory)
      → Keeps add
      → Q out
      → Q (add_decoded add raw label out).0
  unfolding add_decoded
  add_decoded-keeps add none label out k h = h
  add_decoded-keeps add (some []) label out k h = h
  add_decoded-keeps add (some (b ∷ bs)) label out k h =
      add_decoded_text-keeps add (decode_strict (b ∷ bs)) label out k h

  add_needle-keeps :
      (text label : Text) (needle : Option Bytes) (rest : Inventory → Collected) (out : Inventory)
      → encode_text text ≡ needle
      → least ≤ length text
      → ((out' : Inventory) → Q out' → Q (rest out').0)
      → Q out
      → Q (add_needle needle label rest out).0
  unfolding add_needle
  add_needle-keeps text label none rest out e long k h = h
  add_needle-keeps text label (some needle) rest out e long k h =
      k (set_default needle label out)
        (base needle label out (omega (arith, length-encode_text text needle e)) h)

  module _ (lib : Library) where
    pub add_string-Keeps :
        (nesting shortest : ℕ)
        → least ≤ shortest
        → least ≤ min_len
        → Keeps (add_string lib nesting shortest)
    unfolding add_string
    add_string-Keeps zero shortest h m text label out q =
        elim (Bool-cases (ltb (length text) shortest)) [
          | inl short ↦ rw short q
          | inr long ↦ rw long (
              add_needle-keeps text label (encode_text text) _ out refl (ground arith) (λ _ p. p) q)
        ]
    add_string-Keeps (suc nesting) shortest h m text label out q =
        let add = add_string lib nesting min_len in
        let k = add_string-Keeps nesting min_len m m in
        elim (Bool-cases (ltb (length text) shortest)) [
          | inl short ↦ rw short q
          | inr long ↦ rw long (
              add_needle-keeps text label (encode_text text) _ out refl (ground arith)
                (λ out' p.
                  next-keeps (add_nested add (lib.loads text) label out')
                    (λ o. add_decoded add (decode_b64 text) label o)
                    (add_nested-keeps add (lib.loads text) label out' k p)
                    (λ o p'. add_decoded-keeps add (decode_b64 text) label o k p'))
                q)
        ]

    pub collect_needles-keeps :
        least ≤ min_len
        → (v : Json) (label : Text) (out : Inventory) → Q out
        → Q (collect_needles lib v label out).0
    unfolding collect_needles
    collect_needles-keeps m v label out q =
        collect-keeps v (add_string lib max_nesting min_len) label out
          (add_string-Keeps max_nesting min_len m m) q
