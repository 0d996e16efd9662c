-- ===== src/ReleaseGate/Inventory/Leaves.antt =====
-- Every text that stands long enough in a document is in the inventory.
use osac_test_infra.Prelude.{
  ℕ, zero, suc, ◌+◌, ◌≤◌, ◌≡◌, refl, sym, ap, ◌∙◌, true, false, some, [], ◌∷◌, arith, ltb,
  if◌then◌else◌, length, Bool-cases, inl, inr, Memᴰ,
}
use osac_test_infra.Prelude.Search.{Bytes, bytes_eq, bytes_eq_sound}
use osac_test_infra.ReleaseGate.Base64.{decode_b64}
use osac_test_infra.Text.{Text, encode_text}
use osac_test_infra.ReleaseGate.Censor.{Inventory}
use osac_test_infra.ReleaseGate.Inventory.{
  Json, str, arr, obj, Items, item, Fields, field, Library, Collected, next, set_default, AddText,
  collect, collect_items, collect_fields, add_nested, add_decoded, add_string, collect_needles,
  min_len, max_nesting, is_identity, sub_label, index_label, add_needle,
}
use osac_test_infra.ReleaseGate.Inventory.Keeps.{
  add_string-Keeps, collect_items-keeps, collect_fields-keeps, Keeps, add_nested-keeps,
  add_decoded-keeps,
}

-- A text stands in a document, under no key that names an identity.
mutual
  pub data HasText (text : Text) : Json → Type 0 where
    here : HasText text (str text)
    in_items : {items : Items} → ItemsHave text items → HasText text (arr items)
    in_fields : {fields : Fields} → FieldsHave text fields → HasText text (obj fields)

  pub data ItemsHave (text : Text) : Items → Type 0 where
    this_item : {v : Json} {items : Items} → HasText text v → ItemsHave text (item v items)
    later_item : {v : Json} {items : Items} → ItemsHave text items → ItemsHave text (item v items)

  pub data FieldsHave (text : Text) : Fields → Type 0 where
    this_field :
        {key : Text} {v : Json} {fields : Fields}
        → is_identity key ≡ false
        → HasText text v
        → FieldsHave text (field key v fields)
    later_field :
        {key : Text} {v : Json} {fields : Fields}
        → FieldsHave text fields
        → FieldsHave text (field key v fields)

-- The value is in the inventory, under some label.
abbrev pub IsKnown : Bytes → Inventory → Type 0
IsKnown needle out = (label : Text) × Memᴰ (needle, label) out

set_default-IsKnown_self :
    (needle : Bytes) (label : Text) (out : Inventory)
    → IsKnown needle (set_default needle label out)
unfolding set_default
set_default-IsKnown_self needle label [] = (label, Memᴰ.head refl)
set_default-IsKnown_self needle label ((n, l) ∷ out) = elim (Bool-cases (bytes_eq n needle)) [
  | inl t ↦ rw t (rw (bytes_eq_sound n needle t) (l, Memᴰ.head refl))
  | inr t ↦ let (l', m) = set_default-IsKnown_self needle label out in rw t (l', Memᴰ.tail m)
]

mem-set_default :
    (e : Bytes × Text) (needle : Bytes) (label : Text) (out : Inventory)
    → Memᴰ e out
    → Memᴰ e (set_default needle label out)
unfolding set_default
mem-set_default e needle label [] m = elim m [ ]
mem-set_default e needle label ((n, k) ∷ out) (Memᴰ.head p) =
    elim (Bool-cases (bytes_eq n needle)) [
      | inl t ↦ rw t (Memᴰ.head p)
      | inr t ↦ rw t (Memᴰ.head p)
    ]
mem-set_default e needle label ((n, k) ∷ out) (Memᴰ.tail m) =
    elim (Bool-cases (bytes_eq n needle)) [
      | inl t ↦ rw t (Memᴰ.tail m)
      | inr t ↦ rw t (Memᴰ.tail (mem-set_default e needle label out m))
    ]

set_default-IsKnown :
    (value needle : Bytes) (label : Text) (out : Inventory)
    → 0 ≤ length needle
    → IsKnown value out
    → IsKnown value (set_default needle label out)
set_default-IsKnown value needle label out h (l, m) =
    (l, mem-set_default (value, l) needle label out m)

-- `next` ended well: both statements did.
next-fine :
    (c : Collected) (f : Inventory → Collected)
    → (next c f).1 ≡ true
    → (c.1 ≡ true) × (next c f ≡ f c.0)
next-fine (out, true) f h = (refl, refl)
next-fine (out, false) f h = cc

module _ (text : Text) (needle : Bytes) (encodes : encode_text text ≡ some needle) where
  abbrev Known : Inventory → Type 0
  Known = IsKnown needle

  stays :
      (n : Bytes) (label : Text) (out : Inventory)
      → 0 ≤ length n
      → Known out
      → Known (set_default n label out)
  stays = set_default-IsKnown needle

  -- The function records this text.
  abbrev Records : AddText → Type 0
  Records add = (label : Text) (out : Inventory) → Known (add text label out).0

  module _ (add : AddText) (keeps : Keeps Known 0 stays add) (records : Records add) where
    mutual
      unfolding collect

      collect-finds :
          {v : Json}
          → HasText text v
          → (label : Text) (out : Inventory) → (collect add v label out).1 ≡ true
          → Known (collect add v label out).0
      collect-finds here label out h = records label out
      collect-finds (in_items m) label out h = collect_items-finds m label 0 out h
      collect-finds (in_fields m) label out h = collect_fields-finds m label out h

      collect_items-finds :
          {vs : Items}
          → ItemsHave text vs
          → (label : Text) (index : ℕ) (out : Inventory)
          → (collect_items add vs label index out).1 ≡ true
          → Known (collect_items add vs label index out).0
      collect_items-finds (this_item {v} {items = rest} m) label index out h =
          let c = collect add v (index_label label index) out in
          let (fine, goes_on) = next-fine c (collect_items add rest label (index + 1)) h in
          rw goes_on (
            collect_items-keeps Known 0 stays rest add label (index + 1) c.0 keeps
              (collect-finds m (index_label label index) out fine))
      collect_items-finds (later_item {v} {items = rest} m) label index out h =
          let c = collect add v (index_label label index) out in
          let (fine, goes_on) = next-fine c (collect_items add rest label (index + 1)) h in
          rw goes_on (
            collect_items-finds m label (index + 1) c.0
              (sym (ap (λ (x : Collected). x.1) goes_on) ∙ h))

      collect_fields-finds :
          {vs : Fields}
          → FieldsHave text vs
          → (label : Text) (out : Inventory) → (collect_fields add vs label out).1 ≡ true
          → Known (collect_fields add vs label out).0
      collect_fields-finds (this_field {key} {v} {fields = rest} p m) label out h =
          let c = collect add v (sub_label label key) out in
          let f = collect_fields add rest label in
          let h' : (next c f).1 ≡ true = rw p at h in
          let (fine, goes_on) = next-fine c f h' in
          rw p (
            rw goes_on (
              collect_fields-keeps Known 0 stays rest add label c.0 keeps
                (collect-finds m (sub_label label key) out fine)))
      collect_fields-finds (later_field {key} {v} {fields = rest} m) label out h =
          let c =
            if is_identity key then (out, true) else collect add v (sub_label label key) out in
          let (fine, goes_on) = next-fine c (collect_fields add rest label) h in
          rw goes_on
            (collect_fields-finds m label c.0 (sym (ap (λ (x : Collected). x.1) goes_on) ∙ h))

  next-Known :
      (c : Collected) (f : Inventory → Collected)
      → Known c.0
      → ((out : Inventory) → Known out → Known (f out).0)
      → Known (next c f).0
  next-Known (out, true) f h k = k out h
  next-Known (out, false) f h k = h

  module _ (lib : Library) where
    string-Keeps : (nesting : ℕ) → Keeps Known 0 stays (add_string lib nesting min_len)
    string-Keeps nesting =
        add_string-Keeps Known 0 stays lib nesting min_len (omega arith) (omega arith)

    add_string-Records :
        (nesting : ℕ) → min_len ≤ length text → Records (add_string lib nesting min_len)
    unfolding add_string add_needle
    add_string-Records zero long label out =
        let enough : ltb (length text) min_len ≡ false = ground arith in
        rw (enough, encodes) (set_default-IsKnown_self needle label out)
    add_string-Records (suc nesting) long label out =
        let enough : ltb (length text) min_len ≡ false = ground arith in
        let add = add_string lib nesting min_len in
        let out' = set_default needle label out in
        rw (enough, encodes)
          (next-Known (add_nested add (lib.loads text) label out')
            (λ o. add_decoded add (decode_b64 text) label o)
            (add_nested-keeps Known 0 stays add (lib.loads text) label out' (string-Keeps nesting)
              (set_default-IsKnown_self needle label out))
            (λ o k.
              add_decoded-keeps Known 0 stays add (decode_b64 text) label o (string-Keeps nesting)
                k))

    -- A text of sixteen characters or more that stands in a document, not under a key that names an
    -- identity, is in the inventory when the collection has ended without an exception.
    pub collect_needles-finds :
        (document : Json)
        → HasText text document
        → min_len ≤ length text
        → (label : Text) (out : Inventory) → (collect_needles lib document label out).1 ≡ true
        → IsKnown needle (collect_needles lib document label out).0
    unfolding collect_needles
    collect_needles-finds document m long label out h =
        collect-finds (add_string lib max_nesting min_len) (string-Keeps max_nesting)
          (add_string-Records max_nesting long) m label out h
