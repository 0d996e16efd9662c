-- ===== src/ReleaseGate/Censor/Finds.antt =====
-- A value of the inventory is found in every file that holds it, plain or inside base64.
use osac_test_infra.Prelude.{
  ℕ, ◌%◌, ◌≤◌, ◌<◌, ◌≡◌, ◌≢◌, sym, Bool, true, false, List, [], ◌∷◌, ◌++◌, arith, length, map, All,
  All-append_left, All-append_right, Memᴰ, Bool-cases, inl, inr, leb,
}
use mathlib.Core.Path.{subst}
use osac_test_infra.Prelude.Search.{Bytes, contains}
use osac_test_infra.Prelude.Search.Occurs.{
  contains_middle, contains_append_left, contains_append_right,
}
use osac_test_infra.Text.{Text}
use osac_test_infra.ReleaseGate.Base64.{Alphabet, encode}
use osac_test_infra.ReleaseGate.Variants.{Variant, middle, variants}
use osac_test_infra.ReleaseGate.Variants.Complete.{encode-contains-middle}
use osac_test_infra.ReleaseGate.Variants.Listed.{All-variants}
use osac_test_infra.ReleaseGate.Censor.{
  Hash, ShapeRule, Inventory, AreSearchable, item_of, insert_by_length, sort_scan, longest_first,
  items_of, patterns, censor_bytes,
}
use osac_test_infra.ReleaseGate.Censor.Known.{IsFree}
use osac_test_infra.ReleaseGate.Censor.Silent.{AreSearches, censor_bytes_silent}

module _ (R : Bytes × Text → Type 0) where
  All-insert : (e : Bytes × Text) (l : Inventory) → All R (insert_by_length e l) → R e × All R l
  unfolding insert_by_length
  All-insert e [] h = (h.0, tt)
  All-insert e (f ∷ rest) h = elim (Bool-cases (leb (length e.0) (length f.0))) [
    | inl t ↦
        let h' : R f × All R (insert_by_length e rest) = rw t at h in
        let (of_e, of_rest) = All-insert e rest h'.1 in (of_e, (h'.0, of_rest))
    | inr t ↦ let h' : R e × (R f × All R rest) = rw t at h in h'
  ]

  All-sort_scan :
      (todo sorted : Inventory) → All R (sort_scan todo sorted) → All R todo × All R sorted
  unfolding sort_scan
  All-sort_scan [] sorted h = (tt, h)
  All-sort_scan (e ∷ rest) sorted h =
      let (of_rest, of_new) = All-sort_scan rest (insert_by_length e sorted) h in
      let (of_e, of_sorted) = All-insert e sorted of_new in ((of_e, of_rest), of_sorted)

  All-mem : (l : Inventory) (e : Bytes × Text) → Memᴰ e l → All R l → R e
  All-mem [] e m h = elim m [ ]
  All-mem (x ∷ l) e (Memᴰ.head p) h = subst R (sym p) h.0
  All-mem (x ∷ l) e (Memᴰ.tail m) h = All-mem l e m h.1

-- No variant of the value is in the data.
abbrev IsFreeOf : Bytes → Bytes × Text → Type 0
IsFreeOf raw e = All (λ v. contains v.pattern raw ≡ false) (variants e.0)

All-map :
    (raw : Bytes) (label : Text) (vs : List Variant)
    → IsFree (map (item_of label) vs) raw
    → All (λ v. contains v.pattern raw ≡ false) vs
All-map raw label [] h = tt
All-map raw label (v ∷ vs) h = (h.0, All-map raw label vs h.1)

IsFree-items_of : (raw : Bytes) (l : Inventory) → IsFree (items_of l) raw → All (IsFreeOf raw) l
unfolding items_of
IsFree-items_of raw [] h = tt
IsFree-items_of raw ((needle, label) ∷ l) h =
    let here = map (item_of label) (variants needle) in
    (
      All-map raw label (variants needle) (All-append_left _ here (items_of l) h),
      IsFree-items_of raw l (All-append_right _ here (items_of l) h),
    )

IsFree-patterns :
    (raw : Bytes) (inventory : Inventory) (needle : Bytes) (label : Text)
    → Memᴰ (needle, label) inventory
    → IsFree (patterns inventory) raw
    → All (λ v. contains v.pattern raw ≡ false) (variants needle)
unfolding patterns longest_first
IsFree-patterns raw inventory needle label m free =
    All-mem (IsFreeOf raw) inventory (needle, label) m
      (All-sort_scan (IsFreeOf raw) inventory []
        (IsFree-items_of raw (longest_first inventory) free)).0

-- Data that are free of the inventory's patterns hold no value of it, plain or encoded.
pub IsFree-no_value :
    (inventory : Inventory) (needle : Bytes) (label : Text) (raw : Bytes)
    → Memᴰ (needle, label) inventory
    → IsFree (patterns inventory) raw
    → (contains needle raw ≡ false)
      × ((al : Alphabet) (pad : ℕ) → pad < 3 → contains (middle al pad needle) raw ≡ false)
IsFree-no_value inventory needle label raw m free =
    All-variants (λ p. contains p raw ≡ false) needle
      (IsFree-patterns raw inventory needle label m free)

not-false-true : {b : Bool} → b ≡ false → b ≡ true → ⊥
not-false-true p q = cc

module _ (hash : Hash) (rules : List ShapeRule) (laws : AreSearches rules) (shown : Text → Text)
    (inventory : Inventory) (needle : Bytes) (label : Text)
    (known : Memᴰ (needle, label) inventory) where
  -- A file in which a value of the inventory stands as it is always counts a hit.
  pub censor_bytes-finds_plain :
      (before after : Bytes)
      → (censor_bytes hash rules shown (patterns inventory) (before ++ (needle ++ after))).1 ≢ []
  censor_bytes-finds_plain before after e =
      let raw = before ++ (needle ++ after) in
      let free = (censor_bytes_silent hash rules laws shown (patterns inventory) raw e).0 in
      not-false-true (IsFree-no_value inventory needle label raw known free).0
        (contains_middle needle before after)

  -- If every value has at least seven bytes, so that each search ends, then so does one that holds,
  -- among other things, the base64 of any bytes with the value inside, at every offset and in both
  -- alphabets.
  pub censor_bytes-finds_base64 :
      (al : Alphabet) (before pre post after : Bytes)
      → AreSearchable inventory
      → (censor_bytes hash rules shown
          (patterns inventory)
          (before ++ (encode al (pre ++ (needle ++ post)) ++ after))).1
        ≢ []
  censor_bytes-finds_base64 al before pre post after searchable e =
      let long = All-mem (λ v. 7 ≤ length v.0) inventory (needle, label) known searchable in
      let coded = encode al (pre ++ (needle ++ post)) in
      let raw = before ++ (coded ++ after) in
      let free = (censor_bytes_silent hash rules laws shown (patterns inventory) raw e).0 in
      let m = middle al (length pre % 3) needle in
      not-false-true
        ((IsFree-no_value inventory needle label raw known free).1 al (length pre % 3)
          (omega arith))
        (contains_append_left m before (coded ++ after) (
          contains_append_right m coded after
            (encode-contains-middle al pre needle post (omega (arith, long)))))
