-- ===== src/ReleaseGate/Censor/Known.antt =====
-- A censoring that counts no hit has found no known value and has changed nothing.
use osac_test_infra.Prelude.{
  ℕ, suc, ◌≡◌, ◌≢◌, refl, false, List, [], ◌∷◌, ◌++◌, arith, length, codes, All, ap, ◌∙◌,
}
use mathlib.Core.Path.{subst}
use osac_test_infra.Prelude.Search.{Bytes, contains, count}
use osac_test_infra.Text.{Text}
use osac_test_infra.ReleaseGate.Censor.{
  Hits, add_hit, Item, Hash, censor_item, censor_known, replace_tokens, known_marker,
}

-- No item's pattern stands in the data.
abbrev pub IsFree : List Item → Bytes → Type 0
IsFree items raw = All (λ it. contains it.pattern raw ≡ false) items

pub add_hit-ne-nil : (key : Text) (n : ℕ) (hits : Hits) → add_hit key n hits ≢ []
unfolding add_hit
add_hit-ne-nil key n [] e = cc
add_hit-ne-nil key n ((k, m) ∷ hits) e = ground arith

module _ (hash : Hash) (shown : Text → Text) where
  censor_item_silent :
      (it : Item) (raw : Bytes) (hits : Hits)
      → (censor_item hash shown it (raw, hits)).1 ≡ []
      → (contains it.pattern raw ≡ false)
        × (hits ≡ [])
        × (censor_item hash shown it (raw, hits) ≡ (raw, hits))
  unfolding censor_item
  censor_item_silent it raw hits e =
      let key = codes "known-value:" ++ shown it.label in
      let tokens =
        replace_tokens (suc (length raw)) it.pattern (known_marker hash it.label (codes "b64"))
          raw in
      ground
        (arith, add_hit-ne-nil key tokens.1 hits, add_hit-ne-nil key (count it.pattern raw) hits)

  -- No hit and no change say the same of a pass over the known values as their absence.
  pub censor_known_silent :
      (items : List Item) (raw : Bytes) (hits : Hits)
      → (censor_known hash shown items (raw, hits)).1 ≡ []
      → IsFree items raw × (hits ≡ []) × (censor_known hash shown items (raw, hits) ≡ (raw, hits))
  unfolding censor_known
  censor_known_silent [] raw hits e = (tt, e, refl)
  censor_known_silent (it ∷ items) raw hits e =
      let (raw', hits') = censor_item hash shown it (raw, hits) in
      let (free, none_before, same) = censor_known_silent items raw' hits' e in
      let (absent, empty, kept) = censor_item_silent it raw hits none_before in
      (
        (absent, subst (IsFree items) (ap (λ (st : Bytes × Hits). st.0) kept) free),
        empty,
        same ∙ kept,
      )
