-- ===== src/ReleaseGate/Censor/Silent.antt =====
-- When `censor_bytes` counts no hit, the data are as they were and hold no known value.
use osac_test_infra.Prelude.{
  ℕ, zero, suc, ◌≡◌, refl, ◌∙◌, List, [], ◌∷◌, ◌++◌, arith, length, codes, All, Bool-cases,
  Option-cases, inl, inr,
}
use osac_test_infra.Prelude.Search.{Bytes, bytes_eq}
use osac_test_infra.Text.{Text}
use osac_test_infra.ReleaseGate.Censor.{
  Hits, Item, Hash, ShapeRule, IsSearch, substitute, censor_shape, censor_shapes, censor_known,
  rounds, censor_bytes,
}
use osac_test_infra.ReleaseGate.Censor.Known.{IsFree, add_hit-ne-nil, censor_known_silent}

-- Every rule searches as `re` does.
abbrev pub AreSearches : List ShapeRule → Type 0
AreSearches rules = All (λ r. IsSearch r.search) rules

-- A substitution that replaced nothing returns its data.
substitute_none :
    (rule : ShapeRule)
    → IsSearch rule.search
    → (fuel : ℕ) (past rest : Bytes) → (substitute fuel rule past rest).1 ≡ 0
    → (substitute fuel rule past rest).0 ≡ rest
unfolding substitute
substitute_none rule law zero past rest h = refl
substitute_none rule law (suc fuel) past rest h = elim (Option-cases (rule.search past rest)) [
  | inl e ↦ ground arith
  | inr (m, e) ↦ ground (
    arith,
    law.splits past rest m e,
    substitute_none rule law fuel (past ++ (m.before ++ m.matched)) m.after,
  )
]

censor_shape_silent :
    (rule : ShapeRule)
    → IsSearch rule.search
    → (raw : Bytes) (hits : Hits) → (censor_shape rule (raw, hits)).1 ≡ []
    → (hits ≡ []) × (censor_shape rule (raw, hits) ≡ (raw, hits))
unfolding censor_shape
censor_shape_silent rule law raw hits e =
    let name = codes "shape:" ++ rule.name in
    let done = substitute (suc (length raw)) rule [] raw in
    ground
      (arith, add_hit-ne-nil name done.1 hits, substitute_none rule law (suc (length raw)) [] raw)

censor_shapes_silent :
    (rules : List ShapeRule)
    → AreSearches rules
    → (raw : Bytes) (hits : Hits) → (censor_shapes rules (raw, hits)).1 ≡ []
    → (hits ≡ []) × (censor_shapes rules (raw, hits) ≡ (raw, hits))
unfolding censor_shapes
censor_shapes_silent [] laws raw hits e = (e, refl)
censor_shapes_silent (rule ∷ rules) laws raw hits e =
    let (raw', hits') = censor_shape rule (raw, hits) in
    let (none_before, same) = censor_shapes_silent rules laws.1 raw' hits' e in
    let (empty, kept) = censor_shape_silent rule laws.0 raw hits none_before in (empty, same ∙ kept)

module _ (hash : Hash) (rules : List ShapeRule) (laws : AreSearches rules) (shown : Text → Text)
    (items : List Item) where
  round_silent :
      (raw : Bytes) (hits : Hits)
      → (censor_shapes rules (censor_known hash shown items (raw, hits))).1 ≡ []
      → IsFree items raw
        × (hits ≡ [])
        × (censor_shapes rules (censor_known hash shown items (raw, hits)) ≡ (raw, hits))
  round_silent raw hits e =
      let (raw', hits') = censor_known hash shown items (raw, hits) in
      let (none_before, same) = censor_shapes_silent rules laws raw' hits' e in
      let (free, empty, kept) = censor_known_silent hash shown items raw hits none_before in
      (free, empty, same ∙ kept)

  rounds_silent :
      (n : ℕ) (raw : Bytes) (hits : Hits)
      → (rounds hash rules n shown items (raw, hits)).1 ≡ []
      → (hits ≡ []) × (rounds hash rules n shown items (raw, hits) ≡ (raw, hits))
  unfolding rounds
  rounds_silent zero raw hits e = (e, refl)
  rounds_silent (suc n) raw hits e =
      let once = censor_shapes rules (censor_known hash shown items (raw, hits)) in
      elim (Bool-cases (bytes_eq once.0 raw)) [
        | inl t ↦
            let e' : once.1 ≡ [] = rw t at e in
            let (free, empty, same) = round_silent raw hits e' in (empty, rw t same)
        | inr t ↦
            let e' : (rounds hash rules n shown items once).1 ≡ [] = rw t at e in
            let (none_left, kept) = rounds_silent n once.0 once.1 e' in
            let (free, empty, same) = round_silent raw hits none_left in (empty, rw t (kept ∙ same))
      ]

  rounds-IsFree :
      (n : ℕ) (raw : Bytes) (hits : Hits)
      → (rounds hash rules (suc n) shown items (raw, hits)).1 ≡ []
      → IsFree items raw
  unfolding rounds
  rounds-IsFree n raw hits e =
      let once = censor_shapes rules (censor_known hash shown items (raw, hits)) in
      elim (Bool-cases (bytes_eq once.0 raw)) [
        | inl t ↦ let e' : once.1 ≡ [] = rw t at e in (round_silent raw hits e').0
        | inr t ↦
            let e' : (rounds hash rules n shown items once).1 ≡ [] = rw t at e in
            (round_silent raw hits (rounds_silent n once.0 once.1 e').0).0
      ]

  -- No hit counted: the bytes are unchanged, and no variant of any value stands in them.
  pub censor_bytes_silent :
      (raw : Bytes)
      → (censor_bytes hash rules shown items raw).1 ≡ []
      → IsFree items raw × (censor_bytes hash rules shown items raw ≡ (raw, []))
  unfolding censor_bytes
  censor_bytes_silent raw e = (rounds-IsFree 2 raw [] e, (rounds_silent 3 raw [] e).1)
