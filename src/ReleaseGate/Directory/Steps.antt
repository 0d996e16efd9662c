-- ===== src/ReleaseGate/Directory/Steps.antt =====
-- The loop over the entries of a directory, one round at a time.
use osac_test_infra.Prelude.{ℕ, ◌≡◌, Bool, Option, some, List, ◌∷◌, arith, Option-cases, inl, inr}
use osac_test_infra.ReleaseGate.Censor.{Hash, ShapeRule, Inventory}
use osac_test_infra.ReleaseGate.Archive.{Codecs}
use osac_test_infra.ReleaseGate.Directory.{
  Entry, After, Report, process_entry, process_kind, process_entries,
}

module _ (hash : Hash) (rules : List ShapeRule) (codecs : Codecs) (max : ℕ) (inventory : Inventory)
    (check : Bool) where
  abbrev round : Entry → Report → Option (Report × After)
  round = process_entry hash rules codecs max inventory check

  abbrev loop : List Entry → Report → Option (Report × List After)
  loop = process_entries hash rules codecs max inventory check

  -- A loop that came to its end went through its first round and through the others.
  pub process_entries-cons :
      (e : Entry) (entries : List Entry) (r r' : Report) (afters : List After)
      → loop (e ∷ entries) r ≡ some (r', afters)
      → (mid : Report × After) × (rest : List After) × (round e r ≡ some mid)
        × (loop entries mid.0 ≡ some (r', rest))
        × (afters ≡ mid.1 ∷ rest)
  unfolding process_entries
  process_entries-cons e entries r r' afters h = elim (Option-cases (round e r)) [
    | inl p ↦ absurd (ground arith)
    | inr (mid, p) ↦ elim (Option-cases (loop entries mid.0)) [
      | inl q ↦ absurd (ground arith)
      | inr (end, q) ↦ (mid, end.1, p, ground arith, ground arith)
    ]
  ]

  -- A round that comes to its end has found out what kind of thing the entry is.
  pub process_entry-kind :
      (e : Entry) (r : Report) (out : Report × After)
      → round e r ≡ some out
      → process_kind hash rules codecs max inventory check e.kind e r ≡ some out
  unfolding process_entry
  process_entry-kind e r out h = ground arith
