-- ===== src/ReleaseGate/Directory/Check.antt =====
-- What a check run does to a directory, and what a report that finds nothing means.
use osac_test_infra.Prelude.{
  ℕ, ◌≡◌, refl, ap, ◌∙◌, true, false, some, List, All, [], ◌∷◌, arith, map,
}
use osac_test_infra.ReleaseGate.Censor.{Hash, ShapeRule, Inventory, AreSearchable}
use osac_test_infra.ReleaseGate.Archive.{
  Codecs, Payload, not_archive, unreadable, unpacked, archive_payload,
}
use osac_test_infra.ReleaseGate.Directory.{
  Kind, link, regular, other, Entry, After, left, Report, Ending, done, throw, by_payload, inspect,
  recover, process_kind, process_entry, process_entries, process_directory, no_findings,
  add_withheld, symbolic_link,
}

abbrev after_of : Ending → After
after_of (done r after) = after
after_of (throw f r after) = after

module _ (hash : Hash) (rules : List ShapeRule) (codecs : Codecs) (max : ℕ)
    (inventory : Inventory) where
  by_payload-check :
      (x : Payload) (e : Entry) (r : Report)
      → after_of (by_payload hash rules codecs max inventory true x e r) ≡ left e.content
  unfolding by_payload
  by_payload-check not_archive e r = ground arith
  by_payload-check unreadable e r = refl
  by_payload-check (unpacked payload) e r = ground arith

  inspect-check :
      (e : Entry) (r : Report)
      → after_of (inspect hash rules codecs max inventory true e r) ≡ left e.content
  unfolding inspect
  inspect-check e r = ground (arith, by_payload-check (archive_payload codecs max e.content) e r)

  recover-check :
      (e : Entry) (x : Ending) → (recover hash rules codecs max inventory true e x).1 ≡ after_of x
  unfolding recover
  recover-check e (done r after) = refl
  recover-check e (throw f r after) = refl

  process_kind-check :
      (k : Kind) (e : Entry) (r : Report)
      → (r' : Report) × (process_kind hash rules codecs max inventory true k e r
          ≡ some (r', left e.content))
  unfolding process_kind
  process_kind-check link e r = (add_withheld e.name symbolic_link r, refl)
  process_kind-check other e r = (r, refl)
  process_kind-check regular e r =
      let x = inspect hash rules codecs max inventory true e r in
      let r' = (recover hash rules codecs max inventory true e x).0 in
      (r', ap (λ (a : After). some (r', a)) (recover-check e x ∙ inspect-check e r))

  process_entry-check :
      (e : Entry) (r : Report)
      → e.faults.kind_fails ≡ false
      → (r' : Report) × (process_entry hash rules codecs max inventory true e r
          ≡ some (r', left e.content))
  unfolding process_entry
  process_entry-check e r k =
      let (r', p) = process_kind-check e.kind e r in (r', ground (arith, p, k))

  process_entries-check :
      (entries : List Entry) (r : Report)
      → All (λ e. e.faults.kind_fails ≡ false) entries
      → (r' : Report) × (process_entries hash rules codecs max inventory true entries r
          ≡ some (r', map (λ e. left e.content) entries))
  unfolding process_entries
  process_entries-check [] r k = (r, refl)
  process_entries-check (e ∷ entries) r (k, ks) =
      let (mid, p) = process_entry-check e r k in
      let (r', q) = process_entries-check entries mid ks in (r', ground (arith, p, q))

  -- If every value has at least seven bytes and the kind of each entry can be asked, a check run comes
  -- to its end, whatever other file operation fails, and leaves each file with its content.
  pub process_directory-check :
      (entries : List Entry)
      → AreSearchable inventory
      → All (λ e. e.faults.kind_fails ≡ false) entries
      → (r : Report) × (process_directory hash rules codecs max inventory true entries
          ≡ some (r, map (λ e. left e.content) entries))
  unfolding process_directory
  process_directory-check entries long k = process_entries-check entries no_findings k
