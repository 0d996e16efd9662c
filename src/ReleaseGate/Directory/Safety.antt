-- ===== src/ReleaseGate/Directory/Safety.antt =====
-- What the gate leaves in a directory holds no known value.
use osac_test_infra.Prelude.{
  ℕ, ◌≡◌, ◌≢◌, refl, ap, sym, Bool, true, false, not, some, List, [], ◌∷◌, arith, Bool-cases, inl,
  inr, is_empty, ltb, length, if◌then◌else◌,
}
use mathlib.Core.Path.{subst}
use mathlib.Core.Option.{some-injective}
use osac_test_infra.Prelude.Search.{Bytes, contains}
use osac_test_infra.Text.{Text, insert_text, sorted_set}
use osac_test_infra.ReleaseGate.Censor.{
  Hash, ShapeRule, Inventory, Item, patterns, shown_label, labels_present, present,
}
use osac_test_infra.ReleaseGate.Censor.Known.{IsFree}
use osac_test_infra.ReleaseGate.Censor.Silent.{AreSearches, censor_bytes_silent}
use osac_test_infra.ReleaseGate.Archive.{
  Codecs, Payload, not_archive, unreadable, unpacked, archive_payload,
}
use osac_test_infra.ReleaseGate.Directory.Steps.{process_entries-cons, process_entry-kind}
use osac_test_infra.ReleaseGate.Directory.{
  Kind, link, regular, other, Entry, After, removed, left, Failure, Report, Ending, done, throw,
  censor, survivors, try_unlink, by_archive_hits, write_clean, in_file, in_archive, by_payload,
  inspect, recover, process_kind, process_entry, process_entries, process_directory, no_findings,
}

insert_text-ne : (t : Text) (ts : List Text) → insert_text t ts ≢ []
unfolding insert_text
insert_text-ne t [] e = cc
insert_text-ne t (u ∷ us) e = ground arith

labels_present-IsFree :
    (shown : Text → Text) (items : List Item) (raw : Bytes)
    → labels_present shown items raw ≡ []
    → IsFree items raw
unfolding labels_present
labels_present-IsFree shown [] raw h = tt
labels_present-IsFree shown (it ∷ items) raw h = elim (Bool-cases (contains it.pattern raw)) [
  | inl t ↦ absurd (ground arith)
  | inr t ↦ (t, labels_present-IsFree shown items raw (ground arith))
]

sorted_set-nil : (ts : List Text) → sorted_set ts ≡ [] → ts ≡ []
unfolding sorted_set
sorted_set-nil [] h = refl
sorted_set-nil (t ∷ ts) h = absurd (insert_text-ne t (sorted_set ts) h)

-- The second search of the known values finds none.
pub present-IsFree :
    (shown : Text → Text) (items : List Item) (raw : Bytes)
    → present shown items raw ≡ []
    → IsFree items raw
unfolding present
present-IsFree shown items raw h =
    labels_present-IsFree shown items raw (sorted_set-nil (labels_present shown items raw) h)

module _ (hash : Hash) (rules : List ShapeRule) (laws : AreSearches rules) (codecs : Codecs)
    (max : ℕ) (inventory : Inventory) where
  -- A file that may be published: it is gone, it is plain and free of every known value, or it is
  -- an archive as it was, whose payload is free of them.
  pub data IsPublishable (content : Bytes) : After → Type 0 where
    gone : IsPublishable content removed
    plain :
        (raw : Bytes)
        → archive_payload codecs max content ≡ not_archive
        → IsFree (patterns inventory) raw
        → IsPublishable content (left raw)
    packed :
        (payload : Bytes)
        → archive_payload codecs max content ≡ unpacked payload
        → IsFree (patterns inventory) payload
        → IsPublishable content (left content)

  -- A `try` that runs through leaves a file that may be published.
  data EndsWell (content : Bytes) : Ending → Type 0 where
    well_done :
        {r : Report} {after : After} → IsPublishable content after → EndsWell content (done r after)
    well_thrown : {f : Failure} {r : Report} {after : After} → EndsWell content (throw f r after)

  EndsWell-if :
      (content : Bytes) (b : Bool) (x y : Ending)
      → (b ≡ true → EndsWell content x)
      → (b ≡ false → EndsWell content y)
      → EndsWell content (if b then x else y)
  EndsWell-if content true x y hx hy = hx refl
  EndsWell-if content false x y hx hy = hy refl

  nothing_left : {A : Type 0} (xs : List A) → not (is_empty xs) ≡ false → xs ≡ []
  nothing_left [] h = refl
  nothing_left (x ∷ xs) h = cc

  is_empty-nil : {A : Type 0} (xs : List A) → is_empty xs ≡ true → xs ≡ []
  is_empty-nil [] h = refl
  is_empty-nil (x ∷ xs) h = cc

  write_clean-EndsWell :
      (e : Entry) (cleaned : Bytes) (r : Report)
      → archive_payload codecs max e.content ≡ not_archive
      → EndsWell e.content (write_clean hash rules codecs max inventory false e cleaned r)
  unfolding write_clean survivors
  write_clean-EndsWell e cleaned r p =
      let labels = present (shown_label inventory) (patterns inventory) cleaned in
      EndsWell-if e.content (not (is_empty labels)) _ _
        (λ _.
          EndsWell-if e.content e.faults.unlink_fails _ _ (λ _. well_thrown) (λ _. well_done gone))
        (λ q.
          EndsWell-if e.content e.faults.write_fails _ _ (λ _. well_thrown)
            (λ _. well_done (
              plain cleaned p (
                present-IsFree (shown_label inventory) (patterns inventory) cleaned
                  (nothing_left labels q)))))

  silent :
      (raw : Bytes)
      → is_empty (censor hash rules codecs max inventory false raw).1 ≡ true
      → IsFree (patterns inventory) raw
  unfolding censor
  silent raw h =
      (censor_bytes_silent hash rules laws (shown_label inventory) (patterns inventory) raw
        (is_empty-nil _ h)).0

  in_file-EndsWell :
      (e : Entry) (r : Report)
      → archive_payload codecs max e.content ≡ not_archive
      → EndsWell e.content (in_file hash rules codecs max inventory false e r)
  unfolding in_file
  in_file-EndsWell e r p =
      EndsWell-if e.content _ _ _ (λ q. well_done (plain e.content p (silent e.content q)))
        (λ _. write_clean-EndsWell e _ _ p)

  try_unlink-EndsWell :
      (e : Entry) (r : Report)
      → EndsWell e.content (try_unlink hash rules codecs max inventory false e r)
  unfolding try_unlink
  try_unlink-EndsWell e r =
      EndsWell-if e.content e.faults.unlink_fails _ _ (λ _. well_thrown) (λ _. well_done gone)

  by_archive_hits-EndsWell :
      (e : Entry) (payload : Bytes) (r : Report)
      → archive_payload codecs max e.content ≡ unpacked payload
      → EndsWell e.content (
          by_archive_hits hash rules codecs max inventory false e
            (censor hash rules codecs max inventory false payload).1
            r)
  unfolding by_archive_hits
  by_archive_hits-EndsWell e payload r p =
      EndsWell-if e.content (is_empty (censor hash rules codecs max inventory false payload).1) _ _
        (λ q. well_done (packed payload p (silent payload q))) (λ _. try_unlink-EndsWell e _)

  in_archive-EndsWell :
      (e : Entry) (payload : Bytes) (r : Report)
      → archive_payload codecs max e.content ≡ unpacked payload
      → EndsWell e.content (in_archive hash rules codecs max inventory false e payload r)
  unfolding in_archive
  in_archive-EndsWell e payload r p =
      EndsWell-if e.content (ltb max (length payload)) _ _ (λ _. well_thrown)
        (λ _. by_archive_hits-EndsWell e payload r p)

  by_payload-EndsWell :
      (x : Payload) (e : Entry) (r : Report)
      → archive_payload codecs max e.content ≡ x
      → EndsWell e.content (by_payload hash rules codecs max inventory false x e r)
  unfolding by_payload
  by_payload-EndsWell not_archive e r p = in_file-EndsWell e r p
  by_payload-EndsWell unreadable e r p = well_thrown
  by_payload-EndsWell (unpacked payload) e r p = in_archive-EndsWell e payload r p

  inspect-EndsWell :
      (e : Entry) (r : Report)
      → EndsWell e.content (inspect hash rules codecs max inventory false e r)
  unfolding inspect
  inspect-EndsWell e r =
      EndsWell-if e.content e.faults.stat_fails _ _ (λ _. well_thrown)
        (λ _.
          EndsWell-if e.content (ltb max (length e.content)) _ _ (λ _. well_thrown)
            (λ _.
              EndsWell-if e.content e.faults.read_fails _ _ (λ _. well_thrown)
                (λ _. by_payload-EndsWell (archive_payload codecs max e.content) e r refl)))

  recover-IsPublishable :
      (e : Entry) (x : Ending)
      → e.faults.retry_fails ≡ false
      → EndsWell e.content x
      → IsPublishable e.content (recover hash rules codecs max inventory false e x).1
  unfolding recover
  recover-IsPublishable e _ h (well_done w) = w
  recover-IsPublishable e _ h well_thrown = rw h gone

  -- What is left of an entry: a symbolic link is gone, and a regular file may be published unless
  -- both attempts to remove it could fail.
  abbrev pub IsSafe : Entry → After → Type 0
  IsSafe e after =
      (e.kind ≡ link → after ≡ removed)
      × (e.kind ≡ regular → e.faults.retry_fails ≡ false → IsPublishable e.content after)

  abbrev pub AreSafe : List Entry → List After → Type 0
  AreSafe [] [] = Unit
  AreSafe [] (after ∷ afters) = ⊥
  AreSafe (e ∷ entries) [] = ⊥
  AreSafe (e ∷ entries) (after ∷ afters) = IsSafe e after × AreSafe entries afters

  process_kind-IsSafe :
      (k : Kind) (e : Entry) (r r' : Report) (after : After)
      → e.kind ≡ k
      → process_kind hash rules codecs max inventory false k e r ≡ some (r', after)
      → IsSafe e after
  unfolding process_kind
  process_kind-IsSafe link e r r' after k h = (λ _. ground arith, λ q. ground arith)
  process_kind-IsSafe other e r r' after k h = (λ q. ground arith, λ q. ground arith)
  process_kind-IsSafe regular e r r' after k h = (
    λ q. ground arith,
    λ _ retry.
        subst (IsPublishable e.content) (ap (λ (st : Report × After). st.1) (some-injective _ _ h))
          (recover-IsPublishable e _ retry (inspect-EndsWell e r)),
  )

  process_entries-AreSafe :
      (entries : List Entry) (r r' : Report) (afters : List After)
      → process_entries hash rules codecs max inventory false entries r ≡ some (r', afters)
      → AreSafe entries afters
  unfolding process_entries process_entry
  process_entries-AreSafe [] r r' [] h = tt
  process_entries-AreSafe [] r r' (after ∷ afters) h = cc
  process_entries-AreSafe (e ∷ entries) r r' afters h =
      let (mid, rest, p, q, s) =
        process_entries-cons hash rules codecs max inventory false e entries r r' afters h in
      subst (AreSafe (e ∷ entries)) (sym s) (
        process_kind-IsSafe e.kind e r mid.0 mid.1 refl
            (process_entry-kind hash rules codecs max inventory false e r mid p),
        process_entries-AreSafe entries mid.0 r' rest q,
      )

  -- When the gate comes to the end of a directory, every symbolic link is gone, and every regular
  -- file that could be removed at all is gone, or free of every known value in each form that the
  -- gate searches for, or an archive whose payload is free of them.
  pub process_directory-AreSafe :
      (entries : List Entry) (r : Report) (afters : List After)
      → process_directory hash rules codecs max inventory false entries ≡ some (r, afters)
      → AreSafe entries afters
  unfolding process_directory
  process_directory-AreSafe entries r afters h =
      process_entries-AreSafe entries no_findings r afters h
