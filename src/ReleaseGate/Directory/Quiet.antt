-- ===== src/ReleaseGate/Directory/Quiet.antt =====
-- What the gate changes or removes it reports.
use osac_test_infra.Prelude.{
  ℕ, ◌≡◌, refl, ◌∙◌, Bool, true, false, some, List, [], ◌∷◌, ◌++◌, arith, is_empty, ltb, length,
  if◌then◌else◌, map,
}
use osac_test_infra.Prelude.Search.{Bytes}
use osac_test_infra.Text.{Text}
use osac_test_infra.ReleaseGate.Censor.{Hits, Hash, ShapeRule, Inventory}
use osac_test_infra.ReleaseGate.Archive.{
  Codecs, Payload, not_archive, unreadable, unpacked, archive_payload,
}
use osac_test_infra.ReleaseGate.Directory.{
  Kind, link, regular, other, Entry, After, left, Report, Reason, Ending, done, throw, censor,
  in_file, in_archive, by_payload, inspect, recover, process_kind, process_entry, process_entries,
  process_directory, no_findings, found, add_withheld, add_censored, symbolic_link, raised,
  insert_hit, sort_hits, inside_archive, survived, survivors, Censored, Failure, os_error,
  too_large,
}
use osac_test_infra.ReleaseGate.Directory.Steps.{process_entries-cons, process_entry-kind}

is_empty-snoc : {A : Type 0} (xs : List A) (y : A) → is_empty (xs ++ y ∷ []) ≡ false
is_empty-snoc [] y = refl
is_empty-snoc (x ∷ xs) y = refl

is_empty-append : {A : Type 0} (xs ys : List A) → is_empty ys ≡ false → is_empty (xs ++ ys) ≡ false
is_empty-append [] ys h = h
is_empty-append (x ∷ xs) ys h = refl

is_empty-map : {A B : Type 0} (f : A → B) (xs : List A) → is_empty (map f xs) ≡ is_empty xs
is_empty-map f [] = refl
is_empty-map f (x ∷ xs) = refl

is_empty-insert_hit : (h : Text × ℕ) (hits : Hits) → is_empty (insert_hit h hits) ≡ false
unfolding insert_hit
is_empty-insert_hit h [] = refl
is_empty-insert_hit h (g ∷ hits) = ground arith

is_empty-sort_hits : (hits : Hits) → is_empty hits ≡ false → is_empty (sort_hits hits) ≡ false
unfolding sort_hits
is_empty-sort_hits [] h = h
is_empty-sort_hits (h ∷ hits) _ = is_empty-insert_hit h (sort_hits hits)

found-add_withheld :
    (name : Text) (reason : Reason) (r : Report) → found (add_withheld name reason r) ≡ true
unfolding found add_withheld
found-add_withheld name reason r =
    ground (arith, is_empty-snoc r.withheld (record { file = name; reason = reason }))

found-add_censored :
    (name : Text) (hits : Hits) (r : Report)
    → is_empty hits ≡ false
    → found (add_censored name hits r) ≡ true
unfolding found add_censored
found-add_censored name hits r h =
    let f : Text × ℕ → Censored = λ k. record { file = name; rule = k.0; count = k.1 } in
    let rows = map f (sort_hits hits) in
    let e : is_empty rows ≡ false = is_empty-map f (sort_hits hits) ∙ is_empty-sort_hits hits h in
    rw (is_empty-append r.censored rows e) refl

module _ (hash : Hash) (rules : List ShapeRule) (codecs : Codecs) (max : ℕ) (inventory : Inventory)
    (check : Bool) where
  -- A `try` that ran through with nothing found has changed nothing.
  abbrev EndsQuietly : Entry → Report → Ending → Type 0
  EndsQuietly e r (done r' after) = found r' ≡ false → (after ≡ left e.content) × (r' ≡ r)
  EndsQuietly e r (throw f r' after) = Unit

  in_file-quiet :
      (e : Entry) (r : Report) → EndsQuietly e r (in_file hash rules codecs max inventory check e r)
  unfolding in_file
  in_file-quiet e r =
      let (cleaned, hits) = censor hash rules codecs max inventory check e.content in
      let labels = survivors hash rules codecs max inventory check cleaned in
      ground (
        arith,
        found-add_censored e.name hits r,
        found-add_withheld e.name (survived labels) (add_censored e.name hits r),
      )

  in_archive-quiet :
      (e : Entry) (payload : Bytes) (r : Report)
      → EndsQuietly e r (in_archive hash rules codecs max inventory check e payload r)
  unfolding in_archive
  in_archive-quiet e payload r =
      let hits = (censor hash rules codecs max inventory check payload).1 in
      let rules_hit = map (λ (h : Text × ℕ). h.0) (sort_hits hits) in
      ground (arith, found-add_withheld e.name (inside_archive rules_hit) r)

  by_payload-quiet :
      (x : Payload) (e : Entry) (r : Report)
      → EndsQuietly e r (by_payload hash rules codecs max inventory check x e r)
  unfolding by_payload
  by_payload-quiet not_archive e r = in_file-quiet e r
  by_payload-quiet unreadable e r = tt
  by_payload-quiet (unpacked payload) e r = in_archive-quiet e payload r

  EndsQuietly-if :
      (e : Entry) (r : Report) (b : Bool) (x y : Ending)
      → EndsQuietly e r x
      → EndsQuietly e r y
      → EndsQuietly e r (if b then x else y)
  EndsQuietly-if e r true x y hx hy = hx
  EndsQuietly-if e r false x y hx hy = hy

  inspect-quiet :
      (e : Entry) (r : Report) → EndsQuietly e r (inspect hash rules codecs max inventory check e r)
  unfolding inspect
  inspect-quiet e r =
      let thrown = λ (f : Failure). throw f r (left e.content) in
      let tried =
        by_payload hash rules codecs max inventory check (archive_payload codecs max e.content) e
          r in
      let read = if e.faults.read_fails then thrown os_error else tried in
      let sized = if ltb max (length e.content) then thrown too_large else read in
      EndsQuietly-if e r e.faults.stat_fails (thrown os_error) sized tt (
        EndsQuietly-if e r (ltb max (length e.content)) (thrown too_large) read tt (
          EndsQuietly-if e r e.faults.read_fails (thrown os_error) tried tt
            (by_payload-quiet (archive_payload codecs max e.content) e r)))

  recover-quiet :
      (e : Entry) (r : Report) (x : Ending)
      → EndsQuietly e r x
      → let out = recover hash rules codecs max inventory check e x in
        found out.0 ≡ false → (out.1 ≡ left e.content) × (out.0 ≡ r)
  unfolding recover
  recover-quiet e r (done r' after) quiet h = quiet h
  recover-quiet e r (throw f r' after) quiet h =
      absurd (ground (arith, found-add_withheld e.name (raised f) r'))

  process_kind-quiet :
      (k : Kind) (e : Entry) (r : Report) (out : Report × After)
      → process_kind hash rules codecs max inventory check k e r ≡ some out
      → found out.0 ≡ false
      → (out.1 ≡ left e.content) × (out.0 ≡ r)
  unfolding process_kind
  process_kind-quiet link e r out p h =
      absurd (ground (arith, found-add_withheld e.name symbolic_link r))
  process_kind-quiet other e r out p h = ground arith
  process_kind-quiet regular e r out p h =
      let x = inspect hash rules codecs max inventory check e r in
      ground (arith, recover-quiet e r x (inspect-quiet e r))

  process_entries-quiet :
      (entries : List Entry) (r r' : Report) (afters : List After)
      → process_entries hash rules codecs max inventory check entries r ≡ some (r', afters)
      → found r' ≡ false
      → (afters ≡ map (λ e. left e.content) entries) × (r' ≡ r)
  unfolding process_entry
  process_entries-quiet [] r r' afters p h = unfold process_entries in ground arith
  process_entries-quiet (e ∷ entries) r r' afters p h =
      let (mid, rest, first, others, split) =
        process_entries-cons hash rules codecs max inventory check e entries r r' afters p in
      let (kept, same) = process_entries-quiet entries mid.0 r' rest others h in
      let (left_alone, before) =
        process_kind-quiet e.kind e r mid
          (process_entry-kind hash rules codecs max inventory check e r mid first) (ground arith) in
      (ground arith, same ∙ before)

  -- A run whose report finds nothing has left every file with the content that it had.
  pub process_directory-quiet :
      (entries : List Entry) (r : Report) (afters : List After)
      → process_directory hash rules codecs max inventory check entries ≡ some (r, afters)
      → found r ≡ false
      → afters ≡ map (λ e. left e.content) entries
  unfolding process_directory
  process_directory-quiet entries r afters p h =
      (process_entries-quiet entries no_findings r afters p h).0

  -- A report that finds nothing lists nothing.
  pub process_directory-no_findings :
      (entries : List Entry) (r : Report) (afters : List After)
      → process_directory hash rules codecs max inventory check entries ≡ some (r, afters)
      → found r ≡ false
      → r ≡ no_findings
  unfolding process_directory
  process_directory-no_findings entries r afters p h =
      (process_entries-quiet entries no_findings r afters p h).1
