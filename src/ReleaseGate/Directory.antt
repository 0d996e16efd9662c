-- ===== src/ReleaseGate/Directory.antt =====
-- The gate over a directory: `Report` and `process_directory` of .github/scripts/release_gate.py.
-- An entry of the directory carries the outcome of each file operation on it, which the file
-- system decides.
pub mod Steps
pub mod Safety
pub mod Check
pub mod Quiet
use osac_test_infra.Prelude.{
  ℕ, zero, suc, ◌+◌, Bool, true, false, not, Option, none, some, List, [], ◌∷◌, ◌++◌, ltb, ◌&&◌,
  ◌||◌, if◌then◌else◌, length, map, is_empty,
}
use osac_test_infra.Prelude.Search.{Bytes}
use osac_test_infra.Text.{Text, text_lt}
use osac_test_infra.ReleaseGate.Censor.{
  Hits, Hash, ShapeRule, Inventory, patterns, shown_label, censor_bytes, present,
}
use osac_test_infra.ReleaseGate.Archive.{
  Codecs, Payload, not_archive, unreadable, unpacked, archive_payload,
}

-- What `os.walk` finds: a symbolic link, a regular file, or another thing such as a pipe.
pub data Kind : Type 0 where
  link regular other : Kind

-- Which operations on the entry raise OSError: `is_symlink` or `is_file`, which stand outside the
-- `try`; `stat`, `read_bytes`, `write_bytes`, `unlink`, and `unlink` called once more after an
-- exception. A write that fails leaves `partial` behind.
pub record Faults : Type 0 where
  pub kind_fails : Bool
  pub stat_fails : Bool
  pub read_fails : Bool
  pub write_fails : Bool
  pub unlink_fails : Bool
  pub retry_fails : Bool
  pub partial : Bytes

pub record Entry : Type 0 where
  pub name : Text
  pub kind : Kind
  pub content : Bytes
  pub faults : Faults

-- What stands at the entry's path afterwards.
pub data After : Type 0 where
  removed : After
  left : Bytes → After

pub data Failure : Type 0 where
  os_error too_large bad_archive archive_too_large : Failure

pub data Reason : Type 0 where
  symbolic_link : Reason
  inside_archive : List Text → Reason
  survived : List Text → Reason
  raised : Failure → Reason

pub record Censored : Type 0 where
  pub file : Text
  pub rule : Text
  pub count : ℕ

pub record Withheld : Type 0 where
  pub file : Text
  pub reason : Reason

pub record Report : Type 0 where
  pub censored : List Censored
  pub withheld : List Withheld

abbrev pub no_findings : Report
no_findings = record { censored = []; withheld = [] }

-- Report.found
unfoldable pub found : Report → Bool
found r = not (is_empty r.censored) || not (is_empty r.withheld)

unfoldable pub add_withheld : Text → Reason → Report → Report
add_withheld name reason r = record r {
  withheld = r.withheld ++ record { file = name; reason = reason } ∷ [];
}

insert_hit : Text × ℕ → Hits → Hits
insert_hit h [] = h ∷ []
insert_hit h (g ∷ hits) =
    let later = g ∷ insert_hit h hits in if text_lt h.0 g.0 then h ∷ g ∷ hits else later

-- sorted(hits.items()): the rules of a counter differ.
unfoldable pub sort_hits : Hits → Hits
unfolding insert_hit
sort_hits [] = []
sort_hits (h ∷ hits) = insert_hit h (sort_hits hits)

unfoldable pub add_censored : Text → Hits → Report → Report
unfolding sort_hits
add_censored name hits r = record r {
  censored =
      r.censored ++ map (λ h. record { file = name; rule = h.0; count = h.1 }) (sort_hits hits);
}

-- How the body of the `try` ends: it runs through, or an exception leaves the report and the file
-- as they are by then.
pub data Ending : Type 0 where
  done : Report → After → Ending
  throw : Failure → Report → After → Ending

module _ (hash : Hash) (rules : List ShapeRule) (codecs : Codecs) (max : ℕ) (inventory : Inventory)
    (check : Bool) where
  unfoldable pub censor : Bytes → Bytes × Hits
  censor raw = censor_bytes hash rules (shown_label inventory) (patterns inventory) raw

  unfoldable pub survivors : Bytes → List Text
  survivors raw = present (shown_label inventory) (patterns inventory) raw

  -- path.unlink() in the `try`
  unfoldable pub try_unlink : Entry → Report → Ending
  try_unlink e r =
      if e.faults.unlink_fails then throw os_error r (left e.content) else done r removed

  -- An archive is withheld as a whole if its payload has a hit.
  unfoldable pub by_archive_hits : Entry → Hits → Report → Ending
  unfolding try_unlink
  by_archive_hits e hits r =
      let r' = add_withheld e.name (inside_archive (map (λ h. h.0) (sort_hits hits))) r in
      if is_empty hits
      then done r (left e.content)
      else if check
      then done r' (left e.content)
      else try_unlink e r'

  unfoldable pub in_archive : Entry → Bytes → Report → Ending
  unfolding by_archive_hits
  in_archive e payload r =
      if ltb max (length payload)
      then throw archive_too_large r (left e.content)
      else by_archive_hits e (censor payload).1 r

  -- The cleaned bytes are written only if no known value is left in them.
  unfoldable pub write_clean : Entry → Bytes → Report → Ending
  write_clean e cleaned r =
      let labels = survivors cleaned in
      if not (is_empty labels)
      then (if e.faults.unlink_fails
          then throw os_error r (left e.content)
          else done (add_withheld e.name (survived labels) r) removed)
      else if e.faults.write_fails
      then throw os_error r (left e.faults.partial)
      else done r (left cleaned)

  unfoldable pub in_file : Entry → Report → Ending
  unfolding write_clean
  in_file e r =
      let (cleaned, hits) = censor e.content in
      let r' = add_censored e.name hits r in
      if is_empty hits
      then done r (left e.content)
      else if check
      then done r' (left e.content)
      else write_clean e cleaned r'

  unfoldable pub by_payload : Payload → Entry → Report → Ending
  unfolding in_archive in_file
  by_payload not_archive e r = in_file e r
  by_payload unreadable e r = throw bad_archive r (left e.content)
  by_payload (unpacked payload) e r = in_archive e payload r

  -- The body of the `try`.
  unfoldable pub inspect : Entry → Report → Ending
  unfolding by_payload
  inspect e r =
      if e.faults.stat_fails
      then throw os_error r (left e.content)
      else if ltb max (length e.content)
      then throw too_large r (left e.content)
      else if e.faults.read_fails
      then throw os_error r (left e.content)
      else by_payload (archive_payload codecs max e.content) e r

  -- The `except` clause: the file is withheld, and a second failure to remove it is passed over.
  unfoldable pub recover : Entry → Ending → Report × After
  recover e (done r after) = (r, after)
  recover e (throw failure r after) = (
    add_withheld e.name (raised failure) r,
    if check then after else if e.faults.retry_fails then after else removed,
  )

  -- One round of the loop; `none` is an exception that leaves `process_directory`.
  unfoldable pub process_kind : Kind → Entry → Report → Option (Report × After)
  unfolding recover inspect
  process_kind link e r =
      let r' = add_withheld e.name symbolic_link r in
      if check
      then some (r', left e.content)
      else if e.faults.unlink_fails
      then none
      else some (r', removed)
  process_kind other e r = some (r, left e.content)
  process_kind regular e r = some (recover e (inspect e r))

  unfoldable pub process_entry : Entry → Report → Option (Report × After)
  unfolding process_kind
  process_entry e r = if e.faults.kind_fails then none else process_kind e.kind e r

  -- The loop over the sorted entries, with what is left of each.
  unfoldable pub process_entries : List Entry → Report → Option (Report × List After)
  unfolding process_entry
  process_entries [] r = some (r, [])
  process_entries (e ∷ entries) r = elim (process_entry e r) [
    | none ↦ none
    | some (r', after) ↦ elim (process_entries entries r') [
      | none ↦ none
      | some (r'', afters) ↦ some (r'', after ∷ afters)
    ]
  ]

  -- process_directory
  unfoldable pub process_directory : List Entry → Option (Report × List After)
  unfolding process_entries
  process_directory entries = process_entries entries no_findings
