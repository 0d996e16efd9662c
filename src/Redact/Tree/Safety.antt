-- ===== src/Redact/Tree/Safety.antt =====
-- What `redact_tree` of .github/scripts/redact.py writes to: files behind the paths of the folder.
use osac_test_infra.Prelude.{
  Bool, true, false, Option, none, some, List, [], ◌∷◌, ◌++◌, ◌≡◌, ◌≢◌, refl, ap, ◌∙◌, All,
  Bool-cases, Option-cases, inl, inr, is_empty, ◌⊎◌, if◌then◌else◌, ◌||◌, codes, any, both_true,
}
use mathlib.Core.Path.{subst}
use mathlib.Core.Option.{some-injective}
use osac_test_infra.Prelude.Search.{Bytes, bytes_eq, bytes_eq_sound}
use osac_test_infra.Text.{Text}
use osac_test_infra.Redact.Ranges.{Range, apply_ranges}
use osac_test_infra.Redact.Secrets.{Expressions, Decoders, Finding, collect_secrets}
use osac_test_infra.Redact.Paths.{sort_paths, relative_part, last_part, path_parts}
use osac_test_infra.Redact.Tree.{
  System, Store, path_inside, read_bytes, write_target, after_file, wipe_files, redact_tree,
  inside_files, pending_paths, pending_at, file_ranges, note_findings, resolve_path, is_inside_file,
  the_only,
}

none_else : (b : Bool) (x : Option Text) (p : Text) → (if b then none else x) ≡ some p → x ≡ some p
none_else true x p h = absurd (cc)
none_else false x p h = h

some_else :
    (b : Bool) (c : Text) (x : Option Text) (p : Text)
    → (if b then some c else x) ≡ some p
    → ((b ≡ true) × (c ≡ p)) ⊎ (x ≡ some p)
some_else true c x p h = inl (refl, some-injective _ _ h)
some_else false c x p h = inr h

module _ (sys : System) where
  -- A path of the folder is no link to the target.
  unfoldable pub Apart : Text → Text → Type 0
  Apart t path = path_inside sys path ≡ true → sys.target path ≢ some t

  write_target-keeps :
      (t : Text) (o : Option Text) (raw : Bytes) (store : Store)
      → o ≢ some t
      → write_target sys o raw store t ≡ store t
  write_target-keeps t none raw store h = refl
  write_target-keeps t (some u) raw store h = elim (Bool-cases (bytes_eq u t)) [
    | inl e ↦ absurd (h (ap some (bytes_eq_sound u t e)))
    | inr e ↦ rw e refl
  ]

  pub after_file-keeps :
      (ranges_of : Text → Bytes → List Range) (t path : Text) (raw : Bytes) (store : Store)
      → sys.target path ≢ some t
      → after_file sys ranges_of path raw store t ≡ store t
  unfolding after_file
  after_file-keeps ranges_of t path raw store h =
      elim (Bool-cases (is_empty (ranges_of path raw))) [
        | inl e ↦ rw e refl
        | inr e ↦
            rw e (
              write_target-keeps t (sys.target path) (apply_ranges raw (ranges_of path raw)) store
                h)
      ]

  pub wipe_files-keeps :
      (ranges_of : Text → Bytes → List Range) (t : Text) (paths : List Text) (store : Store)
      → All (Apart t) paths
      → (wipe_files sys ranges_of paths store).0 t ≡ store t
  unfolding wipe_files Apart
  wipe_files-keeps ranges_of t [] store h = refl
  wipe_files-keeps ranges_of t (p ∷ paths) store (a, h) = elim (Bool-cases (path_inside sys p)) [
    | inr e ↦ rw e (wipe_files-keeps ranges_of t paths store h)
    | inl e ↦ elim (Option-cases (read_bytes sys store p)) [
      | inl n ↦ rw e (rw (n, wipe_files) refl)
      | inr (raw, n) ↦ rw e (
          rw (n, wipe_files)
            (wipe_files-keeps ranges_of t paths (after_file sys ranges_of p raw store) h
              ∙ after_file-keeps ranges_of t p raw store (a e)))
    ]
  ]

  outside-Apart : (t : Text) → sys.is_under t ≡ false → (paths : List Text) → All (Apart t) paths
  unfolding Apart
  outside-Apart t h [] = tt
  outside-Apart t h (p ∷ paths) =
      ((λ e f. let g : sys.is_under t ≡ true = rw f at e in cc), outside-Apart t h paths)

  -- A file outside the folder is never changed, whatever gitleaks reports and whichever links lead
  -- to it.
  pub redact_tree-outside :
      (re : Expressions) (d : Decoders) (findings : List Finding) (store : Store) (t : Text)
      → sys.is_under t ≡ false
      → (redact_tree sys re d findings store).0 t ≡ store t
  unfolding redact_tree
  redact_tree-outside re d findings store t h = elim (Option-cases (collect_secrets re findings)) [
    | inl e ↦ rw (e, redact_tree) refl
    | inr (secrets, e) ↦ elim (Option-cases (note_findings sys re findings [])) [
      | inl n ↦ rw (e, redact_tree) (rw n refl)
      | inr (pending, n) ↦
          let paths = sort_paths (inside_files sys sys.everything ++ pending_paths sys pending) in
          rw (e, redact_tree)
            (rw n (
              wipe_files-keeps
                (λ path raw. file_ranges re d findings secrets (pending_at path pending) raw) t
                paths store (outside-Apart t h paths)))
    ]
  ]

  inside_files-are-inside :
      (paths : List Text) → All (λ p. is_inside_file sys p ≡ true) (inside_files sys paths)
  unfolding inside_files
  inside_files-are-inside [] = tt
  inside_files-are-inside (p ∷ paths) =
      let ih = inside_files-are-inside paths in
      elim (Bool-cases (is_inside_file sys p)) [ inl e ↦ rw e (e, ih) | inr e ↦ rw e ih ]

  the_only-inside :
      (paths : List Text) (p : Text)
      → All (λ q. is_inside_file sys q ≡ true) paths
      → the_only sys paths ≡ some p
      → is_inside_file sys p ≡ true
  the_only-inside [] p h e = absurd (cc)
  the_only-inside (q ∷ []) p (a, h) e =
      subst (λ t. is_inside_file sys t ≡ true) (some-injective _ _ e) a
  the_only-inside (q ∷ r ∷ paths) p h e = absurd (cc)

  -- Where a finding's file is found, it is a file of the folder itself, also behind links and behind
  -- a name that leads out of the folder.
  pub resolve_path-IsInside :
      (file_field path : Text)
      → resolve_path sys file_field ≡ some path
      → (sys.is_file path ≡ true) × (path_inside sys path ≡ true)
  unfolding resolve_path
  resolve_path-IsInside file_field path h =
      let rel = relative_part file_field in
      let name = last_part (path_parts [] file_field) in
      let candidate = sys.below rel in
      let listed = the_only sys (inside_files sys (sys.named name)) in
      let third = if is_empty name || bytes_eq name (codes "..") then none else listed in
      let second = if is_inside_file sys candidate then some candidate else third in
      let h1 =
        none_else (is_empty file_field)
          (if any (bytes_eq (codes "..")) (path_parts [] rel) then none else second) path h in
      let h2 = none_else (any (bytes_eq (codes "..")) (path_parts [] rel)) second path h1 in
      both_true (sys.is_file path) (path_inside sys path)
        (elim (some_else (is_inside_file sys candidate) candidate third path h2) [
          | inl (e, q) ↦ subst (λ t. is_inside_file sys t ≡ true) q e
          | inr e ↦
              the_only-inside (inside_files sys (sys.named name)) path
                (inside_files-are-inside (sys.named name))
                (none_else (is_empty name || bytes_eq name (codes "..")) listed path e)
        ])
