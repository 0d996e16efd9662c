-- ===== src/Redact/Tree/Runs.antt =====
-- How the loop of `redact_tree` of .github/scripts/redact.py ends: at a file that cannot be read, or
-- with every file wiped.
use osac_test_infra.Prelude.{
  true, false, none, some, List, [], ◌∷◌, ◌++◌, ◌≡◌, ◌≢◌, refl, sym, ap, ◌∙◌, All, Bool-cases,
  Option-cases, inl, inr, is_empty,
}
use mathlib.Core.Path.{subst}
use osac_test_infra.Prelude.Search.{Bytes, bytes_eq_refl}
use osac_test_infra.Text.{Text}
use osac_test_infra.Redact.Ranges.{Range, apply_ranges}
use osac_test_infra.Redact.Tree.{
  System, Store, Outcome, path_inside, read_bytes, after_file, wipe_files,
}
use osac_test_infra.Redact.Tree.Safety.{Apart, wipe_files-keeps, after_file-keeps}

no_ranges : (rs : List Range) (raw : Bytes) → is_empty rs ≡ true → apply_ranges raw rs ≡ raw
unfolding apply_ranges
no_ranges [] raw e = refl
no_ranges (r ∷ rs) raw e = absurd (cc)

module _ (sys : System) where
  wipe_files-skip :
      (ranges_of : Text → Bytes → List Range) (p : Text) (paths : List Text) (store : Store)
      → path_inside sys p ≡ false
      → wipe_files sys ranges_of (p ∷ paths) store ≡ wipe_files sys ranges_of paths store
  unfolding wipe_files
  wipe_files-skip ranges_of p paths store e = rw e refl

  wipe_files-stop :
      (ranges_of : Text → Bytes → List Range) (p : Text) (paths : List Text) (store : Store)
      → path_inside sys p ≡ true
      → read_bytes sys store p ≡ none
      → wipe_files sys ranges_of (p ∷ paths) store ≡ (store, Outcome.unreadable p)
  unfolding wipe_files
  wipe_files-stop ranges_of p paths store e n = rw e (rw (n, wipe_files) refl)

  wipe_files-next :
      (ranges_of : Text → Bytes → List Range) (p : Text) (paths : List Text) (store : Store)
      (raw : Bytes)
      → path_inside sys p ≡ true
      → read_bytes sys store p ≡ some raw
      → wipe_files sys ranges_of (p ∷ paths) store
        ≡ wipe_files sys ranges_of paths (after_file sys ranges_of p raw store)
  unfolding wipe_files
  wipe_files-next ranges_of p paths store raw e n = rw e (rw (n, wipe_files) refl)

  stop-clashes : (p : Text) → Outcome.unreadable p ≢ Outcome.finished
  stop-clashes p h = cc

  wipe_files-none :
      (ranges_of : Text → Bytes → List Range) (store : Store)
      → wipe_files sys ranges_of [] store ≡ (store, Outcome.finished)
  unfolding wipe_files
  wipe_files-none ranges_of store = refl

  done-clashes :
      (ranges_of : Text → Bytes → List Range) (p : Text) (paths : List Text) (store t : Store)
      → path_inside sys p ≡ true
      → read_bytes sys store p ≡ none
      → wipe_files sys ranges_of (p ∷ paths) store ≢ (t, Outcome.finished)
  done-clashes ranges_of p paths store t e n h =
      stop-clashes p (ap (λ w. w.1) (sym (wipe_files-stop ranges_of p paths store e n) ∙ h))

  -- If the files before it are wiped, then a file of the folder that cannot be read ends the run there
  -- and then: it is the one that is named, what was wiped stays so, and whichever paths come after it,
  -- nothing is done for them.
  pub wipe_files-stops :
      (ranges_of : Text → Bytes → List Range) (xs ys : List Text) (q : Text) (store wiped : Store)
      → wipe_files sys ranges_of xs store ≡ (wiped, Outcome.finished)
      → path_inside sys q ≡ true
      → read_bytes sys wiped q ≡ none
      → wipe_files sys ranges_of (xs ++ (q ∷ ys)) store ≡ (wiped, Outcome.unreadable q)
  wipe_files-stops ranges_of [] ys q store wiped h e n =
      let same : store ≡ wiped = ap (λ w. w.0) (sym (wipe_files-none ranges_of store) ∙ h) in
      subst (λ s. wipe_files sys ranges_of (q ∷ ys) s ≡ (wiped, Outcome.unreadable q)) (sym same)
        (wipe_files-stop ranges_of q ys wiped e n)
  wipe_files-stops ranges_of (x ∷ xs) ys q store wiped h e n =
      let rest = xs ++ (q ∷ ys) in
      elim (Bool-cases (path_inside sys x)) [
        | inr o ↦
            wipe_files-skip ranges_of x rest store o
            ∙ wipe_files-stops ranges_of xs ys q store wiped
                (sym (wipe_files-skip ranges_of x xs store o) ∙ h) e n
        | inl o ↦ elim (Option-cases (read_bytes sys store x)) [
          | inl m ↦ absurd (done-clashes ranges_of x xs store wiped o m h)
          | inr (raw, m) ↦
              wipe_files-next ranges_of x rest store raw o m
              ∙ wipe_files-stops ranges_of xs ys q (after_file sys ranges_of x raw store) wiped
                  (sym (wipe_files-next ranges_of x xs store raw o m) ∙ h) e n
        ]
      ]

  after_file-target :
      (ranges_of : Text → Bytes → List Range) (p t : Text) (raw : Bytes) (store : Store)
      → sys.target p ≡ some t
      → store t ≡ some raw
      → after_file sys ranges_of p raw store t ≡ some (apply_ranges raw (ranges_of p raw))
  unfolding after_file
  after_file-target ranges_of p t raw store g h = elim (Bool-cases (is_empty (ranges_of p raw))) [
    | inl e ↦ rw (e, after_file) (rw (no_ranges (ranges_of p raw) raw e) h)
    | inr e ↦ rw (e, after_file) (rw g (rw (bytes_eq_refl t) refl))
  ]

  -- A run that ends well leaves each file of the folder as its spans say, if it has one path there.
  pub wipe_files-wipes :
      (ranges_of : Text → Bytes → List Range) (xs ys : List Text) (p t : Text) (raw : Bytes)
      (store : Store)
      → All (Apart sys t) xs
      → All (Apart sys t) ys
      → sys.target p ≡ some t
      → sys.is_under t ≡ true
      → store t ≡ some raw
      → (wipe_files sys ranges_of (xs ++ (p ∷ ys)) store).1 ≡ Outcome.finished
      → (wipe_files sys ranges_of (xs ++ (p ∷ ys)) store).0 t
        ≡ some (apply_ranges raw (ranges_of p raw))
  unfolding Apart
  wipe_files-wipes ranges_of [] ys p t raw store ax ay g u h f =
      let inside : path_inside sys p ≡ true = rw g u in
      let found : read_bytes sys store p ≡ some raw = rw (g, read_bytes) h in
      let step = wipe_files-next ranges_of p ys store raw inside found in
      ap (λ w. w.0 t) step
      ∙ (wipe_files-keeps sys ranges_of t ys (after_file sys ranges_of p raw store) ay
          ∙ after_file-target ranges_of p t raw store g h)
  wipe_files-wipes ranges_of (x ∷ xs) ys p t raw store (a, ax) ay g u h f =
      let rest = xs ++ (p ∷ ys) in
      elim (Bool-cases (path_inside sys x)) [
        | inr e ↦
            let step = wipe_files-skip ranges_of x rest store e in
            ap (λ w. w.0 t) step
            ∙ wipe_files-wipes ranges_of xs ys p t raw store ax ay g u h
                (ap (λ w. w.1) (sym step) ∙ f)
        | inl e ↦ elim (Option-cases (read_bytes sys store x)) [
          | inl n ↦
              let step = wipe_files-stop ranges_of x rest store e n in
              absurd (stop-clashes x (ap (λ w. w.1) (sym step) ∙ f))
          | inr (raw', n) ↦
              let step = wipe_files-next ranges_of x rest store raw' e n in
              let store' = after_file sys ranges_of x raw' store in
              let kept = after_file-keeps sys ranges_of t x raw' store (a e) in
              ap (λ w. w.0 t) step
              ∙ wipe_files-wipes ranges_of xs ys p t raw store' ax ay g u (kept ∙ h)
                  (ap (λ w. w.1) (sym step) ∙ f)
        ]
      ]
