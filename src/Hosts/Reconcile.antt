-- ===== src/Hosts/Reconcile.antt =====
-- The reconciliation of the cluster with an inventory: .github/scripts/reconcile-bmhs.py. The cluster
-- is the state behind the `oc` command, whose calls are given; a call may fail or run out of time.
pub mod Laws
pub mod Result
pub mod Untouched
pub mod Waiting
use osac_test_infra.Prelude.{
  ℕ, zero, suc, ◌==◌, Bool, true, false, not, Option, none, some, List, [], ◌∷◌, ◌++◌,
  if◌then◌else◌, codes, any,
}
use mathlib.Core.List.{reverse}
use osac_test_infra.Prelude.Search.{bytes_eq}
use osac_test_infra.Text.{Text, split_words, left_strip}
use osac_test_infra.Hosts.{Host, RawInventory, Loaded, ok, invalid, is_group_host_name, host_names}

-- How a command ended.
pub data Code : Type 0 where
  fine : Code
  failed : ℕ → Code
  timed_out : Code

-- The calls of `oc` in one namespace: what each leaves, and how it ended. `get_names` and `poll` also
-- have an output.
pub record Oc (S : Type 0) : Type 0 where
  pub apply_namespace : S → S × Code
  pub get_names : S → Code × Text
  pub delete_bmh : Text → S → S × Code
  pub patch_bmh : Text → S → S × Code
  pub delete_secret : Text → S → S × Code
  pub patch_secret : Text → S → S × Code
  pub apply_host : Host → S → S × Code
  pub poll : Text → S → Code × Text
  pub sleep : S → S
  pub label : Text → S → S × Code

-- A run goes on, or the process exits with a status.
pub data Ending : Type 0 where
  going : Ending
  exited : ℕ → Ending

abbrev pub Run : Type 0 → Type 0
Run S = S × Ending

abbrev pub available_retries : ℕ
available_retries = 120

-- state.strip()
unfoldable pub strip : Text → Text
unfolding left_strip
strip text = reverse (left_strip (reverse (left_strip text)))

-- state == "available"
unfoldable pub is_available : Text → Bool
unfolding strip bytes_eq
is_available text = bytes_eq (strip text) (codes "available")

module _ {S : Type 0} where
  abbrev pub then_run : Run S → (S → Run S) → Run S
  then_run (s, going) f = f s
  then_run (s, exited n) f = (s, exited n)

  -- run_oc with check=True: CalledProcessError exits with its code, TimeoutExpired with 1.
  abbrev pub checked : S × Code → Run S
  checked (s, fine) = (s, going)
  checked (s, failed n) = (s, exited n)
  checked (s, timed_out) = (s, exited 1)

  -- run_oc with check=False.
  abbrev pub unchecked : S × Code → Run S
  unchecked (s, fine) = (s, going)
  unchecked (s, failed n) = (s, going)
  unchecked (s, timed_out) = (s, exited 1)

-- The names of the list that are no host's.
unfoldable pub stale_names : Text → List Text → List Text → List Text
unfolding bytes_eq is_group_host_name
stale_names name_prefix desired [] = []
stale_names name_prefix desired (name ∷ names) =
    let rest = stale_names name_prefix desired names in
    if not (is_group_host_name name name_prefix)
    then rest
    else if any (bytes_eq name) desired
    then rest
    else name ∷ rest

module _ {S : Type 0} (oc : Oc S) where
  -- A round of delete_stale_bmhs; strip_finalizers is a patch.
  abbrev pub delete_one : Text → S → Run S
  delete_one name s = then_run (checked (oc.delete_bmh name s)) (λ s.
      then_run (unchecked (oc.patch_bmh name s)) (λ s.
        then_run (checked (oc.delete_secret name s)) (λ s. unchecked (oc.patch_secret name s))))

  unfoldable pub delete_all : List Text → S → Run S
  delete_all [] s = (s, going)
  delete_all (name ∷ names) s = then_run (delete_one name s) (delete_all names)

  -- list_managed_bmh_names, and what delete_stale_bmhs does with the names.
  abbrev pub delete_listed : Text → List Text → S → Code × Text → Run S
  delete_listed name_prefix desired s (fine, out) =
      delete_all (stale_names name_prefix desired (split_words out)) s
  delete_listed name_prefix desired s (failed n, out) = (s, exited n)
  delete_listed name_prefix desired s (timed_out, out) = (s, exited 1)

  -- delete_stale_bmhs
  unfoldable pub delete_stale_bmhs : Text → List Text → S → Run S
  unfolding delete_all stale_names split_words
  delete_stale_bmhs name_prefix desired s = delete_listed name_prefix desired s (oc.get_names s)

  -- create_bmhs
  unfoldable pub create_bmhs : List Host → S → Run S
  create_bmhs [] s = (s, going)
  create_bmhs (host ∷ hosts) s = then_run (checked (oc.apply_host host s)) (create_bmhs hosts)

  -- What a poll says: whether the host is available, or the call timed out.
  unfoldable pub polled : Code × Text → Option Bool
  unfolding is_available
  polled (timed_out, out) = none
  polled (fine, out) = some (is_available out)
  polled (failed n, out) = some (is_available out)

  -- The attempts that are left for a host. The dump after the last one ends in status 1 either way.
  unfoldable pub wait_attempts : ℕ → Text → S → Run S
  unfolding polled
  wait_attempts zero name s = (s, exited 1)
  wait_attempts (suc left) name s = elim (polled (oc.poll name s)) [
    | none ↦ (s, exited 1)
    | some true ↦ (s, going)
    | some false ↦ if left == 0 then (s, exited 1) else wait_attempts left name (oc.sleep s)
  ]

  -- wait_for_available
  unfoldable pub wait_for_available : List Host → S → Run S
  unfolding wait_attempts
  wait_for_available [] s = (s, going)
  wait_for_available (host ∷ hosts) s =
      then_run (wait_attempts available_retries host.name s) (wait_for_available hosts)

  -- label_bmhs
  unfoldable pub label_bmhs : List Host → S → Run S
  label_bmhs [] s = (s, going)
  label_bmhs (host ∷ hosts) s = then_run (checked (oc.label host.name s)) (label_bmhs hosts)

  unfoldable pub reconcile : Text → List Host → S → Run S
  unfolding delete_stale_bmhs create_bmhs wait_for_available label_bmhs host_names
  reconcile name_prefix hosts s = then_run (checked (oc.apply_namespace s)) (λ s.
      then_run (delete_stale_bmhs name_prefix (host_names hosts) s) (λ s.
        then_run (create_bmhs hosts s)
          (λ s. then_run (wait_for_available hosts s) (λ s. label_bmhs hosts s))))

  abbrev pub reconcile_loaded : Loaded RawInventory → S → Run S
  reconcile_loaded (invalid e) s = (s, exited 1)
  reconcile_loaded (ok inventory) s = elim inventory.name_prefix [
    | none ↦ (s, exited 1)
    | some name_prefix ↦ reconcile name_prefix inventory.hosts s
  ]

  -- main, from the inventory on, where there is the file; a run that goes on to the end exits with 0.
  unfoldable pub main : Option (Loaded RawInventory) → S → Run S
  unfolding reconcile
  main none s = (s, exited 1)
  main (some loaded) s = reconcile_loaded loaded s
