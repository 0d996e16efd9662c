-- ===== src/Hosts/Reconcile/Untouched.antt =====
-- What no run of .github/scripts/reconcile-bmhs.py touches, also one that fails on the way.
use osac_test_infra.Prelude.{
  Bool, false, not, some, List, [], ◌∷◌, ◌≡◌, refl, ap, ◌∙◌, ◌&&◌, any, neither,
}
use osac_test_infra.Prelude.Search.{bytes_eq}
use osac_test_infra.Text.{Text, split_words}
use osac_test_infra.Hosts.{Host, ok, is_group_host_name, host_names}
use osac_test_infra.Hosts.Reconcile.{
  Code, fine, failed, timed_out, Oc, going, exited, Run, then_run, checked, unchecked, stale_names,
  delete_one, delete_all, delete_stale_bmhs, delete_listed, create_bmhs, wait_attempts,
  wait_for_available, label_bmhs, reconcile, main, available_retries,
}
use osac_test_infra.Hosts.Reconcile.Laws.{IsLawful, and_false}
use osac_test_infra.Hosts.Reconcile.Result.{stale_names_lem, wait_attempts-keeps}

module _ {S : Type 0} (oc : Oc S) (has : S → Text → Bool) (law : IsLawful oc has) (n : Text)
    (b : Bool) where
  abbrev Still : S → Type 0
  Still s = has s n ≡ b

  then_run-Still :
      (r : Run S) (f : S → Run S)
      → Still r.0
      → ((s : S) → Still s → Still (f s).0)
      → Still (then_run r f).0
  then_run-Still (s, going) f h k = k s h
  then_run-Still (s, exited m) f h k = h

  checked-Still : (p : S × Code) → Still p.0 → Still (checked p).0
  checked-Still (s, fine) h = h
  checked-Still (s, failed m) h = h
  checked-Still (s, timed_out) h = h

  unchecked-Still : (p : S × Code) → Still p.0 → Still (unchecked p).0
  unchecked-Still (s, fine) h = h
  unchecked-Still (s, failed m) h = h
  unchecked-Still (s, timed_out) h = h

  delete_one-Still :
      (name : Text) (s : S) → bytes_eq n name ≡ false → Still s → Still (delete_one oc name s).0
  delete_one-Still name s e h =
      let secrets = λ (t : S).
        then_run (checked (oc.delete_secret name t)) (λ s. unchecked (oc.patch_secret name s)) in
      then_run-Still (checked (oc.delete_bmh name s))
        (λ t. then_run (unchecked (oc.patch_bmh name t)) secrets)
        (checked-Still (oc.delete_bmh name s) (law.deleted name n s e ∙ h))
        (λ t k.
          then_run-Still (unchecked (oc.patch_bmh name t)) secrets
            (unchecked-Still (oc.patch_bmh name t) (law.patched name n t e ∙ k))
            (λ u m.
              then_run-Still (checked (oc.delete_secret name u))
                (λ s. unchecked (oc.patch_secret name s))
                (checked-Still (oc.delete_secret name u) (law.deleted_secret name n u ∙ m))
                (λ v o.
                  unchecked-Still (oc.patch_secret name v) (law.patched_secret name n v ∙ o))))

  delete_all-Still :
      (names : List Text) (s : S)
      → any (bytes_eq n) names ≡ false
      → Still s
      → Still (delete_all oc names s).0
  unfolding delete_all
  delete_all-Still [] s e h = h
  delete_all-Still (name ∷ names) s e h =
      let (a, c) = neither (bytes_eq n name) (any (bytes_eq n) names) e in
      then_run-Still (delete_one oc name s) (delete_all oc names) (delete_one-Still name s a h)
        (λ t k. delete_all-Still names t c k)

  delete_listed-Still :
      (prefix : Text) (desired : List Text) (s : S) (reply : Code × Text)
      → is_group_host_name n prefix ≡ false
      → Still s
      → Still (delete_listed oc prefix desired s reply).0
  delete_listed-Still prefix desired s (fine, out) g h =
      delete_all-Still (stale_names prefix desired (split_words out)) s
        (stale_names_lem prefix n desired (split_words out)
          ∙ (ap (λ x. any (bytes_eq n) (split_words out) && (x && not (any (bytes_eq n) desired))) g
              ∙ and_false (any (bytes_eq n) (split_words out))))
        h
  delete_listed-Still prefix desired s (failed m, out) g h = h
  delete_listed-Still prefix desired s (timed_out, out) g h = h

  create_bmhs-Still :
      (hosts : List Host) (s : S)
      → any (bytes_eq n) (host_names hosts) ≡ false
      → Still s
      → Still (create_bmhs oc hosts s).0
  unfolding create_bmhs host_names
  create_bmhs-Still [] s e h = h
  create_bmhs-Still (host ∷ hosts) s e h =
      let (a, c) = neither (bytes_eq n host.name) (any (bytes_eq n) (host_names hosts)) e in
      then_run-Still (checked (oc.apply_host host s)) (create_bmhs oc hosts)
        (checked-Still (oc.apply_host host s) (law.others host n s a ∙ h))
        (λ t k. create_bmhs-Still hosts t c k)

  wait_for_available-Still :
      (hosts : List Host) (s : S) → Still s → Still (wait_for_available oc hosts s).0
  unfolding wait_for_available
  wait_for_available-Still [] s h = h
  wait_for_available-Still (host ∷ hosts) s h =
      then_run-Still (wait_attempts oc available_retries host.name s) (wait_for_available oc hosts)
        (wait_attempts-keeps oc has law n available_retries host.name s ∙ h)
        (λ t k. wait_for_available-Still hosts t k)

  label_bmhs-Still : (hosts : List Host) (s : S) → Still s → Still (label_bmhs oc hosts s).0
  unfolding label_bmhs
  label_bmhs-Still [] s h = h
  label_bmhs-Still (host ∷ hosts) s h =
      then_run-Still (checked (oc.label host.name s)) (label_bmhs oc hosts)
        (checked-Still (oc.label host.name s) (law.labelled host.name n s ∙ h))
        (λ t k. label_bmhs-Still hosts t k)

  reconcile-Still :
      (prefix : Text) (hosts : List Host) (s : S)
      → is_group_host_name n prefix ≡ false
      → any (bytes_eq n) (host_names hosts) ≡ false
      → Still s
      → Still (reconcile oc prefix hosts s).0
  unfolding reconcile delete_stale_bmhs
  reconcile-Still prefix hosts s g l h =
      let labels = λ (t : S). label_bmhs oc hosts t in
      let waits = λ (t : S). then_run (wait_for_available oc hosts t) labels in
      let creates = λ (t : S). then_run (create_bmhs oc hosts t) waits in
      let deletes =
        λ (t : S). then_run (delete_stale_bmhs oc prefix (host_names hosts) t) creates in
      then_run-Still (checked (oc.apply_namespace s)) deletes
        (checked-Still (oc.apply_namespace s) (law.namespace s n ∙ h))
        (λ t k.
          then_run-Still (delete_stale_bmhs oc prefix (host_names hosts) t) creates
            (delete_listed-Still prefix (host_names hosts) t (oc.get_names t) g k)
            (λ u m.
              then_run-Still (create_bmhs oc hosts u) waits (create_bmhs-Still hosts u l m) (λ v o.
                then_run-Still (wait_for_available oc hosts v) labels
                  (wait_for_available-Still hosts v o) (λ w r. label_bmhs-Still hosts w r))))

-- Whichever call fails and whenever, a host under a name that is none of the group's and not in the
-- inventory is there after the run exactly if it was there before.
pub main-untouched :
    {S : Type 0} (oc : Oc S) (has : S → Text → Bool)
    → IsLawful oc has
    → (prefix : Text) (hosts : List Host) (s : S) (n : Text) → is_group_host_name n prefix ≡ false
    → any (bytes_eq n) (host_names hosts) ≡ false
    → has (main oc (some (ok (record { name_prefix = some prefix; hosts = hosts }))) s).0 n
      ≡ has s n
unfolding main
main-untouched oc has law prefix hosts s n g l =
    reconcile-Still oc has law n (has s n) prefix hosts s g l refl
