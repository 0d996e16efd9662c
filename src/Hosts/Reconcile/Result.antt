-- ===== src/Hosts/Reconcile/Result.antt =====
-- What a run of .github/scripts/reconcile-bmhs.py leaves: the hosts of the inventory and no other of
-- the group.
use osac_test_infra.Prelude.{
  ℕ, zero, suc, ◌==◌, Bool, true, false, not, some, List, [], ◌∷◌, ◌≡◌, refl, sym, ap, ◌∙◌, ◌&&◌,
  ◌||◌, Bool-cases, Option-cases, inl, inr, any,
}
use mathlib.Core.Path.{subst}
use osac_test_infra.Prelude.Search.{bytes_eq, bytes_eq_sound, bytes_eq_refl}
use osac_test_infra.Text.{Text, split_words}
use osac_test_infra.Hosts.{Host, ok, is_group_host_name, host_names}
use osac_test_infra.Hosts.Reconcile.{
  Code, fine, failed, timed_out, Oc, going, exited, Run, then_run, checked, stale_names, delete_all,
  delete_stale_bmhs, delete_listed, create_bmhs, wait_attempts, wait_for_available, label_bmhs,
  reconcile, main, polled, available_retries,
}
use osac_test_infra.Hosts.Reconcile.Laws.{
  IsLawful, are_stripped, After, then_run-After, checked-After, After-going, Is, delete_all-After,
  create_bmhs-After, and_false,
}

-- The list of the names begins with the name itself.
stale_here :
    (prefix n : Text) (desired names : List Text)
    → any (bytes_eq n) (stale_names prefix desired names)
      ≡ (any (bytes_eq n) names && (is_group_host_name n prefix && not (any (bytes_eq n) desired)))
    → any (bytes_eq n) (stale_names prefix desired (n ∷ names))
      ≡ (is_group_host_name n prefix && not (any (bytes_eq n) desired))
unfolding stale_names
stale_here prefix n desired names ih = elim (Bool-cases (is_group_host_name n prefix)) [
  | inr g ↦
      let ih' : any (bytes_eq n) (stale_names prefix desired names)
          ≡ (any (bytes_eq n) names && false) =
        rw g at ih in
      rw g (ih' ∙ and_false (any (bytes_eq n) names))
  | inl g ↦ elim (Bool-cases (any (bytes_eq n) desired)) [
    | inl d ↦
        let ih' : any (bytes_eq n) (stale_names prefix desired names)
            ≡ (any (bytes_eq n) names && false) =
          rw d at (rw g at ih) in
        rw g (rw d (ih' ∙ and_false (any (bytes_eq n) names)))
    | inr d ↦ rw g (rw d (rw (bytes_eq_refl n) refl))
  ]
]

pub stale_names_lem :
    (prefix n : Text) (desired names : List Text)
    → any (bytes_eq n) (stale_names prefix desired names)
      ≡ (any (bytes_eq n) names && (is_group_host_name n prefix && not (any (bytes_eq n) desired)))
unfolding stale_names
stale_names_lem prefix n desired [] = refl
stale_names_lem prefix n desired (m ∷ names) =
    let ih = stale_names_lem prefix n desired names in
    let wanted = is_group_host_name n prefix && not (any (bytes_eq n) desired) in
    elim (Bool-cases (bytes_eq n m)) [
      | inl q ↦
          let same : n ≡ m = bytes_eq_sound n m q in
          rw q (
            subst (λ k. any (bytes_eq n) (stale_names prefix desired (k ∷ names)) ≡ wanted) same
              (stale_here prefix n desired names ih))
      | inr q ↦ elim (Bool-cases (is_group_host_name m prefix)) [
        | inr g ↦ rw q (rw g ih)
        | inl g ↦ elim (Bool-cases (any (bytes_eq m) desired)) [
          | inl d ↦ rw q (rw g (rw d ih))
          | inr d ↦ rw g (rw d (rw q ih))
        ]
      ]
    ]

left_over : (l b g : Bool) → (l || (b && not (b && (g && not l)))) ≡ (l || (b && not g))
left_over true b g = refl
left_over false true true = refl
left_over false true false = refl
left_over false false g = refl

kept-After : {S : Type 0} (r : Run S) (P : S → Type 0) → P r.0 → After r P
kept-After (s, going) P h = h
kept-After (s, exited n) P h = tt

-- Each stale host that the run lists is deleted without its finalizers: no patch fails that the script
-- passes over, unless the host is gone already.
unfoldable pub run_strips : {S : Type 0} → Oc S → (S → Text → Bool) → Text → List Host → S → Bool
unfolding are_stripped
run_strips oc has prefix hosts s =
    let started = (oc.apply_namespace s).0 in
    are_stripped oc has
      (stale_names prefix (host_names hosts) (split_words (oc.get_names started).1)) started

module _ {S : Type 0} (oc : Oc S) (has : S → Text → Bool) (law : IsLawful oc has) (n : Text) where
  pub wait_attempts-keeps :
      (left : ℕ) (name : Text) (s : S) → has (wait_attempts oc left name s).0 n ≡ has s n
  unfolding wait_attempts
  wait_attempts-keeps zero name s = refl
  wait_attempts-keeps (suc left) name s = elim (Option-cases (polled oc (oc.poll name s))) [
    | inl e ↦ rw (e, wait_attempts) refl
    | inr (true, e) ↦ rw (e, wait_attempts) refl
    | inr (false, e) ↦ elim (Bool-cases (left == 0)) [
      | inl z ↦ rw (e, wait_attempts) (rw z refl)
      | inr z ↦
          rw (e, wait_attempts) (rw z (wait_attempts-keeps left name (oc.sleep s) ∙ law.slept n s))
    ]
  ]

  wait_for_available-After :
      (hosts : List Host) (s : S) (b : Bool)
      → Is oc has law n b s
      → After (wait_for_available oc hosts s) (Is oc has law n b)
  unfolding wait_for_available
  wait_for_available-After [] s b h = h
  wait_for_available-After (host ∷ hosts) s b h =
      then_run-After (wait_attempts oc available_retries host.name s) (wait_for_available oc hosts)
        (Is oc has law n b) (Is oc has law n b)
        (kept-After (wait_attempts oc available_retries host.name s) (Is oc has law n b)
          (wait_attempts-keeps available_retries host.name s ∙ h))
        (λ t k. wait_for_available-After hosts t b k)

  label_bmhs-After :
      (hosts : List Host) (s : S) (b : Bool)
      → Is oc has law n b s
      → After (label_bmhs oc hosts s) (Is oc has law n b)
  unfolding label_bmhs
  label_bmhs-After [] s b h = h
  label_bmhs-After (host ∷ hosts) s b h =
      then_run-After (checked (oc.label host.name s)) (label_bmhs oc hosts) (Is oc has law n b)
        (Is oc has law n b)
        (checked-After (oc.label host.name s) (Is oc has law n b)
          (λ e. law.labelled host.name n s ∙ h))
        (λ t k. label_bmhs-After hosts t b k)

  delete_listed-After :
      (prefix : Text) (desired : List Text) (s : S) (b : Bool) (reply : Code × Text)
      → Is oc has law n b s
      → ((out : Text) → reply ≡ (fine, out) → any (bytes_eq n) (split_words out) ≡ b)
      → are_stripped oc has (stale_names prefix desired (split_words reply.1)) s ≡ true
      → After (delete_listed oc prefix desired s reply) (
          Is oc has law n
            (b && not (b && (is_group_host_name n prefix && not (any (bytes_eq n) desired)))))
  delete_listed-After prefix desired s b (fine, out) h l strips =
      let wanted = is_group_host_name n prefix && not (any (bytes_eq n) desired) in
      let names = split_words out in
      let stale : any (bytes_eq n) (stale_names prefix desired names) ≡ (b && wanted) =
        stale_names_lem prefix n desired names ∙ ap (λ x. x && wanted) (l out refl) in
      subst
        (λ c.
          After (delete_all oc (stale_names prefix desired names) s) (Is oc has law n (b && not c)))
        stale (delete_all-After oc has law n (stale_names prefix desired names) s b h strips)
  delete_listed-After prefix desired s b (failed m, out) h l strips = tt
  delete_listed-After prefix desired s b (timed_out, out) h l strips = tt

  -- The steps together, on a name.
  reconcile-After :
      (prefix : Text) (hosts : List Host) (s : S)
      → run_strips oc has prefix hosts s ≡ true
      → After (reconcile oc prefix hosts s) (
          Is oc has law n
            (any (bytes_eq n) (host_names hosts) || (has s n && not (is_group_host_name n prefix))))
  unfolding reconcile delete_stale_bmhs run_strips
  reconcile-After prefix hosts s strips =
      let started = (oc.apply_namespace s).0 in
      let names = host_names hosts in
      let b = has s n in
      let l = any (bytes_eq n) names in
      let g = is_group_host_name n prefix in
      let after_create : Bool = l || (b && not g) in
      let labels = λ (t : S). label_bmhs oc hosts t in
      let waits = λ (t : S). then_run (wait_for_available oc hosts t) labels in
      let creates = λ (t : S). then_run (create_bmhs oc hosts t) waits in
      let deletes = λ (t : S). then_run (delete_stale_bmhs oc prefix names t) creates in
      let Result = Is oc has law n after_create in
      let deleted = b && not (b && (g && not l)) in
      then_run-After (checked (oc.apply_namespace s)) deletes
        (λ t. Is oc has law n b t × (t ≡ started)) Result
        (checked-After (oc.apply_namespace s) (λ t. Is oc has law n b t × (t ≡ started))
          (λ e. (law.namespace s n, refl)))
        (λ t k.
          then_run-After (delete_stale_bmhs oc prefix names t) creates (Is oc has law n deleted)
            Result
            (delete_listed-After prefix names t b (oc.get_names t) (k.0)
              (λ out e. law.names t out n e ∙ k.0)
              (subst
                (λ u.
                  are_stripped oc has (stale_names prefix names (split_words (oc.get_names u).1)) u
                  ≡ true)
                (sym (k.1)) strips))
            (λ u m.
              then_run-After (create_bmhs oc hosts u) waits Result Result
                (subst (λ c. After (create_bmhs oc hosts u) (Is oc has law n c)) (left_over l b g)
                  (create_bmhs-After oc has law n hosts u deleted m))
                (λ v o.
                  then_run-After (wait_for_available oc hosts v) labels Result Result
                    (wait_for_available-After hosts v after_create o)
                    (λ w r. label_bmhs-After hosts w after_create r))))

-- A run of main that comes to its end, and in which each stale host is stripped of its finalizers or
-- gone before, leaves exactly the hosts of the inventory and those that were
-- there under a name that is none of the group's.
pub main-IsReconciled :
    {S : Type 0} (oc : Oc S) (has : S → Text → Bool)
    → IsLawful oc has
    → (prefix : Text) (hosts : List Host) (s : S) → run_strips oc has prefix hosts s ≡ true
    → (main oc (some (ok (record { name_prefix = some prefix; hosts = hosts }))) s).1 ≡ going
    → (n : Text)
    → has (main oc (some (ok (record { name_prefix = some prefix; hosts = hosts }))) s).0 n
      ≡ (any (bytes_eq n) (host_names hosts) || (has s n && not (is_group_host_name n prefix)))
unfolding main
main-IsReconciled oc has law prefix hosts s strips e n =
    After-going (reconcile oc prefix hosts s)
      (Is oc has law n
        (any (bytes_eq n) (host_names hosts) || (has s n && not (is_group_host_name n prefix))))
      e (reconcile-After oc has law n prefix hosts s strips)
