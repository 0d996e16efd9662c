-- ===== src/Cleanup/Workers/Gone.antt =====
-- What delete_worker_bmis.py has made sure of when it ends well.
use osac_test_infra.Prelude.{
  ℕ, zero, suc, Bool, true, false, not, Option, some, List, [], ◌∷◌, ◌++◌, ◌≡◌, refl, All,
  Bool-cases, Option-cases, inl, inr, is_empty, if◌then◌else◌, both_true,
}
use osac_test_infra.Prelude.Search.{bytes_eq, bytes_eq_sound}
use osac_test_infra.Text.{Text, sorted_set, insert_text, text_lt}
use osac_test_infra.Cleanup.Workers.{
  HubItem, ApiItem, Service, is_in, hub_ids, api_ids, worker_ids, pending_ids, common, ambiguous,
  is_refused, delete_each, none_left, wait_rounds, then_wait, delete_targets, delete_workers,
}

module _ {S : Type 0} (service : Service S) where
  -- Both listings can be read, and the identifier is in neither.
  unfoldable pub IsGone : S → Text → Type 0
  IsGone s key =
      (api : List ApiItem) × (hub : List HubItem) × (service.api_bmis s ≡ some api)
      × (service.hub_bmis s ≡ some hub)
      × (is_in key (api_ids api) ≡ false)
      × (is_in key (hub_ids hub) ≡ false)

none_common :
    (keys others : List Text)
    → is_empty (common keys others) ≡ true
    → All (λ k. is_in k keys ≡ false) others
unfolding common
none_common keys [] h = tt
none_common keys (k ∷ others) h = elim (Bool-cases (is_in k keys)) [
  | inl e ↦ let h' : false ≡ true = rw e at h in absurd (cc)
  | inr e ↦ (e, none_common keys others (rw e at h))
]

module _ (P : Text → Type 0) where
  All-is_in : (k : Text) (keys : List Text) → All P keys → is_in k keys ≡ true → P k
  unfolding bytes_eq
  All-is_in k [] a h = absurd (cc)
  All-is_in k (j ∷ keys) (p, a) h = elim (Bool-cases (bytes_eq k j)) [
    | inl e ↦ rw (bytes_eq_sound k j e) p
    | inr e ↦ All-is_in k keys a (rw e at h)
  ]

  -- What two lists have in common is in the first.
  All-common : (keys others : List Text) → All P keys → All P (common keys others)
  unfolding common
  All-common keys [] a = tt
  All-common keys (k ∷ others) a = elim (Bool-cases (is_in k keys)) [
    | inl e ↦ rw e (All-is_in k keys a e, All-common keys others a)
    | inr e ↦ rw e (All-common keys others a)
  ]

  All-insert_text : (t : Text) (ts : List Text) → P t → All P ts → All P (insert_text t ts)
  unfolding insert_text
  All-insert_text t [] p a = (p, tt)
  All-insert_text t (u ∷ ts) p (q, a) = elim (Bool-cases (text_lt t u)) [
    | inl e ↦ rw e (p, (q, a))
    | inr e ↦ elim (Bool-cases (text_lt u t)) [
      | inl f ↦ rw e (rw f (q, All-insert_text t ts p a))
      | inr f ↦ rw e (rw f (q, a))
    ]
  ]

  All-sorted_set : (ts : List Text) → All P ts → All P (sorted_set ts)
  unfolding sorted_set
  All-sorted_set [] a = tt
  All-sorted_set (t ∷ ts) (p, a) = All-insert_text t (sorted_set ts) p (All-sorted_set ts a)

module _ {S : Type 0} (service : Service S) where
  All-delete_each :
      (P : Text → Type 0) (keys : List Text) (s : S)
      → All P keys
      → All P ((delete_each service keys s).1)
  unfolding delete_each
  All-delete_each P [] s a = tt
  All-delete_each P (key ∷ keys) s (p, a) =
      let s' = (service.delete key s).0 in
      elim (Bool-cases (is_refused service key (service.delete key s).1 (service.api_bmis s'))) [
        | inl e ↦ rw e (p, tt)
        | inr e ↦ rw e (p, All-delete_each P keys s' a)
      ]

  both-IsGone :
      (s : S) (api : List ApiItem) (hub : List HubItem) (targets : List Text)
      → service.api_bmis s ≡ some api
      → service.hub_bmis s ≡ some hub
      → All (λ k. is_in k (api_ids api) ≡ false) targets
      → All (λ k. is_in k (hub_ids hub) ≡ false) targets
      → All (IsGone service s) targets
  unfolding IsGone
  both-IsGone s api hub [] e f a b = tt
  both-IsGone s api hub (k ∷ targets) e f (p, a) (q, b) =
      ((api, hub, e, f, p, q), both-IsGone s api hub targets e f a b)

  wait_rounds-IsGone :
      (rounds : ℕ) (targets : List Text) (s : S)
      → (wait_rounds service rounds targets s).1 ≡ some true
      → All (IsGone service (wait_rounds service rounds targets s).0) targets
  unfolding wait_rounds
  wait_rounds-IsGone zero targets s h = absurd (cc)
  wait_rounds-IsGone (suc rounds) targets s h = elim (Option-cases (service.api_bmis s)) [
    | inl e ↦
        let h' : ◌≡◌ {A = Option Bool} (some false) (some true) = rw (e, wait_rounds) at h in
        absurd (cc)
    | inr (api, e) ↦ elim (Option-cases (service.hub_bmis s)) [
      | inl f ↦
          let h' : ◌≡◌ {A = Option Bool} (some false) (some true) =
            rw (f, wait_rounds) at (rw (e, wait_rounds) at h) in
          absurd (cc)
      | inr (hub, f) ↦ elim (Bool-cases (none_left service targets api hub)) [
        | inl n ↦
            let (a, b) =
              both_true (is_empty (common (api_ids api) targets))
                (is_empty (common (hub_ids hub) targets)) n in
            rw (e, wait_rounds)
              (rw (f, wait_rounds)
                (rw n (
                  both-IsGone s api hub targets e f (none_common (api_ids api) targets a)
                    (none_common (hub_ids hub) targets b))))
        | inr n ↦ elim (Bool-cases (service.is_overdue s)) [
          | inl o ↦
              let h' : ◌≡◌ {A = Option Bool} (some false) (some true) =
                rw o at (rw n at (rw (f, wait_rounds) at (rw (e, wait_rounds) at h))) in
              absurd (cc)
          | inr o ↦
              let h' : (wait_rounds service rounds targets (service.sleep s)).1 ≡ some true =
                rw o at (rw n at (rw (f, wait_rounds) at (rw (e, wait_rounds) at h))) in
              rw (e, wait_rounds)
                (rw (f, wait_rounds)
                  (rw n (rw o (wait_rounds-IsGone rounds targets (service.sleep s) h'))))
        ]
      ]
    ]
  ]

  -- Of what is waited for nothing is left.
  then_wait-IsGone :
      (rounds : ℕ) (targets : List Text) (r : S × List Text × Bool)
      → (then_wait service rounds targets r).2 ≡ some true
      → All (IsGone service ((then_wait service rounds targets r).0)) targets
  then_wait-IsGone rounds targets (s, made, false) h = absurd (cc)
  then_wait-IsGone rounds targets (s, made, true) h = wait_rounds-IsGone rounds targets s h

  then_wait-made :
      (rounds : ℕ) (targets : List Text) (r : S × List Text × Bool)
      → (then_wait service rounds targets r).1 ≡ r.1
  then_wait-made rounds targets (s, made, false) = refl
  then_wait-made rounds targets (s, made, true) = refl

  delete_targets-IsGone :
      (rounds : ℕ) (targets : List Text) (api : List ApiItem) (s : S)
      → (delete_targets service rounds targets api s).2 ≡ some true
      → All
          (IsGone service ((delete_targets service rounds targets api s).0))
          ((delete_targets service rounds targets api s).1)
  unfolding delete_targets
  delete_targets-IsGone rounds targets api s h = elim (Bool-cases (is_empty targets)) [
    | inl e ↦ rw e tt
    | inr e ↦
        let asked = sorted_set (common targets (api_ids api)) in
        let r = delete_each service asked s in
        let a = then_wait-IsGone rounds targets r (rw e at h) in
        let P = IsGone service ((then_wait service rounds targets r).0) in
        rw e (
          rw (then_wait-made rounds targets r) (
            All-delete_each P asked s (
              All-sorted_set P (common targets (api_ids api))
                (All-common P targets (api_ids api) a))))
  ]

  -- A run that ends well leaves both listings readable, and none of the instances it asked to delete in either.
  pub delete_workers-IsGone :
      (rounds : ℕ) (s : S)
      → (delete_workers service rounds s).2 ≡ some true
      → All
          (IsGone service ((delete_workers service rounds s).0))
          ((delete_workers service rounds s).1)
  unfolding delete_workers
  delete_workers-IsGone rounds s h = elim (Option-cases (service.hub_bmis s)) [
    | inl e ↦ rw (e, delete_workers) tt
    | inr (hub, e) ↦ elim (Option-cases (worker_ids hub)) [
      | inl f ↦ rw (e, delete_workers) (rw (f, delete_workers) tt)
      | inr (workers, f) ↦ elim (Option-cases (service.api_bmis s)) [
        | inl g ↦ rw (e, delete_workers) (rw (f, delete_workers) (rw (g, delete_workers) tt))
        | inr (api, g) ↦ elim (Option-cases (service.other_clusters s)) [
          | inl o ↦
              rw (e, delete_workers)
                (rw (f, delete_workers) (rw (g, delete_workers) (rw (o, delete_workers) tt)))
          | inr (others, o) ↦
              elim (Bool-cases
                (not (is_empty (ambiguous others (api_ids api) (pending_ids api) workers)))) [
                  | inl n ↦
                      rw (e, delete_workers)
                        (rw (f, delete_workers)
                          (rw (g, delete_workers) (rw (o, delete_workers) (rw n tt))))
                  | inr n ↦
                      rw (e, delete_workers)
                        (rw (f, delete_workers)
                          (rw (g, delete_workers)
                            (rw (o, delete_workers)
                              (rw n (
                                delete_targets-IsGone rounds
                                  (if others then workers else workers ++ pending_ids api) api s
                                  (rw n at (
                                    rw (o, delete_workers) at
                                      (rw (g, delete_workers) at
                                        (rw (f, delete_workers) at
                                          (rw (e, delete_workers) at h))))))))))
                ]
        ]
      ]
    ]
  ]
