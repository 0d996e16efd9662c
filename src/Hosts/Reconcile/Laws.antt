-- ===== src/Hosts/Reconcile/Laws.antt =====
-- What a run of .github/scripts/reconcile-bmhs.py leaves in a cluster whose commands do what is
-- documented of them. The proofs follow one name through the calls.
use osac_test_infra.Prelude.{
  Bool, true, false, not, List, [], ◌∷◌, ◌≡◌, ◌≢◌, refl, sym, ◌∙◌, ◌&&◌, ◌||◌, arith, Bool-cases,
  inl, inr, any, both_true,
}
use mathlib.Core.Path.{subst}
use osac_test_infra.Prelude.Search.{bytes_eq, bytes_eq_sound}
use osac_test_infra.Text.{Text, split_words}
use osac_test_infra.Hosts.{Host, host_names}
use osac_test_infra.Hosts.Reconcile.{
  Code, fine, failed, timed_out, Oc, going, exited, Run, then_run, checked, unchecked, delete_one,
  delete_all, create_bmhs,
}

-- What is relied on of `oc`, where `has s n` says that the namespace has a BareMetalHost n: a host
-- that is deleted, and whose finalizers a patch then takes away, is gone; a patch makes no host; one
-- that is applied is there; and no call changes another.
pub record IsLawful {S : Type 0} (oc : Oc S) (has : S → Text → Bool) : Type 0 where
  pub namespace : (s : S) (n : Text) → has (oc.apply_namespace s).0 n ≡ has s n
  pub names :
      (s : S) (out n : Text)
      → oc.get_names s ≡ (fine, out)
      → any (bytes_eq n) (split_words out) ≡ has s n
  pub deleted :
      (name n : Text) (s : S) → bytes_eq n name ≡ false → has (oc.delete_bmh name s).0 n ≡ has s n
  pub patched :
      (name n : Text) (s : S) → bytes_eq n name ≡ false → has (oc.patch_bmh name s).0 n ≡ has s n
  pub removed :
      (name : Text) (s : S)
      → (oc.delete_bmh name s).1 ≡ fine
      → (oc.patch_bmh name (oc.delete_bmh name s).0).1 ≡ fine
      → has (oc.patch_bmh name (oc.delete_bmh name s).0).0 name ≡ false
  pub patched_absent :
      (name : Text) (s : S) → has s name ≡ false → has (oc.patch_bmh name s).0 name ≡ false
  pub deleted_secret : (name n : Text) (s : S) → has (oc.delete_secret name s).0 n ≡ has s n
  pub patched_secret : (name n : Text) (s : S) → has (oc.patch_secret name s).0 n ≡ has s n
  pub others :
      (host : Host) (n : Text) (s : S)
      → bytes_eq n host.name ≡ false
      → has (oc.apply_host host s).0 n ≡ has s n
  pub applied :
      (host : Host) (s : S)
      → (oc.apply_host host s).1 ≡ fine
      → has (oc.apply_host host s).0 host.name ≡ true
  pub slept : (n : Text) (s : S) → has (oc.sleep s) n ≡ has s n
  pub labelled : (name n : Text) (s : S) → has (oc.label name s).0 n ≡ has s n

module _ {S : Type 0} where
  -- The state of a run that goes on satisfies P.
  abbrev pub After : Run S → (S → Type 0) → Type 0
  After (s, going) P = P s
  After (s, exited n) P = Unit

  pub then_run-After :
      (r : Run S) (f : S → Run S) (P : S → Type 0) (Q : S → Type 0)
      → After r P
      → ((s : S) → P s → After (f s) Q)
      → After (then_run r f) Q
  then_run-After (s, going) f P Q a h = h s a
  then_run-After (s, exited n) f P Q a h = tt

  pub checked-After : (p : S × Code) (P : S → Type 0) → (p.1 ≡ fine → P p.0) → After (checked p) P
  checked-After (s, fine) P h = h refl
  checked-After (s, failed n) P h = tt
  checked-After (s, timed_out) P h = tt

  unchecked-After :
      (p : S × Code) (P : S → Type 0) → (p.1 ≢ timed_out → P p.0) → After (unchecked p) P
  unchecked-After (s, fine) P h = h (λ e. cc)
  unchecked-After (s, failed n) P h = h (λ e. cc)
  unchecked-After (s, timed_out) P h = tt

  -- What holds after a run, with the state that it leaves.
  pub After-state : (r : Run S) (P : S → Type 0) → After r P → After r (λ t. P t × (t ≡ r.0))
  After-state (s, going) P a = (a, refl)
  After-state (s, exited n) P a = tt

  pub After-going : (r : Run S) (P : S → Type 0) → r.1 ≡ going → After r P → P r.0
  After-going (s, going) P e a = a
  After-going (s, exited n) P e a = absurd (cc)

pub and_true : (b : Bool) → (b && true) ≡ b
and_true true = refl
and_true false = refl

pub and_false : (b : Bool) → (b && false) ≡ false
and_false true = refl
and_false false = refl

pub and_not : (b x y : Bool) → ((b && not x) && not y) ≡ (b && not (x || y))
and_not true true y = refl
and_not true false y = refl
and_not false x y = refl

or_swap : (l x b : Bool) → (l || (x || b)) ≡ ((x || l) || b)
or_swap true true b = refl
or_swap true false b = refl
or_swap false x b = ground arith

abbrev is_fine : Code → Bool
is_fine fine = true
is_fine (failed n) = false
is_fine timed_out = false

is_fine-fine : (c : Code) → is_fine c ≡ true → c ≡ fine
is_fine-fine fine e = refl
is_fine-fine (failed n) e = absurd (cc)
is_fine-fine timed_out e = absurd (cc)

module _ {S : Type 0} (oc : Oc S) (has : S → Text → Bool) where
  -- The deletion of a host without its finalizers: the patch ends well, or the host is gone before it.
  unfoldable pub is_stripped : Text → S → Bool
  is_stripped name s =
      let d = (oc.delete_bmh name s).0 in is_fine (oc.patch_bmh name d).1 || not (has d name)

  -- So for each host, in the states in which the run deletes them.
  unfoldable pub are_stripped : List Text → S → Bool
  unfolding is_stripped
  are_stripped [] s = true
  are_stripped (name ∷ names) s = is_stripped name s && are_stripped names (delete_one oc name s).0

module _ {S : Type 0} (oc : Oc S) (has : S → Text → Bool) (law : IsLawful oc has) (n : Text) where
  -- The name is there exactly if b says so.
  abbrev pub Is : Bool → S → Type 0
  Is b s = has s n ≡ b

  secrets-After :
      (name : Text) (c : Bool) (t : S)
      → Is c t
      → After
          (then_run (checked (oc.delete_secret name t)) (λ s. unchecked (oc.patch_secret name s)))
          (Is c)
  secrets-After name c t k =
      then_run-After (checked (oc.delete_secret name t)) (λ s. unchecked (oc.patch_secret name s))
        (Is c) (Is c)
        (checked-After (oc.delete_secret name t) (Is c) (λ e. law.deleted_secret name n t ∙ k))
        (λ u l.
          unchecked-After (oc.patch_secret name u) (Is c) (λ e. law.patched_secret name n u ∙ l))

  gone :
      (name : Text) (s : S)
      → is_stripped oc has name s ≡ true
      → (oc.delete_bmh name s).1 ≡ fine
      → has (oc.patch_bmh name (oc.delete_bmh name s).0).0 name ≡ false
  unfolding is_stripped
  gone name s strips e =
      let d = (oc.delete_bmh name s).0 in
      elim (Bool-cases (is_fine (oc.patch_bmh name d).1)) [
        | inl q ↦ law.removed name s e (is_fine-fine (oc.patch_bmh name d).1 q)
        | inr q ↦ elim (Bool-cases (has d name)) [
          | inr absent ↦ law.patched_absent name d absent
          | inl there ↦ let clash : false ≡ true = rw there at (rw q at strips) in absurd (cc)
        ]
      ]

  -- The two calls on a host leave the name exactly if it was there and is another.
  stripped :
      (name : Text) (s : S) (b : Bool)
      → Is b s
      → is_stripped oc has name s ≡ true
      → (oc.delete_bmh name s).1 ≡ fine
      → Is (b && not (bytes_eq n name)) (oc.patch_bmh name (oc.delete_bmh name s).0).0
  stripped name s b h strips e = elim (Bool-cases (bytes_eq n name)) [
    | inl q ↦
        let same : n ≡ name = bytes_eq_sound n name q in
        let none_left : has (oc.patch_bmh name (oc.delete_bmh name s).0).0 n ≡ false =
          subst (λ m. has (oc.patch_bmh name (oc.delete_bmh name s).0).0 m ≡ false) (sym same)
            (gone name s strips e) in
        rw q (none_left ∙ sym (and_false b))
    | inr q ↦ rw q (
        law.patched name n (oc.delete_bmh name s).0 q
        ∙ (law.deleted name n s q ∙ (h ∙ sym (and_true b))))
  ]

  delete_one-After :
      (name : Text) (s : S) (b : Bool)
      → Is b s
      → is_stripped oc has name s ≡ true
      → After (delete_one oc name s) (Is (b && not (bytes_eq n name)))
  delete_one-After name s b h strips =
      let c = b && not (bytes_eq n name) in
      let secrets = λ (t : S).
        then_run (checked (oc.delete_secret name t)) (λ s. unchecked (oc.patch_secret name s)) in
      let rest = λ (t : S). then_run (unchecked (oc.patch_bmh name t)) secrets in
      let d = (oc.delete_bmh name s).0 in
      then_run-After (checked (oc.delete_bmh name s)) rest
        (λ t. (t ≡ d) × ((oc.delete_bmh name s).1 ≡ fine)) (Is c)
        (checked-After (oc.delete_bmh name s) (λ t. (t ≡ d) × ((oc.delete_bmh name s).1 ≡ fine))
          (λ e. (refl, e)))
        (λ t k.
          subst (λ u. After (rest u) (Is c)) (sym (k.0))
            (then_run-After (unchecked (oc.patch_bmh name d)) secrets (Is c) (Is c)
              (unchecked-After (oc.patch_bmh name d) (Is c)
                (λ ne. stripped name s b h strips (k.1)))
              (λ u l. secrets-After name c u l)))

  pub delete_all-After :
      (names : List Text) (s : S) (b : Bool)
      → Is b s
      → are_stripped oc has names s ≡ true
      → After (delete_all oc names s) (Is (b && not (any (bytes_eq n) names)))
  unfolding delete_all are_stripped
  delete_all-After [] s b h strips = h ∙ sym (and_true b)
  delete_all-After (name ∷ names) s b h strips =
      let (first, others) =
        both_true (is_stripped oc has name s) (are_stripped oc has names (delete_one oc name s).0)
          strips in
      let P = Is (b && not (bytes_eq n name)) in
      then_run-After (delete_one oc name s) (delete_all oc names)
        (λ t. P t × (t ≡ (delete_one oc name s).0))
        (Is (b && not (any (bytes_eq n) (name ∷ names))))
        (After-state (delete_one oc name s) P (delete_one-After name s b h first))
        (λ t k.
          subst (λ c. After (delete_all oc names t) (Is c))
            (and_not b (bytes_eq n name) (any (bytes_eq n) names))
            (delete_all-After names t (b && not (bytes_eq n name)) (k.0)
              (subst (λ u. are_stripped oc has names u ≡ true) (sym (k.1)) others)))

  pub create_bmhs-After :
      (hosts : List Host) (s : S) (b : Bool)
      → Is b s
      → After (create_bmhs oc hosts s) (Is (any (bytes_eq n) (host_names hosts) || b))
  unfolding create_bmhs host_names
  create_bmhs-After [] s b h = h
  create_bmhs-After (host ∷ hosts) s b h =
      then_run-After (checked (oc.apply_host host s)) (create_bmhs oc hosts)
        (Is (bytes_eq n host.name || b)) (Is (any (bytes_eq n) (host_names (host ∷ hosts)) || b))
        (checked-After (oc.apply_host host s) (Is (bytes_eq n host.name || b)) (λ e.
          elim (Bool-cases (bytes_eq n host.name)) [
            | inl q ↦
                let same : n ≡ host.name = bytes_eq_sound n host.name q in
                let there : has (oc.apply_host host s).0 n ≡ true =
                  subst (λ m. has (oc.apply_host host s).0 m ≡ true) (sym same)
                    (law.applied host s e) in
                rw q there
            | inr q ↦ rw q (law.others host n s q ∙ h)
          ]))
        (λ t k.
          subst (λ c. After (create_bmhs oc hosts t) (Is c))
            (or_swap (any (bytes_eq n) (host_names hosts)) (bytes_eq n host.name) b)
            (create_bmhs-After hosts t (bytes_eq n host.name || b) k))
