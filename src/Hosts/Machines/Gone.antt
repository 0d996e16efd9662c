-- ===== src/Hosts/Machines/Gone.antt =====
-- What `cmd_delete` of .github/scripts/manage-virtual-bmh-vms.py removes, and what it leaves.
use osac_test_infra.Prelude.{
  Bool, true, false, not, Option, none, some, List, [], ◌∷◌, ◌≡◌, refl, sym, ap, ◌∙◌, ◌&&◌, ◌||◌,
  Bool-cases, inl, inr, any, both_true,
}
use mathlib.Core.Path.{subst}
use osac_test_infra.Prelude.Search.{bytes_eq, bytes_eq_sound}
use osac_test_infra.Text.{Text}
use osac_test_infra.Hosts.{RawInventory, ok, Value, load, is_group_host_name, host_names}
use osac_test_infra.Hosts.Reconcile.{going, exited}
use osac_test_infra.Hosts.Machines.{
  Libvirt, Collected, delete_each, asked, unknown, or_empty, finish_delete, delete_loaded,
  cmd_delete,
}
use osac_test_infra.Hosts.Machines.Asked.{in_or_out, asked_lem, unknown_lem}
use osac_test_infra.Hosts.Machines.Deletes.{IsIsolated, delete_each-keeps, ended_state}
use osac_test_infra.Hosts.Machines.Removed.{IsTruthful, are_reached, finish_delete-done}

refuses : RawInventory → List Text → Bool
refuses inventory others =
    any (λ name. not (is_group_host_name name (or_empty inventory.name_prefix))) others

-- A name that is refused makes the list refused.
refused :
    (p : Text → Bool) (n : Text) (names : List Text)
    → p n ≡ true
    → any (bytes_eq n) names ≡ true
    → any p names ≡ true
refused p n [] a b = absurd (cc)
refused p n (m ∷ names) a b = elim (Bool-cases (bytes_eq n m)) [
  | inl q ↦ let t : p m ≡ true = subst (λ k. p k ≡ true) (bytes_eq_sound n m q) a in rw t refl
  | inr q ↦
      let b' : any (bytes_eq n) names ≡ true = rw q at b in
      rw (refused p n names a b') (or_true (p m))
]
  where
    or_true : (b : Bool) → (b || true) ≡ true
    or_true true = refl
    or_true false = refl

not_asked : (m k g : Bool) → (m && (k || g)) ≡ false → (k && m) ≡ false
not_asked true true g h = h
not_asked true false g h = refl
not_asked false true g h = refl
not_asked false false g h = refl

not_grouped : (m k g : Bool) → (m && (k || g)) ≡ false → (m && not k) ≡ true → g ≡ false
not_grouped true true g h e = absurd (cc)
not_grouped true false g h e = h
not_grouped false k g h e = absurd (cc)

-- The daemon is reached whenever a run of cmd_delete asks whether a domain is still there.
unfoldable pub run_reaches :
    {S : Type 0} → Libvirt S → (S → Bool) → RawInventory → List Text → S → Bool
unfolding are_reached delete_each
run_reaches virsh is_reached inventory names s =
    let known = host_names inventory.hosts in
    are_reached virsh is_reached (asked names known) s
    && are_reached virsh is_reached (unknown known names)
        (delete_each virsh (asked names known) s (some ([], []))).0

module _ {S : Type 0} (virsh : Libvirt S) (alive : S → Text → Bool) (law : IsIsolated virsh alive)
    (is_reached : S → Bool) (truth : IsTruthful virsh alive is_reached) where
  delete_loaded-gone :
      (inventory : RawInventory) (file : Option Value) (names : List Text) (s : S) (n : Text)
      → run_reaches virsh is_reached inventory names s ≡ true
      → (delete_loaded virsh names (ok inventory) (s, file)).1 ≡ going
      → alive (delete_loaded virsh names (ok inventory) (s, file)).0.0 n
        ≡ (alive s n && not (any (bytes_eq n) names))
  unfolding delete_loaded refuses run_reaches
  delete_loaded-gone inventory file names s n reaches e =
      let known = host_names inventory.hosts in
      let others = unknown known names in
      let (now, then_on) =
        both_true (are_reached virsh is_reached (asked names known) s)
          (are_reached virsh is_reached others
            (delete_each virsh (asked names known) s (some ([], []))).0)
          reaches in
      elim (Bool-cases (refuses inventory others)) [
        | inl t ↦ let e' : exited 1 ≡ going = rw t at e in absurd (cc)
        | inr t ↦ rw t (
            finish_delete-done virsh alive law is_reached truth n inventory file (asked names known)
              others s now then_on (rw t at e)
            ∙ (ap (λ a. (alive s n && not a) && not (any (bytes_eq n) others))
                  (asked_lem n names known)
                ∙ (ap
                      (λ a.
                        (alive s n && not (any (bytes_eq n) known && any (bytes_eq n) names))
                        && not a)
                      (unknown_lem n known names)
                    ∙ in_or_out (alive s n) (any (bytes_eq n) known) (any (bytes_eq n) names))))
      ]

  -- After a run that ends well, and in which the daemon is reached whenever it is asked for a domain,
  -- the machines asked for are gone, and every other one is there exactly if it was there before.
  pub cmd_delete-gone :
      (inventory : RawInventory) (document : Value) (names : List Text) (s : S) (n : Text)
      → load (some document) ≡ ok inventory
      → run_reaches virsh is_reached inventory names s ≡ true
      → (cmd_delete virsh names (s, some document)).1 ≡ going
      → alive (cmd_delete virsh names (s, some document)).0.0 n
        ≡ (alive s n && not (any (bytes_eq n) names))
  unfolding cmd_delete
  cmd_delete-gone inventory document names s n l reaches e =
      rw l (delete_loaded-gone inventory (some document) names s n reaches (rw l at e))

module _ {S : Type 0} (virsh : Libvirt S) (alive : S → Text → Bool)
    (law : IsIsolated virsh alive) where
  finish_delete-keeps :
      (inventory : RawInventory) (file : Option Value) (others : List Text) (s : S) (n : Text)
      (done : Collected S)
      → any (bytes_eq n) others ≡ false
      → alive done.0 n ≡ alive s n
      → alive (finish_delete virsh inventory file others done).0.0 n ≡ alive s n
  finish_delete-keeps inventory file others s n (t, none) h k = k
  finish_delete-keeps inventory file others s n (t, some (deleted, remaining)) h k =
      ap (λ u. alive u n)
        (ended_state virsh inventory file deleted
          (delete_each virsh others t (some ([], remaining))))
      ∙ (delete_each-keeps virsh alive law n others t (some ([], remaining)) h ∙ k)

  delete_loaded-keeps :
      (inventory : RawInventory) (file : Option Value) (names : List Text) (s : S) (n : Text)
      → (any (bytes_eq n) names
          && (any (bytes_eq n) (host_names inventory.hosts)
              || is_group_host_name n (or_empty inventory.name_prefix)))
        ≡ false
      → alive (delete_loaded virsh names (ok inventory) (s, file)).0.0 n ≡ alive s n
  unfolding delete_loaded refuses
  delete_loaded-keeps inventory file names s n h =
      let known = host_names inventory.hosts in
      let others = unknown known names in
      let prefix = or_empty inventory.name_prefix in
      elim (Bool-cases (refuses inventory others)) [
        | inl t ↦ rw t refl
        | inr t ↦ elim (Bool-cases (any (bytes_eq n) others)) [
          | inr o ↦ rw t (
              finish_delete-keeps inventory file others s n
                (delete_each virsh (asked names known) s (some ([], []))) o
                (delete_each-keeps virsh alive law n (asked names known) s (some ([], [])) (
                  asked_lem n names known
                  ∙ not_asked (any (bytes_eq n) names) (any (bytes_eq n) known)
                      (is_group_host_name n prefix) h)))
          | inl o ↦
              let g : is_group_host_name n prefix ≡ false =
                not_grouped (any (bytes_eq n) names) (any (bytes_eq n) known)
                  (is_group_host_name n prefix) h (sym (unknown_lem n known names) ∙ o) in
              let f : refuses inventory others ≡ true =
                refused (λ name. not (is_group_host_name name prefix)) n others (ap not g) o in
              absurd (cc)
        ]
      ]

  -- Whatever fails on the way, a machine that is not asked for, or is neither in the inventory nor
  -- named like one of the group, is there after a run exactly if it was there before.
  pub cmd_delete-keeps :
      (inventory : RawInventory) (document : Value) (names : List Text) (s : S) (n : Text)
      → load (some document) ≡ ok inventory
      → (any (bytes_eq n) names
          && (any (bytes_eq n) (host_names inventory.hosts)
              || is_group_host_name n (or_empty inventory.name_prefix)))
        ≡ false
      → alive (cmd_delete virsh names (s, some document)).0.0 n ≡ alive s n
  unfolding cmd_delete
  cmd_delete-keeps inventory document names s n l h =
      rw l (delete_loaded-keeps inventory (some document) names s n h)
