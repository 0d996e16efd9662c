-- ===== src/Hosts/Machines/Deletes.antt =====
-- How `cmd_delete` of .github/scripts/manage-virtual-bmh-vms.py treats the machines that it goes through.
use osac_test_infra.Prelude.{
  ℕ, Bool, true, false, Option, none, some, List, [], ◌∷◌, ◌++◌, ◌≡◌, ◌≢◌, refl, ap, ◌∙◌,
  Bool-cases, inl, inr, any, is_empty, neither, ◌⊎◌,
}
use osac_test_infra.Prelude.Search.{bytes_eq}
use osac_test_infra.Text.{Text}
use osac_test_infra.Hosts.{RawInventory, Value}
use osac_test_infra.Hosts.Reconcile.{Code, fine, failed, timed_out, going}
use osac_test_infra.Hosts.Machines.{
  Libvirt, Collected, has_ended, is_owned, paths_of, unlink_owned, conclude, delete_vm, noted,
  delete_each, end_delete, finish_delete,
}

-- What is relied on, where `alive s n` says that libvirt has a domain n: a command on one domain
-- leaves the others, and the removal of a file leaves every domain.
pub record IsIsolated {S : Type 0} (virsh : Libvirt S) (alive : S → Text → Bool) : Type 0 where
  pub destroyed :
      (name n : Text) (s : S)
      → bytes_eq n name ≡ false
      → alive (virsh.destroy name s).0 n ≡ alive s n
  pub undefined :
      (name n : Text) (s : S)
      → bytes_eq n name ≡ false
      → alive (virsh.undefine name s).0 n ≡ alive s n
  pub unlinked : (path n : Text) (s : S) → alive (virsh.unlink path s).0 n ≡ alive s n

pub no_texts : (r : List Text) → is_empty r ≡ true → r ≡ []
no_texts [] h = refl
no_texts (x ∷ r) h = absurd (cc)

remaining_of : Option (List Text × List Text) → List Text
remaining_of none = []
remaining_of (some (d, r)) = r

pub gone_cases : (o : Option Bool) → (o ≡ none) ⊎ ((o ≡ some true) ⊎ (o ≡ some false))
gone_cases none = inl refl
gone_cases (some true) = inr (inl refl)
gone_cases (some false) = inr (inr refl)

pub longer : (r : List Text) (name : Text) → is_empty (r ++ name ∷ []) ≢ true
longer [] name h = cc
longer (x ∷ r) name h = cc

module _ {S : Type 0} (virsh : Libvirt S) where
  -- A run of cmd_delete that ends well had no machine left.
  pub ended :
      (inventory : RawInventory) (file : Option Value) (deleted : List Text) (done : Collected S)
      → (end_delete virsh inventory file deleted done).1 ≡ going
      → (d' : List Text) × (done.1 ≡ some (d', []))
  ended inventory file deleted (s, none) e = absurd (cc)
  ended inventory file deleted (s, some (o, [])) e = (o, refl)
  ended inventory file deleted (s, some (o, x ∷ r)) e = absurd (cc)

  pub ended_state :
      (inventory : RawInventory) (file : Option Value) (deleted : List Text) (done : Collected S)
      → (end_delete virsh inventory file deleted done).0.0 ≡ done.0
  ended_state inventory file deleted (s, none) = refl
  ended_state inventory file deleted (s, some (o, r)) = refl

  pub finished :
      (inventory : RawInventory) (file : Option Value) (others : List Text) (done : Collected S)
      → (finish_delete virsh inventory file others done).1 ≡ going
      → (d : List Text) × (r : List Text) × (done.1 ≡ some (d, r))
  finished inventory file others (s, none) e = absurd (cc)
  finished inventory file others (s, some (d, r)) e = (d, r, refl)

module _ {S : Type 0} (virsh : Libvirt S) (alive : S → Text → Bool) (law : IsIsolated virsh alive)
    (n : Text) where
  unlink_owned-keeps :
      (name : Text) (paths : List Text) (s : S)
      → alive (unlink_owned virsh name paths s).0 n ≡ alive s n
  unfolding unlink_owned
  unlink_owned-keeps name [] s = refl
  unlink_owned-keeps name (path ∷ paths) s = elim (Bool-cases (is_owned name path)) [
    | inr e ↦ rw e (unlink_owned-keeps name paths s)
    | inl e ↦ elim (Bool-cases (virsh.unlink path s).1) [
      | inl r ↦ rw e (rw r (law.unlinked path n s))
      | inr r ↦
          rw e
            (rw r (unlink_owned-keeps name paths (virsh.unlink path s).0 ∙ law.unlinked path n s))
    ]
  ]

  conclude-keeps :
      (name : Text) (paths : List Text) (s : S) (code : Code)
      → alive (conclude virsh name paths s code).0 n ≡ alive s n
  conclude-keeps name paths s fine = refl
  conclude-keeps name paths s (failed m) = unlink_owned-keeps name paths s
  conclude-keeps name paths s timed_out = refl

  -- The domain is concluded to be gone only if it is.
  pub conclude-gone :
      (name : Text) (paths : List Text) (s : S) (code : Code)
      → ((m : ℕ) → code ≡ failed m → alive s n ≡ false)
      → (conclude virsh name paths s code).1 ≡ some true
      → alive (conclude virsh name paths s code).0 n ≡ false
  conclude-gone name paths s fine h e = absurd (cc)
  conclude-gone name paths s (failed m) h e = unlink_owned-keeps name paths s ∙ h m refl
  conclude-gone name paths s timed_out h e = absurd (cc)

  pub delete_vm-keeps :
      (name : Text) (s : S)
      → bytes_eq n name ≡ false
      → alive (delete_vm virsh name s).0 n ≡ alive s n
  unfolding delete_vm
  delete_vm-keeps name s e =
      let s1 = (virsh.destroy name s).0 in
      let s2 = (virsh.undefine name s1).0 in
      let one : alive s1 n ≡ alive s n = law.destroyed name n s e in
      let two : alive s2 n ≡ alive s n = law.undefined name n s1 e ∙ one in
      elim (Bool-cases (has_ended (virsh.storage name s).0)) [
        | inr a ↦ rw a refl
        | inl a ↦ elim (Bool-cases (has_ended (virsh.destroy name s).1)) [
          | inr b ↦ rw a (rw b one)
          | inl b ↦ elim (Bool-cases (has_ended (virsh.undefine name s1).1)) [
            | inr c ↦ rw a (rw b (rw c two))
            | inl c ↦ rw a (
                rw b (
                  rw c (
                    conclude-keeps name (paths_of (virsh.storage name s)) s2
                      (virsh.domuuid name s2).0
                    ∙ two)))
          ]
        ]
      ]

  pub delete_each-keeps :
      (names : List Text) (s : S) (lists : Option (List Text × List Text))
      → any (bytes_eq n) names ≡ false
      → alive (delete_each virsh names s lists).0 n ≡ alive s n
  unfolding delete_each
  delete_each-keeps names s none e = refl
  delete_each-keeps [] s (some lists) e = refl
  delete_each-keeps (name ∷ names) s (some lists) e =
      let (a, b) = neither (bytes_eq n name) (any (bytes_eq n) names) e in
      delete_each-keeps names (delete_vm virsh name s).0
        (noted name (delete_vm virsh name s).1 lists) b
      ∙ delete_vm-keeps name s a

  -- The list of the machines that remain only grows.
  pub delete_each-grows :
      (names : List Text) (s : S) (d r d' : List Text)
      → (delete_each virsh names s (some (d, r))).1 ≡ some (d', [])
      → is_empty r ≡ true
  unfolding delete_each remaining_of
  delete_each-grows [] s d r d' e = ap (λ o. is_empty (remaining_of o)) e
  delete_each-grows (name ∷ names) s d r d' e = elim (gone_cases (delete_vm virsh name s).1) [
    | inl g ↦
        let e' : ◌≡◌ {A = Option (List Text × List Text)} none (some (d', [])) =
          rw (g, delete_each) at e in
        absurd (cc)
    | inr (inl g) ↦
        let e' : (delete_each virsh names (delete_vm virsh name s).0 (some (d ++ name ∷ [], r))).1
            ≡ some (d', []) =
          rw (g, delete_each) at e in
        delete_each-grows names (delete_vm virsh name s).0 (d ++ name ∷ []) r d' e'
    | inr (inr g) ↦
        let e' : (delete_each virsh names (delete_vm virsh name s).0 (some (d, r ++ name ∷ []))).1
            ≡ some (d', []) =
          rw (g, delete_each) at e in
        absurd (
          longer r name
            (delete_each-grows names (delete_vm virsh name s).0 d (r ++ name ∷ []) d' e'))
  ]
