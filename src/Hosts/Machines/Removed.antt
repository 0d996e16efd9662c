-- ===== src/Hosts/Machines/Removed.antt =====
-- What `cmd_delete` of .github/scripts/manage-virtual-bmh-vms.py leaves behind when it ends well.
use osac_test_infra.Prelude.{
  ℕ, Bool, true, false, not, Option, none, some, List, [], ◌∷◌, ◌++◌, ◌≡◌, sym, ap, ◌∙◌, ◌&&◌,
  Bool-cases, inl, inr, any, both_true,
}
use mathlib.Core.Path.{subst}
use osac_test_infra.Prelude.Search.{bytes_eq, bytes_eq_sound}
use osac_test_infra.Text.{Text}
use osac_test_infra.Hosts.{RawInventory, Value}
use osac_test_infra.Hosts.Reconcile.{failed, going}
use osac_test_infra.Hosts.Reconcile.Laws.{and_true, and_false, and_not}
use osac_test_infra.Hosts.Machines.{
  Libvirt, has_ended, paths_of, conclude, delete_vm, delete_each, end_delete, finish_delete,
}
use osac_test_infra.Hosts.Machines.Deletes.{
  IsIsolated, no_texts, gone_cases, longer, ended, ended_state, finished, conclude-gone,
  delete_vm-keeps, delete_each-grows,
}

-- `virsh domuuid` fails for a domain that is not there, and whenever the daemon cannot be reached. While
-- it is reached, only the former is left.
pub record IsTruthful {S : Type 0} (virsh : Libvirt S) (alive : S → Text → Bool)
    (is_reached : S → Bool) : Type 0 where
  pub identified :
      (name : Text) (s : S) (m : ℕ)
      → is_reached s ≡ true
      → (virsh.domuuid name s).0 ≡ failed m
      → alive s name ≡ false

module _ {S : Type 0} (virsh : Libvirt S) (is_reached : S → Bool) where
  -- The state in which delete_vm asks for the domain.
  abbrev pub when_asked : Text → S → S
  when_asked name s = (virsh.undefine name (virsh.destroy name s).0).0

  -- The daemon is reached whenever the loop asks for a domain.
  unfoldable pub are_reached : List Text → S → Bool
  unfolding delete_vm
  are_reached [] s = true
  are_reached (name ∷ names) s =
      is_reached (when_asked name s) && are_reached names (delete_vm virsh name s).0

module _ {S : Type 0} (virsh : Libvirt S) (alive : S → Text → Bool) (law : IsIsolated virsh alive)
    (is_reached : S → Bool) (truth : IsTruthful virsh alive is_reached) (n : Text) where
  delete_vm-gone :
      (name : Text) (s : S)
      → n ≡ name
      → is_reached (when_asked virsh is_reached name s) ≡ true
      → (delete_vm virsh name s).1 ≡ some true
      → alive (delete_vm virsh name s).0 n ≡ false
  unfolding delete_vm
  delete_vm-gone name s q reached e =
      let s1 = (virsh.destroy name s).0 in
      let s2 = (virsh.undefine name s1).0 in
      let paths = paths_of (virsh.storage name s) in
      elim (Bool-cases (has_ended (virsh.storage name s).0)) [
        | inr a ↦ let e' : ◌≡◌ {A = Option Bool} none (some true) = rw a at e in absurd (cc)
        | inl a ↦ elim (Bool-cases (has_ended (virsh.destroy name s).1)) [
          | inr b ↦
              let e' : ◌≡◌ {A = Option Bool} none (some true) = rw b at (rw a at e) in absurd (cc)
          | inl b ↦ elim (Bool-cases (has_ended (virsh.undefine name s1).1)) [
            | inr c ↦
                let e' : ◌≡◌ {A = Option Bool} none (some true) = rw c at (rw b at (rw a at e)) in
                absurd (cc)
            | inl c ↦
                let e' : (conclude virsh name paths s2 (virsh.domuuid name s2).0).1 ≡ some true =
                  rw c at (rw b at (rw a at e)) in
                rw a (
                  rw b (
                    rw c (
                      conclude-gone virsh alive law n name paths s2 (virsh.domuuid name s2).0
                        (λ m f.
                          subst (λ k. alive s2 k ≡ false) (sym q)
                            (truth.identified name s2 m reached f))
                        e')))
          ]
        ]
      ]

  delete_vm-After :
      (name : Text) (s : S)
      → is_reached (when_asked virsh is_reached name s) ≡ true
      → (delete_vm virsh name s).1 ≡ some true
      → alive (delete_vm virsh name s).0 n ≡ (alive s n && not (bytes_eq n name))
  delete_vm-After name s reached e = elim (Bool-cases (bytes_eq n name)) [
    | inl q ↦
        rw q
          (delete_vm-gone name s (bytes_eq_sound n name q) reached e ∙ sym (and_false (alive s n)))
    | inr q ↦ rw q (delete_vm-keeps virsh alive law n name s q ∙ sym (and_true (alive s n)))
  ]

  delete_each-done :
      (names : List Text) (s : S) (d r d' : List Text)
      → are_reached virsh is_reached names s ≡ true
      → (delete_each virsh names s (some (d, r))).1 ≡ some (d', [])
      → alive (delete_each virsh names s (some (d, r))).0 n
        ≡ (alive s n && not (any (bytes_eq n) names))
  unfolding delete_each are_reached
  delete_each-done [] s d r d' reached e = sym (and_true (alive s n))
  delete_each-done (name ∷ names) s d r d' reached e =
      let s' = (delete_vm virsh name s).0 in
      let (now, then_on) =
        both_true (is_reached (when_asked virsh is_reached name s))
          (are_reached virsh is_reached names s') reached in
      elim (gone_cases (delete_vm virsh name s).1) [
        | inl g ↦
            let e' : ◌≡◌ {A = Option (List Text × List Text)} none (some (d', [])) =
              rw (g, delete_each) at e in
            absurd (cc)
        | inr (inl g) ↦
            let e' : (delete_each virsh names s' (some (d ++ name ∷ [], r))).1 ≡ some (d', []) =
              rw (g, delete_each) at e in
            rw (g, delete_each)
              (delete_each-done names s' (d ++ name ∷ []) r d' then_on e'
                ∙ (ap (λ a. a && not (any (bytes_eq n) names)) (delete_vm-After name s now g)
                    ∙ and_not (alive s n) (bytes_eq n name) (any (bytes_eq n) names)))
        | inr (inr g) ↦
            let e' : (delete_each virsh names s' (some (d, r ++ name ∷ []))).1 ≡ some (d', []) =
              rw (g, delete_each) at e in
            absurd (
              longer r name (delete_each-grows virsh alive law n names s' d (r ++ name ∷ []) d' e'))
      ]

  end_delete-done :
      (inventory : RawInventory) (file : Option Value) (deleted others r : List Text) (s : S)
      → are_reached virsh is_reached others s ≡ true
      → (end_delete virsh inventory file deleted (delete_each virsh others s (some ([], r)))).1
        ≡ going
      → (alive
            (end_delete virsh inventory file deleted
              (delete_each virsh others s (some ([], r)))).0.0
            n
          ≡ (alive s n && not (any (bytes_eq n) others)))
        × (r ≡ [])
  end_delete-done inventory file deleted others r s reached e =
      let done = delete_each virsh others s (some ([], r)) in
      let (d', f) = ended virsh inventory file deleted done e in
      (
        ap (λ t. alive t n) (ended_state virsh inventory file deleted done)
            ∙ delete_each-done others s [] r d' reached f,
        no_texts r (delete_each-grows virsh alive law n others s [] r d' f),
      )

  pub finish_delete-done :
      (inventory : RawInventory) (file : Option Value) (known others : List Text) (s : S)
      → are_reached virsh is_reached known s ≡ true
      → are_reached virsh is_reached others (delete_each virsh known s (some ([], []))).0 ≡ true
      → (finish_delete virsh inventory file others (delete_each virsh known s (some ([], [])))).1
        ≡ going
      → alive
          (finish_delete virsh inventory file others
            (delete_each virsh known s (some ([], [])))).0.0
          n
        ≡ ((alive s n && not (any (bytes_eq n) known)) && not (any (bytes_eq n) others))
  finish_delete-done inventory file known others s reached later e =
      let done = delete_each virsh known s (some ([], [])) in
      let (d, r, f) = finished virsh inventory file others done e in
      let same : done ≡ (done.0, some (d, r)) = ap (λ o. (done.0, o)) f in
      let e' : (end_delete virsh inventory file d
            (delete_each virsh others done.0 (some ([], r)))).1
          ≡ going =
        subst (λ c. (finish_delete virsh inventory file others c).1 ≡ going) same e in
      let (g, z) = end_delete-done inventory file d others r done.0 later e' in
      let f' : done.1 ≡ some (d, []) = subst (λ x. done.1 ≡ some (d, x)) z f in
      ap (λ c. alive (finish_delete virsh inventory file others c).0.0 n) same
      ∙ (g
          ∙ ap (λ a. a && not (any (bytes_eq n) others))
              (delete_each-done known s [] [] d reached f'))
