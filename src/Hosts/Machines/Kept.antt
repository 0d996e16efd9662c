-- ===== src/Hosts/Machines/Kept.antt =====
-- The file of the inventory under `cmd_create` and `cmd_delete` of
-- .github/scripts/manage-virtual-bmh-vms.py.
use osac_test_infra.Prelude.{
  ℕ, zero, suc, true, false, not, Option, none, some, List, [], ◌∷◌, ◌++◌, ◌≡◌, refl, sym, ap, All,
  Bool-cases, inl, inr, codes, any, ◌⊎◌,
}
use mathlib.Core.Path.{subst}
use osac_test_infra.Prelude.Search.{bytes_eq}
use osac_test_infra.Text.{Text}
use osac_test_infra.Hosts.{
  Host, ok, Value, load, save, is_group_host_name, host_names, is_token, kept_hosts, remove_hosts,
  ensure_name_prefix,
}
use osac_test_infra.Hosts.Reconcile.{Code, fine, failed, timed_out, Ending}
use osac_test_infra.Hosts.RoundTrip.{load-save}
use osac_test_infra.Hosts.Machines.{
  Libvirt, Wanted, Made, booted, stopped, World, used_tokens, generate_vm_token, create_vm,
  then_code, described, check_network, create_loaded, delete_loaded, finish_delete, end_delete,
  Collected, unknown, asked, delete_each, create_each, cmd_create, cmd_delete,
}
use osac_test_infra.Hosts.Machines.Groups.{
  IsGroup, kept_hosts-IsGroup, added-IsGroup, unused, drawn_cases, generate_lem, new_name,
  group_name,
}

-- The file holds an inventory of a group with a prefix.
unfoldable pub IsKept : Option Value → Type 0
IsKept file =
    (c : ℕ) × (prefix : Text) × (hosts : List Host) × (load file
      ≡ ok (record { name_prefix = some (c ∷ prefix); hosts = hosts }))
    × IsGroup (c ∷ prefix) hosts

saved-IsKept :
    (c : ℕ) (prefix : Text) (hosts : List Host)
    → IsGroup (c ∷ prefix) hosts
    → IsKept (some (save (record { name_prefix = some (c ∷ prefix); hosts = hosts })))
unfolding IsKept
saved-IsKept c prefix hosts g = (c, prefix, hosts, (load-save c prefix [] hosts none).0, g)

made_name : Made → Text → Text
made_name (booted host) name = host.name
made_name (stopped n) name = name

Made-cases : (m : Made) → ((n : ℕ) × (m ≡ stopped n)) ⊎ ((host : Host) × (m ≡ booted host))
Made-cases (stopped n) = inl (n, refl)
Made-cases (booted host) = inr (host, refl)

module _ {S : Type 0} (virsh : Libvirt S) (wanted : Wanted) where
  then_code-name :
      (r : S × Code) (f : S → S × Made) (name : Text)
      → ((s : S) (h : Host) → (f s).1 ≡ booted h → h.name ≡ name)
      → (h : Host) → (then_code virsh wanted r f).1 ≡ booted h
      → h.name ≡ name
  then_code-name (s, fine) f name k h e = k s h e
  then_code-name (s, failed n) f name k h e = absurd (cc)
  then_code-name (s, timed_out) f name k h e = absurd (cc)

  described-name :
      (name token : Text) (s : S) (reply : Code × Text) (h : Host)
      → (described virsh wanted name token s reply).1 ≡ booted h
      → h.name ≡ name
  unfolding made_name
  described-name name token s (fine, out) h e = ap (λ m. made_name m name) (sym e)
  described-name name token s (failed n, out) h e = absurd (cc)
  described-name name token s (timed_out, out) h e = absurd (cc)

  create_vm-name :
      (name token : Text) (s : S) (h : Host)
      → (create_vm virsh wanted name token s).1 ≡ booted h
      → h.name ≡ name
  unfolding create_vm
  create_vm-name name token s h e =
      let named = λ (s : S). described virsh wanted name token s (virsh.domuuid name s) in
      let started = λ (s : S). then_code virsh wanted (virsh.start name s) named in
      let defined = λ (s : S). then_code virsh wanted (virsh.define name s) started in
      let copied = λ (s : S). then_code virsh wanted (virsh.copy_vars name s) defined in
      then_code-name (virsh.create_disk name s) copied name
        (λ s1. then_code-name (virsh.copy_vars name s1) defined name (λ s2.
          then_code-name (virsh.define name s2) started name (λ s3.
            then_code-name (virsh.start name s3) named name
              (λ s4. described-name name token s4 (virsh.domuuid name s4)))))
        h e

  create_each-IsKept :
      (count c : ℕ) (prefix : Text) (tokens : List Text) (hosts : List Host) (s : S)
      (file : Option Value)
      → All (λ t. is_token t ≡ true) tokens
      → IsGroup (c ∷ prefix) hosts
      → IsKept file
      → IsKept
          (create_each virsh wanted count
            (c ∷ prefix)
            tokens
            (record { name_prefix = some (c ∷ prefix); hosts = hosts })
            (s, file)).0.1
  unfolding create_each
  create_each-IsKept zero c prefix tokens hosts s file q g k = k
  create_each-IsKept (suc count) c prefix tokens hosts s file q g k =
      elim (drawn_cases (generate_vm_token hosts (c ∷ prefix) tokens)) [
        | inl e ↦ rw (e, create_each) k
        | inr (inl e) ↦ rw (e, create_each) k
        | inr (inr (token, tokens', e)) ↦
            let name = (c ∷ prefix) ++ (codes "-" ++ token) in
            let (u, t, q') =
              unused (used_tokens (c ∷ prefix) hosts) tokens token tokens' q
                (generate_lem hosts (c ∷ prefix) tokens token tokens' e) in
            elim (Made-cases (create_vm virsh wanted name token s).1) [
              | inl (n, m) ↦ rw (e, create_each) (rw m k)
              | inr (host, m) ↦
                  let same : host.name ≡ name = create_vm-name name token s host m in
                  let fresh : any (bytes_eq host.name) (host_names hosts) ≡ false =
                    subst (λ n. any (bytes_eq n) (host_names hosts) ≡ false) (sym same)
                      (new_name (c ∷ prefix) token hosts u) in
                  let of_group : is_group_host_name host.name (c ∷ prefix) ≡ true =
                    subst (λ n. is_group_host_name n (c ∷ prefix) ≡ true) (sym same)
                      (group_name (c ∷ prefix) token t) in
                  let g' = added-IsGroup (c ∷ prefix) hosts host g fresh of_group in
                  rw (e, create_each)
                    (rw m (
                      create_each-IsKept count c prefix tokens' (hosts ++ host ∷ [])
                        (create_vm virsh wanted name token s).0
                        (some (
                          save (record {
                            name_prefix = some (c ∷ prefix);
                            hosts = hosts ++ host ∷ [];
                          })))
                        q' g' (saved-IsKept c prefix (hosts ++ host ∷ []) g')))
            ]
      ]

-- There is no file yet, or it holds an inventory of a group.
unfoldable pub IsStart : Option Value → Type 0
IsStart file = (file ≡ none) ⊎ IsKept file

module _ {S : Type 0} (virsh : Libvirt S) where
  check_network-IsStart :
      (wanted : Wanted) (code : Code) (w : World S) (created : World S × Option Ending)
      → IsStart (w.1)
      → IsStart created.0.1
      → IsStart (check_network virsh wanted code w created).0.1
  check_network-IsStart wanted fine w created a b = b
  check_network-IsStart wanted (failed n) w created a b = a
  check_network-IsStart wanted timed_out w created a b = a

  create_named-IsStart :
      (wanted : Wanted) (count : ℕ) (new : Text) (tokens : List Text) (s : S) (file : Option Value)
      → All (λ t. is_token t ≡ true) tokens
      → IsKept file
      → IsStart (create_loaded virsh wanted count new tokens (load file) (s, file)).0.1
  unfolding create_loaded IsStart ensure_name_prefix IsKept
  create_named-IsStart wanted count new tokens s file q (c, prefix, hosts, e, g) = rw e (
      inr (
        create_each-IsKept virsh wanted count c prefix tokens hosts s file q g
          (c, prefix, hosts, e, g)))

  create_loaded-IsStart :
      (wanted : Wanted) (count : ℕ) (new : Text) (tokens : List Text) (s : S) (file : Option Value)
      → All (λ t. is_token t ≡ true) tokens
      → IsStart file
      → IsStart (create_loaded virsh wanted count new tokens (load file) (s, file)).0.1
  unfolding create_loaded load IsStart ensure_name_prefix IsGroup
  create_loaded-IsStart wanted count new tokens s none q k =
      let rest = codes "irtual-bmh-" ++ new in
      inr (
        create_each-IsKept virsh wanted count b'v' rest tokens [] s
          (some (save (record { name_prefix = some (b'v' ∷ rest); hosts = [] }))) q tt
          (saved-IsKept b'v' rest [] tt))
  create_loaded-IsStart wanted count new tokens s (some v) q (inl e) = absurd (cc)
  create_loaded-IsStart wanted count new tokens s (some v) q (inr k) =
      create_named-IsStart wanted count new tokens s (some v) q k

  end_delete-IsKept :
      (c : ℕ) (prefix : Text) (hosts : List Host) (file : Option Value) (deleted : List Text)
      (done : Collected S)
      → IsGroup (c ∷ prefix) hosts
      → IsKept file
      → IsKept
          (end_delete virsh
            (record { name_prefix = some (c ∷ prefix); hosts = hosts })
            file
            deleted
            done).0.1
  unfolding remove_hosts
  end_delete-IsKept c prefix hosts file deleted (s, none) g k = k
  end_delete-IsKept c prefix hosts file deleted (s, some (others, remaining)) g k =
      saved-IsKept c prefix (kept_hosts deleted hosts)
        (kept_hosts-IsGroup (c ∷ prefix) deleted hosts g)

  finish_delete-IsKept :
      (c : ℕ) (prefix : Text) (hosts : List Host) (file : Option Value) (others : List Text)
      (done : Collected S)
      → IsGroup (c ∷ prefix) hosts
      → IsKept file
      → IsKept
          (finish_delete virsh
            (record { name_prefix = some (c ∷ prefix); hosts = hosts })
            file
            others
            done).0.1
  finish_delete-IsKept c prefix hosts file others (s, none) g k = k
  finish_delete-IsKept c prefix hosts file others (s, some (deleted, remaining)) g k =
      end_delete-IsKept c prefix hosts file deleted
        (delete_each virsh others s (some ([], remaining))) g k

  delete_loaded-IsKept :
      (names : List Text) (s : S) (file : Option Value)
      → IsKept file
      → IsKept (delete_loaded virsh names (load file) (s, file)).0.1
  unfolding delete_loaded IsKept
  delete_loaded-IsKept names s file (c, prefix, hosts, e, g) =
      let others = unknown (host_names hosts) names in
      let done = delete_each virsh (asked names (host_names hosts)) s (some ([], [])) in
      elim (Bool-cases (any (λ name. not (is_group_host_name name (c ∷ prefix))) others)) [
        | inl t ↦ rw e (rw t (c, prefix, hosts, e, g))
        | inr t ↦
            rw e (
              rw t
                (finish_delete-IsKept c prefix hosts file others done g (c, prefix, hosts, e, g)))
      ]

  cmd_delete-IsStart :
      (names : List Text) (s : S) (file : Option Value)
      → IsStart file
      → IsStart (cmd_delete virsh names (s, file)).0.1
  unfolding cmd_delete IsStart
  cmd_delete-IsStart names s none k = inl refl
  cmd_delete-IsStart names s (some v) (inl e) = absurd (cc)
  cmd_delete-IsStart names s (some v) (inr k) = inr (delete_loaded-IsKept names s (some v) k)

  -- Whatever the commands of libvirt answer, a file that is missing or holds the inventory of a group
  -- is still so after cmd_create and after cmd_delete: no two hosts have one name, and each has a name
  -- of the group, if each random token is two hexadecimal digits.
  pub commands-IsStart :
      (wanted : Wanted) (count : ℕ) (new : Text) (tokens names : List Text) (s : S)
      (file : Option Value)
      → All (λ t. is_token t ≡ true) tokens
      → IsStart file
      → IsStart (cmd_create virsh wanted count new tokens (s, file)).0.1
        × IsStart (cmd_delete virsh names (s, file)).0.1
  unfolding cmd_create
  commands-IsStart wanted count new tokens names s file q k = (
    check_network-IsStart wanted (virsh.net_info s) (s, file)
        (create_loaded virsh wanted count new tokens (load file) (s, file)) k
        (create_loaded-IsStart wanted count new tokens s file q k),
    cmd_delete-IsStart names s file k,
  )
