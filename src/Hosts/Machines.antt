-- ===== src/Hosts/Machines.antt =====
-- The virtual machines behind the hosts of a group: .github/scripts/manage-virtual-bmh-vms.py. The
-- state is that of libvirt, whose commands are given, and the document in the inventory's file.
pub mod Asked
pub mod Deletes
pub mod Gone
pub mod Groups
pub mod Kept
pub mod Removed
mod Tests
use osac_test_infra.Prelude.{
  ℕ, zero, suc, ◌+◌, Bool, true, false, not, Option, none, some, List, [], ◌∷◌, ◌++◌, ◌&&◌, ◌||◌,
  leb, if◌then◌else◌, codes, length, is_empty, any, drop,
}
use osac_test_infra.Prelude.Search.{bytes_eq, starts_with}
use osac_test_infra.Text.{Text}
use osac_test_infra.Redact.Paths.{path_parts, last_part}
use osac_test_infra.Hosts.{
  Host, RawInventory, Loaded, ok, invalid, Value, load, save, ensure_name_prefix, host_names,
  add_host, remove_hosts, is_group_host_name,
}
use osac_test_infra.Hosts.Reconcile.{Code, fine, failed, timed_out, Ending, going, exited, strip}

-- The commands: `net-info`; `qemu-img create` and the copy of the variables; `define` and `start`;
-- `domuuid`; the storage that `dumpxml` names; `destroy` and `undefine`; and the removal of a
-- file, with whether it raises.
pub record Libvirt (S : Type 0) : Type 0 where
  pub net_info : S → Code
  pub create_disk : Text → S → S × Code
  pub copy_vars : Text → S → S × Code
  pub define : Text → S → S × Code
  pub start : Text → S → S × Code
  pub domuuid : Text → S → Code × Text
  pub storage : Text → S → Code × List Text
  pub destroy : Text → S → S × Code
  pub undefine : Text → S → S × Code
  pub unlink : Text → S → S × Bool

-- Whether a command ran to its end, well or not.
abbrev pub has_ended : Code → Bool
has_ended fine = true
has_ended (failed n) = true
has_ended timed_out = false

-- owned_storage
unfoldable pub is_owned : Text → Text → Bool
unfolding path_parts bytes_eq
is_owned name path =
    let file = last_part (path_parts [] path) in
    bytes_eq file (name ++ codes ".qcow2") || bytes_eq file (name ++ codes "-VARS.fd")

abbrev pub paths_of : Code × List Text → List Text
paths_of (fine, paths) = paths
paths_of (failed n, paths) = []
paths_of (timed_out, paths) = []

abbrev pub noted : Text → Option Bool → List Text × List Text → Option (List Text × List Text)
noted name none lists = none
noted name (some true) (deleted, remaining) = some (deleted ++ name ∷ [], remaining)
noted name (some false) (deleted, remaining) = some (deleted, remaining ++ name ∷ [])

-- The names of the hosts that are asked for, and the names asked for that are no host's.
unfoldable pub asked : List Text → List Text → List Text
unfolding bytes_eq
asked names [] = []
asked names (known ∷ others) =
    let rest = asked names others in if any (bytes_eq known) names then known ∷ rest else rest

unfoldable pub unknown : List Text → List Text → List Text
unfolding bytes_eq
unknown known [] = []
unknown known (name ∷ names) =
    let rest = unknown known names in if any (bytes_eq name) known then rest else name ∷ rest

abbrev pub or_empty : Option Text → Text
or_empty none = codes "None"
or_empty (some prefix) = prefix

-- What the loops over the names collect: the deleted and the failed ones, `none` after an exception.
abbrev pub Collected : Type 0 → Type 0
Collected S = S × Option (List Text × List Text)

-- The state of libvirt, and the document in the file.
abbrev pub World : Type 0 → Type 0
World S = S × Option Value

module _ {S : Type 0} (virsh : Libvirt S) where
  -- The removal of the machine's own files, and whether it raises.
  unfoldable pub unlink_owned : Text → List Text → S → S × Bool
  unfolding is_owned
  unlink_owned name [] s = (s, false)
  unlink_owned name (path ∷ paths) s =
      let (s', raises) = virsh.unlink path s in
      let after_unlink = unlink_owned name paths s' in
      let skipped = unlink_owned name paths s in
      if not (is_owned name path) then skipped else if raises then (s', true) else after_unlink

  -- delete_vm: whether the domain is gone, or `none` after a time-out or an error of a removal.
  abbrev pub conclude : Text → List Text → S → Code → S × Option Bool
  conclude name paths s fine = (s, some false)
  conclude name paths s (failed n) =
      let (s', raises) = unlink_owned name paths s in (s', if raises then none else some true)
  conclude name paths s timed_out = (s, none)

  unfoldable pub delete_vm : Text → S → S × Option Bool
  unfolding unlink_owned
  delete_vm name s =
      let dump = virsh.storage name s in
      let (s1, destroyed) = virsh.destroy name s in
      let (s2, undefined) = virsh.undefine name s1 in
      if not (has_ended dump.0)
      then (s, none)
      else if not (has_ended destroyed)
      then (s1, none)
      else if not (has_ended undefined)
      then (s2, none)
      else conclude name (paths_of dump) s2 ((virsh.domuuid name s2).0)

  unfoldable pub delete_each : List Text → S → Option (List Text × List Text) → Collected S
  unfolding delete_vm
  delete_each names s none = (s, none)
  delete_each [] s (some lists) = (s, some lists)
  delete_each (name ∷ names) s (some lists) =
      let (s', gone) = delete_vm name s in delete_each names s' (noted name gone lists)

  -- The end of cmd_delete; a name that is in no inventory is not noted as deleted.
  abbrev pub end_delete : RawInventory → Option Value → List Text → Collected S → World S × Ending
  end_delete inventory file deleted (s, none) = ((s, file), exited 1)
  end_delete inventory file deleted (s, some (others, remaining)) = (
    (s, some (save (remove_hosts deleted inventory))),
    if is_empty remaining then going else exited 1,
  )

  abbrev pub finish_delete :
      RawInventory → Option Value → List Text → Collected S → World S × Ending
  finish_delete inventory file others (s, none) = ((s, file), exited 1)
  finish_delete inventory file others (s, some (deleted, remaining)) =
      end_delete inventory file deleted (delete_each others s (some ([], remaining)))

  unfoldable pub delete_loaded : List Text → Loaded RawInventory → World S → World S × Ending
  unfolding asked unknown delete_each save remove_hosts host_names is_group_host_name
  delete_loaded names (invalid e) w = (w, exited 1)
  delete_loaded names (ok inventory) (s, file) =
      let known = host_names inventory.hosts in
      let others = unknown known names in
      let prefix = or_empty inventory.name_prefix in
      if any (λ name. not (is_group_host_name name prefix)) others
      then ((s, file), exited 1)
      else finish_delete inventory file others (delete_each (asked names known) s (some ([], [])))

  -- cmd_delete
  unfoldable pub cmd_delete : List Text → World S → World S × Ending
  unfolding delete_loaded load
  cmd_delete names (s, none) = ((s, none), exited 1)
  cmd_delete names (s, some document) =
      delete_loaded names (load (some document)) (s, some document)

-- The tokens in use: what stands behind the prefix in the names of the hosts.
unfoldable pub used_tokens : Text → List Host → List Text
unfolding starts_with
used_tokens prefix [] = []
used_tokens prefix (host ∷ hosts) =
    let rest = used_tokens prefix hosts in
    if starts_with (prefix ++ codes "-") host.name
    then drop (length prefix + 1) host.name ∷ rest
    else rest

-- The loop over the random tokens; `none` while there is no new one.
unfoldable pub first_unused : List Text → List Text → Option (Text × List Text)
unfolding bytes_eq
first_unused used [] = none
first_unused used (token ∷ tokens) =
    let later = first_unused used tokens in
    if any (bytes_eq token) used then later else some (token, tokens)

unfoldable pub different : List Text → List Text
unfolding bytes_eq
different [] = []
different (t ∷ texts) =
    let rest = different texts in if any (bytes_eq t) texts then rest else t ∷ rest

abbrev pub max_vms_per_group : ℕ
max_vms_per_group = 256

-- A token, and the random ones that are left; or the group is full; or each one drawn was in use, and
-- the loop goes on.
pub data Drawn : Type 0 where
  drawn : Text → List Text → Drawn
  full : Drawn
  drawing : Drawn

abbrev pub as_drawn : Option (Text × List Text) → Drawn
as_drawn none = drawing
as_drawn (some (token, tokens)) = drawn token tokens

-- generate_vm_token from the random tokens.
unfoldable pub generate_vm_token : List Host → Text → List Text → Drawn
unfolding used_tokens first_unused different
generate_vm_token hosts prefix tokens =
    let used = used_tokens prefix hosts in
    if leb max_vms_per_group (length (different used))
    then full
    else as_drawn (first_unused used tokens)

-- What is asked for: processors, memory and the address of a machine by its identifier.
pub record Wanted : Type 0 where
  pub cpu : ℕ
  pub memory_mib : ℕ
  pub bmc_address : Text → Text

-- What create_vm returns, or the status that its exception exits with.
pub data Made : Type 0 where
  booted : Host → Made
  stopped : ℕ → Made

module _ {S : Type 0} (virsh : Libvirt S) (wanted : Wanted) where
  abbrev pub then_code : S × Code → (S → S × Made) → S × Made
  then_code (s, fine) f = f s
  then_code (s, failed n) f = (s, stopped n)
  then_code (s, timed_out) f = (s, stopped 1)

  abbrev pub described : Text → Text → S → Code × Text → S × Made
  described name token s (fine, out) = (
    s,
    booted (record {
      name = name;
      uuid = strip out;
      boot_mac = codes "52:54:00:bb:cc:" ++ token;
      bmc_address = wanted.bmc_address (strip out);
      bmc_username = codes "admin";
      bmc_password = codes "password";
      cpu = wanted.cpu;
      memory_mib = wanted.memory_mib;
    }),
  )
  described name token s (failed n, out) = (s, stopped n)
  described name token s (timed_out, out) = (s, stopped 1)

  -- create_vm
  unfoldable pub create_vm : Text → Text → S → S × Made
  unfolding strip
  create_vm name token s = then_code (virsh.create_disk name s) (λ s.
      then_code (virsh.copy_vars name s) (λ s.
        then_code (virsh.define name s) (λ s.
          then_code (virsh.start name s) (λ s. described name token s (virsh.domuuid name s)))))

  -- The rounds of cmd_create: a save follows each machine. An ending of `none` is a loop over tokens
  -- that still goes on.
  unfoldable pub create_each :
      ℕ → Text → List Text → RawInventory → World S → World S × Option Ending
  unfolding generate_vm_token create_vm add_host save
  create_each zero prefix tokens inventory w = (w, some going)
  create_each (suc count) prefix tokens inventory (s, file) =
      elim (generate_vm_token inventory.hosts prefix tokens) [
        | full ↦ ((s, file), some (exited 1))
        | drawing ↦ ((s, file), none)
        | drawn token tokens' ↦
            let attempt = create_vm (prefix ++ (codes "-" ++ token)) token s in
            elim attempt.1 [
              | stopped n ↦ ((attempt.0, file), some (exited n))
              | booted host ↦
                  create_each count prefix tokens' (add_host host inventory)
                    (attempt.0, some (save (add_host host inventory)))
            ]
      ]

  abbrev pub create_named :
      ℕ → List Text → RawInventory × Option Value → S → World S × Option Ending
  create_named count tokens (inventory, file) s =
      create_each count (or_empty inventory.name_prefix) tokens inventory (s, file)

  unfoldable pub create_loaded :
      ℕ → Text → List Text → Loaded RawInventory → World S → World S × Option Ending
  unfolding create_each ensure_name_prefix
  create_loaded count new tokens (invalid e) w = (w, some (exited 1))
  create_loaded count new tokens (ok inventory) (s, file) =
      create_named count tokens (ensure_name_prefix new inventory file) s

  -- check_network, which lists the networks before it exits.
  abbrev pub check_network : Code → World S → World S × Option Ending → World S × Option Ending
  check_network fine w created = created
  check_network (failed n) w created = (w, some (exited 1))
  check_network timed_out w created = (w, some (exited 1))

  -- cmd_create, with the random text of a new prefix and the random tokens.
  unfoldable pub cmd_create : ℕ → Text → List Text → World S → World S × Option Ending
  unfolding create_loaded load
  cmd_create count new tokens (s, file) =
      check_network (virsh.net_info s) (s, file)
        (create_loaded count new tokens (load file) (s, file))
