-- ===== src/Hosts/Machines/Tests.antt =====
-- Runs on a machine host that knows two domains, and the theorems at concrete values.
use osac_test_infra.Prelude.{
  ℕ, Bool, true, false, not, Option, none, some, [], ◌∷◌, ◌≡◌, refl, sym, ◌&&◌, ◌||◌, All, any,
  codes, if◌then◌else◌, Bool-cases, inl, inr,
}
use mathlib.Core.Path.{subst}
use osac_test_infra.Prelude.Search.{bytes_eq, bytes_eq_sound}
use osac_test_infra.Text.{Text}
use osac_test_infra.Hosts.{
  Host, RawInventory, ok, load, save, is_token, host_names, is_group_host_name,
}
use osac_test_infra.Hosts.Reconcile.{fine, failed, going}
use osac_test_infra.Hosts.Machines.{
  Libvirt, Wanted, asked, unknown, cmd_create, cmd_delete, or_empty,
}
use osac_test_infra.Hosts.Machines.Deletes.{IsIsolated}
use osac_test_infra.Hosts.Machines.Removed.{IsTruthful}
use osac_test_infra.Hosts.Machines.Gone.{run_reaches, cmd_delete-gone, cmd_delete-keeps}
use osac_test_infra.Hosts.Machines.Kept.{IsStart, commands-IsStart}

-- The domain that there is, if any.
abbrev Lab : Type 0
Lab = Option Text

abbrev alive : Lab → Text → Bool
alive none n = false
alive (some m) n = bytes_eq n m

abbrev undefine : Text → Lab → Lab
undefine name none = none
undefine name (some m) = if bytes_eq m name then none else some m

abbrev lab : Libvirt Lab
lab = record {
  net_info = λ s. fine;
  create_disk = λ name s. (s, fine);
  copy_vars = λ name s. (s, fine);
  define = λ name s. (some name, fine);
  start = λ name s. (s, fine);
  domuuid = λ name s. (if alive s name then fine else failed 1, codes "u");
  storage = λ name s. (fine, []);
  destroy = λ name s. (s, fine);
  undefine = λ name s. (undefine name s, fine);
  unlink = λ path s. (s, false);
}

undefined_law :
    (name n : Text) (s : Lab) → bytes_eq n name ≡ false → alive (undefine name s) n ≡ alive s n
undefined_law name n none e = refl
undefined_law name n (some m) e = elim (Bool-cases (bytes_eq m name)) [
  | inr q ↦ rw q refl
  | inl q ↦
      let other : bytes_eq n m ≡ false =
        subst (λ k. bytes_eq n k ≡ false) (sym (bytes_eq_sound m name q)) e in
      rw q (sym other)
]

identified_law :
    (name : Text) (s : Lab) (m : ℕ) → (lab.domuuid name s).0 ≡ failed m → alive s name ≡ false
identified_law name s m e = elim (Bool-cases (alive s name)) [
  | inr q ↦ q
  | inl q ↦ let e' : fine ≡ failed m = rw q at e in absurd (cc)
]

lab-IsIsolated : IsIsolated lab alive
lab-IsIsolated = record {
  destroyed = λ name n s e. refl;
  undefined = undefined_law;
  unlinked = λ path n s. refl;
}

abbrev always : Lab → Bool
always s = true

lab-IsTruthful : IsTruthful lab alive always
lab-IsTruthful = record { identified = λ name s m r e. identified_law name s m e }

abbrev machine : Host
machine = record {
  name = codes "g-01";
  uuid = codes "u";
  boot_mac = codes "m";
  bmc_address = codes "b";
  bmc_username = codes "admin";
  bmc_password = codes "pw";
  cpu = 4;
  memory_mib = 8192;
}

abbrev group : RawInventory
group = record { name_prefix = some (codes "g"); hosts = machine ∷ [] }

loaded : load (some (save group)) ≡ ok group
unfolding load save
loaded = refl

deleted : (cmd_delete lab (codes "g-01" ∷ []) (some (codes "g-01"), some (save group))).1 ≡ going
unfolding cmd_delete
deleted = refl

reached : run_reaches lab always group (codes "g-01" ∷ []) (some (codes "g-01")) ≡ true
unfolding run_reaches asked host_names unknown
reached = refl

cmd_delete-gone_example :
    alive
      (cmd_delete lab (codes "g-01" ∷ []) (some (codes "g-01"), some (save group))).0.0
      (codes "g-01")
    ≡ (alive (some (codes "g-01")) (codes "g-01")
        && not (any (bytes_eq (codes "g-01")) (codes "g-01" ∷ [])))
cmd_delete-gone_example =
    cmd_delete-gone lab alive lab-IsIsolated always lab-IsTruthful group (save group)
      (codes "g-01" ∷ []) (some (codes "g-01")) (codes "g-01") loaded reached deleted

no_member :
    (any (bytes_eq (codes "h-01")) (codes "h-01" ∷ [])
      && (any (bytes_eq (codes "h-01")) (host_names group.hosts)
          || is_group_host_name (codes "h-01") (or_empty group.name_prefix)))
    ≡ false
unfolding host_names is_group_host_name bytes_eq
no_member = refl

cmd_delete-keeps_example :
    alive
      (cmd_delete lab (codes "h-01" ∷ []) (some (codes "h-01"), some (save group))).0.0
      (codes "h-01")
    ≡ alive (some (codes "h-01")) (codes "h-01")
cmd_delete-keeps_example =
    cmd_delete-keeps lab alive lab-IsIsolated group (save group) (codes "h-01" ∷ [])
      (some (codes "h-01")) (codes "h-01") loaded no_member

abbrev wanted : Wanted
wanted = record { cpu = 4; memory_mib = 8192; bmc_address = λ uuid. uuid }

are_tokens : All (λ t. is_token t ≡ true) (codes "0a" ∷ codes "1b" ∷ [])
are_tokens = (refl, (refl, tt))

no_file : IsStart none
unfolding IsStart
no_file = inl refl

commands-IsStart_example :
    IsStart
      (cmd_create lab wanted 2 (codes "0123abcd") (codes "0a" ∷ codes "1b" ∷ []) (none, none)).0.1
    × IsStart (cmd_delete lab (codes "g-01" ∷ []) (none, none)).0.1
commands-IsStart_example =
    commands-IsStart lab wanted 2 (codes "0123abcd") (codes "0a" ∷ codes "1b" ∷ [])
      (codes "g-01" ∷ []) none none are_tokens no_file
