-- ===== src/Hosts/RoundTrip.antt =====
-- What .github/scripts/raw_inventory.py writes it reads again.
use osac_test_infra.Prelude.{ℕ, ◌≡◌, refl, Option, none, some, List, [], ◌∷◌}
use osac_test_infra.Text.{Text}
use osac_test_infra.Hosts.{
  Value, Host, ok, load_host, load_hosts, load, as_dict, as_dicts, save, ensure_name_prefix,
}

load_host_lem : (h : Host) → load_host (as_dict h) ≡ ok h
unfolding load_host
load_host_lem h = refl

load_hosts_lem : (hosts : List Host) → load_hosts (as_dicts hosts) ≡ ok hosts
unfolding load_hosts
load_hosts_lem [] = refl
load_hosts_lem (h ∷ hosts) = rw (load_hosts_lem hosts) refl

-- A group with a prefix is read back from the document that was saved, host for host; and the
-- prefix that ensure_name_prefix makes up for a group without one is in the file before it returns.
pub load-save :
    (c : ℕ) (prefix token : Text) (hosts : List Host) (file : Option Value)
    → (load (some (save (record { name_prefix = some (c ∷ prefix); hosts = hosts })))
        ≡ ok (record { name_prefix = some (c ∷ prefix); hosts = hosts }))
      × (load ((ensure_name_prefix token (record { name_prefix = none; hosts = hosts }) file).1)
          ≡ ok ((ensure_name_prefix token (record { name_prefix = none; hosts = hosts }) file).0))
unfolding load save ensure_name_prefix
load-save c prefix token hosts file =
    (rw (load_hosts_lem hosts) refl, rw (load_hosts_lem hosts) refl)
