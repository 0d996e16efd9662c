-- ===== src/Hosts.antt =====
-- The bare-metal hosts of a group: .github/scripts/raw_inventory.py, here, and
-- .github/scripts/reconcile-bmhs.py, in Hosts/Reconcile. JSON documents are values; a number is no
-- negative integer, or none at all.
pub mod RoundTrip
pub mod Names
pub mod Reconcile
pub mod Machines
mod Tests
use osac_test_infra.Prelude.{
  ℕ, zero, suc, ◌+◌, Bool, true, false, not, Option, none, some, List, [], ◌∷◌, ◌++◌, leb, ◌==◌,
  ◌&&◌, ◌||◌, if◌then◌else◌, codes, length, is_empty, any, all, drop, map,
}
use osac_test_infra.Prelude.Search.{bytes_eq, starts_with}
use osac_test_infra.Text.{Text}

abbrev pub is_token_char : ℕ → Bool
is_token_char c = leb 48 c && leb c 57 || leb 97 c && leb c 102

-- GROUP_NAME_TOKEN_RE.fullmatch
abbrev pub is_token : Text → Bool
is_token text = length text == 2 && all is_token_char text

-- is_group_host_name
unfoldable pub is_group_host_name : Text → Text → Bool
unfolding starts_with
is_group_host_name name name_prefix =
    let suffix = drop (length name_prefix + 1) name in
    starts_with (name_prefix ++ codes "-") name && is_token suffix

pub record Host : Type 0 where
  pub name : Text
  pub uuid : Text
  pub boot_mac : Text
  pub bmc_address : Text
  pub bmc_username : Text
  pub bmc_password : Text
  pub cpu : ℕ
  pub memory_mib : ℕ

pub record RawInventory : Type 0 where
  pub name_prefix : Option Text
  pub hosts : List Host

-- What json.load gives; the keys of an object are different.
mutual
  pub data Value : Type 0 where
    text : Text → Value
    integer : ℕ → Value
    scalar : Value
    array : Values → Value
    object : Entries → Value

  pub data Values : Type 0 where
    no_values : Values
    value : Value → Values → Values

  pub data Entries : Type 0 where
    no_entries : Entries
    entry : Text → Value → Entries → Entries

-- What an InventoryError is raised for.
pub data Invalid : Type 0 where
  no_hosts : Invalid
  no_name_prefix : Invalid
  no_object : Invalid
  wrong_fields : Invalid
  no_string : Text → Invalid
  no_integer : Text → Invalid

pub data Loaded (A : Type 0) : Type 0 where
  ok : A → Loaded A
  invalid : Invalid → Loaded A

abbrev pub and_then : {A : Type 0} {B : Type 0} → Loaded A → (A → Loaded B) → Loaded B
and_then (ok a) f = f a
and_then (invalid e) f = invalid e

-- entry.get(key)
unfoldable pub get : Text → Entries → Option Value
unfolding bytes_eq
get key no_entries = none
get key (entry k v entries) =
    let later = get key entries in if bytes_eq k key then some v else later

abbrev pub text_fields : List Text
text_fields =
    codes "name"
    ∷ codes "uuid"
    ∷ codes "boot_mac"
    ∷ codes "bmc_address"
    ∷ codes "bmc_username"
    ∷ codes "bmc_password"
    ∷ []

abbrev pub integer_fields : List Text
integer_fields = codes "cpu" ∷ codes "memory_mib" ∷ []

abbrev pub is_some : Option Value → Bool
is_some none = false
is_some (some v) = true

unfoldable pub are_fields : Entries → Bool
unfolding bytes_eq
are_fields no_entries = true
are_fields (entry k v entries) =
    any (bytes_eq k) (text_fields ++ integer_fields) && are_fields entries

-- Host(**entry) takes exactly the fields; a missing or another one is a TypeError.
unfoldable pub takes : Entries → Bool
unfolding are_fields get
takes entries =
    are_fields entries && all (λ key. is_some (get key entries)) (text_fields ++ integer_fields)

abbrev pub as_text : Text → Option Value → Loaded Text
as_text key (some (text t)) = ok t
as_text key _ = invalid (no_string key)

abbrev pub as_integer : Text → Option Value → Loaded ℕ
as_integer key (some (integer n)) = ok n
as_integer key _ = invalid (no_integer key)

-- _validate_host_types
unfoldable pub validate_host_types : Entries → Loaded Host
unfolding get
validate_host_types e =
    let string = λ (key : Text). as_text key (get key e) in
    let number = λ (key : Text). as_integer key (get key e) in
    and_then (string (codes "name")) (λ name. and_then (string (codes "uuid")) (λ uuid.
      and_then (string (codes "boot_mac")) (λ boot_mac.
        and_then (string (codes "bmc_address")) (λ bmc_address.
          and_then (string (codes "bmc_username")) (λ bmc_username.
            and_then (string (codes "bmc_password")) (λ bmc_password.
              and_then (number (codes "cpu")) (λ cpu.
                and_then (number (codes "memory_mib")) (λ memory_mib. ok (record {
                  name = name;
                  uuid = uuid;
                  boot_mac = boot_mac;
                  bmc_address = bmc_address;
                  bmc_username = bmc_username;
                  bmc_password = bmc_password;
                  cpu = cpu;
                  memory_mib = memory_mib;
                })))))))))

unfoldable pub load_host : Value → Loaded Host
unfolding takes validate_host_types
load_host (object e) = if takes e then validate_host_types e else invalid wrong_fields
load_host _ = invalid no_object

unfoldable pub load_hosts : Values → Loaded (List Host)
unfolding load_host
load_hosts no_values = ok []
load_hosts (value v values) =
    and_then (load_host v) (λ host. and_then (load_hosts values) (λ hosts. ok (host ∷ hosts)))

abbrev pub load_group : Option Value → Values → Loaded RawInventory
load_group (some (text [])) listed = invalid no_name_prefix
load_group (some (text (c ∷ prefix))) listed =
    and_then (load_hosts listed)
      (λ hosts. ok (record { name_prefix = some (c ∷ prefix); hosts = hosts }))
load_group _ listed = invalid no_name_prefix

abbrev pub load_array : Option Value → Entries → Loaded RawInventory
load_array (some (array values)) e = load_group (get (codes "name_prefix") e) values
load_array _ e = invalid no_hosts

-- RawInventory.load of a file's document; a missing file starts a new group.
unfoldable pub load : Option Value → Loaded RawInventory
unfolding get load_hosts
load none = ok (record { name_prefix = none; hosts = [] })
load (some (object e)) = load_array (get (codes "hosts") e) e
load (some _) = invalid no_hosts

-- asdict(host)
abbrev pub as_dict : Host → Value
as_dict h = object (
    entry (codes "name") (text h.name) (
      entry (codes "uuid") (text h.uuid) (
        entry (codes "boot_mac") (text h.boot_mac) (
          entry (codes "bmc_address") (text h.bmc_address) (
            entry (codes "bmc_username") (text h.bmc_username) (
              entry (codes "bmc_password") (text h.bmc_password) (
                entry (codes "cpu") (integer h.cpu)
                  (entry (codes "memory_mib") (integer h.memory_mib) no_entries))))))))

abbrev pub as_dicts : List Host → Values
as_dicts [] = no_values
as_dicts (h ∷ hosts) = value (as_dict h) (as_dicts hosts)

abbrev pub prefix_value : Option Text → Value
prefix_value none = scalar
prefix_value (some prefix) = text prefix

-- The document that RawInventory.save writes.
unfoldable pub save : RawInventory → Value
save inventory = object (
    entry (codes "name_prefix") (prefix_value inventory.name_prefix)
      (entry (codes "hosts") (array (as_dicts inventory.hosts)) no_entries))

abbrev pub has_prefix : Option Text → Bool
has_prefix none = false
has_prefix (some prefix) = not (is_empty prefix)

-- ensure_name_prefix, with the token of secrets.token_hex: the group and its file, after.
unfoldable pub ensure_name_prefix : Text → RawInventory → Option Value → RawInventory × Option Value
unfolding save
ensure_name_prefix token inventory file =
    let named : RawInventory = record {
      name_prefix = some (codes "virtual-bmh-" ++ token);
      hosts = inventory.hosts;
    } in
    if has_prefix inventory.name_prefix then (inventory, file) else (named, some (save named))

unfoldable pub host_names : List Host → List Text
host_names hosts = map (λ h. h.name) hosts

unfoldable pub add_host : Host → RawInventory → RawInventory
add_host host inventory = record {
  name_prefix = inventory.name_prefix;
  hosts = inventory.hosts ++ host ∷ [];
}

unfoldable pub kept_hosts : List Text → List Host → List Host
unfolding bytes_eq
kept_hosts names [] = []
kept_hosts names (h ∷ hosts) =
    let rest = kept_hosts names hosts in if any (bytes_eq h.name) names then rest else h ∷ rest

unfoldable pub remove_hosts : List Text → RawInventory → RawInventory
unfolding kept_hosts
remove_hosts names inventory = record {
  name_prefix = inventory.name_prefix;
  hosts = kept_hosts names inventory.hosts;
}
