-- ===== src/Uplink/Tests.antt =====
-- Runs of infra/netris/scripts/ocp_uplink.py on a small controller, and the theorems applied to them.
use osac_test_infra.Prelude.{
  Bool, true, none, some, List, [], ◌∷◌, ◌≡◌, refl, codes, Memᴰ, if◌then◌else◌, ◌==◌,
}
use osac_test_infra.Text.{Text}
use osac_test_infra.Uplink.Ports.{
  Patterns, Port, text, full_port_name, join_at, disabled, enabled, Link, broken, link,
  server_port_underlay,
}
use osac_test_infra.Uplink.Reconcile.{Detail, Controller, Args, reconcile}
use osac_test_infra.Uplink.Reconcile.Planned.{MayAttach, reconcile-MayAttach}
use osac_test_infra.Uplink.Reconcile.Attached.{IsAttached, reconcile-IsAttached}

abbrev plain_patterns : Patterns
plain_patterns = record { strip_suffix = λ t. t; parse_name = λ t. none }

abbrev port : Text → Text → Bool → Port
port short switch access = record {
  name = none;
  switch_name = text switch;
  switch = none;
  short_name = some short;
  access_mode = access;
}

named :
    full_port_name plain_patterns (port (codes "eth1") (codes "sno") true) ≡ some (codes "eth1@sno")
unfolding full_port_name join_at
named = refl

abbrev links : List Link
links =
    broken
    ∷ link (some (codes "eth1@sno")) (some (codes "swp1@leaf")) disabled
    ∷ link (some (codes "eth2@sno")) (some (codes "swp2@leaf")) enabled
    ∷ []

one_link : server_port_underlay links (codes "eth1@sno") ≡ some disabled
unfolding server_port_underlay
one_link = refl

abbrev ocp : List Port → Detail
ocp ports = record { detail_name = some (codes "ocp"); vpc = some 3; ports = ports }

abbrev other : Detail
other = record {
  detail_name = some (codes "other");
  vpc = some 3;
  ports = port (codes "eth2") (codes "sno") true ∷ [];
}

abbrev controller : Controller
controller = record {
  links = some links;
  vnets = some (
      record { id = some 1; row_name = some (codes "ocp") }
      ∷ record { id = some 2; row_name = some (codes "other") }
      ∷ []);
  detail = λ n. if n == 1 then some (ocp []) else some other;
  accepts_put = true;
  detail_after =
      λ n. if n == 1 then some (ocp (port (codes "eth1") (codes "sno") true ∷ [])) else some other;
}

abbrev args : Args
args = record { vnet_name = codes "ocp"; vpc_id = 3; server_port = codes "eth1@sno" }

ran : reconcile plain_patterns controller args ≡ ((1, codes "eth1@sno") ∷ [], some (true, 1))
unfolding reconcile full_port_name join_at
ran = refl

asked : Memᴰ (1, codes "eth1@sno") (reconcile plain_patterns controller args).0
unfolding reconcile full_port_name join_at
asked = Memᴰ.head refl

returned : (reconcile plain_patterns controller args).1 ≡ some (true, 1)
unfolding reconcile full_port_name join_at
returned = refl

reconcile-MayAttach_example :
    (codes "eth1@sno" ≡ args.server_port) × MayAttach plain_patterns controller args 1
reconcile-MayAttach_example =
    reconcile-MayAttach plain_patterns controller args 1 (codes "eth1@sno") asked

reconcile-IsAttached_example :
    IsAttached plain_patterns controller args 1
    × ((reconcile plain_patterns controller args).0 ≡ ((1, codes "eth1@sno") ∷ []))
reconcile-IsAttached_example = reconcile-IsAttached plain_patterns controller args true 1 returned
