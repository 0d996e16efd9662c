-- ===== src/Uplink/ResolveTests.antt =====
-- A run of `resolve` of infra/netris/scripts/ocp_uplink.py, and the theorem applied to it.
use osac_test_infra.Prelude.{
  ℕ, true, Option, none, some, List, [], ◌∷◌, ◌≡◌, ◌≢◌, refl, codes, Memᴰ, length, if◌then◌else◌,
  ◌==◌,
}
use osac_test_infra.Text.{Text}
use osac_test_infra.Uplink.Ports.{
  Patterns, Port, text, full_port_name, join_at, disabled, enabled, link,
}
use osac_test_infra.Uplink.Reconcile.{Row, Detail, matches}
use osac_test_infra.Uplink.Resolve.{Names, Verified, own_network, north_south_links, resolve}
use osac_test_infra.Uplink.Resolve.Choice.{HasNot, resolve-HasNot}

abbrev patterns_used : Patterns
patterns_used = record { strip_suffix = λ t. t; parse_name = λ t. none }

-- A name of three letters is an interface, and the length stands for the number.
abbrev names : Names
names = record {
  is_server = λ t. length t == 8;
  is_leaf = λ t. length t == 14;
  is_interface = λ t. length t == 4;
  number = λ t. length t;
}

found_links :
    north_south_links names
      (link (some (codes "swp1@ns-leaf-1")) (some (codes "eth1@sno")) disabled ∷ [])
    ≡ some (
        (codes "eth1@sno", record { leaf_endpoint = codes "swp1@ns-leaf-1"; state = disabled })
        ∷ [])
unfolding north_south_links
found_links = refl

abbrev taken_port : Port
taken_port = record {
  name = none;
  switch_name = text (codes "sno");
  switch = none;
  short_name = some (codes "eth1");
  access_mode = true;
}

abbrev details : ℕ → Option Detail
details n =
    if n == 1
    then some (record { detail_name = some (codes "ocp"); vpc = some 3; ports = [] })
    else some (record { detail_name = some (codes "other"); vpc = some 3; ports = taken_port ∷ [] })

abbrev free_uplink : Verified
free_uplink = record {
  guest_mac = codes "m2";
  leaf_port = codes "swp2@ns-leaf-1";
  underlay = disabled;
}

abbrev uplinks : List (Text × Verified)
uplinks =
    (
      codes "eth1@sno",
      record { guest_mac = codes "m1"; leaf_port = codes "swp1@ns-leaf-1"; underlay = disabled },
    )
    ∷ (codes "eth2@sno", free_uplink)
    ∷ (
      codes "eth3@sno",
      record { guest_mac = codes "m3"; leaf_port = codes "swp3@ns-leaf-1"; underlay = enabled },
    )
    ∷ []

abbrev network_rows : List Row
network_rows =
    record { id = some 1; row_name = some (codes "ocp") }
    ∷ record { id = some 2; row_name = some (codes "other") }
    ∷ []

-- The first port is taken and the third is the underlay's.
chosen :
    resolve patterns_used names details uplinks
      (codes "sno")
      (codes "eth3")
      (codes "ocp")
      (some network_rows)
    ≡ some (codes "eth2@sno")
unfolding resolve full_port_name join_at matches
chosen = refl

resolve-HasNot_example :
    ((u : Verified) × Memᴰ (codes "eth2@sno", u) uplinks × (u.underlay ≡ disabled))
    × (rows : List Row) × (own : Option ℕ × Option Text) × (some network_rows ≡ some rows)
    × (own_network patterns_used names details (codes "ocp") (matches (codes "ocp") rows)
        ≡ some own)
    × ((r : Row) (k : ℕ)
        → Memᴰ r rows
        → r.id ≡ some k
        → own.0 ≢ some k
        → HasNot patterns_used names details (codes "eth2@sno") k)
resolve-HasNot_example =
    resolve-HasNot patterns_used names details uplinks (codes "sno") (codes "eth3") (codes "ocp")
      (some network_rows) (codes "eth2@sno") chosen
