-- ===== src/Uplink/GuestTests.antt =====
-- A run of `guest_interfaces` of infra/netris/scripts/ocp_uplink.py, and the theorem applied to it.
use osac_test_infra.Prelude.{
  true, none, some, List, [], ◌∷◌, ◌≡◌, refl, codes, All, map, length, ◌==◌, if◌then◌else◌,
}
use osac_test_infra.Text.{Text, split_words}
use osac_test_infra.Uplink.Guest.{
  Forms, read_macs, are_unique, observe_lines, values, guest_mapping,
}
use osac_test_infra.Uplink.Guest.Mapping.{IsSeenOnce, guest_mapping-IsSeenOnce}

-- An address has two letters here.
abbrev forms : Forms
forms = record {
  mac_address = λ t. if length t == 2 then some t else none;
  is_interface = λ t. true;
}

abbrev lines : List Text
lines = codes "m1 eth1" ∷ codes "m2 eth2" ∷ codes "lo" ∷ []

mapped : guest_mapping forms (codes "m2" ∷ []) lines ≡ some ((codes "m2", codes "eth2") ∷ [])
unfolding guest_mapping split_words
mapped = refl

abbrev mapping : List (Text × Text)
mapping = (codes "m2", codes "eth2") ∷ []

guest_mapping-IsSeenOnce_example :
    (read_macs forms (codes "m2" ∷ []) ≡ some (map (λ x. x.0) mapping))
    × (are_unique forms (map (λ x. x.0) mapping) ≡ true)
    × (are_unique forms (values forms mapping) ≡ true)
    × All (IsSeenOnce forms (observe_lines forms lines)) mapping
guest_mapping-IsSeenOnce_example =
    guest_mapping-IsSeenOnce forms (codes "m2" ∷ []) lines mapping mapped
