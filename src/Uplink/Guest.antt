-- ===== src/Uplink/Guest.antt =====
-- The interfaces of the guest: `guest_interfaces` of infra/netris/scripts/ocp_uplink.py, from the
-- lines of the two commands' output on. The tests on names, and the reading of a MAC address, are
-- given.
pub mod Mapping
use osac_test_infra.Prelude.{
  ℕ, Bool, true, false, not, Option, none, some, List, [], ◌∷◌, ◌++◌, ◌==◌, ◌||◌, ◌&&◌,
  if◌then◌else◌, is_empty, any, codes,
}
use osac_test_infra.Prelude.Search.{bytes_eq}
use osac_test_infra.Text.{Text, split_words}
use osac_test_infra.Uplink.Reconcile.{then_some, guard}

-- `mac_address`, where `none` is an UplinkError, and IFACE_PATTERN.fullmatch.
pub record Forms : Type 0 where
  pub mac_address : Text → Option Text
  pub is_interface : Text → Bool

module _ (forms : Forms) where
  unfoldable pub read_macs : List Text → Option (List Text)
  read_macs [] = some []
  read_macs (v ∷ vs) =
      then_some (forms.mac_address v) (λ mac. then_some (read_macs vs) (λ rest. some (mac ∷ rest)))

  -- len(xs) == len(set(xs))
  unfoldable pub are_unique : List Text → Bool
  unfolding bytes_eq
  are_unique [] = true
  are_unique (x ∷ xs) = not (any (bytes_eq x) xs) && are_unique xs

  -- One line: the address and the interface, if it has two parts that are such.
  unfoldable pub observe : List Text → List (Text × Text)
  observe (mac ∷ interface ∷ []) = elim (forms.mac_address mac) [
    | none ↦ []
    | some m ↦ if forms.is_interface interface then (m, interface) ∷ [] else []
  ]
  observe _ = []

  unfoldable pub observe_lines : List Text → List (Text × Text)
  unfolding observe
  observe_lines [] = []
  observe_lines (l ∷ ls) = observe (split_words l) ++ observe_lines ls

  -- observed.get(mac, [])
  unfoldable pub interfaces_of : Text → List (Text × Text) → List Text
  unfolding bytes_eq
  interfaces_of mac [] = []
  interfaces_of mac ((m, i) ∷ seen) =
      let rest = interfaces_of mac seen in if bytes_eq mac m then i ∷ rest else rest

  abbrev pub only_one : List Text → Option Text
  only_one (i ∷ []) = some i
  only_one _ = none

  -- The loop over the requested addresses.
  unfoldable pub map_macs : List (Text × Text) → List Text → Option (List (Text × Text))
  unfolding interfaces_of
  map_macs seen [] = some []
  map_macs seen (mac ∷ macs) =
      then_some (only_one (interfaces_of mac seen))
        (λ i. then_some (map_macs seen macs) (λ rest. some ((mac, i) ∷ rest)))

  unfoldable pub values : List (Text × Text) → List Text
  values [] = []
  values ((mac, i) ∷ mapping) = i ∷ values mapping

  -- The mapping that guest_interfaces returns; `none` is an UplinkError.
  unfoldable pub guest_mapping : List Text → List Text → Option (List (Text × Text))
  unfolding read_macs are_unique observe_lines map_macs values
  guest_mapping macs lines = then_some (read_macs macs) (λ requested. guard (are_unique requested) (
      then_some (map_macs (observe_lines lines) requested)
        (λ mapping. guard (are_unique (values mapping)) (some mapping))))
