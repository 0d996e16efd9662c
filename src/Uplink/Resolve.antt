-- ===== src/Uplink/Resolve.antt =====
-- The choice of the node's port: `north_south_links` and the second half of `resolve` of
-- infra/netris/scripts/ocp_uplink.py. The tests on names, which are regular expressions, the number
-- in a port's name, the verified uplinks and the controller's replies are given.
pub mod Choice
use osac_test_infra.Prelude.{
  ℕ, Bool, true, false, not, Option, none, some, List, [], ◌∷◌, ◌++◌, ◌==◌, ◌||◌, ◌&&◌, ltb,
  if◌then◌else◌, is_empty, any, map,
}
use osac_test_infra.Prelude.Search.{bytes_eq}
use osac_test_infra.Text.{Text, text_lt}
use osac_test_infra.Uplink.Ports.{
  Patterns, Port, full_port_name, Underlay, enabled, disabled, other, Link, broken, link, is_name,
  join_at,
}
use osac_test_infra.Uplink.Reconcile.{Row, Detail, then_some, guard, matches}

-- re.fullmatch of "eth\d+@<vm>", of a leaf's end of a link, and of "eth\d+"; and the number of a port.
pub record Names : Type 0 where
  pub is_server : Text → Bool
  pub is_leaf : Text → Bool
  pub is_interface : Text → Bool
  pub number : Text → ℕ

pub record Peer : Type 0 where
  pub leaf_endpoint : Text
  pub state : Underlay

-- One order of a link's ends; a state that is unknown raises.
unfoldable pub peer_of : Names → Text → Text → Underlay → Option (List (Text × Peer))
peer_of names a b other = if names.is_server a && names.is_leaf b then none else some []
peer_of names a b state = some (
    if names.is_server a && names.is_leaf b
    then (a, record { leaf_endpoint = b; state = state }) ∷ []
    else [])

abbrev pub both_orders : Names → Option Text → Option Text → Underlay → Option (List (Text × Peer))
both_orders names (some a) (some b) state =
    then_some (peer_of names a b state)
      (λ found. then_some (peer_of names b a state) (λ more. some (found ++ more)))
both_orders names _ _ state = some []

unfoldable pub find_peers : Names → List Link → Option (List (Text × Peer))
unfolding peer_of
find_peers names [] = some []
find_peers names (broken ∷ links) = find_peers names links
find_peers names (link a b state ∷ links) =
    then_some (both_orders names a b state)
      (λ found. then_some (find_peers names links) (λ more. some (found ++ more)))

-- No port has two links.
unfoldable pub are_single : List (Text × Peer) → Bool
unfolding bytes_eq
are_single [] = true
are_single ((port, peer) ∷ found) = not (any (λ f. bytes_eq port f.0) found) && are_single found

-- north_south_links; `none` is an UplinkError.
unfoldable pub north_south_links : Names → List Link → Option (List (Text × Peer))
unfolding find_peers are_single
north_south_links names links =
    then_some (find_peers names links)
      (λ found. guard (not (is_empty found) && are_single found) (some found))

-- A verified uplink.
pub record Verified : Type 0 where
  pub guest_mac : Text
  pub leaf_port : Text
  pub underlay : Underlay

abbrev pub is_data : Underlay → Bool
is_data disabled = true
is_data _ = false

-- data_uplinks
unfoldable pub data_uplinks : List (Text × Verified) → List (Text × Verified)
data_uplinks [] = []
data_uplinks ((port, u) ∷ uplinks) =
    let rest = data_uplinks uplinks in if is_data u.underlay then (port, u) ∷ rest else rest

unfoldable pub get_uplink : Text → List (Text × Verified) → Option Verified
unfolding bytes_eq
get_uplink port [] = none
get_uplink port ((p, u) ∷ uplinks) =
    let rest = get_uplink port uplinks in if bytes_eq p port then some u else rest

abbrev pub is_enabled : Underlay → Bool
is_enabled enabled = true
is_enabled _ = false

-- The configured port of the underlay, if there is one: it has to be verified and enabled.
unfoldable pub check_underlay : Names → Text → Text → List (Text × Verified) → Bool
unfolding get_uplink join_at
check_underlay names vm [] uplinks = true
check_underlay names vm (c ∷ cs) uplinks =
    names.is_interface (c ∷ cs) && elim (get_uplink (join_at (c ∷ cs) vm) uplinks) [
      | none ↦ false
      | some u ↦ is_enabled u.underlay
    ]

module _ (patterns : Patterns) (names : Names) (detail : ℕ → Option Detail) where
  unfoldable pub port_names : List Port → Option (List Text)
  port_names [] = some []
  port_names (p ∷ ps) =
      then_some (full_port_name patterns p)
        (λ name. then_some (port_names ps) (λ rest. some (name ∷ rest)))

  unfoldable pub vnet_ports : ℕ → Option (List Text)
  unfolding port_names
  vnet_ports id = then_some (detail id) (λ d. port_names d.ports)

  -- The names of the ports of all networks but the own one.
  unfoldable pub occupied : Option ℕ → List Row → Option (List Text)
  unfolding vnet_ports
  occupied own [] = some []
  occupied own (r ∷ rows) = then_some r.id (λ id.
      then_some (if elim own [ none ↦ false | some o ↦ id == o ] then some [] else vnet_ports id)
        (λ here. then_some (occupied own rows) (λ rest. some (here ++ rest))))

  -- The own network's port, if it has one; `none` is an UplinkError.
  unfoldable pub current_port : Text → ℕ → Option (Option Text)
  current_port name id = then_some (detail id) (λ d.
      guard (is_name name d.detail_name) (elim d.ports [
        | [] ↦ some none
        | p ∷ [] ↦ then_some (full_port_name patterns p) (λ n. some (some n))
        | p ∷ q ∷ ps ↦ none
      ]))

  unfoldable pub own_network : Text → List Row → Option (Option ℕ × Option Text)
  unfolding current_port
  own_network name [] = some (none, none)
  own_network name (r ∷ []) =
      then_some r.id (λ id. then_some (current_port name id) (λ port. some (some id, port)))
  own_network name (r ∷ s ∷ rows) = none

  -- min over the pairs of number and name
  abbrev pub is_before : Text → Text → Bool
  is_before a b =
      ltb (names.number a) (names.number b) || (names.number a == names.number b && text_lt a b)

  unfoldable pub least : Text → List Text → Text
  least port [] = port
  least port (p ∷ ps) = least (if is_before p port then p else port) ps

  unfoldable pub available : List Text → List (Text × Verified) → List Text
  unfolding bytes_eq
  available taken [] = []
  available taken ((p, u) ∷ uplinks) =
      let rest = available taken uplinks in if any (bytes_eq p) taken then rest else p ∷ rest

  abbrev pub least_of : List Text → Option Text
  least_of [] = none
  least_of (p ∷ ps) = some (least p ps)

  unfoldable pub choose : List (Text × Verified) → Option Text → List Text → Option Text
  unfolding available least get_uplink
  choose ports none taken = least_of (available taken ports)
  choose ports (some current) taken =
      then_some (get_uplink current ports)
        (λ u. guard (not (any (bytes_eq current) taken)) (some current))

  -- resolve, from the verified uplinks on: the port.
  unfoldable pub resolve :
      List (Text × Verified) → Text → Text → Text → Option (List Row) → Option Text
  unfolding data_uplinks check_underlay own_network occupied choose
  resolve uplinks vm underlay_port vnet_name vnets =
      guard (not (is_empty (data_uplinks uplinks)) && check_underlay names vm underlay_port uplinks)
        (then_some vnets (λ rows. then_some (own_network vnet_name (matches vnet_name rows)) (λ own.
          then_some (occupied own.0 rows) (λ taken. choose (data_uplinks uplinks) own.1 taken))))
