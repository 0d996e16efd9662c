-- ===== src/Uplink/Ports.antt =====
-- What the controller says of links and ports: `full_port_name` and `server_port_underlay` of
-- infra/netris/scripts/ocp_uplink.py. Replies are read as records; the two regular expressions on
-- names are parameters.
use osac_test_infra.Prelude.{
  Bool, false, Option, none, some, List, [], ◌∷◌, ◌++◌, ◌||◌, if◌then◌else◌, is_empty,
}
use osac_test_infra.Prelude.Search.{bytes_eq}
use osac_test_infra.Text.{Text}

-- `strip_suffix` removes a group in parentheses from the end of a port's name; `parse_name` reads a
-- port and a switch out of a full name.
pub record Patterns : Type 0 where
  pub strip_suffix : Text → Text
  pub parse_name : Text → Option (Text × Text)

-- switchName: missing or something that Python takes for false; a text; or anything else.
pub data SwitchName : Type 0 where
  absent no_text : SwitchName
  text : Text → SwitchName

-- A port of a network: the other fields that are texts, and whether accessMode is True.
pub record Port : Type 0 where
  pub name : Option Text
  pub switch_name : SwitchName
  pub switch : Option Text
  pub short_name : Option Text
  pub access_mode : Bool

unfoldable pub join_at : Text → Text → Text
join_at a b = a ++ (b'@' ∷ b)

-- port.get("switchName") or the name of the switch, if what comes out is a text
abbrev pub first_name : SwitchName → Option Text → Option Text
first_name (text (c ∷ cs)) other = some (c ∷ cs)
first_name (text []) other = other
first_name absent other = other
first_name no_text other = none

abbrev pub short_form : Option Text → Option Text → Option Text
short_form (some short) (some switch) =
    if is_empty short || is_empty switch then none else some (join_at short switch)
short_form _ _ = none

abbrev pub long_form : (Text → Option (Text × Text)) → Option Text → Option Text
long_form parse none = none
long_form parse (some name) = elim (parse name) [ none ↦ none | some (a, b) ↦ some (join_at a b) ]

abbrev pub strip : (Text → Text) → Option Text → Option Text
strip f none = none
strip f (some t) = some (f t)

abbrev pub first_some : Option Text → Option Text → Option Text
first_some (some t) other = some t
first_some none other = other

-- full_port_name; `none` is an UplinkError.
unfoldable pub full_port_name : Patterns → Port → Option Text
full_port_name patterns p =
    first_some
      (short_form (strip patterns.strip_suffix p.short_name) (first_name p.switch_name p.switch))
      (long_form patterns.parse_name p.name)

pub data Underlay : Type 0 where
  enabled disabled other : Underlay

-- A link with the names of its ends; one whose ends are no objects is `broken`.
pub data Link : Type 0 where
  broken : Link
  link : Option Text → Option Text → Underlay → Link

-- Whether an end has this name.
abbrev pub is_name : Text → Option Text → Bool
is_name port none = false
is_name port (some name) = bytes_eq port name

unfoldable pub statuses : List Link → Text → List Underlay
unfolding bytes_eq
statuses [] port = []
statuses (broken ∷ links) port = statuses links port
statuses (link a b underlay ∷ links) port =
    let rest = statuses links port in
    if is_name port a || is_name port b then underlay ∷ rest else rest

abbrev pub one_status : List Underlay → Option Underlay
one_status (enabled ∷ []) = some enabled
one_status (disabled ∷ []) = some disabled
one_status _ = none

-- server_port_underlay; `none` is an UplinkError.
unfoldable pub server_port_underlay : List Link → Text → Option Underlay
unfolding statuses
server_port_underlay links port = one_status (statuses links port)
