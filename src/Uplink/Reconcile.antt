-- ===== src/Uplink/Reconcile.antt =====
-- The attachment of the port: `check_vnet_identity` and `reconcile` of
-- infra/netris/scripts/ocp_uplink.py. What the controller replies is given; the program asks for
-- each thing once before its change and reads the network once after it.
pub mod Inversion
pub mod Planned
pub mod Attached
use osac_test_infra.Prelude.{
  ℕ, Bool, true, false, Option, none, some, List, [], ◌∷◌, ◌++◌, ◌==◌, ◌||◌, ◌&&◌, not,
  if◌then◌else◌,
}
use osac_test_infra.Prelude.Search.{bytes_eq}
use osac_test_infra.Text.{Text}
use osac_test_infra.Uplink.Ports.{
  Patterns, Port, full_port_name, Underlay, enabled, disabled, other, Link, server_port_underlay,
  is_name,
}

-- An entry of the list of networks; an identifier that is missing or no number raises.
pub record Row : Type 0 where
  pub id : Option ℕ
  pub row_name : Option Text

pub record Detail : Type 0 where
  pub detail_name : Option Text
  pub vpc : Option ℕ
  pub ports : List Port

-- The replies; `none` is an UplinkError of the request.
pub record Controller : Type 0 where
  pub links : Option (List Link)
  pub vnets : Option (List Row)
  pub detail : ℕ → Option Detail
  pub accepts_put : Bool
  pub detail_after : ℕ → Option Detail

pub record Args : Type 0 where
  pub vnet_name : Text
  pub vpc_id : ℕ
  pub server_port : Text

abbrev pub then_some {ℓ κ} : {A : Type ℓ} {B : Type κ} → Option A → (A → Option B) → Option B
then_some none f = none
then_some (some a) f = f a

abbrev pub guard {ℓ} : {A : Type ℓ} → Bool → Option A → Option A
guard b o = if b then o else none

-- check_vnet_identity
unfoldable pub check_vnet_identity : Args → Detail → Bool
check_vnet_identity args d =
    is_name args.vnet_name d.detail_name && elim d.vpc [ none ↦ false | some v ↦ v == args.vpc_id ]

unfoldable pub matches : Text → List Row → List Row
matches name [] = []
matches name (r ∷ rows) =
    let rest = matches name rows in if is_name name r.row_name then r ∷ rest else rest

-- The identifier of the only network with the name.
abbrev pub only_id : List Row → Option ℕ
only_id (r ∷ []) = r.id
only_id _ = none

abbrev pub is_disabled : Option Underlay → Bool
is_disabled (some disabled) = true
is_disabled _ = false

module _ (patterns : Patterns) (c : Controller) (args : Args) where
  -- any(full_port_name(port) == args.server_port …), which stops at the first, and may raise.
  unfoldable pub has_port : List Port → Option Bool
  has_port [] = some false
  has_port (p ∷ ps) =
      then_some (full_port_name patterns p)
        (λ name. if bytes_eq name args.server_port then some true else has_port ps)

  -- One other network: true if the loop goes on.
  unfoldable pub is_free : ℕ → Bool
  unfolding has_port
  is_free id = elim (c.detail id) [
    | none ↦ false
    | some d ↦ elim (has_port d.ports) [ some false ↦ true | _ ↦ false ]
  ]

  unfoldable pub others_free : ℕ → List Row → Bool
  unfolding is_free
  others_free own [] = true
  others_free own (r ∷ rows) = elim r.id [
    | none ↦ false
    | some id ↦ (id == own || is_free id) && others_free own rows
  ]

  -- Whether the network has to be changed: it has no port, or this one without access mode.
  unfoldable pub needs_change : List Port → Option Bool
  needs_change [] = some true
  needs_change (p ∷ []) =
      then_some (full_port_name patterns p)
        (λ name. guard (bytes_eq name args.server_port) (some (not p.access_mode)))
  needs_change (p ∷ q ∷ ps) = none

  -- The checks before the change: the network, and whether it is to be changed.
  unfoldable pub plan_own : ℕ → List Row → Option (ℕ × Bool)
  unfolding check_vnet_identity others_free needs_change
  plan_own id rows = then_some (c.detail id) (λ d.
      guard (check_vnet_identity args d && others_free id rows)
        (then_some (needs_change d.ports) (λ changed. some (id, changed))))

  unfoldable pub plan : Option (ℕ × Bool)
  unfolding server_port_underlay plan_own matches
  plan = then_some c.links (λ links.
      guard (is_disabled (server_port_underlay links args.server_port)) (
        then_some c.vnets
          (λ rows. then_some (only_id (matches args.vnet_name rows)) (λ id. plan_own id rows))))

  -- The network read back has the port alone, in access mode.
  unfoldable pub is_attached : List Port → Bool
  is_attached (p ∷ []) =
      elim (full_port_name patterns p) [ none ↦ false | some name ↦ bytes_eq name args.server_port ]
      && p.access_mode
  is_attached _ = false

  unfoldable pub is_retained : ℕ → Bool
  unfolding is_attached check_vnet_identity
  is_retained id = elim (c.detail_after id) [
    | none ↦ false
    | some d ↦ check_vnet_identity args d && is_attached d.ports
  ]

  unfoldable pub finish : ℕ → Bool → Option (Bool × ℕ)
  unfolding is_retained
  finish id changed = guard (is_retained id) (some (changed, id))

  -- The requests that change something, and what is returned; `none` is an UplinkError.
  unfoldable pub carry_out : Option (ℕ × Bool) → List (ℕ × Text) × Option (Bool × ℕ)
  unfolding finish
  carry_out none = ([], none)
  carry_out (some (id, false)) = ([], finish id false)
  carry_out (some (id, true)) =
      ((id, args.server_port) ∷ [], if c.accepts_put then finish id true else none)

  -- reconcile
  unfoldable pub reconcile : List (ℕ × Text) × Option (Bool × ℕ)
  unfolding plan carry_out
  reconcile = carry_out plan
