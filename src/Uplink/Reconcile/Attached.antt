-- ===== src/Uplink/Reconcile/Attached.antt =====
-- What holds when `reconcile` of infra/netris/scripts/ocp_uplink.py returns a network.
use mathlib.Core.Option.{some-injective}
use mathlib.Core.Path.{subst}
use osac_test_infra.Prelude.{
  ℕ, Bool, true, false, Option, none, some, List, [], ◌∷◌, ◌≡◌, refl, ap, ◌&&◌, if◌then◌else◌,
  both_true,
}
use osac_test_infra.Text.{Text}
use osac_test_infra.Uplink.Ports.{Patterns, Port, full_port_name}
use osac_test_infra.Uplink.Reconcile.{
  Detail, Controller, Args, check_vnet_identity, plan, is_attached, is_retained, finish, carry_out,
  reconcile,
}
use osac_test_infra.Uplink.Reconcile.Inversion.{guard_inv, named_inv}

module _ (patterns : Patterns) (c : Controller) (args : Args) where
  -- The network read back: its identity, and one port, the node's, in access mode.
  unfoldable pub IsAttached : ℕ → Type 0
  IsAttached id =
      (d : Detail) × (p : Port) × (c.detail_after id ≡ some d)
      × (check_vnet_identity args d ≡ true)
      × (d.ports ≡ p ∷ [])
      × (full_port_name patterns p ≡ some args.server_port)
      × (p.access_mode ≡ true)

  attached_inv :
      (ps : List Port)
      → is_attached patterns c args ps ≡ true
      → (p : Port) × (ps ≡ p ∷ [])
        × (full_port_name patterns p ≡ some args.server_port)
        × (p.access_mode ≡ true)
  unfolding is_attached
  attached_inv [] h = cc
  attached_inv (p ∷ []) h =
      let (named, access) = both_true _ p.access_mode h in
      (p, refl, named_inv (full_port_name patterns p) args.server_port named, access)
  attached_inv (p ∷ q ∷ ps) h = cc

  retained_reply :
      (o : Option Detail)
      → elim o [
        | none ↦ false
        | some d ↦ check_vnet_identity args d && is_attached patterns c args d.ports
      ]
        ≡ true
      → (d : Detail) × (p : Port) × (o ≡ some d)
        × (check_vnet_identity args d ≡ true)
        × (d.ports ≡ p ∷ [])
        × (full_port_name patterns p ≡ some args.server_port)
        × (p.access_mode ≡ true)
  retained_reply none h = cc
  retained_reply (some d) h =
      let (known, attached) = both_true (check_vnet_identity args d) _ h in
      let (p, one, ours, access) = attached_inv d.ports attached in
      (d, p, refl, known, one, ours, access)

  is_retained_inv : (id : ℕ) → is_retained patterns c args id ≡ true → IsAttached id
  unfolding is_retained IsAttached
  is_retained_inv id h = retained_reply (c.detail_after id) h

  -- The requests that a report of a change stands for.
  abbrev pub request : Bool × ℕ → List (ℕ × Text)
  request (changed, id) = if changed then (id, args.server_port) ∷ [] else []

  finished :
      (i id : ℕ) (done changed : Bool)
      → finish patterns c args i done ≡ some (changed, id)
      → IsAttached id × (Path (Bool × ℕ) (done, i) (changed, id))
  unfolding finish
  finished i id done changed h =
      let (kept, e) = guard_inv (is_retained patterns c args i) _ _ h in
      let same = some-injective _ _ e in
      (subst IsAttached (ap (λ x. x.1) same) (is_retained_inv i kept), same)

  returned :
      (p : Option (ℕ × Bool)) (changed : Bool) (id : ℕ)
      → (carry_out patterns c args p).1 ≡ some (changed, id)
      → IsAttached id × ((carry_out patterns c args p).0 ≡ request (changed, id))
  unfolding carry_out
  returned none changed id h = cc
  returned (some (i, false)) changed id h =
      let (kept, q) = finished i id false changed h in
      (kept, subst (λ x. ◌≡◌ {A = List (ℕ × Text)} [] (request x)) q refl)
  returned (some (i, true)) changed id h =
      let (accepted, h1) = guard_inv c.accepts_put (finish patterns c args i true) _ h in
      let (kept, q) = finished i id true changed h1 in
      (
        kept,
        subst
            (λ (x : Bool × ℕ).
              ◌≡◌ {A = List (ℕ × Text)} ((i, args.server_port) ∷ [])
                (if x.0 then (x.1, args.server_port) ∷ [] else []))
            q refl,
      )

  -- If reconcile returns a network, then that network was read back with its identity and with the
  -- node's port alone, in access mode; and a change is reported exactly if one was asked for, of that
  -- network.
  pub reconcile-IsAttached :
      (changed : Bool) (id : ℕ)
      → (reconcile patterns c args).1 ≡ some (changed, id)
      → IsAttached id × ((reconcile patterns c args).0 ≡ request (changed, id))
  unfolding reconcile
  reconcile-IsAttached changed id h = returned (plan patterns c args) changed id h
