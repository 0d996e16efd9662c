-- ===== src/Uplink/Reconcile/Planned.antt =====
-- When `reconcile` of infra/netris/scripts/ocp_uplink.py asks for a change.
use mathlib.Core.Option.{some-injective}
use osac_test_infra.Prelude.{
  ℕ, Bool, true, false, not, Option, none, some, List, [], ◌∷◌, ◌≡◌, ◌≢◌, refl, sym, ap, ◌∙◌, ◌==◌,
  ◌||◌, ◌&&◌, Bool-cases, inl, inr, All, Memᴰ, ==_iff, both_true,
}
use osac_test_infra.Text.{Text}
use osac_test_infra.Uplink.Ports.{Patterns, Port, full_port_name, Link, server_port_underlay}
use osac_test_infra.Uplink.Reconcile.{
  Row, Detail, Controller, Args, check_vnet_identity, matches, only_id, is_disabled, has_port,
  is_free, others_free, needs_change, plan_own, plan, carry_out, reconcile,
}
use osac_test_infra.Uplink.Reconcile.Inversion.{
  then_some_inv, guard_inv, other_port, false_only, our_port,
}

module _ (patterns : Patterns) (c : Controller) (args : Args) where
  -- A port that is the node's.
  abbrev pub IsOurs : Port → Type 0
  IsOurs p = full_port_name patterns p ≡ some args.server_port

  -- Another network that can be read and has no port of that name.
  abbrev pub IsClear : ℕ → Type 0
  IsClear k =
      (d : Detail) × (c.detail k ≡ some d)
      × All (λ p. full_port_name patterns p ≢ some args.server_port) d.ports

  -- The links say that the port carries data, each other network is readable and has no port of
  -- that name, and the network is the one asked for and has no other port.
  unfoldable pub MayAttach : ℕ → Type 0
  MayAttach id =
      ((links : List Link) × (c.links ≡ some links)
        × (is_disabled (server_port_underlay links args.server_port) ≡ true))
      × ((rows : List Row) × (c.vnets ≡ some rows)
          × ((r : Row) (k : ℕ) → Memᴰ r rows → r.id ≡ some k → k ≢ id → IsClear k))
      × ((d : Detail) × (c.detail id ≡ some d)
          × (check_vnet_identity args d ≡ true)
          × All IsOurs d.ports)

  has_port_none :
      (ps : List Port)
      → has_port patterns c args ps ≡ some false
      → All (λ p. full_port_name patterns p ≢ some args.server_port) ps
  unfolding has_port
  has_port_none [] h = tt
  has_port_none (p ∷ ps) h =
      let (new, rest) = other_port (full_port_name patterns p) args.server_port _ h in
      (new, has_port_none ps rest)

  free_reply :
      (o : Option Detail)
      → elim o [
        | none ↦ false
        | some d ↦ elim (has_port patterns c args d.ports) [ some false ↦ true | _ ↦ false ]
      ]
        ≡ true
      → (d : Detail) × (o ≡ some d)
        × All (λ p. full_port_name patterns p ≢ some args.server_port) d.ports
  free_reply none h = cc
  free_reply (some d) h = (d, refl, has_port_none d.ports (false_only _ h))

  is_free_inv : (k : ℕ) → is_free patterns c args k ≡ true → IsClear k
  unfolding is_free
  is_free_inv k h = free_reply (c.detail k) h

  each_free :
      (own : ℕ) (o : Option ℕ) (rest : Bool)
      → elim o [ none ↦ false | some id ↦ (id == own || is_free patterns c args id) && rest ] ≡ true
      → (rest ≡ true) × ((k : ℕ) → o ≡ some k → k ≢ own → is_free patterns c args k ≡ true)
  each_free own none rest h = cc
  each_free own (some id) rest h =
      let (one, more) = both_true (id == own || is_free patterns c args id) rest h in
      (
        more,
        λ k e n. elim (Bool-cases (id == own)) [
          | inl q ↦ absurd (n (sym (some-injective _ _ e) ∙ (==_iff id own).0 q))
          | inr q ↦
              let free : is_free patterns c args id ≡ true = rw q at one in
              rw (sym (some-injective _ _ e)) free
        ],
      )

  others_free_inv :
      (own : ℕ) (rows : List Row)
      → others_free patterns c args own rows ≡ true
      → (r : Row) (k : ℕ) → Memᴰ r rows
      → r.id ≡ some k
      → k ≢ own
      → IsClear k
  unfolding others_free
  others_free_inv own [] h r k m e n = elim m [ ]
  others_free_inv own (s ∷ rows) h r k (Memᴰ.head q) e n = is_free_inv k (
      (each_free own s.id (others_free patterns c args own rows) h).1 k (sym (ap (λ x. x.id) q) ∙ e)
        n)
  others_free_inv own (s ∷ rows) h r k (Memᴰ.tail m) e n =
      others_free_inv own rows (each_free own s.id (others_free patterns c args own rows) h).0 r k m
        e n

  needs_change_inv :
      (ps : List Port) (b : Bool) → needs_change patterns c args ps ≡ some b → All IsOurs ps
  unfolding needs_change
  needs_change_inv [] b h = tt
  needs_change_inv (p ∷ []) b h =
      (our_port (full_port_name patterns p) args.server_port (some (not p.access_mode)) b h, tt)
  needs_change_inv (p ∷ q ∷ ps) b h = cc

  plan_own_inv :
      (own : ℕ) (rows : List Row) (id : ℕ) (changed : Bool)
      → plan_own patterns c args own rows ≡ some (id, changed)
      → (own ≡ id)
        × (others_free patterns c args own rows ≡ true)
        × ((d : Detail) × (c.detail own ≡ some d)
            × (check_vnet_identity args d ≡ true)
            × All IsOurs d.ports)
  unfolding plan_own
  plan_own_inv own rows id changed h =
      let (d, e, h1) = then_some_inv (c.detail own) _ _ h in
      let (checks, h2) =
        guard_inv (check_vnet_identity args d && others_free patterns c args own rows) _ _ h1 in
      let (b, n, h3) = then_some_inv (needs_change patterns c args d.ports) _ _ h2 in
      let (known, free) = both_true (check_vnet_identity args d) _ checks in
      (ap (λ x. x.0) (some-injective _ _ h3), free, (d, e, known, needs_change_inv d.ports b n))

  plan_inv : (id : ℕ) (changed : Bool) → plan patterns c args ≡ some (id, changed) → MayAttach id
  unfolding plan MayAttach
  plan_inv id changed h =
      let (links, l, h1) = then_some_inv c.links _ _ h in
      let (data_link, h2) =
        guard_inv (is_disabled (server_port_underlay links args.server_port)) _ _ h1 in
      let (rows, v, h3) = then_some_inv c.vnets _ _ h2 in
      let (own, o, h4) = then_some_inv (only_id (matches args.vnet_name rows)) _ _ h3 in
      let (same, free, detail) = plan_own_inv own rows id changed h4 in
      let (d, e, known, ours) = detail in
      (
        (links, l, data_link),
        (rows, v, λ r k m f n. others_free_inv own rows free r k m f (λ q. n (q ∙ same))),
        (d, ap c.detail (sym same) ∙ e, known, ours),
      )

  carried_out :
      (p : Option (ℕ × Bool)) (id : ℕ) (port : Text)
      → Memᴰ (id, port) (carry_out patterns c args p).0
      → (p ≡ some (id, true)) × (port ≡ args.server_port)
  unfolding carry_out
  carried_out none id port m = elim m [ ]
  carried_out (some (i, false)) id port m = elim m [ ]
  carried_out (some (i, true)) id port (Memᴰ.head q) =
      (ap (λ x. some (x.0, true)) (sym q), ap (λ x. x.1) q)
  carried_out (some (i, true)) id port (Memᴰ.tail m) = elim m [ ]

  -- Whenever reconcile asks the controller to change a network, also in a run that fails later, it
  -- asks for the node's port alone; the links say that the port is not enabled for the underlay,
  -- each other network can be read and does not have the port, and the network that changes has the
  -- name and the VPC asked for and no port but this one.
  pub reconcile-MayAttach :
      (id : ℕ) (port : Text)
      → Memᴰ (id, port) (reconcile patterns c args).0
      → (port ≡ args.server_port) × MayAttach id
  unfolding reconcile
  reconcile-MayAttach id port m =
      let (planned, same) = carried_out (plan patterns c args) id port m in
      (same, plan_inv id true planned)
