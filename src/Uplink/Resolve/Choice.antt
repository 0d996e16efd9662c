-- ===== src/Uplink/Resolve/Choice.antt =====
-- The port that `resolve` of infra/netris/scripts/ocp_uplink.py returns.
use mathlib.Core.Option.{some-injective}
use mathlib.Core.Path.{subst}
use osac_test_infra.Prelude.{
  ℕ, Bool, true, false, not, Option, none, some, List, [], ◌∷◌, ◌++◌, ◌≡◌, ◌≢◌, refl, sym, ap, ◌∙◌,
  ◌==◌, ◌||◌, ◌&&◌, Bool-cases, inl, inr, ◌⊎◌, Memᴰ, ==_iff, any, arith, if◌then◌else◌, is_empty,
}
use osac_test_infra.Prelude.Search.{bytes_eq, bytes_eq_sound}
use osac_test_infra.Text.{Text}
use osac_test_infra.Uplink.Ports.{Patterns, Underlay, enabled, disabled, other}
use osac_test_infra.Uplink.Reconcile.{Row, Detail, matches}
use osac_test_infra.Uplink.Reconcile.Inversion.{then_some_inv, guard_inv}
use osac_test_infra.Uplink.Resolve.{
  Names, Verified, is_data, data_uplinks, get_uplink, check_underlay, vnet_ports, occupied,
  own_network, is_before, least, available, least_of, choose, resolve,
}

abbrev IsNot : List Text → Text → Type 0
IsNot taken port = any (bytes_eq port) taken ≡ false

IsNot-append :
    (port : Text) (xs ys : List Text) → IsNot (xs ++ ys) port → IsNot xs port × IsNot ys port
IsNot-append port [] ys h = (refl, h)
IsNot-append port (x ∷ xs) ys h =
    let (first, rest) = both_false (bytes_eq port x) (any (bytes_eq port) (xs ++ ys)) h in
    let (a, b) = IsNot-append port xs ys rest in (either_false _ _ first a, b)
  where
    both_false : (a b : Bool) → (a || b) ≡ false → (a ≡ false) × (b ≡ false)
    both_false a b = ground arith

    either_false : (a b : Bool) → a ≡ false → b ≡ false → (a || b) ≡ false
    either_false a b = ground arith

is_not : (b : Bool) → not b ≡ true → b ≡ false
is_not true h = cc
is_not false h = refl

data_only : (u : Underlay) → is_data u ≡ true → u ≡ disabled
data_only enabled h = cc
data_only disabled h = refl
data_only other h = cc

cons_cases : {A : Type 0} {x y : A} {ys : List A} → Memᴰ x (y ∷ ys) → (x ≡ y) ⊎ Memᴰ x ys
cons_cases (Memᴰ.head q) = inl q
cons_cases (Memᴰ.tail m) = inr m

data_uplinks_inv :
    (ups : List (Text × Verified)) (x : Text × Verified)
    → Memᴰ x (data_uplinks ups)
    → Memᴰ x ups × (x.1.underlay ≡ disabled)
unfolding data_uplinks
data_uplinks_inv [] x m = elim m [ ]
data_uplinks_inv (y ∷ ups) x m = elim (Bool-cases (is_data y.1.underlay)) [
  | inl e ↦
      let m' : Memᴰ x (y ∷ data_uplinks ups) = rw e at m in
      elim (cons_cases m') [
        | inl q ↦ (Memᴰ.head q, ap (λ z. z.1.underlay) q ∙ data_only _ e)
        | inr k ↦ let (there, d) = data_uplinks_inv ups x k in (Memᴰ.tail there, d)
      ]
  | inr e ↦
      let m' : Memᴰ x (data_uplinks ups) = rw e at m in
      let (there, d) = data_uplinks_inv ups x m' in (Memᴰ.tail there, d)
]

get_uplink_inv :
    (ups : List (Text × Verified)) (port : Text) (u : Verified)
    → get_uplink port ups ≡ some u
    → Memᴰ (port, u) ups
unfolding get_uplink
get_uplink_inv [] port u h = cc
get_uplink_inv ((p, v) ∷ ups) port u h = elim (Bool-cases (bytes_eq p port)) [
  | inl e ↦
      let h' : some v ≡ some u = rw e at h in
      Memᴰ.head (λ i. (sym (bytes_eq_sound p port e) i, sym (some-injective _ _ h') i))
  | inr e ↦
      let h' : get_uplink port ups ≡ some u = rw e at h in Memᴰ.tail (get_uplink_inv ups port u h')
]

module _ (patterns : Patterns) (names : Names) (detail : ℕ → Option Detail) where
  pick_member :
      (b : Bool) (p q : Text) (ps : List Text)
      → Memᴰ (least patterns names detail q ps) (q ∷ ps)
      → Memᴰ (least patterns names detail p ps) (p ∷ ps)
      → Memᴰ (least patterns names detail (if b then q else p) ps) (p ∷ q ∷ ps)
  pick_member true p q ps m k = Memᴰ.tail m
  pick_member false p q ps m k = elim (cons_cases k) [
    | inl e ↦ Memᴰ.head e
    | inr l ↦ Memᴰ.tail (Memᴰ.tail l)
  ]

  least_member : (p : Text) (ps : List Text) → Memᴰ (least patterns names detail p ps) (p ∷ ps)
  unfolding least
  least_member p [] = Memᴰ.head refl
  least_member p (q ∷ ps) =
      pick_member (is_before patterns names detail q p) p q ps (least_member q ps)
        (least_member p ps)

  least_of_inv :
      (ps : List Text) (port : Text) → least_of patterns names detail ps ≡ some port → Memᴰ port ps
  least_of_inv [] port h = cc
  least_of_inv (p ∷ ps) port h =
      subst (λ x. Memᴰ x (p ∷ ps)) (some-injective _ _ h) (least_member p ps)

  available_inv :
      (taken : List Text) (ups : List (Text × Verified)) (port : Text)
      → Memᴰ port (available patterns names detail taken ups)
      → IsNot taken port × (u : Verified) × Memᴰ (port, u) ups
  unfolding available
  available_inv taken [] port m = elim m [ ]
  available_inv taken ((p, v) ∷ ups) port m = elim (Bool-cases (any (bytes_eq p) taken)) [
    | inl e ↦
        let m' : Memᴰ port (available patterns names detail taken ups) = rw e at m in
        let (new, u, there) = available_inv taken ups port m' in (new, u, Memᴰ.tail there)
    | inr e ↦
        let m' : Memᴰ port (p ∷ available patterns names detail taken ups) = rw e at m in
        elim (cons_cases m') [
          | inl q ↦ (rw q e, v, Memᴰ.head (λ i. (q i, v)))
          | inr k ↦
              let (new, u, there) = available_inv taken ups port k in (new, u, Memᴰ.tail there)
        ]
  ]

  choose_inv :
      (ups : List (Text × Verified)) (current : Option Text) (taken : List Text) (port : Text)
      → choose patterns names detail ups current taken ≡ some port
      → IsNot taken port × (u : Verified) × Memᴰ (port, u) ups
  unfolding choose
  choose_inv ups none taken port h =
      available_inv taken ups port (least_of_inv (available patterns names detail taken ups) port h)
  choose_inv ups (some current) taken port h =
      let (u, found, h1) = then_some_inv (get_uplink current ups) _ _ h in
      let (new, h2) = guard_inv _ _ _ h1 in
      let same = some-injective _ _ h2 in
      (
        subst (IsNot taken) same (is_not _ new),
        u,
        subst (λ x. Memᴰ (x, u) ups) same (get_uplink_inv ups current u found),
      )

  -- A network that can be read and has no port of that name.
  unfoldable pub HasNot : Text → ℕ → Type 0
  HasNot port k =
      (here : List Text) × (vnet_ports patterns names detail k ≡ some here)
      × (any (bytes_eq port) here ≡ false)

  own_here :
      (own : Option ℕ) (id : ℕ) (ports : Option (List Text)) (here : List Text)
      → own ≢ some id
      → (if elim own [ none ↦ false | some o ↦ id == o ] then some [] else ports) ≡ some here
      → ports ≡ some here
  own_here none id ports here d h = h
  own_here (some o) id ports here d h = elim (Bool-cases (id == o)) [
    | inl e ↦ absurd (d (ap (λ x. some x) (sym ((==_iff id o).0 e))))
    | inr e ↦ rw e at h
  ]

  occupied_inv :
      (own : Option ℕ) (rows : List Row) (taken : List Text) (port : Text)
      → occupied patterns names detail own rows ≡ some taken
      → IsNot taken port
      → (r : Row) (k : ℕ) → Memᴰ r rows
      → r.id ≡ some k
      → own ≢ some k
      → HasNot port k
  unfolding occupied HasNot
  occupied_inv own [] taken port h n r k m e d = elim m [ ]
  occupied_inv own (s ∷ rows) taken port h n r k m e d =
      let (id, i, h1) = then_some_inv s.id _ _ h in
      let (here, p, h2) =
        then_some_inv
          (if elim own [ none ↦ false | some o ↦ id == o ]
            then some []
            else vnet_ports patterns names detail id)
          _ _ h1 in
      let (rest, more, h3) = then_some_inv (occupied patterns names detail own rows) _ _ h2 in
      let (first, others) =
        IsNot-append port here rest (subst (λ t. IsNot t port) (sym (some-injective _ _ h3)) n) in
      elim (cons_cases m) [
        | inl q ↦
            let same : id ≡ k = some-injective _ _ (sym i ∙ sym (ap (λ x. x.id) q) ∙ e) in
            (
              here,
              subst (λ x. vnet_ports patterns names detail x ≡ some here) same
                  (own_here own id _ here (λ o. d (o ∙ ap (λ x. some x) same)) p),
              first,
            )
        | inr k' ↦ occupied_inv own rows rest port more others r k k' e d
      ]

  -- A port that resolve returns is one of the verified uplinks and not enabled for the underlay; and
  -- each network in the list of the controller, but the one that resolve takes for its own, can be
  -- read and does not have the port.
  pub resolve-HasNot :
      (uplinks : List (Text × Verified)) (vm underlay_port vnet_name : Text)
      (vnets : Option (List Row)) (port : Text)
      → resolve patterns names detail uplinks vm underlay_port vnet_name vnets ≡ some port
      → ((u : Verified) × Memᴰ (port, u) uplinks × (u.underlay ≡ disabled))
        × (rows : List Row) × (own : Option ℕ × Option Text) × (vnets ≡ some rows)
        × (own_network patterns names detail vnet_name (matches vnet_name rows) ≡ some own)
        × ((r : Row) (k : ℕ) → Memᴰ r rows → r.id ≡ some k → own.0 ≢ some k → HasNot port k)
  unfolding resolve
  resolve-HasNot uplinks vm underlay_port vnet_name vnets port h =
      let (checks, h1) =
        guard_inv
          (not (is_empty (data_uplinks uplinks)) && check_underlay names vm underlay_port uplinks) _
          _ h in
      let (rows, v, h2) = then_some_inv vnets _ _ h1 in
      let (own, o, h3) =
        then_some_inv (own_network patterns names detail vnet_name (matches vnet_name rows)) _ _
          h2 in
      let (taken, t, h4) = then_some_inv (occupied patterns names detail own.0 rows) _ _ h3 in
      let (new, u, there) = choose_inv (data_uplinks uplinks) own.1 taken port h4 in
      let (known, d) = data_uplinks_inv uplinks (port, u) there in
      ((u, known, d), rows, own, v, o, occupied_inv own.0 rows taken port t new)
