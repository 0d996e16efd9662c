-- ===== src/Uplink/Guest/Mapping.antt =====
-- The mapping that `guest_interfaces` of infra/netris/scripts/ocp_uplink.py returns.
use mathlib.Core.Option.{some-injective}
use mathlib.Core.Path.{subst}
use osac_test_infra.Prelude.{true, some, List, [], ◌∷◌, ◌≡◌, refl, sym, ap, ◌∙◌, All, map}
use osac_test_infra.Text.{Text}
use osac_test_infra.Uplink.Reconcile.Inversion.{then_some_inv, guard_inv}
use osac_test_infra.Uplink.Guest.{
  Forms, read_macs, are_unique, observe_lines, interfaces_of, only_one, map_macs, values,
  guest_mapping,
}

only_one_inv :
    (forms : Forms) (is : List Text) (i : Text) → only_one forms is ≡ some i → is ≡ i ∷ []
only_one_inv forms [] i h = cc
only_one_inv forms (j ∷ []) i h = ap (λ x. x ∷ []) (some-injective _ _ h)
only_one_inv forms (j ∷ k ∷ is) i h = cc

module _ (forms : Forms) where
  -- The address was seen with this interface alone.
  abbrev pub IsSeenOnce : List (Text × Text) → Text × Text → Type 0
  IsSeenOnce seen (mac, i) = interfaces_of forms mac seen ≡ i ∷ []

  map_macs_inv :
      (seen : List (Text × Text)) (macs : List Text) (mapping : List (Text × Text))
      → map_macs forms seen macs ≡ some mapping
      → (map (λ x. x.0) mapping ≡ macs) × All (IsSeenOnce seen) mapping
  unfolding map_macs
  map_macs_inv seen [] mapping h =
      subst (λ m. (map (λ x. x.0) m ≡ []) × All (IsSeenOnce seen) m) (some-injective _ _ h)
        (refl, tt)
  map_macs_inv seen (mac ∷ macs) mapping h =
      let (i, one, h1) = then_some_inv (only_one forms (interfaces_of forms mac seen)) _ _ h in
      let (rest, more, h2) = then_some_inv (map_macs forms seen macs) _ _ h1 in
      let (keys, once) = map_macs_inv seen macs rest more in
      subst (λ m. (map (λ x. x.0) m ≡ mac ∷ macs) × All (IsSeenOnce seen) m) (some-injective _ _ h2)
        (ap (λ ks. mac ∷ ks) keys, (only_one_inv forms _ i one, once))

  -- A mapping that guest_interfaces returns has the requested addresses as its keys, in their order
  -- and each once; no two have the same interface; and each address was seen with its interface and
  -- with no other.
  pub guest_mapping-IsSeenOnce :
      (macs lines : List Text) (mapping : List (Text × Text))
      → guest_mapping forms macs lines ≡ some mapping
      → (read_macs forms macs ≡ some (map (λ x. x.0) mapping))
        × (are_unique forms (map (λ x. x.0) mapping) ≡ true)
        × (are_unique forms (values forms mapping) ≡ true)
        × All (IsSeenOnce (observe_lines forms lines)) mapping
  unfolding guest_mapping
  guest_mapping-IsSeenOnce macs lines mapping h =
      let (requested, r, h1) = then_some_inv (read_macs forms macs) _ _ h in
      let (unique, h2) = guard_inv (are_unique forms requested) _ _ h1 in
      let (found, m, h3) =
        then_some_inv (map_macs forms (observe_lines forms lines) requested) _ _ h2 in
      let (distinct, h4) = guard_inv (are_unique forms (values forms found)) _ _ h3 in
      let (keys, once) = map_macs_inv (observe_lines forms lines) requested found m in
      subst
        (λ x.
          (read_macs forms macs ≡ some (map (λ y. y.0) x))
          × (are_unique forms (map (λ y. y.0) x) ≡ true)
          × (are_unique forms (values forms x) ≡ true)
          × All (IsSeenOnce (observe_lines forms lines)) x)
        (some-injective _ _ h4)
        (
          r ∙ ap (λ ks. some ks) (sym keys),
          subst (λ ks. are_unique forms ks ≡ true) (sym keys) unique,
          distinct,
          once,
        )
