-- ===== src/Hosts/Machines/Asked.antt =====
-- The lists of names in `cmd_delete` of .github/scripts/manage-virtual-bmh-vms.py.
use osac_test_infra.Prelude.{
  Bool, true, false, not, List, [], ◌∷◌, ◌≡◌, refl, ◌∙◌, ◌&&◌, Bool-cases, inl, inr, any,
}
use mathlib.Core.Path.{subst}
use osac_test_infra.Prelude.Search.{bytes_eq, bytes_eq_sound, bytes_eq_refl}
use osac_test_infra.Text.{Text}
use osac_test_infra.Hosts.Reconcile.Laws.{and_false}
use osac_test_infra.Hosts.Machines.{asked, unknown}

-- Each machine asked for is in the inventory or is not.
pub in_or_out : (a k m : Bool) → ((a && not (k && m)) && not (m && not k)) ≡ (a && not m)
in_or_out true true true = refl
in_or_out true true false = refl
in_or_out true false true = refl
in_or_out true false false = refl
in_or_out false k m = refl

pub asked_lem :
    (n : Text) (names known : List Text)
    → any (bytes_eq n) (asked names known) ≡ (any (bytes_eq n) known && any (bytes_eq n) names)
unfolding asked
asked_lem n names [] = refl
asked_lem n names (k ∷ known) =
    let ih = asked_lem n names known in
    elim (Bool-cases (bytes_eq n k)) [
      | inl q ↦ rw q (
          subst (λ m. any (bytes_eq n) (asked names (m ∷ known)) ≡ any (bytes_eq n) names)
            (bytes_eq_sound n k q) (here ih))
      | inr q ↦ elim (Bool-cases (any (bytes_eq k) names)) [
        | inl t ↦ rw q (rw t (rw q ih))
        | inr t ↦ rw q (rw t ih)
      ]
    ]
  where
    here :
        any (bytes_eq n) (asked names known) ≡ (any (bytes_eq n) known && any (bytes_eq n) names)
        → any (bytes_eq n) (asked names (n ∷ known)) ≡ any (bytes_eq n) names
    here ih = elim (Bool-cases (any (bytes_eq n) names)) [
      | inl t ↦ rw t (rw (bytes_eq_refl n) refl)
      | inr t ↦
          let ih' : any (bytes_eq n) (asked names known) ≡ (any (bytes_eq n) known && false) =
            rw t at ih in
          rw t (ih' ∙ and_false (any (bytes_eq n) known))
    ]

pub unknown_lem :
    (n : Text) (known names : List Text)
    → any (bytes_eq n) (unknown known names)
      ≡ (any (bytes_eq n) names && not (any (bytes_eq n) known))
unfolding unknown
unknown_lem n known [] = refl
unknown_lem n known (m ∷ names) =
    let ih = unknown_lem n known names in
    elim (Bool-cases (bytes_eq n m)) [
      | inl q ↦ rw q (
          subst (λ k. any (bytes_eq n) (unknown known (k ∷ names)) ≡ not (any (bytes_eq n) known))
            (bytes_eq_sound n m q) (here ih))
      | inr q ↦ elim (Bool-cases (any (bytes_eq m) known)) [
        | inl t ↦ rw q (rw t ih)
        | inr t ↦ rw q (rw t (rw q ih))
      ]
    ]
  where
    here :
        any (bytes_eq n) (unknown known names)
          ≡ (any (bytes_eq n) names && not (any (bytes_eq n) known))
        → any (bytes_eq n) (unknown known (n ∷ names)) ≡ not (any (bytes_eq n) known)
    here ih = elim (Bool-cases (any (bytes_eq n) known)) [
      | inr t ↦ rw t (rw (bytes_eq_refl n) refl)
      | inl t ↦
          let ih' : any (bytes_eq n) (unknown known names) ≡ (any (bytes_eq n) names && false) =
            rw t at ih in
          rw t (ih' ∙ and_false (any (bytes_eq n) names))
    ]
