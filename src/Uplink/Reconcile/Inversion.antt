-- ===== src/Uplink/Reconcile/Inversion.antt =====
-- What the steps of `reconcile` of infra/netris/scripts/ocp_uplink.py say when they do not fail.
use mathlib.Core.Option.{some-injective}
use osac_test_infra.Prelude.{
  Bool, true, false, Option, none, some, ◌≡◌, ◌≢◌, refl, ap, Bool-cases, inl, inr, if◌then◌else◌,
}
use osac_test_infra.Prelude.Search.{bytes_eq, bytes_eq_sound, bytes_eq_refl}
use osac_test_infra.Text.{Text}
use osac_test_infra.Uplink.Reconcile.{then_some, guard}

pub then_some_inv :
    {A : Type 0} {B : Type 0} (o : Option A) (f : A → Option B) (b : B)
    → then_some o f ≡ some b
    → (a : A) × (o ≡ some a) × (f a ≡ some b)
then_some_inv none f b h = cc
then_some_inv (some a) f b h = (a, refl, h)

pub guard_inv :
    {A : Type 0} (b : Bool) (o : Option A) (a : A) → guard b o ≡ some a → (b ≡ true) × (o ≡ some a)
guard_inv true o a h = (refl, h)
guard_inv false o a h = cc

pub other_port :
    (o : Option Text) (port : Text) (rest : Option Bool)
    → then_some o (λ name. if bytes_eq name port then some true else rest) ≡ some false
    → (o ≢ some port) × (rest ≡ some false)
other_port none port rest h = cc
other_port (some name) port rest h = elim (Bool-cases (bytes_eq name port)) [
  | inl e ↦ let h' : some true ≡ some false = rw e at h in cc
  | inr e ↦
      let h' : rest ≡ some false = rw e at h in
      (
        λ same.
            let s : bytes_eq name port ≡ true = rw (some-injective _ _ same) (bytes_eq_refl port) in
            cc,
        h',
      )
]

pub false_only :
    (o : Option Bool) → elim o [ some false ↦ true | _ ↦ false ] ≡ true → o ≡ some false
false_only none h = cc
false_only (some true) h = cc
false_only (some false) h = refl

pub named_inv :
    (o : Option Text) (port : Text)
    → elim o [ none ↦ false | some name ↦ bytes_eq name port ] ≡ true
    → o ≡ some port
named_inv none port h = cc
named_inv (some name) port h = ap (λ x. some x) (bytes_eq_sound name port h)

pub our_port :
    (o : Option Text) (port : Text) (rest : Option Bool) (b : Bool)
    → then_some o (λ name. guard (bytes_eq name port) rest) ≡ some b
    → o ≡ some port
our_port none port rest b h = cc
our_port (some name) port rest b h =
    ap (λ x. some x) (bytes_eq_sound name port (guard_inv (bytes_eq name port) rest b h).0)
