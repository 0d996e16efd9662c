-- ===== src/Prelude/Search/Occurs.antt =====
-- What the searches of byte strings find, stated by concatenation.
use osac_test_infra.Prelude.Tests.{Bool-cases, Option-cases}
use osac_test_infra.Prelude.Search.{Bytes, starts_with, contains, find}
use mathlib.Core.Path.{◌≡◌, refl, ap, ap₂}
use mathlib.Core.Logic.{inl, inr}
use mathlib.Core.Bool.{true}
use mathlib.Core.Option.{some}
use mathlib.Core.List.{[], ◌∷◌, ◌++◌, append_assoc}
use native.Mathlib.Omega.{arith}

-- `p` stands in `d`, between a part before it and a part after it.
abbrev pub Occurs : Bytes → Bytes → Type 0
Occurs p d = (before after : Bytes) × (d ≡ before ++ (p ++ after))

pub starts_with_sound : (p d : Bytes) → starts_with p d ≡ true → (after : Bytes) × (d ≡ p ++ after)
unfolding starts_with
starts_with_sound [] d h = (d, refl)
starts_with_sound (x ∷ xs) [] h = cc
starts_with_sound (x ∷ xs) (y ∷ ys) h =
    let (after, e) = starts_with_sound xs ys (ground arith) in (after, ap₂ ◌∷◌ (ground arith) e)

pub starts_with_append : (p after : Bytes) → starts_with p (p ++ after) ≡ true
unfolding starts_with
starts_with_append [] after = refl
starts_with_append (x ∷ xs) after = ground (arith, starts_with_append xs after)

-- `p in d` says that `p` stands somewhere in `d`.
pub contains_sound : (p d : Bytes) → contains p d ≡ true → Occurs p d
unfolding contains
contains_sound p [] h = let (after, e) = starts_with_sound p [] h in ([], after, e)
contains_sound p (x ∷ xs) h = elim (Bool-cases (starts_with p (x ∷ xs))) [
  | inl here ↦ let (after, e) = starts_with_sound p (x ∷ xs) here in ([], after, e)
  | inr later ↦
      let (before, after, e) = contains_sound p xs (ground arith) in
      (x ∷ before, after, ap (λ l. x ∷ l) e)
]

pub contains_append_left :
    (p before d : Bytes) → contains p d ≡ true → contains p (before ++ d) ≡ true
unfolding contains
contains_append_left p [] d h = h
contains_append_left p (x ∷ before) d h = ground (arith, contains_append_left p before d h)

starts-contains : (p d : Bytes) → starts_with p d ≡ true → contains p d ≡ true
unfolding contains
starts-contains p [] h = h
starts-contains p (x ∷ d) h = ground arith

pub contains_middle : (p before after : Bytes) → contains p (before ++ (p ++ after)) ≡ true
contains_middle p before after =
    contains_append_left p before (p ++ after)
      (starts-contains p (p ++ after) (starts_with_append p after))

pub contains_append_right :
    (p d after : Bytes) → contains p d ≡ true → contains p (d ++ after) ≡ true
contains_append_right p d after h =
    let (x, y, e) = contains_sound p d h in
    rw (e, append_assoc, append_assoc) (contains_middle p x (y ++ after))

-- `find` returns a split of the data, at an occurrence.
pub find_sound :
    (p d before from : Bytes)
    → find p d ≡ some (before, from)
    → (d ≡ before ++ from) × (starts_with p from ≡ true)
unfolding find
find_sound p [] before from h = ground arith
find_sound p (x ∷ xs) before from h = elim (Bool-cases (starts_with p (x ∷ xs))) [
  | inl here ↦ ground arith
  | inr other ↦ elim (Option-cases (find p xs)) [
    | inl e ↦ absurd (ground arith)
    | inr (split, e) ↦ ground (arith, find_sound p xs split.0 split.1 e)
  ]
]
