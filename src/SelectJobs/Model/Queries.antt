-- ===== src/SelectJobs/Model/Queries.antt =====
-- The files that `build_graphify_context` of .github/scripts/select-jobs.py asks about.
use osac_test_infra.Prelude.{
  ℕ, zero, suc, ◌≤◌, false, List, [], ◌∷◌, ◌++◌, ◌≡◌, any, length, take, arith, Bool-cases, inl,
  inr, All,
}
use osac_test_infra.Prelude.Search.{bytes_eq}
use osac_test_infra.Text.{Text}
use osac_test_infra.SelectJobs.Model.{from_keys, queried, max_graphify_files}

-- A path that is none of the others.
IsNew : List Text → Text → Type 0
IsNew seen p = any (bytes_eq p) seen ≡ false

-- No path is asked about twice.
unfoldable pub AreDistinct : List Text → Type 0
AreDistinct [] = Unit
AreDistinct (p ∷ ps) = All (λ q. bytes_eq q p ≡ false) ps × AreDistinct ps

All-map : (P Q : Text → Type 0) → ((p : Text) → P p → Q p) → (ps : List Text) → All P ps → All Q ps
All-map P Q f [] a = tt
All-map P Q f (p ∷ ps) (a, rest) = (f p a, All-map P Q f ps rest)

from_keys-IsNew : (seen ps : List Text) → All (IsNew seen) (from_keys seen ps)
unfolding from_keys IsNew
from_keys-IsNew seen [] = tt
from_keys-IsNew seen (p ∷ ps) = elim (Bool-cases (any (bytes_eq p) seen)) [
  | inl e ↦ rw e (from_keys-IsNew seen ps)
  | inr e ↦ rw e (
    e,
    All-map (IsNew (p ∷ seen)) (IsNew seen) (λ q n. ground (arith, n)) _
        (from_keys-IsNew (p ∷ seen) ps),
  )
]

from_keys-AreDistinct : (seen ps : List Text) → AreDistinct (from_keys seen ps)
unfolding from_keys AreDistinct IsNew
from_keys-AreDistinct seen [] = tt
from_keys-AreDistinct seen (p ∷ ps) = elim (Bool-cases (any (bytes_eq p) seen)) [
  | inl e ↦ rw e (from_keys-AreDistinct seen ps)
  | inr e ↦ rw e (
    All-map (IsNew (p ∷ seen)) (λ q. bytes_eq q p ≡ false) (λ q n. ground (arith, n)) _
        (from_keys-IsNew (p ∷ seen) ps),
    from_keys-AreDistinct (p ∷ seen) ps,
  )
]

All-take : (P : Text → Type 0) (n : ℕ) (ps : List Text) → All P ps → All P (take n ps)
All-take P zero ps a = tt
All-take P (suc n) [] a = tt
All-take P (suc n) (p ∷ ps) (a, rest) = (a, All-take P n ps rest)

take-AreDistinct : (n : ℕ) (ps : List Text) → AreDistinct ps → AreDistinct (take n ps)
unfolding AreDistinct
take-AreDistinct zero ps d = tt
take-AreDistinct (suc n) [] d = tt
take-AreDistinct (suc n) (p ∷ ps) (a, d) = (All-take _ n ps a, take-AreDistinct n ps d)

length-take_le : (n : ℕ) (ps : List Text) → length (take n ps) ≤ n
length-take_le zero ps = omega arith
length-take_le (suc n) [] = omega arith
length-take_le (suc n) (p ∷ ps) = omega (arith, length-take_le n ps)

-- At most eight files are asked about, and none of them twice, however many changed.
pub queried-AreDistinct :
    (ambiguous deterministic : List Text)
    → (length (queried ambiguous deterministic) ≤ max_graphify_files)
      × AreDistinct (queried ambiguous deterministic)
unfolding queried
queried-AreDistinct ambiguous deterministic = (
  length-take_le max_graphify_files _,
  take-AreDistinct max_graphify_files _ (from_keys-AreDistinct [] (ambiguous ++ deterministic)),
)
