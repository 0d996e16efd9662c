-- ===== src/SelectJobs/Decide/Floor.antt =====
-- What `decide` of .github/scripts/select-jobs.py lets the model change: a verdict raises a decision
-- and never lowers it.
use osac_test_infra.Prelude.{
  ℕ, Bool, true, false, Option, none, some, ◌≡◌, refl, ap, arith, if◌then◌else◌, inl, inr,
  Bool-cases,
}
use Prim.Native.Nat.{max}
use osac_test_infra.Text.{Text}
use osac_test_infra.SelectJobs.Decide.{
  Suite, PerSuite, at, Context, Tier, skip, sanity, regression, Decisions, verdict, decide,
  clear_entry, exclusive_entry, other_entry, is_given,
}

abbrev pub rank : Tier → ℕ
rank skip = 0
rank sanity = 1
rank regression = 2

-- The rank of what the model says, a missing verdict counting as none.
abbrev pub verdict_rank : Option Tier → ℕ
verdict_rank none = 0
verdict_rank (some t) = rank t

-- What the paths alone decide: a suite is left out only if its allow-list covers every changed file
-- and no rule matched it.
abbrev pub floor : Context → Suite → Tier
floor context suite =
    if at context.deterministic suite
    then sanity
    else if at context.exclusive_skip suite
    then skip
    else sanity

clear-larger :
    (v : Option Tier) (reason : Text) (files : _)
    → rank (clear_entry v reason files).decision ≡ max 1 (verdict_rank v)
unfolding clear_entry
clear-larger none reason files = refl
clear-larger (some skip) reason files = refl
clear-larger (some sanity) reason files = refl
clear-larger (some regression) reason files = refl

exclusive-larger :
    (v : Option Tier) (reason : Text)
    → rank (exclusive_entry v reason).decision ≡ max 0 (verdict_rank v)
unfolding exclusive_entry
exclusive-larger none reason = refl
exclusive-larger (some skip) reason = refl
exclusive-larger (some sanity) reason = refl
exclusive-larger (some regression) reason = refl

other-larger :
    (v : Option Tier) (reason : Text) (given : Bool)
    → rank (other_entry v reason given).decision ≡ max 1 (verdict_rank v)
unfolding other_entry
other-larger none reason true = refl
other-larger none reason false = refl
other-larger (some skip) reason true = refl
other-larger (some skip) reason false = refl
other-larger (some sanity) reason true = refl
other-larger (some sanity) reason false = refl
other-larger (some regression) reason given = refl

-- The decision for a suite is the larger of what the paths decide and what the model says, whatever
-- the reasons: the model can raise a decision and cannot lower one.
pub decide-max :
    (context : Context) (decisions : Decisions) (reasons : PerSuite Text) (suite : Suite)
    → rank (decide context decisions reasons suite).decision
      ≡ max (rank (floor context suite)) (verdict_rank (verdict decisions suite))
unfolding decide
decide-max context decisions reasons suite = elim (Bool-cases (at context.deterministic suite)) [
  | inl e ↦ rw e (clear-larger (verdict decisions suite) _ _)
  | inr e ↦ elim (Bool-cases (at context.exclusive_skip suite)) [
    | inl f ↦ rw e (rw f (exclusive-larger (verdict decisions suite) _))
    | inr f ↦ rw e (rw f (other-larger (verdict decisions suite) _ (is_given decisions)))
  ]
]

skip_floor :
    (a b : Bool)
    → rank (if a then sanity else if b then skip else sanity) ≡ 0
    → (a ≡ false) × (b ≡ true)
skip_floor true b h = absurd (omega (arith, h))
skip_floor false true h = (refl, refl)
skip_floor false false h = absurd (omega (arith, h))

-- A suite is decided to be skipped only if no path rule matched it and its allow-list covers every
-- changed file, whatever the model says.
pub decide-skip :
    (context : Context) (decisions : Decisions) (reasons : PerSuite Text) (suite : Suite)
    → (decide context decisions reasons suite).decision ≡ skip
    → (at context.deterministic suite ≡ false) × (at context.exclusive_skip suite ≡ true)
decide-skip context decisions reasons suite h =
    let m = decide-max context decisions reasons suite in
    let z : rank (decide context decisions reasons suite).decision ≡ 0 = ap rank h in
    skip_floor (at context.deterministic suite) (at context.exclusive_skip suite)
      (omega (arith, m, z))

rank-injective : (s t : Tier) → rank s ≡ rank t → s ≡ t
rank-injective skip skip h = refl
rank-injective sanity sanity h = refl
rank-injective regression regression h = refl
rank-injective skip sanity h = absurd (omega (arith, h))
rank-injective skip regression h = absurd (omega (arith, h))
rank-injective sanity skip h = absurd (omega (arith, h))
rank-injective sanity regression h = absurd (omega (arith, h))
rank-injective regression skip h = absurd (omega (arith, h))
rank-injective regression sanity h = absurd (omega (arith, h))

-- With no verdict for a suite the paths alone decide.
pub decide-floor :
    (context : Context) (decisions : Decisions) (reasons : PerSuite Text) (suite : Suite)
    → verdict decisions suite ≡ none
    → (decide context decisions reasons suite).decision ≡ floor context suite
decide-floor context decisions reasons suite e =
    let m = decide-max context decisions reasons suite in
    let z : verdict_rank (verdict decisions suite) ≡ 0 = ap verdict_rank e in
    rank-injective _ _ (omega (arith, m, z))
