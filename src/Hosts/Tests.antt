-- ===== src/Hosts/Tests.antt =====
-- Runs on a cluster that knows two hosts, and the theorems on groups at concrete values.
use osac_test_infra.Prelude.{
  ℕ, zero, suc, ◌<◌, Bool, true, false, not, none, some, [], ◌∷◌, ◌≡◌, refl, sym, ap, ◌∙◌, ◌&&◌,
  ◌||◌, arith, any, codes, leb, if◌then◌else◌, Bool-cases, inl, inr,
}
use mathlib.Core.Path.{subst}
use osac_test_infra.Prelude.Search.{bytes_eq, bytes_eq_sound}
use osac_test_infra.Text.{Text, split_words}
use osac_test_infra.Hosts.{
  Host, RawInventory, Loaded, ok, load, save, ensure_name_prefix, is_group_host_name, host_names,
}
use osac_test_infra.Hosts.RoundTrip.{load-save}
use osac_test_infra.Hosts.Names.{is_group_host_name_unique}
use osac_test_infra.Hosts.Reconcile.{
  Code, fine, failed, Oc, going, stale_names, main, wait_attempts, polled,
}
use osac_test_infra.Hosts.Reconcile.Laws.{IsLawful, and_true, and_false}
use osac_test_infra.Hosts.Reconcile.Result.{run_strips, main-IsReconciled}
use osac_test_infra.Hosts.Reconcile.Untouched.{main-untouched}
use osac_test_infra.Hosts.Reconcile.Waiting.{later, wait_attempts-going}

abbrev one : Text
one = codes "g-01"

abbrev two : Text
two = codes "g-02"

-- Which of the two hosts are there, and the delays so far.
abbrev Lab : Type 0
Lab = Bool × Bool × ℕ

abbrev has : Lab → Text → Bool
has (a, b, t) n = (a && bytes_eq n one) || (b && bytes_eq n two)

abbrev listing : Lab → Text
listing (true, true, t) = codes "g-01 g-02"
listing (true, false, t) = codes "g-01"
listing (false, true, t) = codes "g-02"
listing (false, false, t) = []

abbrev remove : Text → Lab → Lab
remove name (a, b, t) = (a && not (bytes_eq name one), b && not (bytes_eq name two), t)

abbrev add : Text → Lab → Lab × Code
add name (a, b, t) =
    if bytes_eq name one
    then ((true, b, t), fine)
    else if bytes_eq name two
    then ((a, true, t), fine)
    else ((a, b, t), failed 1)

abbrev lab : Oc Lab
lab = record {
  apply_namespace = λ s. (s, fine);
  get_names = λ s. (fine, listing s);
  delete_bmh = λ name s. (s, fine);
  patch_bmh = λ name s. (remove name s, fine);
  delete_secret = λ name s. (s, fine);
  patch_secret = λ name s. (s, fine);
  apply_host = λ host s. add host.name s;
  poll = λ name s. (fine, if leb 2 s.2 then codes "available" else codes "inspecting");
  sleep = λ s. (s.0, s.1, suc s.2);
  label = λ name s. (s, fine);
}

or_false : (b : Bool) → b ≡ (b || false)
or_false true = refl
or_false false = refl

names_law :
    (s : Lab) (out n : Text)
    → lab.get_names s ≡ (fine, out)
    → any (bytes_eq n) (split_words out) ≡ has s n
unfolding split_words
names_law (a, b, t) out n e =
    subst (λ o. any (bytes_eq n) (split_words o) ≡ has (a, b, t) n) (ap (λ r. r.1) e) (listed a b)
  where
    listed : (a b : Bool) → any (bytes_eq n) (split_words (listing (a, b, t))) ≡ has (a, b, t) n
    listed true true = ap (λ x. bytes_eq n one || x) (sym (or_false (bytes_eq n two)))
    listed true false = refl
    listed false true = sym (or_false (bytes_eq n two))
    listed false false = refl

-- What holds of a host's place, if another is removed.
place_kept :
    (name n place : Text) (a : Bool)
    → bytes_eq n name ≡ false
    → (a && not (bytes_eq name place)) && bytes_eq n place ≡ (a && bytes_eq n place)
place_kept name n place a e = elim (Bool-cases (bytes_eq name place)) [
  | inr q ↦ rw q (ap (λ x. x && bytes_eq n place) (and_true a))
  | inl q ↦
      let other : bytes_eq n place ≡ false =
        subst (λ m. bytes_eq n m ≡ false) (bytes_eq_sound name place q) e in
      rw q (rw other (and_false (a && false) ∙ sym (and_false a)))
]

patched_law : (name n : Text) (s : Lab) → bytes_eq n name ≡ false → has (remove name s) n ≡ has s n
patched_law name n (a, b, t) e =
    ap (λ x. x || ((b && not (bytes_eq name two)) && bytes_eq n two)) (place_kept name n one a e)
    ∙ ap (λ x. (a && bytes_eq n one) || x) (place_kept name n two b e)

gone : (x : Bool) (a : Bool) → ((a && not x) && x) ≡ false
gone true a = ap (λ x. x && true) (and_false a)
gone false a = and_false (a && true)

removed_law : (name : Text) (s : Lab) → has (remove name s) name ≡ false
removed_law name (a, b, t) = rw (gone (bytes_eq name one) a) (gone (bytes_eq name two) b)

others_law : (name n : Text) (s : Lab) → bytes_eq n name ≡ false → has (add name s).0 n ≡ has s n
others_law name n (a, b, t) e = elim (Bool-cases (bytes_eq name one)) [
  | inl q ↦
      let other : bytes_eq n one ≡ false =
        subst (λ m. bytes_eq n m ≡ false) (bytes_eq_sound name one q) e in
      rw q (rw other (ap (λ x. x || (b && bytes_eq n two)) (sym (and_false a))))
  | inr q ↦ elim (Bool-cases (bytes_eq name two)) [
    | inl r ↦
        let other : bytes_eq n two ≡ false =
          subst (λ m. bytes_eq n m ≡ false) (bytes_eq_sound name two r) e in
        rw q (rw r (rw other (ap (λ x. (a && bytes_eq n one) || x) (sym (and_false b)))))
    | inr r ↦ rw q (rw r refl)
  ]
]

applied_law : (name : Text) (s : Lab) → (add name s).1 ≡ fine → has (add name s).0 name ≡ true
applied_law name (a, b, t) e = elim (Bool-cases (bytes_eq name one)) [
  | inl q ↦ rw q refl
  | inr q ↦ elim (Bool-cases (bytes_eq name two)) [
    | inl r ↦ rw q (rw r (ap (λ x. x || true) (and_false a)))
    | inr r ↦ let e' : failed 1 ≡ fine = rw r at (rw q at e) in absurd (cc)
  ]
]

absent_law :
    (name : Text) (s : Lab) → has s name ≡ false → has (lab.patch_bmh name s).0 name ≡ false
absent_law name s h = removed_law name s

lab-IsLawful : IsLawful lab has
lab-IsLawful = record {
  namespace = λ s n. refl;
  names = names_law;
  deleted = λ name n s e. refl;
  patched = patched_law;
  removed = λ name s e f. removed_law name s;
  patched_absent = absent_law;
  deleted_secret = λ name n s. refl;
  patched_secret = λ name n s. refl;
  others = λ host n s e. others_law host.name n s e;
  applied = λ host s e. applied_law host.name s e;
  slept = λ n s. refl;
  labelled = λ name n s. refl;
}

abbrev second_host : Host
second_host = record {
  name = two;
  uuid = codes "u";
  boot_mac = codes "m";
  bmc_address = codes "b";
  bmc_username = codes "admin";
  bmc_password = codes "pw";
  cpu = 4;
  memory_mib = 8192;
}

abbrev group : Loaded RawInventory
group = ok (record { name_prefix = some (codes "g"); hosts = second_host ∷ [] })

abbrev before : Lab
before = (true, false, 0)

comes_to_its_end : main lab (some group) before ≡ ((false, true, 2), going)
unfolding main
comes_to_its_end = refl

all_stripped : run_strips lab has (codes "g") (second_host ∷ []) before ≡ true
unfolding run_strips stale_names split_words host_names
all_stripped = refl

main-IsReconciled_example : has (main lab (some group) before).0 one ≡ (
    any (bytes_eq one) (host_names (second_host ∷ []))
    || (has before one && not (is_group_host_name one (codes "g"))))
main-IsReconciled_example =
    main-IsReconciled lab has lab-IsLawful (codes "g") (second_host ∷ []) before all_stripped
      (ap (λ r. r.1) comes_to_its_end) one

abbrev elsewhere : Text
elsewhere = codes "h-01"

not_in_group : is_group_host_name elsewhere (codes "g") ≡ false
unfolding is_group_host_name
not_in_group = refl

not_listed : any (bytes_eq elsewhere) (host_names (second_host ∷ [])) ≡ false
unfolding host_names bytes_eq
not_listed = refl

main-untouched_example : has (main lab (some group) before).0 elsewhere ≡ has before elsewhere
main-untouched_example =
    main-untouched lab has lab-IsLawful (codes "g") (second_host ∷ []) before elsewhere not_in_group
      not_listed

not_yet : (j : ℕ) → j < 2 → polled lab (lab.poll two (later lab j before)) ≡ some false
unfolding polled later
not_yet zero h = refl
not_yet (suc zero) h = refl
not_yet (suc (suc j)) h = absurd (omega arith)

then_available : polled lab (lab.poll two (later lab 2 before)) ≡ some true
unfolding polled later
then_available = refl

wait_attempts-going_example : wait_attempts lab 120 two before ≡ (later lab 2 before, going)
wait_attempts-going_example =
    wait_attempts-going lab 120 2 two before (omega arith) not_yet then_available

abbrev unnamed : RawInventory
unnamed = record { name_prefix = none; hosts = second_host ∷ [] }

load-save_example :
    (load (some (save (record { name_prefix = some (codes "g"); hosts = second_host ∷ [] })))
      ≡ group)
    × (load ((ensure_name_prefix (codes "0a") unnamed none).1)
        ≡ ok ((ensure_name_prefix (codes "0a") unnamed none).0))
load-save_example = load-save b'g' [] (codes "0a") (second_host ∷ []) none

one_in_group : is_group_host_name one (codes "g") ≡ true
unfolding is_group_host_name
one_in_group = refl

is_group_host_name_unique_example : codes "g" ≡ codes "g"
is_group_host_name_unique_example =
    is_group_host_name_unique one (codes "g") (codes "g") one_in_group one_in_group
