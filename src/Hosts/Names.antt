-- ===== src/Hosts/Names.antt =====
-- The names of a group, `is_group_host_name` of .github/scripts/raw_inventory.py.
use osac_test_infra.Prelude.{
  ◌+◌, true, [], ◌∷◌, ◌++◌, ◌≡◌, refl, ap, arith, ◌==◌, codes, length, length-drop, drop, both_true,
  all,
}
use osac_test_infra.Prelude.Search.{starts_with}
use osac_test_infra.Text.{Text}
use osac_test_infra.Hosts.{is_group_host_name, is_token, is_token_char}

same_prefix :
    (p q rest n : Text)
    → length p ≡ length q
    → starts_with (p ++ rest) n ≡ true
    → starts_with (q ++ rest) n ≡ true
    → p ≡ q
unfolding starts_with
same_prefix [] [] rest n l a b = refl
same_prefix [] (d ∷ q) rest n l a b = absurd (omega arith)
same_prefix (c ∷ p) [] rest n l a b = absurd (omega arith)
same_prefix (c ∷ p) (d ∷ q) rest [] l a b = cc
same_prefix (c ∷ p) (d ∷ q) rest (x ∷ n) l a b =
    let (a1, a2) = both_true (c == x) (starts_with (p ++ rest) n) a in
    let (b1, b2) = both_true (d == x) (starts_with (q ++ rest) n) b in
    let ih = same_prefix p q rest n (omega arith) a2 b2 in
    let e : c ≡ d = ground arith in rw e (ap (λ t. d ∷ t) ih)

long_name :
    (name prefix : Text) → is_group_host_name name prefix ≡ true → length name ≡ length prefix + 3
unfolding is_group_host_name
long_name name prefix h =
    let (a, t) =
      both_true (starts_with (prefix ++ codes "-") name) (is_token (drop (length prefix + 1) name))
        h in
    let (l, u) =
      both_true (length (drop (length prefix + 1) name) == 2)
        (all is_token_char (drop (length prefix + 1) name)) t in
    ground (arith, length-drop (length prefix + 1) name)

-- A name belongs to one group at most, however the prefixes overlap.
pub is_group_host_name_unique :
    (name p q : Text) → is_group_host_name name p ≡ true → is_group_host_name name q ≡ true → p ≡ q
unfolding is_group_host_name
is_group_host_name_unique name p q a b =
    let (a1, _) =
      both_true (starts_with (p ++ codes "-") name) (is_token (drop (length p + 1) name)) a in
    let (b1, _) =
      both_true (starts_with (q ++ codes "-") name) (is_token (drop (length q + 1) name)) b in
    same_prefix p q (codes "-") name (omega (arith, long_name name p a, long_name name q b)) a1 b1
