-- ===== src/Hosts/Machines/Groups.antt =====
-- Both commands of .github/scripts/manage-virtual-bmh-vms.py keep the file a group's inventory.
use osac_test_infra.Prelude.{
  ℕ, suc, ◌+◌, true, false, Option, none, some, List, [], ◌∷◌, ◌++◌, ◌≡◌, refl, sym, ap, ◌∙◌, ◌||◌,
  arith, All, Bool-cases, inl, inr, codes, length, drop, any, leb, neither, ◌⊎◌,
}
use mathlib.Core.Path.{subst}
use mathlib.Core.Option.{some-injective}
use osac_test_infra.Prelude.Search.{bytes_eq, bytes_eq_sound, bytes_eq_refl, starts_with}
use osac_test_infra.Text.{Text}
use osac_test_infra.Hosts.{Host, is_group_host_name, host_names, is_token, kept_hosts}
use osac_test_infra.Hosts.Machines.{
  used_tokens, first_unused, generate_vm_token, Drawn, drawn, full, drawing, as_drawn, different,
  max_vms_per_group,
}

-- No two hosts have one name, and each name follows the group's scheme.
unfoldable pub IsGroup : Text → List Host → Type 0
IsGroup prefix [] = Unit
IsGroup prefix (h ∷ hosts) =
    (any (bytes_eq h.name) (host_names hosts) ≡ false)
    × (is_group_host_name h.name prefix ≡ true)
    × IsGroup prefix hosts

drop_prefix : (p t : Text) (c : ℕ) → drop (length p + 1) (p ++ (c ∷ t)) ≡ t
drop_prefix [] t c = refl
drop_prefix (x ∷ p) t c =
    ap (λ n. drop n (x ∷ (p ++ (c ∷ t)))) (one_more (length p)) ∙ drop_prefix p t c
  where
    one_more : (n : ℕ) → suc n + 1 ≡ suc (n + 1)
    one_more n = omega arith

has_prefix_lem : (p t : Text) (c : ℕ) → starts_with (p ++ (c ∷ [])) (p ++ (c ∷ t)) ≡ true
unfolding starts_with
has_prefix_lem [] t c = ground arith
has_prefix_lem (x ∷ p) t c = ground (arith, has_prefix_lem p t c)

-- One name, whose token is used or new.
other_name :
    (prefix token name : Text)
    → (starts_with (prefix ++ codes "-") name ≡ true
        → bytes_eq token (drop (length prefix + 1) name) ≡ false)
    → bytes_eq (prefix ++ (codes "-" ++ token)) name ≡ false
other_name prefix token name h =
    elim (Bool-cases (bytes_eq (prefix ++ (codes "-" ++ token)) name)) [
      | inr e ↦ e
      | inl e ↦
          let same : prefix ++ (codes "-" ++ token) ≡ name =
            bytes_eq_sound (prefix ++ (codes "-" ++ token)) name e in
          let starts : starts_with (prefix ++ codes "-") name ≡ true =
            subst (λ n. starts_with (prefix ++ codes "-") n ≡ true) same
              (has_prefix_lem prefix token b'-') in
          let token_of : drop (length prefix + 1) name ≡ token =
            subst (λ n. drop (length prefix + 1) n ≡ token) same (drop_prefix prefix token b'-') in
          let f : bytes_eq token token ≡ false =
            subst (λ t. bytes_eq token t ≡ false) token_of (h starts) in
          let t : bytes_eq token token ≡ true = bytes_eq_refl token in absurd (cc)
    ]

-- The name of a token that is used by no host is no host's.
pub new_name :
    (prefix token : Text) (hosts : List Host)
    → any (bytes_eq token) (used_tokens prefix hosts) ≡ false
    → any (bytes_eq (prefix ++ (codes "-" ++ token))) (host_names hosts) ≡ false
unfolding used_tokens host_names
new_name prefix token [] h = refl
new_name prefix token (host ∷ hosts) h =
    elim (Bool-cases (starts_with (prefix ++ codes "-") host.name)) [
      | inl s ↦
          let h' : bytes_eq token (drop (length prefix + 1) host.name)
                || any (bytes_eq token) (used_tokens prefix hosts)
              ≡ false =
            rw s at h in
          let (a, b) =
            neither (bytes_eq token (drop (length prefix + 1) host.name))
              (any (bytes_eq token) (used_tokens prefix hosts)) h' in
          rw (other_name prefix token host.name (λ t. a)) (new_name prefix token hosts b)
      | inr s ↦
          let h' : any (bytes_eq token) (used_tokens prefix hosts) ≡ false = rw s at h in
          rw (other_name prefix token host.name (λ t. absurd (cc))) (new_name prefix token hosts h')
    ]

pub group_name :
    (prefix token : Text)
    → is_token token ≡ true
    → is_group_host_name (prefix ++ (codes "-" ++ token)) prefix ≡ true
unfolding is_group_host_name
group_name prefix token h =
    rw (has_prefix_lem prefix token b'-')
      (subst (λ t. is_token t ≡ true) (sym (drop_prefix prefix token b'-')) h)

added_name :
    (n : Text) (hosts : List Host) (h : Host)
    → bytes_eq n h.name ≡ false
    → any (bytes_eq n) (host_names hosts) ≡ false
    → any (bytes_eq n) (host_names (hosts ++ h ∷ [])) ≡ false
unfolding host_names
added_name n [] h e f = rw e refl
added_name n (g ∷ hosts) h e f = ground (arith, added_name n hosts h e)

kept_hosts-any :
    (n : Text) (names : List Text) (hosts : List Host)
    → any (bytes_eq n) (host_names hosts) ≡ false
    → any (bytes_eq n) (host_names (kept_hosts names hosts)) ≡ false
unfolding kept_hosts host_names
kept_hosts-any n names [] h = refl
kept_hosts-any n names (host ∷ hosts) h = elim (Bool-cases (any (bytes_eq host.name) names)) [
  | inl e ↦ rw e (kept_hosts-any n names hosts (ground arith))
  | inr e ↦ rw e (ground (arith, kept_hosts-any n names hosts))
]

pub kept_hosts-IsGroup :
    (prefix : Text) (names : List Text) (hosts : List Host)
    → IsGroup prefix hosts
    → IsGroup prefix (kept_hosts names hosts)
unfolding IsGroup kept_hosts
kept_hosts-IsGroup prefix names [] g = tt
kept_hosts-IsGroup prefix names (host ∷ hosts) (a, b, g) =
    elim (Bool-cases (any (bytes_eq host.name) names)) [
      | inl e ↦ rw e (kept_hosts-IsGroup prefix names hosts g)
      | inr e ↦
          rw e (kept_hosts-any host.name names hosts a, b, kept_hosts-IsGroup prefix names hosts g)
    ]

swapped : (x y : Text) → bytes_eq x y ≡ false → bytes_eq y x ≡ false
swapped x y h = elim (Bool-cases (bytes_eq y x)) [
  | inr e ↦ e
  | inl e ↦
      let t : bytes_eq x y ≡ true =
        subst (λ z. bytes_eq x z ≡ true) (sym (bytes_eq_sound y x e)) (bytes_eq_refl x) in
      absurd (cc)
]

pub added-IsGroup :
    (prefix : Text) (hosts : List Host) (h : Host)
    → IsGroup prefix hosts
    → any (bytes_eq h.name) (host_names hosts) ≡ false
    → is_group_host_name h.name prefix ≡ true
    → IsGroup prefix (hosts ++ h ∷ [])
unfolding IsGroup host_names
added-IsGroup prefix [] h g a b = (refl, b, tt)
added-IsGroup prefix (k ∷ hosts) h (c, d, g) a b =
    let (e, f) = neither (bytes_eq h.name k.name) (any (bytes_eq h.name) (host_names hosts)) a in
    (added_name k.name hosts h (swapped h.name k.name e) c, d, added-IsGroup prefix hosts h g f b)

pub unused :
    (used tokens : List Text) (token : Text) (rest : List Text)
    → All (λ t. is_token t ≡ true) tokens
    → first_unused used tokens ≡ some (token, rest)
    → (any (bytes_eq token) used ≡ false)
      × (is_token token ≡ true)
      × All (λ t. is_token t ≡ true) rest
unfolding first_unused
unused used [] token rest q h = absurd (cc)
unused used (t ∷ tokens) token rest (a, q) h = elim (Bool-cases (any (bytes_eq t) used)) [
  | inl e ↦
      let h' : first_unused used tokens ≡ some (token, rest) = rw e at h in
      unused used tokens token rest q h'
  | inr e ↦
      let h' : ◌≡◌ {A = Option (Text × List Text)} (some (t, tokens)) (some (token, rest)) =
        rw e at h in
      let p = some-injective _ _ h' in
      (
        subst (λ x. any (bytes_eq x) used ≡ false) (ap (λ x. x.0) p) e,
        subst (λ x. is_token x ≡ true) (ap (λ x. x.0) p) a,
        subst (λ x. All (λ t. is_token t ≡ true) x) (ap (λ x. x.1) p) q,
      )
]

pub drawn_cases :
    (d : Drawn) → (d ≡ full) ⊎ ((d ≡ drawing) ⊎ ((t : Text) × (r : List Text) × (d ≡ drawn t r)))
drawn_cases full = inl refl
drawn_cases drawing = inr (inl refl)
drawn_cases (drawn t r) = inr (inr (t, r, refl))

drawn_token : Drawn → Option (Text × List Text)
drawn_token full = none
drawn_token drawing = none
drawn_token (drawn t r) = some (t, r)

as_drawn_lem :
    (o : Option (Text × List Text)) (t : Text) (r : List Text)
    → as_drawn o ≡ drawn t r
    → o ≡ some (t, r)
unfolding drawn_token
as_drawn_lem none t r h = absurd (cc)
as_drawn_lem (some (t', r')) t r h = ap drawn_token h

pub generate_lem :
    (hosts : List Host) (prefix : Text) (tokens : List Text) (t : Text) (r : List Text)
    → generate_vm_token hosts prefix tokens ≡ drawn t r
    → first_unused (used_tokens prefix hosts) tokens ≡ some (t, r)
unfolding generate_vm_token
generate_lem hosts prefix tokens t r h =
    elim (Bool-cases (leb max_vms_per_group (length (different (used_tokens prefix hosts))))) [
      | inl e ↦ let h' : full ≡ drawn t r = rw e at h in absurd (cc)
      | inr e ↦ as_drawn_lem (first_unused (used_tokens prefix hosts) tokens) t r (rw e at h)
    ]
