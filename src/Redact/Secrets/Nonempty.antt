-- ===== src/Redact/Secrets/Nonempty.antt =====
-- No secret of `collect_secrets` of .github/scripts/redact.py is empty.
use osac_test_infra.Prelude.{
  ℕ, ◌<◌, Option, none, some, List, [], ◌∷◌, ◌++◌, ◌≡◌, ap, arith, Bool-cases, Option-cases, inl,
  inr, length, any, All, All-append, leb, codes, ◌==◌, length-append,
}
use mathlib.Core.List.{reverse}
use mathlib.Core.Path.{subst}
use mathlib.Core.Option.{some-injective}
use osac_test_infra.Prelude.Search.{Bytes, bytes_eq, contains}
use osac_test_infra.Text.{
  Text, encode_text, encode_strict, encode_strict-text, encode_char, join_encoded,
}
use osac_test_infra.Redact.Secrets.{
  Expressions, Finding, add_variant, add_stripped, add_found, secret_variants, add_variants,
  all_variants, insert_longest, longest_first, encode_all, collect_secrets,
}

AreFull : List Text → Type 0
AreFull texts = All (λ s. 0 < length s) texts

add_variant-AreFull :
    (value : Text) (out : List Text) → AreFull out → AreFull (add_variant value out)
unfolding add_variant AreFull
add_variant-AreFull [] out h = h
add_variant-AreFull (c ∷ value) out h = elim (Bool-cases (any (bytes_eq (c ∷ value)) out)) [
  | inl e ↦ rw e h
  | inr e ↦
      rw e (All-append (λ (s : Text). 0 < length s) out ((c ∷ value) ∷ []) h (omega arith, tt))
]

add_stripped-AreFull :
    (backwards : Text) (out : List Text) → AreFull out → AreFull (add_stripped backwards out)
unfolding add_stripped
add_stripped-AreFull [] out h = h
add_stripped-AreFull (c ∷ backwards) out h =
    let ih =
      add_stripped-AreFull backwards (add_variant (reverse backwards) out)
        (add_variant-AreFull (reverse backwards) out h) in
    elim (Bool-cases (c == 92)) [ inl e ↦ rw e ih | inr e ↦ rw e h ]

add_found-AreFull :
    (found : Option Text) (out : List Text) → AreFull out → AreFull (add_found found out)
add_found-AreFull none out h = h
add_found-AreFull (some value) out h = add_variant-AreFull value out h

secret_variants-AreFull : (re : Expressions) (secret : Text) → AreFull (secret_variants re secret)
unfolding secret_variants AreFull
secret_variants-AreFull re secret =
    let first = add_variant-AreFull secret [] tt in
    let out = add_stripped-AreFull (reverse secret) (add_variant secret []) first in
    elim (Bool-cases (contains (codes "eyJ") secret)) [
      | inl e ↦ rw e (
          add_found-AreFull (re.jwt_search secret)
            (add_stripped (reverse secret) (add_variant secret [])) out)
      | inr e ↦ rw e out
    ]

add_variants-AreFull :
    (vs variants : List Text) → AreFull variants → AreFull (add_variants vs variants)
unfolding add_variants
add_variants-AreFull [] variants h = h
add_variants-AreFull (v ∷ vs) variants h =
    add_variants-AreFull vs (add_variant v variants) (add_variant-AreFull v variants h)

all_variants-AreFull :
    (re : Expressions) (findings : List Finding) (variants : List Text)
    → AreFull variants
    → AreFull (all_variants re findings variants)
unfolding all_variants
all_variants-AreFull re [] variants h = h
all_variants-AreFull re (f ∷ findings) variants h =
    all_variants-AreFull re findings (add_variants (secret_variants re f.secret) variants)
      (add_variants-AreFull (secret_variants re f.secret) variants h)

insert_longest-AreFull :
    (v : Text) (vs : List Text) → 0 < length v → AreFull vs → AreFull (insert_longest v vs)
unfolding insert_longest AreFull
insert_longest-AreFull v [] a h = (a, tt)
insert_longest-AreFull v (w ∷ ws) a (b, h) = elim (Bool-cases (leb (length w) (length v))) [
  | inl e ↦ rw e (a, (b, h))
  | inr e ↦ rw e (b, insert_longest-AreFull v ws a h)
]

longest_first-AreFull : (vs : List Text) → AreFull vs → AreFull (longest_first vs)
unfolding longest_first AreFull
longest_first-AreFull [] h = tt
longest_first-AreFull (v ∷ vs) (a, h) =
    insert_longest-AreFull v (longest_first vs) a (longest_first-AreFull vs h)

encode_char-full : (c : ℕ) (b : Bytes) → encode_char c ≡ some b → 0 < length b
unfolding encode_char
encode_char-full c b h = ground arith

encode_text-full : (v : Text) (b : Bytes) → 0 < length v → encode_text v ≡ some b → 0 < length b
unfolding encode_text join_encoded
encode_text-full [] b h e = absurd (omega arith)
encode_text-full (c ∷ v) b h e = elim (Option-cases (encode_char c)) [
  | inl n ↦ let e' : ◌≡◌ {A = Option Bytes} none (some b) = rw n at e in cc
  | inr (x, n) ↦ elim (Option-cases (encode_text v)) [
    | inl m ↦ let e' : ◌≡◌ {A = Option Bytes} none (some b) = rw m at (rw n at e) in cc
    | inr (y, m) ↦
        let e' : ◌≡◌ {A = Option Bytes} (some (x ++ y)) (some b) = rw m at (rw n at e) in
        let long : length (x ++ y) ≡ length b = ap length (some-injective _ _ e') in
        omega (arith, length-append x y, encode_char-full c x n)
  ]
]

encode_all-full :
    (vs : List Text) (bs : List Bytes)
    → AreFull vs
    → encode_all vs ≡ some bs
    → All (λ s. 0 < length s) bs
unfolding encode_all AreFull
encode_all-full [] [] h e = tt
encode_all-full [] (b ∷ bs) h e = absurd (cc)
encode_all-full (v ∷ vs) bs (a, h) e = elim (Option-cases (encode_strict v)) [
  | inl n ↦
      let e' : ◌≡◌ {A = Option (List Bytes)} none (some bs) = rw (n, encode_all) at e in absurd (cc)
  | inr (x, n) ↦ elim (Option-cases (encode_all vs)) [
    | inl m ↦
        let e' : ◌≡◌ {A = Option (List Bytes)} none (some bs) = rw m at (rw (n, encode_all) at e) in
        absurd (cc)
    | inr (y, m) ↦
        let e' : ◌≡◌ {A = Option (List Bytes)} (some (x ∷ y)) (some bs) =
          rw m at (rw (n, encode_all) at e) in
        subst (All (λ s. 0 < length s)) (some-injective _ _ e')
          (encode_text-full v x a (encode_strict-text v x n), encode_all-full vs y h m)
  ]
]

pub collect_secrets-HaveBytes :
    (re : Expressions) (findings : List Finding) (secrets : List Bytes)
    → collect_secrets re findings ≡ some secrets
    → All (λ s. 0 < length s) secrets
unfolding collect_secrets AreFull
collect_secrets-HaveBytes re findings secrets e =
    encode_all-full (longest_first (all_variants re findings [])) secrets
      (longest_first-AreFull (all_variants re findings []) (all_variants-AreFull re findings [] tt))
      e
