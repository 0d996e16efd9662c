-- ===== src/SelectJobs/Reason/Escapes.antt =====
-- The escapes of `_sanitize_reason` of .github/scripts/select-jobs.py: no character that Markdown
-- reads stands in a reason without a backslash of its own.
use osac_test_infra.Prelude.{
  ℕ, Bool, true, false, not, [], ◌∷◌, ◌++◌, ◌≡◌, refl, ◌&&◌, ◌||◌, ◌==◌, if◌then◌else◌, arith,
  Bool-cases, inl, inr, ==_iff,
}
use osac_test_infra.Text.{Text, split_words}
use osac_test_infra.SelectJobs.Reason.{
  backslash, ellipsis, escape, escape_all, join_words, neutralize_fences, sanitize_reason,
}
use osac_test_infra.SelectJobs.Reason.Caps.{cap_reason-keeps}

abbrev pub is_special : ℕ → Bool
is_special c = c == 62 || (c == 60 || (c == 93 || (c == 91 || (c == 124 || false))))

-- Read as Markdown, from a place where a backslash just before is pending or not: a special
-- character is met only behind a pending backslash.
unfoldable pub is_escaped : Bool → Text → Bool
is_escaped pending [] = true
is_escaped true (c ∷ cs) = is_escaped false cs
is_escaped false (c ∷ cs) =
    let pair = is_escaped true cs in
    let rest = is_escaped false cs in if c == backslash then pair else not (is_special c) && rest

-- The same for the characters in `p`, where only a backslash and these may stand behind one.
strict : (ℕ → Bool) → Bool → Text → Bool
strict p true [] = false
strict p false [] = true
strict p true (c ∷ cs) = (c == backslash || p c) && strict p false cs
strict p false (c ∷ cs) =
    let pair = strict p true cs in
    let rest = strict p false cs in if c == backslash then pair else not (p c) && rest

-- The first replacement doubles each backslash.
escape-backslash : (t : Text) → strict (λ c. false) false (escape backslash t) ≡ true
unfolding strict escape
escape-backslash [] = refl
escape-backslash (c ∷ cs) = ground (arith, escape-backslash cs)

no_pair : (x y r : Bool) → x ≡ false → y ≡ false → ((x || y) && r) ≡ true → ⊥
no_pair x y r = ground arith

strict_step :
    (x y r r' : Bool) → ((x || y) && r) ≡ true → (r ≡ true → r' ≡ true) → ((x || y) && r') ≡ true
strict_step x y r r' = ground arith

plain_step : (x y u v : Bool) → x ≡ false → (if x then u else not y && v) ≡ true → v ≡ true
plain_step x y u v = ground arith

either_step :
    (x y u v u' v' : Bool)
    → (if x then u else not y && v) ≡ true
    → (u ≡ true → u' ≡ true)
    → (v ≡ true → v' ≡ true)
    → (if x then u' else not y && v') ≡ true
either_step x y u v u' v' = ground arith

-- A further replacement adds its character to those that are escaped.
escape-strict :
    (p : ℕ → Bool) (s : ℕ) (pending : Bool) (t : Text)
    → p s ≡ false
    → (s == backslash) ≡ false
    → strict p pending t ≡ true
    → strict (λ c. c == s || p c) pending (escape s t) ≡ true
unfolding strict escape
escape-strict p s true [] a b h = h
escape-strict p s false [] a b h = refl
escape-strict p s true (c ∷ cs) a b h = elim (Bool-cases (c == s)) [
  | inl t ↦
      let q : p c ≡ false = rw ((==_iff c s).0 t) a in
      let r : (c == backslash) ≡ false = rw ((==_iff c s).0 t) b in absurd (no_pair _ _ _ r q h)
  | inr t ↦ rw t (
      rw t (
        strict_step (c == backslash) (p c) (strict p false cs) _ h
          (λ k. escape-strict p s false cs a b k)))
]
escape-strict p s false (c ∷ cs) a b h = elim (Bool-cases (c == s)) [
  | inl t ↦
      let q : p c ≡ false = rw ((==_iff c s).0 t) a in
      let r : (c == backslash) ≡ false = rw ((==_iff c s).0 t) b in
      rw t (
        rw r (
          rw t (
            escape-strict p s false cs a b
              (plain_step _ (p c) (strict p true cs) (strict p false cs) r h))))
  | inr t ↦ rw t (
      rw t (
        either_step (c == backslash) (p c) (strict p true cs) (strict p false cs) _ _ h
          (λ k. escape-strict p s true cs a b k) (λ k. escape-strict p s false cs a b k)))
]

strict-escaped :
    (pending : Bool) (t : Text) → strict is_special pending t ≡ true → is_escaped pending t ≡ true
unfolding strict is_escaped
strict-escaped pending [] h = refl
strict-escaped true (c ∷ cs) h = ground (arith, strict-escaped false cs)
strict-escaped false (c ∷ cs) h = ground (arith, strict-escaped true cs, strict-escaped false cs)

escape_all-escaped : (t : Text) → is_escaped false (escape_all t) ≡ true
unfolding escape_all
escape_all-escaped t =
    let a = escape-strict (λ c. false) 124 false _ refl refl (escape-backslash t) in
    let b = escape-strict _ 91 false _ refl refl a in
    let c = escape-strict _ 93 false _ refl refl b in
    let d = escape-strict _ 60 false _ refl refl c in
    strict-escaped false _ (escape-strict _ 62 false _ refl refl d)

is_escaped-prefix :
    (pending : Bool) (front rest : Text)
    → is_escaped pending (front ++ rest) ≡ true
    → is_escaped pending front ≡ true
unfolding is_escaped
is_escaped-prefix pending [] rest h = refl
is_escaped-prefix true (c ∷ cs) rest h = is_escaped-prefix false cs rest h
is_escaped-prefix false (c ∷ cs) rest h =
    ground (arith, is_escaped-prefix true cs rest, is_escaped-prefix false cs rest)

is_escaped-ellipsis :
    (pending : Bool) (front : Text)
    → is_escaped pending front ≡ true
    → is_escaped pending (front ++ (ellipsis ∷ [])) ≡ true
unfolding is_escaped
is_escaped-ellipsis true [] h = refl
is_escaped-ellipsis false [] h = refl
is_escaped-ellipsis true (c ∷ cs) h = is_escaped-ellipsis false cs h
is_escaped-ellipsis false (c ∷ cs) h =
    ground (arith, is_escaped-ellipsis true cs, is_escaped-ellipsis false cs)

-- In a reason, whatever the text, each of the characters | [ ] < > is escaped by a backslash that
-- is not itself escaped, also where the reason was cut.
pub sanitize_reason-escaped : (text : Text) → is_escaped false (sanitize_reason text) ≡ true
unfolding sanitize_reason
sanitize_reason-escaped text =
    cap_reason-keeps (λ t. is_escaped false t ≡ true) (is_escaped-prefix false)
      (is_escaped-ellipsis false) _
      (escape_all-escaped (join_words (split_words (neutralize_fences text))))
