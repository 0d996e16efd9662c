-- ===== src/SelectJobs/Reason/Lines.antt =====
-- The white space in a reason of .github/scripts/select-jobs.py: a reason is one line.
use osac_test_infra.Prelude.{
  ℕ, Bool, true, false, not, List, [], ◌∷◌, ◌++◌, ◌≡◌, refl, ◌&&◌, ◌||◌, ◌==◌, arith, Bool-cases,
  inl, inr, All, is_empty,
}
use osac_test_infra.Text.{Text, split_words, split_scan, is_space}
use osac_test_infra.SelectJobs.Reason.{
  ellipsis, escape, escape_all, join_words, neutralize_fences, sanitize_reason,
}
use osac_test_infra.SelectJobs.Reason.Caps.{cap_reason-keeps}

-- The only white space is the space itself: no line break and no tabulator.
unfoldable pub is_line : Text → Bool
is_line [] = true
is_line (c ∷ cs) = (not (is_space c) || c == 32) && is_line cs

is_line-append : (a b : Text) → is_line a ≡ true → is_line b ≡ true → is_line (a ++ b) ≡ true
unfolding is_line
is_line-append [] b h k = k
is_line-append (c ∷ cs) b h k = ground (arith, is_line-append cs b)

is_line-prefix : (a b : Text) → is_line (a ++ b) ≡ true → is_line a ≡ true
unfolding is_line
is_line-prefix [] b h = refl
is_line-prefix (c ∷ cs) b h = ground (arith, is_line-prefix cs b)

IsLine : Text → Type 0
IsLine t = is_line t ≡ true

no_space : (c : ℕ) → is_space c ≡ false → is_line (c ∷ []) ≡ true
unfolding is_line
no_space c e = rw e refl

split_scan-IsLine : (word t : Text) → is_line word ≡ true → All IsLine (split_scan word t)
unfolding split_scan IsLine is_line
split_scan-IsLine word [] h = elim (Bool-cases (is_empty word)) [
  | inl e ↦ rw e tt
  | inr e ↦ rw e (h, tt)
]
split_scan-IsLine word (c ∷ cs) h = elim (Bool-cases (is_space c)) [
  | inr e ↦
      rw e (split_scan-IsLine (word ++ (c ∷ [])) cs (is_line-append word (c ∷ []) h (no_space c e)))
  | inl e ↦ elim (Bool-cases (is_empty word)) [
    | inl f ↦ rw e (rw f (split_scan-IsLine [] cs refl))
    | inr f ↦ rw e (rw f (h, split_scan-IsLine [] cs refl))
  ]
]

join_words-IsLine : (ws : List Text) → All IsLine ws → is_line (join_words ws) ≡ true
unfolding join_words IsLine is_line is_space
join_words-IsLine [] p = refl
join_words-IsLine (w ∷ []) p = p.0
join_words-IsLine (w ∷ v ∷ ws) p = is_line-append w _ p.0 (join_words-IsLine (v ∷ ws) p.1)

backslash_line : (t : Text) → is_line t ≡ true → is_line (92 ∷ t) ≡ true
unfolding is_line is_space
backslash_line t h = h

escape-line : (s : ℕ) (t : Text) → is_line t ≡ true → is_line (escape s t) ≡ true
unfolding is_line escape
escape-line s [] h = refl
escape-line s (c ∷ cs) h = elim (Bool-cases (c == s)) [
  | inl t ↦ rw t (backslash_line (c ∷ escape s cs) (ground (arith, escape-line s cs)))
  | inr t ↦ rw t (ground (arith, escape-line s cs))
]

escape_all-line : (t : Text) → is_line t ≡ true → is_line (escape_all t) ≡ true
unfolding escape_all
escape_all-line t h =
    escape-line 62 _ (
      escape-line 60 _
        (escape-line 93 _ (escape-line 91 _ (escape-line 124 _ (escape-line _ t h)))))

is_line-ellipsis : (front : Text) → is_line front ≡ true → is_line (front ++ (ellipsis ∷ [])) ≡ true
unfolding is_line is_space
is_line-ellipsis front h = is_line-append front (ellipsis ∷ []) h refl

-- A reason is one line, whatever the text: its only white space is the space itself.
pub sanitize_reason-line : (text : Text) → is_line (sanitize_reason text) ≡ true
unfolding sanitize_reason split_words is_line IsLine
sanitize_reason-line text =
    cap_reason-keeps IsLine is_line-prefix is_line-ellipsis
      (escape_all (join_words (split_scan [] (neutralize_fences text))))
      (escape_all-line (join_words (split_scan [] (neutralize_fences text))) (
        join_words-IsLine (split_scan [] (neutralize_fences text))
          (split_scan-IsLine [] (neutralize_fences text) refl)))
