-- ===== src/SelectJobs/Reason/Fences.antt =====
-- The backticks in a reason of .github/scripts/select-jobs.py: three in a row, which could open or
-- close a fence, never come out.
use mathlib.Core.Path.{subst}
use osac_test_infra.Prelude.{
  ℕ, zero, suc, Bool, true, false, List, [], ◌∷◌, ◌++◌, ◌≡◌, refl, sym, ◌&&◌, ◌==◌, ltb, ◌≤◌, codes,
  if◌then◌else◌, arith, Bool-cases, inl, inr, All, append_assoc, is_empty, ==_iff,
}
use osac_test_infra.Prelude.Search.{contains, starts_with}
use osac_test_infra.Text.{Text, split_words, split_scan, is_space}
use osac_test_infra.SelectJobs.Reason.{
  tick, backslash, ellipsis, join_ticks, end_run, split_ticks, escape, escape_all, join_words,
  neutralize_fences, sanitize_reason,
}
use osac_test_infra.SelectJobs.Reason.Caps.{cap_reason-keeps}

-- Behind `n` backticks, no run in the text gets to three.
is_free : ℕ → Text → Bool
is_free n [] = true
is_free n (c ∷ cs) =
    let more = is_free (suc n) cs in
    let rest = is_free 0 cs in if c == tick then ltb n 2 && more else rest

is_free-below : (m n : ℕ) (t : Text) → m ≤ n → is_free n t ≡ true → is_free m t ≡ true
unfolding is_free
is_free-below m n [] l h = refl
is_free-below m n (c ∷ cs) l h = ground (arith, is_free-below (suc m) (suc n) cs)

is_free-prefix : (n : ℕ) (a b : Text) → is_free n (a ++ b) ≡ true → is_free n a ≡ true
unfolding is_free
is_free-prefix n [] b h = refl
is_free-prefix n (c ∷ cs) b h = ground (arith, is_free-prefix (suc n) cs b, is_free-prefix 0 cs b)

is_free-suffix : (n : ℕ) (a b : Text) → is_free n (a ++ b) ≡ true → is_free 0 b ≡ true
unfolding is_free
is_free-suffix n [] b h = is_free-below 0 n b (omega arith) h
is_free-suffix n (c ∷ cs) b h = ground (arith, is_free-suffix (suc n) cs b, is_free-suffix 0 cs b)

-- Two free texts with another character between them.
is_free-between :
    (n c : ℕ) (a b : Text)
    → (c == tick) ≡ false
    → is_free n a ≡ true
    → is_free 0 b ≡ true
    → is_free n (a ++ (c ∷ b)) ≡ true
unfolding is_free
is_free-between n c [] b e h k = rw e k
is_free-between n c (x ∷ xs) b e h k =
    ground (arith, is_free-between (suc n) c xs b e, is_free-between 0 c xs b e)

join_ticks-free : (n : ℕ) → is_free 0 (join_ticks (suc n)) ≡ true
unfolding is_free join_ticks
join_ticks-free zero = refl
join_ticks-free (suc n) = join_ticks-free n

end_run-free : (n : ℕ) → is_free 0 (end_run n) ≡ true
unfolding is_free end_run
end_run-free zero = refl
end_run-free (suc zero) = refl
end_run-free (suc (suc zero)) = refl
end_run-free (suc (suc (suc n))) =
    let e : ltb (suc (suc (suc n))) 3 ≡ false = ground arith in rw e (join_ticks-free (suc (suc n)))

split_ticks-free : (n : ℕ) (t : Text) → is_free 0 (split_ticks n t) ≡ true
unfolding is_free split_ticks
split_ticks-free n [] = end_run-free n
split_ticks-free n (c ∷ cs) = elim (Bool-cases (c == tick)) [
  | inl e ↦ rw e (split_ticks-free (suc n) cs)
  | inr e ↦ rw e (is_free-between 0 c (end_run n) _ e (end_run-free n) (split_ticks-free 0 cs))
]

IsFree : Text → Type 0
IsFree t = is_free 0 t ≡ true

split_scan-IsFree : (word t : Text) → is_free 0 (word ++ t) ≡ true → All IsFree (split_scan word t)
unfolding split_scan IsFree
split_scan-IsFree word [] h = elim (Bool-cases (is_empty word)) [
  | inl e ↦ rw e tt
  | inr e ↦ rw e (is_free-prefix 0 word [] h, tt)
]
split_scan-IsFree word (c ∷ cs) h =
    let joined : is_free 0 ((word ++ (c ∷ [])) ++ cs) ≡ true =
      subst (λ x. is_free 0 x ≡ true) (sym (append_assoc word (c ∷ []) cs)) h in
    let rest = is_free-suffix 0 (word ++ (c ∷ [])) cs joined in
    elim (Bool-cases (is_space c)) [
      | inr e ↦ rw e (split_scan-IsFree (word ++ (c ∷ [])) cs joined)
      | inl e ↦ elim (Bool-cases (is_empty word)) [
        | inl f ↦ rw e (rw f (split_scan-IsFree [] cs rest))
        | inr f ↦ rw e (rw f (is_free-prefix 0 word _ h, split_scan-IsFree [] cs rest))
      ]
    ]

join_words-IsFree : (ws : List Text) → All IsFree ws → is_free 0 (join_words ws) ≡ true
unfolding join_words IsFree is_free
join_words-IsFree [] p = refl
join_words-IsFree (w ∷ []) p = p.0
join_words-IsFree (w ∷ v ∷ ws) p =
    is_free-between 0 32 w _ refl p.0 (join_words-IsFree (v ∷ ws) p.1)

escape-free :
    (s n : ℕ) (t : Text) → (s == tick) ≡ false → is_free n t ≡ true → is_free n (escape s t) ≡ true
unfolding is_free escape
escape-free s n [] e h = refl
escape-free s n (c ∷ cs) e h = elim (Bool-cases (c == s)) [
  | inl t ↦
      let r : (c == tick) ≡ false = rw ((==_iff c s).0 t) e in
      rw t (rw r (escape-free s 0 cs e (is_free-suffix n (c ∷ []) cs h)))
  | inr t ↦ rw t (ground (arith, escape-free s (suc n) cs e, escape-free s 0 cs e))
]

free-starts : (t : Text) → is_free 0 t ≡ true → starts_with (tick ∷ tick ∷ tick ∷ []) t ≡ false
unfolding is_free starts_with
free-starts [] h = refl
free-starts (a ∷ []) h = ground arith
free-starts (a ∷ b ∷ []) h = ground arith
free-starts (a ∷ b ∷ c ∷ cs) h = ground arith

free-contains : (t : Text) → is_free 0 t ≡ true → contains (tick ∷ tick ∷ tick ∷ []) t ≡ false
unfolding contains
free-contains [] h = refl
free-contains (c ∷ cs) h =
    rw (free-starts (c ∷ cs) h) (free-contains cs (is_free-suffix 0 (c ∷ []) cs h))

is_free-ellipsis :
    (front : Text) → is_free 0 front ≡ true → is_free 0 (front ++ (ellipsis ∷ [])) ≡ true
unfolding end_run
is_free-ellipsis front h = is_free-between 0 ellipsis front [] refl h (end_run-free 0)

escape_all-free : (t : Text) → is_free 0 t ≡ true → is_free 0 (escape_all t) ≡ true
unfolding escape_all
escape_all-free t h = escape-free 62 0 _ refl (
    escape-free 60 0 _ refl (
      escape-free 93 0 _ refl
        (escape-free 91 0 _ refl (escape-free 124 0 _ refl (escape-free backslash 0 t refl h)))))

-- No reason holds three backticks in a row, whatever the text.
pub sanitize_reason-no_fence : (text : Text) → contains (codes "```") (sanitize_reason text) ≡ false
unfolding sanitize_reason neutralize_fences split_words IsFree
sanitize_reason-no_fence text = free-contains _ (
    cap_reason-keeps IsFree (is_free-prefix 0) is_free-ellipsis _
      (escape_all-free _ (join_words-IsFree _ (split_scan-IsFree [] _ (split_ticks-free 0 text)))))

-- A text whose fences are neutralized has no three backticks in a row.
pub neutralize_fences-no_fence :
    (text : Text) → contains (codes "```") (neutralize_fences text) ≡ false
unfolding neutralize_fences
neutralize_fences-no_fence text = free-contains _ (split_ticks-free 0 text)
