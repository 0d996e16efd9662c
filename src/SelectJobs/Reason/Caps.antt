-- ===== src/SelectJobs/Reason/Caps.antt =====
-- The cap on a reason of .github/scripts/select-jobs.py: the text is cut and stripped, so that what
-- is left is the beginning of the text, perhaps with an ellipsis.
use osac_test_infra.Prelude.{
  ℕ, zero, suc, ◌+◌, ◌≤◌, [], ◌∷◌, ◌++◌, ◌≡◌, refl, ap, length, take, is_empty, ltb, arith,
  Bool-cases, inl, inr, append_assoc, ◌∙◌, length-append,
}
use osac_test_infra.Text.{Text, is_space, split_words}
use osac_test_infra.SelectJobs.Reason.{
  max_reason_chars, ellipsis, right_strip, cap_reason, sanitize_reason, escape_all, join_words,
  neutralize_fences,
}
use mathlib.Core.Path.{subst}

-- What is stripped stood at the end.
right_strip-prefix : (t : Text) → (rest : Text) × (t ≡ right_strip t ++ rest)
unfolding right_strip
right_strip-prefix [] = ([], refl)
right_strip-prefix (c ∷ cs) =
    let (rest, e) = right_strip-prefix cs in
    elim (Bool-cases (is_empty (right_strip cs))) [
      | inl h ↦ elim (Bool-cases (is_space c)) [
        | inl s ↦ (c ∷ cs, rw h (rw s refl))
        | inr s ↦ (cs, rw h (rw s refl))
      ]
      | inr h ↦ (rest, rw h (ap (λ x. c ∷ x) e))
    ]

take-prefix : (n : ℕ) (t : Text) → (rest : Text) × (t ≡ take n t ++ rest)
take-prefix zero t = (t, refl)
take-prefix (suc n) [] = ([], refl)
take-prefix (suc n) (c ∷ cs) = let (rest, e) = take-prefix n cs in (rest, ap (λ x. c ∷ x) e)

-- What is kept of a text that is too long is its beginning.
cut-prefix : (t : Text) → (rest : Text) × (t ≡ right_strip (take 99 t) ++ rest)
cut-prefix t =
    let (rest, e) = take-prefix 99 t in
    let (more, f) = right_strip-prefix (take 99 t) in
    (more ++ rest, e ∙ ap (λ x. x ++ rest) f ∙ append_assoc (right_strip (take 99 t)) more rest)

length-take_le : (n : ℕ) (t : Text) → length (take n t) ≤ n
length-take_le zero t = omega arith
length-take_le (suc n) [] = omega arith
length-take_le (suc n) (c ∷ cs) = omega (arith, length-take_le n cs)

-- A property of a text that its beginnings share, and that an ellipsis does not spoil, holds of the
-- capped text.
pub cap_reason-keeps :
    (P : Text → Type 0)
    → ((front rest : Text) → P (front ++ rest) → P front)
    → ((front : Text) → P front → P (front ++ (ellipsis ∷ [])))
    → (t : Text) → P t
    → P (cap_reason t)
unfolding cap_reason
cap_reason-keeps P prefix append t p = elim (Bool-cases (ltb max_reason_chars (length t))) [
  | inl h ↦ let (rest, e) = cut-prefix t in rw h (append _ (prefix _ rest (subst P e p)))
  | inr h ↦ rw h p
]

length-cut : (t : Text) → length (right_strip (take 99 t)) ≤ 99
length-cut t =
    let (more, f) = right_strip-prefix (take 99 t) in
    let e : length (take 99 t) ≡ length (right_strip (take 99 t)) + length more =
      ap length f ∙ length-append _ more in
    omega (arith, e, length-take_le 99 t)

cap_reason-le : (t : Text) → length (cap_reason t) ≤ max_reason_chars
unfolding cap_reason
cap_reason-le t = elim (Bool-cases (ltb max_reason_chars (length t))) [
  | inl h ↦
      rw h (omega (arith, length-cut t, length-append (right_strip (take 99 t)) (ellipsis ∷ [])))
  | inr h ↦ rw h (ground arith)
]

-- A reason has at most a hundred characters.
pub sanitize_reason-le : (text : Text) → length (sanitize_reason text) ≤ max_reason_chars
unfolding sanitize_reason
sanitize_reason-le text =
    cap_reason-le (escape_all (join_words (split_words (neutralize_fences text))))
