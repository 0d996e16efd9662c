-- ===== src/ReleaseGate/Variants/Listed.antt =====
-- `variants` lists the value itself and all six of its base64 middles, though it drops repeats.
use osac_test_infra.Prelude.{
  ℕ, zero, suc, ◌<◌, ◌≡◌, sym, true, List, [], ◌∷◌, ◌++◌, arith, All, All-append_left,
  All-append_right, any, Bool-cases, inl, inr,
}
use mathlib.Core.Path.{subst}
use osac_test_infra.Prelude.Search.{Bytes, bytes_eq, bytes_eq_sound}
use osac_test_infra.ReleaseGate.Base64.{Alphabet, standard, url_safe}
use osac_test_infra.ReleaseGate.Variants.{
  Variant, middle, add_base64, add_pad, text_variants, variants,
}

module _ (P : Bytes → Type 0) (needle : Bytes) where
  abbrev OfPattern : Variant → Type 0
  OfPattern v = P v.pattern

  seen_before : (m : Bytes) (seen : List Bytes) → any (bytes_eq m) seen ≡ true → All P seen → P m
  seen_before m [] h ps = cc
  seen_before m (s ∷ seen) h ps = elim (Bool-cases (bytes_eq m s)) [
    | inl same ↦ subst P (sym (bytes_eq_sound m s same)) ps.0
    | inr other ↦ seen_before m seen (ground arith) ps.1
  ]

  -- After a round what was seen is still seen, and the middle of this round is.
  add_base64-keeps :
      (pad : ℕ) (al : Alphabet) (seen : List Bytes) (found : List Variant)
      → let st = add_base64 needle pad al (seen, found) in
        All OfPattern st.1
        → All OfPattern found × (All P seen → All P st.0 × P (middle al pad needle))
  unfolding add_base64
  add_base64-keeps pad al seen found all_of =
      let m = middle al pad needle in
      elim (Bool-cases (any (bytes_eq m) seen)) [
        | inl old ↦
            let of_found : All OfPattern found = rw old at all_of in
            (of_found, λ ps. rw old (ps, seen_before m seen old ps))
        | inr new ↦
            let of_both : All OfPattern
                (found ++ (record { form = _; pattern = m; is_b64 = true } ∷ [])) =
              rw new at all_of in
            let p : P m = (All-append_right OfPattern found _ of_both).0 in
            (All-append_left OfPattern found _ of_both, λ ps. rw new ((p, ps), p))
      ]

  add_pad-keeps :
      (pad : ℕ) (seen : List Bytes) (found : List Variant)
      → let st = add_pad needle pad (seen, found) in
        All OfPattern st.1
        → All OfPattern found
          × (All P seen → All P st.0 × ((al : Alphabet) → P (middle al pad needle)))
  unfolding add_pad
  add_pad-keeps pad seen found all_of =
      let (seen', found') = add_base64 needle pad standard (seen, found) in
      let (of_found', more) = add_base64-keeps pad url_safe seen' found' all_of in
      let (of_found, first) = add_base64-keeps pad standard seen found of_found' in
      (
        of_found,
        λ ps.
            let (ps', p) = first ps in
            let (ps'', q) = more ps' in (ps'', elim [ standard ↦ p | url_safe ↦ q ]),
      )

  -- What holds of every pattern of `variants` holds of the value and of its middles.
  pub All-variants :
      All OfPattern (variants needle)
      → P needle × ((al : Alphabet) (pad : ℕ) → pad < 3 → P (middle al pad needle))
  unfolding variants text_variants
  All-variants all_of =
      let st0 : List Bytes × List Variant = ([], text_variants needle) in
      let st1 = add_pad needle 0 st0 in
      let st2 = add_pad needle 1 st1 in
      let (of2, third) = add_pad-keeps 2 st2.0 st2.1 all_of in
      let (of1, second) = add_pad-keeps 1 st1.0 st1.1 of2 in
      let (of0, first) = add_pad-keeps 0 st0.0 st0.1 of1 in
      let (ps1, p0) = first tt in
      let (ps2, p1) = second ps1 in let (ps3, p2) = third ps2 in (of0.0, by_pad p0 p1 p2)
    where
      by_pad :
          ((al : Alphabet) → P (middle al 0 needle))
          → ((al : Alphabet) → P (middle al 1 needle))
          → ((al : Alphabet) → P (middle al 2 needle))
          → (al : Alphabet) (pad : ℕ) → pad < 3
          → P (middle al pad needle)
      by_pad p0 p1 p2 al zero h = p0 al
      by_pad p0 p1 p2 al (suc zero) h = p1 al
      by_pad p0 p1 p2 al (suc (suc zero)) h = p2 al
      by_pad p0 p1 p2 al (suc (suc (suc n))) h = absurd (omega arith)
