-- ===== src/Redact/Tree/Wiped.antt =====
-- That `redact_tree` of .github/scripts/redact.py wipes the secrets: the spans of a file.
use osac_test_infra.Prelude.{
  ℕ, ◌+◌, ◌≤◌, ◌<◌, Bool, true, false, some, List, [], ◌∷◌, ◌++◌, ◌≡◌, refl, sym, ap, arith,
  Bool-cases, inl, inr, is_empty, Memᴰ, ◌⊎◌, length, leb, if◌then◌else◌,
}
use mathlib.Core.Path.{subst}
use mathlib.Core.List.Memᴰ.{append_left, append_right}
use osac_test_infra.Prelude.Search.{Bytes}
use osac_test_infra.Text.{lower}
use osac_test_infra.Redact.Ranges.{Range, apply_ranges, covers}
use osac_test_infra.Redact.Ranges.Merge.{AreWithin}
use osac_test_infra.Redact.Ranges.Render.{render, apply_ranges-render}
use osac_test_infra.Redact.Secrets.{Expressions, Decoders, Finding, collect_secrets}
use osac_test_infra.Redact.Secrets.Nonempty.{collect_secrets-HaveBytes}
use osac_test_infra.Redact.Spans.{
  encoded_fields_containing_secrets, embedded_b64_token_ranges, embedded_hex_token_ranges,
  percent_encoded_secret_ranges, plaintext_secret_ranges, hex_encoded_secret_ranges,
  findings_need_jwt_wipe, occurrences, hexlify,
}
use osac_test_infra.Redact.Spans.Occurrences.{Meets, occurrences-Meets}
use osac_test_infra.Redact.Spans.Within.{
  AreSpans, HaveBytes, encoded_fields-AreWithin, embedded_b64-AreWithin, embedded_hex-AreWithin,
  percent_encoded-AreWithin, plaintext-AreWithin, hex_encoded-AreWithin,
}
use osac_test_infra.Redact.Columns.{location_ranges, verified_decoded_column_ranges}
use osac_test_infra.Redact.Columns.Within.{
  AreWithin-append, location_ranges-AreWithin, verified_decoded_column_ranges-AreWithin,
}
use osac_test_infra.Redact.Tree.{Pending, file_ranges}

choice-AreWithin :
    (limit : ℕ) (b : Bool) (rs : List Range)
    → AreWithin limit rs
    → (AreWithin limit (if b then rs else [])) × (AreWithin limit (if b then [] else rs))
unfolding AreWithin
choice-AreWithin limit true rs h = (h, tt)
choice-AreWithin limit false rs h = (tt, h)

module _ (re : Expressions) (d : Decoders) (spans : AreSpans re) where
  file_ranges-AreWithin :
      (findings : List Finding) (secrets : List Bytes) (pending : Pending) (content : Bytes)
      → HaveBytes secrets
      → AreWithin (length content) (file_ranges re d findings secrets pending content)
  unfolding file_ranges
  file_ranges-AreWithin findings secrets pending content h =
      let limit = length content in
      let quoted = encoded_fields_containing_secrets re d content secrets in
      let embedded = embedded_b64_token_ranges re d content secrets quoted in
      let hex = embedded_hex_token_ranges re d content secrets (quoted ++ embedded) in
      let percent = percent_encoded_secret_ranges re d content secrets in
      let plain = plaintext_secret_ranges content secrets in
      let hexed = hex_encoded_secret_ranges content secrets in
      let w5 =
        AreWithin-append limit plain hexed (plaintext-AreWithin content secrets h)
          (hex_encoded-AreWithin content secrets) in
      let w4 =
        AreWithin-append limit percent (plain ++ hexed)
          (percent_encoded-AreWithin re d spans content secrets) w5 in
      let w3 =
        AreWithin-append limit hex (percent ++ (plain ++ hexed))
          (embedded_hex-AreWithin re d spans content secrets (quoted ++ embedded)) w4 in
      let w2 =
        AreWithin-append limit embedded (hex ++ (percent ++ (plain ++ hexed)))
          (embedded_b64-AreWithin re d spans content secrets quoted) w3 in
      let whole = quoted ++ (embedded ++ (hex ++ (percent ++ (plain ++ hexed)))) in
      let w1 =
        AreWithin-append limit quoted (embedded ++ (hex ++ (percent ++ (plain ++ hexed))))
          (encoded_fields-AreWithin re d spans content secrets) w2 in
      let jwts = if findings_need_jwt_wipe re findings secrets then re.jwt content else [] in
      let columns = location_ranges content pending.cols in
      let verified = verified_decoded_column_ranges re d content pending.decoded in
      AreWithin-append limit (if is_empty secrets then [] else whole)
        (jwts ++ (columns ++ verified)) ((choice-AreWithin limit (is_empty secrets) whole w1).1)
        (AreWithin-append limit jwts (columns ++ verified)
          ((choice-AreWithin limit (findings_need_jwt_wipe re findings secrets) (re.jwt content)
            (spans.compact content)).0)
          (AreWithin-append limit columns verified (location_ranges-AreWithin content pending.cols)
            (verified_decoded_column_ranges-AreWithin re d content pending.decoded)))

covers-head : (rs : List Range) (r : Range) (i : ℕ) → r.0 ≤ i → i < r.1 → covers (r ∷ rs) i ≡ true
unfolding covers
covers-head rs r i a b = ground arith

covers-Memᴰ :
    (rs : List Range) (r : Range) (i : ℕ) → Memᴰ r rs → r.0 ≤ i → i < r.1 → covers rs i ≡ true
unfolding covers
covers-Memᴰ [] r i m a b = elim m [ ]
covers-Memᴰ (q ∷ rs) r i (Memᴰ.head e) a b =
    subst (λ t. covers (t ∷ rs) i ≡ true) e (covers-head rs r i a b)
covers-Memᴰ (q ∷ rs) r i (Memᴰ.tail m) a b = ground (arith, covers-Memᴰ rs r i m a b)

Memᴰ-AreWithin :
    (limit : ℕ) (rs : List Range) (r : Range) → Memᴰ r rs → AreWithin limit rs → r.0 < r.1
unfolding AreWithin
Memᴰ-AreWithin limit [] r m w = elim m [ ]
Memᴰ-AreWithin limit (q ∷ rs) r (Memᴰ.head e) (h, w) =
    subst (λ (t : Range). t.0 < t.1) (sym e) (h.0)
Memᴰ-AreWithin limit (q ∷ rs) r (Memᴰ.tail m) (h, w) = Memᴰ-AreWithin limit rs r m w

plaintext-Memᴰ :
    (content : Bytes) (secrets : List Bytes) (s : Bytes) (r : Range)
    → Memᴰ s secrets
    → Memᴰ r (occurrences s content)
    → Memᴰ r (plaintext_secret_ranges content secrets)
unfolding plaintext_secret_ranges
plaintext-Memᴰ content [] s r m n = elim m [ ]
plaintext-Memᴰ content (q ∷ secrets) s r (Memᴰ.head e) n =
    append_left (plaintext_secret_ranges content secrets)
      (subst (λ t. Memᴰ r (occurrences t content)) e n)
plaintext-Memᴰ content (q ∷ secrets) s r (Memᴰ.tail m) n =
    append_right (occurrences q content) (plaintext-Memᴰ content secrets s r m n)

hex-Memᴰ :
    (content : Bytes) (secrets : List Bytes) (s : Bytes) (r : Range)
    → Memᴰ s secrets
    → 0 < length s
    → Memᴰ r (occurrences (hexlify s) (lower content))
    → Memᴰ r (hex_encoded_secret_ranges content secrets)
unfolding hex_encoded_secret_ranges
hex-Memᴰ content [] s r m h n = elim m [ ]
hex-Memᴰ content ([] ∷ secrets) s r (Memᴰ.head e) h n = absurd (omega (arith, ap length e))
hex-Memᴰ content ((c ∷ q) ∷ secrets) s r (Memᴰ.head e) h n =
    append_left (hex_encoded_secret_ranges content secrets)
      (subst (λ t. Memᴰ r (occurrences (hexlify t) (lower content))) e n)
hex-Memᴰ content ([] ∷ secrets) s r (Memᴰ.tail m) h n = hex-Memᴰ content secrets s r m h n
hex-Memᴰ content ((c ∷ q) ∷ secrets) s r (Memᴰ.tail m) h n =
    append_right (occurrences (hexlify (c ∷ q)) (lower content))
      (hex-Memᴰ content secrets s r m h n)

Memᴰ-HaveBytes :
    (secrets : List Bytes) (s : Bytes) → Memᴰ s secrets → HaveBytes secrets → 0 < length s
unfolding HaveBytes
Memᴰ-HaveBytes [] s m h = elim m [ ]
Memᴰ-HaveBytes (q ∷ secrets) s (Memᴰ.head e) (a, h) = subst (λ t. 0 < length t) (sym e) a
Memᴰ-HaveBytes (q ∷ secrets) s (Memᴰ.tail m) (a, h) = Memᴰ-HaveBytes secrets s m h

-- The secret stands behind `before` in the content, as it is or as hexadecimal of either case.
unfoldable pub IsShown : Bytes → Bytes → Bytes → Bytes → Bytes → Type 0
IsShown s form content before after =
    ((form ≡ s) × (content ≡ before ++ (form ++ after)))
    ⊎ ((form ≡ hexlify s) × (lower content ≡ before ++ (form ++ after)))

length-hexlify : (s : Bytes) → 0 < length s → 0 < length (hexlify s)
unfolding hexlify
length-hexlify [] h = absurd (omega arith)
length-hexlify (c ∷ s) h = omega arith

-- The spans meet the form.
shown-Meets :
    (content : Bytes) (secrets : List Bytes) (s form before after : Bytes)
    → HaveBytes secrets
    → Memᴰ s secrets
    → IsShown s form content before after
    → (r : Range) × Memᴰ r
        (plaintext_secret_ranges content secrets ++ hex_encoded_secret_ranges content secrets)
      × Meets (length before) (length form) r
      × (0 < length form)
unfolding IsShown
shown-Meets content secrets s form before after h m (inl (e, q)) =
    let long = subst (λ t. 0 < length t) (sym e) (Memᴰ-HaveBytes secrets s m h) in
    let (r, n, k) = occurrences-Meets form before after long in
    let n' =
      subst (λ t. Memᴰ r (occurrences t content)) e
        (subst (λ t. Memᴰ r (occurrences form t)) (sym q) n) in
    (
      r,
      append_left (hex_encoded_secret_ranges content secrets)
          (plaintext-Memᴰ content secrets s r m n'),
      k,
      long,
    )
shown-Meets content secrets s form before after h m (inr (e, q)) =
    let full = Memᴰ-HaveBytes secrets s m h in
    let long = subst (λ t. 0 < length t) (sym e) (length-hexlify s full) in
    let (r, n, k) = occurrences-Meets form before after long in
    let n' =
      subst (λ t. Memᴰ r (occurrences t (lower content))) e
        (subst (λ t. Memᴰ r (occurrences form t)) (sym q) n) in
    (
      r,
      append_right (plaintext_secret_ranges content secrets)
          (hex-Memᴰ content secrets s r m full n'),
      k,
      long,
    )

choice-Memᴰ :
    (b : Bool) (r : Range) (rs : List Range) → b ≡ false → Memᴰ r rs → Memᴰ r (if b then [] else rs)
choice-Memᴰ true r rs e m = absurd (cc)
choice-Memᴰ false r rs e m = m

has_member : (secrets : List Bytes) (s : Bytes) → Memᴰ s secrets → is_empty secrets ≡ false
has_member [] s m = elim m [ ]
has_member (q ∷ secrets) s m = refl

module _ (re : Expressions) (d : Decoders) where
  file_ranges-Memᴰ :
      (findings : List Finding) (secrets : List Bytes) (pending : Pending) (content : Bytes)
      (r : Range)
      → is_empty secrets ≡ false
      → Memᴰ r
          (plaintext_secret_ranges content secrets ++ hex_encoded_secret_ranges content secrets)
      → Memᴰ r (file_ranges re d findings secrets pending content)
  unfolding file_ranges
  file_ranges-Memᴰ findings secrets pending content r e m =
      let quoted = encoded_fields_containing_secrets re d content secrets in
      let embedded = embedded_b64_token_ranges re d content secrets quoted in
      let hex = embedded_hex_token_ranges re d content secrets (quoted ++ embedded) in
      let percent = percent_encoded_secret_ranges re d content secrets in
      append_left
        ((if findings_need_jwt_wipe re findings secrets then re.jwt content else [])
          ++ (location_ranges content pending.cols
              ++ verified_decoded_column_ranges re d content pending.decoded))
        (choice-Memᴰ (is_empty secrets) r
          (quoted
            ++ (embedded
                ++ (hex
                    ++ (percent
                        ++ (plaintext_secret_ranges content secrets
                            ++ hex_encoded_secret_ranges content secrets)))))
          e
          (append_right quoted (append_right embedded (append_right hex (append_right percent m)))))

  -- Where a collected secret stands in a file, as it is or in hexadecimal of either case, at least one
  -- of its bytes is in a span of the file, and what is written is the reference rendering of the
  -- file by its spans; the spans of the regular expressions hold bytes of the content.
  pub file_ranges-render :
      (spans : AreSpans re) (findings : List Finding) (secrets : List Bytes)
      → collect_secrets re findings ≡ some secrets
      → (pending : Pending) (content s form before after : Bytes) → Memᴰ s secrets
      → IsShown s form content before after
      → (apply_ranges content (file_ranges re d findings secrets pending content)
          ≡ render (covers (file_ranges re d findings secrets pending content)) 0 false content)
        × ((i : ℕ) × (length before ≤ i)
            × (i < length before + length form)
            × (covers (file_ranges re d findings secrets pending content) i ≡ true))
  unfolding Meets HaveBytes
  file_ranges-render spans findings secrets e pending content s form before after m shown =
      let full : HaveBytes secrets = collect_secrets-HaveBytes re findings secrets e in
      let ranges = file_ranges re d findings secrets pending content in
      let within = file_ranges-AreWithin re d spans findings secrets pending content full in
      let (r, n, (a, b), long) = shown-Meets content secrets s form before after full m shown in
      let there = file_ranges-Memᴰ findings secrets pending content r (has_member secrets s m) n in
      let wide = Memᴰ-AreWithin (length content) ranges r there within in
      (
        apply_ranges-render content ranges within,
        elim (Bool-cases (leb (length before) r.0)) [
          | inl k ↦
              (r.0, ground arith, ground arith, covers-Memᴰ ranges r r.0 there (omega arith) wide)
          | inr k ↦ (
            length before,
            omega arith,
            omega arith,
            covers-Memᴰ ranges r (length before) there (ground arith) b,
          )
        ],
      )
