-- ===== src/ReleaseGate/Archive/Bounds.antt =====
-- What the gate reads out of an archive is bounded, and every known kind of archive is recognised.
use osac_test_infra.Prelude.{
  ℕ, ◌+◌, ◌-◌, ◌≤◌, ◌≡◌, ◌↔◌, ◌⊎◌, refl, false, Option, none, some, List, [], ◌∷◌, ◌++◌, arith,
  length, length-append, inl, inr, Option-cases, ◌≢◌,
}
use osac_test_infra.Prelude.Search.{Bytes, starts_with}
use osac_test_infra.ReleaseGate.Archive.{
  Stream, ZipEntry, Codecs, Payload, not_archive, unreadable, unpacked, is_archive, read_bounded,
  zip_members, unpack, one_level, archive_payload, readable, zip_magic, zip_payload,
}

read_bounded-le :
    (reads : Stream) (total budget : ℕ) (chunks out : Bytes)
    → total ≡ length chunks
    → total ≤ budget
    → read_bounded reads total budget chunks ≡ some out
    → length out ≤ budget
unfolding read_bounded
read_bounded-le [] total budget chunks out e h r = ground arith
read_bounded-le (none ∷ reads) total budget chunks out e h r = cc
read_bounded-le (some [] ∷ reads) total budget chunks out e h r = ground arith
read_bounded-le (some (b ∷ bs) ∷ reads) total budget chunks out e h r = ground (
  arith,
  length-append chunks (b ∷ bs),
  read_bounded-le reads (total + length (b ∷ bs)) budget (chunks ++ (b ∷ bs)) out,
)

abbrev pub total_length : List Bytes → ℕ
total_length [] = 0
total_length (m ∷ ms) = length m + total_length ms

-- The members of a zip archive share one budget.
pub zip_members-le :
    (budget : ℕ) (entries : List ZipEntry) (members : List Bytes)
    → zip_members budget entries ≡ some members
    → total_length members ≤ budget
unfolding zip_members
zip_members-le budget [] members e = ground arith
zip_members-le budget (entry ∷ entries) members e =
    elim (Option-cases (read_bounded entry.content 0 budget [])) [
      | inl r ↦ ground arith
      | inr (content, r) ↦ elim (Option-cases (zip_members (budget - length content) entries)) [
        | inl q ↦ ground arith
        | inr (rest, q) ↦ ground (
          arith,
          read_bounded-le entry.content 0 budget [] content refl (omega arith) r,
          zip_members-le (budget - length content) entries rest q,
        )
      ]
    ]

Payload-cases :
    (x : Payload) → ((x ≡ not_archive) ⊎ (x ≡ unreadable)) ⊎ ((p : Bytes) × (x ≡ unpacked p))
Payload-cases not_archive = inl (inl refl)
Payload-cases unreadable = inl (inr refl)
Payload-cases (unpacked p) = inr (p, refl)

readable-ne : (o : Option Bytes) → readable o ≢ not_archive
readable-ne none e = cc
readable-ne (some p) e = cc

zip_payload-ne : (max : ℕ) (o : Option (List ZipEntry)) → zip_payload max o ≢ not_archive
unfolding zip_payload
zip_payload-ne max none e = cc
zip_payload-ne max (some entries) e = ground arith

module _ (codecs : Codecs) (max : ℕ) where
  one_level-ne : (p : Bytes) → one_level codecs max p ≢ not_archive
  unfolding one_level
  one_level-ne p e = ground arith

  unpack-not_archive :
      (raw : Bytes) → (unpack codecs max raw ≡ not_archive) ↔ (is_archive raw ≡ false)
  unfolding unpack is_archive
  unpack-not_archive raw = (
    λ e. ground (
      arith,
      readable-ne (read_bounded (codecs.gunzip raw) 0 max []),
      readable-ne (read_bounded (codecs.bunzip raw) 0 max []),
      readable-ne (read_bounded (codecs.unxz raw) 0 max []),
      zip_payload-ne max (codecs.zip_entries raw),
    ),
    λ h. ground arith,
  )

  one_level-unpacked :
      (payload p : Bytes)
      → one_level codecs max payload ≡ unpacked p
      → (payload ≡ p) × (is_archive p ≡ false)
  unfolding one_level
  one_level-unpacked payload p e = ground arith

  readable-le :
      (reads : Stream) (p : Bytes)
      → readable (read_bounded reads 0 max []) ≡ unpacked p
      → length p ≤ max
  readable-le reads p e = elim (Option-cases (read_bounded reads 0 max [])) [
    | inl r ↦ ground arith
    | inr (out, r) ↦ ground (arith, read_bounded-le reads 0 max [] out refl (omega arith) r)
  ]

  unpack-le :
      (raw p : Bytes)
      → starts_with zip_magic raw ≡ false
      → unpack codecs max raw ≡ unpacked p
      → length p ≤ max
  unfolding unpack
  unpack-le raw p h e = ground (
    arith,
    readable-le (codecs.gunzip raw) p,
    readable-le (codecs.bunzip raw) p,
    readable-le (codecs.unxz raw) p,
  )

  -- A payload that is handed on for searching is no archive itself, and holds at most the limit
  -- of bytes unless it came from a zip.
  pub archive_payload-unpacked :
      (raw p : Bytes)
      → archive_payload codecs max raw ≡ unpacked p
      → (is_archive p ≡ false) × (starts_with zip_magic raw ≡ false → length p ≤ max)
  unfolding archive_payload
  archive_payload-unpacked raw p e = elim (Payload-cases (unpack codecs max raw)) [
    | inl (inl u) ↦ absurd (ground arith)
    | inl (inr u) ↦ absurd (ground arith)
    | inr (q, u) ↦
        let (same, plain) = one_level-unpacked q p (ground arith) in
        (plain, λ h. rw (← same) (unpack-le raw q h u))
  ]

  -- A file passes for plain data exactly if it starts like none of the known kinds of archive.
  pub archive_payload-not_archive :
      (raw : Bytes) → (archive_payload codecs max raw ≡ not_archive) ↔ (is_archive raw ≡ false)
  unfolding archive_payload
  archive_payload-not_archive raw = elim (Payload-cases (unpack codecs max raw)) [
    | inl (inl u) ↦ (λ _. (unpack-not_archive raw).0 u, λ _. ground arith)
    | inl (inr u) ↦ (λ e. absurd (ground arith), λ h. ground (arith, (unpack-not_archive raw).1 h))
    | inr (q, u) ↦ (
      λ e. absurd (ground (arith, one_level-ne q)),
      λ h. ground (arith, (unpack-not_archive raw).1 h),
    )
  ]
