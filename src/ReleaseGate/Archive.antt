-- ===== src/ReleaseGate/Archive.antt =====
-- Looking into archives: `_is_archive`, `_tar_holds_archive`, `_archive_payload`, `_read_bounded`
-- and `_unpack` of .github/scripts/release_gate.py. The decompressors are a parameter.
pub mod Bounds
use osac_test_infra.Prelude.{
  ℕ, zero, suc, ◌+◌, ◌-◌, Bool, true, false, not, Option, none, some, List, [], ◌∷◌, ◌++◌, ltb, leb,
  ◌==◌, ◌&&◌, ◌||◌, if◌then◌else◌, codes, take, drop, length, any,
}
use osac_test_infra.Prelude.Search.{Bytes, starts_with, bytes_eq}

-- The reads of a stream, in their order; `none` is one that raises. After the last the stream is
-- at its end.
abbrev pub Stream : Type 0
Stream = List (Option Bytes)

pub record ZipEntry : Type 0 where
  pub compress_type : ℕ
  pub content : Stream

-- Python's `gzip`, `bz2`, `lzma`, `zipfile` and `tarfile`. `none` stands for an exception; a tar
-- member that is a regular file shows its first eight bytes.
pub record Codecs : Type 0 where
  pub gunzip : Bytes → Stream
  pub bunzip : Bytes → Stream
  pub unxz : Bytes → Stream
  pub zip_entries : Bytes → Option (List ZipEntry)
  pub tar_members : Bytes → Option (List (Option Bytes))

-- What an archive holds; `unreadable` is the source's `False`, `not_archive` its `None`.
pub data Payload : Type 0 where
  not_archive unreadable : Payload
  unpacked : Bytes → Payload

abbrev pub gzip_magic : Bytes
gzip_magic = 0x1f ∷ 0x8b ∷ []

abbrev pub bzip_magic : Bytes
bzip_magic = 66 ∷ 90 ∷ 104 ∷ []

abbrev pub xz_magic : Bytes
xz_magic = 0xfd ∷ 55 ∷ 122 ∷ 88 ∷ 90 ∷ 0 ∷ []

abbrev pub zip_magic : Bytes
zip_magic = 80 ∷ 75 ∷ 3 ∷ 4 ∷ []

-- Zstandard, 7z and Rar, which the gate never opens.
abbrev pub zstd_magic : Bytes
zstd_magic = 0x28 ∷ 0xb5 ∷ 0x2f ∷ 0xfd ∷ []

abbrev pub seven_magic : Bytes
seven_magic = 55 ∷ 122 ∷ 0xbc ∷ 0xaf ∷ []

abbrev pub rar_magic : Bytes
rar_magic = 82 ∷ 97 ∷ 114 ∷ 33 ∷ []

-- _is_archive
unfoldable pub is_archive : Bytes → Bool
is_archive raw =
    starts_with gzip_magic raw
    || starts_with bzip_magic raw
    || starts_with xz_magic raw
    || starts_with zip_magic raw
    || starts_with zstd_magic raw
    || starts_with seven_magic raw
    || starts_with rar_magic raw

abbrev head_is_archive : Option Bytes → Bool
head_is_archive none = false
head_is_archive (some head) = is_archive head

-- _read_bounded: `none` is the ValueError, or what a read raised.
unfoldable pub read_bounded : Stream → ℕ → ℕ → Bytes → Option Bytes
read_bounded [] total budget chunks = some chunks
read_bounded (none ∷ reads) total budget chunks = none
read_bounded (some [] ∷ reads) total budget chunks = some chunks
read_bounded (some (b ∷ bs) ∷ reads) total budget chunks =
    let total' = total + length (b ∷ bs) in
    let rest = read_bounded reads total' budget (chunks ++ (b ∷ bs)) in
    if ltb budget total' then none else rest

-- ZIP_STORED and ZIP_DEFLATED
unfoldable pub is_bounded_method : ℕ → Bool
is_bounded_method method = method == 0 || method == 8

-- The loop over the entries of a zip archive; what one holds is taken off the budget.
unfoldable pub zip_members : ℕ → List ZipEntry → Option (List Bytes)
unfolding is_bounded_method
zip_members budget [] = some []
zip_members budget (entry ∷ entries) =
    if not (is_bounded_method entry.compress_type)
    then none
    else elim (read_bounded entry.content 0 budget []) [
      | none ↦ none
      | some content ↦ elim (zip_members (budget - length content) entries) [
        | none ↦ none
        | some members ↦ some (content ∷ members)
      ]
    ]

-- b"\n".join(members)
unfoldable pub join_lines : List Bytes → Bytes
join_lines [] = []
join_lines (m ∷ []) = m
join_lines (m ∷ n ∷ ms) = m ++ (10 ∷ join_lines (n ∷ ms))

abbrev pub readable : Option Bytes → Payload
readable none = unreadable
readable (some payload) = unpacked payload

unfoldable pub zip_payload : ℕ → Option (List ZipEntry) → Payload
zip_payload max none = unreadable
zip_payload max (some entries) = elim (zip_members max entries) [
  | none ↦ unreadable
  | some members ↦ if any is_archive members then unreadable else unpacked (join_lines members)
]

module _ (codecs : Codecs) (max : ℕ) where
  -- _unpack
  unfoldable pub unpack : Bytes → Payload
  unfolding zip_payload
  unpack raw =
      if starts_with gzip_magic raw
      then readable (read_bounded (codecs.gunzip raw) 0 max [])
      else if starts_with bzip_magic raw
      then readable (read_bounded (codecs.bunzip raw) 0 max [])
      else if starts_with xz_magic raw
      then readable (read_bounded (codecs.unxz raw) 0 max [])
      else if starts_with zip_magic raw
      then zip_payload max (codecs.zip_entries raw)
      else if starts_with zstd_magic raw || starts_with seven_magic raw || starts_with rar_magic raw
      then unreadable
      else not_archive

  -- _tar_holds_archive; `none` is an exception of `tarfile`.
  unfoldable pub tar_holds_archive : Bytes → Option Bool
  tar_holds_archive payload =
      if not (bytes_eq (take 5 (drop 257 payload)) (codes "ustar"))
      then some false
      else elim (codecs.tar_members payload) [
        | none ↦ none
        | some heads ↦ some (any head_is_archive heads)
      ]

  -- A payload that is itself an archive, or a tar with one inside, cannot be searched.
  unfoldable pub one_level : Bytes → Payload
  unfolding tar_holds_archive
  one_level payload = if is_archive payload then unreadable else elim (tar_holds_archive payload) [
    | none ↦ unreadable
    | some holds ↦ if holds then unreadable else unpacked payload
  ]

  -- _archive_payload
  unfoldable pub archive_payload : Bytes → Payload
  unfolding one_level
  archive_payload raw = elim (unpack raw) [
    | not_archive ↦ not_archive
    | unreadable ↦ unreadable
    | unpacked payload ↦ one_level payload
  ]
