-- ===== src/Redact/Paths.antt =====
-- Texts of paths and tags: what .github/scripts/redact.py uses of pathlib, and `decode_tag_meta`.
use osac_test_infra.Prelude.{
  ℕ, Bool, true, false, not, Option, none, some, List, [], ◌∷◌, ◌++◌, ◌==◌, ◌&&◌, ◌||◌,
  if◌then◌else◌, codes, is_empty, drop,
}
use osac_test_infra.Prelude.Search.{bytes_eq, starts_with}
use osac_test_infra.Text.{Text, text_lt, after_colon}
use osac_test_infra.Redact.Secrets.{Finding}

-- The parts of a path, without the empty ones and "."; PurePosixPath.parts.
unfoldable pub path_parts : Text → Text → List Text
unfolding bytes_eq
path_parts word [] = if is_empty word || bytes_eq word (codes ".") then [] else word ∷ []
path_parts word (c ∷ path) =
    let more = path_parts (word ++ c ∷ []) path in
    let ended = path_parts [] path in
    if not (c == b'/')
    then more
    else if is_empty word || bytes_eq word (codes ".")
    then ended
    else word ∷ ended

abbrev pub last_part : List Text → Text
last_part [] = []
last_part (p ∷ []) = p
last_part (p ∷ q ∷ parts) = last_part (q ∷ parts)

-- file_field.lstrip("/")
unfoldable pub strip_slashes : Text → Text
strip_slashes [] = []
strip_slashes (c ∷ path) = if c == b'/' then strip_slashes path else c ∷ path

unfoldable pub relative_part : Text → Text
unfolding strip_slashes starts_with
relative_part file_field =
    let rel = strip_slashes file_field in
    if starts_with (codes "scan/") rel then drop 5 rel else rel

abbrev pub or_empty : Option Text → Text
or_empty none = []
or_empty (some text) = text

abbrev pub or_zero : Option ℕ → ℕ
or_zero none = 0
or_zero (some n) = n

-- decode_tag_meta: the kind and the depth so far; a tag is a text.
unfoldable pub tag_meta : (Text → Option ℕ) → List Text → Option Text → ℕ → Option Text × ℕ
unfolding starts_with after_colon
tag_meta int_of [] kind depth = (kind, depth)
tag_meta int_of (tag ∷ tags) kind depth =
    let rest = or_empty (after_colon tag) in
    let number = or_zero (int_of rest) in
    let is_kind = starts_with (codes "decoded:") tag in
    let is_depth = starts_with (codes "decode-depth:") tag in
    tag_meta int_of tags (if is_kind then (if is_empty rest then none else some rest) else kind)
      (if is_kind then depth else if is_depth then number else depth)

unfoldable pub decode_tag_meta : (Text → Option ℕ) → Finding → Option Text × ℕ
unfolding tag_meta
decode_tag_meta int_of finding = tag_meta int_of finding.tags none 0

-- The parts compared one after another, as paths are ordered.
unfoldable pub parts_lt : List Text → List Text → Bool
unfolding text_lt bytes_eq
parts_lt [] [] = false
parts_lt [] (q ∷ qs) = true
parts_lt (p ∷ ps) [] = false
parts_lt (p ∷ ps) (q ∷ qs) = text_lt p q || bytes_eq p q && parts_lt ps qs

unfoldable pub insert_path : Text → List Text → List Text
unfolding parts_lt path_parts
insert_path p [] = p ∷ []
insert_path p (q ∷ qs) =
    let later = q ∷ insert_path p qs in
    if parts_lt (path_parts [] p) (path_parts [] q)
    then p ∷ q ∷ qs
    else if parts_lt (path_parts [] q) (path_parts [] p)
    then later
    else q ∷ qs

-- sorted(paths) of a set
unfoldable pub sort_paths : List Text → List Text
unfolding insert_path
sort_paths [] = []
sort_paths (p ∷ ps) = insert_path p (sort_paths ps)
