-- ===== src/Redact/Ranges.antt =====
-- Spans of bytes and their replacement: `merge_ranges` and `apply_ranges` of
-- .github/scripts/redact.py. A span is half-open.
pub mod Merge
pub mod Render
use Prim.Native.Nat.{max}
use osac_test_infra.Prelude.{
  ℕ, ◌+◌, ◌-◌, Bool, true, false, List, [], ◌∷◌, ◌++◌, ltb, leb, ◌==◌, ◌&&◌, ◌||◌, if◌then◌else◌,
  codes, take, drop, any,
}
use osac_test_infra.Prelude.Search.{Bytes}

abbrev pub Range : Type 0
Range = ℕ × ℕ

-- REDACTED_MARKER
abbrev pub redacted_marker : Bytes
redacted_marker = codes "[REDACTED]"

-- The order of pairs.
abbrev pub is_before : Range → Range → Bool
is_before a b = ltb a.0 b.0 || a.0 == b.0 && leb a.1 b.1

unfoldable pub insert_range : Range → List Range → List Range
insert_range r [] = r ∷ []
insert_range r (s ∷ ranges) =
    let later = s ∷ insert_range r ranges in if is_before r s then r ∷ s ∷ ranges else later

-- sorted(ranges)
unfoldable pub sort_ranges : List Range → List Range
unfolding insert_range
sort_ranges [] = []
sort_ranges (r ∷ ranges) = insert_range r (sort_ranges ranges)

-- The loop: the last merged range, and the ranges still to come.
unfoldable pub merge_from : ℕ → ℕ → List Range → List Range
merge_from last_start last_end [] = (last_start, last_end) ∷ []
merge_from last_start last_end ((start, end) ∷ ranges) =
    let longer = merge_from last_start (max last_end end) ranges in
    let next = (last_start, last_end) ∷ merge_from start end ranges in
    if leb start last_end then longer else next

abbrev pub merge_sorted : List Range → List Range
merge_sorted [] = []
merge_sorted ((start, end) ∷ ranges) = merge_from start end ranges

-- merge_ranges
unfoldable pub merge_ranges : List Range → List Range
unfolding sort_ranges merge_from
merge_ranges ranges = merge_sorted (sort_ranges ranges)

-- data[start:end]
abbrev pub slice : ℕ → ℕ → Bytes → Bytes
slice start end raw = take (end - start) (drop start raw)

-- The forward pass from the cursor on.
unfoldable pub apply_merged : Bytes → ℕ → List Range → Bytes
apply_merged raw cursor [] = drop cursor raw
apply_merged raw cursor ((start, end) ∷ merged) =
    slice cursor start raw ++ (redacted_marker ++ apply_merged raw end merged)

-- apply_ranges: with no range the pass copies the data.
unfoldable pub apply_ranges : Bytes → List Range → Bytes
unfolding merge_ranges apply_merged
apply_ranges raw ranges = apply_merged raw 0 (merge_ranges ranges)

-- Whether a byte is in one of the spans.
unfoldable pub covers : List Range → ℕ → Bool
covers ranges i = any (λ r. leb r.0 i && ltb i r.1) ranges
