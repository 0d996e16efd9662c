-- ===== src/SelectJobs/Reason.antt =====
-- The short reasons of the posted comment: `_neutralize_fences`, `_sanitize_reason` and
-- `_deterministic_reason` of .github/scripts/select-jobs.py.
pub mod Escapes
pub mod Caps
pub mod Fences
pub mod Lines
pub mod Safe
use osac_test_infra.Prelude.{
  ℕ, zero, suc, ◌+◌, ◌-◌, Bool, true, false, List, [], ◌∷◌, ◌++◌, ltb, leb, ◌==◌, if◌then◌else◌,
  codes, length, take, replicate, is_empty,
}
use osac_test_infra.Text.{Text, decimal, is_space, split_words}

abbrev pub max_reason_chars : ℕ
max_reason_chars = 100

-- The zero-width space, the backtick, the backslash and the ellipsis.
abbrev pub zwsp : ℕ
zwsp = 0x200b

abbrev pub tick : ℕ
tick = 96

abbrev pub backslash : ℕ
backslash = 92

abbrev pub ellipsis : ℕ
ellipsis = 0x2026

-- zwsp.join of a run of `n` backticks
unfoldable pub join_ticks : ℕ → Text
join_ticks zero = []
join_ticks (suc zero) = tick ∷ []
join_ticks (suc (suc n)) = tick ∷ zwsp ∷ join_ticks (suc n)

-- A run of backticks, as it is written out at its end.
unfoldable pub end_run : ℕ → Text
unfolding join_ticks
end_run n = if ltb n 3 then replicate n tick else join_ticks n

-- The text from a place on, with the length of the run of backticks that ends there.
unfoldable pub split_ticks : ℕ → Text → Text
unfolding end_run
split_ticks n [] = end_run n
split_ticks n (c ∷ cs) =
    let longer = split_ticks (suc n) cs in
    let ended = end_run n ++ (c ∷ split_ticks 0 cs) in if c == tick then longer else ended

-- _neutralize_fences
unfoldable pub neutralize_fences : Text → Text
unfolding split_ticks
neutralize_fences text = split_ticks 0 text

-- " ".join(words)
unfoldable pub join_words : List Text → Text
join_words [] = []
join_words (w ∷ []) = w
join_words (w ∷ v ∷ ws) = w ++ (32 ∷ join_words (v ∷ ws))

-- text.replace(c, "\\" + c), for one character
unfoldable pub escape : ℕ → Text → Text
escape special [] = []
escape special (c ∷ cs) =
    let rest = escape special cs in if c == special then backslash ∷ c ∷ rest else c ∷ rest

-- The backslashes first, and then "|", "[", "]", "<" and ">".
unfoldable pub escape_all : Text → Text
unfolding escape
escape_all text = escape 62 (escape 60 (escape 93 (escape 91 (escape 124 (escape backslash text)))))

-- text.rstrip()
unfoldable pub right_strip : Text → Text
unfolding is_space
right_strip [] = []
right_strip (c ∷ cs) =
    let rest = right_strip cs in
    if is_empty rest then (if is_space c then [] else c ∷ []) else c ∷ rest

unfoldable pub cap_reason : Text → Text
unfolding right_strip
cap_reason text =
    if ltb max_reason_chars (length text)
    then right_strip (take 99 text) ++ (ellipsis ∷ [])
    else text

-- _sanitize_reason
unfoldable pub sanitize_reason : Text → Text
unfolding cap_reason escape_all join_words neutralize_fences
sanitize_reason text = cap_reason (escape_all (join_words (split_words (neutralize_fences text))))

-- _deterministic_reason
unfoldable pub deterministic_reason : List Text → Text
unfolding sanitize_reason
deterministic_reason [] = codes "No changed files matched a path rule for this suite"
deterministic_reason (f ∷ []) = sanitize_reason (codes "Matches: " ++ f)
deterministic_reason (f ∷ g ∷ fs) =
    sanitize_reason
      (codes "Matches " ++ (decimal (length (f ∷ g ∷ fs)) ++ (codes " files, e.g. " ++ f)))
