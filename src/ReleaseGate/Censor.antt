-- ===== src/ReleaseGate/Censor.antt =====
-- Censoring one file: `Patterns`, `censor_known`, `censor_shapes` and `censor_bytes` of
-- .github/scripts/release_gate.py. The regular expressions of the shape rules and the hash of a
-- label are parameters.
pub mod Known
pub mod Silent
pub mod Finds
pub mod Rounds
use osac_test_infra.Prelude.{
  ℕ, zero, suc, ◌+◌, ◌-◌, Bool, true, false, not, Option, none, some, List, [], ◌∷◌, ◌++◌, ◌≡◌, ◌≢◌,
  ltb, leb, ◌==◌, ◌&&◌, ◌||◌, if◌then◌else◌, codes, drop, length, map, is_empty, All, ◌≤◌,
}
use osac_test_infra.Prelude.Search.{Bytes, contains, find, replace, count, bytes_eq}
use osac_test_infra.Text.{Text, decode_escape, sorted_set}
use osac_test_infra.ReleaseGate.Variants.{Variant, variants}

-- The values to search for, each with its label, in the order of insertion.
abbrev pub Inventory : Type 0
Inventory = List (Bytes × Text)

-- Every value has at least seven bytes, as those of `build_inventory` do, so that no pattern is empty.
abbrev pub AreSearchable : Inventory → Type 0
AreSearchable inventory = All (λ e. 7 ≤ length e.0) inventory

-- `collections.Counter`, in the order of insertion.
abbrev pub Hits : Type 0
Hits = List (Text × ℕ)

-- hits[key] += n
unfoldable pub add_hit : Text → ℕ → Hits → Hits
unfolding bytes_eq
add_hit key n [] = (key, n) ∷ []
add_hit key n ((k, m) ∷ hits) =
    let rest = add_hit key n hits in if bytes_eq k key then (k, m + n) ∷ hits else (k, m) ∷ rest

-- ── Patterns ──

pub record Item : Type 0 where
  pub label : Text
  pub pattern : Bytes
  pub is_b64 : Bool

-- Insertion into a list sorted by falling length, behind the entries of the same length.
unfoldable pub insert_by_length : Bytes × Text → Inventory → Inventory
insert_by_length e [] = e ∷ []
insert_by_length e (f ∷ rest) =
    let later = f ∷ insert_by_length e rest in
    if leb (length e.0) (length f.0) then later else e ∷ f ∷ rest

sort_scan : Inventory → Inventory → Inventory
unfolding insert_by_length
sort_scan [] sorted = sorted
sort_scan (e ∷ rest) sorted = sort_scan rest (insert_by_length e sorted)

-- sorted(inventory.items(), key=lambda kv: -len(kv[0]))
unfoldable pub longest_first : Inventory → Inventory
unfolding sort_scan
longest_first inventory = sort_scan inventory []

abbrev pub item_of : Text → Variant → Item
item_of label v = record { label = label; pattern = v.pattern; is_b64 = v.is_b64 }

items_of : Inventory → List Item
items_of [] = []
items_of ((needle, label) ∷ rest) = map (item_of label) (variants needle) ++ items_of rest

-- self.items
unfoldable pub patterns : Inventory → List Item
unfolding items_of
patterns inventory = items_of (longest_first inventory)

-- Insertion into a list sorted by falling length.
insert_value : Text → List Text → List Text
insert_value t [] = t ∷ []
insert_value t (u ∷ us) =
    let later = u ∷ insert_value t us in if leb (length t) (length u) then later else t ∷ u ∷ us

sort_values : Inventory → List Text → List Text
unfolding insert_value
sort_values [] sorted = sorted
sort_values ((needle, _) ∷ rest) sorted =
    sort_values rest (insert_value (decode_escape needle) sorted)

hide_values : List Text → Text → Text
hide_values [] label = label
hide_values (value ∷ rest) label = hide_values rest (replace value (codes "<value>") label)

-- self.shown: a label with every value of the inventory hidden in it, the longest first.
unfoldable pub shown_label : Inventory → Text → Text
unfolding hide_values sort_values
shown_label inventory label = hide_values (sort_values inventory []) label

-- ── markers ──

safe_char : ℕ → Bool
safe_char c =
    leb 65 c && leb c 90
    || leb 97 c && leb c 122
    || leb 48 c && leb c 57
    || c == b'.'
    || c == b'_'
    || c == b':'
    || c == b'/'
    || c == b'('
    || c == b')'
    || c == b'['
    || c == b']'
    || c == b'-'

-- _marker
unfoldable pub marker : Text → Text → Bytes
unfolding safe_char
marker name suffix =
    codes "[REDACTED:"
    ++ (map (λ c. if safe_char c then c else b'_') name
        ++ ((if is_empty suffix then [] else b':' ∷ suffix) ++ codes "]"))

-- ── known values ──

-- _B64_CHARS
unfoldable pub is_b64_char : ℕ → Bool
is_b64_char c =
    leb 65 c && leb c 90
    || leb 97 c && leb c 122
    || leb 48 c && leb c 57
    || c == b'+'
    || c == b'/'
    || c == b'-'
    || c == b'_'

-- `start` moves back over the token, at most to the position reached.
unfoldable pub strip_token : Bytes → Bytes
unfolding is_b64_char
strip_token [] = []
strip_token (x ∷ xs) =
    let rest = strip_token xs in if is_b64_char x && is_empty rest then [] else x ∷ rest

-- `end` moves on over the token and its padding.
unfoldable pub skip_token : Bytes → Bytes
unfolding is_b64_char
skip_token [] = []
skip_token (x ∷ xs) = if is_b64_char x || x == b'=' then skip_token xs else x ∷ xs

-- The `while` loop over the data from `position` on, with the number of hits. Each round shortens the
-- data, so that their length is fuel enough, unless the pattern is empty: then the loop of the source
-- does not end, and this is no model of it.
unfoldable pub replace_tokens : ℕ → Bytes → Bytes → Bytes → Bytes × ℕ
unfolding strip_token skip_token
replace_tokens zero p m rest = (rest, 0)
replace_tokens (suc fuel) p m rest = elim (find p rest) [
  | none ↦ (rest, 0)
  | some (before, from) ↦
      let (tail, n) = replace_tokens fuel p m (skip_token (drop (length p) from)) in
      (strip_token before ++ (m ++ tail), suc n)
]

-- What the gate takes from Python's libraries: the first ten digits of a SHA-256 sum.
pub record Hash : Type 0 where
  pub fingerprint : Text → Text

-- A match of a regular expression in the data: the parts before it, of it and after it.
pub record Match : Type 0 where
  pub before : Bytes
  pub matched : Bytes
  pub after : Bytes

-- A shape rule: its name, `search` of its regular expression in the data from a position on (the
-- data passed comes first, for `\b`), and what its function puts in the place of a match.
pub record ShapeRule : Type 0 where
  pub name : Text
  pub search : Bytes → Bytes → Option Match
  pub rewrite : Match → Option Bytes

-- `re.search` finds a part of the data that it is given, and the rules match no empty text.
pub record IsSearch (search : Bytes → Bytes → Option Match) : Type 0 where
  pub splits :
      (past rest : Bytes) (m : Match)
      → search past rest ≡ some m
      → rest ≡ m.before ++ (m.matched ++ m.after)
  pub not_empty : (past rest : Bytes) (m : Match) → search past rest ≡ some m → m.matched ≢ []

module _ (hash : Hash) where
  -- _known_marker
  unfoldable pub known_marker : Text → Text → Bytes
  known_marker label suffix = marker (codes "known-value:" ++ hash.fingerprint label) suffix

  -- One round of the loop of `censor_known`.
  unfoldable pub censor_item : (Text → Text) → Item → Bytes × Hits → Bytes × Hits
  censor_item shown it (raw, hits) =
      let key = codes "known-value:" ++ shown it.label in
      if not (contains it.pattern raw)
      then (raw, hits)
      else if it.is_b64
      then (let (out, n) =
            replace_tokens (suc (length raw)) it.pattern (known_marker it.label (codes "b64"))
              raw in
          (out, add_hit key n hits))
      else (
        replace it.pattern (known_marker it.label []) raw,
        add_hit key (count it.pattern raw) hits,
      )

  unfoldable pub censor_known : (Text → Text) → List Item → Bytes × Hits → Bytes × Hits
  unfolding censor_item
  censor_known shown [] st = st
  censor_known shown (it ∷ items) st = censor_known shown items (censor_item shown it st)

-- regex.sub(substitute, data): a match that the function leaves stays as it is.
unfoldable pub substitute : ℕ → ShapeRule → Bytes → Bytes → Bytes × ℕ
substitute zero rule past rest = (rest, 0)
substitute (suc fuel) rule past rest = elim (rule.search past rest) [
  | none ↦ (rest, 0)
  | some m ↦
      let (tail, n) = substitute fuel rule (past ++ (m.before ++ m.matched)) m.after in
      elim (rule.rewrite m) [
        | none ↦ (m.before ++ (m.matched ++ tail), n)
        | some new ↦ (m.before ++ (new ++ tail), suc n)
      ]
]

unfoldable pub censor_shape : ShapeRule → Bytes × Hits → Bytes × Hits
unfolding substitute
censor_shape rule (raw, hits) =
    let (out, n) = substitute (suc (length raw)) rule [] raw in
    (out, if n == 0 then hits else add_hit (codes "shape:" ++ rule.name) n hits)

unfoldable pub censor_shapes : List ShapeRule → Bytes × Hits → Bytes × Hits
unfolding censor_shape
censor_shapes [] st = st
censor_shapes (rule ∷ rules) st = censor_shapes rules (censor_shape rule st)

module _ (hash : Hash) (rules : List ShapeRule) where
  -- The rounds of `censor_bytes`; a round that changes nothing is the last.
  unfoldable pub rounds : ℕ → (Text → Text) → List Item → Bytes × Hits → Bytes × Hits
  rounds zero shown items st = st
  rounds (suc n) shown items (raw, hits) =
      let once = censor_shapes rules (censor_known hash shown items (raw, hits)) in
      let again = rounds n shown items once in if bytes_eq once.0 raw then once else again

  unfoldable pub censor_bytes : (Text → Text) → List Item → Bytes → Bytes × Hits
  unfolding rounds
  censor_bytes shown items raw = rounds 3 shown items (raw, [])

-- The labels of the items whose pattern is in the data.
unfoldable pub labels_present : (Text → Text) → List Item → Bytes → List Text
labels_present shown [] raw = []
labels_present shown (it ∷ items) raw =
    let rest = labels_present shown items raw in
    if contains it.pattern raw then shown it.label ∷ rest else rest

-- Patterns.present
unfoldable pub present : (Text → Text) → List Item → Bytes → List Text
unfolding labels_present
present shown items raw = sorted_set (labels_present shown items raw)
