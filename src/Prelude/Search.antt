-- ===== src/Prelude/Search.antt =====
-- Python's operations on byte strings that look for a part: `in`, `find`, `count`, `replace`,
-- `startswith`. A byte string is the list of its bytes.
pub mod Occurs
use osac_test_infra.Prelude.Tests.{◌==◌, if◌then◌else◌}
use osac_test_infra.Prelude.Lists.{length}
use Prim.Native.Nat.{ℕ, zero, suc, ◌-◌, ◌+◌}
use mathlib.Core.Path.{◌≡◌, refl, ap}
use native.Mathlib.Omega.{arith}
use mathlib.Core.Bool.{Bool, true, false, ◌&&◌, ◌||◌}
use mathlib.Core.Option.{Option, none, some}
use mathlib.Core.List.{List, [], ◌∷◌, ◌++◌}

abbrev pub Bytes : Type 0
Bytes = List ℕ

-- data.startswith(p)
unfoldable pub starts_with : Bytes → Bytes → Bool
starts_with [] ys = true
starts_with (x ∷ xs) [] = false
starts_with (x ∷ xs) (y ∷ ys) = x == y && starts_with xs ys

-- p in data
unfoldable pub contains : Bytes → Bytes → Bool
unfolding starts_with
contains p [] = starts_with p []
contains p (x ∷ xs) = starts_with p (x ∷ xs) || contains p xs

-- data.find(p): what stands before the first occurrence, and the data from it on.
unfoldable pub find : Bytes → Bytes → Option (Bytes × Bytes)
unfolding starts_with
find p [] = if starts_with p [] then some ([], []) else none
find p (x ∷ xs) =
    let later = find p xs in
    if starts_with p (x ∷ xs)
    then some ([], x ∷ xs)
    else elim later [ none ↦ none | some (before, from) ↦ some (x ∷ before, from) ]

-- data.replace([], m): one copy before each byte and one at the end.
interleave : Bytes → Bytes → Bytes
interleave m [] = m
interleave m (x ∷ xs) = m ++ (x ∷ interleave m xs)

-- The scan of a replacement; the first number counts the bytes of a match still to be passed over.
replace_scan : Bytes → Bytes → ℕ → Bytes → Bytes
unfolding starts_with
replace_scan p m n [] = []
replace_scan p m (suc n) (x ∷ xs) = replace_scan p m n xs
replace_scan p m zero (x ∷ xs) =
    let hit = m ++ replace_scan p m (length p - 1) xs in
    let miss = x ∷ replace_scan p m zero xs in if starts_with p (x ∷ xs) then hit else miss

-- data.replace(p, m)
unfoldable pub replace : Bytes → Bytes → Bytes → Bytes
unfolding interleave replace_scan
replace [] m xs = interleave m xs
replace (c ∷ p) m xs = replace_scan (c ∷ p) m 0 xs

count_scan : Bytes → ℕ → Bytes → ℕ
unfolding starts_with
count_scan p n [] = 0
count_scan p (suc n) (x ∷ xs) = count_scan p n xs
count_scan p zero (x ∷ xs) =
    let hit = suc (count_scan p (length p - 1) xs) in
    let miss = count_scan p zero xs in if starts_with p (x ∷ xs) then hit else miss

-- data.count(p)
unfoldable pub count : Bytes → Bytes → ℕ
unfolding count_scan
count [] xs = length xs + 1
count (c ∷ p) xs = count_scan (c ∷ p) 0 xs

-- Equality of byte strings.
unfoldable pub bytes_eq : Bytes → Bytes → Bool
bytes_eq [] [] = true
bytes_eq (x ∷ xs) (y ∷ ys) = x == y && bytes_eq xs ys
bytes_eq _ _ = false

-- Two byte strings that `bytes_eq` takes for equal are equal.
pub bytes_eq_sound : (x y : Bytes) → bytes_eq x y ≡ true → x ≡ y
unfolding bytes_eq
bytes_eq_sound [] [] h = refl
bytes_eq_sound [] (y ∷ ys) h = cc
bytes_eq_sound (x ∷ xs) [] h = cc
bytes_eq_sound (x ∷ xs) (y ∷ ys) h = ground (arith, bytes_eq_sound xs ys)

pub bytes_eq_refl : (x : Bytes) → bytes_eq x x ≡ true
unfolding bytes_eq
bytes_eq_refl [] = refl
bytes_eq_refl (x ∷ xs) = ground (arith, bytes_eq_refl xs)
