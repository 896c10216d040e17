-- ===== src/Text.antt =====
-- Texts as lists of code points, with the operations of `str` that the program calls.
use hancoin.Prelude.{
  ℕ, ◌≡◌, Bool, true, false, ◌||◌, ◌&&◌, List, [], ◌∷◌, Option, none, some, leb, nat_eq,
  if◌then◌else◌,
}

abbrev pub Text : Type 0
Text = List ℕ

abbrev between : ℕ → ℕ → ℕ → Bool
between lo hi c = leb lo c && leb c hi

-- `char::is_whitespace`: the code points with the property White_Space.
unfoldable pub is_whitespace : ℕ → Bool
is_whitespace c =
    between 9 13 c
    || nat_eq c 32
    || nat_eq c 133
    || nat_eq c 160
    || nat_eq c 5760
    || between 8192 8202 c
    || nat_eq c 8232
    || nat_eq c 8233
    || nat_eq c 8239
    || nat_eq c 8287
    || nat_eq c 12288

abbrev pub is_empty : Text → Bool
is_empty [] = true
is_empty (c ∷ s) = false

unfoldable pub trim_start : Text → Text
trim_start [] = []
trim_start (c ∷ s) = if is_whitespace c then trim_start s else c ∷ s

unfoldable pub trim_end : Text → Text
trim_end [] = []
trim_end (c ∷ s) =
    let rest = trim_end s in if is_empty rest && is_whitespace c then [] else c ∷ rest

-- `str::trim`.
unfoldable pub trim : Text → Text
trim s = trim_end (trim_start s)

abbrev pub onto_first : ℕ → List Text → List Text
onto_first c [] = (c ∷ []) ∷ []
onto_first c (s ∷ ss) = (c ∷ s) ∷ ss

-- `str::split` at a character: the parts between its occurrences, at least one.
unfoldable pub split : ℕ → Text → List Text
split sep [] = [] ∷ []
split sep (c ∷ s) = let rest = split sep s in if nat_eq c sep then [] ∷ rest else onto_first c rest

-- `str::rsplit_once` at a character: what stands before and after its last occurrence.
unfoldable pub rsplit_once : ℕ → Text → Option (Text × Text)
rsplit_once sep [] = none
rsplit_once sep (c ∷ s) = elim (rsplit_once sep s) [
  | some (before, after) ↦ some (c ∷ before, after)
  | none ↦ if nat_eq c sep then some ([], s) else none
]

-- A character does not stand in a text.
abbrev pub Lacks : ℕ → Text → Type 0
Lacks sep [] = Unit
Lacks sep (c ∷ s) = (nat_eq c sep ≡ false) × Lacks sep s
