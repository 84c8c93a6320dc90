-- ===== src/Knowledge/Whitespace.antt =====
-- The string methods and the regular expression that chunking uses, on lists of code points.
pub mod Ink
use ai_support_engineering_p.Common.{
  Bool, List, Text, [], any, false, if◌then◌else◌, is_empty, leb, not, suc, true, zero, ℕ, ◌&&◌,
  ◌++◌, ◌==◌, ◌||◌, ◌∷◌,
}

abbrev pub between : ℕ → ℕ → ℕ → Bool
between lo hi c = leb lo c && leb c hi

-- The code points that `str.isspace`, `strip()`, `split()` and `\s` take for whitespace.
unfoldable pub is_space : ℕ → Bool
is_space c =
    between 9 13 c
    || (between 28 32 c
        || (any (λ d. c == d) (133 ∷ 160 ∷ 5760 ∷ [])
            || (between 8192 8202 c || any (λ d. c == d) (8232 ∷ 8233 ∷ 8239 ∷ 8287 ∷ 12288 ∷ []))))

abbrev pub line_feed : ℕ
line_feed = 10

abbrev pub blank : ℕ
blank = 32

unfoldable pub left_strip : Text → Text
left_strip [] = []
left_strip (c ∷ s) = if is_space c then left_strip s else c ∷ s

unfoldable pub right_strip : Text → Text
right_strip [] = []
right_strip (c ∷ s) =
    let rest = right_strip s in if is_empty rest && is_space c then [] else c ∷ rest

-- `text.strip()`
abbrev pub strip : Text → Text
strip s = right_strip (left_strip s)

-- `text.split()`, with the letters of the word that is being read.
unfoldable pub words_from : Text → Text → List Text
words_from word [] = if is_empty word then [] else word ∷ []
words_from word (c ∷ s) =
    let rest = words_from (if is_space c then [] else word ++ c ∷ []) s in
    if is_space c && not (is_empty word) then word ∷ rest else rest

abbrev pub words : Text → List Text
words s = words_from [] s

-- `separator.join(parts)`
unfoldable pub join : Text → List Text → Text
join separator [] = []
join separator (part ∷ []) = part
join separator (part ∷ next ∷ parts) = part ++ (separator ++ join separator (next ∷ parts))

-- How many characters `\s*\n` matches at the start of a text, greedily: 0 if it does not match.
unfoldable pub break_length : Text → ℕ
break_length [] = 0
break_length (c ∷ s) =
    let rest = break_length s in
    if is_space c then (if leb 1 rest then suc rest else if c == line_feed then 1 else 0) else 0

abbrev pub prepend : ℕ → List Text → List Text
prepend c [] = (c ∷ []) ∷ []
prepend c (part ∷ parts) = (c ∷ part) ∷ parts

-- `re.split(r"\n\s*\n", text)`, where the first characters belong to the match that was found.
unfoldable pub split_blocks : ℕ → Text → List Text
split_blocks skip [] = [] ∷ []
split_blocks (suc skip) (c ∷ s) = split_blocks skip s
split_blocks zero (c ∷ s) = elim (c == line_feed && leb 1 (break_length s)) [
  | true ↦ [] ∷ split_blocks (break_length s) s
  | false ↦ prepend c (split_blocks zero s)
]
