-- ===== src/Services/Patterns.antt =====
-- The regular expressions that services/analyzer.py uses, with `re.IGNORECASE` and `re.DOTALL`. The
-- patterns of digits go without the first, which says nothing of digits.
use ai_support_engineering_p.Common.{
  Bool, List, Option, Text, [], any, false, if◌then◌else◌, is_empty, leb, none, not, some, ℕ, ◌&&◌,
  ◌++◌, ◌+◌, ◌==◌, ◌||◌, ◌∷◌,
}

pub data Pattern : Type 0 where
  always boundary anything : Pattern
  letter : ℕ → Pattern
  chain either : Pattern → Pattern → Pattern
  maybe ahead : Pattern → Pattern

-- A place in a text: the character before it and the text that follows.
pub record Place : Type 0 where
  pub last : Option ℕ
  pub rest : Text

-- What a character is compared as: ASCII letters in lower case, and the four other characters that
-- a letter of a pattern matches.
unfoldable pub fold_case : ℕ → ℕ
fold_case c =
    if leb 65 c && leb c 90
    then c + 32
    else if (c == 304) || (c == 305)
    then 105
    else if c == 383
    then 115
    else if c == 8490
    then 107
    else c

-- `wide` tells which characters beyond ASCII are letters or digits.
module _ (wide : ℕ → Bool) where
  unfoldable pub is_word_char : ℕ → Bool
  is_word_char c =
      if leb 128 c
      then wide c
      else (leb 48 c && leb c 57)
        || ((leb 65 c && leb c 90) || ((leb 97 c && leb c 122) || (c == 95)))

  abbrev pub word_before : Option ℕ → Bool
  word_before none = false
  word_before (some c) = is_word_char c

  abbrev pub word_after : Text → Bool
  word_after [] = false
  word_after (c ∷ s) = is_word_char c

  abbrev pub at_boundary : Place → Bool
  at_boundary p = if word_before p.last then not (word_after p.rest) else word_after p.rest

  abbrev pub flat_map : (Place → List Place) → List Place → List Place
  flat_map f [] = []
  flat_map f (p ∷ ps) = f p ++ flat_map f ps

  abbrev pub step_over : ℕ → Text → List Place
  step_over c [] = []
  step_over c (d ∷ s) =
      if fold_case c == fold_case d then record { last = some d; rest = s } ∷ [] else []

  abbrev pub places_from : Option ℕ → Text → List Place
  places_from last [] = record { last = last; rest = [] } ∷ []
  places_from last (c ∷ s) = record { last = last; rest = c ∷ s } ∷ places_from (some c) s

  -- The places where a match that starts at a place can end.
  unfoldable pub ends_of : Pattern → Place → List Place
  ends_of Pattern.always p = p ∷ []
  ends_of Pattern.boundary p = if at_boundary p then p ∷ [] else []
  ends_of Pattern.anything p = places_from p.last p.rest
  ends_of (Pattern.letter c) p = step_over c p.rest
  ends_of (Pattern.chain a b) p = flat_map (ends_of b) (ends_of a p)
  ends_of (Pattern.either a b) p = ends_of a p ++ ends_of b p
  ends_of (Pattern.maybe a) p = ends_of a p ++ p ∷ []
  ends_of (Pattern.ahead a) p = if is_empty (ends_of a p) then [] else p ∷ []

  abbrev pub starts_at : Pattern → Place → Bool
  starts_at a p = not (is_empty (ends_of a p))

  -- `pattern.search(text)`
  unfoldable pub occurs : Pattern → Text → Bool
  occurs a content = any (starts_at a) (places_from none content)
