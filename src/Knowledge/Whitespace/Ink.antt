-- ===== src/Knowledge/Whitespace/Ink.antt =====
-- What is left of a text without its whitespace, through each step that cuts or joins it.
use ai_support_engineering_p.Common.{
  Bool-cases, List, Text, [], arith, false, inl, inr, is_empty, keep, keep-append, leb, not, refl,
  suc, sym, true, zero, ℕ, ◌&&◌, ◌++◌, ◌==◌, ◌∙◌, ◌∷◌, ◌≡◌,
}
use ai_support_engineering_p.Knowledge.Whitespace.{
  blank, break_length, is_space, join, left_strip, line_feed, prepend, right_strip, split_blocks,
  strip, words_from,
}
use mathlib.Core.List.{append-nil, append_assoc}

abbrev pub ink : Text → Text
ink = keep (λ c. not (is_space c))

abbrev pub ink_all : List Text → Text
ink_all [] = []
ink_all (part ∷ parts) = ink part ++ ink_all parts

abbrev pub drop : ℕ → Text → Text
drop zero s = s
drop (suc n) [] = []
drop (suc n) (c ∷ s) = drop n s

pub ink_all-append : (xs ys : List Text) → ink_all (xs ++ ys) ≡ ink_all xs ++ ink_all ys
ink_all-append [] ys = refl
ink_all-append (x ∷ xs) ys =
    rw (ink_all-append xs ys) (sym (append_assoc (ink x) (ink_all xs) (ink_all ys)))

pub ink_space : (c : ℕ) (s : Text) → is_space c ≡ true → ink (c ∷ s) ≡ ink s
ink_space c s e = rw e refl

pub ink_letter : (c : ℕ) (s : Text) → is_space c ≡ false → ink (c ∷ s) ≡ c ∷ ink s
ink_letter c s e = rw e refl

pub ink-left_strip : (s : Text) → ink (left_strip s) ≡ ink s
unfolding left_strip
ink-left_strip [] = refl
ink-left_strip (c ∷ s) = ground (arith, ink-left_strip s)

nothing_left : (s : Text) → is_empty (right_strip s) ≡ true → ink s ≡ []
unfolding right_strip
nothing_left [] h = refl
nothing_left (c ∷ s) h = ground (arith, nothing_left s)

pub ink-right_strip : (s : Text) → ink (right_strip s) ≡ ink s
unfolding right_strip
ink-right_strip [] = refl
ink-right_strip (c ∷ s) = ground (arith, nothing_left s, ink-right_strip s)

pub ink-strip : (s : Text) → ink (strip s) ≡ ink s
ink-strip s = ink-right_strip (left_strip s) ∙ ink-left_strip s

pub ink-append : (s t : Text) → ink (s ++ t) ≡ ink s ++ ink t
ink-append s t = keep-append (λ c. not (is_space c)) s t

pub ink_of_empty : (s : Text) → is_empty s ≡ true → ink s ≡ []
ink_of_empty [] h = refl
ink_of_empty (c ∷ s) h = cc

pub ink-words_from : (word s : Text) → ink_all (words_from word s) ≡ ink word ++ ink s
unfolding words_from
ink-words_from word [] = ground (arith, ink_of_empty word, append-nil (ink word))
ink-words_from word (c ∷ s) = elim (Bool-cases (is_space c)) [
  | inl e ↦ rw (ink_space c s e) (ground (arith, ink_of_empty word, ink-words_from [] s))
  | inr e ↦ rw (ink_letter c s e) (rw e (ink-words_from (word ++ c ∷ []) s ∙ added e))
]
  where
    added : is_space c ≡ false → ink (word ++ c ∷ []) ++ ink s ≡ ink word ++ c ∷ ink s
    added e =
        rw (ink-append word (c ∷ []), ink_letter c [] e) (append_assoc (ink word) (c ∷ []) (ink s))

ink-break : (s : Text) → ink (drop (break_length s) s) ≡ ink s
unfolding break_length
ink-break [] = refl
ink-break (c ∷ s) = ground (arith, ink-break s)

ink-prepend :
    (c : ℕ) (parts : List Text) → ink_all (prepend c parts) ≡ ink (c ∷ []) ++ ink_all parts
ink-prepend c [] = rw (append-nil (ink (c ∷ []))) refl
ink-prepend c (part ∷ parts) = ground (arith, ink_space c part, ink_letter c part)

pub is_space-line_feed : is_space line_feed ≡ true
unfolding is_space
is_space-line_feed = refl

pub is_space-blank : is_space blank ≡ true
unfolding is_space
is_space-blank = refl

pub ink-split_blocks : (skip : ℕ) (s : Text) → ink_all (split_blocks skip s) ≡ ink (drop skip s)
unfolding split_blocks
ink-split_blocks zero [] = refl
ink-split_blocks (suc skip) [] = refl
ink-split_blocks (suc skip) (c ∷ s) = ink-split_blocks skip s
ink-split_blocks zero (c ∷ s) = elim (Bool-cases (c == line_feed && leb 1 (break_length s))) [
  | inl e ↦
      rw (e, ink_all)
        (ink-split_blocks (break_length s) s ∙ ink-break s ∙ sym (ink_space c s (feed e)))
  | inr e ↦
      rw (e, ink_all) (ink-prepend c (split_blocks zero s) ∙ rw (ink-split_blocks zero s) (rest))
]
  where
    feed : (c == line_feed && leb 1 (break_length s)) ≡ true → is_space c ≡ true
    feed e = let same : c ≡ 10 = ground arith in rw same is_space-line_feed

    rest : ink (c ∷ []) ++ ink s ≡ ink (c ∷ s)
    rest = ground arith

pub ink-join :
    (separator : Text) (parts : List Text)
    → ink separator ≡ []
    → ink (join separator parts) ≡ ink_all parts
unfolding join
ink-join separator [] h = refl
ink-join separator (part ∷ []) h = sym (append-nil (ink part))
ink-join separator (part ∷ next ∷ parts) h =
    rw
      (
        ink-append part (separator ++ join separator (next ∷ parts)),
        ink-append separator (join separator (next ∷ parts)),
        h,
        ink-join separator (next ∷ parts) h,
      )
      refl
