-- ===== src/Knowledge/Chunking/Oversized.antt =====
-- The parts of a paragraph that is too long for a chunk.
use ai_support_engineering_p.Common.{
  All, All-append, Bool-cases, List, Text, [], any, any-append, ap, arith, false, if◌then◌else◌,
  inl, inr, is_empty, length, length-append, ltb, refl, true, ℕ, ◌++◌, ◌+◌, ◌∷◌, ◌≡◌, ◌≤◌, ◌⊎◌,
}
use ai_support_engineering_p.Knowledge.Chunking.{
  Splitting, join_words, no_parts, split_loop, split_oversized_paragraph, split_parts, split_step,
}
use ai_support_engineering_p.Knowledge.Whitespace.{blank, is_space, join, words, words_from}

-- A text without whitespace.
abbrev pub IsWord : Text → Type 0
IsWord s = any is_space s ≡ false

abbrev pub Readable : Text → Type 0
Readable s = (1 ≤ length s) × IsWord s

-- A chunk has a character, and it fits or is one word.
abbrev pub Fits : ℕ → Text → Type 0
Fits max_chars s = (1 ≤ length s) × ((length s ≤ max_chars) ⊎ IsWord s)

pub full : (s : Text) → is_empty s ≡ false → 1 ≤ length s
full [] h = cc
full (c ∷ s) h = omega arith

words_from-All : (word s : Text) → IsWord word → All Readable (words_from word s)
unfolding words_from
words_from-All word [] h = elim (Bool-cases (is_empty word)) [
  | inl e ↦ rw e tt
  | inr e ↦ rw e ((full word e, h), tt)
]
words_from-All word (c ∷ s) h = elim (Bool-cases (is_space c)) [
  | inl e ↦ elim (Bool-cases (is_empty word)) [
    | inl e' ↦ rw (e, e') (words_from-All [] s refl)
    | inr e' ↦ rw (e, e') ((full word e', h), words_from-All [] s refl)
  ]
  | inr e ↦
      rw e (words_from-All (word ++ c ∷ []) s (rw (any-append is_space word (c ∷ []), h, e) refl))
]

length-join_words :
    (parts : List Text) (word : Text)
    → length (join_words (parts ++ word ∷ []))
      ≡ length (join_words parts) + (length word + (if is_empty parts then 0 else 1))
unfolding join
length-join_words [] word = omega arith
length-join_words (part ∷ []) word = omega (arith, length-append part (blank ∷ word))
length-join_words (part ∷ next ∷ parts) word = omega (
  arith,
  length-append part (blank ∷ join_words (next ∷ (parts ++ word ∷ []))),
  length-append part (blank ∷ join_words (next ∷ parts)),
  length-join_words (next ∷ parts) word,
)

joined_first :
    (parts : List Text) (word : Text)
    → is_empty parts ≡ true
    → join_words (parts ++ word ∷ []) ≡ word
unfolding join
joined_first [] word e = refl
joined_first (part ∷ parts) word e = cc

module _ (max_chars : ℕ) where
  record Splits (s : Splitting) : Type 0 where
    parts_fit : All (Fits max_chars) s.parts
    counted : s.current_length ≡ length (join_words s.current)
    current_fits : is_empty s.current ≡ false → Fits max_chars (join_words s.current)

  pub snoc-Fits :
      (parts : List Text) (part : Text)
      → All (Fits max_chars) parts
      → Fits max_chars part
      → All (Fits max_chars) (parts ++ part ∷ [])
  snoc-Fits parts part h k = All-append (Fits max_chars) parts (part ∷ []) h (k, tt)

  added-Splits :
      (s : Splitting) (word : Text)
      → Fits max_chars (join_words (s.current ++ word ∷ []))
      → Splits s
      → Splits (record s {
        current = s.current ++ word ∷ [];
        current_length = s.current_length + (length word + (if is_empty s.current then 0 else 1));
      })
  added-Splits s word f k = record {
    parts_fit = k.parts_fit;
    counted =
        rw (length-join_words s.current word)
          (ap (λ n. n + (length word + (if is_empty s.current then 0 else 1))) k.counted);
    current_fits = λ e. f;
  }

  split_step-Splits :
      (s : Splitting) (word : Text)
      → Readable word
      → Splits s
      → Splits (split_step max_chars s word)
  unfolding split_step join
  split_step-Splits s word r k = elim (Bool-cases (is_empty s.current)) [
    | inl e ↦
        rw e (rw e at (added-Splits s word (rw (joined_first s.current word e) (r.0, inr r.1)) k))
    | inr e ↦ elim (Bool-cases (ltb max_chars (s.current_length + (length word + 1)))) [
      | inl o ↦
          rw (e, o)
            (record {
              parts_fit = snoc-Fits s.parts (join_words s.current) k.parts_fit (k.current_fits e);
              counted = refl;
              current_fits = λ q. (r.0, inr r.1);
            })
      | inr o ↦
          let joined = length-join_words s.current word in
          let counted = k.counted in
          let long = r.0 in
          let fits : Fits max_chars (join_words (s.current ++ word ∷ [])) =
            (ground arith, inl (ground arith)) in
          rw (e, o) (rw e at (added-Splits s word fits k))
    ]
  ]

  split_loop-Splits :
      (s : Splitting) (ws : List Text)
      → All Readable ws
      → Splits s
      → Splits (split_loop max_chars s ws)
  unfolding split_loop
  split_loop-Splits s [] r k = k
  split_loop-Splits s (word ∷ ws) r k =
      split_loop-Splits (split_step max_chars s word) ws r.1 (split_step-Splits s word r.0 k)

  split_parts-Fits : (s : Splitting) → Splits s → All (Fits max_chars) (split_parts max_chars s)
  split_parts-Fits s k = elim (Bool-cases (is_empty s.current)) [
    | inl e ↦ rw e k.parts_fit
    | inr e ↦ rw e (snoc-Fits s.parts (join_words s.current) k.parts_fit (k.current_fits e))
  ]

  pub split_paragraph-Fits :
      (paragraph : Text) → All (Fits max_chars) (split_oversized_paragraph max_chars paragraph)
  unfolding split_oversized_paragraph join
  split_paragraph-Fits paragraph =
      split_parts-Fits (split_loop max_chars no_parts (words paragraph)) (
        split_loop-Splits no_parts (words paragraph) (words_from-All [] paragraph refl)
          (record { parts_fit = tt; counted = refl; current_fits = λ e. cc }))
