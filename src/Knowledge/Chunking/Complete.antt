-- ===== src/Knowledge/Chunking/Complete.antt =====
-- The text of a document on its way to the chunks.
use ai_support_engineering_p.Common.{
  Bool-cases, List, String, Text, [], arith, inl, inr, is_empty, keep, leb, length, map, not, refl,
  suc, sym, true, ℕ, ◌++◌, ◌∙◌, ◌∷◌, ◌≡◌,
}
use ai_support_engineering_p.Knowledge.Chunking.{
  KnowledgeChunk, Packing, Splitting, chunk_document, chunk_texts, join_words, no_parts,
  nothing_packed, number_chunks, pack_loop, pack_step, packed_texts, paragraphs_of, split_loop,
  split_oversized_paragraph, split_parts, split_step, units_of,
}
use ai_support_engineering_p.Knowledge.Whitespace.{blank, line_feed, split_blocks, strip, words}
use ai_support_engineering_p.Knowledge.Whitespace.Ink.{
  ink, ink-append, ink-join, ink-split_blocks, ink-strip, ink-words_from, ink_all, ink_all-append,
  ink_of_empty, ink_space, is_space-blank, is_space-line_feed,
}
use mathlib.Core.List.{append-nil, append_assoc}

join_space : (parts : List Text) → ink (join_words parts) ≡ ink_all parts
join_space parts = ink-join (blank ∷ []) parts (ink_space blank [] is_space-blank)

ink_all-snoc :
    (parts : List Text) (part : Text) → ink_all (parts ++ part ∷ []) ≡ ink_all parts ++ ink part
ink_all-snoc parts part = rw (ink_all-append parts (part ∷ []), append-nil (ink part)) refl

ink_all_of_empty : (parts : List Text) → is_empty parts ≡ true → ink_all parts ≡ []
ink_all_of_empty [] h = refl
ink_all_of_empty (part ∷ parts) h = cc

module _ (max_chars : ℕ) where
  -- The ink of all that a loop holds.
  abbrev held : Splitting → Text
  held s = ink_all s.parts ++ ink_all s.current

  split_step-ink :
      (s : Splitting) (word : Text) → held (split_step max_chars s word) ≡ held s ++ ink word
  unfolding split_step
  split_step-ink s word = ground (
    arith,
    ink_all-snoc s.parts (join_words s.current),
    join_space s.current,
    ink_all-snoc s.current word,
    append_assoc (ink_all s.parts) (ink_all s.current) (ink word),
    append-nil (ink word),
  )

  split_loop_ink :
      (s : Splitting) (ws : List Text) → held (split_loop max_chars s ws) ≡ held s ++ ink_all ws
  unfolding split_loop
  split_loop_ink s [] = sym (append-nil (held s))
  split_loop_ink s (word ∷ ws) =
      rw (split_loop_ink (split_step max_chars s word) ws, split_step-ink s word)
        (append_assoc (held s) (ink word) (ink_all ws))

  split_parts_ink : (s : Splitting) → ink_all (split_parts max_chars s) ≡ held s
  split_parts_ink s = ground (
    arith,
    ink_all-snoc s.parts (join_words s.current),
    join_space s.current,
    ink_all_of_empty s.current,
    append-nil (ink_all s.parts),
  )

  split_paragraph_ink :
      (paragraph : Text) → ink_all (split_oversized_paragraph max_chars paragraph) ≡ ink paragraph
  unfolding split_oversized_paragraph
  split_paragraph_ink paragraph =
      split_parts_ink (split_loop max_chars no_parts (words paragraph))
      ∙ split_loop_ink no_parts (words paragraph)
      ∙ ink-words_from [] paragraph

  units_ink :
      (paragraphs : List Text) → ink_all (units_of max_chars paragraphs) ≡ ink_all paragraphs
  unfolding units_of
  units_ink [] = refl
  units_ink (paragraph ∷ rest) = elim (Bool-cases (leb (length paragraph) max_chars)) [
    | inl e ↦ rw e (rw (units_ink rest) refl)
    | inr e ↦ rw e (
        rw
          (
            ink_all-append (split_oversized_paragraph max_chars paragraph)
                (units_of max_chars rest),
            units_ink rest,
            split_paragraph_ink paragraph,
          )
          refl)
  ]

  abbrev packed_ink : Packing → Text
  packed_ink s = ink_all s.packed ++ ink s.current

  pack_step-ink :
      (s : Packing) (unit : Text)
      → packed_ink (pack_step max_chars s unit) ≡ packed_ink s ++ ink unit
  unfolding pack_step
  pack_step-ink s unit = ground (
    arith,
    ink_all-snoc s.packed s.current,
    ink_of_empty s.current,
    ink-append s.current (line_feed ∷ line_feed ∷ unit),
    ink_space line_feed (line_feed ∷ unit) is_space-line_feed,
    ink_space line_feed unit is_space-line_feed,
    append_assoc (ink_all s.packed) (ink s.current) (ink unit),
    append-nil (ink_all s.packed),
  )

  pack_loop_ink :
      (s : Packing) (units : List Text)
      → packed_ink (pack_loop max_chars s units) ≡ packed_ink s ++ ink_all units
  unfolding pack_loop
  pack_loop_ink s [] = sym (append-nil (packed_ink s))
  pack_loop_ink s (unit ∷ units) =
      rw (pack_loop_ink (pack_step max_chars s unit) units, pack_step-ink s unit)
        (append_assoc (packed_ink s) (ink unit) (ink_all units))

  packed_texts_ink : (s : Packing) → ink_all (packed_texts max_chars s) ≡ packed_ink s
  packed_texts_ink s = ground (
    arith,
    ink_all-snoc s.packed s.current,
    ink_of_empty s.current,
    append-nil (ink_all s.packed),
  )

  paragraphs_ink : (content : Text) → ink_all (paragraphs_of max_chars content) ≡ ink content
  unfolding paragraphs_of
  paragraphs_ink content = kept (split_blocks 0 content) ∙ ink-split_blocks 0 content
    where
      kept :
          (blocks : List Text)
          → ink_all (keep (λ part. not (is_empty part)) (map strip blocks)) ≡ ink_all blocks
      kept [] = refl
      kept (block ∷ blocks) =
          ground (arith, kept blocks, ink-strip block, ink_of_empty (strip block))

  chunk_texts-ink : (content : Text) → ink_all (chunk_texts max_chars content) ≡ ink content
  unfolding chunk_texts
  chunk_texts-ink content =
      packed_texts_ink
        (pack_loop max_chars nothing_packed (units_of max_chars (paragraphs_of max_chars content)))
      ∙ pack_loop_ink nothing_packed (units_of max_chars (paragraphs_of max_chars content))
      ∙ units_ink (paragraphs_of max_chars content)
      ∙ paragraphs_ink content

abbrev pub contents : List KnowledgeChunk → List Text
contents chunks = map (λ c. c.content) chunks

pub contents-number_chunks :
    (hash : Text → String) (index : ℕ) (texts : List Text)
    → contents (number_chunks hash index texts) ≡ texts
unfolding number_chunks
contents-number_chunks hash index [] = refl
contents-number_chunks hash index (content ∷ texts) =
    rw (contents-number_chunks hash (suc index) texts) refl

-- The chunks of a document hold its text: without whitespace, the chunks one after the other are
-- the document, whatever the size that is asked for.
pub chunk_document-ink :
    (hash : Text → String) (content : Text) (max_chars : ℕ)
    → ink_all (contents (chunk_document hash content max_chars)) ≡ ink content
unfolding chunk_document
chunk_document-ink hash content max_chars =
    rw (contents-number_chunks hash 0 (chunk_texts max_chars content))
      (chunk_texts-ink max_chars content)
