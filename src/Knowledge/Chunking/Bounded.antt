-- ===== src/Knowledge/Chunking/Bounded.antt =====
-- The size of the chunks of a document.
use ai_support_engineering_p.Common.{
  All, All-append, Bool-cases, List, String, Text, [], ap, arith, false, get_elem?, inl, inr,
  is_empty, keep, leb, leb→le, length, length-append, ltb, ltb-false→le, map, not, refl, some,
  some_same, subst, suc, sym, zero, ℕ, ◌++◌, ◌+◌, ◌∙◌, ◌∷◌, ◌≡◌, ◌≤◌,
}
use ai_support_engineering_p.Knowledge.Chunking.{
  KnowledgeChunk, Packing, chunk_document, chunk_texts, nothing_packed, number_chunks, pack_loop,
  pack_step, packed_texts, paragraphs_of, split_oversized_paragraph, units_of,
}
use ai_support_engineering_p.Knowledge.Chunking.Oversized.{
  Fits, full, snoc-Fits, split_paragraph-Fits,
}
use ai_support_engineering_p.Knowledge.Whitespace.{line_feed, split_blocks, strip}

module _ (max_chars : ℕ) where
  units-Fits :
      (paragraphs : List Text)
      → All (λ p. 1 ≤ length p) paragraphs
      → All (Fits max_chars) (units_of max_chars paragraphs)
  unfolding units_of
  units-Fits [] h = tt
  units-Fits (paragraph ∷ rest) h = elim (Bool-cases (leb (length paragraph) max_chars)) [
    | inl e ↦ rw e ((h.0, inl (leb→le _ _ e)), units-Fits rest h.1)
    | inr e ↦ rw e (
        All-append (Fits max_chars) (split_oversized_paragraph max_chars paragraph)
          (units_of max_chars rest) (split_paragraph-Fits max_chars paragraph)
          (units-Fits rest h.1))
  ]

  record Packs (s : Packing) : Type 0 where
    packed_fit : All (Fits max_chars) s.packed
    current_fits : is_empty s.current ≡ false → Fits max_chars s.current

  pack_step-Packs :
      (s : Packing) (unit : Text)
      → Fits max_chars unit
      → Packs s
      → Packs (pack_step max_chars s unit)
  unfolding pack_step
  pack_step-Packs s unit f k = elim (Bool-cases (is_empty s.current)) [
    | inl e ↦ rw e (record { packed_fit = k.packed_fit; current_fits = λ q. f })
    | inr e ↦
        elim (Bool-cases (ltb max_chars (length (s.current ++ line_feed ∷ line_feed ∷ unit)))) [
          | inl o ↦
              rw (e, o)
                (record {
                  packed_fit =
                      snoc-Fits max_chars s.packed s.current k.packed_fit (k.current_fits e);
                  current_fits = λ q. f;
                })
          | inr o ↦
              let joined = length-append s.current (line_feed ∷ line_feed ∷ unit) in
              rw (e, o)
                (record {
                  packed_fit = k.packed_fit;
                  current_fits = λ q. (ground arith, inl (ltb-false→le _ _ o));
                })
        ]
  ]

  pack_loop-Packs :
      (s : Packing) (units : List Text)
      → All (Fits max_chars) units
      → Packs s
      → Packs (pack_loop max_chars s units)
  unfolding pack_loop
  pack_loop-Packs s [] f k = k
  pack_loop-Packs s (unit ∷ units) f k =
      pack_loop-Packs (pack_step max_chars s unit) units f.1 (pack_step-Packs s unit f.0 k)

  packed_texts-Fits : (s : Packing) → Packs s → All (Fits max_chars) (packed_texts max_chars s)
  packed_texts-Fits s k = elim (Bool-cases (is_empty s.current)) [
    | inl e ↦ rw e k.packed_fit
    | inr e ↦ rw e (snoc-Fits max_chars s.packed s.current k.packed_fit (k.current_fits e))
  ]

  paragraphs_full :
      (blocks : List Text) → All (λ p. 1 ≤ length p) (keep (λ part. not (is_empty part)) blocks)
  paragraphs_full [] = tt
  paragraphs_full (block ∷ blocks) = elim (Bool-cases (is_empty block)) [
    | inl e ↦ rw e (paragraphs_full blocks)
    | inr e ↦ rw e (full block e, paragraphs_full blocks)
  ]

  chunk_texts-Fits : (content : Text) → All (Fits max_chars) (chunk_texts max_chars content)
  unfolding chunk_texts paragraphs_of
  chunk_texts-Fits content =
      packed_texts-Fits
        (pack_loop max_chars nothing_packed (units_of max_chars (paragraphs_of max_chars content)))
        (pack_loop-Packs nothing_packed (units_of max_chars (paragraphs_of max_chars content))
          (units-Fits (paragraphs_of max_chars content)
            (paragraphs_full (map strip (split_blocks 0 content))))
          (record { packed_fit = tt; current_fits = λ e. cc }))

  number_chunks_lem :
      (hash : Text → String) (index i : ℕ) (texts : List Text) (chunk : KnowledgeChunk)
      → All (Fits max_chars) texts
      → get_elem? (number_chunks hash index texts) i ≡ some chunk
      → (chunk.chunk_index ≡ index + i)
        × (chunk.content_hash ≡ hash chunk.content)
        × Fits max_chars chunk.content
  unfolding number_chunks
  number_chunks_lem hash index i [] chunk f h = cc
  number_chunks_lem hash index zero (content ∷ texts) chunk f h =
      let same = some_same h in
      (
        sym (ap (λ c. c.chunk_index) same) ∙ omega arith,
        subst (λ c. c.content_hash ≡ hash c.content) same refl,
        subst (λ c. Fits max_chars c.content) same f.0,
      )
  number_chunks_lem hash index (suc i) (content ∷ texts) chunk f h =
      let (place, hashed, fits) = number_chunks_lem hash (suc index) i texts chunk f.1 h in
      (place ∙ omega arith, hashed, fits)

  -- The chunk at place i of a document has the index i and its own hash, it is not empty, and it
  -- has at most `max_chars` characters unless it is a single word.
  pub chunk_document-Fits :
      (hash : Text → String) (content : Text) (i : ℕ) (chunk : KnowledgeChunk)
      → get_elem? (chunk_document hash content max_chars) i ≡ some chunk
      → (chunk.chunk_index ≡ i)
        × (chunk.content_hash ≡ hash chunk.content)
        × Fits max_chars chunk.content
  unfolding chunk_document
  chunk_document-Fits hash content i chunk h =
      let (index, hashed, fits) =
        number_chunks_lem hash 0 i (chunk_texts max_chars content) chunk (chunk_texts-Fits content)
          h in
      (omega arith, hashed, fits)
