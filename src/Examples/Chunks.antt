-- ===== src/Examples/Chunks.antt =====
-- Witnesses for the chunks of a document.
use ai_support_engineering_p.Common.{Text, [], codes, get_elem?, refl, some, ◌∷◌, ◌≡◌}
use ai_support_engineering_p.Knowledge.Chunking.{
  KnowledgeChunk, chunk_document, chunk_texts, number_chunks, pack_loop, pack_step, paragraphs_of,
  split_loop, split_oversized_paragraph, split_step, units_of,
}
use ai_support_engineering_p.Knowledge.Chunking.Bounded.{chunk_document-Fits}
use ai_support_engineering_p.Knowledge.Chunking.Complete.{chunk_document-ink, contents}
use ai_support_engineering_p.Knowledge.Chunking.Oversized.{Fits}
use ai_support_engineering_p.Knowledge.Whitespace.{
  break_length, is_space, join, left_strip, right_strip, split_blocks, words_from,
}
use ai_support_engineering_p.Knowledge.Whitespace.Ink.{ink, ink_all}

abbrev sample_document : Text
sample_document = codes "ab cd\n \n\nefgh ij kl\n\nm"

abbrev sample_chunk : KnowledgeChunk
sample_chunk = record { chunk_index = 1; content = codes "efgh"; content_hash = "h" }

cuts_document :
    contents (chunk_document (λ content. "h") sample_document 5)
    ≡ codes "ab cd" ∷ codes "efgh" ∷ codes "ij kl" ∷ codes "m" ∷ []
unfolding chunk_document chunk_texts paragraphs_of number_chunks pack_loop pack_step split_loop
    split_oversized_paragraph split_step units_of split_blocks is_space break_length left_strip
    right_strip words_from join
cuts_document = refl

chunk_document-ink_example :
    ink_all (contents (chunk_document (λ content. "h") sample_document 5)) ≡ ink sample_document
chunk_document-ink_example = chunk_document-ink (λ content. "h") sample_document 5

second_chunk : get_elem? (chunk_document (λ content. "h") sample_document 5) 1 ≡ some sample_chunk
unfolding chunk_document chunk_texts paragraphs_of number_chunks pack_loop pack_step split_loop
    split_oversized_paragraph split_step units_of split_blocks is_space break_length left_strip
    right_strip words_from join
second_chunk = refl

chunk_document-Fits_example :
    (sample_chunk.chunk_index ≡ 1) × (sample_chunk.content_hash ≡ "h") × Fits 5 sample_chunk.content
chunk_document-Fits_example =
    chunk_document-Fits 5 (λ content. "h") sample_document 1 sample_chunk second_chunk
