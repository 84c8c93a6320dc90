-- ===== src/Knowledge/Chunking.antt =====
-- `chunk_document` of knowledge/chunking.py: paragraphs, packed into chunks of bounded size.
pub mod Complete
pub mod Oversized
pub mod Bounded
use ai_support_engineering_p.Common.{
  List, String, Text, [], if◌then◌else◌, is_empty, keep, leb, length, ltb, map, not, suc, ℕ, ◌&&◌,
  ◌++◌, ◌+◌, ◌∷◌,
}
use ai_support_engineering_p.Knowledge.Whitespace.{
  blank, join, line_feed, split_blocks, strip, words,
}

pub record KnowledgeChunk : Type 0 where
  pub chunk_index : ℕ
  pub content : Text
  pub content_hash : String

-- The local variables of `_split_oversized_paragraph`.
pub record Splitting : Type 0 where
  pub parts : List Text
  pub current : List Text
  pub current_length : ℕ

-- Those of the packing loop of `chunk_document`.
pub record Packing : Type 0 where
  pub packed : List Text
  pub current : Text

abbrev pub no_parts : Splitting
no_parts = record { parts = []; current = []; current_length = 0 }

abbrev pub nothing_packed : Packing
nothing_packed = record { packed = []; current = [] }

abbrev pub join_words : List Text → Text
join_words = join (blank ∷ [])

module _ (max_chars : ℕ) where
  unfoldable pub split_step : Splitting → Text → Splitting
  split_step s word =
      let added = length word + (if is_empty s.current then 0 else 1) in
      if not (is_empty s.current) && ltb max_chars (s.current_length + added)
      then record {
        parts = s.parts ++ join_words s.current ∷ [];
        current = word ∷ [];
        current_length = length word;
      }
      else record s { current = s.current ++ word ∷ []; current_length = s.current_length + added }

  unfoldable pub split_loop : Splitting → List Text → Splitting
  split_loop s [] = s
  split_loop s (word ∷ rest) = split_loop (split_step s word) rest

  abbrev pub split_parts : Splitting → List Text
  split_parts s = if is_empty s.current then s.parts else s.parts ++ join_words s.current ∷ []

  unfoldable pub split_oversized_paragraph : Text → List Text
  split_oversized_paragraph paragraph = split_parts (split_loop no_parts (words paragraph))

  unfoldable pub units_of : List Text → List Text
  units_of [] = []
  units_of (paragraph ∷ rest) =
      (if leb (length paragraph) max_chars
        then paragraph ∷ []
        else split_oversized_paragraph paragraph)
      ++ units_of rest

  unfoldable pub pack_step : Packing → Text → Packing
  pack_step s unit =
      let candidate =
        if is_empty s.current then unit else s.current ++ line_feed ∷ line_feed ∷ unit in
      if not (is_empty s.current) && ltb max_chars (length candidate)
      then record { packed = s.packed ++ s.current ∷ []; current = unit }
      else record s { current = candidate }

  unfoldable pub pack_loop : Packing → List Text → Packing
  pack_loop s [] = s
  pack_loop s (unit ∷ rest) = pack_loop (pack_step s unit) rest

  abbrev pub packed_texts : Packing → List Text
  packed_texts s = if is_empty s.current then s.packed else s.packed ++ s.current ∷ []

  unfoldable pub paragraphs_of : Text → List Text
  paragraphs_of content = keep (λ part. not (is_empty part)) (map strip (split_blocks 0 content))

  unfoldable pub chunk_texts : Text → List Text
  chunk_texts content = packed_texts (pack_loop nothing_packed (units_of (paragraphs_of content)))

-- `enumerate`, from an index on; `hash` is `content_hash` of knowledge/loader.py, a SHA-256 digest.
unfoldable pub number_chunks : (Text → String) → ℕ → List Text → List KnowledgeChunk
number_chunks hash index [] = []
number_chunks hash index (content ∷ rest) =
    record { chunk_index = index; content = content; content_hash = hash content }
    ∷ number_chunks hash (suc index) rest

unfoldable pub chunk_document : (Text → String) → Text → ℕ → List KnowledgeChunk
chunk_document hash content max_chars = number_chunks hash 0 (chunk_texts max_chars content)
