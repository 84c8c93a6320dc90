-- ===== src/Knowledge/Ingestion.antt =====
-- `KnowledgeIngestor` of knowledge/ingestion.py. A session commits all of its
-- writes or none.
pub mod Sessions
pub mod Valid
pub mod Stored
pub mod Prepared
pub mod Current
pub mod Rounds
pub mod Idempotent
use ai_support_engineering_p.Common.{
  Bool, List, Option, String, Text, [], any, codes, false, find, if◌then◌else◌, is_empty, keep, leb,
  length, map, modify, none, not, some, true, ℕ, ◌&&◌, ◌++◌, ◌+◌, ◌==◌, ◌∷◌,
}
use ai_support_engineering_p.Common.Exec.{Exec, Result, err, ok, pure, ◌>>=◌}
use ai_support_engineering_p.Knowledge.Chunking.{KnowledgeChunk, chunk_document}
use ai_support_engineering_p.Knowledge.Loader.{KnowledgeSource}
use ai_support_engineering_p.Knowledge.Tables.{
  KnowledgeDocumentRecord, KnowledgeChunkRecord, KnowledgeEmbeddingRecord, KnowledgeDb, of_source,
  Row, stored_rows, prepare_document,
}
use text.Mathlib.Text.{◌==◌ as str_eq}

pub record KnowledgeWorld : Type 0 where
  pub db : KnowledgeDb
  pub tick : ℕ

pub data KnowledgeError : Type 0 where
  provider_error database_error : Text → KnowledgeError
  -- `zip(strict=True)`: as many vectors as chunks, or vectors of one length
  length_mismatch : KnowledgeError
  -- `embed_texts([query])[0]` on an empty answer
  no_vector : KnowledgeError

-- The embedding provider, the driver and the digest.
pub record Embedder : Type 0 where
  pub provider_name : String
  pub model_name : String
  pub dimensions : ℕ
  pub embed_texts : ℕ → List Text → Result Text (List (List ℕ))
  pub session_fault : ℕ → Option Text
  pub hash : Text → String

pub record IngestionResult : Type 0 where
  pub documents_updated : ℕ
  pub documents_unchanged : ℕ
  pub chunks_embedded : ℕ

abbrev pub nothing_ingested : IngestionResult
nothing_ingested = record { documents_updated = 0; documents_unchanged = 0; chunks_embedded = 0 }

abbrev pub Ingest : Type 0 → Type 0
Ingest A = Exec KnowledgeWorld KnowledgeError A

module _ (embedder : Embedder) where
  abbrev pub read_session : {A : Type 0} → (KnowledgeDb → A) → Ingest A
  read_session f w = elim (embedder.session_fault w.tick) [
    | some message ↦ (err (database_error message), record w { tick = w.tick + 1 })
    | none ↦ (ok (f w.db), record w { tick = w.tick + 1 })
  ]

  abbrev pub commit_result :
      KnowledgeWorld
      → Result KnowledgeError KnowledgeDb
      → Result KnowledgeError (Unit {0}) × KnowledgeWorld
  commit_result w (ok db) = (ok tt, record { db = db; tick = w.tick + 1 })
  commit_result w (err e) = (err e, record w { tick = w.tick + 1 })

  abbrev pub write_session : (KnowledgeDb → Result KnowledgeError KnowledgeDb) → Ingest (Unit {0})
  write_session f w = commit_result w (elim (embedder.session_fault w.tick) [
    | some message ↦ err (database_error message)
    | none ↦ f w.db
  ])

  abbrev pub answered : Result Text (List (List ℕ)) → Result KnowledgeError (List (List ℕ))
  answered (ok vectors) = ok vectors
  answered (err message) = err (provider_error message)

  abbrev pub embed : List Text → Ingest (List (List ℕ))
  embed texts w = (answered (embedder.embed_texts w.tick texts), record w { tick = w.tick + 1 })

module _ (embedder : Embedder) (chunk_size : ℕ) where
  abbrev pub row_matches : Row → KnowledgeChunk → Bool
  row_matches r expected =
      (r.0.chunk_index == expected.chunk_index)
      && (str_eq r.0.content_hash expected.content_hash
          && (str_eq r.1.content_hash expected.content_hash
              && (str_eq r.1.provider embedder.provider_name
                  && (str_eq r.1.model embedder.model_name
                      && (r.1.dimensions == embedder.dimensions)))))

  -- `all(... for (row, expected) in zip(rows, chunks, strict=True))`, after the test of the lengths.
  unfoldable pub rows_match : List Row → List KnowledgeChunk → Bool
  rows_match [] [] = true
  rows_match (r ∷ rows) (expected ∷ chunks) = row_matches r expected && rows_match rows chunks
  rows_match _ _ = false

  -- `_is_current`
  unfoldable pub is_current :
      KnowledgeDb → KnowledgeDocumentRecord → String → List KnowledgeChunk → Bool
  is_current db document expected_source_hash chunks =
      not (is_empty chunks)
      && (str_eq document.content_hash expected_source_hash
          && ((length (stored_rows document.id db) == length chunks)
              && rows_match (stored_rows document.id db) chunks))

  abbrev pub metadata_current : KnowledgeDocumentRecord → KnowledgeSource → Bool
  metadata_current document source =
      str_eq document.title source.title
      && (str_eq document.category source.category
          && (str_eq document.version source.version && str_eq document.source_path source.path))

  abbrev pub chunks_of : KnowledgeSource → List KnowledgeChunk
  chunks_of source = chunk_document embedder.hash source.content chunk_size

  abbrev pub document_current :
      KnowledgeSource → KnowledgeDb → Option KnowledgeDocumentRecord → Bool
  document_current source db none = false
  document_current source db (some document) =
      metadata_current document source
      && is_current db document source.content_hash (chunks_of source)

  -- What the first session finds.
  unfoldable pub up_to_date : KnowledgeSource → KnowledgeDb → Bool
  up_to_date source db = document_current source db (find (of_source source.source_id) db.documents)

  abbrev pub chunk_row : ℕ → ℕ → KnowledgeChunk → KnowledgeChunkRecord
  chunk_row d i chunk = record {
    id = i;
    document_id = d;
    chunk_index = chunk.chunk_index;
    content = chunk.content;
    content_hash = chunk.content_hash;
  }

  abbrev pub embedding_row : ℕ → KnowledgeChunk → List ℕ → KnowledgeEmbeddingRecord
  embedding_row i chunk vector = record {
    chunk_id = i;
    provider = embedder.provider_name;
    model = embedder.model_name;
    dimensions = embedder.dimensions;
    content_hash = chunk.content_hash;
    embedding = vector;
  }

  abbrev pub add_pair : ℕ → KnowledgeChunk → List ℕ → KnowledgeDb → KnowledgeDb
  add_pair d chunk vector db = record db {
    chunks = db.chunks ++ chunk_row d db.next_chunk chunk ∷ [];
    embeddings = db.embeddings ++ embedding_row db.next_chunk chunk vector ∷ [];
    next_chunk = db.next_chunk + 1;
  }

  -- The loop over `zip(chunks, vectors, strict=True)`.
  unfoldable pub add_pairs :
      ℕ → List KnowledgeChunk → List (List ℕ) → KnowledgeDb → Result KnowledgeError KnowledgeDb
  add_pairs d [] [] db = ok db
  add_pairs d (chunk ∷ chunks) (vector ∷ vectors) db =
      add_pairs d chunks vectors (add_pair d chunk vector db)
  add_pairs d _ _ db = err length_mismatch

  -- The second session.
  unfoldable pub replace_source :
      KnowledgeSource → List (List ℕ) → KnowledgeDb → Result KnowledgeError KnowledgeDb
  replace_source source vectors db =
      let prepared = prepare_document source db in
      add_pairs prepared.0 (chunks_of source) vectors prepared.1

  abbrev pub search_document : KnowledgeChunk → Text
  search_document chunk = codes "search_document: " ++ chunk.content

  abbrev pub update_source : KnowledgeSource → Ingest (Unit {0})
  update_source source = do
    vectors ← embed embedder (map search_document (chunks_of source))
    write_session embedder (replace_source source vectors)

  -- One round of the loop: whether the source was updated.
  abbrev pub update_if : KnowledgeSource → Bool → Ingest Bool
  update_if source true = pure false
  update_if source false = do done ← update_source source; pure true

  unfoldable pub ingest_source : KnowledgeSource → Ingest Bool
  ingest_source source = do
    current ← read_session embedder (up_to_date source)
    update_if source current

  abbrev pub counted : KnowledgeSource → Bool → IngestionResult → IngestionResult
  counted source true r = record r {
    documents_updated = r.documents_updated + 1;
    chunks_embedded = r.chunks_embedded + length (chunks_of source);
  }
  counted source false r = record r { documents_unchanged = r.documents_unchanged + 1 }

  unfoldable pub ingest_loop : List KnowledgeSource → IngestionResult → Ingest IngestionResult
  ingest_loop [] r = pure r
  ingest_loop (source ∷ sources) r = do
    updated ← ingest_source source
    ingest_loop sources (counted source updated r)

  -- `ingest`, on the sources that were loaded.
  unfoldable pub ingest : List KnowledgeSource → Ingest IngestionResult
  ingest sources = ingest_loop sources nothing_ingested
