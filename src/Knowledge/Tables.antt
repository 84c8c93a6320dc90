-- ===== src/Knowledge/Tables.antt =====
-- The knowledge tables of db/models.py, and what knowledge/ingestion.py reads and writes in them. The
-- sequences that number new rows are part of the database.
use ai_support_engineering_p.Common.{
  Bool, List, String, Text, [], any, find, if◌then◌else◌, keep, leb, map, modify, none, not, some,
  ℕ, ◌++◌, ◌+◌, ◌==◌, ◌∷◌,
}
use ai_support_engineering_p.Knowledge.Loader.{KnowledgeSource}
use text.Mathlib.Text.{◌==◌ as str_eq}

pub record KnowledgeDocumentRecord : Type 0 where
  pub id : ℕ
  pub source_id : String
  pub title : String
  pub category : String
  pub version : String
  pub content_hash : String
  -- the column holds the object {"path": source_path}
  pub source_path : String

pub record KnowledgeChunkRecord : Type 0 where
  pub id : ℕ
  pub document_id : ℕ
  pub chunk_index : ℕ
  pub content : Text
  pub content_hash : String

-- A vector is kept as the bit patterns of its floats.
pub record KnowledgeEmbeddingRecord : Type 0 where
  pub chunk_id : ℕ
  pub provider : String
  pub model : String
  pub dimensions : ℕ
  pub content_hash : String
  pub embedding : List ℕ

pub record KnowledgeDb : Type 0 where
  pub documents : List KnowledgeDocumentRecord
  pub chunks : List KnowledgeChunkRecord
  pub embeddings : List KnowledgeEmbeddingRecord
  pub next_document : ℕ
  pub next_chunk : ℕ

abbrev pub of_source : String → KnowledgeDocumentRecord → Bool
of_source x d = str_eq d.source_id x

abbrev pub of_document : ℕ → KnowledgeChunkRecord → Bool
of_document d c = c.document_id == d

abbrev pub of_chunk : ℕ → KnowledgeEmbeddingRecord → Bool
of_chunk c e = e.chunk_id == c

abbrev pub Row : Type 0
Row = KnowledgeChunkRecord × KnowledgeEmbeddingRecord

abbrev pub pair_with : KnowledgeChunkRecord → List KnowledgeEmbeddingRecord → List Row
pair_with c [] = []
pair_with c (e ∷ embeddings) = (c, e) ∷ pair_with c embeddings

-- The join of chunks with their embeddings.
unfoldable pub join_rows : List KnowledgeEmbeddingRecord → List KnowledgeChunkRecord → List Row
join_rows embeddings [] = []
join_rows embeddings (c ∷ chunks) =
    pair_with c (keep (of_chunk c.id) embeddings) ++ join_rows embeddings chunks

-- The chunks of a document with their embeddings.
unfoldable pub rows_of : ℕ → KnowledgeDb → List Row
rows_of d db = join_rows db.embeddings (keep (of_document d) db.chunks)

-- `.order_by(KnowledgeChunkRecord.chunk_index)`
unfoldable pub insert_row_sorted : Row → List Row → List Row
insert_row_sorted r [] = r ∷ []
insert_row_sorted r (s ∷ rows) =
    if leb r.0.chunk_index s.0.chunk_index then r ∷ s ∷ rows else s ∷ insert_row_sorted r rows

unfoldable pub order_rows : List Row → List Row
order_rows [] = []
order_rows (r ∷ rows) = insert_row_sorted r (order_rows rows)

unfoldable pub stored_rows : ℕ → KnowledgeDb → List Row
stored_rows d db = order_rows (rows_of d db)

abbrev pub new_document : KnowledgeSource → ℕ → KnowledgeDocumentRecord
new_document source i = record {
  id = i;
  source_id = source.source_id;
  title = source.title;
  category = source.category;
  version = source.version;
  content_hash = source.content_hash;
  source_path = source.path;
}

abbrev pub write_document : KnowledgeSource → KnowledgeDocumentRecord → KnowledgeDocumentRecord
write_document source d = record d {
  title = source.title;
  category = source.category;
  version = source.version;
  content_hash = source.content_hash;
  source_path = source.path;
}

-- Deletes the chunks of a document and their embeddings.
unfoldable pub delete_chunks : ℕ → KnowledgeDb → KnowledgeDb
delete_chunks d db =
    let chunk_ids = map (λ c. c.id) (keep (of_document d) db.chunks) in
    record db {
      chunks = keep (λ c. not (of_document d c)) db.chunks;
      embeddings = keep (λ e. not (any (λ i. e.chunk_id == i) chunk_ids)) db.embeddings;
    }

-- The document of a source, created or emptied, with its id.
unfoldable pub prepare_document : KnowledgeSource → KnowledgeDb → ℕ × KnowledgeDb
prepare_document source db = elim (find (of_source source.source_id) db.documents) [
  | none ↦ (
    db.next_document,
    record db {
      documents = db.documents ++ new_document source db.next_document ∷ [];
      next_document = db.next_document + 1;
    },
  )
  | some document ↦ (
    document.id,
    let emptied = delete_chunks document.id db in
        record emptied {
          documents = modify (of_source source.source_id) (write_document source) db.documents;
        },
  )
]
