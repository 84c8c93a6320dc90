-- ===== src/Knowledge/Ingestion/Current.antt =====
-- Which sources are up to date after one was written.
use mathlib.Core.Option
use ai_support_engineering_p.Common.{
  ==-refl, List, Option, ap, arith, false, find, is_empty, keep, keep-Mem, keep-append, length,
  none, refl, some, sym, true, ℕ, ◌∙◌, ◌≡◌, ◌≢◌,
}
use ai_support_engineering_p.Knowledge.Chunking.{KnowledgeChunk, chunk_document, chunk_texts}
use ai_support_engineering_p.Knowledge.Chunking.Oversized.{full}
use ai_support_engineering_p.Knowledge.Ingestion.{
  Embedder, chunks_of, document_current, is_current, up_to_date,
}
use ai_support_engineering_p.Knowledge.Tables.{
  KnowledgeChunkRecord, KnowledgeDb, KnowledgeDocumentRecord, of_chunk, of_document, of_source,
  prepare_document, rows_of, stored_rows,
}
use ai_support_engineering_p.Knowledge.Ingestion.Prepared.{
  Prepared, join_rows_cong, prepare_document-Prepared,
}
use ai_support_engineering_p.Knowledge.Ingestion.Stored.{
  ==-gt, ==-ne, appended, join_new, keep_all, keep_none, length-new_rows, new_chunks, new_chunks_id,
  new_embeddings, new_embeddings_id, new_rows, new_rows_match, order_new,
}
use ai_support_engineering_p.Knowledge.Ingestion.Valid.{Valid, prepare_document-Valid}
use ai_support_engineering_p.Knowledge.Loader.{KnowledgeSource}
use mathlib.Core.List.{Memᴰ, append-nil}
use text.Mathlib.TextPositions.{eq_refl}

module _ (embedder : Embedder) (chunk_size : ℕ) (source : KnowledgeSource) (vectors : List (List ℕ))
    (db : KnowledgeDb) (v : Valid db) where
  abbrev d : ℕ
  d = (prepare_document source db).0

  abbrev p : KnowledgeDb
  p = (prepare_document source db).1

  abbrev chunks : List KnowledgeChunk
  chunks = chunks_of embedder chunk_size source

  abbrev after : KnowledgeDb
  after = appended embedder chunk_size d chunks vectors p

  facts : Prepared source db d p
  facts = prepare_document-Prepared source db v

  ready : Valid p
  ready = prepare_document-Valid source db v

  -- The rows of another document are those it had.
  rows_of_other : (d' : ℕ) → d' ≢ d → rows_of d' after ≡ rows_of d' db
  unfolding rows_of
  rows_of_other d' n =
      rw same_chunks (join_rows_cong _ p.embeddings (keep (of_document d') p.chunks) alone)
      ∙ facts.kept d' n
    where
      same_chunks : keep (of_document d') after.chunks ≡ keep (of_document d') p.chunks
      same_chunks =
          keep-append (of_document d') p.chunks
            (new_chunks embedder chunk_size d p.next_chunk chunks)
          ∙ rw
              (keep_none (of_document d') (new_chunks embedder chunk_size d p.next_chunk chunks)
                λ c m. ==-ne c.document_id d' (λ e.
                  n (sym e ∙ (new_chunks_id embedder chunk_size d p.next_chunk chunks c m).1)))
              (append-nil (keep (of_document d') p.chunks))

      alone :
          (c : KnowledgeChunkRecord)
          → Memᴰ c (keep (of_document d') p.chunks)
          → keep (of_chunk c.id) after.embeddings ≡ keep (of_chunk c.id) p.embeddings
      alone c m =
          let low = (ready.owned c (keep-Mem (of_document d') p.chunks m).0).0 in
          keep-append (of_chunk c.id) p.embeddings
            (new_embeddings embedder chunk_size d p.next_chunk chunks vectors)
          ∙ rw
              (keep_none (of_chunk c.id)
                (new_embeddings embedder chunk_size d p.next_chunk chunks vectors)
                λ e k.
                  let high =
                    new_embeddings_id embedder chunk_size d p.next_chunk chunks vectors e k in
                  ==-gt e.chunk_id c.id (omega arith))
              (append-nil (keep (of_chunk c.id) p.embeddings))

  rows_of_own :
      length chunks ≡ length vectors
      → rows_of d after ≡ new_rows embedder chunk_size d p.next_chunk chunks vectors
  unfolding rows_of
  rows_of_own n =
      rw own_chunks
        (join_new embedder chunk_size d p.next_chunk chunks vectors p.embeddings n ready.embedded)
    where
      own_chunks :
          keep (of_document d) after.chunks ≡ new_chunks embedder chunk_size d p.next_chunk chunks
      own_chunks =
          keep-append (of_document d) p.chunks
            (new_chunks embedder chunk_size d p.next_chunk chunks)
          ∙ rw
              (
                keep_none (of_document d) p.chunks facts.cleared,
                keep_all (of_document d) (new_chunks embedder chunk_size d p.next_chunk chunks)
                    λ c m.
                      rw ((new_chunks_id embedder chunk_size d p.next_chunk chunks c m).1)
                        (==-refl d),
              )
              refl

  stored_rows_own :
      length chunks ≡ length vectors
      → stored_rows d after ≡ new_rows embedder chunk_size d p.next_chunk chunks vectors
  unfolding stored_rows chunk_document
  stored_rows_own n = rw (rows_of_own n) (
      order_new embedder chunk_size d p.next_chunk 0 embedder.hash
        (chunk_texts chunk_size source.content) vectors)

  -- A source that has a chunk is up to date once it was written.
  pub up_to_date-written :
      length chunks ≡ length vectors
      → is_empty chunks ≡ false
      → up_to_date embedder chunk_size source after ≡ true
  unfolding up_to_date is_current
  up_to_date-written n full =
      let w = facts.written in
      let title : facts.document.title ≡ source.title = sym (ap (λ r. r.title) w) in
      let category : facts.document.category ≡ source.category = sym (ap (λ r. r.category) w) in
      let version : facts.document.version ≡ source.version = sym (ap (λ r. r.version) w) in
      let path : facts.document.source_path ≡ source.path = sym (ap (λ r. r.source_path) w) in
      let hashed : facts.document.content_hash ≡ source.content_hash =
        sym (ap (λ r. r.content_hash) w) in
      rw
        (
          facts.found,
          title,
          category,
          version,
          path,
          hashed,
          facts.numbered,
          stored_rows_own n,
          full,
          eq_refl source.title,
          eq_refl source.category,
          eq_refl source.version,
          eq_refl source.path,
          eq_refl source.content_hash,
          length-new_rows embedder chunk_size d p.next_chunk chunks vectors n,
          ==-refl (length chunks),
          new_rows_match embedder chunk_size d p.next_chunk chunks vectors n,
        )
        refl

  elsewhere :
      (t : KnowledgeSource) (document : KnowledgeDocumentRecord)
      → t.source_id ≢ source.source_id
      → find (of_source t.source_id) p.documents ≡ some document
      → document.id ≢ d
  elsewhere t document n e q = n (
      ready.apart t.source_id source.source_id d (ap (Option.map (λ r. r.id)) e ∙ ap some q)
        (ap (Option.map (λ r. r.id)) facts.found ∙ ap some facts.numbered))

  same_document :
      (t : KnowledgeSource) (o : Option KnowledgeDocumentRecord)
      → ((document : KnowledgeDocumentRecord) → o ≡ some document → document.id ≢ d)
      → document_current embedder chunk_size t after o ≡ document_current embedder chunk_size t db o
  unfolding is_current stored_rows
  same_document t none h = refl
  same_document t (some document) h = rw (rows_of_other document.id (h document refl)) refl

  -- Another source is as up to date as it was.
  pub up_to_date-other :
      (t : KnowledgeSource)
      → t.source_id ≢ source.source_id
      → up_to_date embedder chunk_size t after ≡ up_to_date embedder chunk_size t db
  unfolding up_to_date
  up_to_date-other t n =
      same_document t (find (of_source t.source_id) p.documents)
        (λ document e. elsewhere t document n e)
      ∙ ap (document_current embedder chunk_size t db) (facts.others t.source_id n)
