-- ===== src/Examples/Search.antt =====
-- Witnesses for the search of the knowledge base.
use ai_support_engineering_p.Common.{
  Bool, List, [], codes, false, none, not, refl, some, sorted, true, ℕ, ◌==◌, ◌∷◌, ◌≡◌,
}
use ai_support_engineering_p.Common.Exec.{err, lift, ok, ◌>>=◌}
use ai_support_engineering_p.Db.Json.{ℤ}
use ai_support_engineering_p.Examples.Library.{sample_embedder}
use ai_support_engineering_p.Knowledge.Ingestion.{KnowledgeError, KnowledgeWorld}
use ai_support_engineering_p.Knowledge.Retrieval.{
  Engine, RetrievedChunk, clamped, result_limit, retrieve_in_session, retrieve_portable,
  retrieve_postgresql, retrieve_query, to_result, with_all_documents, with_documents,
}
use ai_support_engineering_p.Knowledge.Retrieval.Found.{Searched, retrieve_query_lem}
use ai_support_engineering_p.Knowledge.Tables.{
  KnowledgeChunkRecord, KnowledgeEmbeddingRecord, join_rows,
}

abbrev first_component : List ℕ → ℕ
first_component [] = 0
first_component (x ∷ u) = x

-- The distance is the first component, and the index scan misses chunk 4.
abbrev sample_engine : Bool → Engine
sample_engine is_postgresql = record {
  is_postgresql = is_postgresql;
  cosine_similarity = λ u query. ℤ.negsuc (first_component u);
  cosine_distance = λ u query. first_component u;
  complement = ℤ.negsuc;
  visited = λ query c. not (c.chunk.id == 4);
}

abbrev chunk_numbered : ℕ → ℕ → KnowledgeChunkRecord
chunk_numbered i place = record {
  id = i;
  document_id = 1;
  chunk_index = place;
  content = codes "ab";
  content_hash = "h";
}

abbrev embedding_numbered : ℕ → List ℕ → KnowledgeEmbeddingRecord
embedding_numbered i vector = record {
  chunk_id = i;
  provider = "ollama";
  model = "nomic";
  dimensions = 768;
  content_hash = "h";
  embedding = vector;
}

abbrev searched : KnowledgeWorld
searched = record {
  db = record {
    documents =
        record {
          id = 1;
          source_id = "timeouts";
          title = "Runbook";
          category = "http";
          version = "1";
          content_hash = "h";
          source_path = "runbook.md";
        }
        ∷ [];
    chunks = chunk_numbered 1 0 ∷ chunk_numbered 2 1 ∷ chunk_numbered 3 2 ∷ chunk_numbered 4 3 ∷ [];
    embeddings =
        embedding_numbered 1 (9 ∷ [])
        ∷ embedding_numbered 2 (1 ∷ [])
        ∷ embedding_numbered 3 (1 ∷ [])
        ∷ embedding_numbered 4 (0 ∷ [])
        ∷ [];
    next_document = 2;
    next_chunk = 5;
  };
  tick = 0;
}

abbrev result_numbered : ℕ → RetrievedChunk
result_numbered i = record {
  chunk_id = i;
  source_id = "timeouts";
  title = "Runbook";
  category = "http";
  content = codes "ab";
  similarity = ℤ.negsuc 1;
}

finds_two :
    retrieve_query sample_embedder
      (sample_engine true)
      2
      (codes "slow")
      (some 5)
      (some "http")
      searched
    ≡ (ok (result_numbered 2 ∷ result_numbered 3 ∷ []), record searched { tick = 2 })
unfolding retrieve_query ◌>>=◌ lift retrieve_in_session retrieve_postgresql result_limit join_rows
    with_all_documents with_documents sorted to_result clamped
finds_two = refl

abbrev uneven_library : KnowledgeWorld
uneven_library = record searched {
  db = record searched.db { embeddings = embedding_numbered 1 (9 ∷ 2 ∷ []) ∷ [] };
}

-- The portable search refuses a vector that is longer than the question's.
refuses :
    retrieve_query sample_embedder (sample_engine false) 2 (codes "slow") none none uneven_library
    ≡ (err KnowledgeError.length_mismatch, record uneven_library { tick = 2 })
unfolding retrieve_query ◌>>=◌ lift retrieve_in_session retrieve_portable join_rows
    with_all_documents with_documents
refuses = refl

retrieve_query_lem_example :
    Searched (sample_engine true) sample_embedder 2 (codes "slow") (some 5) (some "http") searched (
      retrieve_query sample_embedder
        (sample_engine true)
        2
        (codes "slow")
        (some 5)
        (some "http")
        searched)
retrieve_query_lem_example =
    retrieve_query_lem (sample_engine true) sample_embedder 2 (codes "slow") (some 5) (some "http")
      searched
