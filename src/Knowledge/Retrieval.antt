-- ===== src/Knowledge/Retrieval.antt =====
-- `KnowledgeRetriever` of knowledge/retrieval.py. A similarity is a double in [-1, 1], a multiple
-- of 2 ^ -1074; the model counts those. The cosine of two vectors of one length, pgvector's distance
-- and which rows an index scan visits are arguments.
pub mod Ranked
pub mod Sessions
pub mod Found
pub mod Candidates
use ai_support_engineering_p.Common.{
  Bool, List, Option, String, Text, [], any, codes, false, if◌then◌else◌, keep, leb, length, map,
  min, none, not, some, sorted, suc, take, true, zero, ℕ, ◌&&◌, ◌++◌, ◌-◌, ◌==◌, ◌^◌, ◌∷◌,
}
use ai_support_engineering_p.Common.Exec.{Result, err, lift, ok, pure, raise, ◌>>=◌, ◌>>◌}
use ai_support_engineering_p.Db.{IncidentRecord}
use ai_support_engineering_p.Db.Json.{ℤ}
use ai_support_engineering_p.Knowledge.Ingestion.{
  Embedder, Ingest, KnowledgeError, embed, read_session,
}
use ai_support_engineering_p.Knowledge.Tables.{
  KnowledgeChunkRecord, KnowledgeDb, KnowledgeDocumentRecord, KnowledgeEmbeddingRecord, Row,
  join_rows,
}
use ai_support_engineering_p.Knowledge.Whitespace.{join}
use ai_support_engineering_p.Workers.Processor.{classification_value, severity_value}
use text.Mathlib.Text.{◌==◌ as str_eq}

pub record RetrievedChunk : Type 0 where
  pub chunk_id : ℕ
  pub source_id : String
  pub title : String
  pub category : String
  pub content : Text
  pub similarity : ℤ

-- A row of the query.
pub record Candidate : Type 0 where
  pub chunk : KnowledgeChunkRecord
  pub embedding : KnowledgeEmbeddingRecord
  pub document : KnowledgeDocumentRecord

abbrev pub leb_int : ℤ → ℤ → Bool
leb_int (ℤ.pos a) (ℤ.pos b) = leb a b
leb_int (ℤ.negsuc a) (ℤ.pos b) = true
leb_int (ℤ.pos a) (ℤ.negsuc b) = false
leb_int (ℤ.negsuc a) (ℤ.negsuc b) = leb b a

-- 1.0
abbrev pub unit : ℤ
unit = ℤ.pos (2 ^ 1074)

abbrev pub minus_unit : ℤ
minus_unit = ℤ.negsuc (2 ^ 1074 - 1)

-- `max(-1.0, min(1.0, similarity))`
unfoldable pub clamped : ℤ → ℤ
clamped s =
    let low = if leb_int unit s then unit else s in
    if leb_int minus_unit low then low else minus_unit

unfoldable pub build_incident_query : IncidentRecord → Text
build_incident_query incident =
    codes "search_query: Support incident\n"
    ++ (codes "Service: "
        ++ (incident.service
            ++ (codes "\nError: "
                ++ (incident.error
                    ++ (codes "\nLog excerpt: "
                        ++ (take 2000 incident.log
                            ++ (codes "\nClassification: "
                                ++ (classification_value incident.classification
                                    ++ (codes "\nSeverity: "
                                        ++ (severity_value incident.resolved_severity
                                            ++ (codes "\nDeterministic probable cause: "
                                                ++ (incident.probable_cause
                                                    ++ (codes "\nDeterministic actions: "
                                                        ++ join (codes "; ")
                                                            incident.recommended_actions)))))))))))))

-- The sort key `(-similarity, chunk.id)`: whether the first row may stand before the second.
abbrev pub ranks_before : (Candidate → ℤ) → Candidate → Candidate → Bool
ranks_before score r s =
    if leb_int (score s) (score r)
    then (if leb_int (score r) (score s) then leb r.chunk.id s.chunk.id else true)
    else false

unfoldable pub to_result : (Candidate → ℤ) → Candidate → RetrievedChunk
to_result score r = record {
  chunk_id = r.chunk.id;
  source_id = r.document.source_id;
  title = r.document.title;
  category = r.document.category;
  content = r.chunk.content;
  similarity = clamped (score r);
}

abbrev pub in_category : Option String → KnowledgeDocumentRecord → Bool
in_category none d = true
in_category (some category) d = str_eq d.category category

-- The joined rows, of the documents in the category.
unfoldable pub with_documents : Option String → Row → List KnowledgeDocumentRecord → List Candidate
with_documents category r [] = []
with_documents category r (d ∷ documents) =
    let rest = with_documents category r documents in
    if (r.0.document_id == d.id) && in_category category d
    then record { chunk = r.0; embedding = r.1; document = d } ∷ rest
    else rest

unfoldable pub with_all_documents :
    Option String → List KnowledgeDocumentRecord → List Row → List Candidate
with_all_documents category documents [] = []
with_all_documents category documents (r ∷ rows) =
    with_documents category r documents ++ with_all_documents category documents rows

abbrev pub candidates : Option String → KnowledgeDb → List Candidate
candidates category db =
    with_all_documents category db.documents (join_rows db.embeddings db.chunks)

-- What the search knows of the database, and the arithmetic of the vectors.
pub record Engine : Type 0 where
  -- `session.bind is not None and session.bind.dialect.name == "postgresql"`
  pub is_postgresql : Bool
  -- `_cosine_similarity`, but for the error on vectors of different lengths
  pub cosine_similarity : List ℕ → List ℕ → ℤ
  -- pgvector's distance; NaN, which PostgreSQL orders last, counts as the greatest
  pub cosine_distance : List ℕ → List ℕ → ℕ
  -- `1.0 - float(distance)`, and above 1.0 for NaN, which `min` then takes for 1.0
  pub complement : ℕ → ℤ
  -- the rows that the scan visits for a vector: all without an index, some with the HNSW index,
  -- which is approximate
  pub visited : List ℕ → Candidate → Bool

-- `_retrieve_postgresql`: the database orders the rows that it visits by `(distance, id)`.
abbrev pub closer : (Candidate → ℕ) → Candidate → Candidate → Bool
closer distance r s =
    if leb (distance r) (distance s)
    then (if leb (distance s) (distance r) then leb r.chunk.id s.chunk.id else true)
    else false

module _ (engine : Engine) (query : List ℕ) where
  abbrev pub distance_to : Candidate → ℕ
  distance_to c = engine.cosine_distance c.embedding.embedding query

  abbrev pub similarity_to : Candidate → ℤ
  similarity_to c = engine.cosine_similarity c.embedding.embedding query

  unfoldable pub retrieve_postgresql : ℕ → Option String → KnowledgeDb → List RetrievedChunk
  retrieve_postgresql limit category db = map (to_result (λ c. engine.complement (distance_to c))) (
      take limit
        (sorted (closer distance_to) (keep (engine.visited query) (candidates category db))))

  -- Whether `zip(left, right, strict=True)` raises for a row.
  abbrev pub is_uneven : Candidate → Bool
  is_uneven c = not (length c.embedding.embedding == length query)

  -- `_retrieve_portable`: every row is scored before any is returned.
  unfoldable pub retrieve_portable :
      ℕ → Option String → KnowledgeDb → Result KnowledgeError (List RetrievedChunk)
  retrieve_portable limit category db =
      if any is_uneven (candidates category db)
      then err KnowledgeError.length_mismatch
      else ok (
          map (to_result similarity_to)
            (take limit (sorted (ranks_before similarity_to) (candidates category db))))

  -- The session of `retrieve_query`.
  unfoldable pub retrieve_in_session :
      ℕ → Option String → KnowledgeDb → Result KnowledgeError (List RetrievedChunk)
  retrieve_in_session limit category db =
      if engine.is_postgresql
      then ok (retrieve_postgresql limit category db)
      else retrieve_portable limit category db

module _ (embedder : Embedder) (engine : Engine) (top_k : ℕ) where
  -- `min(top_k or self.top_k, self.top_k)`
  unfoldable pub result_limit : Option ℕ → ℕ
  result_limit none = min top_k top_k
  result_limit (some zero) = min top_k top_k
  result_limit (some (suc n)) = min (suc n) top_k

  abbrev pub first_vector : List (List ℕ) → Ingest (List ℕ)
  first_vector [] = raise KnowledgeError.no_vector
  first_vector (query ∷ vectors) = pure query

  unfoldable pub retrieve_query : Text → Option ℕ → Option String → Ingest (List RetrievedChunk)
  retrieve_query query_text requested category = do
    vectors ← embed embedder (query_text ∷ [])
    query ← first_vector vectors
    results ←
        read_session embedder (retrieve_in_session engine query (result_limit requested) category)
    lift results

  unfoldable pub retrieve : IncidentRecord → Ingest (List RetrievedChunk)
  retrieve incident = retrieve_query (build_incident_query incident) none none
