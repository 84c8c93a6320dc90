-- ===== src/Knowledge/Ingestion/Stored.antt =====
-- The rows that ingestion stores for a document, read back as `_is_current` reads them.
use mathlib.Core.List.Memᴰ
use ai_support_engineering_p.Common.{
  ==-refl, Bool, List, String, Text, [], ap, arith, false, inl, inr, keep, keep-append, leb, length,
  refl, suc, sym, true, ℕ, ◌++◌, ◌+◌, ◌<◌, ◌==◌, ◌∙◌, ◌∷◌, ◌≡◌, ◌≢◌, ◌≤◌,
}
use ai_support_engineering_p.Common.Exec.{ok, ok_same}
use ai_support_engineering_p.Knowledge.Chunking.{KnowledgeChunk, number_chunks}
use ai_support_engineering_p.Knowledge.Ingestion.{
  Embedder, add_pair, add_pairs, chunk_row, embedding_row, rows_match,
}
use ai_support_engineering_p.Knowledge.Tables.{
  KnowledgeChunkRecord, KnowledgeDb, KnowledgeEmbeddingRecord, Row, insert_row_sorted, join_rows,
  of_chunk, order_rows,
}
use mathlib.Core.List.{Memᴰ, append-nil, append_assoc}
use text.Mathlib.TextPositions.{eq_refl}

module _ {A : Type 0} where
  pub keep_none :
      (p : A → Bool) (xs : List A) → ((x : A) → Memᴰ x xs → p x ≡ false) → keep p xs ≡ []
  keep_none p [] h = refl
  keep_none p (x ∷ xs) h = rw (h x (Memᴰ.head refl)) (keep_none p xs (λ y m. h y (Memᴰ.tail m)))

  pub keep_all : (p : A → Bool) (xs : List A) → ((x : A) → Memᴰ x xs → p x ≡ true) → keep p xs ≡ xs
  keep_all p [] h = refl
  keep_all p (x ∷ xs) h =
      rw (h x (Memᴰ.head refl)) (ap (λ l. x ∷ l) (keep_all p xs (λ y m. h y (Memᴰ.tail m))))

-- A test of numbers that are apart.
pub ==-lt : (a b : ℕ) → a < b → (a == b) ≡ false
==-lt a b h = ground arith

pub ==-gt : (a b : ℕ) → b + 1 ≤ a → (a == b) ≡ false
==-gt a b h = ground arith

pub ==-ne : (a b : ℕ) → a ≢ b → (a == b) ≡ false
==-ne a b h = ground arith

in_order : (k : ℕ) → leb k (suc k) ≡ true
in_order k = ground arith

module _ (embedder : Embedder) (chunk_size : ℕ) (d : ℕ) where
  abbrev pub new_chunks : ℕ → List KnowledgeChunk → List KnowledgeChunkRecord
  new_chunks i [] = []
  new_chunks i (chunk ∷ chunks) =
      chunk_row embedder chunk_size d i chunk ∷ new_chunks (i + 1) chunks

  abbrev pub new_embeddings :
      ℕ → List KnowledgeChunk → List (List ℕ) → List KnowledgeEmbeddingRecord
  new_embeddings i [] vectors = []
  new_embeddings i (chunk ∷ chunks) [] = []
  new_embeddings i (chunk ∷ chunks) (vector ∷ vectors) =
      embedding_row embedder chunk_size i chunk vector ∷ new_embeddings (i + 1) chunks vectors

  abbrev pub new_rows : ℕ → List KnowledgeChunk → List (List ℕ) → List Row
  new_rows i [] vectors = []
  new_rows i (chunk ∷ chunks) [] = []
  new_rows i (chunk ∷ chunks) (vector ∷ vectors) =
      (chunk_row embedder chunk_size d i chunk, embedding_row embedder chunk_size i chunk vector)
      ∷ new_rows (i + 1) chunks vectors

  abbrev pub appended : List KnowledgeChunk → List (List ℕ) → KnowledgeDb → KnowledgeDb
  appended chunks vectors db = record db {
    chunks = db.chunks ++ new_chunks db.next_chunk chunks;
    embeddings = db.embeddings ++ new_embeddings db.next_chunk chunks vectors;
    next_chunk = db.next_chunk + length chunks;
  }

  -- What the loop over the chunks leaves, where it does not raise.
  pub add_pairs_lem :
      (chunks : List KnowledgeChunk) (vectors : List (List ℕ)) (db db' : KnowledgeDb)
      → add_pairs embedder chunk_size d chunks vectors db ≡ ok db'
      → (db' ≡ appended chunks vectors db) × (length chunks ≡ length vectors)
  unfolding add_pairs
  add_pairs_lem [] [] db db' h =
      (sym (ok_same refl h) ∙ ground (arith, append-nil db.chunks, append-nil db.embeddings), refl)
  add_pairs_lem [] (vector ∷ vectors) db db' h = cc
  add_pairs_lem (chunk ∷ chunks) [] db db' h = cc
  add_pairs_lem (chunk ∷ chunks) (vector ∷ vectors) db db' h =
      let (e, n) =
        add_pairs_lem chunks vectors (add_pair embedder chunk_size d chunk vector db) db' h in
      (
        e
            ∙ ground (
              arith,
              append_assoc db.chunks (chunk_row embedder chunk_size d db.next_chunk chunk ∷ [])
                  (new_chunks (db.next_chunk + 1) chunks),
              append_assoc db.embeddings
                  (embedding_row embedder chunk_size db.next_chunk chunk vector ∷ [])
                  (new_embeddings (db.next_chunk + 1) chunks vectors),
            ),
        omega arith,
      )

  pub new_chunks_id :
      (i : ℕ) (chunks : List KnowledgeChunk) (c : KnowledgeChunkRecord)
      → Memᴰ c (new_chunks i chunks)
      → (i ≤ c.id) × (c.document_id ≡ d)
  new_chunks_id i [] c m = absurd (Memᴰ.not-nil m)
  new_chunks_id i (chunk ∷ chunks) c (Memᴰ.head e) = rw e (omega arith, refl)
  new_chunks_id i (chunk ∷ chunks) c (Memᴰ.tail m) =
      let (low, own) = new_chunks_id (i + 1) chunks c m in (omega arith, own)

  pub new_embeddings_id :
      (i : ℕ) (chunks : List KnowledgeChunk) (vectors : List (List ℕ))
      (e : KnowledgeEmbeddingRecord)
      → Memᴰ e (new_embeddings i chunks vectors)
      → i ≤ e.chunk_id
  new_embeddings_id i [] vectors e m = absurd (Memᴰ.not-nil m)
  new_embeddings_id i (chunk ∷ chunks) [] e m = absurd (Memᴰ.not-nil m)
  new_embeddings_id i (chunk ∷ chunks) (vector ∷ vectors) e (Memᴰ.head q) = rw q (omega arith)
  new_embeddings_id i (chunk ∷ chunks) (vector ∷ vectors) e (Memᴰ.tail m) =
      let low = new_embeddings_id (i + 1) chunks vectors e m in omega arith

  own_embedding :
      (i : ℕ) (chunk : KnowledgeChunk) (vector : List ℕ) (old later : List KnowledgeEmbeddingRecord)
      → ((e : KnowledgeEmbeddingRecord) → Memᴰ e old → e.chunk_id < i)
      → ((e : KnowledgeEmbeddingRecord) → Memᴰ e later → i + 1 ≤ e.chunk_id)
      → keep (of_chunk i) (old ++ embedding_row embedder chunk_size i chunk vector ∷ later)
        ≡ embedding_row embedder chunk_size i chunk vector ∷ []
  own_embedding i chunk vector old later h k =
      keep-append (of_chunk i) old (embedding_row embedder chunk_size i chunk vector ∷ later)
      ∙ rw
          (
            keep_none (of_chunk i) old (λ x m. ==-lt x.chunk_id i (h x m)),
            ==-refl i,
            keep_none (of_chunk i) later (λ x m. ==-gt x.chunk_id i (k x m)),
          )
          refl

  below_next :
      (i : ℕ) (chunk : KnowledgeChunk) (vector : List ℕ) (old : List KnowledgeEmbeddingRecord)
      → ((e : KnowledgeEmbeddingRecord) → Memᴰ e old → e.chunk_id < i)
      → (e : KnowledgeEmbeddingRecord)
      → Memᴰ e (old ++ embedding_row embedder chunk_size i chunk vector ∷ [])
      → e.chunk_id < i + 1
  below_next i chunk vector old h e m = elim (Memᴰ.append_cases old m) [
    | inl k ↦ let low = h e k in omega arith
    | inr k ↦ elim (Memᴰ.cases_cons k) [
      | inl q ↦ let same = ap (λ r. r.chunk_id) q in omega arith
      | inr none_left ↦ absurd (Memᴰ.not-nil none_left)
    ]
  ]

  -- Each new chunk meets its own embedding only.
  pub join_new :
      (i : ℕ) (chunks : List KnowledgeChunk) (vectors : List (List ℕ))
      (old : List KnowledgeEmbeddingRecord)
      → length chunks ≡ length vectors
      → ((e : KnowledgeEmbeddingRecord) → Memᴰ e old → e.chunk_id < i)
      → join_rows (old ++ new_embeddings i chunks vectors) (new_chunks i chunks)
        ≡ new_rows i chunks vectors
  unfolding join_rows
  join_new i [] vectors old n h = refl
  join_new i (chunk ∷ chunks) [] old n h = absurd (omega arith)
  join_new i (chunk ∷ chunks) (vector ∷ vectors) old n h =
      let e = embedding_row embedder chunk_size i chunk vector in
      let later = new_embeddings (i + 1) chunks vectors in
      let own =
        own_embedding i chunk vector old later h
          (λ x. new_embeddings_id (i + 1) chunks vectors x) in
      let others : join_rows (old ++ e ∷ later) (new_chunks (i + 1) chunks)
          ≡ new_rows (i + 1) chunks vectors =
        rw (← append_assoc old (e ∷ []) later) (
          join_new (i + 1) chunks vectors (old ++ e ∷ []) (omega arith)
            (below_next i chunk vector old h)) in
      rw (own, others) refl

  -- The rows of a document come in the order of its chunks.
  pub order_new :
      (i k : ℕ) (hash : Text → String) (texts : List Text) (vectors : List (List ℕ))
      → order_rows (new_rows i (number_chunks hash k texts) vectors)
        ≡ new_rows i (number_chunks hash k texts) vectors
  unfolding order_rows number_chunks insert_row_sorted
  order_new i k hash [] vectors = refl
  order_new i k hash (content ∷ texts) [] = refl
  order_new i k hash (content ∷ []) (vector ∷ vectors) = refl
  order_new i k hash (content ∷ next ∷ texts) (vector ∷ []) = refl
  order_new i k hash (content ∷ next ∷ texts) (vector ∷ v ∷ vectors) =
      rw (order_new (i + 1) (suc k) hash (next ∷ texts) (v ∷ vectors), in_order k) refl

  pub new_rows_match :
      (i : ℕ) (chunks : List KnowledgeChunk) (vectors : List (List ℕ))
      → length chunks ≡ length vectors
      → rows_match embedder chunk_size (new_rows i chunks vectors) chunks ≡ true
  unfolding rows_match
  new_rows_match i [] vectors n = refl
  new_rows_match i (chunk ∷ chunks) [] n = absurd (omega arith)
  new_rows_match i (chunk ∷ chunks) (vector ∷ vectors) n =
      rw
        (
          ==-refl chunk.chunk_index,
          eq_refl chunk.content_hash,
          eq_refl embedder.provider_name,
          eq_refl embedder.model_name,
          ==-refl embedder.dimensions,
        )
        (new_rows_match (i + 1) chunks vectors (omega arith))

  pub length-new_rows :
      (i : ℕ) (chunks : List KnowledgeChunk) (vectors : List (List ℕ))
      → length chunks ≡ length vectors
      → length (new_rows i chunks vectors) ≡ length chunks
  length-new_rows i [] vectors n = refl
  length-new_rows i (chunk ∷ chunks) [] n = absurd (omega arith)
  length-new_rows i (chunk ∷ chunks) (vector ∷ vectors) n =
      omega (arith, length-new_rows (i + 1) chunks vectors)
