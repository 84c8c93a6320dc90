-- ===== src/Knowledge/Retrieval/Candidates.antt =====
-- Which rows a search may return.
use mathlib.Core.List.Memᴰ
use ai_support_engineering_p.Common.{
  ==-refl, ==→eq, Bool-cases, List, Mem-keep, Option, String, [], ap, arith, inl, inr, keep,
  keep-Mem, refl, subst, sym, true, ◌&&◌, ◌==◌, ◌∙◌, ◌∷◌, ◌≡◌,
}
use ai_support_engineering_p.Knowledge.Tables.{
  KnowledgeChunkRecord, KnowledgeDb, KnowledgeDocumentRecord, KnowledgeEmbeddingRecord, Row,
  join_rows, of_chunk, pair_with,
}
use ai_support_engineering_p.Knowledge.Retrieval.{
  Candidate, candidates, in_category, with_all_documents, with_documents,
}
use mathlib.Core.List.{Memᴰ}
use mathlib.Core.Logic.{◌↔◌}

-- A row that a search may return.
pub record IsCandidate (category : Option String) (db : KnowledgeDb) (c : Candidate) : Type 0 where
  pub chunk_stored : Memᴰ c.chunk db.chunks
  pub embedding_stored : Memᴰ c.embedding db.embeddings
  pub document_stored : Memᴰ c.document db.documents
  pub embeds : c.embedding.chunk_id ≡ c.chunk.id
  pub owns : c.chunk.document_id ≡ c.document.id
  pub categorized : in_category category c.document ≡ true

pair_with-Mem :
    (c : KnowledgeChunkRecord) (r : Row) (es : List KnowledgeEmbeddingRecord)
    → Memᴰ r (pair_with c es)
    → (r.0 ≡ c) × Memᴰ r.1 es
pair_with-Mem c r [] m = absurd (Memᴰ.not-nil m)
pair_with-Mem c r (e ∷ es) m = elim (Memᴰ.cases_cons m) [
  | inl q ↦ (ap (λ x. x.0) q, Memᴰ.head (ap (λ x. x.1) q))
  | inr k ↦ let (p, k') = pair_with-Mem c r es k in (p, Memᴰ.tail k')
]

Mem-pair_with :
    (c : KnowledgeChunkRecord) (e : KnowledgeEmbeddingRecord) (es : List KnowledgeEmbeddingRecord)
    → Memᴰ e es
    → Memᴰ (c, e) (pair_with c es)
Mem-pair_with c e [] m = absurd (Memᴰ.not-nil m)
Mem-pair_with c e (x ∷ es) m = elim (Memᴰ.cases_cons m) [
  | inl q ↦ Memᴰ.head (ap (λ y. (c, y)) q)
  | inr k ↦ Memᴰ.tail (Mem-pair_with c e es k)
]

join_rows-Mem :
    (es : List KnowledgeEmbeddingRecord) (cs : List KnowledgeChunkRecord) (r : Row)
    → Memᴰ r (join_rows es cs)
    → Memᴰ r.0 cs × Memᴰ r.1 es × (r.1.chunk_id ≡ r.0.id)
unfolding join_rows
join_rows-Mem es [] r m = absurd (Memᴰ.not-nil m)
join_rows-Mem es (c ∷ cs) r m = elim (Memᴰ.append_cases (pair_with c (keep (of_chunk c.id) es)) m) [
  | inl k ↦
      let (p, k') = pair_with-Mem c r (keep (of_chunk c.id) es) k in
      let (stored, own) = keep-Mem (of_chunk c.id) es k' in
      (Memᴰ.head p, stored, ==→eq r.1.chunk_id c.id own ∙ sym (ap (λ x. x.id) p))
  | inr k ↦ let (a, b, e) = join_rows-Mem es cs r k in (Memᴰ.tail a, b, e)
]

Mem-join_rows :
    (es : List KnowledgeEmbeddingRecord) (cs : List KnowledgeChunkRecord) (c : KnowledgeChunkRecord)
    (e : KnowledgeEmbeddingRecord)
    → Memᴰ c cs
    → Memᴰ e es
    → e.chunk_id ≡ c.id
    → Memᴰ (c, e) (join_rows es cs)
unfolding join_rows
Mem-join_rows es [] c e m k q = absurd (Memᴰ.not-nil m)
Mem-join_rows es (x ∷ cs) c e m k q = elim (Memᴰ.cases_cons m) [
  | inl p ↦ Memᴰ.append_left (join_rows es cs) (
      subst (λ y. Memᴰ (c, e) (pair_with y (keep (of_chunk y.id) es))) p
        (Mem-pair_with c e (keep (of_chunk c.id) es)
          (Mem-keep (of_chunk c.id) es k (rw q (==-refl c.id)))))
  | inr m' ↦
      Memᴰ.append_right (pair_with x (keep (of_chunk x.id) es)) (Mem-join_rows es cs c e m' k q)
]

module _ (category : Option String) where
  with_documents-Mem :
      (r : Row) (ds : List KnowledgeDocumentRecord) (c : Candidate)
      → Memᴰ c (with_documents category r ds)
      → (c.chunk ≡ r.0)
        × (c.embedding ≡ r.1)
        × Memᴰ c.document ds
        × (r.0.document_id ≡ c.document.id)
        × (in_category category c.document ≡ true)
  unfolding with_documents
  with_documents-Mem r [] c m = absurd (Memᴰ.not-nil m)
  with_documents-Mem r (d ∷ ds) c m =
      elim (Bool-cases ((r.0.document_id == d.id) && in_category category d)) [
        | inl t ↦ elim (Memᴰ.cases_cons {a = c} (rw t at m)) [
          | inl q ↦
              let document = ap (λ x. x.document) q in
              (
                ap (λ x. x.chunk) q,
                ap (λ x. x.embedding) q,
                Memᴰ.head document,
                rw document (==→eq r.0.document_id d.id (ground arith)),
                rw document (ground arith),
              )
          | inr k ↦ let (a, b, e, f, g) = with_documents-Mem r ds c k in (a, b, Memᴰ.tail e, f, g)
        ]
        | inr t ↦
            let (a, b, e, f, g) = with_documents-Mem r ds c (rw t at m) in (a, b, Memᴰ.tail e, f, g)
      ]

  Mem-with_documents :
      (r : Row) (ds : List KnowledgeDocumentRecord) (d : KnowledgeDocumentRecord)
      → Memᴰ d ds
      → r.0.document_id ≡ d.id
      → in_category category d ≡ true
      → Memᴰ (record { chunk = r.0; embedding = r.1; document = d }) (with_documents category r ds)
  unfolding with_documents
  Mem-with_documents r [] d m e h = absurd (Memᴰ.not-nil m)
  Mem-with_documents r (x ∷ ds) d m e h = elim (Memᴰ.cases_cons m) [
    | inl q ↦
        subst
          (λ y.
            Memᴰ (record { chunk = r.0; embedding = r.1; document = d })
              (with_documents category r (y ∷ ds)))
          q (rw (e, ==-refl d.id, h) (Memᴰ.head refl))
    | inr k ↦ elim (Bool-cases ((r.0.document_id == x.id) && in_category category x)) [
      | inl t ↦ rw t (Memᴰ.tail (Mem-with_documents r ds d k e h))
      | inr t ↦ rw t (Mem-with_documents r ds d k e h)
    ]
  ]

  all_documents-Mem :
      (ds : List KnowledgeDocumentRecord) (rows : List Row) (c : Candidate)
      → Memᴰ c (with_all_documents category ds rows)
      → Memᴰ (c.chunk, c.embedding) rows
        × Memᴰ c.document ds
        × (c.chunk.document_id ≡ c.document.id)
        × (in_category category c.document ≡ true)
  unfolding with_all_documents
  all_documents-Mem ds [] c m = absurd (Memᴰ.not-nil m)
  all_documents-Mem ds (r ∷ rows) c m = elim (Memᴰ.append_cases (with_documents category r ds) m) [
    | inl k ↦
        let (a, b, e, f, g) = with_documents-Mem r ds c k in
        (Memᴰ.head (λ i. (a i, b i)), e, ap (λ x. x.document_id) a ∙ f, g)
    | inr k ↦ let (a, e, f, g) = all_documents-Mem ds rows c k in (Memᴰ.tail a, e, f, g)
  ]

  Mem-all_documents :
      (ds : List KnowledgeDocumentRecord) (rows : List Row) (c : Candidate)
      → Memᴰ (c.chunk, c.embedding) rows
      → Memᴰ c.document ds
      → c.chunk.document_id ≡ c.document.id
      → in_category category c.document ≡ true
      → Memᴰ c (with_all_documents category ds rows)
  unfolding with_all_documents
  Mem-all_documents ds [] c m k e h = absurd (Memᴰ.not-nil m)
  Mem-all_documents ds (r ∷ rows) c m k e h = elim (Memᴰ.cases_cons m) [
    | inl q ↦ Memᴰ.append_left (with_all_documents category ds rows) (
        subst (λ y. Memᴰ c (with_documents category y ds)) q
          (Mem-with_documents (c.chunk, c.embedding) ds c.document k e h))
    | inr m' ↦
        Memᴰ.append_right (with_documents category r ds) (Mem-all_documents ds rows c m' k e h)
  ]

-- The candidates of a query are the stored chunks with their embeddings and documents, of the
-- category if there is one.
pub candidates_iff :
    (category : Option String) (db : KnowledgeDb) (c : Candidate)
    → Memᴰ c (candidates category db) ↔ IsCandidate category db c
candidates_iff category db c = (
  λ m.
      let (r, d, owns, cat) =
        all_documents-Mem category db.documents (join_rows db.embeddings db.chunks) c m in
      let (a, b, e) = join_rows-Mem db.embeddings db.chunks (c.chunk, c.embedding) r in
      record {
        chunk_stored = a;
        embedding_stored = b;
        document_stored = d;
        embeds = e;
        owns = owns;
        categorized = cat;
      },
  λ k.
      Mem-all_documents category db.documents (join_rows db.embeddings db.chunks) c
        (Mem-join_rows db.embeddings db.chunks c.chunk c.embedding k.chunk_stored k.embedding_stored
          k.embeds)
        k.document_stored k.owns k.categorized,
)
