-- ===== src/Knowledge/Ingestion/Valid.antt =====
-- The invariant of the knowledge tables: sequences are ahead of the rows that they numbered, and
-- rows are not shared.
use mathlib.Core.List.Memᴰ
use mathlib.Core.Option
use ai_support_engineering_p.Common.{
  Bool-cases, List, Option, Option-cases, String, [], ap, arith, find, find-modify_view, inl, inr,
  keep-Mem, modify, none, refl, some, some_same, subst, sym, true, ℕ, ◌++◌, ◌+◌, ◌<◌, ◌∙◌, ◌∷◌, ◌≡◌,
  ◌⊎◌,
}
use ai_support_engineering_p.Common.Exec.{ok, ok_same}
use ai_support_engineering_p.Knowledge.Chunking.{KnowledgeChunk}
use ai_support_engineering_p.Knowledge.Ingestion.{Embedder, add_pair, add_pairs}
use ai_support_engineering_p.Knowledge.Tables.{
  KnowledgeChunkRecord, KnowledgeDb, KnowledgeDocumentRecord, KnowledgeEmbeddingRecord,
  delete_chunks, new_document, of_source, prepare_document, write_document,
}
use ai_support_engineering_p.Knowledge.Loader.{KnowledgeSource}
use mathlib.Core.List.{Memᴰ}
use text.Mathlib.Text.{◌==◌ as str_eq}
use text.Mathlib.TextEquality.{eq_iff}

-- The id of the document of a source.
abbrev pub id_of : String → List KnowledgeDocumentRecord → Option ℕ
id_of x documents = Option.map (λ d. d.id) (find (of_source x) documents)

pub record Valid (db : KnowledgeDb) : Type 0 where
  pub numbered : (x : String) (i : ℕ) → id_of x db.documents ≡ some i → i < db.next_document
  pub apart :
      (x y : String) (i : ℕ) → id_of x db.documents ≡ some i → id_of y db.documents ≡ some i → x ≡ y
  pub owned :
      (c : KnowledgeChunkRecord)
      → Memᴰ c db.chunks
      → (c.id < db.next_chunk) × (c.document_id < db.next_document)
  pub unshared :
      (c c' : KnowledgeChunkRecord)
      → Memᴰ c db.chunks
      → Memᴰ c' db.chunks
      → c.id ≡ c'.id
      → c.document_id ≡ c'.document_id
  pub embedded : (e : KnowledgeEmbeddingRecord) → Memᴰ e db.embeddings → e.chunk_id < db.next_chunk

same_source : (x y : String) → str_eq x y ≡ true → x ≡ y
same_source x y h = (eq_iff x y).0 h

delete_chunks-Valid : (d : ℕ) (db : KnowledgeDb) → Valid db → Valid (delete_chunks d db)
unfolding delete_chunks
delete_chunks-Valid d db v = record {
  numbered = v.numbered;
  apart = v.apart;
  owned = λ c m. v.owned c (keep-Mem _ db.chunks m).0;
  unshared = λ c c' m m'. v.unshared c c' (keep-Mem _ db.chunks m).0 (keep-Mem _ db.chunks m').0;
  embedded = λ e m. v.embedded e (keep-Mem _ db.embeddings m).0;
}

-- A source of the grown table is one of the old ones, or the new one.
pub id_of-snoc :
    (x : String) (i : ℕ) (d : KnowledgeDocumentRecord) (documents : List KnowledgeDocumentRecord)
    → id_of x (documents ++ d ∷ []) ≡ some i
    → (id_of x documents ≡ some i) ⊎ ((d.source_id ≡ x) × (i ≡ d.id))
id_of-snoc x i d [] h = elim (Bool-cases (str_eq d.source_id x)) [
  | inl e ↦ inr (same_source d.source_id x e, sym (some_same (rw e at h)))
  | inr e ↦ cc (rw e at h)
]
id_of-snoc x i d (r ∷ documents) h = elim (Bool-cases (str_eq r.source_id x)) [
  | inl e ↦ inl (rw e (rw e at h))
  | inr e ↦ rw e (id_of-snoc x i d documents (rw e at h))
]

-- A source of the written table has the id it had.
pub id_of-modify :
    (x y : String) (source : KnowledgeSource) (documents : List KnowledgeDocumentRecord)
    → id_of x (modify (of_source y) (write_document source) documents) ≡ id_of x documents
id_of-modify x y source documents =
    find-modify_view (of_source y) (of_source x) (write_document source) (λ d. d.id) documents
      (λ d. refl) (λ d. refl)

added-Valid :
    (source : KnowledgeSource) (db : KnowledgeDb)
    → find (of_source source.source_id) db.documents ≡ none
    → Valid db
    → Valid (record db {
      documents = db.documents ++ new_document source db.next_document ∷ [];
      next_document = db.next_document + 1;
    })
added-Valid source db none_yet v = record {
  numbered = λ x i h. elim (id_of-snoc x i new db.documents h) [
    | inl old ↦ let below = v.numbered x i old in omega arith
    | inr (e, e') ↦ omega arith
  ];
  apart = λ x y i h k. elim (id_of-snoc x i new db.documents h) [
    | inl old ↦ elim (id_of-snoc y i new db.documents k) [
      | inl old' ↦ v.apart x y i old old'
      | inr (e, e') ↦ let below = v.numbered x i old in absurd (omega arith)
    ]
    | inr (e, e') ↦ elim (id_of-snoc y i new db.documents k) [
      | inl old' ↦ let below = v.numbered y i old' in absurd (omega arith)
      | inr (q, q') ↦ sym e ∙ q
    ]
  ];
  owned = λ c m. let (id_below, below) = v.owned c m in (id_below, omega arith);
  unshared = v.unshared;
  embedded = v.embedded;
}
  where
    new : KnowledgeDocumentRecord
    new = new_document source db.next_document

pub prepare_document-Valid :
    (source : KnowledgeSource) (db : KnowledgeDb) → Valid db → Valid (prepare_document source db).1
unfolding prepare_document delete_chunks
prepare_document-Valid source db v =
    elim (Option-cases (find (of_source source.source_id) db.documents)) [
      | inl none_yet ↦ rw (none_yet, prepare_document) (added-Valid source db none_yet v)
      | inr (document, e) ↦
          let w = delete_chunks-Valid document.id db v in
          rw (e, prepare_document)
            (record {
              numbered = λ x i h.
                  v.numbered x i (rw (id_of-modify x source.source_id source db.documents) at h);
              apart = λ x y i h k.
                  v.apart x y i (rw (id_of-modify x source.source_id source db.documents) at h)
                    (rw (id_of-modify y source.source_id source db.documents) at k);
              owned = w.owned;
              unshared = w.unshared;
              embedded = w.embedded;
            })
    ]

module _ (embedder : Embedder) (chunk_size : ℕ) where
  -- A new chunk and its embedding, for a document that exists.
  add_pair-Valid :
      (d : ℕ) (chunk : KnowledgeChunk) (vector : List ℕ) (db : KnowledgeDb)
      → d < db.next_document
      → Valid db
      → Valid (add_pair embedder chunk_size d chunk vector db)
  add_pair-Valid d chunk vector db below v = record {
    numbered = v.numbered;
    apart = v.apart;
    owned = λ c m. elim (Memᴰ.append_cases db.chunks m) [
      | inl old ↦ let (id_below, document_below) = v.owned c old in (omega arith, document_below)
      | inr new ↦ let e = only new in (rw e (omega arith), rw e below)
    ];
    unshared = λ c c' m m' same. elim (Memᴰ.append_cases db.chunks m) [
      | inl old ↦ elim (Memᴰ.append_cases db.chunks m') [
        | inl old' ↦ v.unshared c c' old old' same
        | inr new' ↦
            let low = (v.owned c old).0 in
            let e = ap (λ r. r.id) (only new') in absurd (omega arith)
      ]
      | inr new ↦ elim (Memᴰ.append_cases db.chunks m') [
        | inl old' ↦
            let low = (v.owned c' old').0 in
            let e = ap (λ r. r.id) (only new) in absurd (omega arith)
        | inr new' ↦ ap (λ r. r.document_id) (only new ∙ sym (only new'))
      ]
    ];
    embedded = λ e m. elim (Memᴰ.append_cases db.embeddings m) [
      | inl old ↦ let low = v.embedded e old in omega arith
      | inr new ↦ let q = ap (λ r. r.chunk_id) (only new) in omega arith
    ];
  }
    where
      only : {A : Type 0} {a b : A} → Memᴰ a (b ∷ []) → a ≡ b
      only (Memᴰ.head e) = e
      only (Memᴰ.tail m) = absurd (Memᴰ.not-nil m)

  pub add_pairs-Valid :
      (d : ℕ) (chunks : List KnowledgeChunk) (vectors : List (List ℕ)) (db db' : KnowledgeDb)
      → d < db.next_document
      → Valid db
      → add_pairs embedder chunk_size d chunks vectors db ≡ ok db'
      → Valid db'
  unfolding add_pairs
  add_pairs-Valid d [] [] db db' below v h = subst Valid (ok_same refl h) v
  add_pairs-Valid d [] (vector ∷ vectors) db db' below v h = cc
  add_pairs-Valid d (chunk ∷ chunks) [] db db' below v h = cc
  add_pairs-Valid d (chunk ∷ chunks) (vector ∷ vectors) db db' below v h =
      add_pairs-Valid d chunks vectors (add_pair embedder chunk_size d chunk vector db) db' below
        (add_pair-Valid d chunk vector db below v) h
