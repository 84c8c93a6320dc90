-- ===== src/Knowledge/Ingestion/Prepared.antt =====
-- What emptying or creating a document leaves.
use ai_support_engineering_p.Common.{
  ==→eq, Bool, Bool-cases, List, Mem-none, Option-cases, String, [], any, ap, arith, false, find,
  find-modify, find-modify_other, find-snoc, find-snoc_other, inl, inr, keep, keep-Mem, map, modify,
  none, not, refl, some, sym, true, ℕ, ◌++◌, ◌+◌, ◌<◌, ◌==◌, ◌||◌, ◌∙◌, ◌∷◌, ◌≡◌, ◌≢◌,
}
use ai_support_engineering_p.Knowledge.Tables.{
  KnowledgeChunkRecord, KnowledgeDb, KnowledgeDocumentRecord, KnowledgeEmbeddingRecord,
  delete_chunks, join_rows, new_document, of_chunk, of_document, of_source, prepare_document,
  rows_of, write_document,
}
use ai_support_engineering_p.Knowledge.Ingestion.Stored.{==-lt, ==-ne}
use ai_support_engineering_p.Knowledge.Ingestion.Valid.{Valid}
use ai_support_engineering_p.Knowledge.Loader.{KnowledgeSource}
use mathlib.Core.List.{Memᴰ}
use text.Mathlib.Text.{◌==◌ as str_eq}
use text.Mathlib.TextEquality.{eq_iff}
use text.Mathlib.TextPositions.{eq_refl}

module _ {A : Type 0} where
  keep-keep :
      (p q : A → Bool) (xs : List A)
      → ((x : A) → Memᴰ x xs → p x ≡ true → q x ≡ true)
      → keep p (keep q xs) ≡ keep p xs
  keep-keep p q [] h = refl
  keep-keep p q (x ∷ xs) h =
      let rest = keep-keep p q xs (λ y m. h y (Memᴰ.tail m)) in
      let here = h x (Memᴰ.head refl) in ground arith

  any-map :
      {B : Type 0} (p : B → Bool) (f : A → B) (xs : List A)
      → any p (map f xs) ≡ any (λ x. p (f x)) xs
  any-map p f [] = refl
  any-map p f (x ∷ xs) = ap (λ b. p (f x) || b) (any-map p f xs)

pub join_rows_cong :
    (es es' : List KnowledgeEmbeddingRecord) (cs : List KnowledgeChunkRecord)
    → ((c : KnowledgeChunkRecord) → Memᴰ c cs → keep (of_chunk c.id) es ≡ keep (of_chunk c.id) es')
    → join_rows es cs ≡ join_rows es' cs
unfolding join_rows
join_rows_cong es es' [] h = refl
join_rows_cong es es' (c ∷ cs) h =
    rw (h c (Memᴰ.head refl), join_rows_cong es es' cs (λ x m. h x (Memᴰ.tail m))) refl

pub rows_of-delete_chunks :
    (d d' : ℕ) (db : KnowledgeDb)
    → Valid db
    → d' ≢ d
    → rows_of d' (delete_chunks d db) ≡ rows_of d' db
unfolding delete_chunks rows_of
rows_of-delete_chunks d d' db v n =
    rw (keep-keep (of_document d') (λ c. not (of_document d c)) db.chunks (λ c m e. other c e)) (
      join_rows_cong _ db.embeddings (keep (of_document d') db.chunks)
        (λ c m. kept c (keep-Mem (of_document d') db.chunks m)))
  where
    other : (c : KnowledgeChunkRecord) → of_document d' c ≡ true → not (of_document d c) ≡ true
    other c e = ground (arith, n)

    apart :
        (c : KnowledgeChunkRecord)
        → Memᴰ c db.chunks × (of_document d' c ≡ true)
        → any (λ i. c.id == i) (map (λ r. r.id) (keep (of_document d) db.chunks)) ≡ false
    apart c (m, e) =
        any-map (λ i. c.id == i) (λ r. r.id) (keep (of_document d) db.chunks)
        ∙ Mem-none (λ r. c.id == r.id) (keep (of_document d) db.chunks)
            λ r k.
              let (k', e') = keep-Mem (of_document d) db.chunks k in
              ==-ne c.id r.id (λ same. n (
                sym (==→eq c.document_id d' e)
                ∙ v.unshared c r m k' same
                ∙ ==→eq r.document_id d e'))

    kept :
        (c : KnowledgeChunkRecord)
        → Memᴰ c db.chunks × (of_document d' c ≡ true)
        → keep (of_chunk c.id) (
            keep
              (λ e.
                not (any (λ i. e.chunk_id == i) (map (λ r. r.id) (keep (of_document d) db.chunks))))
              db.embeddings)
          ≡ keep (of_chunk c.id) db.embeddings
    kept c m =
        keep-keep (of_chunk c.id)
          (λ e. not (any (λ i. e.chunk_id == i) (map (λ r. r.id) (keep (of_document d) db.chunks))))
          db.embeddings λ e k same. rw (==→eq e.chunk_id c.id same, apart c m) refl

pub str_ne : (x y : String) → x ≢ y → str_eq x y ≡ false
str_ne x y n = elim (Bool-cases (str_eq x y)) [ inl e ↦ absurd (n ((eq_iff x y).0 e)) | inr e ↦ e ]

not-true : (b : Bool) → not b ≡ true → b ≡ false
not-true b h = ground arith

module _ (source : KnowledgeSource) (db : KnowledgeDb) where
  -- What is known of the document that a source is about to be written to.
  pub record Prepared (d : ℕ) (p : KnowledgeDb) : Type 0 where
    pub document : KnowledgeDocumentRecord
    pub found : find (of_source source.source_id) p.documents ≡ some document
    pub numbered : document.id ≡ d
    pub written : write_document source document ≡ document
    pub below : d < p.next_document
    pub cleared : (c : KnowledgeChunkRecord) → Memᴰ c p.chunks → of_document d c ≡ false
    pub others :
        (y : String)
        → y ≢ source.source_id
        → find (of_source y) p.documents ≡ find (of_source y) db.documents
    pub kept : (d' : ℕ) → d' ≢ d → rows_of d' p ≡ rows_of d' db

  new_document-Prepared :
      find (of_source source.source_id) db.documents ≡ none
      → Valid db
      → Prepared db.next_document (record db {
        documents = db.documents ++ new_document source db.next_document ∷ [];
        next_document = db.next_document + 1;
      })
  unfolding rows_of
  new_document-Prepared none_yet v = record {
    document = new_document source db.next_document;
    found =
        find-snoc (of_source source.source_id) db.documents (new_document source db.next_document)
          none_yet
        ∙ rw (eq_refl source.source_id) refl;
    numbered = refl;
    written = refl;
    below = omega arith;
    cleared = λ c m. ==-lt c.document_id db.next_document (v.owned c m).1;
    others = λ y n.
        find-snoc_other (of_source y) db.documents (new_document source db.next_document)
          (str_ne source.source_id y (λ e. n (sym e)));
    kept = λ d' n. refl;
  }

  old_document-Prepared :
      (document : KnowledgeDocumentRecord)
      → find (of_source source.source_id) db.documents ≡ some document
      → Valid db
      → Prepared document.id (record (delete_chunks document.id db) {
        documents = modify (of_source source.source_id) (write_document source) db.documents;
      })
  unfolding rows_of delete_chunks
  old_document-Prepared document e v = record {
    document = write_document source document;
    found =
        find-modify (of_source source.source_id) (write_document source) db.documents (λ d. refl)
        ∙ rw e refl;
    numbered = refl;
    written = refl;
    below = v.numbered source.source_id document.id (rw e refl);
    cleared = λ c m.
        not-true (of_document document.id c)
          (keep-Mem (λ r. not (of_document document.id r)) db.chunks m).1;
    others = λ y n.
        find-modify_other (of_source source.source_id) (of_source y) (write_document source)
          db.documents (λ d. refl)
          λ d h. str_ne d.source_id y (λ q. n (sym q ∙ (eq_iff d.source_id source.source_id).0 h));
    kept = λ d' n. rows_of-delete_chunks document.id d' db v n;
  }

  pub prepare_document-Prepared :
      Valid db → Prepared (prepare_document source db).0 (prepare_document source db).1
  unfolding prepare_document
  prepare_document-Prepared v =
      elim (Option-cases (find (of_source source.source_id) db.documents)) [
        | inl none_yet ↦ rw (none_yet, prepare_document) (new_document-Prepared none_yet v)
        | inr (document, e) ↦ rw (e, prepare_document) (old_document-Prepared document e v)
      ]
