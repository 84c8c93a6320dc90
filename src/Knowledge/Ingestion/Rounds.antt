-- ===== src/Knowledge/Ingestion/Rounds.antt =====
-- One pass over the sources, round by round.
use mathlib.Core.List.Memᴰ
use ai_support_engineering_p.Common.{
  Bool, Bool-cases, List, Option, Text, [], false, inl, inr, is_empty, none, refl, some, sym, true,
  ℕ, ◌∙◌, ◌∷◌, ◌≡◌, ◌≢◌,
}
use ai_support_engineering_p.Common.Exec.{Result, err, ok}
use ai_support_engineering_p.Common.Exec.Triple.{
  Ends, Ends-mono, Triple, Triple-bind, Triple-mono, Triple-pure,
}
use ai_support_engineering_p.Knowledge.Chunking.{KnowledgeChunk}
use ai_support_engineering_p.Knowledge.Chunking.Complete.{chunk_document-ink, contents}
use ai_support_engineering_p.Knowledge.Ingestion.{
  Embedder, Ingest, IngestionResult, KnowledgeError, KnowledgeWorld, chunks_of, commit_result,
  counted, embed, ingest_loop, ingest_source, read_session, replace_source, up_to_date, update_if,
  write_session,
}
use ai_support_engineering_p.Knowledge.Tables.{KnowledgeDb, prepare_document}
use ai_support_engineering_p.Knowledge.Ingestion.Current.{up_to_date-other, up_to_date-written}
use ai_support_engineering_p.Knowledge.Ingestion.Prepared.{prepare_document-Prepared}
use ai_support_engineering_p.Knowledge.Ingestion.Sessions.{Triple-embed, Triple-read_session}
use ai_support_engineering_p.Knowledge.Ingestion.Stored.{add_pairs_lem}
use ai_support_engineering_p.Knowledge.Ingestion.Valid.{
  Valid, add_pairs-Valid, prepare_document-Valid,
}
use ai_support_engineering_p.Knowledge.Loader.{KnowledgeSource}
use ai_support_engineering_p.Knowledge.Whitespace.Ink.{ink, ink_all}
use ai_support_engineering_p.Review.Transitions.{after}
use mathlib.Core.List.{Memᴰ}

-- No source has the identifier of an earlier one.
abbrev pub Apart : List KnowledgeSource → List KnowledgeSource → Type 0
Apart seen [] = Unit
Apart seen (s ∷ sources) =
    ((t : KnowledgeSource) → Memᴰ t seen → t.source_id ≢ s.source_id) × Apart (s ∷ seen) sources

-- A source whose content is not all whitespace.
abbrev pub HasText : KnowledgeSource → Type 0
HasText s = ink s.content ≢ []

module _ (embedder : Embedder) (chunk_size : ℕ) where
  -- The tables are sound, and these sources are up to date.
  pub record Fresh (seen : List KnowledgeSource) (db : KnowledgeDb) : Type 0 where
    pub valid : Valid db
    pub fresh : (t : KnowledgeSource) → Memᴰ t seen → up_to_date embedder chunk_size t db ≡ true

  chunks_of-HasText :
      (s : KnowledgeSource) → HasText s → is_empty (chunks_of embedder chunk_size s) ≡ false
  chunks_of-HasText s h = elim (Bool-cases (is_empty (chunks_of embedder chunk_size s))) [
    | inl e ↦ absurd (
        h (
          sym (chunk_document-ink embedder.hash s.content chunk_size)
          ∙ no_ink (chunks_of embedder chunk_size s) e))
    | inr e ↦ e
  ]
    where
      no_ink :
          (chunks : List KnowledgeChunk) → is_empty chunks ≡ true → ink_all (contents chunks) ≡ []
      no_ink [] e = refl
      no_ink (c ∷ chunks) e = cc

  replace_source-Fresh :
      (s : KnowledgeSource) (vectors : List (List ℕ)) (seen : List KnowledgeSource)
      (db db' : KnowledgeDb)
      → HasText s
      → ((t : KnowledgeSource) → Memᴰ t seen → t.source_id ≢ s.source_id)
      → Fresh seen db
      → replace_source embedder chunk_size s vectors db ≡ ok db'
      → Fresh (s ∷ seen) db'
  unfolding replace_source
  replace_source-Fresh s vectors seen db db' inked apart f h =
      let p = prepare_document s db in
      let facts = prepare_document-Prepared s db f.valid in
      let (e, n) =
        add_pairs_lem embedder chunk_size p.0 (chunks_of embedder chunk_size s) vectors p.1 db' h in
      record {
        valid =
            add_pairs-Valid embedder chunk_size p.0 (chunks_of embedder chunk_size s) vectors p.1
              db' facts.below (prepare_document-Valid s db f.valid) h;
        fresh = λ t m. rw e (elim (Memᴰ.cases_cons m) [
          | inl q ↦ rw q (
              up_to_date-written embedder chunk_size s vectors db f.valid n
                (chunks_of-HasText s inked))
          | inr k ↦
              up_to_date-other embedder chunk_size s vectors db f.valid t (apart t k) ∙ f.fresh t k
        ]);
      }

  -- From sound tables, a method keeps them sound, and returns with these sources up to date.
  abbrev Freshens : {A : Type 0} → List KnowledgeSource → Ingest A → List KnowledgeSource → Type 0
  Freshens before m after =
      Triple (λ w. Fresh before w.db) m (λ a w. Fresh after w.db) (λ e w. Valid w.db)

  read_session_lem :
      (seen : List KnowledgeSource) (s : KnowledgeSource)
      → Triple
          (λ w. Fresh seen w.db)
          (read_session embedder (up_to_date embedder chunk_size s))
          (λ a w. Fresh seen w.db × (a ≡ up_to_date embedder chunk_size s w.db))
          (λ e w. Valid w.db)
  read_session_lem seen s =
      Triple-read_session embedder (Fresh seen) Valid (up_to_date embedder chunk_size s)
        (λ db f. f.valid)

  write_session_lem :
      (seen : List KnowledgeSource) (s : KnowledgeSource) (vectors : List (List ℕ))
      → HasText s
      → ((t : KnowledgeSource) → Memᴰ t seen → t.source_id ≢ s.source_id)
      → Freshens seen
          (write_session embedder (replace_source embedder chunk_size s vectors))
          (s ∷ seen)
  write_session_lem seen s vectors inked apart = record {
    at = λ w f. ends (embedder.session_fault w.tick) w f;
  }
    where
      replaced :
          (w : KnowledgeWorld) (r : Result KnowledgeError KnowledgeDb)
          → replace_source embedder chunk_size s vectors w.db ≡ r
          → Fresh seen w.db
          → Ends (λ a w. Fresh (s ∷ seen) w.db) (λ e w. Valid w.db) (commit_result embedder w r)
      replaced w (ok db') e f = replace_source-Fresh s vectors seen w.db db' inked apart f e
      replaced w (err x) e f = f.valid

      ends :
          (o : Option Text) (w : KnowledgeWorld)
          → Fresh seen w.db
          → Ends
              (λ a w. Fresh (s ∷ seen) w.db)
              (λ e w. Valid w.db)
              (commit_result embedder w (elim o as (λ x. Result KnowledgeError KnowledgeDb) [
                | some message ↦ err (KnowledgeError.database_error message)
                | none ↦ replace_source embedder chunk_size s vectors w.db
              ]))
      ends none w f = replaced w (replace_source embedder chunk_size s vectors w.db) refl f
      ends (some message) w f = f.valid

  embed_lem :
      (seen : List KnowledgeSource) (texts : List Text) → Freshens seen (embed embedder texts) seen
  embed_lem seen texts = record {
    at = λ w f.
        Ends-mono (λ vectors u h. h.0) (λ e u h. h) (embed embedder texts w)
          ((Triple-embed embedder (Fresh seen) Valid w.tick texts (λ db f. f.valid)).at w
            (f, refl));
  }

  ingest_source_lem :
      (seen : List KnowledgeSource) (s : KnowledgeSource)
      → HasText s
      → ((t : KnowledgeSource) → Memᴰ t seen → t.source_id ≢ s.source_id)
      → Freshens seen (ingest_source embedder chunk_size s) (s ∷ seen)
  unfolding ingest_source
  ingest_source_lem seen s inked apart =
      Triple-bind (λ a w. Fresh seen w.db × (a ≡ up_to_date embedder chunk_size s w.db))
        (read_session_lem seen s) rest
    where
      current :
          (w : KnowledgeWorld)
          → Fresh seen w.db × (true ≡ up_to_date embedder chunk_size s w.db)
          → Fresh (s ∷ seen) w.db
      current w (f, e) = record {
        valid = f.valid;
        fresh = λ t m. elim (Memᴰ.cases_cons m) [ inl q ↦ rw q (sym e) | inr k ↦ f.fresh t k ];
      }

      rest :
          (a : Bool)
          → Triple
              (λ w. Fresh seen w.db × (a ≡ up_to_date embedder chunk_size s w.db))
              (update_if embedder chunk_size s a)
              (λ a w. Fresh (s ∷ seen) w.db)
              (λ e w. Valid w.db)
      rest true = Triple-pure false current
      rest false =
          Triple-bind (λ a w. Fresh (s ∷ seen) w.db)
            (Triple-mono (λ w f. f.0) (λ a w f. f) (λ e w f. f)
              (Triple-bind (λ a w. Fresh seen w.db) (embed_lem seen _)
                λ vectors. write_session_lem seen s vectors inked apart))
            λ a. Triple-pure true (λ w f. f)

  pub ingest_loop_lem :
      (seen sources : List KnowledgeSource) (r : IngestionResult)
      → ((s : KnowledgeSource) → Memᴰ s sources → HasText s)
      → Apart seen sources
      → Triple
          (λ w. Fresh seen w.db)
          (ingest_loop embedder chunk_size sources r)
          (λ r' w. Fresh seen w.db × Fresh sources w.db)
          (λ e w. Valid w.db)
  unfolding ingest_loop
  ingest_loop_lem seen [] r inked apart =
      Triple-pure r (λ w f. (f, record { valid = f.valid; fresh = λ t m. absurd (Memᴰ.not-nil m) }))
  ingest_loop_lem seen (s ∷ sources) r inked (apart, later) =
      Triple-bind (λ a w. Fresh (s ∷ seen) w.db)
        (ingest_source_lem seen s (inked s (Memᴰ.head refl)) apart)
        λ updated.
          Triple-mono (λ w f. f)
            (λ r' w f. (
              record { valid = f.1.valid; fresh = λ t m. f.0.fresh t (Memᴰ.tail m) },
              record {
                valid = f.1.valid;
                fresh = λ t m. elim (Memᴰ.cases_cons m) [
                  | inl q ↦ f.0.fresh t (Memᴰ.head q)
                  | inr k ↦ f.1.fresh t k
                ];
              },
            ))
            (λ e w f. f)
            (ingest_loop_lem (s ∷ seen) sources (counted embedder chunk_size s updated r)
              (λ t m. inked t (Memᴰ.tail m)) later)
