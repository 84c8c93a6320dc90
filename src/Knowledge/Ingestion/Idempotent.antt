-- ===== src/Knowledge/Ingestion/Idempotent.antt =====
-- A second ingestion of the same sources.
use mathlib.Core.List.Memᴰ
use ai_support_engineering_p.Common.{
  Bool, List, Unique, [], ap, arith, false, inl, inr, length, map, none, refl, some, subst, true, ℕ,
  ◌+◌, ◌∙◌, ◌∷◌, ◌≡◌, ◌≢◌, ◌≤◌,
}
use ai_support_engineering_p.Common.Exec.{Result, bind_lem, err, ok, pure}
use ai_support_engineering_p.Common.Exec.Triple.{Ends}
use ai_support_engineering_p.Knowledge.Ingestion.{
  Embedder, IngestionResult, KnowledgeError, KnowledgeWorld, counted, ingest, ingest_loop,
  ingest_source, nothing_ingested, read_session, up_to_date, update_if,
}
use ai_support_engineering_p.Knowledge.Ingestion.Rounds.{Apart, Fresh, HasText, ingest_loop_lem}
use ai_support_engineering_p.Knowledge.Ingestion.Valid.{Valid}
use ai_support_engineering_p.Knowledge.Loader.{
  Files, KnowledgeManifestEntry, KnowledgeSource, load_knowledge_sources,
}
use ai_support_engineering_p.Knowledge.Loader.Loaded.{load_knowledge_sources_iff}
use mathlib.Core.List.{Memᴰ}

Unique-Apart :
    (seen sources : List KnowledgeSource)
    → Unique (map (λ s. s.source_id) sources)
    → ((t : KnowledgeSource)
        → Memᴰ t seen
        → (s : KnowledgeSource) → Memᴰ s sources
        → t.source_id ≢ s.source_id)
    → Apart seen sources
Unique-Apart seen [] u h = tt
Unique-Apart seen (s ∷ sources) u h = (
  λ t m. h t m s (Memᴰ.head refl),
  Unique-Apart (s ∷ seen) sources u.1 λ t m r k. elim (Memᴰ.cases_cons m) [
    | inl e ↦ rw e (u.0 r.source_id (Memᴰ.map (λ x. x.source_id) k))
    | inr m' ↦ h t m' r (Memᴰ.tail k)
  ],
)

module _ (embedder : Embedder) (chunk_size : ℕ) where
  read_answered :
      (s : KnowledgeSource) (w : KnowledgeWorld)
      → embedder.session_fault w.tick ≡ none
      → read_session embedder (up_to_date embedder chunk_size s) w
        ≡ (ok (up_to_date embedder chunk_size s w.db), record w { tick = w.tick + 1 })
  read_answered s w f =
      ap
        (λ o. elim o as (λ x. Result KnowledgeError Bool × KnowledgeWorld) [
          | some message ↦
              (err (KnowledgeError.database_error message), record w { tick = w.tick + 1 })
          | none ↦ (ok (up_to_date embedder chunk_size s w.db), record w { tick = w.tick + 1 })
        ])
        f

  round_skipped :
      (s : KnowledgeSource) (w : KnowledgeWorld)
      → embedder.session_fault w.tick ≡ none
      → up_to_date embedder chunk_size s w.db ≡ true
      → ingest_source embedder chunk_size s w ≡ (ok false, record w { tick = w.tick + 1 })
  unfolding ingest_source pure
  round_skipped s w f h =
      bind_lem (read_session embedder (up_to_date embedder chunk_size s))
        (update_if embedder chunk_size s) w _ (read_answered s w f)
      ∙ ap (λ b. update_if embedder chunk_size s b (record w { tick = w.tick + 1 })) h

  -- Where all sources are up to date and the database answers, a pass only reads.
  reads_only :
      (sources : List KnowledgeSource) (r : IngestionResult) (w : KnowledgeWorld)
      → ((s : KnowledgeSource) → Memᴰ s sources → up_to_date embedder chunk_size s w.db ≡ true)
      → ((n : ℕ) → w.tick ≤ n → embedder.session_fault n ≡ none)
      → ingest_loop embedder chunk_size sources r w ≡ (
        ok (record r { documents_unchanged = r.documents_unchanged + length sources }),
        record w { tick = w.tick + length sources },
      )
  unfolding ingest_loop pure
  reads_only [] r w h f = ground arith
  reads_only (s ∷ sources) r w h f =
      bind_lem (ingest_source embedder chunk_size s)
        (λ updated.
          ingest_loop embedder chunk_size sources (counted embedder chunk_size s updated r))
        w _ (round_skipped s w (f w.tick (omega arith)) (h s (Memᴰ.head refl)))
      ∙ reads_only sources (record r { documents_unchanged = r.documents_unchanged + 1 })
          (record w { tick = w.tick + 1 }) (λ t m. h t (Memᴰ.tail m)) (λ n k. f n (omega arith))
      ∙ ground arith

  -- Once an ingestion of the manifest's sources has returned, the same ingestion finds nothing to
  -- do: it embeds nothing, writes nothing and reports every source as unchanged, if the first one
  -- started from sound tables, every source has text, and the database answers from then on. The
  -- tables are sound after the first.
  pub ingest-again :
      (files : Files) (entries : List KnowledgeManifestEntry) (sources : List KnowledgeSource)
      (w w' : KnowledgeWorld) (r : IngestionResult)
      → load_knowledge_sources files entries ≡ ok sources
      → ((s : KnowledgeSource) → Memᴰ s sources → HasText s)
      → Valid w.db
      → ingest embedder chunk_size sources w ≡ (ok r, w')
      → ((n : ℕ) → w'.tick ≤ n → embedder.session_fault n ≡ none)
      → (ingest embedder chunk_size sources w' ≡ (
        ok (record nothing_ingested { documents_unchanged = length sources }),
        record w' { tick = w'.tick + length sources },
      ))
        × Valid w'.db
  unfolding ingest
  ingest-again files entries sources w w' r l inked v h f =
      let unique = ((load_knowledge_sources_iff files entries sources).0 l).1 in
      let apart = Unique-Apart [] sources unique (λ t m s k. absurd (Memᴰ.not-nil m)) in
      let start : Fresh embedder chunk_size [] w.db = record {
        valid = v;
        fresh = λ t m. absurd (Memᴰ.not-nil m);
      } in
      let after =
        subst
          (Ends (λ r' u. Fresh embedder chunk_size [] u.db × Fresh embedder chunk_size sources u.db)
            (λ e u. Valid u.db))
          h
          ((ingest_loop_lem embedder chunk_size [] sources nothing_ingested inked apart).at w
            start) in
      (reads_only sources nothing_ingested w' after.1.fresh f ∙ ground arith, after.0.valid)
