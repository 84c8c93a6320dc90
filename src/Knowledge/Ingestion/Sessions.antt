-- ===== src/Knowledge/Ingestion/Sessions.antt =====
-- Rules for the sessions and the provider's calls of the knowledge base.
use ai_support_engineering_p.Common.{List, Option, Text, keep, none, refl, some, ℕ, ◌+◌, ◌≡◌}
use ai_support_engineering_p.Common.Exec.{Result, err, ok}
use ai_support_engineering_p.Common.Exec.Triple.{Ends, Triple}
use ai_support_engineering_p.Knowledge.Ingestion.{
  Embedder, KnowledgeError, KnowledgeWorld, answered, embed, read_session,
}
use ai_support_engineering_p.Knowledge.Tables.{KnowledgeDb}

module _ (embedder : Embedder) where
  -- A session that reads, from tables with `P`.
  pub Triple-read_session :
      {A : Type 0} (P R : KnowledgeDb → Type 0) (f : KnowledgeDb → A)
      → ((db : KnowledgeDb) → P db → R db)
      → Triple
          (λ w. P w.db)
          (read_session embedder f)
          (λ a w. P w.db × (a ≡ f w.db))
          (λ e w. R w.db)
  Triple-read_session {A} P R f keep = record {
    at = λ w p. ends (embedder.session_fault w.tick) w p;
  }
    where
      ends :
          (o : Option Text) (w : KnowledgeWorld)
          → P w.db
          → Ends
              (λ a w. P w.db × (a ≡ f w.db))
              (λ e w. R w.db)
              (elim o as (λ x. Result KnowledgeError A × KnowledgeWorld) [
                | some message ↦
                    (err (KnowledgeError.database_error message), record w { tick = w.tick + 1 })
                | none ↦ (ok (f w.db), record w { tick = w.tick + 1 })
              ])
      ends none w p = (p, refl)
      ends (some message) w p = keep w.db p

  -- A call of the provider, with its answer.
  pub Triple-embed :
      (P R : KnowledgeDb → Type 0) (n : ℕ) (texts : List Text)
      → ((db : KnowledgeDb) → P db → R db)
      → Triple
          (λ w. P w.db × (w.tick ≡ n))
          (embed embedder texts)
          (λ vectors w. P w.db × (embedder.embed_texts n texts ≡ ok vectors))
          (λ e w. R w.db)
  Triple-embed P R n texts keep = record {
    at = λ w p. rw p.1 (ends (embedder.embed_texts n texts) refl w p.0);
  }
    where
      ends :
          (r : Result Text (List (List ℕ)))
          → embedder.embed_texts n texts ≡ r
          → (w : KnowledgeWorld) → P w.db
          → Ends
              (λ vectors w. P w.db × (embedder.embed_texts n texts ≡ ok vectors))
              (λ e w. R w.db)
              (answered embedder r, record w { tick = n + 1 })
      ends (ok vectors) e w p = (p, e)
      ends (err message) e w p = keep w.db p
