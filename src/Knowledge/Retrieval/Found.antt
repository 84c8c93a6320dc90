-- ===== src/Knowledge/Retrieval/Found.antt =====
-- What a search of the knowledge base returns.
use ai_support_engineering_p.Common.{
  Bool, List, Option, String, Text, [], arith, false, none, refl, some, subst, suc, sym, true, zero,
  ℕ, ◌+◌, ◌∷◌, ◌≡◌, ◌≤◌,
}
use ai_support_engineering_p.Common.Exec.{Result, continue, err, lift, ok, pure, raise, ◌>>=◌}
use ai_support_engineering_p.Knowledge.Ingestion.{
  Embedder, KnowledgeError, KnowledgeWorld, answered, read_session,
}
use ai_support_engineering_p.Knowledge.Retrieval.{
  Engine, RetrievedChunk, first_vector, result_limit, retrieve_in_session, retrieve_query,
}
use ai_support_engineering_p.Knowledge.Retrieval.Sessions.{Searching, retrieve_in_session-Searching}
use ai_support_engineering_p.Knowledge.Tables.{KnowledgeDb}

module _ (engine : Engine) where
  limit-le :
      (embedder : Embedder) (top_k : ℕ) (requested : Option ℕ)
      → result_limit embedder engine top_k requested ≤ top_k
  unfolding result_limit
  limit-le embedder top_k none = omega arith
  limit-le embedder top_k (some zero) = omega arith
  limit-le embedder top_k (some (suc n)) = omega arith

  module _ (embedder : Embedder) (top_k : ℕ) (question : Text) (requested : Option ℕ)
      (category : Option String) where
    abbrev pub search_limit : ℕ
    search_limit = result_limit embedder engine top_k requested

    -- The vector of the question at this tick.
    abbrev pub Embedded : ℕ → List ℕ → Type 0
    Embedded n query =
        (others : List (List ℕ)) × (embedder.embed_texts n (question ∷ []) ≡ ok (query ∷ others))

    -- What a search answers from these tables at this tick, or why it raises: what the session
    -- answers for the vector of the question, or a failure of the provider or of the database.
    abbrev pub Answer : ℕ → KnowledgeDb → Result KnowledgeError (List RetrievedChunk) → Type 0
    Answer n db (ok results) =
        (query : List ℕ) × Embedded n query
        × Searching engine query search_limit category db engine.is_postgresql (ok results)
        × (search_limit ≤ top_k)
    Answer n db (err (KnowledgeError.provider_error message)) =
        embedder.embed_texts n (question ∷ []) ≡ err message
    Answer n db (err KnowledgeError.no_vector) = embedder.embed_texts n (question ∷ []) ≡ ok []
    Answer n db (err (KnowledgeError.database_error message)) =
        embedder.session_fault (n + 1) ≡ some message
    Answer n db (err KnowledgeError.length_mismatch) =
        (query : List ℕ) × Embedded n query
        × (engine.is_postgresql ≡ false)
        × Searching engine query search_limit category db false (err KnowledgeError.length_mismatch)

    -- What a search promises.
    abbrev pub Searched :
        KnowledgeWorld → Result KnowledgeError (List RetrievedChunk) × KnowledgeWorld → Type 0
    Searched w (r, w') = (w'.db ≡ w.db) × Answer w.tick w.db r

    session-Answer :
        (n : ℕ) (query : List ℕ) (db : KnowledgeDb)
        → Embedded n query
        → (b : Bool) → engine.is_postgresql ≡ b
        → (r : Result KnowledgeError (List RetrievedChunk))
        → Searching engine query search_limit category db b r
        → Answer n db r
    session-Answer n query db e b p (ok results) h = (
      query,
      e,
      subst (λ c. Searching engine query search_limit category db c (ok results)) (sym p) h,
      limit-le embedder top_k requested,
    )
    session-Answer n query db e false p (err KnowledgeError.length_mismatch) h = (query, e, p, h)
    session-Answer n query db e true p (err KnowledgeError.length_mismatch) h = absurd h
    session-Answer n query db e false p (err (KnowledgeError.provider_error t)) h = absurd h
    session-Answer n query db e true p (err (KnowledgeError.provider_error t)) h = absurd h
    session-Answer n query db e false p (err (KnowledgeError.database_error t)) h = absurd h
    session-Answer n query db e true p (err (KnowledgeError.database_error t)) h = absurd h
    session-Answer n query db e false p (err KnowledgeError.no_vector) h = absurd h
    session-Answer n query db e true p (err KnowledgeError.no_vector) h = absurd h

    -- A search changes no table. It raises only where the provider fails or gives no vector, where
    -- the database fails, and, unless the database is PostgreSQL, where some stored chunk of the
    -- category has a vector of another length than the question's; it raises accordingly, and else
    -- it returns. The results come from the vector of the question: at most as many as asked for and
    -- configured, each a stored chunk of the category with its document, the nearest first (by
    -- pgvector's distance on PostgreSQL, else by the cosine); and a chunk of the category that is
    -- left out stands after all of them, and is left out only where there are as many results as
    -- the limit. On PostgreSQL this is said of the rows that the index scan visits.
    pub retrieve_query_lem :
        (w : KnowledgeWorld)
        → Searched w (retrieve_query embedder engine top_k question requested category w)
    unfolding retrieve_query ◌>>=◌ raise pure lift
    retrieve_query_lem w = go (embedder.embed_texts w.tick (question ∷ [])) refl
      where
        read_answer :
            List ℕ
            → Option Text
            → Result KnowledgeError (Result KnowledgeError (List RetrievedChunk)) × KnowledgeWorld
        read_answer query fault = elim fault [
          | some message ↦
              (err (KnowledgeError.database_error message), record w { tick = w.tick + 1 + 1 })
          | none ↦ (
            ok (retrieve_in_session engine query search_limit category w.db),
            record w { tick = w.tick + 1 + 1 },
          )
        ]

        last :
            (query : List ℕ) (others : List (List ℕ))
            → embedder.embed_texts w.tick (question ∷ []) ≡ ok (query ∷ others)
            → (fault : Option Text) → embedder.session_fault (w.tick + 1) ≡ fault
            → let o = read_answer query fault in Searched w (continue o.0 lift o.1)
        last query others e none f = (
          refl,
          session-Answer w.tick query w.db (others, e) engine.is_postgresql refl _
              (retrieve_in_session-Searching engine query search_limit category w.db),
        )
        last query others e (some message) f = (refl, f)

        go :
            (r : Result Text (List (List ℕ)))
            → embedder.embed_texts w.tick (question ∷ []) ≡ r
            → Searched w (
                continue
                  (answered embedder r)
                  (λ vectors. first_vector embedder engine top_k vectors >>= λ query.
                    read_session embedder (retrieve_in_session engine query search_limit category)
                    >>= lift)
                  (record w { tick = w.tick + 1 }))
        go (err message) e = (refl, e)
        go (ok []) e = (refl, e)
        go (ok (query ∷ others)) e = last query others e (embedder.session_fault (w.tick + 1)) refl
