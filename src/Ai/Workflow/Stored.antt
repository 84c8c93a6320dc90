-- ===== src/Ai/Workflow/Stored.antt =====
-- What the workflow writes, method by method.
use ai_support_engineering_p.Agent.Claim.{Outcome, new_resolution}
use ai_support_engineering_p.Agent.Env.{Env, M, World, transaction}
use ai_support_engineering_p.Agent.Env.Rules.{Committed, Db-Triple, Triple-ask, Triple-transaction}
use ai_support_engineering_p.Agent.Failure.{
  Failure, incident_not_visible, retryable_resolution, state_disappeared,
}
use ai_support_engineering_p.Agent.Models.{IncidentCreatedEvent}
use ai_support_engineering_p.Agent.Tables.{by_id, find_resolution, set_resolution}
use ai_support_engineering_p.Agent.Validation.{citation_eq}
use ai_support_engineering_p.Ai.Resolution.{
  Fault, GeneratedResolution, Generation, Handling, handling, is_completed, is_ended, is_retrieved,
  validate_citations,
}
use ai_support_engineering_p.Ai.Workflow.{
  Gathered, checked, claim_attempt, claim_incident, claim_row, completed_row, end_attempt,
  failed_row, gather, handle_fault, held_by_other, next_attempt, record_fault, report,
  resolve_grounded, settle_attempt, store_resolution, with_context, write_resolution,
}
use ai_support_engineering_p.Common.{
  Bool, Bool-cases, List, Option, [], all-Mem, arith, distinct, false, find, inl, inr, is_empty,
  keep, map, none, not, refl, some, sym, true, ℕ, ◌++◌, ◌==◌, ◌∷◌, ◌≡◌,
}
use ai_support_engineering_p.Common.Exec.{Result, attempt, err, ok}
use ai_support_engineering_p.Common.Exec.Triple.{
  Triple, Triple-bind, Triple-if, Triple-pure, Triple-raise,
}
use ai_support_engineering_p.Db.{AiResolutionRecord, Db, IncidentRecord, SourceCitation}
use ai_support_engineering_p.Knowledge.Retrieval.{RetrievedChunk}
use mathlib.Core.Bool.{true≢false}
use mathlib.Core.List.{Memᴰ}

-- A resolution that is completed cites chunks that were retrieved for it, each once.
abbrev pub Evidence : Generation → AiResolutionRecord → Type 0
Evidence generation r =
    (context : List RetrievedChunk) × (cited : List SourceCitation) × (r.cited_sources ≡ some cited)
    × (r.retrieved_context ≡ some (map generation.dump_chunk context))
    × ((c : SourceCitation) → Memᴰ c cited → is_retrieved context c ≡ true)
    × (distinct citation_eq cited ≡ true)

abbrev pub Grounded : Generation → AiResolutionRecord → Type 0
Grounded generation r = is_completed r.status ≡ true → Evidence generation r

abbrev pub AllGrounded : Generation → Db → Type 0
AllGrounded generation db = (r : AiResolutionRecord) → Memᴰ r db.resolutions → Grounded generation r

-- What is accepted was retrieved, and is cited once.
validate_citations_lem :
    (supplied : List SourceCitation) (context : List RetrievedChunk)
    → validate_citations supplied context ≡ none
    → ((c : SourceCitation) → Memᴰ c supplied → is_retrieved context c ≡ true)
      × (distinct citation_eq supplied ≡ true)
unfolding validate_citations
validate_citations_lem supplied context h =
    let known : is_empty (keep (λ c. not (is_retrieved context c)) supplied) ≡ true =
      ground arith in
    ((all-Mem (is_retrieved context) supplied).0 known, ground arith)

module _ (env : Env) (generation : Generation) (event : IncidentCreatedEvent) where
  -- What a statement about the database must admit to hold after each write.
  pub record Admits (P : Db → Type 0) : Type 0 where
    pub added :
        (db : Db) (r : AiResolutionRecord)
        → Grounded generation r
        → P db
        → P (record db { resolutions = db.resolutions ++ r ∷ [] })
    pub written :
        (db : Db) (f : AiResolutionRecord → AiResolutionRecord)
        → ((r : AiResolutionRecord) → Grounded generation (f r))
        → P db
        → P (set_resolution event.incident_id f db)

  module _ (P : Db → Type 0) (admits : Admits P) where
    abbrev Keeping : {A : Type 0} → M A → Type 0
    Keeping m = Db-Triple P m (λ a. P) P

    claim_row-Committed :
        (row now : ℕ) (incident : IncidentRecord) (found : Option AiResolutionRecord) (db : Db)
        → P db
        → Committed (λ a. P) (claim_row env generation event row now incident found db)
    unfolding claim_row new_resolution
    claim_row-Committed row now incident none db p =
        admits.added db _ (λ c. absurd (true≢false (sym c))) p
    claim_row-Committed row now incident (some r) db p = elim (Bool-cases (is_ended r.status)) [
      | inl e ↦ rw e p
      | inr e ↦ elim (Bool-cases (held_by_other env generation event now r)) [
        | inl h ↦ rw (e, h) tt
        | inr h ↦
            rw (e, h)
              (admits.written db (next_attempt env generation event now)
                (λ q c. absurd (true≢false (sym c))) p)
      ]
    ]

    claim_attempt-Committed :
        (row now : ℕ) (db : Db)
        → P db
        → Committed (λ a. P) (claim_attempt env generation event row now db)
    unfolding claim_attempt
    claim_attempt-Committed row now db p = go (find (by_id event.incident_id) db.incidents)
      where
        go :
            (found : Option IncidentRecord)
            → Committed {A = IncidentRecord × ℕ}
                (λ a. P)
                (elim found [
                  | none ↦ err (retryable_resolution (incident_not_visible event.incident_id))
                  | some incident ↦
                      claim_row env generation event row now incident
                        (find_resolution event.incident_id db)
                        db
                ])
        go none = tt
        go (some incident) =
            claim_row-Committed row now incident (find_resolution event.incident_id db) db p

    write_resolution-Keeping :
        {A : Type 0} (a : A) (f : AiResolutionRecord → AiResolutionRecord)
        → ((r : AiResolutionRecord) → Grounded generation (f r))
        → Keeping (transaction env (write_resolution env generation event a f))
    write_resolution-Keeping {A} a f g =
        Triple-transaction P (λ a. P) P env _ (λ db p. p)
          (λ db. written db (find_resolution event.incident_id db))
      where
        written :
            (db : Db) (found : Option AiResolutionRecord)
            → P db
            → Committed {A = A}
                (λ a. P)
                (elim found [
                  | none ↦ err (retryable_resolution state_disappeared)
                  | some r ↦ ok (a, set_resolution event.incident_id f db)
                ])
        written db none p = tt
        written db (some r) p = admits.written db f g p

    claim_incident-Keeping : Keeping (claim_incident env generation event)
    unfolding claim_incident
    claim_incident-Keeping =
        Triple-bind (λ now w. P w.db) (Triple-ask P P env.now)
          λ now.
            Triple-bind (λ row w. P w.db) (Triple-ask P P env.next_id)
              λ row.
                Triple-transaction P (λ a. P) P env _ (λ db p. p) (claim_attempt-Committed row now)

    report-Keeping : Keeping (report env generation event)
    unfolding report
    report-Keeping = Triple-transaction P (λ a. P) P env _ (λ db p. p) (λ db p. p)

    -- What `gather` hands on.
    abbrev Checked : Gathered env generation event → Type 0
    Checked (context, ok resolution) = validate_citations resolution.cited_sources context ≡ none
    Checked (context, err fault) = Unit

    checked-Checked :
        (response : Result Failure GeneratedResolution) (context : List RetrievedChunk)
        → Checked (context, checked env generation event response context)
    checked-Checked (err e) context = tt
    checked-Checked (ok resolution) context =
        go (validate_citations resolution.cited_sources context) refl
      where
        go :
            (o : Option Fault)
            → validate_citations resolution.cited_sources context ≡ o
            → Checked (context, elim o [ none ↦ ok resolution | some fault ↦ err fault ])
        go none e = e
        go (some fault) e = tt

    abbrev GatheredWell : Gathered env generation event → World → Type 0
    GatheredWell g w = P w.db × Checked g

    with_context-Checked :
        (incident : IncidentRecord) (retrieved : Result Failure (List RetrievedChunk))
        → Triple
            (λ w. P w.db)
            (with_context env generation event incident retrieved)
            GatheredWell
            (λ e w. P w.db)
    with_context-Checked incident (err e) = Triple-pure _ (λ w p. (p, tt))
    with_context-Checked incident (ok []) = Triple-pure _ (λ w p. (p, tt))
    with_context-Checked incident (ok (item ∷ items)) =
        Triple-bind (λ response w. P w.db) (Triple-ask P P _)
          λ response. Triple-pure _ (λ w p. (p, checked-Checked response (item ∷ items)))

    gather-Checked :
        (incident : IncidentRecord)
        → Triple (λ w. P w.db) (gather env generation event incident) GatheredWell (λ e w. P w.db)
    unfolding gather
    gather-Checked incident =
        Triple-bind (λ retrieved w. P w.db) (Triple-ask P P _)
          λ retrieved. with_context-Checked incident retrieved

    store_resolution-Keeping :
        (context : List RetrievedChunk) (resolution : GeneratedResolution)
        → validate_citations resolution.cited_sources context ≡ none
        → Keeping (store_resolution env generation event context resolution)
    unfolding store_resolution
    store_resolution-Keeping context resolution v =
        let (all, once) = validate_citations_lem resolution.cited_sources context v in
        Triple-bind (λ now w. P w.db) (Triple-ask P P env.now)
          λ now.
            write_resolution-Keeping Outcome.completed
              (completed_row env generation event now context resolution)
              (λ r c. (context, resolution.cited_sources, refl, refl, all, once))

    end_attempt-Keeping :
        (terminal : Bool) (fault : Fault)
        → Keeping (end_attempt env generation event terminal fault)
    end_attempt-Keeping true fault = Triple-pure _ (λ w p. p)
    end_attempt-Keeping false fault = Triple-raise _ (λ w p. p)

    failed_row-Grounded :
        (now : ℕ) (terminal : Bool) (fault : Fault) (context : List RetrievedChunk)
        (r : AiResolutionRecord)
        → Grounded generation (failed_row env generation event now terminal fault context r)
    failed_row-Grounded now true fault context r c = absurd (true≢false (sym c))
    failed_row-Grounded now false fault context r c = absurd (true≢false (sym c))

    record_fault-Keeping :
        (attempt : ℕ) (context : List RetrievedChunk) (fault : Fault) (b : Bool)
        → Keeping (record_fault env generation event attempt context fault b)
    unfolding record_fault
    record_fault-Keeping attempt context fault b =
        Triple-bind (λ now w. P w.db) (Triple-ask P P env.now)
          λ now.
            Triple-bind (λ done w. P w.db)
              (write_resolution-Keeping tt _ (failed_row-Grounded now _ fault context))
              λ done. end_attempt-Keeping _ fault

    handle_fault-Keeping :
        (attempt : ℕ) (context : List RetrievedChunk) (fault : Fault) (h : Handling)
        → Keeping (handle_fault env generation event attempt context fault h)
    handle_fault-Keeping attempt context fault Handling.retry_only =
        record_fault-Keeping attempt context fault false
    handle_fault-Keeping attempt context fault Handling.may_end =
        record_fault-Keeping attempt context fault true
    handle_fault-Keeping attempt context fault (Handling.passed_on e) = Triple-raise _ (λ w p. p)

    settle_attempt-Keeping :
        (attempt : ℕ) (g : Gathered env generation event)
        → Triple
            (GatheredWell g)
            (settle_attempt env generation event attempt g)
            (λ a w. P w.db)
            (λ e w. P w.db)
    settle_attempt-Keeping attempt (context, ok resolution) = record {
      at = λ w h. (store_resolution-Keeping context resolution h.1).at w h.0;
    }
    settle_attempt-Keeping attempt (context, err fault) = record {
      at = λ w h. (handle_fault-Keeping attempt context fault (handling fault)).at w h.0;
    }

    pub resolve_grounded-Keeping : Keeping (resolve_grounded env generation event)
    unfolding resolve_grounded
    resolve_grounded-Keeping =
        Triple-bind (λ claimed w. P w.db) claim_incident-Keeping
          λ claimed.
            Triple-if (claimed.1 == 0) _ _ (λ e. report-Keeping)
              (λ e.
                Triple-bind GatheredWell (gather-Checked claimed.0)
                  (settle_attempt-Keeping claimed.1))
