-- ===== src/Ai/Workflow/Completing.antt =====
-- A first attempt in which nothing fails, and the delivery after it.
use ai_support_engineering_p.Agent.Claim.{Outcome}
use ai_support_engineering_p.Agent.Env.{Env, World}
use ai_support_engineering_p.Agent.Failure.{Failure}
use ai_support_engineering_p.Agent.Models.{IncidentCreatedEvent}
use ai_support_engineering_p.Agent.Tables.{find_resolution, of_incident}
use ai_support_engineering_p.Agent.Validation.{citation_eq}
use ai_support_engineering_p.Ai.Resolution.{GeneratedResolution, Generation}
use ai_support_engineering_p.Ai.Workflow.{completed_row, first_attempt, resolve_grounded}
use ai_support_engineering_p.Common.{
  List, [], distinct, map, modify, none, some, true, ◌++◌, ◌+◌, ◌∷◌, ◌≡◌,
}
use ai_support_engineering_p.Common.Exec.{Result, ok}
use ai_support_engineering_p.Db.{AiResolutionRecord, AiResolutionStatus, Db, SourceCitation}
use ai_support_engineering_p.Knowledge.Retrieval.{RetrievedChunk}
use mathlib.Core.List.{Memᴰ}

module _ (env : Env) (generation : Generation) (event : IncidentCreatedEvent) where
  -- Every citation names a chunk of the context, and none comes twice.
  pub record Cited (context : List RetrievedChunk) (supplied : List SourceCitation) : Type 0 where
    pub named :
        (c : SourceCitation)
        → Memᴰ c supplied
        → (item : RetrievedChunk) × Memᴰ item context
          × (item.source_id ≡ c.source_id)
          × (item.chunk_id ≡ c.chunk_id)
    pub once : distinct citation_eq supplied ≡ true

  -- The row of a resolved incident.
  pub record Row (chunks : List RetrievedChunk) (resolution : GeneratedResolution)
      (r : AiResolutionRecord) : Type 0 where
    pub status : r.status ≡ AiResolutionStatus.completed
    pub attempt : r.attempt_count ≡ 1
    pub summary : r.summary ≡ some resolution.summary
    pub root_cause : r.root_cause ≡ some resolution.root_cause
    pub actions : r.recommended_actions ≡ some resolution.recommended_actions
    pub sources : r.cited_sources ≡ some resolution.cited_sources
    pub context : r.retrieved_context ≡ some (map generation.dump_chunk chunks)
    pub no_error : r.error_message ≡ none

  -- What a delivery leaves behind, and how the next one is answered.
  pub record Resolved (chunks : List RetrievedChunk) (resolution : GeneratedResolution) (w : World)
      (o : Result Failure Outcome × World) : Type 0 where
    pub outcome : o.0 ≡ ok Outcome.completed
    pub stored :
        (r : AiResolutionRecord) × (find_resolution event.incident_id o.1.db ≡ some r)
        × Row chunks resolution r
    pub rest : record o.1.db { resolutions = w.db.resolutions } ≡ w.db
    pub next :
        (w' : World) × (resolve_grounded env generation event o.1 ≡ (ok Outcome.completed, w'))
        × (w'.db ≡ o.1.db)

  -- The tables and the tick after an attempt that stores an answer.
  abbrev resolved_world : World → List RetrievedChunk → GeneratedResolution → World
  resolved_world w chunks resolution = record {
    db = record w.db {
      resolutions =
          modify (of_incident event.incident_id)
            (completed_row env generation event (env.now (w.tick + 1 + 1 + 1 + 1 + 1)) chunks
              resolution)
            (w.db.resolutions
              ++ first_attempt env generation event (env.next_id (w.tick + 1)) (env.now w.tick)
                ∷ []);
    };
    tick = w.tick + 1 + 1 + 1 + 1 + 1 + 1 + 1;
  }

  module _ (w : World) (item : RetrievedChunk) (items : List RetrievedChunk)
      (resolution : GeneratedResolution) where
    abbrev row : AiResolutionRecord
    row =
        completed_row env generation event (env.now (w.tick + 1 + 1 + 1 + 1 + 1)) (item ∷ items)
          resolution
          (first_attempt env generation event (env.next_id (w.tick + 1)) (env.now w.tick))
