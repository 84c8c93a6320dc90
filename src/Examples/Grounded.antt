-- ===== src/Examples/Grounded.antt =====
-- An attempt of the phase 4 workflow on the sample incident.
use mathlib.Core.List.Memᴰ
use ai_support_engineering_p.Ai.Resolution.{GeneratedResolution, Generation}
use ai_support_engineering_p.Ai.Workflow.{grounded_workflow, resolve_grounded}
use ai_support_engineering_p.Ai.Workflow.Answered.{
  HasStatus, outcome_status, resolve_grounded-HasStatus,
}
use ai_support_engineering_p.Ai.Workflow.Evidenced.{
  grounded_workflow-Keeps, resolve_grounded-Grounded,
}
use ai_support_engineering_p.Ai.Workflow.Stored.{AllGrounded}
use ai_support_engineering_p.Common.{[], codes, ◌∷◌}
use ai_support_engineering_p.Common.Exec.{ok}
use ai_support_engineering_p.Common.Exec.Triple.{Ends}
use ai_support_engineering_p.Db.Json.{null, ℤ}
use ai_support_engineering_p.Examples.Data.{first_world, sample_env, sample_event}
use ai_support_engineering_p.Knowledge.Retrieval.{RetrievedChunk}
use ai_support_engineering_p.Workers.Kept.{Keeps}
use ai_support_engineering_p.Workers.Markers.{Once}
use mathlib.Core.List.{Memᴰ}

abbrev runbook_chunk : RetrievedChunk
runbook_chunk = record {
  chunk_id = 2;
  source_id = "runbook-timeouts";
  title = "Timeouts";
  category = "http";
  content = codes "Check the dependency.";
  similarity = ℤ.pos 1;
}

abbrev sample_resolution : GeneratedResolution
sample_resolution = record {
  summary = codes "A dependency was slow.";
  root_cause = codes "The dependency.";
  recommended_actions = codes "Check it." ∷ [];
  confidence = 1;
  cited_sources = record { source_id = "runbook-timeouts"; chunk_id = 2 } ∷ [];
}

abbrev sample_generation : Generation
sample_generation = record {
  max_attempts = 3;
  stale_after = 900;
  retrieve = λ n incident. ok (runbook_chunk ∷ []);
  build_resolution_prompt = λ incident context. incident.error;
  generate = λ n prompt. ok sample_resolution;
  describe = λ fault. codes "fault";
  dump_chunk = λ item. null;
}

none_yet : AllGrounded sample_generation first_world.db
none_yet r m = absurd (Memᴰ.not-nil m)

resolve_grounded-Grounded_example :
    AllGrounded sample_generation
      (resolve_grounded sample_env sample_generation sample_event first_world).1.db
resolve_grounded-Grounded_example =
    resolve_grounded-Grounded sample_env sample_generation sample_event first_world none_yet

resolve_grounded-HasStatus_example :
    Ends
      (λ outcome w'.
        HasStatus sample_env sample_generation sample_event (outcome_status outcome) w'.db)
      (λ e w'. Unit)
      (resolve_grounded sample_env sample_generation sample_event first_world)
resolve_grounded-HasStatus_example =
    resolve_grounded-HasStatus sample_env sample_generation sample_event first_world

grounded_workflow-Keeps_example : Keeps Once (grounded_workflow sample_env sample_generation)
grounded_workflow-Keeps_example =
    grounded_workflow-Keeps Once sample_env sample_generation (λ db resolutions once. once)
