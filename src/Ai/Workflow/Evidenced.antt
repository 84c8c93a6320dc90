-- ===== src/Ai/Workflow/Evidenced.antt =====
-- What the workflow keeps: every statement on the other tables, and the evidence of resolutions.
use mathlib.Core.List.Memᴰ
use ai_support_engineering_p.Agent.Claim.{Outcome}
use ai_support_engineering_p.Agent.Env.{Env, World}
use ai_support_engineering_p.Agent.Failure.{Failure}
use ai_support_engineering_p.Agent.Models.{IncidentCreatedEvent}
use ai_support_engineering_p.Agent.Tables.{of_incident, set_resolution}
use ai_support_engineering_p.Ai.Resolution.{Generation}
use ai_support_engineering_p.Ai.Workflow.{grounded_workflow, resolve_grounded}
use ai_support_engineering_p.Ai.Workflow.Stored.{AllGrounded, Grounded, resolve_grounded-Keeping}
use ai_support_engineering_p.Common.{List, [], inl, inr, modify-Mem, subst, sym, ◌++◌, ◌∷◌}
use ai_support_engineering_p.Common.Exec.{Result, err, ok}
use ai_support_engineering_p.Common.Exec.Triple.{Ends}
use ai_support_engineering_p.Db.{AiResolutionRecord, Db}
use ai_support_engineering_p.Workers.Kept.{Keeps}

-- The phase 4 workflow writes nothing but resolutions: the processor may rely on it for every
-- statement about the other tables.
pub grounded_workflow-Keeps :
    (P : Db → Type 0) (env : Env) (generation : Generation)
    → ((db : Db) (resolutions : List AiResolutionRecord)
        → P db
        → P (record db { resolutions = resolutions }))
    → Keeps P (grounded_workflow env generation)
grounded_workflow-Keeps P env generation h = record {
  keeps = λ event.
      resolve_grounded-Keeping env generation event P
        (record { added = λ db r g. h db _; written = λ db f g. h db _ });
}

-- Whatever the retriever, the provider and the database answer, a completed resolution cites only
-- chunks that were retrieved for it, each once, if this held of the stored ones before.
pub resolve_grounded-Grounded :
    (env : Env) (generation : Generation) (event : IncidentCreatedEvent) (w : World)
    → AllGrounded generation w.db
    → AllGrounded generation (resolve_grounded env generation event w).1.db
resolve_grounded-Grounded env generation event w h = after _ (
    (resolve_grounded-Keeping env generation event (AllGrounded generation)
        (record { added = appended; written = rewritten })).at
      w h)
  where
    after :
        (o : Result Failure Outcome × World)
        → Ends (λ a w. AllGrounded generation w.db) (λ e w. AllGrounded generation w.db) o
        → AllGrounded generation o.1.db
    after (ok a, w) k = k
    after (err e, w) k = k

    appended :
        (db : Db) (r : AiResolutionRecord)
        → Grounded generation r
        → AllGrounded generation db
        → AllGrounded generation (record db { resolutions = db.resolutions ++ r ∷ [] })
    appended db r g all q m = elim (Memᴰ.append_cases db.resolutions m) [
      | inl k ↦ all q k
      | inr k ↦ elim (Memᴰ.cases_cons k) [
        | inl e ↦ subst (Grounded generation) (sym e) g
        | inr j ↦ absurd (Memᴰ.not-nil j)
      ]
    ]

    rewritten :
        (db : Db) (f : AiResolutionRecord → AiResolutionRecord)
        → ((r : AiResolutionRecord) → Grounded generation (f r))
        → AllGrounded generation db
        → AllGrounded generation (set_resolution event.incident_id f db)
    rewritten db f g all q m =
        elim (modify-Mem (of_incident event.incident_id) f db.resolutions m) [
          | inl k ↦ all q k
          | inr (r, p, e) ↦ subst (Grounded generation) (sym e) (g r)
        ]
