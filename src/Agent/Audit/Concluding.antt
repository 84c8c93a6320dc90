-- ===== src/Agent/Audit/Concluding.antt =====
-- The final response is generated without a change to the audit trails.
use ai_support_engineering_p.Agent.Audit.Rounds.{Kept, Kept-bind, Kept-lift, model_call-Kept}
use ai_support_engineering_p.Agent.Audit.Writes.{InLoop}
use ai_support_engineering_p.Agent.Env.{Env, M, World}
use ai_support_engineering_p.Agent.Failure.{
  Failure, is_agent_validation, is_response_error, safe_error,
}
use ai_support_engineering_p.Agent.Final.{corrected, final_attempts, generate_final}
use ai_support_engineering_p.Agent.Models.{
  AgentFinalResponse, AgentLimits, IncidentCreatedEvent, ToolResult,
}
use ai_support_engineering_p.Agent.Planning.{LoopState}
use ai_support_engineering_p.Common.{Bool, List, String, Text, if◌then◌else◌, suc, zero, ℕ, ◌||◌}
use ai_support_engineering_p.Common.Exec.{Result, attempt, err, ok, pure, raise}
use ai_support_engineering_p.Common.Exec.Triple.{
  Attempted, Triple-attempt, Triple-if, Triple-mono, Triple-pure, Triple-raise,
}
use ai_support_engineering_p.Db.{EvidenceReference}

module _ (env : Env) (limits : AgentLimits) (event : IncidentCreatedEvent) (x : String) where
  if_Kept :
      (s : LoopState) {A : Type 0} (b : Bool) {m n : M A}
      → Kept env limits event x s m
      → Kept env limits event x s n
      → Kept env limits event x s (if b then m else n)
  if_Kept s b {m} {n} h k = Triple-if b m n (λ e. h) (λ e. k)

  raise-Kept :
      (s : LoopState) {A : Type 0} (e : Failure) → Kept env limits event x s {A = A} (raise e)
  raise-Kept s e = Triple-raise e (λ w h. h)

  merged :
      (s : LoopState) {A : Type 0} (r : Result Failure A) (w : World)
      → Attempted (λ a v. InLoop limits x s v.db) (λ e v. InLoop limits x s v.db) r w
      → InLoop limits x s w.db
  merged s (ok a) w h = h
  merged s (err e) w h = h

  pub Kept-attempt :
      (s : LoopState) {A : Type 0} {m : M A}
      → Kept env limits event x s m
      → Kept env limits event x s (attempt m)
  Kept-attempt s t = Triple-mono (λ w h. h) (merged s) (λ e w h. h) (Triple-attempt t)

  answered-Kept :
      (s : LoopState) (r : Result Failure AgentFinalResponse) (k : Failure → M AgentFinalResponse)
      → ((e : Failure) → Kept env limits event x s (k e))
      → Kept env limits event x s (elim r [
        | ok final ↦ pure final
        | err e ↦ if is_response_error e || is_agent_validation e then k e else raise e
      ])
  answered-Kept s (ok final) k h = Triple-pure final (λ w q. q)
  answered-Kept s (err e) k h = if_Kept s _ (h e) (raise-Kept s e)

  final_attempts-Kept :
      (s : LoopState) (tools : List String) (references : List EvidenceReference) (n : ℕ)
      (prompt detail : Text)
      → Kept env limits event x s (final_attempts env x tools references n prompt detail)
  unfolding final_attempts
  final_attempts-Kept s tools references zero prompt detail = raise-Kept s _
  final_attempts-Kept s tools references (suc n) prompt detail =
      Kept-bind env limits event x s
        (Kept-attempt s (
          Kept-bind env limits event x s (model_call-Kept env limits event x s _ prompt)
            λ final. Kept-lift env limits event x s _))
        λ r. answered-Kept s r _ λ e.
          final_attempts-Kept s tools references n (corrected env prompt e) (safe_error (env.str e))

  pub generate_final-Kept :
      (s : LoopState) (results : List (ℕ × ToolResult))
      → Kept env limits event x s
          (generate_final env x limits.repair_attempts event s.steps results)
  unfolding generate_final
  generate_final-Kept s results = final_attempts-Kept s _ _ _ _ _
