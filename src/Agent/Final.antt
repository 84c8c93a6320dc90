-- ===== src/Agent/Final.antt =====
-- The final response of agent/workflow.py: `_generate_final` and `_persist_final_impl`.
use ai_support_engineering_p.Agent.Env.{Env, M, ask, transaction}
use ai_support_engineering_p.Agent.Evidence.{
  actual_tools, citations, evidence_references, retrieved_context,
}
use ai_support_engineering_p.Agent.Failure.{
  Complaint, Failure, agent_validation, is_agent_validation, is_response_error, safe_error,
  sqlalchemy,
}
use ai_support_engineering_p.Agent.Models.{
  AgentFinalResponse, IncidentCreatedEvent, PlannerDecision, ToolResult,
}
use ai_support_engineering_p.Agent.Sanitization.{sanitize_value}
use ai_support_engineering_p.Agent.Steps.{model_call}
use ai_support_engineering_p.Agent.Tables.{
  add_step, find_execution, find_resolution, set_execution, set_resolution,
}
use ai_support_engineering_p.Agent.Validation.{validate_final}
use ai_support_engineering_p.Common.{
  List, String, Text, codes, if◌then◌else◌, length, none, some, suc, zero, ℕ, ◌++◌, ◌+◌, ◌-◌, ◌||◌,
}
use ai_support_engineering_p.Common.Exec.{Result, attempt, err, lift, ok, pure, raise, ◌>>=◌}
use ai_support_engineering_p.Db.{
  AiResolutionRecord, AiResolutionStatus, AgentExecutionRecord, AgentStatus, AgentStepRecord, Db,
  EvidenceReference, NextAction, StepOutcome,
}

module _ (env : Env) where
  abbrev pub corrected : Text → Failure → Text
  corrected prompt e =
      prompt
      ++ (codes "\nLOCAL VALIDATION ERROR: "
          ++ (safe_error (env.str e) ++ codes "\nReturn a corrected JSON object."))

  -- The loop of `_generate_final`, on the attempts that are left and the last error.
  unfoldable pub final_attempts :
      String → List String → List EvidenceReference → ℕ → Text → Text → M AgentFinalResponse
  final_attempts x tools references zero prompt detail =
      raise (agent_validation (Complaint.final_invalid detail))
  final_attempts x tools references (suc n) prompt detail = do
    response ← attempt (do
      final ← model_call env x env.resolve_final prompt
      lift (validate_final final tools references))
    elim response [
      | ok final ↦ pure final
      | err e ↦
          if is_response_error e || is_agent_validation e
          then final_attempts x tools references n (corrected prompt e) (safe_error (env.str e))
          else raise e
    ]

  unfoldable pub generate_final :
      String
      → ℕ
      → IncidentCreatedEvent
      → List AgentStepRecord
      → List (ℕ × ToolResult)
      → M AgentFinalResponse
  generate_final x repair_attempts event steps results =
      let references = evidence_references results in
      let tools = actual_tools steps in
      final_attempts x tools references (repair_attempts + 1)
        (env.render_resolver event results (citations references) tools) (codes "unknown")

  unfoldable pub final_step :
      String → ℕ → PlannerDecision → AgentFinalResponse → List (ℕ × ToolResult) → AgentStepRecord
  final_step x n decision final results = record {
    execution_id = x;
    step_number = n;
    action_type = NextAction.final;
    tool_name = none;
    sanitized_arguments = none;
    result_summary = some (sanitize_value env 0 (env.dump_final final));
    evidence_references = evidence_references results;
    reason_summary = decision.reason_summary;
    expected_evidence = decision.expected_evidence;
    outcome = StepOutcome.completed;
    duration_ms = 0;
  }

  unfoldable pub complete_resolution :
      AgentFinalResponse → List (ℕ × ToolResult) → ℕ → AiResolutionRecord → AiResolutionRecord
  complete_resolution final results now r = record r {
    status = AiResolutionStatus.completed;
    summary = some final.summary;
    root_cause = some final.root_cause;
    recommended_actions = some final.recommended_actions;
    confidence = some final.confidence;
    cited_sources = some final.cited_sources;
    retrieved_context = some (retrieved_context env results);
    evidence_summary = some final.evidence_summary;
    tools_used = some final.tools_used;
    limitations = some final.limitations;
    escalation_required = some final.escalation_required;
    human_review_recommended = some final.human_review_recommended;
    prompt_name = some env.resolver_prompt.0;
    prompt_version = some env.resolver_prompt.1;
    error_message = none;
    completed_at = some now;
    updated_at = now;
  }

  unfoldable pub complete_execution : ℕ → ℕ → AgentExecutionRecord → AgentExecutionRecord
  complete_execution n now r = record r {
    status = AgentStatus.awaiting_review;
    step_count = n;
    completed_at = some now;
    total_duration_ms = some (now - r.created_at);
    error_type = none;
    error_message_safe = none;
    updated_at = now;
  }

  abbrev pub complete_rows :
      ℕ
      → AgentStepRecord
      → AgentFinalResponse
      → List (ℕ × ToolResult)
      → ℕ
      → Result Failure Db
      → Result Failure (Unit {0} × Db)
  complete_rows incident row final results now (err e) = err e
  complete_rows incident row final results now (ok db) = ok (
    tt,
    set_resolution incident (complete_resolution final results now)
        (set_execution row.execution_id (complete_execution row.step_number now) db),
  )

  unfoldable pub final_session :
      ℕ
      → AgentStepRecord
      → AgentFinalResponse
      → List (ℕ × ToolResult)
      → ℕ
      → Db
      → Result Failure (Unit {0} × Db)
  final_session incident row final results now db = elim (find_execution row.execution_id db) [
    | none ↦ err (sqlalchemy (codes "Agent durable state disappeared"))
    | some execution ↦ elim (find_resolution incident db) [
      | none ↦ err (sqlalchemy (codes "Agent durable state disappeared"))
      | some resolution ↦ complete_rows incident row final results now (add_step row db)
    ]
  ]

  unfoldable pub persist_final :
      String
      → IncidentCreatedEvent
      → PlannerDecision
      → AgentFinalResponse
      → List AgentStepRecord
      → List (ℕ × ToolResult)
      → M (Unit {0})
  persist_final x event decision final steps results = do
    now ← ask env.now
    transaction env (
        final_session event.incident_id (final_step x (length steps + 1) decision final results)
          final results now)
