-- ===== src/Review.antt =====
-- Human review of a resolution: `add_feedback` of repositories/agent.py and `_record_feedback_impl`
-- of api/routes/incidents.py, which runs in one session for a request.
pub mod Transitions
use ai_support_engineering_p.Agent.Tables.{by_id, by_incident, find_resolution}
use ai_support_engineering_p.Common.{
  Bool, Option, Text, [], false, find, if◌then◌else◌, modify, none, not, some, true, ℕ, ◌&&◌, ◌++◌,
  ◌∷◌,
}
use ai_support_engineering_p.Common.Exec.{Result, err, ok}
use ai_support_engineering_p.Db.{
  AgentExecutionRecord, AgentStatus, AiResolutionRecord, Db, ResolutionFeedbackRecord,
  ReviewOutcome,
}

pub record FeedbackRequest : Type 0 where
  pub rating : Option ℕ
  pub comment : Option Text
  pub reviewer : Text

-- The `HTTPException`s: 404 for the first, 409 for the others.
pub data Refusal : Type 0 where
  incident_not_found : Refusal
  no_resolution : Refusal
  not_pending : AgentStatus → Refusal

abbrev pub is_approval : ReviewOutcome → Bool
is_approval ReviewOutcome.approved = true
is_approval _ = false

-- `outcome in {"approved", "rejected"}`.
abbrev pub is_decision : ReviewOutcome → Bool
is_decision ReviewOutcome.feedback = false
is_decision _ = true

abbrev pub is_awaiting : AgentStatus → Bool
is_awaiting AgentStatus.awaiting_review = true
is_awaiting _ = false

abbrev pub decided_status : ReviewOutcome → AgentStatus
decided_status outcome = if is_approval outcome then AgentStatus.approved else AgentStatus.rejected

abbrev pub get_execution : ℕ → Db → Option AgentExecutionRecord
get_execution incident db = find (by_incident incident) db.executions

abbrev pub set_review : ℕ → ReviewOutcome → ℕ → Db → Db
set_review incident outcome now db =
    if is_decision outcome
    then record db {
      executions =
          modify (by_incident incident)
            (λ r. record r { status = decided_status outcome; updated_at = now }) db.executions;
    }
    else db

-- One request: the identifier of the new row, the clock, and what was asked.
module _ (row_id now incident : ℕ) (feedback : FeedbackRequest) (outcome : ReviewOutcome) where
  unfoldable pub feedback_row : AiResolutionRecord → ResolutionFeedbackRecord
  feedback_row resolution = record {
    id = row_id;
    incident_id = incident;
    resolution_id = resolution.id;
    rating = feedback.rating;
    outcome = outcome;
    accepted = is_approval outcome;
    edited = false;
    comment = feedback.comment;
    reviewer = feedback.reviewer;
  }

  abbrev pub with_feedback : ResolutionFeedbackRecord → Db → Db
  with_feedback row db =
      set_review incident outcome now (record db { feedback = db.feedback ++ row ∷ [] })

  unfoldable pub add_feedback : Db → Option (ResolutionFeedbackRecord × Db)
  add_feedback db = elim (find_resolution incident db) [
    | none ↦ none
    | some resolution ↦ elim (get_execution incident db) [
      | none ↦ none
      | some execution ↦ some (feedback_row resolution, with_feedback (feedback_row resolution) db)
    ]
  ]

  abbrev pub stored :
      Option (ResolutionFeedbackRecord × Db) → Result Refusal (ResolutionFeedbackRecord × Db)
  stored none = err Refusal.no_resolution
  stored (some answer) = ok answer

  unfoldable pub record_feedback : Db → Result Refusal (ResolutionFeedbackRecord × Db)
  record_feedback db = elim (find (by_id incident) db.incidents) [
    | none ↦ err Refusal.incident_not_found
    | some i ↦ elim (get_execution incident db) [
      | none ↦ err Refusal.no_resolution
      | some execution ↦
          if is_decision outcome && not (is_awaiting execution.status)
          then err (Refusal.not_pending execution.status)
          else stored (add_feedback db)
    ]
  ]
