-- ===== src/Review/Transitions.antt =====
-- What a review changes, and that a resolution is decided once.
use mathlib.Core.Option
use ai_support_engineering_p.Agent.Tables.{by_id, by_incident, find_resolution}
use ai_support_engineering_p.Common.{
  Option, [], false, find, find-modify, not, refl, some, true, ℕ, ◌&&◌, ◌++◌, ◌∷◌, ◌≡◌,
}
use ai_support_engineering_p.Common.Exec.{err, ok}
use ai_support_engineering_p.Db.{
  AgentExecutionRecord, AgentStatus, AiResolutionRecord, Db, IncidentRecord,
  ResolutionFeedbackRecord, ReviewOutcome,
}
use ai_support_engineering_p.Review.{
  FeedbackRequest, Refusal, add_feedback, decided_status, feedback_row, get_execution, is_awaiting,
  is_decision, record_feedback, stored, with_feedback,
}

abbrev pub review_status : ℕ → Db → Option AgentStatus
review_status incident db = Option.map (λ r. r.status) (get_execution incident db)

not_awaiting : (outcome : ReviewOutcome) → is_awaiting (decided_status outcome) ≡ false
not_awaiting ReviewOutcome.feedback = refl
not_awaiting ReviewOutcome.approved = refl
not_awaiting ReviewOutcome.rejected = refl

-- A decision on an execution that does not await review is refused with its status.
refused :
    (incident row_id now : ℕ) (feedback : FeedbackRequest) (outcome : ReviewOutcome) (db : Db)
    (i : IncidentRecord) (e : AgentExecutionRecord)
    → find (by_id incident) db.incidents ≡ some i
    → get_execution incident db ≡ some e
    → is_decision outcome ≡ true
    → is_awaiting e.status ≡ false
    → record_feedback row_id now incident feedback outcome db ≡ err (Refusal.not_pending e.status)
unfolding record_feedback
refused incident row_id now feedback outcome db i e found executed d h =
    rw (found, record_feedback, executed, d, h) refl

module _ (incident : ℕ) (outcome : ReviewOutcome) (db : Db) (i : IncidentRecord)
    (e : AgentExecutionRecord) (q : AiResolutionRecord)
    (found : find (by_id incident) db.incidents ≡ some i)
    (executed : get_execution incident db ≡ some e)
    (resolved : find_resolution incident db ≡ some q) where
  accepted :
      (row_id now : ℕ) (feedback : FeedbackRequest)
      → (is_decision outcome && not (is_awaiting e.status)) ≡ false
      → let row = feedback_row row_id now incident feedback outcome q in
        record_feedback row_id now incident feedback outcome db
        ≡ ok (row, with_feedback row_id now incident feedback outcome row db)
  unfolding record_feedback add_feedback
  accepted row_id now feedback h =
      rw (found, record_feedback, executed, h, resolved, add_feedback, executed) refl

  module _ (row_id now : ℕ) (feedback : FeedbackRequest) where
    abbrev row : ResolutionFeedbackRecord
    row = feedback_row row_id now incident feedback outcome q

    abbrev pub after : Db
    after = with_feedback row_id now incident feedback outcome row db

    after_execution :
        is_decision outcome ≡ true
        → (r : AgentExecutionRecord) × (get_execution incident after ≡ some r)
          × (r.status ≡ decided_status outcome)
    after_execution d = (
      record e { status = decided_status outcome; updated_at = now },
      rw
          (
            d,
            find-modify (by_incident incident)
                (λ r. record r { status = decided_status outcome; updated_at = now }) db.executions
                (λ r. refl),
            executed,
          )
          refl,
      refl,
    )

    -- An approval or a rejection of an execution that awaits review is stored: one row is added
    -- at the end of the feedback, marked as accepted exactly for an approval, and the execution
    -- takes the status of the decision. Every later decision on the incident is refused with that
    -- status.
    pub decide-once :
        is_decision outcome ≡ true
        → is_awaiting e.status ≡ true
        → (record_feedback row_id now incident feedback outcome db
            ≡ ok (feedback_row row_id now incident feedback outcome q, after))
          × (after.feedback
              ≡ db.feedback ++ feedback_row row_id now incident feedback outcome q ∷ [])
          × (review_status incident after ≡ some (decided_status outcome))
          × ((later_id later : ℕ) (request : FeedbackRequest) (decision : ReviewOutcome)
              → is_decision decision ≡ true
              → record_feedback later_id later incident request decision after
                ≡ err (Refusal.not_pending (decided_status outcome)))
    decide-once d h = (
      accepted row_id now feedback (rw (d, h) refl),
      rw d refl,
      (let (r, stored, status) = after_execution d in rw (stored, status) refl),
      λ later_id later request decision d'.
          let (r, stored, status) = after_execution d in
          rw
            (
              refused incident later_id later request decision after i r (rw d found) stored d'
                  (rw status (not_awaiting outcome)),
              status,
            )
            refl,
    )
