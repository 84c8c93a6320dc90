-- ===== src/Ai/Workflow/Answered.antt =====
-- The outcome that the workflow reports and the status that it stores.
use ai_support_engineering_p.Agent.Audit.Resolved.{ended}
use ai_support_engineering_p.Agent.Claim.{Outcome}
use ai_support_engineering_p.Agent.Env.{Env, M, World, transaction}
use ai_support_engineering_p.Agent.Env.Rules.{Committed, Db-Triple, Triple-ask, Triple-transaction}
use ai_support_engineering_p.Agent.Failure.{
  incident_not_visible, retryable_resolution, state_disappeared,
}
use ai_support_engineering_p.Agent.Models.{IncidentCreatedEvent}
use ai_support_engineering_p.Agent.Tables.{by_id, find_resolution, of_incident, set_resolution}
use ai_support_engineering_p.Ai.Resolution.{
  Fault, GeneratedResolution, Generation, Handling, handling, is_completed, is_ended,
}
use ai_support_engineering_p.Ai.Workflow.{
  Gathered, claim_attempt, claim_incident, claim_row, completed_row, end_attempt, failed_row,
  gather, handle_fault, held_by_other, record_fault, report, resolve_grounded, settle_attempt,
  store_resolution, write_resolution,
}
use ai_support_engineering_p.Common.{
  Bool, Bool-cases, List, Option, ap, arith, false, find, find-modify, if◌then◌else◌, inl, inr, leb,
  none, refl, some, sym, true, ℕ, ◌&&◌, ◌+◌, ◌==◌, ◌∙◌, ◌≡◌,
}
use ai_support_engineering_p.Common.Exec.{attempt, err, ok}
use ai_support_engineering_p.Common.Exec.Triple.{
  Ends, Triple-any, Triple-bind, Triple-if, Triple-mono, Triple-pure, Triple-raise,
}
use ai_support_engineering_p.Db.{AiResolutionRecord, AiResolutionStatus, Db, IncidentRecord}
use ai_support_engineering_p.Knowledge.Retrieval.{RetrievedChunk}
use mathlib.Core.Bool.{true≢false}

abbrev pub outcome_status : Outcome → AiResolutionStatus
outcome_status Outcome.completed = AiResolutionStatus.completed
outcome_status Outcome.failed = AiResolutionStatus.failed

module _ (env : Env) (generation : Generation) (event : IncidentCreatedEvent) where
  -- The resolution of the incident has a status.
  abbrev pub HasStatus : AiResolutionStatus → Db → Type 0
  HasStatus status db =
      (r : AiResolutionRecord) × (find_resolution event.incident_id db ≡ some r)
      × (r.status ≡ status)

  abbrev Answers : {A : Type 0} → (Db → Type 0) → M A → (A → Db → Type 0) → Type 0
  Answers P m Q = Db-Triple P m Q (λ db. Unit)

  abbrev Any : Db → Type 0
  Any db = Unit

  abbrev Reported : Outcome → Db → Type 0
  Reported outcome db = HasStatus (outcome_status outcome) db

  -- A number 0 stands for a resolution that has ended.
  abbrev Claimed : IncidentRecord × ℕ → Db → Type 0
  Claimed c db =
      (c.1 == 0) ≡ true
      → (r : AiResolutionRecord) × (find_resolution event.incident_id db ≡ some r)
        × (is_ended r.status ≡ true)

  claim_row-Claimed :
      (row now : ℕ) (incident : IncidentRecord) (found : Option AiResolutionRecord) (db : Db)
      → find_resolution event.incident_id db ≡ found
      → Committed Claimed (claim_row env generation event row now incident found db)
  unfolding claim_row
  claim_row-Claimed row now incident none db e = λ z. absurd (true≢false (sym z))
  claim_row-Claimed row now incident (some r) db e = elim (Bool-cases (is_ended r.status)) [
    | inl ended ↦ rw ended (λ z. (r, e, ended))
    | inr live ↦ elim (Bool-cases (held_by_other env generation event now r)) [
      | inl held ↦ rw (live, held) tt
      | inr free ↦ rw (live, free) (λ z. absurd (counted r.attempt_count z))
    ]
  ]
    where
      counted : (n : ℕ) → ¬ ((n + 1 == 0) ≡ true)
      counted n z = ground arith

  claim_incident-Claimed : Answers Any (claim_incident env generation event) Claimed
  unfolding claim_incident claim_attempt
  claim_incident-Claimed =
      Triple-bind (λ now w. Any w.db) (Triple-ask Any Any env.now)
        λ now.
          Triple-bind (λ row w. Any w.db) (Triple-ask Any Any env.next_id)
            λ row.
              Triple-transaction Any Claimed Any env _ (λ db p. p)
                (λ db p. go row now db (find (by_id event.incident_id) db.incidents))
    where
      go :
          (row now : ℕ) (db : Db) (found : Option IncidentRecord)
          → Committed {A = IncidentRecord × ℕ} Claimed (elim found [
            | none ↦ err (retryable_resolution (incident_not_visible event.incident_id))
            | some incident ↦
                claim_row env generation event row now incident
                  (find_resolution event.incident_id db)
                  db
          ])
      go row now db none = tt
      go row now db (some incident) =
          claim_row-Claimed row now incident (find_resolution event.incident_id db) db refl

  ended_status :
      (r : AiResolutionRecord)
      → is_ended r.status ≡ true
      → r.status
        ≡ outcome_status (if is_completed r.status then Outcome.completed else Outcome.failed)
  ended_status r h = go r.status h
    where
      go :
          (s : AiResolutionStatus)
          → is_ended s ≡ true
          → s ≡ outcome_status (if is_completed s then Outcome.completed else Outcome.failed)
      go AiResolutionStatus.completed h = refl
      go AiResolutionStatus.failed h = refl
      go AiResolutionStatus.pending h = absurd (true≢false (sym h))
      go AiResolutionStatus.processing h = absurd (true≢false (sym h))
      go AiResolutionStatus.retryable h = absurd (true≢false (sym h))

  abbrev Ended : Db → Type 0
  Ended db =
      (r : AiResolutionRecord) × (find_resolution event.incident_id db ≡ some r)
      × (is_ended r.status ≡ true)

  report-Reported : Answers Ended (report env generation event) Reported
  unfolding report
  report-Reported =
      Triple-transaction Ended Reported Any env _ (λ db p. tt)
        (λ db p. rw p.1 (p.0, refl, ended_status p.0 p.2))

  write_resolution-HasStatus :
      {A : Type 0} (a : A) (status : AiResolutionStatus)
      (f : AiResolutionRecord → AiResolutionRecord)
      → ((r : AiResolutionRecord) → (f r).incident_id ≡ r.incident_id)
      → ((r : AiResolutionRecord) → (f r).status ≡ status)
      → Answers Any
          (transaction env (write_resolution env generation event a f))
          (λ b db. (b ≡ a) × HasStatus status db)
  write_resolution-HasStatus {A} a status f own s =
      Triple-transaction Any (λ b db. (b ≡ a) × HasStatus status db) Any env _ (λ db p. p)
        (λ db p. go db (find_resolution event.incident_id db) refl)
    where
      go :
          (db : Db) (found : Option AiResolutionRecord)
          → find_resolution event.incident_id db ≡ found
          → Committed {A = A}
              (λ b db. (b ≡ a) × HasStatus status db)
              (elim found [
                | none ↦ err (retryable_resolution state_disappeared)
                | some r ↦ ok (a, set_resolution event.incident_id f db)
              ])
      go db none e = tt
      go db (some r) e = (
        refl,
        (
          f r,
          find-modify (of_incident event.incident_id) f db.resolutions
                (λ q. ap (λ i. i == event.incident_id) (own q))
              ∙ rw e refl,
          s r,
        ),
      )

  store_resolution-Reported :
      (context : List RetrievedChunk) (resolution : GeneratedResolution)
      → Answers Any (store_resolution env generation event context resolution) Reported
  unfolding store_resolution
  store_resolution-Reported context resolution =
      Triple-bind (λ now w. Any w.db) (Triple-ask Any Any env.now)
        λ now.
          Triple-mono (λ w p. p) (λ a w h. rw h.0 h.1) (λ e w p. p)
            (write_resolution-HasStatus Outcome.completed AiResolutionStatus.completed
              (completed_row env generation event now context resolution) (λ r. refl) (λ r. refl))

  module _ (attempt : ℕ) (context : List RetrievedChunk) (fault : Fault) where
    end_attempt-Reported :
        (terminal : Bool)
        → Answers
            (HasStatus
              (if terminal then AiResolutionStatus.failed else AiResolutionStatus.retryable))
            (end_attempt env generation event terminal fault)
            Reported
    end_attempt-Reported true = Triple-pure _ (λ w h. h)
    end_attempt-Reported false = Triple-raise _ (λ w h. tt)

    record_fault-Reported :
        (b : Bool)
        → Answers Any (record_fault env generation event attempt context fault b) Reported
    unfolding record_fault
    record_fault-Reported b =
        let terminal = b && leb generation.max_attempts attempt in
        Triple-bind (λ now w. Any w.db) (Triple-ask Any Any env.now)
          λ now.
            Triple-bind
              (λ done w.
                HasStatus
                  (if terminal then AiResolutionStatus.failed else AiResolutionStatus.retryable)
                  w.db)
              (Triple-mono (λ w p. p) (λ a w h. h.1) (λ e w p. p)
                (write_resolution-HasStatus tt _
                  (failed_row env generation event now terminal fault context) (λ r. refl)
                  (λ r. refl)))
              λ done. end_attempt-Reported terminal

    handle_fault-Reported :
        (h : Handling)
        → Answers Any (handle_fault env generation event attempt context fault h) Reported
    handle_fault-Reported Handling.retry_only = record_fault-Reported false
    handle_fault-Reported Handling.may_end = record_fault-Reported true
    handle_fault-Reported (Handling.passed_on e) = Triple-raise _ (λ w p. tt)

  settle_attempt-Reported :
      (attempt : ℕ) (g : Gathered env generation event)
      → Answers Any (settle_attempt env generation event attempt g) Reported
  settle_attempt-Reported attempt (context, ok resolution) =
      store_resolution-Reported context resolution
  settle_attempt-Reported attempt (context, err fault) =
      handle_fault-Reported attempt context fault (handling fault)

  nothing_known : {A : Type 0} (P : Db → Type 0) (m : M A) → Answers P m (λ a. Any)
  nothing_known P m = Triple-any (λ a w. tt) (λ e w. tt)

  resolve_grounded-Reported :
      Db-Triple
        (λ db. Unit)
        (resolve_grounded env generation event)
        (λ outcome db. HasStatus (outcome_status outcome) db)
        (λ db. Unit)
  unfolding resolve_grounded
  resolve_grounded-Reported =
      Triple-bind (λ c w. Claimed c w.db) claim_incident-Claimed
        λ claimed.
          Triple-if (claimed.1 == 0) _ _
            (λ e. Triple-mono (λ w h. h e) (λ a w h. h) (λ x w h. h) report-Reported)
            (λ e.
              Triple-bind (λ g w. Any w.db)
                (nothing_known (Claimed claimed) (gather env generation event claimed.0))
                (settle_attempt-Reported claimed.1))

  -- Where the workflow returns, the incident's resolution is stored, and it is completed or failed as
  -- the outcome says, whatever the retriever, the provider and the database answer.
  pub resolve_grounded-HasStatus :
      (w : World)
      → Ends
          (λ outcome w'. HasStatus (outcome_status outcome) w'.db)
          (λ e w'. Unit)
          (resolve_grounded env generation event w)
  resolve_grounded-HasStatus w = resolve_grounded-Reported.at w tt
