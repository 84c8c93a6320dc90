-- ===== src/Workers/Markers.antt =====
-- How many markers are stored for an event.
use ai_support_engineering_p.Agent.Env.{Env, World}
use ai_support_engineering_p.Agent.Models.{IncidentCreatedEvent}
use ai_support_engineering_p.Common.{
  Bool-cases, Option, String, any, arith, count, count-snoc, count_none, false, inl, inr, subst, ℕ,
  ◌≡◌, ◌≤◌,
}
use ai_support_engineering_p.Db.{Db}
use ai_support_engineering_p.Db.Json.{Value}
use ai_support_engineering_p.Workers.Kept.{Law, process_keeps}
use ai_support_engineering_p.Workers.Processor.{
  ResolutionWorkflow, marker, marks, process, with_marker,
}
use text.Mathlib.Text.{◌==◌ as str_eq}
use text.Mathlib.TextEquality.{eq_iff}

abbrev pub Once : Db → Type 0
Once db = (x : String) → count (marks x) db.processed ≤ 1

module _ (env : Env) (group : String) (raced : ℕ → Option Value) where
  with_marker-Once :
      (event : IncidentCreatedEvent) (result : Value) (db : Db)
      → any (marks event.event_id) db.processed ≡ false
      → Once db
      → Once (with_marker env group raced event result db)
  unfolding marker
  with_marker-Once event result db fresh h x =
      let row = marker env group raced event result in
      rw (count-snoc (marks x) db.processed row) (elim (Bool-cases (str_eq event.event_id x)) [
        | inl own ↦
            let none_yet : any (marks x) db.processed ≡ false =
              subst (λ y. any (marks y) db.processed ≡ false) ((eq_iff event.event_id x).0 own)
                fresh in
            rw (own, count_none (marks x) db.processed none_yet) (omega arith)
        | inr other ↦ rw other (omega (arith, h x))
      ])

  -- If each event has at most one marker before an event is processed, it has at most one after it,
  -- whether processing returns or raises and whatever another worker commits for the same event in
  -- the meantime, if the workflow adds no marker of its own.
  pub process-Once :
      (workflow : Option ResolutionWorkflow) (event : IncidentCreatedEvent) (w : World)
      → Law Once workflow
      → Once w.db
      → Once (process env group raced workflow event w).1.db
  process-Once workflow event w k h =
      process_keeps Once env group raced with_marker-Once workflow event w k h
