-- ===== src/Agent/Tools/Similar/Previous.antt =====
-- GetPreviousResolutionsTool of agent/tools.py: earlier resolutions of comparable incidents.
use mathlib.Core.List.Memᴰ
use ai_support_engineering_p.Agent.Tables.{by_id}
use ai_support_engineering_p.Agent.Tools.Similar.{bounded_text}
use ai_support_engineering_p.Agent.Tools.Similar.Ranked.{length-map, none_is_not_some}
use ai_support_engineering_p.Ai.Resolution.{is_completed}
use ai_support_engineering_p.Common.{
  Bool, List, Option, Text, [], any, ap, arith, false, find, if◌then◌else◌, inl, inr, keep,
  keep-Mem, leb, length, length-take-le, ltb, map, none, none-Mem, not, refl, some, some_same,
  sorted, sorted-Mem, subst, sym, take, take-Mem, text_eq, true, ℕ, ◌&&◌, ◌++◌, ◌==◌, ◌∙◌, ◌∷◌, ◌≡◌,
  ◌≢◌, ◌≤◌,
}
use ai_support_engineering_p.Db.{
  AgentExecutionRecord, AgentStatus, AiResolutionRecord, Db, IncidentRecord, SourceCitation,
}
use ai_support_engineering_p.Workers.Processor.{classification_value}
use mathlib.Core.List.{Memᴰ}

pub record PreviousResolution : Type 0 where
  pub incident_id : ℕ
  pub resolution_id : ℕ
  pub service : Text
  pub summary : Option Text
  pub root_cause : Option Text
  pub recommended_actions : List Text
  pub confidence : Option ℕ
  pub cited_sources : List SourceCitation

abbrev pub is_rejected : AgentStatus → Bool
is_rejected AgentStatus.rejected = true
is_rejected _ = false

-- The subquery `rejected_execution`, for a resolution.
abbrev pub rejects : AiResolutionRecord → AgentExecutionRecord → Bool
rejects q x = (x.incident_id == q.incident_id) && is_rejected x.status

abbrev pub same_classification : IncidentRecord → IncidentRecord → Bool
same_classification current r =
    text_eq (classification_value r.classification) (classification_value current.classification)

abbrev pub is_comparable : ℕ → IncidentRecord → Db → AiResolutionRecord × IncidentRecord → Bool
is_comparable i current db row =
    not (row.0.incident_id == i)
    && (is_completed row.0.status
        && (same_classification current row.1 && not (any (rejects row.0) db.executions)))

abbrev pub pairs_with :
    AiResolutionRecord → List IncidentRecord → List (AiResolutionRecord × IncidentRecord)
pairs_with q [] = []
pairs_with q (r ∷ incidents) = (q, r) ∷ pairs_with q incidents

-- The join on the incident.
unfoldable pub resolution_rows :
    List AiResolutionRecord → List IncidentRecord → List (AiResolutionRecord × IncidentRecord)
resolution_rows [] incidents = []
resolution_rows (q ∷ resolutions) incidents =
    pairs_with q (keep (by_id q.incident_id) incidents) ++ resolution_rows resolutions incidents

-- `.order_by(desc(completed_at), desc(id))`; PostgreSQL places missing times first.
abbrev pub time_before : Option ℕ → Option ℕ → Bool
time_before none o = false
time_before (some a) none = true
time_before (some a) (some b) = ltb a b

abbrev pub is_later :
    AiResolutionRecord × IncidentRecord → AiResolutionRecord × IncidentRecord → Bool
is_later r s =
    if time_before s.0.completed_at r.0.completed_at
    then true
    else if time_before r.0.completed_at s.0.completed_at
    then false
    else leb s.0.id r.0.id

abbrev pub or_empty : {A : Type 0} → Option (List A) → List A
or_empty none = []
or_empty (some xs) = xs

abbrev pub bounded_option : ℕ → Option Text → Option Text
bounded_option limit none = none
bounded_option limit (some value) = some (bounded_text limit value)

abbrev pub previous_resolution : AiResolutionRecord × IncidentRecord → PreviousResolution
previous_resolution row = record {
  incident_id = row.1.id;
  resolution_id = row.0.id;
  service = row.1.service;
  summary = bounded_option 800 row.0.summary;
  root_cause = bounded_option 1000 row.0.root_cause;
  recommended_actions = take 8 (or_empty row.0.recommended_actions);
  confidence = row.0.confidence;
  cited_sources = take 8 (or_empty row.0.cited_sources);
}

abbrev pub comparable_rows : ℕ → IncidentRecord → Db → List (AiResolutionRecord × IncidentRecord)
comparable_rows i current db =
    keep (is_comparable i current db) (resolution_rows db.resolutions db.incidents)

-- `GetPreviousResolutionsTool.execute`, where none is "Incident not found".
unfoldable pub get_previous_resolutions : ℕ → ℕ → Db → Option (List PreviousResolution)
get_previous_resolutions i limit db = elim (find (by_id i) db.incidents) [
  | none ↦ none
  | some current ↦
      some (map previous_resolution (take limit (sorted is_later (comparable_rows i current db))))
]

-- Lemmas on the joined rows.
pairs_with-Mem :
    (q : AiResolutionRecord) (incidents : List IncidentRecord)
    (row : AiResolutionRecord × IncidentRecord)
    → Memᴰ row (pairs_with q incidents)
    → (row.0 ≡ q) × Memᴰ row.1 incidents
pairs_with-Mem q [] row m = absurd (Memᴰ.not-nil m)
pairs_with-Mem q (r ∷ incidents) row m = elim (Memᴰ.cases_cons m) [
  | inl e ↦ (ap (λ z. z.0) e, Memᴰ.head (ap (λ z. z.1) e))
  | inr k ↦ let (e, j) = pairs_with-Mem q incidents row k in (e, Memᴰ.tail j)
]

-- Each row pairs a resolution with its incident.
resolution_rows-Mem :
    (resolutions : List AiResolutionRecord) (incidents : List IncidentRecord)
    (row : AiResolutionRecord × IncidentRecord)
    → Memᴰ row (resolution_rows resolutions incidents)
    → Memᴰ row.0 resolutions × Memᴰ row.1 incidents × (row.1.id ≡ row.0.incident_id)
unfolding resolution_rows
resolution_rows-Mem [] incidents row m = absurd (Memᴰ.not-nil m)
resolution_rows-Mem (q ∷ resolutions) incidents row m =
    elim (Memᴰ.append_cases (pairs_with q (keep (by_id q.incident_id) incidents)) m) [
      | inl k ↦
          let (e, j) = pairs_with-Mem q _ row k in
          let (stored, own) = keep-Mem (by_id q.incident_id) incidents j in
          let same : row.1.id ≡ q.incident_id = ground arith in
          (Memᴰ.head e, stored, same ∙ ap (λ z. z.incident_id) (sym e))
      | inr k ↦
          let (a, b, c) = resolution_rows-Mem resolutions incidents row k in (Memᴰ.tail a, b, c)
    ]

-- What a returned resolution is.
pub record Comparable (i : ℕ) (db : Db) (current : IncidentRecord) (p : PreviousResolution)
    : Type 0 where
  pub resolution : AiResolutionRecord
  pub incident : IncidentRecord
  pub stored : Memᴰ resolution db.resolutions × Memᴰ incident db.incidents
  pub own : incident.id ≡ resolution.incident_id
  pub other : resolution.incident_id ≢ i
  pub completed : is_completed resolution.status ≡ true
  pub classified : same_classification current incident ≡ true
  pub accepted :
      (x : AgentExecutionRecord)
      → Memᴰ x db.executions
      → x.incident_id ≡ resolution.incident_id
      → is_rejected x.status ≡ false
  pub shown : p ≡ previous_resolution (resolution, incident)

-- The resolutions that are returned for an incident.
pub record Chosen (i limit : ℕ) (db : Db) (current : IncidentRecord)
    (resolutions : List PreviousResolution) : Type 0 where
  pub at_most : length resolutions ≤ limit
  pub comparable : (p : PreviousResolution) → Memᴰ p resolutions → Comparable i db current p

accepted_lem :
    (q : AiResolutionRecord) (db : Db)
    → any (rejects q) db.executions ≡ false
    → (x : AgentExecutionRecord) → Memᴰ x db.executions
    → x.incident_id ≡ q.incident_id
    → is_rejected x.status ≡ false
accepted_lem q db h x m e =
    let k = none-Mem (rejects q) db.executions h m in
    let same : (x.incident_id == q.incident_id) ≡ true = ground arith in ground arith

row-Comparable :
    (i : ℕ) (current : IncidentRecord) (db : Db) (row : AiResolutionRecord × IncidentRecord)
    → Memᴰ row (comparable_rows i current db)
    → Comparable i db current (previous_resolution row)
row-Comparable i current db row m =
    let (k, c) = keep-Mem (is_comparable i current db) _ m in
    let (a, b, own) = resolution_rows-Mem db.resolutions db.incidents row k in
    record {
      resolution = row.0;
      incident = row.1;
      stored = (a, b);
      own = own;
      other = ground arith;
      completed = ground arith;
      classified = ground arith;
      accepted = accepted_lem row.0 db (ground arith);
      shown = refl;
    }

chosen :
    (i limit : ℕ) (db : Db) (current : IncidentRecord)
    → Chosen i limit db current
        (map previous_resolution (take limit (sorted is_later (comparable_rows i current db))))
chosen i limit db current = record {
  at_most =
      let a =
        length-map previous_resolution
          (take limit (sorted is_later (comparable_rows i current db))) in
      let b = length-take-le limit (sorted is_later (comparable_rows i current db)) in omega arith;
  comparable = λ p m.
      let (row, k, e) = Memᴰ.of_map previous_resolution _ m in
      subst (Comparable i db current) e (
        row-Comparable i current db row
          (sorted-Mem is_later row _ (take-Mem is_later limit row _ k)));
}

-- The earlier resolutions that are returned for an incident are at most as many as asked for, and
-- each is a stored, completed resolution of another incident of the same classification, of which no
-- execution has been rejected.
pub get_previous_resolutions-Chosen :
    (i limit : ℕ) (db : Db) (resolutions : List PreviousResolution)
    → get_previous_resolutions i limit db ≡ some resolutions
    → (current : IncidentRecord) × (find (by_id i) db.incidents ≡ some current)
      × Chosen i limit db current resolutions
unfolding get_previous_resolutions
get_previous_resolutions-Chosen i limit db resolutions h = go (find (by_id i) db.incidents) refl h
  where
    go :
        (o : Option IncidentRecord)
        → find (by_id i) db.incidents ≡ o
        → elim o [
          | none ↦ none
          | some current ↦ some (
              map previous_resolution (take limit (sorted is_later (comparable_rows i current db))))
        ]
          ≡ some resolutions
        → (current : IncidentRecord) × (find (by_id i) db.incidents ≡ some current)
          × Chosen i limit db current resolutions
    go none e k = absurd (none_is_not_some k)
    go (some current) e k =
        (current, e, subst (Chosen i limit db current) (some_same k) (chosen i limit db current))
