-- ===== src/Agent/Tools/Similar.antt =====
-- `_bounded_text`, `_incident_similarity`, and what SearchSimilarIncidentsTool and
-- GetPreviousResolutionsTool of agent/tools.py read. A dictionary of the output is a record here.
pub mod Ranked
pub mod Previous
use ai_support_engineering_p.Agent.Sanitization.{lower_text}
use ai_support_engineering_p.Agent.Tables.{by_id}
use ai_support_engineering_p.Common.{
  Bool, List, Option, Text, [], any, count, false, find, fromkeys, if◌then◌else◌, is_empty, keep,
  leb, ltb, map, min, none, not, some, sorted, take, text_eq, ℕ, ◌&&◌, ◌++◌, ◌+◌, ◌==◌, ◌||◌, ◌∷◌,
}
use ai_support_engineering_p.Db.{Db, IncidentClassification, IncidentRecord, Severity}
use ai_support_engineering_p.Knowledge.Retrieval.{candidates}
use ai_support_engineering_p.Knowledge.Whitespace.{between, blank, is_space, strip}
use ai_support_engineering_p.Workers.Processor.{classification_value, severity_value}

-- `re.sub(r"\s+", " ", value)`, where the character before was whitespace or not.
unfoldable pub collapse : Bool → Text → Text
collapse within [] = []
collapse within (c ∷ s) =
    let rest = collapse (is_space c) s in
    if is_space c then (if within then rest else blank ∷ rest) else c ∷ rest

-- `_bounded_text`
unfoldable pub bounded_text : ℕ → Text → Text
bounded_text limit value = take limit (strip (collapse false value))

-- `[a-z0-9]`
abbrev pub is_term_char : ℕ → Bool
is_term_char c = between 48 57 c || between 97 122 c

-- `re.findall(r"[a-z0-9]+", text)`, with the letters of the term that is being read.
unfoldable pub terms_from : Text → Text → List Text
terms_from term [] = if is_empty term then [] else term ∷ []
terms_from term (c ∷ s) =
    let rest = terms_from (if is_term_char c then term ++ c ∷ [] else []) s in
    if not (is_term_char c) && not (is_empty term) then term ∷ rest else rest

abbrev pub terms : Text → List Text
terms error = fromkeys text_eq (terms_from [] (lower_text error))

abbrev pub points : ℕ → Bool → ℕ
points n b = if b then n else 0

-- `_incident_similarity`
unfoldable pub incident_similarity : IncidentRecord → IncidentRecord → ℕ
incident_similarity current candidate =
    points 4 (
      text_eq (classification_value candidate.classification)
        (classification_value current.classification))
    + points 3 (text_eq candidate.service current.service)
    + points 2 (
        text_eq (severity_value candidate.resolved_severity)
          (severity_value current.resolved_severity))
    + min (count (λ t. any (text_eq t) (terms candidate.error)) (terms current.error)) 3

pub record SimilarIncident : Type 0 where
  pub incident_id : ℕ
  pub service : Text
  pub error : Text
  pub classification : IncidentClassification
  pub severity : Severity
  pub probable_cause : Text
  pub similarity_score : ℕ

-- `.order_by(desc(created_at), desc(id))`
abbrev pub is_newer : IncidentRecord → IncidentRecord → Bool
is_newer r s = ltb s.created_at r.created_at || (r.created_at == s.created_at) && leb s.id r.id

abbrev pub other_incidents : ℕ → Db → List IncidentRecord
other_incidents i db = take 100 (sorted is_newer (keep (λ r. not (r.id == i)) db.incidents))

-- The key `(-score, -id)`.
abbrev pub is_closer : IncidentRecord → IncidentRecord → IncidentRecord → Bool
is_closer current r s =
    ltb (incident_similarity current s) (incident_similarity current r)
    || (incident_similarity current r == incident_similarity current s) && leb s.id r.id

abbrev pub similar_incident : IncidentRecord → IncidentRecord → SimilarIncident
similar_incident current r = record {
  incident_id = r.id;
  service = r.service;
  error = bounded_text 500 r.error;
  classification = r.classification;
  severity = r.resolved_severity;
  probable_cause = bounded_text 800 r.probable_cause;
  similarity_score = incident_similarity current r;
}

unfoldable pub rank_incidents : IncidentRecord → ℕ → List IncidentRecord → List IncidentRecord
rank_incidents current limit candidates =
    keep (λ r. leb 1 (incident_similarity current r))
      (take limit (sorted (is_closer current) candidates))

-- `SearchSimilarIncidentsTool.execute`, where none is "Incident not found".
unfoldable pub search_similar_incidents : ℕ → ℕ → Db → Option (List SimilarIncident)
search_similar_incidents i limit db = elim (find (by_id i) db.incidents) [
  | none ↦ none
  | some current ↦
      some (map (similar_incident current) (rank_incidents current limit (other_incidents i db)))
]
