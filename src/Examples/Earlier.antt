-- ===== src/Examples/Earlier.antt =====
-- An incident with an earlier one of its kind, which has been resolved.
use ai_support_engineering_p.Agent.Claim.{new_resolution}
use ai_support_engineering_p.Agent.Tables.{by_id}
use ai_support_engineering_p.Agent.Tools.Similar.{
  SimilarIncident, bounded_text, collapse, incident_similarity, rank_incidents,
  search_similar_incidents, similar_incident, terms_from,
}
use ai_support_engineering_p.Agent.Tools.Similar.Previous.{
  Chosen, PreviousResolution, get_previous_resolutions, get_previous_resolutions-Chosen,
  previous_resolution, resolution_rows,
}
use ai_support_engineering_p.Agent.Tools.Similar.Ranked.{Matches, search_similar_incidents-Matches}
use ai_support_engineering_p.Common.{[], codes, find, refl, some, sorted, ◌∷◌, ◌≡◌}
use ai_support_engineering_p.Db.{AiResolutionRecord, AiResolutionStatus, Db, IncidentRecord}
use ai_support_engineering_p.Examples.Data.{first_world, sample_env, sample_event, sample_incident}
use ai_support_engineering_p.Knowledge.Whitespace.{is_space, left_strip, right_strip}

abbrev earlier_incident : IncidentRecord
earlier_incident = record sample_incident {
  id = 5;
  error = codes "Timeout  of the gateway";
  created_at = 2;
}

abbrev earlier_resolution : AiResolutionRecord
earlier_resolution = record (new_resolution sample_env sample_event 3 2) {
  incident_id = 5;
  status = AiResolutionStatus.completed;
  summary = some (codes "It was slow.");
}

abbrev earlier_db : Db
earlier_db = record first_world.db {
  incidents = earlier_incident ∷ sample_incident ∷ [];
  resolutions = earlier_resolution ∷ [];
}

abbrev earlier_match : SimilarIncident
earlier_match = similar_incident sample_incident earlier_incident

search_finds : search_similar_incidents 7 5 earlier_db ≡ some (earlier_match ∷ [])
unfolding search_similar_incidents rank_incidents sorted incident_similarity terms_from
search_finds = refl

-- Classification, service, severity and the word "timeout".
scores : incident_similarity sample_incident earlier_incident ≡ 10
unfolding incident_similarity terms_from
scores = refl

one_space : bounded_text 500 (codes " Timeout  of ") ≡ codes "Timeout of"
unfolding bounded_text collapse is_space left_strip right_strip
one_space = refl

search_similar_incidents-Matches_example :
    (current : IncidentRecord) × (find (by_id 7) earlier_db.incidents ≡ some current)
    × Matches 7 5 earlier_db current (earlier_match ∷ [])
search_similar_incidents-Matches_example =
    search_similar_incidents-Matches 7 5 earlier_db (earlier_match ∷ []) search_finds

abbrev chosen_resolution : PreviousResolution
chosen_resolution = previous_resolution (earlier_resolution, earlier_incident)

chooses : get_previous_resolutions 7 5 earlier_db ≡ some (chosen_resolution ∷ [])
unfolding get_previous_resolutions resolution_rows sorted new_resolution
chooses = refl

get_previous_resolutions-Chosen_example :
    (current : IncidentRecord) × (find (by_id 7) earlier_db.incidents ≡ some current)
    × Chosen 7 5 earlier_db current (chosen_resolution ∷ [])
get_previous_resolutions-Chosen_example =
    get_previous_resolutions-Chosen 7 5 earlier_db (chosen_resolution ∷ []) chooses
