-- ===== src/Services/Incidents/Pages.antt =====
-- The pages that `IncidentRepository.list` returns.
use ai_support_engineering_p.Common.{
  List, Mem-keep, Mem-sorted, arith, count, drop, false, keep, keep-Mem, length, length-take-le,
  ltb, sorted, sorted-IsSorted, sorted-Mem, take-Mem, true, ℕ, ◌&&◌, ◌+◌, ◌<◌, ◌==◌, ◌∙◌, ◌≡◌, ◌≤◌,
}
use ai_support_engineering_p.Db.{Db, IncidentRecord}
use ai_support_engineering_p.Services.Incidents.{Filter, list_incidents, newer, selected}
use ai_support_engineering_p.Services.Incidents.Conditions.{Meets, selected_iff}
use ai_support_engineering_p.Services.Incidents.Positions.{
  Descending, HasKeys, count-keep, count-sorted, count_and_le, drop-Descending, drop-Mem, drop_iff,
  rank, rank-drop, sorted-Descending, take-Descending, take_iff,
}
use mathlib.Core.List.{Memᴰ}
use mathlib.Core.Logic.{◌↔◌}

-- How many of the selected incidents have a greater identifier.
abbrev pub newer_selected : Filter → IncidentRecord → Db → ℕ
newer_selected filter r db = count (λ s. selected filter s && ltb r.id s.id) db.incidents

-- What a page holds.
pub record Page (filter : Filter) (limit offset : ℕ) (db : Db) (page : List IncidentRecord)
    : Type 0 where
  pub on_page :
      (r : IncidentRecord)
      → Memᴰ r page ↔ (
          Memᴰ r db.incidents
          × Meets filter r
          × (offset ≤ newer_selected filter r db)
          × (newer_selected filter r db < offset + limit))
  pub counted : (r : IncidentRecord) → (selected filter r ≡ true) ↔ Meets filter r
  pub newest_first : Descending page
  pub at_most : length page ≤ limit

newer_total : (r s : IncidentRecord) → newer r s ≡ false → newer s r ≡ true
newer_total r s h = ground arith

newer_trans : (r s t : IncidentRecord) → newer r s ≡ true → newer s t ≡ true → newer r t ≡ true
newer_trans r s t h k = ground arith

module _ (filter : Filter) (db : Db) where
  abbrev rows : List IncidentRecord
  rows = sorted newer (keep (selected filter) db.incidents)

  rows-Descending : HasKeys db.incidents → Descending rows
  rows-Descending keys =
      sorted-Descending rows (sorted-IsSorted newer newer_total newer_trans _) λ i.
        let one = keys i in
        let e = count-sorted newer (λ r. r.id == i) (keep (selected filter) db.incidents) in
        let k = count-keep (λ r. r.id == i) (selected filter) db.incidents in
        let l = count_and_le (λ r. r.id == i) (selected filter) db.incidents in omega arith

  rank-rows : (r : IncidentRecord) → rank r rows ≡ newer_selected filter r db
  rank-rows r =
      count-sorted newer (λ s. ltb r.id s.id) (keep (selected filter) db.incidents)
      ∙ count-keep (λ s. ltb r.id s.id) (selected filter) db.incidents

  -- If no two incidents have the same identifier, a page holds exactly the stored incidents that
  -- have the service, the severity and the classification that are asked for, each if given, and
  -- for which the number of such incidents with a greater identifier is at least the offset and
  -- less than the offset and the limit together, each once, the greatest identifier first.
  pub list_incidents-Page :
      (limit offset : ℕ)
      → HasKeys db.incidents
      → Page filter limit offset db (list_incidents filter limit offset db)
  unfolding list_incidents
  list_incidents-Page limit offset keys = record {
    on_page = λ r. (
      λ m.
          let dropped = take-Mem newer limit r (drop offset rows) m in
          let listed = drop-Mem offset r rows dropped in
          let (stored, chosen) =
            keep-Mem (selected filter) db.incidents (sorted-Mem newer r _ listed) in
          let low = (drop_iff offset r rows in_order listed).0 dropped in
          let high = (take_iff limit r (drop offset rows) rest dropped).0 m in
          let e = rank-drop offset r rows in_order dropped in
          let k = rank-rows r in
          (stored, (selected_iff filter r).0 chosen, omega arith, omega arith),
      λ (stored, chosen, low, high).
          let listed =
            Mem-sorted newer r _
              (Mem-keep (selected filter) db.incidents stored ((selected_iff filter r).1 chosen)) in
          let k = rank-rows r in
          let dropped = (drop_iff offset r rows in_order listed).1 (omega arith) in
          let e = rank-drop offset r rows in_order dropped in
          (take_iff limit r (drop offset rows) rest dropped).1 (omega arith),
    );
    counted = selected_iff filter;
    newest_first = take-Descending limit (drop offset rows) rest;
    at_most = length-take-le limit (drop offset rows);
  }
    where
      in_order : Descending rows
      in_order = rows-Descending keys

      rest : Descending (drop offset rows)
      rest = drop-Descending offset rows in_order
