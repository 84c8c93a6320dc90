-- ===== src/Agent/Tools/Similar/Ranked.antt =====
-- Which incidents `search_similar_incidents` returns.
use mathlib.Core.List.Memᴰ
use ai_support_engineering_p.Agent.Tables.{by_id}
use ai_support_engineering_p.Agent.Tools.Similar.{
  SimilarIncident, incident_similarity, is_closer, is_newer, other_incidents, rank_incidents,
  search_similar_incidents, similar_incident,
}
use ai_support_engineering_p.Common.{
  Bool, List, Mem-keep, Mem-sorted, Option, [], arith, best_first, false, find, inl, inr, keep,
  keep-Mem, leb, length, length-keep, length-take-le, map, none, not, refl, some, some_same, sorted,
  sorted-IsSorted, sorted-Mem, subst, sym, take, take-Mem, true, ℕ, ◌==◌, ◌∷◌, ◌≡◌, ◌≢◌, ◌≤◌, ◌⊎◌,
}
use ai_support_engineering_p.Db.{Db, IncidentRecord}
use mathlib.Core.List.{Memᴰ}

pub length-map : {A B : Type 0} (f : A → B) (xs : List A) → length (map f xs) ≡ length xs
length-map f [] = refl
length-map f (x ∷ xs) = rw (length-map f xs) refl

pub none_is_not_some : {A : Type 0} {a : A} → ¬ (none ≡ some a)
none_is_not_some h = cc

positive_score : (n : ℕ) → leb 1 n ≡ true → 1 ≤ n
positive_score n h = ground arith

-- The first incident has the greater score, or the same score and the greater identifier.
abbrev pub Closer : IncidentRecord → IncidentRecord → IncidentRecord → Type 0
Closer current s r =
    (incident_similarity current r ≤ incident_similarity current s)
    × (incident_similarity current s ≤ incident_similarity current r → r.id ≤ s.id)

module _ (current : IncidentRecord) where
  is_closer-Closer : (s r : IncidentRecord) → is_closer current s r ≡ true → Closer current s r
  is_closer-Closer s r h = (ground arith, λ k. ground arith)

  closer_total :
      (r s : IncidentRecord) → is_closer current r s ≡ false → is_closer current s r ≡ true
  closer_total r s h = ground arith

  closer_trans :
      (r s t : IncidentRecord)
      → is_closer current r s ≡ true
      → is_closer current s t ≡ true
      → is_closer current r t ≡ true
  closer_trans r s t h k = ground arith

other_incident :
    (i : ℕ) (db : Db) (r : IncidentRecord)
    → Memᴰ r (other_incidents i db)
    → Memᴰ r db.incidents × (r.id ≢ i)
other_incident i db r m =
    let (k, e) =
      keep-Mem (λ q. not (q.id == i)) db.incidents
        (sorted-Mem is_newer r _ (take-Mem is_newer 100 r _ m)) in
    (k, ground arith)

-- The matches for an incident.
pub record Matches (i limit : ℕ) (db : Db) (current : IncidentRecord)
    (matches : List SimilarIncident) : Type 0 where
  -- each is another stored incident with a positive score
  pub found :
      (m : SimilarIncident)
      → Memᴰ m matches
      → (r : IncidentRecord) × Memᴰ r db.incidents
        × (r.id ≢ i)
        × (1 ≤ incident_similarity current r)
        × (m ≡ similar_incident current r)
  pub at_most : length matches ≤ limit
  -- a candidate with a positive score is among them, or each of them is at least as close
  pub best :
      (r : IncidentRecord)
      → Memᴰ r (other_incidents i db)
      → leb 1 (incident_similarity current r) ≡ true
      → Memᴰ (similar_incident current r) matches
        ⊎ ((s : IncidentRecord)
            → Memᴰ s (rank_incidents current limit (other_incidents i db))
            → Closer current s r)

ranked-Matches :
    (i limit : ℕ) (db : Db) (current : IncidentRecord)
    → Matches i limit db current
        (map (similar_incident current) (rank_incidents current limit (other_incidents i db)))
unfolding rank_incidents
ranked-Matches i limit db current = record {
  found = λ m k.
      let (r, j, e) = Memᴰ.of_map (similar_incident current) _ k in
      let (top, score) = keep-Mem positive first j in
      let (stored, apart) =
        other_incident i db r
          (sorted-Mem (is_closer current) r _ (take-Mem (is_closer current) limit r _ top)) in
      (r, stored, apart, positive_score _ score, sym e);
  at_most =
      let a = length-map (similar_incident current) (keep positive first) in
      let b = length-keep positive first in
      let c = length-take-le limit (sorted (is_closer current) (other_incidents i db)) in
      omega arith;
  best = λ r m p.
      elim (best_first (is_closer current) limit r _
        (sorted-IsSorted (is_closer current) (closer_total current) (closer_trans current)
          (other_incidents i db))
        (Mem-sorted (is_closer current) r _ m)) [
          | inl k ↦ inl (Memᴰ.map (similar_incident current) (Mem-keep positive first k p))
          | inr all ↦
              inr (λ s j. is_closer-Closer current s r (all s (keep-Mem positive first j).0))
        ];
}
  where
    positive : IncidentRecord → Bool
    positive r = leb 1 (incident_similarity current r)

    first : List IncidentRecord
    first = take limit (sorted (is_closer current) (other_incidents i db))

-- A search for similar incidents that finds the incident returns at most as many as asked for, none
-- of them the incident itself, each with a positive score, and no stored one among the hundred
-- newest that is left out is closer than one that is returned.
pub search_similar_incidents-Matches :
    (i limit : ℕ) (db : Db) (matches : List SimilarIncident)
    → search_similar_incidents i limit db ≡ some matches
    → (current : IncidentRecord) × (find (by_id i) db.incidents ≡ some current)
      × Matches i limit db current matches
unfolding search_similar_incidents
search_similar_incidents-Matches i limit db matches h = go (find (by_id i) db.incidents) refl h
  where
    go :
        (o : Option IncidentRecord)
        → find (by_id i) db.incidents ≡ o
        → elim o [
          | none ↦ none
          | some current ↦
              some (
                map
                  (similar_incident current)
                  (rank_incidents current limit (other_incidents i db)))
        ]
          ≡ some matches
        → (current : IncidentRecord) × (find (by_id i) db.incidents ≡ some current)
          × Matches i limit db current matches
    go none e k = absurd (none_is_not_some k)
    go (some current) e k = (
      current,
      e,
      subst (Matches i limit db current) (some_same k) (ranked-Matches i limit db current),
    )
