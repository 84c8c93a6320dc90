-- ===== src/Knowledge/Retrieval/Sessions.antt =====
-- What the two ways to search find in one session.
use mathlib.Core.List.Memᴰ
use ai_support_engineering_p.Common.{
  Bool, Bool-cases, IsSorted, List, Mem-keep, Mem-sorted, Option, String, [], any, any-Mem, ap,
  arith, best_first, false, inl, inr, keep, keep-Mem, length, length-take-le, map, none-Mem, refl,
  sorted, sorted-IsSorted, sorted-Mem, suc, take, take-IsSorted, take-Mem, true, zero, ℕ, ◌∷◌, ◌≡◌,
  ◌≤◌, ◌⊎◌,
}
use ai_support_engineering_p.Common.Exec.{Result, err, ok}
use ai_support_engineering_p.Db.Json.{ℤ}
use ai_support_engineering_p.Knowledge.Ingestion.{KnowledgeError}
use ai_support_engineering_p.Knowledge.Retrieval.{
  Candidate, Engine, RetrievedChunk, candidates, closer, distance_to, is_uneven, ranks_before,
  retrieve_in_session, retrieve_portable, retrieve_postgresql, similarity_to, to_result,
}
use ai_support_engineering_p.Knowledge.Retrieval.Candidates.{IsCandidate, candidates_iff}
use ai_support_engineering_p.Knowledge.Retrieval.Ranked.{
  Nearer, Similar, closer-Nearer, closer_total, closer_trans, ranks_before-Similar, ranks_total,
  ranks_trans,
}
use ai_support_engineering_p.Knowledge.Tables.{KnowledgeDb}
use mathlib.Core.List.{Memᴰ}
use mathlib.Core.Logic.{◌↔◌}

-- Each candidate may stand before all that follow.
abbrev pub InOrder : (Candidate → Candidate → Type 0) → List Candidate → Type 0
InOrder Before [] = Unit
InOrder Before (c ∷ cs) = ((d : Candidate) → Memᴰ d cs → Before c d) × InOrder Before cs

-- The results of a search: the best of the candidates that are visited, from the best on.
pub record Found (Before : Candidate → Candidate → Type 0) (score : Candidate → ℤ)
    (Visited : Candidate → Type 0) (limit : ℕ) (category : Option String) (db : KnowledgeDb)
    (results : List RetrievedChunk) : Type 0 where
  pub picked : List Candidate
  pub shown : results ≡ map (to_result score) picked
  pub bounded : length picked ≤ limit
  pub ranked : InOrder Before picked
  pub stored : (c : Candidate) → Memᴰ c picked → IsCandidate category db c × Visited c
  -- what is left out comes after all that is returned, and only where the limit is reached
  pub best :
      (c : Candidate)
      → IsCandidate category db c
      → Visited c
      → Memᴰ c picked ⊎ ((length picked ≡ limit) × ((p : Candidate) → Memᴰ p picked → Before p c))

module _ {A : Type 0} where
  take_full :
      (n : ℕ) (y : A) (xs : List A) → Memᴰ y xs → Memᴰ y (take n xs) ⊎ (length (take n xs) ≡ n)
  take_full zero y xs m = inr refl
  take_full (suc n) y [] m = absurd (Memᴰ.not-nil m)
  take_full (suc n) y (x ∷ xs) m = elim (Memᴰ.cases_cons m) [
    | inl q ↦ inl (Memᴰ.head q)
    | inr k ↦ elim (take_full n y xs k) [ inl k' ↦ inl (Memᴰ.tail k') | inr e ↦ inr (ap suc e) ]
  ]

module _ (before : Candidate → Candidate → Bool) (Before : Candidate → Candidate → Type 0)
    (sound : (r s : Candidate) → before r s ≡ true → Before r s) where
  IsSorted-InOrder : (cs : List Candidate) → IsSorted before cs → InOrder Before cs
  IsSorted-InOrder [] h = tt
  IsSorted-InOrder (c ∷ cs) h = ((λ d m. sound c d (h.0 d m)), IsSorted-InOrder cs h.1)

module _ (before : Candidate → Candidate → Bool) (Before : Candidate → Candidate → Type 0)
    (sound : (r s : Candidate) → before r s ≡ true → Before r s) (score : Candidate → ℤ)
    (Visited : Candidate → Type 0)
    (total : (r s : Candidate) → before r s ≡ false → before s r ≡ true)
    (trans : (r s t : Candidate) → before r s ≡ true → before s t ≡ true → before r t ≡ true)
    (category : Option String) (db : KnowledgeDb) (rows : List Candidate)
    (rows_iff : (c : Candidate) → Memᴰ c rows ↔ (IsCandidate category db c × Visited c)) where
  sorted-Found :
      (limit : ℕ)
      → Found Before score Visited limit category db
          (map (to_result score) (take limit (sorted before rows)))
  sorted-Found limit = record {
    picked = take limit (sorted before rows);
    shown = refl;
    bounded = length-take-le limit (sorted before rows);
    ranked =
        IsSorted-InOrder before Before sound (take limit (sorted before rows))
          (take-IsSorted before limit (sorted before rows) in_order);
    stored = λ c m.
        (rows_iff c).0 (sorted-Mem before c rows (take-Mem before limit c (sorted before rows) m));
    best = λ c k v.
        let m = Mem-sorted before c rows ((rows_iff c).1 (k, v)) in
        elim (take_full limit c (sorted before rows) m) [
          | inl t ↦ inl t
          | inr e ↦ elim (best_first before limit c (sorted before rows) in_order m) [
            | inl t ↦ inl t
            | inr all ↦ inr (e, λ p k. sound p c (all p k))
          ]
        ];
  }
    where
      in_order : IsSorted before (sorted before rows)
      in_order = sorted-IsSorted before total trans rows

module _ (engine : Engine) where
  -- A stored vector has as many components as the query's.
  abbrev pub Even : List ℕ → Candidate → Type 0
  Even query c = length c.embedding.embedding ≡ length query

  -- What the session answers: on PostgreSQL the nearest of the rows that the database visits, and
  -- elsewhere the most similar of all rows, provided that each vector can be compared.
  abbrev pub Searching :
      List ℕ
      → ℕ
      → Option String
      → KnowledgeDb
      → Bool
      → Result KnowledgeError (List RetrievedChunk)
      → Type 0
  Searching query limit category db true (ok results) =
      Found (Nearer (distance_to engine query))
        (λ c. engine.complement (distance_to engine query c)) (λ c. engine.visited query c ≡ true)
        limit category db results
  Searching query limit category db false (ok results) =
      Found (Similar (similarity_to engine query)) (similarity_to engine query) (λ c. Unit) limit
        category db results
      × ((c : Candidate) → IsCandidate category db c → Even query c)
  Searching query limit category db false (err KnowledgeError.length_mismatch) =
      (c : Candidate) × IsCandidate category db c × (Even query c → ⊥)
  Searching query limit category db b (err e) = ⊥

  module _ (query : List ℕ) (limit : ℕ) (category : Option String) (db : KnowledgeDb) where
    retrieve_postgresql-Found :
        Searching query limit category db true
          (ok (retrieve_postgresql engine query limit category db))
    unfolding retrieve_postgresql
    retrieve_postgresql-Found =
        sorted-Found (closer (distance_to engine query)) (Nearer (distance_to engine query))
          (closer-Nearer (distance_to engine query))
          (λ c. engine.complement (distance_to engine query c)) (λ c. engine.visited query c ≡ true)
          (closer_total (distance_to engine query)) (closer_trans (distance_to engine query))
          category db (keep (engine.visited query) (candidates category db))
          (λ c. (
            λ m.
                let (k, v) = keep-Mem (engine.visited query) (candidates category db) m in
                ((candidates_iff category db c).0 k, v),
            λ (k, v).
                Mem-keep (engine.visited query) (candidates category db)
                  ((candidates_iff category db c).1 k) v,
          ))
          limit

    even : (c : Candidate) → is_uneven engine query c ≡ false → Even query c
    even c h = ground arith

    uneven : (c : Candidate) → is_uneven engine query c ≡ true → Even query c → ⊥
    uneven c h e = ground arith

    retrieve_portable-Found :
        Searching query limit category db false (retrieve_portable engine query limit category db)
    unfolding retrieve_portable
    retrieve_portable-Found =
        elim (Bool-cases (any (is_uneven engine query) (candidates category db))) [
          | inl t ↦
              let (c, m, h) = any-Mem (is_uneven engine query) (candidates category db) t in
              rw t (c, (candidates_iff category db c).0 m, uneven c h)
          | inr t ↦ rw t (
            sorted-Found (ranks_before (similarity_to engine query))
                (Similar (similarity_to engine query))
                (ranks_before-Similar (similarity_to engine query)) (similarity_to engine query)
                (λ c. Unit) (ranks_total (similarity_to engine query))
                (ranks_trans (similarity_to engine query)) category db (candidates category db)
                (λ c. (
                  λ m. ((candidates_iff category db c).0 m, tt),
                  λ (k, v). (candidates_iff category db c).1 k,
                ))
                limit,
            λ c k. even c (
                none-Mem (is_uneven engine query) (candidates category db) t
                  ((candidates_iff category db c).1 k)),
          )
        ]

    pub retrieve_in_session-Searching :
        Searching query limit category db engine.is_postgresql
          (retrieve_in_session engine query limit category db)
    unfolding retrieve_in_session retrieve_postgresql retrieve_portable
    retrieve_in_session-Searching = elim (Bool-cases engine.is_postgresql) [
      | inl t ↦ rw t retrieve_postgresql-Found
      | inr t ↦ rw t retrieve_portable-Found
    ]
