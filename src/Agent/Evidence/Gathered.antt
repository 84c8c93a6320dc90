-- ===== src/Agent/Evidence/Gathered.antt =====
-- What the evidence of an execution holds.
use mathlib.Core.List.Memᴰ
use ai_support_engineering_p.Agent.Evidence.{
  all_references, chunk_eq, evidence_references, evidence_type_eq, reference_eq, source_eq,
}
use ai_support_engineering_p.Agent.Models.{ToolResult}
use ai_support_engineering_p.Common.{
  ==-refl, ==→eq, List, Option, String, Unique, [], ap, arith, fromkeys-Mem, fromkeys-Unique, inl,
  inr, none, refl, some, some_same, subst, text_eq_refl, text_eq→eq, true, ℕ, ◌∷◌, ◌≡◌,
}
use ai_support_engineering_p.Db.{EvidenceReference, EvidenceType}
use mathlib.Core.List.{Memᴰ}
use mathlib.Core.Logic.{◌↔◌}
use text.Mathlib.TextEquality.{eq_iff}

type_iff : (a b : EvidenceType) → (evidence_type_eq a b ≡ true) ↔ (a ≡ b)
type_iff a b = (same a b, λ e. rw e (itself b))
  where
    itself : (b : EvidenceType) → evidence_type_eq b b ≡ true
    itself EvidenceType.incident = refl
    itself EvidenceType.runbook = refl
    itself EvidenceType.similar_incident = refl
    itself EvidenceType.resolution = refl

    same : (a b : EvidenceType) → evidence_type_eq a b ≡ true → a ≡ b
    same EvidenceType.incident EvidenceType.incident h = refl
    same EvidenceType.runbook EvidenceType.runbook h = refl
    same EvidenceType.similar_incident EvidenceType.similar_incident h = refl
    same EvidenceType.resolution EvidenceType.resolution h = refl
    same EvidenceType.incident EvidenceType.runbook h = cc
    same EvidenceType.incident EvidenceType.similar_incident h = cc
    same EvidenceType.incident EvidenceType.resolution h = cc
    same EvidenceType.runbook EvidenceType.incident h = cc
    same EvidenceType.runbook EvidenceType.similar_incident h = cc
    same EvidenceType.runbook EvidenceType.resolution h = cc
    same EvidenceType.similar_incident EvidenceType.incident h = cc
    same EvidenceType.similar_incident EvidenceType.runbook h = cc
    same EvidenceType.similar_incident EvidenceType.resolution h = cc
    same EvidenceType.resolution EvidenceType.incident h = cc
    same EvidenceType.resolution EvidenceType.runbook h = cc
    same EvidenceType.resolution EvidenceType.similar_incident h = cc

source_iff : (a b : Option String) → (source_eq a b ≡ true) ↔ (a ≡ b)
source_iff none none = (λ h. refl, λ h. refl)
source_iff (some a) (some b) = (λ h. ap some ((eq_iff a b).0 h), λ h. (eq_iff a b).1 (some_same h))
source_iff none (some b) = (λ h. cc, λ h. cc)
source_iff (some a) none = (λ h. cc, λ h. cc)

chunk_iff : (a b : Option ℕ) → (chunk_eq a b ≡ true) ↔ (a ≡ b)
chunk_iff none none = (λ h. refl, λ h. refl)
chunk_iff (some a) (some b) = (λ h. ap some (==→eq a b h), λ h. rw (some_same h) (==-refl b))
chunk_iff none (some b) = (λ h. cc, λ h. cc)
chunk_iff (some a) none = (λ h. cc, λ h. cc)

reference_iff : (a b : EvidenceReference) → (reference_eq a b ≡ true) ↔ (a ≡ b)
unfolding reference_eq
reference_iff a b = (
  λ h.
      same ((type_iff a.evidence_type b.evidence_type).0 (ground arith))
        (text_eq→eq a.reference_id b.reference_id (ground arith))
        ((source_iff a.source_id b.source_id).0 (ground arith))
        ((chunk_iff a.chunk_id b.chunk_id).0 (ground arith)),
  λ e.
      rw
        (
          e,
          (type_iff b.evidence_type b.evidence_type).1 refl,
          text_eq_refl b.reference_id,
          (source_iff b.source_id b.source_id).1 refl,
          (chunk_iff b.chunk_id b.chunk_id).1 refl,
        )
        refl,
)
  where
    same :
        a.evidence_type ≡ b.evidence_type
        → a.reference_id ≡ b.reference_id
        → a.source_id ≡ b.source_id
        → a.chunk_id ≡ b.chunk_id
        → a ≡ b
    same p q r s i = record {
      evidence_type = p i;
      reference_id = q i;
      source_id = r i;
      chunk_id = s i;
    }

all-Mem_references :
    (results : List (ℕ × ToolResult)) (r : EvidenceReference)
    → Memᴰ r (all_references results) ↔ (
        (n : ℕ) × (result : ToolResult) × Memᴰ (n, result) results
        × Memᴰ r result.evidence_references)
all-Mem_references results r = (from results, to results)
  where
    from :
        (results : List (ℕ × ToolResult))
        → Memᴰ r (all_references results)
        → (n : ℕ) × (result : ToolResult) × Memᴰ (n, result) results
          × Memᴰ r result.evidence_references
    from [] m = absurd (Memᴰ.not-nil m)
    from ((n, result) ∷ results) m = elim (Memᴰ.append_cases result.evidence_references m) [
      | inl k ↦ (n, result, Memᴰ.head refl, k)
      | inr k ↦ let (n', result', m', k') = from results k in (n', result', Memᴰ.tail m', k')
    ]

    to :
        (results : List (ℕ × ToolResult))
        → (n : ℕ) × (result : ToolResult) × Memᴰ (n, result) results
          × Memᴰ r result.evidence_references
        → Memᴰ r (all_references results)
    to [] (n, result, m, k) = absurd (Memᴰ.not-nil m)
    to ((n, result) ∷ results) (n', result', Memᴰ.head e, k) =
        Memᴰ.append_left (all_references results) (subst (λ p. Memᴰ r p.1.evidence_references) e k)
    to ((n, result) ∷ results) (n', result', Memᴰ.tail m, k) =
        Memᴰ.append_right result.evidence_references (to results (n', result', m, k))

-- The evidence references of an execution are distinct, and they are exactly those of its results.
pub evidence_references_lem :
    (results : List (ℕ × ToolResult))
    → Unique (evidence_references results)
      × ((r : EvidenceReference)
          → Memᴰ r (evidence_references results) ↔ (
              (n : ℕ) × (result : ToolResult) × Memᴰ (n, result) results
              × Memᴰ r result.evidence_references))
unfolding evidence_references
evidence_references_lem results = (
  fromkeys-Unique reference_eq reference_iff (all_references results),
  λ r.
      let keys = fromkeys-Mem reference_eq reference_iff (all_references results) r in
      let all = all-Mem_references results r in (λ m. all.0 (keys.0 m), λ k. keys.1 (all.1 k)),
)
