-- ===== src/Agent/Validation/Grounded.antt =====
-- What `_validate_final` of agent/workflow.py accepts, described without its tests.
-- A reference that a citation names.
use ai_support_engineering_p.Agent.Evidence.{chunk_eq, evidence_type_eq, is_runbook, source_eq}
use ai_support_engineering_p.Agent.Models.{AgentFinalResponse}
use ai_support_engineering_p.Agent.Validation.{
  allows, citation_eq, dangerous, is_dangerous, lower, refers_to,
}
use ai_support_engineering_p.Common.{
  ==-refl, ==→eq, Bool-cases, List, Mem-any, Mem-keep, Mem-none, Option, String, Text, Unique,
  Within, [], any-Mem, ap, arith, contains, contains_iff, false, inl, inr, keep, keep-Mem, map,
  none, none-Mem, refl, some, sym, true, ℕ, ◌∙◌, ◌≡◌, ◌≢◌,
}
use ai_support_engineering_p.Db.{EvidenceReference, EvidenceType, SourceCitation}
use mathlib.Core.Bool.{false≢true}
use mathlib.Core.List.{Memᴰ}
use mathlib.Core.Logic.{◌↔◌}
use text.Mathlib.TextEquality.{eq_iff}
use text.Mathlib.TextPositions.{eq_refl}

abbrev pub Cites : List EvidenceReference → SourceCitation → Type 0
Cites references c =
    (r : EvidenceReference) × Memᴰ r references
    × (r.evidence_type ≡ EvidenceType.runbook)
    × (r.source_id ≡ some c.source_id)
    × (r.chunk_id ≡ some c.chunk_id)

abbrev pub HasRunbook : List EvidenceReference → Type 0
HasRunbook references =
    (r : EvidenceReference) × Memᴰ r references × (r.evidence_type ≡ EvidenceType.runbook)

abbrev pub Harmless : Text → Type 0
Harmless action = (fragment : Text) → Memᴰ fragment dangerous → ¬ Within fragment (map lower action)

-- A response that may be shown to a reviewer.
pub record Acceptable (final : AgentFinalResponse) (tools : List String)
    (references : List EvidenceReference) : Type 0 where
  pub unique_tools : Unique final.tools_used
  pub tools_ran : (t : String) → Memᴰ t final.tools_used → Memᴰ t tools
  pub unique_citations : Unique final.cited_sources
  pub cited : (c : SourceCitation) → Memᴰ c final.cited_sources → Cites references c
  pub cites : HasRunbook references → final.cited_sources ≢ []
  pub harmless : (a : Text) → Memᴰ a final.recommended_actions → Harmless a

pub runbook_iff :
    (r : EvidenceReference) → (is_runbook r ≡ true) ↔ (r.evidence_type ≡ EvidenceType.runbook)
runbook_iff r = (is_one r.evidence_type, λ e. rw e refl)
  where
    is_one :
        (t : EvidenceType)
        → evidence_type_eq t EvidenceType.runbook ≡ true
        → t ≡ EvidenceType.runbook
    is_one EvidenceType.incident h = cc
    is_one EvidenceType.runbook h = refl
    is_one EvidenceType.similar_incident h = cc
    is_one EvidenceType.resolution h = cc

source_some : (a : Option String) (s : String) → source_eq a (some s) ≡ true → a ≡ some s
source_some none s h = cc
source_some (some a) s h = ap some ((eq_iff a s).0 h)

chunk_some : (a : Option ℕ) (n : ℕ) → chunk_eq a (some n) ≡ true → a ≡ some n
chunk_some none n h = cc
chunk_some (some a) n h = ap some (==→eq a n h)

refers_iff :
    (c : SourceCitation) (r : EvidenceReference)
    → (refers_to c r ≡ true) ↔ ((r.source_id ≡ some c.source_id) × (r.chunk_id ≡ some c.chunk_id))
refers_iff c r = (
  λ h. (
    source_some r.source_id c.source_id (ground arith),
    chunk_some r.chunk_id c.chunk_id (ground arith),
  ),
  λ h. rw (h.0, h.1, eq_refl c.source_id, ==-refl c.chunk_id) refl,
)

pub citation_iff : (a b : SourceCitation) → (citation_eq a b ≡ true) ↔ (a ≡ b)
citation_iff a b = (
  λ h.
      same ((eq_iff a.source_id b.source_id).0 (ground arith))
        (==→eq a.chunk_id b.chunk_id (ground arith)),
  λ e.
      rw (ap (λ z. z.source_id) e, ap (λ z. z.chunk_id) e, eq_refl b.source_id, ==-refl b.chunk_id)
        refl,
)
  where
    same : a.source_id ≡ b.source_id → a.chunk_id ≡ b.chunk_id → a ≡ b
    same p q i = record { source_id = p i; chunk_id = q i }

pub allowed_iff :
    (references : List EvidenceReference) (c : SourceCitation)
    → (allows (keep is_runbook references) c ≡ true) ↔ Cites references c
allowed_iff references c = (named, offered)
  where
    named : allows (keep is_runbook references) c ≡ true → Cites references c
    named h =
        let (r, m, e) = any-Mem (refers_to c) (keep is_runbook references) h in
        let (m', k) = keep-Mem is_runbook references m in
        let (s, n) = (refers_iff c r).0 e in (r, m', (runbook_iff r).0 k, s, n)

    offered : Cites references c → allows (keep is_runbook references) c ≡ true
    offered (r, m, k, s, n) =
        Mem-any (refers_to c) (keep is_runbook references)
          (Mem-keep is_runbook references m ((runbook_iff r).1 k)) ((refers_iff c r).1 (s, n))

pub Harmless-iff : (action : Text) → (is_dangerous action ≡ false) ↔ Harmless action
unfolding is_dangerous
Harmless-iff action = (
  λ h f m there. false≢true (
      sym (none-Mem (λ g. contains g (map lower action)) dangerous h m)
      ∙ (contains_iff f (map lower action)).1 there),
  λ h. Mem-none (λ g. contains g (map lower action)) dangerous (λ f m. absent f (h f m)),
)
  where
    absent : (f : Text) → ¬ Within f (map lower action) → contains f (map lower action) ≡ false
    absent f n = elim (Bool-cases (contains f (map lower action))) [
      | inl e ↦ absurd (n ((contains_iff f (map lower action)).0 e))
      | inr e ↦ e
    ]
