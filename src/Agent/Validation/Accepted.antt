-- ===== src/Agent/Validation/Accepted.antt =====
-- `_validate_final` of agent/workflow.py accepts exactly the acceptable responses.
use mathlib.Core.List.Memᴰ
use ai_support_engineering_p.Agent.Evidence.{is_runbook}
use ai_support_engineering_p.Agent.Failure.{Failure}
use ai_support_engineering_p.Agent.Models.{AgentFinalResponse}
use ai_support_engineering_p.Agent.Validation.{
  allows, citation_eq, half, is_dangerous, or_limitation, validate_final, with_updates,
}
use ai_support_engineering_p.Agent.Validation.Grounded.{
  Acceptable, HasRunbook, allowed_iff, citation_iff, Harmless-iff, runbook_iff,
}
use ai_support_engineering_p.Common.{
  Bool, Bool-cases, List, Mem-any, Mem-keep, Mem-none, String, Text, [], all-Mem, any, any-Mem,
  arith, distinct, distinct-Unique, false, inl, inr, is_empty, keep, keep-Mem, none-Mem, not, refl,
  subst, sym, true, ◌&&◌, ◌∙◌, ◌∷◌, ◌≡◌, ◌≢◌, ◌≤◌,
}
use ai_support_engineering_p.Common.Exec.{Result, err, ok}
use ai_support_engineering_p.Db.{EvidenceReference}
use mathlib.Core.Bool.{true≢false}
use mathlib.Core.List.{Memᴰ, cons≢nil}
use mathlib.Core.Logic.{◌↔◌}
use text.Mathlib.Text.{◌==◌ as str_eq}
use text.Mathlib.TextEquality.{eq_iff}
use text.Mathlib.TextPositions.{eq_refl}

nonempty : {A : Type 0} {x : A} {xs : List A} → Memᴰ x xs → is_empty xs ≡ false
nonempty (Memᴰ.head e) = refl
nonempty (Memᴰ.tail m) = refl

first_of : {A : Type 0} (xs : List A) → is_empty xs ≡ false → (x : A) × Memᴰ x xs
first_of [] h = absurd (true≢false h)
first_of (x ∷ xs) h = (x, Memᴰ.head refl)

not_empty : {A : Type 0} (xs : List A) → xs ≢ [] → is_empty xs ≡ false
not_empty [] n = absurd (n refl)
not_empty (x ∷ xs) n = refl

module _ (final : AgentFinalResponse) (tools : List String)
    (references : List EvidenceReference) where
  abbrev allowed : List EvidenceReference
  allowed = keep is_runbook references

  -- The six tests.
  record Passed : Type 0 where
    unique_tools : distinct str_eq final.tools_used ≡ true
    tools_ran : is_empty (keep (λ t. not (any (str_eq t) tools)) final.tools_used) ≡ true
    unique_citations : distinct citation_eq final.cited_sources ≡ true
    cited : is_empty (keep (λ c. not (allows allowed c)) final.cited_sources) ≡ true
    cites : (not (is_empty allowed) && is_empty final.cited_sources) ≡ false
    harmless : any is_dangerous final.recommended_actions ≡ false

  passed :
      (accepted : AgentFinalResponse) → validate_final final tools references ≡ ok accepted → Passed
  unfolding validate_final
  passed accepted h = record {
    unique_tools = ground arith;
    tools_ran = ground arith;
    unique_citations = ground arith;
    cited = ground arith;
    cites = ground arith;
    harmless = ground arith;
  }

  passed_result :
      Passed
      → validate_final final tools references ≡ ok (with_updates final tools (is_empty allowed))
  unfolding validate_final
  passed_result p =
      rw (p.unique_tools, p.tools_ran, p.unique_citations, p.cited, p.cites, p.harmless) refl

  has_ran : (t : String) → (any (str_eq t) tools ≡ true) ↔ Memᴰ t tools
  has_ran t = (
    λ h. let (u, m, e) = any-Mem (str_eq t) tools h in Memᴰ.cast ((eq_iff t u).0 e) m,
    λ m. Mem-any (str_eq t) tools m (eq_refl t),
  )

  cites_iff :
      ((not (is_empty allowed) && is_empty final.cited_sources) ≡ false)
      ↔ (HasRunbook references → final.cited_sources ≢ [])
  cites_iff = (needed, enough)
    where
      needed :
          (not (is_empty allowed) && is_empty final.cited_sources) ≡ false
          → HasRunbook references
          → final.cited_sources ≢ []
      needed h (r, m, k) e =
          true≢false
            (rw (nonempty (Mem-keep is_runbook references m ((runbook_iff r).1 k)), e) at h)

      cited_one : is_empty allowed ≡ false → HasRunbook references
      cited_one h =
          let (r, m) = first_of allowed h in
          let (m', k) = keep-Mem is_runbook references m in (r, m', (runbook_iff r).0 k)

      enough :
          (HasRunbook references → final.cited_sources ≢ [])
          → (not (is_empty allowed) && is_empty final.cited_sources) ≡ false
      enough h = elim (Bool-cases (is_empty allowed)) [
        | inl e ↦ rw e refl
        | inr e ↦ rw e (not_empty final.cited_sources (h (cited_one e)))
      ]

  acceptable : Passed → Acceptable final tools references
  acceptable p = record {
    unique_tools = (distinct-Unique str_eq final.tools_used eq_iff).0 p.unique_tools;
    tools_ran = λ t m.
        (has_ran t).0 ((all-Mem (λ t. any (str_eq t) tools) final.tools_used).0 p.tools_ran t m);
    unique_citations =
        (distinct-Unique citation_eq final.cited_sources citation_iff).0 p.unique_citations;
    cited = λ c m.
        (allowed_iff references c).0 ((all-Mem (allows allowed) final.cited_sources).0 p.cited c m);
    cites = cites_iff.0 p.cites;
    harmless =
        λ a m. (Harmless-iff a).0 (none-Mem is_dangerous final.recommended_actions p.harmless m);
  }

  tested : Acceptable final tools references → Passed
  tested h = record {
    unique_tools = (distinct-Unique str_eq final.tools_used eq_iff).1 h.unique_tools;
    tools_ran =
        (all-Mem (λ t. any (str_eq t) tools) final.tools_used).1
          (λ t m. (has_ran t).1 (h.tools_ran t m));
    unique_citations =
        (distinct-Unique citation_eq final.cited_sources citation_iff).1 h.unique_citations;
    cited =
        (all-Mem (allows allowed) final.cited_sources).1
          (λ c m. (allowed_iff references c).1 (h.cited c m));
    cites = cites_iff.1 h.cites;
    harmless =
        Mem-none is_dangerous final.recommended_actions
          (λ a m. (Harmless-iff a).1 (h.harmless a m));
  }

  -- `_validate_final` returns a response exactly for those that are acceptable: the tools it names
  -- are distinct and have run, its citations are distinct, each names a runbook chunk of the
  -- evidence, there is one if the evidence has a runbook, and no recommended action contains, in
  -- lower case, one of the forbidden fragments.
  pub validate_final_iff :
      ((accepted : AgentFinalResponse) × (validate_final final tools references ≡ ok accepted))
      ↔ Acceptable final tools references
  validate_final_iff = (
    λ (a, e). acceptable (passed a e),
    λ h. (with_updates final tools (is_empty allowed), passed_result (tested h)),
  )

  uncited : ¬ HasRunbook references → is_empty allowed ≡ true
  uncited n = elim (Bool-cases (is_empty allowed)) [
    | inl e ↦ e
    | inr e ↦
        let (r, m) = first_of allowed e in
        let (m', k) = keep-Mem is_runbook references m in absurd (n (r, m', (runbook_iff r).0 k))
  ]

  abbrev Capped : AgentFinalResponse → Type 0
  Capped accepted =
      (accepted.confidence ≤ half)
      × (accepted.confidence ≤ final.confidence)
      × (accepted.escalation_required ≡ true)
      × (accepted.human_review_recommended ≡ true)
      × (accepted.limitations ≢ [])

  abbrev Promised : Result Failure AgentFinalResponse → Type 0
  Promised (err e) = Unit
  Promised (ok accepted) =
      (accepted.tools_used ≡ tools) × (¬ HasRunbook references → Capped accepted)

  some_limitation : (limitations : List Text) → or_limitation limitations ≢ []
  some_limitation [] = cons≢nil
  some_limitation (l ∷ limitations) = cons≢nil

  updated : (b : Bool) → is_empty allowed ≡ b → Promised (ok (with_updates final tools b))
  unfolding with_updates
  updated true h =
      (refl, λ n. (omega arith, omega arith, refl, refl, some_limitation final.limitations))
  updated false h = (refl, λ n. absurd (true≢false (sym (uncited n) ∙ h)))

  -- What is returned names exactly the tools that ran. Where the evidence has no runbook, its
  -- confidence is at most one half and not above what the model gave, it asks for escalation and
  -- for human review, and it states a limitation.
  pub validate_final-capped :
      (accepted : AgentFinalResponse)
      → validate_final final tools references ≡ ok accepted
      → (accepted.tools_used ≡ tools)
        × (¬ HasRunbook references
            → (accepted.confidence ≤ half)
              × (accepted.confidence ≤ final.confidence)
              × (accepted.escalation_required ≡ true)
              × (accepted.human_review_recommended ≡ true)
              × (accepted.limitations ≢ []))
  validate_final-capped accepted h =
      subst Promised (sym (passed_result (passed accepted h)) ∙ h) (updated (is_empty allowed) refl)
