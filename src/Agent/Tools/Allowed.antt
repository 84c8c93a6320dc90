-- ===== src/Agent/Tools/Allowed.antt =====
-- Which tool calls return a result.
use mathlib.Core.List.Memᴰ
use ai_support_engineering_p.Agent.Env.{Env, ToolInput}
use ai_support_engineering_p.Agent.Failure.{Failure, unauthorized_arguments}
use ai_support_engineering_p.Agent.Models.{ToolRequest}
use ai_support_engineering_p.Agent.Tools.{
  ToolContext, authorize, in_scope, max_tool_argument_bytes, registry, validate,
}
use ai_support_engineering_p.Common.{
  ==-refl, ==→eq, Bool-cases, Mem-any, Option, any, any-Mem, ap, arith, false, inl, inr, leb,
  leb-false→lt, ltb, ltb-false→le, none, or_else, refl, some, true, ℕ, ◌<◌, ◌==◌, ◌≡◌, ◌≤◌,
}
use ai_support_engineering_p.Common.Exec.{Result, err, ok, ok_same}
use mathlib.Core.List.{Memᴰ}
use mathlib.Core.Logic.{◌↔◌}
use text.Mathlib.Text.{◌==◌ as str_eq}
use text.Mathlib.TextEquality.{eq_iff}
use text.Mathlib.TextPositions.{eq_refl}

err_not_ok : {j : ToolInput} (r : Result Failure ToolInput) (e : Failure) → r ≡ err e → r ≡ ok j → ⊥
err_not_ok r e h k = cc

module _ (env : Env) (max_tool_calls : ℕ) (request : ToolRequest) (context : ToolContext)
    (calls : ℕ) where
  -- What is known of a request whose tool may be run.
  pub record Allowed (input : ToolInput) : Type 0 where
    pub within_budget : calls < max_tool_calls
    pub small : env.json_bytes request.arguments ≤ max_tool_argument_bytes
    pub registered : Memᴰ request.tool_name registry
    pub valid : env.validate_input request.tool_name request.arguments ≡ some input
    pub same_incident :
        (incident : ℕ) → input.incident_id ≡ some incident → incident ≡ context.incident_id

  -- The tests of `validate`, as it passes them.
  tests :
      (input : ToolInput)
      → validate env max_tool_calls request context calls ≡ ok input
      → (leb max_tool_calls calls ≡ false)
        × (ltb max_tool_argument_bytes (env.json_bytes request.arguments) ≡ false)
        × (any (str_eq request.tool_name) registry ≡ true)
        × (authorize context request.tool_name
              (env.validate_input request.tool_name request.arguments)
            ≡ ok input)
  unfolding validate
  tests input h = ground arith

  authorized :
      (input : ToolInput) (o : Option ToolInput)
      → authorize context request.tool_name o ≡ ok input
      → (o ≡ some input) × (in_scope context input ≡ true)
  authorized input none h = cc
  authorized input (some i) h = elim (Bool-cases (in_scope context i)) [
    | inl e ↦ let same : i ≡ input = ok_same refl (rw e at h) in (ap some same, rw (← same) e)
    | inr e ↦
        absurd (err_not_ok (err unauthorized_arguments) unauthorized_arguments refl (rw e at h))
  ]

  scope_kept :
      (o : Option ℕ)
      → (or_else o context.incident_id == context.incident_id) ≡ true
      → (incident : ℕ) → o ≡ some incident
      → incident ≡ context.incident_id
  scope_kept o h incident e = ==→eq incident context.incident_id (rw e at h)

  scope_met :
      (o : Option ℕ)
      → ((incident : ℕ) → o ≡ some incident → incident ≡ context.incident_id)
      → (or_else o context.incident_id == context.incident_id) ≡ true
  scope_met none h = ==-refl context.incident_id
  scope_met (some incident) h = rw (h incident refl) (==-refl context.incident_id)

  validate-Allowed :
      (input : ToolInput)
      → validate env max_tool_calls request context calls ≡ ok input
      → Allowed input
  validate-Allowed input h =
      let (budget, size, name, scope) = tests input h in
      let (valid, same) = authorized input _ scope in
      let (n, m, e) = any-Mem (str_eq request.tool_name) registry name in
      record {
        within_budget = leb-false→lt _ _ budget;
        small = ltb-false→le _ _ size;
        registered = Memᴰ.cast ((eq_iff request.tool_name n).0 e) m;
        valid = valid;
        same_incident = scope_kept input.incident_id same;
      }

  Allowed-validate :
      (input : ToolInput)
      → Allowed input
      → validate env max_tool_calls request context calls ≡ ok input
  unfolding validate
  Allowed-validate input a =
      let budget : leb max_tool_calls calls ≡ false = let l = a.within_budget in ground arith in
      let size : ltb max_tool_argument_bytes (env.json_bytes request.arguments) ≡ false =
        let l = a.small in ground arith in
      let name =
        Mem-any (str_eq request.tool_name) registry a.registered (eq_refl request.tool_name) in
      rw (budget, size, name, a.valid, scope_met input.incident_id a.same_incident) refl

  -- A tool may be run on an input exactly if a call is left in the budget, the arguments have at
  -- most 8,000 bytes, the tool is registered, its schema turns the arguments into this input, and
  -- the incident that the input names, if any, is that of the execution.
  pub validate_iff :
      (input : ToolInput)
      → (validate env max_tool_calls request context calls ≡ ok input) ↔ Allowed input
  validate_iff input = (validate-Allowed input, Allowed-validate input)
