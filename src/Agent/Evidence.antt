-- ===== src/Agent/Evidence.antt =====
-- Evidence of an execution: which required tools have run, the references and the chunks that
-- their results hold, and the signature of a call (static methods of `ControlledAgentWorkflow`).
pub mod Gathered
use ai_support_engineering_p.Agent.Env.{Env}
use ai_support_engineering_p.Agent.Models.{ToolResult}
use ai_support_engineering_p.Agent.Sanitization.{sanitize_value}
use ai_support_engineering_p.Common.{
  Bool, List, Option, String, Text, [], any, codes, false, fromkeys, if◌then◌else◌, keep, map, none,
  not, some, take, text_eq, true, ℕ, ◌&&◌, ◌++◌, ◌==◌, ◌∷◌,
}
use ai_support_engineering_p.Db.{
  AgentStepRecord, EvidenceReference, EvidenceType, SourceCitation, StepOutcome,
}
use ai_support_engineering_p.Db.Json.{
  Fields, Items, Value, array, cons, end, field, nil, null, object,
}
use text.Mathlib.Text.{◌==◌ as str_eq}

abbrev pub is_succeeded : StepOutcome → Bool
is_succeeded StepOutcome.succeeded = true
is_succeeded _ = false

abbrev pub names_tool : String → Option String → Bool
names_tool name none = false
names_tool name (some n) = str_eq n name

-- `step.outcome == "succeeded" and step.tool_name == name`.
abbrev pub succeeded_with : String → AgentStepRecord → Bool
succeeded_with name r = is_succeeded r.outcome && names_tool name r.tool_name

abbrev pub has_called : String → List AgentStepRecord → Bool
has_called name steps = any (succeeded_with name) steps

unfoldable pub missing_required_evidence : List AgentStepRecord → List String
missing_required_evidence steps =
    keep (λ name. not (has_called name steps)) ("get_incident" ∷ "retrieve_runbooks" ∷ [])

-- The names of the tools of succeeded steps, without repetition, in the order of the first call.
abbrev pub tool_of : AgentStepRecord → List String
tool_of r = elim r.tool_name [
  | none ↦ []
  | some name ↦ if is_succeeded r.outcome then name ∷ [] else []
]

called_names : List AgentStepRecord → List String
called_names [] = []
called_names (r ∷ steps) = tool_of r ++ called_names steps

unfoldable pub actual_tools : List AgentStepRecord → List String
unfolding called_names
actual_tools steps = fromkeys str_eq (called_names steps)

-- `_signature`: the tool's name and the JSON of its sanitized arguments, cut at 30,000 characters.
unfoldable pub signature : Env → String → Value → Text
signature env name arguments =
    codes name ++ codes ":" ++ take 30000 (env.dumps (sanitize_value env 0 arguments))

abbrev pub evidence_type_eq : EvidenceType → EvidenceType → Bool
evidence_type_eq EvidenceType.incident EvidenceType.incident = true
evidence_type_eq EvidenceType.runbook EvidenceType.runbook = true
evidence_type_eq EvidenceType.similar_incident EvidenceType.similar_incident = true
evidence_type_eq EvidenceType.resolution EvidenceType.resolution = true
evidence_type_eq _ _ = false

abbrev pub source_eq : Option String → Option String → Bool
source_eq none none = true
source_eq (some a) (some b) = str_eq a b
source_eq _ _ = false

abbrev pub chunk_eq : Option ℕ → Option ℕ → Bool
chunk_eq none none = true
chunk_eq (some a) (some b) = a == b
chunk_eq _ _ = false

-- The key of `_evidence_references` is every field of a reference.
unfoldable pub reference_eq : EvidenceReference → EvidenceReference → Bool
reference_eq a b =
    evidence_type_eq a.evidence_type b.evidence_type
    && text_eq a.reference_id b.reference_id
    && source_eq a.source_id b.source_id
    && chunk_eq a.chunk_id b.chunk_id

abbrev pub all_references : List (ℕ × ToolResult) → List EvidenceReference
all_references [] = []
all_references ((n, result) ∷ results) = result.evidence_references ++ all_references results

unfoldable pub evidence_references : List (ℕ × ToolResult) → List EvidenceReference
evidence_references results = fromkeys reference_eq (all_references results)

abbrev pub is_runbook : EvidenceReference → Bool
is_runbook r = evidence_type_eq r.evidence_type EvidenceType.runbook

-- The citations offered to the model: runbook references with both parts (`chunk_id` is positive).
abbrev pub citation_of : EvidenceReference → List SourceCitation
citation_of r = elim r.source_id [
  | none ↦ []
  | some s ↦ elim r.chunk_id [
    | none ↦ []
    | some c ↦
        if is_runbook r && not (str_eq s "") && not (c == 0)
        then record { source_id = s; chunk_id = c } ∷ []
        else []
  ]
]

unfoldable pub citations : List EvidenceReference → List SourceCitation
citations [] = []
citations (r ∷ references) = citation_of r ++ citations references

-- `item.get(key)`; `none` is a missing key or JSON's null.
abbrev pub present : Value → Option Value
present null = none
present v = some v

unfoldable pub get_field : Text → Fields → Option Value
get_field key end = none
get_field key (field k v rest) = if text_eq k key then present v else get_field key rest

module _ (env : Env) where
  abbrev pub same_chunk : ((Value × Value) × Value) → ((Value × Value) × Value) → Bool
  same_chunk a b = env.same_key a.0 b.0

  -- `chunks[key] = item`: a later item takes the place of an earlier one with its key.
  unfoldable pub put_chunk :
      (Value × Value) × Value → List ((Value × Value) × Value) → List ((Value × Value) × Value)
  put_chunk entry [] = entry ∷ []
  put_chunk entry (e ∷ chunks) =
      if same_chunk e entry then (e.0, entry.1) ∷ chunks else e ∷ put_chunk entry chunks

  abbrev pub put_item : Value → List ((Value × Value) × Value) → List ((Value × Value) × Value)
  put_item (object fields) chunks = elim (get_field (codes "source_id") fields) [
    | none ↦ chunks
    | some s ↦ elim (get_field (codes "chunk_id") fields) [
      | none ↦ chunks
      | some c ↦ put_chunk ((s, c), object fields) chunks
    ]
  ]
  put_item _ chunks = chunks

  pub put_items : Items → List ((Value × Value) × Value) → List ((Value × Value) × Value)
  put_items nil chunks = chunks
  put_items (cons v rest) chunks = put_items rest (put_item v chunks)

  abbrev pub put_raw :
      Option Value → List ((Value × Value) × Value) → List ((Value × Value) × Value)
  put_raw (some (array items)) chunks = put_items items chunks
  put_raw _ chunks = chunks

  gather : List (ℕ × ToolResult) → List ((Value × Value) × Value) → List ((Value × Value) × Value)
  gather [] chunks = chunks
  gather ((n, result) ∷ results) chunks =
      gather results (put_raw (get_field (codes "chunks") result.contents) chunks)

  unfoldable pub retrieved_context : List (ℕ × ToolResult) → List Value
  unfolding put_items gather
  retrieved_context results = map (λ e. e.1) (gather results [])
