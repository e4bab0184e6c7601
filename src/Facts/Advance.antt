-- ===== src/Facts/Advance.antt =====
-- internal/facts/journal.go: the stages of an invocation that `append` goes through with a fact.
use agenova.Prelude.{
  String, Bool, true, not, ◌&&◌, ◌||◌, Option, none, some, Result, ok, ◌>>=◌, ◌>>◌, refuse_if, ◌==◌,
  ◌!=◌, string_eq, nat_eq, if◌then◌else◌,
}
use agenova.Prelude.Int.{int_eq}
use agenova.Api.{PolicyReference}
use agenova.Api.Equality.{policy_reference_eq, backend_identity_eq}
use agenova.Facts.{Fact, InvocationState, valid_decision}
use agenova.Facts.Reference.{valid_result_ref}

abbrev pub is_decision : Fact → Bool
is_decision f = f.kind == "ModelDecision" || f.kind == "ToolDecision"

abbrev pub is_attempt : Fact → Bool
is_attempt f = f.kind == "ProviderAttempt"

abbrev pub is_outcome : Fact → Bool
is_outcome f = f.kind == "ProviderOutcome"

-- PolicyRef == nil || PolicyRef.ID == "" || PolicyRef.Version == ""
abbrev pub incomplete : Option PolicyReference → Bool
incomplete none = true
incomplete (some p) = p.id == "" || p.version == ""

unfoldable pub decision_stage : Fact → InvocationState → Result String InvocationState
unfolding valid_decision
decision_stage f stage =
    if is_decision f
    then (do
      refuse_if
          (f.invocation_id == ""
            || not (valid_decision f.result)
            || f.reason_code == ""
            || incomplete f.policy_ref
            || stage.result != "")
          "invocation decision is incomplete or already recorded"
      ok (record stage { result = f.result }))
    else ok stage

unfoldable pub attempt_stage : Fact → InvocationState → Result String InvocationState
attempt_stage f stage =
    if is_attempt f
    then (do
      refuse_if (f.invocation_id == "" || stage.result != "Allow" || stage.attempted)
          "provider attempt requires one recorded Allow"
      ok (record stage { attempted = true }))
    else ok stage

-- Whether the fact is the outcome of a tool call that succeeded.
abbrev pub is_tool_success : Fact → Bool
is_tool_success f =
    f.kind == "ProviderOutcome" && f.operation == "tool.invoke" && f.provider_status == "Succeeded"

unfoldable pub result_check : Fact → Result String (Unit {0})
unfolding valid_result_ref
result_check f = do
  refuse_if (f.result_ref != "" && (not (is_tool_success f) || not (valid_result_ref f.result_ref)))
      "result reference is only valid on a successful tool outcome"
  refuse_if (f.truncated && not (is_tool_success f))
      "truncation is only valid on a successful tool outcome"

unfoldable pub outcome_stage : Fact → InvocationState → Result String InvocationState
outcome_stage f stage =
    if is_outcome f
    then (do
      refuse_if
          (f.invocation_id == ""
            || not stage.attempted
            || stage.completed
            || f.provider_status != "Succeeded"
              && f.provider_status != "Failed"
              && f.provider_status != "Cancelled")
          "provider outcome requires one correlated attempt"
      ok (record stage { completed = true }))
    else ok stage

-- From `stage := j.invocationStates[...]` to the last guard on it.
unfoldable pub stages : Fact → InvocationState → Result String InvocationState
unfolding decision_stage attempt_stage result_check outcome_stage
stages f stage = do
  decided ← decision_stage f stage
  attempted ← attempt_stage f decided
  result_check f
  outcome_stage f attempted
