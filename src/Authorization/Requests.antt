-- ===== src/Authorization/Requests.antt =====
-- internal/authorization/authorization.go: the checks on a request and on a decision, the policy
-- context of a request, and the decision made from a policy evaluation.
use Prim.Native.String.{len, ◌++◌}
use agenova.Prelude.{
  String, Bool, true, not, ◌&&◌, ◌||◌, List, [], ◌∷◌, Option, ◌>>◌, refuse_if, Comparable, ◌==◌,
  ◌!=◌, string_eq, ◌≡◌, ◌↔◌, ==_iff, arith,
}
use agenova.Prelude.Decimal.{decimal}
use agenova.Prelude.Texts.{is_blank}
use agenova.Api.{Decision, allow, deny, approval_required}
use agenova.Api.Equality.{principal_eq, action_eq, decision_eq}
use agenova.Api.Errors.{Check, required, invalid, require, require_all}
use agenova.Policy.{EvaluationContext, Evaluation, Reason, AuthorityConstraints}
use agenova.Policy.Equality.{context_equal}
use agenova.Authorization.{Request, BoundEvaluation, Admission}

abbrev pub assignment_create_action : String
assignment_create_action = "claim.create"

pub request_iff :
    (a b : Request)
    → ((a.request_ref == b.request_ref && a.principal == b.principal && a.action == b.action)
        ≡ true)
      ↔ (a ≡ b)
request_iff a b = ground (
  arith,
  ==_iff a.request_ref b.request_ref,
  ==_iff a.principal b.principal,
  ==_iff a.action b.action,
)

-- Go's == on requests.
instance abbrev pub request_eq : Comparable Request
request_eq = record {
  is_same =
      λ a b. a.request_ref == b.request_ref && a.principal == b.principal && a.action == b.action;
  is_same_iff = request_iff;
}

unfoldable pub validate : Request → Check
validate input = do
  require_all (
      ("requestRef", input.request_ref)
      ∷ ("principal.subject", input.principal.subject)
      ∷ ("principal.team", input.principal.team)
      ∷ ("principal.authenticationContext", input.principal.authentication_context)
      ∷ ("action.name", input.action.name)
      ∷ ("action.project", input.action.project)
      ∷ ("action.templateRef", input.action.template_ref)
      ∷ [])
  refuse_if (input.action.name != assignment_create_action)
      (invalid "action.name" "assignment admission only accepts claim.create")

unfoldable pub policy_context : Request → EvaluationContext
policy_context input = record {
  principal = record {
    subject = input.principal.subject;
    authentication_context = input.principal.authentication_context;
    attributes = record { name = "team"; values = input.principal.team ∷ [] } ∷ [];
  };
  action = input.action.name;
  resource = record {
    resource_type = "assignment";
    id = input.request_ref;
    attributes =
        record { name = "project"; values = input.action.project ∷ [] }
        ∷ record { name = "templateRef"; values = input.action.template_ref ∷ [] }
        ∷ [];
  };
  environment = [];
}

-- Evaluation.matches
unfoldable pub matches : BoundEvaluation → Request → Bool
unfolding policy_context context_equal
matches e input =
    e.request == input && context_equal e.policy_evaluation.context (policy_context input)

-- Admission.Matches
unfoldable pub admission_matches : Admission → String → String → String → Bool
admission_matches a request_ref project_ref template_ref =
    a.evaluation.decision.result == allow
    && a.evaluation.request.request_ref == request_ref
    && a.evaluation.request.action.name == assignment_create_action
    && a.evaluation.request.action.project == project_ref
    && a.evaluation.request.action.template_ref == template_ref

-- Admission.MatchesContext
unfoldable pub matches_context : Admission → Request → Decision → Bool
matches_context a input decision =
    a.evaluation.decision.result == allow
    && a.evaluation.request == input
    && a.evaluation.decision == decision

-- Admission.Constraints
unfoldable pub constraints : Admission → Option AuthorityConstraints
constraints a = a.evaluation.policy_evaluation.constraints

unfoldable pub validate_decision : Request → Decision → Check
validate_decision input decision = do
  require "decision.id" decision.id
  refuse_if (decision.principal_ref != input.principal.subject)
      (invalid "decision.principalRef" "must match the admitted principal")
  refuse_if (decision.action != input.action.name)
      (invalid "decision.action" "must match the admitted action")
  refuse_if
      (decision.result != allow && decision.result != deny && decision.result != approval_required)
      (invalid "decision.result" "must be Allow, Deny, or ApprovalRequired")
  refuse_if
      (is_blank decision.policy_ref.id && not (is_blank decision.policy_ref.version)
        || not (is_blank decision.policy_ref.id) && is_blank decision.policy_ref.version)
      (invalid "decision.policyRef" "ID and version must be provided together")
  refuse_if (decision.result == allow && is_blank decision.policy_ref.id)
      (required "decision.policyRef")
  require "decision.reason" decision.reason

-- `%d:` and the part, for each part.
abbrev pub payload : List String → String
payload [] = ""
payload (part ∷ parts) = decimal (len part) ++ ":" ++ part ++ payload parts

-- `hex` gives the first 16 bytes of the SHA-256 sum in hexadecimal.
unfoldable pub decision_id : (hex : String → String) → Request → Decision → String
decision_id hex input decision =
    "decision:"
    ++ input.request_ref
    ++ ":authorization:"
    ++ hex (
        payload (
          input.request_ref ∷ input.principal.subject ∷ input.principal.team
          ∷ input.principal.authentication_context ∷ input.action.name ∷ input.action.project
          ∷ input.action.template_ref ∷ decision.policy_ref.id ∷ decision.policy_ref.version
          ∷ decision.result ∷ decision.reason ∷ []))

abbrev pub first_message : List Reason → String
first_message [] = ""
first_message (reason ∷ reasons) = reason.message

-- The decision, before its ID is set.
abbrev pub unnamed_decision : Request → Evaluation → Decision
unnamed_decision input evaluation = record {
  id = "";
  principal_ref = input.principal.subject;
  action = input.action.name;
  result = evaluation.decision;
  policy_ref = evaluation.policy_ref;
  reason = first_message evaluation.reasons;
}

unfoldable pub complete_policy_evaluation :
    (hex : String → String) → Request → Evaluation → BoundEvaluation
unfolding decision_id
complete_policy_evaluation hex input evaluation =
    let decision = unnamed_decision input evaluation in
    record {
      request = input;
      policy_evaluation = evaluation;
      decision = record decision { id = decision_id hex input decision };
    }
