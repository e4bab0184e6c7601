-- ===== src/Authorization/Gate.antt =====
-- internal/authorization/authorization.go: Authorizer.Evaluate and Gate.Admit. The continuation may
-- change the state `S` of the rest of the program, and fail.
use agenova.Prelude.{
  String, not, [], Option, none, some, Result, ok, err, ◌>>◌, refuse_if, ◌!=◌, string_eq,
  if◌then◌else◌,
}
use agenova.Api.{Principal, Decision, allow}
use agenova.Api.Errors.{Check, ValidationError, required, invalid}
use agenova.Policy.{Evaluation, PolicyError}
use agenova.Policy.Bundle.{Evaluator}
use agenova.Policy.Validation.{ContentSize, validate_evaluation}
use agenova.Authorization.{Request, BoundEvaluation, Admission}
use agenova.Authorization.Requests.{
  validate, policy_context, matches, validate_decision, complete_policy_evaluation,
}

-- The error of a check of the request, of the policy evaluator, or of the continuation. `unusable` is
-- the invalid evaluation, with the policy error whose text it repeats.
pub data AdmitError : Type 0 where
  refused : ValidationError → AdmitError
  failed : PolicyError → AdmitError
  unusable : PolicyError → AdmitError
  downstream : String → AdmitError

-- An evaluator of assignments, behind its interface: its evaluation is kept on an error too.
abbrev pub RequestEvaluator : Type 0
RequestEvaluator = Request → BoundEvaluation × Option AdmitError

-- `Decision{}`
abbrev pub zero_decision : Decision
zero_decision = record {
  id = "";
  principal_ref = "";
  action = "";
  result = "";
  policy_ref = record { id = ""; version = "" };
  reason = "";
}

-- `Evaluation{}`
abbrev pub zero_evaluation : BoundEvaluation
zero_evaluation =
    let nobody : Principal = record { subject = ""; team = ""; authentication_context = "" } in
    record {
      request = record {
        request_ref = "";
        principal = nobody;
        action = record { name = ""; project = ""; template_ref = "" };
      };
      policy_evaluation = record {
        context = record {
          principal = record { subject = ""; authentication_context = ""; attributes = [] };
          action = "";
          resource = record { resource_type = ""; id = ""; attributes = [] };
          environment = [];
        };
        decision = "";
        policy_ref = record { id = ""; version = "" };
        reasons = [];
        constraints = none;
      };
      decision = zero_decision;
    }

abbrev pub completed :
    (String → String)
    → Request
    → Result PolicyError Evaluation
    → BoundEvaluation × Option AdmitError
completed hex input (err e) = (zero_evaluation, some (failed e))
completed hex input (ok evaluation) = (complete_policy_evaluation hex input evaluation, none)

abbrev pub evaluate_with :
    (String → String) → Request → Option Evaluator → BoundEvaluation × Option AdmitError
evaluate_with hex input none = (zero_evaluation, some (refused (required "evaluator.snapshot")))
evaluate_with hex input (some evaluator) = completed hex input (evaluator (policy_context input))

abbrev pub evaluate_if :
    (String → String) → Option Evaluator → Request → Check → BoundEvaluation × Option AdmitError
evaluate_if hex snapshot input (err e) = (zero_evaluation, some (refused e))
evaluate_if hex snapshot input (ok u) = evaluate_with hex input snapshot

-- Authorizer.Evaluate, with what its snapshot source gives: none is no source or no snapshot.
unfoldable pub authorize : (hex : String → String) → Option Evaluator → RequestEvaluator
unfolding validate policy_context complete_policy_evaluation
authorize hex snapshot input = evaluate_if hex snapshot input (validate input)

abbrev pub or_refused : Check → Result AdmitError (Unit {0})
or_refused (ok u) = ok tt
or_refused (err e) = err (refused e)

abbrev pub or_unusable : Result PolicyError (Unit {0}) → Result AdmitError (Unit {0})
or_unusable (ok u) = ok tt
or_unusable (err e) = err (unusable e)

-- What Admit demands of an evaluation that came without an error.
unfoldable pub evaluation_check :
    ContentSize → Request → BoundEvaluation → Result AdmitError (Unit {0})
unfolding matches validate_decision validate_evaluation policy_context
evaluation_check content_size input e = do
  refuse_if (not (matches e input))
      (refused (invalid "evaluation.request" "must match the request evaluated for this decision"))
  or_refused (validate_decision input e.decision)
  or_unusable (validate_evaluation content_size (policy_context input) e.policy_evaluation)

-- onAllowed, or nil.
abbrev pub Continuation : Type 0 → Type 0
Continuation S = Option (S → Admission → S × Option String)

module _ {S : Type 0} where
  abbrev pub outcome : Decision → S × Option String → S × Decision × Option AdmitError
  outcome decision (s, none) = (s, decision, none)
  outcome decision (s, some e) = (s, decision, some (downstream e))

  abbrev pub continued : S → BoundEvaluation → Continuation S → S × Decision × Option AdmitError
  continued s e none = (s, e.decision, some (refused (required "onAllowed")))
  continued s e (some on_allowed) = outcome e.decision (on_allowed s (record { evaluation = e }))

  abbrev pub decided :
      S
      → BoundEvaluation
      → Continuation S
      → Result AdmitError (Unit {0})
      → S × Decision × Option AdmitError
  decided s e k (err error) = (s, e.decision, some error)
  decided s e k (ok u) =
      if e.decision.result != allow then (s, e.decision, none) else continued s e k

  abbrev pub evaluated :
      ContentSize
      → Request
      → S
      → Continuation S
      → BoundEvaluation × Option AdmitError
      → S × Decision × Option AdmitError
  evaluated content_size input s k (e, some error) = (s, e.decision, some error)
  evaluated content_size input s k (e, none) = decided s e k (evaluation_check content_size input e)

  abbrev pub admit_with :
      ContentSize
      → Option RequestEvaluator
      → Request
      → S
      → Continuation S
      → S × Decision × Option AdmitError
  admit_with content_size none input s k = (s, zero_decision, some (refused (required "evaluator")))
  admit_with content_size (some evaluator) input s k =
      evaluated content_size input s k (evaluator input)

  abbrev pub admit_if :
      ContentSize
      → Option RequestEvaluator
      → Request
      → S
      → Continuation S
      → Check
      → S × Decision × Option AdmitError
  admit_if content_size evaluator input s k (err e) = (s, zero_decision, some (refused e))
  admit_if content_size evaluator input s k (ok u) = admit_with content_size evaluator input s k

  -- Gate.Admit
  unfoldable pub admit :
      ContentSize
      → Option RequestEvaluator
      → Request
      → S
      → Continuation S
      → S × Decision × Option AdmitError
  unfolding validate evaluation_check
  admit content_size evaluator input s k =
      admit_if content_size evaluator input s k (validate input)
