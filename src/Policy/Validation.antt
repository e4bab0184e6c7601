-- ===== src/Policy/Validation.antt =====
-- internal/policy/evaluator.go: ValidateEvaluation. The size of an evaluation's JSON encoding
-- (evaluationContentSize) comes from encoding/json, and is a parameter.
use Prim.Native.String.{len, ◌++◌}
use agenova.Prelude.{
  ℕ, suc, not, ◌&&◌, ◌||◌, List, [], ◌∷◌, Option, ok, ◌>>◌, refuse_if, ◌==◌, ◌!=◌, string_eq,
  nat_eq, ltb, length,
}
use agenova.Prelude.Texts.{is_blank}
use agenova.Prelude.Decimal.{decimal}
use agenova.Api.{PolicyReference, allow, deny, approval_required}
use agenova.Policy.{EvaluationContext, Evaluation, Reason, AuthorityConstraints, message, naming}
use agenova.Policy.Equality.{context_equal}
use agenova.Policy.Check.{Verdict, validate_context, validate_constraints}

-- The length of the JSON encoding of the evaluator's output.
abbrev pub ContentSize : Type 0
ContentSize = PolicyReference → List Reason → Option AuthorityConstraints → ℕ

-- The loop over the reasons.
reasons_from : ℕ → List Reason → Verdict
reasons_from i [] = ok tt
reasons_from i (reason ∷ reasons) = do
  refuse_if (is_blank reason.code || is_blank reason.message)
      (message ("evaluation reason " ++ decimal i ++ " requires code and message"))
  refuse_if (ltb 128 (len reason.code) || ltb 1024 (len reason.message))
      (message ("evaluation reason " ++ decimal i ++ " exceeds the evidence-safe limit"))
  reasons_from (suc i) reasons

-- What is demanded of the evaluator's own output.
unfoldable pub output_check : ContentSize → Evaluation → Verdict
unfolding reasons_from validate_constraints
output_check content_size evaluation = do
  refuse_if
      (evaluation.decision != allow
        && evaluation.decision != deny
        && evaluation.decision != approval_required)
      (naming "invalid evaluation decision" evaluation.decision)
  refuse_if (is_blank evaluation.policy_ref.id || is_blank evaluation.policy_ref.version)
      (message "evaluation requires a complete policy reference")
  refuse_if (ltb 128 (len evaluation.policy_ref.id) || ltb 64 (len evaluation.policy_ref.version))
      (message "evaluation policy reference exceeds the evidence-safe limit")
  refuse_if (ltb 16 (length evaluation.reasons)) (message "evaluation has too many reasons")
  refuse_if (length evaluation.reasons == 0) (message "evaluation requires at least one reason")
  reasons_from 0 evaluation.reasons
  validate_constraints evaluation.constraints
  refuse_if
      (ltb 16384 (content_size evaluation.policy_ref evaluation.reasons evaluation.constraints))
      (message "evaluation content exceeds the evidence-safe limit")

unfoldable pub validate_evaluation : ContentSize → EvaluationContext → Evaluation → Verdict
unfolding validate_context output_check
validate_evaluation content_size expected evaluation = do
  validate_context expected
  refuse_if (not (context_equal expected evaluation.context))
      (message "evaluation context does not match the trusted input")
  output_check content_size evaluation
