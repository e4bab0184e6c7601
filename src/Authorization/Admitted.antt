-- ===== src/Authorization/Admitted.antt =====
-- When the gate runs its continuation (internal/authorization/authorization.go, Admit).
use agenova.Prelude.{
  String, Bool, true, false, not, ◌&&◌, Option, none, some, Result, ok, err, refuse_if, ◌==◌, ◌!=◌,
  string_eq, ◌≡◌, ◌⊎◌, inl, inr, refl, ap, Bool-cases, ==_iff, >>=-eq-ok,
}
use agenova.Api.{Decision, allow}
use agenova.Api.Errors.{Check}
use agenova.Api.Equality.{principal_eq, action_eq}
use agenova.Policy.{PolicyError}
use agenova.Policy.Equality.{context_equal, context_equal_iff}
use agenova.Policy.Validation.{ContentSize, validate_evaluation}
use agenova.Authorization.{Request, BoundEvaluation, Admission}
use agenova.Authorization.Requests.{
  validate, request_eq, policy_context, matches, validate_decision,
}
use agenova.Authorization.Gate.{
  AdmitError, RequestEvaluator, Continuation, outcome, decided, evaluated, admit_if, admit,
  evaluation_check, or_refused, or_unusable,
}

-- What Admit has established of the evaluation when the continuation runs.
pub record IsAdmitted (content_size : ContentSize) (input : Request) (e : BoundEvaluation)
    : Type 0 where
  pub well_formed : validate input ≡ ok tt
  pub request : e.request ≡ input
  pub context : e.policy_evaluation.context ≡ policy_context input
  pub decision : validate_decision input e.decision ≡ ok tt
  pub evaluation :
      validate_evaluation content_size (policy_context input) e.policy_evaluation ≡ ok tt
  pub allowed : e.decision.result ≡ allow

-- Either the state is as it was, or the continuation ran, once, on an admitted evaluation.
abbrev pub RanOnce :
    {S : Type 0} → ContentSize → Option RequestEvaluator → Request → S → Continuation S → Type 0
RanOnce {S = S} content_size none input s k = (admit content_size none input s k).0 ≡ s
RanOnce {S = S} content_size (some evaluator) input s none =
    (admit content_size (some evaluator) input s none).0 ≡ s
RanOnce {S = S} content_size (some evaluator) input s (some on_allowed) =
    ((admit content_size (some evaluator) input s (some on_allowed)).0 ≡ s)
    ⊎ ((e : BoundEvaluation) × (evaluator input ≡ (e, none))
        × IsAdmitted content_size input e
        × (admit content_size (some evaluator) input s (some on_allowed)
            ≡ outcome e.decision (on_allowed s (record { evaluation = e }))))

or_refused-ok : (c : Result _ (Unit {0})) → or_refused c ≡ ok tt → c ≡ ok tt
or_refused-ok (ok u) h = refl
or_refused-ok (err e) h = cc h

or_unusable-ok : (c : Result PolicyError (Unit {0})) → or_unusable c ≡ ok tt → c ≡ ok tt
or_unusable-ok (ok u) h = refl
or_unusable-ok (err e) h = cc h

matches-same :
    (e : BoundEvaluation) (input : Request)
    → matches e input ≡ true
    → (e.request ≡ input) × (e.policy_evaluation.context ≡ policy_context input)
unfolding matches
matches-same e input h = elim (Bool-cases (e.request == input)) [
  | inl t ↦ (
    (==_iff e.request input).0 t,
    (context_equal_iff e.policy_evaluation.context (policy_context input)).0
        (cc (h, ap (λ b. b && context_equal e.policy_evaluation.context (policy_context input)) t)),
  )
  | inr f ↦
      absurd
        (cc (h, ap (λ b. b && context_equal e.policy_evaluation.context (policy_context input)) f))
]

not_refused :
    {E : Type 0} (b : Bool) (u : E)
    → ◌≡◌ {A = Result E Unit} (refuse_if (not b) u) (ok tt)
    → b ≡ true
not_refused true u h = refl
not_refused false u h = cc h

module _ (content_size : ContentSize) (input : Request) where
  evaluation_check-ok :
      (e : BoundEvaluation)
      → validate input ≡ ok tt
      → evaluation_check content_size input e ≡ ok tt
      → e.decision.result ≡ allow
      → IsAdmitted content_size input e
  unfolding evaluation_check
  evaluation_check-ok e v h a =
      let (u, m, rest) = >>=-eq-ok (refuse_if (not (matches e input)) _) h in
      let (w, d, last) = >>=-eq-ok (or_refused (validate_decision input e.decision)) rest in
      let (r, c) = matches-same e input (not_refused (matches e input) _ m) in
      record {
        well_formed = v;
        request = r;
        context = c;
        decision = or_refused-ok (validate_decision input e.decision) d;
        evaluation =
            or_unusable-ok
              (validate_evaluation content_size (policy_context input) e.policy_evaluation) last;
        allowed = a;
      }

  module _ {S : Type 0} (s : S) where
    no_evaluator :
        (k : Continuation S) (c : Result _ Unit) → (admit_if content_size none input s k c).0 ≡ s
    no_evaluator k (ok u) = refl
    no_evaluator k (err e) = refl

    undecided : (e : BoundEvaluation) (c : Result _ Unit) → (decided {S = S} s e none c).0 ≡ s
    undecided e (err x) = refl
    undecided e (ok u) = elim (Bool-cases (e.decision.result != allow)) [
      | inl t ↦ rw t refl
      | inr f ↦ rw f refl
    ]

    no_continuation :
        (r : BoundEvaluation × Option AdmitError) → (evaluated content_size input s none r).0 ≡ s
    no_continuation (e, none) = undecided e (evaluation_check content_size input e)
    no_continuation (e, some x) = refl

    not_continued :
        (evaluator : RequestEvaluator) (c : Result _ Unit)
        → (admit_if content_size (some evaluator) input s none c).0 ≡ s
    not_continued evaluator (ok u) = no_continuation (evaluator input)
    not_continued evaluator (err e) = refl

    module _ (evaluator : RequestEvaluator) (k : S → Admission → S × Option String) where
      -- What a stage of Admit comes to.
      abbrev Ran : S × Decision × Option AdmitError → Type 0
      Ran r =
          (r.0 ≡ s)
          ⊎ ((e : BoundEvaluation) × (evaluator input ≡ (e, none))
              × IsAdmitted content_size input e
              × (r ≡ outcome e.decision (k s (record { evaluation = e }))))

      decided-Ran :
          (e : BoundEvaluation) (c : Result AdmitError Unit)
          → validate input ≡ ok tt
          → evaluator input ≡ (e, none)
          → evaluation_check content_size input e ≡ c
          → Ran (decided s e (some k) c)
      decided-Ran e (err x) v r h = inl refl
      decided-Ran e (ok u) v r h = elim (Bool-cases (e.decision.result == allow)) [
        | inl t ↦
            rw t
              (inr (e, r, evaluation_check-ok e v h ((==_iff e.decision.result allow).0 t), refl))
        | inr f ↦ rw f (inl refl)
      ]

      evaluated-Ran :
          (r : BoundEvaluation × Option AdmitError)
          → validate input ≡ ok tt
          → evaluator input ≡ r
          → Ran (evaluated content_size input s (some k) r)
      evaluated-Ran (e, some x) v h = inl refl
      evaluated-Ran (e, none) v h = decided-Ran e (evaluation_check content_size input e) v h refl

      admit_if-Ran :
          (c : Check)
          → validate input ≡ c
          → Ran (admit_if content_size (some evaluator) input s (some k) c)
      admit_if-Ran (err e) v = inl refl
      admit_if-Ran (ok u) v = evaluated-Ran (evaluator input) v refl

-- Whatever the evaluator and the continuation, Admit leaves the state as it was, or it ran the
-- continuation once, on an evaluation that the evaluator gave for exactly this request without an
-- error, that passed every check, and whose decision is Allow; its result is then the continuation's.
pub admit-RanOnce :
    {S : Type 0} (content_size : ContentSize) (evaluator : Option RequestEvaluator)
    (input : Request) (s : S) (k : Continuation S)
    → RanOnce content_size evaluator input s k
unfolding admit
admit-RanOnce content_size none input s k = no_evaluator content_size input s k (validate input)
admit-RanOnce content_size (some evaluator) input s none =
    not_continued content_size input s evaluator (validate input)
admit-RanOnce content_size (some evaluator) input s (some k) =
    admit_if-Ran content_size input s evaluator k (validate input) refl
