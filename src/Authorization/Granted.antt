-- ===== src/Authorization/Granted.antt =====
-- The gate over the reference policy: internal/authorization/authorization.go with the evaluator and
-- the loader of internal/policy.
use agenova.Prelude.{
  String, List, Option, none, some, Result, ok, err, string_eq, ◌≡◌, ◌⊎◌, inl, inr, refl, sym, ap,
  ◌∙◌, false_ne,
}
use mathlib.Core.List.{Memᴰ}
use agenova.Api.{allow}
use agenova.Policy.{PolicyBundle, Evaluation, PolicyError, Rule}
use agenova.Policy.Bundle.{evaluate, single_attribute, new_loader, snapshot}
use agenova.Policy.Grants.{Matches, evaluate-Granted}
use agenova.Policy.Loading.{load_all, snapshot-evaluate}
use agenova.Policy.Validation.{ContentSize}
use agenova.Authorization.{Request, BoundEvaluation, Admission}
use agenova.Authorization.Requests.{
  validate, policy_context, constraints, complete_policy_evaluation,
}
use agenova.Authorization.Gate.{authorize, evaluate_if, completed, outcome, admit, AdmitError}
use agenova.Authorization.Admitted.{IsAdmitted, admit-RanOnce}

-- A rule of the bundle for exactly this request.
pub record IsRuleFor (b : PolicyBundle) (input : Request) (r : Rule) : Type 0 where
  pub member : Memᴰ r b.rules
  pub team : r.team ≡ input.principal.team
  pub action : r.action ≡ input.action.name
  pub project : r.project ≡ input.action.project
  pub template_ref : r.template_ref ≡ input.action.template_ref
  pub subject : (r.subject ≡ "") ⊎ (r.subject ≡ input.principal.subject)

some_injective {ℓ} : {A : Type ℓ} (a b : A) → ◌≡◌ {A = Option A} (some a) (some b) → a ≡ b
some_injective a b h = cc h

Matches-request :
    (b : PolicyBundle) (input : Request) (r : Rule)
    → Memᴰ r b.rules
    → Matches (policy_context input) r
    → IsRuleFor b input r
unfolding policy_context single_attribute
Matches-request b input r member m = record {
  member = member;
  team = some_injective _ _ (sym m.team);
  action = m.action;
  project = some_injective _ _ (sym m.project);
  template_ref = some_injective _ _ (sym m.template_ref);
  subject = m.subject;
}

-- The rule that an allowing evaluation carries the caps of.
abbrev pub Permitted : PolicyBundle → Request → BoundEvaluation → Type 0
Permitted b input e =
    (r : Rule) × IsRuleFor b input r × (constraints (record { evaluation = e }) ≡ r.constraints)

completed-Permitted :
    (b : PolicyBundle) (hex : String → String) (input : Request) (e : BoundEvaluation)
    (made : Result PolicyError Evaluation)
    → evaluate b (policy_context input) ≡ made
    → completed hex input made ≡ (e, none)
    → e.decision.result ≡ allow
    → Permitted b input e
unfolding constraints complete_policy_evaluation
completed-Permitted b hex input e (err x) m h a =
    absurd (cc (ap (λ (p : BoundEvaluation × Option AdmitError). p.1) h))
completed-Permitted b hex input e (ok v) m h a =
    let same : complete_policy_evaluation hex input v ≡ e =
      ap (λ (p : BoundEvaluation × Option AdmitError). p.0) h in
    let allowed : v.decision ≡ allow = ap (λ (e : BoundEvaluation). e.decision.result) same ∙ a in
    elim (evaluate-Granted b (policy_context input) v m).2 [
      | inl (r, member, matched, _, caps, _) ↦ (
        r,
        Matches-request b input r member matched,
        sym (ap (λ (e : BoundEvaluation). e.policy_evaluation.constraints) same) ∙ caps,
      )
      | inr (denied, _, _) ↦
          absurd (false_ne {A = String} "Deny" "Allow" refl (sym denied ∙ allowed))
    ]

authorize-Permitted :
    (b : PolicyBundle) (hex : String → String) (input : Request) (e : BoundEvaluation)
    → validate input ≡ ok tt
    → authorize hex (some (evaluate b)) input ≡ (e, none)
    → e.decision.result ≡ allow
    → Permitted b input e
unfolding authorize
authorize-Permitted b hex input e v h a =
    completed-Permitted b hex input e (evaluate b (policy_context input)) refl
      (sym (ap (evaluate_if hex (some (evaluate b)) input) v) ∙ h) a

-- With the authorizer over a loader whose current bundle is `b`, Admit leaves the state as it was, or
-- the continuation ran once, on an Allow for this request, and `b` has a rule for the request's team,
-- action, project and template, and for its subject or for any, whose caps are those of the admission.
pub admit-Permitted :
    {S : Type 0} (bundles : List PolicyBundle) (b : PolicyBundle) (hex : String → String)
    (content_size : ContentSize) (input : Request) (s : S) (k : S → Admission → S × Option String)
    → (load_all new_loader bundles).current ≡ some b
    → let r =
        admit content_size
          (some (authorize hex (snapshot (load_all new_loader bundles))))
          input
          s
          (some k) in
      (r.0 ≡ s)
      ⊎ ((e : BoundEvaluation) × IsAdmitted content_size input e
          × Permitted b input e
          × (r ≡ outcome e.decision (k s (record { evaluation = e }))))
admit-Permitted bundles b hex content_size input s k h =
    let l = load_all new_loader bundles in
    elim (admit-RanOnce content_size (some (authorize hex (snapshot l))) input s (some k)) [
      | inl same ↦ inl same
      | inr (e, given, admitted, ran) ↦ inr (
        e,
        admitted,
        authorize-Permitted b hex input e admitted.well_formed
            (sym (ap (λ o. authorize hex o input) (snapshot-evaluate bundles b h)) ∙ given)
            admitted.allowed,
        ran,
      )
    ]
