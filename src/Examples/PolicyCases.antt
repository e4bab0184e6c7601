-- ===== src/Examples/PolicyCases.antt =====
-- A bundle, a loader, the gate and a resolution (internal/policy, authorization and authority).
use agenova.Prelude.{ℕ, String, true, [], ◌∷◌, Option, some, none, ok, ◌≡◌, ◌⊎◌, refl, string_eq}
use agenova.Prelude.Int.{pos}
use agenova.Prelude.Texts.{is_blank}
use agenova.Api.{EffectiveAuthority, allow}
use agenova.Api.TaskInput.{no_fields, validate_task_input_value}
use agenova.Api.Requests.{ClaimRequest, validate_claim_request}
use agenova.Api.Templates.{AgentTemplate}
use agenova.Api.Guide.{validate_access_guide}
use agenova.Api.TemplateCheck.{validate_agent_template}
use agenova.Policy.{AuthorityConstraints, Rule, PolicyBundle, Evaluation}
use agenova.Policy.Bundle.{
  new_loader, load, validate, evaluate, match_of, best_match, single_attribute, snapshot,
  new_reference_evaluator,
}
use agenova.Prelude.Decimal.{decimal}
use agenova.Policy.Equality.{context_equal}
use agenova.Policy.Check.{validate_context, validate_constraints, validate_attributes}
use agenova.Policy.Validation.{ContentSize, validate_evaluation, output_check}
use agenova.Policy.Grants.{Granted, Refused, evaluate-Granted}
use agenova.Policy.Loading.{load_all, load_all-immutable}
use agenova.Authorization.{Request, BoundEvaluation, Admission}
use agenova.Authorization.Requests.{
  matches, validate_decision, complete_policy_evaluation, decision_id, policy_context,
  admission_matches, constraints,
}
use agenova.Authorization.Gate.{authorize, admit, outcome, evaluation_check}
use agenova.Authorization.Admitted.{IsAdmitted, RanOnce, admit-RanOnce}
use agenova.Authorization.Granted.{Permitted, admit-Permitted}
use agenova.Authority.{
  exact_intersection, apply_set_cap, resource_intersection, validate_scope_ceiling,
}
use agenova.Authority.Resolve.{resolve, resolve_dimensions}
use agenova.Authority.Bounded.{Limiting, resolve-IsBounded}

abbrev pub caps : AuthorityConstraints
caps = record {
  max_model_calls = some (pos 4);
  tools = some ("shell" ∷ []);
  resource_scopes = none;
  model_profiles = none;
  memory_scopes = none;
  runtime_profiles = none;
  network_profiles = some ("public-web" ∷ []);
  max_timeout = some (pos 30);
}

abbrev rule : Rule
rule = record {
  subject = "";
  team = "team-a";
  action = "claim.create";
  project = "payments";
  template_ref = "engineer";
  constraints = none;
}

abbrev alice_rule : Rule
alice_rule = record rule { subject = "alice"; constraints = some caps }

abbrev bundle : PolicyBundle
bundle = record { id = "reference"; version = "1"; rules = rule ∷ alice_rule ∷ [] }

abbrev next_bundle : PolicyBundle
next_bundle = record bundle { version = "2"; rules = rule ∷ [] }

-- Its content may not change.
abbrev changed_bundle : PolicyBundle
changed_bundle = record bundle { rules = [] }

abbrev pub request : Request
request = record {
  request_ref = "request-1";
  principal = record { subject = "alice"; team = "team-a"; authentication_context = "oidc" };
  action = record { name = "claim.create"; project = "payments"; template_ref = "engineer" };
}

abbrev pub evaluation : Evaluation
evaluation = record {
  context = policy_context request;
  decision = allow;
  policy_ref = record { id = "reference"; version = "1" };
  reasons =
      record {
        code = "reference-exact-match";
        message = "exact policy rule matched the trusted principal and requested assignment";
      }
      ∷ [];
  constraints = some caps;
}

opened : Unit {0}
unfolding load validate evaluate match_of policy_context validate_context single_attribute
    best_match validate_constraints validate_attributes is_blank
opened = tt

evaluated : evaluate bundle (policy_context request) ≡ ok evaluation
unfolding opened
evaluated = refl

evaluate-Granted_example :
    (evaluation.context ≡ policy_context request)
    × (evaluation.policy_ref ≡ record { id = "reference"; version = "1" })
    × (Granted bundle (policy_context request) evaluation
        ⊎ Refused bundle (policy_context request) evaluation)
evaluate-Granted_example = evaluate-Granted bundle (policy_context request) evaluation evaluated

loaded : (load_all new_loader (bundle ∷ [])).current ≡ some bundle
unfolding opened
loaded = refl

reloaded :
    (load_all
      (load_all new_loader (bundle ∷ []))
      (next_bundle ∷ changed_bundle ∷ bundle ∷ [])).current
    ≡ some bundle
unfolding opened
reloaded = refl

-- A changed bundle of a known identity is refused, and the one before it stays current.
unchanged :
    (load_all (load_all new_loader (bundle ∷ [])) (next_bundle ∷ changed_bundle ∷ [])).current
    ≡ some next_bundle
unfolding opened
unchanged = refl

load_all-immutable_example : bundle.rules ≡ bundle.rules
load_all-immutable_example =
    load_all-immutable (bundle ∷ []) (next_bundle ∷ changed_bundle ∷ bundle ∷ []) bundle bundle
      loaded reloaded refl refl

-- A digest and a size that the tests need no more of.
abbrev pub hex : String → String
hex payload = "00"

abbrev size : ContentSize
size policy_ref reasons constraints = 100

-- The continuation counts how often it runs.
abbrev counting : ℕ → Admission → ℕ × Option String
counting n admission = (ℕ.suc n, none)

admit-RanOnce_example :
    RanOnce size (some (authorize hex (some (evaluate bundle)))) request 0 (some counting)
admit-RanOnce_example =
    admit-RanOnce size (some (authorize hex (some (evaluate bundle)))) request 0 (some counting)

admit-Permitted_example :
    let r =
      admit size
        (some (authorize hex (snapshot (load_all new_loader (bundle ∷ [])))))
        request
        0
        (some counting) in
    (r.0 ≡ 0)
    ⊎ ((e : BoundEvaluation) × IsAdmitted size request e
        × Permitted bundle request e
        × (r ≡ outcome e.decision (counting 0 (record { evaluation = e }))))
admit-Permitted_example = admit-Permitted (bundle ∷ []) bundle hex size request 0 counting loaded

-- What has to be opened to run the gate.
gate_opened : Unit {0}
unfolding admit authorize opened snapshot new_reference_evaluator context_equal validate_evaluation
    output_check validate_decision matches evaluation_check complete_policy_evaluation decision_id
    decimal
gate_opened = tt

continued_once :
    (admit size
      (some (authorize hex (snapshot (load_all new_loader (bundle ∷ [])))))
      request
      0
      (some counting)).0
    ≡ 1
unfolding gate_opened
continued_once = refl

-- Nobody of another team is admitted.
not_continued :
    (admit size
      (some (authorize hex (snapshot (load_all new_loader (bundle ∷ [])))))
      (record request {
        principal = record { subject = "bob"; team = "team-b"; authentication_context = "oidc" };
      })
      0
      (some counting)).0
    ≡ 0
unfolding gate_opened
not_continued = refl

abbrev pub claim_request : ClaimRequest
claim_request = record {
  api_version = "agenova.io/v1alpha1";
  kind = "ClaimRequest";
  name = "request-1";
  spec = record {
    template_ref = "engineer";
    project_ref = "payments";
    task = some (record { task_type = ""; input = no_fields });
    requested_access = record {
      tools = "shell" ∷ "browser" ∷ [];
      resource_scopes = "repo:pay" ∷ [];
      model_profile = "small";
      memory_scopes = [];
      network_profiles = "public-web" ∷ [];
    };
    runtime =
        some (record { max_model_calls = none; profile_ref = "sandbox"; timeout = some (pos 60) });
  };
}

abbrev pub template : AgentTemplate
template = record {
  api_version = "agenova.io/v1alpha1";
  kind = "AgentTemplate";
  name = "engineer";
  spec = record {
    access_guide = none;
    artifact = some "image";
    entrypoint = some (record { protocol = ""; command = "run" ∷ [] });
    defaults = record { model_profile = "small"; memory_scopes = [] };
    capability_ceiling = some (record {
      max_model_calls = none;
      tools = "shell" ∷ "browser" ∷ "editor" ∷ [];
      resource_scopes = "repo:*" ∷ [];
      model_profiles = "small" ∷ [];
      memory_scopes = [];
      runtime_profiles = "sandbox" ∷ [];
      network_profiles = "public-web" ∷ [];
      max_timeout = some (pos 45);
    });
  };
}

abbrev pub admission : Admission
admission = record {
  evaluation = record {
    request = request;
    policy_evaluation = evaluation;
    decision = record {
      id = "decision-1";
      principal_ref = "alice";
      action = "claim.create";
      result = allow;
      policy_ref = record { id = "reference"; version = "1" };
      reason = "matched";
    };
  };
}

-- The cap takes the browser away and shortens the timeout and the calls.
abbrev pub resolved : EffectiveAuthority
resolved = record {
  id = "";
  tools = "shell" ∷ [];
  resource_scopes = "repo:pay" ∷ [];
  model_profile = "small";
  memory_scopes = [];
  network_profiles = "public-web" ∷ [];
  runtime = record { max_model_calls = pos 4; profile_ref = "sandbox"; timeout = pos 30 };
}

pub resolves : resolve claim_request template admission ≡ ok resolved
unfolding resolve resolve_dimensions validate_claim_request validate_agent_template
    validate_access_guide admission_matches constraints validate_scope_ceiling resource_intersection
    apply_set_cap exact_intersection is_blank validate_task_input_value
resolves = refl

resolve-IsBounded_example :
    (validate_claim_request (some claim_request) ≡ ok tt)
    × (validate_agent_template (some template) ≡ ok tt)
    × (admission_matches admission "request-1" "payments" "engineer" ≡ true)
    × Limiting claim_request template admission resolved
resolve-IsBounded_example = resolve-IsBounded claim_request template admission resolved resolves
