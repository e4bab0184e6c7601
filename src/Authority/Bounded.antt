-- ===== src/Authority/Bounded.antt =====
-- No resolved authority is wider than the request, the template's ceiling and the caps of the admission
-- (internal/authority/resolver.go, Resolve).
use agenova.Prelude.{
  true, not, Option, none, some, ok, refuse_if, ◌!=◌, string_eq, ◌≡◌, refl, sym, arith, >>=-eq-ok,
  ok_injective, subst,
}
use agenova.Prelude.Int.{ℤ, int_eq}
use agenova.Api.{EffectiveAuthority}
use agenova.Api.Requests.{
  ClaimRequest, ClaimRequestedAccess, ClaimRuntimeRequirements, validate_claim_request,
}
use agenova.Api.Templates.{AgentTemplate, AgentTemplateCapabilityCeiling}
use agenova.Api.TemplateCheck.{validate_agent_template}
use agenova.Policy.{AuthorityConstraints}
use agenova.Authorization.{Admission}
use agenova.Authorization.Requests.{admission_matches, constraints}
use agenova.Authority.{resource_intersection, validate_scope_ceiling}
use agenova.Authority.Resolve.{
  cap_set, cap_of, lowered, or_default, resolved_calls, timeout_ceiling, network_check, model_check,
  profile_check, not_emptied, caps_check, tools_of, resolve_dimensions, with_timeout, with_pointers,
  resolve,
}
use agenova.Authority.Intersection.{exact_intersection-Limited, resource_intersection-Limited}
use agenova.Authority.Limits.{
  Limits, IsBounded, AtMost, CeilingOf, CallsUnder, CallsAsked, passed, network_check-All,
  model_check-ok, profile_check-ok, leb_ℤ-trans, lowered-le, lowered-AtMost,
  timeout_ceiling-CeilingOf, resolved_calls-CallsUnder, resolved_calls-CallsAsked,
}

resolve_dimensions-IsBounded :
    (l : Limits) (a : EffectiveAuthority)
    → resolve_dimensions l.access l.runtime l.timeout l.ceiling l.caps ≡ ok a
    → IsBounded l a
unfolding resolve_dimensions
resolve_dimensions-IsBounded l a h =
    let calls_limit =
      lowered (cap_of l.caps (λ c. c.max_model_calls)) (or_default l.ceiling.max_model_calls) in
    let network = cap_set l.caps (λ c. c.network_profiles) in
    let models = cap_set l.caps (λ c. c.model_profiles) in
    let runtimes = cap_set l.caps (λ c. c.runtime_profiles) in
    let (_, _, h₁) = >>=-eq-ok (caps_check l.access l.runtime.profile_ref l.caps) h in
    let (_, _, h₂) = >>=-eq-ok (validate_scope_ceiling l.ceiling.resource_scopes) h₁ in
    let (_, _, h₃) =
      >>=-eq-ok (not_emptied _ _ l.access.tools (tools_of l.access l.ceiling l.caps)) h₂ in
    let (found, r, h₄) =
      >>=-eq-ok (resource_intersection l.access.resource_scopes l.ceiling.resource_scopes) h₃ in
    let (_, _, h₅) = >>=-eq-ok (not_emptied _ _ l.access.resource_scopes _) h₄ in
    let (_, _, h₆) = >>=-eq-ok (not_emptied _ _ l.access.memory_scopes _) h₅ in
    let (_, n, h₇) =
      >>=-eq-ok (network_check l.ceiling.network_profiles network l.access.network_profiles) h₆ in
    let (_, m, h₈) =
      >>=-eq-ok (model_check l.ceiling.model_profiles models l.access.model_profile) h₇ in
    let (_, p, h₉) =
      >>=-eq-ok (profile_check l.ceiling.runtime_profiles runtimes l.runtime.profile_ref) h₈ in
    let (longest, t, k) = >>=-eq-ok (timeout_ceiling l.ceiling.max_timeout) h₉ in
    let (calls, c, made) = >>=-eq-ok (resolved_calls l.runtime.max_model_calls calls_limit) k in
    let cap = cap_of l.caps (λ c. c.max_timeout) in
    let under_longest = lowered (some longest) l.timeout in
    subst (IsBounded l) (ok_injective made) (record {
      tools = exact_intersection-Limited l.access.tools l.ceiling.tools _;
      resources =
          resource_intersection-Limited l.access.resource_scopes l.ceiling.resource_scopes found _
            r;
      memory = exact_intersection-Limited l.access.memory_scopes l.ceiling.memory_scopes _;
      network = (refl, network_check-All l.ceiling.network_profiles network _ n);
      model = (refl, model_check-ok l.ceiling.model_profiles models l.access.model_profile m);
      profile =
          let (b, x) =
            profile_check-ok l.ceiling.runtime_profiles runtimes l.runtime.profile_ref p in
          (refl, b, x);
      timeout = (
        leb_ℤ-trans (lowered cap under_longest) under_longest l.timeout
            (lowered-le cap under_longest) (lowered-le (some longest) l.timeout),
        subst (AtMost (lowered cap under_longest))
            (sym (
              subst (CeilingOf l.ceiling.max_timeout) t
                (timeout_ceiling-CeilingOf l.ceiling.max_timeout)))
            (leb_ℤ-trans (lowered cap under_longest) under_longest longest
              (lowered-le cap under_longest) (lowered-AtMost (some longest) l.timeout)),
        lowered-AtMost cap under_longest,
      );
      asked =
          subst (CallsAsked l.runtime.max_model_calls calls_limit) c
            (resolved_calls-CallsAsked l.runtime.max_model_calls calls_limit);
      calls =
          subst (CallsUnder l.runtime.max_model_calls calls_limit) c
            (resolved_calls-CallsUnder l.runtime.max_model_calls calls_limit);
    })

-- The limits that a request, a template and an admission set.
pub record AreLimits (request : ClaimRequest) (template : AgentTemplate) (admission : Admission)
    (l : Limits) : Type 0 where
  pub access : request.spec.requested_access ≡ l.access
  pub runtime : request.spec.runtime ≡ some l.runtime
  pub timeout : l.runtime.timeout ≡ some l.timeout
  pub ceiling : template.spec.capability_ceiling ≡ some l.ceiling
  pub caps : constraints admission ≡ l.caps

abbrev pub Limiting : ClaimRequest → AgentTemplate → Admission → EffectiveAuthority → Type 0
Limiting request template admission a =
    (l : Limits) × AreLimits request template admission l × IsBounded l a

with_timeout-ok :
    (access : ClaimRequestedAccess) (runtime : ClaimRuntimeRequirements) (o : Option ℤ)
    (ceiling : AgentTemplateCapabilityCeiling) (caps : Option AuthorityConstraints)
    (a : EffectiveAuthority)
    → with_timeout access runtime o ceiling caps ≡ ok a
    → (t : ℤ) × (o ≡ some t) × (resolve_dimensions access runtime t ceiling caps ≡ ok a)
with_timeout-ok access runtime none ceiling caps a h = cc h
with_timeout-ok access runtime (some t) ceiling caps a h = (t, refl, h)

with_pointers-ok :
    (access : ClaimRequestedAccess) (r : Option ClaimRuntimeRequirements)
    (c : Option AgentTemplateCapabilityCeiling) (caps : Option AuthorityConstraints)
    (a : EffectiveAuthority)
    → with_pointers access r c caps ≡ ok a
    → (runtime : ClaimRuntimeRequirements) × (ceiling : AgentTemplateCapabilityCeiling) × (r
        ≡ some runtime)
      × (c ≡ some ceiling)
      × (with_timeout access runtime runtime.timeout ceiling caps ≡ ok a)
with_pointers-ok access (some r) (some c) caps a h = (r, c, refl, refl, h)
with_pointers-ok access none c caps a h = cc h
with_pointers-ok access (some r) none caps a h = cc h

-- A resolved authority has a validated request and template, the admission is for exactly that request,
-- project and template, and nothing in it is wider than the request, the template's ceiling and the
-- caps: every tool, resource and memory scope was requested, is in the ceiling and under the cap, and
-- stands there once; each network profile is in the ceiling and in an explicit cap; a model profile that
-- is not empty and the runtime profile are in the ceiling and not excluded; the timeout is at most each
-- of the three; and the model calls are exactly those asked for, which are at most the server's ceiling under the
-- cap, or have a budget of at most the default of 6 when none were asked for. That budget is at most the
-- ceiling, if the ceiling is not 0 and 0 was not asked for.
pub resolve-IsBounded :
    (request : ClaimRequest) (template : AgentTemplate) (admission : Admission)
    (a : EffectiveAuthority)
    → resolve request template admission ≡ ok a
    → (validate_claim_request (some request) ≡ ok tt)
      × (validate_agent_template (some template) ≡ ok tt)
      × (admission_matches admission request.name request.spec.project_ref request.spec.template_ref
          ≡ true)
      × Limiting request template admission a
unfolding resolve
resolve-IsBounded request template admission a h =
    let matched =
      admission_matches admission request.name request.spec.project_ref request.spec.template_ref in
    let (_, v, h₁) = >>=-eq-ok (validate_claim_request (some request)) h in
    let (_, w, h₂) = >>=-eq-ok (validate_agent_template (some template)) h₁ in
    let (_, _, h₃) = >>=-eq-ok (refuse_if (request.spec.template_ref != template.name) _) h₂ in
    let (_, m, h₄) = >>=-eq-ok (refuse_if (not matched) _) h₃ in
    let (r, c, er, ec, k) =
      with_pointers-ok request.spec.requested_access request.spec.runtime
        template.spec.capability_ceiling (constraints admission) a h₄ in
    let (t, et, d) =
      with_timeout-ok request.spec.requested_access r r.timeout c (constraints admission) a k in
    let l : Limits = record {
      access = request.spec.requested_access;
      runtime = r;
      timeout = t;
      ceiling = c;
      caps = constraints admission;
    } in
    (
      v,
      w,
      ground (arith, passed (not matched) _ m),
      (
        l,
        record { access = refl; runtime = er; timeout = et; ceiling = ec; caps = refl },
        resolve_dimensions-IsBounded l a d,
      ),
    )
