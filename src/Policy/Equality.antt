-- ===== src/Policy/Equality.antt =====
-- ContextEqual of internal/policy/evaluator.go, and reflect.DeepEqual on the rules of a bundle.
use agenova.Prelude.{
  String, Bool, true, ◌&&◌, List, Option, ◌≡◌, ◌↔◌, refl, Comparable, ◌==◌, string_eq, list_eq,
  option_eq, pair_eq, struct_eq, ==_iff, arith,
}
use agenova.Prelude.Int.{ℤ, int_eq}
use agenova.Policy.{Attribute, EnvironmentFact, EvaluationContext, AuthorityConstraints, Rule}

pub attribute_iff :
    (a b : Attribute) → ((a.name == b.name && a.values == b.values) ≡ true) ↔ (a ≡ b)
attribute_iff a b = ground (arith, ==_iff a.name b.name, ==_iff a.values b.values)

instance abbrev pub attribute_eq : Comparable Attribute
attribute_eq = record {
  is_same = λ a b. a.name == b.name && a.values == b.values;
  is_same_iff = attribute_iff;
}

pub environment_fact_iff :
    (a b : EnvironmentFact) → ((a.name == b.name && a.value == b.value) ≡ true) ↔ (a ≡ b)
environment_fact_iff a b = ground (arith, ==_iff a.name b.name, ==_iff a.value b.value)

instance abbrev pub environment_fact_eq : Comparable EnvironmentFact
environment_fact_eq = record {
  is_same = λ a b. a.name == b.name && a.value == b.value;
  is_same_iff = environment_fact_iff;
}

unfoldable pub context_equal : EvaluationContext → EvaluationContext → Bool
context_equal left right =
    left.principal.subject == right.principal.subject
    && left.principal.authentication_context == right.principal.authentication_context
    && left.principal.attributes == right.principal.attributes
    && left.action == right.action
    && left.resource.resource_type == right.resource.resource_type
    && left.resource.id == right.resource.id
    && left.resource.attributes == right.resource.attributes
    && left.environment == right.environment

pub context_equal_iff : (a b : EvaluationContext) → (context_equal a b ≡ true) ↔ (a ≡ b)
unfolding context_equal
context_equal_iff a b = ground (
  arith,
  ==_iff a.principal.subject b.principal.subject,
  ==_iff a.principal.authentication_context b.principal.authentication_context,
  ==_iff a.principal.attributes b.principal.attributes,
  ==_iff a.action b.action,
  ==_iff a.resource.resource_type b.resource.resource_type,
  ==_iff a.resource.id b.resource.id,
  ==_iff a.resource.attributes b.resource.attributes,
  ==_iff a.environment b.environment,
)

-- The fields of the constraints, and back.
abbrev pub Sets : Type 0
Sets = Option (List String) × (Option (List String) × Option (List String))

abbrev pub Caps : Type 0
Caps = Option ℤ × (Option ℤ × (Sets × Sets))

abbrev pub caps_of : AuthorityConstraints → Caps
caps_of c = (
  c.max_model_calls,
  (
    c.max_timeout,
    (
      (c.tools, (c.resource_scopes, c.model_profiles)),
      (c.memory_scopes, (c.runtime_profiles, c.network_profiles)),
    ),
  ),
)

abbrev pub constraints_of : Caps → AuthorityConstraints
constraints_of (calls, (timeout, ((tools, (resources, models)), (memory, (runtimes, network))))) =
    record {
      max_model_calls = calls;
      tools = tools;
      resource_scopes = resources;
      model_profiles = models;
      memory_scopes = memory;
      runtime_profiles = runtimes;
      network_profiles = network;
      max_timeout = timeout;
    }

-- Pairs of comparable values are comparable.
abbrev pub both {ℓ κ} : {A : Type ℓ} {B : Type κ} → Comparable A → Comparable B → Comparable (A × B)
both e f = pair_eq ⦃e = e⦄ ⦃f = f⦄

abbrev pub sets_eq : Comparable Sets
sets_eq = both option_eq (both option_eq option_eq)

abbrev pub caps_eq : Comparable Caps
caps_eq = both option_eq (both option_eq (both sets_eq sets_eq))

instance abbrev pub constraints_eq : Comparable AuthorityConstraints
constraints_eq = struct_eq ⦃e = caps_eq⦄ caps_of constraints_of (λ a. refl)

abbrev pub rule_beq : Rule → Rule → Bool
rule_beq a b =
    a.subject == b.subject
    && a.team == b.team
    && a.action == b.action
    && a.project == b.project
    && a.template_ref == b.template_ref
    && a.constraints == b.constraints

pub rule_iff : (a b : Rule) → (rule_beq a b ≡ true) ↔ (a ≡ b)
rule_iff a b = ground (
  arith,
  ==_iff a.subject b.subject,
  ==_iff a.team b.team,
  ==_iff a.action b.action,
  ==_iff a.project b.project,
  ==_iff a.template_ref b.template_ref,
  ==_iff a.constraints b.constraints,
)

instance abbrev pub rule_eq : Comparable Rule
rule_eq = record { is_same = rule_beq; is_same_iff = rule_iff }
