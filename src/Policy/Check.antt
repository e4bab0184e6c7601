-- ===== src/Policy/Check.antt =====
-- internal/policy/evaluator.go: ValidateContext, validateAttributes and validateConstraints.
use Prim.Native.String.{len, ◌++◌}
use agenova.Prelude.{
  ℕ, suc, String, Bool, false, ◌&&◌, ◌||◌, List, [], ◌∷◌, Option, none, some, Result, ok, ◌>>◌,
  refuse_if, ◌==◌, ◌!=◌, string_eq, ltb, length, contains,
}
use agenova.Prelude.Int.{ℤ, pos, ltb_ℤ, leb_ℤ}
use agenova.Prelude.Texts.{is_blank, place}
use agenova.Prelude.Decimal.{decimal}
use agenova.Policy.{
  Attribute, EnvironmentFact, EvaluationContext, AuthorityConstraints, PolicyError, message, naming,
}

abbrev pub Verdict : Type 0
Verdict = Result PolicyError (Unit {0})

-- The loop over an attribute's values.
attribute_values_check : String → ℕ → List String → List String → Verdict
attribute_values_check path i seen [] = ok tt
attribute_values_check path i seen (value ∷ values) = do
  refuse_if (is_blank value)
      (message ("evaluation context " ++ place (path ++ ".values") i ++ " is blank"))
  refuse_if (contains seen value)
      (message ("evaluation context " ++ place (path ++ ".values") i ++ " is duplicated"))
  attribute_values_check path (suc i) (value ∷ seen) values

attributes_from : String → ℕ → List String → List Attribute → Verdict
unfolding attribute_values_check
attributes_from path i seen [] = ok tt
attributes_from path i seen (attribute ∷ attributes) = do
  refuse_if (is_blank attribute.name)
      (message ("evaluation context " ++ place path i ++ " requires a name"))
  refuse_if (contains seen attribute.name)
      (naming ("evaluation context " ++ path ++ " attribute is duplicated") attribute.name)
  refuse_if (ltb (length attribute.values) 1)
      (message ("evaluation context " ++ place path i ++ " requires at least one value"))
  attribute_values_check (place path i) 0 [] attribute.values
  attributes_from path (suc i) (attribute.name ∷ seen) attributes

unfoldable pub validate_attributes : String → List Attribute → Verdict
unfolding attributes_from
validate_attributes path attributes = attributes_from path 0 [] attributes

environment_from : ℕ → List String → List EnvironmentFact → Verdict
environment_from i seen [] = ok tt
environment_from i seen (fact ∷ facts) = do
  refuse_if (is_blank fact.name || is_blank fact.value)
      (message ("evaluation context environment fact " ++ decimal i ++ " requires name and value"))
  refuse_if (contains seen fact.name)
      (naming "evaluation context environment fact is duplicated" fact.name)
  environment_from (suc i) (fact.name ∷ seen) facts

fields_check : List (String × String) → Verdict
fields_check [] = ok tt
fields_check ((name, value) ∷ fields) = do
  refuse_if (is_blank value) (message ("evaluation context " ++ name ++ " is required"))
  fields_check fields

unfoldable pub validate_context : EvaluationContext → Verdict
unfolding validate_attributes fields_check environment_from
validate_context context = do
  validate_attributes "principal.attributes" context.principal.attributes
  validate_attributes "resource.attributes" context.resource.attributes
  fields_check (
      ("principal.subject", context.principal.subject)
      ∷ ("principal.authenticationContext", context.principal.authentication_context)
      ∷ ("action", context.action)
      ∷ ("resource.type", context.resource.resource_type)
      ∷ ("resource.id", context.resource.id)
      ∷ [])
  environment_from 0 [] context.environment

-- The loop over the values of one cap.
cap_values_check : String → ℕ → List String → List String → Verdict
cap_values_check name i seen [] = ok tt
cap_values_check name i seen (value ∷ values) = do
  refuse_if (name == "networkProfiles" && value != "public-web")
      (message ("authority constraint " ++ place "networkProfiles" i ++ " is unsupported"))
  refuse_if (is_blank value) (message ("authority constraint " ++ place name i ++ " is blank"))
  refuse_if (ltb 256 (len value))
      (message ("authority constraint " ++ place name i ++ " exceeds the evidence-safe limit"))
  refuse_if (contains seen value)
      (message ("authority constraint " ++ place name i ++ " is duplicated"))
  cap_values_check name (suc i) (value ∷ seen) values

cap_check : String → Option (List String) → Verdict
unfolding cap_values_check
cap_check name none = ok tt
cap_check name (some values) = do
  refuse_if (ltb 64 (length values))
      (message ("authority constraint " ++ name ++ " has too many values"))
  cap_values_check name 0 [] values

calls_out_of_range : Option ℤ → Bool
calls_out_of_range none = false
calls_out_of_range (some n) = ltb_ℤ n (pos 1) || ltb_ℤ (pos 1000) n

timeout_not_positive : Option ℤ → Bool
timeout_not_positive none = false
timeout_not_positive (some t) = leb_ℤ t (pos 0)

unfoldable pub validate_constraints : Option AuthorityConstraints → Verdict
unfolding cap_check calls_out_of_range timeout_not_positive
validate_constraints none = ok tt
validate_constraints (some c) = do
  cap_check "tools" c.tools
  cap_check "resourceScopes" c.resource_scopes
  cap_check "modelProfiles" c.model_profiles
  cap_check "memoryScopes" c.memory_scopes
  cap_check "runtimeProfiles" c.runtime_profiles
  cap_check "networkProfiles" c.network_profiles
  refuse_if (calls_out_of_range c.max_model_calls) (message "invalid model call ceiling")
  refuse_if (timeout_not_positive c.max_timeout)
      (message "authority constraint maxTimeout must be positive")
