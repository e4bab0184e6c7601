-- ===== src/Api/Errors.antt =====
-- api/v1alpha1/agent_template.go: ValidationError, and the checks on lists that the contracts share
-- (validateRequestList, validateUniqueNonBlankList, validateNetworkProfiles).
use agenova.Prelude.{
  ℕ, suc, String, List, [], ◌∷◌, Result, ok, ◌>>◌, refuse_if, ◌!=◌, string_eq, contains,
}
use agenova.Prelude.Texts.{is_blank, place}

pub record ValidationError : Type 0 where
  pub category : String
  pub field_path : String
  pub detail : String

abbrev pub validation_error : String → String → String → ValidationError
validation_error c path text = record { category = c; field_path = path; detail = text }

abbrev pub required_field : String
required_field = "required-field"

abbrev pub invalid_value : String
invalid_value = "invalid-value"

abbrev pub invalid_capability_ceiling : String
invalid_capability_ceiling = "invalid-capability-ceiling"

abbrev pub secret_value : String
secret_value = "secret-value"

abbrev pub required : String → ValidationError
required path = validation_error required_field path "value is required"

abbrev pub invalid : String → String → ValidationError
invalid path text = validation_error invalid_value path text

-- A check of an already decoded value: nil, or the error.
abbrev pub Check : Type 0
Check = Result ValidationError (Unit {0})

-- The loop of the two list checks from element `i` on; `seen` holds the earlier elements.
unfoldable pub unique_non_blank : String → String → ℕ → List String → List String → Check
unique_non_blank category path i seen [] = ok tt
unique_non_blank category path i seen (value ∷ values) = do
  refuse_if (is_blank value) (validation_error category (place path i) "value must be non-blank")
  refuse_if (contains seen value) (validation_error category (place path i) "duplicate value")
  unique_non_blank category path (suc i) (value ∷ seen) values

unfoldable pub validate_request_list : String → List String → Check
unfolding unique_non_blank
validate_request_list path values = unique_non_blank invalid_value path 0 [] values

unfoldable pub validate_unique_non_blank_list : String → List String → Check
unfolding unique_non_blank
validate_unique_non_blank_list path values =
    unique_non_blank invalid_capability_ceiling path 0 [] values

-- The loop of validateNetworkProfiles, likewise.
unfoldable pub network_profiles_from : String → String → ℕ → List String → List String → Check
network_profiles_from path category i seen [] = ok tt
network_profiles_from path category i seen (profile ∷ profiles) = do
  refuse_if (profile != "public-web")
      (validation_error category (place path i) "unsupported network profile")
  refuse_if (contains seen profile)
      (validation_error category (place path i) "duplicate network profile")
  network_profiles_from path category (suc i) (profile ∷ seen) profiles

unfoldable pub validate_network_profiles : String → List String → String → Check
unfolding network_profiles_from
validate_network_profiles path profiles category = network_profiles_from path category 0 [] profiles

-- `if strings.TrimSpace(value) == "" { return required(path) }`
abbrev pub require : String → String → Check
require path value = refuse_if (is_blank value) (required path)

-- The loop over a table of required fields.
abbrev pub require_all : List (String × String) → Check
require_all [] = ok tt
require_all ((path, value) ∷ rest) = do require path value; require_all rest
