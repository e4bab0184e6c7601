-- ===== src/Api/Guide.antt =====
-- api/v1alpha1/access_guide.go: ValidateAccessGuide.
use Prim.Native.String.{len}
use agenova.Prelude.{
  ℕ, String, Bool, true, false, not, ◌&&◌, ◌||◌, List, [], ◌∷◌, Option, none, some, ok, err, ◌>>◌,
  refuse_if, ◌==◌, ◌!=◌, string_eq, nat_eq, ltb, leb, length, count, any, contains,
}
use agenova.Prelude.Texts.{codes, is_blank, has_prefix, has_suffix, trim_last}
use agenova.Api.Errors.{Check, ValidationError, invalid, validate_request_list}
use agenova.Api.Templates.{
  AgentTemplateCapabilityCeiling, TaskAccessProfile, AgentAccessGuide, AgentTemplate,
}

abbrev bad : String → ValidationError
bad message = invalid "spec.accessGuide" message

-- strings.Count(s, "*")
abbrev pub stars : String → ℕ
stars s = count (λ c. c == b'*') (codes s)

abbrev is_alphanumeric : ℕ → Bool
is_alphanumeric c = leb b'a' c && leb c b'z' || leb b'0' c && leb c b'9'

abbrev local_name_tail : List ℕ → Bool
local_name_tail [] = true
local_name_tail (c ∷ []) = is_alphanumeric c
local_name_tail (c ∷ d ∷ s) =
    (is_alphanumeric c || c == b'-' || c == b'.') && local_name_tail (d ∷ s)

-- ^[a-z0-9](?:[-a-z0-9.]{0,61}[a-z0-9])?$
unfoldable pub platform_local_name : List ℕ → Bool
platform_local_name [] = false
platform_local_name (c ∷ s) = is_alphanumeric c && local_name_tail s && leb (length s) 62

-- strings.HasSuffix(limit, "*") && strings.HasPrefix(v, strings.TrimSuffix(limit, "*"))
unfoldable pub under_wildcard : String → String → Bool
unfolding has_prefix has_suffix trim_last
under_wildcard limit v =
    has_suffix (codes limit) (b'*' ∷ []) && has_prefix (codes v) (trim_last b'*' (codes limit))

abbrev pub is_within_limit : String → String → Bool
unfolding under_wildcard
is_within_limit v limit = stars limit == 1 && limit != "*" && under_wildcard limit v

-- The loop over one wanted list.
profile_values_check : Bool → List String → List String → Check
profile_values_check resource ceiling [] = ok tt
profile_values_check resource ceiling (v ∷ values) = do
  refuse_if (resource && leb 1 (stars v)) (bad "profile resources must be concrete")
  refuse_if (not (contains ceiling v || resource && any (is_within_limit v) ceiling))
      (bad "profile exceeds template ceiling")
  profile_values_check resource ceiling values

-- `validateRequestList(...) != nil`
abbrev fails : Check → Bool
fails (ok u) = false
fails (err e) = true

profile_list_check : Bool → List String → List String → Check
unfolding profile_values_check validate_request_list
profile_list_check resource want ceiling = do
  refuse_if (ltb 64 (length want) || fails (validate_request_list "spec.accessGuide" want))
      (bad "profile list is invalid")
  profile_values_check resource ceiling want

-- The loop over the profiles; `seen` holds the earlier ids.
profiles_check : AgentTemplateCapabilityCeiling → List String → List TaskAccessProfile → Check
unfolding platform_local_name profile_list_check
profiles_check c seen [] = ok tt
profiles_check c seen (p ∷ profiles) = do
  refuse_if
      (not (platform_local_name (codes p.id))
        || contains seen p.id
        || is_blank p.task_type
        || ltb 128 (len p.task_type)
        || is_blank p.description
        || ltb 1024 (len p.description))
      (bad "profile identity or description is invalid")
  profile_list_check false p.requested_access.tools c.tools
  profile_list_check true p.requested_access.resource_scopes c.resource_scopes
  profile_list_check false p.requested_access.memory_scopes c.memory_scopes
  profile_list_check false p.requested_access.network_profiles c.network_profiles
  refuse_if
      (p.requested_access.model_profile != ""
        && not (contains c.model_profiles p.requested_access.model_profile))
      (bad "profile model exceeds template ceiling")
  profiles_check c (p.id ∷ seen) profiles

abbrev guide_check : AgentAccessGuide → Option AgentTemplateCapabilityCeiling → Check
unfolding profiles_check
guide_check g none = err (bad "guide version, size or profiles are invalid")
guide_check g (some c) = do
  refuse_if
      (is_blank g.version
        || ltb 64 (len g.version)
        || ltb 16384 (len g.markdown)
        || ltb (length g.profiles) 1
        || ltb 16 (length g.profiles))
      (bad "guide version, size or profiles are invalid")
  profiles_check c [] g.profiles

-- The guide, where the template has one, against the template's ceiling.
abbrev guided : Option AgentAccessGuide → Option AgentTemplateCapabilityCeiling → Check
guided none ceiling = ok tt
guided (some g) ceiling = guide_check g ceiling

unfoldable pub validate_access_guide : AgentTemplate → Check
unfolding profiles_check
validate_access_guide t = guided t.spec.access_guide t.spec.capability_ceiling
