-- ===== src/Authority.antt =====
-- internal/authority/resolver.go: the intersection of a request, a template's ceiling and the caps.
pub mod Resolve
pub mod Intersection
pub mod Limits
pub mod Bounded
pub mod Resolution
pub mod Serving
pub mod Changes
pub mod Reaches
use agenova.Prelude.{
  ℕ, suc, String, Bool, true, false, not, ◌&&◌, ◌||◌, List, [], ◌∷◌, Option, none, some, Result, ok,
  err, ◌>>=◌, ◌>>◌, refuse_if, ◌==◌, ◌!=◌, string_eq, nat_eq, leb, any, contains, if◌then◌else◌,
}
use agenova.Prelude.Texts.{codes, has_suffix, place}
use agenova.Api.Errors.{Check, ValidationError, invalid}
use agenova.Api.Guide.{stars, under_wildcard}

-- The loop of exactIntersection; `seen` holds what is in the result.
abbrev pub intersect_from : List String → List String → List String → List String
intersect_from seen [] allowed = []
intersect_from seen (value ∷ values) allowed =
    let skipped = intersect_from seen values allowed in
    let taken = intersect_from (value ∷ seen) values allowed in
    if not (contains allowed value) || contains seen value then skipped else value ∷ taken

unfoldable pub exact_intersection : List String → List String → List String
exact_intersection requested allowed = intersect_from [] requested allowed

unfoldable pub apply_set_cap : List String → Option (List String) → List String
unfolding exact_intersection
apply_set_cap values none = values
apply_set_cap values (some cap) = exact_intersection values cap

-- A ceiling entry that admits the scope.
unfoldable pub admits : String → String → Bool
unfolding under_wildcard
admits scope ceiling = ceiling == scope || under_wildcard ceiling scope

-- The loop of resourceIntersection.
unfoldable pub resources_from :
    ℕ → List String → List String → List String → Result ValidationError (List String)
unfolding admits
resources_from i seen [] ceilings = ok []
resources_from i seen (scope ∷ scopes) ceilings = do
  refuse_if (leb 1 (stars scope)) (
      invalid (place "spec.requestedAccess.resourceScopes" i)
        "requested resource scope must be concrete")
  let keep = any (admits scope) ceilings && not (contains seen scope)
  rest ← resources_from (suc i) (if keep then scope ∷ seen else seen) scopes ceilings
  ok (if keep then scope ∷ rest else rest)

unfoldable pub resource_intersection :
    List String → List String → Result ValidationError (List String)
unfolding resources_from
resource_intersection requested ceilings = resources_from 0 [] requested ceilings

-- The loop of validateScopeCeiling.
abbrev pub scope_ceiling_from : ℕ → List String → Check
unfolding has_suffix
scope_ceiling_from i [] = ok tt
scope_ceiling_from i (scope ∷ scopes) = do
  refuse_if
      (stars scope != 0
        && (stars scope != 1 || not (has_suffix (codes scope) (b'*' ∷ [])) || scope == "*"))
      (invalid (place "spec.capabilityCeiling.resourceScopes" i)
        "only one terminal wildcard is supported")
  scope_ceiling_from (suc i) scopes

unfoldable pub validate_scope_ceiling : List String → Check
validate_scope_ceiling scopes = scope_ceiling_from 0 scopes
