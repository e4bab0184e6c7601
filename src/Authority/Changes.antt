-- ===== src/Authority/Changes.antt =====
-- What the changes of a resolution say (internal/authority/resolution.go, ResolveForIssuance).
use agenova.Prelude.{
  String, Bool, true, false, not, ◌&&◌, ◌||◌, List, [], ◌∷◌, ◌++◌, Option, none, some, ◌==◌,
  string_eq, contains, any, any-append, ◌≡◌, refl, sym, ap, ◌∙◌, arith, Bool-cases, inl, inr,
  ==_iff, ==_self,
}
use agenova.Prelude.Int.{ℤ, int_eq}
use agenova.Api.{EffectiveAuthority}
use agenova.Api.Requests.{ClaimRequest}
use agenova.Policy.{AuthorityConstraints}
use agenova.Facts.{Change}
use agenova.Authority.Resolve.{cap_set, cap_of}
use agenova.Authority.Resolution.{dimension_changes, timeout_changes, asked_timeout, changes_of}

-- The change says that `value` was taken from the field.
abbrev pub names : String → String → Change → Bool
names field value c = c.field == field && c.requested == value

-- Requested, and not effective.
abbrev pub lost : List String → List String → String → Bool
lost requested effective value = contains requested value && not (contains effective value)

lost_here :
    (requested effective : List String) (x value : String) (rest : Bool)
    → contains effective x ≡ false
    → rest ≡ lost requested effective value
    → ((x == value) || rest) ≡ lost (x ∷ requested) effective value
lost_here requested effective x value rest n h = elim (Bool-cases (x == value)) [
  | inl e ↦
      let e' : x ≡ value = (==_iff x value).0 e in
      let n' : contains effective value ≡ false = ap (contains effective) (sym e') ∙ n in
      ground (arith, e, n', h)
  | inr f ↦ ground (arith, f, h)
]

lost_there :
    (requested effective : List String) (x value : String)
    → contains effective x ≡ true
    → lost requested effective value ≡ lost (x ∷ requested) effective value
lost_there requested effective x value t = elim (Bool-cases (x == value)) [
  | inl e ↦
      let e' : x ≡ value = (==_iff x value).0 e in
      let t' : contains effective value ≡ true = ap (contains effective) (sym e') ∙ t in
      ground (arith, e, t')
  | inr f ↦ ground (arith, f)
]

dimension_changes-lost :
    (field : String) (requested effective : List String) (cap : Option (List String))
    (value : String)
    → any (names field value) (dimension_changes field requested effective cap)
      ≡ lost requested effective value
dimension_changes-lost field [] effective cap value = refl
dimension_changes-lost field (x ∷ requested) effective cap value =
    let ih = dimension_changes-lost field requested effective cap value in
    elim (Bool-cases (contains effective x)) [
      | inl t ↦ rw t (ih ∙ lost_there requested effective x value t)
      | inr n ↦ rw (n, ==_self field) (lost_here requested effective x value _ n ih)
    ]

dimension_changes-other :
    (field other : String) (requested effective : List String) (cap : Option (List String))
    (value : String)
    → (field == other) ≡ false
    → any (names other value) (dimension_changes field requested effective cap) ≡ false
dimension_changes-other field other [] effective cap value d = refl
dimension_changes-other field other (x ∷ requested) effective cap value d =
    let ih = dimension_changes-other field other requested effective cap value d in
    elim (Bool-cases (contains effective x)) [ inl t ↦ rw t ih | inr n ↦ rw (n, d) ih ]

timeout_changes-other :
    (show_duration : ℤ → String) (cap asked : Option ℤ) (resolved : ℤ) (other value : String)
    → ("runtime.timeout" == other) ≡ false
    → any (names other value) (timeout_changes show_duration cap asked resolved) ≡ false
timeout_changes-other show_duration cap none resolved other value d = refl
timeout_changes-other show_duration cap (some t) resolved other value d =
    elim (Bool-cases (t == resolved)) [ inl e ↦ rw e refl | inr n ↦ rw (n, d) refl ]

dimension_changes-any :
    (field f : String) (requested effective : List String) (cap : Option (List String))
    (value : String)
    → any (names f value) (dimension_changes field requested effective cap)
      ≡ ((field == f) && lost requested effective value)
dimension_changes-any field f requested effective cap value = elim (Bool-cases (field == f)) [
  | inl e ↦
      let h = dimension_changes-lost field requested effective cap value in
      rw
        (
          e,
          ap (λ g. any (names g value) (dimension_changes field requested effective cap))
              (sym ((==_iff field f).0 e)),
        )
        h
  | inr n ↦ rw n (dimension_changes-other field f requested effective cap value n)
]

or_none : (a b : Bool) → b ≡ false → (a || b) ≡ a
or_none a b h = ground (arith, h)

five :
    (p : Change → Bool) (a b c d e : List Change)
    → any p (a ++ (b ++ (c ++ (d ++ e))))
      ≡ (any p a || (any p b || (any p c || (any p d || any p e))))
five p a b c d e =
    rw
      (
        any-append p a (b ++ (c ++ (d ++ e))),
        any-append p b (c ++ (d ++ e)),
        any-append p c (d ++ e),
        any-append p d e,
      )
      refl

-- The changes of a resolution name a tool, a resource scope, a memory scope or a network profile
-- exactly when it was requested and is not in the resolved authority.
pub changes_of-lost :
    (show_duration : ℤ → String) (request : ClaimRequest) (a : EffectiveAuthority)
    (caps : Option AuthorityConstraints) (value : String)
    → let access = request.spec.requested_access in
      let changes = changes_of show_duration request a caps in
      (any (names "tools" value) changes ≡ lost access.tools a.tools value)
      × (any (names "resourceScopes" value) changes
          ≡ lost access.resource_scopes a.resource_scopes value)
      × (any (names "memoryScopes" value) changes ≡ lost access.memory_scopes a.memory_scopes value)
      × (any (names "networkProfiles" value) changes
          ≡ lost access.network_profiles a.network_profiles value)
unfolding changes_of
changes_of-lost show_duration request a caps value =
    let access = request.spec.requested_access in
    let tools = dimension_changes "tools" access.tools a.tools (cap_set caps (λ c. c.tools)) in
    let resources =
      dimension_changes "resourceScopes" access.resource_scopes a.resource_scopes
        (cap_set caps (λ c. c.resource_scopes)) in
    let memory =
      dimension_changes "memoryScopes" access.memory_scopes a.memory_scopes
        (cap_set caps (λ c. c.memory_scopes)) in
    let network =
      dimension_changes "networkProfiles" access.network_profiles a.network_profiles
        (cap_set caps (λ c. c.network_profiles)) in
    let timeout =
      timeout_changes show_duration (cap_of caps (λ c. c.max_timeout))
        (asked_timeout request.spec.runtime) a.runtime.timeout in
    let total : (f : String)
        → any (names f value) (tools ++ (resources ++ (memory ++ (network ++ timeout)))) ≡ (
            (("tools" == f) && lost access.tools a.tools value)
            || ((("resourceScopes" == f) && lost access.resource_scopes a.resource_scopes value)
                || ((("memoryScopes" == f) && lost access.memory_scopes a.memory_scopes value)
                    || ((("networkProfiles" == f)
                          && lost access.network_profiles a.network_profiles value)
                        || any (names f value) timeout)))) =
      λ f.
        five (names f value) tools resources memory network timeout
        ∙ rw
            (
              dimension_changes-any "tools" f access.tools a.tools (cap_set caps (λ c. c.tools))
                  value,
              dimension_changes-any "resourceScopes" f access.resource_scopes a.resource_scopes
                  (cap_set caps (λ c. c.resource_scopes)) value,
              dimension_changes-any "memoryScopes" f access.memory_scopes a.memory_scopes
                  (cap_set caps (λ c. c.memory_scopes)) value,
              dimension_changes-any "networkProfiles" f access.network_profiles a.network_profiles
                  (cap_set caps (λ c. c.network_profiles)) value,
            )
            refl in
    let no_timeout : (f : String)
        → ("runtime.timeout" == f) ≡ false
        → any (names f value) timeout ≡ false =
      λ f d.
        timeout_changes-other show_duration (cap_of caps (λ c. c.max_timeout))
          (asked_timeout request.spec.runtime) a.runtime.timeout f value d in
    (
      total "tools" ∙ or_none (lost access.tools a.tools value) _ (no_timeout "tools" refl),
      total "resourceScopes"
          ∙ or_none (lost access.resource_scopes a.resource_scopes value) _
              (no_timeout "resourceScopes" refl),
      total "memoryScopes"
          ∙ or_none (lost access.memory_scopes a.memory_scopes value) _
              (no_timeout "memoryScopes" refl),
      total "networkProfiles"
          ∙ or_none (lost access.network_profiles a.network_profiles value) _
              (no_timeout "networkProfiles" refl),
    )
