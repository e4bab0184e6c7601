-- ===== src/Authority/Limits.antt =====
-- The limits of one resolution, and what each check of Resolve guarantees (internal/authority/resolver.go).
use agenova.Prelude.{
  String, Bool, true, false, not, ◌&&◌, List, [], ◌∷◌, Option, none, some, Result, ok, err,
  refuse_if, ◌==◌, ◌!=◌, string_eq, contains, if◌then◌else◌, All, ◌≡◌, ◌≢◌, refl, ap, arith, inl,
  inr, Bool-cases, false_test, >>=-eq-ok,
}
use agenova.Prelude.Int.{ℤ, pos, negsuc, ltb_ℤ, leb_ℤ, int_eq}
use agenova.Api.{EffectiveAuthority}
use agenova.Api.Errors.{ValidationError}
use agenova.Api.Requests.{ClaimRequestedAccess, ClaimRuntimeRequirements}
use agenova.Api.Templates.{AgentTemplateCapabilityCeiling}
use agenova.Policy.{AuthorityConstraints}
use agenova.Authority.Resolve.{
  cap_set, cap_of, lowered, or_default, default_model_calls, resolved_calls, timeout_ceiling,
  uncapped, excluded, network_check, model_check, profile_check,
}
use agenova.Authority.Intersection.{Limited, within}

-- The limits of one resolution.
pub record Limits : Type 0 where
  pub access : ClaimRequestedAccess
  pub runtime : ClaimRuntimeRequirements
  pub timeout : ℤ
  pub ceiling : AgentTemplateCapabilityCeiling
  pub caps : Option AuthorityConstraints

abbrev pub AtMost : ℤ → Option ℤ → Type 0
AtMost value none = Unit
AtMost value (some limit) = leb_ℤ value limit ≡ true

-- The budget that an encoded number of calls stands for.
abbrev pub budget : ℤ → ℤ
budget calls = if calls == pos 0 then default_model_calls else calls

-- The calls granted are those asked for, no more than the ceiling; or at most the default, if none were.
abbrev pub AsAsked : Option ℤ → ℤ → ℤ → Type 0
AsAsked none ceiling calls = leb_ℤ (budget calls) default_model_calls ≡ true
AsAsked (some asked) ceiling calls = (calls ≡ asked) × (leb_ℤ asked ceiling ≡ true)

pub record IsBounded (l : Limits) (a : EffectiveAuthority) : Type 0 where
  pub tools :
      Limited (contains l.ceiling.tools) l.access.tools (cap_set l.caps (λ c. c.tools)) a.tools
  pub resources :
      Limited
        (within l.ceiling.resource_scopes)
        l.access.resource_scopes
        (cap_set l.caps (λ c. c.resource_scopes))
        a.resource_scopes
  pub memory :
      Limited
        (contains l.ceiling.memory_scopes)
        l.access.memory_scopes
        (cap_set l.caps (λ c. c.memory_scopes))
        a.memory_scopes
  pub network :
      (a.network_profiles ≡ l.access.network_profiles)
      × All
          (λ v.
            (contains l.ceiling.network_profiles v ≡ true)
            × (uncapped (cap_set l.caps (λ c. c.network_profiles)) v ≡ false))
          l.access.network_profiles
  pub model :
      (a.model_profile ≡ l.access.model_profile)
      × (l.access.model_profile ≢ ""
          → (contains l.ceiling.model_profiles l.access.model_profile ≡ true)
            × (excluded (cap_set l.caps (λ c. c.model_profiles)) l.access.model_profile ≡ false))
  pub profile :
      (a.runtime.profile_ref ≡ l.runtime.profile_ref)
      × (contains l.ceiling.runtime_profiles l.runtime.profile_ref ≡ true)
      × (excluded (cap_set l.caps (λ c. c.runtime_profiles)) l.runtime.profile_ref ≡ false)
  pub timeout :
      (leb_ℤ a.runtime.timeout l.timeout ≡ true)
      × AtMost a.runtime.timeout l.ceiling.max_timeout
      × AtMost a.runtime.timeout (cap_of l.caps (λ c. c.max_timeout))
  pub asked :
      AsAsked l.runtime.max_model_calls
        (lowered (cap_of l.caps (λ c. c.max_model_calls)) (or_default l.ceiling.max_model_calls))
        a.runtime.max_model_calls
  pub calls :
      lowered (cap_of l.caps (λ c. c.max_model_calls)) (or_default l.ceiling.max_model_calls)
        ≢ pos 0
      → l.runtime.max_model_calls ≢ some (pos 0)
      → leb_ℤ
          (budget a.runtime.max_model_calls)
          (lowered (cap_of l.caps (λ c. c.max_model_calls)) (or_default l.ceiling.max_model_calls))
        ≡ true

pub passed :
    {E : Type 0} (b : Bool) (u : E) → ◌≡◌ {A = Result E Unit} (refuse_if b u) (ok tt) → b ≡ false
passed true u h = cc h
passed false u h = refl

pub network_check-All :
    (ceiling : List String) (cap : Option (List String)) (profiles : List String)
    → network_check ceiling cap profiles ≡ ok tt
    → All (λ v. (contains ceiling v ≡ true) × (uncapped cap v ≡ false)) profiles
network_check-All ceiling cap [] h = tt
network_check-All ceiling cap (x ∷ profiles) h =
    let (_, a, rest) = >>=-eq-ok (refuse_if (not (contains ceiling x)) _) h in
    let (_, b, last) = >>=-eq-ok (refuse_if (uncapped cap x) _) rest in
    let n : contains ceiling x ≡ true = ground (arith, passed (not (contains ceiling x)) _ a) in
    ((n, passed (uncapped cap x) _ b), network_check-All ceiling cap profiles last)

pub model_check-ok :
    (ceiling : List String) (cap : Option (List String)) (model : String)
    → model_check ceiling cap model ≡ ok tt
    → model ≢ ""
    → (contains ceiling model ≡ true) × (excluded cap model ≡ false)
model_check-ok ceiling cap model h n =
    let (_, a, b) = >>=-eq-ok (refuse_if (model != "" && not (contains ceiling model)) _) h in
    let f = false_test model "" n in
    let u = passed (model != "" && not (contains ceiling model)) _ a in
    let w = passed (model != "" && excluded cap model) _ b in
    (ground (arith, f, u), ground (arith, f, w))

pub profile_check-ok :
    (ceiling : List String) (cap : Option (List String)) (profile : String)
    → profile_check ceiling cap profile ≡ ok tt
    → (contains ceiling profile ≡ true) × (excluded cap profile ≡ false)
profile_check-ok ceiling cap profile h =
    let (_, a, b) = >>=-eq-ok (refuse_if (not (contains ceiling profile)) _) h in
    let u = passed (not (contains ceiling profile)) _ a in
    (ground (arith, u), passed (excluded cap profile) _ b)

leb_ℤ-self : (a : ℤ) → leb_ℤ a a ≡ true
leb_ℤ-self (pos a) = ground arith
leb_ℤ-self (negsuc a) = ground arith

pub leb_ℤ-trans : (a b c : ℤ) → leb_ℤ a b ≡ true → leb_ℤ b c ≡ true → leb_ℤ a c ≡ true
leb_ℤ-trans a b c h k = ground (arith, h, k)

ltb_ℤ-le : (a b : ℤ) → ltb_ℤ a b ≡ true → leb_ℤ a b ≡ true
ltb_ℤ-le a b h = ground (arith, h)

pub lowered-le : (limit : Option ℤ) (v : ℤ) → leb_ℤ (lowered limit v) v ≡ true
lowered-le none v = leb_ℤ-self v
lowered-le (some limit) v = elim (Bool-cases (ltb_ℤ limit v)) [
  | inl t ↦ rw t (ltb_ℤ-le limit v t)
  | inr f ↦ rw f (leb_ℤ-self v)
]

pub lowered-AtMost : (limit : Option ℤ) (v : ℤ) → AtMost (lowered limit v) limit
lowered-AtMost none v = tt
lowered-AtMost (some limit) v = elim (Bool-cases (ltb_ℤ limit v)) [
  | inl t ↦ rw t (leb_ℤ-self limit)
  | inr f ↦ rw (f, f) refl
]

abbrev pub CeilingOf : Option ℤ → Result ValidationError ℤ → Type 0
CeilingOf o (err e) = Unit
CeilingOf o (ok t) = o ≡ some t

pub timeout_ceiling-CeilingOf : (o : Option ℤ) → CeilingOf o (timeout_ceiling o)
timeout_ceiling-CeilingOf none = tt
timeout_ceiling-CeilingOf (some x) = elim (Bool-cases (leb_ℤ x (pos 0))) [
  | inl e ↦ rw e tt
  | inr n ↦ rw n refl
]

-- The budget granted stays under a ceiling that is not 0.
abbrev pub CallsUnder : Option ℤ → ℤ → Result ValidationError ℤ → Type 0
CallsUnder asked ceiling (err e) = Unit
CallsUnder asked ceiling (ok calls) =
    ceiling ≢ pos 0 → asked ≢ some (pos 0) → leb_ℤ (budget calls) ceiling ≡ true

pub resolved_calls-CallsUnder :
    (asked : Option ℤ) (ceiling : ℤ) → CallsUnder asked ceiling (resolved_calls asked ceiling)
resolved_calls-CallsUnder none ceiling = elim (Bool-cases (ltb_ℤ ceiling default_model_calls)) [
  | inl t ↦ rw t (elim (Bool-cases (ceiling == default_model_calls)) [
    | inl e ↦ absurd (below_default ceiling t e)
    | inr n ↦ rw n (λ z a. rw (false_test ceiling (pos 0) z) (leb_ℤ-self ceiling))
  ])
  | inr f ↦ rw f (λ z a. ground (arith, f))
]
  where
    below_default :
        (c : ℤ) → ltb_ℤ c default_model_calls ≡ true → (c == default_model_calls) ≡ true → ⊥
    below_default c t e = ground (arith, t, e)
resolved_calls-CallsUnder (some x) ceiling = elim (Bool-cases (ltb_ℤ ceiling x)) [
  | inl t ↦ rw t tt
  | inr f ↦ rw f (λ z a. rw (false_test x (pos 0) (λ e. a (ap some e))) (ground (arith, f)))
]

-- What is granted of the calls asked for.
abbrev pub CallsAsked : Option ℤ → ℤ → Result ValidationError ℤ → Type 0
CallsAsked asked ceiling (err e) = Unit
CallsAsked asked ceiling (ok calls) = AsAsked asked ceiling calls

pub resolved_calls-CallsAsked :
    (asked : Option ℤ) (ceiling : ℤ) → CallsAsked asked ceiling (resolved_calls asked ceiling)
resolved_calls-CallsAsked none ceiling = elim (Bool-cases (ltb_ℤ ceiling default_model_calls)) [
  | inl t ↦ rw t (elim (Bool-cases (ceiling == default_model_calls)) [
    | inl e ↦ rw e refl
    | inr n ↦ rw n (elim (Bool-cases (ceiling == pos 0)) [
      | inl z ↦ rw z refl
      | inr p ↦ rw p (ltb_ℤ-le ceiling default_model_calls t)
    ])
  ])
  | inr f ↦ rw f refl
]
resolved_calls-CallsAsked (some x) ceiling = elim (Bool-cases (ltb_ℤ ceiling x)) [
  | inl t ↦ rw t tt
  | inr f ↦ rw f (refl, ground (arith, f))
]
