-- ===== src/Gateway/Governed/ModelCalls.antt =====
-- When the model gateway calls the adapter (internal/modelgateway/gateway.go).
use agenova.Prelude.{
  ℕ, String, Bool, true, false, not, ◌||◌, [], ◌∷◌, ◌++◌, Option, none, some, Result, ok, err,
  refuse_if, ◌==◌, ◌!=◌, string_eq, ◌≡◌, ◌⊎◌, inl, inr, refl, sym, ap, ◌∙◌, subst, Bool-cases,
  ==_iff, >>=-eq-ok, ok_injective,
}
use agenova.Prelude.Int.{pos, ltb_ℤ}
use agenova.Api.{allow}
use agenova.Run.Eligibility.{ClaimAuthoritySnapshot}
use agenova.Gateway.Decisions.{GatewayDecision, Outcome, normalize}
use agenova.Gateway.Ports.{
  Host, Reply, Refusal, notified, recorded, notified_if, recorded_if, reading, resolve_claim,
  claim_baseline,
}
use agenova.Gateway.Reporting.{notify-Reports, record_decision-Reports, dispatch-Dispatched}
use agenova.Gateway.Governed.Shared.{
  notified_if-ok, recorded_if-ok, same_authority, IsActive, claim_baseline-IsActive,
}
use agenova.Gateway.Model.{
  Request, ModelGateway, validate, enforce_authority, recording_failed, adapter_failed,
  limit_denial, unavailable_denial, fact, admit_request, record_outcome, granted, reserved,
  budgeted, judged, proceed, invoke,
}

different_false :
    {E : Type 0} (b : Bool) (u : E)
    → ◌≡◌ {A = Result E Unit} (refuse_if (not b) u) (ok tt)
    → b ≡ true
different_false true u h = refl
different_false false u h = cc h

module _ {W : Type 0} (m : ModelGateway W) (req : Request) where
  -- What the checks establish of a request and the claim it names.
  pub record Granted (w : W) (s : ClaimAuthoritySnapshot) : Type 0 where
    pub well_formed : validate m.base.quote req ≡ ok tt
    pub known : resolve_claim (reading m.base.claims w) req.claim_id ≡ ok s
    pub active : IsActive m.base w req.claim_id s.claim
    pub authority : s.effective_authority.id ≡ s.claim.authority_ref
    pub profile : s.effective_authority.model_profile ≡ req.profile

  pub admit_request-Granted :
      (w : W) (s : ClaimAuthoritySnapshot) → admit_request m req w ≡ ok s → Granted w s
  unfolding admit_request enforce_authority
  admit_request-Granted w s h =
      let (_, v, h₁) = >>=-eq-ok (notified_if (validate m.base.quote req)) h in
      let (x, k, h₂) =
        >>=-eq-ok (notified_if (resolve_claim (reading m.base.claims w) req.claim_id)) h₁ in
      let (_, b, h₃) = >>=-eq-ok (recorded_if (claim_baseline m.base w req.claim_id x.claim)) h₂ in
      let (_, e, h₄) = >>=-eq-ok (recorded_if (enforce_authority m.base.quote req x)) h₃ in
      let a = x.effective_authority in
      let (_, i, e₁) =
        >>=-eq-ok (refuse_if (a.id == "" || a.id != x.claim.authority_ref) _)
          (recorded_if-ok _ tt e) in
      subst (Granted w) (ok_injective h₄) (record {
        well_formed = notified_if-ok _ tt v;
        known = notified_if-ok _ x k;
        active = claim_baseline-IsActive m.base w req.claim_id x.claim (recorded_if-ok _ tt b);
        authority = same_authority a.id x.claim.authority_ref _ i;
        profile = (==_iff a.model_profile req.profile).0 (different_false _ _ e₁);
      })

  -- The budget was reserved; without accounting, the authority sets no limit.
  abbrev pub Reserved :
      Option (Request → ClaimAuthoritySnapshot → String → W → W × Result String Bool)
      → String
      → W
      → ClaimAuthoritySnapshot
      → Type 0
  Reserved none id w s = ltb_ℤ (pos 0) s.effective_authority.runtime.max_model_calls ≡ false
  Reserved (some reserve) id w s = (reserve req s id w).1 ≡ ok true

  abbrev CallMade : String → Host W Request → Reply W Request → Type 0
  CallMade id h r =
      (r.decision.result ≡ allow)
      × (r.host.dispatched ≡ h.dispatched ++ (id, req) ∷ [])
      × ((now : ℕ) × (r.host.store ≡ fact m req id allow now h.store))

  unrecorded :
      (id : String) (o : Outcome) (h k : Host W Request)
      → k.dispatched ≡ h.dispatched
      → (record_outcome m req id o k).host.dispatched ≡ h.dispatched
  unrecorded id o h k d =
      (record_decision-Reports m.base recording_failed req (fact m req id o.result) id o
        k).0.dispatched
      ∙ d

  granted-CallMade :
      (id : String) (o : Outcome) (h k : Host W Request)
      → o.result ≡ allow
      → k.dispatched ≡ h.dispatched
      → k.store ≡ h.store
      → ((granted m req id o k).host.dispatched ≡ h.dispatched)
        ⊎ CallMade id h (granted m req id o k)
  granted-CallMade id o h k allowed d t =
      let reply = record_outcome m req id o k in
      let (rep, _, written) =
        record_decision-Reports m.base recording_failed req (fact m req id o.result) id o k in
      let (same, kept, how) = dispatch-Dispatched m.base (adapter_failed id) req id reply in
      elim how [
        | inl none_made ↦ inl (none_made ∙ (rep.dispatched ∙ d))
        | inr (no_error, made) ↦
            let (now, put) = written no_error in
            inr (
              ap (λ (x : GatewayDecision). x.result) (same ∙ rep.decided) ∙ allowed,
              made ∙ ap (λ l. l ++ (id, req) ∷ []) (rep.dispatched ∙ d),
              (
                now,
                kept
                    ∙ (put
                        ∙ (ap (λ x. fact m req id x now k.store) allowed
                            ∙ ap (fact m req id allow now) t)),
              ),
            )
      ]

  -- No provider call was added, or one was, with its budget.
  abbrev Spent :
      Option (Request → ClaimAuthoritySnapshot → String → W → W × Result String Bool)
      → String
      → W
      → ClaimAuthoritySnapshot
      → Host W Request
      → Reply W Request
      → Type 0
  Spent reserve id w s h r =
      (r.host.dispatched ≡ h.dispatched) ⊎ (Reserved reserve id w s × CallMade id h r)

  reserved-CallMade :
      (id : String) (o : Outcome) (h k : Host W Request) (r : Result String Bool)
      → o.result ≡ allow
      → k.dispatched ≡ h.dispatched
      → k.store ≡ h.store
      → ((reserved m req id o r k).host.dispatched ≡ h.dispatched)
        ⊎ ((r ≡ ok true) × CallMade id h (reserved m req id o r k))
  reserved-CallMade id o h k (err e) a d t = inl d
  reserved-CallMade id o h k (ok false) a d t = inl (unrecorded id limit_denial h k d)
  reserved-CallMade id o h k (ok true) a d t = elim (granted-CallMade id o h k a d t) [
    | inl n ↦ inl n
    | inr p ↦ inr (refl, p)
  ]

  budgeted-Spent :
      (reserve : Option (Request → ClaimAuthoritySnapshot → String → W → W × Result String Bool))
      (id : String) (o : Outcome) (s : ClaimAuthoritySnapshot) (h k : Host W Request)
      → o.result ≡ allow
      → k.dispatched ≡ h.dispatched
      → k.store ≡ h.store
      → Spent reserve id k.world s h (budgeted m reserve req id o s k)
  budgeted-Spent (some reserve) id o s h k a d t =
      let (w, r) = reserve req s id k.world in
      reserved-CallMade id o h (record k { world = w }) r a d t
  budgeted-Spent none id o s h k a d t =
      elim (Bool-cases (ltb_ℤ (pos 0) s.effective_authority.runtime.max_model_calls)) [
        | inl y ↦ rw y (inl (unrecorded id unavailable_denial h k d))
        | inr n ↦
            rw n (elim (granted-CallMade id o h k a d t) [ inl c ↦ inl c | inr p ↦ inr (refl, p) ])
      ]

  -- No provider call was added; or one was, of this request, granted, allowed, reserved and recorded.
  abbrev pub Governed : W → String → Host W Request → Reply W Request → Type 0
  Governed w id h r =
      (r.host.dispatched ≡ h.dispatched)
      ⊎ ((s : ClaimAuthoritySnapshot) × Granted w s
          × ((normalize m.base.quote (m.base.policy req w).1).result ≡ allow)
          × Reserved m.reserve_budget id (m.base.policy req w).0 s
          × (r.decision.result ≡ allow)
          × (r.host.dispatched ≡ h.dispatched ++ (id, req) ∷ [])
          × ((now : ℕ) × (r.host.store ≡ fact m req id allow now h.store)))

  judged-Governed :
      (w : W) (id : String) (h k : Host W Request) (o : Outcome) (s : ClaimAuthoritySnapshot)
      → Granted w s
      → normalize m.base.quote (m.base.policy req w).1 ≡ o
      → k.world ≡ (m.base.policy req w).0
      → k.dispatched ≡ h.dispatched
      → k.store ≡ h.store
      → Governed w id h (judged m req id o s k)
  judged-Governed w id h k o s p e v d t = elim (Bool-cases (o.result == allow)) [
    | inr n ↦ rw n (inl (unrecorded id o h k d))
    | inl y ↦
        let allowed : o.result ≡ allow = (==_iff o.result allow).0 y in
        rw y (elim (budgeted-Spent m.reserve_budget id o s h k allowed d t) [
          | inl none_made ↦ inl none_made
          | inr (budget, (decided, made, stored)) ↦ inr (
            s,
            p,
            ap (λ (x : Outcome). x.result) e ∙ allowed,
            subst (λ x. Reserved m.reserve_budget id x s) v budget,
            decided,
            made,
            stored,
          )
        ])
  ]

  proceed-Governed :
      (w : W) (id : String) (h : Host W Request) (r : Result Refusal ClaimAuthoritySnapshot)
      → admit_request m req w ≡ r
      → h.world ≡ w
      → Governed w id h (proceed m req id r h)
  proceed-Governed w id h (err (notified o)) e same =
      inl (notify-Reports m.base recording_failed req id o h).0.dispatched
  proceed-Governed w id h (err (recorded o)) e same = inl (unrecorded id o h h refl)
  proceed-Governed w id h (ok s) e same =
      judged-Governed w id h _ _ s (admit_request-Granted w s e)
        (ap (λ v. normalize m.base.quote (m.base.policy req v).1) (sym same))
        (ap (λ v. (m.base.policy req v).0) same) refl refl

  -- One call of invoke makes at most one provider call. It makes one only for a well-formed request, when
  -- the reader knows the claim, the claim runs and so does its parent if it has one, the claim's effective
  -- authority has the model profile, the policy's outcome is Allow, the call budget is reserved (or there is
  -- no accounting and no limit), and the Allow fact of the invocation is in the store.
  pub invoke-Reserved :
      (h : Host W Request) → let (w, id) = m.base.ids h.world in Governed w id h (invoke m req h)
  unfolding invoke
  invoke-Reserved h =
      let (w, id) = m.base.ids h.world in
      proceed-Governed w id (record h { world = w }) (admit_request m req w) refl refl
