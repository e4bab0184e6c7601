-- ===== src/Gateway/Governed/ToolCalls.antt =====
-- When the tool gateway calls the adapter (internal/toolgateway/gateway.go).
use agenova.Prelude.{
  ℕ, String, true, not, ◌||◌, [], ◌∷◌, ◌++◌, Result, ok, err, refuse_if, ◌==◌, ◌!=◌, string_eq,
  contains, ◌≡◌, ◌⊎◌, inl, inr, refl, sym, ap, ◌∙◌, subst, Bool-cases, ==_iff, >>=-eq-ok,
  ok_injective,
}
use agenova.Api.{allow}
use agenova.Run.Eligibility.{ClaimAuthoritySnapshot}
use agenova.Gateway.Decisions.{GatewayDecision, Outcome, normalize}
use agenova.Gateway.Ports.{
  Gateway, Host, Reply, Refusal, notified, recorded, notified_if, recorded_if, reading,
  resolve_claim, claim_baseline,
}
use agenova.Gateway.Reporting.{notify-Reports, record_decision-Reports, dispatch-Dispatched}
use agenova.Gateway.Governed.Shared.{
  notified_if-ok, recorded_if-ok, not_refused, same_authority, IsActive, claim_baseline-IsActive,
}
use agenova.Gateway.Tool.{
  Request, tool_name, validate, enforce_authority, recording_failed, adapter_failed, fact,
  admit_request, record_outcome, judged, proceed, invoke,
}

module _ {W : Type 0} (g : Gateway W Request) (req : Request) where
  -- What the checks establish of a request and the claim it names.
  pub record Granted (w : W) (s : ClaimAuthoritySnapshot) : Type 0 where
    pub well_formed : validate g.quote req ≡ ok tt
    pub known : resolve_claim (reading g.claims w) req.claim_id ≡ ok s
    pub active : IsActive g w req.claim_id s.claim
    pub authority : s.effective_authority.id ≡ s.claim.authority_ref
    pub tool : contains s.effective_authority.tools (tool_name req) ≡ true
    pub scope : contains s.effective_authority.resource_scopes req.resource_scope ≡ true

  pub admit_request-Granted :
      (w : W) (s : ClaimAuthoritySnapshot) → admit_request g req w ≡ ok s → Granted w s
  unfolding admit_request enforce_authority
  admit_request-Granted w s h =
      let (_, v, h₁) = >>=-eq-ok (notified_if (validate g.quote req)) h in
      let (x, k, h₂) =
        >>=-eq-ok (notified_if (resolve_claim (reading g.claims w) req.claim_id)) h₁ in
      let (_, b, h₃) = >>=-eq-ok (recorded_if (claim_baseline g w req.claim_id x.claim)) h₂ in
      let (_, e, h₄) = >>=-eq-ok (recorded_if (enforce_authority g.quote req x)) h₃ in
      let same : x ≡ s = ok_injective h₄ in
      let a = x.effective_authority in
      let (_, i, e₁) =
        >>=-eq-ok (refuse_if (a.id == "" || a.id != x.claim.authority_ref) _)
          (recorded_if-ok _ tt e) in
      let (_, t, e₂) = >>=-eq-ok (refuse_if (not (contains a.tools (tool_name req))) _) e₁ in
      subst (Granted w) same (record {
        well_formed = notified_if-ok _ tt v;
        known = notified_if-ok _ x k;
        active = claim_baseline-IsActive g w req.claim_id x.claim (recorded_if-ok _ tt b);
        authority = same_authority a.id x.claim.authority_ref _ i;
        tool = not_refused _ _ t;
        scope = not_refused _ _ e₂;
      })

  -- No provider call was added; or one was, of this request, granted, allowed by the policy and recorded.
  abbrev pub Governed : W → String → Host W Request → Reply W Request → Type 0
  Governed w id h r =
      (r.host.dispatched ≡ h.dispatched)
      ⊎ ((s : ClaimAuthoritySnapshot) × Granted w s
          × ((normalize g.quote (g.policy req w).1).result ≡ allow)
          × (r.decision.result ≡ allow)
          × (r.host.dispatched ≡ h.dispatched ++ (id, req) ∷ [])
          × ((now : ℕ) × (r.host.store ≡ fact g req id allow now h.store)))

  judged-Governed :
      (w : W) (id : String) (h k : Host W Request) (o : Outcome) (s : ClaimAuthoritySnapshot)
      → Granted w s
      → normalize g.quote (g.policy req w).1 ≡ o
      → k.dispatched ≡ h.dispatched
      → k.store ≡ h.store
      → Governed w id h (judged g req id o k)
  judged-Governed w id h k o s p e d t =
      let reply = record_outcome g req id o k in
      let (rep, _, written) =
        record_decision-Reports g recording_failed req (fact g req id o.result) id o k in
      elim (Bool-cases (o.result == allow)) [
        | inr n ↦ rw n (inl (rep.dispatched ∙ d))
        | inl y ↦
            let allowed : o.result ≡ allow = (==_iff o.result allow).0 y in
            let (same, kept, how) = dispatch-Dispatched g (adapter_failed id) req id reply in
            rw y (elim how [
              | inl none_made ↦ inl (none_made ∙ (rep.dispatched ∙ d))
              | inr (no_error, made) ↦
                  let (now, put) = written no_error in
                  inr (
                    s,
                    p,
                    ap (λ (x : Outcome). x.result) e ∙ allowed,
                    ap (λ (x : GatewayDecision). x.result) (same ∙ rep.decided) ∙ allowed,
                    made ∙ ap (λ l. l ++ (id, req) ∷ []) (rep.dispatched ∙ d),
                    (
                      now,
                      kept
                          ∙ (put
                              ∙ (ap (λ x. fact g req id x now k.store) allowed
                                  ∙ ap (fact g req id allow now) t)),
                    ),
                  )
            ])
      ]

  proceed-Governed :
      (w : W) (id : String) (h : Host W Request) (m : Result Refusal ClaimAuthoritySnapshot)
      → admit_request g req w ≡ m
      → h.world ≡ w
      → Governed w id h (proceed g req id m h)
  proceed-Governed w id h (err (notified o)) e same =
      inl (notify-Reports g recording_failed req id o h).0.dispatched
  proceed-Governed w id h (err (recorded o)) e same =
      inl
        (record_decision-Reports g recording_failed req (fact g req id o.result) id o
          h).0.dispatched
  proceed-Governed w id h (ok s) e same =
      judged-Governed w id h _ _ s (admit_request-Granted w s e)
        (ap (λ v. normalize g.quote (g.policy req v).1) (sym same)) refl refl

  -- One call of invoke makes at most one provider call. It makes one only for a well-formed request, when
  -- the reader knows the claim, the claim runs and so does its parent if it has one, the claim's effective
  -- authority has the tool and the resource scope, the policy's outcome is Allow, and the Allow fact of the
  -- invocation is in the store; the call is of that very request.
  pub invoke-Governed :
      (h : Host W Request) → let (w, id) = g.ids h.world in Governed w id h (invoke g req h)
  unfolding invoke
  invoke-Governed h =
      let (w, id) = g.ids h.world in
      proceed-Governed w id (record h { world = w }) (admit_request g req w) refl refl
