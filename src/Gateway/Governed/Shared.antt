-- ===== src/Gateway/Governed/Shared.antt =====
-- Inversion of the checks that both gateways have (internal/toolgateway/gateway.go).
use agenova.Prelude.{
  String, Bool, true, false, not, ◌||◌, Option, none, some, Result, ok, err, refuse_if, ◌==◌, ◌!=◌,
  string_eq, ◌≡◌, refl, sym, ap, ◌∙◌, ==_iff, >>=-eq-ok, ok_injective,
}
use agenova.Api.{SandboxClaim}
use agenova.Run.Eligibility.{
  ClaimAuthorityReader, Ineligible, require_running_claim_snapshot, require_running_claim,
  IsRunning, require_running_claim_snapshot-IsRunning,
}
use agenova.Gateway.Decisions.{Outcome}
use agenova.Gateway.Ports.{
  Gateway, notified_if, recorded_if, reading, active, within_parent, parent_check, parent_of,
  claim_baseline,
}

pub notified_if-ok : {A : Type 0} (m : Result Outcome A) (a : A) → notified_if m ≡ ok a → m ≡ ok a
notified_if-ok (ok x) a h = ap ok (ok_injective h)
notified_if-ok (err o) a h = cc h

pub recorded_if-ok : {A : Type 0} (m : Result Outcome A) (a : A) → recorded_if m ≡ ok a → m ≡ ok a
recorded_if-ok (ok x) a h = ap ok (ok_injective h)
recorded_if-ok (err o) a h = cc h

pub not_refused :
    {E : Type 0} (b : Bool) (u : E)
    → ◌≡◌ {A = Result E Unit} (refuse_if (not b) u) (ok tt)
    → b ≡ true
not_refused true u h = refl
not_refused false u h = cc h

-- `authority.ID == "" || authority.ID != claim.AuthorityRef` does not refuse.
pub same_authority :
    {E : Type 0} (a b : String) (u : E)
    → ◌≡◌ {A = Result E Unit} (refuse_if (a == "" || a != b) u) (ok tt)
    → a ≡ b
same_authority a b u h = (==_iff a b).0 (second (a == "") (a == b) u h)
  where
    second :
        {E : Type 0} (x y : Bool) (u : E)
        → ◌≡◌ {A = Result E Unit} (refuse_if (x || not y) u) (ok tt)
        → y ≡ true
    second x true u h = refl
    second true false u h = cc h
    second false false u h = cc h

active-ok :
    (quote : String → String) (m : Result Ineligible (Unit {0}))
    → active quote m ≡ ok tt
    → m ≡ ok tt
active-ok quote (ok u) h = refl
active-ok quote (err e) h = cc h

within_parent-ok :
    (quote : String → String) (claim_id parent_id : String) (m : Result Ineligible (Unit {0}))
    → within_parent quote claim_id parent_id m ≡ ok tt
    → m ≡ ok tt
within_parent-ok quote claim_id parent_id (ok u) h = refl
within_parent-ok quote claim_id parent_id (err e) h = cc h

parent_check-ok :
    (quote : String → String) (reader : Option ClaimAuthorityReader) (claim_id : String)
    (o : Option String)
    → parent_check quote reader claim_id o ≡ ok tt
    → (p : String) → o ≡ some p
    → require_running_claim reader p ≡ ok tt
parent_check-ok quote reader claim_id none h p e = cc e
parent_check-ok quote reader claim_id (some q) h p e =
    let same : q ≡ p = cc e in
    ap (require_running_claim reader) (sym same) ∙ within_parent-ok quote claim_id q _ h

module _ {W R : Type 0} (g : Gateway W R) (w : W) (claim_id : String) where
  -- The claim runs, and so does its parent if it has one.
  pub record IsActive (claim : SandboxClaim) : Type 0 where
    pub running : IsRunning claim claim_id
    pub parent_running :
        (p : String)
        → parent_of g.lineage w claim_id ≡ some p
        → require_running_claim (reading g.claims w) p ≡ ok tt

  pub claim_baseline-IsActive :
      (claim : SandboxClaim) → claim_baseline g w claim_id claim ≡ ok tt → IsActive claim
  unfolding claim_baseline
  claim_baseline-IsActive claim h =
      let (_, a, h₁) =
        >>=-eq-ok (active g.quote (require_running_claim_snapshot claim claim_id)) h in
      record {
        running =
            require_running_claim_snapshot-IsRunning claim claim_id
              (active-ok g.quote (require_running_claim_snapshot claim claim_id) a);
        parent_running =
            parent_check-ok g.quote (reading g.claims w) claim_id (parent_of g.lineage w claim_id)
              h₁;
      }
