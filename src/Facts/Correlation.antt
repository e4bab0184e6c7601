-- ===== src/Facts/Correlation.antt =====
-- Facts, invocations, claims and requests are never attributed across one another.
use agenova.Prelude.{
  ℕ, String, true, false, [], ◌∷◌, Option, none, some, Map, is_some, get_or, update, update_self,
  ok, All, All-append, All-weaken, All-mem, ◌==◌, ◌!=◌, string_eq, if◌then◌else◌, ◌≡◌, ◌≢◌, ◌↔◌,
  sym, ap, ◌∙◌, arith, Bool-cases, inl, inr, ==_iff, false_test, false_ne,
}
use mathlib.Core.List.{Memᴰ}
use agenova.Api.{Principal, SandboxClaim}
use agenova.Facts.{Fact, Journal, InvocationState, new_journal}
use agenova.Facts.Checks.{claim_check, invocation_check, given}
use agenova.Facts.Registration.{bound_claim}
use agenova.Facts.Append.{publish, stamped}
use agenova.Facts.Reach.{IsKept, Reach, Reach_induction}
use agenova.Facts.Published.{publish-facts, publish_fields}

-- A fact that names a claim names that claim's request; one that names an invocation names the
-- claim of that invocation.
pub record IsPlaced (claims invocations : Map String String) (f : Fact) : Type 0 where
  pub claimed : f.claim_id ≢ "" → claims f.claim_id ≡ some f.request_ref
  pub resolved : f.invocation_id ≢ "" → f.claim_id ≢ ""
  pub owned : f.invocation_id ≢ "" → invocations f.invocation_id ≡ some f.claim_id

pub record IsCorrelated (j : Journal) : Type 0 where
  pub placed : All (IsPlaced j.claims j.invocations) j.facts
  pub forth : (c r : String) → j.claims c ≡ some r → j.request_claims r ≡ some c
  pub back : (c r : String) → j.request_claims r ≡ some c → j.claims c ≡ some r
  pub named : (c r : String) → j.claims c ≡ some r → c ≢ ""
  pub filed : (r : String) → is_some (j.requests r) ≡ true → r ≢ ""

module _ (j : Journal) (now : ℕ) (f : Fact) (stage : InvocationState) where
  abbrev invocations_after : Map String String
  invocations_after =
      if f.invocation_id == ""
      then j.invocations
      else update j.invocations f.invocation_id f.claim_id

  checked_claim :
      claim_check j f ≡ ok tt → f.claim_id ≢ "" → get_or "" (j.claims f.claim_id) ≡ f.request_ref
  unfolding claim_check
  checked_claim h n =
      ground
        (arith, ==_iff (get_or "" (j.claims f.claim_id)) f.request_ref, false_test f.claim_id "" n)

  checked_owner :
      invocation_check j f ≡ ok tt
      → f.invocation_id ≢ ""
      → (f.claim_id ≢ "")
        × (given (λ owner. owner != f.claim_id) (j.invocations f.invocation_id) ≡ false)
  unfolding invocation_check
  checked_owner h n =
      let fi = false_test f.invocation_id "" n in
      (false_ne f.claim_id "" (ground arith), ground arith)

  given_none :
      (o : Option String)
      → given (λ owner. owner != f.claim_id) o ≡ false
      → (owner : String) → o ≡ some owner
      → owner ≡ f.claim_id
  given_none o h owner e = ground (arith, ==_iff owner f.claim_id)

  of_get_or : (o : Option String) (r : String) → r ≢ "" → get_or "" o ≡ r → o ≡ some r
  of_get_or none r n e = absurd (n (sym e))
  of_get_or (some x) r n e = ap some e

  -- The new fact is in its place.
  placed_self :
      f.request_ref ≢ ""
      → claim_check j f ≡ ok tt
      → invocation_check j f ≡ ok tt
      → IsPlaced j.claims invocations_after (stamped j now f)
  placed_self ne c i = record {
    claimed = λ n. of_get_or (j.claims f.claim_id) f.request_ref ne (checked_claim c n);
    resolved = λ n. (checked_owner i n).0;
    owned = λ n.
        rw (false_test f.invocation_id "" n) (update_self j.invocations f.invocation_id f.claim_id);
  }

  -- The earlier facts stay in theirs.
  owned_still :
      invocation_check j f ≡ ok tt
      → (inv c : String) → j.invocations inv ≡ some c
      → invocations_after inv ≡ some c
  owned_still i inv c e = elim (Bool-cases (f.invocation_id == "")) [
    | inl z ↦ rw z e
    | inr n ↦ elim (Bool-cases (f.invocation_id == inv)) [
      | inl same ↦
          let p = (==_iff f.invocation_id inv).0 same in
          let o = (checked_owner i (false_ne f.invocation_id "" n)).1 in
          rw (n, same)
            (ap some
              (sym (given_none (j.invocations f.invocation_id) o c (ap j.invocations p ∙ e))))
      | inr other ↦ rw (n, other) e
    ]
  ]

  placed_still :
      invocation_check j f ≡ ok tt
      → (g : Fact) → IsPlaced j.claims j.invocations g
      → IsPlaced j.claims invocations_after g
  placed_still i g h = record {
    claimed = h.claimed;
    resolved = h.resolved;
    owned = λ n. owned_still i g.invocation_id g.claim_id (h.owned n);
  }

  publish-IsCorrelated :
      claim_check j f ≡ ok tt
      → invocation_check j f ≡ ok tt
      → is_some (j.requests f.request_ref) ≡ true
      → IsCorrelated j
      → IsCorrelated (publish j (stamped j now f) stage)
  publish-IsCorrelated c i known h =
      let g = stamped j now f in
      let (_, req, cl, rc, inv, _) = publish_fields j g stage in
      record {
        placed =
            rw (publish-facts, cl, inv)
              (All-append (IsPlaced j.claims invocations_after) j.facts (g ∷ [])
                (All-weaken (IsPlaced j.claims j.invocations) (IsPlaced j.claims invocations_after)
                  j.facts (placed_still i) h.placed)
                (placed_self (h.filed f.request_ref known) c i, tt));
        forth = rw (cl, rc) h.forth;
        back = rw (cl, rc) h.back;
        named = rw cl h.named;
        filed = rw req h.filed;
      }

module _ (j : Journal) (ref : String) (claim : SandboxClaim) where
  abbrev claims_after : Map String String
  claims_after = update j.claims claim.id ref

  bind_still :
      j.claims claim.id ≡ none
      → (g : Fact) → IsPlaced j.claims j.invocations g
      → IsPlaced claims_after j.invocations g
  bind_still free g h = record {
    claimed = λ n. elim (Bool-cases (claim.id == g.claim_id)) [
      | inl e ↦
          absurd
            (let p = ap j.claims ((==_iff claim.id g.claim_id).0 e) in let q = h.claimed n in cc)
      | inr m ↦ rw m (h.claimed n)
    ];
    resolved = h.resolved;
    owned = h.owned;
  }

  bind-IsCorrelated :
      claim.id ≢ ""
      → j.claims claim.id ≡ none
      → j.request_claims ref ≡ none
      → IsCorrelated j
      → IsCorrelated (bound_claim j ref claim)
  bind-IsCorrelated n free single h = record {
    placed =
        All-weaken (IsPlaced j.claims j.invocations) (IsPlaced claims_after j.invocations) j.facts
          (bind_still free) h.placed;
    forth = λ c r e. ground (
      arith,
      h.forth c r,
      h.back c r,
      h.back claim.id r,
      h.forth c ref,
      ==_iff claim.id c,
      ==_iff ref r,
    );
    back = λ c r e. ground (
      arith,
      h.forth c r,
      h.back c r,
      h.back claim.id r,
      h.forth c ref,
      ==_iff claim.id c,
      ==_iff ref r,
    );
    named = λ c r e. ground (arith, h.named c r, ==_iff claim.id c);
    filed = h.filed;
  }

register_filed :
    (j : Journal) (ref : String) (p : Principal)
    → ref ≢ ""
    → ((r : String) → is_some (j.requests r) ≡ true → r ≢ "")
    → (r : String) → is_some (update j.requests ref p r) ≡ true
    → r ≢ ""
register_filed j ref p ne h r e = ground (arith, h r, ==_iff ref r)

IsCorrelated-kept : IsKept IsCorrelated
unfolding new_journal
IsCorrelated-kept = record {
  at_new = λ start h. record {
    placed = tt;
    forth = λ c r e. cc;
    back = λ c r e. cc;
    named = λ c r e. cc;
    filed = λ r e. cc;
  };
  at_register = λ j ref p ne h. record {
    placed = h.placed;
    forth = h.forth;
    back = h.back;
    named = h.named;
    filed = register_filed j ref p ne h.filed;
  };
  at_bind = λ j ref claim k n c r h. bind-IsCorrelated j ref claim n c r h;
  at_publish = λ j now f g stage p h.
      rw p.named (publish-IsCorrelated j now f stage p.correlated p.owned p.registered h);
}

-- In every journal that the methods can make, two facts of one invocation, whose name is not
-- empty, name one claim and one request.
pub fact_correlation :
    (W : Type 0) (j : Journal) (f g : Fact)
    → Reach W j
    → Memᴰ f j.facts
    → Memᴰ g j.facts
    → f.invocation_id ≢ ""
    → f.invocation_id ≡ g.invocation_id
    → (f.claim_id ≡ g.claim_id) × (f.request_ref ≡ g.request_ref)
fact_correlation W j f g reach mf mg n e =
    let h = Reach_induction IsCorrelated-kept reach in
    let pf = All-mem (IsPlaced j.claims j.invocations) j.facts h.placed mf in
    let pg = All-mem (IsPlaced j.claims j.invocations) j.facts h.placed mg in
    let n' = λ (z : g.invocation_id ≡ ""). n (e ∙ z) in
    let same : f.claim_id ≡ g.claim_id = cc (pf.owned n, pg.owned n', ap j.invocations e) in
    (same, cc (pf.claimed (pf.resolved n), pg.claimed (pg.resolved n'), ap j.claims same))

-- In every journal that the methods can make, a claim belongs to a request exactly when it is the
-- request's one claim.
pub claims_one_to_one :
    (W : Type 0) (j : Journal) (c r : String)
    → Reach W j
    → (j.claims c ≡ some r) ↔ (j.request_claims r ≡ some c)
claims_one_to_one W j c r reach =
    let h = Reach_induction IsCorrelated-kept reach in (h.forth c r, h.back c r)
