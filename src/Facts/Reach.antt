-- ===== src/Facts/Reach.antt =====
-- The journals that the methods can make, and the induction over them.
use agenova.Prelude.{
  ℕ, ◌<◌, ◌^◌, String, Bool, true, false, ◌&&◌, ◌||◌, Option, none, some, Result, ok, err,
  >>=-eq-ok, refuse_if, is_some, ◌==◌, ◌!=◌, string_eq, nat_eq, leb, get_or, update, ◌≡◌, ◌≢◌, refl,
  inl, inr, arith, Bool-cases, ==_iff, false_ne,
}
use agenova.Api.{Principal, SandboxClaim}
use agenova.Facts.{Fact, Journal, InvocationState, no_state, new_journal}
use agenova.Facts.Checks.{
  content_check, claim_check, action_check, action_ref_check, budget_check, decision_check,
  authority_check, backend_check, invocation_check,
}
use agenova.Facts.Registration.{register_request, bind_claim, bound_claim, join_claim}
use agenova.Facts.Advance.{stages}
use agenova.Facts.Append.{
  Sink, requester, validate, next_sequence, clone_fact, year_10000, stamped, stamp, prepare,
  publish, chosen, commit_fact, publish_if, record_fact, append_with,
}

-- What `append` knows of a fact when it reaches the commit.
pub record Prepared (j : Journal) (now : ℕ) (f g : Fact) (stage : InvocationState) : Type 0 where
  pub named : g ≡ stamped j now f
  pub fresh : is_some (j.ids (stamped j now f).id) ≡ false
  pub later : leb (next_sequence j) j.start_sequence ≡ false
  pub staged : stages f (get_or no_state (j.invocation_states f.invocation_id)) ≡ ok stage
  pub registered : is_some (j.requests f.request_ref) ≡ true
  pub correlated : claim_check j f ≡ ok tt
  pub related : action_ref_check j f ≡ ok tt
  pub budgeted : budget_check j f ≡ ok tt
  pub placed : backend_check j f f.backend_identity ≡ ok tt
  pub owned : invocation_check j f ≡ ok tt

pub refuse_if_ok : (b : Bool) (e : String) (u : Unit {0}) → refuse_if b e ≡ ok u → b ≡ false
refuse_if_ok true e u h = cc
refuse_if_ok false e u h = refl

clone_ok : (f g : Fact) → clone_fact f ≡ ok g → g ≡ f
unfolding clone_fact
clone_ok f g h = elim (Bool-cases (leb year_10000 f.timestamp)) [
  | inl e ↦ absurd (let p : err "fact is not serializable" ≡ ok g = rw (e, clone_fact) at h in cc)
  | inr n ↦ let p : ok f ≡ ok g = rw (n, clone_fact) at h in cc
]

requester_ok :
    (j : Journal) (f : Fact) (p : Principal)
    → requester j f ≡ ok p
    → is_some (j.requests f.request_ref) ≡ true
requester_ok j f p h = ground arith

stamp_ok :
    (j : Journal) (now : ℕ) (f g : Fact)
    → stamp j now f ≡ ok g
    → (g ≡ stamped j now f)
      × (is_some (j.ids (stamped j now f).id) ≡ false)
      × (leb (next_sequence j) j.start_sequence ≡ false)
unfolding stamp
stamp_ok j now f g h =
    let (u, e₁, h₁) = >>=-eq-ok (refuse_if _ _) h in
    let (v, e₂, h₂) = >>=-eq-ok (refuse_if _ _) h₁ in
    (clone_ok _ g h₂, refuse_if_ok _ _ v e₂, refuse_if_ok _ _ u e₁)

validate_ok :
    (j : Journal) (now : ℕ) (f g : Fact) (stage : InvocationState)
    → validate j f ≡ ok stage
    → stamp j now f ≡ ok g
    → Prepared j now f g stage
unfolding validate
validate_ok j now f g stage h s =
    let (named, fresh, later) = stamp_ok j now f g s in
    let (_, c1, h1) = >>=-eq-ok (content_check f) h in
    let (principal, c2, h2) = >>=-eq-ok (requester j f) h1 in
    let (_, c3, h3) = >>=-eq-ok (claim_check j f) h2 in
    let (_, c4, h4) = >>=-eq-ok (action_check f) h3 in
    let (_, c5, h5) = >>=-eq-ok (action_ref_check j f) h4 in
    let (_, c6, h6) = >>=-eq-ok (budget_check j f) h5 in
    let (_, c7, h7) = >>=-eq-ok (decision_check principal f f.decision) h6 in
    let (_, c8, h8) = >>=-eq-ok (authority_check j f) h7 in
    let (_, c9, h9) = >>=-eq-ok (backend_check j f f.backend_identity) h8 in
    let (_, c10, h10) = >>=-eq-ok (invocation_check j f) h9 in
    record {
      named = named;
      fresh = fresh;
      later = later;
      staged = h10;
      registered = requester_ok j f principal c2;
      correlated = c3;
      related = c5;
      budgeted = c6;
      placed = c9;
      owned = c10;
    }

pub prepare_ok :
    (j : Journal) (now : ℕ) (f : Fact) (ready : Fact × InvocationState)
    → prepare j now f ≡ ok ready
    → Prepared j now f ready.0 ready.1
unfolding prepare
prepare_ok j now f ready h =
    let (stage, e, h₁) = >>=-eq-ok (validate j f) h in
    let (g, e₁, h₂) = >>=-eq-ok (stamp j now f) h₁ in
    let q : ready ≡ (g, stage) = cc in rw q (validate_ok j now f g stage e e₁)

or_false : (a b : Bool) → (a || b) ≡ false → a ≡ false
or_false a b h = ground arith

-- A predicate that every method keeps.
pub record IsKept (P : Journal → Type 0) : Type 0 where
  pub at_new : (start : ℕ) → start < 2 ^ 64 → P (new_journal start)
  pub at_register :
      (j : Journal) (ref : String) (p : Principal)
      → ref ≢ ""
      → P j
      → P (record j { requests = update j.requests ref p })
  pub at_bind :
      (j : Journal) (ref : String) (claim : SandboxClaim)
      → is_some (j.requests ref) ≡ true
      → claim.id ≢ ""
      → j.claims claim.id ≡ none
      → j.request_claims ref ≡ none
      → P j
      → P (bound_claim j ref claim)
  pub at_publish :
      (j : Journal) (now : ℕ) (f g : Fact) (stage : InvocationState)
      → Prepared j now f g stage
      → P j
      → P (publish j g stage)

-- A journal that the methods make, over a durable store of type `W`.
pub data Reach (W : Type 0) : Journal → Type 0 where
  created : (start : ℕ) → start < 2 ^ 64 → Reach W (new_journal start)
  registered :
      {j : Journal} (ref : String) (p : Principal)
      → Reach W j
      → Reach W (register_request j ref p).0
  claimed :
      {j : Journal} (ref : String) (claim : SandboxClaim)
      → Reach W j
      → Reach W (bind_claim j ref claim).0
  appended :
      {j : Journal} (default override : Option (Sink W)) (w : W) (now : ℕ) (f : Fact)
      → Reach W j
      → Reach W (append_with default override j w now f).0

is_none : {A : Type 0} (o : Option A) → is_some o ≡ false → o ≡ none
is_none none h = refl
is_none (some a) h = cc

module _ {P : Journal → Type 0} (k : IsKept P) where
  register_keeps :
      (j : Journal) (ref : String) (p : Principal) → P j → P (register_request j ref p).0
  unfolding register_request
  register_keeps j ref p h = elim (Bool-cases (ref == "" || p.subject == "")) [
    | inl e ↦ rw (e, register_request) h
    | inr n ↦ elim (Bool-cases (is_some (j.requests ref))) [
      | inl e ↦ rw (n, e, register_request) h
      | inr m ↦
          rw (n, m, register_request) (k.at_register j ref p (false_ne ref "" (or_false _ _ n)) h)
    ]
  ]

  join_keeps :
      (j : Journal) (ref : String) (claim : SandboxClaim)
      → is_some (j.requests ref) ≡ true
      → (claim.id == "") ≡ false
      → (owner : Option String) → j.claims claim.id ≡ owner
      → P j
      → P (join_claim j ref claim owner).0
  join_keeps j ref claim known named (some owner) e h =
      elim (Bool-cases (owner == ref && get_or "" (j.request_claims ref) == claim.id)) [
        | inl t ↦ rw t h
        | inr n ↦ rw n h
      ]
  join_keeps j ref claim known named none e h = elim (Bool-cases (is_some (j.request_claims ref))) [
    | inl t ↦ rw t h
    | inr n ↦ rw n (
        k.at_bind j ref claim known (λ p. cc (named, (==_iff claim.id "").1 p)) e
          (is_none (j.request_claims ref) n) h)
  ]

  bind_keeps :
      (j : Journal) (ref : String) (claim : SandboxClaim) → P j → P (bind_claim j ref claim).0
  unfolding bind_claim
  bind_keeps j ref claim h = elim (Bool-cases (is_some (j.requests ref))) [
    | inl known ↦ elim (Bool-cases (claim.id == "" || claim.request_ref != ref)) [
      | inl e ↦ rw (known, e, bind_claim) h
      | inr n ↦
          rw (known, n, bind_claim)
            (join_keeps j ref claim known (or_false _ _ n) (j.claims claim.id) refl h)
    ]
    | inr e ↦ rw (e, bind_claim) h
  ]

  publish_keeps :
      {W : Type 0} (j : Journal) (now : ℕ) (f g : Fact) (stage : InvocationState)
      (r : W × Option String)
      → Prepared j now f g stage
      → P j
      → P (publish_if j g stage r).0
  publish_keeps j now f g stage (w, some e) h p = p
  publish_keeps j now f g stage (w, none) h p = k.at_publish j now f g stage h p

  record_keeps :
      {W : Type 0} (sink : Option (Sink W)) (j : Journal) (w : W) (now : ℕ) (f : Fact)
      (r : Result String (Fact × InvocationState))
      → prepare j now f ≡ r
      → P j
      → P (record_fact sink j w r).0
  record_keeps sink j w now f (err e) h p = p
  record_keeps sink j w now f (ok (g, stage)) h p =
      publish_keeps j now f g stage (commit_fact sink w g) (prepare_ok j now f (g, stage) h) p

  -- The induction: what every method keeps holds of every journal.
  pub Reach_induction : {W : Type 0} {j : Journal} → Reach W j → P j
  unfolding append_with
  Reach_induction (created start h) = k.at_new start h
  Reach_induction (registered {j = j} ref p r) = register_keeps j ref p (Reach_induction r)
  Reach_induction (claimed {j = j} ref claim r) = bind_keeps j ref claim (Reach_induction r)
  Reach_induction (appended {j = j} default override w now f r) =
      record_keeps (chosen default override) j w now f (prepare j now f) refl (Reach_induction r)
