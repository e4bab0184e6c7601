-- ===== src/Sandbox/Accounting.antt =====
-- ClaimIdle against the counts that Status reports.
use agenova.Prelude.{
  ◌+◌, String, List, [], ◌∷◌, Option, none, some, ok, err, ◌==◌, string_eq, count, Result, ◌≡◌, ◌≢◌,
  refl, ap, inl, inr, arith, All, Bool-cases, ==_iff,
}
use agenova.Sandbox.{
  Sandbox, WarmPool, idle, bound, running, phase_beq, in_phase, claim_first, claim_idle, claimed,
  status, PoolError, no_idle,
}
use agenova.Sandbox.Slots.{
  OneSlot, OneSlot-weaken, here, there, Claims, Takes, Claimed, claim_first-Claimed,
}

pub record Bound (c : String) (p q : WarmPool) : Type 0 where
  pub fewer_idle : (status q).idle_sandboxes + 1 ≡ (status p).idle_sandboxes
  pub more_bound : (status q).bound_claims ≡ (status p).bound_claims + 1
  pub same_running : (status q).running_claims ≡ (status p).running_claims
  pub same_replaced : (status q).replaced_sandboxes ≡ (status p).replaced_sandboxes

record Counts (l l' : List Sandbox) : Type 0 where
  idles : count (in_phase idle) l' + 1 ≡ count (in_phase idle) l
  bounds : count (in_phase bound) l' ≡ count (in_phase bound) l + 1
  runnings : count (in_phase running) l' ≡ count (in_phase running) l

Counts-claim : {c : String} {l l' : List Sandbox} → OneSlot (Claims c) l l' → Counts l l'
Counts-claim (here {s = s} {s' = s'} {l = l} (e, q)) =
    let a : s'.phase ≡ bound = ap (λ (t : Sandbox). t.phase) q in
    record {
      idles = rw (a, e) (omega arith);
      bounds = rw (a, e) (omega arith);
      runnings = rw (a, e) (omega arith);
    }
Counts-claim (there {s = s} o) =
    let h = Counts-claim o in
    record {
      idles = omega (arith, h.idles);
      bounds = omega (arith, h.bounds);
      runnings = omega (arith, h.runnings);
    }

none_idle : (l : List Sandbox) → All (λ s. s.phase ≢ idle) l → count (in_phase idle) l ≡ 0
none_idle [] h = refl
none_idle (s ∷ l) h = elim (Bool-cases (phase_beq s.phase idle)) [
  | inl e ↦ absurd (h.0 (ground arith))
  | inr n ↦ rw n (omega (arith, none_idle l h.1))
]

-- What a claim that is not blank gets.
abbrev pub Outcome : String → WarmPool → WarmPool × Result PoolError Sandbox → Type 0
Outcome c p (q, ok t) =
    OneSlot (Takes c t) p.sandboxes q.sandboxes × (t.claim_id ≡ c) × (t.phase ≡ bound) × Bound c p q
Outcome c p (q, err e) = (q ≡ p) × (e ≡ no_idle) × ((status p).idle_sandboxes ≡ 0)

claimed-Outcome :
    (c : String) (p : WarmPool) (r : Option (Sandbox × List Sandbox))
    → Claimed c p.sandboxes r
    → Outcome c p (claimed p r)
unfolding status
claimed-Outcome c p none h = (refl, refl, none_idle p.sandboxes h)
claimed-Outcome c p (some (t, l)) (o, a, b) =
    let n = Counts-claim (OneSlot-weaken (λ s s' x. x.0) o) in
    (
      o,
      a,
      b,
      record {
        fewer_idle = n.idles;
        more_bound = n.bounds;
        same_running = n.runnings;
        same_replaced = refl;
      },
    )

-- A claim that is not blank gets a sandbox that is bound to it: one sandbox of the pool that was idle is now bound
-- to the claim in the pool too, the others stay as they were, and of the counts of Status one moves from idle to
-- bound; or no sandbox is idle, and then the pool is unchanged and the error says so.
pub claim_idle-Outcome : (p : WarmPool) (c : String) → c ≢ "" → Outcome c p (claim_idle p c)
unfolding claim_idle
claim_idle-Outcome p c taken = elim (Bool-cases (c == "")) [
  | inl e ↦ absurd (taken ((==_iff c "").0 e))
  | inr n ↦
      rw (n, claim_idle)
        (claimed-Outcome c p (claim_first c p.sandboxes) (claim_first-Claimed c p.sandboxes))
]
