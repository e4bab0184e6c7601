-- ===== src/Sandbox/Steps.antt =====
-- The abstract transition system of a pool: a call changes nothing, or one slot along an edge of the
-- lifecycle Idle, Bound, Running, Succeeded or Failed, and fresh Idle.
use agenova.Prelude.{
  ◌+◌, String, List, Option, none, some, ok, err, Result, ◌==◌, string_eq, ◌≡◌, ◌≢◌, inl, inr,
  arith, Bool-cases, ==_iff, true, false, ap, ◌⊎◌,
}
use agenova.Sandbox.{
  Sandbox, WarmPool, Phase, PoolError, idle, bound, running, succeeded, failed, phase_beq,
  claim_first, on_sandbox, claim_idle, Call, claims, runs, succeeds, fails, replaces, after, store,
  claimed, replaced, move, fail, renew,
}
use agenova.Sandbox.Ids.{sandbox_id}
use agenova.Sandbox.Slots.{
  OneSlot, OneSlot-weaken, Claims, claim_first-Claimed, on_sandbox-Changed, Claimed, Changed,
}

pub data Edge : Phase → Phase → Type 0 where
  start : Edge bound running
  finish : Edge running succeeded
  lose : Edge bound failed
  break : Edge running failed

pub data IsTerminal : Phase → Type 0 where
  succeeded_end : IsTerminal succeeded
  failed_end : IsTerminal failed

-- A sandbox that moves along an edge keeps all but its phase.
pub record Moves (s s' : Sandbox) : Type 0 where
  pub edge : Edge s.phase s'.phase
  pub same : s' ≡ record s { phase = s'.phase }

-- The fresh sandbox that takes the slot of a finished one.
abbrev pub fresh : WarmPool → Sandbox
fresh p = record {
  id = sandbox_id p.name (p.next_ordinal + 1);
  template_ref = p.template_ref;
  claim_id = "";
  phase = idle;
}

pub record Renews (p : WarmPool) (s s' : Sandbox) : Type 0 where
  pub ended : IsTerminal s.phase
  pub renewed : s' ≡ fresh p

pub data Step (p : WarmPool) : WarmPool → Type 0 where
  stay : Step p p
  claim :
      (c : String) {l : List Sandbox}
      → c ≢ ""
      → OneSlot (Claims c) p.sandboxes l
      → Step p (record p { sandboxes = l })
  advance : {l : List Sandbox} → OneSlot Moves p.sandboxes l → Step p (record p { sandboxes = l })
  renew_slot :
      {l : List Sandbox}
      → OneSlot (Renews p) p.sandboxes l
      → Step p (record p {
        next_ordinal = p.next_ordinal + 1;
        replaced_count = p.replaced_count + 1;
        sandboxes = l;
      })

phase_beq_eq : (a b : Phase) → phase_beq a b ≡ true → a ≡ b
phase_beq_eq a b h = ground arith

move_result :
    (from to : Phase) (s s' : Sandbox)
    → move from to s ≡ ok s'
    → (s.phase ≡ from) × (s' ≡ record s { phase = to })
move_result from to s s' h = elim (Bool-cases (phase_beq s.phase from)) [
  | inl e ↦ (phase_beq_eq s.phase from e, ground arith)
  | inr n ↦ ground arith
]

move-Moves :
    {from to : Phase} → Edge from to → (s s' : Sandbox) → move from to s ≡ ok s' → Moves s s'
move-Moves {from} {to} e s s' h =
    let (p, q) = move_result from to s s' h in
    let r : s'.phase ≡ to = ap (λ (t : Sandbox). t.phase) q in
    record { edge = rw (p, r) e; same = simp r q }

fail-move :
    (s s' : Sandbox)
    → fail s ≡ ok s'
    → (move bound failed s ≡ ok s') ⊎ (move running failed s ≡ ok s')
fail-move s s' h = ground arith

fail-Moves : (s s' : Sandbox) → fail s ≡ ok s' → Moves s s'
fail-Moves s s' h = elim (fail-move s s' h) [
  | inl e ↦ move-Moves lose s s' e
  | inr e ↦ move-Moves break s s' e
]

renew_ended :
    (f s s' : Sandbox) → renew f s ≡ ok s' → (s' ≡ f) × ((s.phase ≡ succeeded) ⊎ (s.phase ≡ failed))
renew_ended f s s' h = ground arith

renew-Renews : (p : WarmPool) (s s' : Sandbox) → renew (fresh p) s ≡ ok s' → Renews p s s'
renew-Renews p s s' h =
    let (q, e) = renew_ended (fresh p) s s' h in
    record { ended = elim e [ inl a ↦ rw a succeeded_end | inr a ↦ rw a failed_end ]; renewed = q }

module _ (p : WarmPool) (id c : String) where
  store-Step :
      (change : Sandbox → Result PoolError Sandbox)
      → ((s s' : Sandbox) → change s ≡ ok s' → Moves s s')
      → (r : Result PoolError (List Sandbox)) → Changed id c change p.sandboxes r
      → Step p (store p r).0
  store-Step change moves (ok l) h = advance (OneSlot-weaken (λ s s' x. moves s s' x.2) h)
  store-Step change moves (err e) h = stay

  replace-Step :
      (r : Result PoolError (List Sandbox))
      → Changed id c (renew (fresh p)) p.sandboxes r
      → Step p (replaced p r).0
  unfolding replaced
  replace-Step (ok l) h = renew_slot (OneSlot-weaken (λ s s' x. renew-Renews p s s' x.2) h)
  replace-Step (err e) h = stay

claim-Step :
    (p : WarmPool) (c : String) (r : Option (Sandbox × List Sandbox))
    → c ≢ ""
    → Claimed c p.sandboxes r
    → Step p (claimed p r).0
claim-Step p c none n h = stay
claim-Step p c (some (t, l)) n h = claim c n (OneSlot-weaken (λ s s' x. x.0) h.0)

empty_test : (c : String) → (c == "") ≡ false → c ≢ ""
empty_test c h e = cc ((==_iff c "").1 e)

claim_idle-Step : (p : WarmPool) (c : String) → Step p (claim_idle p c).0
unfolding claim_idle
claim_idle-Step p c = elim (Bool-cases (c == "")) [
  | inl e ↦ rw (e, claim_idle) stay
  | inr n ↦
      rw (n, claim_idle)
        (claim-Step p c (claim_first c p.sandboxes) (empty_test c n)
          (claim_first-Claimed c p.sandboxes))
]

-- Every call of every method is a step of the transition system.
pub after-Step : (p : WarmPool) (c : Call) → Step p (after p c)
unfolding after
after-Step p (claims c) = claim_idle-Step p c
after-Step p (runs id c) =
    store-Step p id c (move bound running) (move-Moves start)
      (on_sandbox id c (move bound running) p.sandboxes)
      (on_sandbox-Changed id c (move bound running) p.sandboxes)
after-Step p (succeeds id c) =
    store-Step p id c (move running succeeded) (move-Moves finish)
      (on_sandbox id c (move running succeeded) p.sandboxes)
      (on_sandbox-Changed id c (move running succeeded) p.sandboxes)
after-Step p (fails id c) =
    store-Step p id c fail fail-Moves (on_sandbox id c fail p.sandboxes)
      (on_sandbox-Changed id c fail p.sandboxes)
after-Step p (replaces id c) =
    replace-Step p id c (on_sandbox id c (renew (fresh p)) p.sandboxes)
      (on_sandbox-Changed id c (renew (fresh p)) p.sandboxes)
