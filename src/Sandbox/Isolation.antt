-- ===== src/Sandbox/Isolation.antt =====
-- A sandbox serves one claim in its life.
use agenova.Prelude.{ℕ, ◌+◌, ◌≤◌, String, List, [], ◌∷◌, ◌≡◌, ◌≢◌, sym, ap, ◌∙◌, arith, All}
use agenova.Sandbox.{Sandbox, WarmPool, Call, after, after_all}
use agenova.Sandbox.Ids.{sandbox_id, sandbox_id_inj}
use agenova.Sandbox.Slots.{All-OneSlot, Claims}
use agenova.Sandbox.Steps.{Step, stay, claim, advance, renew_slot, Moves, after-Step}
use agenova.Sandbox.Invariant.{IsSound, IsValid, Step-IsValid}

-- Whatever sandbox has this identifier, it is held by this claim.
abbrev pub Serves : String → String → Sandbox → Type 0
Serves id c s = s.id ≡ id → s.claim_id ≡ c

-- The identifier has been printed by the pool, and serves the claim `c` alone.
pub record IsReserved (id c : String) (p : WarmPool) : Type 0 where
  pub ordinal : ℕ
  pub counted : ordinal ≤ p.next_ordinal
  pub printed : id ≡ sandbox_id p.name ordinal
  pub serves : All (Serves id c) p.sandboxes

All-both : (P Q : Sandbox → Type 0) (l : List Sandbox) → All P l → All Q l → All (λ s. P s × Q s) l
All-both P Q [] p q = tt
All-both P Q (x ∷ l) p q = ((p.0, q.0), All-both P Q l p.1 q.1)

module _ (id c : String) (taken : c ≢ "") where
  claim_Serves :
      (name ref : String) (n : ℕ) (d : String) (s s' : Sandbox)
      → Claims d s s'
      → IsSound name ref n s × Serves id c s
      → Serves id c s'
  claim_Serves name ref n d s s' (free, q) (sound, serves) e =
      absurd (taken (sym (serves (sym (ap (λ (t : Sandbox). t.id) q) ∙ e)) ∙ sound.free free))

  Moves-Serves : (s s' : Sandbox) → Moves s s' → Serves id c s → Serves id c s'
  Moves-Serves s s' m serves e =
      ap (λ (t : Sandbox). t.claim_id) m.same ∙ serves (sym (ap (λ (t : Sandbox). t.id) m.same) ∙ e)

  Step-IsReserved : {p q : WarmPool} → Step p q → IsValid p → IsReserved id c p → IsReserved id c q
  Step-IsReserved stay v h = h
  Step-IsReserved {p} (claim d ne o) v h = record {
    ordinal = h.ordinal;
    counted = h.counted;
    printed = h.printed;
    serves =
        All-OneSlot (λ s. IsSound p.name p.template_ref p.next_ordinal s × Serves id c s)
          (Serves id c) (λ s x. x.1) (claim_Serves p.name p.template_ref p.next_ordinal d) o
          (All-both _ _ p.sandboxes v.sound h.serves);
  }
  Step-IsReserved (advance o) v h = record {
    ordinal = h.ordinal;
    counted = h.counted;
    printed = h.printed;
    serves = All-OneSlot (Serves id c) (Serves id c) (λ s x. x) Moves-Serves o h.serves;
  }
  Step-IsReserved {p} (renew_slot o) v h = record {
    ordinal = h.ordinal;
    counted = omega (arith, h.counted);
    printed = h.printed;
    serves =
        All-OneSlot (Serves id c) (Serves id c) (λ s x. x)
          (λ s s' r x e. absurd (
            omega (
              arith,
              h.counted,
              sandbox_id_inj p.name (p.next_ordinal + 1) h.ordinal
                  (sym (ap (λ (t : Sandbox). t.id) r.renewed) ∙ (e ∙ h.printed)),
            )))
          o h.serves;
  }

-- Once an identifier that a valid pool has printed serves a claim, it serves no other claim and is
-- never idle again, whatever methods are called: a sandbox is destroyed, not handed on.
pub after_all-IsReserved :
    (id c : String) (p : WarmPool) (cs : List Call)
    → c ≢ ""
    → IsValid p
    → IsReserved id c p
    → IsReserved id c (after_all p cs)
unfolding after_all
after_all-IsReserved id c p [] taken v h = h
after_all-IsReserved id c p (call ∷ cs) taken v h =
    let step = after-Step p call in
    after_all-IsReserved id c (after p call) cs taken (Step-IsValid step v)
      (Step-IsReserved id c taken step v h)
