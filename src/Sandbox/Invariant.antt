-- ===== src/Sandbox/Invariant.antt =====
-- What holds of a pool between two calls.
use agenova.Prelude.{
  ℕ, ◌+◌, ◌≤◌, String, List, [], ◌∷◌, ◌≡◌, ◌≢◌, refl, sym, subst, ap, ◌∙◌, arith, length, All,
}
use agenova.Sandbox.{Sandbox, WarmPool, Phase, idle}
use agenova.Sandbox.Ids.{sandbox_id, sandbox_id_inj}
use agenova.Sandbox.Slots.{OneSlot, here, there, Claims, length-OneSlot, All-OneSlot}
use agenova.Sandbox.Steps.{
  Step, stay, claim, advance, renew_slot, Moves, Edge, start, finish, lose, break, Renews, fresh,
}

-- A sandbox carries an identifier that the pool has printed and the pool's template, and it is idle
-- exactly when no claim holds it.
pub record IsSound (name ref : String) (n : ℕ) (s : Sandbox) : Type 0 where
  pub ordinal : ℕ
  pub counted : ordinal ≤ n
  pub printed : s.id ≡ sandbox_id name ordinal
  pub template : s.template_ref ≡ ref
  pub free : s.phase ≡ idle → s.claim_id ≡ ""
  pub held : s.phase ≢ idle → s.claim_id ≢ ""

abbrev pub Other : Sandbox → Sandbox → Type 0
Other s t = t.id ≢ s.id

abbrev pub Distinct : List Sandbox → Type 0
Distinct [] = Unit
Distinct (s ∷ l) = All (Other s) l × Distinct l

pub record IsValid (p : WarmPool) : Type 0 where
  pub sound : All (IsSound p.name p.template_ref p.next_ordinal) p.sandboxes
  pub distinct : Distinct p.sandboxes

Edge-busy : {a b : Phase} → Edge a b → (a ≢ idle) × (b ≢ idle)
Edge-busy start = (λ e. cc, λ e. cc)
Edge-busy finish = (λ e. cc, λ e. cc)
Edge-busy lose = (λ e. cc, λ e. cc)
Edge-busy break = (λ e. cc, λ e. cc)

module _ (name ref : String) (n : ℕ) where
  claim_IsSound :
      (c : String)
      → c ≢ ""
      → (s s' : Sandbox) → Claims c s s'
      → IsSound name ref n s
      → IsSound name ref n s'
  claim_IsSound c ne s s' (p, q) h = rw q (record {
    ordinal = h.ordinal;
    counted = h.counted;
    printed = h.printed;
    template = h.template;
    free = λ e. cc;
    held = λ e. ne;
  })

  Moves-IsSound : (s s' : Sandbox) → Moves s s' → IsSound name ref n s → IsSound name ref n s'
  Moves-IsSound s s' m h =
      let busy = Edge-busy m.edge in
      let same = m.same in
      record {
        ordinal = h.ordinal;
        counted = h.counted;
        printed = ap (λ (t : Sandbox). t.id) same ∙ h.printed;
        template = ap (λ (t : Sandbox). t.template_ref) same ∙ h.template;
        free = λ e. absurd (busy.1 e);
        held = λ e q. h.held busy.0 (sym (ap (λ (t : Sandbox). t.claim_id) same) ∙ q);
      }

  pub later_IsSound : (s : Sandbox) → IsSound name ref n s → IsSound name ref (n + 1) s
  later_IsSound s h = record {
    ordinal = h.ordinal;
    counted = omega (arith, h.counted);
    printed = h.printed;
    template = h.template;
    free = h.free;
    held = h.held;
  }

  pub new_other : (s : Sandbox) → IsSound name ref n s → s.id ≢ sandbox_id name (n + 1)
  new_other s h e =
      absurd (omega (arith, sandbox_id_inj name h.ordinal (n + 1) (sym h.printed ∙ e), h.counted))

pub fresh-IsSound : (p : WarmPool) → IsSound p.name p.template_ref (p.next_ordinal + 1) (fresh p)
fresh-IsSound p = record {
  ordinal = p.next_ordinal + 1;
  counted = omega arith;
  printed = refl;
  template = refl;
  free = λ e. refl;
  held = λ ne. absurd (ne refl);
}

Renews-IsSound :
    (p : WarmPool) (s s' : Sandbox)
    → Renews p s s'
    → IsSound p.name p.template_ref p.next_ordinal s
    → IsSound p.name p.template_ref (p.next_ordinal + 1) s'
Renews-IsSound p s s' r h = rw r.renewed (fresh-IsSound p)

module _ {R : Sandbox → Sandbox → Type 0} (same : (s s' : Sandbox) → R s s' → s'.id ≡ s.id) where
  Distinct-keep : {l l' : List Sandbox} → OneSlot R l l' → Distinct l → Distinct l'
  Distinct-keep (here {s = s} {s' = s'} {l = l} r) h =
      (subst (λ i. All (λ t. t.id ≢ i) l) (sym (same s s' r)) h.0, h.1)
  Distinct-keep (there {s = s} o) h = (
    All-OneSlot (Other s) (Other s) (λ t x. x) (λ t t' r x e. x (sym (same t t' r) ∙ e)) o h.0,
    Distinct-keep o h.1,
  )

module _ {R : Sandbox → Sandbox → Type 0} (i : String)
    (new : (s s' : Sandbox) → R s s' → s'.id ≡ i) where
  Distinct-renew :
      {l l' : List Sandbox} → OneSlot R l l' → All (λ t. t.id ≢ i) l → Distinct l → Distinct l'
  Distinct-renew (here {s = s} {s' = s'} {l = l} r) a h =
      (subst (λ i. All (λ t. t.id ≢ i) l) (sym (new s s' r)) a.1, h.1)
  Distinct-renew (there {s = s} o) a h = (
    All-OneSlot (Other s) (Other s) (λ t x. x) (λ t t' r x e. a.0 (sym e ∙ new t t' r)) o h.0,
    Distinct-renew o a.1 h.1,
  )

pub All-map :
    {P Q : Sandbox → Type 0} (l : List Sandbox) → ((s : Sandbox) → P s → Q s) → All P l → All Q l
All-map [] f h = tt
All-map (x ∷ l) f h = (f x h.0, All-map l f h.1)

pub Step-IsValid : {p q : WarmPool} → Step p q → IsValid p → IsValid q
Step-IsValid stay h = h
Step-IsValid {p} (claim c ne o) h = record {
  sound =
      All-OneSlot (IsSound p.name p.template_ref p.next_ordinal)
        (IsSound p.name p.template_ref p.next_ordinal) (λ s x. x)
        (claim_IsSound p.name p.template_ref p.next_ordinal c ne) o h.sound;
  distinct = Distinct-keep (λ s s' r. ap (λ (t : Sandbox). t.id) r.1) o h.distinct;
}
Step-IsValid {p} (advance o) h = record {
  sound =
      All-OneSlot (IsSound p.name p.template_ref p.next_ordinal)
        (IsSound p.name p.template_ref p.next_ordinal) (λ s x. x)
        (Moves-IsSound p.name p.template_ref p.next_ordinal) o h.sound;
  distinct = Distinct-keep (λ s s' m. ap (λ (t : Sandbox). t.id) m.same) o h.distinct;
}
Step-IsValid {p} (renew_slot o) h = record {
  sound =
      All-OneSlot (IsSound p.name p.template_ref p.next_ordinal)
        (IsSound p.name p.template_ref (p.next_ordinal + 1))
        (later_IsSound p.name p.template_ref p.next_ordinal) (Renews-IsSound p) o h.sound;
  distinct =
      Distinct-renew (sandbox_id p.name (p.next_ordinal + 1))
        (λ s s' r. ap (λ (t : Sandbox). t.id) r.renewed) o
        (All-map p.sandboxes (new_other p.name p.template_ref p.next_ordinal) h.sound) h.distinct;
}

pub size-Step : {p q : WarmPool} → Step p q → length q.sandboxes ≡ length p.sandboxes
size-Step stay = refl
size-Step (claim c ne o) = length-OneSlot o
size-Step (advance o) = length-OneSlot o
size-Step (renew_slot o) = length-OneSlot o
