-- ===== src/Sandbox/Slots.antt =====
-- The loops over the sandboxes change one slot at most, in a known way.
use agenova.Prelude.{
  String, List, [], ◌∷◌, Option, none, some, ok, err, ◌==◌, string_eq, length, All, ◌≡◌, ◌≢◌, refl,
  ap, inl, inr, arith, Bool-cases, ==_iff, true, Result, ◌>>=◌, suc,
}
use agenova.Sandbox.{Sandbox, PoolError, idle, bound, phase_beq, claim_first, on_sandbox}

-- `l'` is `l` with one sandbox changed, by the relation `R`.
pub data OneSlot (R : Sandbox → Sandbox → Type 0) : List Sandbox → List Sandbox → Type 0 where
  here : {s s' : Sandbox} {l : List Sandbox} → R s s' → OneSlot R (s ∷ l) (s' ∷ l)
  there : {s : Sandbox} {l l' : List Sandbox} → OneSlot R l l' → OneSlot R (s ∷ l) (s ∷ l')

abbrev pub Claims : String → Sandbox → Sandbox → Type 0
Claims claim s s' = (s.phase ≡ idle) × (s' ≡ record s { phase = bound; claim_id = claim })

abbrev pub Changes :
    String → String → (Sandbox → Result PoolError Sandbox) → Sandbox → Sandbox → Type 0
Changes id claim change s s' = (s.id ≡ id) × (s.claim_id ≡ claim) × (change s ≡ ok s')

phase_beq-idle : (s : Sandbox) → phase_beq s.phase idle ≡ true → s.phase ≡ idle
phase_beq-idle s h = ground arith

-- The sandbox is claimed, and is the one given out.
abbrev pub Takes : String → Sandbox → Sandbox → Sandbox → Type 0
Takes claim t s s' = Claims claim s s' × (t ≡ s')

-- What ClaimIdle's loop does, by its outcome.
abbrev pub Claimed : String → List Sandbox → Option (Sandbox × List Sandbox) → Type 0
Claimed claim l none = All (λ s. s.phase ≢ idle) l
Claimed claim l (some (t, l')) =
    OneSlot (Takes claim t) l l' × (t.claim_id ≡ claim) × (t.phase ≡ bound)

Claimed-there :
    (claim : String) (x : Sandbox) (l : List Sandbox) (r : Option (Sandbox × List Sandbox))
    → x.phase ≢ idle
    → Claimed claim l r
    → Claimed claim (x ∷ l) (elim r [ none ↦ none | some (t, l') ↦ some (t, x ∷ l') ])
Claimed-there claim x l none n c = (n, c)
Claimed-there claim x l (some (t, l')) n c = (there c.0, c.1, c.2)

pub claim_first-Claimed :
    (claim : String) (l : List Sandbox) → Claimed claim l (claim_first claim l)
unfolding claim_first
claim_first-Claimed claim [] = tt
claim_first-Claimed claim (x ∷ l) = elim (Bool-cases (phase_beq x.phase idle)) [
  | inl e ↦ rw e (here ((phase_beq-idle x e, refl), refl), refl, refl)
  | inr n ↦
      rw n
        (Claimed-there claim x l (claim_first claim l) (ground arith) (claim_first-Claimed claim l))
]

-- What the loop of the other methods does, by its outcome.
abbrev pub Changed :
    String
    → String
    → (Sandbox → Result PoolError Sandbox)
    → List Sandbox
    → Result PoolError (List Sandbox)
    → Type 0
Changed id claim change l (ok l') = OneSlot (Changes id claim change) l l'
Changed id claim change l (err e) = Unit

module _ (id claim : String) (change : Sandbox → Result PoolError Sandbox) where
  Changed-here :
      (x : Sandbox) (l : List Sandbox) (r : Result PoolError Sandbox)
      → x.id ≡ id
      → x.claim_id ≡ claim
      → change x ≡ r
      → Changed id claim change (x ∷ l) (r >>= λ s'. ok (s' ∷ l))
  Changed-here x l (ok s') p q e = here (p, q, e)
  Changed-here x l (err e) p q h = tt

  Changed-there :
      (x : Sandbox) (l : List Sandbox) (r : Result PoolError (List Sandbox))
      → Changed id claim change l r
      → Changed id claim change (x ∷ l) (r >>= λ l'. ok (x ∷ l'))
  Changed-there x l (ok l') c = there c
  Changed-there x l (err e) c = tt

  pub on_sandbox-Changed :
      (l : List Sandbox) → Changed id claim change l (on_sandbox id claim change l)
  unfolding on_sandbox
  on_sandbox-Changed [] = tt
  on_sandbox-Changed (x ∷ l) = elim (Bool-cases (x.id == id)) [
    | inl same ↦ elim (Bool-cases (x.claim_id == claim)) [
      | inl held ↦
          rw (same, held)
            (Changed-here x l (change x) ((==_iff x.id id).0 same)
              ((==_iff x.claim_id claim).0 held) refl)
      | inr other ↦ rw (same, other) tt
    ]
    | inr other ↦ rw other (Changed-there x l (on_sandbox id claim change l) (on_sandbox-Changed l))
  ]

module _ {R : Sandbox → Sandbox → Type 0} where
  pub length-OneSlot : {l l' : List Sandbox} → OneSlot R l l' → length l' ≡ length l
  length-OneSlot (here r) = refl
  length-OneSlot (there o) = ap suc (length-OneSlot o)

module _ {R Q : Sandbox → Sandbox → Type 0} (weaken : (s s' : Sandbox) → R s s' → Q s s') where
  pub OneSlot-weaken : {l l' : List Sandbox} → OneSlot R l l' → OneSlot Q l l'
  OneSlot-weaken (here r) = here (weaken _ _ r)
  OneSlot-weaken (there o) = there (OneSlot-weaken o)

module _ {R : Sandbox → Sandbox → Type 0} (P Q : Sandbox → Type 0)
    (keep : (s : Sandbox) → P s → Q s) (step : (s s' : Sandbox) → R s s' → P s → Q s') where
  keep_all : (l : List Sandbox) → All P l → All Q l
  keep_all [] h = tt
  keep_all (x ∷ l) h = (keep x h.0, keep_all l h.1)

  pub All-OneSlot : {l l' : List Sandbox} → OneSlot R l l' → All P l → All Q l'
  All-OneSlot (here {l = l} r) h = (step _ _ r h.0, keep_all l h.1)
  All-OneSlot (there o) h = (keep _ h.0, All-OneSlot o h.1)
