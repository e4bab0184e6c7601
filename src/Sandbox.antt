-- ===== src/Sandbox.antt =====
-- internal/sandbox/pool.go: the warm pool. A method on *WarmPool takes the pool and returns the
-- new pool beside its result; `nextOrdinal` and `replacedCount` are counts, taken unbounded.
pub mod Ids
pub mod Slots
pub mod Steps
pub mod Invariant
pub mod Creation
pub mod Isolation
pub mod Accounting
use agenova.Prelude.{
  ℕ, ◌+◌, String, Bool, true, false, ◌||◌, List, [], ◌∷◌, ◌++◌, Option, none, some, Result, ok, err,
  ◌>>=◌, ◌==◌, string_eq, if◌then◌else◌, count,
}
use agenova.Prelude.Int.{ℤ, pos, negsuc, ltb_ℤ}
use Ids.{sandbox_id}

pub data Phase : Type 0 where
  idle bound running succeeded failed : Phase

abbrev pub phase_beq : Phase → Phase → Bool
phase_beq idle idle = true
phase_beq bound bound = true
phase_beq running running = true
phase_beq succeeded succeeded = true
phase_beq failed failed = true
phase_beq _ _ = false

pub record Sandbox : Type 0 where
  pub id : String
  pub template_ref : String
  pub claim_id : String
  pub phase : Phase

pub record WarmPool : Type 0 where
  pub name : String
  pub template_ref : String
  pub next_ordinal : ℕ
  pub replaced_count : ℕ
  pub sandboxes : List Sandbox

-- The errors of the package, one for each message.
pub data PoolError : Type 0 where
  name_required template_ref_required replicas_required claim_id_required no_idle : PoolError
  different_claim : PoolError
  invalid_transition : Phase → Phase → PoolError
  not_terminal : Phase → PoolError
  not_found : String → PoolError

-- The fields of v1alpha1.SandboxWarmPool that the pool reads.
pub record PoolSpec : Type 0 where
  pub name : String
  pub template_ref : String
  pub replicas : ℤ

-- v1alpha1.SandboxWarmPoolStatus
pub record PoolStatus : Type 0 where
  pub idle_sandboxes : ℕ
  pub bound_claims : ℕ
  pub running_claims : ℕ
  pub replaced_sandboxes : ℕ

unfoldable pub new_idle_sandbox : WarmPool → WarmPool × Sandbox
new_idle_sandbox p =
    let ordinal = p.next_ordinal + 1 in
    (
      record p { next_ordinal = ordinal },
      record {
        id = sandbox_id p.name ordinal;
        template_ref = p.template_ref;
        claim_id = "";
        phase = idle;
      },
    )

unfoldable pub add_idle_sandbox : WarmPool → WarmPool
unfolding new_idle_sandbox
add_idle_sandbox p =
    let (p', sandbox) = new_idle_sandbox p in record p' { sandboxes = p'.sandboxes ++ sandbox ∷ [] }

-- The loop of NewWarmPool, on the rounds left.
unfoldable pub add_replicas : ℕ → WarmPool → WarmPool
unfolding add_idle_sandbox
add_replicas ℕ.zero p = p
add_replicas (ℕ.suc n) p = add_replicas n (add_idle_sandbox p)

-- The number of rounds of `for i := 0; i < replicas; i++`.
abbrev pub rounds : ℤ → ℕ
rounds (pos n) = n
rounds (negsuc n) = 0

unfoldable pub new_warm_pool : PoolSpec → Result PoolError WarmPool
unfolding add_replicas
new_warm_pool spec =
    if spec.name == ""
    then err name_required
    else if spec.template_ref == ""
    then err template_ref_required
    else if ltb_ℤ spec.replicas (pos 1)
    then err replicas_required
    else ok (
        add_replicas (rounds spec.replicas) (record {
          name = spec.name;
          template_ref = spec.template_ref;
          next_ordinal = 0;
          replaced_count = 0;
          sandboxes = [];
        }))

-- The loop of ClaimIdle: the first idle sandbox is bound to the claim.
unfoldable pub claim_first : String → List Sandbox → Option (Sandbox × List Sandbox)
claim_first claim [] = none
claim_first claim (s ∷ rest) =
    let s' = record s { phase = bound; claim_id = claim } in
    if phase_beq s.phase idle
    then some (s', s' ∷ rest)
    else elim (claim_first claim rest) [ none ↦ none | some (t, rest') ↦ some (t, s ∷ rest') ]

abbrev pub claimed :
    WarmPool → Option (Sandbox × List Sandbox) → WarmPool × Result PoolError Sandbox
claimed p none = (p, err no_idle)
claimed p (some (s, sandboxes)) = (record p { sandboxes = sandboxes }, ok s)

unfoldable pub claim_idle : WarmPool → String → WarmPool × Result PoolError Sandbox
claim_idle p claim =
    if claim == "" then (p, err claim_id_required) else claimed p (claim_first claim p.sandboxes)

-- The loop that updateClaimSandbox, MarkFailed and Replace share: the first sandbox of this id, if
-- it has this claim, is handed to `change`.
unfoldable pub on_sandbox :
    String
    → String
    → (Sandbox → Result PoolError Sandbox)
    → List Sandbox
    → Result PoolError (List Sandbox)
on_sandbox id claim change [] = err (not_found id)
on_sandbox id claim change (s ∷ rest) =
    let later = (do rest' ← on_sandbox id claim change rest; ok (s ∷ rest')) in
    if s.id == id
    then (if s.claim_id == claim then (do s' ← change s; ok (s' ∷ rest)) else err different_claim)
    else later

-- The pool after an update of its sandboxes, which an error leaves as it was.
abbrev pub store : WarmPool → Result PoolError (List Sandbox) → WarmPool × Option PoolError
store p (ok sandboxes) = (record p { sandboxes = sandboxes }, none)
store p (err e) = (p, some e)

abbrev pub move : Phase → Phase → Sandbox → Result PoolError Sandbox
move from to s =
    if phase_beq s.phase from
    then ok (record s { phase = to })
    else err (invalid_transition s.phase to)

unfoldable pub update_claim_sandbox :
    WarmPool → String → String → Phase → Phase → WarmPool × Option PoolError
update_claim_sandbox p id claim from to = store p (on_sandbox id claim (move from to) p.sandboxes)

unfoldable pub mark_running : WarmPool → String → String → WarmPool × Option PoolError
unfolding update_claim_sandbox
mark_running p id claim = update_claim_sandbox p id claim bound running

unfoldable pub mark_succeeded : WarmPool → String → String → WarmPool × Option PoolError
unfolding update_claim_sandbox
mark_succeeded p id claim = update_claim_sandbox p id claim running succeeded

abbrev pub fail : Sandbox → Result PoolError Sandbox
fail s =
    if phase_beq s.phase bound || phase_beq s.phase running
    then ok (record s { phase = failed })
    else err (invalid_transition s.phase failed)

unfoldable pub mark_failed : WarmPool → String → String → WarmPool × Option PoolError
mark_failed p id claim = store p (on_sandbox id claim fail p.sandboxes)

abbrev pub renew : Sandbox → Sandbox → Result PoolError Sandbox
renew replacement s =
    if phase_beq s.phase succeeded || phase_beq s.phase failed
    then ok replacement
    else err (not_terminal s.phase)

unfoldable pub replaced :
    WarmPool → Result PoolError (List Sandbox) → WarmPool × Result PoolError Sandbox
unfolding new_idle_sandbox
replaced p (ok sandboxes) =
    let (p', replacement) = new_idle_sandbox (record p { replaced_count = p.replaced_count + 1 }) in
    (record p' { sandboxes = sandboxes }, ok replacement)
replaced p (err e) = (p, err e)

-- The replacement is printed before the checks here; the pool counts it only when they pass.
unfoldable pub replace : WarmPool → String → String → WarmPool × Result PoolError Sandbox
unfolding new_idle_sandbox replaced
replace p id claim =
    let replacement = (new_idle_sandbox p).1 in
    replaced p (on_sandbox id claim (renew replacement) p.sandboxes)

abbrev pub in_phase : Phase → Sandbox → Bool
in_phase phase s = phase_beq s.phase phase

unfoldable pub status : WarmPool → PoolStatus
status p = record {
  idle_sandboxes = count (in_phase idle) p.sandboxes;
  bound_claims = count (in_phase bound) p.sandboxes;
  running_claims = count (in_phase running) p.sandboxes;
  replaced_sandboxes = p.replaced_count;
}

-- A call of one of the methods that change the pool.
pub data Call : Type 0 where
  claims : String → Call
  runs succeeds fails replaces : String → String → Call

unfoldable pub after : WarmPool → Call → WarmPool
unfolding claim_idle mark_running mark_succeeded mark_failed replace
after p (claims claim) = (claim_idle p claim).0
after p (runs id claim) = (mark_running p id claim).0
after p (succeeds id claim) = (mark_succeeded p id claim).0
after p (fails id claim) = (mark_failed p id claim).0
after p (replaces id claim) = (replace p id claim).0

unfoldable pub after_all : WarmPool → List Call → WarmPool
after_all p [] = p
after_all p (c ∷ cs) = after_all (after p c) cs
