-- ===== src/Sandbox/Creation.antt =====
-- NewWarmPool: the pool that it makes, and what holds of it after any calls.
use agenova.Prelude.{
  ℕ, zero, suc, ◌+◌, List, [], ◌∷◌, ◌++◌, ok, ◌≡◌, ◌≢◌, refl, sym, ◌∙◌, subst, arith, length, All,
  All-append, length-append, string_eq,
}
use agenova.Sandbox.{
  Sandbox, WarmPool, PoolSpec, Call, idle, add_idle_sandbox, add_replicas, new_warm_pool, after,
  after_all, rounds,
}
use agenova.Sandbox.Steps.{fresh, after-Step}
use agenova.Sandbox.Invariant.{
  IsSound, IsValid, Distinct, Other, All-map, later_IsSound, new_other, fresh-IsSound, Step-IsValid,
  size-Step,
}

Distinct-snoc :
    (l : List Sandbox) (s : Sandbox)
    → Distinct l
    → All (λ t. t.id ≢ s.id) l
    → Distinct (l ++ s ∷ [])
Distinct-snoc [] s h a = (tt, tt)
Distinct-snoc (x ∷ l) s h a =
    (All-append (Other x) l (s ∷ []) h.0 ((λ e. a.0 (sym e)), tt), Distinct-snoc l s h.1 a.1)

add-IsValid : (p : WarmPool) → IsValid p → IsValid (add_idle_sandbox p)
unfolding add_idle_sandbox
add-IsValid p h = record {
  sound =
      All-append (IsSound p.name p.template_ref (p.next_ordinal + 1)) p.sandboxes (fresh p ∷ [])
        (All-map p.sandboxes (later_IsSound p.name p.template_ref p.next_ordinal) h.sound)
        (fresh-IsSound p, tt);
  distinct =
      Distinct-snoc p.sandboxes (fresh p) h.distinct
        (All-map p.sandboxes (new_other p.name p.template_ref p.next_ordinal) h.sound);
}

-- A pool that is being filled: valid, with `n` sandboxes, all idle.
record IsFilled (spec : PoolSpec) (n : ℕ) (p : WarmPool) : Type 0 where
  valid : IsValid p
  size : length p.sandboxes ≡ n
  waiting : All (λ s. s.phase ≡ idle) p.sandboxes
  named : p.name ≡ spec.name
  template : p.template_ref ≡ spec.template_ref

add-IsFilled :
    (spec : PoolSpec) (n : ℕ) (p : WarmPool)
    → IsFilled spec n p
    → IsFilled spec (suc n) (add_idle_sandbox p)
add-IsFilled spec n p h = record {
  valid = add-IsValid p h.valid;
  size =
      unfold add_idle_sandbox in (length-append p.sandboxes (fresh p ∷ []) ∙ omega (arith, h.size));
  waiting =
      unfold add_idle_sandbox in
      All-append (λ s. s.phase ≡ idle) p.sandboxes (fresh p ∷ []) h.waiting (refl, tt);
  named = unfold add_idle_sandbox in h.named;
  template = unfold add_idle_sandbox in h.template;
}

fill-IsFilled :
    (spec : PoolSpec) (k n : ℕ) (p : WarmPool)
    → IsFilled spec n p
    → IsFilled spec (k + n) (add_replicas k p)
unfolding add_replicas
fill-IsFilled spec zero n p h = let e : zero + n ≡ n = omega arith in rw e h
fill-IsFilled spec (suc k) n p h =
    let step = fill-IsFilled spec k (suc n) (add_idle_sandbox p) (add-IsFilled spec n p h) in
    let e : k + suc n ≡ suc k + n = omega arith in rw e at step

abbrev blank : PoolSpec → WarmPool
blank spec = record {
  name = spec.name;
  template_ref = spec.template_ref;
  next_ordinal = 0;
  replaced_count = 0;
  sandboxes = [];
}

blank-IsFilled : (spec : PoolSpec) → IsFilled spec 0 (blank spec)
blank-IsFilled spec = record {
  valid = record { sound = tt; distinct = tt };
  size = refl;
  waiting = tt;
  named = refl;
  template = refl;
}

new_IsFilled :
    (spec : PoolSpec) (p : WarmPool)
    → new_warm_pool spec ≡ ok p
    → IsFilled spec (rounds spec.replicas) p
unfolding new_warm_pool
new_IsFilled spec p h =
    let n = rounds spec.replicas in
    let e : add_replicas n (blank spec) ≡ p = ground arith in
    let z : n + 0 ≡ n = omega arith in
    subst (λ q. IsFilled spec n q) e
      (rw z at (fill-IsFilled spec n 0 (blank spec) (blank-IsFilled spec)))

after_all-IsValid :
    (p : WarmPool) (cs : List Call)
    → IsValid p
    → IsValid (after_all p cs) × (length (after_all p cs).sandboxes ≡ length p.sandboxes)
unfolding after_all
after_all-IsValid p [] h = (h, refl)
after_all-IsValid p (c ∷ cs) h =
    let step = after-Step p c in
    let (v, n) = after_all-IsValid (after p c) cs (Step-IsValid step h) in (v, n ∙ size-Step step)

-- A pool that NewWarmPool accepts starts with `replicas` sandboxes, all idle. After any calls of its
-- methods, failed ones included, it has as many sandboxes, their identifiers are distinct and
-- were printed by this pool, and a sandbox is idle exactly when it has no claim.
pub new_warm_pool-IsValid :
    (spec : PoolSpec) (p : WarmPool) (cs : List Call)
    → new_warm_pool spec ≡ ok p
    → All (λ s. s.phase ≡ idle) p.sandboxes
      × (length p.sandboxes ≡ rounds spec.replicas)
      × IsValid (after_all p cs)
      × (length (after_all p cs).sandboxes ≡ rounds spec.replicas)
new_warm_pool-IsValid spec p cs h =
    let filled = new_IsFilled spec p h in
    let (v, n) = after_all-IsValid p cs filled.valid in
    (filled.waiting, filled.size, v, n ∙ filled.size)
