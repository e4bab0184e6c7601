-- ===== src/Facts/Backends.antt =====
-- A claim and the worker that serves it stay together.
use agenova.Prelude.{
  ℕ, String, true, false, ◌||◌, [], ◌∷◌, Option, none, some, Map, ok, >>=-eq-ok, refuse_if, update,
  All, All-append, All-weaken, All-mem, Comparable, ◌==◌, ◌!=◌, string_eq, ◌≡◌, ◌↔◌, refl, sym, ap,
  ◌∙◌, Bool-cases, inl, inr, ==_iff, ==_self,
}
use mathlib.Core.List.{Memᴰ}
use agenova.Api.{BackendIdentity}
use agenova.Api.Equality.{backend_identity_eq}
use agenova.Facts.{Fact, Journal, InvocationState, new_journal}
use agenova.Facts.Checks.{backend_check, given}
use agenova.Facts.Append.{publish, stamped}
use agenova.Facts.Reach.{IsKept, Reach, Reach_induction, refuse_if_ok}
use agenova.Facts.Published.{publish-facts, publish_backends, backends_after, owners_after}

-- The two maps are inverse to one another, and hold what the facts say.
pub record IsPaired (j : Journal) : Type 0 where
  pub forth :
      (c : String) (id : BackendIdentity) → j.backends c ≡ some id → j.backend_owners id ≡ some c
  pub back :
      (c : String) (id : BackendIdentity) → j.backend_owners id ≡ some c → j.backends c ≡ some id
  pub noted :
      All
        (λ f.
          (id : BackendIdentity) → f.backend_identity ≡ some id → j.backends f.claim_id ≡ some id)
        j.facts

given_same :
    {A : Type 0} ⦃e : Comparable A⦄ (o : Option A) (a b : A)
    → given (λ x. x != a) o ≡ false
    → o ≡ some b
    → b ≡ a
given_same o a b h q = elim (Bool-cases (b == a)) [
  | inl same ↦ (==_iff b a).0 same
  | inr other ↦ let p = rw q at h in let r : (b != a) ≡ true = rw other in cc (r, p)
]

backend_check_ok :
    (j : Journal) (f : Fact) (id : BackendIdentity)
    → backend_check j f (some id) ≡ ok tt
    → (given (λ x. x != id) (j.backends f.claim_id) ≡ false)
      × (given (λ x. x != f.claim_id) (j.backend_owners id) ≡ false)
unfolding backend_check
backend_check_ok j f id h =
    let (u, c, h₁) =
      >>=-eq-ok
        (refuse_if (f.claim_id == "" || id.backend == "" || id.worker_id == "")
          "backend identity requires a resolved claim")
        h in
    let (v, d, h₂) =
      >>=-eq-ok
        (refuse_if (given (λ x. x != id) (j.backends f.claim_id)) "claim backend identity changed")
        h₁ in
    (refuse_if_ok _ _ v d, refuse_if_ok _ _ tt h₂)

module _ (j : Journal) (c : String) (id : BackendIdentity) where
  -- The maps after the worker `id` is noted for the claim `c`.
  abbrev backends' : Map String BackendIdentity
  backends' = update j.backends c id

  abbrev owners' : Map BackendIdentity String
  owners' = update j.backend_owners id c

  module _ (h : IsPaired j) (same_id : given (λ x. x != id) (j.backends c) ≡ false)
      (same_claim : given (λ x. x != c) (j.backend_owners id) ≡ false) where
    forth' : (d : String) (i : BackendIdentity) → backends' d ≡ some i → owners' i ≡ some d
    forth' d i e = elim (Bool-cases (c == d)) [
      | inl p ↦
          let q : i ≡ id = let t = rw p at e in cc in
          rw (q, ==_self id) (ap some ((==_iff c d).0 p))
      | inr n ↦
          let old = h.forth d i (rw n at e) in
          elim (Bool-cases (id == i)) [
            | inl p ↦
                let k = (==_iff id i).0 p in
                rw p (
                  ap some (
                    sym (
                      given_same (j.backend_owners id) c d same_claim
                        (ap j.backend_owners k ∙ old))))
            | inr m ↦ rw m old
          ]
    ]

    back' : (d : String) (i : BackendIdentity) → owners' i ≡ some d → backends' d ≡ some i
    back' d i e = elim (Bool-cases (id == i)) [
      | inl p ↦
          let q : d ≡ c = let t = rw p at e in cc in rw (q, ==_self c) (ap some ((==_iff id i).0 p))
      | inr n ↦
          let old = h.back d i (rw n at e) in
          elim (Bool-cases (c == d)) [
            | inl p ↦
                let k = (==_iff c d).0 p in
                rw p
                  (ap some (sym (given_same (j.backends c) id i same_id (ap j.backends k ∙ old))))
            | inr m ↦ rw m old
          ]
    ]

    still : (d : String) (i : BackendIdentity) → j.backends d ≡ some i → backends' d ≡ some i
    still d i e = back' d i (elim (Bool-cases (id == i)) [
      | inl p ↦
          let k = (==_iff id i).0 p in
          rw p (
            ap some (
              sym (
                given_same (j.backend_owners id) c d same_claim
                  (ap j.backend_owners k ∙ h.forth d i e))))
      | inr m ↦ rw m (h.forth d i e)
    ])

abbrev Notes : Map String BackendIdentity → Fact → Type 0
Notes m f = (id : BackendIdentity) → f.backend_identity ≡ some id → m f.claim_id ≡ some id

module _ (j : Journal) (g : Fact) (stage : InvocationState) (h : IsPaired j) where
  paired_after :
      (b : Option BackendIdentity)
      → backend_check j g b ≡ ok tt
      → ((c : String) (id : BackendIdentity)
          → backends_after j g stage b c ≡ some id
          → owners_after j g stage b id ≡ some c)
        × ((c : String) (id : BackendIdentity)
            → owners_after j g stage b id ≡ some c
            → backends_after j g stage b c ≡ some id)
        × ((c : String) (id : BackendIdentity)
            → j.backends c ≡ some id
            → backends_after j g stage b c ≡ some id)
        × ((id : BackendIdentity) → b ≡ some id → backends_after j g stage b g.claim_id ≡ some id)
  paired_after none k = (h.forth, h.back, λ c id e. e, λ id e. cc)
  paired_after (some id) k =
      let (a, b) = backend_check_ok j g id k in
      (
        forth' j g.claim_id id h a b,
        back' j g.claim_id id h a b,
        still j g.claim_id id h a b,
        λ i e. rw (==_self g.claim_id) e,
      )

  publish-IsPaired : backend_check j g g.backend_identity ≡ ok tt → IsPaired (publish j g stage)
  publish-IsPaired k =
      let (forth, back, old, new) = paired_after g.backend_identity k in
      let (bs, os) = publish_backends j g stage in
      record {
        forth = rw (bs, os) forth;
        back = rw (bs, os) back;
        noted =
            rw (publish-facts, bs)
              (All-append (Notes (backends_after j g stage g.backend_identity)) j.facts (g ∷ [])
                (All-weaken (Notes j.backends) (Notes (backends_after j g stage g.backend_identity))
                  j.facts (λ f n id e. old f.claim_id id (n id e)) h.noted)
                (new, tt));
      }

backend-stamped :
    (j : Journal) (now : ℕ) (f : Fact) (b : Option BackendIdentity)
    → backend_check j (stamped j now f) b ≡ backend_check j f b
unfolding backend_check
backend-stamped j now f none = refl
backend-stamped j now f (some id) = refl

IsPaired-kept : IsKept IsPaired
unfolding new_journal
IsPaired-kept = record {
  at_new = λ start h. record { forth = λ c id e. cc; back = λ c id e. cc; noted = tt };
  at_register = λ j ref p ne h. record { forth = h.forth; back = h.back; noted = h.noted };
  at_bind = λ j ref claim k n c r h. record { forth = h.forth; back = h.back; noted = h.noted };
  at_publish = λ j now f g stage p h. rw p.named (
      publish-IsPaired j (stamped j now f) stage h
        (backend-stamped j now f f.backend_identity ∙ p.placed));
}

-- In every journal that the methods can make, of two facts that name a worker, their claims are the
-- same exactly when their workers are.
pub worker_exclusive :
    (W : Type 0) (j : Journal) (f g : Fact) (a b : BackendIdentity)
    → Reach W j
    → Memᴰ f j.facts
    → Memᴰ g j.facts
    → f.backend_identity ≡ some a
    → g.backend_identity ≡ some b
    → (f.claim_id ≡ g.claim_id) ↔ (a ≡ b)
worker_exclusive W j f g a b reach mf mg ea eb =
    let h = Reach_induction IsPaired-kept reach in
    let pf = All-mem (Notes j.backends) j.facts h.noted mf a ea in
    let pg = All-mem (Notes j.backends) j.facts h.noted mg b eb in
    (
      λ e. cc (pf, pg, ap j.backends e),
      λ e. cc (h.forth f.claim_id a pf, h.forth g.claim_id b pg, ap j.backend_owners e),
    )
