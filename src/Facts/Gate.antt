-- ===== src/Facts/Gate.antt =====
-- No provider is called without a recorded Allow, and none twice.
use agenova.Prelude.{
  ℕ, ◌≤◌, String, false, List, [], ◌∷◌, ◌++◌, some, get_or, update_self, ok, count, count-append,
  ◌==◌, string_eq, ◌≡◌, ◌≢◌, refl, sym, subst, false_test, ◌∙◌, arith, Bool-cases, inl, inr, ==_iff,
  ==_self,
}
use native.Mathlib.Nat.{add-zero}
use agenova.Facts.{Fact, Journal, InvocationState, no_state, new_journal}
use agenova.Facts.Advance.{stages}
use agenova.Facts.Append.{publish, stamped}
use agenova.Facts.Stages.{
  decides, allows, attempts, concludes, Tally, stages-Tally, empty_not_allow,
}
use agenova.Facts.Reach.{IsKept, Reach, Reach_induction}
use agenova.Facts.Published.{publish-facts, publish_fields}

abbrev TalliedBy : String → List Fact → InvocationState → Type 0
TalliedBy inv fs st =
    Tally (count (decides inv) fs) (count (allows inv) fs) (count (attempts inv) fs)
      (count (concludes inv) fs) st

-- The cached state of an invocation, against the log.
abbrev pub IsTallied : String → Journal → Type 0
IsTallied inv j = TalliedBy inv j.facts (get_or no_state (j.invocation_states inv))

other_fact :
    (inv : String) (fs : List Fact) (g : Fact) (st : InvocationState)
    → (g.invocation_id == inv) ≡ false
    → TalliedBy inv fs st
    → TalliedBy inv (fs ++ g ∷ []) st
other_fact inv fs g st n h = simp (count-append, n, add-zero) h

own_fact :
    (fs : List Fact) (g : Fact) (st st' : InvocationState)
    → stages g st ≡ ok st'
    → TalliedBy g.invocation_id fs st
    → TalliedBy g.invocation_id (fs ++ g ∷ []) st'
own_fact fs g st st' h t =
    simp (count-append, add-zero, ==_self) (stages-Tally g _ _ _ _ st st' h t)

module _ (j : Journal) (now : ℕ) (f : Fact) (stage : InvocationState) where
  abbrev after_fact : Journal
  after_fact = publish j (stamped j now f) stage

  own_state :
      (f.invocation_id == "") ≡ false → after_fact.invocation_states f.invocation_id ≡ some stage
  own_state n =
      rw (((publish_fields j (stamped j now f) stage).5), n)
        (update_self j.invocation_states f.invocation_id stage)

  other_state :
      (inv : String)
      → (f.invocation_id == inv) ≡ false
      → after_fact.invocation_states inv ≡ j.invocation_states inv
  other_state inv n = elim (Bool-cases (f.invocation_id == "")) [
    | inl e ↦ rw ((publish_fields j (stamped j now f) stage).5, e)
    | inr m ↦ rw ((publish_fields j (stamped j now f) stage).5, m, n)
  ]

  stages-stamped : (st : InvocationState) → stages (stamped j now f) st ≡ stages f st
  unfolding stages
  stages-stamped st = refl

  publish-IsTallied :
      (inv : String)
      → inv ≢ ""
      → stages f (get_or no_state (j.invocation_states f.invocation_id)) ≡ ok stage
      → IsTallied inv j
      → IsTallied inv after_fact
  publish-IsTallied inv named h t = elim (Bool-cases (f.invocation_id == inv)) [
    | inl e ↦
        subst (λ i. IsTallied i j → i ≢ "" → IsTallied i after_fact)
          ((==_iff f.invocation_id inv).0 e)
          (λ t' named'.
            subst (λ st. TalliedBy f.invocation_id after_fact.facts (get_or no_state st))
              (sym (own_state (false_test f.invocation_id "" named')))
              (rw publish-facts (
                own_fact j.facts (stamped j now f)
                  (get_or no_state (j.invocation_states f.invocation_id)) stage
                  (stages-stamped _ ∙ h) t')))
          t named
    | inr n ↦
        subst (λ st. TalliedBy inv after_fact.facts (get_or no_state st)) (sym (other_state inv n))
          (rw publish-facts (other_fact inv j.facts (stamped j now f) _ n t))
  ]

IsTallied-kept : (inv : String) → inv ≢ "" → IsKept (IsTallied inv)
unfolding new_journal
IsTallied-kept inv named = record {
  at_new = λ start h. record {
    decided = refl;
    allowed = refl;
    attempted = refl;
    completed = refl;
    gate = λ e. cc;
    order = λ e. cc;
  };
  at_register = λ j ref p ne h. h;
  at_bind = λ j ref claim k n c r h. h;
  at_publish =
      λ j now f g stage p h. rw p.named (publish-IsTallied j now f stage inv named p.staged h);
}

Tally-IsGated :
    (d a t o : ℕ) (st : InvocationState) → Tally d a t o st → (o ≤ t) × (t ≤ a) × (a ≤ d) × (d ≤ 1)
Tally-IsGated d a t o st h = ground (arith, empty_not_allow st.result)

-- In every journal that the methods can make, whatever the durable store answers, the facts of an
-- invocation whose name is not empty have at most one decision, at most as many decisions Allow as
-- decisions, at most as many provider attempts as decisions Allow, and at most as many outcomes as
-- attempts.
pub provider_gate :
    (W : Type 0) (j : Journal) (inv : String)
    → Reach W j
    → inv ≢ ""
    → (count (concludes inv) j.facts ≤ count (attempts inv) j.facts)
      × (count (attempts inv) j.facts ≤ count (allows inv) j.facts)
      × (count (allows inv) j.facts ≤ count (decides inv) j.facts)
      × (count (decides inv) j.facts ≤ 1)
provider_gate W j inv r named =
    Tally-IsGated _ _ _ _ _ (Reach_induction (IsTallied-kept inv named) r)
