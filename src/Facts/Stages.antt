-- ===== src/Facts/Stages.antt =====
-- The cached state of an invocation against the facts that are recorded for it.
use agenova.Prelude.{
  ℕ, ◌+◌, String, Bool, true, false, ◌&&◌, ok, ◌==◌, string_eq, if◌then◌else◌, >>=-eq-ok, ◌≡◌, refl,
  arith, ==_iff, Bool-cases, inl, inr,
}
use agenova.Facts.{Fact, InvocationState, valid_decision}
use agenova.Facts.Advance.{
  is_decision, is_attempt, is_outcome, decision_stage, attempt_stage, result_check, outcome_stage,
  stages,
}

-- The facts of one invocation, by what they record.
abbrev pub decides : String → Fact → Bool
decides inv f = f.invocation_id == inv && is_decision f

abbrev pub allows : String → Fact → Bool
allows inv f = f.invocation_id == inv && (is_decision f && f.result == "Allow")

abbrev pub attempts : String → Fact → Bool
attempts inv f = f.invocation_id == inv && is_attempt f

abbrev pub concludes : String → Fact → Bool
concludes inv f = f.invocation_id == inv && is_outcome f

abbrev pub one_if : Bool → ℕ
one_if b = if b then 1 else 0

-- The state, against the numbers of decisions, Allow decisions, attempts and outcomes.
pub record Tally (d a t o : ℕ) (st : InvocationState) : Type 0 where
  pub decided : d ≡ (if st.result == "" then 0 else 1)
  pub allowed : a ≡ (if st.result == "Allow" then 1 else 0)
  pub attempted : t ≡ (if st.attempted then 1 else 0)
  pub completed : o ≡ (if st.completed then 1 else 0)
  pub gate : st.attempted ≡ true → (st.result == "Allow") ≡ true
  pub order : st.completed ≡ true → st.attempted ≡ true

pub empty_not_allow : (r : String) → (r == "") ≡ true → (r == "Allow") ≡ false
empty_not_allow r h = rw ((==_iff r "").0 h) refl

valid_not_empty : (r : String) → valid_decision r ≡ true → (r == "") ≡ false
unfolding valid_decision
valid_not_empty r h = elim (Bool-cases (r == "")) [
  | inl e ↦ let n : valid_decision "" ≡ true = rw ((==_iff r "").0 e) at h in cc
  | inr n ↦ n
]

set_result_Tally :
    (d a t o : ℕ) (st : InvocationState) (r : String)
    → (st.result == "") ≡ true
    → valid_decision r ≡ true
    → Tally d a t o st
    → Tally (d + 1) (a + one_if (r == "Allow")) t o (record st { result = r })
set_result_Tally d a t o st r z v tally =
    ground (arith, empty_not_allow st.result, valid_not_empty r)

module _ (f : Fact) where
  decision_result :
      (st st' : InvocationState)
      → is_decision f ≡ true
      → decision_stage f st ≡ ok st'
      → (valid_decision f.result ≡ true)
        × ((st.result == "") ≡ true)
        × (st' ≡ record st { result = f.result })
  unfolding decision_stage
  decision_result st st' e h = ground arith

  decision_Tally :
      (d a t o : ℕ) (st st' : InvocationState)
      → decision_stage f st ≡ ok st'
      → Tally d a t o st
      → Tally
          (d + one_if (is_decision f))
          (a + one_if (is_decision f && f.result == "Allow"))
          t
          o
          st'
  unfolding decision_stage
  decision_Tally d a t o st st' h tally = elim (Bool-cases (is_decision f)) [
    | inl e ↦
        let (v, z, q) = decision_result st st' e h in
        rw (e, q) (set_result_Tally d a t o st f.result z v tally)
    | inr n ↦
        let q : st' ≡ st = ground arith in
        rw (n, q)
          (let x : d + 0 ≡ d = omega arith in let y : a + 0 ≡ a = omega arith in rw (x, y) tally)
  ]

  attempt_Tally :
      (d a t o : ℕ) (st st' : InvocationState)
      → attempt_stage f st ≡ ok st'
      → Tally d a t o st
      → Tally d a (t + one_if (is_attempt f)) o st'
  unfolding attempt_stage
  attempt_Tally d a t o st st' h tally = ground arith

  outcome_Tally :
      (d a t o : ℕ) (st st' : InvocationState)
      → outcome_stage f st ≡ ok st'
      → Tally d a t o st
      → Tally d a t (o + one_if (is_outcome f)) st'
  unfolding outcome_stage
  outcome_Tally d a t o st st' h tally = ground arith

  -- One fact through all stages adds to each number what the fact records.
  pub stages-Tally :
      (d a t o : ℕ) (st st' : InvocationState)
      → stages f st ≡ ok st'
      → Tally d a t o st
      → Tally
          (d + one_if (is_decision f))
          (a + one_if (is_decision f && f.result == "Allow"))
          (t + one_if (is_attempt f))
          (o + one_if (is_outcome f))
          st'
  unfolding stages
  stages-Tally d a t o st st' h tally =
      let (st₁, e₁, r₁) = >>=-eq-ok (decision_stage f st) h in
      let (st₂, e₂, r₂) = >>=-eq-ok (attempt_stage f st₁) r₁ in
      let (u, e₃, r₃) = >>=-eq-ok (result_check f) r₂ in
      outcome_Tally _ _ _ o st₂ st' r₃
        (attempt_Tally _ _ t o st₁ st₂ e₂ (decision_Tally d a t o st st₁ e₁ tally))
