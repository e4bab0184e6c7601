-- ===== src/Facts/Commit.antt =====
-- What one call of `append` and of ReserveModelCall does, on every branch.
use agenova.Prelude.{
  ℕ, suc, ◌+◌, String, Bool, true, false, ◌||◌, List, [], ◌∷◌, ◌++◌, Option, none, some, Result, ok,
  err, count, ◌==◌, string_eq, ◌≡◌, refl, sym, ap, subst, arith, Bool-cases, inl, inr, ==_self,
}
use agenova.Prelude.Int.{ℤ, pos, leb_ℤ, ltb_ℤ, int_eq}
use agenova.Facts.{Fact, Journal, InvocationState, for_request, select}
use agenova.Facts.Append.{Sink, chosen, publish_if, record_fact, prepare, append_with, append}
use agenova.Facts.Reserve.{count_calls, reserve, reserved, reservation, reserve_model_call}
use agenova.Facts.Published.{publish-facts}
use agenova.Facts.Budget.{reserves, snoc_mine}
use agenova.Facts.Reach.{prepare_ok}

-- What the durable store has been told, if there is one.
abbrev pub IsCommitted : {W : Type 0} → Option (Sink W) → W → Fact → W → Type 0
IsCommitted none w g w' = w' ≡ w
IsCommitted (some sink) w g w' = sink w g ≡ (w', none)

-- A fact as the caller gave it, but for the identity, sequence and time.
abbrev pub IsStamped : Fact → Fact → Type 0
IsStamped f g = g ≡ record f { id = g.id; sequence = g.sequence; timestamp = g.timestamp }

-- Success: one fact more, the caller's, stamped, and the store has accepted that very fact.
-- Failure: the journal as it was.
abbrev pub IsAtomic :
    {W : Type 0} → Option (Sink W) → Journal → W → Fact → Journal × W × Result String Fact → Type 0
IsAtomic sink j w f (j', w', ok g) =
    (j'.facts ≡ j.facts ++ g ∷ []) × IsStamped f g × IsCommitted sink w g w'
IsAtomic sink j w f (j', w', err e) = j' ≡ j

module _ {W : Type 0} (j : Journal) (w : W) (f : Fact) where
  answered-IsAtomic :
      (sink : Sink W) (g : Fact) (stage : InvocationState) (r : W × Option String)
      → IsStamped f g
      → sink w g ≡ r
      → IsAtomic (some sink) j w f (publish_if j g stage r)
  answered-IsAtomic sink g stage (w', some e) s q = refl
  answered-IsAtomic sink g stage (w', none) s q = (publish-facts j g stage, s, q)

  recorded-IsAtomic :
      (sink : Option (Sink W)) (now : ℕ) (r : Result String (Fact × InvocationState))
      → prepare j now f ≡ r
      → IsAtomic sink j w f (record_fact sink j w r)
  recorded-IsAtomic sink now (err e) h = refl
  recorded-IsAtomic none now (ok (g, stage)) h =
      let named = (prepare_ok j now f (g, stage) h).named in
      (publish-facts j g stage, subst (IsStamped f) (sym named) refl, refl)
  recorded-IsAtomic (some sink) now (ok (g, stage)) h =
      let named = (prepare_ok j now f (g, stage) h).named in
      answered-IsAtomic sink g stage (sink w g) (subst (IsStamped f) (sym named) refl) refl

-- A call of Append, or of AppendWithCommit with its override, either adds the fact, with its identity,
-- sequence and time, after the commit that applies has accepted it, or returns an error and
-- leaves the journal as it was.
pub append_with-IsAtomic :
    {W : Type 0} (default override : Option (Sink W)) (j : Journal) (w : W) (now : ℕ) (f : Fact)
    → IsAtomic (chosen default override) j w f (append_with default override j w now f)
unfolding append_with
append_with-IsAtomic default override j w now f =
    recorded-IsAtomic j w f (chosen default override) now (prepare j now f) refl

module _ (id ref : String) (limit : ℤ) where
  call_mine :
      (f : Fact) (fs : List Fact) (k n : ℕ)
      → (f.kind == "ModelBudgetReservation") ≡ true
      → count_calls id limit (f ∷ fs) k ≡ ok n
      → count_calls id limit fs (suc k) ≡ ok n
  unfolding count_calls
  call_mine f fs k n e h = ground arith

  call_other :
      (f : Fact) (fs : List Fact) (k n : ℕ)
      → (f.kind == "ModelBudgetReservation") ≡ false
      → count_calls id limit (f ∷ fs) k ≡ ok n
      → count_calls id limit fs k ≡ ok n
  unfolding count_calls
  call_other f fs k n e h = ground arith

  abbrev mine : List Fact → List Fact
  mine = select (λ f. f.request_ref == ref)

  count_calls_ok :
      (fs : List Fact) (k n : ℕ)
      → count_calls id limit (mine fs) k ≡ ok n
      → n ≡ k + count (reserves ref) fs
  count_calls_ok [] k n h = let e : k ≡ n = (unfold count_calls in cc) in omega arith
  count_calls_ok (f ∷ fs) k n h = elim (Bool-cases (f.request_ref == ref)) [
    | inl own ↦ elim (Bool-cases (f.kind == "ModelBudgetReservation")) [
      | inl r ↦
          rw (own, r)
            (omega (arith, count_calls_ok fs (suc k) n (call_mine f (mine fs) k n r (rw own at h))))
      | inr o ↦
          rw (own, o)
            (omega (arith, count_calls_ok fs k n (call_other f (mine fs) k n o (rw own at h))))
    ]
    | inr other ↦ ground (arith, count_calls_ok fs k n (rw other at h))
  ]

-- What ReserveModelCall answers: yes, with one reservation more and room for it; no, with the limit
-- used up and nothing changed; or an error, with the journal as it was.
abbrev pub IsReservation :
    {W : Type 0} → String → ℤ → Journal → W → Journal × W × Result String Bool → Type 0
IsReservation ref limit j w (j', w', ok true) =
    (count (reserves ref) j'.facts ≡ suc (count (reserves ref) j.facts))
    × (leb_ℤ limit (pos (count (reserves ref) j.facts)) ≡ false)
IsReservation ref limit j w (j', w', ok false) =
    (j' ≡ j) × (w' ≡ w) × (leb_ℤ limit (pos (count (reserves ref) j.facts)) ≡ true)
IsReservation ref limit j w (j', w', err e) = j' ≡ j

module _ {W : Type 0} (j : Journal) (w : W) (ref claim id : String) (limit : ℤ) where
  appended-IsReservation :
      (sink : Option (Sink W)) (n : ℕ) (r : Journal × W × Result String Fact)
      → leb_ℤ limit (pos (count (reserves ref) j.facts)) ≡ false
      → IsAtomic sink j w (reservation ref claim id limit n) r
      → IsReservation ref limit j w (reserved r)
  appended-IsReservation sink n (j', w', ok g) room (facts, s, _) =
      let kind = ap (λ (x : Fact). x.kind) s in
      let own = ap (λ (x : Fact). x.request_ref) s in
      (rw facts (snoc_mine ref j.facts g (rw (kind, own) (==_self ref))), room)
  appended-IsReservation sink n (j', w', err e) room h = h

  reserve-IsReservation :
      (default : Option (Sink W)) (now : ℕ) (r : Result String ℕ)
      → count_calls id limit (for_request j ref) 0 ≡ r
      → IsReservation ref limit j w (reserve default j w now ref claim id limit r)
  unfolding for_request append
  reserve-IsReservation default now (err e) h = refl
  reserve-IsReservation default now (ok n) h =
      let e = count_calls_ok id ref limit j.facts 0 n h in
      let same : n ≡ count (reserves ref) j.facts = omega (arith, e) in
      elim (Bool-cases (leb_ℤ limit (pos n))) [
        | inl full ↦ rw full (refl, refl, subst (λ m. leb_ℤ limit (pos m) ≡ true) same full)
        | inr room ↦ rw room (
            appended-IsReservation (chosen default none) n
              (append default j w now (reservation ref claim id limit n))
              (subst (λ m. leb_ℤ limit (pos m) ≡ false) same room)
              (append_with-IsAtomic default none j w now (reservation ref claim id limit n)))
      ]

-- ReserveModelCall answers yes only below the limit, and then the request has one reservation more;
-- it answers no only at the limit, and then nothing changes; an error leaves the journal.
pub reserve_model_call-IsReservation :
    {W : Type 0} (default : Option (Sink W)) (j : Journal) (w : W) (now : ℕ) (ref claim id : String)
    (limit : ℤ)
    → IsReservation ref limit j w (reserve_model_call default j w now ref claim id limit)
unfolding reserve_model_call
reserve_model_call-IsReservation default j w now ref claim id limit =
    elim (Bool-cases (id == "" || ltb_ℤ limit (pos 1) || ltb_ℤ (pos 1000) limit)) [
      | inl bad ↦ rw (bad, reserve_model_call) refl
      | inr good ↦
          rw (good, reserve_model_call)
            (reserve-IsReservation j w ref claim id limit default now
              (count_calls id limit (for_request j ref) 0) refl)
    ]
