-- ===== src/Facts/Budget.antt =====
-- The model call budget of a request: its reservations never pass their limit.
use agenova.Prelude.{
  ℕ, suc, ◌+◌, String, Bool, true, false, ◌&&◌, List, [], ◌∷◌, ◌++◌, ok, >>=-eq-ok, refuse_if,
  count, count-append, All, All-append, All-weaken_mem, All-mem, ◌==◌, ◌!=◌, string_eq, nat_eq, ◌≡◌,
  refl, ◌∙◌, subst, arith, Bool-cases, inl, inr, ==_iff, ==_self,
}
use mathlib.Core.List.{Memᴰ}
use agenova.Prelude.Int.{pos, leb_ℤ, int_eq}
use agenova.Facts.{Fact, Journal, new_journal}
use agenova.Facts.Checks.{budget_check, reservation_check, is_bad_reservation, count_reservations}
use agenova.Facts.Append.{stamped}
use agenova.Facts.Reach.{IsKept, Reach, Reach_induction, refuse_if_ok}
use agenova.Facts.Published.{publish-facts}

abbrev pub reserves : String → Fact → Bool
reserves r f = f.kind == "ModelBudgetReservation" && f.request_ref == r

abbrev SameLimit : Fact → Fact → Type 0
SameLimit f p = reserves f.request_ref p ≡ true → p.model_call_limit ≡ f.model_call_limit

module _ (f p : Fact) (fs : List Fact) (k n : ℕ) (h : count_reservations f (p ∷ fs) k ≡ ok n) where
  count_mine :
      reserves f.request_ref p ≡ true
      → (p.model_call_limit ≡ f.model_call_limit) × (count_reservations f fs (suc k) ≡ ok n)
  unfolding count_reservations
  count_mine e = ground (arith, ==_iff p.model_call_limit f.model_call_limit)

  count_other : reserves f.request_ref p ≡ false → count_reservations f fs k ≡ ok n
  unfolding count_reservations
  count_other e = ground arith

count_reservations_ok :
    (f : Fact) (fs : List Fact) (k n : ℕ)
    → count_reservations f fs k ≡ ok n
    → (n ≡ k + count (reserves f.request_ref) fs) × All (SameLimit f) fs
unfolding count_reservations
count_reservations_ok f [] k n h = (let e : k ≡ n = cc in omega arith, tt)
count_reservations_ok f (p ∷ fs) k n h = elim (Bool-cases (reserves f.request_ref p)) [
  | inl e ↦
      let (same, more) = count_mine f p fs k n h e in
      let (total, all) = count_reservations_ok f fs (suc k) n more in
      (rw e (omega (arith, total)), ((λ _. same), all))
  | inr m ↦
      let (total, all) = count_reservations_ok f fs k n (count_other f p fs k n h m) in
      (rw m (omega (arith, total)), ((λ e. cc), all))
]

bad_reservation_limits :
    (f : Fact) (n : ℕ)
    → is_bad_reservation f ≡ false
    → f.model_call_count ≡ pos (suc n)
    → (leb_ℤ (pos (suc n)) f.model_call_limit ≡ true) × (leb_ℤ f.model_call_limit (pos 1000) ≡ true)
bad_reservation_limits f n h e = ground arith

-- What the check of a reservation gives: with this one, its request has at most `limit`, and as
-- many as it says.
reservation_check_ok :
    (j : Journal) (f : Fact)
    → reservation_check j f ≡ ok tt
    → (leb_ℤ (pos (suc (count (reserves f.request_ref) j.facts))) f.model_call_limit ≡ true)
      × (leb_ℤ f.model_call_limit (pos 1000) ≡ true)
      × All (SameLimit f) j.facts
unfolding reservation_check
reservation_check_ok j f h =
    let (u, c, h₁) = >>=-eq-ok (refuse_if (is_bad_reservation f) "invalid budget fact") h in
    let (n, counted, h₂) = >>=-eq-ok (count_reservations f j.facts 0) h₁ in
    let next =
      refuse_if_ok (f.model_call_count != pos (suc n)) "budget count is not monotonic" tt h₂ in
    let (total, all) = count_reservations_ok f j.facts 0 n counted in
    let exact : f.model_call_count ≡ pos (suc n) =
      ground (arith, ==_iff f.model_call_count (pos (suc n))) in
    let (within, capped) =
      bad_reservation_limits f n (refuse_if_ok (is_bad_reservation f) "invalid budget fact" u c)
        exact in
    let same : n ≡ count (reserves f.request_ref) j.facts = omega (arith, total) in
    (subst (λ m. leb_ℤ (pos (suc m)) f.model_call_limit ≡ true) same within, capped, all)

-- Whoever reserved for a request may have as many reservations as the log now holds.
abbrev pub IsWithin : List Fact → Fact → Type 0
IsWithin fs f =
    (r : String)
    → reserves r f ≡ true
    → (leb_ℤ (pos (count (reserves r) fs)) f.model_call_limit ≡ true)
      × (leb_ℤ f.model_call_limit (pos 1000) ≡ true)

abbrev IsBudgeted : Journal → Type 0
IsBudgeted j = All (IsWithin j.facts) j.facts

pub snoc_mine :
    (r : String) (fs : List Fact) (g : Fact)
    → reserves r g ≡ true
    → count (reserves r) (fs ++ g ∷ []) ≡ suc (count (reserves r) fs)
snoc_mine r fs g e = simp (count-append, e) (omega arith)

snoc_other :
    (r : String) (fs : List Fact) (g : Fact)
    → reserves r g ≡ false
    → count (reserves r) (fs ++ g ∷ []) ≡ count (reserves r) fs
snoc_other r fs g e = simp (count-append, e) (omega arith)

reserves_parts :
    (r : String) (g : Fact)
    → reserves r g ≡ true
    → ((g.kind == "ModelBudgetReservation") ≡ true) × (g.request_ref ≡ r)
reserves_parts r g e = ground (arith, ==_iff g.request_ref r)

module _ (j : Journal) (g : Fact) (checked : budget_check j g ≡ ok tt) where
  checked_reservation :
      (r : String)
      → reserves r g ≡ true
      → (leb_ℤ (pos (suc (count (reserves r) j.facts))) g.model_call_limit ≡ true)
        × (leb_ℤ g.model_call_limit (pos 1000) ≡ true)
        × All (λ p. reserves r p ≡ true → p.model_call_limit ≡ g.model_call_limit) j.facts
  unfolding budget_check
  checked_reservation r e =
      let (kind, mine) = reserves_parts r g e in
      subst
        (λ s.
          (leb_ℤ (pos (suc (count (reserves s) j.facts))) g.model_call_limit ≡ true)
          × (leb_ℤ g.model_call_limit (pos 1000) ≡ true)
          × All (λ p. reserves s p ≡ true → p.model_call_limit ≡ g.model_call_limit) j.facts)
        mine (reservation_check_ok j g (rw (kind, budget_check) at checked))

  IsWithin-self : IsWithin (j.facts ++ g ∷ []) g
  IsWithin-self r e =
      let (low, high, _) = checked_reservation r e in (rw (snoc_mine r j.facts g e) low, high)

  IsWithin-still : (f : Fact) → Memᴰ f j.facts → IsWithin j.facts f → IsWithin (j.facts ++ g ∷ []) f
  IsWithin-still f m h r e = elim (Bool-cases (reserves r g)) [
    | inl mine ↦
        let (low, high, all) = checked_reservation r mine in
        let same =
          All-mem (λ p. reserves r p ≡ true → p.model_call_limit ≡ g.model_call_limit) j.facts all m
            e in
        (rw (snoc_mine r j.facts g mine, same) low, (h r e).1)
    | inr other ↦ (rw (snoc_other r j.facts g other) (h r e).0, (h r e).1)
  ]

  snoc-IsBudgeted : IsBudgeted j → All (IsWithin (j.facts ++ g ∷ [])) (j.facts ++ g ∷ [])
  snoc-IsBudgeted h =
      All-append (IsWithin (j.facts ++ g ∷ [])) j.facts (g ∷ [])
        (All-weaken_mem (IsWithin j.facts) (IsWithin (j.facts ++ g ∷ [])) j.facts IsWithin-still h)
        (IsWithin-self, tt)

module _ (j : Journal) (now : ℕ) (f : Fact) where
  count-stamped :
      (fs : List Fact) (k : ℕ)
      → count_reservations (stamped j now f) fs k ≡ count_reservations f fs k
  unfolding count_reservations
  count-stamped [] k = refl
  count-stamped (p ∷ fs) k =
      let more = count-stamped fs (suc k) in let other = count-stamped fs k in ground arith

  check-stamped : budget_check j (stamped j now f) ≡ budget_check j f
  unfolding budget_check reservation_check
  check-stamped = simp (count-stamped j.facts 0)

IsBudgeted-kept : IsKept IsBudgeted
unfolding new_journal
IsBudgeted-kept = record {
  at_new = λ start h. tt;
  at_register = λ j ref p ne h. h;
  at_bind = λ j ref claim k n c r h. h;
  at_publish = λ j now f g stage p h.
      rw (p.named, publish-facts)
        (snoc-IsBudgeted j (stamped j now f) (check-stamped j now f ∙ p.budgeted) h);
}

-- In every journal that the methods can make, a request whose log holds a reservation has at most as
-- many reservations as that one's limit, which is at most 1000.
pub budget_bound :
    (W : Type 0) (j : Journal) (f : Fact)
    → Reach W j
    → Memᴰ f j.facts
    → f.kind ≡ "ModelBudgetReservation"
    → (leb_ℤ (pos (count (reserves f.request_ref) j.facts)) f.model_call_limit ≡ true)
      × (leb_ℤ f.model_call_limit (pos 1000) ≡ true)
budget_bound W j f reach m e =
    All-mem (IsWithin j.facts) j.facts (Reach_induction IsBudgeted-kept reach) m f.request_ref
      (simp (e, ==_self))
