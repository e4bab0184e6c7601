-- ===== src/Facts/Order.antt =====
-- The journal's order: consecutive sequence numbers and distinct identities.
use agenova.Prelude.{
  ℕ, ◌+◌, ◌<◌, ◌^◌, true, false, List, [], ◌∷◌, ◌++◌, Option, is_some, update, update_self, length,
  length-append, All, All-append, All-weaken, string_eq, leb, ◌≡◌, ◌≢◌, ap, subst, arith,
}
use agenova.Facts.{Fact, Journal, InvocationState, new_journal}
use agenova.Facts.Append.{publish, stamped, next_sequence}
use agenova.Facts.Reach.{IsKept, Reach, Reach_induction}
use agenova.Facts.Published.{publish-facts, publish-ids, publish_fields}

-- The first fact has the number after `n`, the next one the number after that, and so on.
abbrev pub IsNumbered : ℕ → List Fact → Type 0
IsNumbered n [] = Unit
IsNumbered n (f ∷ fs) = (f.sequence ≡ n + 1) × IsNumbered (n + 1) fs

abbrev pub HasDistinctIds : List Fact → Type 0
HasDistinctIds [] = Unit
HasDistinctIds (f ∷ fs) = All (λ g. f.id ≢ g.id) fs × HasDistinctIds fs

pub record IsOrdered (j : Journal) : Type 0 where
  pub numbered : IsNumbered j.start_sequence j.facts
  pub bounded : j.start_sequence + length j.facts < 2 ^ 64
  pub known : All (λ f. is_some (j.ids f.id) ≡ true) j.facts
  pub distinct : HasDistinctIds j.facts

IsNumbered-snoc :
    (n : ℕ) (fs : List Fact) (g : Fact)
    → IsNumbered n fs
    → g.sequence ≡ n + length fs + 1
    → IsNumbered n (fs ++ g ∷ [])
IsNumbered-snoc n [] g h e = (omega (arith, e), tt)
IsNumbered-snoc n (f ∷ fs) g h e = (h.0, IsNumbered-snoc (n + 1) fs g h.1 (omega (arith, e)))

HasDistinctIds-snoc :
    (fs : List Fact) (g : Fact)
    → All (λ f. f.id ≢ g.id) fs
    → HasDistinctIds fs
    → HasDistinctIds (fs ++ g ∷ [])
HasDistinctIds-snoc [] g a h = (tt, tt)
HasDistinctIds-snoc (f ∷ fs) g a h =
    (All-append (λ x. f.id ≢ x.id) fs (g ∷ []) h.0 (a.0, tt), HasDistinctIds-snoc fs g a.1 h.1)

next_sequence_exact :
    (j : Journal)
    → j.start_sequence + length j.facts < 2 ^ 64
    → leb (next_sequence j) j.start_sequence ≡ false
    → (next_sequence j ≡ j.start_sequence + length j.facts + 1) × (next_sequence j < 2 ^ 64)
unfolding next_sequence
next_sequence_exact j b l =
    let lt : j.start_sequence < next_sequence j = ground arith in (omega arith, omega arith)

module _ (j : Journal) (now : ℕ) (f : Fact) (stage : InvocationState) where
  new_id :
      is_some (j.ids (stamped j now f).id) ≡ false
      → (g : Fact) → is_some (j.ids g.id) ≡ true
      → g.id ≢ (stamped j now f).id
  new_id fresh g old e = let q = subst (λ i. is_some (j.ids i) ≡ true) e old in cc

  still_known :
      (g : Fact)
      → is_some (j.ids g.id) ≡ true
      → is_some (update j.ids (stamped j now f).id tt g.id) ≡ true
  still_known g h = ground arith

  publish-IsOrdered :
      is_some (j.ids (stamped j now f).id) ≡ false
      → leb (next_sequence j) j.start_sequence ≡ false
      → IsOrdered j
      → IsOrdered (publish j (stamped j now f) stage)
  publish-IsOrdered fresh later h =
      let g = stamped j now f in
      let (exact, below) = next_sequence_exact j h.bounded later in
      let start = (publish_fields j g stage).0 in
      record {
        numbered =
            rw (publish-facts, start) (IsNumbered-snoc j.start_sequence j.facts g h.numbered exact);
        bounded = rw (publish-facts, start, length-append) (omega arith);
        known =
            rw (publish-facts, publish-ids)
              (All-append (λ x. is_some (update j.ids g.id tt x.id) ≡ true) j.facts (g ∷ [])
                (All-weaken (λ x. is_some (j.ids x.id) ≡ true)
                  (λ x. is_some (update j.ids g.id tt x.id) ≡ true) j.facts still_known h.known)
                (ap (λ (o : Option (Unit {0})). is_some o) (update_self j.ids g.id tt), tt));
        distinct = rw publish-facts (
            HasDistinctIds-snoc j.facts g
              (All-weaken (λ x. is_some (j.ids x.id) ≡ true) (λ x. x.id ≢ g.id) j.facts
                (new_id fresh) h.known)
              h.distinct);
      }

IsOrdered-kept : IsKept IsOrdered
unfolding new_journal
IsOrdered-kept = record {
  at_new = λ start h. record { numbered = tt; bounded = omega arith; known = tt; distinct = tt };
  at_register = λ j ref p ne h. record {
    numbered = h.numbered;
    bounded = h.bounded;
    known = h.known;
    distinct = h.distinct;
  };
  at_bind = λ j ref claim k n c r h. record {
    numbered = h.numbered;
    bounded = h.bounded;
    known = h.known;
    distinct = h.distinct;
  };
  at_publish =
      λ j now f g stage p h. rw p.named (publish-IsOrdered j now f stage p.fresh p.later h);
}

-- In every journal that the methods can make, the facts are numbered consecutively from the number
-- after the start, without a wrap of the 64-bit sequence, and no two facts have one identity.
pub journal_order : (W : Type 0) (j : Journal) → Reach W j → IsOrdered j
journal_order W j r = Reach_induction IsOrdered-kept r
