-- ===== src/Governance/Family.antt =====
-- The two maps of a lineage agree (internal/governance/lineage.go).
use agenova.Prelude.{
  ℕ, ◌+◌, String, Bool, true, false, ◌&&◌, List, [], ◌∷◌, ◌++◌, Option, none, some, ◌==◌, string_eq,
  contains, update, update_self, get_or, count, count-append, ltb, ◌≡◌, ◌≢◌, ◌↔◌, ◌⊎◌, inl, inr,
  refl, sym, ap, ◌∙◌, subst, arith, Bool-cases, ==_iff, ==_self, false_ne,
}
use agenova.Governance.{
  Lineage, LineageError, new_lineage, children_of, registered, register_under, register_child,
  parent, children, is_child_of,
}

-- The lineages that calls of RegisterChild make.
pub data Built : Lineage → Type 0 where
  built_new : Built new_lineage
  built_register :
      {l : Lineage}
      → Built l
      → (parent_claim_id child_claim_id : String)
      → Built (register_child l parent_claim_id child_claim_id).0

abbrev is_value : Option String → String → Bool
is_value none p = false
is_value (some q) p = q == p

abbrev one_if : Bool → ℕ
one_if true = 1
one_if false = 0

abbrev occurrences : List String → String → ℕ
occurrences l c = count (λ x. x == c) l

-- A claim stands once under its parent, and under no other.
record IsConsistent (l : Lineage) : Type 0 where
  once : (p c : String) → occurrences (children_of l p) c ≡ one_if (is_value (l.parents c) p)
  proper : (p c : String) → l.parents c ≡ some p → (p ≢ "") × (c ≢ "") × (p ≢ c)

contains_count : (l : List String) (c : String) → contains l c ≡ ltb 0 (occurrences l c)
contains_count [] c = refl
contains_count (x ∷ l) c = elim (Bool-cases (x == c)) [
  | inl e ↦ rw e (ground arith)
  | inr f ↦ rw f (contains_count l c ∙ ap (ltb 0) (omega arith))
]

new_lineage-IsConsistent : IsConsistent new_lineage
unfolding new_lineage
new_lineage-IsConsistent = record { once = λ p c. refl; proper = λ p c h. cc h }

module _ (l : Lineage) (p c : String) where
  -- Whoever asks for another child sees what was there.
  added_children :
      (q d : String)
      → contains (children_of l p) c ≡ false
      → occurrences (get_or [] (update l.children p (children_of l p ++ c ∷ []) q)) d
        ≡ occurrences (children_of l q) d + one_if ((p == q) && (c == d))
  added_children q d n = elim (Bool-cases (p == q)) [
    | inl e ↦
        let same : p ≡ q = (==_iff p q).0 e in
        rw e (
          count-append (λ x. x == d) (children_of l p) (c ∷ [])
          ∙ subst
              (λ r.
                occurrences (children_of l p) d + (occurrences (c ∷ []) d)
                ≡ occurrences (children_of l r) d + one_if (c == d))
              same (last (c == d) refl))
    | inr f ↦ rw f (omega arith)
  ]
    where
      last :
          (b : Bool)
          → (c == d) ≡ b
          → occurrences (children_of l p) d + occurrences (c ∷ []) d
            ≡ occurrences (children_of l p) d + one_if (c == d)
      last true e = rw e (omega arith)
      last false e = rw e (omega arith)

  same_parents : (d : String) → l.parents c ≡ some p → update l.parents c p d ≡ l.parents d
  same_parents d h = elim (Bool-cases (c == d)) [
    | inl e ↦ rw e (sym h ∙ ap l.parents ((==_iff c d).0 e))
    | inr f ↦ rw f refl
  ]

  -- The child is new, or it is there already.
  was_there :
      IsConsistent l
      → contains (children_of l p) c ≡ true
      → ((l.parents c ≡ none) ⊎ (l.parents c ≡ some p))
      → l.parents c ≡ some p
  was_there k h (inr e) = e
  was_there k h (inl e) =
      let zero : occurrences (children_of l p) c ≡ 0 =
        k.once p c ∙ ap (λ o. one_if (is_value o p)) e in
      cc (h, contains_count (children_of l p) c, ap (ltb 0) zero)

  was_not :
      IsConsistent l
      → contains (children_of l p) c ≡ false
      → ((l.parents c ≡ none) ⊎ (l.parents c ≡ some p))
      → l.parents c ≡ none
  was_not k h (inl e) = e
  was_not k h (inr e) =
      let one : occurrences (children_of l p) c ≡ 1 =
        k.once p c ∙ (ap (λ o. one_if (is_value o p)) e ∙ ap one_if (==_self p)) in
      cc (h, contains_count (children_of l p) c, ap (ltb 0) one)

  once_there :
      IsConsistent l
      → l.parents c ≡ some p
      → (q d : String)
      → occurrences (children_of l q) d ≡ one_if (is_value (update l.parents c p d) q)
  once_there k h q d = k.once q d ∙ ap (λ o. one_if (is_value o q)) (sym (same_parents d h))

  once_new :
      IsConsistent l
      → contains (children_of l p) c ≡ false
      → l.parents c ≡ none
      → (q d : String)
      → occurrences (get_or [] (update l.children p (children_of l p ++ c ∷ []) q)) d
        ≡ one_if (is_value (update l.parents c p d) q)
  once_new k n h q d = elim (Bool-cases (c == d)) [
    | inl e ↦
        let none_there : occurrences (children_of l q) d ≡ 0 =
          k.once q d
          ∙ ap (λ o. one_if (is_value o q)) (ap l.parents (sym ((==_iff c d).0 e)) ∙ h) in
        added_children q d n ∙ rw (e, none_there) (own (p == q))
    | inr f ↦ added_children q d n ∙ rw (f, k.once q d) (other (p == q) _)
  ]
    where
      own : (b : Bool) → 0 + one_if (b && true) ≡ one_if b
      own true = refl
      own false = refl

      other : (b : Bool) (n : ℕ) → n + one_if (b && false) ≡ n
      other true n = omega arith
      other false n = omega arith

  registered-IsConsistent :
      IsConsistent l
      → p ≢ ""
      → c ≢ ""
      → p ≢ c
      → ((l.parents c ≡ none) ⊎ (l.parents c ≡ some p))
      → IsConsistent (registered l p c)
  registered-IsConsistent k np nc ns o = elim (Bool-cases (contains (children_of l p) c)) [
    | inl e ↦ rw e (record { once = once_there k (was_there k e o); proper = proper })
    | inr f ↦ rw f (record { once = once_new k f (was_not k f o); proper = proper })
  ]
    where
      proper : (q d : String) → update l.parents c p d ≡ some q → (q ≢ "") × (d ≢ "") × (q ≢ d)
      proper q d h = elim (Bool-cases (c == d)) [
        | inl e ↦
            let same : p ≡ q = cc (rw e at h) in
            let child : c ≡ d = (==_iff c d).0 e in
            (
              subst (λ x. x ≢ "") same np,
              subst (λ x. x ≢ "") child nc,
              subst (λ x. x ≢ d) same (subst (λ x. p ≢ x) child ns),
            )
        | inr f ↦ k.proper q d (rw f at h)
      ]

register_under-IsConsistent :
    (l : Lineage) (p c : String) (o : Option String)
    → IsConsistent l
    → p ≢ ""
    → c ≢ ""
    → p ≢ c
    → l.parents c ≡ o
    → IsConsistent (register_under l p c o).0
register_under-IsConsistent l p c none k np nc ns e =
    registered-IsConsistent l p c k np nc ns (inl e)
register_under-IsConsistent l p c (some q) k np nc ns e = elim (Bool-cases (q == p)) [
  | inl t ↦ rw t (registered-IsConsistent l p c k np nc ns (inr (e ∙ ap some ((==_iff q p).0 t))))
  | inr f ↦ rw f k
]

register_child-IsConsistent :
    (l : Lineage) (p c : String) → IsConsistent l → IsConsistent (register_child l p c).0
unfolding register_child
register_child-IsConsistent l p c k = elim (Bool-cases (p == "")) [
  | inl e ↦ rw e k
  | inr np ↦ elim (Bool-cases (c == "")) [
    | inl e ↦ rw (np, e) k
    | inr nc ↦ elim (Bool-cases (p == c)) [
      | inl e ↦ rw (np, nc, e) k
      | inr ns ↦
          rw (np, nc, ns)
            (register_under-IsConsistent l p c (l.parents c) k (false_ne p "" np) (false_ne c "" nc)
              (false_ne p c ns) refl)
    ]
  ]
]

Built-IsConsistent : (l : Lineage) → Built l → IsConsistent l
Built-IsConsistent l built_new = new_lineage-IsConsistent
Built-IsConsistent l (built_register {l = m} b p c) =
    register_child-IsConsistent m p c (Built-IsConsistent m b)

is_value_iff : (o : Option String) (p : String) → (is_value o p ≡ true) ↔ (o ≡ some p)
is_value_iff none p = (λ h. cc h, λ h. cc h)
is_value_iff (some q) p = (λ h. ap some ((==_iff q p).0 h), λ h. (==_iff q p).1 (cc h))

child_cases :
    (o : Option String) (p : String)
    → ((get_or "" o == p) ≡ true) ↔ ((o ≡ some p) ⊎ ((p ≡ "") × (o ≡ none)))
child_cases none p = (
  λ h. inr (sym ((==_iff "" p).0 h), refl),
  λ h. elim h [ inl e ↦ cc e | inr e ↦ (==_iff "" p).1 (sym e.0) ],
)
child_cases (some q) p = (
  λ h. inl (ap some ((==_iff q p).0 h)),
  λ h. elim h [ inl e ↦ (==_iff q p).1 (cc e) | inr e ↦ cc e.1 ],
)

-- In every lineage that calls of RegisterChild make, a claim is among the children of another exactly when
-- that is its parent, and at most once; no parent and no child has the empty name and no claim is its own
-- parent. IsChildOf agrees with Parent, but that it also holds of the empty name and a claim without a parent.
pub children-parent :
    (l : Lineage)
    → Built l
    → (p c : String)
    → ((contains (children l p) c ≡ true) ↔ (parent l c ≡ some p))
      × (ltb 1 (count (λ x. x == c) (children l p)) ≡ false)
      × (parent l c ≡ some p → (p ≢ "") × (c ≢ "") × (p ≢ c))
      × ((is_child_of l p c ≡ true) ↔ ((parent l c ≡ some p) ⊎ ((p ≡ "") × (parent l c ≡ none))))
unfolding children parent is_child_of
children-parent l b p c =
    let k = Built-IsConsistent l b in
    let t = is_value (l.parents c) p in
    let held : contains (children_of l p) c ≡ t =
      contains_count (children_of l p) c ∙ (ap (ltb 0) (k.once p c) ∙ positive t) in
    let i = is_value_iff (l.parents c) p in
    (
      (λ h. i.0 (sym held ∙ h), λ h. held ∙ i.1 h),
      ap (ltb 1) (k.once p c) ∙ at_most t,
      k.proper p c,
      child_cases (l.parents c) p,
    )
  where
    positive : (b : Bool) → ltb 0 (one_if b) ≡ b
    positive true = refl
    positive false = refl

    at_most : (b : Bool) → ltb 1 (one_if b) ≡ false
    at_most true = refl
    at_most false = refl

registered_parents :
    (l : Lineage) (p c d : String) → (registered l p c).parents d ≡ update l.parents c p d
registered_parents l p c d = elim (Bool-cases (contains (children_of l p) c)) [
  | inl e ↦ rw e refl
  | inr f ↦ rw f refl
]

-- What one call does to the parents: an error changes nothing, and success only sets that of the child,
-- which had none or the same.
abbrev pub Registering : Lineage → String → String → Lineage × Option LineageError → Type 0
Registering l p c (l', some e) = l' ≡ l
Registering l p c (l', none) =
    (parent l' c ≡ some p)
    × ((l.parents c ≡ none) ⊎ (l.parents c ≡ some p))
    × ((d : String) → (c == d) ≡ false → parent l' d ≡ parent l d)

registered-Registering :
    (l : Lineage) (p c : String)
    → ((l.parents c ≡ none) ⊎ (l.parents c ≡ some p))
    → Registering l p c (registered l p c, none)
unfolding parent
registered-Registering l p c o = (
  registered_parents l p c c ∙ update_self l.parents c p,
  o,
  λ d n. registered_parents l p c d ∙ rw n refl,
)

register_under-Registering :
    (l : Lineage) (p c : String) (o : Option String)
    → l.parents c ≡ o
    → Registering l p c (register_under l p c o)
register_under-Registering l p c none e = registered-Registering l p c (inl e)
register_under-Registering l p c (some q) e = elim (Bool-cases (q == p)) [
  | inl t ↦ rw t (registered-Registering l p c (inr (e ∙ ap some ((==_iff q p).0 t))))
  | inr f ↦ rw f refl
]

-- RegisterChild that fails changes nothing; when it succeeds the child has the parent, which is the one it
-- had if it had one, and every other claim keeps its parent.
pub register_child-Registering :
    (l : Lineage) (p c : String) → Registering l p c (register_child l p c)
unfolding register_child
register_child-Registering l p c = elim (Bool-cases (p == "")) [
  | inl e ↦ rw e refl
  | inr np ↦ elim (Bool-cases (c == "")) [
    | inl e ↦ rw (np, e) refl
    | inr nc ↦ elim (Bool-cases (p == c)) [
      | inl e ↦ rw (np, nc, e) refl
      | inr ns ↦ rw (np, nc, ns) (register_under-Registering l p c (l.parents c) refl)
    ]
  ]
]
