-- ===== src/Policy/Grants.antt =====
-- What the reference evaluator grants (internal/policy/evaluator.go, Evaluate).
use agenova.Prelude.{
  String, Bool, true, false, List, [], ◌∷◌, Option, none, some, ok, string_eq, All, ◌≡◌, All-mem,
  subst, ◌⊎◌, inl, inr, refl, arith, Bool-cases, ==_iff, >>=-eq-ok, ok_injective,
}
use mathlib.Core.List.{Memᴰ}
use agenova.Api.{allow, deny}
use agenova.Policy.{EvaluationContext, Evaluation, Rule, PolicyBundle}
use agenova.Policy.Check.{validate_context}
use agenova.Policy.Bundle.{
  best_match, is_better, matched_rule, match_of, verdict_of, evaluate, single_attribute, skips,
}

-- A rule that the search from `found` may give: it is among the rules and not skipped, or `found` itself.
abbrev pub Candidate : (Rule → Bool) → Option Rule → List Rule → Rule → Type 0
Candidate skip found rules r = (Memᴰ r rules × (skip r ≡ false)) ⊎ (found ≡ some r)

-- No rule that is not skipped names a subject.
abbrev pub NoneNamed : (Rule → Bool) → List Rule → Type 0
NoneNamed skip rules = All (λ r. skip r ≡ false → r.subject ≡ "") rules

abbrev Unnamed : Option Rule → Type 0
Unnamed none = Unit
Unnamed (some r) = r.subject ≡ ""

abbrev Best : (Rule → Bool) → Option Rule → List Rule → Option Rule → Type 0
Best skip found rules none = (found ≡ none) × All (λ r. skip r ≡ true) rules
Best skip found rules (some r) =
    Candidate skip found rules r × (r.subject ≡ "" → Unnamed found × NoneNamed skip rules)

-- The step over one rule, from the result of the others.
Best-skipped :
    (skip : Rule → Bool) (found : Option Rule) (rule : Rule) (rules : List Rule)
    (result : Option Rule)
    → skip rule ≡ true
    → Best skip found rules result
    → Best skip found (rule ∷ rules) result
Best-skipped skip found rule rules none s h = (h.0, (s, h.1))
Best-skipped skip found rule rules (some r) s h =
    let here : skip rule ≡ false → rule.subject ≡ "" = λ f. absurd (ground arith) in
    (
      elim h.0 [ inl (m, f) ↦ inl (Memᴰ.tail m, f) | inr e ↦ inr e ],
      λ u. let (a, b) = h.1 u in (a, (here, b)),
    )

Best-replaced :
    (skip : Rule → Bool) (found : Option Rule) (rule : Rule) (rules : List Rule)
    (result : Option Rule)
    → skip rule ≡ false
    → is_better rule found ≡ true
    → Best skip (some rule) rules result
    → Best skip found (rule ∷ rules) result
Best-replaced skip found rule rules none s b h = absurd (cc h.0)
Best-replaced skip none rule rules (some r) s b h = (
  elim h.0 [ inl (m, f) ↦ inl (Memᴰ.tail m, f) | inr e ↦ inl (Memᴰ.head (cc e), cc (e, s)) ],
  λ u. let (a, c) = h.1 u in (tt, (λ f. a, c)),
)
Best-replaced skip (some m) rule rules (some r) s b h = (
  elim h.0 [ inl (n, f) ↦ inl (Memᴰ.tail n, f) | inr e ↦ inl (Memᴰ.head (cc e), cc (e, s)) ],
  λ u. let (a, c) = h.1 u in absurd (ground (arith, b, a, ==_iff rule.subject "")),
)

Best-kept :
    (skip : Rule → Bool) (found : Option Rule) (rule : Rule) (rules : List Rule)
    (result : Option Rule)
    → is_better rule found ≡ false
    → Best skip found rules result
    → Best skip found (rule ∷ rules) result
Best-kept skip none rule rules result b h = absurd (cc b)
Best-kept skip (some m) rule rules none b h = absurd (cc h.0)
Best-kept skip (some m) rule rules (some r) b h = (
  elim h.0 [ inl (n, f) ↦ inl (Memᴰ.tail n, f) | inr e ↦ inr e ],
  λ u.
      let (a, c) = h.1 u in
      (a, (λ f. ground (arith, b, a, ==_iff rule.subject "", ==_iff m.subject ""), c)),
)

best_match-Best :
    (skip : Rule → Bool) (found : Option Rule) (rules : List Rule)
    → Best skip found rules (best_match skip found rules)
unfolding best_match
best_match-Best skip none [] = (refl, tt)
best_match-Best skip (some r) [] = (inr refl, λ u. (u, tt))
best_match-Best skip found (rule ∷ rules) = elim (Bool-cases (skip rule)) [
  | inl s ↦ rw s (Best-skipped skip found rule rules _ s (best_match-Best skip found rules))
  | inr s ↦ elim (Bool-cases (is_better rule found)) [
    | inl b ↦
        rw (s, b)
          (Best-replaced skip found rule rules _ s b (best_match-Best skip (some rule) rules))
    | inr b ↦ rw (s, b) (Best-kept skip found rule rules _ b (best_match-Best skip found rules))
  ]
]

-- A rule that matches the context: its team, project and template are the attributes' single values.
pub record Matches (c : EvaluationContext) (r : Rule) : Type 0 where
  pub team : single_attribute c.principal.attributes "team" ≡ some r.team
  pub action : r.action ≡ c.action
  pub project : single_attribute c.resource.attributes "project" ≡ some r.project
  pub template_ref : single_attribute c.resource.attributes "templateRef" ≡ some r.template_ref
  pub subject : (r.subject ≡ "") ⊎ (r.subject ≡ c.principal.subject)

-- What an evaluation says of the bundle: an Allow carries the caps of a matching rule, one that names
-- the subject if there is such a rule; a Deny has no matching rule.
abbrev pub Granted : PolicyBundle → EvaluationContext → Evaluation → Type 0
Granted b c e =
    (r : Rule) × Memᴰ r b.rules
    × Matches c r
    × (e.decision ≡ allow)
    × (e.constraints ≡ r.constraints)
    × (r.subject ≡ "" → (o : Rule) → Memᴰ o b.rules → Matches c o → o.subject ≡ "")

abbrev pub Refused : PolicyBundle → EvaluationContext → Evaluation → Type 0
Refused b c e =
    (e.decision ≡ deny) × (e.constraints ≡ none) × ((r : Rule) → Memᴰ r b.rules → ¬ Matches c r)

module _ (c : EvaluationContext) (team project template_ref : String)
    (has_team : single_attribute c.principal.attributes "team" ≡ some team)
    (has_project : single_attribute c.resource.attributes "project" ≡ some project)
    (has_template : single_attribute c.resource.attributes "templateRef" ≡ some template_ref) where
  kept-Matches : (r : Rule) → skips team project template_ref c r ≡ false → Matches c r
  kept-Matches r h = record {
    team = cc (has_team, the_team r h);
    action = the_action r h;
    project = cc (has_project, the_project r h);
    template_ref = cc (has_template, the_template r h);
    subject = the_subject r h;
  }
    where
      the_team : (r : Rule) → skips team project template_ref c r ≡ false → r.team ≡ team
      the_team r h = ground (arith, h, ==_iff r.team team)

      the_action : (r : Rule) → skips team project template_ref c r ≡ false → r.action ≡ c.action
      the_action r h = ground (arith, h, ==_iff r.action c.action)

      the_project : (r : Rule) → skips team project template_ref c r ≡ false → r.project ≡ project
      the_project r h = ground (arith, h, ==_iff r.project project)

      the_template :
          (r : Rule) → skips team project template_ref c r ≡ false → r.template_ref ≡ template_ref
      the_template r h = ground (arith, h, ==_iff r.template_ref template_ref)

      the_subject :
          (r : Rule)
          → skips team project template_ref c r ≡ false
          → (r.subject ≡ "") ⊎ (r.subject ≡ c.principal.subject)
      the_subject r h = ground (arith, h, ==_iff r.subject "", ==_iff r.subject c.principal.subject)

  Matches-kept : (r : Rule) → Matches c r → skips team project template_ref c r ≡ false
  Matches-kept r m =
      let t : r.team ≡ team = cc (m.team, has_team) in
      let p : r.project ≡ project = cc (m.project, has_project) in
      let q : r.template_ref ≡ template_ref = cc (m.template_ref, has_template) in
      ground (
        arith,
        t,
        p,
        q,
        m.action,
        m.subject,
        ==_iff r.team team,
        ==_iff r.action c.action,
        ==_iff r.project project,
        ==_iff r.template_ref template_ref,
        ==_iff r.subject "",
        ==_iff r.subject c.principal.subject,
      )

  verdict_of-searched :
      (b : PolicyBundle) (found : Option Rule)
      → Best (skips team project template_ref c) none b.rules found
      → Granted b c (verdict_of b c found) ⊎ Refused b c (verdict_of b c found)
  verdict_of-searched b none h = inr (
    refl,
    refl,
    λ r m k. absurd (
        cc (
          All-mem (λ r. skips team project template_ref c r ≡ true) b.rules h.1 m,
          Matches-kept r k,
        )),
  )
  verdict_of-searched b (some r) h = elim h.0 [
    | inl (m, f) ↦ inl (
      r,
      m,
      kept-Matches r f,
      refl,
      refl,
      λ u o n k.
          All-mem (λ o. skips team project template_ref c o ≡ false → o.subject ≡ "") b.rules
            (h.1 u).1 n (Matches-kept o k),
    )
    | inr e ↦ absurd (cc e)
  ]

verdict_of-matched :
    (b : PolicyBundle) (c : EvaluationContext) (t p q : Option String)
    → single_attribute c.principal.attributes "team" ≡ t
    → single_attribute c.resource.attributes "project" ≡ p
    → single_attribute c.resource.attributes "templateRef" ≡ q
    → let e = verdict_of b c (matched_rule c b.rules t p q) in Granted b c e ⊎ Refused b c e
verdict_of-matched b c (some t) (some p) (some q) ht hp hq =
    verdict_of-searched c t p q ht hp hq b _ (best_match-Best (skips t p q c) none b.rules)
verdict_of-matched b c none p q ht hp hq = inr (refl, refl, λ r m k. absurd (cc (ht, k.team)))
verdict_of-matched b c (some t) none q ht hp hq =
    inr (refl, refl, λ r m k. absurd (cc (hp, k.project)))
verdict_of-matched b c (some t) (some p) none ht hp hq =
    inr (refl, refl, λ r m k. absurd (cc (hq, k.template_ref)))

abbrev Verified : PolicyBundle → EvaluationContext → Evaluation → Type 0
Verified b c e =
    (e.context ≡ c)
    × (e.policy_ref ≡ record { id = b.id; version = b.version })
    × (Granted b c e ⊎ Refused b c e)

verdict_of-Verified :
    (b : PolicyBundle) (c : EvaluationContext) (found : Option Rule)
    → Granted b c (verdict_of b c found) ⊎ Refused b c (verdict_of b c found)
    → Verified b c (verdict_of b c found)
verdict_of-Verified b c none h = (refl, refl, h)
verdict_of-Verified b c (some r) h = (refl, refl, h)

-- An evaluation of the bundle is of the given context and names the bundle. It is an Allow with the
-- caps of a matching rule, and of one that names the subject if any matching rule does; or it is a Deny
-- without caps, and no rule of the bundle matches.
pub evaluate-Granted :
    (b : PolicyBundle) (c : EvaluationContext) (e : Evaluation)
    → evaluate b c ≡ ok e
    → (e.context ≡ c)
      × (e.policy_ref ≡ record { id = b.id; version = b.version })
      × (Granted b c e ⊎ Refused b c e)
unfolding evaluate match_of
evaluate-Granted b c e h =
    let (u, valid, made) = >>=-eq-ok (validate_context c) h in
    subst (Verified b c) (ok_injective made)
      (verdict_of-Verified b c _ (verdict_of-matched b c _ _ _ refl refl refl))
