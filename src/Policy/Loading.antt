-- ===== src/Policy/Loading.antt =====
-- What a loader keeps (internal/policy/bundle.go, Load, Current and Snapshot).
use agenova.Prelude.{
  String, List, [], ◌∷◌, Option, none, some, Result, ok, err, ◌==◌, string_eq, pair_eq, list_eq,
  Map, update, update_self, ◌≡◌, inl, inr, refl, ap, ◌∙◌, subst, Bool-cases, ==_iff,
}
use agenova.Policy.{PolicyBundle, Rule, PolicyError}
use agenova.Policy.Equality.{rule_eq}
use agenova.Policy.Bundle.{
  Loader, new_loader, loaded, load_if, load, validate, snapshot, evaluate, new_reference_evaluator,
}

-- Every bundle given to Load in turn, from a fresh loader.
abbrev pub load_all : Loader → List PolicyBundle → Loader
load_all l [] = l
load_all l (b ∷ bs) = load_all (load l b).0 bs

-- The loader's current bundle is valid, and its content is the one recorded for its identity.
abbrev IsCurrent : Map (String × String) (List Rule) → Option PolicyBundle → Type 0
IsCurrent seen none = Unit
IsCurrent seen (some b) = (validate b ≡ ok tt) × (seen (b.id, b.version) ≡ some b.rules)

abbrev pub IsSound : Loader → Type 0
IsSound l = IsCurrent l.seen l.current

-- What was recorded stays.
abbrev pub Grows : Loader → Loader → Type 0
Grows l m =
    (id version : String) (rules : List Rule)
    → l.seen (id, version) ≡ some rules
    → m.seen (id, version) ≡ some rules

Grows-update :
    (l : Loader) (b : PolicyBundle)
    → l.seen (b.id, b.version) ≡ none
    → (k : String × String) (rules : List Rule) → l.seen k ≡ some rules
    → update l.seen (b.id, b.version) b.rules k ≡ some rules
Grows-update l b fresh k rules h = elim (Bool-cases ((b.id, b.version) == k)) [
  | inl e ↦ absurd (cc ((==_iff (b.id, b.version) k).0 e, fresh, h))
  | inr n ↦ rw n h
]

loaded-Sound :
    (l : Loader) (b : PolicyBundle) (known : Option (List Rule))
    → validate b ≡ ok tt
    → l.seen (b.id, b.version) ≡ known
    → IsSound l
    → IsSound (loaded l b known).0 × Grows l (loaded l b known).0
loaded-Sound l b none v e s =
    ((v, update_self l.seen (b.id, b.version) b.rules), λ i w. Grows-update l b e (i, w))
loaded-Sound l b (some rules) v e s = elim (Bool-cases (rules == b.rules)) [
  | inl t ↦ rw t ((v, e ∙ ap some ((==_iff rules b.rules).0 t)), λ i w r h. h)
  | inr n ↦ rw n (s, λ i w r h. h)
]

load_if-Sound :
    (l : Loader) (b : PolicyBundle) (verdict : Result PolicyError (Unit {0}))
    → validate b ≡ verdict
    → IsSound l
    → IsSound (load_if l b verdict).0 × Grows l (load_if l b verdict).0
load_if-Sound l b (err e) v s = (s, λ i w r h. h)
load_if-Sound l b (ok u) v s = loaded-Sound l b (l.seen (b.id, b.version)) v refl s

load_all-Sound :
    (l : Loader) (bs : List PolicyBundle)
    → IsSound l
    → IsSound (load_all l bs) × Grows l (load_all l bs)
unfolding load
load_all-Sound l [] s = (s, λ i w r h. h)
load_all-Sound l (b ∷ bs) s =
    let (t, g) = load_if-Sound l b (validate b) refl s in
    let (t', g') = load_all-Sound (load l b).0 bs t in (t', λ i w r h. g' i w r (g i w r h))

-- Once a bundle of an identity was current, every later current bundle of that identity has the same
-- rules, whatever is loaded before and after.
pub load_all-immutable :
    (before after : List PolicyBundle) (b c : PolicyBundle)
    → (load_all new_loader before).current ≡ some b
    → (load_all (load_all new_loader before) after).current ≡ some c
    → b.id ≡ c.id
    → b.version ≡ c.version
    → b.rules ≡ c.rules
load_all-immutable before after b c hb hc i v =
    let l = load_all new_loader before in
    let (s, _) = load_all-Sound new_loader before tt in
    let (t, g) = load_all-Sound l after s in
    let sb : IsCurrent l.seen (some b) = subst (IsCurrent l.seen) hb s in
    let sc : IsCurrent (load_all l after).seen (some c) =
      subst (IsCurrent (load_all l after).seen) hc t in
    cc (g b.id b.version b.rules sb.1, sc.1, i, v)

-- A loader with a current bundle has a snapshot, and that evaluator is the bundle's.
pub snapshot-evaluate :
    (bundles : List PolicyBundle) (b : PolicyBundle)
    → (load_all new_loader bundles).current ≡ some b
    → snapshot (load_all new_loader bundles) ≡ some (evaluate b)
unfolding snapshot new_reference_evaluator
snapshot-evaluate bundles b h =
    let l = load_all new_loader bundles in
    let (s, _) = load_all-Sound new_loader bundles tt in
    let sb : IsCurrent l.seen (some b) = subst (IsCurrent l.seen) h s in rw (h, sb.0) refl
