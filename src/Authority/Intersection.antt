-- ===== src/Authority/Intersection.antt =====
-- What exactIntersection, applySetCap and resourceIntersection keep (internal/authority/resolver.go).
use agenova.Prelude.{
  ℕ, suc, String, Bool, true, false, not, ◌&&◌, List, [], ◌∷◌, Option, none, some, ok, refuse_if,
  ◌==◌, string_eq, leb, any, contains, if◌then◌else◌, All, All-weaken, ◌≡◌, refl, arith, inl, inr,
  Bool-cases, ==_iff, ==_self, >>=-eq-ok, ok_injective, subst,
}
use agenova.Api.Guide.{stars}
use agenova.Authority.{
  intersect_from, exact_intersection, apply_set_cap, admits, resources_from, resource_intersection,
}

-- A value that stands in the list and passes the test.
abbrev pub Kept : (String → Bool) → List String → String → Type 0
Kept test values v = (contains values v ≡ true) × (test v ≡ true)

-- No value twice.
abbrev pub Distinct : List String → Type 0
Distinct [] = Unit
Distinct (v ∷ values) = (contains values v ≡ false) × Distinct values

abbrev Fresh : List String → List String → Type 0
Fresh seen values = All (λ v. contains seen v ≡ false) values × Distinct values

Kept-tail :
    (test : String → Bool) (x : String) (values l : List String)
    → All (Kept test values) l
    → All (Kept test (x ∷ values)) l
Kept-tail test x values l h =
    All-weaken (Kept test values) (Kept test (x ∷ values)) l (λ v p. (ground (arith, p.0), p.1)) h

Fresh-apart :
    (seen : List String) (x : String) (l : List String)
    → All (λ v. contains (x ∷ seen) v ≡ false) l
    → contains l x ≡ false
Fresh-apart seen x [] h = refl
Fresh-apart seen x (v ∷ l) h =
    let rest = Fresh-apart seen x l h.1 in ground (arith, h.0, rest, ==_iff v x, ==_iff x v)

Fresh-taken :
    (seen : List String) (x : String) (l : List String)
    → contains seen x ≡ false
    → Fresh (x ∷ seen) l
    → Fresh seen (x ∷ l)
Fresh-taken seen x l n h = (
  (
    n,
    All-weaken (λ v. contains (x ∷ seen) v ≡ false) (λ v. contains seen v ≡ false) l
        (λ v p. ground (arith, p)) h.0,
  ),
  (Fresh-apart seen x l h.0, h.1),
)

-- Any such loop: what it takes passes the test and was not seen.
abbrev pub Selected : (String → Bool) → List String → List String → List String → Type 0
Selected test seen values l = All (Kept test values) l × Fresh seen l

Selected-skip :
    (test : String → Bool) (seen : List String) (x : String) (values l : List String)
    → Selected test seen values l
    → Selected test seen (x ∷ values) l
Selected-skip test seen x values l h = (Kept-tail test x values l h.0, h.1)

Selected-take :
    (test : String → Bool) (seen : List String) (x : String) (values l : List String)
    → test x ≡ true
    → contains seen x ≡ false
    → Selected test (x ∷ seen) values l
    → Selected test seen (x ∷ values) (x ∷ l)
Selected-take test seen x values l t n h =
    (((ground (arith, ==_self x), t), Kept-tail test x values l h.0), Fresh-taken seen x l n h.1)

intersect_from-Selected :
    (seen values allowed : List String)
    → Selected (contains allowed) seen values (intersect_from seen values allowed)
intersect_from-Selected seen [] allowed = (tt, (tt, tt))
intersect_from-Selected seen (x ∷ values) allowed = elim (Bool-cases (contains allowed x)) [
  | inr n ↦ rw n (
      Selected-skip (contains allowed) seen x values _
        (intersect_from-Selected seen values allowed))
  | inl t ↦ elim (Bool-cases (contains seen x)) [
    | inl d ↦
        rw (t, d)
          (Selected-skip (contains allowed) seen x values _
            (intersect_from-Selected seen values allowed))
    | inr f ↦
        rw (t, f)
          (Selected-take (contains allowed) seen x values _ t f
            (intersect_from-Selected (x ∷ seen) values allowed))
  ]
]

-- A value under a cap: there is no cap, or it names the value.
abbrev pub under : Option (List String) → String → Bool
under none v = true
under (some cap) v = contains cap v

-- Values that a list has, that pass a test and the cap, no value twice.
abbrev pub Limited : (String → Bool) → List String → Option (List String) → List String → Type 0
Limited test values cap l =
    All (λ v. (contains values v ≡ true) × (test v ≡ true) × (under cap v ≡ true)) l × Distinct l

member_of :
    (P : String → Type 0) (l : List String) (v : String) → All P l → contains l v ≡ true → P v
member_of P [] v h m = absurd (cc m)
member_of P (x ∷ l) v h m = elim (Bool-cases (x == v)) [
  | inl e ↦ subst P ((==_iff x v).0 e) h.0
  | inr n ↦ member_of P l v h.1 (ground (arith, m, n))
]

apply_set_cap-Limited :
    (test : String → Bool) (values : List String) (l : List String) (cap : Option (List String))
    → Selected test [] values l
    → Limited test values cap (apply_set_cap l cap)
unfolding apply_set_cap exact_intersection
apply_set_cap-Limited test values l none h = (
  All-weaken (Kept test values)
      (λ v. (contains values v ≡ true) × (test v ≡ true) × (under none v ≡ true)) l
      (λ v p. (p.0, p.1, refl)) h.0,
  h.1.1,
)
apply_set_cap-Limited test values l (some cap) h =
    let s = intersect_from-Selected [] l cap in
    (
      All-weaken (Kept (contains cap) l)
          (λ v. (contains values v ≡ true) × (test v ≡ true) × (under (some cap) v ≡ true))
          (intersect_from [] l cap)
          (λ v p. let (a, b) = member_of (Kept test values) l v h.0 p.0 in (a, b, p.1)) s.0,
      s.1.1,
    )

pub exact_intersection-Limited :
    (values allowed : List String) (cap : Option (List String))
    → Limited (contains allowed) values cap (apply_set_cap (exact_intersection values allowed) cap)
unfolding exact_intersection
exact_intersection-Limited values allowed cap =
    apply_set_cap-Limited (contains allowed) values _ cap
      (intersect_from-Selected [] values allowed)

and_left : (a b : Bool) → (a && b) ≡ true → a ≡ true
and_left a b h = ground (arith, h)

and_not : (a b : Bool) → (a && not b) ≡ true → b ≡ false
and_not a b h = ground (arith, h)

-- A ceiling entry admits the scope.
abbrev pub within : List String → String → Bool
within ceilings scope = any (admits scope) ceilings

abbrev keeps : List String → List String → String → Bool
keeps ceilings seen scope = within ceilings scope && not (contains seen scope)

-- One step, by whether the scope is kept.
resource_step :
    (seen scopes ceilings : List String) (x : String) (b : Bool) (l : List String)
    → keeps ceilings seen x ≡ b
    → Selected (within ceilings) (if b then x ∷ seen else seen) scopes l
    → Selected (within ceilings) seen (x ∷ scopes) (if b then x ∷ l else l)
resource_step seen scopes ceilings x false l k h = Selected-skip (within ceilings) seen x scopes l h
resource_step seen scopes ceilings x true l k h =
    Selected-take (within ceilings) seen x scopes l (and_left (within ceilings x) _ k)
      (and_not (within ceilings x) (contains seen x) k) h

resources_from-Selected :
    (i : ℕ) (seen scopes ceilings l : List String)
    → resources_from i seen scopes ceilings ≡ ok l
    → Selected (within ceilings) seen scopes l
unfolding resources_from
resources_from-Selected i seen [] ceilings l h =
    subst (Selected (within ceilings) seen []) (ok_injective h) (tt, (tt, tt))
resources_from-Selected i seen (x ∷ scopes) ceilings l h =
    let keep = keeps ceilings seen x in
    let (u, _, rest) = >>=-eq-ok (refuse_if (leb 1 (stars x)) _) h in
    let (r, found, made) =
      >>=-eq-ok (resources_from (suc i) (if keep then x ∷ seen else seen) scopes ceilings) rest in
    subst (Selected (within ceilings) seen (x ∷ scopes)) (ok_injective made) (
      resource_step seen scopes ceilings x keep r refl
        (resources_from-Selected (suc i) (if keep then x ∷ seen else seen) scopes ceilings r found))

pub resource_intersection-Limited :
    (scopes ceilings found : List String) (cap : Option (List String))
    → resource_intersection scopes ceilings ≡ ok found
    → Limited (within ceilings) scopes cap (apply_set_cap found cap)
unfolding resource_intersection
resource_intersection-Limited scopes ceilings found cap h =
    apply_set_cap-Limited (within ceilings) scopes found cap
      (resources_from-Selected 0 [] scopes ceilings found h)
