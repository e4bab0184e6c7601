-- ===== src/Prelude/Equality.antt =====
-- Go's `==` on strings, integers and comparable structs: one operator, by instances.
use Prim.Native.Nat.{ℕ}
use Prim.Native.String.{String}
use mathlib.Core.Path.{◌≡◌, refl, ap}
use mathlib.Core.Logic.{◌↔◌, ◌≢◌, inl, inr}
use mathlib.Core.Bool.{Bool, true, false, not, ◌&&◌}
use mathlib.Core.List.{List, [], ◌∷◌}
use mathlib.Core.Option.{Option, none, some}
use native.Mathlib.Omega.{arith}
use text.Mathlib.Text.{◌==◌ as str_eq}
use text.Mathlib.TextEquality.{eq_iff}
use agenova.Prelude.Tests.{nat_beq, nat_beq_iff, Bool-cases}

pub record Comparable {ℓ} (A : Type ℓ) : Type ℓ where
  pub is_same : A → A → Bool
  pub is_same_iff : (a b : A) → (is_same a b ≡ true) ↔ (a ≡ b)

infix 50 ◌==◌
abbrev pub ◌==◌ {ℓ} : {A : Type ℓ} ⦃e : Comparable A⦄ → A → A → Bool
◌==◌ ⦃e⦄ = e.is_same

infix 50 ◌!=◌
abbrev pub ◌!=◌ {ℓ} : {A : Type ℓ} ⦃e : Comparable A⦄ → A → A → Bool
a != b = not (a == b)

instance abbrev pub string_eq : Comparable String
string_eq = record { is_same = str_eq; is_same_iff = eq_iff }

-- Go's integers that are never negative.
instance abbrev pub nat_eq : Comparable ℕ
nat_eq = record { is_same = nat_beq; is_same_iff = nat_beq_iff }

module _ {ℓ} {A : Type ℓ} ⦃e : Comparable A⦄ where
  pub ==_iff : (a b : A) → ((a == b) ≡ true) ↔ (a ≡ b)
  ==_iff a b = e.is_same_iff a b

  pub ==_self : (a : A) → (a == a) ≡ true
  ==_self a = (e.is_same_iff a a).1 refl

  pub false_test : (a b : A) → a ≢ b → (a == b) ≡ false
  false_test a b n = elim (Bool-cases (a == b)) [
    | inl e ↦ absurd (n ((==_iff a b).0 e))
    | inr f ↦ f
  ]

  pub false_ne : (a b : A) → (a == b) ≡ false → a ≢ b
  false_ne a b h e = cc ((==_iff a b).1 e)

module _ {ℓ} {A : Type ℓ} ⦃e : Comparable A⦄ where
  abbrev pub list_beq : List A → List A → Bool
  list_beq [] [] = true
  list_beq (a ∷ l) (b ∷ m) = a == b && list_beq l m
  list_beq _ _ = false

  pub list_beq_iff : (l m : List A) → (list_beq l m ≡ true) ↔ (l ≡ m)
  list_beq_iff [] [] = ground arith
  list_beq_iff [] (b ∷ m) = ground arith
  list_beq_iff (a ∷ l) [] = ground arith
  list_beq_iff (a ∷ l) (b ∷ m) = ground (arith, ==_iff a b, list_beq_iff l m)

-- slices.Equal
instance abbrev pub list_eq {ℓ} : {A : Type ℓ} ⦃e : Comparable A⦄ → Comparable (List A)
list_eq = record { is_same = list_beq; is_same_iff = list_beq_iff }

abbrev pub option_beq {ℓ} : {A : Type ℓ} ⦃e : Comparable A⦄ → Option A → Option A → Bool
option_beq none none = true
option_beq (some a) (some b) = a == b
option_beq _ _ = false

pub option_beq_iff {ℓ} :
    {A : Type ℓ} ⦃e : Comparable A⦄ (a b : Option A) → (option_beq a b ≡ true) ↔ (a ≡ b)
option_beq_iff none none = ground arith
option_beq_iff none (some b) = ground arith
option_beq_iff (some a) none = ground arith
option_beq_iff (some a) (some b) = ground (arith, ==_iff a b)

-- reflect.DeepEqual on pointers.
instance abbrev pub option_eq {ℓ} : {A : Type ℓ} ⦃e : Comparable A⦄ → Comparable (Option A)
option_eq = record { is_same = option_beq; is_same_iff = option_beq_iff }

module _ {ℓ κ} {A : Type ℓ} {B : Type κ} ⦃e : Comparable A⦄ ⦃f : Comparable B⦄ where
  abbrev pub pair_beq : A × B → A × B → Bool
  pair_beq p q = p.0 == q.0 && p.1 == q.1

  pub pair_beq_iff : (p q : A × B) → (pair_beq p q ≡ true) ↔ (p ≡ q)
  pair_beq_iff p q = ground (arith, ==_iff p.0 q.0, ==_iff p.1 q.1)

instance abbrev pub pair_eq {ℓ κ} :
    {A : Type ℓ} {B : Type κ} ⦃e : Comparable A⦄ ⦃f : Comparable B⦄ → Comparable (A × B)
pair_eq = record { is_same = pair_beq; is_same_iff = pair_beq_iff }

-- The equality of a struct, by the list of its fields: `fields` can be undone.
module _ {ℓ κ} {A : Type ℓ} {B : Type κ} ⦃e : Comparable B⦄ (fields : A → B) (build : B → A)
    (undo : (a : A) → build (fields a) ≡ a) where
  pub fields_iff : (a b : A) → ((fields a == fields b) ≡ true) ↔ (a ≡ b)
  fields_iff a b = (
    λ h. cc (ap build ((==_iff (fields a) (fields b)).0 h), undo a, undo b),
    λ h. (==_iff (fields a) (fields b)).1 (ap fields h),
  )

  abbrev pub struct_eq : Comparable A
  struct_eq = record { is_same = λ a b. fields a == fields b; is_same_iff = fields_iff }
