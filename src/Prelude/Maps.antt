-- ===== src/Prelude/Maps.antt =====
-- A Go map as a function; a missing key is `none`.
use mathlib.Core.Path.{◌≡◌}
use mathlib.Core.Option.{Option, none, some}
use agenova.Prelude.Tests.{if◌then◌else◌}
use agenova.Prelude.Equality.{Comparable, ◌==◌, ==_self}

abbrev pub Map {ℓ κ} : Type ℓ → Type κ → Type (ℓ ⊔ κ)
Map K V = K → Option V

abbrev pub empty_map {ℓ κ} : {K : Type ℓ} {V : Type κ} → Map K V
empty_map k = none

-- m[k] = v
abbrev pub update {ℓ κ} : {K : Type ℓ} {V : Type κ} ⦃e : Comparable K⦄ → Map K V → K → V → Map K V
update m k v j = if k == j then some v else m j

pub update_self {ℓ κ} :
    {K : Type ℓ} {V : Type κ} ⦃e : Comparable K⦄ (m : Map K V) (k : K) (v : V)
    → update m k v k ≡ some v
update_self m k v = rw (==_self k)

-- m[k] with the zero value for a missing key.
abbrev pub get_or {ℓ} : {A : Type ℓ} → A → Option A → A
get_or d none = d
get_or d (some a) = a
