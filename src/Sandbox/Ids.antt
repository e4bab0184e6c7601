-- ===== src/Sandbox/Ids.antt =====
-- The identifiers that the pool prints, `fmt.Sprintf("%s-%d", p.Name, p.nextOrdinal)`.
use Prim.Native.String.{◌++◌}
use text.Mathlib.TextLemmas.{append_cancel_left}
use agenova.Prelude.{ℕ, String, ◌≡◌}
use agenova.Prelude.Decimal.{decimal, decimal_inj}

unfoldable pub sandbox_id : String → ℕ → String
sandbox_id name ordinal = name ++ ("-" ++ decimal ordinal)

-- Two ordinals of one pool never print alike.
pub sandbox_id_inj : (name : String) (m n : ℕ) → sandbox_id name m ≡ sandbox_id name n → m ≡ n
unfolding sandbox_id
sandbox_id_inj name m n e =
    decimal_inj m n (append_cancel_left "-" _ _ (append_cancel_left name _ _ e))
