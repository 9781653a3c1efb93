-- ===== src/Loop/Bits.antt =====
-- `bit_or` at variables: the bound that the overflow tests of `gomp_loop_init` read off it.
use Prim.Native.Nat.{ℕ, zero, suc, bit_or, digits, bit_or-bitwise, max}
use libgomp_a.Base.{◌/◌, ◌≤◌, arith}

abbrev or_digits : ℕ → ℕ → ℕ → ℕ
or_digits n a b = digits (λ b. b) max n a b

or_digits_bound : (n a b : ℕ) → a ≤ n → (a ≤ or_digits n a b) × (b ≤ or_digits n a b)
or_digits_bound zero zero b h = (omega arith, omega arith)
or_digits_bound zero (suc a) b h = absurd (omega arith)
or_digits_bound (suc n) zero b h = (omega arith, omega arith)
or_digits_bound (suc n) (suc a) b h =
    let ih = or_digits_bound n (suc a / 2) (b / 2) (omega arith) in (omega arith, omega arith)

pub le-bit_or : (a b : ℕ) → (a ≤ bit_or a b) × (b ≤ bit_or a b)
le-bit_or a b = rw (bit_or-bitwise a b) (or_digits_bound a a b (omega arith))
