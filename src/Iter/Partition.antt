-- ===== src/Iter/Partition.antt =====
-- Consecutive blocks from a table of boundaries: which block an index falls into.
use libgomp_a.Base.{ℕ, zero, suc, ◌≤◌, ◌<◌, ◌≡◌, arith}
use native.Mathlib.Decide.{dec_lt, dec_le}

module _ (b : ℕ → ℕ) where
  -- the first `k` blocks of a table that never falls
  abbrev pub Rises : ℕ → Type 0
  Rises k = (i : ℕ) → i < k → b i ≤ b (suc i)

  pub Rises-le : (k i j : ℕ) → Rises k → i ≤ j → j ≤ k → b i ≤ b j
  Rises-le k zero zero r le h = omega arith
  Rises-le k (suc i) zero r le h = absurd (omega arith)
  Rises-le k i (suc j) r le h = elim (dec_le i j) [
    | yes p ↦ omega (arith, Rises-le k i j r p (omega arith), r j (omega arith))
    | no p ↦ let e : i ≡ suc j = omega arith in rw e (omega arith)
  ]

  -- Every index below the last boundary lies in a block.
  pub block_of : (k x : ℕ) → b 0 ≤ x → x < b k → (i : ℕ) × (i < k) × (b i ≤ x) × (x < b (suc i))
  block_of zero x h0 h = absurd (omega arith)
  block_of (suc k) x h0 h = elim (dec_lt x (b k)) [
    | yes p ↦ let (i, lt, lo, hi) = block_of k x h0 p in (i, omega arith, lo, hi)
    | no p ↦ (k, omega arith, omega arith, h)
  ]

  -- No index lies in two blocks.
  pub block_unique :
      (k i j x : ℕ)
      → Rises k
      → i < k
      → j < k
      → b i ≤ x
      → x < b (suc i)
      → b j ≤ x
      → x < b (suc j)
      → i ≡ j
  block_unique k i j x r hi hj li ui lj uj = elim (dec_lt i j) [
    | yes p ↦ absurd (omega (arith, Rises-le k (suc i) j r p (omega arith)))
    | no p ↦ elim (dec_lt j i) [
      | yes p' ↦ absurd (omega (arith, Rises-le k (suc j) i r p' (omega arith)))
      | no p' ↦ omega arith
    ]
  ]
