-- ===== src/Iter/Blocks.antt =====
-- How a static schedule divides the iterations: the blocks of the threads.
use libgomp_a.Base.{
  ℕ, suc, ◌+◌, ◌*◌, ◌/◌, ◌%◌, ◌^◌, ◌≤◌, ◌<◌, ◌≡◌, ◌↔◌, arith, min, word, lt→ltb, le→not_ltb, ◌⊎◌,
}
use native.Mathlib.Decide.{dec_lt}
use libgomp_a.Iter.{block_at, static_block, chunk_block}
use libgomp_a.Iter.Partition.{block_of, block_unique}
use native.Mathlib.Nat.{div-add-mod, mod-lt}

abbrev pub InBlock : ℕ → ℕ × ℕ → Type 0
InBlock x b = (b.0 ≤ x) × (x < b.1)

-- `q` or `q + 1` iterations
abbrev pub BlockSize : ℕ × ℕ → ℕ → Type 0
BlockSize b q = (b.1 ≡ b.0 + q) ⊎ (b.1 ≡ b.0 + q + 1)

-- The first iteration of thread `i`: each of the first `n % threads` threads has one more.
abbrev pub boundary : ℕ → ℕ → ℕ → ℕ
boundary n threads i = n / threads * i + min i (n % threads)

boundary_zero : (n threads : ℕ) → boundary n threads 0 ≡ 0
boundary_zero n threads = omega arith

boundary_last : (n threads : ℕ) → 0 < threads → boundary n threads threads ≡ n
boundary_last n threads h = grind (arith, div-add-mod n threads)

boundary_rises : (n threads i : ℕ) → boundary n threads i ≤ boundary n threads (suc i)
boundary_rises n threads i = omega arith

-- No wrap: the end of the block is below 2 ^ 64.
block_at-exact : (q i t : ℕ) → q * i + t + q < 2 ^ 64 → block_at q i t ≡ (q * i + t, q * i + t + q)
block_at-exact q i t h = ground arith

-- A thread's block ends within the iterations.
room_long :
    (n threads i : ℕ)
    → i < threads
    → i < n % threads
    → (n / threads + 1) * i + 0 + (n / threads + 1) ≤ n
room_long n threads i lt p = grind (arith, div-add-mod n threads)

room_short : (n threads i : ℕ) → i < threads → n / threads * i + n % threads + n / threads ≤ n
room_short n threads i lt = grind (arith, div-add-mod n threads)

pub word-eq : (n : ℕ) → n < 2 ^ 64 → word n ≡ n
word-eq n h = omega arith

-- In 64-bit arithmetic, thread `i` is given the iterations from its boundary to the next.
pub static_block-eq_boundary :
    (n threads i : ℕ)
    → n < 2 ^ 64
    → i < threads
    → static_block n threads i ≡ (boundary n threads i, boundary n threads (suc i))
unfolding static_block
static_block-eq_boundary n threads i small lt = elim (dec_lt i (n % threads)) [
  | yes p ↦
      let room = room_long n threads i lt p in
      rw
        (
          lt→ltb _ _ p,
          word-eq (n / threads + 1) (omega arith),
          block_at-exact (n / threads + 1) i 0 (omega arith),
        )
        (ground arith)
  | no p ↦
      let room = room_short n threads i lt in
      rw
        (
          le→not_ltb i (n % threads) (omega arith),
          block_at-exact (n / threads) i (n % threads) (omega arith),
        )
        (ground arith)
]

pub static_block_end :
    (n threads i : ℕ)
    → n < 2 ^ 64
    → i < threads
    → ((static_block n threads i).0 ≤ n) × ((static_block n threads i).1 ≤ n)
static_block_end n threads i small lt =
    rw (static_block-eq_boundary n threads i small lt) (elim (dec_lt i (n % threads)) [
      | yes p ↦ omega (arith, room_long n threads i lt p)
      | no p ↦ omega (arith, room_short n threads i lt)
    ])

abbrev pub Owner : (ℕ → Type 0) → ℕ → Type 0
Owner P threads = (o : ℕ) × (o < threads) × ((i : ℕ) → ((i < threads) × P i) ↔ (i ≡ o))

-- With an unspecified chunk size every iteration is in the block of exactly one thread.
pub static_block-Owner :
    (n threads x : ℕ)
    → n < 2 ^ 64
    → 0 < threads
    → x < n
    → Owner (λ i. InBlock x (static_block n threads i)) threads
static_block-Owner n threads x small h lt =
    let (o, lo, from, to) =
      block_of b threads x (omega arith) (omega (arith, boundary_last n threads h)) in
    (
      o,
      lo,
      λ i. (
        λ p.
            let q = rw (eq i p.0) at p.1 in
            block_unique b threads i o x (λ k _. boundary_rises n threads k) p.0 lo q.0 q.1 from to,
        λ e. rw e (lo, rw (eq o lo) (from, to)),
      ),
    )
  where
    b : ℕ → ℕ
    b = boundary n threads

    eq :
        (i : ℕ)
        → i < threads
        → static_block n threads i ≡ (boundary n threads i, boundary n threads (suc i))
    eq i li = static_block-eq_boundary n threads i small li

-- The threads' shares of `n` iterations, fewer than 2 ^ 64, are balanced: each has `n / threads`
-- or one more.
pub static_block-balanced :
    (n threads i : ℕ)
    → n < 2 ^ 64
    → i < threads
    → BlockSize (static_block n threads i) (n / threads)
static_block-balanced n threads i small li =
    rw (static_block-eq_boundary n threads i small li) (omega arith)

-- The trip and the thread that a chunked schedule gives iteration `x`, for chunks of `c`.
abbrev pub chunk_thread : ℕ → ℕ → ℕ → ℕ
chunk_thread threads c x = x / c % threads

abbrev pub chunk_trip : ℕ → ℕ → ℕ → ℕ
chunk_trip threads c x = x / c / threads

pub chunk_block-exact :
    (threads i c trip : ℕ)
    → trip * threads + i < 2 ^ 64
    → (trip * threads + i) * c + c < 2 ^ 64
    → chunk_block threads i c trip ≡ ((trip * threads + i) * c, (trip * threads + i) * c + c)
unfolding chunk_block
chunk_block-exact threads i c trip h k =
    rw (word-eq (trip * threads) (omega arith), word-eq (trip * threads + i) h) (ground arith)

-- Chunk `m` holds `x` exactly if `m` is `x / c`.
pub chunk_index : (c m x : ℕ) → 0 < c → m * c ≤ x → x < m * c + c → m ≡ x / c
chunk_index c m x h lo hi = grind (arith, div-add-mod x c, mod-lt x h)

pub chunk_holds : (c x : ℕ) → 0 < c → (x / c * c ≤ x) × (x < x / c * c + c)
chunk_holds c x h = grind (arith, div-add-mod x c, mod-lt x h)

-- A number is `k * m + i` with `i` below `m` for its quotient and remainder, and for no others.
pub quotient_unique : (k m i x : ℕ) → i < m → k * m + i ≡ x → (i ≡ x % m) × (k ≡ x / m)
quotient_unique k m i x h e =
    let p : k ≡ x / m = chunk_index m k x (omega arith) (omega arith) (omega arith) in
    (grind (arith, div-add-mod x m), p)

pub quotient_remainder : (k m i x : ℕ) → i ≡ x % m → k ≡ x / m → k * m + i ≡ x
quotient_remainder k m i x p q = rw (p, q) (grind (arith, div-add-mod x m))
