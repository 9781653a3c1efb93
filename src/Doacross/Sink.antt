-- ===== src/Doacross/Sink.antt =====
-- The entry that a wait reads, with a static schedule: the one that the thread of the sink's
-- outermost iteration posts to, as `gomp_iter_static_next` hands the iterations out.
use libgomp_a.Base.{
  ℕ, suc, ◌+◌, ◌-◌, ◌*◌, ◌/◌, ◌%◌, ◌^◌, ◌≤◌, ◌<◌, ◌≡◌, ◌≢◌, refl, sym, arith, List, ◌∷◌, ne→not_==,
  some, pos, Bool-cases, inl, inr, ltb, to_word, ltb→lt, not_ltb→le,
}
use native.Mathlib.Decide.{dec_lt}
use native.Mathlib.Nat.{mul-le-mul_right, div-add-mod, div-add-mod', mod-lt}
use libgomp_a.Iter.{
  WorkShare, iter_static_next, iteration_count, iteration_value, static_block, static,
}
use libgomp_a.Iter.Static.{worker, static_next-InBlock, iter_static_next-chunk}
use libgomp_a.Iter.Blocks.{InBlock, chunk_holds, boundary, static_block-eq_boundary, chunk_trip}
use libgomp_a.Iter.Values.{Executes}
use libgomp_a.Doacross.{
  Doacross, doacross_init, wait_entry, static_entry, num_entries, new_doacross, keep_quotient,
  is_static,
}
use libgomp_a.Doacross.Post.{doacross_init-made}

-- The quotient, the remainder and the boundary of `n` iterations for `threads` threads.
abbrev Keeps : ℕ → ℕ → Doacross → Type 0
Keeps n threads d =
    (d.chunk_or_q ≡ n / threads)
    × (d.t ≡ n % threads)
    × (d.boundary ≡ n % threads * (n / threads + 1))

quotient_below : (c m x : ℕ) → 0 < c → x < m * c → x / c < m
quotient_below c m x h lt = elim (dec_lt (x / c) m) [
  | yes p ↦ p
  | no p ↦
      let (lo, hi) = chunk_holds c x h in
      let past : m * c ≤ x / c * c = mul-le-mul_right c (not_below p) in absurd (omega arith)
]
  where
    not_below : {a b : ℕ} → ¬ (a < b) → b ≤ a
    not_below h = omega arith

-- Iterations of the first `n % threads` threads, each with one more than the others.
long_entry :
    (n threads x : ℕ)
    → 0 < threads
    → x < n % threads * (n / threads + 1)
    → (x / (n / threads + 1) < threads)
      × InBlock x (
        boundary n threads (x / (n / threads + 1)),
        boundary n threads (suc (x / (n / threads + 1))),
      )
long_entry n threads x h lt =
    let q = n / threads in
    let (lo, hi) = chunk_holds (q + 1) x (omega arith) in
    let e : x / (q + 1) < n % threads = quotient_below (q + 1) (n % threads) x (omega arith) lt in
    let r = mod-lt n h in (omega arith, (grind arith, grind arith))

short_room :
    (q r k t n x : ℕ)
    → t ≡ r + k
    → q * t + r ≡ n
    → x < n
    → r * (q + 1) ≤ x
    → x - r * (q + 1) < k * q
short_room q r k t n x e e' lt ge = grind arith

short_entry :
    (n threads x : ℕ)
    → 0 < threads
    → x < n
    → n % threads * (n / threads + 1) ≤ x
    → ((x - n % threads * (n / threads + 1)) / (n / threads) + n % threads < threads)
      × InBlock x (
        boundary n threads ((x - n % threads * (n / threads + 1)) / (n / threads) + n % threads),
        boundary n threads
            (suc ((x - n % threads * (n / threads + 1)) / (n / threads) + n % threads)),
      )
short_entry n threads x h lt ge =
    let q = n / threads in
    let y = x - n % threads * (q + 1) in
    let some_each : 0 < q = grind (arith, div-add-mod n threads) in
    let (lo, hi) = chunk_holds q y some_each in
    let e : y / q + n % threads < threads =
      let below = quotient_below q (threads - n % threads) y some_each (
        short_room q (n % threads) (threads - n % threads) threads n x (omega (arith, mod-lt n h))
          (div-add-mod' n threads) lt ge) in
      omega arith in
    (e, (grind arith, grind arith))

static_entry-InBlock :
    (ws : WorkShare) (n threads x : ℕ) (d : Doacross)
    → Keeps n threads d
    → ws.chunk_size ≡ pos 0
    → n < 2 ^ 63
    → 0 < threads
    → x < n
    → (static_entry ws threads x d < threads)
      × InBlock x (static_block n threads (static_entry ws threads x d))
unfolding static_entry
static_entry-InBlock ws n threads x d (q, t, b) c small h lt =
    elim (Bool-cases (ltb x (n % threads * (n / threads + 1)))) [
      | inl long ↦
          let (below, inside) = long_entry n threads x h (ltb→lt _ _ long) in
          rw
            (
              c,
              q,
              t,
              b,
              long,
              static_block-eq_boundary n threads (x / (n / threads + 1)) (omega arith) below,
            )
            (below, inside)
      | inr short ↦
          let (below, inside) = short_entry n threads x h lt (not_ltb→le _ _ short) in
          rw
            (
              c,
              q,
              t,
              b,
              short,
              static_block-eq_boundary n threads
                  ((x - n % threads * (n / threads + 1)) / (n / threads) + n % threads)
                  (omega arith) below,
            )
            (below, inside)
    ]

-- What the set-up keeps for `schedule(static)`.
doacross_init-Keeps :
    (threads : ℕ) (n : ℕ) (ns : List ℕ) (d : Doacross)
    → doacross_init (some threads) static (n ∷ ns) 0 ≡ some d
    → Keeps n threads d
unfolding new_doacross keep_quotient is_static num_entries
doacross_init-Keeps threads n ns d made =
    let (r, _, same) = doacross_init-made (some threads) static (n ∷ ns) 0 d made in
    rw (sym same) (refl, refl, refl)

static_wait :
    (ws : WorkShare) (threads x : ℕ) (d : Doacross)
    → ws.sched ≡ static
    → wait_entry ws threads x d ≡ static_entry ws threads x d
unfolding wait_entry static_entry
static_wait ws threads x d sched = rw sched refl

-- A doacross loop under `schedule(static)` without a chunk size, in a team of two or more, whose
-- outermost count is the work share's number of iterations, below 2 ^ 63, and whose `incr` is not
-- 0: a wait for outermost iteration `x` reads the entry of a thread of the team, and it is the
-- first call of that thread that executes iteration `x`.
pub wait_entry-whole :
    (ws : WorkShare) (threads x : ℕ) (ns : List ℕ) (d : Doacross)
    → 2 ≤ threads
    → ws.sched ≡ static
    → ws.chunk_size ≡ pos 0
    → ws.incr ≢ pos 0
    → iteration_count ws < 2 ^ 63
    → doacross_init (some threads) ws.sched (iteration_count ws ∷ ns) 0 ≡ some d
    → x < iteration_count ws
    → (wait_entry ws threads x d < threads)
      × Executes
          (iter_static_next ws (worker threads (wait_entry ws threads x d) 0))
          ws.incr
          (iteration_value ws x)
wait_entry-whole ws threads x ns d h sched c nz small made hx =
    let keeps = doacross_init-Keeps threads (iteration_count ws) ns d (rw (sym sched) made) in
    let (below, inside) =
      static_entry-InBlock ws (iteration_count ws) threads x d keeps c small (omega arith) hx in
    rw (static_wait ws threads x d sched) (
      below,
      (static_next-InBlock ws threads (static_entry ws threads x d) x h below c nz small hx).1
          inside,
    )

chunk_entry :
    (ws : WorkShare) (threads c x : ℕ) (d : Doacross)
    → ws.sched ≡ static
    → ws.chunk_size ≡ pos (suc c)
    → suc c < 2 ^ 63
    → wait_entry ws threads x d ≡ x / suc c % threads
unfolding wait_entry static_entry
chunk_entry ws threads c x d sched q small =
    let e : to_word ws.chunk_size ≡ suc c = rw q (omega arith) in
    rw (sched, e, ne→not_== (suc c) 0 (λ z. absurd (omega arith))) refl

-- The same under `schedule(static, suc c)`: the entry is that of the thread whose call executes
-- iteration `x`, in its trip `x / suc c / threads`, as long as the positions of that round of
-- chunks stay below 2 ^ 63.
pub wait_entry-chunk :
    (ws : WorkShare) (threads c x : ℕ) (d : Doacross)
    → 2 ≤ threads
    → ws.sched ≡ static
    → ws.chunk_size ≡ pos (suc c)
    → ws.incr ≢ pos 0
    → iteration_count ws < 2 ^ 63
    → (x / suc c + 1) * suc c < 2 ^ 63
    → x < iteration_count ws
    → (wait_entry ws threads x d < threads)
      × Executes
          (iter_static_next ws
            (worker threads (wait_entry ws threads x d) (chunk_trip threads (suc c) x)))
          ws.incr
          (iteration_value ws x)
wait_entry-chunk ws threads c x d h sched q nz small room hx =
    let i = x / suc c % threads in
    let below : i < threads = mod-lt (x / suc c) (omega arith) in
    let m = div-add-mod' (x / suc c) threads in
    let room' : (chunk_trip threads (suc c) x * threads + i) * suc c + suc c < 2 ^ 63 =
      rw m (omega arith) in
    rw (chunk_entry ws threads c x d sched q (grind arith)) (
      below,
      (iter_static_next-chunk ws threads i (chunk_trip threads (suc c) x) c x h below q nz small
            room' hx).1
          (refl, refl),
    )
