-- ===== src/Iter/Static.antt =====
-- `gomp_iter_static_next`: which thread executes which iteration, and in which trip.
use libgomp_a.Base.{
  ℕ, suc, ◌+◌, ◌*◌, ◌/◌, ◌^◌, ◌≤◌, ◌<◌, ◌≡◌, ◌≢◌, ◌↔◌, refl, sym, Bool-cases, inl, inr, none, some,
  arith, ltb, leb, ◌==◌, if◌then◌else◌, ℤ, pos, word, to_word, ulong_max, leb→le,
}
use mathlib.Core.Path.{subst}
use mathlib.Core.Option.{some-injective}
use libgomp_a.Iter.{
  WorkShare, Thread, iteration_count, iteration_value, static_block, chunk_block, static_whole,
  static_chunk, iter_static_next, value_block,
}
use libgomp_a.Iter.Blocks.{
  InBlock, Owner, static_block_end, static_block-Owner, chunk_thread, chunk_trip, chunk_block-exact,
  chunk_index, chunk_holds, quotient_unique, quotient_remainder, word-eq,
}
use libgomp_a.Iter.Values.{Within, Executes, Within-iff}

-- Thread `i` of a team of `threads`, in its trip `trip` through the loop.
abbrev pub worker : ℕ → ℕ → ℕ → Thread
worker threads i trip = record { team = some threads; team_id = i; static_trip = trip }

-- `chunk_size == 0` in a real team.
static_next-whole :
    (ws : WorkShare) (threads i : ℕ)
    → 2 ≤ threads
    → ws.chunk_size ≡ pos 0
    → iter_static_next ws (worker threads i 0) ≡ static_whole ws (worker threads i 0)
unfolding iter_static_next
static_next-whole ws threads i h c = ground arith

static_next-chunk :
    (ws : WorkShare) (threads i trip c : ℕ)
    → 2 ≤ threads
    → ws.chunk_size ≡ pos (suc c)
    → trip < ulong_max
    → iter_static_next ws (worker threads i trip) ≡ static_chunk ws (worker threads i trip)
unfolding iter_static_next
static_next-chunk ws threads i trip c h q t = ground arith

-- A call that hands out iterations `s` to `e` executes the values of exactly these.
handed-Executes :
    (ws : WorkShare) (s e x trip : ℕ)
    → ws.incr ≢ pos 0
    → s < 2 ^ 63
    → e < 2 ^ 63
    → x < 2 ^ 63
    → Executes
        (record { ret = pos 0; block = value_block ws s e; trip = trip })
        ws.incr
        (iteration_value ws x)
      ↔ InBlock x (s, e)
handed-Executes ws s e x trip nz hs he hx = (
  λ h.
      iff.0 (
        subst (λ b. Within ws.incr b (iteration_value ws x)) (sym (some-injective _ _ h.1.1))
          h.1.2),
  λ h. (refl, (_, refl, iff.1 h)),
)
  where
    iff :
        Within ws.incr (iteration_value ws s, iteration_value ws e) (iteration_value ws x)
        ↔ ((s ≤ x) × (x < e))
    iff = Within-iff ws ws.incr s e x refl nz hs he hx

-- A call that returns 1 executes nothing.
idle-Executes :
    (incr v : ℤ) (trip : ℕ) → ¬ Executes (record { ret = pos 1; block = none; trip = trip }) incr v
idle-Executes incr v trip h = cc

module _ (ws : WorkShare) (threads i x : ℕ) (nz : ws.incr ≢ pos 0) (hx : x < 2 ^ 63) where
  static_whole-Executes :
      (b : ℕ × ℕ)
      → static_block (iteration_count ws) threads i ≡ b
      → b.0 < 2 ^ 63
      → b.1 < 2 ^ 63
      → Executes (static_whole ws (worker threads i 0)) ws.incr (iteration_value ws x) ↔ InBlock x b
  unfolding static_whole
  static_whole-Executes (s, e) q hs he = rw q (elim (Bool-cases (leb e s)) [
    | inl empty ↦ rw empty (
      λ h. absurd (idle-Executes ws.incr (iteration_value ws x) 1 h),
      λ h. absurd (omega (arith, leb→le e s empty)),
    )
    | inr full ↦
        rw full
          (handed-Executes ws s e x (if e == iteration_count ws then ulong_max else 1) nz hs he hx)
  ])

  -- The clipped end of a chunk.
  abbrev clipped : ℕ → ℕ → ℕ
  clipped n e = if ltb n e then n else e

  static_chunk-Executes :
      (trip : ℕ) (b : ℕ × ℕ)
      → chunk_block threads i (to_word ws.chunk_size) trip ≡ b
      → iteration_count ws < 2 ^ 63
      → b.0 < 2 ^ 63
      → b.1 < 2 ^ 63
      → Executes (static_chunk ws (worker threads i trip)) ws.incr (iteration_value ws x)
        ↔ ((x < iteration_count ws) × InBlock x b)
  unfolding static_chunk
  static_chunk-Executes trip (s, e) q hn hs he =
      rw q (elim (Bool-cases (leb (iteration_count ws) s)) [
        | inl past ↦ rw past (
          λ h. absurd (idle-Executes ws.incr (iteration_value ws x) trip h),
          λ h. absurd (omega (arith, leb→le (iteration_count ws) s past)),
        )
        | inr some_left ↦
            rw some_left (
              λ h. let w = (handed small).0 h in ground arith,
              λ h. (handed small).1 (ground arith),
            )
      ])
    where
      n : ℕ
      n = iteration_count ws

      e' : ℕ
      e' = clipped n e

      small : e' < 2 ^ 63
      small = ground arith

      handed :
          e' < 2 ^ 63
          → Executes
              (record {
                ret = pos 0;
                block = value_block ws s e';
                trip = if e' == n then ulong_max else word (trip + 1);
              })
              ws.incr
              (iteration_value ws x)
            ↔ InBlock x (s, e')
      handed h =
          handed-Executes ws s e' x (if e' == n then ulong_max else word (trip + 1)) nz hs h hx

-- The first call of thread `i` executes the iterations of its block.
pub static_next-InBlock :
    (ws : WorkShare) (threads i x : ℕ)
    → 2 ≤ threads
    → i < threads
    → ws.chunk_size ≡ pos 0
    → ws.incr ≢ pos 0
    → iteration_count ws < 2 ^ 63
    → x < iteration_count ws
    → Executes (iter_static_next ws (worker threads i 0)) ws.incr (iteration_value ws x)
      ↔ InBlock x (static_block (iteration_count ws) threads i)
static_next-InBlock ws threads i x h li c nz small hx =
    let n = iteration_count ws in
    let ends = static_block_end n threads i (omega arith) li in
    rw (static_next-whole ws threads i h c) (
      static_whole-Executes ws threads i x nz (omega arith) (static_block n threads i) refl
        (omega arith) (omega arith))

-- A loop with an unspecified chunk size, `incr` not 0 and fewer than 2 ^ 63 iterations: in a team
-- of two or more, every iteration is executed by the first call of exactly one thread.
pub iter_static_next-whole :
    (ws : WorkShare) (threads x : ℕ)
    → 2 ≤ threads
    → ws.chunk_size ≡ pos 0
    → ws.incr ≢ pos 0
    → iteration_count ws < 2 ^ 63
    → x < iteration_count ws
    → Owner
        (λ i. Executes (iter_static_next ws (worker threads i 0)) ws.incr (iteration_value ws x))
        threads
iter_static_next-whole ws threads x h c nz small hx =
    let (o, lo, owns) =
      static_block-Owner (iteration_count ws) threads x (omega arith) (omega arith) hx in
    let iff = λ (i : ℕ) (li : i < threads). static_next-InBlock ws threads i x h li c nz small hx in
    (
      o,
      lo,
      λ i. (
        λ p. (owns i).0 (p.0, (iff i p.0).0 p.1),
        λ e. let q = (owns i).1 e in (q.0, (iff i q.0).1 q.1),
      ),
    )

-- A loop in chunks of `suc c` iterations, `incr` not 0, with fewer than 2 ^ 63 iterations, in a
-- team of two or more: as long as the trip's positions stay below 2 ^ 63, the call of thread `i`
-- in trip `trip` executes iteration `x` exactly when the chunk of `x` is the thread's in that
-- trip, the chunks going round the threads in turn.
pub iter_static_next-chunk :
    (ws : WorkShare) (threads i trip c x : ℕ)
    → 2 ≤ threads
    → i < threads
    → ws.chunk_size ≡ pos (suc c)
    → ws.incr ≢ pos 0
    → iteration_count ws < 2 ^ 63
    → (trip * threads + i) * suc c + suc c < 2 ^ 63
    → x < iteration_count ws
    → Executes (iter_static_next ws (worker threads i trip)) ws.incr (iteration_value ws x)
      ↔ ((i ≡ chunk_thread threads (suc c) x) × (trip ≡ chunk_trip threads (suc c) x))
iter_static_next-chunk ws threads i trip c x h li q nz small room hx =
    rw (static_next-chunk ws threads i trip c h q (grind arith)) (
      λ r.
          let (lo, hi) = (iff.0 r).1 in
          quotient_unique trip threads i (x / suc c) li
            (chunk_index (suc c) m x (omega arith) lo hi),
      λ r.
          let e = quotient_remainder trip threads i (x / suc c) r.0 r.1 in
          iff.1 (hx, rw e (chunk_holds (suc c) x (omega arith))),
    )
  where
    m : ℕ
    m = trip * threads + i

    positions : chunk_block threads i (to_word ws.chunk_size) trip ≡ (m * suc c, m * suc c + suc c)
    positions =
        rw (q, word-eq (suc c) (omega arith))
          (chunk_block-exact threads i (suc c) trip (grind arith) (omega arith))

    iff :
        Executes (static_chunk ws (worker threads i trip)) ws.incr (iteration_value ws x)
        ↔ ((x < iteration_count ws) × InBlock x (m * suc c, m * suc c + suc c))
    iff =
        static_chunk-Executes ws threads i x nz (omega arith) trip (m * suc c, m * suc c + suc c)
          positions small (omega arith) room
