-- ===== src/Loop/Init.antt =====
-- `gomp_loop_init`: what it leaves suits `gomp_iter_dynamic_next`, on both of its paths.
use mathlib.Core.Path.{subst}
use libgomp_a.Base.{
  ℕ, zero, suc, ◌+◌, ◌*◌, ◌^◌, ◌<◌, ◌≡◌, ◌≢◌, refl, arith, true, false, Bool-cases, inl, inr,
  if◌then◌else◌, ℤ, pos, negsuc, pos_part, neg_part, neg, ltb_ℤ, ◌-ℤ◌, ◌*ℤ◌, ◌≤ℤ◌, ◌<ℤ◌, -ℤ_parts,
  to_word, long_max,
}
use libgomp_a.Iter.{WorkShare, Schedule}
use libgomp_a.Claim.{Fetches, Fetched}
use libgomp_a.Claim.Dynamic.{IsReady, Replays}
use libgomp_a.Claim.FastUp.{fetched-Replays as up-Replays}
use libgomp_a.Claim.FastDown.{fetched-Replays as down-Replays}
use libgomp_a.Loop.{too_wide, dynamic_mode, canonical_end, loop_init}
use libgomp_a.Loop.Bits.{le-bit_or}

-- A chunk of `a + 1` iterations of step `k + 1`, as a number less one.
abbrev width : ℕ → ℕ → ℕ
width a k = a * suc k + k

chunk_up : (a k : ℕ) → pos (suc a) *ℤ pos (suc k) ≡ pos (suc (width a k))
unfolding ◌*ℤ◌
chunk_up a k = ground arith

chunk_down : (a k : ℕ) → pos (suc a) *ℤ negsuc k ≡ negsuc (width a k)
unfolding ◌*ℤ◌
chunk_down a k = ground arith

-- The test on `nthreads | chunk` bounds both.
narrow_of :
    (threads c : ℕ)
    → c < 2 ^ 64
    → too_wide threads (pos c) ≡ false
    → (c < 2 ^ 31) × (threads < 2 ^ 31)
unfolding too_wide
narrow_of threads c h e = let (ht, hc) = le-bit_or threads (to_word (pos c)) in ground (arith, e)

mul_pos : (a b : ℕ) → pos a *ℤ pos b ≡ pos (a * b)
unfolding ◌*ℤ◌
mul_pos a b = ground arith

neg_negsuc : (c : ℕ) → neg (negsuc c) ≡ pos (suc c)
unfolding neg
neg_negsuc c = ground arith

-- The conditions under which `gomp_loop_init` chooses the fast path.
module _ (threads c : ℕ) (incr end : ℤ) (small : suc c < 2 ^ 64) where
  mode_up :
      pos 0 <ℤ incr
      → dynamic_mode threads incr (pos (suc c)) end ≡ 1
      → (suc c < 2 ^ 31) × (pos_part end + (threads + 1) * suc c < long_max + neg_part end)
  unfolding dynamic_mode
  mode_up up e = elim (Bool-cases (too_wide threads (pos (suc c)))) [
    | inl wide ↦ ground (arith, wide)
    | inr ok ↦
        let (narrow, _) = narrow_of threads (suc c) small ok in
        let far : ltb_ℤ end (pos long_max -ℤ pos (threads + 1) *ℤ pos (suc c)) ≡ true =
          ground (arith, ok) in
        let limit = -ℤ_parts (pos long_max) (pos ((threads + 1) * suc c)) in
        let far' = rw (mul_pos (threads + 1) (suc c)) at far in (narrow, ground (arith, far'))
  ]

  mode_down :
      incr <ℤ pos 0
      → dynamic_mode threads incr (negsuc c) end ≡ 1
      → (suc c < 2 ^ 31) × (neg_part end + (threads + 1) * suc c < long_max + pos_part end)
  unfolding dynamic_mode
  mode_down down e = elim (Bool-cases (too_wide threads (neg (negsuc c)))) [
    | inl wide ↦ ground (arith, wide)
    | inr ok ↦
        let (narrow, _) = narrow_of threads (suc c) small (rw neg_negsuc at ok) in
        let far : ltb_ℤ (pos (threads + 1) *ℤ neg (negsuc c) -ℤ pos long_max) end ≡ true =
          ground (arith, ok) in
        let limit = -ℤ_parts (pos ((threads + 1) * suc c)) (pos long_max) in
        let far' = rw (neg_negsuc c, mul_pos (threads + 1) (suc c)) at far in
        (narrow, ground (arith, far'))
  ]

-- `ws->next`, or the end of the loop once it is past that.
abbrev pub settled : ℤ → WorkShare → ℤ → ℤ
settled (pos k) ws x = if ltb_ℤ ws.end x then ws.end else x
settled (negsuc k) ws x = if ltb_ℤ x ws.end then ws.end else x

module _ (before : WorkShare) (threads : ℕ) (start end : ℤ) (a : ℕ) where
  -- The work share of a dynamic loop of chunks of `a + 1` iterations.
  abbrev pub dynamic_loop : ℤ → WorkShare
  dynamic_loop incr = loop_init before threads start end incr Schedule.dynamic (pos (suc a))

  -- For a chunk size of at least 1 and `incr` not 0, whatever the bounds, `gomp_loop_init` leaves
  -- a dynamic loop whose chunk has the sign of `incr` and whose end is not passed.
  pub loop_init-IsReady : (incr : ℤ) → incr ≢ pos 0 → IsReady (dynamic_loop incr)
  unfolding loop_init
  loop_init-IsReady (pos zero) nz = absurd (nz refl)
  loop_init-IsReady (pos (suc k)) nz =
      inl (omega arith, rw (chunk_up a k) (omega arith), ground arith)
  loop_init-IsReady (negsuc k) nz =
      inr (omega arith, rw (chunk_down a k) (omega arith), ground arith)

  -- If `gomp_loop_init` chooses the fast path for chunks of `suc a` iterations, `incr` not 0, the
  -- chunk's width and the loop's start being in the range of `long`, then however the threads
  -- call, each until it is turned away, `ws->next` stays a `long` and the blocks are those of the
  -- locked function.
  pub loop_init-fast :
      (incr : ℤ) (s : Fetches)
      → incr ≢ pos 0
      → suc a * (pos_part incr + neg_part incr) < 2 ^ 63
      → negsuc long_max ≤ℤ start
      → start ≤ℤ pos long_max
      → (dynamic_loop incr).mode ≡ 1
      → Fetched (dynamic_loop incr) threads s
      → Replays
          (dynamic_loop incr)
          s.handed
          (record (dynamic_loop incr) { next = settled incr (dynamic_loop incr) s.next })
        × (negsuc long_max ≤ℤ s.next)
        × (s.next ≤ℤ pos long_max)
  unfolding loop_init
  loop_init-fast (pos zero) s nz small lo hi mode r = absurd (nz refl)
  loop_init-fast (pos (suc k)) s nz small lo hi mode r =
      let stop = canonical_end start end (pos (suc k)) in
      let e = subst (λ c. dynamic_mode threads (pos (suc k)) c stop ≡ 1) (chunk_up a k) mode in
      let (narrow, room) =
        mode_up threads (width a k) (pos (suc k)) stop (omega arith) (omega arith) e in
      up-Replays (dynamic_loop (pos (suc k))) threads (width a k) (omega arith) (chunk_up a k)
        narrow (ground arith) lo room s r
  loop_init-fast (negsuc k) s nz small lo hi mode r =
      let stop = canonical_end start end (negsuc k) in
      let e = subst (λ c. dynamic_mode threads (negsuc k) c stop ≡ 1) (chunk_down a k) mode in
      let (narrow, room) =
        mode_down threads (width a k) (negsuc k) stop (omega arith) (omega arith) e in
      down-Replays (dynamic_loop (negsuc k)) threads (width a k) (omega arith) (chunk_down a k)
        narrow (ground arith) hi room s r
