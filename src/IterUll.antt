-- ===== src/IterUll.antt =====
-- Work-share iteration over `unsigned long long`: iter_ull.c. All numbers are words below 2 ^ 64; a
-- loop that counts down has mode 2, and its step is the word of a negative number.
pub mod Refine
pub mod Locked
use Prim.Native.Nat.{bit_and}
use libgomp_a.Base.{
  ℕ, ◌+◌, ◌*◌, ◌/◌, ◌%◌, ◌≡◌, Bool, not, Option, none, some, ltb, leb, ◌==◌, if◌then◌else◌, ℤ, pos,
  negsuc, word, sub_word, ulong_max,
}
use libgomp_a.Iter.{Schedule, Thread, nthreads, static_block, chunk_block}

-- `struct gomp_work_share`: the fields of an iteration over `unsigned long long`.
pub record WorkShareUll : Type 0 where
  pub sched : Schedule
  pub mode : ℕ
  pub chunk_size_ull : ℕ
  pub end_ull : ℕ
  pub incr_ull : ℕ
  pub next_ull : ℕ

-- What a call of `gomp_iter_ull_static_next` does.
pub record StaticUll : Type 0 where
  pub ret : ℤ
  pub block : Option (ℕ × ℕ)
  pub trip : ℕ

-- The total number of iterations.
unfoldable pub count_ull : WorkShareUll → ℕ
count_ull ws =
    if ws.mode == 0
    then sub_word (word (sub_word ws.end_ull ws.next_ull + ws.incr_ull)) 1 / ws.incr_ull
    else sub_word (sub_word (sub_word ws.next_ull ws.end_ull) ws.incr_ull) 1
      / sub_word 0 ws.incr_ull

-- `s0 * ws->incr_ull + ws->next_ull`
unfoldable pub value_ull : WorkShareUll → ℕ → ℕ
value_ull ws s0 = word (word (s0 * ws.incr_ull) + ws.next_ull)

abbrev pub values_ull : WorkShareUll → ℕ → ℕ → Option (ℕ × ℕ)
values_ull ws s0 e0 = some (value_ull ws s0, value_ull ws e0)

-- `chunk_size_ull == 0`: each thread makes one trip.
unfoldable pub whole_ull : WorkShareUll → Thread → StaticUll
whole_ull ws thr =
    if ltb 0 thr.static_trip
    then record { ret = pos 1; block = none; trip = thr.static_trip }
    else let n = count_ull ws in
      let (s0, e0) = static_block n (nthreads thr) thr.team_id in
      if leb e0 s0 then record { ret = pos 1; block = none; trip = 1 } else record {
        ret = pos 0;
        block = values_ull ws s0 e0;
        trip = if e0 == n then ulong_max else 1;
      }

-- Otherwise each thread gets `chunk_size_ull` iterations, if available, in each trip.
unfoldable pub chunk_ull : WorkShareUll → Thread → StaticUll
chunk_ull ws thr =
    let n = count_ull ws in
    let (s0, e) = chunk_block (nthreads thr) thr.team_id ws.chunk_size_ull thr.static_trip in
    if leb n s0
    then record { ret = pos 1; block = none; trip = thr.static_trip }
    else let e0 = if ltb n e then n else e in
      record {
        ret = pos 0;
        block = values_ull ws s0 e0;
        trip = if e0 == n then ulong_max else word (thr.static_trip + 1);
      }

-- `gomp_iter_ull_static_next`
unfoldable pub iter_ull_static_next : WorkShareUll → Thread → StaticUll
unfolding whole_ull chunk_ull
iter_ull_static_next ws thr =
    if thr.static_trip == ulong_max
    then record { ret = negsuc 0; block = none; trip = thr.static_trip }
    else if nthreads thr == 1
    then record {
      ret = if ws.next_ull == ws.end_ull then pos 1 else pos 0;
      block = some (ws.next_ull, ws.end_ull);
      trip = ulong_max;
    }
    else if ws.chunk_size_ull == 0
    then whole_ull ws thr
    else chunk_ull ws thr

-- `ws->mode & 2`
abbrev pub counts_down : ℕ → Bool
counts_down mode = not (bit_and mode 2 == 0)

-- The chunk, cut to what is left in the direction of the loop.
unfoldable pub clip_ull : ℕ → ℕ → ℕ → ℕ
clip_ull mode chunk left =
    if counts_down mode
    then (if ltb chunk left then left else chunk)
    else (if ltb left chunk then left else chunk)

-- `gomp_iter_ull_dynamic_next_locked`
unfoldable pub iter_ull_dynamic_next_locked : WorkShareUll → Option (ℕ × ℕ) × WorkShareUll
unfolding clip_ull
iter_ull_dynamic_next_locked ws =
    if ws.next_ull == ws.end_ull
    then (none, ws)
    else let chunk = clip_ull ws.mode ws.chunk_size_ull (sub_word ws.end_ull ws.next_ull) in
      let e = word (ws.next_ull + chunk) in (some (ws.next_ull, e), record ws { next_ull = e })

-- Where a guided block from `start` ends.
unfoldable pub guided_end_ull : WorkShareUll → ℕ → ℕ → ℕ
guided_end_ull ws threads start =
    let n =
      if ws.mode == 0
      then sub_word ws.end_ull start / ws.incr_ull
      else sub_word start ws.end_ull / sub_word 0 ws.incr_ull in
    let share = sub_word (word (n + threads)) 1 / threads in
    let q = if ltb share ws.chunk_size_ull then ws.chunk_size_ull else share in
    if leb q n then word (start + word (q * ws.incr_ull)) else ws.end_ull

-- `gomp_iter_ull_guided_next_locked`
unfoldable pub iter_ull_guided_next_locked : WorkShareUll → Thread → Option (ℕ × ℕ) × WorkShareUll
unfolding guided_end_ull
iter_ull_guided_next_locked ws thr =
    if ws.next_ull == ws.end_ull
    then (none, ws)
    else let e = guided_end_ull ws (nthreads thr) ws.next_ull in
      (some (ws.next_ull, e), record ws { next_ull = e })
