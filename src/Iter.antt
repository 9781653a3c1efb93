-- ===== src/Iter.antt =====
-- Work-share iteration: iter.c, with `struct gomp_work_share` and `struct gomp_thread` cut down to
-- the fields that the iteration functions read (libgomp.h). A `long` is an integer and an
-- `unsigned long` a number that wraps at 2 ^ 64; the out-parameters `*pstart`, `*pend` are an option,
-- `none` where the C function leaves them alone.
pub mod Partition
pub mod Blocks
pub mod Values
pub mod Static
pub mod Count
use libgomp_a.Base.{
  ℕ, ◌+◌, ◌*◌, ◌/◌, ◌%◌, ◌≡◌, Bool, true, false, Option, none, some, ltb, leb, ◌==◌, if◌then◌else◌,
  ℤ, pos, negsuc, ◌+ℤ◌, ◌-ℤ◌, ◌*ℤ◌, ◌/ℤ◌, ltb_ℤ, ◌==ℤ◌, word, sub_word, to_word, to_long, ulong_max,
}

-- `enum gomp_schedule_type`
pub data Schedule : Type 0 where
  runtime static dynamic guided auto : Schedule

-- `struct gomp_work_share`: the fields of an iteration.
pub record WorkShare : Type 0 where
  pub sched : Schedule
  pub mode : ℕ
  pub chunk_size : ℤ
  pub end : ℤ
  pub incr : ℤ
  pub next : ℤ

-- `struct gomp_thread`: `team` holds the team's `nthreads`, `none` outside any team.
pub record Thread : Type 0 where
  pub team : Option ℕ
  pub team_id : ℕ
  pub static_trip : ℕ

-- `team ? team->nthreads : 1`
abbrev pub nthreads : Thread → ℕ
nthreads thr = elim thr.team [ none ↦ 1 | some n ↦ n ]

-- What a call of `gomp_iter_static_next` does: its result, `*pstart` and `*pend`, the new trip.
pub record StaticResult : Type 0 where
  pub ret : ℤ
  pub block : Option (ℤ × ℤ)
  pub trip : ℕ

-- The total number of iterations.
unfoldable pub iteration_count : WorkShare → ℕ
iteration_count ws =
    let s = ws.incr +ℤ (if ltb_ℤ (pos 0) ws.incr then negsuc 0 else pos 1) in
    to_word ((ws.end -ℤ ws.next +ℤ s) /ℤ ws.incr)

-- `s0 = q * i + t; e0 = s0 + q`
abbrev pub block_at : ℕ → ℕ → ℕ → ℕ × ℕ
block_at q i t = let s0 = word (word (q * i) + t) in (s0, word (s0 + q))

-- The zero-based start and end points of thread `i` for an unspecified chunk size.
unfoldable pub static_block : ℕ → ℕ → ℕ → ℕ × ℕ
static_block n threads i =
    let q = n / threads in
    let t = n % threads in if ltb i t then block_at (word (q + 1)) i 0 else block_at q i t

-- The zero-based start and end points of trip `trip` of thread `i`, before the end is clipped.
unfoldable pub chunk_block : ℕ → ℕ → ℕ → ℕ → ℕ × ℕ
chunk_block threads i c trip =
    let s0 = word (word (word (trip * threads) + i) * c) in (s0, word (s0 + c))

-- `(long)s0 * ws->incr + ws->next`
unfoldable pub iteration_value : WorkShare → ℕ → ℤ
iteration_value ws s0 = to_long s0 *ℤ ws.incr +ℤ ws.next

abbrev pub value_block : WorkShare → ℕ → ℕ → Option (ℤ × ℤ)
value_block ws s0 e0 = some (iteration_value ws s0, iteration_value ws e0)

-- `chunk_size == 0`: each thread makes one trip.
unfoldable pub static_whole : WorkShare → Thread → StaticResult
static_whole ws thr =
    if ltb 0 thr.static_trip
    then record { ret = pos 1; block = none; trip = thr.static_trip }
    else let n = iteration_count ws in
      let (s0, e0) = static_block n (nthreads thr) thr.team_id in
      if leb e0 s0 then record { ret = pos 1; block = none; trip = 1 } else record {
        ret = pos 0;
        block = value_block ws s0 e0;
        trip = if e0 == n then ulong_max else 1;
      }

-- Otherwise each thread gets `chunk_size` iterations, if available, in each trip.
unfoldable pub static_chunk : WorkShare → Thread → StaticResult
static_chunk ws thr =
    let n = iteration_count ws in
    let (s0, e) = chunk_block (nthreads thr) thr.team_id (to_word ws.chunk_size) thr.static_trip in
    if leb n s0
    then record { ret = pos 1; block = none; trip = thr.static_trip }
    else let e0 = if ltb n e then n else e in
      record {
        ret = pos 0;
        block = value_block ws s0 e0;
        trip = if e0 == n then ulong_max else word (thr.static_trip + 1);
      }

-- `gomp_iter_static_next`
unfoldable pub iter_static_next : WorkShare → Thread → StaticResult
unfolding static_whole static_chunk
iter_static_next ws thr =
    if thr.static_trip == ulong_max
    then record { ret = negsuc 0; block = none; trip = thr.static_trip }
    else if nthreads thr == 1
    then record {
      ret = if ws.next ==ℤ ws.end then pos 1 else pos 0;
      block = some (ws.next, ws.end);
      trip = ulong_max;
    }
    else if ws.chunk_size ==ℤ pos 0
    then static_whole ws thr
    else static_chunk ws thr

-- The chunk, cut to what is left in the direction of the loop.
unfoldable pub clip_chunk : ℤ → ℤ → ℤ → ℤ
clip_chunk incr chunk left =
    if ltb_ℤ incr (pos 0)
    then (if ltb_ℤ chunk left then left else chunk)
    else (if ltb_ℤ left chunk then left else chunk)

-- `gomp_iter_dynamic_next_locked`
unfoldable pub iter_dynamic_next_locked : WorkShare → Option (ℤ × ℤ) × WorkShare
unfolding clip_chunk
iter_dynamic_next_locked ws =
    if ws.next ==ℤ ws.end
    then (none, ws)
    else let chunk = clip_chunk ws.incr ws.chunk_size (ws.end -ℤ ws.next) in
      let e = ws.next +ℤ chunk in (some (ws.next, e), record ws { next = e })

-- Where a guided block from `start` ends: `q` iterations, or the end of the loop. `q` is unsigned,
-- so `start + q * ws->incr` is computed modulo 2 ^ 64 and cast back.
unfoldable pub guided_end : WorkShare → ℕ → ℤ → ℤ
guided_end ws threads start =
    let n = to_word ((ws.end -ℤ start) /ℤ ws.incr) in
    let share = sub_word (word (n + threads)) 1 / threads in
    let q = if ltb share (to_word ws.chunk_size) then to_word ws.chunk_size else share in
    if leb q n then to_long (word (to_word start + word (q * to_word ws.incr))) else ws.end

-- `gomp_iter_guided_next_locked`
unfoldable pub iter_guided_next_locked : WorkShare → Thread → Option (ℤ × ℤ) × WorkShare
unfolding guided_end
iter_guided_next_locked ws thr =
    if ws.next ==ℤ ws.end
    then (none, ws)
    else let e = guided_end ws (nthreads thr) ws.next in (some (ws.next, e), record ws { next = e })
