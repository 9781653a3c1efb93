-- ===== src/Loop.antt =====
-- The LOOP construct: loop.c. Each `*_start` function takes the answer of `gomp_work_share_start`
-- (`first`: this thread came first and initialises the work share) and the work share that it left in
-- `thr->ts.work_share`. A call of `gomp_iter_dynamic_next` or `gomp_iter_guided_next` is given as the
-- locked function: `Claim` shows that the compare-and-swap loops hand out the same blocks.
pub mod Init
pub mod Bits
pub mod InOrder
use Prim.Native.Nat.{bit_or}
use libgomp_a.Base.{
  ℕ, ◌+◌, ◌*◌, ◌^◌, ◌≡◌, Bool, true, false, not, ◌&&◌, ◌||◌, Option, none, some, ltb, leb, ◌==◌,
  if◌then◌else◌, ℤ, pos, negsuc, ◌+ℤ◌, ◌-ℤ◌, ◌*ℤ◌, neg, ltb_ℤ, leb_ℤ, ◌==ℤ◌, to_word, long_max,
}
use libgomp_a.Iter.{
  Schedule, WorkShare, Thread, nthreads, StaticResult, iter_static_next, iter_dynamic_next_locked,
  iter_guided_next_locked,
}
use libgomp_a.Ordered.{Ordered}

-- `(nthreads | chunk) >= 1UL << (sizeof (long) * __CHAR_BIT__ / 2 - 1)`
unfoldable pub too_wide : ℕ → ℤ → Bool
too_wide threads chunk = leb (2 ^ 31) (bit_or threads (to_word chunk))

-- Whether `gomp_iter_dynamic_next` may add to `ws->next` without a test for overflow.
unfoldable pub dynamic_mode : ℕ → ℤ → ℤ → ℤ → ℕ
dynamic_mode threads incr chunk end =
    if ltb_ℤ (pos 0) incr
    then (if too_wide threads chunk
        then 0
        else (if ltb_ℤ end (pos long_max -ℤ pos (threads + 1) *ℤ chunk) then 1 else 0))
    else (if too_wide threads (neg chunk)
        then 0
        else (if ltb_ℤ (pos (threads + 1) *ℤ neg chunk -ℤ pos long_max) end then 1 else 0))

-- Loops that have zero iterations end at their start.
abbrev pub canonical_end : ℤ → ℤ → ℤ → ℤ
canonical_end start end incr =
    if (ltb_ℤ (pos 0) incr && ltb_ℤ end start) || (ltb_ℤ incr (pos 0) && ltb_ℤ start end)
    then start
    else end

abbrev pub is_dynamic : Schedule → Bool
is_dynamic Schedule.dynamic = true
is_dynamic _ = false

-- `gomp_loop_init`; `ws` is the work share before, whose `mode` stays as it is for other schedules.
unfoldable pub loop_init : WorkShare → ℕ → ℤ → ℤ → ℤ → Schedule → ℤ → WorkShare
unfolding dynamic_mode
loop_init ws threads start end incr sched chunk_size =
    let stop = canonical_end start end incr in
    let chunk = if is_dynamic sched then chunk_size *ℤ incr else chunk_size in
    record {
      sched = sched;
      mode = if is_dynamic sched then dynamic_mode threads incr chunk stop else ws.mode;
      chunk_size = chunk;
      end = stop;
      incr = incr;
      next = start;
    }

-- The loop's bounds, its step and chunk size, as a `*_start` function is given them.
pub record Bounds : Type 0 where
  pub start : ℤ
  pub end : ℤ
  pub incr : ℤ
  pub chunk : ℤ

abbrev pub entered : Bool → WorkShare → Thread → Bounds → Schedule → WorkShare
entered first ws thr b sched =
    if first then loop_init ws (nthreads thr) b.start b.end b.incr sched b.chunk else ws

-- What a loop routine returns and leaves: its answer, `*istart` and `*iend`, the work share, the
-- thread and the ORDERED state.
pub record LoopResult : Type 0 where
  pub answer : Bool
  pub block : Option (ℤ × ℤ)
  pub ws : WorkShare
  pub thr : Thread
  pub ordered : Ordered

abbrev pub static_answer : StaticResult → WorkShare → Thread → Ordered → LoopResult
static_answer r ws thr o = record {
  answer = r.ret ==ℤ pos 0;
  block = r.block;
  ws = ws;
  thr = record thr { static_trip = r.trip };
  ordered = o;
}

abbrev pub is_some {ℓ} : {A : Type ℓ} → Option A → Bool
is_some none = false
is_some (some a) = true

abbrev pub block_answer : Option (ℤ × ℤ) × WorkShare → Thread → Ordered → LoopResult
block_answer r thr o = record {
  answer = is_some r.0;
  block = r.0;
  ws = r.1;
  thr = thr;
  ordered = o;
}

-- `gomp_loop_static_next`
pub loop_static_next : WorkShare → Thread → Ordered → LoopResult
loop_static_next ws thr o = static_answer (iter_static_next ws thr) ws thr o

-- `gomp_loop_dynamic_next`
pub loop_dynamic_next : WorkShare → Thread → Ordered → LoopResult
loop_dynamic_next ws thr o = block_answer (iter_dynamic_next_locked ws) thr o

-- `gomp_loop_guided_next`
pub loop_guided_next : WorkShare → Thread → Ordered → LoopResult
loop_guided_next ws thr o = block_answer (iter_guided_next_locked ws thr) thr o

-- `gomp_loop_static_start`
pub loop_static_start : Bool → WorkShare → Thread → Ordered → Bounds → LoopResult
unfolding loop_static_next
loop_static_start first ws thr o b =
    let thr0 = record thr { static_trip = 0 } in
    loop_static_next (entered first ws thr b Schedule.static) thr0 o

-- `gomp_loop_dynamic_start`
pub loop_dynamic_start : Bool → WorkShare → Thread → Ordered → Bounds → LoopResult
unfolding loop_dynamic_next
loop_dynamic_start first ws thr o b =
    loop_dynamic_next (entered first ws thr b Schedule.dynamic) thr o

-- `gomp_loop_guided_start`
pub loop_guided_start : Bool → WorkShare → Thread → Ordered → Bounds → LoopResult
unfolding loop_guided_next
loop_guided_start first ws thr o b = loop_guided_next (entered first ws thr b Schedule.guided) thr o

-- `GOMP_loop_runtime_start`, with `icv->run_sched_var` and the chunk size of `icv` in `b`; `none`
-- where it aborts.
pub loop_runtime_start : Schedule → Bool → WorkShare → Thread → Ordered → Bounds → Option LoopResult
unfolding loop_static_start loop_dynamic_start loop_guided_start
loop_runtime_start Schedule.static first ws thr o b = some (loop_static_start first ws thr o b)
loop_runtime_start Schedule.dynamic first ws thr o b = some (loop_dynamic_start first ws thr o b)
loop_runtime_start Schedule.guided first ws thr o b = some (loop_guided_start first ws thr o b)
loop_runtime_start Schedule.auto first ws thr o b =
    some (loop_static_start first ws thr o (record b { chunk = pos 0 }))
loop_runtime_start Schedule.runtime first ws thr o b = none

-- `GOMP_loop_runtime_next`: by the schedule that the work share was started with.
pub loop_runtime_next : WorkShare → Thread → Ordered → Option LoopResult
unfolding loop_static_next loop_dynamic_next loop_guided_next
loop_runtime_next ws thr o = elim ws.sched [
  | Schedule.static ↦ some (loop_static_next ws thr o)
  | Schedule.auto ↦ some (loop_static_next ws thr o)
  | Schedule.dynamic ↦ some (loop_dynamic_next ws thr o)
  | Schedule.guided ↦ some (loop_guided_next ws thr o)
  | Schedule.runtime ↦ none
]
