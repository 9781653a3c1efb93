-- ===== src/LoopUll.antt =====
-- The LOOP construct over `unsigned long long`: loop_ull.c, `gomp_loop_ull_init`, the static routines
-- and those that expect an ORDERED section. `first` is the answer of `gomp_work_share_start`, and a
-- result is `none` where the thread blocks in `gomp_ordered_sync`.
pub mod Facts
use Prim.Native.Nat.{bit_or}
use libgomp_a.Base.{
  ℕ, ◌+◌, ◌*◌, ◌^◌, ◌≡◌, Bool, true, false, not, ◌&&◌, ◌||◌, Option, none, some, ◌>>=◌, ltb, leb,
  ◌==◌, if◌then◌else◌, pos, leb_ℤ, ◌==ℤ◌, word, sub_word, ulong_max,
}
use libgomp_a.Iter.{Schedule, Thread, nthreads}
use libgomp_a.IterUll.{
  WorkShareUll, StaticUll, iter_ull_static_next, iter_ull_dynamic_next_locked,
  iter_ull_guided_next_locked,
}
use libgomp_a.Ordered.{
  Ordered, ordered_first, ordered_last, ordered_next, ordered_static_init, ordered_static_next,
  ordered_sync,
}
use libgomp_a.Loop.{is_dynamic, is_some}

-- Whether `gomp_iter_ull_dynamic_next` may add to `ws->next_ull` without a test for overflow.
unfoldable pub fast_ull : Bool → ℕ → ℕ → ℕ → Bool
fast_ull up threads chunk end =
    if up
    then ltb (bit_or threads chunk) (2 ^ 31)
      && ltb end (sub_word ulong_max (word (word (threads + 1) * chunk)))
    else ltb (bit_or threads (sub_word 0 chunk)) (2 ^ 31)
      && ltb (sub_word (word (word (threads + 1) * sub_word 0 chunk)) ulong_max) end

-- Loops that have zero iterations end at their start.
unfoldable pub end_of_ull : Bool → ℕ → ℕ → ℕ
end_of_ull up start end = if (up && ltb end start) || (not up && ltb start end) then start else end

-- `gomp_loop_ull_init`
unfoldable pub loop_ull_init : ℕ → Bool → ℕ → ℕ → ℕ → Schedule → ℕ → WorkShareUll
unfolding fast_ull end_of_ull
loop_ull_init threads up start end incr sched chunk_size =
    let stop = end_of_ull up start end in
    let chunk = if is_dynamic sched then word (chunk_size * incr) else chunk_size in
    let fast = if is_dynamic sched && fast_ull up threads chunk stop then 1 else 0 in
    record {
      sched = sched;
      mode = if up then fast else bit_or fast 2;
      chunk_size_ull = chunk;
      end_ull = stop;
      incr_ull = incr;
      next_ull = start;
    }

-- The arguments of a start routine.
pub record BoundsUll : Type 0 where
  pub up : Bool
  pub start : ℕ
  pub end : ℕ
  pub incr : ℕ
  pub chunk : ℕ

abbrev pub entered_ull : Bool → WorkShareUll → Thread → BoundsUll → Schedule → WorkShareUll
entered_ull first ws thr b sched =
    if first then loop_ull_init (nthreads thr) b.up b.start b.end b.incr sched b.chunk else ws

-- What a routine returns and leaves.
pub record UllResult : Type 0 where
  pub answer : Bool
  pub block : Option (ℕ × ℕ)
  pub ws : WorkShareUll
  pub thr : Thread
  pub ordered : Ordered

abbrev pub static_answer_ull : StaticUll → WorkShareUll → Thread → Ordered → UllResult
static_answer_ull r ws thr o = record {
  answer = r.ret ==ℤ pos 0;
  block = r.block;
  ws = ws;
  thr = record thr { static_trip = r.trip };
  ordered = o;
}

abbrev pub block_answer_ull : Option (ℕ × ℕ) × WorkShareUll → Thread → Ordered → UllResult
block_answer_ull r thr o = record {
  answer = is_some r.0;
  block = r.0;
  ws = r.1;
  thr = thr;
  ordered = o;
}

-- `gomp_loop_ull_static_next`
pub ull_static_next : WorkShareUll → Thread → Ordered → UllResult
ull_static_next ws thr o = static_answer_ull (iter_ull_static_next ws thr) ws thr o

-- `gomp_loop_ull_static_start`
pub ull_static_start : Bool → WorkShareUll → Thread → Ordered → BoundsUll → UllResult
unfolding ull_static_next
ull_static_start first ws thr o b =
    ull_static_next (entered_ull first ws thr b Schedule.static) (record thr { static_trip = 0 }) o

-- `gomp_loop_ull_ordered_static_start`
pub ull_ordered_static_start : Bool → WorkShareUll → Thread → Ordered → BoundsUll → UllResult
unfolding ull_static_start ull_static_next
ull_ordered_static_start first ws thr o b =
    ull_static_start first ws thr (if first then ordered_static_init thr.team o else o) b

abbrev pub registered_ull : Option (ℕ × ℕ) × WorkShareUll → Thread → Ordered → UllResult
registered_ull r thr o =
    block_answer_ull r thr (if is_some r.0 then ordered_first thr.team thr.team_id o else o)

-- `gomp_loop_ull_ordered_dynamic_start`
pub ull_ordered_dynamic_start : Bool → WorkShareUll → Thread → Ordered → BoundsUll → UllResult
ull_ordered_dynamic_start first ws thr o b =
    registered_ull (iter_ull_dynamic_next_locked (entered_ull first ws thr b Schedule.dynamic)) thr
      o

-- `gomp_loop_ull_ordered_guided_start`
pub ull_ordered_guided_start : Bool → WorkShareUll → Thread → Ordered → BoundsUll → UllResult
ull_ordered_guided_start first ws thr o b =
    registered_ull (iter_ull_guided_next_locked (entered_ull first ws thr b Schedule.guided) thr)
      thr o

-- `GOMP_loop_ull_ordered_runtime_start`, `none` where it aborts.
pub ull_ordered_runtime_start :
    Schedule → Bool → WorkShareUll → Thread → Ordered → BoundsUll → Option UllResult
unfolding ull_ordered_static_start ull_ordered_dynamic_start ull_ordered_guided_start
ull_ordered_runtime_start Schedule.static first ws thr o b =
    some (ull_ordered_static_start first ws thr o b)
ull_ordered_runtime_start Schedule.dynamic first ws thr o b =
    some (ull_ordered_dynamic_start first ws thr o b)
ull_ordered_runtime_start Schedule.guided first ws thr o b =
    some (ull_ordered_guided_start first ws thr o b)
ull_ordered_runtime_start Schedule.auto first ws thr o b =
    some (ull_ordered_static_start first ws thr o (record b { chunk = 0 }))
ull_ordered_runtime_start Schedule.runtime first ws thr o b = none

abbrev pub handed_on_ull : Option (ℕ × ℕ) × WorkShareUll → Thread → Ordered → UllResult
handed_on_ull r thr o =
    block_answer_ull r thr
      (if is_some r.0 then ordered_next thr.team thr.team_id o else ordered_last thr.team o)

-- `gomp_loop_ull_ordered_static_next`
pub ull_ordered_static_next : WorkShareUll → Thread → Ordered → Option UllResult
ull_ordered_static_next ws thr o = do
  o1 ← ordered_sync thr.team thr.team_id o
  let r = iter_ull_static_next ws thr
  some (
      static_answer_ull r ws thr
        (if leb_ℤ (pos 0) r.ret then ordered_static_next thr.team thr.team_id o1 else o1))

-- `gomp_loop_ull_ordered_dynamic_next`
pub ull_ordered_dynamic_next : WorkShareUll → Thread → Ordered → Option UllResult
ull_ordered_dynamic_next ws thr o = do
  o1 ← ordered_sync thr.team thr.team_id o
  some (handed_on_ull (iter_ull_dynamic_next_locked ws) thr o1)

-- `gomp_loop_ull_ordered_guided_next`
pub ull_ordered_guided_next : WorkShareUll → Thread → Ordered → Option UllResult
ull_ordered_guided_next ws thr o = do
  o1 ← ordered_sync thr.team thr.team_id o
  some (handed_on_ull (iter_ull_guided_next_locked ws thr) thr o1)
