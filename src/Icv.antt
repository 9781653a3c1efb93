-- ===== src/Icv.antt =====
-- The internal control variables: icv.c on `struct gomp_task_icv` (libgomp.h). Each function works on
-- the record that `gomp_icv` finds for the caller; an `int` is an integer, an enumerator its number.
pub mod Chunk
use libgomp_a.Base.{
  ℕ, ℤ, pos, negsuc, ltb_ℤ, ◌==ℤ◌, ◌==◌, Bool, false, not, if◌then◌else◌, Option, none, some, ltb,
  int_max, uint_max, to_int,
}
use libgomp_a.Iter.{Schedule, runtime, static, dynamic, guided, auto}

-- `struct gomp_task_icv`, without the fields for devices.
pub record TaskIcv : Type 0 where
  pub nthreads_var : ℕ
  pub run_sched_var : Schedule
  pub run_sched_chunk_size : ℤ
  pub thread_limit_var : ℕ
  pub dyn_var : Bool
  pub nest_var : Bool
  pub bind_var : ℕ

-- `omp_set_num_threads`
unfoldable pub set_num_threads : ℤ → TaskIcv → TaskIcv
set_num_threads (pos n) icv = record icv { nthreads_var = if ltb 0 n then n else 1 }
set_num_threads (negsuc n) icv = record icv { nthreads_var = 1 }

-- `omp_get_max_threads`
unfoldable pub get_max_threads : TaskIcv → ℤ
get_max_threads icv = to_int icv.nthreads_var

-- `omp_get_thread_limit`
unfoldable pub get_thread_limit : TaskIcv → ℕ
get_thread_limit icv = if ltb int_max icv.thread_limit_var then int_max else icv.thread_limit_var

-- `omp_set_dynamic` and `omp_set_nested`
unfoldable pub set_dynamic : ℤ → TaskIcv → TaskIcv
set_dynamic val icv = record icv { dyn_var = not (val ==ℤ pos 0) }

unfoldable pub set_nested : ℤ → TaskIcv → TaskIcv
set_nested val icv = record icv { nest_var = not (val ==ℤ pos 0) }

-- The enumerator of `omp_sched_t` with this number.
unfoldable pub sched_kind : ℕ → Option Schedule
sched_kind kind =
    if kind == 1
    then some static
    else if kind == 2
    then some dynamic
    else if kind == 3
    then some guided
    else if kind == 4
    then some auto
    else none

abbrev pub at_least : ℤ → ℤ → ℤ
at_least low chunk_size = if ltb_ℤ chunk_size (pos 1) then low else chunk_size

-- The chunk size that a kind of schedule stores; `auto` keeps the old one.
unfoldable pub sched_chunk : Schedule → ℤ → TaskIcv → ℤ
sched_chunk static chunk_size icv = at_least (pos 0) chunk_size
sched_chunk dynamic chunk_size icv = at_least (pos 1) chunk_size
sched_chunk guided chunk_size icv = at_least (pos 1) chunk_size
sched_chunk auto chunk_size icv = icv.run_sched_chunk_size
sched_chunk runtime chunk_size icv = icv.run_sched_chunk_size

-- `omp_set_schedule`: an unknown kind changes nothing.
unfoldable pub set_schedule : ℕ → ℤ → TaskIcv → TaskIcv
unfolding sched_kind sched_chunk
set_schedule kind chunk_size icv = elim (sched_kind kind) [
  | none ↦ icv
  | some sched ↦ record icv {
    run_sched_var = sched;
    run_sched_chunk_size = sched_chunk sched chunk_size icv;
  }
]

-- The number of an enumerator of `gomp_schedule_type`.
unfoldable pub sched_number : Schedule → ℕ
sched_number runtime = 0
sched_number static = 1
sched_number dynamic = 2
sched_number guided = 3
sched_number auto = 4

-- `omp_get_schedule`: `*kind` and `*chunk_size`.
unfoldable pub get_schedule : TaskIcv → ℕ × ℤ
unfolding sched_number
get_schedule icv = (sched_number icv.run_sched_var, icv.run_sched_chunk_size)

-- The initial `gomp_global_icv` (env.c).
unfoldable pub global_icv : TaskIcv
global_icv = record {
  nthreads_var = 1;
  run_sched_var = dynamic;
  run_sched_chunk_size = pos 1;
  thread_limit_var = uint_max;
  dyn_var = false;
  nest_var = false;
  bind_var = 0;
}
