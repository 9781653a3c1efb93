-- ===== src/Icv/Chunk.antt =====
-- `omp_set_schedule` and the chunk sizes that the schedules can work with.
use libgomp_a.Base.{ℕ, suc, ◌≤◌, ◌≡◌, ◌≤ℤ◌, ℤ, pos, arith, inl, inr, Option-cases}
use native.Mathlib.Decide.{ℕ_discrete}
use libgomp_a.Iter.{Schedule, runtime, static, dynamic, guided, auto}
use libgomp_a.Icv.{TaskIcv, set_schedule, get_schedule, sched_kind, sched_chunk}

-- A chunk size that the schedule works with: not negative for static, where 0 stands for none, and
-- positive for dynamic and guided, which go on by the chunk size. The others do not use it.
abbrev pub ValidChunk : Schedule → ℤ → Type 0
ValidChunk runtime chunk_size = Unit
ValidChunk static chunk_size = pos 0 ≤ℤ chunk_size
ValidChunk dynamic chunk_size = pos 1 ≤ℤ chunk_size
ValidChunk guided chunk_size = pos 1 ≤ℤ chunk_size
ValidChunk auto chunk_size = Unit

abbrev pub IsValid : TaskIcv → Type 0
IsValid icv = ValidChunk icv.run_sched_var icv.run_sched_chunk_size

sched_chunk-ValidChunk :
    (sched : Schedule) (chunk_size : ℤ) (icv : TaskIcv)
    → ValidChunk sched (sched_chunk sched chunk_size icv)
unfolding sched_chunk
sched_chunk-ValidChunk runtime chunk_size icv = tt
sched_chunk-ValidChunk static chunk_size icv = ground arith
sched_chunk-ValidChunk dynamic chunk_size icv = ground arith
sched_chunk-ValidChunk guided chunk_size icv = ground arith
sched_chunk-ValidChunk auto chunk_size icv = tt

-- Whatever kind and chunk size it is called with, `omp_set_schedule` leaves a chunk size that the
-- schedule works with, if there was one before.
pub set_schedule-IsValid :
    (kind : ℕ) (chunk_size : ℤ) (icv : TaskIcv)
    → IsValid icv
    → IsValid (set_schedule kind chunk_size icv)
unfolding set_schedule
set_schedule-IsValid kind chunk_size icv h = elim (Option-cases (sched_kind kind)) [
  | inl unknown ↦ rw (set_schedule, unknown) h
  | inr (sched, known) ↦ rw (set_schedule, known) (sched_chunk-ValidChunk sched chunk_size icv)
]

-- `omp_get_schedule` after `omp_set_schedule` with a kind from 1 to 3 and a positive chunk size
-- gives back both.
pub get_schedule-set_schedule :
    (kind n : ℕ) (icv : TaskIcv)
    → 1 ≤ kind
    → kind ≤ 3
    → get_schedule (set_schedule kind (pos (suc n)) icv) ≡ (kind, pos (suc n))
unfolding get_schedule set_schedule
get_schedule-set_schedule kind n icv low high = elim (ℕ_discrete kind 1) [
  | yes e ↦ rw e (ground arith)
  | no not_static ↦ elim (ℕ_discrete kind 2) [
    | yes e ↦ rw e (ground arith)
    | no not_dynamic ↦ let e : kind ≡ 3 = omega arith in rw e (ground arith)
  ]
]
