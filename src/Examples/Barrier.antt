-- ===== src/Examples/Barrier.antt =====
-- Two threads at a barrier.
use libgomp_a.Base.{◌+◌, ◌≤◌, ◌≡◌, refl, arith}
use libgomp_a.Barrier.{
  Team, Step, Reach, here, later, load, count, wait_load, wait_count, wait_end, was_last,
  barrier_init, reset_awaited, open_barrier, wait_reset,
}
use libgomp_a.Barrier.Safety.{entered, barrier_wait-safe, barrier_wait-progress}

-- Thread 0 arrives and waits; thread 1 arrives, opens the barrier and leaves.
abbrev one_left : (s : Team) × Reach 2 s
unfolding barrier_init wait_load wait_count wait_end was_last wait_reset
one_left = (
  _,
  later
      (later
        (later
          (later (later (later here (load 0 (omega arith) refl)) (count 0 0 (omega arith) refl))
            (load 1 (omega arith) refl))
          (count 1 0 (omega arith) refl))
        (reset_awaited 1 1 (omega arith) refl))
      (open_barrier 1 1 (omega arith) refl),
)

ahead : one_left.0.rounds 1 ≡ 1
unfolding one_left
ahead = refl

barrier_wait-safe_example : one_left.0.rounds 1 ≤ one_left.0.rounds 0 + entered (one_left.0.pc 0)
barrier_wait-safe_example =
    barrier_wait-safe 2 one_left.0 1 0 (omega arith) (omega arith) one_left.1 (omega arith)
      (omega arith)

barrier_wait-progress_example : (t : Team) × Step 2 one_left.0 t
barrier_wait-progress_example =
    barrier_wait-progress 2 one_left.0 (omega arith) (omega arith) one_left.1
