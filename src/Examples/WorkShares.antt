-- ===== src/Examples/WorkShares.antt =====
-- Two threads at two work-sharing constructs.
use libgomp_a.Base.{ℕ, ◌<◌, ◌≡◌, ◌≢◌, ◌↔◌, refl, arith, Option, none}
use libgomp_a.Pool.{first_pool, alloc_work_share, link_chunk}
use libgomp_a.WorkShares.{
  initialising, inside, Sharing, Reach, here, later, start, try_lock, mark_lock, see, create,
  publish, complete, ptrlock_try, ptrlock_mark, start_ask, start_first, init_done, end_nowait,
  end_count,
}
use libgomp_a.WorkShares.Safety.{work_share_start-same_iff, work_share_start-first}
use libgomp_a.Examples.Pool.{chunk-Outside}

abbrev nothing : ℕ → Option ℕ
nothing _ = none

-- Thread 0 comes first and thread 1 waits for the work share.
abbrev both_inside : (s : Sharing) × Reach 2 nothing s
unfolding first_pool alloc_work_share link_chunk ptrlock_try ptrlock_mark start_ask start_first
    init_done
both_inside = (
  _,
  later
      (later
        (later
          (later
            (later
              (later
                (later (later here (start 0 (omega arith) refl)) (try_lock 0 (omega arith) refl))
                (start 1 (omega arith) refl))
              (try_lock 1 (omega arith) refl))
            (mark_lock 1 (omega arith) refl))
          (create 0 100 (omega arith) refl chunk-Outside))
        (publish 0 (omega arith) refl))
      (see 1 1 (omega arith) refl refl),
)

-- Thread 0 ends the construct and comes to the next one, while thread 1 is still in the first.
abbrev ahead : (s : Sharing) × Reach 2 nothing s
unfolding both_inside alloc_work_share ptrlock_try start_ask start_first end_nowait end_count
ahead = (
  _,
  later
      (later
        (later (later both_inside.1 (complete 0 (omega arith) refl)) (start 0 (omega arith) refl))
        (try_lock 0 (omega arith) refl))
      (create 0 100 (omega arith) refl chunk-Outside),
)

next_block : (ahead.0.threads 0).work_share ≡ 2
unfolding ahead
next_block = refl

work_share_start-same_iff_example :
    ((both_inside.0.threads 0).work_share ≡ (both_inside.0.threads 1).work_share)
    ↔ ((both_inside.0.threads 0).round ≡ (both_inside.0.threads 1).round)
unfolding both_inside
work_share_start-same_iff_example =
    work_share_start-same_iff 2 (omega arith) (omega arith) nothing both_inside.0 0 1 both_inside.1
      (omega arith) (omega arith) refl refl

work_share_start-first_example :
    ((ahead.0.threads 1).pc ≢ initialising)
    × ((ahead.0.threads 1).pc ≡ inside
        → ((ahead.0.threads 1).round < (ahead.0.threads 0).round)
          × ((ahead.0.threads 1).work_share ≢ (ahead.0.threads 0).work_share))
unfolding ahead
work_share_start-first_example =
    work_share_start-first 2 (omega arith) (omega arith) nothing ahead.0 0 1 ahead.1 (omega arith)
      (omega arith) (λ e. absurd (omega arith)) refl
