-- ===== src/Examples/Loop.antt =====
-- Dynamic loops as `gomp_loop_init` sets them up, plain and ordered.
use libgomp_a.Base.{
  ◌≡◌, refl, arith, [], ◌∷◌, some, true, false, pos, negsuc, ◌+ℤ◌, ◌-ℤ◌, ◌*ℤ◌, ◌≤ℤ◌, long_max,
}
use libgomp_a.Iter.{Schedule, WorkShare, iter_dynamic_next_locked}
use libgomp_a.Claim.{fetch_block, fetch_add, Fetches, Fetched, begun, then_call, granted, refused}
use libgomp_a.Claim.Dynamic.{Replays}
use libgomp_a.Loop.{LoopResult, dynamic_mode, loop_init, too_wide}
use libgomp_a.Loop.Init.{dynamic_loop, settled, loop_init-fast}
use libgomp_a.Loop.InOrder.{ordered_dynamic_next, line_after, ordered_dynamic_next-Holds}
use libgomp_a.Ordered.{Ordered}
use libgomp_a.Ordered.Queue.{Holds}

abbrev blank : WorkShare
blank = record {
  sched = Schedule.dynamic;
  mode = 0;
  chunk_size = pos 0;
  end = pos 0;
  incr = pos 0;
  next = pos 0;
}

-- `for (i = 0; i < 5; i += 2)` in chunks of two iterations, on two threads.
abbrev small_loop : WorkShare
small_loop = dynamic_loop blank 2 (pos 0) (pos 5) 1 (pos 2)

fast : small_loop.mode ≡ 1
unfolding loop_init dynamic_mode too_wide ◌*ℤ◌ ◌-ℤ◌
fast = refl

abbrev two_fetched : (s : Fetches) × Fetched small_loop 2 s
unfolding loop_init fetch_block fetch_add ◌*ℤ◌ ◌+ℤ◌
two_fetched = (
  _,
  then_call (then_call (then_call begun (granted (omega arith) refl)) (granted (omega arith) refl))
      (refused (omega arith) refl),
)

loop_init-fast_example :
    Replays small_loop two_fetched.0.handed
      (record small_loop { next = settled (pos 2) small_loop two_fetched.0.next })
    × (negsuc long_max ≤ℤ two_fetched.0.next)
    × (two_fetched.0.next ≤ℤ pos long_max)
loop_init-fast_example =
    loop_init-fast blank 2 (pos 0) (pos 5) 1 (pos 2) two_fetched.0 (ground arith) (omega arith)
      (omega arith) (omega arith) fast two_fetched.1

-- Thread 1 is inside the ordered section and thread 0 waits behind it.
abbrev queue : Ordered
queue = record { team_ids = 1 ∷ 0 ∷ []; num_used = 2; owner = 1; cur = 0; release = λ _. 0 }

queue-Holds : Holds 2 queue (1 ∷ 0 ∷ []) true
queue-Holds = record {
  size = refl;
  cur_in = omega arith;
  used = refl;
  room = omega arith;
  ids = refl;
  tokens = λ i. refl;
  owner = refl;
}

ordered_dynamic_next-Holds_example :
    (r : LoopResult) × (ordered_dynamic_next small_loop
        (record { team = some 2; team_id = 1; static_trip = 0 })
        queue
      ≡ some r)
    × ((r.block, r.ws) ≡ iter_dynamic_next_locked small_loop)
    × Holds 2 r.ordered (line_after 1 r.block (0 ∷ [])) false
ordered_dynamic_next-Holds_example =
    ordered_dynamic_next-Holds 2 (omega arith) (omega arith) 1 0 small_loop (omega arith)
      queue-Holds
