-- ===== src/Examples/Iter.antt =====
-- Loops of 10 iterations on a team of four.
use libgomp_a.Base.{
  ◌<◌, ◌≡◌, ◌↔◌, refl, arith, ℤ, pos, negsuc, some, ulong_max, ◌/ℤ◌, ◌+ℤ◌, ◌-ℤ◌, ◌*ℤ◌,
}
use libgomp_a.Iter.{
  Schedule, WorkShare, iter_static_next, iteration_count, iteration_value, static_whole,
  static_chunk, static_block, chunk_block,
}
use libgomp_a.Iter.Blocks.{Owner, chunk_thread, chunk_trip}
use libgomp_a.Iter.Count.{Before, iteration_count_iff}
use libgomp_a.Iter.Values.{Executes}
use libgomp_a.Iter.Static.{worker, iter_static_next-whole, iter_static_next-chunk}

-- `for (i = 20; i > 0; i -= 2)`, for the given chunk size.
abbrev down : ℤ → WorkShare
down chunk = record {
  sched = Schedule.static;
  mode = 0;
  chunk_size = chunk;
  end = pos 0;
  incr = negsuc 1;
  next = pos 20;
}

down_count : iteration_count (down (pos 0)) ≡ 10
unfolding iteration_count ◌/ℤ◌ ◌+ℤ◌ ◌-ℤ◌
down_count = refl

first_of_four :
    iter_static_next (down (pos 0)) (worker 4 0 0)
    ≡ record { ret = pos 0; block = some (pos 20, pos 14); trip = 1 }
unfolding iter_static_next static_whole static_block iteration_count iteration_value ◌/ℤ◌ ◌+ℤ◌ ◌-ℤ◌
    ◌*ℤ◌
first_of_four = refl

last_of_four :
    iter_static_next (down (pos 3)) (worker 4 3 0)
    ≡ record { ret = pos 0; block = some (pos 2, pos 0); trip = ulong_max }
unfolding iter_static_next static_chunk chunk_block iteration_count iteration_value ◌/ℤ◌ ◌+ℤ◌ ◌-ℤ◌
    ◌*ℤ◌
last_of_four = refl

iter_static_next-whole_example :
    Owner
      (λ i.
        Executes
          (iter_static_next (down (pos 0)) (worker 4 i 0))
          (negsuc 1)
          (iteration_value (down (pos 0)) 7))
      4
unfolding iteration_count ◌/ℤ◌ ◌+ℤ◌ ◌-ℤ◌
iter_static_next-whole_example =
    iter_static_next-whole (down (pos 0)) 4 7 (omega arith) refl (ground arith) (ground arith)
      (ground arith)

iter_static_next-chunk_example :
    Executes
      (iter_static_next (down (pos 3)) (worker 4 2 0))
      (negsuc 1)
      (iteration_value (down (pos 3)) 7)
    ↔ ((2 ≡ chunk_thread 4 3 7) × (0 ≡ chunk_trip 4 3 7))
unfolding iteration_count ◌/ℤ◌ ◌+ℤ◌ ◌-ℤ◌
iter_static_next-chunk_example =
    iter_static_next-chunk (down (pos 3)) 4 2 0 2 7 (omega arith) (omega arith) refl (ground arith)
      (ground arith) (ground arith) (ground arith)

iteration_count_iff_example :
    (9 < iteration_count (down (pos 0)))
    ↔ Before (negsuc 1) (iteration_value (down (pos 0)) 9) (pos 0)
iteration_count_iff_example =
    iteration_count_iff (down (pos 0)) (negsuc 1) 9 refl (ground arith) (ground arith)
      (ground arith) (omega arith)
