-- ===== src/Examples/Ull.antt =====
-- The loop `for (i = 0; i < 10; i++)` over `unsigned long long`, on two threads.
use libgomp_a.Base.{◌≡◌, arith}
use libgomp_a.Iter.{iter_static_next}
use libgomp_a.Iter.Static.{worker}
use libgomp_a.IterUll.{iter_ull_static_next}
use libgomp_a.IterUll.Refine.{long_loop, ull_loop, result_words, iter_ull_static_next-refines}

iter_ull_static_next-refines_example :
    iter_ull_static_next (ull_loop 0 10 0 3) (worker 2 1 0)
    ≡ result_words (iter_static_next (long_loop 0 10 0 3) (worker 2 1 0))
iter_ull_static_next-refines_example =
    iter_ull_static_next-refines 0 10 0 3 (omega arith) (omega arith) (omega arith) 2 1 0
      (omega arith)
