-- ===== src/Parallel/Clamp.antt =====
-- `GOMP_parallel` under `USE_ARINC653` cuts a team that `gomp_resolve_num_threads` has counted.
use libgomp_a.Base.{ℕ, ◌+◌, ◌-◌, ◌≤◌, ◌<◌, ◌≡◌, arith, true, false, some, uint_max, ◌↔◌}
use libgomp_a.Parallel.{reserve, Arinc, arinc_clamp, parallel_end}
use libgomp_a.Parallel.Bounds.{reserve-bounds}

clamp-bounds :
    (a : Arinc) (m : ℕ)
    → 1 ≤ m
    → (a.first ≡ false → 1 ≤ a.max_threads)
    → (1 ≤ (arinc_clamp a m).0) × ((arinc_clamp a m).0 ≤ m)
unfolding arinc_clamp
clamp-bounds a m h1 h2 = ground arith

end-busy :
    (limit n m busy after : ℕ)
    → limit < uint_max
    → 1 ≤ n
    → n ≤ m
    → 1 ≤ busy
    → after + 1 ≡ busy + m
    → after ≤ limit
    → parallel_end limit true n after ≡ busy + (m - n)
unfolding parallel_end
end-busy limit n m busy after h1 h2 h3 h4 h5 h6 = ground arith

-- With a thread limit set and the counter in it, a nested region that starts and ends leaves
-- `threads_busy` higher by the threads that the ARINC 653 limit took from its team: the counter is
-- restored if and only if the team was not cut.
pub parallel-restores :
    (limit most seen busy : ℕ) (a : Arinc) {m after : ℕ}
    → limit < uint_max
    → 1 ≤ most
    → most ≤ uint_max
    → 1 ≤ busy
    → busy ≤ limit
    → (a.first ≡ false → 1 ≤ a.max_threads)
    → reserve limit most seen busy ≡ some (m, after)
    → (parallel_end limit true (arinc_clamp a m).0 after ≡ busy + (m - (arinc_clamp a m).0))
      × ((parallel_end limit true (arinc_clamp a m).0 after ≡ busy) ↔ ((arinc_clamp a m).0 ≡ m))
parallel-restores limit most seen busy a {m} {after} h1 h2 h3 h4 h5 h6 e =
    let (m1, m2, m3, m4) = reserve-bounds limit most seen busy (omega arith) h2 h4 h5 h3 e in
    let (n1, n2) = clamp-bounds a m m1 h6 in
    let back = end-busy limit (arinc_clamp a m).0 m busy after h1 n1 n2 h4 m3 m4 in
    (back, (λ r. omega arith, λ r. omega arith))
