-- ===== src/Sections/Fast.antt =====
-- The sections that the threads of a team get through the fast path of `gomp_iter_dynamic_next`.
use libgomp_a.Base.{ℕ, ◌^◌, ◌≤◌, ◌<◌, refl, arith, pos, negsuc, ◌≤ℤ◌, ◌+ℤ◌, uint_max, long_max}
use libgomp_a.Claim.{Fetches, Fetched}
use libgomp_a.Claim.Dynamic.{Replays}
use libgomp_a.Claim.FastUp.{fetched-Replays}
use libgomp_a.Loop.Init.{settled}
use libgomp_a.Sections.{sections_init}

-- The fast path, which `gomp_sections_init` always chooses, is sound for an `unsigned` count of sections
-- and of threads: however the threads call, each until it is turned away, `ws->next` stays a `long`
-- and the blocks are those of the locked function.
pub sections_init-fast :
    (count threads : ℕ) (s : Fetches)
    → count ≤ uint_max
    → threads < 2 ^ 32
    → Fetched (sections_init count) threads s
    → Replays
        (sections_init count)
        s.handed
        (record (sections_init count) { next = settled (pos 1) (sections_init count) s.next })
      × (negsuc long_max ≤ℤ s.next)
      × (s.next ≤ℤ pos long_max)
unfolding sections_init ◌+ℤ◌
sections_init-fast count threads s small team r =
    fetched-Replays (sections_init count) threads 0 (omega arith) refl (omega arith) (ground arith)
      (omega arith) (ground arith) s r
