-- ===== src/Examples/Sections.antt =====
-- One section, and two calls for it.
use libgomp_a.Base.{refl, arith, pos, negsuc, ◌≤ℤ◌, ◌+ℤ◌, long_max}
use libgomp_a.Claim.{fetch_block, fetch_add, Fetches, Fetched, begun, then_call, granted, refused}
use libgomp_a.Claim.Dynamic.{Replays}
use libgomp_a.Loop.Init.{settled}
use libgomp_a.Sections.{sections_init}
use libgomp_a.Sections.Fast.{sections_init-fast}

abbrev both_called : (s : Fetches) × Fetched (sections_init 1) 2 s
unfolding sections_init fetch_block fetch_add ◌+ℤ◌
both_called =
    (_, then_call (then_call begun (granted (omega arith) refl)) (refused (omega arith) refl))

sections_init-fast_example :
    Replays
      (sections_init 1)
      both_called.0.handed
      (record (sections_init 1) { next = settled (pos 1) (sections_init 1) both_called.0.next })
    × (negsuc long_max ≤ℤ both_called.0.next)
    × (both_called.0.next ≤ℤ pos long_max)
sections_init-fast_example =
    sections_init-fast 1 2 both_called.0 (omega arith) (omega arith) both_called.1
