-- ===== src/Examples/Regions.antt =====
-- Parallel regions, sections and single constructs.
use libgomp_a.Base.{
  ℕ, ◌+◌, ◌-◌, ◌≤◌, ◌≡◌, ◌↔◌, refl, arith, [], ◌∷◌, map, some, true, false, Option,
}
use libgomp_a.Parallel.{
  Icv, Origin, reserve, within_limit, first_region, resolve_num_threads, arinc_clamp, parallel_end,
}
use libgomp_a.Parallel.Bounds.{IsTeam, resolve_num_threads-IsTeam}
use libgomp_a.Parallel.Group.{
  Group, Reach, start, later, open_outer, open_inner, extra, outer_extra, parallel-within_limit,
}
use libgomp_a.Parallel.Clamp.{parallel-restores}
use libgomp_a.Sections.{sections_init}
use libgomp_a.Sections.Numbers.{sections_run, numbers, sections_next-numbers}
use libgomp_a.Single.{single_start}
use libgomp_a.Single.Winner.{
  Team, countdown, single_start-one, Reach as SingleReach, start as single_begin,
  later as single_later,
}
use libgomp_a.Arinc.{arinc_compare_and_swap}

abbrev icv : Icv
icv = record { nthreads_var = 4; thread_limit_var = 5; dyn_var = true; nest_var = true }

abbrev origin : Origin
origin = record { active_level = 1; max_active_levels = 3; in_team = true; busy = some 3 }

resolve_num_threads-IsTeam_example :
    (n : ℕ) × (after : Option ℕ) × (resolve_num_threads icv origin 8 4 0 ≡ some (n, after))
    × IsTeam icv 8 4 n
resolve_num_threads-IsTeam_example =
    resolve_num_threads-IsTeam icv origin 8 4 0
      (record {
        some_threads = omega arith;
        some_limit = omega arith;
        some_dyn = omega arith;
        limit_in = omega arith;
        threads_in = omega arith;
        busy_in = λ b e. ground (arith, e);
      })
      (omega arith)

-- With a limit of five threads: an outer team of three, and a nested one that asks for four.
abbrev nested : (g : Group) × Reach 5 g
unfolding reserve within_limit first_region arinc_clamp
nested = (
  _,
  later (later start (open_outer 3 (omega arith) refl))
      (open_inner 4 3 (omega arith) (omega arith) refl refl),
)

nested_teams : (nested.0.outer ≡ some 3) × (nested.0.inner ≡ 3 ∷ []) × (nested.0.busy ≡ 5)
unfolding reserve within_limit first_region arinc_clamp
nested_teams = (refl, refl, refl)

parallel-within_limit_example :
    (1 + outer_extra nested.0.outer + extra nested.0.inner ≤ nested.0.busy) × (nested.0.busy ≤ 5)
parallel-within_limit_example = parallel-within_limit 5 (omega arith) (omega arith) nested.1

-- The first region fixed two threads; a nested region that gets three is cut, and the counter
-- stays at 4 when it ends.
parallel-restores_example :
    (parallel_end 8 true (arinc_clamp (record { first = false; max_threads = 2 }) 3).0 5
      ≡ 3 + (3 - (arinc_clamp (record { first = false; max_threads = 2 }) 3).0))
    × ((parallel_end 8 true (arinc_clamp (record { first = false; max_threads = 2 }) 3).0 5 ≡ 3)
        ↔ ((arinc_clamp (record { first = false; max_threads = 2 }) 3).0 ≡ 3))
unfolding reserve within_limit
parallel-restores_example =
    parallel-restores 8 3 3 3 (record { first = false; max_threads = 2 }) (omega arith)
      (omega arith) (omega arith) (omega arith) (omega arith) (λ e. omega arith) refl

sections_next-numbers_example : sections_run 5 (sections_init 3) ≡ numbers 5 3 1
sections_next-numbers_example = sections_next-numbers 3 5 (omega arith) (omega arith)

three_sections : numbers 5 3 1 ≡ 1 ∷ 2 ∷ 3 ∷ 0 ∷ 0 ∷ []
unfolding numbers
three_sections = refl

-- Thread 0 and thread 1 at their first SINGLE construct.
abbrev both_passed : (t : Team) × SingleReach t
unfolding single_start arinc_compare_and_swap
both_passed = (_, single_later 1 (single_later 0 single_begin (omega arith)) (omega arith))

single_start-one_example :
    ((i : ℕ) → both_passed.0.counts i ≤ both_passed.0.count)
    × (map (λ p. p.0) both_passed.0.executed ≡ countdown both_passed.0.count)
single_start-one_example = single_start-one both_passed.1
