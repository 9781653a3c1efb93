-- ===== src/Examples/Taskloop.antt =====
-- A taskloop over `for (i = 0; i < 20; i += 2)`.
use libgomp_a.Base.{
  ℕ, ◌/◌, ◌*◌, ◌<◌, ◌≡◌, ◌⊎◌, refl, arith, List, [], ◌∷◌, some, none, true, false, pos, length, All,
  min, ◌+ℤ◌, ◌-ℤ◌, ◌*ℤ◌, ◌/ℤ◌,
}
use libgomp_a.Taskloop.Count.{IsLoop, IsCount}
use libgomp_a.Taskloop.{Cancelled, taskloop, taskloop_count, count_plan, even_plan, task_ranges}
use libgomp_a.Taskloop.Sizes.{blocks, sum}
use libgomp_a.Taskloop.Split.{wanted, IsCalm, IsShare, taskloop-num_tasks}
use libgomp_a.Taskloop.Grain.{IsGrain, taskloop-grainsize}

abbrev calm : Cancelled
calm = record { region = false; nogroup = true; taskgroup = false }

calm-IsCalm : IsCalm calm
calm-IsCalm = record { region_runs = refl; taskgroup_runs = refl }

evens : IsLoop (pos 0) (pos 20) (pos 2)
evens = record { steps = ground arith; ahead = ground arith; room = omega arith }

-- The last task of a loop whose length is no multiple of its step has the last iteration.
not_even :
    taskloop calm none false 2 (pos 0) (pos 10) (pos 3)
    ≡ some ((pos 0, pos 6) ∷ (pos 6, pos 12) ∷ [])
unfolding taskloop taskloop_count count_plan even_plan task_ranges ◌+ℤ◌ ◌-ℤ◌ ◌/ℤ◌ ◌*ℤ◌
not_even = refl

cancelled_group :
    taskloop (record calm { taskgroup = true }) none false 3 (pos 0) (pos 20) (pos 2) ≡ none
unfolding taskloop taskloop_count ◌+ℤ◌ ◌-ℤ◌ ◌/ℤ◌
cancelled_group = refl

three_tasks :
    taskloop calm none false 3 (pos 0) (pos 20) (pos 2)
    ≡ some ((pos 0, pos 8) ∷ (pos 8, pos 14) ∷ (pos 14, pos 20) ∷ [])
unfolding taskloop taskloop_count count_plan even_plan task_ranges ◌+ℤ◌ ◌-ℤ◌ ◌/ℤ◌ ◌*ℤ◌
three_tasks = refl

taskloop-num_tasks_example :
    (n : ℕ) × IsCount (pos 0) (pos 20) (pos 2) n
    × ((ks : List ℕ) × (taskloop calm none false 3 (pos 0) (pos 20) (pos 2)
          ≡ some (blocks (pos 0) (pos 2) ks))
        × (length ks ≡ min (wanted 3 none) n)
        × (sum ks ≡ n)
        × All (IsShare n (length ks)) ks)
taskloop-num_tasks_example =
    taskloop-num_tasks calm none 3 (pos 0) (pos 20) (pos 2) calm-IsCalm evens (omega arith)

taskloop-grainsize_example :
    (n : ℕ) × IsCount (pos 0) (pos 20) (pos 2) n
    × (((taskloop calm none true 4 (pos 0) (pos 20) (pos 2) ≡ some ((pos 0, pos 20) ∷ []))
          × (n < 2 * 4))
        ⊎ ((ks : List ℕ) × (taskloop calm none true 4 (pos 0) (pos 20) (pos 2)
              ≡ some (blocks (pos 0) (pos 2) ks))
            × (length ks ≡ n / 4)
            × (sum ks ≡ n)
            × All (IsGrain 4) ks))
taskloop-grainsize_example =
    taskloop-grainsize calm none 4 (pos 0) (pos 20) (pos 2) calm-IsCalm evens (omega arith)
