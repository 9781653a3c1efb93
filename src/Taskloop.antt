-- ===== src/Taskloop.antt =====
-- The TASKLOOP construct for loops over `long`: how taskloop.c cuts the iterations into tasks. Each
-- of its three loops over the tasks gives task `i` the same `start` and `end`, modelled once.
pub mod Count
pub mod Sizes
pub mod Split
pub mod Grain
use libgomp_a.Base.{
  ℕ, zero, suc, ◌+◌, ◌*◌, ◌/◌, ◌%◌, ◌≡◌, Bool, ◌&&◌, true, false, Option, none, some, List, [], ◌∷◌,
  leb, ◌==◌, if◌then◌else◌, ℤ, pos, negsuc, ◌+ℤ◌, ◌-ℤ◌, ◌*ℤ◌, ◌/ℤ◌, ltb_ℤ, leb_ℤ, word, sub_word,
  to_word, to_long,
}

-- `n`, the number of iterations; `none` where the loop has none and the function returns.
unfoldable pub taskloop_count : ℤ → ℤ → ℤ → Option ℕ
taskloop_count start end step =
    let up = ltb_ℤ (pos 0) step in
    let s = if up then step -ℤ pos 1 else step +ℤ pos 1 in
    if (if up then leb_ℤ end start else leb_ℤ start end)
    then none
    else some (to_word ((end -ℤ start +ℤ s) /ℤ step))

-- `num_tasks`, the step of the first tasks, and the number of the task after which the step of a
-- task gets smaller by one iteration.
pub record Plan : Type 0 where
  pub num_tasks : ℕ
  pub task_step : ℤ
  pub nfirst : ℕ

-- `n` iterations on a number of tasks: the first `n % num_tasks` of them have one more.
unfoldable pub even_plan : ℕ → ℕ → ℤ → Plan
even_plan n num_tasks step =
    let div = n / num_tasks in
    let rest = n % num_tasks in
    if rest == 0
    then record { num_tasks = num_tasks; task_step = to_long div *ℤ step; nfirst = n }
    else record {
      num_tasks = num_tasks;
      task_step = to_long div *ℤ step +ℤ step;
      nfirst = sub_word rest 1;
    }

-- With GOMP_TASK_FLAG_GRAINSIZE.
unfoldable pub grain_plan : ℕ → ℕ → ℤ → ℤ → ℤ → Plan
unfolding even_plan
grain_plan n grainsize start end step =
    let num_tasks = n / grainsize in
    if leb num_tasks 1
    then record { num_tasks = 1; task_step = end -ℤ start; nfirst = n }
    else if leb grainsize num_tasks
    then (let mul = word (num_tasks * grainsize) in
        if mul == n
        then record { num_tasks = num_tasks; task_step = to_long grainsize *ℤ step; nfirst = n }
        else record {
          num_tasks = num_tasks;
          task_step = to_long grainsize *ℤ step +ℤ step;
          nfirst = sub_word (sub_word n mul) 1;
        })
    else even_plan n num_tasks step

-- Without it: NUM_TASKS, or as many tasks as the team has threads.
unfoldable pub count_plan : ℕ → ℕ → Option ℕ → ℤ → Plan
unfolding even_plan
count_plan n num_tasks team step =
    let wanted =
      if num_tasks == 0 then elim team [ none ↦ 1 | some threads ↦ threads ] else num_tasks in
    if leb n wanted
    then record { num_tasks = n; task_step = step; nfirst = n }
    else even_plan n wanted step

-- The loop over the tasks, `left` of them from task `i` on: `start` and `end` of each.
unfoldable pub task_ranges : ℕ → ℕ → ℤ → ℤ → ℤ → ℕ → List (ℤ × ℤ)
task_ranges zero i start task_step step nfirst = []
task_ranges (suc left) i start task_step step nfirst =
    let e = start +ℤ task_step in
    (start, e)
    ∷ task_ranges left (suc i) e (if i == nfirst then task_step -ℤ step else task_step) step nfirst

abbrev pub planned : ℤ → ℤ → Plan → List (ℤ × ℤ)
planned start step p = task_ranges p.num_tasks 0 start p.task_step step p.nfirst

-- What can stop `GOMP_taskloop`: the parallel region was cancelled; with GOMP_TASK_FLAG_NOGROUP, the
-- taskgroup of the task was cancelled.
pub record Cancelled : Type 0 where
  pub region : Bool
  pub nogroup : Bool
  pub taskgroup : Bool

-- The ranges of the tasks of `GOMP_taskloop`; `none` where it creates no task.
unfoldable pub taskloop : Cancelled → Option ℕ → Bool → ℕ → ℤ → ℤ → ℤ → Option (List (ℤ × ℤ))
unfolding taskloop_count count_plan grain_plan
taskloop c team grain num_tasks start end step =
    if c.region then none else elim (taskloop_count start end step) [
      | none ↦ none
      | some n ↦
          let plan =
            if grain
            then grain_plan n num_tasks start end step
            else count_plan n num_tasks team step in
          if c.nogroup && c.taskgroup then none else some (planned start step plan)
    ]
