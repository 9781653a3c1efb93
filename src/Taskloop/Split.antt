-- ===== src/Taskloop/Split.antt =====
-- The tasks of a taskloop share out its iterations.
use libgomp_a.Base.{
  ℕ, zero, suc, ◌+◌, ◌-◌, ◌*◌, ◌/◌, ◌%◌, ◌^◌, ◌≤◌, ◌<◌, ◌≡◌, inl, inr, refl, sym, ap, ◌∙◌, arith,
  List, ◌&&◌, Option, none, some, ℤ, pos, ◌+ℤ◌, ◌*ℤ◌, length, All, if◌then◌else◌, ◌==◌, eq→==,
  ne→not_==, false, le→leb, lt→not_leb, min, sub_word, to_long, dec_le, ℕ_discrete,
}
use native.Mathlib.Nat.{div-add-mod, mod-lt}
use libgomp_a.Taskloop.Count.{IsLoop, IsCount, taskloop_count-IsCount}
use libgomp_a.Taskloop.{
  Cancelled, taskloop, taskloop_count, task_ranges, even_plan, count_plan, planned,
}
use libgomp_a.Taskloop.Sizes.{
  blocks, sizes, sum, length-sizes, sum-sizes, All-sizes, scale_suc, one_times, task_ranges-same,
  task_ranges-sizes,
}

pub plan_even :
    (T d n : ℕ) (start step : ℤ)
    → T ≤ n
    → task_ranges T 0 start (pos d *ℤ step) step n ≡ blocks start step (sizes T 0 d)
plan_even T d n start step k = task_ranges-same T 0 d n start step (inr (omega arith))

pub plan_rest :
    (T more d nfirst : ℕ) (start step : ℤ)
    → nfirst + 1 ≡ more
    → more < T
    → task_ranges T 0 start (pos d *ℤ step +ℤ step) step nfirst ≡ blocks start step (sizes T more d)
plan_rest T zero d nfirst start step e h = absurd (omega arith)
plan_rest T (suc more) d nfirst start step e h =
    rw (scale_suc d step)
      (task_ranges-sizes T more 0 d nfirst start step (omega arith) (omega arith))

pub long_word : (d : ℕ) → d < 2 ^ 63 → to_long d ≡ pos d
long_word d h = ground arith

sub_word_eq : (a b : ℕ) → b ≤ a → a < 2 ^ 64 → sub_word a b ≡ a - b
sub_word_eq a b h k = ground arith

pub even_plan-sizes :
    (n T : ℕ) (start step : ℤ)
    → n < 2 ^ 63
    → 1 ≤ T
    → T ≤ n
    → planned start step (even_plan n T step) ≡ blocks start step (sizes T (n % T) (n / T))
unfolding even_plan
even_plan-sizes n T start step h t le =
    let r : n % T < T = mod-lt n t in
    let d : n / T < 2 ^ 63 = grind (arith, div-add-mod n T) in
    elim (ℕ_discrete (n % T) 0) [
      | yes e ↦
          rw (eq→== (n % T) 0 e, long_word (n / T) d)
            (plan_even T (n / T) n start step le
              ∙ ap (λ m. blocks start step (sizes T m (n / T))) (sym e))
      | no e ↦
          rw (ne→not_== (n % T) 0 e, long_word (n / T) d)
            (plan_rest T (n % T) (n / T) (sub_word (n % T) 1) start step (omega arith) r)
    ]

-- How many tasks a taskloop without GRAINSIZE asks for.
abbrev pub wanted : ℕ → Option ℕ → ℕ
wanted num_tasks team =
    if num_tasks == 0 then elim team [ none ↦ 1 | some threads ↦ threads ] else num_tasks

count_plan-few :
    (n num_tasks : ℕ) (team : Option ℕ) (step : ℤ)
    → n ≤ wanted num_tasks team
    → count_plan n num_tasks team step ≡ record { num_tasks = n; task_step = step; nfirst = n }
unfolding count_plan
count_plan-few n num_tasks team step h = rw (le→leb n (wanted num_tasks team) h) refl

count_plan-many :
    (n num_tasks : ℕ) (team : Option ℕ) (step : ℤ)
    → wanted num_tasks team < n
    → count_plan n num_tasks team step ≡ even_plan n (wanted num_tasks team) step
unfolding count_plan
count_plan-many n num_tasks team step h = rw (lt→not_leb n (wanted num_tasks team) h) refl

one_each :
    (n : ℕ) (start step : ℤ)
    → planned start step (record { num_tasks = n; task_step = step; nfirst = n })
      ≡ blocks start step (sizes n 0 1)
one_each n start step =
    ap (λ t. task_ranges n 0 start t step n) (sym (one_times step))
    ∙ plan_even n 1 n start step (omega arith)

-- What the sizes of the tasks of `n` iterations have in common.
abbrev pub IsShare : ℕ → ℕ → ℕ → Type 0
IsShare n tasks k = (1 ≤ k) × (k * tasks < n + tasks) × (n < k * tasks + tasks)

even-IsShare : (n T : ℕ) → 1 ≤ T → T ≤ n → All (IsShare n T) (sizes T (n % T) (n / T))
even-IsShare n T t le =
    let r : n % T < T = mod-lt n t in
    All-sizes (IsShare n T) T (n % T) (n / T)
      (
        grind (arith, div-add-mod n T, r),
        grind (arith, div-add-mod n T, r),
        grind (arith, div-add-mod n T, r),
      )
      (elim (ℕ_discrete (n % T) 0) [
        | yes e ↦ inl e
        | no e ↦ inr (
          grind (arith, div-add-mod n T, r),
          grind (arith, div-add-mod n T, r, e),
          grind (arith, div-add-mod n T, r),
        )
      ])

-- The construct goes on to make its tasks.
pub record IsCalm (c : Cancelled) : Type 0 where
  pub region_runs : c.region ≡ false
  pub taskgroup_runs : (c.nogroup && c.taskgroup) ≡ false

num_tasks-counted :
    (c : Cancelled) (team : Option ℕ) (num_tasks n : ℕ) (start end step : ℤ)
    → IsCalm c
    → taskloop_count start end step ≡ some n
    → 1 ≤ n
    → n < 2 ^ 63
    → 1 ≤ wanted num_tasks team
    → (ks : List ℕ) × (taskloop c team false num_tasks start end step ≡ some (blocks start step ks))
      × (length ks ≡ min (wanted num_tasks team) n)
      × (sum ks ≡ n)
      × All (IsShare n (length ks)) ks
unfolding taskloop
num_tasks-counted c team num_tasks n start end step calm e n1 h t =
    let T = wanted num_tasks team in
    let runs = calm.region_runs in
    let group = calm.taskgroup_runs in
    elim (dec_le n T) [
      | yes few ↦
          let len = length-sizes n 0 1 in
          (
            sizes n 0 1,
            rw (taskloop, runs, e, group, count_plan-few n num_tasks team step few)
                (ap some (one_each n start step)),
            omega arith,
            omega (arith, sum-sizes n 0 1 (omega arith)),
            rw len
                (All-sizes (IsShare n n) n 0 1 (omega arith, omega arith, omega arith) (inl refl)),
          )
      | no many ↦
          let r : n % T < T = mod-lt n t in
          let len = length-sizes T (n % T) (n / T) in
          (
            sizes T (n % T) (n / T),
            rw (taskloop, runs, e, group, count_plan-many n num_tasks team step (omega arith))
                (ap some (even_plan-sizes n T start step h t (omega arith))),
            omega arith,
            grind (arith, sum-sizes T (n % T) (n / T) (omega arith), div-add-mod n T),
            rw len (even-IsShare n T t (omega arith)),
          )
    ]

-- A taskloop without GRAINSIZE that has an iteration, is in range and is not cancelled makes
-- NUM_TASKS tasks (by default one for each thread), or one for each iteration if there are fewer.
-- Their ranges follow one another from `start`, have all `n` iterations in all, each at least one,
-- and are balanced; and `n` is how many values of the loop variable, `start` and on by `step`, come
-- before `end`.
pub taskloop-num_tasks :
    (c : Cancelled) (team : Option ℕ) (num_tasks : ℕ) (start end step : ℤ)
    → IsCalm c
    → IsLoop start end step
    → 1 ≤ wanted num_tasks team
    → (n : ℕ) × IsCount start end step n
      × ((ks : List ℕ) × (taskloop c team false num_tasks start end step
            ≡ some (blocks start step ks))
          × (length ks ≡ min (wanted num_tasks team) n)
          × (sum ks ≡ n)
          × All (IsShare n (length ks)) ks)
taskloop-num_tasks c team num_tasks start end step calm loop t =
    let (n, e, some_iteration, small, count) = taskloop_count-IsCount start end step loop in
    (n, count, num_tasks-counted c team num_tasks n start end step calm e some_iteration small t)
