-- ===== src/Taskloop/Grain.antt =====
-- The tasks of a taskloop with the GRAINSIZE clause.
use libgomp_a.Base.{
  ℕ, suc, ◌+◌, ◌-◌, ◌*◌, ◌/◌, ◌%◌, ◌^◌, ◌≤◌, ◌<◌, ◌≡◌, ◌≢◌, ◌⊎◌, inl, inr, ap, ◌∙◌, arith, List, [],
  ◌∷◌, Option, some, ℤ, ◌-ℤ◌, length, All, eq→==, ne→not_==, true, le→leb, lt→not_leb, word,
  sub_word, +ℤ_parts, -ℤ_parts, eq_of_parts, dec_le, ℕ_discrete,
}
use native.Mathlib.Nat.{div-add-mod, mod-lt, mul-le-mul_left, mul-le-mul_right}
use libgomp_a.Taskloop.Count.{IsLoop, IsCount, taskloop_count-IsCount}
use libgomp_a.Taskloop.{Cancelled, taskloop, taskloop_count, task_ranges, grain_plan, planned}
use libgomp_a.Taskloop.Sizes.{blocks, sizes, sum, length-sizes, sum-sizes, All-sizes}
use libgomp_a.Taskloop.Split.{IsCalm, even_plan-sizes, plan_even, plan_rest, long_word}

-- A size that GRAINSIZE allows.
abbrev pub IsGrain : ℕ → ℕ → Type 0
IsGrain grainsize k = (grainsize ≤ k) × (k < 2 * grainsize)

quotient_le : (n g : ℕ) → 1 ≤ g → n / g ≤ n
quotient_le n g h = grind (arith, div-add-mod n g)

small_loop : (T g n : ℕ) → n < T * g + g → T ≤ 1 → n < 2 * g
small_loop T g n h t = grind arith

-- `n` between `T * g` and `(T + 1) * g`, shared out on `T`.
share_ge : (T D g n r : ℕ) → T * D + r ≡ n → r < T → T * g ≤ n → g ≤ D
share_ge T D g n r e h le = elim (dec_le g D) [
  | yes p ↦ p
  | no p ↦ absurd (grind (arith, mul-le-mul_left {m = suc D} {n = g} T (omega arith)))
]

share_lt : (T D g n r : ℕ) → T * D + r ≡ n → n < T * g + g → 2 ≤ T → D < 2 * g
share_lt T D g n r e h t = elim (dec_le (2 * g) D) [
  | yes p ↦ absurd (grind (arith, mul-le-mul_left T p, mul-le-mul_right g t))
  | no p ↦ omega arith
]

share_rest_lt :
    (T D g n r : ℕ) → T * D + r ≡ n → n < T * g + g → 2 ≤ T → T < g → r ≢ 0 → suc D < 2 * g
share_rest_lt T D g n r e h t tg rest = elim (dec_le (2 * g) (suc D)) [
  | yes p ↦ absurd (grind (arith, mul-le-mul_left T p, mul-le-mul_right g t))
  | no p ↦ omega arith
]

module _ (n g : ℕ) (start end step : ℤ) (small : n < 2 ^ 63) (some_grain : 1 ≤ g) where
  -- At least as many tasks as iterations in each: the first tasks take one more.
  plan_wide :
      2 ≤ n / g
      → g ≤ n / g
      → planned start step (grain_plan n g start end step)
        ≡ blocks start step (sizes (n / g) (n - n / g * g) g)
  unfolding grain_plan
  plan_wide two wide =
      let r : n % g < g = mod-lt n some_grain in
      let e : n / g * g + n % g ≡ n = grind (arith, div-add-mod n g) in
      let less : n / g ≤ n = quotient_le n g some_grain in
      elim (ℕ_discrete (n / g * g) n) [
        | yes whole ↦
            rw
              (
                lt→not_leb (n / g) 1 two,
                le→leb g (n / g) wide,
                eq→== (word (n / g * g)) n (omega arith),
                long_word g (omega arith),
              )
              (plan_even (n / g) g n start step (omega arith)
                ∙ ap (λ m. blocks start step (sizes (n / g) m g)) (omega arith))
        | no rest ↦
            rw
              (
                lt→not_leb (n / g) 1 two,
                le→leb g (n / g) wide,
                ne→not_== (word (n / g * g)) n (omega arith),
                long_word g (omega arith),
              )
              (plan_rest (n / g) (n - n / g * g) g (sub_word (sub_word n (word (n / g * g))) 1)
                start step (omega arith) (omega arith))
      ]

  plan_narrow :
      2 ≤ n / g
      → n / g < g
      → planned start step (grain_plan n g start end step)
        ≡ blocks start step (sizes (n / g) (n % (n / g)) (n / (n / g)))
  unfolding grain_plan
  plan_narrow two narrow =
      rw (lt→not_leb (n / g) 1 two, lt→not_leb g (n / g) narrow)
        (even_plan-sizes n (n / g) start step small (omega arith) (quotient_le n g some_grain))

  plan_single : n / g ≤ 1 → planned start step (grain_plan n g start end step) ≡ (start, end) ∷ []
  unfolding grain_plan task_ranges
  plan_single single =
      let d = -ℤ_parts end start in
      let s = +ℤ_parts start (end -ℤ start) in
      rw (le→leb (n / g) 1 single) (ap (λ e. (start, e) ∷ []) (eq_of_parts _ _ (omega arith)))

  wide-IsGrain : 2 ≤ n / g → g ≤ n / g → All (IsGrain g) (sizes (n / g) (n - n / g * g) g)
  wide-IsGrain two wide =
      let r : n % g < g = mod-lt n some_grain in
      let e : n / g * g + n % g ≡ n = grind (arith, div-add-mod n g) in
      All-sizes (IsGrain g) (n / g) (n - n / g * g) g (omega arith, omega arith)
        (elim (ℕ_discrete (n - n / g * g) 0) [
          | yes e ↦ inl e
          | no e ↦ inr (omega arith, omega arith)
        ])

  narrow-IsGrain :
      2 ≤ n / g → n / g < g → All (IsGrain g) (sizes (n / g) (n % (n / g)) (n / (n / g)))
  narrow-IsGrain two narrow =
      let r : n % g < g = mod-lt n some_grain in
      let e : n / g * g + n % g ≡ n = grind (arith, div-add-mod n g) in
      let T = n / g in
      let r' : n % T < T = mod-lt n (omega arith) in
      let e' : T * (n / T) + n % T ≡ n = grind (arith, div-add-mod n T) in
      All-sizes (IsGrain g) T (n % T) (n / T)
        (
          share_ge T (n / T) g n (n % T) e' r' (omega arith),
          share_lt T (n / T) g n (n % T) e' (omega arith) two,
        )
        (elim (ℕ_discrete (n % T) 0) [
          | yes z ↦ inl z
          | no z ↦ inr (
            omega (arith, share_ge T (n / T) g n (n % T) e' r' (omega arith)),
            share_rest_lt T (n / T) g n (n % T) e' (omega arith) two (omega arith) (omega arith),
          )
        ])

  grainsize-counted :
      (c : Cancelled) (team : Option ℕ)
      → IsCalm c
      → taskloop_count start end step ≡ some n
      → ((taskloop c team true g start end step ≡ some ((start, end) ∷ [])) × (n < 2 * g))
        ⊎ ((ks : List ℕ) × (taskloop c team true g start end step ≡ some (blocks start step ks))
            × (length ks ≡ n / g)
            × (sum ks ≡ n)
            × All (IsGrain g) ks)
  unfolding taskloop
  grainsize-counted c team calm e =
      let runs = calm.region_runs in
      let group = calm.taskgroup_runs in
      let r : n % g < g = mod-lt n some_grain in
      let whole : n / g * g + n % g ≡ n = grind (arith, div-add-mod n g) in
      elim (dec_le (n / g) 1) [
        | yes single ↦ inl (
          rw (taskloop, runs, e, group) (ap some (plan_single single)),
          small_loop (n / g) g n (omega arith) single,
        )
        | no several ↦ inr (elim (dec_le g (n / g)) [
          | yes wide ↦ (
            sizes (n / g) (n - n / g * g) g,
            rw (taskloop, runs, e, group) (ap some (plan_wide (omega arith) wide)),
            length-sizes (n / g) (n - n / g * g) g,
            sum-sizes (n / g) (n - n / g * g) g (omega arith) ∙ omega arith,
            wide-IsGrain (omega arith) wide,
          )
          | no narrow ↦ (
            sizes (n / g) (n % (n / g)) (n / (n / g)),
            rw (taskloop, runs, e, group) (ap some (plan_narrow (omega arith) (omega arith))),
            length-sizes (n / g) (n % (n / g)) (n / (n / g)),
            sum-sizes (n / g) (n % (n / g)) (n / (n / g))
                  (omega (arith, mod-lt n {m = n / g} (omega arith)))
                ∙ grind (arith, div-add-mod n (n / g)),
            narrow-IsGrain (omega arith) (omega arith),
          )
        ])
      ]

-- A taskloop with a GRAINSIZE of at least 1 that has an iteration, is in range and is not cancelled
-- gives each task at least that many iterations and less than twice as many, in ranges that follow
-- one another from `start` and have all `n` iterations in all; or the loop has less than twice as
-- many, and there is one task, from `start` to `end`. `n` is how many values of the loop variable,
-- `start` and on by `step`, come before `end`.
pub taskloop-grainsize :
    (c : Cancelled) (team : Option ℕ) (g : ℕ) (start end step : ℤ)
    → IsCalm c
    → IsLoop start end step
    → 1 ≤ g
    → (n : ℕ) × IsCount start end step n
      × (((taskloop c team true g start end step ≡ some ((start, end) ∷ [])) × (n < 2 * g))
          ⊎ ((ks : List ℕ) × (taskloop c team true g start end step ≡ some (blocks start step ks))
              × (length ks ≡ n / g)
              × (sum ks ≡ n)
              × All (IsGrain g) ks))
taskloop-grainsize c team g start end step calm loop h =
    let (n, e, _, small, count) = taskloop_count-IsCount start end step loop in
    (n, count, grainsize-counted n g start end step small h c team calm e)
