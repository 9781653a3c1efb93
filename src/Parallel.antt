-- ===== src/Parallel.antt =====
-- The PARALLEL construct: how many threads a region gets, and the count of busy threads of its
-- contention group (parallel.c, with `USE_ARINC653` defined). `gomp_dynamic_max_threads`, which
-- asks the system for its load, is the argument `dyn`.
pub mod Bounds
pub mod Group
pub mod Clamp
use libgomp_a.Base.{
  ℕ, ◌+◌, ◌≡◌, Bool, true, false, not, ◌&&◌, ◌||◌, Option, none, some, ltb, leb, ◌==◌,
  if◌then◌else◌, word, sub_word, u32, uint_max,
}

-- `struct gomp_task_icv`: the variables that choose the size of a team.
pub record Icv : Type 0 where
  pub nthreads_var : ℕ
  pub thread_limit_var : ℕ
  pub dyn_var : Bool
  pub nest_var : Bool

-- What `gomp_resolve_num_threads` reads of the thread and of `gomp_max_active_levels_var`: whether
-- it has a team, and `threads_busy` of its pool, if it has one.
pub record Origin : Type 0 where
  pub active_level : ℕ
  pub max_active_levels : ℕ
  pub in_team : Bool
  pub busy : Option ℕ

-- `max_num_threads`, before the limit on the contention group.
unfoldable pub max_num_threads : Icv → ℕ → ℕ → ℕ → ℕ
max_num_threads icv dyn specified count =
    let requested = if specified == 0 then u32 icv.nthreads_var else specified in
    if icv.dyn_var
    then (let most = if ltb dyn requested then dyn else requested in
        if not (count == 0) && ltb count most then count else most)
    else requested

-- `num_threads` of the loop with the compare and swap, from the value of `threads_busy` it read.
unfoldable pub within_limit : ℕ → ℕ → ℕ → ℕ
within_limit limit most seen =
    let free = word (sub_word limit seen + 1) in if ltb free most then u32 free else most

-- One turn of that loop: it read `seen` and finds `busy` when it comes to the compare and swap.
-- `none` where it must try again, or `num_threads` and the new `threads_busy`.
unfoldable pub reserve : ℕ → ℕ → ℕ → ℕ → Option (ℕ × ℕ)
unfolding within_limit
reserve limit most seen busy =
    if busy == seen
    then (let n = within_limit limit most seen in some (n, sub_word (word (busy + n)) 1))
    else none

-- A contention group of one thread: no need for atomicity.
unfoldable pub first_region : ℕ → ℕ → ℕ
first_region limit most = if ltb limit most then limit else most

-- The last part of the routine: `num_threads`, and `threads_busy` after it.
unfoldable pub limited : ℕ → ℕ → Bool → Option ℕ → Option (ℕ × Option ℕ)
unfolding first_region
limited limit most in_team none = some (first_region limit most, none)
limited limit most false (some busy) =
    some (first_region limit most, some (first_region limit most))
limited limit most true (some busy) = elim (reserve limit most busy busy) [
  | none ↦ none
  | some (n, after) ↦ some (n, some after)
]

-- Whether the region is serial whatever the limits are.
unfoldable pub serial : Icv → Origin → ℕ → Bool
serial icv thr specified =
    specified == 1
    || (leb 1 thr.active_level && not icv.nest_var)
    || leb thr.max_active_levels thr.active_level

-- `gomp_resolve_num_threads`, undisturbed by other threads.
unfoldable pub resolve_num_threads : Icv → Origin → ℕ → ℕ → ℕ → Option (ℕ × Option ℕ)
unfolding serial max_num_threads limited
resolve_num_threads icv thr dyn specified count =
    if serial icv thr specified
    then some (1, thr.busy)
    else let most = max_num_threads icv dyn specified count in
      if icv.thread_limit_var == uint_max || most == 1
      then some (most, thr.busy)
      else limited icv.thread_limit_var most thr.in_team thr.busy

-- The globals `FIRST` and `ARINC_MAX_THREADS`.
pub record Arinc : Type 0 where
  pub first : Bool
  pub max_threads : ℕ

-- The part of `GOMP_parallel` under `USE_ARINC653`: the first region fixes the most threads that
-- a region gets.
unfoldable pub arinc_clamp : Arinc → ℕ → ℕ × Arinc
arinc_clamp a num_threads =
    let fixed = if a.first then record { first = false; max_threads = num_threads } else a in
    (if ltb fixed.max_threads num_threads then fixed.max_threads else num_threads, fixed)

-- `threads_busy` after `GOMP_parallel_end` of a team of `threads`; `nested` says that the thread
-- is still in a team then.
unfoldable pub parallel_end : ℕ → Bool → ℕ → ℕ → ℕ
parallel_end limit nested threads busy =
    if limit == uint_max
    then busy
    else if ltb 1 threads
    then (if nested then word (busy + sub_word 1 threads) else 1)
    else busy
