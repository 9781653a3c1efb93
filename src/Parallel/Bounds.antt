-- ===== src/Parallel/Bounds.antt =====
-- How many threads `gomp_resolve_num_threads` can answer.
use libgomp_a.Base.{
  ℕ, ◌+◌, ◌≤◌, ◌≡◌, ◌⊎◌, refl, arith, Bool, true, false, Bool-cases, inl, inr, Option, none, some,
  if◌then◌else◌, ◌==◌, ◌||◌, uint_max, word, sub_word,
}
use libgomp_a.Parallel.{
  Icv, Origin, max_num_threads, within_limit, reserve, first_region, limited, serial,
  resolve_num_threads,
}

-- `nthreads-var` and the thread limit are numbers of threads in the range of `unsigned`, and
-- `threads_busy` counts at least this thread.
pub record IsSane (icv : Icv) (thr : Origin) (dyn : ℕ) : Type 0 where
  pub some_threads : 1 ≤ icv.nthreads_var
  pub some_limit : 1 ≤ icv.thread_limit_var
  pub some_dyn : 1 ≤ dyn
  pub limit_in : icv.thread_limit_var ≤ uint_max
  pub threads_in : icv.nthreads_var ≤ uint_max
  pub busy_in : (b : ℕ) → thr.busy ≡ some b → (1 ≤ b) × (b ≤ icv.thread_limit_var)

-- A successful compare and swap takes between one and `most` threads, no more than the limit
-- leaves room for, and counts them.
pub reserve-bounds :
    (limit most seen busy : ℕ) {n after : ℕ}
    → limit ≤ uint_max
    → 1 ≤ most
    → 1 ≤ busy
    → busy ≤ limit
    → most ≤ uint_max
    → reserve limit most seen busy ≡ some (n, after)
    → (1 ≤ n) × (n ≤ most) × (after + 1 ≡ busy + n) × (after ≤ limit)
unfolding within_limit reserve
reserve-bounds limit most seen busy hl hm hb le hu e = ground (arith, e)

-- What a region asks for: its NUM_THREADS clause, or `nthreads-var`.
abbrev requested : Icv → ℕ → ℕ
requested icv specified = if specified == 0 then icv.nthreads_var else specified

-- The answer of `gomp_resolve_num_threads` is a team of at least one thread, and not more than the
-- region asks for, than the dynamic adjustment allows, and than the limit of the contention group.
pub record IsTeam (icv : Icv) (dyn specified n : ℕ) : Type 0 where
  pub some_thread : 1 ≤ n
  pub asked_for : n ≤ requested icv specified
  pub adjusted : (icv.dyn_var ≡ false) ⊎ (n ≤ dyn) ⊎ (n ≡ 1)
  pub in_limit : n ≤ icv.thread_limit_var

max-bounds :
    (icv : Icv) (dyn specified count : ℕ)
    → 1 ≤ icv.nthreads_var
    → icv.nthreads_var ≤ uint_max
    → 1 ≤ dyn
    → (1 ≤ max_num_threads icv dyn specified count)
      × (max_num_threads icv dyn specified count ≤ requested icv specified)
      × ((icv.dyn_var ≡ false) ⊎ (max_num_threads icv dyn specified count ≤ dyn))
unfolding max_num_threads
max-bounds icv dyn specified count hn hu hd = elim (Bool-cases icv.dyn_var) [
  | inl on ↦ (ground (arith, on), ground (arith, on), inr (ground (arith, on)))
  | inr off ↦ (ground (arith, off), ground (arith, off), inl off)
]

-- A compare and swap that finds the value that was read succeeds.
pub reserve-taken :
    (limit most busy : ℕ)
    → reserve limit most busy busy
      ≡ some (within_limit limit most busy, sub_word (word (busy + within_limit limit most busy)) 1)
unfolding reserve
reserve-taken limit most busy = ground arith

limited-total :
    (limit most : ℕ) (in_team : Bool) (busy : Option ℕ)
    → 1 ≤ limit
    → limit ≤ uint_max
    → 1 ≤ most
    → most ≤ uint_max
    → ((b : ℕ) → busy ≡ some b → (1 ≤ b) × (b ≤ limit))
    → (n : ℕ) × (after : Option ℕ) × (limited limit most in_team busy ≡ some (n, after))
      × (1 ≤ n)
      × (n ≤ most)
      × (n ≤ limit)
unfolding limited first_region
limited-total limit most in_team none h1 h2 h3 h4 h =
    (first_region limit most, none, refl, ground arith, ground arith, ground arith)
limited-total limit most false (some busy) h1 h2 h3 h4 h = (
  first_region limit most,
  some (first_region limit most),
  refl,
  ground arith,
  ground arith,
  ground arith,
)
limited-total limit most true (some busy) h1 h2 h3 h4 h =
    let (b1, b2) = h busy refl in
    let n = within_limit limit most busy in
    let taken = reserve-taken limit most busy in
    let (x, y, z, w) = reserve-bounds limit most busy busy h2 h3 b1 b2 h4 taken in
    (n, some (sub_word (word (busy + n)) 1), rw (limited, taken) refl, x, y, ground arith)

smaller :
    (icv : Icv) (dyn : ℕ) {most n : ℕ}
    → (icv.dyn_var ≡ false) ⊎ (most ≤ dyn)
    → n ≤ most
    → (icv.dyn_var ≡ false) ⊎ (n ≤ dyn) ⊎ (n ≡ 1)
smaller icv dyn (inl off) h = inl off
smaller icv dyn (inr le) h = inr (inl (omega arith))

-- If `nthreads-var` and the thread limit are at least 1 and at most UINT_MAX, the dynamic adjustment
-- allows at least 1 thread, and the count of busy threads is at least 1 and in the limit, a call of
-- `gomp_resolve_num_threads` that other threads do not disturb, with an `unsigned` NUM_THREADS,
-- returns a team of at least one thread and no more than the region asks for, than the thread limit,
-- and, if the dynamic adjustment is on and the team has more than one thread, than it allows.
pub resolve_num_threads-IsTeam :
    (icv : Icv) (thr : Origin) (dyn specified count : ℕ)
    → IsSane icv thr dyn
    → specified ≤ uint_max
    → (n : ℕ) × (after : Option ℕ) × (resolve_num_threads icv thr dyn specified count
        ≡ some (n, after))
      × IsTeam icv dyn specified n
unfolding resolve_num_threads serial
resolve_num_threads-IsTeam icv thr dyn specified count s h =
    let most = max_num_threads icv dyn specified count in
    let limit = icv.thread_limit_var in
    let (m1, m2, m3) = max-bounds icv dyn specified count s.some_threads s.threads_in s.some_dyn in
    let m4 : most ≤ uint_max = ground (arith, s.threads_in) in
    elim (Bool-cases (serial icv thr specified)) [
      | inl alone ↦ (
        1,
        thr.busy,
        rw alone refl,
        record {
          some_thread = omega arith;
          asked_for = omega arith;
          adjusted = inr (inr refl);
          in_limit = s.some_limit;
        },
      )
      | inr wide ↦ elim (Bool-cases (limit == uint_max || most == 1)) [
        | inl free ↦ (
          most,
          thr.busy,
          rw (wide, free) refl,
          record {
            some_thread = m1;
            asked_for = m2;
            adjusted = smaller icv dyn m3 (omega arith);
            in_limit = ground (arith, free, s.some_limit);
          },
        )
        | inr held ↦
            let (n, after, e, n1, n2, n3) =
              limited-total limit most thr.in_team thr.busy s.some_limit s.limit_in m1 m4
                s.busy_in in
            (
              n,
              after,
              rw (wide, held) e,
              record {
                some_thread = n1;
                asked_for = omega arith;
                adjusted = smaller icv dyn m3 n2;
                in_limit = n3;
              },
            )
      ]
    ]
