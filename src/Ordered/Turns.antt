-- ===== src/Ordered/Turns.antt =====
-- A statically scheduled ordered loop: the turn goes round the team by thread number.
use libgomp_a.Base.{
  ℕ, ◌+◌, ◌-◌, ◌%◌, ◌^◌, ◌≤◌, ◌<◌, ◌≡◌, ◌≢◌, refl, some, none, arith, Bool, true, false,
  if◌then◌else◌, ◌==◌, uint_max, eq→==, ne→not_==, ℕ_discrete,
}
use native.Mathlib.Nat.{mod-eq_of_lt, mod_self}
use libgomp_a.Ordered.{Ordered, ordered_static_init, ordered_static_next, ordered_sync, next_index}

-- It is the turn of thread `turn`; `inside` says that it has been let in.
pub record IsTurn (threads : ℕ) (o : Ordered) (turn : ℕ) (inside : Bool) : Type 0 where
  pub in_team : turn < threads
  pub tokens : (i : ℕ) → o.release i ≡ (if inside then 0 else (if turn == i then 1 else 0))
  pub owner : o.owner ≡ (if inside then turn else uint_max)

module _ (threads : ℕ) (two : 2 ≤ threads) (few : threads < 2 ^ 31) where
  team_test : (threads == 1) ≡ false
  team_test = ne→not_== threads 1 (omega arith)

  next_index-mod : (me : ℕ) → me < threads → next_index threads me ≡ (me + 1) % threads
  next_index-mod me h = elim (ℕ_discrete (me + 1) threads) [
    | yes last ↦ ground (arith, mod_self threads)
    | no before ↦ grind (arith, mod-eq_of_lt)
  ]

  -- `gomp_ordered_static_init` on a fresh work share gives the first turn to thread 0.
  pub static_init-IsTurn :
      (o : Ordered)
      → ((i : ℕ) → o.release i ≡ 0)
      → o.owner ≡ uint_max
      → IsTurn threads (ordered_static_init (some threads) o) 0 false
  unfolding ordered_static_init
  static_init-IsTurn o quiet e =
      rw team_test
        (record { in_team = omega arith; tokens = λ i. ground (arith, quiet i); owner = e })

  -- In a team of at least two and fewer than 2 ^ 31 threads, `gomp_ordered_static_next` passes the
  -- turn from the thread that is inside to the numerically next one, after the last one to thread
  -- 0.
  pub static_next-IsTurn :
      {o : Ordered} (me : ℕ)
      → IsTurn threads o me true
      → IsTurn threads (ordered_static_next (some threads) me o) ((me + 1) % threads) false
  unfolding ordered_static_next
  static_next-IsTurn {o} me t = rw team_test (record {
    in_team = omega (arith, t.in_team);
    tokens = λ i. ground (arith, t.tokens i, next_index-mod me t.in_team);
    owner = refl;
  })

  -- Only the thread whose turn it is passes `gomp_ordered_sync`.
  pub static_sync-passes :
      {o : Ordered} {inside : Bool} (turn : ℕ)
      → IsTurn threads o turn inside
      → (o' : Ordered) × (ordered_sync (some threads) turn o ≡ some o')
        × IsTurn threads o' turn true
  unfolding ordered_sync
  static_sync-passes {o} {inside = true} turn t = (o, rw (team_test, eq→== o.owner turn t.owner), t)
  static_sync-passes {o} {inside = false} turn t = (
    record o { owner = turn; release = λ j. if turn == j then o.release j - 1 else o.release j },
    rw (
      team_test,
      ne→not_== o.owner turn (omega (arith, t.owner, t.in_team)),
      ne→not_== (o.release turn) 0 (ground (arith, t.tokens turn)),
    ),
    record { in_team = t.in_team; tokens = λ i. ground (arith, t.tokens i); owner = refl },
  )

  pub static_sync-blocks :
      {o : Ordered} {inside : Bool} (me turn : ℕ)
      → me < threads
      → me ≢ turn
      → IsTurn threads o turn inside
      → ordered_sync (some threads) me o ≡ none
  unfolding ordered_sync
  static_sync-blocks {o} {inside} me turn lt ne t = ground (arith, t.tokens me)
