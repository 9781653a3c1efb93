-- ===== src/Barrier.antt =====
-- The barrier of config/linux/bar.h and config/linux/bar.c: `gomp_barrier_wait`, run by the threads
-- of a team any number of times. A step is one access to the barrier; the fence at the end of
-- `futex_wake` and the sleep in `do_wait` only save time, so a waiting thread may look at any time.
pub mod Count
pub mod Rounds
pub mod Steps
pub mod Safety
use libgomp_a.Base.{
  ℕ, zero, suc, ◌+◌, ◌*◌, ◌/◌, ◌%◌, ◌<◌, ◌≡◌, ◌≢◌, ◌==◌, Bool, if◌then◌else◌, u32, sub_u32, put,
}

-- `gomp_barrier_t` without `awaited_final`
pub record Barrier : Type 0 where
  pub total : ℕ
  pub generation : ℕ
  pub awaited : ℕ

-- `gomp_barrier_init`
unfoldable pub barrier_init : ℕ → Barrier
barrier_init count = record { total = count; generation = 0; awaited = count }

-- `gomp_barrier_wait_start`, up to the mask: `-BAR_INCR | BAR_CANCELLED` clears the two low bits.
unfoldable pub wait_load : Barrier → ℕ
wait_load bar = bar.generation / 4 * 4

-- Its atomic subtraction, and `ret |= BAR_WAS_LAST` (1, a bit that the mask has cleared).
unfoldable pub wait_count : ℕ → Barrier → ℕ × Barrier
wait_count state bar =
    let left = sub_u32 bar.awaited 1 in
    (if left == 0 then state + 1 else state, record bar { awaited = left })

-- `state & BAR_WAS_LAST`
unfoldable pub was_last : ℕ → Bool
was_last state = state % 2 == 1

-- `bar->awaited = bar->total`
unfoldable pub wait_reset : Barrier → Barrier
wait_reset bar = record bar { awaited = bar.total }

-- `bar->generation + BAR_INCR`
unfoldable pub wait_open : Barrier → Barrier
wait_open bar = record bar { generation = u32 (bar.generation + 8) }

-- Where a thread is: before the barrier, with `ret` loaded, or in `gomp_barrier_wait_end` with the
-- given state, as the last thread before and after the reset, or as another one.
pub data Pc : Type 0 where
  outside : Pc
  loaded last reset waiting : ℕ → Pc

-- The branch of `gomp_barrier_wait_end`.
unfoldable pub wait_end : ℕ → Pc
unfolding was_last
wait_end state = if was_last state then last state else waiting state

-- The barrier, the threads, and how many barriers each thread has left.
pub record Team : Type 0 where
  pub bar : Barrier
  pub pc : ℕ → Pc
  pub rounds : ℕ → ℕ

abbrev pub leave : Team → ℕ → Team
leave s i = record s { pc = put s.pc i outside; rounds = put s.rounds i (suc (s.rounds i)) }

-- One access by thread `i` of a team of `n`.
pub data Step (n : ℕ) (s : Team) : Team → Type 0 where
  load :
      (i : ℕ)
      → i < n
      → s.pc i ≡ outside
      → Step n s (record s { pc = put s.pc i (loaded (wait_load s.bar)) })
  count :
      (i state : ℕ)
      → i < n
      → s.pc i ≡ loaded state
      → Step n s (
          let (state', bar') = wait_count state s.bar in
          record s { bar = bar'; pc = put s.pc i (wait_end state') })
  reset_awaited :
      (i state : ℕ)
      → i < n
      → s.pc i ≡ last state
      → Step n s (record s { bar = wait_reset s.bar; pc = put s.pc i (reset state) })
  open_barrier :
      (i state : ℕ)
      → i < n
      → s.pc i ≡ reset state
      → Step n s (leave (record s { bar = wait_open s.bar }) i)
  see_open :
      (i state : ℕ)
      → i < n
      → s.pc i ≡ waiting state
      → s.bar.generation ≢ state
      → Step n s (leave s i)

abbrev pub initial : ℕ → Team
initial n = record { bar = barrier_init n; pc = λ _. outside; rounds = λ _. 0 }

pub data Reach (n : ℕ) : Team → Type 0 where
  here : Reach n (initial n)
  later : {s t : Team} → Reach n s → Step n s t → Reach n t
