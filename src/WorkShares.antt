-- ===== src/WorkShares.antt =====
-- A team's work shares, one for each construct: `gomp_work_share_start`, `gomp_work_share_init_done`
-- and `gomp_work_share_end_nowait` of work.c and libgomp.h, with the ptrlocks of
-- config/linux/ptrlock.h, run by many threads. A step is one access to what threads share; the first
-- load of `gomp_ptrlock_get` and the sleep in `do_wait` only save time, so a waiting thread may look
-- at any time. `next_ws` and `next_free` are in one union in C; a block in use has the first and a
-- block in the cache the second, and the model has a table for each.
pub mod Counts
pub mod Live
pub mod Rounds
pub mod Moves
pub mod Ask
pub mod Make
pub mod Create
pub mod End
pub mod Turns
pub mod Release
pub mod Safety
use libgomp_a.Base.{
  ℕ, zero, suc, ◌+◌, ◌*◌, ◌<◌, ◌≡◌, ◌==◌, Bool, true, false, if◌then◌else◌, Option, none, some,
  List, [], ◌∷◌, u32, put,
}
use libgomp_a.Pool.{Pool, alloc_work_share, free_work_share, first_pool}
use libgomp_a.Pool.Chains.{Outside, range}
use libgomp_a.Pool.Moves.{made_by}

-- `gomp_ptrlock_t`: NULL, 1, 2, or a valid pointer.
pub data PtrLock : Type 0 where
  unset owned awaited : PtrLock
  ready : ℕ → PtrLock

-- The compare and swap of 0 with 1 in `gomp_ptrlock_get`, and whether it has swapped.
unfoldable pub ptrlock_try : PtrLock → PtrLock × Bool
ptrlock_try unset = (owned, true)
ptrlock_try lock = (lock, false)

-- The compare and swap of 1 with 2 in `gomp_ptrlock_get_slow`.
unfoldable pub ptrlock_mark : PtrLock → PtrLock
ptrlock_mark owned = awaited
ptrlock_mark lock = lock

-- Where a thread is: at none of the constructs; before each of the accesses of `gomp_ptrlock_get`;
-- the first of a construct, before and after it has taken a work share; in the construct; and about
-- to free the work share before.
pub data Pc : Type 0 where
  outside asking slow waiting creating initialising inside freeing : Pc

-- `work_share` and `last_work_share` of a thread, and how many constructs it has come to.
pub record Member : Type 0 where
  pub work_share : ℕ
  pub last_work_share : Option ℕ
  pub pc : Pc
  pub round : ℕ

-- The cache of work shares, and `next_ws` and `threads_completed` of each. `made` lists the blocks
-- that the team has got from gomp_malloc.
pub record Sharing : Type 0 where
  pub pool : Pool
  pub made : List ℕ
  pub next_ws : ℕ → PtrLock
  pub completed : ℕ → ℕ
  pub threads : ℕ → Member

abbrev pub move : Sharing → ℕ → Member → Sharing
move s i t = record s { threads = put s.threads i t }

-- `gomp_work_share_start` up to the call of `gomp_ptrlock_get`.
unfoldable pub start_ask : Member → Member
start_ask t = record t { last_work_share = some t.work_share; pc = asking; round = suc t.round }

-- Its branch for the first thread, with `gomp_init_work_share` on what other threads can see later.
unfoldable pub start_first : (base i : ℕ) → Sharing → Sharing
start_first base i s =
    let (ws, pool') = alloc_work_share base s.pool in
    record s {
      pool = pool';
      made = made_by base s.pool pool' s.made;
      next_ws = put s.next_ws ws unset;
      completed = put s.completed ws 0;
      threads = put s.threads i (record (s.threads i) { work_share = ws; pc = initialising });
    }

-- `gomp_work_share_init_done`
unfoldable pub init_done : ℕ → Sharing → Sharing
init_done i s = elim (s.threads i).last_work_share [
  | none ↦ move s i (record (s.threads i) { pc = inside })
  | some last ↦ record s {
    next_ws = put s.next_ws last (ready (s.threads i).work_share);
    threads = put s.threads i (record (s.threads i) { pc = inside });
  }
]

-- The addition to `threads_completed` and the test of its result.
unfoldable pub end_count : (n i : ℕ) → Sharing → Sharing
end_count n i s =
    let ws = (s.threads i).work_share in
    let count = u32 (s.completed ws + 1) in
    record s {
      completed = put s.completed ws count;
      threads = put s.threads i (
          if count == n
          then record (s.threads i) { pc = freeing }
          else record (s.threads i) { last_work_share = none; pc = outside });
    }

-- `gomp_work_share_end_nowait` in a team of `n` threads, up to the call of `free_work_share`.
unfoldable pub end_nowait : (n i : ℕ) → Sharing → Sharing
unfolding end_count
end_nowait n i s = elim (s.threads i).last_work_share [
  | none ↦ move s i (record (s.threads i) { pc = outside })
  | some _ ↦ end_count n i s
]

-- That call, and what follows it; `work_shares_to_free`, which `gomp_team_end` reads, is left out.
unfoldable pub end_free : (last i : ℕ) → Sharing → Sharing
end_free last i s = record s {
  pool = free_work_share last s.pool;
  threads = put s.threads i (record (s.threads i) { last_work_share = none; pc = outside });
}

-- One access by thread `i` of a team of `n`. `work_share` of a thread that asks is the one before.
pub data Step (n : ℕ) (s : Sharing) : Sharing → Type 0 where
  start :
      (i : ℕ) → i < n → (s.threads i).pc ≡ outside → Step n s (move s i (start_ask (s.threads i)))
  try_lock :
      (i : ℕ)
      → i < n
      → (s.threads i).pc ≡ asking
      → Step n s (
          let ws = (s.threads i).work_share in
          let (lock, first) = ptrlock_try (s.next_ws ws) in
          record s {
            next_ws = put s.next_ws ws lock;
            threads =
                put s.threads i (record (s.threads i) { pc = if first then creating else slow });
          })
  mark_lock :
      (i : ℕ)
      → i < n
      → (s.threads i).pc ≡ slow
      → Step n s (
          let ws = (s.threads i).work_share in
          record s {
            next_ws = put s.next_ws ws (ptrlock_mark (s.next_ws ws));
            threads = put s.threads i (record (s.threads i) { pc = waiting });
          })
  see :
      (i ws : ℕ)
      → i < n
      → (s.threads i).pc ≡ waiting
      → s.next_ws (s.threads i).work_share ≡ ready ws
      → Step n s (move s i (record (s.threads i) { work_share = ws; pc = inside }))
  create :
      (i base : ℕ)
      → i < n
      → (s.threads i).pc ≡ creating
      → Outside base (s.pool.chunk * 2) s.made
      → Step n s (start_first base i s)
  publish : (i : ℕ) → i < n → (s.threads i).pc ≡ initialising → Step n s (init_done i s)
  complete : (i : ℕ) → i < n → (s.threads i).pc ≡ inside → Step n s (end_nowait n i s)
  release :
      (i last : ℕ)
      → i < n
      → (s.threads i).pc ≡ freeing
      → (s.threads i).last_work_share ≡ some last
      → Step n s (end_free last i s)

-- What `gomp_new_team` and `gomp_team_start` set up: everyone has the work share 0.
abbrev pub initial : (ℕ → Option ℕ) → Sharing
initial next_free = record {
  pool = first_pool next_free;
  made = range 0 8;
  next_ws = λ _. unset;
  completed = λ _. 0;
  threads = λ _. record { work_share = 0; last_work_share = none; pc = outside; round = 0 };
}

pub data Reach (n : ℕ) (next_free : ℕ → Option ℕ) : Sharing → Type 0 where
  here : Reach n next_free (initial next_free)
  later : {s t : Sharing} → Reach n next_free s → Step n s t → Reach n next_free t
