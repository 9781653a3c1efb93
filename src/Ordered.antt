-- ===== src/Ordered.antt =====
-- The ORDERED construct: ordered.c, the queue of threads that are let into the ordered section.
pub mod Ring
pub mod Queue
pub mod Moves
pub mod Section
pub mod Turns
use libgomp_a.Base.{
  ℕ, ◌+◌, ◌-◌, ◌≡◌, Option, none, some, List, ltb, leb, ◌==◌, ◌||◌, Bool, true, false,
  if◌then◌else◌, u32, sub_u32, uint_max, get_or, set,
}

-- The fields of `struct gomp_work_share` for ORDERED, and the counts of the team's semaphores
-- `ordered_release[i]`.
pub record Ordered : Type 0 where
  pub team_ids : List ℕ
  pub num_used : ℕ
  pub owner : ℕ
  pub cur : ℕ
  pub release : ℕ → ℕ

-- `team == NULL || team->nthreads == 1`
abbrev pub alone : Option ℕ → Bool
alone none = true
alone (some threads) = threads == 1

abbrev pub team_size : Option ℕ → ℕ
team_size none = 1
team_size (some threads) = threads

-- `gomp_sem_post (team->ordered_release[i])`
abbrev pub post : ℕ → Ordered → Ordered
post i o = record o { release = λ j. if i == j then o.release j + 1 else o.release j }

-- An index of the circular queue: `if (index >= team->nthreads) index -= team->nthreads`.
abbrev pub wrap_index : ℕ → ℕ → ℕ
wrap_index threads index = if leb threads index then sub_u32 index threads else index

-- `next = ws->ordered_cur + 1; if (next == team->nthreads) next = 0`
abbrev pub next_index : ℕ → ℕ → ℕ
next_index threads cur = if u32 (cur + 1) == threads then 0 else u32 (cur + 1)

-- The writer of a thread's id at the end of the queue.
unfoldable pub enqueue : ℕ → ℕ → Ordered → Ordered
enqueue threads me o = record o {
  team_ids = set o.team_ids (wrap_index threads (u32 (o.cur + o.num_used))) me;
}

-- Moves `ordered_cur` on and wakes the thread that it now names.
unfoldable pub advance : ℕ → Ordered → Ordered
advance threads o =
    let next = next_index threads o.cur in post (get_or o.team_ids next 0) (record o { cur = next })

-- `gomp_ordered_first`
unfoldable pub ordered_first : Option ℕ → ℕ → Ordered → Ordered
unfolding enqueue
ordered_first team me o =
    if alone team
    then o
    else let e = enqueue (team_size team) me o in
      let used = record e { num_used = u32 (o.num_used + 1) } in
      if o.num_used == 0 then post me used else used

-- `gomp_ordered_last`
unfoldable pub ordered_last : Option ℕ → Ordered → Ordered
unfolding advance
ordered_last team o =
    if alone team
    then o
    else let left = sub_u32 o.num_used 1 in
      let gone = record o { owner = uint_max; num_used = left } in
      if ltb 0 left then advance (team_size team) gone else gone

-- `gomp_ordered_next`
unfoldable pub ordered_next : Option ℕ → ℕ → Ordered → Ordered
unfolding enqueue advance
ordered_next team me o =
    if alone team
    then o
    else let free = record o { owner = uint_max } in
      if o.num_used == 1
      then post me free
      else advance (team_size team)
          (if ltb o.num_used (team_size team) then enqueue (team_size team) me free else free)

-- `gomp_ordered_static_init`
unfoldable pub ordered_static_init : Option ℕ → Ordered → Ordered
ordered_static_init team o = if alone team then o else post 0 o

-- `gomp_ordered_static_next`
unfoldable pub ordered_static_next : Option ℕ → ℕ → Ordered → Ordered
ordered_static_next team me o =
    if alone team
    then o
    else let id = next_index (team_size team) me in
      post id (record o { owner = uint_max; team_ids = set o.team_ids 0 id })

-- `gomp_ordered_sync`, `none` where the thread blocks on its semaphore.
unfoldable pub ordered_sync : Option ℕ → ℕ → Ordered → Option Ordered
ordered_sync team me o =
    if alone team
    then some o
    else if o.owner == me
    then some o
    else if o.release me == 0
    then none
    else some
        (record o { owner = me; release = λ j. if me == j then o.release j - 1 else o.release j })

-- A work share and a team as `gomp_init_work_share` and `gomp_new_team` set them up for ORDERED:
-- the queue is empty, nobody owns the section, and no semaphore is posted.
unfoldable pub fresh_ordered : List ℕ → Ordered
fresh_ordered zeroed = record {
  team_ids = zeroed;
  num_used = 0;
  owner = uint_max;
  cur = 0;
  release = λ _. 0;
}
