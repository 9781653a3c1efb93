-- ===== src/Loop/InOrder.antt =====
-- The loops that expect an ORDERED section: the `*_ordered_*` routines of loop.c. A result is `none`
-- where the thread blocks in `gomp_ordered_sync`, and `aborted` says that the code calls `abort`.
use libgomp_a.Base.{
  ℕ, ◌^◌, ◌≤◌, ◌<◌, ◌≡◌, refl, Bool, true, false, Option, none, some, ◌>>=◌, if◌then◌else◌, ℤ, pos,
  List, [], ◌∷◌, ◌++◌, length, leb_ℤ,
}
use libgomp_a.Iter.{
  Schedule, WorkShare, Thread, iter_static_next, iter_dynamic_next_locked, iter_guided_next_locked,
}
use libgomp_a.Ordered.{
  Ordered, ordered_first, ordered_last, ordered_next, ordered_static_init, ordered_static_next,
  ordered_sync,
}
use libgomp_a.Ordered.Queue.{Holds, joined, first-Holds, sync-head}
use libgomp_a.Ordered.Moves.{last-Holds, next-Holds}
use libgomp_a.Loop.{Bounds, entered, LoopResult, static_answer, block_answer, is_some}

-- `gomp_loop_ordered_static_start`
pub ordered_static_start : Bool → WorkShare → Thread → Ordered → Bounds → LoopResult
ordered_static_start first ws thr o b =
    let thr0 = record thr { static_trip = 0 } in
    let w = entered first ws thr b Schedule.static in
    static_answer (iter_static_next w thr0) w thr0
      (if first then ordered_static_init thr.team o else o)

-- `if (ret) gomp_ordered_first ()`
abbrev pub registered : Option (ℤ × ℤ) × WorkShare → Thread → Ordered → LoopResult
registered r thr o =
    block_answer r thr (if is_some r.0 then ordered_first thr.team thr.team_id o else o)

-- `gomp_loop_ordered_dynamic_start`
pub ordered_dynamic_start : Bool → WorkShare → Thread → Ordered → Bounds → LoopResult
ordered_dynamic_start first ws thr o b =
    registered (iter_dynamic_next_locked (entered first ws thr b Schedule.dynamic)) thr o

-- `gomp_loop_ordered_guided_start`
pub ordered_guided_start : Bool → WorkShare → Thread → Ordered → Bounds → LoopResult
ordered_guided_start first ws thr o b =
    registered (iter_guided_next_locked (entered first ws thr b Schedule.guided) thr) thr o

-- `GOMP_loop_ordered_runtime_start`, `none` where it aborts.
pub ordered_runtime_start :
    Schedule → Bool → WorkShare → Thread → Ordered → Bounds → Option LoopResult
unfolding ordered_static_start ordered_dynamic_start ordered_guided_start
ordered_runtime_start Schedule.static first ws thr o b =
    some (ordered_static_start first ws thr o b)
ordered_runtime_start Schedule.dynamic first ws thr o b =
    some (ordered_dynamic_start first ws thr o b)
ordered_runtime_start Schedule.guided first ws thr o b =
    some (ordered_guided_start first ws thr o b)
ordered_runtime_start Schedule.auto first ws thr o b =
    some (ordered_static_start first ws thr o (record b { chunk = pos 0 }))
ordered_runtime_start Schedule.runtime first ws thr o b = none

-- `if (ret) gomp_ordered_next (); else gomp_ordered_last ()`
abbrev pub handed_on : Option (ℤ × ℤ) × WorkShare → Thread → Ordered → LoopResult
handed_on r thr o =
    block_answer r thr
      (if is_some r.0 then ordered_next thr.team thr.team_id o else ordered_last thr.team o)

-- `gomp_loop_ordered_static_next`
pub ordered_static_loop_next : WorkShare → Thread → Ordered → Option LoopResult
ordered_static_loop_next ws thr o = do
  o1 ← ordered_sync thr.team thr.team_id o
  let r = iter_static_next ws thr
  some (
      static_answer r ws thr
        (if leb_ℤ (pos 0) r.ret then ordered_static_next thr.team thr.team_id o1 else o1))

-- `gomp_loop_ordered_dynamic_next`
pub ordered_dynamic_next : WorkShare → Thread → Ordered → Option LoopResult
ordered_dynamic_next ws thr o = do
  o1 ← ordered_sync thr.team thr.team_id o
  some (handed_on (iter_dynamic_next_locked ws) thr o1)

-- `gomp_loop_ordered_guided_next`
pub ordered_guided_next : WorkShare → Thread → Ordered → Option LoopResult
ordered_guided_next ws thr o = do
  o1 ← ordered_sync thr.team thr.team_id o
  some (handed_on (iter_guided_next_locked ws thr) thr o1)

-- What `GOMP_loop_ordered_runtime_next` does.
pub data Outcome : Type 0 where
  returned : LoopResult → Outcome
  blocked : Outcome
  aborted : Outcome

abbrev pub outcome : Option LoopResult → Outcome
outcome (some r) = returned r
outcome none = blocked

-- `GOMP_loop_ordered_runtime_next`
pub ordered_runtime_next : WorkShare → Thread → Ordered → Outcome
unfolding ordered_static_loop_next ordered_dynamic_next ordered_guided_next
ordered_runtime_next ws thr o = elim ws.sched [
  | Schedule.static ↦ outcome (ordered_static_loop_next ws thr o)
  | Schedule.auto ↦ outcome (ordered_static_loop_next ws thr o)
  | Schedule.dynamic ↦ outcome (ordered_dynamic_next ws thr o)
  | Schedule.guided ↦ outcome (ordered_guided_next ws thr o)
  | Schedule.runtime ↦ aborted
]

-- The queue of the ordered section after a call that gave `block`: a thread with a block stays in
-- the queue, behind the others; a thread without one has left.
abbrev pub line_after {ℓ} : {A : Type ℓ} → ℕ → Option A → List ℕ → List ℕ
line_after me (some b) q = q ++ me ∷ []
line_after me none q = q

module _ (threads : ℕ) (two : 2 ≤ threads) (few : threads < 2 ^ 31) (me trip : ℕ) where
  -- The thread that calls.
  abbrev caller : Thread
  caller = record { team = some threads; team_id = me; static_trip = trip }

  handed_on-Holds :
      (r : Option (ℤ × ℤ) × WorkShare) {o : Ordered} {q : List ℕ}
      → Holds threads o (me ∷ q) true
      → Holds threads (handed_on r caller o).ordered (line_after me r.0 q) false
  handed_on-Holds (some b, ws) h = next-Holds threads two few me h
  handed_on-Holds (none, ws) h = last-Holds threads two few me h

  -- In a team of at least two and fewer than 2 ^ 31 threads, the thread at the head of the queue
  -- is not blocked in `gomp_loop_ordered_dynamic_next`: it gets the next block of the locked
  -- function, goes to the end of the queue if there was one and leaves it otherwise.
  pub ordered_dynamic_next-Holds :
      (ws : WorkShare) {o : Ordered} {q : List ℕ} {inside : Bool}
      → me < threads
      → Holds threads o (me ∷ q) inside
      → (r : LoopResult) × (ordered_dynamic_next ws caller o ≡ some r)
        × ((r.block, r.ws) ≡ iter_dynamic_next_locked ws)
        × Holds threads r.ordered (line_after me r.block q) false
  unfolding ordered_dynamic_next
  ordered_dynamic_next-Holds ws {o} {q} lt h =
      let (o1, e, h1) = sync-head threads two few me lt h in
      let r = handed_on (iter_dynamic_next_locked ws) caller o1 in
      (r, rw e refl, refl, handed_on-Holds (iter_dynamic_next_locked ws) h1)

  -- In a team of at least two and fewer than 2 ^ 31 threads, the thread at the head of the queue
  -- is not blocked in `gomp_loop_ordered_guided_next`: it gets the next guided block, goes to the
  -- end of the queue if there was one and leaves it otherwise.
  pub ordered_guided_next-Holds :
      (ws : WorkShare) {o : Ordered} {q : List ℕ} {inside : Bool}
      → me < threads
      → Holds threads o (me ∷ q) inside
      → (r : LoopResult) × (ordered_guided_next ws caller o ≡ some r)
        × ((r.block, r.ws) ≡ iter_guided_next_locked ws caller)
        × Holds threads r.ordered (line_after me r.block q) false
  unfolding ordered_guided_next
  ordered_guided_next-Holds ws {o} {q} lt h =
      let (o1, e, h1) = sync-head threads two few me lt h in
      let r = handed_on (iter_guided_next_locked ws caller) caller o1 in
      (r, rw e refl, refl, handed_on-Holds (iter_guided_next_locked ws caller) h1)

  -- A thread that enters a dynamic or guided ordered loop joins the queue if it gets a block.
  pub registered-Holds :
      (r : Option (ℤ × ℤ) × WorkShare) {o : Ordered} {q : List ℕ} {inside : Bool}
      → Holds threads o q inside
      → length q < threads
      → Holds threads
          (registered r caller o).ordered
          (line_after me r.0 q)
          (if is_some r.0 then joined q inside else inside)
  registered-Holds (some b, ws) h lt = first-Holds threads two few me h lt
  registered-Holds (none, ws) h lt = h
