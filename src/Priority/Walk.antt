-- ===== src/Priority/Walk.antt =====
-- The loops that walk once round a list: `priority_queue_task_in_list_p` and `priority_list_verify`
-- of priority_queue.c, with _LIBGOMP_CHECKING_. The fuel bounds the turns of a loop; on an empty list,
-- which the callers exclude, and out of fuel the answer is `none`.
pub mod Order
pub mod Round
use libgomp_a.Base.{
  ℕ, zero, suc, ◌==◌, Bool, true, false, not, ◌&&◌, ◌||◌, if◌then◌else◌, Option, none, some,
}
use libgomp_a.Priority.{Nodes, PriorityList, Tasks, TaskKind, tied, async_running, is_waiting}

unfoldable pub task_in_loop : ℕ → Nodes → (first task p : ℕ) → Option Bool
task_in_loop zero m first task p = none
task_in_loop (suc fuel) m first task p =
    let rest = task_in_loop fuel m first task (m.next p) in
    if p == task then some true else if m.next p == first then some false else rest

-- `priority_queue_task_in_list_p`
unfoldable pub task_in_list_p : ℕ → Nodes → PriorityList → ℕ → Option Bool
unfolding task_in_loop
task_in_list_p fuel m list task = elim list.tasks [
  | none ↦ none
  | some first ↦ task_in_loop fuel m first task first
]

-- `t->kind >= GOMP_TASK_TIED`
abbrev pub is_tied : TaskKind → Bool
is_tied tied = true
is_tied async_running = true
is_tied _ = false

-- The flags `seen_tied` and `seen_plain_waiting`.
pub record Seen : Type 0 where
  pub tied : Bool
  pub plain : Bool

-- One turn: whether it ends the program, and the flags after it.
unfoldable pub verify_turn : Tasks → Bool → Seen → ℕ → Bool × Seen
verify_turn t check_deps seen x =
    let checked = check_deps && is_waiting (t.kind x) && not (is_tied (t.kind x)) in
    (
      (seen.tied && is_waiting (t.kind x)) || (checked && t.parent_depends_on x && seen.plain),
      record {
        tied = seen.tied || is_tied (t.kind x);
        plain = seen.plain || (checked && not (t.parent_depends_on x));
      },
    )

unfoldable pub verify_loop :
    ℕ → Tasks → Nodes → (first : ℕ) → (check_deps : Bool) → Seen → ℕ → Option Bool
unfolding verify_turn
verify_loop zero t m first check_deps seen p = none
verify_loop (suc fuel) t m first check_deps seen p =
    let (fatal, seen') = verify_turn t check_deps seen p in
    let rest = verify_loop fuel t m first check_deps seen' (m.next p) in
    if fatal then some false else if m.next p == first then some true else rest

-- `priority_list_verify`; `some false` is a call of gomp_fatal.
unfoldable pub priority_list_verify : ℕ → Tasks → Nodes → PriorityList → Bool → Option Bool
unfolding verify_loop
priority_list_verify fuel t m list check_deps = elim list.tasks [
  | none ↦ none
  | some first ↦
      verify_loop fuel t m first check_deps (record { tied = false; plain = false }) first
]
