-- ===== src/Priority/Tree.antt =====
-- The choice of the next task from two queues with several priorities: `priority_tree_next_task`
-- of priority_queue.c and its helper, on the nodes of the splay tree.
pub mod Next
use libgomp_a.Base.{
  ℕ, ◌≡◌, refl, arith, sym, ap, ◌∙◌, ◌⊎◌, inl, inr, Bool, true, false, not, ◌&&◌, if◌then◌else◌,
  Bool-cases, Option, none, some, Option-cases, List, [], ◌∷◌, ◌++◌, All, ℤ, ◌≤ℤ◌, ltb_ℤ,
}
use mathlib.Core.Path.{subst}
use mathlib.Core.Option.{some-injective}
use libgomp_a.Priority.{
  PriorityList, Tasks, TaskKind, implicit, undeferred, waiting, tied, async_running, is_waiting,
}

-- `struct prio_splay_tree_node_s`
pub data Tree : Type 0 where
  leaf : Tree
  node : (left : Tree) → PriorityList → (right : Tree) → Tree

-- The first entry of a list, where it is waiting; a list in the tree is not empty.
unfoldable pub waiting_first : Tasks → PriorityList → Option ℕ
waiting_first t list = elim list.tasks [
  | none ↦ none
  | some x ↦ if is_waiting (t.kind x) then some x else none
]

-- `priority_tree_next_task_1`
unfoldable pub tree_next_task_1 : Tasks → Tree → Option ℕ
unfolding waiting_first
tree_next_task_1 t leaf = none
tree_next_task_1 t (node left list right) = elim (tree_next_task_1 t right) [
  | some x ↦ some x
  | none ↦ elim (waiting_first t list) [ some x ↦ some x | none ↦ tree_next_task_1 t left ]
]

-- The end of `priority_tree_next_task`, with a task of each queue.
unfoldable pub tree_choose : Tasks → ℕ → ℕ → Option ℕ × Bool
tree_choose t t1 t2 =
    if ltb_ℤ (t.priority t2) (t.priority t1)
    then (some t1, true)
    else if ltb_ℤ (t.priority t1) (t.priority t2)
    then (some t2, false)
    else if t.parent_depends_on t2 && not (t.parent_depends_on t1)
    then (some t2, false)
    else (some t1, true)

-- `priority_tree_next_task`; the other queue can be NULL.
unfoldable pub tree_next_task : Tasks → Tree → Option Tree → Option ℕ × Bool
unfolding tree_next_task_1 tree_choose
tree_next_task t q1 q2 = elim (tree_next_task_1 t q1) [
  | none ↦ (none, true)
  | some t1 ↦ elim q2 [
    | none ↦ (some t1, true)
    | some other ↦ elim (tree_next_task_1 t other) [
      | none ↦ (some t1, true)
      | some t2 ↦ tree_choose t t1 t2
    ]
  ]
]
