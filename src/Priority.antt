-- ===== src/Priority.antt =====
-- The lists of a priority queue of tasks: priority_queue.h, priority_queue.c, and the functions of
-- task.c that reorder them. A task is a number, and so is its node in the queue at hand.
pub mod Ring
pub mod Splice
pub mod Entries
pub mod Reorder
pub mod Children
pub mod Upgrade
pub mod Downgrade
pub mod Walk
pub mod Tree
use libgomp_a.Base.{
  ℕ, Option, none, some, ◌==◌, Bool, true, false, not, ◌&&◌, if◌then◌else◌, put, ℤ,
}

-- `struct priority_node` of every task, for one `enum priority_queue_type`.
pub record Nodes : Type 0 where
  pub next : ℕ → ℕ
  pub prev : ℕ → ℕ

-- `struct priority_list`
pub record PriorityList : Type 0 where
  pub priority : ℤ
  pub tasks : Option ℕ
  pub last_parent_depends_on : Option ℕ

-- `enum priority_insert_type`
pub data InsertType : Type 0 where
  insert_begin insert_end : InsertType

-- `enum gomp_task_kind`
pub data TaskKind : Type 0 where
  implicit undeferred waiting tied async_running : TaskKind

-- The fields of `struct gomp_task` that the queues read.
pub record Tasks : Type 0 where
  pub kind : ℕ → TaskKind
  pub priority : ℕ → ℤ
  pub parent_depends_on : ℕ → Bool

abbrev pub set_next : Nodes → ℕ → ℕ → Nodes
set_next m a b = record m { next = put m.next a b }

abbrev pub set_prev : Nodes → ℕ → ℕ → Nodes
set_prev m a b = record m { prev = put m.prev a b }

abbrev pub at_begin : InsertType → Bool
at_begin insert_begin = true
at_begin insert_end = false

abbrev pub is_waiting : TaskKind → Bool
is_waiting waiting = true
is_waiting _ = false

-- `node->next` and `node->prev` are set, and then the neighbours.
unfoldable pub attach : Nodes → (node after before : ℕ) → Nodes
attach m node after before =
    let own = set_prev (set_next m node after) node before in
    let back = set_prev own (own.next node) node in set_next back (back.prev node) node

-- `node->prev->next = node->next` and `node->next->prev = node->prev`
unfoldable pub unlink : Nodes → ℕ → Nodes
unlink m node =
    let ahead = set_next m (m.prev node) (m.next node) in
    set_prev ahead (ahead.next node) (ahead.prev node)

-- The entry that a task goes behind, where it does not go to the top or the bottom.
unfoldable pub go_behind :
    PriorityList → InsertType → (adjust is_parent_depends_on : Bool) → Option ℕ
go_behind list pos adjust is_parent_depends_on =
    if adjust && at_begin pos && not is_parent_depends_on then list.last_parent_depends_on else none

-- The top or the bottom of the list whose first entry is `first`.
unfoldable pub put_at : Nodes → PriorityList → (first node : ℕ) → InsertType → Nodes × PriorityList
unfolding attach
put_at m list first node pos = (
  attach m node first (m.prev first),
  if at_begin pos then record list { tasks = some node } else list,
)

unfoldable pub link_in :
    Nodes
    → PriorityList
    → ℕ
    → InsertType
    → (adjust is_parent_depends_on : Bool) → Nodes × PriorityList
unfolding go_behind put_at attach
link_in m list node pos adjust is_parent_depends_on = elim list.tasks [
  | none ↦ (set_prev (set_next m node node) node node, record list { tasks = some node })
  | some first ↦ elim (go_behind list pos adjust is_parent_depends_on) [
    | some last ↦ (attach m node (m.next last) last, list)
    | none ↦ put_at m list first node pos
  ]
]

-- `priority_list_insert`
unfoldable pub priority_list_insert :
    Nodes
    → PriorityList
    → ℕ
    → InsertType
    → (adjust is_parent_depends_on : Bool) → Nodes × PriorityList
unfolding link_in
priority_list_insert m list node pos adjust is_parent_depends_on =
    let (m', list') = link_in m list node pos adjust is_parent_depends_on in
    (
      m',
      elim list'.last_parent_depends_on [
        | some _ ↦ list'
        | none ↦
            if adjust && is_parent_depends_on
            then record list' { last_parent_depends_on = some node }
            else list'
      ],
    )

-- The first entry goes: the list starts with the next one, or is empty.
unfoldable pub drop_first : Nodes → PriorityList → ℕ → PriorityList × Bool
drop_first m list node =
    if m.next node == node
    then (record list { tasks = none }, true)
    else (record list { tasks = some (m.next node) }, false)

-- `tasks` once the node is unlinked, and whether the list is empty now.
unfoldable pub first_after : Nodes → PriorityList → ℕ → PriorityList × Bool
unfolding drop_first
first_after m list node = elim list.tasks [
  | none ↦ (list, false)
  | some first ↦ if first == node then drop_first m list node else (list, false)
]

-- `priority_list_remove`
unfoldable pub priority_list_remove : Nodes → PriorityList → ℕ → Nodes × (PriorityList × Bool)
unfolding unlink first_after
priority_list_remove m list node = let m' = unlink m node in (m', first_after m' list node)
