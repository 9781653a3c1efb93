-- ===== src/Priority/Reorder.antt =====
-- The functions of task.c that move a task within its list: `priority_list_upgrade_task` and
-- `priority_list_downgrade_task`. On an empty list, which has no task to move, they change nothing
-- here.
use libgomp_a.Base.{ℕ, Option, none, some, ◌==◌, Bool, false, not, ◌&&◌, if◌then◌else◌}
use libgomp_a.Priority.{Nodes, PriorityList, Tasks, is_waiting, attach, unlink, put_at}

unfoldable pub to_front : Nodes → PriorityList → ℕ → Nodes × PriorityList
unfolding unlink attach put_at
to_front m list node = elim list.last_parent_depends_on [
  | some last ↦ let out = unlink m node in (attach out node (out.next last) last, list)
  | none ↦ elim list.tasks [
    | none ↦ (m, list)
    | some first ↦
        if first == node
        then (m, list)
        else let out = unlink m node in
          (attach out node first (out.prev first), record list { tasks = some node })
  ]
]

-- `priority_list_upgrade_task`
unfoldable pub priority_list_upgrade_task : Nodes → PriorityList → ℕ → Nodes × PriorityList
unfolding to_front
priority_list_upgrade_task m list node =
    let (m', list') = to_front m list node in
    (m', record list' { last_parent_depends_on = some node })

abbrev pub is_entry : Option ℕ → ℕ → Bool
is_entry none node = false
is_entry (some x) node = x == node

unfoldable pub out_of_way : Tasks → Nodes → PriorityList → ℕ → Nodes × PriorityList
unfolding unlink attach
out_of_way t m list node = elim list.tasks [
  | none ↦ (m, list)
  | some first ↦
      if first == node
      then (m, record list { tasks = some (m.next node) })
      else if not (m.next node == first) && is_waiting (t.kind (m.next node))
      then (let out = unlink m node in (attach out node first (out.prev first), list))
      else (m, list)
]

-- `last_parent_depends_on` once the task is out of the way.
unfoldable pub last_after : Tasks → Nodes → PriorityList → ℕ → PriorityList
last_after t m list node =
    let before = m.prev node in
    if t.parent_depends_on node && is_entry list.last_parent_depends_on node
    then if not (before == node) && (is_waiting (t.kind before) && t.parent_depends_on before)
      then record list { last_parent_depends_on = some before }
      else record list { last_parent_depends_on = none }
    else list

-- `priority_list_downgrade_task`
unfoldable pub priority_list_downgrade_task :
    Tasks → Nodes → PriorityList → ℕ → Nodes × PriorityList
unfolding out_of_way last_after
priority_list_downgrade_task t m list node =
    let (m', list') = out_of_way t m list node in (m', last_after t m' list' node)
