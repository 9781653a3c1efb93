-- ===== src/Examples/Priority.antt =====
-- A queue of children with three tasks, and two queues with several priorities.
use libgomp_a.Base.{
  ℕ, Bool, ◌↔◌, ◌≡◌, refl, arith, put, true, false, none, some, List, [], ◌∷◌, All, ◌⊎◌, pos,
}
use mathlib.Core.Path.{subst}
use mathlib.Core.Option.{some-injective}
use libgomp_a.Priority.{
  Nodes, PriorityList, Tasks, waiting, tied, insert_begin, attach, unlink, priority_list_insert,
  priority_list_remove,
}
use libgomp_a.Priority.Reorder.{
  priority_list_upgrade_task, priority_list_downgrade_task, out_of_way, last_after,
}
use libgomp_a.Priority.Entries.{IsList, priority_list_remove-IsList}
use libgomp_a.Priority.Children.{IsQueue, IsRunning, priority_list_insert-IsQueue}
use libgomp_a.Priority.Upgrade.{priority_list_upgrade_task-IsQueue}
use libgomp_a.Priority.Downgrade.{priority_list_downgrade_task-order}
use libgomp_a.Priority.Walk.{task_in_list_p, priority_list_verify, verify_loop, verify_turn}
use libgomp_a.Priority.Walk.Round.{
  mem, task_in_list_p-mem, IsQueue-InOrder, priority_list_verify-InOrder,
}
use libgomp_a.Priority.Walk.Order.{InOrder}
use libgomp_a.Priority.Tree.{
  Tree, leaf, node, tree_next_task, tree_next_task_1, tree_choose, waiting_first,
}
use libgomp_a.Priority.Tree.Next.{IsNext, lists, tree_next_task-highest}

-- Tasks 1, 2 and 4 wait, 3 runs, and the parent depends on 1.
abbrev tasks : Tasks
tasks = record {
  kind = put (λ _. waiting) 3 tied;
  priority = λ _. pos 0;
  parent_depends_on = put (λ _. false) 1 true;
}

abbrev nodes : Nodes
nodes = record {
  next = put (put (put (λ _. 0) 1 2) 2 3) 3 1;
  prev = put (put (put (λ _. 0) 2 1) 3 2) 1 3;
}

abbrev children : PriorityList
children = record { priority = pos 0; tasks = some 1; last_parent_depends_on = some 1 }

children-IsList : IsList nodes children (1 ∷ 2 ∷ 3 ∷ [])
children-IsList = (
  refl,
  (
    (
      ((λ e. absurd (omega arith)), ((λ e. absurd (omega arith)), tt)),
      (((λ e. absurd (omega arith)), tt), (tt, tt)),
    ),
    ((refl, refl), ((refl, refl), (refl, refl))),
  ),
)

children-IsQueue : IsQueue tasks nodes children (1 ∷ []) (2 ∷ []) (3 ∷ [])
children-IsQueue = record {
  is_list = children-IsList;
  awaited = ((refl, refl), tt);
  plain = ((refl, refl), tt);
  running = (refl, tt);
  last = refl;
}

priority_list_insert-IsQueue_example :
    let (m, list) = priority_list_insert nodes children 4 insert_begin true false in
    let (m', list') = priority_list_insert nodes children 4 insert_begin false false in
    IsQueue tasks m list (1 ∷ []) (4 ∷ 2 ∷ []) (3 ∷ [])
    × IsList m' list' (4 ∷ 1 ∷ 2 ∷ 3 ∷ [])
    × (list'.last_parent_depends_on ≡ some 1)
priority_list_insert-IsQueue_example =
    priority_list_insert-IsQueue tasks nodes children (1 ∷ []) (2 ∷ []) (3 ∷ []) 4 children-IsQueue
      (
        (λ e. absurd (omega arith)),
        ((λ e. absurd (omega arith)), ((λ e. absurd (omega arith)), tt)),
      )
      refl

priority_list_upgrade_task-IsQueue_example :
    let (m, list) = priority_list_upgrade_task nodes children 2 in
    IsQueue
      (record tasks { parent_depends_on = put tasks.parent_depends_on 2 true })
      m
      list
      (1 ∷ 2 ∷ [])
      []
      (3 ∷ [])
priority_list_upgrade_task-IsQueue_example =
    priority_list_upgrade_task-IsQueue tasks nodes children (1 ∷ []) [] [] (3 ∷ []) 2
      children-IsQueue

priority_list_remove-IsList_example :
    let (m, (list, empty)) = priority_list_remove nodes children 2 in
    IsList m list (1 ∷ 3 ∷ []) × (empty ≡ false)
priority_list_remove-IsList_example =
    priority_list_remove-IsList nodes children (1 ∷ []) 2 (3 ∷ []) children-IsList

abbrev first_tied : Tasks
first_tied = record tasks { kind = put tasks.kind 1 tied }

priority_list_downgrade_task-order_example :
    let (m, list) = priority_list_downgrade_task tasks nodes children 1 in
    (rs : List ℕ) × ((rs ≡ 1 ∷ 3 ∷ []) ⊎ (rs ≡ 3 ∷ 1 ∷ []))
    × IsList m list (2 ∷ rs)
    × All (λ x. first_tied.kind x ≡ waiting) (2 ∷ [])
    × All (IsRunning first_tied) rs
priority_list_downgrade_task-order_example =
    priority_list_downgrade_task-order tasks nodes children [] (2 ∷ []) (3 ∷ []) 1 children-IsList
      (refl, (refl, tt)) (refl, tt)

-- The parent depends on 1 and 2, and 3 is a plain waiting task. Task 2 is run first: it goes to the
-- end, the entry before it is then 3, and `last_parent_depends_on` is cleared although 1 waits.
abbrev two_awaited : Tasks
two_awaited = record {
  kind = λ _. waiting;
  priority = λ _. pos 0;
  parent_depends_on = put (put (λ _. false) 1 true) 2 true;
}

downgrade_forgets :
    let (m, list) =
      priority_list_downgrade_task two_awaited nodes
        (record children { last_parent_depends_on = some 2 })
        2 in
    list.last_parent_depends_on ≡ none
unfolding priority_list_downgrade_task out_of_way last_after attach unlink
downgrade_forgets = refl

-- A queue with task 2 at priority 5 and task 3, which runs, at 7, and one with task 4 at priority 6.
abbrev ranked : Tasks
ranked = record tasks { priority = put (put (λ _. pos 5) 3 (pos 7)) 4 (pos 6) }

abbrev list_of : ℕ → ℕ → PriorityList
list_of n x = record { priority = pos n; tasks = some x; last_parent_depends_on = none }

abbrev two_lists : Tree
two_lists = node (node leaf (list_of 5 2) leaf) (list_of 7 3) leaf

abbrev one_list : Tree
one_list = node leaf (list_of 6 4) leaf

chooses_4 : tree_next_task ranked two_lists (some one_list) ≡ (some 4, false)
unfolding tree_next_task tree_next_task_1 waiting_first tree_choose
chooses_4 = refl

tree_next_task-highest_example :
    IsNext ranked
      (lists two_lists)
      (lists one_list)
      (tree_next_task ranked two_lists (some one_list))
tree_next_task-highest_example =
    tree_next_task-highest ranked two_lists one_list
      (((omega arith, tt), (tt, tt)), (own 7 3 refl, (own 5 2 refl, tt)))
      ((tt, tt), (own 6 4 refl, tt))
  where
    own :
        (n x : ℕ)
        → ranked.priority x ≡ pos n
        → (y : ℕ) → some x ≡ some y
        → ranked.priority y ≡ pos n
    own n x e y h = subst (λ z. ranked.priority z ≡ pos n) (some-injective x y h) e

task_in_list_p-mem_example : task_in_list_p 3 nodes children 3 ≡ some (mem 3 (1 ∷ 2 ∷ 3 ∷ []))
task_in_list_p-mem_example =
    task_in_list_p-mem nodes children 1 (2 ∷ 3 ∷ []) 3 3 children-IsList (omega arith)

-- Behind a running task, task 2 still waits.
abbrev out_of_order : Tasks
out_of_order = record tasks { kind = put tasks.kind 1 tied }

children-InOrder : InOrder tasks true (1 ∷ 2 ∷ 3 ∷ [])
children-InOrder = IsQueue-InOrder tasks nodes children (1 ∷ []) (2 ∷ []) (3 ∷ []) children-IsQueue

priority_list_verify-InOrder_example :
    (answer : Bool) × (priority_list_verify 3 out_of_order nodes children true ≡ some answer)
    × ((answer ≡ true) ↔ InOrder out_of_order true (1 ∷ 2 ∷ 3 ∷ []))
priority_list_verify-InOrder_example =
    priority_list_verify-InOrder out_of_order nodes children true 1 (2 ∷ 3 ∷ []) 3 children-IsList
      (omega arith)

refuses : priority_list_verify 3 out_of_order nodes children true ≡ some false
unfolding priority_list_verify verify_loop verify_turn
refuses = refl
