-- ===== src/Priority/Tree/Next.antt =====
-- What `priority_tree_next_task` chooses, for search trees of the priorities.
use libgomp_a.Base.{
  ℕ, ◌≡◌, refl, arith, sym, ◌∙◌, ◌⊎◌, inl, inr, Bool, true, false, not, ◌&&◌, if◌then◌else◌,
  Bool-cases, Option, none, some, Option-cases, List, [], ◌∷◌, ◌++◌, All, ◌≤ℤ◌, ltb_ℤ,
}
use mathlib.Core.Path.{subst}
use mathlib.Core.Option.{some-injective}
use libgomp_a.Priority.{
  PriorityList, Tasks, TaskKind, implicit, undeferred, waiting, tied, async_running, is_waiting,
}
use libgomp_a.Priority.Tree.{
  Tree, leaf, node, waiting_first, tree_next_task_1, tree_choose, tree_next_task,
}

-- The lists of a tree, from the right: from the highest priority down.
abbrev pub lists : Tree → List PriorityList
lists leaf = []
lists (node left list right) = lists right ++ list ∷ lists left

abbrev pub Descending : List PriorityList → Type 0
Descending [] = Unit
Descending (p ∷ ps) = All (λ q. q.priority ≤ℤ p.priority) ps × Descending ps

abbrev pub HasOwn : Tasks → PriorityList → Type 0
HasOwn t p = (x : ℕ) → p.tasks ≡ some x → t.priority x ≡ p.priority

-- A search tree whose lists hold tasks of their priority.
abbrev pub IsSearch : Tasks → Tree → Type 0
IsSearch t tree = Descending (lists tree) × All (HasOwn t) (lists tree)

abbrev pub find_waiting : Tasks → List PriorityList → Option ℕ
find_waiting t [] = none
find_waiting t (p ∷ ps) = elim (waiting_first t p) [ some x ↦ some x | none ↦ find_waiting t ps ]

find_waiting-append :
    (t : Tasks) (ps qs : List PriorityList)
    → find_waiting t (ps ++ qs)
      ≡ (elim (find_waiting t ps) [ some x ↦ some x | none ↦ find_waiting t qs ])
find_waiting-append t [] qs = refl
find_waiting-append t (p ∷ ps) qs = ground (arith, find_waiting-append t ps qs)

-- The recursion finds the first list, from the highest priority down, that starts with a waiting
-- task.
tree_next_task_1-finds :
    (t : Tasks) (tree : Tree) → tree_next_task_1 t tree ≡ find_waiting t (lists tree)
unfolding tree_next_task_1
tree_next_task_1-finds t leaf = refl
tree_next_task_1-finds t (node left list right) = ground (
  arith,
  tree_next_task_1-finds t left,
  tree_next_task_1-finds t right,
  find_waiting-append t (lists right) (list ∷ lists left),
)

-- No list starts with a waiting task of a priority above that of `x`.
abbrev pub NoneAbove : Tasks → ℕ → List PriorityList → Type 0
NoneAbove t x = All (λ p. (y : ℕ) → waiting_first t p ≡ some y → t.priority y ≤ℤ t.priority x)

is_waiting-waiting : (k : TaskKind) → is_waiting k ≡ true → k ≡ waiting
is_waiting-waiting implicit e = cc
is_waiting-waiting undeferred e = cc
is_waiting-waiting waiting e = refl
is_waiting-waiting tied e = cc
is_waiting-waiting async_running e = cc

waiting_first-some :
    (t : Tasks) (p : PriorityList) (x : ℕ)
    → waiting_first t p ≡ some x
    → (p.tasks ≡ some x) × (t.kind x ≡ waiting)
unfolding waiting_first
waiting_first-some t p x e = grind (arith, is_waiting-waiting)

find_waiting-here :
    (t : Tasks) (p : PriorityList) (ps : List PriorityList) (z : ℕ)
    → waiting_first t p ≡ some z
    → find_waiting t (p ∷ ps) ≡ some z
find_waiting-here t p ps z h = rw (find_waiting, h) refl

find_waiting-skip :
    (t : Tasks) (p : PriorityList) (ps : List PriorityList)
    → waiting_first t p ≡ none
    → find_waiting t (p ∷ ps) ≡ find_waiting t ps
find_waiting-skip t p ps h = rw (find_waiting, h) refl

-- The lists at or below the priority of a list that `x` is in.
NoneAbove-below :
    (t : Tasks) (p : PriorityList) (x : ℕ) (qs : List PriorityList)
    → t.priority x ≡ p.priority
    → All (λ q. q.priority ≤ℤ p.priority) qs
    → All (HasOwn t) qs
    → NoneAbove t x qs
NoneAbove-below t p x [] e a b = tt
NoneAbove-below t p x (q ∷ qs) e (le, a) (own, b) = (
  (λ y h.
      subst (λ r. r ≤ℤ t.priority x) (sym (own y (waiting_first-some t q y h).0))
        (subst (λ r. q.priority ≤ℤ r) (sym e) le)),
  NoneAbove-below t p x qs e a b,
)

-- The task found has no waiting one above it, and where none is found there is none.
find_waiting-best :
    (t : Tasks) (ps : List PriorityList) (x : ℕ)
    → Descending ps
    → All (HasOwn t) ps
    → find_waiting t ps ≡ some x
    → (t.kind x ≡ waiting) × NoneAbove t x ps
find_waiting-best t [] x d own e = cc
find_waiting-best t (p ∷ ps) x (le, d) (o, own) e = elim (Option-cases (waiting_first t p)) [
  | inl skip ↦
      let (k, rest) = find_waiting-best t ps x d own (sym (find_waiting-skip t p ps skip) ∙ e) in
      (k, ((λ y h. absurd (some_none y (sym h ∙ skip))), rest))
  | inr (z, h) ↦
      let here = h ∙ sym (find_waiting-here t p ps z h) ∙ e in
      let (at, k) = waiting_first-some t p x here in
      (
        k,
        (
          (λ y h'.
              subst (λ v. t.priority v ≤ℤ t.priority x) (some-injective x y (sym here ∙ h'))
                (omega arith)),
          NoneAbove-below t p x ps (o x at) le own,
        ),
      )
]
  where
    some_none : (y : ℕ) → ¬ (some y ≡ none)
    some_none y q = cc

find_waiting-none :
    (t : Tasks) (ps : List PriorityList)
    → find_waiting t ps ≡ none
    → All (λ p. waiting_first t p ≡ none) ps
find_waiting-none t [] e = tt
find_waiting-none t (p ∷ ps) e = elim (Option-cases (waiting_first t p)) [
  | inl h ↦ (h, find_waiting-none t ps (sym (find_waiting-skip t p ps h) ∙ e))
  | inr (z, h) ↦ absurd (none_some z (sym e ∙ find_waiting-here t p ps z h))
]
  where
    none_some : (y : ℕ) → ¬ (none ≡ some y)
    none_some y q = cc

-- What the choice promises for the queues with the lists `ps` and `qs`.
abbrev pub IsNext : Tasks → (ps qs : List PriorityList) → Option ℕ × Bool → Type 0
IsNext t ps qs (none, from_q1) = (from_q1 ≡ true) × All (λ p. waiting_first t p ≡ none) ps
IsNext t ps qs (some x, from_q1) =
    (t.kind x ≡ waiting)
    × (find_waiting t (if from_q1 then ps else qs) ≡ some x)
    × NoneAbove t x ps
    × NoneAbove t x qs

NoneAbove-none :
    (t : Tasks) (x : ℕ) (ps : List PriorityList)
    → All (λ p. waiting_first t p ≡ none) ps
    → NoneAbove t x ps
NoneAbove-none t x [] a = tt
NoneAbove-none t x (p ∷ ps) (h, a) =
    ((λ y h'. absurd (none_some y (sym h ∙ h'))), NoneAbove-none t x ps a)
  where
    none_some : (y : ℕ) → ¬ (none ≡ some y)
    none_some y q = cc

NoneAbove-up :
    (t : Tasks) (x z : ℕ) (ps : List PriorityList)
    → t.priority x ≤ℤ t.priority z
    → NoneAbove t x ps
    → NoneAbove t z ps
NoneAbove-up t x z [] le a = tt
NoneAbove-up t x z (p ∷ ps) le (h, a) =
    ((λ y h'. let below = h y h' in omega arith), NoneAbove-up t x z ps le a)

-- The last step, where both queues have a task.
tree_choose-IsNext :
    (t : Tasks) (ps qs : List PriorityList) (t1 t2 : ℕ)
    → find_waiting t ps ≡ some t1
    → find_waiting t qs ≡ some t2
    → (t.kind t1 ≡ waiting) × NoneAbove t t1 ps
    → (t.kind t2 ≡ waiting) × NoneAbove t t2 qs
    → IsNext t ps qs (tree_choose t t1 t2)
unfolding tree_choose
tree_choose-IsNext t ps qs t1 t2 f1 f2 (k1, n1) (k2, n2) =
    by_order (Bool-cases (ltb_ℤ (t.priority t2) (t.priority t1)))
      (Bool-cases (ltb_ℤ (t.priority t1) (t.priority t2)))
      (Bool-cases (t.parent_depends_on t2 && not (t.parent_depends_on t1)))
  where
    first : t.priority t2 ≤ℤ t.priority t1 → IsNext t ps qs (some t1, true)
    first le = (k1, f1, n1, NoneAbove-up t t2 t1 qs le n2)

    second : t.priority t1 ≤ℤ t.priority t2 → IsNext t ps qs (some t2, false)
    second le = (k2, f2, NoneAbove-up t t1 t2 ps le n1, n2)

    by_order :
        (ltb_ℤ (t.priority t2) (t.priority t1) ≡ true)
          ⊎ (ltb_ℤ (t.priority t2) (t.priority t1) ≡ false)
        → (ltb_ℤ (t.priority t1) (t.priority t2) ≡ true)
          ⊎ (ltb_ℤ (t.priority t1) (t.priority t2) ≡ false)
        → ((t.parent_depends_on t2 && not (t.parent_depends_on t1)) ≡ true)
          ⊎ ((t.parent_depends_on t2 && not (t.parent_depends_on t1)) ≡ false)
        → IsNext t ps qs (tree_choose t t1 t2)
    by_order (inl above) _ _ = rw (tree_choose, above) (first (ground arith))
    by_order (inr b) (inl above) _ = rw (tree_choose, b, above) (second (ground arith))
    by_order (inr b) (inr c) (inl d) = rw (tree_choose, b, c, d) (second (ground arith))
    by_order (inr b) (inr c) (inr d) = rw (tree_choose, b, c, d) (first (ground arith))

-- The next task of two search trees is a waiting task of the highest priority that a waiting task
-- at the head of a list of either tree has; it is the first such one of the queue that the answer
-- names. There is none only if no list of the first queue starts with a waiting task.
pub tree_next_task-highest :
    (t : Tasks) (q1 q2 : Tree)
    → IsSearch t q1
    → IsSearch t q2
    → IsNext t (lists q1) (lists q2) (tree_next_task t q1 (some q2))
unfolding tree_next_task
tree_next_task-highest t q1 q2 s1 s2 =
    by_tasks (Option-cases (tree_next_task_1 t q1)) (Option-cases (tree_next_task_1 t q2))
  where
    found :
        (tree : Tree) (x : ℕ)
        → tree_next_task_1 t tree ≡ some x
        → find_waiting t (lists tree) ≡ some x
    found tree x h = sym (tree_next_task_1-finds t tree) ∙ h

    nothing :
        (tree : Tree)
        → tree_next_task_1 t tree ≡ none
        → All (λ p. waiting_first t p ≡ none) (lists tree)
    nothing tree h = find_waiting-none t (lists tree) (sym (tree_next_task_1-finds t tree) ∙ h)

    by_tasks :
        (tree_next_task_1 t q1 ≡ none) ⊎ ((x : ℕ) × (tree_next_task_1 t q1 ≡ some x))
        → (tree_next_task_1 t q2 ≡ none) ⊎ ((x : ℕ) × (tree_next_task_1 t q2 ≡ some x))
        → IsNext t (lists q1) (lists q2) (tree_next_task t q1 (some q2))
    by_tasks (inl h1) _ = rw (tree_next_task, h1) (refl, nothing q1 h1)
    by_tasks (inr (t1, h1)) (inl h2) =
        let (k, best) = find_waiting-best t (lists q1) t1 s1.0 s1.1 (found q1 t1 h1) in
        rw (tree_next_task, h1, h2)
          (k, found q1 t1 h1, best, NoneAbove-none t t1 (lists q2) (nothing q2 h2))
    by_tasks (inr (t1, h1)) (inr (t2, h2)) =
        rw (tree_next_task, h1, h2)
          (tree_choose-IsNext t (lists q1) (lists q2) t1 t2 (found q1 t1 h1) (found q2 t2 h2)
            (find_waiting-best t (lists q1) t1 s1.0 s1.1 (found q1 t1 h1))
            (find_waiting-best t (lists q2) t2 s2.0 s2.1 (found q2 t2 h2)))
