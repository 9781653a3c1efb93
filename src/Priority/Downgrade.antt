-- ===== src/Priority/Downgrade.antt =====
-- A task that is about to run goes out of the way: `priority_list_downgrade_task`, and then
-- `gomp_task_run_pre` makes it tied.
use libgomp_a.Base.{
  ℕ, ◌≡◌, ◌≢◌, refl, arith, sym, ap, ◌∙◌, ◌⊎◌, inl, inr, eq→==, ne→not_==, false, some, List, [],
  ◌∷◌, ◌++◌, append-nil, append_assoc, put, put_self, put_other, All, All-imp, All-both, All-remove,
  All-append, All-left, All-right, ℕ_discrete,
}
use mathlib.Core.Path.{subst}
use libgomp_a.Priority.{
  Nodes, PriorityList, Tasks, waiting, tied, is_waiting, insert_end, unlink, put_at,
}
use libgomp_a.Priority.Reorder.{out_of_way, last_after, priority_list_downgrade_task}
use libgomp_a.Priority.Ring.{Ring, Ring-swap}
use libgomp_a.Priority.Splice.{Ring-neighbours, Ring-ends}
use libgomp_a.Priority.Entries.{head, IsList, put_at-IsList}
use libgomp_a.Priority.Children.{IsRunning}
use libgomp_a.Priority.Upgrade.{without}

last_after-tasks :
    (t : Tasks) (m : Nodes) (list : PriorityList) (w : ℕ)
    → (last_after t m list w).tasks ≡ list.tasks
unfolding last_after
last_after-tasks t m list w = ground arith

-- The branches of `out_of_way`.
out_first :
    (t : Tasks) (m : Nodes) (list : PriorityList) (w : ℕ)
    → list.tasks ≡ some w
    → out_of_way t m list w ≡ (m, record list { tasks = some (m.next w) })
unfolding out_of_way
out_first t m list w e = simp (out_of_way, e, eq→== w w refl)

out_last :
    (t : Tasks) (m : Nodes) (list : PriorityList) (x w : ℕ)
    → list.tasks ≡ some x
    → x ≢ w
    → m.next w ≡ x
    → out_of_way t m list w ≡ (m, list)
unfolding out_of_way
out_last t m list x w e ne n = simp (out_of_way, e, ne→not_== x w ne, n, eq→== x x refl)

out_running :
    (t : Tasks) (m : Nodes) (list : PriorityList) (x w y : ℕ)
    → list.tasks ≡ some x
    → x ≢ w
    → m.next w ≡ y
    → x ≢ y
    → is_waiting (t.kind y) ≡ false
    → out_of_way t m list w ≡ (m, list)
unfolding out_of_way
out_running t m list x w y e ne n ne' k =
    simp (out_of_way, e, ne→not_== x w ne, n, ne→not_== y x (λ q. ne' (sym q)), k)

out_waiting :
    (t : Tasks) (m : Nodes) (list : PriorityList) (x w y : ℕ)
    → list.tasks ≡ some x
    → x ≢ w
    → m.next w ≡ y
    → x ≢ y
    → t.kind y ≡ waiting
    → out_of_way t m list w ≡ put_at (unlink m w) list x w insert_end
unfolding out_of_way put_at
out_waiting t m list x w y e ne n ne' k =
    simp (out_of_way, put_at, e, ne→not_== x w ne, n, ne→not_== y x (λ q. ne' (sym q)), k)

-- The entry after the first one.
next-head : (m : Nodes) (w : ℕ) (l : List ℕ) → Ring m (w ∷ l) → some (m.next w) ≡ head (l ++ w ∷ [])
next-head m w [] r = ap some r.1.0
next-head m w (z ∷ l) r = ap some (Ring-neighbours m [] w z l r).0

abbrev IsMoved : (xs ys ts : List ℕ) (w : ℕ) → Nodes × PriorityList → List ℕ → Type 0
IsMoved xs ys ts w r rs = ((rs ≡ w ∷ ts) ⊎ (rs ≡ ts ++ w ∷ [])) × IsList r.0 r.1 ((xs ++ ys) ++ rs)

moved :
    (t : Tasks) (m : Nodes) (list : PriorityList) (xs ys ts : List ℕ) (w : ℕ)
    → IsList m list ((xs ++ w ∷ ys) ++ ts)
    → All (λ x. t.kind x ≡ waiting) ys
    → All (IsRunning t) ts
    → (rs : List ℕ) × IsMoved xs ys ts w (out_of_way t m list w) rs
moved t m list [] ys ts w (e, r) wait run =
    let turn = append_assoc ys ts (w ∷ []) in
    (
      ts ++ w ∷ [],
      (
        inr refl,
        subst (λ o. IsList o.0 o.1 (ys ++ (ts ++ w ∷ []))) (sym (out_first t m list w e))
            (
              next-head m w (ys ++ ts) r ∙ ap head turn,
              subst (Ring m) turn (Ring-swap m (w ∷ []) (ys ++ ts) r),
            ),
      ),
    )
moved t m list (x ∷ xs) [] ts w (e, r) wait run =
    let same =
      append_assoc (x ∷ xs) (w ∷ []) ts ∙ ap (λ l. l ++ w ∷ ts) (sym (append-nil (x ∷ xs))) in
    (
      w ∷ ts,
      (
        inl refl,
        subst (λ o. IsList o.0 o.1 ((x ∷ xs ++ []) ++ w ∷ ts)) (sym (stays ts run r))
            (e, subst (Ring m) same r),
      ),
    )
  where
    stays :
        (ts : List ℕ)
        → All (IsRunning t) ts
        → Ring m ((x ∷ xs ++ w ∷ []) ++ ts)
        → out_of_way t m list w ≡ (m, list)
    stays [] run r =
        let r' = subst (Ring m) (append-nil (x ∷ xs ++ w ∷ [])) r in
        out_last t m list x w e (All-right (λ c. x ≢ c) xs (w ∷ []) r'.0.0).0
          (Ring-ends m x (xs ++ w ∷ []) (x ∷ xs) w refl r').0
    stays (z ∷ zs) (k, _) r =
        let r' = subst (Ring m) (append_assoc (x ∷ xs) (w ∷ []) (z ∷ zs)) r in
        let (ne, (ne', _)) = All-right (λ c. x ≢ c) xs (w ∷ z ∷ zs) r'.0.0 in
        out_running t m list x w z e ne (Ring-neighbours m (x ∷ xs) w z zs r').0 ne' k
moved t m list (x ∷ xs) (y ∷ ys) ts w (e, r) (k, wait) run =
    let r' = subst (Ring m) (append_assoc (x ∷ xs) (w ∷ y ∷ ys) ts) r in
    let (out, f) = without m [] (x ∷ xs) (y ∷ ys) ts w r in
    let (ne, (ne', _)) = All-right (λ c. x ≢ c) xs (w ∷ y ∷ (ys ++ ts)) r'.0.0 in
    let way =
      out_waiting t m list x w y e ne (Ring-neighbours m (x ∷ xs) w y (ys ++ ts) r').0 ne' k in
    let (first, ring) =
      put_at-IsList (unlink m w) list x ((xs ++ y ∷ ys) ++ ts) w insert_end f (e, out) in
    (
      ts ++ w ∷ [],
      (
        inr refl,
        subst (λ o. IsList o.0 o.1 ((x ∷ xs ++ y ∷ ys) ++ (ts ++ w ∷ []))) (sym way)
            (first, subst (Ring _) (append_assoc (x ∷ xs ++ y ∷ ys) ts (w ∷ [])) ring),
      ),
    )

-- A waiting task that is about to run leaves the waiting tasks, which keep their order and stay
-- before all others; it becomes the first or the last of the others.
pub priority_list_downgrade_task-order :
    (t : Tasks) (m : Nodes) (list : PriorityList) (xs ys ts : List ℕ) (w : ℕ)
    → IsList m list ((xs ++ w ∷ ys) ++ ts)
    → All (λ x. t.kind x ≡ waiting) (xs ++ w ∷ ys)
    → All (IsRunning t) ts
    → let t' = record t { kind = put t.kind w tied } in
      let (m', list') = priority_list_downgrade_task t m list w in
      (rs : List ℕ) × ((rs ≡ w ∷ ts) ⊎ (rs ≡ ts ++ w ∷ []))
      × IsList m' list' ((xs ++ ys) ++ rs)
      × All (λ x. t'.kind x ≡ waiting) (xs ++ ys)
      × All (IsRunning t') rs
unfolding priority_list_downgrade_task
priority_list_downgrade_task-order t m list xs ys ts w q wait run =
    let (rs, (place, (first, ring))) =
      moved t m list xs ys ts w q
        (All-right (λ x. t.kind x ≡ waiting) (w ∷ []) ys
          (All-right (λ x. t.kind x ≡ waiting) xs (w ∷ ys) wait))
        run in
    let (_, f) = without m [] xs ys ts w q.1 in
    let (m', list') = out_of_way t m list w in
    (
      rs,
      place,
      (last_after-tasks t m' list' w ∙ first, ring),
      All-imp (λ x. (w ≢ x) × (t.kind x ≡ waiting)) (λ x. put t.kind w tied x ≡ waiting)
          (λ x h. put_other t.kind w x tied h.0 ∙ h.1) (xs ++ ys)
          (All-both (λ c. w ≢ c) (λ x. t.kind x ≡ waiting) (xs ++ ys)
            (All-left (λ c. w ≢ c) (xs ++ ys) ts f)
            (All-remove (λ x. t.kind x ≡ waiting) w xs ys wait).1),
      elim place [
        | inl e ↦ subst (All (IsRunning t')) (sym e) (itself, others)
        | inr e ↦
            subst (All (IsRunning t')) (sym e)
              (All-append (IsRunning t') ts (w ∷ []) others (itself, tt))
      ],
    )
  where
    t' : Tasks
    t' = record t { kind = put t.kind w tied }

    itself : IsRunning t' w
    itself = ap is_waiting (put_self t.kind w tied)

    others : All (IsRunning t') ts
    others =
        All-imp (IsRunning t) (IsRunning t')
          (λ x h. elim (ℕ_discrete w x) [
            | yes e ↦ rw (eq→== w x e) refl
            | no ne ↦ rw (ne→not_== w x ne) h
          ])
          ts run
