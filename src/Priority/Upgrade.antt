-- ===== src/Priority/Upgrade.antt =====
-- `priority_list_upgrade_task` keeps the order of a queue of children.
use libgomp_a.Base.{
  ℕ, ◌≡◌, ◌≢◌, refl, sym, ap, ◌∙◌, eq→==, ne→not_==, true, false, none, some, List, [], ◌∷◌, ◌++◌,
  append_assoc, put, put_self, put_other, All-remove, All-append, All-imp, All-both, ℕ_discrete,
  All-left, All-right, Fresh, Distinct-remove,
}
use mathlib.Core.Path.{subst}
use libgomp_a.Priority.{Nodes, PriorityList, Tasks, insert_begin, unlink, attach, put_at}
use libgomp_a.Priority.Reorder.{to_front, priority_list_upgrade_task}
use libgomp_a.Priority.Ring.{Ring}
use libgomp_a.Priority.Splice.{Ring-unlink}
use libgomp_a.Priority.Entries.{IsList, put_at-IsList}
use libgomp_a.Priority.Children.{last_of, last_of-append, IsWaiting, IsQueue, attach_behind}

-- The branches of `priority_list_upgrade_task`.
upgrade_behind :
    (m : Nodes) (list : PriorityList) (w p : ℕ)
    → list.last_parent_depends_on ≡ some p
    → let out = unlink m w in
      priority_list_upgrade_task m list w
      ≡ (attach out w (out.next p) p, record list { last_parent_depends_on = some w })
unfolding priority_list_upgrade_task to_front
upgrade_behind m list w p e = simp (priority_list_upgrade_task, to_front, e)

upgrade_first :
    (m : Nodes) (list : PriorityList) (w : ℕ)
    → list.last_parent_depends_on ≡ none
    → list.tasks ≡ some w
    → priority_list_upgrade_task m list w ≡ (m, record list { last_parent_depends_on = some w })
unfolding priority_list_upgrade_task to_front
upgrade_first m list w e h = simp (priority_list_upgrade_task, to_front, e, h, eq→== w w refl)

upgrade_other :
    (m : Nodes) (list : PriorityList) (x w : ℕ)
    → list.last_parent_depends_on ≡ none
    → list.tasks ≡ some x
    → x ≢ w
    → let (m', list') = put_at (unlink m w) list x w insert_begin in
      priority_list_upgrade_task m list w ≡ (m', record list' { last_parent_depends_on = some w })
unfolding priority_list_upgrade_task to_front put_at
upgrade_other m list x w e h ne =
    simp (priority_list_upgrade_task, to_front, put_at, e, h, ne→not_== x w ne)

-- The list without the task, which it held once.
pub without :
    (m : Nodes) (ds before after ts : List ℕ) (w : ℕ)
    → Ring m (ds ++ ((before ++ w ∷ after) ++ ts))
    → Ring (unlink m w) (ds ++ ((before ++ after) ++ ts))
      × Fresh w (ds ++ ((before ++ after) ++ ts))
without m ds before after ts w r =
    let rest = after ++ ts in
    let into =
      ap (λ l. ds ++ l) (append_assoc before (w ∷ after) ts)
      ∙ sym (append_assoc ds before (w ∷ rest)) in
    let back =
      append_assoc ds before rest ∙ ap (λ l. ds ++ l) (sym (append_assoc before after ts)) in
    let r' = subst (Ring m) into r in
    (
      subst (Ring (unlink m w)) back (Ring-unlink m (ds ++ before) w rest r'),
      subst (Fresh w) back (Distinct-remove w (ds ++ before) rest r'.0).0,
    )

-- The list that the branches make.
upgraded :
    (m : Nodes) (list : PriorityList) (ds before after ts : List ℕ) (w : ℕ)
    → list.last_parent_depends_on ≡ last_of ds
    → IsList m list (ds ++ ((before ++ w ∷ after) ++ ts))
    → let (m', list') = priority_list_upgrade_task m list w in
      IsList m' list' ((ds ++ w ∷ []) ++ ((before ++ after) ++ ts))
      × (list'.last_parent_depends_on ≡ some w)
upgraded m list [] [] after ts w l (e, r) = rw (upgrade_first m list w l e) ((e, r), refl)
upgraded m list [] (x ∷ xs) after ts w l (e, r) =
    let (out, f) = without m [] (x ∷ xs) after ts w r in
    subst
      (λ r. IsList r.0 r.1 (w ∷ x ∷ ((xs ++ after) ++ ts)) × (r.1.last_parent_depends_on ≡ some w))
      (sym (upgrade_other m list x w l e (λ q. f.0 (sym q))))
      (put_at-IsList (unlink m w) list x ((xs ++ after) ++ ts) w insert_begin f (e, out), refl)
upgraded m list (b ∷ bs) before after ts w l (e, r) =
    let rest = (before ++ after) ++ ts in
    let (out, f) = without m (b ∷ bs) before after ts w r in
    let (p, q, behind, _) = attach_behind (unlink m w) list b bs rest w f (e, out) in
    rw (upgrade_behind m list w p (l ∙ q))
      ((e, subst (Ring _) (sym (append_assoc (b ∷ bs) (w ∷ []) rest)) behind.1), refl)

-- A waiting task that the parent has begun to depend on goes behind the last one of those, and the
-- others keep their order.
pub priority_list_upgrade_task-IsQueue :
    (t : Tasks) (m : Nodes) (list : PriorityList) (ds before after ts : List ℕ) (w : ℕ)
    → IsQueue t m list ds (before ++ w ∷ after) ts
    → let t' = record t { parent_depends_on = put t.parent_depends_on w true } in
      let (m', list') = priority_list_upgrade_task m list w in
      IsQueue t' m' list' (ds ++ w ∷ []) (before ++ after) ts
priority_list_upgrade_task-IsQueue t m list ds before after ts w q =
    let (is_list, last) = upgraded m list ds before after ts w q.last q.is_list in
    let (at_w, others) = All-remove (IsWaiting t false) w before after q.plain in
    let (_, f) = without m ds before after ts w q.is_list.1 in
    let away =
      All-left (λ c. w ≢ c) (before ++ after) ts
        (All-right (λ c. w ≢ c) ds ((before ++ after) ++ ts) f) in
    record {
      is_list = is_list;
      awaited =
          All-append (IsWaiting t' true) ds (w ∷ [])
            (All-imp (IsWaiting t true) (IsWaiting t' true) still ds q.awaited)
            ((at_w.0, put_self t.parent_depends_on w true), tt);
      plain =
          All-imp (λ x. (w ≢ x) × IsWaiting t false x) (IsWaiting t' false)
            (λ x h. (h.1.0, put_other t.parent_depends_on w x true h.0 ∙ h.1.1)) (before ++ after)
            (All-both (λ c. w ≢ c) (IsWaiting t false) (before ++ after) away others);
      running = q.running;
      last = last ∙ sym (last_of-append ds w);
    }
  where
    t' : Tasks
    t' = record t { parent_depends_on = put t.parent_depends_on w true }

    still : (x : ℕ) → IsWaiting t true x → IsWaiting t' true x
    still x (k, d) = (
      k,
      elim (ℕ_discrete w x) [ yes e ↦ rw (eq→== w x e) refl | no ne ↦ rw (ne→not_== w x ne) d ],
    )
