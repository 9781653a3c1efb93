-- ===== src/Priority/Children.antt =====
-- The order of a queue of children: the waiting tasks that the parent depends on, the other waiting
-- tasks, and the rest, as the comment at `priority_list_upgrade_task` has it.
use libgomp_a.Base.{
  ℕ, ◌≡◌, refl, sym, ap, ◌∙◌, inl, inr, Option-cases, if◌then◌else◌, Bool, true, false, Option,
  none, some, List, [], ◌∷◌, ◌++◌, append_assoc, All, Fresh,
}
use mathlib.Core.Path.{subst}
use libgomp_a.Priority.{
  Nodes, PriorityList, Tasks, waiting, is_waiting, insert_begin, attach, go_behind, link_in,
  priority_list_insert,
}
use libgomp_a.Priority.Ring.{Ring}
use libgomp_a.Priority.Splice.{unsnoc, Ring-attach}
use libgomp_a.Priority.Entries.{IsList, link_in-IsList, link_in-last}

abbrev pub last_of : List ℕ → Option ℕ
last_of [] = none
last_of (x ∷ []) = some x
last_of (_ ∷ y ∷ ys) = last_of (y ∷ ys)

pub last_of-append : (zs : List ℕ) (p : ℕ) → last_of (zs ++ p ∷ []) ≡ some p
last_of-append [] p = refl
last_of-append (z ∷ []) p = refl
last_of-append (z ∷ y ∷ ys) p = last_of-append (y ∷ ys) p

abbrev pub IsWaiting : Tasks → Bool → ℕ → Type 0
IsWaiting t d x = (t.kind x ≡ waiting) × (t.parent_depends_on x ≡ d)

abbrev pub IsRunning : Tasks → ℕ → Type 0
IsRunning t x = is_waiting (t.kind x) ≡ false

pub record IsQueue (t : Tasks) (m : Nodes) (list : PriorityList) (ds ps ts : List ℕ) : Type 0 where
  pub is_list : IsList m list (ds ++ (ps ++ ts))
  pub awaited : All (IsWaiting t true) ds
  pub plain : All (IsWaiting t false) ps
  pub running : All (IsRunning t) ts
  pub last : list.last_parent_depends_on ≡ last_of ds

-- The entry behind the last one that the parent depends on.
pub attach_behind :
    (m : Nodes) (list : PriorityList) (b : ℕ) (bs rest : List ℕ) (w : ℕ)
    → Fresh w ((b ∷ bs) ++ rest)
    → IsList m list ((b ∷ bs) ++ rest)
    → (p : ℕ) × (last_of (b ∷ bs) ≡ some p)
      × IsList (attach m w (m.next p) p) list ((b ∷ bs) ++ w ∷ rest)
      × (last_of ((b ∷ bs) ++ w ∷ []) ≡ some w)
attach_behind m list b bs rest w f (e, r) =
    let (zs, p, same) = unsnoc b bs in
    let at : (l : List ℕ) → (b ∷ bs) ++ l ≡ zs ++ p ∷ l =
      λ l. ap (λ k. k ++ l) same ∙ append_assoc zs (p ∷ []) l in
    (
      p,
      ap last_of same ∙ last_of-append zs p,
      (
        e,
        subst (Ring (attach m w (m.next p) p)) (sym (at (w ∷ rest)))
            (Ring-attach m zs p rest w (subst (Fresh w) (at rest) f) (subst (Ring m) (at rest) r)),
      ),
      last_of-append (b ∷ bs) w,
    )

link_in-behind :
    (m : Nodes) (list : PriorityList) (b w p : ℕ)
    → list.tasks ≡ some b
    → list.last_parent_depends_on ≡ some p
    → link_in m list w insert_begin true false ≡ (attach m w (m.next p) p, list)
unfolding link_in go_behind
link_in-behind m list b w p e l = simp (link_in, go_behind, e, l)

-- `last_parent_depends_on` after an insertion: it is set only where it was NULL.
insert_last-some :
    (m : Nodes) (list : PriorityList) (w : ℕ) (d : Bool) (p : ℕ)
    → list.last_parent_depends_on ≡ some p
    → priority_list_insert m list w insert_begin true d ≡ link_in m list w insert_begin true d
unfolding priority_list_insert
insert_last-some m list w d p e =
    rw (priority_list_insert, link_in-last m list w insert_begin true d ∙ e) refl

insert_last-none :
    (m : Nodes) (list : PriorityList) (w : ℕ) (d : Bool)
    → list.last_parent_depends_on ≡ none
    → let (m', list') = link_in m list w insert_begin true d in
      priority_list_insert m list w insert_begin true d
      ≡ (m', if d then record list' { last_parent_depends_on = some w } else list')
unfolding priority_list_insert
insert_last-none m list w d e =
    rw (priority_list_insert, link_in-last m list w insert_begin true d ∙ e) refl

abbrev KeepsOrder : Tasks → Nodes → PriorityList → List ℕ → List ℕ → List ℕ → ℕ → Bool → Type 0
KeepsOrder t m list ds ps ts w d =
    let (m', list') = priority_list_insert m list w insert_begin true d in
    IsQueue t m' list' (if d then w ∷ ds else ds) (if d then ps else w ∷ ps) ts

insert_by :
    (t : Tasks) (m : Nodes) (list : PriorityList) (ds ps ts : List ℕ) (w : ℕ) (d : Bool)
    → IsQueue t m list ds ps ts
    → Fresh w (ds ++ (ps ++ ts))
    → IsWaiting t d w
    → KeepsOrder t m list ds ps ts w d
unfolding go_behind
insert_by t m list [] ps ts w true q f wait =
    let (first, ring) =
      link_in-IsList m list (ps ++ ts) w insert_begin true true refl f q.is_list in
    rw (insert_last-none m list w true q.last) (record {
      is_list = (first, ring);
      awaited = (wait, tt);
      plain = q.plain;
      running = q.running;
      last = refl;
    })
insert_by t m list [] ps ts w false q f wait = rw (insert_last-none m list w false q.last) (record {
  is_list = link_in-IsList m list (ps ++ ts) w insert_begin true false q.last f q.is_list;
  awaited = tt;
  plain = (wait, q.plain);
  running = q.running;
  last = link_in-last m list w insert_begin true false ∙ q.last;
})
insert_by t m list (b ∷ bs) ps ts w true q f wait =
    let (p, e, _, _) = attach_behind m list b bs (ps ++ ts) w f q.is_list in
    rw (insert_last-some m list w true p (q.last ∙ e)) (record {
      is_list =
          link_in-IsList m list ((b ∷ bs) ++ (ps ++ ts)) w insert_begin true true refl f q.is_list;
      awaited = (wait, q.awaited);
      plain = q.plain;
      running = q.running;
      last = link_in-last m list w insert_begin true true ∙ q.last;
    })
insert_by t m list (b ∷ bs) ps ts w false q f wait =
    let (p, e, behind, _) = attach_behind m list b bs (ps ++ ts) w f q.is_list in
    rw
      (
        insert_last-some m list w false p (q.last ∙ e),
        link_in-behind m list b w p q.is_list.0 (q.last ∙ e),
      )
      (record {
        is_list = behind;
        awaited = q.awaited;
        plain = (wait, q.plain);
        running = q.running;
        last = q.last;
      })

unadjusted :
    (m : Nodes) (list : PriorityList) (w : ℕ) (d : Bool)
    → priority_list_insert m list w insert_begin false d ≡ link_in m list w insert_begin false d
unfolding priority_list_insert
unadjusted m list w d =
    elim (Option-cases (link_in m list w insert_begin false d).1.last_parent_depends_on) [
      | inl e ↦ rw (priority_list_insert, e) refl
      | inr (last, e) ↦ rw (priority_list_insert, e) refl
    ]

-- A waiting task goes to the front of a queue of children. With `adjust_parent_depends_on` the queue
-- keeps its order: the task goes before all others if the parent depends on it, and else behind all
-- those that the parent depends on. Without, it goes before all others whatever the parent depends
-- on, and `last_parent_depends_on` stays.
pub priority_list_insert-IsQueue :
    (t : Tasks) (m : Nodes) (list : PriorityList) (ds ps ts : List ℕ) (w : ℕ)
    → IsQueue t m list ds ps ts
    → Fresh w (ds ++ (ps ++ ts))
    → t.kind w ≡ waiting
    → let d = t.parent_depends_on w in
      let (m', list') = priority_list_insert m list w insert_begin true d in
      let (m'', list'') = priority_list_insert m list w insert_begin false d in
      IsQueue t m' list' (if d then w ∷ ds else ds) (if d then ps else w ∷ ps) ts
      × IsList m'' list'' (w ∷ (ds ++ (ps ++ ts)))
      × (list''.last_parent_depends_on ≡ last_of ds)
unfolding go_behind
priority_list_insert-IsQueue t m list ds ps ts w q f wait =
    let d = t.parent_depends_on w in
    let xs = ds ++ (ps ++ ts) in
    (
      insert_by t m list ds ps ts w d q f (wait, refl),
      rw (unadjusted m list w d) (link_in-IsList m list xs w insert_begin false d refl f q.is_list),
      rw (unadjusted m list w d) (link_in-last m list w insert_begin false d ∙ q.last),
    )
