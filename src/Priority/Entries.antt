-- ===== src/Priority/Entries.antt =====
-- `priority_list_insert` and `priority_list_remove` on the entries of a list, in order.
use libgomp_a.Base.{
  ℕ, ◌≡◌, ◌≢◌, refl, arith, sym, ap, ◌∙◌, eq→==, ne→not_==, Bool, true, false, Option, none, some,
  List, [], ◌∷◌, ◌++◌, append_assoc, put_self, ℕ_discrete, All-right, Fresh,
}
use mathlib.Core.Path.{subst}
use libgomp_a.Priority.{
  Nodes, PriorityList, InsertType, insert_begin, insert_end, set_next, set_prev, attach, unlink,
  go_behind, put_at, link_in, drop_first, first_after, priority_list_remove,
}
use libgomp_a.Priority.Ring.{Ring, Ring-swap}
use libgomp_a.Priority.Splice.{unsnoc, Ring-ends, Ring-neighbours, Ring-attach, Ring-unlink}

abbrev pub head : List ℕ → Option ℕ
head [] = none
head (x ∷ _) = some x

-- The list has the entries `xs`, in order.
abbrev pub IsList : Nodes → PriorityList → List ℕ → Type 0
IsList m list xs = (list.tasks ≡ head xs) × Ring m xs

abbrev pub inserted : InsertType → ℕ → List ℕ → List ℕ
inserted insert_begin w xs = w ∷ xs
inserted insert_end w xs = xs ++ w ∷ []

abbrev pub is_empty : List ℕ → Bool
is_empty [] = true
is_empty (_ ∷ _) = false

-- An entry alone in its circle.
pub Ring-alone : (m : Nodes) (w : ℕ) → Ring (set_prev (set_next m w w) w w) (w ∷ [])
Ring-alone m w = ((tt, tt), (put_self m.next w w, put_self m.prev w w))

pub put_at-IsList :
    (m : Nodes) (list : PriorityList) (b : ℕ) (bs : List ℕ) (w : ℕ) (pos : InsertType)
    → Fresh w (b ∷ bs)
    → IsList m list (b ∷ bs)
    → let (m', list') = put_at m list b w pos in IsList m' list' (inserted pos w (b ∷ bs))
unfolding put_at
put_at-IsList m list b bs w pos f (e, r) = by_place pos
  where
    zs : List ℕ
    zs = (unsnoc b bs).0

    p : ℕ
    p = (unsnoc b bs).1

    behind : Ring (attach m w b (m.prev b)) ((b ∷ bs) ++ w ∷ [])
    behind =
        let same = (unsnoc b bs).2 in
        let (n, q) = Ring-ends m b bs zs p same r in
        subst (λ a. Ring (attach m w a (m.prev b)) ((b ∷ bs) ++ w ∷ [])) n
          (subst (λ c. Ring (attach m w (m.next p) c) ((b ∷ bs) ++ w ∷ [])) (sym q)
            (subst (Ring (attach m w (m.next p) p))
              (sym (ap (λ l. l ++ w ∷ []) same ∙ append_assoc zs (p ∷ []) (w ∷ [])))
              (Ring-attach m zs p [] w (subst (Fresh w) same f) (subst (Ring m) same r))))

    by_place :
        (pos : InsertType)
        → let (m', list') = put_at m list b w pos in IsList m' list' (inserted pos w (b ∷ bs))
    by_place insert_begin = (refl, Ring-swap _ (b ∷ bs) (w ∷ []) behind)
    by_place insert_end = (e, behind)

-- What `link_in` does where the entry does not go behind another one.
pub link_in-IsList :
    (m : Nodes) (list : PriorityList) (xs : List ℕ) (w : ℕ) (pos : InsertType) (adjust d : Bool)
    → go_behind list pos adjust d ≡ none
    → Fresh w xs
    → IsList m list xs
    → let (m', list') = link_in m list w pos adjust d in IsList m' list' (inserted pos w xs)
unfolding link_in
link_in-IsList m list [] w insert_begin adjust d g f (e, r) = rw e (refl, Ring-alone m w)
link_in-IsList m list [] w insert_end adjust d g f (e, r) = rw e (refl, Ring-alone m w)
link_in-IsList m list (b ∷ bs) w pos adjust d g f (e, r) =
    rw (link_in, e, g) (put_at-IsList m list b bs w pos f (e, r))

-- The priority and `last_parent_depends_on` stay.
pub link_in-last :
    (m : Nodes) (list : PriorityList) (w : ℕ) (pos : InsertType) (adjust d : Bool)
    → (link_in m list w pos adjust d).1.last_parent_depends_on ≡ list.last_parent_depends_on
unfolding link_in put_at
link_in-last m list w pos adjust d = ground arith

unlink-next : (m : Nodes) (w : ℕ) → (unlink m w).next w ≡ m.next w
unfolding unlink
unlink-next m w = elim (ℕ_discrete (m.prev w) w) [
  | yes e ↦ rw (eq→== (m.prev w) w e) refl
  | no ne ↦ rw (ne→not_== (m.prev w) w ne) refl
]

first_after-end :
    (m : Nodes) (list : PriorityList) (w : ℕ)
    → list.tasks ≡ some w
    → m.next w ≡ w
    → first_after m list w ≡ (record list { tasks = none }, true)
unfolding first_after drop_first
first_after-end m list w e n =
    simp (first_after, drop_first, e, eq→== w w refl, eq→== (m.next w) w n)

first_after-more :
    (m : Nodes) (list : PriorityList) (w y : ℕ)
    → list.tasks ≡ some w
    → m.next w ≡ y
    → w ≢ y
    → first_after m list w ≡ (record list { tasks = some y }, false)
unfolding first_after drop_first
first_after-more m list w y e n ne =
    simp (first_after, drop_first, e, eq→== w w refl, n, ne→not_== y w (λ q. ne (sym q)))

first_after-other :
    (m : Nodes) (list : PriorityList) (x w : ℕ)
    → list.tasks ≡ some x
    → x ≢ w
    → first_after m list w ≡ (list, false)
unfolding first_after
first_after-other m list x w e ne = simp (first_after, e, ne→not_== x w ne)

-- The removal of an entry, wherever it is, leaves the others in their order, and tells whether
-- there are any.
pub priority_list_remove-IsList :
    (m : Nodes) (list : PriorityList) (xs : List ℕ) (w : ℕ) (ys : List ℕ)
    → IsList m list (xs ++ w ∷ ys)
    → let (m', (list', empty)) = priority_list_remove m list w in
      IsList m' list' (xs ++ ys) × (empty ≡ is_empty (xs ++ ys))
unfolding priority_list_remove
priority_list_remove-IsList m list [] w [] (e, r) =
    rw (first_after-end (unlink m w) list w e (unlink-next m w ∙ r.1.0)) ((refl, (tt, tt)), refl)
priority_list_remove-IsList m list [] w (y ∷ ys) (e, r) =
    let n = unlink-next m w ∙ (Ring-neighbours m [] w y ys r).0 in
    rw (first_after-more (unlink m w) list w y e n r.0.0.0)
      ((refl, Ring-unlink m [] w (y ∷ ys) r), refl)
priority_list_remove-IsList m list (x ∷ xs) w ys (e, r) =
    let (ne, _) = All-right (λ c. x ≢ c) xs (w ∷ ys) r.0.0 in
    rw (first_after-other (unlink m w) list x w e ne) ((e, Ring-unlink m (x ∷ xs) w ys r), refl)
