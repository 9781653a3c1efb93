-- ===== src/Priority/Ring.antt =====
-- The circular list that the nodes of a priority list are.
use libgomp_a.Base.{
  ℕ, ◌≡◌, ◌≢◌, sym, ◌∙◌, ap, List, [], ◌∷◌, ◌++◌, put, put_self, put_other, append-nil, Fresh,
  Distinct, Distinct-swap, All-swap,
}
use mathlib.Core.Path.{subst}
use libgomp_a.Priority.{Nodes, set_next, set_prev, attach, unlink}

-- From `a` the entries `xs`, in order, and then `z`.
abbrev pub Seg : Nodes → ℕ → List ℕ → ℕ → Type 0
Seg m a [] z = (m.next a ≡ z) × (m.prev z ≡ a)
Seg m a (x ∷ xs) z = ((m.next a ≡ x) × (m.prev x ≡ a)) × Seg m x xs z

-- The entries of the list are linked in a circle.
abbrev pub Linked : Nodes → List ℕ → Type 0
Linked m [] = Unit
Linked m (a ∷ xs) = Seg m a xs a

abbrev pub Ring : Nodes → List ℕ → Type 0
Ring m xs = Distinct xs × Linked m xs

pub Seg-split :
    (m : Nodes) (a : ℕ) (xs : List ℕ) (y : ℕ) (ys : List ℕ) (z : ℕ)
    → Seg m a (xs ++ y ∷ ys) z
    → Seg m a xs y × Seg m y ys z
Seg-split m a [] y ys z s = s
Seg-split m a (x ∷ xs) y ys z (l, s) = let (s', t) = Seg-split m x xs y ys z s in ((l, s'), t)

pub Seg-join :
    (m : Nodes) (a : ℕ) (xs : List ℕ) (y : ℕ) (ys : List ℕ) (z : ℕ)
    → Seg m a xs y
    → Seg m y ys z
    → Seg m a (xs ++ y ∷ ys) z
Seg-join m a [] y ys z s t = (s, t)
Seg-join m a (x ∷ xs) y ys z (l, s) t = (l, Seg-join m x xs y ys z s t)

-- The circle can be read from any of its entries on.
pub Linked-swap : (m : Nodes) (xs ys : List ℕ) → Linked m (xs ++ ys) → Linked m (ys ++ xs)
Linked-swap m [] ys l = subst (Linked m) (sym (append-nil ys)) l
Linked-swap m (x ∷ xs) [] l = subst (Linked m) (append-nil (x ∷ xs)) l
Linked-swap m (x ∷ xs) (y ∷ ys) l =
    let (s, t) = Seg-split m x xs y ys x l in Seg-join m y ys x xs y t s

pub Ring-swap : (m : Nodes) (xs ys : List ℕ) → Ring m (xs ++ ys) → Ring m (ys ++ xs)
Ring-swap m xs ys (d, l) = (Distinct-swap xs ys d, Linked-swap m xs ys l)

-- Writes to nodes that a part of the list does not use.
pub Seg-put_next :
    (m : Nodes) (a : ℕ) (xs : List ℕ) (z w v : ℕ)
    → w ≢ a
    → Fresh w xs
    → Seg m a xs z
    → Seg (record m { next = put m.next w v }) a xs z
Seg-put_next m a [] z w v ne f (e, e') = (put_other m.next w a v ne ∙ e, e')
Seg-put_next m a (x ∷ xs) z w v ne (ne', f) ((e, e'), s) =
    ((put_other m.next w a v ne ∙ e, e'), Seg-put_next m x xs z w v ne' f s)

pub Seg-put_prev :
    (m : Nodes) (a : ℕ) (xs : List ℕ) (z w v : ℕ)
    → w ≢ z
    → Fresh w xs
    → Seg m a xs z
    → Seg (record m { prev = put m.prev w v }) a xs z
Seg-put_prev m a [] z w v ne f (e, e') = (e, put_other m.prev w z v ne ∙ e')
Seg-put_prev m a (x ∷ xs) z w v ne (ne', f) ((e, e'), s) =
    ((e, put_other m.prev w x v ne' ∙ e'), Seg-put_prev m x xs z w v ne f s)

-- The writes of `attach` and of `unlink`, with what they read from the node.
attach-writes :
    (m : Nodes) (w after before : ℕ)
    → w ≢ after
    → attach m w after before ≡ record {
      next = put (put m.next w after) before w;
      prev = put (put m.prev w before) after w;
    }
unfolding attach
attach-writes m w after before ne =
    let own = set_prev (set_next m w after) w before in
    ap (λ a. let back = set_prev own a w in set_next back (back.prev w) w) (put_self m.next w after)
    ∙ ap (λ b. set_next (set_prev own after w) b w)
        (put_other own.prev after w w (λ e. ne (sym e)) ∙ put_self m.prev w before)

unlink-writes :
    (m : Nodes) (w : ℕ)
    → m.prev w ≢ w
    → unlink m w
      ≡ record { next = put m.next (m.prev w) (m.next w); prev = put m.prev (m.next w) (m.prev w) }
unfolding unlink
unlink-writes m w ne =
    let ahead = set_next m (m.prev w) (m.next w) in
    ap (λ a. set_prev ahead a (m.prev w)) (put_other m.next (m.prev w) w (m.next w) ne)

-- An entry `w` goes behind the last entry `p`, before the first.
pub attach_last :
    (m : Nodes) (zs : List ℕ) (p w : ℕ)
    → Fresh w (zs ++ p ∷ [])
    → Ring m (zs ++ p ∷ [])
    → Linked (attach m w (m.next p) p) (zs ++ p ∷ w ∷ [])
attach_last m [] p w (wp, _) (d, (e, e')) =
    rw (e, attach-writes m w p p wp)
      (
        (
          put_self (put m.next w p) p w,
          put_other (put m.prev w p) p w w (λ e. wp (sym e)) ∙ put_self m.prev w p,
        ),
        (
          put_other (put m.next w p) p w w (λ e. wp (sym e)) ∙ put_self m.next w p,
          put_self (put m.prev w p) p w,
        ),
      )
attach_last m (b ∷ bs) p w f (d, s) =
    let (wp, (wb, wbs)) = All-swap (λ c. w ≢ c) (b ∷ bs) (p ∷ []) f in
    let ((pb, pbs), (bbs, _)) = Distinct-swap (b ∷ bs) (p ∷ []) d in
    let (first, (e, e')) = Seg-split m b bs p [] b s in
    rw (e, attach-writes m w b p wb)
      (Seg-join _ b bs p (w ∷ []) b
        (Seg-put_prev _ b bs p b w (λ h. pb (sym h)) bbs
          (Seg-put_prev _ b bs p w p wp wbs
            (Seg-put_next _ b bs p p w pb pbs (Seg-put_next m b bs p w b wb wbs first))))
        (
          (
            put_self (put m.next w b) p w,
            put_other (put m.prev w p) b w w (λ h. wb (sym h)) ∙ put_self m.prev w p,
          ),
          (
            put_other (put m.next w b) p w w (λ h. wp (sym h)) ∙ put_self m.next w b,
            put_self (put m.prev w p) b w,
          ),
        ))

-- The last entry `w` goes away.
pub unlink_last :
    (m : Nodes) (zs : List ℕ) (p w : ℕ)
    → Ring m (zs ++ p ∷ w ∷ [])
    → Linked (unlink m w) (zs ++ p ∷ [])
unlink_last m [] p w (((pw, _), _), ((e, e'), (h, h'))) =
    rw (unlink-writes m w (λ q. pw (sym e' ∙ q)), e', h) (put_self m.next p p, put_self m.prev p p)
unlink_last m (b ∷ bs) p w (d, s) =
    let ((pw, (pb, pbs)), ((wb, _), (bbs, _))) = Distinct-swap (b ∷ bs) (p ∷ w ∷ []) d in
    let (first, ((e, e'), (h, h'))) = Seg-split m b bs p (w ∷ []) b s in
    rw (unlink-writes m w (λ q. pw (sym e' ∙ q)), e', h)
      (Seg-join _ b bs p [] b
        (Seg-put_prev _ b bs p b p (λ q. pb (sym q)) bbs (Seg-put_next m b bs p p b pb pbs first))
        (put_self m.next p b, put_self m.prev b p))
