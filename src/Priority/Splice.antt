-- ===== src/Priority/Splice.antt =====
-- An entry goes in or out anywhere in the circle.
use libgomp_a.Base.{
  ℕ, ◌≡◌, refl, sym, ap, ◌∙◌, ◌≢◌, get_or, List, [], ◌∷◌, ◌++◌, append_assoc, Fresh, Distinct,
  Distinct-insert, Distinct-remove, All-swap,
}
use mathlib.Core.Path.{subst}
use libgomp_a.Priority.{Nodes, attach, unlink}
use libgomp_a.Priority.Ring.{
  Ring, Ring-swap, Linked, Linked-swap, Seg-split, attach_last, unlink_last,
}

-- A list that is not empty has a last element.
pub unsnoc : (b : ℕ) (bs : List ℕ) → (zs : List ℕ) × (p : ℕ) × (b ∷ bs ≡ zs ++ p ∷ [])
unsnoc b [] = ([], b, refl)
unsnoc b (c ∷ cs) = let (zs, p, e) = unsnoc c cs in (b ∷ zs, p, ap (λ l. b ∷ l) e)

-- The links between neighbours, and between the last entry and the first.
pub Ring-neighbours :
    (m : Nodes) (xs : List ℕ) (p y : ℕ) (ys : List ℕ)
    → Ring m (xs ++ p ∷ y ∷ ys)
    → (m.next p ≡ y) × (m.prev y ≡ p)
Ring-neighbours m [] p y ys (d, (l, s)) = l
Ring-neighbours m (x ∷ xs) p y ys (d, s) = (Seg-split m x xs p (y ∷ ys) x s).1.0

pub Ring-ends :
    (m : Nodes) (b : ℕ) (bs zs : List ℕ) (p : ℕ)
    → b ∷ bs ≡ zs ++ p ∷ []
    → Ring m (b ∷ bs)
    → (m.next p ≡ b) × (m.prev b ≡ p)
Ring-ends m b bs [] p e r =
    let h = ap (λ l. get_or l 0 0) e in
    let (_, (n, q)) = subst (Ring m) e r in (n ∙ sym h, ap m.prev h ∙ q)
Ring-ends m b bs (c ∷ cs) p e r =
    let h = ap (λ l. get_or l 0 0) e in
    let (n, q) = (Seg-split m c cs p [] c (subst (Ring m) e r).1).1 in (n ∙ sym h, ap m.prev h ∙ q)

-- The list `xs ++ p ∷ ys`, with `ys` read first.
turned : (xs : List ℕ) (p : ℕ) (ys : List ℕ) → ys ++ (xs ++ p ∷ []) ≡ (ys ++ xs) ++ p ∷ []
turned xs p ys = sym (append_assoc ys xs (p ∷ []))

Ring-turn :
    (m : Nodes) (xs : List ℕ) (p : ℕ) (ys : List ℕ)
    → Ring m (xs ++ p ∷ ys)
    → Ring m ((ys ++ xs) ++ p ∷ [])
Ring-turn m xs p ys r =
    subst (Ring m) (turned xs p ys)
      (Ring-swap m (xs ++ p ∷ []) ys (subst (Ring m) (sym (append_assoc xs (p ∷ []) ys)) r))

pub Ring-attach :
    (m : Nodes) (xs : List ℕ) (p : ℕ) (ys : List ℕ) (w : ℕ)
    → Fresh w (xs ++ p ∷ ys)
    → Ring m (xs ++ p ∷ ys)
    → Ring (attach m w (m.next p) p) (xs ++ p ∷ w ∷ ys)
Ring-attach m xs p ys w f r = (
  subst Distinct (append_assoc xs (p ∷ []) (w ∷ ys)) (
      Distinct-insert w (xs ++ p ∷ []) ys
        (subst (λ l. Distinct (w ∷ l)) (sym (append_assoc xs (p ∷ []) ys)) (f, r.0))),
  subst (Linked after) (append_assoc xs (p ∷ w ∷ []) ys) (
      Linked-swap after ys (xs ++ p ∷ w ∷ []) (
        subst (Linked after) (append_assoc ys xs (p ∷ w ∷ []))
          (attach_last m (ys ++ xs) p w turned_f (Ring-turn m xs p ys r)))),
)
  where
    after : Nodes
    after = attach m w (m.next p) p

    turned_f : Fresh w ((ys ++ xs) ++ p ∷ [])
    turned_f = subst (Fresh w) (turned xs p ys) (
        All-swap (λ c. w ≢ c) (xs ++ p ∷ []) ys
          (subst (Fresh w) (sym (append_assoc xs (p ∷ []) ys)) f))

unlink_end : (m : Nodes) (l : List ℕ) (w : ℕ) → Ring m (l ++ w ∷ []) → Linked (unlink m w) l
unlink_end m [] w r = tt
unlink_end m (b ∷ bs) w r =
    let (zs, p, e) = unsnoc b bs in
    subst (Linked (unlink m w)) (sym e) (
      unlink_last m zs p w
        (subst (Ring m) (ap (λ l. l ++ w ∷ []) e ∙ append_assoc zs (p ∷ []) (w ∷ [])) r))

pub Ring-unlink :
    (m : Nodes) (xs : List ℕ) (w : ℕ) (ys : List ℕ)
    → Ring m (xs ++ w ∷ ys)
    → Ring (unlink m w) (xs ++ ys)
Ring-unlink m xs w ys r = (
  (Distinct-remove w xs ys r.0).1,
  Linked-swap (unlink m w) ys xs (unlink_end m (ys ++ xs) w (Ring-turn m xs w ys r)),
)
