-- ===== src/WorkShares/Moves.antt =====
-- What one step of a thread leaves as it was.
use libgomp_a.Base.{
  ℕ, suc, ◌≤◌, ◌<◌, ◌≡◌, ◌≢◌, refl, sym, ap, ◌∙◌, eq→==, ne→not_==, Bool, true, false, put,
  put_other, ℕ_discrete,
}
use mathlib.Core.Path.{subst}
use libgomp_a.WorkShares.{
  PtrLock, unset, owned, awaited, ready, ptrlock_mark, Pc, creating, initialising, freeing, Member,
  Sharing,
}
use libgomp_a.WorkShares.Counts.{done, finished-same}
use libgomp_a.WorkShares.Rounds.{
  is_held, is_making, is_freeing, Status, Phase, settled, claimed, made, Turn, going_on, closing,
  Links, Inv,
}

module _ (f : ℕ → Member) (i : ℕ) (v : Member) where
  -- A property of the threads, after a write to one of them.
  pub All-put :
      (P : Member → Type 0) (Q : ℕ → Type 0) (n : ℕ)
      → P v
      → ((j : ℕ) → j < n → j ≢ i → Q j → P (f j))
      → (j : ℕ) → j < n
      → Q j
      → P (put f i v j)
  All-put P Q n p h j lt q = elim (ℕ_discrete i j) [
    | yes e ↦ rw (eq→== i j e) p
    | no ne ↦ rw (ne→not_== i j ne) (h j lt (λ e. ne (sym e)) q)
  ]

  pub done-put : done v ≡ done (f i) → (j : ℕ) → done (put f i v j) ≡ done (f j)
  done-put e j = elim (ℕ_discrete i j) [
    | yes same ↦ rw (eq→== i j same) (e ∙ ap (λ k. done (f k)) same)
    | no ne ↦ rw (ne→not_== i j ne) refl
  ]

  -- Another thread stays where it is.
  pub pc-put :
      (c : ℕ) (k : Pc)
      → (g : Pc → Bool) → g (f i).pc ≡ false
      → g k ≡ true
      → (f c).pc ≡ k
      → (i ≢ c) × ((put f i v c).pc ≡ k)
  pc-put c k g b t at =
      let ne : i ≢ c = λ q. false_true (sym b ∙ ap (λ j. g (f j).pc) q ∙ ap g at ∙ t) in
      (ne, ap (λ m. m.pc) (put_other f i c v ne) ∙ at)
    where
      false_true : ¬ (false ≡ true)
      false_true q = cc

  -- One thread moves, and neither makes nor frees a work share.
  pub Phase-move :
      (n : ℕ) (seq : ℕ → ℕ) (top hi : ℕ) (next : ℕ → PtrLock)
      → is_making (f i).pc ≡ false
      → is_making v.pc ≡ false
      → Phase n seq top hi next f
      → Phase n seq top hi next (put f i v)
  Phase-move n seq top hi next b a (settled e u rest) = settled e u (λ j lt.
      All-put (λ t. is_making t.pc ≡ false) (λ _. Unit) n a (λ j lt _ _. rest j lt) j lt tt)
  Phase-move n seq top hi next b a (claimed c e u at rest) =
      claimed c e u (pc-put c creating is_making b refl at).1
        (All-put (λ t. is_making t.pc ≡ false) (λ j. j ≢ c) n a (λ j lt _. rest j lt))
  Phase-move n seq top hi next b a (made c e u w at rest) =
      made c e u w (pc-put c initialising is_making b refl at).1
        (All-put (λ t. is_making t.pc ≡ false) (λ j. j ≢ c) n a (λ j lt _. rest j lt))

  pub Turn-move :
      (n lo : ℕ)
      → done v ≡ done (f i)
      → is_freeing (f i).pc ≡ false
      → is_freeing v.pc ≡ false
      → Turn n lo f
      → Turn n lo (put f i v)
  Turn-move n lo d b a (going_on j lt e rest) =
      going_on j lt (subst (λ k. k ≤ lo) (sym (done-put d j)) e) (λ j lt.
        All-put (λ t. is_freeing t.pc ≡ false) (λ _. Unit) n a (λ j lt _ _. rest j lt) j lt tt)
  Turn-move n lo d b a (closing c lc at all rest) =
      closing c lc (pc-put c freeing is_freeing b refl at).1
        (λ j lt. subst (λ k. lo < k) (sym (done-put d j)) (all j lt))
        (All-put (λ t. is_freeing t.pc ≡ false) (λ j. j ≢ c) n a (λ j lt _. rest j lt))

-- A step that changes one thread, which neither makes nor frees a work share, and perhaps a lock.
pub Inv-move :
    (n : ℕ) (s : Sharing) (inv : Inv n s) (i : ℕ) (v : Member) (next : ℕ → PtrLock)
    → is_making (s.threads i).pc ≡ false
    → is_making v.pc ≡ false
    → is_freeing (s.threads i).pc ≡ false
    → is_freeing v.pc ≡ false
    → done v ≡ done (s.threads i)
    → Status inv.seq inv.lo inv.top v
    → Links inv.seq inv.lo inv.top next
    → Phase n inv.seq inv.top inv.hi next s.threads
    → Inv n (record s { next_ws = next; threads = put s.threads i v })
Inv-move n s inv i v next m m' b b' d st links phase = record {
  seq = inv.seq;
  lo = inv.lo;
  top = inv.top;
  hi = inv.hi;
  low = inv.low;
  status = λ j lt.
      All-put s.threads i v (Status inv.seq inv.lo inv.top) (λ _. Unit) n st
        (λ j lt _ _. inv.status j lt) j lt tt;
  links = links;
  phase = Phase-move s.threads i v n inv.seq inv.top inv.hi next m m' phase;
  counts = λ r a c. inv.counts r a c ∙ sym (finished-same n s.threads i v r d);
  turn = Turn-move s.threads i v n inv.lo d b b' inv.turn;
  shared = inv.shared;
}

-- A lock after the second compare and swap.
marked :
    (P : PtrLock → Type 0) (next : ℕ → PtrLock) (x y : ℕ)
    → P (next y)
    → P (ptrlock_mark (next y))
    → P (put next x (ptrlock_mark (next x)) y)
marked P next x y p q = elim (ℕ_discrete x y) [
  | yes e ↦ rw (eq→== x y e) (subst (λ z. P (ptrlock_mark (next z))) (sym e) q)
  | no ne ↦ rw (ne→not_== x y ne) p
]

mark_held : (l : PtrLock) → is_held l ≡ true → is_held (ptrlock_mark l) ≡ true
unfolding ptrlock_mark
mark_held unset e = e
mark_held owned e = refl
mark_held awaited e = e
mark_held (ready b) e = e

mark_other : (l k : PtrLock) → is_held l ≡ false → l ≡ k → ptrlock_mark l ≡ k
unfolding ptrlock_mark
mark_other unset k h e = e
mark_other owned k h e = cc
mark_other awaited k h e = cc
mark_other (ready b) k h e = e

module _ (seq : ℕ → ℕ) (top : ℕ) (next : ℕ → PtrLock) (x : ℕ) where
  pub Links-mark :
      (lo : ℕ) → Links seq lo top next → Links seq lo top (put next x (ptrlock_mark (next x)))
  Links-mark lo links r a b =
      let e = links r a b in
      marked (λ l. l ≡ ready (seq (suc r))) next x (seq r) e
        (mark_other (next (seq r)) (ready (seq (suc r))) (ap is_held e) e)

  held : (y : ℕ) → is_held (next y) ≡ true → is_held (put next x (ptrlock_mark (next x)) y) ≡ true
  held y h = marked (λ l. is_held l ≡ true) next x y h (mark_held (next y) h)

  still_unset : (y : ℕ) → next y ≡ unset → put next x (ptrlock_mark (next x)) y ≡ unset
  still_unset y e = marked (λ l. l ≡ unset) next x y e (mark_other (next y) unset (ap is_held e) e)

  pub Phase-mark :
      (n hi : ℕ) (f : ℕ → Member)
      → Phase n seq top hi next f
      → Phase n seq top hi (put next x (ptrlock_mark (next x))) f
  Phase-mark n hi f (settled e u rest) = settled e (still_unset (seq top) u) rest
  Phase-mark n hi f (claimed c e h at rest) = claimed c e (held (seq top) h) at rest
  Phase-mark n hi f (made c e h u at rest) =
      made c e (held (seq top) h) (still_unset (seq hi) u) at rest
