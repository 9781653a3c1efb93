-- ===== src/Ordered/Section.antt =====
-- The threads of a team at the ordered section of a dynamic or guided loop, in any order: loop.c
-- calls `gomp_ordered_first` when a thread gets its first block, and `gomp_ordered_sync` before
-- `gomp_ordered_next` or `gomp_ordered_last` when it asks for another.
use libgomp_a.Base.{
  ℕ, ◌^◌, ◌≤◌, ◌<◌, ◌≡◌, refl, ap, sym, ◌∙◌, some, List, [], ◌∷◌, ◌++◌, arith, Bool, true, false,
  length, All, ℕ_discrete,
}
use mathlib.Core.Path.{subst}
use libgomp_a.Ordered.{
  Ordered, ordered_first, ordered_last, ordered_next, ordered_sync, fresh_ordered,
}
use libgomp_a.Ordered.Queue.{Holds, joined, first-Holds, sync-head, sync-blocks}
use libgomp_a.Ordered.Moves.{last-Holds, next-Holds}

-- A call of one thread. A thread joins while fewer than the whole team are in the queue, and asks
-- for another block only after its `gomp_ordered_sync`, which leaves it the owner.
pub data Step (threads : ℕ) (o : Ordered) : Ordered → Type 0 where
  join :
      (me : ℕ)
      → me < threads
      → o.num_used < threads
      → Step threads o (ordered_first (some threads) me o)
  sync :
      (me : ℕ) {o' : Ordered}
      → me < threads
      → ordered_sync (some threads) me o ≡ some o'
      → Step threads o o'
  again : (me : ℕ) → me < threads → o.owner ≡ me → Step threads o (ordered_next (some threads) me o)
  leave : (me : ℕ) → me < threads → o.owner ≡ me → Step threads o (ordered_last (some threads) o)

pub data Reach (threads : ℕ) (zeroed : List ℕ) : Ordered → Type 0 where
  start : Reach threads zeroed (fresh_ordered zeroed)
  later : {o o' : Ordered} → Reach threads zeroed o → Step threads o o' → Reach threads zeroed o'

-- The state stands for some queue of threads.
abbrev IsLine : ℕ → Ordered → Type 0
IsLine threads o =
    (q : List ℕ) × (inside : Bool) × Holds threads o q inside × All (λ i. i < threads) q

All-snoc : (n x : ℕ) (q : List ℕ) → All (λ i. i < n) q → x < n → All (λ i. i < n) (q ++ x ∷ [])
All-snoc n x [] a h = (h, tt)
All-snoc n x (y ∷ q) a h = (a.0, All-snoc n x q a.1 h)

fresh-Holds :
    (threads : ℕ) (zeroed : List ℕ)
    → 0 < threads
    → length zeroed ≡ threads
    → Holds threads (fresh_ordered zeroed) [] false
unfolding fresh_ordered
fresh-Holds threads zeroed h e = record {
  size = e;
  cur_in = h;
  used = refl;
  room = omega arith;
  ids = refl;
  tokens = λ i. refl;
  owner = refl;
}

-- The owner of the section is the head of the queue.
owner-head :
    (threads me : ℕ) {o : Ordered} (q : List ℕ) (inside : Bool)
    → threads < 2 ^ 31
    → me < threads
    → o.owner ≡ me
    → Holds threads o q inside
    → (rest : List ℕ) × Holds threads o (me ∷ rest) true × (q ≡ me ∷ rest)
owner-head threads me [] inside few lt e h = absurd (omega (arith, h.owner))
owner-head threads me {o} (x ∷ q) true few lt e h =
    let same : x ≡ me = sym h.owner ∙ e in
    (q, subst (λ y. Holds threads o (y ∷ q) true) same h, ap (λ y. y ∷ q) same)
owner-head threads me (x ∷ q) false few lt e h = absurd (omega (arith, h.owner))

module _ (threads : ℕ) (two : 2 ≤ threads) (few : threads < 2 ^ 31) where
  -- Whoever passes `gomp_ordered_sync` is the head of the queue.
  passes-head :
      (me : ℕ) {o o' : Ordered} (q : List ℕ) (inside : Bool)
      → me < threads
      → ordered_sync (some threads) me o ≡ some o'
      → Holds threads o q inside
      → (rest : List ℕ) × (q ≡ me ∷ rest)
  passes-head me [] inside lt e h =
      let blocked = sync-blocks threads two few me lt h (λ rest q. cc) in cc
  passes-head me (x ∷ q) inside lt e h = elim (ℕ_discrete x me) [
    | yes same ↦ (q, ap (λ y. y ∷ q) same)
    | no other ↦ let blocked = sync-blocks threads two few me lt h (λ rest e. other (cc)) in cc
  ]

  Step-IsLine : {o o' : Ordered} → Step threads o o' → IsLine threads o → IsLine threads o'
  Step-IsLine {o} (join me lt room) (q, inside, h, a) = (
    q ++ me ∷ [],
    joined q inside,
    first-Holds threads two few me h (omega (arith, h.used)),
    All-snoc threads me q a lt,
  )
  Step-IsLine {o} (sync me {o'} lt e) (q, inside, h, a) =
      let (rest, head) = passes-head me q inside lt e h in
      let h' = subst (λ l. Holds threads o l inside) head h in
      let (after, e', h'') = sync-head threads two few me lt h' in
      (
        me ∷ rest,
        true,
        subst (λ x. Holds threads x (me ∷ rest) true) (cc) h'',
        subst (All (λ i. i < threads)) head a,
      )
  Step-IsLine {o} (again me lt e) (q, inside, h, a) =
      let (rest, h', head) = owner-head threads me q inside few lt e h in
      (
        rest ++ me ∷ [],
        false,
        next-Holds threads two few me h',
        All-snoc threads me rest (subst (All (λ i. i < threads)) head a).1 lt,
      )
  Step-IsLine {o} (leave me lt e) (q, inside, h, a) =
      let (rest, h', head) = owner-head threads me q inside few lt e h in
      (rest, false, last-Holds threads two few me h', (subst (All (λ i. i < threads)) head a).1)

  Reach-IsLine :
      {zeroed : List ℕ} {o : Ordered}
      → length zeroed ≡ threads
      → Reach threads zeroed o
      → IsLine threads o
  Reach-IsLine {zeroed} e start = ([], false, fresh-Holds threads zeroed (omega arith) e, tt)
  Reach-IsLine e (later r st) = Step-IsLine st (Reach-IsLine e r)

  -- In a team of at least two and fewer than 2 ^ 31 threads, in a state that the threads' calls
  -- reach, at most one thread passes `gomp_ordered_sync`.
  pub ordered_sync-exclusive :
      {zeroed : List ℕ} {o o1 o2 : Ordered} (i j : ℕ)
      → length zeroed ≡ threads
      → Reach threads zeroed o
      → i < threads
      → j < threads
      → ordered_sync (some threads) i o ≡ some o1
      → ordered_sync (some threads) j o ≡ some o2
      → i ≡ j
  ordered_sync-exclusive i j e r li lj p q =
      let (line, inside, h, a) = Reach-IsLine e r in
      let (_, hi) = passes-head i line inside li p h in
      let (_, hj) = passes-head j line inside lj q h in cc

  -- No wake-up is lost: in a team of at least two and fewer than 2 ^ 31 threads, in a reachable
  -- state in which threads are registered in the queue, one of the team passes
  -- `gomp_ordered_sync`, and is the owner then.
  pub ordered_sync-progress :
      {zeroed : List ℕ} {o : Ordered}
      → length zeroed ≡ threads
      → Reach threads zeroed o
      → 0 < o.num_used
      → (i : ℕ) × (i < threads)
        × ((o' : Ordered) × (ordered_sync (some threads) i o ≡ some o') × (o'.owner ≡ i))
  ordered_sync-progress {zeroed} {o} e r used = from (Reach-IsLine e r)
    where
      from :
          IsLine threads o
          → (i : ℕ) × (i < threads)
            × ((o' : Ordered) × (ordered_sync (some threads) i o ≡ some o') × (o'.owner ≡ i))
      from ([], inside, h, a) = absurd (omega (arith, h.used))
      from (x ∷ q, inside, h, a) =
          let (o', p, h') = sync-head threads two few x a.0 h in (x, a.0, (o', p, h'.owner))
