-- ===== src/Barrier/Safety.antt =====
-- What the barrier promises: nobody leaves it early, and somebody can always go on.
use libgomp_a.Base.{ℕ, ◌+◌, ◌^◌, ◌≤◌, ◌<◌, ◌≡◌, inl, inr, sym, ap, ◌∙◌, arith, Bool, true, false}
use native.Mathlib.Decide.{ℕ_discrete}
use mathlib.Core.Path.{subst}
use libgomp_a.Barrier.{
  Pc, outside, loaded, last, reset, waiting, Team, Step, load, count, reset_awaited, open_barrier,
  see_open, Reach,
}
use libgomp_a.Barrier.Count.{count_true_missing}
use libgomp_a.Barrier.Rounds.{
  Inv, filling, closing, Status, Pending, is_outside, is_loaded, is_leaving, generation_of,
  generation-ne,
}
use libgomp_a.Barrier.Steps.{Inv-Reach}

-- 1 for a thread that has counted itself in the barrier it is in.
abbrev pub entered : Pc → ℕ
entered outside = 0
entered (loaded _) = 0
entered (last _) = 1
entered (reset _) = 1
entered (waiting _) = 1

Status-bounds : (k r : ℕ) (pc : Pc) (b : Bool) → Status k r pc b → (r ≤ k) × (k ≤ r + entered pc)
Status-bounds k r pc true (e, w) = (omega arith, omega arith)
Status-bounds k r pc false (is_outside e w) = (omega arith, omega arith)
Status-bounds k r pc false (is_loaded e w) = (omega arith, omega arith)
Status-bounds k r pc false (is_leaving e w) = (omega arith, omega (arith, ap entered w))

Inv-bounds :
    (n : ℕ) (s : Team)
    → Inv n s
    → (k : ℕ) × ((i : ℕ) → i < n → (s.rounds i ≤ k) × (k ≤ s.rounds i + entered (s.pc i)))
Inv-bounds n s (filling k arrived total gen sum some_left status) =
    (k, λ i lt. Status-bounds k (s.rounds i) (s.pc i) (arrived i) (status i lt))
Inv-bounds n s (closing k l st hl total gen round at_l others) = (
  k,
  λ i lt. elim (ℕ_discrete i l) [
    | yes e ↦ let r = ap s.rounds e ∙ round in (omega arith, omega arith)
    | no ne ↦ let r = (others i lt ne).0 in (omega arith, omega arith)
  ],
)

-- A team of 1 to 2 ^ 32 - 1 threads that call `gomp_barrier_wait` any number of times, their
-- accesses in any order: no thread has left more barriers than any other thread of the team has
-- counted itself in.
pub barrier_wait-safe :
    (n : ℕ) (s : Team) (i j : ℕ)
    → 0 < n
    → n < 2 ^ 32
    → Reach n s
    → i < n
    → j < n
    → s.rounds i ≤ s.rounds j + entered (s.pc j)
barrier_wait-safe n s i j h small reach li lj =
    let (k, bounds) = Inv-bounds n s (Inv-Reach n small h reach) in
    omega (arith, (bounds i li).0, (bounds j lj).1)

Pending-step :
    (n k : ℕ) (s : Team) (i : ℕ)
    → i < n
    → s.bar.generation ≡ generation_of k
    → Pending k (s.rounds i) (s.pc i)
    → (t : Team) × Step n s t
Pending-step n k s i lt gen (is_outside e w) = (_, load i lt w)
Pending-step n k s i lt gen (is_loaded e w) = (_, count i (generation_of k) lt w)
Pending-step n k s i lt gen (is_leaving e w) = (
  _,
  see_open i (generation_of (s.rounds i)) lt w
      (λ q. generation-ne (s.rounds i) (ap generation_of e ∙ sym gen ∙ q)),
)

-- The same team never comes to a state in which all its threads are stuck: one of them can make its
-- next access, where a thread that waits can do so only when the barrier has been opened.
pub barrier_wait-progress :
    (n : ℕ) (s : Team) → 0 < n → n < 2 ^ 32 → Reach n s → (t : Team) × Step n s t
barrier_wait-progress n s h small reach = elim (Inv-Reach n small h reach) [
  | filling k arrived total gen sum some_left status ↦
      let (i, lt, not_yet) = count_true_missing arrived n (omega arith) in
      Pending-step n k s i lt gen (subst (Status k (s.rounds i) (s.pc i)) not_yet (status i lt))
  | closing k l st hl total gen round at_l others ↦ elim at_l [
    | inl w ↦ (_, reset_awaited l st hl w)
    | inr (w, _) ↦ (_, open_barrier l st hl w)
  ]
]
