-- ===== src/LoopUll/Facts.antt =====
-- The loops over `unsigned long long` against those over `long`, and their ORDERED queue.
use libgomp_a.Base.{
  ℕ, suc, ◌*◌, ◌%◌, ◌^◌, ◌≤◌, ◌<◌, ◌≡◌, refl, arith, Bool, true, false, Option, none, some, pos,
  List, ◌∷◌, ◌*ℤ◌, Bool-cases, inl, inr,
}
use libgomp_a.Iter.{Schedule, WorkShare, Thread}
use libgomp_a.IterUll.{WorkShareUll, iter_ull_dynamic_next_locked}
use libgomp_a.IterUll.Locked.{share_words}
use libgomp_a.Ordered.{Ordered}
use libgomp_a.Ordered.Queue.{Holds, sync-head}
use libgomp_a.Ordered.Moves.{last-Holds, next-Holds}
use libgomp_a.Loop.{loop_init, canonical_end, is_dynamic}
use libgomp_a.Loop.InOrder.{line_after}
use libgomp_a.LoopUll.{
  end_of_ull, loop_ull_init, UllResult, handed_on_ull, ull_ordered_dynamic_next,
}

scale_pos : (c k : ℕ) → pos c *ℤ pos (suc k) ≡ pos (c * suc k)
unfolding ◌*ℤ◌
scale_pos c k = ground arith

end-refines : (a b k : ℕ) → canonical_end (pos a) (pos b) (pos (suc k)) ≡ pos (end_of_ull true a b)
unfolding end_of_ull
end-refines a b k = ground arith

end_word : (a b : ℕ) → a < 2 ^ 63 → b < 2 ^ 63 → end_of_ull true a b % 2 ^ 64 ≡ end_of_ull true a b
unfolding end_of_ull
end_word a b ha hb = ground arith

-- For a loop that counts up whose bounds, step and chunk width are below 2 ^ 63,
-- `gomp_loop_ull_init` sets up the words of what `gomp_loop_init` sets up, their modes apart.
pub loop_ull_init-refines :
    (before : WorkShare) (threads a b k c : ℕ) (sched : Schedule)
    → a < 2 ^ 63
    → b < 2 ^ 63
    → k < 2 ^ 63
    → c * suc k < 2 ^ 63
    → record (loop_ull_init threads true a b (suc k) sched c) { mode = 0 }
      ≡ record (share_words
          (loop_init before threads (pos a) (pos b) (pos (suc k)) sched (pos c))) { mode = 0 }
unfolding loop_ull_init loop_init
loop_ull_init-refines before threads a b k c sched ha hb hk hc =
    let aw : a % 2 ^ 64 ≡ a = omega arith in
    let kw : suc k % 2 ^ 64 ≡ suc k = omega arith in
    let ew : end_of_ull true a b % 2 ^ 64 ≡ end_of_ull true a b = end_word a b ha hb in
    elim (Bool-cases (is_dynamic sched)) [
      | inl dynamic ↦ rw (dynamic, scale_pos c k, end-refines a b k, aw, kw, ew) refl
      | inr other ↦
          let cw : c % 2 ^ 64 ≡ c = grind arith in
          rw (other, end-refines a b k, aw, kw, ew, cw) refl
    ]

module _ (threads : ℕ) (two : 2 ≤ threads) (few : threads < 2 ^ 31) (me trip : ℕ) where
  handed_on_ull-Holds :
      (r : Option (ℕ × ℕ) × WorkShareUll) {o : Ordered} {q : List ℕ}
      → Holds threads o (me ∷ q) true
      → Holds threads
          (handed_on_ull r
            (record { team = some threads; team_id = me; static_trip = trip })
            o).ordered
          (line_after me r.0 q)
          false
  handed_on_ull-Holds (some b, ws) h = next-Holds threads two few me h
  handed_on_ull-Holds (none, ws) h = last-Holds threads two few me h

  -- In a team of at least two and fewer than 2 ^ 31 threads, the thread at the head of the queue
  -- is not blocked in `gomp_loop_ull_ordered_dynamic_next`: it gets the next block, goes to the
  -- end of the queue if there was one and leaves it otherwise.
  pub ull_ordered_dynamic_next-Holds :
      (ws : WorkShareUll) {o : Ordered} {q : List ℕ} {inside : Bool}
      → me < threads
      → Holds threads o (me ∷ q) inside
      → (r : UllResult) × (ull_ordered_dynamic_next ws
            (record { team = some threads; team_id = me; static_trip = trip })
            o
          ≡ some r)
        × ((r.block, r.ws) ≡ iter_ull_dynamic_next_locked ws)
        × Holds threads r.ordered (line_after me r.block q) false
  unfolding ull_ordered_dynamic_next
  ull_ordered_dynamic_next-Holds ws {o} {q} lt h =
      let (o1, e, h1) = sync-head threads two few me lt h in
      let caller : Thread = record { team = some threads; team_id = me; static_trip = trip } in
      let r = handed_on_ull (iter_ull_dynamic_next_locked ws) caller o1 in
      (r, rw e refl, refl, handed_on_ull-Holds (iter_ull_dynamic_next_locked ws) h1)
