-- ===== src/Ordered/Moves.antt =====
-- How a thread moves on in the queue of the ordered section: `gomp_ordered_next`, which puts it at the
-- end again, and `gomp_ordered_last`, which takes it off.
use mathlib.Core.Path.{ap₂}
use libgomp_a.Base.{
  ℕ, suc, ◌+◌, ◌^◌, ◌≤◌, ◌<◌, ◌≡◌, refl, ap, sym, ◌∙◌, some, List, [], ◌∷◌, ◌++◌, arith, true,
  false, ◌==◌, ltb, u32, sub_u32, uint_max, eq→==, ne→not_==, le→not_ltb, lt→ltb, ltb→lt,
  Bool-cases, inl, inr, length, length-append, get_or, set, length-set,
}
use libgomp_a.Ordered.{
  Ordered, wrap_index, next_index, enqueue, advance, ordered_last, ordered_next,
}
use libgomp_a.Ordered.Ring.{
  entries, next_index-lt, entries-snoc, entries-enqueue, wrap_next, wrap_round,
}
use libgomp_a.Ordered.Queue.{Holds, head_eq, tail_eq}

module _ (threads : ℕ) (two : 2 ≤ threads) (few : threads < 2 ^ 31) where
  team_test : (threads == 1) ≡ false
  team_test = ne→not_== threads 1 (omega arith)

  advance-Holds :
      (o : Ordered) (y : ℕ) (q : List ℕ)
      → length o.team_ids ≡ threads
      → o.cur < threads
      → o.num_used ≡ suc (length q)
      → suc (length q) ≤ threads
      → entries o.team_ids threads (next_index threads o.cur) (suc (length q)) ≡ y ∷ q
      → ((i : ℕ) → o.release i ≡ 0)
      → o.owner ≡ uint_max
      → Holds threads (advance threads o) (y ∷ q) false
  unfolding advance
  advance-Holds o y q size cur_in used room ids quiet owner =
      let first : get_or o.team_ids (next_index threads o.cur) 0 ≡ y = head_eq _ _ _ _ ids in
      record {
        size = size;
        cur_in = next_index-lt threads few o.cur cur_in;
        used = used;
        room = room;
        ids = ids;
        tokens = λ i. ground (arith, quiet i, first);
        owner = owner;
      }

  -- `gomp_ordered_last` takes the head, which is inside, off the queue, and wakes the next thread.
  pub last-Holds :
      {o : Ordered} {q : List ℕ} (me : ℕ)
      → Holds threads o (me ∷ q) true
      → Holds threads (ordered_last (some threads) o) q false
  unfolding ordered_last
  last-Holds {o} {q = []} me h =
      rw (team_test, le→not_ltb 0 (sub_u32 o.num_used 1) (omega (arith, h.used)))
        (record {
          size = h.size;
          cur_in = h.cur_in;
          used = omega (arith, h.used);
          room = omega arith;
          ids = refl;
          tokens = h.tokens;
          owner = refl;
        })
  last-Holds {o} {q = y ∷ q} me h =
      rw (team_test, lt→ltb 0 (sub_u32 o.num_used 1) (omega (arith, h.used, h.room)))
        (advance-Holds (record o { owner = uint_max; num_used = sub_u32 o.num_used 1 }) y q h.size
          h.cur_in (omega (arith, h.used, h.room)) (omega (arith, h.room)) (tail_eq _ _ _ _ h.ids)
          h.tokens refl)

  -- The entries after the head with the head's id written behind them.
  rotated_room :
      {o : Ordered} {q : List ℕ} (me : ℕ)
      → Holds threads o (me ∷ q) true
      → suc (length q) < threads
      → entries
          (set o.team_ids (wrap_index threads (u32 (o.cur + o.num_used))) me)
          threads
          (next_index threads o.cur)
          (suc (length q))
        ≡ q ++ me ∷ []
  rotated_room {o} {q} me h lt =
      let next = next_index threads o.cur in
      ap (λ p. entries (set o.team_ids p me) threads next (suc (length q))) place
      ∙ entries-enqueue threads few o.team_ids me next (length q)
          (next_index-lt threads few o.cur h.cur_in) (omega arith) h.size
      ∙ ap (λ l. l ++ me ∷ []) (tail_eq _ _ _ _ h.ids)
    where
      place :
          wrap_index threads (u32 (o.cur + o.num_used))
          ≡ wrap_index threads (u32 (next_index threads o.cur + length q))
      place =
          ap (λ n. wrap_index threads (u32 (o.cur + n))) h.used
          ∙ sym (wrap_next threads few o.cur (length q) h.cur_in (omega arith))

  -- In a full queue the head's id already stands behind the others.
  rotated_full :
      {o : Ordered} {q : List ℕ} (me : ℕ)
      → Holds threads o (me ∷ q) true
      → suc (length q) ≡ threads
      → entries o.team_ids threads (next_index threads o.cur) (suc (length q)) ≡ q ++ me ∷ []
  rotated_full {o} {q} me h full =
      let next = next_index threads o.cur in
      entries-snoc threads few o.team_ids next (length q) (next_index-lt threads few o.cur h.cur_in)
        (omega arith)
      ∙ ap₂ (λ l x. l ++ x ∷ []) (tail_eq _ _ _ _ h.ids)
          (ap (λ p. get_or o.team_ids p 0) (wrap_round threads few o.cur (length q) h.cur_in full)
            ∙ head_eq _ _ _ _ h.ids)

  -- `gomp_ordered_next` moves the head, which is inside, to the end of the queue, and wakes the
  -- thread that is then at the head.
  pub next-Holds :
      {o : Ordered} {q : List ℕ} (me : ℕ)
      → Holds threads o (me ∷ q) true
      → Holds threads (ordered_next (some threads) me o) (q ++ me ∷ []) false
  unfolding ordered_next
  next-Holds {o} {q = []} me h =
      rw (team_test, eq→== o.num_used 1 h.used)
        (record {
          size = h.size;
          cur_in = h.cur_in;
          used = h.used;
          room = h.room;
          ids = h.ids;
          tokens = λ i. ground (arith, h.tokens i);
          owner = refl;
        })
  next-Holds {o} {q = y ∷ q} me h =
      let behind = length-append q (me ∷ []) in
      rw (team_test, ne→not_== o.num_used 1 (omega (arith, h.used)))
        (elim (Bool-cases (ltb o.num_used threads)) [
          | inl lt ↦ rw lt (
              advance-Holds (enqueue threads me (record o { owner = uint_max })) y (q ++ me ∷ [])
                (length-set o.team_ids (wrap_index threads (u32 (o.cur + o.num_used))) me ∙ h.size)
                h.cur_in (omega (arith, h.used)) (omega (arith, h.room))
                (longer (set o.team_ids (wrap_index threads (u32 (o.cur + o.num_used))) me)
                  (rotated_room me h (omega (arith, h.used, ltb→lt o.num_used threads lt))))
                h.tokens refl)
          | inr full ↦ rw full (
              advance-Holds (record o { owner = uint_max }) y (q ++ me ∷ []) h.size h.cur_in
                (omega (arith, h.used)) (omega (arith, h.room))
                (longer o.team_ids (rotated_full me h (ground (arith, h.used, h.room, full))))
                h.tokens refl)
        ])
    where
      longer :
          (ids : List ℕ)
          → entries ids threads (next_index threads o.cur) (suc (suc (length q)))
            ≡ y ∷ (q ++ me ∷ [])
          → entries ids threads (next_index threads o.cur) (suc (length (q ++ me ∷ [])))
            ≡ y ∷ (q ++ me ∷ [])
      longer ids e =
          ap (λ n. entries ids threads (next_index threads o.cur) (suc n)) {y = suc (length q)}
            (omega (arith, length-append q (me ∷ [])))
          ∙ e
