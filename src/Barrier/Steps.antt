-- ===== src/Barrier/Steps.antt =====
-- Every step of a thread keeps the invariant of the barrier.
use libgomp_a.Base.{
  put, put_other, put_self, ℕ, suc, ◌+◌, ◌-◌, ◌*◌, ◌^◌, ◌/◌, ◌%◌, ◌<◌, ◌≡◌, ◌≢◌, inl, inr, refl,
  sym, ap, ◌∙◌, arith, Bool, true, false, u32, sub_u32, eq→==, ne→not_==,
}
use native.Mathlib.Decide.{ℕ_discrete}
use mathlib.Core.Path.{subst}
use libgomp_a.Barrier.{
  outside, loaded, last, waiting, Team, leave, Step, load, count, reset_awaited, open_barrier,
  see_open, initial, Reach, here, later, wait_load, wait_count, was_last, wait_end, wait_reset,
  wait_open, barrier_init,
}
use libgomp_a.Barrier.Count.{count_true, count_true-put, count_true_all, count_true_none}
use libgomp_a.Barrier.Rounds.{
  Inv, filling, closing, Status, Arrived, is_outside, is_loaded, is_leaving, generation_of,
  generation-load, generation-next, Status-outside, Status-loaded, Status-last, Status-leaving,
  Status-put, Status-move, closing-outside, closing-loaded, closing-last, closing-reset,
  closing-waiting,
}

Inv-initial : (n : ℕ) → 0 < n → Inv n (initial n)
unfolding barrier_init
Inv-initial n h =
    filling 0 (λ _. false) refl refl (omega (arith, count_true_none n)) h
      (λ i lt. is_outside refl refl)

-- The two branches of `gomp_barrier_wait_end`.
wait_end-last : (k : ℕ) → wait_end (generation_of k + 1) ≡ last (generation_of k + 1)
unfolding wait_end was_last
wait_end-last k = let odd : (generation_of k + 1) % 2 ≡ 1 = omega arith in rw (eq→== _ 1 odd) refl

wait_end-waiting : (k : ℕ) → wait_end (generation_of k) ≡ waiting (generation_of k)
unfolding wait_end was_last
wait_end-waiting k =
    let even : (generation_of k % 2) ≢ 1 = λ e. absurd (omega arith) in rw (ne→not_== _ 1 even) refl

module _ (n : ℕ) (small : n < 2 ^ 32) where
  -- A thread counts itself while the round fills up.
  filling-count :
      (s : Team) (k : ℕ) (arrived : ℕ → Bool) (i state : ℕ)
      → s.bar.total ≡ n
      → s.bar.generation ≡ generation_of k
      → count_true arrived n + s.bar.awaited ≡ n
      → 0 < s.bar.awaited
      → ((j : ℕ) → j < n → Status k (s.rounds j) (s.pc j) (arrived j))
      → i < n
      → s.pc i ≡ loaded state
      → Inv n (
          let (state', bar') = wait_count state s.bar in
          record s { bar = bar'; pc = put s.pc i (wait_end state') })
  unfolding wait_count
  filling-count s k arrived i state total gen sum some_left status lt at =
      let (not_yet, round, loaded_gen) =
        Status-loaded k (s.rounds i) state (s.pc i) (arrived i) (status i lt) at in
      let more = count_true-put arrived i n lt not_yet in
      let left : sub_u32 s.bar.awaited 1 ≡ s.bar.awaited - 1 = omega arith in
      rw (loaded_gen, left)
        (elim (ℕ_discrete (s.bar.awaited - 1) 0) [
          | yes none_left ↦
              let full : count_true (put arrived i true) n ≡ n = omega arith in
              rw (eq→== _ 0 none_left, wait_end-last k)
                (closing k i (generation_of k + 1) lt total gen round (inl (put_self s.pc i _))
                  (λ j lj ne.
                    let here' = put_other arrived i j true (λ e. absurd (ne (sym e))) in
                    let there = sym here' ∙ count_true_all (put arrived i true) n full j lj in
                    let (r, w) = subst (Status k (s.rounds j) (s.pc j)) there (status j lj) in
                    (r, put_other s.pc i j _ (λ e. absurd (ne (sym e))) ∙ w)))
          | no some_more ↦
              rw (ne→not_== _ 0 some_more, wait_end-waiting k)
                (filling k (put arrived i true) total gen (omega arith) (omega arith) (
                  Status-move k n arrived (put arrived i true) s.rounds s.pc i
                    (waiting (generation_of k))
                    (subst (Status k (s.rounds i) (waiting (generation_of k)))
                      (sym (put_self arrived i true)) (round, refl))
                    (λ j ne. put_other arrived i j true ne) status))
        ])

  -- The last thread opens the barrier: a new round starts.
  closing_open :
      (s : Team) (k l : ℕ)
      → l < n
      → s.bar.total ≡ n
      → s.bar.generation ≡ generation_of k
      → s.rounds l ≡ k
      → s.bar.awaited ≡ n
      → ((i : ℕ) → i < n → i ≢ l → Arrived k (s.rounds i) (s.pc i))
      → Inv n (leave (record s { bar = wait_open s.bar }) l)
  unfolding wait_open
  closing_open s k l lt total gen round full others =
      filling (suc k) (λ _. false) total (ap (λ g. u32 (g + 8)) gen ∙ generation-next k)
        (omega (arith, count_true_none n)) (omega arith)
        (λ j lj. elim (ℕ_discrete l j) [
          | yes e ↦ rw (eq→== l j e) (is_outside (ap suc round) refl)
          | no ne ↦
              let (r, w) = others j lj (λ e. absurd (ne (sym e))) in
              rw (ne→not_== l j ne)
                (is_leaving (ap suc r) (w ∙ ap (λ m. waiting (generation_of m)) (sym r)))
        ])

  Inv-step : (s t : Team) → Inv n s → Step n s t → Inv n t
  unfolding wait_load wait_reset
  Inv-step s _ (filling k arrived total gen sum some_left status) (load i lt at) =
      let (not_yet, round) = Status-outside k (s.rounds i) (s.pc i) (arrived i) (status i lt) at in
      let got = ap loaded (ap (λ g. g / 4 * 4) gen ∙ generation-load k) in
      filling k arrived total gen sum some_left (
        Status-move k n arrived arrived s.rounds s.pc i (loaded (wait_load s.bar))
          (subst (Status k (s.rounds i) (loaded (wait_load s.bar))) (sym not_yet)
            (is_loaded round got))
          (λ j ne. refl) status)
  Inv-step s _ (filling k arrived total gen sum some_left status) (count i state lt at) =
      filling-count s k arrived i state total gen sum some_left status lt at
  Inv-step s _ (filling k arrived total gen sum some_left status) (reset_awaited i state lt at) =
      absurd ((Status-last k (s.rounds i) (s.pc i) (arrived i) state (status i lt)).0 at)
  Inv-step s _ (filling k arrived total gen sum some_left status) (open_barrier i state lt at) =
      absurd ((Status-last k (s.rounds i) (s.pc i) (arrived i) state (status i lt)).1 at)
  Inv-step s _ (filling k arrived total gen sum some_left status) (see_open i state lt at ne) =
      let (not_yet, round) =
        Status-leaving k (s.rounds i) state (s.pc i) (arrived i) (status i lt) at
          (λ e. absurd (ne (gen ∙ e))) in
      filling k arrived total gen sum some_left (
        Status-put k n arrived arrived s.rounds s.pc i (suc (s.rounds i)) outside
          (subst (Status k (suc (s.rounds i)) outside) (sym not_yet) (is_outside round refl))
          (λ j ne. refl) status)
  Inv-step s _ (closing k l st hl total gen round at_l others) (load i lt at) =
      absurd (closing-outside n k l st s at_l others i lt at)
  Inv-step s _ (closing k l st hl total gen round at_l others) (count i state lt at) =
      absurd (closing-loaded n k l st s at_l others i state lt at)
  Inv-step s _ (closing k l st hl total gen round at_l others) (reset_awaited i state lt at) =
      let e = closing-last n k l st s at_l others i state lt at in
      closing k l state hl total gen round (inr (rw (eq→== i l e) refl, total)) (λ j lj ne.
        let (r, w) = others j lj ne in
        (r, put_other s.pc i j _ (λ e'. absurd (ne (sym e' ∙ e))) ∙ w))
  Inv-step s _ (closing k l st hl total gen round at_l others) (open_barrier i state lt at) =
      let (e, full) = closing-reset n k l st s at_l others i state lt at in
      rw e (closing_open s k l hl total gen round full others)
  Inv-step s _ (closing k l st hl total gen round at_l others) (see_open i state lt at ne) =
      absurd (ne (gen ∙ sym (closing-waiting n k l st s at_l others i state lt at)))

  pub Inv-Reach : 0 < n → {s : Team} → Reach n s → Inv n s
  Inv-Reach h here = Inv-initial n h
  Inv-Reach h (later reach step) = Inv-step _ _ (Inv-Reach h reach) step
