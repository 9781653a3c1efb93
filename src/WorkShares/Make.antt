-- ===== src/WorkShares/Make.antt =====
-- The steps of the first thread at a construct: it takes a work share, and publishes it.
use libgomp_a.Base.{
  ℕ, suc, ◌≤◌, ◌<◌, ◌≡◌, ◌≢◌, refl, sym, ap, ◌∙◌, arith, true, false, some, put, put_self,
  put_other, ℕ_discrete,
}
use mathlib.Core.Path.{subst}
use libgomp_a.WorkShares.{
  PtrLock, unset, ready, init_done, Pc, outside, asking, slow, waiting, creating, initialising,
  inside, freeing, Member, Sharing,
}
use libgomp_a.WorkShares.Counts.{done, done_at, finished-same}
use libgomp_a.WorkShares.Rounds.{
  is_held, is_making, is_freeing, Status, StatusAt, Phase, settled, claimed, made, Inv,
}
use libgomp_a.WorkShares.Moves.{All-put, Turn-move}

-- No thread has ended more constructs than there are.
pub StatusAt-done :
    (seq : ℕ → ℕ) (lo top : ℕ) (k : Pc) (t : Member)
    → StatusAt seq lo top k t
    → done_at k t.round ≤ top
StatusAt-done seq lo top outside t (_, le, _) = le
StatusAt-done seq lo top asking t (p, r, _, le, _, _) = omega arith
StatusAt-done seq lo top slow t (p, r, _, le, _, _) = omega arith
StatusAt-done seq lo top waiting t (p, r, _, le, _, _) = omega arith
StatusAt-done seq lo top creating t (r, _, _) = omega arith
StatusAt-done seq lo top initialising t (r, _, _) = omega arith
StatusAt-done seq lo top inside t (p, _, le, (r, _, _)) = omega arith
StatusAt-done seq lo top freeing t (le, (r, _, _)) = omega arith

-- A new work share, or a newly published one, changes nothing for the threads that do not make it.
pub StatusAt-grow :
    (seq seq' : ℕ → ℕ) (lo top top' : ℕ) (k : Pc) (t : Member)
    → ((r : ℕ) → r ≤ top → seq r ≡ seq' r)
    → top ≤ top'
    → is_making k ≡ false
    → StatusAt seq lo top k t
    → StatusAt seq' lo top' k t
StatusAt-grow seq seq' lo top top' outside t e le m (a, b, w) = (a, omega arith, w ∙ e t.round b)
StatusAt-grow seq seq' lo top top' asking t e le m (p, r, a, b, w, l) =
    (p, r, a, omega arith, w ∙ e p b, l ∙ ap some (e p b))
StatusAt-grow seq seq' lo top top' slow t e le m (p, r, a, b, w, l) =
    (p, r, a, omega arith, w ∙ e p b, l ∙ ap some (e p b))
StatusAt-grow seq seq' lo top top' waiting t e le m (p, r, a, b, w, l) =
    (p, r, a, omega arith, w ∙ e p b, l ∙ ap some (e p b))
StatusAt-grow seq seq' lo top top' creating t e le m s = cc
StatusAt-grow seq seq' lo top top' initialising t e le m s = cc
StatusAt-grow seq seq' lo top top' inside t e le m (p, a, b, (r, w, l)) =
    (p, a, omega arith, (r, w ∙ e (suc p) b, l ∙ ap some (e p (omega arith))))
StatusAt-grow seq seq' lo top top' freeing t e le m (b, (r, w, l)) =
    (omega arith, (r, w ∙ e (suc lo) b, l ∙ ap some (e lo (omega arith))))

module _ (n : ℕ) (s : Sharing) (inv : Inv n s) (i : ℕ) (lt : i < n) where
  abbrev t : Member
  t = s.threads i

  at_place : (k : Pc) → t.pc ≡ k → StatusAt inv.seq inv.lo inv.top k t
  at_place k e = subst (λ k. StatusAt inv.seq inv.lo inv.top k t) e (inv.status i lt)

  abbrev Others : Type 0
  Others = (j : ℕ) → j < n → j ≢ i → is_making (s.threads j).pc ≡ false

  -- Who makes a work share is the one that the phase is about.
  none_making : (k : Pc) → t.pc ≡ k → is_making k ≡ true → ¬ (is_making t.pc ≡ false)
  none_making k e m h = let q = sym h ∙ ap is_making e ∙ m in cc

  maker :
      (k : Pc) (c : ℕ)
      → t.pc ≡ k
      → is_making k ≡ true
      → ((j : ℕ) → j < n → j ≢ c → is_making (s.threads j).pc ≡ false)
      → (i ≡ c) × Others
  maker k c e m rest = elim (ℕ_discrete i c) [
    | yes q ↦ (q, λ j lj ne. rest j lj (λ z. ne (z ∙ sym q)))
    | no ne ↦ absurd (none_making k e m (rest i lt ne))
  ]

  pub creating_phase :
      t.pc ≡ creating
      → Phase n inv.seq inv.top inv.hi s.next_ws s.threads
      → (inv.hi ≡ inv.top) × (is_held (s.next_ws (inv.seq inv.top)) ≡ true) × Others
  creating_phase e (settled h u rest) = absurd (none_making creating e refl (rest i lt))
  creating_phase e (claimed c h held at rest) = (h, held, (maker creating c e refl rest).1)
  creating_phase e (made c h held u at rest) =
      let q = sym e ∙ ap (λ j. (s.threads j).pc) (maker creating c e refl rest).0 ∙ at in cc

  pub initialising_phase :
      t.pc ≡ initialising
      → Phase n inv.seq inv.top inv.hi s.next_ws s.threads
      → (inv.hi ≡ suc inv.top)
        × (is_held (s.next_ws (inv.seq inv.top)) ≡ true)
        × (s.next_ws (inv.seq inv.hi) ≡ unset)
        × Others
  initialising_phase e (settled h u rest) = absurd (none_making initialising e refl (rest i lt))
  initialising_phase e (claimed c h held at rest) =
      let q = sym e ∙ ap (λ j. (s.threads j).pc) (maker initialising c e refl rest).0 ∙ at in cc
  initialising_phase e (made c h held u at rest) =
      (h, held, u, (maker initialising c e refl rest).1)

  pub Inv-publish : t.pc ≡ initialising → Inv n (init_done i s)
  unfolding init_done
  Inv-publish e =
      let (r, w, l) = at_place initialising e in
      let (h, held, u, others) = initialising_phase e inv.phase in
      rw (init_done, l) (published r w l h held u others)
    where
      v : Member
      v = record t { pc = inside }

      unset_held : {k : PtrLock} → k ≡ unset → is_held k ≡ true → ⊥
      unset_held a b = let q = sym (ap is_held a) ∙ b in cc

      ready_held : {k : PtrLock} {x : ℕ} → k ≡ ready x → is_held k ≡ true → ⊥
      ready_held a b = let q = sym (ap is_held a) ∙ b in cc

      same_done : done v ≡ done t
      same_done = sym (ap (λ k. done_at k t.round) e)

      published :
          t.round ≡ suc inv.top
          → t.work_share ≡ inv.seq (suc inv.top)
          → t.last_work_share ≡ some (inv.seq inv.top)
          → inv.hi ≡ suc inv.top
          → is_held (s.next_ws (inv.seq inv.top)) ≡ true
          → s.next_ws (inv.seq inv.hi) ≡ unset
          → Others
          → Inv n (record s {
            next_ws = put s.next_ws (inv.seq inv.top) (ready t.work_share);
            threads = put s.threads i v;
          })
      published r w l h held u others = record {
        seq = inv.seq;
        lo = inv.lo;
        top = suc inv.top;
        hi = inv.hi;
        low = let a = inv.low in omega arith;
        status = λ j lj.
            All-put s.threads i v (Status inv.seq inv.lo (suc inv.top)) (λ _. Unit) n
              (inv.top, inv.low, omega arith, (r, w, l))
              (λ j lj ne _.
                StatusAt-grow inv.seq inv.seq inv.lo inv.top (suc inv.top) (s.threads j).pc
                  (s.threads j) (λ _ _. refl) (omega arith) (others j lj ne) (inv.status j lj))
              j lj tt;
        links = λ k a b. elim (ℕ_discrete k inv.top) [
          | yes q ↦
              ap (put s.next_ws (inv.seq inv.top) (ready t.work_share)) (ap inv.seq q)
              ∙ put_self s.next_ws (inv.seq inv.top) (ready t.work_share)
              ∙ ap ready (w ∙ ap (λ m. inv.seq (suc m)) (sym q))
          | no ne ↦
              let old = inv.links k a (omega arith) in
              put_other s.next_ws (inv.seq inv.top) (inv.seq k) (ready t.work_share)
                (λ q. ready_held old (ap (λ m. is_held (s.next_ws m)) (sym q) ∙ held))
              ∙ old
        ];
        phase =
            settled h
              (put_other s.next_ws (inv.seq inv.top) (inv.seq (suc inv.top)) (ready t.work_share)
                  (λ q.
                    unset_held (ap s.next_ws q ∙ ap (λ m. s.next_ws (inv.seq m)) (sym h) ∙ u) held)
                ∙ ap (λ m. s.next_ws (inv.seq m)) (sym h)
                ∙ u)
              (λ j lj.
                All-put s.threads i v (λ m. is_making m.pc ≡ false) (λ _. Unit) n refl
                  (λ j lj ne _. others j lj ne) j lj tt);
        counts = λ k a b. inv.counts k a b ∙ sym (finished-same n s.threads i v k same_done);
        turn = Turn-move s.threads i v n inv.lo same_done (ap is_freeing e) refl inv.turn;
        shared = inv.shared;
      }
