-- ===== src/WorkShares/Create.antt =====
-- The step of the first thread that takes a work share from the cache.
use libgomp_a.Base.{
  ℕ, suc, ◌*◌, ◌≤◌, ◌<◌, ◌≡◌, ◌≢◌, refl, sym, ap, ◌∙◌, arith, lt→not_leb, true, false, ◌∷◌, some,
  put, put_self, put_other, ℕ_discrete, Fresh,
}
use mathlib.Core.Path.{subst}
use libgomp_a.Pool.{alloc_work_share}
use libgomp_a.Pool.Chains.{Outside}
use libgomp_a.Pool.Moves.{IsShared, made_by, alloc_work_share-IsTaken}
use libgomp_a.Barrier.Count.{count_true, count_true_none}
use libgomp_a.WorkShares.{unset, ready, start_first, creating, initialising, Member, Sharing}
use libgomp_a.WorkShares.Counts.{done, done_at, finished, finished-same, count_true-ext}
use libgomp_a.WorkShares.Live.{live, live-grow, live-ext, All-live}
use libgomp_a.WorkShares.Rounds.{is_held, is_making, is_freeing, Status, StatusAt, made, Inv}
use libgomp_a.WorkShares.Moves.{All-put, Turn-move}
use libgomp_a.WorkShares.Make.{StatusAt-done, StatusAt-grow, creating_phase}

module _ (n : ℕ) (s : Sharing) (inv : Inv n s) (i : ℕ) (lt : i < n) (base : ℕ) where
  abbrev t : Member
  t = s.threads i

  abbrev ws : ℕ
  ws = (alloc_work_share base s.pool).0

  abbrev v : Member
  v = record t { work_share = ws; pc = initialising }

  seq' : ℕ → ℕ
  seq' = put inv.seq (suc inv.top) ws

  old : (r : ℕ) → r ≤ inv.top → inv.seq r ≡ seq' r
  unfolding seq'
  old r le = sym (put_other inv.seq (suc inv.top) r ws (λ e. absurd (omega arith)))

  new : seq' (suc inv.top) ≡ ws
  unfolding seq'
  new = put_self inv.seq (suc inv.top) ws

  live' : inv.hi ≡ inv.top → live seq' inv.lo (suc inv.top) ≡ ws ∷ live inv.seq inv.lo inv.hi
  live' h =
      live-grow seq' inv.lo inv.top inv.low
      ∙ ap (λ a. a ∷ live seq' inv.lo inv.top) new
      ∙ ap (λ l. ws ∷ l) (sym (live-ext inv.seq seq' inv.lo inv.top old))
      ∙ ap (λ m. ws ∷ live inv.seq inv.lo m) (sym h)

  -- Nobody has ended the new construct.
  none_ended : (j : ℕ) → j < n → finished (suc inv.top) s.threads j ≡ false
  none_ended j lj =
      let le =
        StatusAt-done inv.seq inv.lo inv.top (s.threads j).pc (s.threads j) (inv.status j lj) in
      lt→not_leb (suc inv.top) (done (s.threads j)) (omega arith)

  created :
      t.pc ≡ creating
      → inv.hi ≡ inv.top
      → is_held (s.next_ws (inv.seq inv.top)) ≡ true
      → ((j : ℕ) → j < n → j ≢ i → is_making (s.threads j).pc ≡ false)
      → Fresh ws (live inv.seq inv.lo inv.hi)
      → IsShared
          (alloc_work_share base s.pool).1
          (ws ∷ live inv.seq inv.lo inv.hi)
          (made_by base s.pool (alloc_work_share base s.pool).1 s.made)
      → Inv n (start_first base i s)
  unfolding start_first
  created e h held others fresh shared = record {
    seq = seq';
    lo = inv.lo;
    top = inv.top;
    hi = suc inv.top;
    low = inv.low;
    status = λ j lj.
        All-put s.threads i v (Status seq' inv.lo inv.top) (λ _. Unit) n
          (place.0, sym new, place.2 ∙ ap some (old inv.top (omega arith)))
          (λ j lj ne _.
            StatusAt-grow inv.seq seq' inv.lo inv.top inv.top (s.threads j).pc (s.threads j) old
              (omega arith) (others j lj ne) (inv.status j lj))
          j lj tt;
    links = λ k a b.
        ap (put s.next_ws ws unset) (sym (old k (omega arith)))
        ∙ put_other s.next_ws ws (inv.seq k) unset (apart k a (omega arith))
        ∙ inv.links k a b
        ∙ ap ready (old (suc k) b);
    phase =
        made i refl
          (ap is_held (
              ap (put s.next_ws ws unset) (sym (old inv.top (omega arith)))
              ∙ put_other s.next_ws ws (inv.seq inv.top) unset
                  (apart inv.top inv.low (omega arith)))
            ∙ held)
          (ap (put s.next_ws ws unset) new ∙ put_self s.next_ws ws unset)
          (ap (λ m. m.pc) (put_self s.threads i v))
          (λ j lj ne.
            ap (λ m. is_making m.pc) (put_other s.threads i j v (λ q. ne (sym q)))
            ∙ others j lj ne);
    counts = λ k a b. elim (ℕ_discrete k (suc inv.top)) [
      | yes q ↦
          ap (put s.completed ws 0) (ap seq' q ∙ new)
          ∙ put_self s.completed ws 0
          ∙ sym (count_true_none n)
          ∙ sym (count_true-ext (finished (suc inv.top) s.threads) (λ _. false) n none_ended)
          ∙ ap (λ m. count_true (finished m s.threads) n) (sym q)
          ∙ sym (finished-same n s.threads i v k same_done)
      | no ne ↦
          ap (put s.completed ws 0) (sym (old k (omega arith)))
          ∙ put_other s.completed ws (inv.seq k) 0 (apart k (omega arith) (omega arith))
          ∙ inv.counts k a (omega arith)
          ∙ sym (finished-same n s.threads i v k same_done)
    ];
    turn = Turn-move s.threads i v n inv.lo same_done (ap is_freeing e) refl inv.turn;
    shared =
        subst
          (λ l.
            IsShared (alloc_work_share base s.pool).1 l
              (made_by base s.pool (alloc_work_share base s.pool).1 s.made))
          (sym (live' h)) shared;
  }
    where
      place : StatusAt inv.seq inv.lo inv.top creating t
      place = subst (λ k. StatusAt inv.seq inv.lo inv.top k t) e (inv.status i lt)

      same_done : done v ≡ done t
      same_done = sym (ap (λ k. done_at k t.round) e)

      apart : (r : ℕ) → inv.lo ≤ r → r ≤ inv.top → ws ≢ inv.seq r
      apart r a b = All-live inv.seq inv.lo (λ c. ws ≢ c) inv.hi r fresh a (omega arith)

  pub Inv-create :
      t.pc ≡ creating → Outside base (s.pool.chunk * 2) s.made → Inv n (start_first base i s)
  Inv-create e away =
      let (h, held, others) = creating_phase n s inv i lt e inv.phase in
      let (fresh, shared) =
        alloc_work_share-IsTaken base s.pool (live inv.seq inv.lo inv.hi) s.made inv.shared away in
      created e h held others fresh shared
