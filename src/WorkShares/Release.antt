-- ===== src/WorkShares/Release.antt =====
-- The step that frees the work share of the construct before.
use libgomp_a.Base.{
  ℕ, suc, ◌≤◌, ◌<◌, ◌≡◌, ◌≢◌, refl, sym, ap, ◌∙◌, arith, false, [], ◌∷◌, ◌++◌, append-nil, some,
  none, put_self, ℕ_discrete,
}
use mathlib.Core.Path.{subst}
use mathlib.Core.Option.{some-injective}
use libgomp_a.Pool.{free_work_share}
use libgomp_a.Pool.Moves.{IsShared, free_work_share-IsShared}
use libgomp_a.WorkShares.{
  end_free, Pc, outside, asking, slow, waiting, creating, initialising, inside, freeing, Member,
  Sharing,
}
use libgomp_a.WorkShares.Counts.{done, done_at, finished-same}
use libgomp_a.WorkShares.Live.{live, live-shrink}
use libgomp_a.WorkShares.Rounds.{
  is_making, is_freeing, Status, StatusAt, Turn, going_on, closing, Inv,
}
use libgomp_a.WorkShares.Moves.{All-put, Phase-move}
use libgomp_a.WorkShares.End.{top_hi}

-- A thread that has ended the construct behind number `lo` no longer uses that one.
StatusAt-shrink :
    (seq : ℕ → ℕ) (lo top : ℕ) (k : Pc) (t : Member)
    → lo < done_at k t.round
    → is_freeing k ≡ false
    → StatusAt seq lo top k t
    → StatusAt seq (suc lo) top k t
StatusAt-shrink seq lo top outside t d f (a, b, w) = (omega arith, b, w)
StatusAt-shrink seq lo top asking t d f (p, r, a, b, w, l) = (p, r, omega arith, b, w, l)
StatusAt-shrink seq lo top slow t d f (p, r, a, b, w, l) = (p, r, omega arith, b, w, l)
StatusAt-shrink seq lo top waiting t d f (p, r, a, b, w, l) = (p, r, omega arith, b, w, l)
StatusAt-shrink seq lo top creating t d f s = s
StatusAt-shrink seq lo top initialising t d f s = s
StatusAt-shrink seq lo top inside t d f (p, a, b, (r, w, l)) = (p, omega arith, b, (r, w, l))
StatusAt-shrink seq lo top freeing t d f s = cc

module _ (n : ℕ) (s : Sharing) (inv : Inv n s) (i : ℕ) (lt : i < n) where
  abbrev t : Member
  t = s.threads i

  last_to_free :
      t.pc ≡ freeing
      → Turn n inv.lo s.threads
      → ((j : ℕ) → j < n → inv.lo < done (s.threads j))
        × ((j : ℕ) → j < n → j ≢ i → is_freeing (s.threads j).pc ≡ false)
  last_to_free e (going_on j lj low rest) = let q = sym (rest i lt) ∙ ap is_freeing e in cc
  last_to_free e (closing c lc at all rest) = elim (ℕ_discrete i c) [
    | yes q ↦ (all, λ j lj ne. rest j lj (λ z. ne (z ∙ sym q)))
    | no ne ↦ let q = sym (rest i lt ne) ∙ ap is_freeing e in cc
  ]

  pub Inv-release :
      (last : ℕ) → t.pc ≡ freeing → t.last_work_share ≡ some last → Inv n (end_free last i s)
  unfolding end_free
  Inv-release last e at =
      let (below, (r, w, l)) =
        subst (λ k. StatusAt inv.seq inv.lo inv.top k t) e (inv.status i lt) in
      let (all, rest) = last_to_free e inv.turn in
      let is_last = some-injective last (inv.seq inv.lo) (sym at ∙ l) in
      record {
        seq = inv.seq;
        lo = suc inv.lo;
        top = inv.top;
        hi = inv.hi;
        low = below;
        status = λ j lj.
            All-put s.threads i v (Status inv.seq (suc inv.lo) inv.top) (λ _. Unit) n
              (omega arith, omega arith, w ∙ ap inv.seq (sym r))
              (λ j lj ne _.
                StatusAt-shrink inv.seq inv.lo inv.top (s.threads j).pc (s.threads j) (all j lj)
                  (rest j lj ne) (inv.status j lj))
              j lj tt;
        links = λ k a b. inv.links k (omega arith) b;
        phase =
            Phase-move s.threads i v n inv.seq inv.top inv.hi s.next_ws (ap is_making e) refl
              inv.phase;
        counts = λ k a b.
            inv.counts k (omega arith) b
            ∙ sym (finished-same n s.threads i v k (sym (ap (λ k. done_at k t.round) e)));
        turn =
            going_on i lt
              (subst (λ m. done m ≤ suc inv.lo) (sym (put_self s.threads i v)) (omega arith))
              (λ j lj.
                All-put s.threads i v (λ m. is_freeing m.pc ≡ false) (λ _. Unit) n refl
                  (λ j lj ne _. rest j lj ne) j lj tt);
        shared = freed is_last (let h = top_hi n s inv i lt inv.phase in omega arith);
      }
    where
      v : Member
      v = record t { last_work_share = none; pc = outside }

      freed :
          last ≡ inv.seq inv.lo
          → inv.lo < inv.hi
          → IsShared (free_work_share last s.pool) (live inv.seq (suc inv.lo) inv.hi) s.made
      freed is_last below =
          let rest = live inv.seq (suc inv.lo) inv.hi in
          let shape =
            live-shrink inv.seq inv.lo inv.hi below ∙ ap (λ b. rest ++ b ∷ []) (sym is_last) in
          subst (λ l. IsShared (free_work_share last s.pool) l s.made) (append-nil rest)
            (free_work_share-IsShared s.pool rest [] s.made last
              (subst (λ l. IsShared s.pool l s.made) shape inv.shared))
