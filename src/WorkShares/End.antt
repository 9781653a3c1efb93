-- ===== src/WorkShares/End.antt =====
-- The steps of `gomp_work_share_end_nowait`.
use libgomp_a.Base.{
  ℕ, suc, ◌+◌, ◌^◌, ◌≤◌, ◌<◌, ◌≡◌, ◌≢◌, sym, ap, ◌∙◌, arith, leb, leb→le, false, u32, put, put_self,
  put_other, ℕ_discrete, Distinct, Distinct-right, inl, inr, Bool-cases,
}
use libgomp_a.Barrier.Count.{count_true, count_true_le}
use libgomp_a.WorkShares.{inside, freeing, Member, Sharing}
use libgomp_a.WorkShares.Counts.{done, done_at, finished, finished-more, finished-others}
use libgomp_a.WorkShares.Live.{live, Distinct-live}
use libgomp_a.WorkShares.Rounds.{is_making, Status, IsIn, Phase, settled, claimed, made, Turn, Inv}
use libgomp_a.WorkShares.Moves.{All-put, Phase-move}

module _ (n : ℕ) (s : Sharing) (inv : Inv n s) (i : ℕ) (lt : i < n) where
  abbrev t : Member
  t = s.threads i

  pub top_hi : Phase n inv.seq inv.top inv.hi s.next_ws s.threads → inv.top ≤ inv.hi
  top_hi (settled e _ _) = omega arith
  top_hi (claimed _ e _ _ _) = omega arith
  top_hi (made _ e _ _ _ _) = omega arith

  -- The work shares of two constructs differ.
  pub apart :
      (r r' : ℕ)
      → inv.lo ≤ r
      → inv.lo ≤ r'
      → r ≤ inv.hi
      → r' ≤ inv.hi
      → r ≢ r'
      → inv.seq r ≢ inv.seq r'
  apart r r' a a' b b' ne = elim (Bool-cases (leb r r')) [
    | inl h ↦ λ q.
        Distinct-live inv.seq inv.lo inv.hi r r' all a (let k = leb→le r r' h in omega arith) b'
          (sym q)
    | inr h ↦ Distinct-live inv.seq inv.lo inv.hi r' r all a' (ground arith) b
  ]
    where
      all : Distinct (live inv.seq inv.lo inv.hi)
      all =
          Distinct-right inv.shared.freed (live inv.seq inv.lo inv.hi)
            (Distinct-right inv.shared.ready _ inv.shared.distinct)

  -- Thread `i` ends the construct behind number `p`.
  module _ (p : ℕ) (lo_p : inv.lo ≤ p) (p_top : p < inv.top) (is_in : IsIn inv.seq p t)
      (e : t.pc ≡ inside) (small : n < 2 ^ 32) where
    pub done_now : done t ≡ p
    done_now = let r = is_in.0 in ap (λ k. done_at k t.round) e ∙ omega arith

    abbrev pub ended : ℕ
    ended = count_true (finished (suc p) s.threads) n

    ended_is : s.completed t.work_share ≡ ended
    ended_is =
        ap s.completed is_in.1
        ∙ inv.counts (suc p) (omega arith) (let h = top_hi inv.phase in omega arith)

    pub ended_after :
        (v : Member)
        → done v ≡ suc p
        → count_true (finished (suc p) (put s.threads i v)) n ≡ suc ended
    ended_after v d = finished-more n s.threads i v p lt done_now d

    pub count_is : u32 (s.completed t.work_share + 1) ≡ suc ended
    count_is =
        let h = ended_after (record t { pc = freeing }) is_in.0 in
        let le = count_true_le (finished (suc p) (put s.threads i (record t { pc = freeing }))) n in
        let c = ended_is in omega arith

    -- The new state, for the two ways on.
    pub Inv-ended :
        (v : Member)
        → done v ≡ suc p
        → is_making v.pc ≡ false
        → Status inv.seq inv.lo inv.top v
        → Turn n inv.lo (put s.threads i v)
        → Inv n (record s {
          completed = put s.completed t.work_share (u32 (s.completed t.work_share + 1));
          threads = put s.threads i v;
        })
    Inv-ended v d m st turn = record {
      seq = inv.seq;
      lo = inv.lo;
      top = inv.top;
      hi = inv.hi;
      low = inv.low;
      status = λ j lj.
          All-put s.threads i v (Status inv.seq inv.lo inv.top) (λ _. Unit) n st
            (λ j lj _ _. inv.status j lj) j lj tt;
      links = inv.links;
      phase =
          Phase-move s.threads i v n inv.seq inv.top inv.hi s.next_ws (ap is_making e) m inv.phase;
      counts = λ k a b. elim (ℕ_discrete k (suc p)) [
        | yes q ↦
            ap (put s.completed t.work_share (u32 (s.completed t.work_share + 1)))
              (ap inv.seq q ∙ sym is_in.1)
            ∙ put_self s.completed t.work_share _
            ∙ count_is
            ∙ sym (ended_after v d)
            ∙ ap (λ m. count_true (finished m (put s.threads i v)) n) (sym q)
        | no ne ↦
            put_other s.completed t.work_share (inv.seq k) _ (λ q.
              apart (suc p) k (omega arith) (omega arith) (let h = top_hi inv.phase in omega arith)
                b (λ z. ne (sym z)) (sym is_in.1 ∙ q))
            ∙ inv.counts k a b
            ∙ sym (finished-others n s.threads i v p k ne done_now d)
      ];
      turn = turn;
      shared = inv.shared;
    }
