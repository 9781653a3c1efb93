-- ===== src/WorkShares/Ask.antt =====
-- The steps of `gomp_work_share_start` up to the answer of `gomp_ptrlock_get`.
use libgomp_a.Base.{
  ℕ, suc, ◌<◌, ◌≡◌, ◌≢◌, refl, sym, ap, ◌∙◌, arith, if◌then◌else◌, Bool, true, false, some, put,
  put_self, put_other, put_same, ℕ_discrete,
}
use mathlib.Core.Path.{subst}
use libgomp_a.WorkShares.{
  PtrLock, unset, owned, awaited, ready, ptrlock_try, ptrlock_mark, start_ask, Pc, outside, asking,
  slow, waiting, creating, inside, Member, Sharing, move,
}
use libgomp_a.WorkShares.Counts.{done, done_at, finished-same}
use libgomp_a.WorkShares.Rounds.{
  is_held, is_making, is_freeing, Status, StatusAt, Phase, settled, claimed, made, Links, Inv,
}
use libgomp_a.WorkShares.Moves.{Inv-move, Links-mark, Phase-mark, All-put, Turn-move}

held_ready : {b : Bool} → b ≡ true → ¬ (b ≡ false)
held_ready e h = cc

module _ (n : ℕ) (s : Sharing) (inv : Inv n s) (i : ℕ) (lt : i < n) where
  abbrev t : Member
  t = s.threads i

  -- What the invariant says of a thread at a known place.
  at_place : (k : Pc) → t.pc ≡ k → StatusAt inv.seq inv.lo inv.top k t
  at_place k e = subst (λ k. StatusAt inv.seq inv.lo inv.top k t) e (inv.status i lt)

  done_from : (k : Pc) → t.pc ≡ k → done t ≡ done_at k t.round
  done_from k e = ap (λ k. done_at k t.round) e

  pub Inv-start : t.pc ≡ outside → Inv n (move s i (start_ask t))
  unfolding start_ask
  Inv-start e =
      let (lo_r, r_top, ws) = at_place outside e in
      Inv-move n s inv i (start_ask t) s.next_ws (ap is_making e) refl (ap is_freeing e) refl
        (let h = done_from outside e in omega arith) (t.round, refl, lo_r, r_top, ws, ap some ws)
        inv.links inv.phase

  -- The last lock that can be found is not set.
  top_lock :
      (next : ℕ → PtrLock)
      → Phase n inv.seq inv.top inv.hi next s.threads
      → (b : ℕ) → next (inv.seq inv.top) ≢ ready b
  top_lock next (settled e u rest) b q = unset_ready (sym u ∙ q)
    where
      unset_ready : ¬ (unset ≡ ready b)
      unset_ready z = cc
  top_lock next (claimed c e h at rest) b q = held_ready h (ap is_held q)
  top_lock next (made c e h u at rest) b q = held_ready h (ap is_held q)

  pub Inv-mark :
      t.pc ≡ slow
      → Inv n (record s {
        next_ws = put s.next_ws t.work_share (ptrlock_mark (s.next_ws t.work_share));
        threads = put s.threads i (record t { pc = waiting });
      })
  Inv-mark e =
      Inv-move n s inv i (record t { pc = waiting }) _ (ap is_making e) refl (ap is_freeing e) refl
        (sym (done_from slow e)) (at_place slow e)
        (Links-mark inv.seq inv.top s.next_ws t.work_share inv.lo inv.links)
        (Phase-mark inv.seq inv.top s.next_ws t.work_share n inv.hi s.threads inv.phase)

  pub Inv-see :
      (ws : ℕ)
      → t.pc ≡ waiting
      → s.next_ws t.work_share ≡ ready ws
      → Inv n (move s i (record t { work_share = ws; pc = inside }))
  Inv-see ws e at =
      let (p, r, lo_p, p_top, w, l) = at_place waiting e in
      let here : s.next_ws (inv.seq p) ≡ ready ws = ap s.next_ws (sym w) ∙ at in
      let below : p < inv.top = elim (ℕ_discrete p inv.top) [
        | yes q ↦
            absurd
              (top_lock s.next_ws inv.phase ws (ap (λ k. s.next_ws (inv.seq k)) (sym q) ∙ here))
        | no ne ↦ omega arith
      ] in
      Inv-move n s inv i (record t { work_share = ws; pc = inside }) s.next_ws (ap is_making e) refl
        (ap is_freeing e) refl (sym (done_from waiting e))
        (p, lo_p, below, (r, ready_eq (sym here ∙ inv.links p lo_p below), l)) inv.links inv.phase
    where
      to_block : PtrLock → ℕ
      to_block (ready b) = b
      to_block _ = 0

      ready_eq : {a b : ℕ} → ready a ≡ ready b → a ≡ b
      ready_eq q = ap to_block q

  -- The compare and swap of 0 with 1 swaps only at the last lock, and then for the only thread that
  -- makes the next work share.
  try_first :
      t.pc ≡ asking
      → s.next_ws t.work_share ≡ unset
      → Inv n (record s {
        next_ws = put s.next_ws t.work_share owned;
        threads = put s.threads i (record t { pc = creating });
      })
  try_first e at =
      let (p, r, lo_p, p_top, w, l) = at_place asking e in
      let here : s.next_ws (inv.seq p) ≡ unset = ap s.next_ws (sym w) ∙ at in
      let is_top : p ≡ inv.top = elim (ℕ_discrete p inv.top) [
        | yes q ↦ q
        | no ne ↦ absurd (unset_ready (inv.seq (suc p)) (sym here ∙ inv.links p lo_p (omega arith)))
      ] in
      let at_top : t.work_share ≡ inv.seq inv.top = w ∙ ap inv.seq is_top in
      record {
        seq = inv.seq;
        lo = inv.lo;
        top = inv.top;
        hi = inv.hi;
        low = inv.low;
        status = λ j lj.
            All-put s.threads i v (Status inv.seq inv.lo inv.top) (λ _. Unit) n
              (r ∙ ap suc is_top, at_top, l ∙ ap (λ k. some (inv.seq k)) is_top)
              (λ j lj _ _. inv.status j lj) j lj tt;
        links = λ k a b.
            put_other s.next_ws t.work_share (inv.seq k) owned
              (λ q. unset_ready (inv.seq (suc k)) (sym at ∙ ap s.next_ws q ∙ inv.links k a b))
            ∙ inv.links k a b;
        phase = to_claimed at_top (sym (ap s.next_ws at_top) ∙ at) inv.phase;
        counts = λ k a b. inv.counts k a b ∙ sym (finished-same n s.threads i v k same_done);
        turn = Turn-move s.threads i v n inv.lo same_done (ap is_freeing e) refl inv.turn;
        shared = inv.shared;
      }
    where
      v : Member
      v = record t { pc = creating }

      same_done : done v ≡ done t
      same_done = sym (done_from asking e)

      unset_ready : (b : ℕ) → ¬ (unset ≡ ready b)
      unset_ready b z = cc

      to_claimed :
          t.work_share ≡ inv.seq inv.top
          → s.next_ws (inv.seq inv.top) ≡ unset
          → Phase n inv.seq inv.top inv.hi s.next_ws s.threads
          → Phase n inv.seq inv.top inv.hi (put s.next_ws t.work_share owned) (put s.threads i v)
      to_claimed w u (settled h _ rest) =
          claimed i h
            (ap is_held (
              ap (put s.next_ws t.work_share owned) (sym w)
              ∙ put_self s.next_ws t.work_share owned))
            (ap (λ m. m.pc) (put_self s.threads i v))
            (λ j lj ne.
              ap (λ m. is_making m.pc) (put_other s.threads i j v (λ q. ne (sym q))) ∙ rest j lj)
      to_claimed w u (claimed c h held at rest) = absurd (held_ready held (ap is_held u))
      to_claimed w u (made c h held _ at rest) = absurd (held_ready held (ap is_held u))

  -- It leaves the lock alone.
  try_later :
      (lock : PtrLock)
      → t.pc ≡ asking
      → s.next_ws t.work_share ≡ lock
      → Inv n (record s {
        next_ws = put s.next_ws t.work_share lock;
        threads = put s.threads i (record t { pc = slow });
      })
  try_later lock e at =
      let same = sym (put_same s.next_ws t.work_share lock at) in
      Inv-move n s inv i (record t { pc = slow }) _ (ap is_making e) refl (ap is_freeing e) refl
        (sym (done_from asking e)) (at_place asking e)
        (subst (Links inv.seq inv.lo inv.top) same inv.links)
        (subst (λ f. Phase n inv.seq inv.top inv.hi f s.threads) same inv.phase)

  pub Inv-try :
      t.pc ≡ asking
      → let (lock, first) = ptrlock_try (s.next_ws t.work_share) in
        Inv n (record s {
          next_ws = put s.next_ws t.work_share lock;
          threads = put s.threads i (record t { pc = if first then creating else slow });
        })
  unfolding ptrlock_try
  Inv-try e = by_lock (s.next_ws t.work_share) refl
    where
      by_lock :
          (l : PtrLock)
          → s.next_ws t.work_share ≡ l
          → Inv n (record s {
            next_ws = put s.next_ws t.work_share (ptrlock_try l).0;
            threads =
                put s.threads i (record t { pc = if (ptrlock_try l).1 then creating else slow });
          })
      by_lock unset at = try_first e at
      by_lock owned at = try_later owned e at
      by_lock awaited at = try_later awaited e at
      by_lock (ready b) at = try_later (ready b) e at
