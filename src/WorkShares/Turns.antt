-- ===== src/WorkShares/Turns.antt =====
-- The last thread that ends a construct frees the work share of the construct before.
use libgomp_a.Base.{
  ℕ, suc, ◌+◌, ◌^◌, ◌≤◌, ◌<◌, ◌≡◌, ◌≢◌, refl, sym, ap, ◌∙◌, arith, ◌==◌, ==→eq, ==→ne, leb, leb→le,
  if◌then◌else◌, Bool, true, false, some, none, u32, put, put_self, put_other, ℕ_discrete,
}
use mathlib.Core.Path.{subst}
use libgomp_a.Barrier.Count.{count_true, count_true_le, count_true_all, count_true_missing}
use libgomp_a.WorkShares.{end_nowait, end_count, Pc, outside, inside, freeing, Member, Sharing}
use libgomp_a.WorkShares.Counts.{done, done_at, finished}
use libgomp_a.WorkShares.Rounds.{is_freeing, StatusAt, IsIn, Turn, going_on, closing, Inv}
use libgomp_a.WorkShares.Moves.{All-put, pc-put}
use libgomp_a.WorkShares.End.{done_now, ended_after, count_is, Inv-ended}

module _ (n : ℕ) (s : Sharing) (inv : Inv n s) (i : ℕ) (lt : i < n) where
  abbrev t : Member
  t = s.threads i

  at_place :
      (k : Pc) (j : ℕ)
      → j < n
      → (s.threads j).pc ≡ k
      → StatusAt inv.seq inv.lo inv.top k (s.threads j)
  at_place k j lj e =
      subst (λ k. StatusAt inv.seq inv.lo inv.top k (s.threads j)) e (inv.status j lj)

  module _ (p : ℕ) (lo_p : inv.lo ≤ p) (p_top : p < inv.top) (is_in : IsIn inv.seq p t)
      (e : t.pc ≡ inside) (small : n < 2 ^ 32) where
    -- Every thread has ended this construct, so it is the one behind number `lo`.
    last_to_end :
        (v : Member)
        → done v ≡ suc p
        → v.pc ≡ freeing
        → count_true (finished (suc p) (put s.threads i v)) n ≡ n
        → Turn n inv.lo s.threads
        → (p ≡ inv.lo) × Turn n inv.lo (put s.threads i v)
    last_to_end v d at full (going_on j lj low rest) = (
      is_lo,
      closing i lt (ap (λ m. m.pc) (put_self s.threads i v) ∙ at)
          (λ k lk. let h = all k lk in omega arith)
          (λ k lk ne.
            ap (λ m. is_freeing m.pc) (put_other s.threads i k v (λ q. ne (sym q))) ∙ rest k lk),
    )
      where
        all : (k : ℕ) → k < n → suc p ≤ done (put s.threads i v k)
        all k lk =
            leb→le (suc p) (done (put s.threads i v k))
              (count_true_all (finished (suc p) (put s.threads i v)) n full k lk)

        is_lo : p ≡ inv.lo
        is_lo = elim (ℕ_discrete i j) [
          | yes q ↦
              let h = done_now n s inv i lt p lo_p p_top is_in e small in
              let same : done (s.threads j) ≡ done t = ap (λ k. done (s.threads k)) (sym q) in
              omega arith
          | no ne ↦
              let h = subst (λ m. suc p ≤ done m) (put_other s.threads i j v ne) (all j lj) in
              absurd (omega arith)
        ]
    last_to_end v d at full (closing c lc at_c all rest) =
        let ne = (pc-put s.threads i v c freeing is_freeing (ap is_freeing e) refl at_c).0 in
        let (_, (r, _, _)) = at_place freeing c lc at_c in
        let here : done (s.threads c) ≡ suc inv.lo =
          ap (λ k. done_at k (s.threads c).round) at_c ∙ r in
        let now = done_now n s inv i lt p lo_p p_top is_in e small in
        let above = all i lt in
        let after =
          leb→le (suc p) (done (put s.threads i v c))
            (count_true_all (finished (suc p) (put s.threads i v)) n full c lc) in
        let after' = subst (λ m. suc p ≤ done m) (put_other s.threads i c v ne) after in
        absurd (omega arith)

    -- Some thread has not ended it.
    not_last_to_end :
        (v : Member)
        → done v ≡ suc p
        → v.pc ≡ outside
        → count_true (finished (suc p) (put s.threads i v)) n < n
        → Turn n inv.lo s.threads
        → Turn n inv.lo (put s.threads i v)
    not_last_to_end v d at more (going_on j lj low rest) = elim (ℕ_discrete i j) [
      | yes q ↦
          let (k, lk, f) = count_true_missing (finished (suc p) (put s.threads i v)) n more in
          let now = done_now n s inv i lt p lo_p p_top is_in e small in
          let same : done (s.threads j) ≡ done t = ap (λ k. done (s.threads k)) (sym q) in
          going_on k lk (let h = not_leb→lt (suc p) (done (put s.threads i v k)) f in omega arith)
            none
      | no ne ↦
          going_on j lj (subst (λ m. done m ≤ inv.lo) (sym (put_other s.threads i j v ne)) low) none
    ]
      where
        none : (k : ℕ) → k < n → is_freeing (put s.threads i v k).pc ≡ false
        none k lk =
            All-put s.threads i v (λ m. is_freeing m.pc ≡ false) (λ _. Unit) n (ap is_freeing at)
              (λ k lk _ _. rest k lk) k lk tt

        not_leb→lt : (a b : ℕ) → leb a b ≡ false → b < a
        not_leb→lt a b h = ground arith
    not_last_to_end v d at more (closing c lc at_c all rest) =
        closing c lc (pc-put s.threads i v c freeing is_freeing (ap is_freeing e) refl at_c).1
          (λ k lk.
            All-put s.threads i v (λ m. inv.lo < done m) (λ _. Unit) n (omega arith)
              (λ k lk _ _. all k lk) k lk tt)
          (All-put s.threads i v (λ m. is_freeing m.pc ≡ false) (λ k. k ≢ c) n (ap is_freeing at)
            (λ k lk _. rest k lk))

    complete_at : Inv n (end_count n i s)
    unfolding end_count
    complete_at = by_count (u32 (s.completed t.work_share + 1) == n) refl
      where
        over : Member
        over = record t { last_work_share = none; pc = outside }

        less : (c : ℕ) → c ≤ n → c ≢ n → c < n
        less c a b = omega arith

        by_count :
            (b : Bool)
            → (u32 (s.completed t.work_share + 1) == n) ≡ b
            → Inv n (record s {
              completed = put s.completed t.work_share (u32 (s.completed t.work_share + 1));
              threads = put s.threads i (if b then record t { pc = freeing } else over);
            })
        by_count true q =
            let v = record t { pc = freeing } in
            let full : count_true (finished (suc p) (put s.threads i v)) n ≡ n =
              ended_after n s inv i lt p lo_p p_top is_in e small v is_in.0
              ∙ sym (count_is n s inv i lt p lo_p p_top is_in e small)
              ∙ ==→eq _ n q in
            let (is_lo, turn) = last_to_end v is_in.0 refl full inv.turn in
            Inv-ended n s inv i lt p lo_p p_top is_in e small v is_in.0 refl
              (omega arith, subst (λ k. IsIn inv.seq k v) is_lo is_in) turn
        by_count false q =
            let after = ended_after n s inv i lt p lo_p p_top is_in e small over is_in.0 in
            let here = count_is n s inv i lt p lo_p p_top is_in e small in
            let most = count_true_le (finished (suc p) (put s.threads i over)) n in
            let ne = ==→ne (u32 (s.completed t.work_share + 1)) n q in
            Inv-ended n s inv i lt p lo_p p_top is_in e small over is_in.0 refl
              (
                let r = is_in.0 in omega arith,
                let r = is_in.0 in omega arith,
                is_in.1 ∙ ap inv.seq (sym is_in.0),
              )
              (not_last_to_end over is_in.0 refl
                (less (count_true (finished (suc p) (put s.threads i over)) n) most
                  (λ z. ne (here ∙ sym after ∙ z)))
                inv.turn)

  pub Inv-complete : n < 2 ^ 32 → t.pc ≡ inside → Inv n (end_nowait n i s)
  unfolding end_nowait
  Inv-complete small e =
      let (p, lo_p, p_top, is_in) = at_place inside i lt e in
      subst (Inv n) (sym (counted (inv.seq p) is_in.2)) (complete_at p lo_p p_top is_in e small)
    where
      counted : (b : ℕ) → t.last_work_share ≡ some b → end_nowait n i s ≡ end_count n i s
      counted b l = simp (end_nowait, l)
