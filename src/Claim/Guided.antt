-- ===== src/Claim/Guided.antt =====
-- `gomp_iter_guided_next`: its compare-and-swap loop hands out what
-- `gomp_iter_guided_next_locked` would.
use mathlib.Core.Path.{subst}
use libgomp_a.Base.{
  ℕ, ◌≡◌, ◌≢◌, refl, ap, none, some, List, [], ◌∷◌, arith, Bool-cases, inl, inr, ℤ, ◌==ℤ◌, ==ℤ_eq,
  ==ℤ_ne, ne→not_==ℤ,
}
use libgomp_a.Iter.{WorkShare, Thread, nthreads, guided_end, iter_guided_next_locked}
use libgomp_a.Claim.{guided_attempt, Race, turned_away, Reach}
use libgomp_a.Claim.Replay.{IsFair, Run, Reach-Run, turned_away-end}

module _ (ws : WorkShare) (thr : Thread) where
  attempt_none : (a c : ℤ) → guided_attempt ws (nthreads thr) a c ≡ none → a ≡ ws.end
  unfolding guided_attempt
  attempt_none a c h = elim (Bool-cases (a ==ℤ ws.end)) [
    | inl e ↦ ==ℤ_eq a ws.end e
    | inr e ↦ ground (arith, e)
  ]

  attempt_some :
      (a c n k : ℤ)
      → guided_attempt ws (nthreads thr) a c ≡ some (n, k)
      → (a ≢ ws.end) × (n ≡ guided_end ws (nthreads thr) a)
  unfolding guided_attempt
  attempt_some a c n k h = elim (Bool-cases (a ==ℤ ws.end)) [
    | inl e ↦ ground (arith, e)
    | inr e ↦ (==ℤ_ne a ws.end e, ground (arith, e))
  ]

  abbrev BehindEnd : ℤ → ℤ → Type 0
  BehindEnd a b = a ≡ ws.end → b ≡ ws.end

  fair :
      IsFair
        (guided_attempt ws (nthreads thr))
        ws.chunk_size
        ws.end
        ws.next
        (guided_end ws (nthreads thr))
  fair = record {
    Behind = BehindEnd;
    Holds = λ _ _. Unit;
    behind_refl = λ a h. h;
    behind_trans = λ a b c h k e. k (h e);
    holds_full = λ a _. tt;
    holds_later = λ a b c _ _. tt;
    end_last = λ a h. h refl;
    stops = attempt_none;
    starts =
        λ a c n k _ _ h. let (ne, e) = attempt_some a c n k h in (ne, e, λ q. absurd (ne q), tt);
  }

  -- As `Replays` of a dynamic loop, with `gomp_iter_guided_next_locked`.
  abbrev pub GuidedReplays : List (ℤ × ℤ) → WorkShare → Type 0
  GuidedReplays [] now = now ≡ ws
  GuidedReplays (b ∷ log) now =
      (before : WorkShare) × GuidedReplays log before
      × (iter_guided_next_locked before thr ≡ (some b, now))

  locked_full :
      (a n : ℤ)
      → a ≢ ws.end
      → n ≡ guided_end ws (nthreads thr) a
      → iter_guided_next_locked (record ws { next = a }) thr ≡ (some (a, n), record ws { next = n })
  unfolding iter_guided_next_locked guided_end
  locked_full a n ne e = rw (ne→not_==ℤ a ws.end ne, e)

  Run-GuidedReplays :
      (log : List (ℤ × ℤ)) (next : ℤ)
      → Run (guided_end ws (nthreads thr)) ws.end ws.next log next
      → GuidedReplays log (record ws { next = next })
  Run-GuidedReplays [] next e = ap (λ x. record ws { next = x }) e
  Run-GuidedReplays ((a, n) ∷ log) next (run, ne, e, q) =
      (record ws { next = a }, Run-GuidedReplays log a run, rw q (locked_full a n ne e))

  -- However the threads' accesses to `ws->next` are interleaved, `gomp_iter_guided_next` hands out
  -- the blocks that successive calls of `gomp_iter_guided_next_locked` hand out, in that order.
  pub guided_next-Replays :
      (s : Race)
      → Reach (guided_attempt ws (nthreads thr)) ws.chunk_size ws.next s
      → GuidedReplays s.handed (record ws { next = s.next })
  guided_next-Replays s r = Run-GuidedReplays s.handed s.next (Reach-Run fair r)

  -- Once a thread's call of `gomp_iter_guided_next` has returned false, the blocks that were
  -- handed out are those of successive calls of `gomp_iter_guided_next_locked` up to the one that
  -- reaches the loop's end.
  pub guided_next-turned_away :
      (s : Race) (i : ℕ)
      → Reach (guided_attempt ws (nthreads thr)) ws.chunk_size ws.next s
      → s.pc i ≡ turned_away
      → GuidedReplays s.handed (record ws { next = ws.end })
  guided_next-turned_away s i r e =
      subst (λ x. GuidedReplays s.handed (record ws { next = x })) (turned_away-end fair r i e)
        (guided_next-Replays s r)
