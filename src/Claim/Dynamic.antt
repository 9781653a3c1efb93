-- ===== src/Claim/Dynamic.antt =====
-- `gomp_iter_dynamic_next`: its compare-and-swap loop hands out what
-- `gomp_iter_dynamic_next_locked` would.
use mathlib.Core.Path.{subst}
use libgomp_a.Base.{
  ℕ, ◌≡◌, ◌≢◌, ◌⊎◌, some, List, [], ◌∷◌, inl, inr, ℤ, pos, ◌≤ℤ◌, ◌<ℤ◌, ap, ne→not_==ℤ,
}
use libgomp_a.Iter.{WorkShare, iter_dynamic_next_locked}
use libgomp_a.Claim.{dynamic_attempt, Race, turned_away, Reach}
use libgomp_a.Claim.Replay.{IsFair, Run, Reach-Run, turned_away-end}
use libgomp_a.Claim.Pass.{full_end}
use libgomp_a.Claim.Up.{IsFair-up}
use libgomp_a.Claim.Down.{IsFair-down}

-- A loop as `gomp_loop_init` leaves it: the chunk has the sign of `incr`, the end is not passed.
abbrev pub IsReady : WorkShare → Type 0
IsReady ws =
    ((pos 0 <ℤ ws.incr) × (pos 0 <ℤ ws.chunk_size) × (ws.next ≤ℤ ws.end))
    ⊎ ((ws.incr <ℤ pos 0) × (ws.chunk_size <ℤ pos 0) × (ws.end ≤ℤ ws.next))

-- The log of blocks, the latest first, is what successive calls of `gomp_iter_dynamic_next_locked`
-- hand out from `ws`, and `now` is the work share that they leave.
abbrev pub Replays : WorkShare → List (ℤ × ℤ) → WorkShare → Type 0
Replays ws [] now = now ≡ ws
Replays ws (b ∷ log) now =
    (before : WorkShare) × Replays ws log before × (iter_dynamic_next_locked before ≡ (some b, now))

pub locked_full :
    (ws : WorkShare) (a n : ℤ)
    → a ≢ ws.end
    → n ≡ full_end ws a
    → iter_dynamic_next_locked (record ws { next = a }) ≡ (some (a, n), record ws { next = n })
unfolding iter_dynamic_next_locked
locked_full ws a n ne e = rw (ne→not_==ℤ a ws.end ne, e)

Run-Replays :
    (ws : WorkShare) (log : List (ℤ × ℤ)) (next : ℤ)
    → Run (full_end ws) ws.end ws.next log next
    → Replays ws log (record ws { next = next })
Run-Replays ws [] next e = ap (λ x. record ws { next = x }) e
Run-Replays ws ((a, n) ∷ log) next (run, ne, e, q) =
    (record ws { next = a }, Run-Replays ws log a run, rw q (locked_full ws a n ne e))

pub ready-IsFair :
    (ws : WorkShare)
    → IsReady ws
    → IsFair (dynamic_attempt ws) ws.chunk_size ws.end ws.next (full_end ws)
ready-IsFair ws (inl h) = IsFair-up ws h.0 h.1 h.2
ready-IsFair ws (inr h) = IsFair-down ws h.0 h.1 h.2

-- For a work share as `gomp_loop_init` leaves it: however the threads' accesses to `ws->next` in
-- the compare-and-swap loop are interleaved, `gomp_iter_dynamic_next` hands out the blocks that
-- successive calls of `gomp_iter_dynamic_next_locked` hand out, in that order.
pub dynamic_next-Replays :
    (ws : WorkShare) (s : Race)
    → IsReady ws
    → Reach (dynamic_attempt ws) ws.chunk_size ws.next s
    → Replays ws s.handed (record ws { next = s.next })
dynamic_next-Replays ws s h r = Run-Replays ws s.handed s.next (Reach-Run (ready-IsFair ws h) r)

-- A call of `gomp_iter_dynamic_next` returns false only when every block has been handed out.
pub dynamic_next-turned_away :
    (ws : WorkShare) (s : Race) (i : ℕ)
    → IsReady ws
    → Reach (dynamic_attempt ws) ws.chunk_size ws.next s
    → s.pc i ≡ turned_away
    → Replays ws s.handed (record ws { next = ws.end })
dynamic_next-turned_away ws s i h r e =
    subst (λ x. Replays ws s.handed (record ws { next = x }))
      (turned_away-end (ready-IsFair ws h) r i e) (dynamic_next-Replays ws s h r)
