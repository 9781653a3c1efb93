-- ===== src/Claim/Total.antt =====
-- Enough calls of `gomp_iter_dynamic_next_locked` hand out the whole loop.
use libgomp_a.Base.{
  ℕ, zero, suc, ◌+◌, ◌-◌, ◌≤◌, ◌≡◌, ◌≢◌, refl, ap, ◌∙◌, arith, Bool-cases, inl, inr, pos_part,
  neg_part, eq_of_parts, ◌==ℤ◌, eq→==ℤ, ==ℤ_eq, ==ℤ_ne,
}
use libgomp_a.Iter.{WorkShare, iter_dynamic_next_locked}
use libgomp_a.Claim.Pass.{full_end}
use libgomp_a.Claim.Dynamic.{IsReady, locked_full}
use libgomp_a.Claim.Tiles.{full_end-IsBlock}

-- The work share after that many calls.
pub dynamic_calls : ℕ → WorkShare → WorkShare
dynamic_calls zero ws = ws
dynamic_calls (suc k) ws = dynamic_calls k (iter_dynamic_next_locked ws).1

-- How far the loop is from its end.
abbrev pub gap : WorkShare → ℕ
gap ws =
    let a = pos_part ws.end + neg_part ws.next in
    let b = pos_part ws.next + neg_part ws.end in a - b + (b - a)

locked_end : (ws : WorkShare) → ws.next ≡ ws.end → (iter_dynamic_next_locked ws).1 ≡ ws
unfolding iter_dynamic_next_locked
locked_end ws e = rw (eq→==ℤ ws.next ws.end e) refl

gap_after :
    (ws : WorkShare)
    → IsReady ws
    → ws.next ≢ ws.end
    → suc (gap (record ws { next = full_end ws ws.next })) ≤ gap ws
gap_after ws ready ne =
    let (block, after) = full_end-IsBlock ws ws.next ready ne in
    elim after [ inl up ↦ omega arith | inr down ↦ omega arith ]

-- For a work share as `gomp_loop_init` leaves it: as many calls of `gomp_iter_dynamic_next_locked`
-- as the distance from `next` to the end bring `next` to the end.
pub dynamic_calls-end :
    (k : ℕ) (ws : WorkShare) → IsReady ws → gap ws ≤ k → (dynamic_calls k ws).next ≡ ws.end
unfolding dynamic_calls
dynamic_calls-end zero ws ready h = eq_of_parts ws.next ws.end (omega arith)
dynamic_calls-end (suc k) ws ready h = elim (Bool-cases (ws.next ==ℤ ws.end)) [
  | inl last ↦
      let e = ==ℤ_eq ws.next ws.end last in
      let same = locked_end ws e in
      ap (λ w. (dynamic_calls k w).next) same
      ∙ dynamic_calls-end k ws ready (omega (arith, ap pos_part e, ap neg_part e))
  | inr more ↦
      let ne = ==ℤ_ne ws.next ws.end more in
      let step = locked_full ws ws.next (full_end ws ws.next) ne refl in
      let (block, after) = full_end-IsBlock ws ws.next ready ne in
      ap (λ r. (dynamic_calls k r.1).next) step
      ∙ dynamic_calls-end k (record ws { next = full_end ws ws.next }) after
          (omega (arith, gap_after ws ready ne))
]
