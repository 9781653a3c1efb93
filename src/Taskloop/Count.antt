-- ===== src/Taskloop/Count.antt =====
-- The number of iterations that `GOMP_taskloop` shares out.
use libgomp_a.Base.{
  ℕ, zero, suc, ◌+◌, ◌*◌, ◌/◌, ◌^◌, ◌≤◌, ◌<◌, ◌≡◌, ◌≢◌, ◌↔◌, refl, ap, ◌∙◌, arith, some, ℤ, pos,
  negsuc, ltb_ℤ, leb_ℤ, true, false, pos_part, neg_part, ◌+ℤ◌, ◌-ℤ◌, ◌*ℤ◌, ◌<ℤ◌, +ℤ_parts,
}
use libgomp_a.Iter.{Schedule, WorkShare, iteration_count}
use native.Mathlib.Nat.{div-add-mod}
use libgomp_a.Iter.Values.{*ℤ_parts}
use libgomp_a.Iter.Count.{Before, distance, ceiling_iff, count_up, count_down}
use libgomp_a.Taskloop.{taskloop_count}

-- `n` is how many `x` there are for which the loop variable `start + x * step` comes before `end`.
abbrev pub IsCount : ℤ → ℤ → ℤ → ℕ → Type 0
IsCount start end step n = (x : ℕ) → (x < n) ↔ Before step (pos x *ℤ step +ℤ start) end

-- A loop that has iterations, with its distance and step in range.
pub record IsLoop (start end step : ℤ) : Type 0 where
  pub steps : step ≢ pos 0
  pub ahead : Before step start end
  pub room : distance start end + distance end start + pos_part step + neg_part step < 2 ^ 63

-- The loop as a work share.
abbrev as_share : ℤ → ℤ → ℤ → WorkShare
as_share start end step = record {
  sched = Schedule.dynamic;
  mode = 0;
  chunk_size = pos 0;
  end = end;
  incr = step;
  next = start;
}

up_count :
    (start end : ℤ) (k : ℕ)
    → start <ℤ end
    → taskloop_count start end (pos (suc k))
      ≡ some (iteration_count (as_share start end (pos (suc k))))
unfolding taskloop_count iteration_count ◌-ℤ◌ ◌+ℤ◌
up_count start end k h =
    let up : ltb_ℤ (pos 0) (pos (suc k)) ≡ true = ground arith in
    let on : leb_ℤ end start ≡ false = ground arith in rw (up, on) refl

down_count :
    (start end : ℤ) (k : ℕ)
    → end <ℤ start
    → taskloop_count start end (negsuc k) ≡ some (iteration_count (as_share start end (negsuc k)))
unfolding taskloop_count iteration_count
down_count start end k h =
    let up : ltb_ℤ (pos 0) (negsuc k) ≡ false = ground arith in
    let on : leb_ℤ start end ≡ false = ground arith in rw (up, on) refl

value_parts :
    (x : ℕ) (step start : ℤ)
    → pos_part (pos x *ℤ step +ℤ start) + neg_part start + x * neg_part step
      ≡ neg_part (pos x *ℤ step +ℤ start) + pos_part start + x * pos_part step
value_parts x step start = omega (arith, +ℤ_parts (pos x *ℤ step) start, *ℤ_parts x step)

quotient_lt : (d k : ℕ) → d + k < 2 ^ 63 → (d + k) / suc k < 2 ^ 63
quotient_lt d k h = grind (arith, div-add-mod (d + k) (suc k))

quotient_pos : (d k : ℕ) → 1 ≤ d → 1 ≤ (d + k) / suc k
quotient_pos d k h = (ceiling_iff 0 d k).1 (omega arith)

-- `GOMP_taskloop` counts the iterations of a loop that has some and is in range, and their number
-- is below 2 ^ 63.
pub taskloop_count-IsCount :
    (start end step : ℤ)
    → IsLoop start end step
    → (n : ℕ) × (taskloop_count start end step ≡ some n)
      × (1 ≤ n)
      × (n < 2 ^ 63)
      × IsCount start end step n
taskloop_count-IsCount start end (pos zero) l = absurd (l.steps refl)
taskloop_count-IsCount start end (pos (suc k)) l =
    let ahead = l.ahead in
    let room = l.room in
    let d = distance start end in
    let same = count_up (as_share start end (pos (suc k))) k refl (omega arith) (omega arith) in
    (
      (d + k) / suc k,
      up_count start end k ahead ∙ ap some same,
      quotient_pos d k (omega arith),
      quotient_lt d k (omega arith),
      λ x.
          let v = value_parts x (pos (suc k)) start in
          let iff = ceiling_iff x d k in
          (λ h. let lt = iff.0 h in omega arith, λ h. iff.1 (omega arith)),
    )
taskloop_count-IsCount start end (negsuc k) l =
    let ahead = l.ahead in
    let room = l.room in
    let d = distance end start in
    let same = count_down (as_share start end (negsuc k)) k refl (omega arith) (omega arith) in
    (
      (d + k) / suc k,
      down_count start end k ahead ∙ ap some same,
      quotient_pos d k (omega arith),
      quotient_lt d k (omega arith),
      λ x.
          let v = value_parts x (negsuc k) start in
          let iff = ceiling_iff x d k in
          (λ h. let lt = iff.0 h in omega arith, λ h. iff.1 (omega arith)),
    )
