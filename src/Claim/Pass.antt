-- ===== src/Claim/Pass.antt =====
-- One pass of the loop of `gomp_iter_dynamic_next`: what `dynamic_attempt` returns.
use libgomp_a.Base.{
  ◌≡◌, ◌≢◌, none, some, arith, Bool-cases, inl, inr, ℤ, pos, if◌then◌else◌, ltb_ℤ, ◌==ℤ◌, ◌+ℤ◌,
  ◌-ℤ◌, ◌<ℤ◌, ==ℤ_eq, ==ℤ_ne,
}
use libgomp_a.Iter.{WorkShare, clip_chunk}
use libgomp_a.Claim.{dynamic_attempt}

pub attempt_none : (ws : WorkShare) (a c : ℤ) → dynamic_attempt ws a c ≡ none → a ≡ ws.end
unfolding dynamic_attempt
attempt_none ws a c h = elim (Bool-cases (a ==ℤ ws.end)) [
  | inl e ↦ ==ℤ_eq a ws.end e
  | inr e ↦ ground (arith, e)
]

pub attempt_some :
    (ws : WorkShare) (a c n k : ℤ)
    → dynamic_attempt ws a c ≡ some (n, k)
    → (a ≢ ws.end) × (k ≡ clip_chunk ws.incr c (ws.end -ℤ a)) × (n ≡ a +ℤ k)
unfolding dynamic_attempt
attempt_some ws a c n k h = elim (Bool-cases (a ==ℤ ws.end)) [
  | inl e ↦ ground (arith, e)
  | inr e ↦ (==ℤ_ne a ws.end e, ground (arith, e), ground (arith, e))
]

pub clip_up : (incr c l : ℤ) → pos 0 <ℤ incr → clip_chunk incr c l ≡ (if ltb_ℤ l c then l else c)
unfolding clip_chunk
clip_up incr c l h = ground arith

pub clip_down : (incr c l : ℤ) → incr <ℤ pos 0 → clip_chunk incr c l ≡ (if ltb_ℤ c l then l else c)
unfolding clip_chunk
clip_down incr c l h = ground arith

-- Where a block from `a` ends if the whole chunk is tried.
abbrev pub full_end : WorkShare → ℤ → ℤ
full_end ws a = a +ℤ clip_chunk ws.incr ws.chunk_size (ws.end -ℤ a)
