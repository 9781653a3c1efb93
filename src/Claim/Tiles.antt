-- ===== src/Claim/Tiles.antt =====
-- The blocks of a dynamic loop cover it: they lie end to end, from its start to its end.
use mathlib.Core.Path.{subst}
use libgomp_a.Base.{
  ℕ, ◌+◌, ◌≡◌, ◌≢◌, ◌⊎◌, List, [], ◌∷◌, arith, Bool-cases, inl, inr, ℤ, pos, pos_part, neg_part,
  if◌then◌else◌, ltb_ℤ, ◌+ℤ◌, ◌-ℤ◌, ◌≤ℤ◌, ◌<ℤ◌, +ℤ_parts, -ℤ_parts, eq_of_parts, ◌∙◌, sym, ap,
  ltb→lt, not_ltb→le, ℕ_discrete,
}
use libgomp_a.Iter.{WorkShare}
use libgomp_a.Claim.{dynamic_attempt, Race, turned_away, Reach}
use libgomp_a.Claim.Replay.{Run, Reach-Run, turned_away-end}
use libgomp_a.Claim.Pass.{full_end, clip_up, clip_down}
use libgomp_a.Claim.Dynamic.{IsReady, ready-IsFair}

-- A block that goes on in the direction of the loop, by no more than a chunk.
abbrev pub IsBlock : WorkShare → ℤ × ℤ → Type 0
IsBlock ws (s, e) =
    ((pos 0 <ℤ ws.incr) × (s <ℤ e) × (e -ℤ s ≤ℤ ws.chunk_size))
    ⊎ ((ws.incr <ℤ pos 0) × (e <ℤ s) × (ws.chunk_size ≤ℤ e -ℤ s))

-- A log of blocks, the latest first, that lie end to end from `ws.next` to `now`.
abbrev pub Tiles : WorkShare → List (ℤ × ℤ) → ℤ → Type 0
Tiles ws [] now = now ≡ ws.next
Tiles ws (b ∷ log) now = Tiles ws log b.0 × (b.1 ≡ now) × IsBlock ws b

lt_of_le_ne : (a b : ℤ) → a ≤ℤ b → a ≢ b → a <ℤ b
lt_of_le_ne a b h ne = elim (ℕ_discrete (pos_part a + neg_part b) (pos_part b + neg_part a)) [
  | yes e ↦ absurd (ne (eq_of_parts a b e))
  | no n ↦ omega arith
]

clipped_up :
    (a e c k : ℤ)
    → pos 0 <ℤ c
    → a <ℤ e
    → k ≡ (if ltb_ℤ (e -ℤ a) c then e -ℤ a else c)
    → (a <ℤ a +ℤ k) × ((a +ℤ k) -ℤ a ≤ℤ c) × (a +ℤ k ≤ℤ e)
clipped_up a e c k h1 h2 q =
    let d = -ℤ_parts e a in
    let s = +ℤ_parts a k in
    let b = -ℤ_parts (a +ℤ k) a in
    elim (Bool-cases (ltb_ℤ (e -ℤ a) c)) [
      | inl t ↦
          let k' : k ≡ e -ℤ a = ground (arith, t) in
          let x = ltb→lt _ _ t in
          let kp = ap pos_part k' in
          let kn = ap neg_part k' in (omega arith, omega arith, omega arith)
      | inr t ↦
          let k' : k ≡ c = ground (arith, t) in
          let x = not_ltb→le _ _ t in
          let kp = ap pos_part k' in
          let kn = ap neg_part k' in (omega arith, omega arith, omega arith)
    ]

clipped_down :
    (a e c k : ℤ)
    → c <ℤ pos 0
    → e <ℤ a
    → k ≡ (if ltb_ℤ c (e -ℤ a) then e -ℤ a else c)
    → (a +ℤ k <ℤ a) × (c ≤ℤ (a +ℤ k) -ℤ a) × (e ≤ℤ a +ℤ k)
clipped_down a e c k h1 h2 q =
    let d = -ℤ_parts e a in
    let s = +ℤ_parts a k in
    let b = -ℤ_parts (a +ℤ k) a in
    elim (Bool-cases (ltb_ℤ c (e -ℤ a))) [
      | inl t ↦
          let k' : k ≡ e -ℤ a = ground (arith, t) in
          let x = ltb→lt _ _ t in
          let kp = ap pos_part k' in
          let kn = ap neg_part k' in (omega arith, omega arith, omega arith)
      | inr t ↦
          let k' : k ≡ c = ground (arith, t) in
          let x = not_ltb→le _ _ t in
          let kp = ap pos_part k' in
          let kn = ap neg_part k' in (omega arith, omega arith, omega arith)
    ]

pub full_end-IsBlock :
    (ws : WorkShare) (a : ℤ)
    → IsReady (record ws { next = a })
    → a ≢ ws.end
    → IsBlock ws (a, full_end ws a) × IsReady (record ws { next = full_end ws a })
full_end-IsBlock ws a (inl (h1, h2, h3)) ne =
    let k = clip_up ws.incr ws.chunk_size (ws.end -ℤ a) h1 in
    let (x, y, z) = clipped_up a ws.end ws.chunk_size _ h2 (lt_of_le_ne a ws.end h3 ne) k in
    (inl (h1, x, y), inl (h1, h2, z))
full_end-IsBlock ws a (inr (h1, h2, h3)) ne =
    let k = clip_down ws.incr ws.chunk_size (ws.end -ℤ a) h1 in
    let (x, y, z) =
      clipped_down a ws.end ws.chunk_size _ h2 (lt_of_le_ne ws.end a h3 (λ e. ne (sym e))) k in
    (inr (h1, x, y), inr (h1, h2, z))

Run-Tiles :
    (ws : WorkShare) (log : List (ℤ × ℤ)) (next : ℤ)
    → IsReady ws
    → Run (full_end ws) ws.end ws.next log next
    → Tiles ws log next × IsReady (record ws { next = next })
Run-Tiles ws [] next ready e = (e, subst (λ x. IsReady (record ws { next = x })) (sym e) ready)
Run-Tiles ws (b ∷ log) next ready (run, ne, e, q) =
    let (t, ready') = Run-Tiles ws log b.0 ready run in
    let (block, after) = full_end-IsBlock ws b.0 ready' ne in
    (
      (t, sym q, subst (λ x. IsBlock ws (b.0, x)) (sym e) block),
      subst (λ x. IsReady (record ws { next = x })) (sym e ∙ sym q) after,
    )

-- For a work share as `gomp_loop_init` leaves it: once a thread's call of
-- `gomp_iter_dynamic_next`, on the compare-and-swap loop, has returned false, the blocks that were
-- handed out lie end to end from the loop's start to its end, each of one chunk at most and none
-- empty.
pub dynamic_next-Tiles :
    (ws : WorkShare) (s : Race) (i : ℕ)
    → IsReady ws
    → Reach (dynamic_attempt ws) ws.chunk_size ws.next s
    → s.pc i ≡ turned_away
    → Tiles ws s.handed ws.end
dynamic_next-Tiles ws s i h r e =
    let fair = ready-IsFair ws h in
    subst (Tiles ws s.handed) (turned_away-end fair r i e)
      (Run-Tiles ws s.handed s.next h (Reach-Run fair r)).0
