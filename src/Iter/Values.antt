-- ===== src/Iter/Values.antt =====
-- The loop variable: the value of an iteration, and the values that a block stands for.
use libgomp_a.Base.{
  ℕ, zero, suc, ◌+◌, ◌*◌, ◌^◌, ◌≤◌, ◌<◌, ◌≡◌, ◌≢◌, ◌↔◌, refl, some, arith, ℤ, pos, negsuc, pos_part,
  neg_part, ◌*ℤ◌, ◌≤ℤ◌, ◌<ℤ◌, +ℤ_parts, to_long,
}
use mathlib.Core.Path.{subst}
use libgomp_a.Iter.{WorkShare, iteration_value, StaticResult}

-- The values from the first end of a block up to the other, in the direction of the loop.
abbrev pub Within : ℤ → ℤ × ℤ → ℤ → Type 0
Within (pos k) b v = (b.0 ≤ℤ v) × (v <ℤ b.1)
Within (negsuc k) b v = (b.1 <ℤ v) × (v ≤ℤ b.0)

-- The call hands out a block of values with `v` among them.
abbrev pub Executes : StaticResult → ℤ → ℤ → Type 0
Executes r incr v = (r.ret ≡ pos 0) × ((b : ℤ × ℤ) × (r.block ≡ some b) × Within incr b v)

pub *ℤ_parts :
    (x : ℕ) (k : ℤ)
    → pos_part (pos x *ℤ k) + x * neg_part k ≡ neg_part (pos x *ℤ k) + x * pos_part k
unfolding ◌*ℤ◌
*ℤ_parts x (pos k) = ground arith
*ℤ_parts x (negsuc k) = ground arith

pub to_long-eq_pos : (n : ℕ) → n < 2 ^ 63 → to_long n ≡ pos n
to_long-eq_pos n h = ground arith

pub iteration_value_parts :
    (ws : WorkShare) (x : ℕ)
    → x < 2 ^ 63
    → pos_part (iteration_value ws x) + neg_part ws.next + x * neg_part ws.incr
      ≡ neg_part (iteration_value ws x) + pos_part ws.next + x * pos_part ws.incr
unfolding iteration_value
iteration_value_parts ws x h =
    rw (to_long-eq_pos x h) (omega (arith, +ℤ_parts (pos x *ℤ ws.incr) ws.next, *ℤ_parts x ws.incr))

le_of_mul_le : (a b k : ℕ) → a * suc k ≤ b * suc k → a ≤ b
le_of_mul_le a b k h = grind arith

lt_of_mul_lt : (a b k : ℕ) → a * suc k < b * suc k → a < b
lt_of_mul_lt a b k h = grind arith

mul_le : (a b k : ℕ) → a ≤ b → a * suc k ≤ b * suc k
mul_le a b k h = grind arith

mul_lt : (a b k : ℕ) → a < b → a * suc k < b * suc k
mul_lt a b k h = grind arith

pub iteration_value_along :
    (ws : WorkShare) (x : ℕ) (incr : ℤ)
    → x < 2 ^ 63
    → ws.incr ≡ incr
    → pos_part (iteration_value ws x) + neg_part ws.next + x * neg_part incr
      ≡ neg_part (iteration_value ws x) + pos_part ws.next + x * pos_part incr
iteration_value_along ws x incr h q =
    subst
      (λ k.
        pos_part (iteration_value ws x) + neg_part ws.next + x * neg_part k
        ≡ neg_part (iteration_value ws x) + pos_part ws.next + x * pos_part k)
      q (iteration_value_parts ws x h)

-- The order of two values, from the order of their iterations.
module _ (ws : WorkShare) (a b k : ℕ) (ha : a < 2 ^ 63) (hb : b < 2 ^ 63) where
  value_up :
      ws.incr ≡ pos (suc k)
      → ((iteration_value ws a ≤ℤ iteration_value ws b) ↔ (a ≤ b))
        × ((iteration_value ws a <ℤ iteration_value ws b) ↔ (a < b))
  value_up q =
      let pa = iteration_value_along ws a (pos (suc k)) ha q in
      let pb = iteration_value_along ws b (pos (suc k)) hb q in
      (
        (λ h. le_of_mul_le a b k (omega arith), λ h. omega (arith, mul_le a b k h)),
        (λ h. lt_of_mul_lt a b k (omega arith), λ h. omega (arith, mul_lt a b k h)),
      )

  value_down :
      ws.incr ≡ negsuc k
      → ((iteration_value ws b ≤ℤ iteration_value ws a) ↔ (a ≤ b))
        × ((iteration_value ws b <ℤ iteration_value ws a) ↔ (a < b))
  value_down q =
      let pa = iteration_value_along ws a (negsuc k) ha q in
      let pb = iteration_value_along ws b (negsuc k) hb q in
      (
        (λ h. le_of_mul_le a b k (omega arith), λ h. omega (arith, mul_le a b k h)),
        (λ h. lt_of_mul_lt a b k (omega arith), λ h. omega (arith, mul_lt a b k h)),
      )

-- A value lies in a block of values exactly when its iteration lies in the block of iterations.
pub Within-iff :
    (ws : WorkShare) (incr : ℤ) (s e x : ℕ)
    → ws.incr ≡ incr
    → incr ≢ pos 0
    → s < 2 ^ 63
    → e < 2 ^ 63
    → x < 2 ^ 63
    → Within incr (iteration_value ws s, iteration_value ws e) (iteration_value ws x)
      ↔ ((s ≤ x) × (x < e))
Within-iff ws (pos zero) s e x q nz hs he hx = absurd (nz refl)
Within-iff ws (pos (suc k)) s e x q nz hs he hx =
    let ps = value_up ws s x k hs hx q in
    let pe = value_up ws x e k hx he q in
    (λ w. (ps.0.0 w.0, pe.1.0 w.1), λ w. (ps.0.1 w.0, pe.1.1 w.1))
Within-iff ws (negsuc k) s e x q nz hs he hx =
    let ps = value_down ws s x k hs hx q in
    let pe = value_down ws x e k hx he q in
    (λ w. (ps.0.0 w.1, pe.1.0 w.0), λ w. (pe.1.1 w.1, ps.0.1 w.0))
