-- ===== src/Iter/Count.antt =====
-- The number of iterations that `gomp_iter_static_next` and the tests on it count with.
use libgomp_a.Base.{
  ℕ, zero, suc, ◌+◌, ◌-◌, ◌*◌, ◌/◌, ◌%◌, ◌^◌, ◌<◌, ◌≡◌, ◌≢◌, ◌↔◌, refl, arith, ℤ, pos, negsuc,
  ltb_ℤ, sub_ℕ, true, false, pos_part, neg_part, ◌+ℤ◌, ◌-ℤ◌, ◌/ℤ◌, ◌≤ℤ◌, ◌<ℤ◌, +ℤ_parts, -ℤ_parts,
  eq_of_parts, int_laws, to_word, neg,
}
use native.Mathlib.Nat.{div-add-mod, mod-lt}
use libgomp_a.Iter.{WorkShare, iteration_count, iteration_value}
use libgomp_a.Iter.Values.{iteration_value_along}

-- A loop that has not passed its end: the canonical form of `gomp_loop_init`.
abbrev pub Canonical : ℤ → ℤ → ℤ → Type 0
Canonical (pos k) start end = start ≤ℤ end
Canonical (negsuc k) start end = end ≤ℤ start

-- In the direction of the loop the value comes before the end.
abbrev pub Before : ℤ → ℤ → ℤ → Type 0
Before (pos k) v end = v <ℤ end
Before (negsuc k) v end = end <ℤ v

-- How far the end is from the start.
abbrev pub distance : ℤ → ℤ → ℕ
distance a b = pos_part b + neg_part a - (pos_part a + neg_part b)

pub ceiling_iff : (x d k : ℕ) → (x < (d + k) / suc k) ↔ (x * suc k < d)
ceiling_iff x d k = (
  λ h. grind (arith, div-add-mod (d + k) (suc k), mod-lt (d + k) {m = suc k}),
  λ h. grind (arith, div-add-mod (d + k) (suc k), mod-lt (d + k) {m = suc k}),
)

quotient_small : (n k : ℕ) → n < 2 ^ 64 → n / suc k % 2 ^ 64 ≡ n / suc k
quotient_small n k h = grind (arith, div-add-mod n (suc k))

-- The truncated quotient of two numbers that are not positive.
negative_quotient : (n k : ℕ) → n < 2 ^ 64 → to_word (sub_ℕ 0 n /ℤ negsuc k) ≡ n / suc k
unfolding ◌/ℤ◌ neg
negative_quotient zero k h = grind (arith, div-add-mod 0 (suc k))
negative_quotient (suc n) k h = grind (arith, quotient_small (suc n) k h)

pub count_up :
    (ws : WorkShare) (k : ℕ)
    → ws.incr ≡ pos (suc k)
    → ws.next ≤ℤ ws.end
    → distance ws.next ws.end + k < 2 ^ 64
    → iteration_count ws ≡ (distance ws.next ws.end + k) / suc k
unfolding iteration_count ◌/ℤ◌
count_up ws k q le room = rw (q, up, sum) (quotient_small (distance ws.next ws.end + k) k room)
  where
    up : ltb_ℤ (pos 0) (pos (suc k)) ≡ true
    up = ground arith

    sum : ws.end -ℤ ws.next +ℤ (pos (suc k) +ℤ negsuc 0) ≡ pos (distance ws.next ws.end + k)
    sum = omega int_laws

pub count_down :
    (ws : WorkShare) (k : ℕ)
    → ws.incr ≡ negsuc k
    → ws.end ≤ℤ ws.next
    → distance ws.end ws.next + k < 2 ^ 64
    → iteration_count ws ≡ (distance ws.end ws.next + k) / suc k
unfolding iteration_count
count_down ws k q le room = rw (q, up, sum) (negative_quotient (distance ws.end ws.next + k) k room)
  where
    up : ltb_ℤ (pos 0) (negsuc k) ≡ false
    up = ground arith

    sum : ws.end -ℤ ws.next +ℤ (negsuc k +ℤ pos 1) ≡ sub_ℕ 0 (distance ws.end ws.next + k)
    sum = eq_of_parts _ _ (
        ground (
          arith,
          +ℤ_parts (ws.end -ℤ ws.next) (negsuc k +ℤ pos 1),
          -ℤ_parts ws.end ws.next,
          +ℤ_parts (negsuc k) (pos 1),
        ))

-- For a loop whose end is not before its start and whose distance and step do not overflow: `n`,
-- as the iteration functions compute it, is the number of iterations: an `x` below 2 ^ 63 is below `n`
-- if and only if the value of iteration `x` comes before the end.
pub iteration_count_iff :
    (ws : WorkShare) (incr : ℤ) (x : ℕ)
    → ws.incr ≡ incr
    → incr ≢ pos 0
    → Canonical incr ws.next ws.end
    → distance ws.next ws.end + distance ws.end ws.next + pos_part incr + neg_part incr < 2 ^ 64
    → x < 2 ^ 63
    → (x < iteration_count ws) ↔ Before incr (iteration_value ws x) ws.end
iteration_count_iff ws (pos zero) x q nz c room hx = absurd (nz refl)
iteration_count_iff ws (pos (suc k)) x q nz c room hx =
    let v = iteration_value_along ws x (pos (suc k)) hx q in
    let iff = ceiling_iff x (distance ws.next ws.end) k in
    rw (count_up ws k q c (omega arith))
      (λ h. let lt = iff.0 h in omega arith, λ h. iff.1 (omega arith))
iteration_count_iff ws (negsuc k) x q nz c room hx =
    let v = iteration_value_along ws x (negsuc k) hx q in
    let iff = ceiling_iff x (distance ws.end ws.next) k in
    rw (count_down ws k q c (omega arith))
      (λ h. let lt = iff.0 h in omega arith, λ h. iff.1 (omega arith))
