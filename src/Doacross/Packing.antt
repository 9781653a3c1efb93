-- ===== src/Doacross/Packing.antt =====
-- Packing the counts of an iteration into one word: `gomp_doacross_init` chooses widths that hold
-- every iteration, and the word of an iteration is the number with its counters for digits.
use Prim.Native.Nat.{bit_or, digits, bit_or-bitwise, max, ◌-◌}
use libgomp_a.Doacross.{leading_zeros, this_bits, bits_step, count_bits, shifts, pack_onto, flatten}
use mathlib.Core.Option.{some-injective}
use libgomp_a.Iter.Blocks.{word-eq}
use libgomp_a.Doacross.Lex.{InRange, Fits, key, total}
use native.Mathlib.Nat.{
  sub-zero, two-pow-succ, one-le-pow, mul-lt-mul_of_pos_right, pow-le-pow_right,
}
use libgomp_a.Base.{
  ℕ, zero, suc, ◌+◌, ◌*◌, ◌/◌, ◌^◌, ◌≤◌, ◌<◌, ◌≡◌, refl, sym, >>=-some, guard-some, lt→not_leb, ◌∙◌,
  ap, arith, lt→ltb, le→not_ltb, List, [], ◌∷◌, inl, inr, ◌⊎◌, All, some, Bool-cases, ◌==◌, word,
  dec_lt, sub_word,
}

or_digits_zero : (n a : ℕ) → a ≤ n → digits (λ b. b) max n a 0 ≡ a
or_digits_zero zero a h = omega arith
or_digits_zero (suc n) zero h = refl
or_digits_zero (suc n) (suc a) h =
    let ih = or_digits_zero n (suc a / 2) (omega arith) in omega arith

-- The digits of a multiple of `2 ^ s` and of a number below `2 ^ s` do not meet.
or_digits_disjoint :
    (n s h a b : ℕ) → a ≡ h * 2 ^ s → a ≤ n → b < 2 ^ s → digits (λ b. b) max n a b ≡ a + b
or_digits_disjoint zero s h a b e le lt = omega arith
or_digits_disjoint (suc n) s h zero b e le lt = omega arith
or_digits_disjoint (suc n) zero h (suc a) b e le lt =
    let none_left : b ≡ 0 = omega arith in
    rw none_left (or_digits_zero (suc n) (suc a) le ∙ omega arith)
or_digits_disjoint (suc n) (suc s) h (suc a) b e le lt =
    let twice : suc a ≡ h * 2 ^ s + h * 2 ^ s = e ∙ rw (two-pow-succ s) (grind arith) in
    let ih =
      or_digits_disjoint n s h (suc a / 2) (b / 2) (omega arith) (omega arith) (omega arith) in
    omega arith

pub bit_or-disjoint : (s h b : ℕ) → b < 2 ^ s → bit_or (h * 2 ^ s) b ≡ h * 2 ^ s + b
bit_or-disjoint s h b lt =
    rw (bit_or-bitwise (h * 2 ^ s) b)
      (or_digits_disjoint (h * 2 ^ s) s h (h * 2 ^ s) b refl (omega arith) lt)

two-pow_add : (a b : ℕ) → 2 ^ (a + b) ≡ 2 ^ a * 2 ^ b
two-pow_add zero b = let e : 0 + b ≡ b = omega arith in rw e (omega arith)
two-pow_add (suc a) b =
    let e : suc a + b ≡ suc (a + b) = omega arith in
    rw (e, two-pow-succ (a + b), two-pow_add a b, two-pow-succ a) (grind arith)

suc-sub : (k z : ℕ) → suc k - suc z ≡ k - z
suc-sub k z = omega arith

-- No count is cut off by its width.
below_bits : (k w : ℕ) → w < 2 ^ k → (leading_zeros k w ≤ k) × (w < 2 ^ (k - leading_zeros k w))
unfolding leading_zeros
below_bits zero w h = (omega arith, h)
below_bits (suc k) w h = elim (dec_lt w (2 ^ k)) [
  | yes p ↦
      let (le, lt) = below_bits k w p in
      rw (lt→ltb _ _ p, suc-sub k (leading_zeros k w)) (omega arith, lt)
  | no p ↦ rw (le→not_ltb w (2 ^ k) (omega arith), sub-zero (suc k)) (omega arith, h)
]

this_bits-holds : (n x : ℕ) → n < 2 ^ 64 → x < n → x < 2 ^ this_bits n
unfolding this_bits
this_bits-holds n x small h = elim (Bool-cases (n == 1)) [
  | inl one ↦ rw one (let e : n ≡ 1 = ground arith in omega arith)
  | inr more ↦
      let e : sub_word n 1 ≡ n - 1 = omega arith in
      let fit = (below_bits 64 (n - 1) (omega arith)).1 in rw (more, e) (omega arith)
]

shifts_total : (bs : List ℕ) → (shifts bs).1 ≡ total bs
unfolding shifts
shifts_total [] = refl
shifts_total (b ∷ bs) = ap (λ n. n + b) (shifts_total bs)

-- A counter shifted to its place stays below the next one.
shifted_below :
    (t b x : ℕ) → t + b ≤ 64 → x < 2 ^ b → (x * 2 ^ t < 2 ^ (t + b)) × (2 ^ (t + b) ≤ 2 ^ 64)
shifted_below t b x le lt =
    let split = two-pow_add t b in
    let low : x * 2 ^ t < 2 ^ b * 2 ^ t =
      mul-lt-mul_of_pos_right lt (one-le-pow t 2 (omega arith)) in
    (grind arith, pow-le-pow_right (omega arith) le)

pack_one :
    (t b a x : ℕ)
    → t + b ≤ 64
    → x < 2 ^ b
    → bit_or (a * 2 ^ (t + b)) (word (x * 2 ^ t)) ≡ (a * 2 ^ b + x) * 2 ^ t
pack_one t b a x le lt =
    let (low, small) = shifted_below t b x le lt in
    let split = two-pow_add t b in
    rw (word-eq (x * 2 ^ t) (omega arith), bit_or-disjoint (t + b) a (x * 2 ^ t) low, split)
      (grind arith)

pack_onto-key :
    (bs xs : List ℕ) (a : ℕ)
    → total bs ≤ 64
    → Fits bs xs
    → pack_onto (a * 2 ^ total bs) xs (shifts bs).0 ≡ key a bs xs
unfolding pack_onto shifts
pack_onto-key [] [] a le f = omega arith
pack_onto-key [] (x ∷ xs) a le f = absurd f
pack_onto-key (b ∷ bs) [] a le f = absurd f
pack_onto-key (b ∷ bs) (x ∷ xs) a le f =
    rw (shifts_total bs, pack_one (total bs) b a x le f.0)
      (pack_onto-key bs xs (a * 2 ^ b + x) (omega arith) f.1)

-- The word that is computed for an iteration.
pub flatten-key :
    (bs xs : List ℕ) → total bs ≤ 64 → Fits bs xs → flatten xs (shifts bs).0 ≡ key 0 bs xs
unfolding flatten shifts
flatten-key [] [] le f = refl
flatten-key [] (x ∷ xs) le f = absurd f
flatten-key (b ∷ bs) [] le f = absurd f
flatten-key (b ∷ bs) (x ∷ xs) le f =
    let (low, small) = shifted_below (total bs) b x le f.0 in
    let first : 0 * 2 ^ b + x ≡ x = omega arith in
    rw (shifts_total bs, word-eq (x * 2 ^ total bs) (omega arith), first)
      (pack_onto-key bs xs x (omega arith) f.1)

-- Every count is a `long`.
abbrev pub AreLong : List ℕ → Type 0
AreLong = All (λ n. n < 2 ^ 63)

bits_step_cases :
    (num n : ℕ)
    → ((num ≤ 64) × (num + this_bits n ≤ 64) × (bits_step num n ≡ (this_bits n, num + this_bits n)))
      ⊎ (64 < (bits_step num n).1)
unfolding bits_step
bits_step_cases num n = ground arith

count_bits_more :
    (n : ℕ) (ns : List ℕ) (num : ℕ) (r : List ℕ × ℕ)
    → count_bits (n ∷ ns) num ≡ some r
    → (q : List ℕ × ℕ) × (count_bits ns (bits_step num n).1 ≡ some q)
      × (((bits_step num n).0 ∷ q.0, q.1) ≡ r)
unfolding count_bits
count_bits_more n ns num r e =
    let (q, from, e') =
      >>=-some (count_bits ns (bits_step num n).1) _ r (guard-some (n == 0) _ r e).1 in
    (q, from, some-injective _ _ e')

bits_step-over : (num n : ℕ) → 64 < num → (bits_step num n).1 ≡ num
unfolding bits_step
bits_step-over num n h = rw (lt→not_leb num 64 h) refl

-- Once the widths have passed 64, they stay there.
count_bits-over :
    (ns : List ℕ) (num : ℕ) (r : List ℕ × ℕ) → 64 < num → count_bits ns num ≡ some r → 64 < r.1
unfolding count_bits
count_bits-over [] num r h e = let e' = some-injective _ _ e in rw (sym e') h
count_bits-over (n ∷ ns) num r h e =
    let (q, from, e') = count_bits_more n ns num r e in
    rw (sym e') (count_bits-over ns (bits_step num n).1 q (rw (bits_step-over num n h) h) from)

nothing_more : (xs : List ℕ) → InRange [] xs → Fits [] xs
nothing_more [] h = h
nothing_more (x ∷ xs) h = h

-- Where the widths fit into a word, they add up, and each holds its counter.
pub count_bits-Fits :
    (ns : List ℕ) (num : ℕ) (r : List ℕ × ℕ)
    → AreLong ns
    → count_bits ns num ≡ some r
    → r.1 ≤ 64
    → (num + total r.0 ≡ r.1) × ((xs : List ℕ) → InRange ns xs → Fits r.0 xs)
unfolding count_bits
count_bits-Fits [] num r long e le =
    let e' = some-injective _ _ e in rw (sym e') (omega arith, nothing_more)
count_bits-Fits (n ∷ ns) num r long e le =
    let (q, from, e') = count_bits_more n ns num r e in
    let le' : q.1 ≤ 64 = rw (ap (λ p. p.1) e') le in
    let (sum, fits) = count_bits-Fits ns (bits_step num n).1 q long.1 from le' in
    elim (bits_step_cases num n) [
      | inl (_, _, eq) ↦
          let after = ap (λ p. p.1) eq in rw (sym e', eq) (omega arith, holds q.0 fits)
      | inr past ↦ absurd (omega (arith, count_bits-over ns (bits_step num n).1 q past from))
    ]
  where
    holds :
        (bs : List ℕ)
        → ((xs : List ℕ) → InRange ns xs → Fits bs xs)
        → (xs : List ℕ) → InRange (n ∷ ns) xs
        → Fits (this_bits n ∷ bs) xs
    holds bs fits [] h = h
    holds bs fits (x ∷ xs) h = (this_bits-holds n x (omega (arith, long.0)) h.0, fits xs h.1)
