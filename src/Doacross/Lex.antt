-- ===== src/Doacross/Lex.antt =====
-- The order of the iterations of a nest of loops, and the number that a packed iteration is.
use native.Mathlib.Nat.{mul-le-mul_right}
use libgomp_a.Base.{
  ℕ, suc, ◌+◌, ◌*◌, ◌^◌, ◌≤◌, ◌<◌, ◌≡◌, ◌⊎◌, inl, inr, ◌↔◌, ap, arith, List, [], ◌∷◌,
}
use native.Mathlib.Decide.{dec_lt, ℕ_discrete}

-- Iteration `x` is `y` or comes before it: the outer loop's counter is compared first.
abbrev pub LexLe : List ℕ → List ℕ → Type 0
LexLe [] ys = Unit
LexLe (x ∷ xs) [] = Unit
LexLe (x ∷ xs) (y ∷ ys) = (x < y) ⊎ ((x ≡ y) × LexLe xs ys)

-- One counter per loop, each below the loop's count.
abbrev pub InRange : List ℕ → List ℕ → Type 0
InRange [] [] = Unit
InRange [] (_ ∷ _) = ⊥
InRange (_ ∷ _) [] = ⊥
InRange (n ∷ ns) (x ∷ xs) = (x < n) × InRange ns xs

-- One counter per loop, each of so many bits.
abbrev pub Fits : List ℕ → List ℕ → Type 0
Fits [] [] = Unit
Fits [] (_ ∷ _) = ⊥
Fits (_ ∷ _) [] = ⊥
Fits (b ∷ bs) (x ∷ xs) = (x < 2 ^ b) × Fits bs xs

-- The number whose digits, of the widths `bs`, are `a` and then the counters.
abbrev pub key : ℕ → List ℕ → List ℕ → ℕ
key a [] xs = a
key a (b ∷ bs) [] = a
key a (b ∷ bs) (x ∷ xs) = key (a * 2 ^ b + x) bs xs

abbrev pub total : List ℕ → ℕ
total [] = 0
total (b ∷ bs) = total bs + b

-- A digit does not carry into the next.
digit_below : (p a a' x y : ℕ) → a < a' → x < p → a * p + x < a' * p + y
digit_below p a a' x y lt h = let room : suc a * p ≤ a' * p = mul-le-mul_right p lt in omega arith

key_below :
    (bs xs ys : List ℕ) (a a' : ℕ) → a < a' → Fits bs xs → Fits bs ys → key a bs xs < key a' bs ys
key_below [] xs ys a a' lt f g = lt
key_below (b ∷ bs) [] ys a a' lt f g = absurd f
key_below (b ∷ bs) (x ∷ xs) [] a a' lt f g = absurd g
key_below (b ∷ bs) (x ∷ xs) (y ∷ ys) a a' lt f g =
    key_below bs xs ys (a * 2 ^ b + x) (a' * 2 ^ b + y) (digit_below (2 ^ b) a a' x y lt f.0) f.1
      g.1

-- Packed iterations are ordered as the iterations are.
pub key-LexLe :
    (bs xs ys : List ℕ) (a : ℕ)
    → Fits bs xs
    → Fits bs ys
    → (key a bs xs ≤ key a bs ys) ↔ LexLe xs ys
key-LexLe [] [] ys a f g = (λ _. tt, λ _. omega arith)
key-LexLe [] (x ∷ xs) ys a f g = absurd f
key-LexLe (b ∷ bs) [] ys a f g = absurd f
key-LexLe (b ∷ bs) (x ∷ xs) [] a f g = absurd g
key-LexLe (b ∷ bs) (x ∷ xs) (y ∷ ys) a f g =
    let ih = λ (u : ℕ). key-LexLe bs xs ys (a * 2 ^ b + u) f.1 g.1 in
    elim (dec_lt x y) [
      | yes less ↦ (λ _. inl less, λ _. lt→le (below xs ys f.1 g.1 x y less))
      | no not_less ↦ elim (ℕ_discrete x y) [
        | yes same ↦ (
          λ h. inr (same, (ih y).0 (omega (arith, moved same))),
          λ h. elim h [
            | inl less ↦ lt→le (below xs ys f.1 g.1 x y less)
            | inr (_, rest) ↦ omega (arith, moved same, (ih y).1 rest)
          ],
        )
        | no differ ↦ (
          λ h. absurd (omega (arith, below ys xs g.1 f.1 y x (omega arith))),
          λ h. absurd (ground arith),
        )
      ]
    ]
  where
    below :
        (us vs : List ℕ)
        → Fits bs us
        → Fits bs vs
        → (u v : ℕ) → u < v
        → key (a * 2 ^ b + u) bs us < key (a * 2 ^ b + v) bs vs
    below us vs f' g' u v lt = key_below bs us vs _ _ (omega arith) f' g'

    moved : x ≡ y → key (a * 2 ^ b + x) bs xs ≡ key (a * 2 ^ b + y) bs xs
    moved e = ap (λ u. key (a * 2 ^ b + u) bs xs) e

    lt→le : {m n : ℕ} → m < n → m ≤ n
    lt→le h = omega arith
