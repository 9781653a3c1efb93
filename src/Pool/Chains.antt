-- ===== src/Pool/Chains.antt =====
-- Lists of distinct blocks, and the chains that they are in the store.
use libgomp_a.Base.{
  ℕ, zero, suc, ◌+◌, ◌<◌, ◌≤◌, ◌≡◌, ◌≢◌, arith, Option, none, some, List, ◌⊎◌, [], ◌∷◌, ◌++◌, All,
  ne→not_==, put, Distinct, All-append, Fresh,
}

-- From `head` the blocks `bs`, in order, and then NULL.
abbrev pub Chain : (ℕ → Option ℕ) → Option ℕ → List ℕ → Type 0
Chain next head [] = head ≡ none
Chain next head (b ∷ bs) = (head ≡ some b) × Chain next (next b) bs

-- A write to a block outside a chain leaves the chain alone.
pub Chain-put :
    (next : ℕ → Option ℕ) (head : Option ℕ) (bs : List ℕ) (w : ℕ) (v : Option ℕ)
    → Fresh w bs
    → Chain next head bs
    → Chain (put next w v) head bs
Chain-put next head [] w v f c = c
Chain-put next head (b ∷ bs) w v (ne, f) (e, c) =
    (e, rw (ne→not_== w b ne) (Chain-put next (next b) bs w v f c))

-- `count` blocks from `b` on.
abbrev pub range : ℕ → ℕ → List ℕ
range b zero = []
range b (suc count) = b ∷ range (suc b) count

range-Fresh : (b c count : ℕ) → b < c → Fresh b (range c count)
range-Fresh b c zero h = tt
range-Fresh b c (suc count) h =
    (λ e. absurd (omega arith), range-Fresh b (suc c) count (omega arith))

-- Every block of a list is outside the `count` blocks from `b` on.
abbrev pub Outside : ℕ → ℕ → List ℕ → Type 0
Outside b count = All (λ c. (c < b) ⊎ (b + count ≤ c))

pub Outside-Fresh :
    (b count x : ℕ) (xs : List ℕ) → b ≤ x → x < b + count → Outside b count xs → Fresh x xs
Outside-Fresh b count x [] lo hi o = tt
Outside-Fresh b count x (y ∷ ys) lo hi (h, o) =
    (λ e. absurd (ground arith), Outside-Fresh b count x ys lo hi o)

-- New blocks beside a list that they are not in.
pub Distinct-range :
    (b count c k : ℕ) (xs : List ℕ)
    → b ≤ c
    → c + k ≤ b + count
    → Outside b count xs
    → Distinct xs
    → Distinct (range c k ++ xs)
Distinct-range b count c zero xs lo hi o d = d
Distinct-range b count c (suc k) xs lo hi o d = (
  All-append (λ d. c ≢ d) (range (suc c) k) xs (range-Fresh c (suc c) k (omega arith))
      (Outside-Fresh b count c xs lo (omega arith) o),
  Distinct-range b count (suc c) k xs (omega arith) (omega arith) o d,
)
