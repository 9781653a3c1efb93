-- ===== src/Barrier/Count.antt =====
-- How many of the threads below `n` satisfy a test.
use libgomp_a.Base.{
  put, put_other, ℕ, zero, suc, ◌+◌, ◌≤◌, ◌<◌, ◌≡◌, refl, sym, ap, ◌∙◌, arith, Bool, true, false,
  if◌then◌else◌, Bool-cases, inl, inr, eq→==,
}
use native.Mathlib.Decide.{ℕ_discrete}

abbrev pub count_true : (ℕ → Bool) → ℕ → ℕ
count_true f zero = 0
count_true f (suc n) = (if f n then 1 else 0) + count_true f n

pub count_true_le : (f : ℕ → Bool) (n : ℕ) → count_true f n ≤ n
count_true_le f zero = omega arith
count_true_le f (suc n) = elim (Bool-cases (f n)) [
  | inl e ↦ rw e (omega (arith, count_true_le f n))
  | inr e ↦ rw e (omega (arith, count_true_le f n))
]

count_true_beyond :
    (f : ℕ → Bool) (i n : ℕ) (v : Bool) → n ≤ i → count_true (put f i v) n ≡ count_true f n
count_true_beyond f i zero v h = refl
count_true_beyond f i (suc n) v h =
    rw (put_other f i n v (λ e. absurd (omega arith)), count_true_beyond f i n v (omega arith)) refl

pub count_true-put :
    (f : ℕ → Bool) (i n : ℕ)
    → i < n
    → f i ≡ false
    → count_true (put f i true) n ≡ suc (count_true f n)
count_true-put f i zero h e = absurd (omega arith)
count_true-put f i (suc n) h e = elim (ℕ_discrete i n) [
  | yes same ↦
      let not_n : f n ≡ false = ap f (sym same) ∙ e in
      let here : put f i true n ≡ true = rw (eq→== i n same) refl in
      rw (here, count_true_beyond f i n true (omega arith), not_n) (omega arith)
  | no other ↦ rw (put_other f i n true other, count_true-put f i n (omega arith) e) (omega arith)
]

all_head : (b : Bool) (c n : ℕ) → (if b then 1 else 0) + c ≡ suc n → c ≤ n → (b ≡ true) × (c ≡ n)
all_head true c n e h = (refl, omega arith)
all_head false c n e h = absurd (omega arith)

-- If all are counted, each is.
pub count_true_all : (f : ℕ → Bool) (n : ℕ) → count_true f n ≡ n → (j : ℕ) → j < n → f j ≡ true
count_true_all f zero e j h = absurd (omega arith)
count_true_all f (suc n) e j h =
    let (last, rest) = all_head (f n) (count_true f n) n e (count_true_le f n) in
    elim (ℕ_discrete j n) [
      | yes same ↦ ap f same ∙ last
      | no other ↦ count_true_all f n rest j (omega arith)
    ]

pub count_true_none : (n : ℕ) → count_true (λ _. false) n ≡ 0
count_true_none zero = refl
count_true_none (suc n) = omega (arith, count_true_none n)

tail_missing : (b : Bool) (c n : ℕ) → b ≡ true → (if b then 1 else 0) + c < suc n → c < n
tail_missing true c n e h = omega arith
tail_missing false c n e h = cc

-- If not all are counted, one is not.
pub count_true_missing :
    (f : ℕ → Bool) (n : ℕ) → count_true f n < n → (i : ℕ) × (i < n) × (f i ≡ false)
count_true_missing f zero h = absurd (omega arith)
count_true_missing f (suc n) h = elim (Bool-cases (f n)) [
  | inl e ↦
      let (i, lt, is) = count_true_missing f n (tail_missing (f n) (count_true f n) n e h) in
      (i, omega arith, is)
  | inr e ↦ (n, omega arith, e)
]
