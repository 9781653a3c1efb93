-- ===== src/Taskloop/Sizes.antt =====
-- The number of iterations of each task of a taskloop.
use libgomp_a.Base.{
  ℕ, zero, suc, ◌+◌, ◌*◌, ◌≤◌, ◌<◌, ◌≡◌, ◌⊎◌, inl, inr, refl, ap, arith, List, [], ◌∷◌, ℤ, pos,
  negsuc, ◌+ℤ◌, ◌-ℤ◌, ◌*ℤ◌, length, All, eq→==, ne→not_==,
}
use libgomp_a.Taskloop.{task_ranges}

-- Consecutive ranges from `start` on, of the given numbers of iterations.
pub blocks : ℤ → ℤ → List ℕ → List (ℤ × ℤ)
blocks start step [] = []
blocks start step (k ∷ ks) = let e = start +ℤ pos k *ℤ step in (start, e) ∷ blocks e step ks

-- `left` tasks, the first `more` of which have `d + 1` iterations and the others `d`.
pub sizes : ℕ → ℕ → ℕ → List ℕ
sizes zero more d = []
sizes (suc left) zero d = d ∷ sizes left zero d
sizes (suc left) (suc more) d = suc d ∷ sizes left more d

pub sum : List ℕ → ℕ
sum [] = 0
sum (k ∷ ks) = k + sum ks

pub length-sizes : (left more d : ℕ) → length (sizes left more d) ≡ left
unfolding sizes
length-sizes zero more d = refl
length-sizes (suc left) zero d = ap suc (length-sizes left zero d)
length-sizes (suc left) (suc more) d = ap suc (length-sizes left more d)

pub sum-sizes : (left more d : ℕ) → more ≤ left → sum (sizes left more d) ≡ left * d + more
unfolding sizes sum
sum-sizes zero more d h = omega arith
sum-sizes (suc left) zero d h = grind (arith, sum-sizes left zero d (omega arith))
sum-sizes (suc left) (suc more) d h = grind (arith, sum-sizes left more d (omega arith))

-- Sizes without a remainder are all `d`, and with one they are `d` or `d + 1`.
pub All-sizes :
    (P : ℕ → Type 0) (left more d : ℕ) → P d → ((more ≡ 0) ⊎ P (suc d)) → All P (sizes left more d)
unfolding sizes
All-sizes P zero more d p q = tt
All-sizes P (suc left) zero d p q = (p, All-sizes P left zero d p (inl refl))
All-sizes P (suc left) (suc more) d p (inl e) = absurd (omega arith)
All-sizes P (suc left) (suc more) d p (inr q) = (q, All-sizes P left more d p (inr q))

pub scale_suc : (d : ℕ) (step : ℤ) → pos d *ℤ step +ℤ step ≡ pos (suc d) *ℤ step
unfolding ◌*ℤ◌ ◌+ℤ◌
scale_suc d (pos k) = ground arith
scale_suc d (negsuc k) = ground arith

pub one_times : (step : ℤ) → pos 1 *ℤ step ≡ step
unfolding ◌*ℤ◌
one_times (pos k) = ground arith
one_times (negsuc k) = ground arith

pub scale_pred : (d : ℕ) (step : ℤ) → pos (suc d) *ℤ step -ℤ step ≡ pos d *ℤ step
unfolding ◌*ℤ◌ ◌-ℤ◌
scale_pred d (pos k) = ground arith
scale_pred d (negsuc k) = ground arith

later :
    (left i nfirst : ℕ)
    → (nfirst < i) ⊎ (i + suc left ≤ nfirst)
    → (nfirst < suc i) ⊎ (suc i + left ≤ nfirst)
later left i nfirst (inl h) = inl (omega arith)
later left i nfirst (inr h) = inr (omega arith)

-- The tasks from task `i` on when the step does not change any more.
pub task_ranges-same :
    (left i d nfirst : ℕ) (start step : ℤ)
    → (nfirst < i) ⊎ (i + left ≤ nfirst)
    → task_ranges left i start (pos d *ℤ step) step nfirst ≡ blocks start step (sizes left 0 d)
unfolding task_ranges sizes blocks
task_ranges-same zero i d nfirst start step h = refl
task_ranges-same (suc left) i d nfirst start step h = rw (ne→not_== i nfirst (omega arith)) (
    ap (λ l. (start, start +ℤ pos d *ℤ step) ∷ l)
      (task_ranges-same left (suc i) d nfirst (start +ℤ pos d *ℤ step) step
        (later left i nfirst h)))

-- The tasks from task `i` on when `more` of them still have the larger step.
pub task_ranges-sizes :
    (left more i d nfirst : ℕ) (start step : ℤ)
    → more < left
    → nfirst ≡ i + more
    → task_ranges left i start (pos (suc d) *ℤ step) step nfirst
      ≡ blocks start step (sizes left (suc more) d)
unfolding task_ranges sizes blocks
task_ranges-sizes (suc left) zero i d nfirst start step h e =
    rw (eq→== i nfirst (omega arith), scale_pred d step)
      (ap (λ l. (start, start +ℤ pos (suc d) *ℤ step) ∷ l)
        (task_ranges-same left (suc i) d nfirst (start +ℤ pos (suc d) *ℤ step) step
          (inl (omega arith))))
task_ranges-sizes (suc left) (suc more) i d nfirst start step h e =
    rw (ne→not_== i nfirst (omega arith)) (
      ap (λ l. (start, start +ℤ pos (suc d) *ℤ step) ∷ l)
        (task_ranges-sizes left more (suc i) d nfirst (start +ℤ pos (suc d) *ℤ step) step
          (omega arith) (omega arith)))
task_ranges-sizes zero more i d nfirst start step h e = absurd (omega arith)
