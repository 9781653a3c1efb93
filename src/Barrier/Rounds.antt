-- ===== src/Barrier/Rounds.antt =====
-- The invariant of the barrier: the threads of a team are in one round, some of them still leaving
-- the round before.
use libgomp_a.Base.{
  put, ℕ, suc, ◌+◌, ◌*◌, ◌/◌, ◌<◌, ◌≡◌, ◌≢◌, ◌⊎◌, inl, inr, refl, sym, ap, ◌∙◌, arith, Bool, true,
  false, u32, eq→==, ne→not_==,
}
use native.Mathlib.Decide.{ℕ_discrete}
use mathlib.Core.Path.{subst}
use libgomp_a.Barrier.{Pc, outside, loaded, last, reset, waiting, Team}
use libgomp_a.Barrier.Count.{count_true}

-- `generation` in round `k`
abbrev pub generation_of : ℕ → ℕ
generation_of k = u32 (8 * k)

pub generation-load : (k : ℕ) → generation_of k / 4 * 4 ≡ generation_of k
generation-load k = omega arith

pub generation-next : (k : ℕ) → u32 (generation_of k + 8) ≡ generation_of (suc k)
generation-next k = omega arith

pub generation-ne : (k : ℕ) → generation_of (suc k) ≢ generation_of k
generation-ne k e = omega arith

-- A thread that has arrived in round `k`.
abbrev pub Arrived : ℕ → ℕ → Pc → Type 0
Arrived k r pc = (r ≡ k) × (pc ≡ waiting (generation_of k))

-- One that has not: it is outside or on its way in, or has yet to see that the last round is over.
pub data Pending (k r : ℕ) (pc : Pc) : Type 0 where
  is_outside : r ≡ k → pc ≡ outside → Pending k r pc
  is_loaded : r ≡ k → pc ≡ loaded (generation_of k) → Pending k r pc
  is_leaving : suc r ≡ k → pc ≡ waiting (generation_of r) → Pending k r pc

abbrev pub Status : ℕ → ℕ → Pc → Bool → Type 0
Status k r pc true = Arrived k r pc
Status k r pc false = Pending k r pc

-- Round `k` fills up, or its last thread, `l`, opens the barrier.
pub data Inv (n : ℕ) (s : Team) : Type 0 where
  filling :
      (k : ℕ) (arrived : ℕ → Bool)
      → s.bar.total ≡ n
      → s.bar.generation ≡ generation_of k
      → count_true arrived n + s.bar.awaited ≡ n
      → 0 < s.bar.awaited
      → ((i : ℕ) → i < n → Status k (s.rounds i) (s.pc i) (arrived i))
      → Inv n s
  closing :
      (k l state : ℕ)
      → l < n
      → s.bar.total ≡ n
      → s.bar.generation ≡ generation_of k
      → s.rounds l ≡ k
      → ((s.pc l ≡ last state) ⊎ ((s.pc l ≡ reset state) × (s.bar.awaited ≡ n)))
      → ((i : ℕ) → i < n → i ≢ l → Arrived k (s.rounds i) (s.pc i))
      → Inv n s

-- What a thread's place says about its status while the round fills up.
pub Status-outside :
    (k r : ℕ) (pc : Pc) (b : Bool) → Status k r pc b → pc ≡ outside → (b ≡ false) × (r ≡ k)
Status-outside k r pc true (e, w) q = cc
Status-outside k r pc false (is_outside e w) q = (refl, e)
Status-outside k r pc false (is_loaded e w) q = cc
Status-outside k r pc false (is_leaving e w) q = cc

pub Status-loaded :
    (k r state : ℕ) (pc : Pc) (b : Bool)
    → Status k r pc b
    → pc ≡ loaded state
    → (b ≡ false) × (r ≡ k) × (state ≡ generation_of k)
Status-loaded k r state pc true (e, w) q = cc
Status-loaded k r state pc false (is_outside e w) q = cc
Status-loaded k r state pc false (is_loaded e w) q = (refl, e, cc)
Status-loaded k r state pc false (is_leaving e w) q = cc

pub Status-last :
    (k r : ℕ) (pc : Pc) (b : Bool) (state : ℕ)
    → Status k r pc b
    → (pc ≢ last state) × (pc ≢ reset state)
Status-last k r pc true state (e, w) = (λ q. cc, λ q. cc)
Status-last k r pc false state (is_outside e w) = (λ q. cc, λ q. cc)
Status-last k r pc false state (is_loaded e w) = (λ q. cc, λ q. cc)
Status-last k r pc false state (is_leaving e w) = (λ q. cc, λ q. cc)

pub Status-leaving :
    (k r state : ℕ) (pc : Pc) (b : Bool)
    → Status k r pc b
    → pc ≡ waiting state
    → generation_of k ≢ state
    → (b ≡ false) × (suc r ≡ k)
Status-leaving k r state pc true (e, w) q ne = absurd (ne cc)
Status-leaving k r state pc false (is_outside e w) q ne = cc
Status-leaving k r state pc false (is_loaded e w) q ne = cc
Status-leaving k r state pc false (is_leaving e w) q ne = (refl, e)

-- A new status of thread `i`; the others keep theirs.
pub Status-put :
    (k n : ℕ) (before after : ℕ → Bool) (rounds : ℕ → ℕ) (pc : ℕ → Pc) (i r : ℕ) (p : Pc)
    → Status k r p (after i)
    → ((j : ℕ) → i ≢ j → after j ≡ before j)
    → ((j : ℕ) → j < n → Status k (rounds j) (pc j) (before j))
    → (j : ℕ) → j < n
    → Status k (put rounds i r j) (put pc i p j) (after j)
Status-put k n before after rounds pc i r p new same old j lt = elim (ℕ_discrete i j) [
  | yes e ↦ rw (eq→== i j e) (subst (λ m. Status k r p (after m)) e new)
  | no other ↦ rw (ne→not_== i j other, same j other) (old j lt)
]

pub put_idle : (rounds : ℕ → ℕ) (i j : ℕ) → put rounds i (rounds i) j ≡ rounds j
put_idle rounds i j = elim (ℕ_discrete i j) [
  | yes e ↦ rw (eq→== i j e) (ap rounds e)
  | no other ↦ rw (ne→not_== i j other) refl
]

-- The same where the thread has not left a barrier.
pub Status-move :
    (k n : ℕ) (before after : ℕ → Bool) (rounds : ℕ → ℕ) (pc : ℕ → Pc) (i : ℕ) (p : Pc)
    → Status k (rounds i) p (after i)
    → ((j : ℕ) → i ≢ j → after j ≡ before j)
    → ((j : ℕ) → j < n → Status k (rounds j) (pc j) (before j))
    → (j : ℕ) → j < n
    → Status k (rounds j) (put pc i p j) (after j)
Status-move k n before after rounds pc i p new same old j lt =
    subst (λ r. Status k r (put pc i p j) (after j)) (put_idle rounds i j)
      (Status-put k n before after rounds pc i (rounds i) p new same old j lt)

-- In a closing round every thread but `l` waits, and `l` does not.
module _ (n k l st : ℕ) (s : Team)
    (at_l : (s.pc l ≡ last st) ⊎ ((s.pc l ≡ reset st) × (s.bar.awaited ≡ n)))
    (others : (i : ℕ) → i < n → i ≢ l → Arrived k (s.rounds i) (s.pc i)) where
  pub closing-outside : (i : ℕ) → i < n → s.pc i ≢ outside
  closing-outside i lt at = elim (ℕ_discrete i l) [
    | yes e ↦ let at' = ap s.pc (sym e) ∙ at in elim at_l [ inl q ↦ cc | inr (q, _) ↦ cc ]
    | no ne ↦ let w = (others i lt ne).1 in cc
  ]

  pub closing-loaded : (i state : ℕ) → i < n → s.pc i ≢ loaded state
  closing-loaded i state lt at = elim (ℕ_discrete i l) [
    | yes e ↦ let at' = ap s.pc (sym e) ∙ at in elim at_l [ inl q ↦ cc | inr (q, _) ↦ cc ]
    | no ne ↦ let w = (others i lt ne).1 in cc
  ]

  pub closing-last : (i state : ℕ) → i < n → s.pc i ≡ last state → i ≡ l
  closing-last i state lt at = elim (ℕ_discrete i l) [
    | yes e ↦ e
    | no ne ↦ let w = (others i lt ne).1 in cc
  ]

  pub closing-reset : (i state : ℕ) → i < n → s.pc i ≡ reset state → (i ≡ l) × (s.bar.awaited ≡ n)
  closing-reset i state lt at = elim (ℕ_discrete i l) [
    | yes e ↦ let at' = ap s.pc (sym e) ∙ at in elim at_l [ inl q ↦ cc | inr (_, full) ↦ (e, full) ]
    | no ne ↦ let w = (others i lt ne).1 in cc
  ]

  pub closing-waiting : (i state : ℕ) → i < n → s.pc i ≡ waiting state → state ≡ generation_of k
  closing-waiting i state lt at = elim (ℕ_discrete i l) [
    | yes e ↦ let at' = ap s.pc (sym e) ∙ at in elim at_l [ inl q ↦ cc | inr (q, _) ↦ cc ]
    | no ne ↦ let w = (others i lt ne).1 in cc
  ]
