-- ===== src/Single/Winner.antt =====
-- The threads of a team at their SINGLE constructs, in any order.
use libgomp_a.Base.{
  ℕ, zero, suc, ◌+◌, ◌≤◌, ◌<◌, ◌≡◌, refl, ap, ◌∙◌, arith, none, some, List, [], ◌∷◌, map, ulong_max,
  word, if◌then◌else◌, ◌==◌, eq→==, ne→not_==, ℕ_discrete,
}
use libgomp_a.Arinc.{arinc_compare_and_swap}
use libgomp_a.Single.{single_start}

-- `single_count` of the team and of its threads, and the constructs that a thread was told to
-- execute, each with that thread, the last one first.
pub record Team : Type 0 where
  pub count : ℕ
  pub counts : ℕ → ℕ
  pub executed : List (ℕ × ℕ)

-- A call of `GOMP_single_start` by thread `i`, at its construct number `t.counts i`; a thread meets
-- fewer than 2 ^ 64 of them in a region.
abbrev pub call : ℕ → Team → Team
call i t =
    let r = single_start (some t.count) (t.counts i) in
    record {
      count = elim r.team_count [ none ↦ t.count | some c ↦ c ];
      counts = λ j. if j == i then r.thread_count else t.counts j;
      executed = if r.answer then (t.counts i, i) ∷ t.executed else t.executed;
    }

pub data Reach : Team → Type 0 where
  start : Reach (record { count = 0; counts = λ _. 0; executed = [] })
  later : {t : Team} (i : ℕ) → Reach t → t.counts i < ulong_max → Reach (call i t)

-- The numbers below `n`, the greatest first.
pub countdown : ℕ → List ℕ
countdown zero = []
countdown (suc n) = n ∷ countdown n

abbrev IsFair : Team → Type 0
IsFair t = ((i : ℕ) → t.counts i ≤ t.count) × (map (λ p. p.0) t.executed ≡ countdown t.count)

call-IsFair : (i : ℕ) (t : Team) → t.counts i < ulong_max → IsFair t → IsFair (call i t)
unfolding single_start arinc_compare_and_swap countdown
call-IsFair i t small (below, done) = elim (ℕ_discrete t.count (t.counts i)) [
  | yes e ↦ rw (eq→== t.count (t.counts i) e) (
    λ j. ground (arith, below j),
    ap (λ l. t.counts i ∷ l) (done ∙ ap countdown e)
        ∙ ap countdown {x = suc (t.counts i)} {y = word (t.counts i + 1)} (omega arith),
  )
  | no ne ↦ rw (ne→not_== t.count (t.counts i) ne) (λ j. ground (arith, below j, below i), done)
]

-- Each SINGLE construct of a region is executed by one thread: when each thread has met fewer than
-- 2 ^ 64 - 1 of them before a call, the constructs that some thread was told to execute are at any
-- time the first ones, each one once, and no thread has passed more.
pub single_start-one :
    {t : Team}
    → Reach t
    → ((i : ℕ) → t.counts i ≤ t.count) × (map (λ p. p.0) t.executed ≡ countdown t.count)
unfolding countdown
single_start-one start = (λ i. omega arith, refl)
single_start-one (later {t} i r small) = call-IsFair i t small (single_start-one r)
