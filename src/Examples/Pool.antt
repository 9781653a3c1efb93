-- ===== src/Examples/Pool.antt =====
-- A team takes a work share, gives it back, and takes the next.
use libgomp_a.Base.{
  ℕ, ◌+◌, ◌≤◌, ◌≡◌, refl, arith, Option, none, [], ◌∷◌, inl, zero, suc, Distinct, Fresh,
}
use libgomp_a.Pool.{alloc_work_share, free_work_share, first_pool, link_chunk}
use libgomp_a.Pool.Chains.{Outside, range}
use libgomp_a.Pool.Shares.{Cache, Reach, here, later, take, give_back, alloc_work_share-Fresh}

abbrev no_links : ℕ → Option ℕ
no_links _ = none

below-Outside : (b count c k : ℕ) → c + k ≤ b → Outside b count (range c k)
below-Outside b count c zero le = tt
below-Outside b count c (suc k) le =
    (inl (omega arith), below-Outside b count (suc c) k (omega arith))

-- Sixteen blocks at 100 are none of the team's first eight.
pub chunk-Outside : Outside 100 16 (range 0 8)
chunk-Outside = below-Outside 100 16 0 8 (omega arith)

abbrev taken_twice : (s : Cache) × Reach no_links s
unfolding first_pool alloc_work_share link_chunk free_work_share
taken_twice = (
  _,
  later (later (later here (take 100 chunk-Outside)) (give_back 1 [] (0 ∷ []) refl))
      (take 100 chunk-Outside),
)

two_in_use : taken_twice.0.used ≡ 2 ∷ 0 ∷ []
unfolding taken_twice
two_in_use = refl

alloc_work_share-Fresh_example :
    Distinct taken_twice.0.used
    × Fresh (alloc_work_share 100 taken_twice.0.pool).0 taken_twice.0.used
unfolding taken_twice
alloc_work_share-Fresh_example =
    alloc_work_share-Fresh no_links taken_twice.0 100 taken_twice.1 chunk-Outside
