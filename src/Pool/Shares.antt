-- ===== src/Pool/Shares.antt =====
-- The threads of a team take and give back work shares.
use libgomp_a.Base.{
  ℕ, ◌+◌, ◌*◌, ◌<◌, ◌≤◌, ◌≡◌, ◌⊎◌, refl, arith, Option, List, [], ◌∷◌, ◌++◌, Distinct,
  Distinct-insert, All-insert, Fresh,
}
use mathlib.Core.Path.{subst}
use libgomp_a.Pool.{Pool, alloc_work_share, free_work_share, first_pool}
use libgomp_a.Pool.Link.{link_chunk-Chain}
use libgomp_a.Pool.Chains.{Distinct-range, Outside, range}
use libgomp_a.Pool.Moves.{IsShared, made_by, alloc_work_share-IsTaken, free_work_share-IsShared}

-- The pool, the blocks in use, and those that the team has got from gomp_malloc.
pub record Cache : Type 0 where
  pub pool : Pool
  pub used : List ℕ
  pub made : List ℕ

-- What gomp_malloc would return for the next chunk is memory that the team does not have yet.
pub data Step (s : Cache) : Cache → Type 0 where
  take :
      (base : ℕ)
      → Outside base (s.pool.chunk * 2) s.made
      → Step s (
          let (ws, pool') = alloc_work_share base s.pool in
          record { pool = pool'; used = ws ∷ s.used; made = made_by base s.pool pool' s.made })
  give_back :
      (ws : ℕ) (before after : List ℕ)
      → s.used ≡ before ++ ws ∷ after
      → Step s (record s { pool = free_work_share ws s.pool; used = before ++ after })

pub data Reach (next_free : ℕ → Option ℕ) : Cache → Type 0 where
  here : Reach next_free (record { pool = first_pool next_free; used = 0 ∷ []; made = range 0 8 })
  later : {s t : Cache} → Reach next_free s → Step s t → Reach next_free t

pub Reach-IsShared :
    (next_free : ℕ → Option ℕ) (s : Cache) → Reach next_free s → IsShared s.pool s.used s.made
unfolding first_pool
Reach-IsShared next_free _ here = record {
  ready = range 1 7;
  freed = [];
  is_ready = link_chunk-Chain 0 8 next_free 1 6 (omega arith) (omega arith);
  is_freed = refl;
  distinct =
      Distinct-insert 0 (range 1 7) []
        (Distinct-range 0 8 0 8 [] (omega arith) (omega arith) tt tt);
  within = λ b n o. All-insert (λ c. (c < b) ⊎ (b + n ≤ c)) 0 (range 1 7) [] o.0 o.1;
  has_chunk = omega arith;
}
Reach-IsShared next_free _ (later {s} reach (take base away)) =
    (alloc_work_share-IsTaken base s.pool s.used s.made (Reach-IsShared next_free s reach) away).1
Reach-IsShared next_free _ (later {s} reach (give_back ws before after e)) =
    free_work_share-IsShared s.pool before after s.made ws
      (subst (λ u. IsShared s.pool u s.made) e (Reach-IsShared next_free s reach))

-- Work shares that are taken and given back in any order, with a gomp_malloc that never returns
-- blocks that the team already has: the blocks in use are all different, and the next call of
-- `alloc_work_share` returns one that is not among them.
pub alloc_work_share-Fresh :
    (next_free : ℕ → Option ℕ) (s : Cache) (base : ℕ)
    → Reach next_free s
    → Outside base (s.pool.chunk * 2) s.made
    → Distinct s.used × Fresh (alloc_work_share base s.pool).0 s.used
alloc_work_share-Fresh next_free s base reach away =
    let shared = Reach-IsShared next_free s reach in
    (
      Distinct-right shared.freed s.used
          (Distinct-right shared.ready (shared.freed ++ s.used) shared.distinct),
      (alloc_work_share-IsTaken base s.pool s.used s.made shared away).0,
    )
  where
    Distinct-right : (xs ys : List ℕ) → Distinct (xs ++ ys) → Distinct ys
    Distinct-right [] ys d = d
    Distinct-right (x ∷ xs) ys (f, d) = Distinct-right xs ys d
