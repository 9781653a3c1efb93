-- ===== src/Parallel/Group.antt =====
-- The parallel regions of one contention group whose thread limit is set, as threads of the group
-- start and end them in any order, and the counter `threads_busy` of its pool.
use libgomp_a.Base.{
  ℕ, ◌+◌, ◌-◌, ◌≤◌, ◌<◌, ◌≡◌, ◌≢◌, refl, sym, ap, ◌∙◌, arith, true, false, Option, none, some, List,
  [], ◌∷◌, ◌++◌, uint_max,
}
use libgomp_a.Parallel.{reserve, first_region, Arinc, arinc_clamp, parallel_end}
use libgomp_a.Parallel.Bounds.{reserve-bounds}

-- The group: the size of the team of the outermost region, if one is running, the sizes of the
-- teams of the nested regions that are running, the counter, and the globals of `GOMP_parallel`.
pub record Group : Type 0 where
  pub outer : Option ℕ
  pub inner : List ℕ
  pub busy : ℕ
  pub arinc : Arinc

-- The threads of the group beside its initial thread.
pub extra : List ℕ → ℕ
extra [] = 0
extra (n ∷ ns) = n - 1 + extra ns

abbrev pub outer_extra : Option ℕ → ℕ
outer_extra none = 0
outer_extra (some n) = n - 1

-- One call of `GOMP_parallel` or `GOMP_parallel_end`. `most` is what `max_num_threads` gives for
-- the region, `seen` any value of `threads_busy` that the compare-and-swap loop read; its turns
-- that fail change nothing.
pub data Step (limit : ℕ) (g : Group) : Group → Type 0 where
  open_serial :
      g.outer ≡ none
      → Step limit g (let (n, a) = arinc_clamp g.arinc 1 in record g { outer = some n; arinc = a })
  open_outer :
      (most : ℕ)
      → 1 ≤ most
      → g.outer ≡ none
      → Step limit g (
          let m = first_region limit most in
          let (n, a) = arinc_clamp g.arinc m in record g { outer = some n; busy = m; arinc = a })
  open_inner_serial :
      {size : ℕ}
      → g.outer ≡ some size
      → Step limit g
          (let (n, a) = arinc_clamp g.arinc 1 in record g { inner = n ∷ g.inner; arinc = a })
  open_inner :
      (most seen : ℕ) {size m after : ℕ}
      → 1 ≤ most
      → most ≤ uint_max
      → g.outer ≡ some size
      → reserve limit most seen g.busy ≡ some (m, after)
      → Step limit g (
          let (n, a) = arinc_clamp g.arinc m in
          record g { inner = n ∷ g.inner; busy = after; arinc = a })
  end_inner :
      (before after : List ℕ) (n : ℕ)
      → g.inner ≡ before ++ n ∷ after
      → Step limit g (record g { inner = before ++ after; busy = parallel_end limit true n g.busy })
  end_outer :
      (n : ℕ)
      → g.outer ≡ some n
      → g.inner ≡ []
      → Step limit g (record g { outer = none; busy = parallel_end limit false n g.busy })

-- A program starts with one thread, and `FIRST` set.
abbrev pub initial : Group
initial = record {
  outer = none;
  inner = [];
  busy = 1;
  arinc = record { first = true; max_threads = 0 };
}

pub data Reach (limit : ℕ) : Group → Type 0 where
  start : Reach limit initial
  later : {g g' : Group} → Reach limit g → Step limit g g' → Reach limit g'

-- The counter covers the threads that run, and is in the limit.
abbrev pub IsCounted : ℕ → Group → Type 0
IsCounted limit g =
    (1 + outer_extra g.outer + extra g.inner ≤ g.busy)
    × (g.busy ≤ limit)
    × ((g.outer ≡ none) → g.inner ≡ [])

extra-append : (xs ys : List ℕ) → extra (xs ++ ys) ≡ extra xs + extra ys
unfolding extra
extra-append [] ys = omega arith
extra-append (x ∷ xs) ys = omega (arith, extra-append xs ys)

append_ne : (xs : List ℕ) (n : ℕ) (ys : List ℕ) → xs ++ n ∷ ys ≢ []
append_ne [] n ys e = cc
append_ne (x ∷ xs) n ys e = cc

clamp_le : (a : Arinc) (m : ℕ) → (arinc_clamp a m).0 ≤ m
unfolding arinc_clamp
clamp_le a m = ground arith

first_region_le :
    (limit most : ℕ)
    → 1 ≤ limit
    → 1 ≤ most
    → (1 ≤ first_region limit most) × (first_region limit most ≤ limit)
unfolding first_region
first_region_le limit most h1 h2 = ground arith

end_inner-busy :
    (limit n busy others : ℕ)
    → limit < uint_max
    → 1 + (n - 1) + others ≤ busy
    → busy ≤ limit
    → (1 + others ≤ parallel_end limit true n busy) × (parallel_end limit true n busy ≤ limit)
unfolding parallel_end
end_inner-busy limit n busy others h1 h2 h3 = ground arith

end_outer-busy :
    (limit n busy : ℕ)
    → 1 ≤ limit
    → limit < uint_max
    → 1 ≤ busy
    → busy ≤ limit
    → (1 ≤ parallel_end limit false n busy) × (parallel_end limit false n busy ≤ limit)
unfolding parallel_end
end_outer-busy limit n busy h1 h2 h3 h4 = ground arith

module _ (limit : ℕ) (some_limit : 1 ≤ limit) (set_limit : limit < uint_max) where
  Step-IsCounted : {g g' : Group} → Step limit g g' → IsCounted limit g → IsCounted limit g'
  unfolding extra
  Step-IsCounted {g} (open_serial e) (c, l, nest) =
      let small = clamp_le g.arinc 1 in
      let none_inner = nest e in (omega (arith, ap extra none_inner), l, λ q. none_inner)
  Step-IsCounted {g} (open_outer most h e) (c, l, nest) =
      let small = clamp_le g.arinc (first_region limit most) in
      let region = first_region_le limit most some_limit h in
      let none_inner = nest e in (omega (arith, ap extra none_inner), region.1, λ q. none_inner)
  Step-IsCounted {g} (open_inner_serial e) (c, l, nest) =
      let small = clamp_le g.arinc 1 in (omega arith, l, λ q. cc)
  Step-IsCounted {g} (open_inner most seen {m = m} h hu e r) (c, l, nest) =
      let small = clamp_le g.arinc m in
      let (m1, m2, m3, m4) =
        reserve-bounds limit most seen g.busy (omega arith) h (omega arith) l hu r in
      (omega arith, m4, λ q. cc)
  Step-IsCounted {g} (end_inner before after n e) (c, l, nest) =
      let total = ap extra e in
      let parts = extra-append before (n ∷ after) in
      let rest = extra-append before after in
      let (x, y) =
        end_inner-busy limit n g.busy (outer_extra g.outer + extra (before ++ after)) set_limit
          (omega arith) l in
      (omega arith, y, λ q. absurd (append_ne before n after (sym e ∙ nest q)))
  Step-IsCounted {g} (end_outer n e e2) (c, l, nest) =
      let (x, y) = end_outer-busy limit n g.busy some_limit set_limit (omega arith) l in
      (omega (arith, ap extra e2), y, λ q. e2)

  Reach-IsCounted : {g : Group} → Reach limit g → IsCounted limit g
  unfolding extra
  Reach-IsCounted start = (omega arith, some_limit, λ q. refl)
  Reach-IsCounted (later r s) = Step-IsCounted s (Reach-IsCounted r)

  -- With a thread limit set, however the threads of a contention group start and end regions with
  -- `GOMP_parallel` and `GOMP_parallel_end`, the teams that run have in all no more threads than
  -- the limit, and the counter `threads_busy` lies between the two.
  pub parallel-within_limit :
      {g : Group}
      → Reach limit g
      → (1 + outer_extra g.outer + extra g.inner ≤ g.busy) × (g.busy ≤ limit)
  parallel-within_limit r = let c = Reach-IsCounted r in (c.0, c.1)
