-- ===== src/Pool.antt =====
-- The cache of work shares of a team: `alloc_work_share` and `free_work_share` of work.c, with
-- HAVE_SYNC_BUILTINS, on a store of blocks. A block is a number, NULL is `none`, and a field
-- `next_free` of a block is the store's entry. What gomp_malloc returns is an argument.
pub mod Chains
pub mod Link
pub mod Moves
pub mod Shares
use libgomp_a.Base.{
  ℕ, ◌+◌, ◌-◌, ◌*◌, ◌<◌, ◌≤◌, ◌≡◌, ◌≢◌, Option, none, some, List, [], ◌∷◌, ◌++◌, ltb, leb, ◌==◌,
  Bool, ◌&&◌, if◌then◌else◌, put, All, ◌⊎◌,
}

-- The fields of `struct gomp_team`, and the blocks' `next_free`.
pub record Pool : Type 0 where
  pub next_free : ℕ → Option ℕ
  pub list_alloc : Option ℕ
  pub list_free : Option ℕ
  pub chunk : ℕ

-- The blocks `ws[1]` to `ws[count - 1]` linked one after the other, `ws` being block `base`.
unfoldable pub link_chunk : ℕ → ℕ → (ℕ → Option ℕ) → ℕ → Option ℕ
link_chunk base count next_free i =
    if leb (base + 1) i && ltb i (base + count - 1)
    then some (i + 1)
    else if i == base + count - 1
    then none
    else next_free i

-- `gomp_malloc` returns block `base`. `work_share_chunk`, an `unsigned`, doubles without wrap here.
unfoldable pub new_chunk : ℕ → Pool → ℕ × Pool
unfolding link_chunk
new_chunk base p =
    let count = p.chunk * 2 in
    (
      base,
      record p {
        next_free = link_chunk base count p.next_free;
        list_alloc = some (base + 1);
        chunk = count;
      },
    )

-- The free list is taken but for its first block, which a thread that frees may be reading.
unfoldable pub take_free : ℕ → Pool → ℕ × Pool
unfolding new_chunk
take_free base p = elim p.list_free [
  | none ↦ new_chunk base p
  | some ws ↦ elim (p.next_free ws) [
    | none ↦ new_chunk base p
    | some next ↦
        let cut = put p.next_free ws none in
        (next, record p { next_free = cut; list_alloc = cut next })
  ]
]

-- `alloc_work_share`
unfoldable pub alloc_work_share : ℕ → Pool → ℕ × Pool
unfolding take_free
alloc_work_share base p = elim p.list_alloc [
  | some ws ↦ (ws, record p { list_alloc = p.next_free ws })
  | none ↦ take_free base p
]

-- `free_work_share` with a team: the turn of the loop whose compare and swap succeeds. The others
-- only write `next_free` of the block that is freed.
unfoldable pub free_work_share : ℕ → Pool → Pool
free_work_share ws p = record p { next_free = put p.next_free ws p.list_free; list_free = some ws }

-- What `gomp_new_team` sets up, its array `work_shares` being the blocks 0 to 7; block 0 is in use.
unfoldable pub first_pool : (ℕ → Option ℕ) → Pool
unfolding link_chunk
first_pool next_free = record {
  next_free = link_chunk 0 8 next_free;
  list_alloc = some 1;
  list_free = none;
  chunk = 8;
}
