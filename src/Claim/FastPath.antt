-- ===== src/Claim/FastPath.antt =====
-- The fast path of `gomp_iter_dynamic_next`: when the addition to `ws->next` does not wrap.
use libgomp_a.Base.{◌≡◌, arith, ℤ, pos, negsuc, ◌+ℤ◌, ◌≤ℤ◌, long_max}
use libgomp_a.Claim.{fetch_add}

-- In range, the addition that wraps is the addition.
pub fetch_add-exact :
    (a b : ℤ)
    → negsuc long_max ≤ℤ a
    → a ≤ℤ pos long_max
    → negsuc long_max ≤ℤ b
    → b ≤ℤ pos long_max
    → negsuc long_max ≤ℤ a +ℤ b
    → a +ℤ b ≤ℤ pos long_max
    → fetch_add a b ≡ a +ℤ b
unfolding fetch_add ◌+ℤ◌
fetch_add-exact (pos a) (pos b) la ha lb hb l h = ground arith
fetch_add-exact (pos a) (negsuc b) la ha lb hb l h = ground arith
fetch_add-exact (negsuc a) (pos b) la ha lb hb l h = ground arith
fetch_add-exact (negsuc a) (negsuc b) la ha lb hb l h = ground arith
