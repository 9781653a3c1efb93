-- ===== src/Pool/Link.antt =====
-- The chain of a new chunk of work shares.
use libgomp_a.Base.{
  ℕ, zero, suc, ◌+◌, ◌-◌, ◌<◌, ◌≤◌, ◌≡◌, ◌⊎◌, inl, inr, refl, sym, ap, arith, Option, none, some,
  List, [], ◌∷◌, Bool, eq→==, ne→not_==, if◌then◌else◌, leb, ◌&&◌, true, false, lt→ltb, le→leb,
  le→not_ltb, lt→not_leb,
}
use mathlib.Core.Path.{subst}
use libgomp_a.Pool.{link_chunk}
use libgomp_a.Pool.Chains.{Chain, Outside, range}

link_chunk_end :
    (base count : ℕ) (next : ℕ → Option ℕ) (j : ℕ)
    → j + 1 ≡ base + count
    → link_chunk base count next j ≡ none
unfolding link_chunk
link_chunk_end base count next j e =
    rw (le→not_ltb j (base + count - 1) (omega arith), eq→== j (base + count - 1) (omega arith))
      (shut (leb (base + 1) j))
  where
    shut : (b : Bool) → (if b && false then some (j + 1) else none) ≡ none
    shut true = refl
    shut false = refl

link_chunk_inner :
    (base count : ℕ) (next : ℕ → Option ℕ) (j : ℕ)
    → base < j
    → suc j < base + count
    → link_chunk base count next j ≡ some (suc j)
unfolding link_chunk
link_chunk_inner base count next j lo hi =
    rw (le→leb (base + 1) j (omega arith), lt→ltb j (base + count - 1) (omega arith))
      (ap some (omega arith))

link_chunk_outside :
    (base count : ℕ) (next : ℕ → Option ℕ) (j : ℕ)
    → 0 < count
    → (j < base) ⊎ (base + count ≤ j)
    → link_chunk base count next j ≡ next j
unfolding link_chunk
link_chunk_outside base count next j h (inl low) =
    rw
      (
        lt→not_leb (base + 1) j (omega arith),
        ne→not_== j (base + count - 1) (λ e. absurd (omega arith)),
      )
      refl
link_chunk_outside base count next j h (inr high) =
    rw
      (
        le→leb (base + 1) j (omega arith),
        le→not_ltb j (base + count - 1) (omega arith),
        ne→not_== j (base + count - 1) (λ e. absurd (omega arith)),
      )
      refl

-- The new blocks form a chain.
pub link_chunk-Chain :
    (base count : ℕ) (next : ℕ → Option ℕ) (j k : ℕ)
    → base < j
    → j + suc k ≡ base + count
    → Chain (link_chunk base count next) (some j) (range j (suc k))
link_chunk-Chain base count next j zero lo e =
    (refl, link_chunk_end base count next j (omega arith))
link_chunk-Chain base count next j (suc k) lo e = (
  refl,
  subst (λ h. Chain (link_chunk base count next) h (range (suc j) (suc k)))
      (sym (link_chunk_inner base count next j lo (omega arith)))
      (link_chunk-Chain base count next (suc j) k (omega arith) (omega arith)),
)

-- Other chains stay.
pub link_chunk_other :
    (base count : ℕ) (next : ℕ → Option ℕ) (head : Option ℕ) (bs : List ℕ)
    → 0 < count
    → Outside base count bs
    → Chain next head bs
    → Chain (link_chunk base count next) head bs
link_chunk_other base count next head [] h o c = c
link_chunk_other base count next head (b ∷ bs) h (away, o) (e, c) = (
  e,
  subst (λ m. Chain (link_chunk base count next) m bs)
      (sym (link_chunk_outside base count next b h away))
      (link_chunk_other base count next (next b) bs h o c),
)
