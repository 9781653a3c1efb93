-- ===== src/Arinc.antt =====
-- The ARINC 653 layer: Arinc653.c with `BY_PTHREAD` defined. A mutex of the pthread library makes
-- each of these functions atomic; what they do inside it is modelled here.
pub mod Mutexes
use libgomp_a.Base.{
  ℕ, suc, ◌+◌, ◌≡◌, Bool, true, false, Option, none, some, List, [], ◌∷◌, ◌==◌, if◌then◌else◌, set,
}

-- `Arinc_compare_and_swap`: its answer and what it leaves in `*ptr`.
unfoldable pub arinc_compare_and_swap : ℕ → ℕ → ℕ → Bool × ℕ
arinc_compare_and_swap value oldv newv = if value == oldv then (true, newv) else (false, value)

-- The loop of `Get_Free_Mutex`, from index `i` on.
pub find_free : List Bool → ℕ → Option ℕ
find_free [] i = none
find_free (true ∷ rest) i = some i
find_free (false ∷ rest) i = find_free rest (suc i)

-- `AVAILABLE_MUTEX[i] = 0; return i`, or -1 and no change.
abbrev pub marked : List Bool → Option ℕ → Option ℕ × List Bool
marked table none = (none, table)
marked table (some i) = (some i, set table i false)

-- `Get_Free_Mutex` on `AVAILABLE_MUTEX`: the index, `none` for -1, and the table after it. The
-- first mutex, which guards the table, is not given out.
pub get_free_mutex : List Bool → Option ℕ × List Bool
unfolding find_free
get_free_mutex [] = (none, [])
get_free_mutex (guard ∷ rest) = marked (guard ∷ rest) (find_free rest 1)
