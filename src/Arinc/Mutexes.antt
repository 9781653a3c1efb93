-- ===== src/Arinc/Mutexes.antt =====
-- `Get_Free_Mutex` gives out each mutex once.
use libgomp_a.Base.{
  ℕ, suc, ◌+◌, ◌-◌, ◌≤◌, ◌<◌, ◌≡◌, refl, ap, sym, ◌∙◌, arith, Bool, true, false, Option, none, some,
  List, [], ◌∷◌, length, get_or, set, get_or-set_self, get_or-set_ne, ℕ_discrete, eq→==, ne→not_==,
  if◌then◌else◌, ◌==◌,
}
use libgomp_a.Arinc.{find_free, marked, get_free_mutex}

-- What a search of the table from `from` on comes to.
abbrev pub Search : ℕ → List Bool → Option ℕ → Type 0
Search from table none = (j : ℕ) → from ≤ j → get_or table j false ≡ false
Search from table (some i) =
    (from ≤ i)
    × (i < length table)
    × (get_or table i false ≡ true)
    × ((j : ℕ) → from ≤ j → j < i → get_or table j false ≡ false)

widen :
    (r : Option ℕ) (i : ℕ) (table : List Bool)
    → get_or table i false ≡ false
    → Search (suc i) table r
    → Search i table r
widen none i table taken s = λ j h. elim (ℕ_discrete j i) [
  | yes e ↦ ap (λ k. get_or table k false) e ∙ taken
  | no ne ↦ s j (omega arith)
]
widen (some k) i table taken (a, b, c, d) = (
  omega arith,
  b,
  c,
  λ j h l. elim (ℕ_discrete j i) [
    | yes e ↦ ap (λ k. get_or table k false) e ∙ taken
    | no ne ↦ d j (omega arith) l
  ],
)

-- Whether entry `j` is the one that was given out.
abbrev pub taken_by : Option ℕ → ℕ → Bool
taken_by none j = false
taken_by (some i) j = j == i

shifted :
    (guard : Bool) (rest : List Bool) (j : ℕ)
    → get_or (guard ∷ rest) (1 + j) false ≡ get_or rest j false
shifted guard rest j = ap (λ k. get_or (guard ∷ rest) k false) {y = suc j} (omega arith)

-- The search from entry `i` on, which stands at the head of `rest`.
find_free-Search :
    (rest : List Bool) (i : ℕ) (table : List Bool)
    → ((j : ℕ) → get_or table (i + j) false ≡ get_or rest j false)
    → length table ≡ i + length rest
    → Search i table (find_free rest i)
unfolding find_free
find_free-Search [] i table e len =
    λ j h. ap (λ k. get_or table k false) {y = i + (j - i)} (omega arith) ∙ e (j - i)
find_free-Search (true ∷ rest) i table e len = (
  omega arith,
  omega arith,
  ap (λ k. get_or table k false) {y = i + 0} (omega arith) ∙ e 0,
  λ j h l. absurd (omega arith),
)
find_free-Search (false ∷ rest) i table e len =
    let taken : get_or table i false ≡ false =
      ap (λ k. get_or table k false) {y = i + 0} (omega arith) ∙ e 0 in
    widen (find_free rest (suc i)) i table taken (
      find_free-Search rest (suc i) table
        (λ j. ap (λ k. get_or table k false) {y = i + suc j} (omega arith) ∙ e (suc j))
        (omega arith))

marked-first :
    (r : Option ℕ) (table : List Bool)
    → Search 1 table r
    → Search 1 table (marked table r).0
      × ((j : ℕ)
          → get_or (marked table r).1 j false
            ≡ (if taken_by (marked table r).0 j then false else get_or table j false))
marked-first none table s = (s, λ j. refl)
marked-first (some i) table (a, b, c, d) = (
  (a, b, c, d),
  λ j. elim (ℕ_discrete j i) [
    | yes e ↦
        rw (eq→== j i e)
          (ap (λ k. get_or (set table i false) k false) e ∙ get_or-set_self table i false false b)
    | no ne ↦ rw (ne→not_== j i ne) (get_or-set_ne table i j false false (λ e. ne (sym e)))
  ],
)

-- `Get_Free_Mutex` gives out the first free mutex but the guard and marks it as taken, leaving the
-- rest of the table as it was; if there is none, it leaves the whole table alone.
pub get_free_mutex-first :
    (guard : Bool) (rest : List Bool)
    → Search 1 (guard ∷ rest) (get_free_mutex (guard ∷ rest)).0
      × ((j : ℕ)
          → get_or (get_free_mutex (guard ∷ rest)).1 j false ≡ (
              if taken_by (get_free_mutex (guard ∷ rest)).0 j
              then false
              else get_or (guard ∷ rest) j false))
unfolding get_free_mutex
get_free_mutex-first guard rest =
    marked-first (find_free rest 1) (guard ∷ rest)
      (find_free-Search rest 1 (guard ∷ rest) (shifted guard rest) (omega arith))
