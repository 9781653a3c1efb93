-- ===== src/Env/NumberList.antt =====
-- `parse_unsigned_long_list` on what `handle_omp_display_env` prints of OMP_NUM_THREADS.
use libgomp_a.Base.{
  ℕ, zero, suc, ◌+◌, ◌/◌, ◌%◌, inl, inr, ◌∷◌, ◌^◌, ◌≤◌, ◌<◌, ◌≡◌, refl, ap, ◌∙◌, arith, List, [],
  false, Bool-cases, some, All, length, ltb,
}
use libgomp_a.Env.{
  Text, parsed, skip_spaces, strtoul, number_at, list_loop, at_end, parse_unsigned_long_list,
}
use libgomp_a.Env.Scan.{Stops, decimal, strtoul-decimal, skip_spaces-decimal, at_end-decimal}
use libgomp_a.Env.Accept.{number_at-from}

-- The loop over `gomp_nthreads_var_list` from the second number on.
unfoldable pub display_rest : List ℕ → Text
display_rest [] = []
display_rest (n ∷ ns) = 44 ∷ decimal n n (display_rest ns)

-- The value of OMP_NUM_THREADS as it is displayed.
unfoldable pub display_num_threads : ℕ → List ℕ → Text
unfolding display_rest
display_num_threads n ns = decimal n n (display_rest ns)

abbrev pub IsPositive : ℕ → Type 0
IsPositive n = (0 < n) × (n < 2 ^ 63)

display_rest-Stops : (ns : List ℕ) → Stops (display_rest ns)
unfolding display_rest
display_rest-Stops [] = tt
display_rest-Stops (n ∷ ns) = refl

number_at-decimal :
    (n : ℕ) (tail : Text)
    → IsPositive n
    → Stops tail
    → number_at false (decimal n n tail) ≡ some (record { value = n; end = tail; errno = false })
number_at-decimal n tail (low, high) stops =
    number_at-from false (decimal n n tail) (record { value = n; end = tail; errno = false })
      (ap at_end (skip_spaces-decimal n tail) ∙ at_end-decimal n tail) refl (ground arith)
      (ap strtoul (skip_spaces-decimal n tail) ∙ strtoul-decimal n tail (omega arith) stops)

list_loop-display :
    (fuel n : ℕ) (ns : List ℕ)
    → length ns < fuel
    → All IsPositive (n ∷ ns)
    → list_loop fuel (decimal n n (display_rest ns)) ≡ parsed (n ∷ ns)
unfolding list_loop display_rest skip_spaces
list_loop-display zero n ns h all = absurd (omega arith)
list_loop-display (suc fuel) n [] h all = rw (list_loop, number_at-decimal n [] all.0 tt) refl
list_loop-display (suc fuel) n (m ∷ ms) h all =
    rw
      (
        list_loop,
        number_at-decimal n (44 ∷ decimal m m (display_rest ms)) all.0 refl,
        list_loop-display fuel m ms (omega arith) all.1,
      )
      refl

decimal-longer : (fuel n : ℕ) (tail : Text) → length tail < length (decimal fuel n tail)
unfolding decimal
decimal-longer zero n tail = omega arith
decimal-longer (suc fuel) n tail = elim (Bool-cases (ltb n 10)) [
  | inl e ↦ rw e (omega arith)
  | inr e ↦ rw e (omega (arith, decimal-longer fuel (n / 10) ((48 + n % 10) ∷ tail)))
]

display_rest-longer : (ns : List ℕ) → length ns ≤ length (display_rest ns)
unfolding display_rest
display_rest-longer [] = omega arith
display_rest-longer (n ∷ ns) =
    omega (arith, display_rest-longer ns, decimal-longer n n (display_rest ns))

-- One or more numbers of threads, each positive and below 2 ^ 63: the text that is displayed for
-- OMP_NUM_THREADS is read back as the same numbers.
pub parse_unsigned_long_list-display :
    (n : ℕ) (ns : List ℕ)
    → All IsPositive (n ∷ ns)
    → parse_unsigned_long_list (some (display_num_threads n ns)) ≡ parsed (n ∷ ns)
unfolding parse_unsigned_long_list display_num_threads
parse_unsigned_long_list-display n ns all =
    list_loop-display (suc (length (display_num_threads n ns))) n ns
      (omega (arith, display_rest-longer ns, decimal-longer n n (display_rest ns))) all
