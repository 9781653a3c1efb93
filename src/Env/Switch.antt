-- ===== src/Env/Switch.antt =====
-- The other variables of env.c: booleans, OMP_WAIT_POLICY, OMP_PROC_BIND, OMP_STACKSIZE and
-- GOMP_SPINCOUNT.
use libgomp_a.Base.{
  ℕ, zero, suc, ◌*◌, ◌/◌, ◌^◌, Option, none, some, List, [], ◌∷◌, ◌==◌, ◌||◌, Bool, true, false,
  not, if◌then◌else◌, ℤ, pos, negsuc, word, ltb, ulong_max, length,
}
use libgomp_a.Env.{
  Text, Outcome, absent, invalid, parsed, skip_spaces, after_word, at_end, comma, strtoul, tolower,
  onto,
}

abbrev pub true_word : Text
true_word = 116 ∷ 114 ∷ 117 ∷ 101 ∷ []

abbrev pub false_word : Text
false_word = 102 ∷ 97 ∷ 108 ∷ 115 ∷ 101 ∷ []

abbrev pub active_word : Text
active_word = 97 ∷ 99 ∷ 116 ∷ 105 ∷ 118 ∷ 101 ∷ []

abbrev pub passive_word : Text
passive_word = 112 ∷ 97 ∷ 115 ∷ 115 ∷ 105 ∷ 118 ∷ 101 ∷ []

abbrev pub master_word : Text
master_word = 109 ∷ 97 ∷ 115 ∷ 116 ∷ 101 ∷ 114 ∷ []

abbrev pub close_word : Text
close_word = 99 ∷ 108 ∷ 111 ∷ 115 ∷ 101 ∷ []

abbrev pub spread_word : Text
spread_word = 115 ∷ 112 ∷ 114 ∷ 101 ∷ 97 ∷ 100 ∷ []

abbrev pub infinite_word : Text
infinite_word = 105 ∷ 110 ∷ 102 ∷ 105 ∷ 110 ∷ 105 ∷ 116 ∷ 101 ∷ []

abbrev pub infinity_word : Text
infinity_word = 105 ∷ 110 ∷ 102 ∷ 105 ∷ 110 ∷ 105 ∷ 116 ∷ 121 ∷ []

-- The first of some words that the text starts with: what it stands for, and the text after it.
unfoldable pub first_word : {A : Type 0} → List (Text × A) → Text → Option (A × Text)
first_word [] env = none
first_word ((word, meaning) ∷ words) env =
    let later = first_word words env in
    elim (after_word word env) [ none ↦ later | some rest ↦ some (meaning, rest) ]

-- `parse_boolean`: whether a message is printed, and the new value. The value is set before the
-- text after the word is looked at.
unfoldable pub parse_boolean : Option Text → Bool → Bool × Bool
unfolding first_word
parse_boolean none value = (false, value)
parse_boolean (some s) value =
    elim (first_word ((true_word, true) ∷ (false_word, false) ∷ []) (skip_spaces s)) [
      | none ↦ (true, value)
      | some (set, rest) ↦ (not (at_end (skip_spaces rest)), set)
    ]

-- `parse_wait_policy`: 1 for active, 0 for passive, -1 where the variable is not set or refused.
unfoldable pub parse_wait_policy : Option Text → ℤ
unfolding first_word
parse_wait_policy none = negsuc 0
parse_wait_policy (some s) =
    elim (first_word ((active_word, pos 1) ∷ (passive_word, pos 0) ∷ []) (skip_spaces s)) [
      | none ↦ negsuc 0
      | some (ret, rest) ↦ if at_end (skip_spaces rest) then ret else negsuc 0
    ]

-- `omp_proc_bind_t`: false 0, true 1, master 2, close 3, spread 4.
abbrev pub place_kinds : List (Text × ℕ)
place_kinds = (master_word, 2) ∷ (close_word, 3) ∷ (spread_word, 4) ∷ []

abbrev pub all_kinds : List (Text × ℕ)
all_kinds = (false_word, 0) ∷ (true_word, 1) ∷ place_kinds

abbrev pub bind_tail : (Text → Outcome (List ℕ)) → ℕ → Text → Outcome (List ℕ)
bind_tail later value [] = parsed (value ∷ [])
bind_tail later value (c ∷ rest) = if comma c then onto value (later rest) else invalid

-- The loop of `parse_bind_var` after a comma; a round takes a byte or more off the text.
unfoldable pub bind_loop : ℕ → Text → Outcome (List ℕ)
unfolding first_word
bind_loop zero s = invalid
bind_loop (suc fuel) s = elim (first_word place_kinds (skip_spaces s)) [
  | none ↦ invalid
  | some (value, rest) ↦ bind_tail (bind_loop fuel) value (skip_spaces rest)
]

-- After the first kind: `false` and `true` stand alone.
abbrev pub bind_first : (Text → Outcome (List ℕ)) → ℕ → Text → Outcome (List ℕ)
bind_first later value [] = parsed (value ∷ [])
bind_first later value (c ∷ rest) =
    if not (comma c) || (value == 0) || (value == 1) then invalid else onto value (later rest)

-- `parse_bind_var`: `values` with one kind stands for `*p1stvalue` alone.
unfoldable pub parse_bind_var : Option Text → Outcome (List ℕ)
unfolding bind_loop first_word
parse_bind_var none = absent
parse_bind_var (some s) = elim (first_word all_kinds (skip_spaces s)) [
  | none ↦ invalid
  | some (value, rest) ↦ bind_first (bind_loop (suc (length s))) value (skip_spaces rest)
]

-- The unit after a number, if there is one, and nothing but spaces after it.
unfoldable pub unit_tail : (ℕ → Option ℕ) → ℕ → Text → Option ℕ
unit_tail unit default [] = some default
unit_tail unit default (c ∷ rest) = if at_end (skip_spaces rest) then unit (tolower c) else none

-- `shift` for the letters b, k, m and g.
unfoldable pub size_shift : ℕ → Option ℕ
size_shift c =
    if c == 98
    then some 0
    else if c == 107
    then some 10
    else if c == 109
    then some 20
    else if c == 103
    then some 30
    else none

-- `((value << shift) >> shift) != value` leads to `invalid`.
unfoldable pub shifted_size : ℕ → ℕ → Outcome ℕ
shifted_size value shift =
    if word (value * 2 ^ shift) / 2 ^ shift == value
    then parsed (word (value * 2 ^ shift))
    else invalid

-- `parse_stacksize`
unfoldable pub parse_stacksize : Option Text → Outcome ℕ
parse_stacksize none = absent
parse_stacksize (some s) =
    let r = strtoul (skip_spaces s) in
    if at_end (skip_spaces s) || r.errno
    then invalid
    else elim (unit_tail size_shift 10 (skip_spaces r.end)) [
      | none ↦ invalid
      | some shift ↦ shifted_size r.value shift
    ]

-- `mult` for the letters k, m, g and t.
unfoldable pub spin_unit : ℕ → Option ℕ
spin_unit c =
    if c == 107
    then some 1000
    else if c == 109
    then some 1000000
    else if c == 103
    then some 1000000000
    else if c == 116
    then some 1000000000000
    else none

-- `if (value > ~0ULL / mult) value = ~0ULL; else value *= mult;`
unfoldable pub saturate : ℕ → ℕ → ℕ
saturate value mult = if ltb (ulong_max / mult) value then ulong_max else word (value * mult)

-- `parse_spincount`; `unsigned long long` is as wide as `unsigned long`.
unfoldable pub parse_spincount : Option Text → Outcome ℕ
unfolding first_word unit_tail spin_unit saturate
parse_spincount none = absent
parse_spincount (some s) =
    let env = skip_spaces s in
    let r = strtoul env in
    elim (first_word ((infinite_word, tt) ∷ (infinity_word, tt) ∷ []) env) [
      | some (_, rest) ↦
          if at_end (skip_spaces rest) then parsed (saturate ulong_max 1) else invalid
      | none ↦
          if at_end env || r.errno
          then invalid
          else elim (unit_tail spin_unit 1 (skip_spaces r.end)) [
            | none ↦ invalid
            | some mult ↦ parsed (saturate r.value mult)
          ]
    ]
