-- ===== src/Env.antt =====
-- The environment variables: env.c. A text is the list of its bytes without the final NUL, and
-- `none` where getenv returns NULL. The C library's isspace, tolower, strncasecmp and strtoul are
-- those of the C locale. `realloc` is taken to succeed.
pub mod Scan
pub mod Number
pub mod Accept
pub mod NumberList
pub mod RunSched
pub mod Switch
use libgomp_a.Base.{
  ℕ, zero, suc, ◌+◌, ◌-◌, ◌*◌, ◌^◌, Option, none, some, List, [], ◌∷◌, ltb, leb, ◌==◌, Bool, true,
  false, ◌&&◌, ◌||◌, not, if◌then◌else◌, pos, negsuc, leb_ℤ, sub_word, to_long, ulong_max, int_max,
  length,
}

abbrev pub Text : Type 0
Text = List ℕ

-- What a parser does: the variable is not set, its value is refused with a message, or is read.
pub data Outcome {ℓ} (A : Type ℓ) : Type ℓ where
  absent invalid : Outcome A
  parsed : A → Outcome A

-- isspace
abbrev pub isspace : ℕ → Bool
isspace c = (c == 32) || (leb 9 c && leb c 13)

-- `while (isspace (*env)) ++env`
unfoldable pub skip_spaces : Text → Text
skip_spaces [] = []
skip_spaces (c ∷ s) = let rest = skip_spaces s in if isspace c then rest else c ∷ s

-- `*env == '\0'`
abbrev pub at_end : Text → Bool
at_end [] = true
at_end (_ ∷ _) = false

-- tolower
abbrev pub tolower : ℕ → ℕ
tolower c = if leb 65 c && leb c 90 then c + 32 else c

-- `strncasecmp (env, name, len) == 0` for a `name` of `len` bytes, none of them a capital; where
-- it holds, the text after them.
unfoldable pub after_word : Text → Text → Option Text
after_word [] s = some s
after_word (c ∷ name) [] = none
after_word (c ∷ name) (d ∷ s) =
    let rest = after_word name s in if tolower d == c then rest else none

abbrev pub isdigit : ℕ → Bool
isdigit c = leb 48 c && leb c 57

abbrev pub starts_number : Text → Bool
starts_number [] = false
starts_number (c ∷ _) = isdigit c

-- The digits of `strtoul`, in base 10, onto the value `v` of those before.
unfoldable pub scan_digits : ℕ → Text → ℕ × Text
scan_digits v [] = (v, [])
scan_digits v (c ∷ s) =
    let rest = scan_digits (v * 10 + (c - 48)) s in if isdigit c then rest else (v, c ∷ s)

-- The sign: whether it is a minus, and the text after it.
unfoldable pub scan_sign : Text → Bool × Text
scan_sign [] = (false, [])
scan_sign (c ∷ s) = if c == 45 then (true, s) else if c == 43 then (false, s) else (false, c ∷ s)

-- What strtoul returns, `*end` and whether it sets errno.
pub record Scanned : Type 0 where
  pub value : ℕ
  pub end : Text
  pub errno : Bool

-- `strtoul (env, &end, 10)`: a minus negates in `unsigned long`; without digits `end` is `env`.
unfoldable pub strtoul : Text → Scanned
unfolding skip_spaces scan_sign scan_digits
strtoul s =
    let (minus, t) = scan_sign (skip_spaces s) in
    let (v, end) = scan_digits 0 t in
    if not (starts_number t)
    then record { value = 0; end = s; errno = false }
    else if ltb ulong_max v
    then record { value = ulong_max; end = end; errno = true }
    else record { value = if minus then sub_word 0 v else v; end = end; errno = false }

-- A number that is there and in range: `errno || (long) value <= limit` leads to `invalid`.
unfoldable pub number_at : Bool → Text → Option Scanned
unfolding skip_spaces strtoul
number_at allow_zero s =
    let env = skip_spaces s in
    let r = strtoul env in
    if at_end env || r.errno || leb_ℤ (to_long r.value) (if allow_zero then negsuc 0 else pos 0)
    then none
    else some r

-- `parse_unsigned_long_1` after getenv: `*pvalue` is written only where a value is parsed.
unfoldable pub parse_unsigned_long : Option Text → Bool → Outcome ℕ
unfolding number_at
parse_unsigned_long none allow_zero = absent
parse_unsigned_long (some s) allow_zero = elim (number_at allow_zero s) [
  | none ↦ invalid
  | some r ↦ if at_end (skip_spaces r.end) then parsed r.value else invalid
]

-- `parse_int_1`
unfoldable pub parse_int : Option Text → Bool → Outcome ℕ
unfolding parse_unsigned_long
parse_int env allow_zero = elim (parse_unsigned_long env allow_zero) [
  | absent ↦ absent
  | invalid ↦ invalid
  | parsed value ↦ if ltb int_max value then invalid else parsed value
]

-- `c` is a comma
abbrev pub comma : ℕ → Bool
comma c = c == 44

abbrev pub onto : ℕ → Outcome (List ℕ) → Outcome (List ℕ)
onto value absent = invalid
onto value invalid = invalid
onto value (parsed values) = parsed (value ∷ values)

-- What follows a number: the end of the text, or a comma and `later`.
abbrev pub list_tail : (Text → Outcome (List ℕ)) → ℕ → Text → Outcome (List ℕ)
list_tail later value [] = parsed (value ∷ [])
list_tail later value (c ∷ rest) = if comma c then onto value (later rest) else invalid

-- The loop of `parse_unsigned_long_list` from a number on, the first one included: `values` from
-- this number to the last. A round takes a byte or more off the text, so the text's length is
-- enough fuel.
unfoldable pub list_loop : ℕ → Text → Outcome (List ℕ)
unfolding number_at
list_loop zero s = invalid
list_loop (suc fuel) s = elim (number_at false s) [
  | none ↦ invalid
  | some r ↦ list_tail (list_loop fuel) r.value (skip_spaces r.end)
]

-- `parse_unsigned_long_list`: `values` with one number stands for `*p1stvalue` alone, longer ones
-- for `*pvalues` and `*pnvalues` too.
unfoldable pub parse_unsigned_long_list : Option Text → Outcome (List ℕ)
unfolding list_loop
parse_unsigned_long_list none = absent
parse_unsigned_long_list (some s) = list_loop (suc (length s)) s
