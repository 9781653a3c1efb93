-- ===== src/Env/Accept.antt =====
-- `parse_unsigned_long_1` and `parse_int_1`: exactly which texts they accept, and with which value.
use libgomp_a.Base.{
  ℕ, ◌^◌, ◌≤◌, ◌<◌, ◌≡◌, ◌⊎◌, ◌↔◌, inl, inr, refl, sym, ap, ◌∙◌, arith, [], ◌∷◌, ◌++◌, Bool, true,
  false, ltb, ◌||◌, leb_ℤ, to_long, pos, negsuc, if◌then◌else◌, le→not_ltb, not_ltb→le, ℤ,
  ulong_max, Bool-cases, Option, some, none, guard-some,
}
use mathlib.Core.Path.{subst}
use mathlib.Core.Bool.{true≢false}
use mathlib.Core.Option.{some-injective}
use libgomp_a.Env.{
  Text, Outcome, invalid, parsed, Scanned, isspace, skip_spaces, strtoul, scan_sign, starts_number,
  number_at, parse_unsigned_long, at_end,
}
use libgomp_a.Env.Scan.{Spaces, Stops, skip_spaces-all, skip_spaces-append}
use libgomp_a.Env.Number.{
  Written, Sign, unsigned, plus, minus, sign_text, signed, magnitude, scanned, Digits, value_of,
  strtoul-number, skip_spaces-twice, sign_of, number_prefix, blank_prefix, strtoul-nothing,
  is_minus, skip_spaces-signed,
}

-- `s` is a number with spaces around it, its magnitude fits into an `unsigned long`, and the value
-- `v` of it with its sign is positive as a `long`, or 0 where that is allowed.
abbrev pub Accepts : Text → Bool → ℕ → Type 0
Accepts s allow_zero v =
    (w : Written s) × Spaces w.rest
    × (magnitude w ≤ ulong_max)
    × (signed w.sign (magnitude w) ≡ v)
    × (v < 2 ^ 63)
    × ((allow_zero ≡ true) ⊎ (0 < v))

abbrev limit : Bool → ℤ
limit allow_zero = if allow_zero then negsuc 0 else pos 0

above_limit :
    (allow_zero : Bool) (v : ℕ)
    → v < 2 ^ 64
    → (leb_ℤ (to_long v) (limit allow_zero) ≡ false)
      ↔ ((v < 2 ^ 63) × ((allow_zero ≡ true) ⊎ (0 < v)))
above_limit true v small = ground arith
above_limit false v small = ground arith

or-false : (a b : Bool) → (a || b) ≡ false → (a ≡ false) × (b ≡ false)
or-false true b e = absurd (true≢false e)
or-false false b e = (refl, e)

at_end-branch :
    (b : Bool) (s t : Text)
    → at_end t ≡ false
    → at_end (if b then s else t) ≡ true
    → (b ≡ true) × (at_end s ≡ true)
at_end-branch true s t h e = (refl, e)
at_end-branch false s t h e = absurd (true≢false (sym e ∙ h))

at_end-Spaces : (s : Text) → at_end (skip_spaces s) ≡ true → Spaces s
unfolding skip_spaces
at_end-Spaces [] h = tt
at_end-Spaces (c ∷ s) h =
    let (space, rest) = at_end-branch (isspace c) (skip_spaces s) (c ∷ s) refl h in
    (space, at_end-Spaces s rest)

-- What a number that is there has passed.
pub number_at-some :
    (allow_zero : Bool) (s : Text) (r : Scanned)
    → number_at allow_zero s ≡ some r
    → (at_end (skip_spaces s) ≡ false)
      × (r.errno ≡ false)
      × (leb_ℤ (to_long r.value) (limit allow_zero) ≡ false)
      × (strtoul (skip_spaces s) ≡ r)
unfolding number_at
number_at-some allow_zero s r e =
    let got = strtoul (skip_spaces s) in
    let (tests, e') =
      guard-some
        (at_end (skip_spaces s) || got.errno || leb_ℤ (to_long got.value) (limit allow_zero)) _ r
        e in
    let same = some-injective _ _ e' in
    let (early, over) = or-false (at_end (skip_spaces s) || got.errno) _ tests in
    let (there, fine) = or-false (at_end (skip_spaces s)) got.errno early in
    (
      there,
      ap (λ q. q.errno) (sym same) ∙ fine,
      ap (λ q. leb_ℤ (to_long q.value) (limit allow_zero)) (sym same) ∙ over,
      same,
    )

pub number_at-from :
    (allow_zero : Bool) (s : Text) (r : Scanned)
    → at_end (skip_spaces s) ≡ false
    → r.errno ≡ false
    → leb_ℤ (to_long r.value) (limit allow_zero) ≡ false
    → strtoul (skip_spaces s) ≡ r
    → number_at allow_zero s ≡ some r
unfolding number_at
number_at-from allow_zero s r there fine over same = rw (there, same, fine, over) refl

-- The end of a parser: nothing but spaces may follow.
abbrev finish : Option Scanned → Outcome ℕ
finish none = invalid
finish (some r) = if at_end (skip_spaces r.end) then parsed r.value else invalid

parse_unsigned_long-finish :
    (s : Text) (allow_zero : Bool)
    → parse_unsigned_long (some s) allow_zero ≡ finish (number_at allow_zero s)
unfolding parse_unsigned_long
parse_unsigned_long-finish s allow_zero = refl

pub only-parsed :
    (b : Bool) (u v : ℕ) → (if b then parsed u else invalid) ≡ parsed v → (b ≡ true) × (u ≡ v)
only-parsed true u v e = (refl, cc)
only-parsed false u v e = cc

finish-parsed :
    (o : Option Scanned) (v : ℕ)
    → finish o ≡ parsed v
    → (r : Scanned) × (o ≡ some r) × Spaces r.end × (r.value ≡ v)
finish-parsed none v e = cc
finish-parsed (some r) v e =
    let (stop, same) = only-parsed (at_end (skip_spaces r.end)) r.value v e in
    (r, refl, at_end-Spaces r.end stop, same)

Stops-starts : (s : Text) → Stops s → starts_number s ≡ false
Stops-starts [] h = refl
Stops-starts (c ∷ s) h = h

-- What strtoul reads, where it does not overflow and only spaces follow, is a number.
Written-strtoul :
    (s : Text) (sign : Sign) (ds rest : Text) (r : Scanned)
    → skip_spaces s ≡ sign_text sign ++ (ds ++ rest)
    → scan_sign (skip_spaces s) ≡ (is_minus sign, ds ++ rest)
    → Digits ds
    → Stops rest
    → strtoul (skip_spaces s) ≡ r
    → at_end (skip_spaces s) ≡ false
    → r.errno ≡ false
    → Spaces r.end
    → (w : Written s) × (magnitude w ≤ ulong_max)
      × (r ≡ record { value = signed w.sign (magnitude w); end = w.rest; errno = false })
Written-strtoul s sign [] rest r split scan are ends got there fine spaces =
    let twice = ap scan_sign (skip_spaces-twice s) ∙ scan in
    let none_read =
      strtoul-nothing (skip_spaces s) rest (is_minus sign) twice (Stops-starts rest ends) in
    let stopped : r.end ≡ skip_spaces s = ap (λ q. q.end) (sym got ∙ none_read) in
    let empty = skip_spaces-all (skip_spaces s) (subst Spaces stopped spaces) in
    absurd (true≢false (sym (ap at_end (sym (skip_spaces-twice s) ∙ empty)) ∙ there))
Written-strtoul s sign (d ∷ ds) rest r split scan are ends got there fine spaces =
    let (before, are_spaces, whole) = blank_prefix s in
    let read = ap strtoul split ∙ strtoul-number sign d ds rest are ends in
    let w : Written s = record {
      spaces = before;
      sign = sign;
      first = d;
      digits = ds;
      rest = rest;
      are_spaces = are_spaces;
      are_digits = are;
      ends = ends;
      whole = whole ∙ ap (λ t. before ++ t) split;
    } in
    elim (Bool-cases (ltb ulong_max (value_of 0 (d ∷ ds)))) [
      | inl over ↦
          let wrapped : (scanned sign (value_of 0 (d ∷ ds)) rest).errno ≡ true = rw over refl in
          absurd (true≢false (sym wrapped ∙ ap (λ q. q.errno) (sym read ∙ got) ∙ fine))
      | inr fits ↦ (w, not_ltb→le _ _ fits, sym got ∙ read ∙ rw fits refl)
    ]

signed-small : (sign : Sign) (v : ℕ) → v ≤ ulong_max → signed sign v < 2 ^ 64
signed-small unsigned v h = omega arith
signed-small plus v h = omega arith
signed-small minus v h = omega arith

Accepts-sound :
    (s : Text) (allow_zero : Bool) (v : ℕ)
    → parse_unsigned_long (some s) allow_zero ≡ parsed v
    → Accepts s allow_zero v
Accepts-sound s allow_zero v e =
    let (r, at, spaces, same) =
      finish-parsed (number_at allow_zero s) v
        (sym (parse_unsigned_long-finish s allow_zero) ∙ e) in
    let (there, fine, over, got) = number_at-some allow_zero s r at in
    let (sign, t, split, scan) = sign_of (skip_spaces s) in
    let (ds, rest, are, ends, split') = number_prefix t in
    let (w, fits, is) =
      Written-strtoul s sign ds rest r (split ∙ ap (λ u. sign_text sign ++ u) split')
        (scan ∙ ap (λ u. (is_minus sign, u)) split') are ends got there fine spaces in
    let value : signed w.sign (magnitude w) ≡ v = ap (λ q. q.value) (sym is) ∙ same in
    let small : v < 2 ^ 64 =
      subst (λ u. u < 2 ^ 64) value (signed-small w.sign (magnitude w) fits) in
    let range =
      (above_limit allow_zero v small).0
        (subst (λ u. leb_ℤ (to_long u) (limit allow_zero) ≡ false) same over) in
    (w, subst Spaces (ap (λ q. q.end) is) spaces, fits, value, range.0, range.1)

at_end-signed : (sign : Sign) (d : ℕ) (t : Text) → at_end (sign_text sign ++ d ∷ t) ≡ false
at_end-signed unsigned d t = refl
at_end-signed plus d t = refl
at_end-signed minus d t = refl

module _ (s : Text) (w : Written s) where
  pub skip_spaces-Written : skip_spaces s ≡ sign_text w.sign ++ w.first ∷ (w.digits ++ w.rest)
  skip_spaces-Written =
      ap skip_spaces w.whole
      ∙ skip_spaces-append w.spaces _ w.are_spaces
      ∙ skip_spaces-signed w.sign w.first (w.digits ++ w.rest) w.are_digits.0

  pub at_end-Written : at_end (skip_spaces s) ≡ false
  at_end-Written = ap at_end skip_spaces-Written ∙ at_end-signed w.sign w.first (w.digits ++ w.rest)

  pub strtoul-Written :
      magnitude w ≤ ulong_max
      → strtoul (skip_spaces s)
        ≡ record { value = signed w.sign (magnitude w); end = w.rest; errno = false }
  strtoul-Written fits =
      ap strtoul skip_spaces-Written
      ∙ strtoul-number w.sign w.first w.digits w.rest w.are_digits w.ends
      ∙ rw (le→not_ltb ulong_max (magnitude w) fits) refl

Accepts-complete :
    (s : Text) (allow_zero : Bool) (v : ℕ)
    → Accepts s allow_zero v
    → parse_unsigned_long (some s) allow_zero ≡ parsed v
Accepts-complete s allow_zero v (w, spaces, fits, value, low, above) =
    let r : Scanned = record { value = signed w.sign (magnitude w); end = w.rest; errno = false } in
    let over : leb_ℤ (to_long (signed w.sign (magnitude w))) (limit allow_zero) ≡ false =
      rw value ((above_limit allow_zero v (omega arith)).1 (low, above)) in
    let at =
      number_at-from allow_zero s r (at_end-Written s w) refl over (strtoul-Written s w fits) in
    parse_unsigned_long-finish s allow_zero
    ∙ ap finish at
    ∙ rw (skip_spaces-all w.rest spaces) (ap parsed value)

-- `parse_unsigned_long` reads the value `v` from a text exactly if the text is white space, a sign
-- or none, decimal digits and white space, the number without its sign is at most 2 ^ 64 - 1, and
-- its value, negated modulo 2 ^ 64 after a minus, is `v`, which is below 2 ^ 63 and positive, or 0
-- where that is allowed. From any other text it reads nothing.
pub parse_unsigned_long-Accepts :
    (s : Text) (allow_zero : Bool) (v : ℕ)
    → (parse_unsigned_long (some s) allow_zero ≡ parsed v) ↔ Accepts s allow_zero v
parse_unsigned_long-Accepts s allow_zero v =
    (Accepts-sound s allow_zero v, Accepts-complete s allow_zero v)
