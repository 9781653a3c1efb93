-- ===== src/Env/Scan.antt =====
-- The texts that the parsers read: spaces and printed numbers.
use libgomp_a.Base.{
  ℕ, zero, suc, ◌+◌, ◌-◌, ◌*◌, ◌/◌, ◌%◌, ◌≤◌, ◌<◌, ◌≡◌, refl, sym, ap, ◌∙◌, arith, [], ◌∷◌, ◌++◌,
  true, false, ltb, if◌then◌else◌, All, ◌==◌, ulong_max, lt→ltb, le→not_ltb,
}
use native.Mathlib.Decide.{dec_lt}
use libgomp_a.Env.{
  Text, isspace, isdigit, skip_spaces, scan_digits, scan_sign, strtoul, at_end, starts_number,
}

abbrev pub Spaces : Text → Type 0
Spaces = All (λ c. isspace c ≡ true)

-- `%lu`, before the text `tail`
unfoldable pub decimal : ℕ → ℕ → Text → Text
decimal zero n tail = (48 + n) ∷ tail
decimal (suc fuel) n tail =
    let rest = decimal fuel (n / 10) ((48 + n % 10) ∷ tail) in
    if ltb n 10 then (48 + n) ∷ tail else rest

pub skip_spaces-append : (ws s : Text) → Spaces ws → skip_spaces (ws ++ s) ≡ skip_spaces s
unfolding skip_spaces
skip_spaces-append [] s h = refl
skip_spaces-append (c ∷ ws) s h = rw h.0 (skip_spaces-append ws s h.1)

pub skip_spaces-all : (ws : Text) → Spaces ws → skip_spaces ws ≡ []
unfolding skip_spaces
skip_spaces-all [] h = refl
skip_spaces-all (c ∷ ws) h = rw h.0 (skip_spaces-all ws h.1)

-- A text that starts with neither a digit nor a space.
abbrev pub Stops : Text → Type 0
Stops [] = Unit
Stops (c ∷ s) = (isdigit c ≡ false)

pub scan_digits-stop : (v : ℕ) (s : Text) → Stops s → scan_digits v s ≡ (v, s)
unfolding scan_digits
scan_digits-stop v [] h = refl
scan_digits-stop v (c ∷ s) h = rw h refl

digit : (d : ℕ) → d < 10 → isdigit (48 + d) ≡ true
digit d h = ground arith

scan_digits-digit :
    (v d : ℕ) (s : Text) → d < 10 → scan_digits v ((48 + d) ∷ s) ≡ scan_digits (v * 10 + d) s
unfolding scan_digits
scan_digits-digit v d s h =
    let e : v * 10 + (48 + d - 48) ≡ v * 10 + d = omega arith in rw (digit d h, e) refl

scan_digits-first : (d : ℕ) (s : Text) → d < 10 → scan_digits 0 ((48 + d) ∷ s) ≡ scan_digits d s
scan_digits-first d s h =
    let e : 0 * 10 + d ≡ d = omega arith in scan_digits-digit 0 d s h ∙ ap (λ m. scan_digits m s) e

-- Reading back what was printed.
scan_digits-decimal :
    (fuel n : ℕ) (tail : Text) → n ≤ fuel → scan_digits 0 (decimal fuel n tail) ≡ scan_digits n tail
unfolding decimal
scan_digits-decimal zero n tail h = scan_digits-first n tail (omega arith)
scan_digits-decimal (suc fuel) n tail h = elim (dec_lt n 10) [
  | yes one_digit ↦ rw (lt→ltb n 10 one_digit) (scan_digits-first n tail one_digit)
  | no more ↦
      let last = scan_digits-digit (n / 10) (n % 10) tail (omega arith) in
      let whole : n / 10 * 10 + n % 10 ≡ n = omega arith in
      rw (le→not_ltb n 10 (omega arith)) (
        scan_digits-decimal fuel (n / 10) ((48 + n % 10) ∷ tail) (omega arith)
        ∙ last
        ∙ ap (λ m. scan_digits m tail) whole)
]

-- A printed number starts with a digit.
decimal-starts :
    (fuel n : ℕ) (tail : Text)
    → n ≤ fuel
    → (c : ℕ) × (s : Text) × (decimal fuel n tail ≡ c ∷ s) × (isdigit c ≡ true)
unfolding decimal
decimal-starts zero n tail h = (48 + n, tail, refl, digit n (omega arith))
decimal-starts (suc fuel) n tail h = elim (dec_lt n 10) [
  | yes one_digit ↦ rw (lt→ltb n 10 one_digit) (48 + n, tail, refl, digit n one_digit)
  | no more ↦
      rw (le→not_ltb n 10 (omega arith))
        (decimal-starts fuel (n / 10) ((48 + n % 10) ∷ tail) (omega arith))
]

pub digit-plain :
    (c : ℕ) → isdigit c ≡ true → (isspace c ≡ false) × ((c == 45) ≡ false) × ((c == 43) ≡ false)
digit-plain c h = (ground arith, ground arith, ground arith)

pub skip_spaces-plain : (c : ℕ) (s : Text) → isspace c ≡ false → skip_spaces (c ∷ s) ≡ c ∷ s
unfolding skip_spaces
skip_spaces-plain c s h = rw h refl

pub scan_sign-plain :
    (c : ℕ) (s : Text) → (c == 45) ≡ false → (c == 43) ≡ false → scan_sign (c ∷ s) ≡ (false, c ∷ s)
unfolding scan_sign
scan_sign-plain c s minus plus = rw (minus, plus) refl

pub skip_spaces-decimal : (n : ℕ) (tail : Text) → skip_spaces (decimal n n tail) ≡ decimal n n tail
skip_spaces-decimal n tail =
    let (c, s, shape, isd) = decimal-starts n n tail (omega arith) in
    ap skip_spaces shape ∙ skip_spaces-plain c s (digit-plain c isd).0 ∙ sym shape

pub at_end-decimal : (n : ℕ) (tail : Text) → at_end (decimal n n tail) ≡ false
at_end-decimal n tail =
    let (c, s, shape, _) = decimal-starts n n tail (omega arith) in ap at_end shape

-- strtoul reads back a printed number that an `unsigned long` holds.
pub strtoul-decimal :
    (n : ℕ) (tail : Text)
    → n ≤ ulong_max
    → Stops tail
    → strtoul (decimal n n tail) ≡ record { value = n; end = tail; errno = false }
unfolding strtoul
strtoul-decimal n tail h stops =
    let (c, s, shape, isd) = decimal-starts n n tail (omega arith) in
    let (_, minus, plus) = digit-plain c isd in
    let skipped = skip_spaces-decimal n tail in
    let unsigned : scan_sign (decimal n n tail) ≡ (false, decimal n n tail) =
      ap scan_sign shape ∙ scan_sign-plain c s minus plus ∙ ap (λ t. (false, t)) (sym shape) in
    let starts : starts_number (decimal n n tail) ≡ true = rw shape isd in
    let scanned = scan_digits-decimal n n tail (omega arith) ∙ scan_digits-stop n tail stops in
    rw (skipped, unsigned, starts, scanned, le→not_ltb ulong_max n h) refl
