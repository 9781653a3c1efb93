-- ===== src/Env/Number.antt =====
-- Which texts are numbers: the grammar that `parse_unsigned_long_1` accepts.
use libgomp_a.Base.{
  ℕ, ◌+◌, ◌-◌, ◌*◌, ◌≡◌, inl, inr, refl, ap, arith, [], ◌∷◌, ◌++◌, Bool, true, false, ltb, ◌==◌,
  if◌then◌else◌, All, ulong_max, sub_word, Bool-cases,
}
use libgomp_a.Env.{
  Text, Scanned, isspace, isdigit, skip_spaces, scan_digits, scan_sign, strtoul, starts_number,
}
use libgomp_a.Env.Scan.{
  Spaces, Stops, scan_digits-stop, digit-plain, skip_spaces-plain, scan_sign-plain,
}

abbrev pub Digits : Text → Type 0
Digits = All (λ c. isdigit c ≡ true)

-- The value of a text of digits, onto `v`.
abbrev pub value_of : ℕ → Text → ℕ
value_of v [] = v
value_of v (c ∷ ds) = value_of (v * 10 + (c - 48)) ds

pub data Sign : Type 0 where
  unsigned plus minus : Sign

abbrev pub sign_text : Sign → Text
sign_text unsigned = []
sign_text plus = 43 ∷ []
sign_text minus = 45 ∷ []

-- The `unsigned long` of a sign and digits.
abbrev pub signed : Sign → ℕ → ℕ
signed unsigned v = v
signed plus v = v
signed minus v = sub_word 0 v

scan_digits-Digits :
    (v : ℕ) (ds rest : Text)
    → Digits ds
    → Stops rest
    → scan_digits v (ds ++ rest) ≡ (value_of v ds, rest)
unfolding scan_digits
scan_digits-Digits v [] rest h stops = scan_digits-stop v rest stops
scan_digits-Digits v (c ∷ ds) rest h stops =
    rw h.0 (scan_digits-Digits (v * 10 + (c - 48)) ds rest h.1 stops)

-- Every text is some digits and a rest that does not go on with one.
pub number_prefix :
    (s : Text) → (ds : Text) × (rest : Text) × Digits ds × Stops rest × (s ≡ ds ++ rest)
number_prefix [] = ([], [], tt, tt, refl)
number_prefix (c ∷ s) = elim (Bool-cases (isdigit c)) [
  | inl yes_digit ↦
      let (ds, rest, h, stops, e) = number_prefix s in
      (c ∷ ds, rest, (yes_digit, h), stops, ap (λ t. c ∷ t) e)
  | inr other ↦ ([], c ∷ s, tt, other, refl)
]

-- Every text is some spaces and what is left of it.
pub blank_prefix : (s : Text) → (ws : Text) × Spaces ws × (s ≡ ws ++ skip_spaces s)
unfolding skip_spaces
blank_prefix [] = ([], tt, refl)
blank_prefix (c ∷ s) = elim (Bool-cases (isspace c)) [
  | inl space ↦
      let (ws, h, e) = blank_prefix s in (c ∷ ws, (space, h), rw space (ap (λ t. c ∷ t) e))
  | inr other ↦ ([], tt, rw other refl)
]

pub skip_spaces-twice : (s : Text) → skip_spaces (skip_spaces s) ≡ skip_spaces s
unfolding skip_spaces
skip_spaces-twice [] = refl
skip_spaces-twice (c ∷ s) = elim (Bool-cases (isspace c)) [
  | inl space ↦ rw space (skip_spaces-twice s)
  | inr other ↦ rw (skip_spaces-plain c s other, skip_spaces-plain c s other) refl
]

abbrev pub is_minus : Sign → Bool
is_minus unsigned = false
is_minus plus = false
is_minus minus = true

-- Every text is a sign and a rest.
pub sign_of :
    (s : Text)
    → (sign : Sign) × (rest : Text) × (s ≡ sign_text sign ++ rest)
      × (scan_sign s ≡ (is_minus sign, rest))
unfolding scan_sign
sign_of [] = (unsigned, [], refl, refl)
sign_of (c ∷ s) = elim (Bool-cases (c == 45)) [
  | inl e ↦ let c45 : c ≡ 45 = ground arith in (minus, s, ap (λ d. d ∷ s) c45, rw e refl)
  | inr not_minus ↦ elim (Bool-cases (c == 43)) [
    | inl e ↦
        let c43 : c ≡ 43 = ground arith in (plus, s, ap (λ d. d ∷ s) c43, rw (not_minus, e) refl)
    | inr not_plus ↦ (unsigned, c ∷ s, refl, rw (not_minus, not_plus) refl)
  ]
]

-- A sign and a digit: what skipping spaces and reading the sign do.
pub skip_spaces-signed :
    (sign : Sign) (d : ℕ) (t : Text)
    → isdigit d ≡ true
    → skip_spaces (sign_text sign ++ d ∷ t) ≡ sign_text sign ++ d ∷ t
unfolding skip_spaces
skip_spaces-signed unsigned d t h = skip_spaces-plain d t (digit-plain d h).0
skip_spaces-signed plus d t h = refl
skip_spaces-signed minus d t h = refl

scan_sign-signed :
    (sign : Sign) (d : ℕ) (t : Text)
    → isdigit d ≡ true
    → scan_sign (sign_text sign ++ d ∷ t) ≡ (is_minus sign, d ∷ t)
unfolding scan_sign
scan_sign-signed unsigned d t h = let (_, m, p) = digit-plain d h in scan_sign-plain d t m p
scan_sign-signed plus d t h = refl
scan_sign-signed minus d t h = refl

is_minus-signed :
    (sign : Sign) (v : ℕ) → (if is_minus sign then sub_word 0 v else v) ≡ signed sign v
is_minus-signed unsigned v = refl
is_minus-signed plus v = refl
is_minus-signed minus v = refl

-- What strtoul makes of a number.
abbrev pub scanned : Sign → ℕ → Text → Scanned
scanned sign v rest =
    if ltb ulong_max v
    then record { value = ulong_max; end = rest; errno = true }
    else record { value = signed sign v; end = rest; errno = false }

pub strtoul-number :
    (sign : Sign) (d : ℕ) (ds rest : Text)
    → Digits (d ∷ ds)
    → Stops rest
    → strtoul (sign_text sign ++ d ∷ (ds ++ rest)) ≡ scanned sign (value_of 0 (d ∷ ds)) rest
unfolding strtoul
strtoul-number sign d ds rest h stops =
    rw
      (
        skip_spaces-signed sign d (ds ++ rest) h.0,
        scan_sign-signed sign d (ds ++ rest) h.0,
        h.0,
        scan_digits-Digits (0 * 10 + (d - 48)) ds rest h.1 stops,
        is_minus-signed sign (value_of 0 (d ∷ ds)),
      )
      refl

-- Without digits nothing is read.
pub strtoul-nothing :
    (s t : Text) (m : Bool)
    → scan_sign (skip_spaces s) ≡ (m, t)
    → starts_number t ≡ false
    → strtoul s ≡ record { value = 0; end = s; errno = false }
unfolding strtoul
strtoul-nothing s t m e h = rw (e, h) refl

-- A text of spaces, a number and whatever follows it.
pub record Written (s : Text) : Type 0 where
  pub spaces : Text
  pub sign : Sign
  pub first : ℕ
  pub digits : Text
  pub rest : Text
  pub are_spaces : Spaces spaces
  pub are_digits : Digits (first ∷ digits)
  pub ends : Stops rest
  pub whole : s ≡ spaces ++ (sign_text sign ++ first ∷ (digits ++ rest))

abbrev pub magnitude : {s : Text} → Written s → ℕ
magnitude w = value_of 0 (w.first ∷ w.digits)
