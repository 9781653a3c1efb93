-- ===== src/Base/NoRepeat.antt =====
-- Lists of numbers without repetition.
use Prim.Native.Nat.{ℕ}
use mathlib.Core.Path.{sym}
use mathlib.Core.Path.{subst}
use mathlib.Core.Logic.{◌≢◌}
use mathlib.Core.List.{List, [], ◌∷◌, ◌++◌, append-nil}
use libgomp_a.Base.Lists.{All}

abbrev pub Fresh : ℕ → List ℕ → Type 0
Fresh b = All (λ c. b ≢ c)

abbrev pub Distinct : List ℕ → Type 0
Distinct [] = Unit
Distinct (b ∷ bs) = Fresh b bs × Distinct bs

module _ (P : ℕ → Type 0) where
  pub All-insert : (c : ℕ) (xs ys : List ℕ) → P c → All P (xs ++ ys) → All P (xs ++ c ∷ ys)
  All-insert c [] ys h a = (h, a)
  All-insert c (x ∷ xs) ys h (g, a) = (g, All-insert c xs ys h a)

  pub All-remove : (c : ℕ) (xs ys : List ℕ) → All P (xs ++ c ∷ ys) → P c × All P (xs ++ ys)
  All-remove c [] ys a = a
  All-remove c (x ∷ xs) ys (g, a) = let (h, a') = All-remove c xs ys a in (h, (g, a'))

  pub All-append : (xs ys : List ℕ) → All P xs → All P ys → All P (xs ++ ys)
  All-append [] ys a b = b
  All-append (x ∷ xs) ys (h, a) b = (h, All-append xs ys a b)

  pub All-left : (xs ys : List ℕ) → All P (xs ++ ys) → All P xs
  All-left [] ys a = tt
  All-left (x ∷ xs) ys (h, a) = (h, All-left xs ys a)

  pub All-right : (xs ys : List ℕ) → All P (xs ++ ys) → All P ys
  All-right [] ys a = a
  All-right (x ∷ xs) ys (h, a) = All-right xs ys a

pub All-imp : (P Q : ℕ → Type 0) → ((x : ℕ) → P x → Q x) → (xs : List ℕ) → All P xs → All Q xs
All-imp P Q f [] a = tt
All-imp P Q f (x ∷ xs) (h, a) = (f x h, All-imp P Q f xs a)

pub All-both : (P Q : ℕ → Type 0) (xs : List ℕ) → All P xs → All Q xs → All (λ x. P x × Q x) xs
All-both P Q [] a b = tt
All-both P Q (x ∷ xs) (h, a) (g, b) = ((h, g), All-both P Q xs a b)

-- An element can move to any place of a list without repetition.
pub Distinct-insert : (b : ℕ) (xs ys : List ℕ) → Distinct (b ∷ (xs ++ ys)) → Distinct (xs ++ b ∷ ys)
Distinct-insert b [] ys d = d
Distinct-insert b (x ∷ xs) ys ((ne, f), (g, d)) =
    (All-insert (λ c. x ≢ c) b xs ys (λ e. ne (sym e)) g, Distinct-insert b xs ys (f, d))

pub Distinct-remove : (b : ℕ) (xs ys : List ℕ) → Distinct (xs ++ b ∷ ys) → Distinct (b ∷ (xs ++ ys))
Distinct-remove b [] ys d = d
Distinct-remove b (x ∷ xs) ys (f, d) =
    let (ne, g) = All-remove (λ c. x ≢ c) b xs ys f in
    let (h, d') = Distinct-remove b xs ys d in (((λ e. ne (sym e)), h), (g, d'))

-- Two parts of a list change places.
pub All-swap : (P : ℕ → Type 0) (xs ys : List ℕ) → All P (xs ++ ys) → All P (ys ++ xs)
All-swap P xs ys a = All-append P ys xs (All-right P xs ys a) (All-left P xs ys a)

pub Distinct-swap : (xs ys : List ℕ) → Distinct (xs ++ ys) → Distinct (ys ++ xs)
Distinct-swap [] ys d = subst Distinct (sym (append-nil ys)) d
Distinct-swap (x ∷ xs) ys (f, d) =
    Distinct-insert x ys xs (All-swap (λ c. x ≢ c) xs ys f, Distinct-swap xs ys d)

pub Distinct-right : (xs ys : List ℕ) → Distinct (xs ++ ys) → Distinct ys
Distinct-right [] ys d = d
Distinct-right (x ∷ xs) ys (f, d) = Distinct-right xs ys d
