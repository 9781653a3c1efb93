-- ===== src/WorkShares/Live.antt =====
-- The work shares of the constructs `lo` to `hi`, the last one first.
use libgomp_a.Base.{
  ℕ, zero, suc, ◌≤◌, ◌<◌, ◌≡◌, ◌≢◌, refl, sym, ap, ◌∙◌, arith, leb, le→leb, lt→not_leb,
  if◌then◌else◌, ℕ_discrete, List, [], ◌∷◌, ◌++◌, All, Distinct,
}
use mathlib.Core.Path.{subst}

abbrev pub live : (ℕ → ℕ) → ℕ → ℕ → List ℕ
live seq lo zero = seq zero ∷ []
live seq lo (suc h) = seq (suc h) ∷ (if leb lo h then live seq lo h else [])

pub live-ext :
    (seq seq' : ℕ → ℕ) (lo h : ℕ)
    → ((r : ℕ) → r ≤ h → seq r ≡ seq' r)
    → live seq lo h ≡ live seq' lo h
live-ext seq seq' lo zero e = rw (e 0 (omega arith)) refl
live-ext seq seq' lo (suc h) e =
    rw (e (suc h) (omega arith), live-ext seq seq' lo h (λ r le. e r (omega arith))) refl

live-one : (seq : ℕ → ℕ) (h : ℕ) → live seq h h ≡ seq h ∷ []
live-one seq zero = refl
live-one seq (suc h) = rw (lt→not_leb (suc h) h (omega arith)) refl

-- The next one comes to the front, and the oldest one goes from the end.
pub live-grow :
    (seq : ℕ → ℕ) (lo h : ℕ) → lo ≤ h → live seq lo (suc h) ≡ seq (suc h) ∷ live seq lo h
live-grow seq lo h le = rw (le→leb lo h le) refl

pub live-shrink :
    (seq : ℕ → ℕ) (lo h : ℕ) → lo < h → live seq lo h ≡ live seq (suc lo) h ++ seq lo ∷ []
live-shrink seq lo zero lt = absurd (omega arith)
live-shrink seq lo (suc h) lt = elim (ℕ_discrete lo h) [
  | yes e ↦
      rw (le→leb lo h (omega arith), lt→not_leb (suc lo) h (omega arith))
        (ap (λ l. seq (suc h) ∷ l) (ap (live seq lo) (sym e) ∙ live-one seq lo))
  | no ne ↦
      rw
        (
          le→leb lo h (omega arith),
          le→leb (suc lo) h (omega arith),
          live-shrink seq lo h (omega arith),
        )
        refl
]

module _ (seq : ℕ → ℕ) (lo : ℕ) where
  pub All-live : (P : ℕ → Type 0) (h r : ℕ) → All P (live seq lo h) → lo ≤ r → r ≤ h → P (seq r)
  All-live P zero r (p, _) a b = subst (λ k. P (seq k)) (omega arith) p
  All-live P (suc h) r a lo_r r_h = elim (ℕ_discrete r (suc h)) [
    | yes e ↦ subst (λ k. P (seq k)) (sym e) a.0
    | no ne ↦
        All-live P h r (subst (All P) (live-grow seq lo h (omega arith)) a).1 lo_r (omega arith)
  ]

  pub Distinct-live :
      (h r r' : ℕ) → Distinct (live seq lo h) → lo ≤ r → r < r' → r' ≤ h → seq r' ≢ seq r
  Distinct-live zero r r' d a b c = absurd (omega arith)
  Distinct-live (suc h) r r' d a b c =
      let (fresh, rest) = subst (λ l. Distinct l) (live-grow seq lo h (omega arith)) d in
      elim (ℕ_discrete r' (suc h)) [
        | yes e ↦
            subst (λ k. seq k ≢ seq r) (sym e)
              (All-live (λ c. seq (suc h) ≢ c) h r fresh a (omega arith))
        | no ne ↦ Distinct-live h r r' rest a b (omega arith)
      ]
