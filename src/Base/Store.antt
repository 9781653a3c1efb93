-- ===== src/Base/Store.antt =====
-- A store, or a table indexed by threads, as a function.
use Prim.Native.Nat.{ℕ}
use mathlib.Core.Path.{◌≡◌, refl, sym, ap, ◌∙◌, fun_ext}
use native.Mathlib.Decide.{ℕ_discrete}
use mathlib.Core.Logic.{◌≢◌}
use libgomp_a.Base.Tests.{◌==◌, if◌then◌else◌, eq→==, ne→not_==}

module _ {ℓ} {A : Type ℓ} where
  abbrev pub put : (ℕ → A) → ℕ → A → ℕ → A
  put f i v j = if i == j then v else f j

  pub put_self : (f : ℕ → A) (i : ℕ) (v : A) → put f i v i ≡ v
  put_self f i v = rw (eq→== i i refl) refl

  pub put_other : (f : ℕ → A) (i j : ℕ) (v : A) → i ≢ j → put f i v j ≡ f j
  put_other f i j v h = rw (ne→not_== i j h) refl

  -- A write of what is there already.
  pub put_same : (f : ℕ → A) (i : ℕ) (v : A) → f i ≡ v → put f i v ≡ f
  put_same f i v e = fun_ext (λ j. elim (ℕ_discrete i j) [
    | yes same ↦ rw (eq→== i j same) (sym e ∙ ap f same)
    | no ne ↦ put_other f i j v ne
  ])
