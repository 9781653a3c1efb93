-- ===== src/Ordered/Ring.antt =====
-- The circular queue `ordered_team_ids`: the ids from an index on, going round at `threads`.
use libgomp_a.Base.{
  ℕ, zero, suc, ◌+◌, ◌^◌, ◌≤◌, ◌<◌, ◌≡◌, ◌≢◌, refl, ap, sym, ◌∙◌, List, [], ◌∷◌, ◌++◌, arith, u32,
  length, get_or, set, get_or-set_self, get_or-set_ne,
}
use mathlib.Core.Path.{ap₂}
use libgomp_a.Ordered.{wrap_index, next_index}

abbrev pub entries : List ℕ → ℕ → ℕ → ℕ → List ℕ
entries ids threads cur zero = []
entries ids threads cur (suc n) = get_or ids cur 0 ∷ entries ids threads (next_index threads cur) n

pub length-entries : (ids : List ℕ) (threads cur n : ℕ) → length (entries ids threads cur n) ≡ n
length-entries ids threads cur zero = refl
length-entries ids threads cur (suc n) =
    ap suc (length-entries ids threads (next_index threads cur) n)

module _ (threads : ℕ) (few : threads < 2 ^ 31) where
  pub next_index-lt : (cur : ℕ) → cur < threads → next_index threads cur < threads
  next_index-lt cur h = ground arith

  pub wrap_next :
      (cur n : ℕ)
      → cur < threads
      → suc n ≤ threads
      → wrap_index threads (u32 (next_index threads cur + n))
        ≡ wrap_index threads (u32 (cur + suc n))
  wrap_next cur n h k = ground arith

  pub wrap_index-lt :
      (cur n : ℕ) → cur < threads → n ≤ threads → wrap_index threads (u32 (cur + n)) < threads
  wrap_index-lt cur n h k = ground arith

  -- A full turn leads back to the start.
  pub wrap_round :
      (cur n : ℕ)
      → cur < threads
      → suc n ≡ threads
      → wrap_index threads (u32 (next_index threads cur + n)) ≡ cur
  wrap_round cur n h e = ground arith

  wrap_ne :
      (cur n : ℕ) → cur < threads → suc n < threads → wrap_index threads (u32 (cur + suc n)) ≢ cur
  wrap_ne cur n h k = ground arith

  wrap_self : (cur : ℕ) → cur < threads → cur ≡ wrap_index threads (u32 (cur + 0))
  wrap_self cur h = ground arith

  -- The last of `n + 1` entries.
  pub entries-snoc :
      (ids : List ℕ) (cur n : ℕ)
      → cur < threads
      → n ≤ threads
      → entries ids threads cur (suc n)
        ≡ entries ids threads cur n ++ get_or ids (wrap_index threads (u32 (cur + n))) 0 ∷ []
  entries-snoc ids cur zero h k = ap (λ i. get_or ids i 0 ∷ []) (wrap_self cur h)
  entries-snoc ids cur (suc n) h k =
      ap (λ l. get_or ids cur 0 ∷ l)
        (entries-snoc ids (next_index threads cur) n (next_index-lt cur h) (omega arith)
          ∙ ap (λ i. entries ids threads (next_index threads cur) n ++ get_or ids i 0 ∷ [])
              (wrap_next cur n h k))

  -- A write `m` places on leaves the `n` entries before it alone.
  entries-set_ahead :
      (ids : List ℕ) (x cur n m p : ℕ)
      → cur < threads
      → m < threads
      → n ≤ m
      → p ≡ wrap_index threads (u32 (cur + m))
      → entries (set ids p x) threads cur n ≡ entries ids threads cur n
  entries-set_ahead ids x cur zero m p h k le e = refl
  entries-set_ahead ids x cur (suc n) zero p h k le e = absurd (omega arith)
  entries-set_ahead ids x cur (suc n) (suc m) p h k le e =
      ap₂ ◌∷◌ (get_or-set_ne ids p cur x 0 (λ q. wrap_ne cur m h k (sym e ∙ q))) (
        entries-set_ahead ids x (next_index threads cur) n m p (next_index-lt cur h) (omega arith)
          (omega arith) (e ∙ sym (wrap_next cur m h (omega arith))))

  -- Writing an id just past the queue appends it.
  pub entries-enqueue :
      (ids : List ℕ) (x cur n : ℕ)
      → cur < threads
      → n < threads
      → length ids ≡ threads
      → entries (set ids (wrap_index threads (u32 (cur + n))) x) threads cur (suc n)
        ≡ entries ids threads cur n ++ x ∷ []
  entries-enqueue ids x cur n h k len =
      let p = wrap_index threads (u32 (cur + n)) in
      entries-snoc (set ids p x) cur n h (omega arith)
      ∙ ap₂ (λ l y. l ++ y ∷ []) (entries-set_ahead ids x cur n n p h k (omega arith) refl)
          (get_or-set_self ids p x 0 (omega (arith, wrap_index-lt cur n h (omega arith))))
