-- ===== src/WorkShares/Counts.antt =====
-- How many threads have ended a construct.
use libgomp_a.Base.{
  ℕ, zero, suc, ◌-◌, ◌<◌, ◌≡◌, ◌≢◌, refl, sym, ap, ◌∙◌, arith, eq→==, ne→not_==, leb, le→leb,
  lt→not_leb, Bool, true, put, ℕ_discrete,
}
use libgomp_a.Barrier.Count.{count_true, count_true-put}
use libgomp_a.WorkShares.{Pc, outside, freeing, Member}

pub count_true-ext :
    (f g : ℕ → Bool) (n : ℕ) → ((j : ℕ) → j < n → f j ≡ g j) → count_true f n ≡ count_true g n
count_true-ext f g zero h = refl
count_true-ext f g (suc n) h =
    rw (h n (omega arith), count_true-ext f g n (λ j lt. h j (omega arith))) refl

-- How many constructs a thread has ended, the one that the team starts in counted as number 0.
abbrev pub done_at : Pc → ℕ → ℕ
done_at outside r = r
done_at freeing r = r
done_at _ r = r - 1

abbrev pub done : Member → ℕ
done t = done_at t.pc t.round

abbrev pub finished : ℕ → (ℕ → Member) → ℕ → Bool
finished r f j = leb r (done (f j))

module _ (n : ℕ) (f : ℕ → Member) (i : ℕ) (v : Member) where
  -- A thread that has ended as many constructs as before.
  pub finished-same :
      (r : ℕ)
      → done v ≡ done (f i)
      → count_true (finished r (put f i v)) n ≡ count_true (finished r f) n
  finished-same r e = count_true-ext _ _ n (λ j lt. elim (ℕ_discrete i j) [
    | yes same ↦ rw (eq→== i j same) (ap (leb r) (e ∙ ap (λ k. done (f k)) same))
    | no other ↦ rw (ne→not_== i j other) refl
  ])

  -- A thread ends one more.
  pub finished-more :
      (p : ℕ)
      → i < n
      → done (f i) ≡ p
      → done v ≡ suc p
      → count_true (finished (suc p) (put f i v)) n ≡ suc (count_true (finished (suc p) f) n)
  finished-more p lt e e' =
      count_true-ext _ (put (finished (suc p) f) i true) n (λ j lj. elim (ℕ_discrete i j) [
        | yes same ↦ rw (eq→== i j same, e') (le→leb (suc p) (suc p) (omega arith))
        | no other ↦ rw (ne→not_== i j other) refl
      ])
      ∙ count_true-put (finished (suc p) f) i n lt
          (ap (leb (suc p)) e ∙ lt→not_leb (suc p) p (omega arith))

  pub finished-others :
      (p r : ℕ)
      → r ≢ suc p
      → done (f i) ≡ p
      → done v ≡ suc p
      → count_true (finished r (put f i v)) n ≡ count_true (finished r f) n
  finished-others p r ne e e' = count_true-ext _ _ n (λ j lt. elim (ℕ_discrete i j) [
    | yes same ↦
        rw (eq→== i j same, e') (near p r ne ∙ ap (leb r) (sym e ∙ ap (λ k. done (f k)) same))
    | no other ↦ rw (ne→not_== i j other) refl
  ])
    where
      near : (p r : ℕ) → r ≢ suc p → leb r (suc p) ≡ leb r p
      near p r ne = ground arith
