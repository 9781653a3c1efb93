-- ===== src/IterUll/Locked.antt =====
-- In range, the locked dynamic and guided functions over `unsigned long long` hand out what those over
-- `long` do.
use libgomp_a.Base.{
  ℕ, suc, ◌+◌, ◌-◌, ◌*◌, ◌/◌, ◌%◌, ◌^◌, ◌≤◌, ◌<◌, ◌≡◌, refl, sym, arith, ltb, leb, ◌==◌,
  if◌then◌else◌, pos, ◌-ℤ◌, ◌/ℤ◌, word, sub_word, to_word, to_long, Bool, Bool-cases, inl, inr,
  true, false,
}
use libgomp_a.Iter.{WorkShare, guided_end, iter_guided_next_locked}
use libgomp_a.Iter.Static.{worker}
use native.Mathlib.Nat.{div-add-mod}
use libgomp_a.IterUll.{guided_end_ull, iter_ull_guided_next_locked, WorkShareUll}
use libgomp_a.IterUll.Refine.{long_loop, ull_loop, to_words}

-- The words of a work share.
abbrev pub share_words : WorkShare → WorkShareUll
share_words ws = record {
  sched = ws.sched;
  mode = ws.mode;
  chunk_size_ull = to_word ws.chunk_size;
  end_ull = to_word ws.end;
  incr_ull = to_word ws.incr;
  next_ull = to_word ws.next;
}

abbrev cut : ℕ → ℕ → ℕ
cut left c = if ltb left c then left else c

quotient_le : (m k : ℕ) → m / suc k ≤ m
quotient_le m k = grind (arith, div-add-mod m (suc k))

long_word : (w : ℕ) → w < 2 ^ 64 → to_word (to_long w) ≡ w
long_word w h = ground arith

either :
    (t : Bool) (w b : ℕ)
    → w < 2 ^ 64
    → b < 2 ^ 63
    → (if t then w else b) ≡ to_word (if t then to_long w else pos b)
either true w b h k = sym (long_word w h)
either false w b h k = omega arith

minus_long : (a b : ℕ) → a ≤ b → pos b -ℤ pos a ≡ pos (b - a)
unfolding ◌-ℤ◌
minus_long a b up = ground arith

over_long : (a k : ℕ) → pos a /ℤ pos (suc k) ≡ pos (a / suc k)
unfolding ◌/ℤ◌
over_long a k = refl

module _ (a b k c threads : ℕ) (up : a ≤ b) (room : b + k < 2 ^ 63) (chunk_in : c < 2 ^ 63) where
  guided_end_ull-refines :
      guided_end_ull (ull_loop a b k c) threads a
      ≡ to_word (guided_end (long_loop a b k c) threads (pos a))
  unfolding guided_end_ull guided_end
  guided_end_ull-refines =
      let m : (b - a) / suc k % 2 ^ 64 ≡ (b - a) / suc k = omega (arith, quotient_le (b - a) k) in
      let d : sub_word b a ≡ b - a = omega arith in
      let aw : a % 2 ^ 64 ≡ a = omega arith in
      let bw : b % 2 ^ 64 ≡ b = omega arith in
      let kw : suc k % 2 ^ 64 ≡ suc k = omega arith in
      let cw : c % 2 ^ 64 ≡ c = omega arith in
      rw (minus_long a b up, over_long (b - a) k, d, m, aw, kw, cw)
        (either (leb _ ((b - a) / suc k)) (word (a + word (_ * suc k))) b (omega arith)
          (omega arith))

  -- For a loop over `long` that counts up, whose start, end and chunk size are not negative and whose
  -- end and step together are at most 2 ^ 63, `gomp_iter_ull_guided_next_locked` on its words
  -- hands out the words of the block that `gomp_iter_guided_next_locked` hands out, and leaves the
  -- words of the work share that it leaves.
  pub iter_ull_guided_next-refines :
      (i trip : ℕ)
      → iter_ull_guided_next_locked (ull_loop a b k c) (worker threads i trip) ≡ (
          let (block, after) =
            iter_guided_next_locked (long_loop a b k c) (worker threads i trip) in
          (to_words block, share_words after))
  unfolding iter_ull_guided_next_locked iter_guided_next_locked
  iter_ull_guided_next-refines i trip =
      let aw : a % 2 ^ 64 ≡ a = omega arith in
      let bw : b % 2 ^ 64 ≡ b = omega arith in
      let kw : suc k % 2 ^ 64 ≡ suc k = omega arith in
      let cw : c % 2 ^ 64 ≡ c = omega arith in
      let a0 : a + 0 ≡ a = omega arith in
      let b0 : b + 0 ≡ b = omega arith in
      elim (Bool-cases (a == b)) [
        | inl last ↦ rw (a0, b0, last, aw, bw, kw, cw) refl
        | inr more ↦ rw (a0, b0, more, guided_end_ull-refines, aw, bw, kw, cw) refl
      ]
