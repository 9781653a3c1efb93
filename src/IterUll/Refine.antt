-- ===== src/IterUll/Refine.antt =====
-- For bounds below 2 ^ 63 the static function over `unsigned long long` hands out what that over
-- `long` does.
use libgomp_a.Base.{
  ℕ, suc, ◌+◌, ◌-◌, ◌*◌, ◌/◌, ◌%◌, ◌^◌, ◌≤◌, ◌<◌, ◌≡◌, refl, sym, ap, ◌∙◌, arith, Option, none,
  some, ltb, leb, ◌==◌, if◌then◌else◌, ℤ, pos, ◌+ℤ◌, ◌*ℤ◌, word, sub_word, ulong_max, to_word,
  to_long, Bool-cases, inl, inr, true, false, ◌==ℤ◌,
}
use libgomp_a.Iter.{
  Schedule, WorkShare, iteration_count, iteration_value, StaticResult, static_block, chunk_block,
  static_whole, static_chunk, iter_static_next,
}
use libgomp_a.Iter.Count.{count_up, distance}
use libgomp_a.Iter.Blocks.{static_block_end}
use libgomp_a.Iter.Static.{worker}
use native.Mathlib.Nat.{div-add-mod}
use libgomp_a.IterUll.{
  StaticUll, whole_ull, chunk_ull, iter_ull_static_next, WorkShareUll, count_ull, value_ull,
}

-- A loop over `long` from `a` to `b` with a positive step, and its words.
abbrev pub long_loop : ℕ → ℕ → ℕ → ℕ → WorkShare
long_loop a b k c = record {
  sched = Schedule.dynamic;
  mode = 0;
  chunk_size = pos c;
  end = pos b;
  incr = pos (suc k);
  next = pos a;
}

abbrev pub ull_loop : ℕ → ℕ → ℕ → ℕ → WorkShareUll
ull_loop a b k c = record {
  sched = Schedule.dynamic;
  mode = 0;
  chunk_size_ull = c;
  end_ull = b;
  incr_ull = suc k;
  next_ull = a;
}

abbrev pub to_words : Option (ℤ × ℤ) → Option (ℕ × ℕ)
to_words none = none
to_words (some (s, e)) = some (to_word s, to_word e)

-- A result over `long`, with its block as words.
abbrev pub result_words : StaticResult → StaticUll
result_words r = record { ret = r.ret; block = to_words r.block; trip = r.trip }

along : (x k a : ℕ) → pos x *ℤ pos (suc k) +ℤ pos a ≡ pos (x * suc k + a)
unfolding ◌+ℤ◌ ◌*ℤ◌
along x k a = ground arith

long_of : (x : ℕ) → x < 2 ^ 63 → to_long x ≡ pos x
long_of x h = ground arith

module _ (a b k c : ℕ) (up : a ≤ b) (room : b + k < 2 ^ 63) (chunk_in : c < 2 ^ 63) where
  count-refines : count_ull (ull_loop a b k c) ≡ iteration_count (long_loop a b k c)
  unfolding count_ull
  count-refines =
      let n : sub_word (word (sub_word b a + suc k)) 1 ≡ b - a + k = omega arith in
      let d : distance (pos a) (pos b) ≡ b - a = omega arith in
      ap (λ m. m / suc k) n
      ∙ ap (λ m. (m + k) / suc k) (sym d)
      ∙ sym (count_up (long_loop a b k c) k refl (omega arith) (omega arith))

  value-refines :
      (x : ℕ)
      → x < 2 ^ 63
      → value_ull (ull_loop a b k c) x ≡ to_word (iteration_value (long_loop a b k c) x)
  unfolding value_ull iteration_value
  value-refines x h = rw (long_of x h, along x k a) (omega arith)

  count_small : iteration_count (long_loop a b k c) < 2 ^ 63
  count_small =
      rw (count_up (long_loop a b k c) k refl (omega arith) (omega arith))
        (grind (arith, div-add-mod (distance (pos a) (pos b) + k) (suc k)))

  module _ (threads i trip : ℕ) (in_team : i < threads) where
    n : ℕ
    n = iteration_count (long_loop a b k c)

    whole-refines :
        whole_ull (ull_loop a b k c) (worker threads i trip)
        ≡ result_words (static_whole (long_loop a b k c) (worker threads i trip))
    unfolding whole_ull static_whole n
    whole-refines = elim (Bool-cases (ltb 0 trip)) [
      | inl done ↦ rw (done) refl
      | inr fresh ↦
          rw (fresh, count-refines)
            (elim (Bool-cases (leb (static_block n threads i).1 (static_block n threads i).0)) [
              | inl empty ↦ rw empty refl
              | inr full ↦
                  let ends = static_block_end n threads i (omega (arith, count_small)) in_team in
                  rw
                    (
                      full,
                      value-refines (static_block n threads i).0 (omega (arith, count_small)),
                      value-refines (static_block n threads i).1 (omega (arith, count_small)),
                    )
                    refl
            ])
    ]

    chunk-refines :
        chunk_ull (ull_loop a b k c) (worker threads i trip)
        ≡ result_words (static_chunk (long_loop a b k c) (worker threads i trip))
    unfolding chunk_ull static_chunk n
    chunk-refines =
        let s0 = (chunk_block threads i c trip).0 in
        let e = (chunk_block threads i c trip).1 in
        let e0 = if ltb n e then n else e in
        let cw : c % 2 ^ 64 ≡ c = omega arith in
        elim (Bool-cases (leb n s0)) [
          | inl past ↦ rw (cw, count-refines, past) refl
          | inr more ↦
              let s0_in : s0 < 2 ^ 63 = ground (arith, more, count_small) in
              let e0_in : e0 < 2 ^ 63 = ground (arith, count_small) in
              rw (cw, count-refines, more, value-refines s0 s0_in, value-refines e0 e0_in) refl
        ]

    -- For a loop over `long` that counts up, whose start, end and chunk size are not negative and whose
    -- end and step together are at most 2 ^ 63, and a thread of its team, `gomp_iter_ull_static_next` on its words does
    -- what `gomp_iter_static_next` does: the same result, the words of the same block, the same trip.
    pub iter_ull_static_next-refines :
        iter_ull_static_next (ull_loop a b k c) (worker threads i trip)
        ≡ result_words (iter_static_next (long_loop a b k c) (worker threads i trip))
    unfolding iter_ull_static_next iter_static_next
    iter_ull_static_next-refines = elim (Bool-cases (trip == ulong_max)) [
      | inl over ↦ rw over refl
      | inr going ↦
          let a0 : a + 0 ≡ a = omega arith in
          let b0 : b + 0 ≡ b = omega arith in
          let aw : a % 2 ^ 64 ≡ a = omega arith in
          let bw : b % 2 ^ 64 ≡ b = omega arith in
          elim (Bool-cases (threads == 1)) [
            | inl alone ↦ rw (going, alone, a0, b0, aw, bw) refl
            | inr team ↦ elim (Bool-cases (c == 0)) [
              | inl none_given ↦
                  let test : (pos c ==ℤ pos 0) ≡ true = ground (arith, none_given) in
                  rw (going, team, none_given, test) whole-refines
              | inr given ↦
                  let test : (pos c ==ℤ pos 0) ≡ false = ground (arith, given) in
                  rw (going, team, given, test) chunk-refines
            ]
          ]
    ]
