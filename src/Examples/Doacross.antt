-- ===== src/Examples/Doacross.antt =====
-- A doacross loop over 10 by 5 iterations in a team of four.
use libgomp_a.Base.{
  ℕ, ◌+ℤ◌, ◌-ℤ◌, ◌/ℤ◌, ◌<◌, ◌≡◌, ◌↔◌, refl, arith, List, [], ◌∷◌, some, true, pos, ◌≢◌,
}
use libgomp_a.Iter.{WorkShare, static, iter_static_next, iteration_value, iteration_count}
use libgomp_a.Iter.Static.{worker}
use libgomp_a.Iter.Values.{Executes}
use libgomp_a.Doacross.{
  Doacross, doacross_init, count_bits, num_entries, new_doacross, bits_step, this_bits,
  leading_zeros, shifts, empty_rows, zeros, keep_quotient, is_static, doacross_wait, doacross_post,
  wait_entry, static_entry, post_entry, posted_row, row_reached, flatten, pack_onto,
}
use libgomp_a.Doacross.History.{posts, latest, Reached, doacross_wait-latest_post}
use libgomp_a.Doacross.Sink.{wait_entry-whole}

abbrev ten_rows : WorkShare
ten_rows = record {
  sched = static;
  mode = 0;
  chunk_size = pos 0;
  end = pos 10;
  incr = pos 1;
  next = pos 0;
}

-- Four rows of one word; 4 bits for the outer and 3 for the inner counter.
abbrev four_rows : Doacross
four_rows = record {
  chunk_or_q = 2;
  ncounts = 2;
  flattened = true;
  shift_counts = 3 ∷ 0 ∷ [];
  boundary = 6;
  t = 2;
  rows = (0 ∷ []) ∷ (0 ∷ []) ∷ (0 ∷ []) ∷ (0 ∷ []) ∷ [];
}

set_up : doacross_init (some 4) static (10 ∷ 5 ∷ []) 0 ≡ some four_rows
unfolding doacross_init count_bits num_entries new_doacross bits_step this_bits leading_zeros shifts
    empty_rows zeros keep_quotient is_static
set_up = refl

-- Thread 1 has posted the iterations (3, 3) and (3, 4).
abbrev two_posts : List (ℕ × List ℕ)
two_posts = (1, 3 ∷ 4 ∷ []) ∷ (1, 3 ∷ 3 ∷ []) ∷ []

-- The sink (3, 4) belongs to thread 1.
third_row : wait_entry ten_rows 4 3 four_rows ≡ 1
unfolding wait_entry static_entry
third_row = refl

may_go_on : doacross_wait ten_rows 4 (3 ∷ 2 ∷ []) (posts static two_posts four_rows) ≡ true
unfolding doacross_wait doacross_post wait_entry static_entry post_entry posted_row row_reached
    flatten pack_onto
may_go_on = refl

doacross_wait-latest_post_example :
    (doacross_wait ten_rows 4 (3 ∷ 2 ∷ []) (posts static two_posts four_rows) ≡ true)
    ↔ Reached (3 ∷ 2 ∷ []) (latest static (wait_entry ten_rows 4 3 four_rows) two_posts four_rows)
unfolding flatten pack_onto
doacross_wait-latest_post_example =
    doacross_wait-latest_post (some 4) ten_rows 10 (5 ∷ []) 0 four_rows 4 two_posts (3 ∷ 2 ∷ [])
      (omega arith, (omega arith, tt)) set_up
      (
        ((omega arith, (omega arith, tt)), omega arith),
        (((omega arith, (omega arith, tt)), omega arith), tt),
      )
      (omega arith, (omega arith, tt)) (rw third_row (omega arith))

not_zero : pos 1 ≢ pos 0
not_zero e = cc

wait_entry-whole_example :
    (wait_entry ten_rows 4 3 four_rows < 4)
    × Executes
        (iter_static_next ten_rows (worker 4 (wait_entry ten_rows 4 3 four_rows) 0))
        (pos 1)
        (iteration_value ten_rows 3)
unfolding iteration_count ◌+ℤ◌ ◌-ℤ◌ ◌/ℤ◌
wait_entry-whole_example =
    wait_entry-whole ten_rows 4 3 (5 ∷ []) four_rows (omega arith) refl refl not_zero (omega arith)
      set_up (omega arith)
