-- ===== src/Sections/Numbers.antt =====
-- What the calls of `GOMP_sections_next` return.
use libgomp_a.Base.{
  ℕ, zero, suc, ◌+◌, ◌^◌, ◌≤◌, ◌<◌, ◌≡◌, refl, ap, ◌∙◌, arith, List, [], ◌∷◌, pos, ◌+ℤ◌, uint_max,
}
use libgomp_a.Iter.{Schedule, WorkShare}
use libgomp_a.Claim.{fetch_add, fetch_block}
use libgomp_a.Sections.{sections_init, sections_next}

-- The section numbers that `calls` calls of `GOMP_sections_next` return, in turn.
pub sections_run : ℕ → WorkShare → List ℕ
sections_run zero ws = []
sections_run (suc calls) ws = let (s, ws') = sections_next ws in s ∷ sections_run calls ws'

-- The numbers from `from` on, `left` of them, and then zeros.
unfoldable pub numbers : ℕ → ℕ → ℕ → List ℕ
numbers zero left from = []
numbers (suc calls) zero from = 0 ∷ numbers calls zero from
numbers (suc calls) (suc left) from = from ∷ numbers calls left (suc from)

-- The work share of the sections before `end`, when `ws->next` is `from`.
abbrev share : ℕ → ℕ → WorkShare
share end from = record {
  sched = Schedule.dynamic;
  mode = 1;
  chunk_size = pos 1;
  end = pos end;
  incr = pos 1;
  next = pos from;
}

fetch_one : (from : ℕ) → suc from < 2 ^ 63 → fetch_add (pos from) (pos 1) ≡ pos (suc from)
unfolding fetch_add
fetch_one from h = ground arith

next_none :
    (end from : ℕ)
    → end ≤ from
    → suc from < 2 ^ 63
    → sections_next (share end from) ≡ (0, share end (suc from))
unfolding sections_next fetch_block
next_none end from h room =
    rw (sections_next, fetch_one from room) (ap (λ n. (n, share end (suc from))) (ground arith))

next_some :
    (end from : ℕ)
    → from < end
    → end ≤ 2 ^ 32
    → sections_next (share end from) ≡ (from, share end (suc from))
unfolding sections_next fetch_block ◌+ℤ◌
next_some end from h small =
    rw (sections_next, fetch_one from (omega arith))
      (ap (λ n. (n, share end (suc from))) (ground arith))

run-past :
    (calls end from : ℕ)
    → end ≤ from
    → from + calls < 2 ^ 63
    → sections_run calls (share end from) ≡ numbers calls 0 end
unfolding sections_run numbers
run-past zero end from h room = refl
run-past (suc calls) end from h room =
    rw (next_none end from h (omega arith))
      (ap (λ l. 0 ∷ l) (run-past calls end (suc from) (omega arith) (omega arith)))

run-share :
    (calls left from : ℕ)
    → from + left ≤ 2 ^ 32
    → from + calls < 2 ^ 63
    → sections_run calls (share (from + left) from) ≡ numbers calls left from
unfolding sections_run numbers
run-share zero left from h room = refl
run-share (suc calls) zero from h room =
    let none_left : from + 0 ≡ from = omega arith in
    rw none_left (run-past (suc calls) from from (omega arith) room)
run-share (suc calls) (suc left) from h room =
    let on : from + suc left ≡ suc from + left = omega arith in
    rw (on, next_some (suc from + left) from (omega arith) (omega arith))
      (ap (λ l. from ∷ l) (run-share calls left (suc from) (omega arith) (omega arith)))

-- For an `unsigned` count of sections, and so few calls that `ws->next` stays a `long`, the first
-- `count` calls of `GOMP_sections_next` return the section numbers 1 to `count`, each once and in
-- order, and every later call returns 0.
pub sections_next-numbers :
    (count calls : ℕ)
    → count ≤ uint_max
    → calls + 1 < 2 ^ 63
    → sections_run calls (sections_init count) ≡ numbers calls count 1
unfolding sections_init ◌+ℤ◌
sections_next-numbers count calls h room =
    let e : sections_init count ≡ share (1 + count) 1 = ground arith in
    ap (sections_run calls) e ∙ run-share calls count 1 (omega arith) (omega arith)
