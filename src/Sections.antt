-- ===== src/Sections.antt =====
-- The SECTIONS construct: sections.c. Its iterations are the section numbers from 1 to `count`.
-- `mode` is 1, so a call of `gomp_iter_dynamic_next` takes its fast path: a fetch and add, which moves
-- `ws->next` whether or not the thread gets a block.
pub mod Numbers
pub mod Fast
use libgomp_a.Base.{
  ℕ, suc, ◌+◌, ◌≡◌, Bool, Option, none, some, if◌then◌else◌, ℤ, pos, ◌+ℤ◌, u32, to_word,
}
use libgomp_a.Iter.{Schedule, WorkShare}
use libgomp_a.Claim.{fetch_add, fetch_block}

-- `gomp_sections_init`, where `sizeof (long) > sizeof (unsigned)`.
unfoldable pub sections_init : ℕ → WorkShare
sections_init count = record {
  sched = Schedule.dynamic;
  mode = 1;
  chunk_size = pos 1;
  end = pos count +ℤ pos 1;
  incr = pos 1;
  next = pos 1;
}

-- The section number that a block of `gomp_iter_dynamic_next` stands for, as an `unsigned`.
abbrev pub section_of : Option (ℤ × ℤ) → ℕ
section_of (some (s, e)) = u32 (to_word s)
section_of none = 0

-- `GOMP_sections_next`, and the work share that it leaves.
unfoldable pub sections_next : WorkShare → ℕ × WorkShare
sections_next ws =
    (section_of (fetch_block ws ws.next), record ws { next = fetch_add ws.next ws.chunk_size })

-- `GOMP_sections_start`; `first` is the answer of `gomp_work_share_start`.
unfoldable pub sections_start : Bool → WorkShare → ℕ → ℕ × WorkShare
unfolding sections_next
sections_start first ws count = sections_next (if first then sections_init count else ws)
