-- ===== src/Claim.antt =====
-- The compare-and-swap loops of `gomp_iter_dynamic_next` and `gomp_iter_guided_next` (iter.c), run
-- by the threads of a team in any order of their accesses to `ws->next`, the only memory that
-- changes.
pub mod Replay
pub mod Pass
pub mod Up
pub mod Down
pub mod Dynamic
pub mod Tiles
pub mod Total
pub mod Guided
pub mod FastPath
pub mod FastUp
pub mod FastDown
use libgomp_a.Base.{
  ℕ, ◌+◌, ◌-◌, ◌<◌, ◌≡◌, ◌≢◌, Bool, Option, none, some, List, [], ◌∷◌, if◌then◌else◌, ◌==◌, ℤ, pos,
  ◌+ℤ◌, ◌-ℤ◌, ◌==ℤ◌, ltb_ℤ, leb_ℤ, word, to_word, to_long,
}
use libgomp_a.Iter.{WorkShare, clip_chunk, guided_end}

-- One pass of the loop up to the compare-and-swap, with the locals `start` and `chunk`: `none` for
-- `return false`, else `nend` and the new `chunk`, which keeps its value in the next pass.
abbrev pub Attempt : Type 0
Attempt = ℤ → ℤ → Option (ℤ × ℤ)

unfoldable pub dynamic_attempt : WorkShare → Attempt
dynamic_attempt ws start chunk =
    if start ==ℤ ws.end
    then none
    else let left = ws.end -ℤ start in
      let cut = clip_chunk ws.incr chunk left in some (start +ℤ cut, cut)

unfoldable pub guided_attempt : WorkShare → ℕ → Attempt
guided_attempt ws threads start chunk =
    if start ==ℤ ws.end then none else some (guided_end ws threads start, chunk)

-- Where a thread stands.
pub data Pc : Type 0 where
  outside : Pc  -- before a call, or after one that returned true
  turned_away : Pc  -- after a call that returned false
  pass : (start chunk : ℤ) → Pc  -- at the head of `while (1)`
  swap : (start chunk nend : ℤ) → Pc  -- before the compare-and-swap

-- `ws->next`, the threads, and the blocks handed out so far, the latest first.
pub record Race : Type 0 where
  pub next : ℤ
  pub pc : ℕ → Pc
  pub handed : List (ℤ × ℤ)

abbrev pub update : (ℕ → Pc) → ℕ → Pc → ℕ → Pc
update f i p j = if i == j then p else f j

-- One access to `ws->next`, or one pass of local computation, of thread `i`.
pub data Step (attempt : Attempt) (chunk_size : ℤ) (s : Race) : Race → Type 0 where
  load :
      (i : ℕ)
      → s.pc i ≡ outside
      → Step attempt chunk_size s (record s { pc = update s.pc i (pass s.next chunk_size) })
  refuse :
      (i : ℕ) {start chunk : ℤ}
      → s.pc i ≡ pass start chunk
      → attempt start chunk ≡ none
      → Step attempt chunk_size s (record s { pc = update s.pc i turned_away })
  plan :
      (i : ℕ) {start chunk nend cut : ℤ}
      → s.pc i ≡ pass start chunk
      → attempt start chunk ≡ some (nend, cut)
      → Step attempt chunk_size s (record s { pc = update s.pc i (swap start cut nend) })
  win :
      (i : ℕ) {start chunk nend : ℤ}
      → s.pc i ≡ swap start chunk nend
      → s.next ≡ start
      → Step attempt chunk_size s
          (record { next = nend; pc = update s.pc i outside; handed = (start, nend) ∷ s.handed })
  lose :
      (i : ℕ) {start chunk nend : ℤ}
      → s.pc i ≡ swap start chunk nend
      → s.next ≢ start
      → Step attempt chunk_size s (record s { pc = update s.pc i (pass s.next chunk) })

abbrev pub begin : ℤ → Race
begin start = record { next = start; pc = λ _. outside; handed = [] }

pub data Reach (attempt : Attempt) (chunk_size start : ℤ) : Race → Type 0 where
  here : Reach attempt chunk_size start (begin start)
  later :
      {s t : Race}
      → Reach attempt chunk_size start s
      → Step attempt chunk_size s t
      → Reach attempt chunk_size start t

-- The fast path of `gomp_iter_dynamic_next`: `__sync_fetch_and_add` wraps.
unfoldable pub fetch_add : ℤ → ℤ → ℤ
fetch_add next chunk = to_long (word (to_word next + to_word chunk))

-- What the fast path does with the value `tmp` that it fetched.
unfoldable pub fetch_block : WorkShare → ℤ → Option (ℤ × ℤ)
fetch_block ws tmp =
    if ltb_ℤ (pos 0) ws.incr
    then (if leb_ℤ ws.end tmp
        then none
        else let nend = tmp +ℤ ws.chunk_size in
          some (tmp, if ltb_ℤ ws.end nend then ws.end else nend))
    else (if leb_ℤ tmp ws.end
        then none
        else let nend = tmp +ℤ ws.chunk_size in
          some (tmp, if ltb_ℤ nend ws.end then ws.end else nend))

-- `ws->next`, the threads that still ask for blocks and those that were turned away, and the blocks
-- handed out so far, the latest first. A call makes one access, so a thread has no place inside it.
pub record Fetches : Type 0 where
  pub next : ℤ
  pub active : ℕ
  pub finished : ℕ
  pub handed : List (ℤ × ℤ)

-- A call of `gomp_iter_dynamic_next` with `mode` 1. A thread that was turned away calls no more.
pub data Fetch (ws : WorkShare) (s : Fetches) : Fetches → Type 0 where
  granted :
      {b : ℤ × ℤ}
      → 0 < s.active
      → fetch_block ws s.next ≡ some b
      → Fetch ws s (record s { next = fetch_add s.next ws.chunk_size; handed = b ∷ s.handed })
  refused :
      0 < s.active
      → fetch_block ws s.next ≡ none
      → Fetch ws s (record s {
        next = fetch_add s.next ws.chunk_size;
        active = s.active - 1;
        finished = s.finished + 1;
      })

pub data Fetched (ws : WorkShare) (threads : ℕ) : Fetches → Type 0 where
  begun :
      Fetched ws threads (record { next = ws.next; active = threads; finished = 0; handed = [] })
  then_call : {s t : Fetches} → Fetched ws threads s → Fetch ws s t → Fetched ws threads t
