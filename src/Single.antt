-- ===== src/Single.antt =====
-- The SINGLE construct without COPYPRIVATE: single.c, with `USE_ARINC653` defined.
pub mod Winner
use libgomp_a.Base.{ℕ, ◌+◌, Bool, true, Option, none, some, word}
use libgomp_a.Arinc.{arinc_compare_and_swap}

-- What `GOMP_single_start` leaves: its answer, and `single_count` of the thread and of its team.
pub record SingleResult : Type 0 where
  pub answer : Bool
  pub thread_count : ℕ
  pub team_count : Option ℕ

-- `GOMP_single_start`; `none` for a thread that has no team.
unfoldable pub single_start : Option ℕ → ℕ → SingleResult
unfolding arinc_compare_and_swap
single_start none thread_count = record {
  answer = true;
  thread_count = thread_count;
  team_count = none;
}
single_start (some team_count) thread_count =
    let r = arinc_compare_and_swap team_count thread_count (word (thread_count + 1)) in
    record { answer = r.0; thread_count = word (thread_count + 1); team_count = some r.1 }
