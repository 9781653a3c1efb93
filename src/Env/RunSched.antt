-- ===== src/Env/RunSched.antt =====
-- `parse_schedule` (env.c): OMP_SCHEDULE.
pub mod Sets
pub mod Refused
use libgomp_a.Base.{
  ℕ, ◌+◌, Option, none, some, List, [], ◌∷◌, ◌==◌, Bool, true, false, ◌&&◌, not, if◌then◌else◌, ℤ,
  pos, to_word, to_int,
}
use libgomp_a.Iter.{Schedule, static, dynamic, guided, auto}
use libgomp_a.Doacross.{is_static}
use libgomp_a.Icv.{TaskIcv}
use libgomp_a.Env.{Text, skip_spaces, after_word, at_end, comma, strtoul}

-- The message that `parse_schedule` prints, if any.
pub data Report : Type 0 where
  silent unknown_value invalid_chunk : Report

abbrev pub static_word : Text
static_word = 115 ∷ 116 ∷ 97 ∷ 116 ∷ 105 ∷ 99 ∷ []

abbrev pub dynamic_word : Text
dynamic_word = 100 ∷ 121 ∷ 110 ∷ 97 ∷ 109 ∷ 105 ∷ 99 ∷ []

abbrev pub guided_word : Text
guided_word = 103 ∷ 117 ∷ 105 ∷ 100 ∷ 101 ∷ 100 ∷ []

abbrev pub auto_word : Text
auto_word = 97 ∷ 117 ∷ 116 ∷ 111 ∷ []

abbrev pub or_else : Option (Schedule × Text) → Option (Schedule × Text) → Option (Schedule × Text)
or_else none other = other
or_else (some found) other = some found

abbrev pub named : Schedule → Text → Text → Option (Schedule × Text)
named kind word env = elim (after_word word env) [ none ↦ none | some rest ↦ some (kind, rest) ]

-- The schedule that the text starts with, and the text after its name.
unfoldable pub schedule_word : Text → Option (Schedule × Text)
schedule_word env = or_else (named static static_word env) (
    or_else (named dynamic dynamic_word env)
      (or_else (named guided guided_word env) (named auto auto_word env)))

-- `value = 1` where 0 is read for another schedule than static.
abbrev pub chunk_value : Schedule → ℕ → ℕ
chunk_value kind value = if (value == 0) && not (is_static kind) then 1 else value

-- From the chunk size on: `run_sched_chunk_size` is an int.
unfoldable pub parse_chunk : Text → TaskIcv → Report × TaskIcv
unfolding is_static
parse_chunk env icv =
    let r = strtoul env in
    if at_end env
    then (invalid_chunk, icv)
    else if r.errno
    then (invalid_chunk, icv)
    else if not (at_end (skip_spaces r.end))
    then (invalid_chunk, icv)
    else if not (to_word (to_int r.value) == r.value)
    then (invalid_chunk, icv)
    else (
      silent,
      record icv { run_sched_chunk_size = to_int (chunk_value icv.run_sched_var r.value) },
    )

-- After the name of a schedule.
unfoldable pub parse_after_kind : Text → TaskIcv → Report × TaskIcv
unfolding parse_chunk
parse_after_kind [] icv = (
  silent,
  record icv { run_sched_chunk_size = if is_static icv.run_sched_var then pos 0 else pos 1 },
)
parse_after_kind (c ∷ rest) icv =
    if comma c then parse_chunk (skip_spaces rest) icv else (unknown_value, icv)

-- From the name of a schedule on, if there is one.
abbrev pub parse_named : Option (Schedule × Text) → TaskIcv → Report × TaskIcv
parse_named none icv = (unknown_value, icv)
parse_named (some (kind, rest)) icv =
    parse_after_kind (skip_spaces rest) (record icv { run_sched_var = kind })

-- `parse_schedule` on the value of OMP_SCHEDULE and `gomp_global_icv`.
unfoldable pub parse_schedule : Option Text → TaskIcv → Report × TaskIcv
unfolding schedule_word parse_after_kind
parse_schedule none icv = (silent, icv)
parse_schedule (some s) icv = parse_named (schedule_word (skip_spaces s)) icv
