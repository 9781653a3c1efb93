-- ===== src/Env/RunSched/Refused.antt =====
-- What a refused OMP_SCHEDULE changes.
use libgomp_a.Base.{
  ◌≡◌, ◌≢◌, inl, inr, refl, Option, none, some, [], ◌∷◌, Bool, true, false, Bool-cases, not,
  if◌then◌else◌,
}
use libgomp_a.Icv.{TaskIcv}
use libgomp_a.Env.{Text, skip_spaces, at_end, comma, strtoul}
use libgomp_a.Env.RunSched.{
  Report, silent, invalid_chunk, schedule_word, parse_chunk, parse_after_kind, parse_named,
  parse_schedule,
}
use libgomp_a.Iter.{Schedule}

-- Either nothing is reported, or nothing has changed.
abbrev pub KeepsOnError : TaskIcv → Report × TaskIcv → Type 0
KeepsOnError icv result = (result.0 ≢ silent) → result.1 ≡ icv

guard-KeepsOnError :
    (b : Bool) (report : Report) (icv : TaskIcv) (other : Report × TaskIcv)
    → KeepsOnError icv other
    → KeepsOnError icv (if b then (report, icv) else other)
guard-KeepsOnError true report icv other h = λ _. refl
guard-KeepsOnError false report icv other h = h

parse_chunk-KeepsOnError : (env : Text) (icv : TaskIcv) → KeepsOnError icv (parse_chunk env icv)
unfolding parse_chunk
parse_chunk-KeepsOnError env icv =
    let r = strtoul env in
    guard-KeepsOnError (at_end env) invalid_chunk icv _ (
      guard-KeepsOnError r.errno invalid_chunk icv _ (
        guard-KeepsOnError (not (at_end (skip_spaces r.end))) invalid_chunk icv _
          (guard-KeepsOnError _ invalid_chunk icv _ (λ h. absurd (h refl)))))

parse_after_kind-KeepsOnError :
    (env : Text) (icv : TaskIcv) → KeepsOnError icv (parse_after_kind env icv)
unfolding parse_after_kind
parse_after_kind-KeepsOnError [] icv = λ h. absurd (h refl)
parse_after_kind-KeepsOnError (c ∷ rest) icv = elim (Bool-cases (comma c)) [
  | inl e ↦ rw e (parse_chunk-KeepsOnError (skip_spaces rest) icv)
  | inr e ↦ rw e (λ _. refl)
]

-- `run_sched_var` as the schedule that was found, and everything else as it was.
abbrev pub with_kind : Option (Schedule × Text) → TaskIcv → TaskIcv
with_kind none icv = icv
with_kind (some (kind, _)) icv = record icv { run_sched_var = kind }

parse_named-refused :
    (o : Option (Schedule × Text)) (icv : TaskIcv)
    → (parse_named o icv).0 ≢ silent
    → (parse_named o icv).1 ≡ with_kind o icv
parse_named-refused none icv h = refl
parse_named-refused (some (kind, rest)) icv h =
    parse_after_kind-KeepsOnError (skip_spaces rest) (record icv { run_sched_var = kind }) h

-- Where `parse_schedule` prints a message, all variables are as before but for `run_sched_var`,
-- which is the schedule that the text names if it starts with such a name.
pub parse_schedule-refused :
    (s : Text) (icv : TaskIcv)
    → (parse_schedule (some s) icv).0 ≢ silent
    → (parse_schedule (some s) icv).1 ≡ with_kind (schedule_word (skip_spaces s)) icv
unfolding parse_schedule
parse_schedule-refused s icv h = parse_named-refused (schedule_word (skip_spaces s)) icv h
