-- ===== src/Env/RunSched/Sets.antt =====
-- What a well-formed OMP_SCHEDULE sets.
use libgomp_a.Base.{
  ℕ, ◌≡◌, ◌≤◌, refl, ap, arith, none, some, [], ◌∷◌, ◌++◌, Bool, true, false, ◌&&◌, not,
  if◌then◌else◌, ◌==◌, ◌≢◌, eq→==, ne→not_==, ℤ, pos, neg, to_int, to_word, int_max,
}
use libgomp_a.Iter.{Schedule, runtime, static, dynamic, guided, auto}
use libgomp_a.Doacross.{is_static}
use libgomp_a.Icv.{TaskIcv}
use libgomp_a.Env.{Text, tolower, skip_spaces, after_word}
use libgomp_a.Env.Scan.{Spaces, skip_spaces-append, skip_spaces-all, skip_spaces-plain}
use libgomp_a.Env.Number.{Written, Sign, unsigned, plus, minus, signed, magnitude}
use libgomp_a.Env.Accept.{at_end-Written, strtoul-Written}
use libgomp_a.Env.RunSched.{
  silent, schedule_word, parse_chunk, parse_after_kind, parse_schedule, static_word, dynamic_word,
  guided_word, auto_word, named,
}

-- `w` is `name` in small letters or capitals.
abbrev pub Spells : Text → Text → Type 0
Spells [] [] = Unit
Spells [] (_ ∷ _) = ⊥
Spells (_ ∷ _) [] = ⊥
Spells (c ∷ name) (d ∷ w) = (tolower d ≡ c) × Spells name w

abbrev pub Names : Schedule → Text → Type 0
Names runtime w = ⊥
Names static w = Spells static_word w
Names dynamic w = Spells dynamic_word w
Names guided w = Spells guided_word w
Names auto w = Spells auto_word w

after_word-Spells : (name w rest : Text) → Spells name w → after_word name (w ++ rest) ≡ some rest
unfolding after_word
after_word-Spells [] [] rest h = refl
after_word-Spells [] (d ∷ w) rest h = absurd h
after_word-Spells (c ∷ name) [] rest h = absurd h
after_word-Spells (c ∷ name) (d ∷ w) rest h =
    rw (eq→== (tolower d) c h.0) (after_word-Spells name w rest h.1)

-- A word with another first letter.
after_word-other :
    (c : ℕ) (name : Text) (d : ℕ) (t : Text) → tolower d ≢ c → after_word (c ∷ name) (d ∷ t) ≡ none
unfolding after_word
after_word-other c name d t h = rw (ne→not_== (tolower d) c h) refl

-- The later alternatives, where the first letter rules out the earlier ones.
named-Spells :
    (kind : Schedule) (name w rest : Text)
    → Spells name w
    → named kind name (w ++ rest) ≡ some (kind, rest)
named-Spells kind name w rest h = rw (named, after_word-Spells name w rest h) refl

named-other :
    (kind : Schedule) (c : ℕ) (name : Text) (d : ℕ) (t : Text)
    → tolower d ≢ c
    → named kind (c ∷ name) (d ∷ t) ≡ none
named-other kind c name d t h = rw (named, after_word-other c name d t h) refl

schedule_word-Names :
    (kind : Schedule) (w rest : Text) → Names kind w → schedule_word (w ++ rest) ≡ some (kind, rest)
unfolding schedule_word
schedule_word-Names runtime w rest h = absurd h
schedule_word-Names static w rest h =
    rw (schedule_word, named-Spells static static_word w rest h) refl
schedule_word-Names dynamic [] rest h = absurd h
schedule_word-Names dynamic (d ∷ w) rest h =
    rw
      (
        schedule_word,
        named-other static 115 _ d (w ++ rest) (λ e. absurd (omega (arith, h.0))),
        named-Spells dynamic dynamic_word (d ∷ w) rest h,
      )
      refl
schedule_word-Names guided [] rest h = absurd h
schedule_word-Names guided (d ∷ w) rest h =
    rw
      (
        schedule_word,
        named-other static 115 _ d (w ++ rest) (λ e. absurd (omega (arith, h.0))),
        named-other dynamic 100 _ d (w ++ rest) (λ e. absurd (omega (arith, h.0))),
        named-Spells guided guided_word (d ∷ w) rest h,
      )
      refl
schedule_word-Names auto [] rest h = absurd h
schedule_word-Names auto (d ∷ w) rest h =
    rw
      (
        schedule_word,
        named-other static 115 _ d (w ++ rest) (λ e. absurd (omega (arith, h.0))),
        named-other dynamic 100 _ d (w ++ rest) (λ e. absurd (omega (arith, h.0))),
        named-other guided 103 _ d (w ++ rest) (λ e. absurd (omega (arith, h.0))),
        named-Spells auto auto_word (d ∷ w) rest h,
      )
      refl

skip_spaces-letter : (c d : ℕ) (t : Text) → 97 ≤ c → tolower d ≡ c → skip_spaces (d ∷ t) ≡ d ∷ t
skip_spaces-letter c d t h e = skip_spaces-plain d t (ground arith)

skip_spaces-Names :
    (kind : Schedule) (w rest : Text) → Names kind w → skip_spaces (w ++ rest) ≡ w ++ rest
skip_spaces-Names runtime w rest h = absurd h
skip_spaces-Names static [] rest h = absurd h
skip_spaces-Names static (d ∷ w) rest h = skip_spaces-letter 115 d _ (omega arith) h.0
skip_spaces-Names dynamic [] rest h = absurd h
skip_spaces-Names dynamic (d ∷ w) rest h = skip_spaces-letter 100 d _ (omega arith) h.0
skip_spaces-Names guided [] rest h = absurd h
skip_spaces-Names guided (d ∷ w) rest h = skip_spaces-letter 103 d _ (omega arith) h.0
skip_spaces-Names auto [] rest h = absurd h
skip_spaces-Names auto (d ∷ w) rest h = skip_spaces-letter 97 d _ (omega arith) h.0

-- The chunk size that a number stands for: 0 counts as 1 except for static.
abbrev pub int_of : Sign → ℕ → ℤ
int_of unsigned m = pos m
int_of plus m = pos m
int_of minus m = neg (pos m)

abbrev pub chunk_of : Schedule → Sign → ℕ → ℤ
chunk_of kind sign m = if (m == 0) && not (is_static kind) then pos 1 else int_of sign m

int_signed :
    (sign : Sign) (m : ℕ)
    → m ≤ int_max
    → ((to_word (to_int (signed sign m)) == signed sign m) ≡ true)
      × (to_int (signed sign m) ≡ int_of sign m)
      × ((signed sign m == 0) ≡ (m == 0))
unfolding neg
int_signed unsigned m h = (ground arith, ground arith, refl)
int_signed plus m h = (ground arith, ground arith, refl)
int_signed minus m h = (ground arith, ground arith, ground arith)

to_int-if :
    (b : Bool) (v : ℕ) (z : ℤ)
    → to_int v ≡ z
    → to_int (if b then 1 else v) ≡ (if b then pos 1 else z)
to_int-if true v z e = refl
to_int-if false v z e = e

parse_chunk-sets :
    (t : Text) (w : Written t) (icv : TaskIcv)
    → Spaces w.rest
    → magnitude w ≤ int_max
    → parse_chunk (skip_spaces t) icv ≡ (
      silent,
      record icv { run_sched_chunk_size = chunk_of icv.run_sched_var w.sign (magnitude w) },
    )
unfolding parse_chunk is_static
parse_chunk-sets t w icv spaces fits =
    let (back, int, zero_too) = int_signed w.sign (magnitude w) fits in
    rw
      (
        parse_chunk,
        at_end-Written t w,
        strtoul-Written t w (omega arith),
        skip_spaces-all w.rest spaces,
        back,
        zero_too,
      )
      (ap (λ c. (silent, record icv { run_sched_chunk_size = c }))
        (to_int-if ((magnitude w == 0) && not (is_static icv.run_sched_var)) _ _ int))

-- OMP_SCHEDULE as white space, a schedule's name in small letters or capitals, white space, a comma
-- and a number with white space around it, of magnitude at most INT_MAX: `run_sched_var` becomes
-- the schedule and the chunk size the number, with its sign, or 1 for 0 with another schedule than
-- static; no message is printed.
pub parse_schedule-sets :
    (kind : Schedule) (before w between t : Text) (n : Written t) (icv : TaskIcv)
    → Spaces before
    → Names kind w
    → Spaces between
    → Spaces n.rest
    → magnitude n ≤ int_max
    → parse_schedule (some (before ++ (w ++ (between ++ 44 ∷ t)))) icv ≡ (
      silent,
      record icv {
        run_sched_var = kind;
        run_sched_chunk_size = chunk_of kind n.sign (magnitude n);
      },
    )
unfolding parse_schedule
parse_schedule-sets kind before w between t n icv a b c d fits =
    rw
      (
        skip_spaces-append before (w ++ (between ++ 44 ∷ t)) a,
        skip_spaces-Names kind w (between ++ 44 ∷ t) b,
        schedule_word-Names kind w (between ++ 44 ∷ t) b,
        skip_spaces-append between (44 ∷ t) c,
        skip_spaces-plain 44 t refl,
      )
      (parse_chunk-sets t n (record icv { run_sched_var = kind }) d fits)

-- Without a chunk size: 0 for static, otherwise 1.
pub parse_schedule-alone :
    (kind : Schedule) (before w after : Text) (icv : TaskIcv)
    → Spaces before
    → Names kind w
    → Spaces after
    → parse_schedule (some (before ++ (w ++ after))) icv ≡ (
      silent,
      record icv {
        run_sched_var = kind;
        run_sched_chunk_size = if is_static kind then pos 0 else pos 1;
      },
    )
unfolding parse_schedule parse_after_kind
parse_schedule-alone kind before w after icv a b c =
    rw
      (
        skip_spaces-append before (w ++ after) a,
        skip_spaces-Names kind w after b,
        schedule_word-Names kind w after b,
        skip_spaces-all after c,
      )
      refl
