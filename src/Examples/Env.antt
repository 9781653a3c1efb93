-- ===== src/Examples/Env.antt =====
-- The parsers on texts, written as the codes of their characters.
use libgomp_a.Base.{◌≡◌, ◌≢◌, ◌↔◌, refl, arith, [], ◌∷◌, ◌++◌, some, false, pos, neg}
use libgomp_a.Iter.{dynamic}
use libgomp_a.Icv.{global_icv}
use libgomp_a.Env.{
  Text, parsed, skip_spaces, strtoul, scan_sign, scan_digits, after_word, number_at,
  parse_unsigned_long, parse_unsigned_long_list,
}
use libgomp_a.Env.Number.{Written, minus}
use libgomp_a.Env.Accept.{Accepts, parse_unsigned_long-Accepts}
use libgomp_a.Env.NumberList.{display_num_threads, parse_unsigned_long_list-display}
use libgomp_a.Env.RunSched.{silent, schedule_word, parse_chunk, parse_after_kind, parse_schedule}
use libgomp_a.Env.RunSched.Sets.{parse_schedule-sets}
use libgomp_a.Env.RunSched.Refused.{with_kind, parse_schedule-refused}
use libgomp_a.Env.Switch.{parse_stacksize, unit_tail, size_shift, shifted_size}

-- " 42 "
abbrev forty_two : Text
forty_two = 32 ∷ 52 ∷ 50 ∷ 32 ∷ []

forty_two_read : parse_unsigned_long (some forty_two) false ≡ parsed 42
unfolding parse_unsigned_long number_at strtoul skip_spaces scan_sign scan_digits
forty_two_read = refl

parse_unsigned_long-Accepts_example :
    (parse_unsigned_long (some forty_two) false ≡ parsed 42) ↔ Accepts forty_two false 42
parse_unsigned_long-Accepts_example = parse_unsigned_long-Accepts forty_two false 42

parse_unsigned_long_list-display_example :
    parse_unsigned_long_list (some (display_num_threads 4 (3 ∷ 2 ∷ []))) ≡ parsed (4 ∷ 3 ∷ 2 ∷ [])
parse_unsigned_long_list-display_example =
    parse_unsigned_long_list-display 4 (3 ∷ 2 ∷ [])
      ((omega arith, omega arith), ((omega arith, omega arith), ((omega arith, omega arith), tt)))

-- "Dynamic"
abbrev dynamic_text : Text
dynamic_text = 68 ∷ 121 ∷ 110 ∷ 97 ∷ 109 ∷ 105 ∷ 99 ∷ []

-- "-3"
abbrev minus_three : Text
minus_three = 45 ∷ 51 ∷ []

abbrev minus_three_Written : Written minus_three
minus_three_Written = record {
  spaces = [];
  sign = minus;
  first = 51;
  digits = [];
  rest = [];
  are_spaces = tt;
  are_digits = (refl, tt);
  ends = tt;
  whole = refl;
}

-- "Dynamic ,-3" gives the chunk size -3.
parse_schedule-sets_example :
    parse_schedule (some (dynamic_text ++ (32 ∷ 44 ∷ minus_three))) global_icv
    ≡ (silent, record global_icv { run_sched_var = dynamic; run_sched_chunk_size = neg (pos 3) })
parse_schedule-sets_example =
    parse_schedule-sets dynamic [] dynamic_text (32 ∷ []) minus_three minus_three_Written global_icv
      tt (refl, (refl, (refl, (refl, (refl, (refl, (refl, tt))))))) (refl, tt) tt (omega arith)

-- "guided,x"
abbrev guided_x : Text
guided_x = 103 ∷ 117 ∷ 105 ∷ 100 ∷ 101 ∷ 100 ∷ 44 ∷ 120 ∷ []

refused : (parse_schedule (some guided_x) global_icv).0 ≢ silent
unfolding parse_schedule schedule_word after_word skip_spaces parse_after_kind parse_chunk strtoul
    scan_sign scan_digits
refused e = cc

parse_schedule-refused_example :
    (parse_schedule (some guided_x) global_icv).1
    ≡ with_kind (schedule_word (skip_spaces guided_x)) global_icv
parse_schedule-refused_example = parse_schedule-refused guided_x global_icv refused

-- "2m"
abbrev two_megabytes : Text
two_megabytes = 50 ∷ 109 ∷ []

two_megabytes_read : parse_stacksize (some two_megabytes) ≡ parsed 2097152
unfolding parse_stacksize unit_tail size_shift shifted_size strtoul skip_spaces scan_sign
    scan_digits
two_megabytes_read = refl
