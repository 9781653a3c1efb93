-- ===== src/Examples/Claim.antt =====
-- A loop of one chunk, and two threads that ask for it.
use libgomp_a.Base.{ℕ, ◌≡◌, refl, inl, arith, pos, [], ◌∷◌, some, ◌+ℤ◌, ◌-ℤ◌, ◌/ℤ◌}
use libgomp_a.Iter.{Schedule, WorkShare, Thread, guided_end, clip_chunk}
use libgomp_a.Claim.{
  dynamic_attempt, guided_attempt, Race, Pc, outside, turned_away, update, Reach, here, later, load,
  refuse, plan, win, lose,
}
use libgomp_a.Claim.Dynamic.{Replays, dynamic_next-Replays}
use libgomp_a.Claim.Tiles.{Tiles, dynamic_next-Tiles}
use libgomp_a.Claim.Total.{dynamic_calls, dynamic_calls-end}
use libgomp_a.Claim.Guided.{GuidedReplays, guided_next-Replays}

abbrev one_chunk : WorkShare
one_chunk = record {
  sched = Schedule.dynamic;
  mode = 0;
  chunk_size = pos 3;
  end = pos 2;
  incr = pos 1;
  next = pos 0;
}

abbrev pair : Thread
pair = record { team = some 2; team_id = 0; static_trip = 0 }

-- Both threads load, both plan, thread 0 wins, thread 1 loses and is turned away.
abbrev places : Pc → Pc → ℕ → Pc
places a b = update (update (λ _. outside) 0 a) 1 b

abbrev dynamic_reach :
    (s : Race) × Reach (dynamic_attempt one_chunk) (pos 3) (pos 0) s × (s.pc 1 ≡ turned_away)
unfolding dynamic_attempt clip_chunk ◌+ℤ◌ ◌-ℤ◌
dynamic_reach =
    let both = later (later here (load 0 refl)) (load 1 refl) in
    let planned = later (later both (plan 0 refl refl)) (plan 1 refl refl) in
    let lost = later (later planned (win 0 refl refl)) (lose 1 refl (ground arith)) in
    (_, later lost (refuse 1 refl refl), refl)

handed_out : dynamic_reach.0.handed ≡ (pos 0, pos 2) ∷ []
unfolding dynamic_attempt clip_chunk ◌+ℤ◌ ◌-ℤ◌
handed_out = refl

dynamic_next-Replays_example :
    Replays one_chunk dynamic_reach.0.handed (record one_chunk { next = dynamic_reach.0.next })
dynamic_next-Replays_example =
    dynamic_next-Replays one_chunk dynamic_reach.0 (inl (omega arith, omega arith, omega arith))
      dynamic_reach.1

dynamic_next-Tiles_example : Tiles one_chunk dynamic_reach.0.handed (pos 2)
dynamic_next-Tiles_example =
    dynamic_next-Tiles one_chunk dynamic_reach.0 1 (inl (omega arith, omega arith, omega arith))
      dynamic_reach.1 dynamic_reach.2

dynamic_calls-end_example : (dynamic_calls 2 one_chunk).next ≡ pos 2
dynamic_calls-end_example =
    dynamic_calls-end 2 one_chunk (inl (omega arith, omega arith, omega arith)) (omega arith)

abbrev guided_reach :
    (s : Race) × Reach (guided_attempt one_chunk 2) (pos 3) (pos 0) s × (s.pc 1 ≡ turned_away)
unfolding guided_attempt guided_end ◌+ℤ◌ ◌-ℤ◌ ◌/ℤ◌
guided_reach =
    let both = later (later here (load 0 refl)) (load 1 refl) in
    let planned = later (later both (plan 0 refl refl)) (plan 1 refl refl) in
    let lost = later (later planned (win 0 refl refl)) (lose 1 refl (ground arith)) in
    (_, later lost (refuse 1 refl refl), refl)

guided_next-Replays_example :
    GuidedReplays one_chunk pair guided_reach.0.handed
      (record one_chunk { next = guided_reach.0.next })
guided_next-Replays_example = guided_next-Replays one_chunk pair guided_reach.0 guided_reach.1
