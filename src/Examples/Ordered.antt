-- ===== src/Examples/Ordered.antt =====
-- Two threads at an ordered section.
use libgomp_a.Base.{ℕ, ◌<◌, ◌≡◌, refl, arith, List, [], ◌∷◌, some, true}
use libgomp_a.Ordered.{Ordered, ordered_first, ordered_sync, fresh_ordered, enqueue}
use libgomp_a.Ordered.Section.{
  join, sync, Reach, start, later, ordered_sync-exclusive, ordered_sync-progress,
}
use libgomp_a.Ordered.Turns.{IsTurn}

abbrev zeroed : List ℕ
zeroed = 0 ∷ 0 ∷ []

-- Thread 1 and thread 0 have registered, in this order, and thread 1 has been let in.
abbrev entered : (o : Ordered) × Reach 2 zeroed o × (ordered_sync (some 2) 1 o ≡ some o)
unfolding fresh_ordered ordered_first ordered_sync enqueue
entered = (
  _,
  later
      (later (later start (join 1 (omega arith) (omega arith)))
        (join 0 (omega arith) (omega arith)))
      (sync 1 (omega arith) refl),
  refl,
)

thread_1_inside : entered.0.owner ≡ 1
unfolding fresh_ordered ordered_first ordered_sync enqueue
thread_1_inside = refl

ordered_sync-exclusive_example : ◌≡◌ {A = ℕ} 1 1
ordered_sync-exclusive_example =
    ordered_sync-exclusive 2 (omega arith) (omega arith) 1 1 refl entered.1 (omega arith)
      (omega arith) entered.2 entered.2

ordered_sync-progress_example :
    (i : ℕ) × (i < 2)
    × ((o' : Ordered) × (ordered_sync (some 2) i entered.0 ≡ some o') × (o'.owner ≡ i))
unfolding fresh_ordered ordered_first ordered_sync enqueue
ordered_sync-progress_example =
    ordered_sync-progress 2 (omega arith) (omega arith) refl entered.1 (omega arith)

abbrev first_turn : Ordered
first_turn = record { team_ids = zeroed; num_used = 0; owner = 0; cur = 0; release = λ _. 0 }

abbrev turn_of_0 : IsTurn 2 first_turn 0 true
turn_of_0 = record { in_team = omega arith; tokens = λ i. refl; owner = refl }
