-- ===== src/Priority/Walk/Round.antt =====
-- The loops end after one turn for each entry, with the answer that the entries have.
use libgomp_a.Base.{
  ℕ, zero, suc, ◌≤◌, ◌≡◌, ◌↔◌, refl, sym, ap, ◌∙◌, arith, ◌==◌, eq→==, ne→not_==, Bool, true, false,
  ◌||◌, ◌&&◌, Bool-cases, inl, inr, if◌then◌else◌, some, List, [], ◌∷◌, ◌++◌, length, All, Fresh,
}
use libgomp_a.Priority.{Nodes, PriorityList, Tasks}
use libgomp_a.Priority.Ring.{Seg}
use libgomp_a.Priority.Entries.{IsList}
use libgomp_a.Priority.Children.{IsWaiting, IsRunning, IsQueue}
use libgomp_a.Priority.Walk.Order.{verify_entries, InOrder, start-InOrder}
use libgomp_a.Priority.Walk.{
  task_in_loop, task_in_list_p, Seen, verify_turn, verify_loop, priority_list_verify,
}

abbrev pub mem : ℕ → List ℕ → Bool
mem task [] = false
mem task (x ∷ xs) = if x == task then true else mem task xs

task_in_loop-mem :
    (m : Nodes) (first task p : ℕ) (ps : List ℕ) (fuel : ℕ)
    → Seg m p ps first
    → Fresh first ps
    → length (p ∷ ps) ≤ fuel
    → task_in_loop fuel m first task p ≡ some (mem task (p ∷ ps))
unfolding task_in_loop
task_in_loop-mem m first task p ps zero s f le = absurd (omega arith)
task_in_loop-mem m first task p [] (suc k) (e, _) f le = elim (Bool-cases (p == task)) [
  | inl h ↦ rw (task_in_loop, h) refl
  | inr h ↦ rw (task_in_loop, h, eq→== (m.next p) first e) refl
]
task_in_loop-mem m first task p (y ∷ ys) (suc k) ((e, _), s) (ne, f) le =
    let rest = task_in_loop-mem m first task y ys k s f (omega arith) in
    let on = ne→not_== (m.next p) first (λ q. ne (sym q ∙ e)) in
    elim (Bool-cases (p == task)) [
      | inl h ↦ rw (task_in_loop, h) refl
      | inr h ↦ rw (task_in_loop, h, on) (ap (task_in_loop k m first task) e ∙ rest)
    ]

-- With as much fuel as the list has entries, `priority_queue_task_in_list_p` ends and tells whether
-- the task is one of them.
pub task_in_list_p-mem :
    (m : Nodes) (list : PriorityList) (b : ℕ) (bs : List ℕ) (task fuel : ℕ)
    → IsList m list (b ∷ bs)
    → length (b ∷ bs) ≤ fuel
    → task_in_list_p fuel m list task ≡ some (mem task (b ∷ bs))
unfolding task_in_list_p
task_in_list_p-mem m list b bs task fuel (e, ((f, _), s)) le =
    rw (task_in_list_p, e) (task_in_loop-mem m b task b bs fuel s f le)

verify_loop-entries :
    (t : Tasks) (m : Nodes) (check_deps : Bool) (first p : ℕ) (ps : List ℕ) (seen : Seen) (fuel : ℕ)
    → Seg m p ps first
    → Fresh first ps
    → length (p ∷ ps) ≤ fuel
    → verify_loop fuel t m first check_deps seen p
      ≡ some (verify_entries t check_deps seen (p ∷ ps))
unfolding verify_loop
verify_loop-entries t m d first p ps seen zero s f le = absurd (omega arith)
verify_loop-entries t m d first p [] seen (suc k) (e, _) f le =
    elim (Bool-cases (verify_turn t d seen p).0) [
      | inl h ↦ rw (verify_loop, h) refl
      | inr h ↦ rw (verify_loop, h, eq→== (m.next p) first e) refl
    ]
verify_loop-entries t m d first p (y ∷ ys) seen (suc k) ((e, _), s) (ne, f) le =
    let seen' = (verify_turn t d seen p).1 in
    let rest = verify_loop-entries t m d first y ys seen' k s f (omega arith) in
    let on = ne→not_== (m.next p) first (λ q. ne (sym q ∙ e)) in
    elim (Bool-cases (verify_turn t d seen p).0) [
      | inl h ↦ rw (verify_loop, h) refl
      | inr h ↦ rw (verify_loop, h, on) (ap (verify_loop k t m first d seen') e ∙ rest)
    ]

-- A turn at an entry of each part of a queue of children.
turn_running :
    (t : Tasks) (seen : Seen) (x : ℕ) → IsRunning t x → (verify_turn t true seen x).0 ≡ false
unfolding verify_turn
turn_running t seen x e = rw (verify_turn, e) (both_false seen.tied)
  where
    both_false : (b : Bool) → ((b && false) || false) ≡ false
    both_false true = refl
    both_false false = refl

turn_plain :
    (t : Tasks) (plain : Bool) (x : ℕ)
    → IsWaiting t false x
    → verify_turn t true (record { tied = false; plain = plain }) x
      ≡ (false, record { tied = false; plain = plain || true })
unfolding verify_turn
turn_plain t plain x (k, d) = rw (verify_turn, k, d) refl

turn_awaited :
    (t : Tasks) (x : ℕ)
    → IsWaiting t true x
    → verify_turn t true (record { tied = false; plain = false }) x
      ≡ (false, record { tied = false; plain = false })
unfolding verify_turn
turn_awaited t x (k, d) = rw (verify_turn, k, d) refl

entries_running :
    (t : Tasks) (seen : Seen) (ts : List ℕ)
    → All (IsRunning t) ts
    → verify_entries t true seen ts ≡ true
entries_running t seen [] a = refl
entries_running t seen (x ∷ xs) (h, a) =
    rw (verify_entries, turn_running t seen x h)
      (entries_running t (verify_turn t true seen x).1 xs a)

entries_plain :
    (t : Tasks) (plain : Bool) (ps ts : List ℕ)
    → All (IsWaiting t false) ps
    → All (IsRunning t) ts
    → verify_entries t true (record { tied = false; plain = plain }) (ps ++ ts) ≡ true
entries_plain t plain [] ts a b = entries_running t _ ts b
entries_plain t plain (x ∷ xs) ts (h, a) b =
    rw (verify_entries, turn_plain t plain x h) (entries_plain t (plain || true) xs ts a b)

entries_awaited :
    (t : Tasks) (ds ps ts : List ℕ)
    → All (IsWaiting t true) ds
    → All (IsWaiting t false) ps
    → All (IsRunning t) ts
    → verify_entries t true (record { tied = false; plain = false }) (ds ++ (ps ++ ts)) ≡ true
entries_awaited t [] ps ts a b c = entries_plain t false ps ts b c
entries_awaited t (x ∷ xs) ps ts (h, a) b c =
    rw (verify_entries, turn_awaited t x h) (entries_awaited t xs ps ts a b c)

-- A queue of children in the order that the insertions and moves keep is in the order that is
-- checked.
pub IsQueue-InOrder :
    (t : Tasks) (m : Nodes) (list : PriorityList) (ds ps ts : List ℕ)
    → IsQueue t m list ds ps ts
    → InOrder t true (ds ++ (ps ++ ts))
IsQueue-InOrder t m list ds ps ts q =
    (start-InOrder t true (ds ++ (ps ++ ts))).0
      (entries_awaited t ds ps ts q.awaited q.plain q.running)

-- With as much fuel as the list has entries, `priority_list_verify` ends, and it accepts the list if
-- and only if no waiting task comes after one that is tied or runs asynchronously and, where it
-- checks dependences, no waiting task that the parent depends on after one that it does not.
pub priority_list_verify-InOrder :
    (t : Tasks) (m : Nodes) (list : PriorityList) (check_deps : Bool) (b : ℕ) (bs : List ℕ)
    (fuel : ℕ)
    → IsList m list (b ∷ bs)
    → length (b ∷ bs) ≤ fuel
    → (answer : Bool) × (priority_list_verify fuel t m list check_deps ≡ some answer)
      × ((answer ≡ true) ↔ InOrder t check_deps (b ∷ bs))
unfolding priority_list_verify
priority_list_verify-InOrder t m list check_deps b bs fuel (e, ((f, _), s)) le =
    let start : Seen = record { tied = false; plain = false } in
    (
      verify_entries t check_deps start (b ∷ bs),
      rw (priority_list_verify, e) (verify_loop-entries t m check_deps b b bs start fuel s f le),
      start-InOrder t check_deps (b ∷ bs),
    )
