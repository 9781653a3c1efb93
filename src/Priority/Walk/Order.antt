-- ===== src/Priority/Walk/Order.antt =====
-- What `priority_list_verify` checks, said of each two entries of a list.
use libgomp_a.Base.{
  ℕ, ◌≡◌, ◌↔◌, refl, sym, ◌∙◌, arith, Bool, true, false, not, ◌&&◌, ◌||◌, Bool-cases, inl, inr,
  if◌then◌else◌, List, [], ◌∷◌, All,
}
use libgomp_a.Priority.{Tasks, TaskKind, waiting, is_waiting}
use libgomp_a.Priority.Children.{IsWaiting}
use libgomp_a.Priority.Walk.{is_tied, Seen, verify_turn}

-- `y` may come after `x`: no waiting task comes after one that is tied or runs asynchronously, and,
-- where dependences are checked, no waiting task that the parent depends on after one that it does not.
abbrev pub MayFollow : Tasks → Bool → ℕ → ℕ → Type 0
MayFollow t check_deps x y =
    (¬ ((is_tied (t.kind x) ≡ true) × (is_waiting (t.kind y) ≡ true)))
    × (¬ ((check_deps ≡ true) × IsWaiting t false x × IsWaiting t true y))

abbrev pub InOrder : Tasks → Bool → List ℕ → Type 0
InOrder t check_deps [] = Unit
InOrder t check_deps (x ∷ xs) = All (MayFollow t check_deps x) xs × InOrder t check_deps xs

-- The flags let `y` pass.
abbrev Allowed : Tasks → Bool → Seen → ℕ → Type 0
Allowed t check_deps seen y =
    (¬ ((seen.tied ≡ true) × (is_waiting (t.kind y) ≡ true)))
    × (¬ ((seen.plain ≡ true) × ((check_deps ≡ true) × IsWaiting t true y)))

-- The turns over a list of entries.
abbrev pub verify_entries : Tasks → Bool → Seen → List ℕ → Bool
verify_entries t check_deps seen [] = true
verify_entries t check_deps seen (x ∷ xs) =
    let (fatal, seen') = verify_turn t check_deps seen x in
    if fatal then false else verify_entries t check_deps seen' xs

absurd_test : ¬ (false ≡ true)
absurd_test h = cc

passes_iff :
    (k : TaskKind) (d t p c : Bool)
    → (((t && is_waiting k) || ((c && is_waiting k && not (is_tied k)) && d && p)) ≡ false) ↔ (
        (¬ ((t ≡ true) × (is_waiting k ≡ true)))
        × (¬ ((p ≡ true) × ((c ≡ true) × ((k ≡ waiting) × (d ≡ true))))))
passes_iff waiting true true p true = ground arith
passes_iff waiting true false true true = ground arith
passes_iff waiting true false false true = ground arith
passes_iff waiting false true p true = ground arith
passes_iff waiting false false p true = ground arith
passes_iff waiting d true p false = ground arith
passes_iff waiting d false p false = ground arith
passes_iff _ d true p true = ground arith
passes_iff _ d true p false = ground arith
passes_iff _ d false p true = ground arith
passes_iff _ d false p false = ground arith

not_or :
    (a b : Bool) {Q : Type 0}
    → (¬ (((a || b) ≡ true) × Q)) ↔ ((¬ ((a ≡ true) × Q)) × (¬ ((b ≡ true) × Q)))
not_or true b = (λ h. (h, λ q. h (refl, q.1)), λ h. h.0)
not_or false b = (λ h. ((λ q. cc), h), λ h. h.1)

plain_iff :
    (k : TaskKind) (d c : Bool)
    → (((c && is_waiting k && not (is_tied k)) && not d) ≡ true)
      ↔ ((c ≡ true) × (k ≡ waiting) × (d ≡ false))
plain_iff waiting true true = ground arith
plain_iff waiting false true = ground arith
plain_iff waiting d false = ground arith
plain_iff _ d true = ground arith
plain_iff _ d false = ground arith

passes-Allowed :
    (t : Tasks) (c : Bool) (seen : Seen) (x : ℕ)
    → ((verify_turn t c seen x).0 ≡ false) ↔ Allowed t c seen x
unfolding verify_turn
passes-Allowed t c seen x = passes_iff (t.kind x) (t.parent_depends_on x) seen.tied seen.plain c

seen-Allowed :
    (t : Tasks) (c : Bool) (seen : Seen) (x y : ℕ)
    → Allowed t c (verify_turn t c seen x).1 y ↔ (Allowed t c seen y × MayFollow t c x y)
unfolding verify_turn
seen-Allowed t c seen x y =
    let k = t.kind x in
    let d = t.parent_depends_on x in
    let after_tied = not_or seen.tied (is_tied k) {Q = is_waiting (t.kind y) ≡ true} in
    let after_plain =
      not_or seen.plain ((c && is_waiting k && not (is_tied k)) && not d)
        {Q = (c ≡ true) × IsWaiting t true y} in
    let own = plain_iff k d c in
    (
      λ (h, g).
          let (h1, h2) = after_tied.0 h in
          let (g1, g2) = after_plain.0 g in
          ((h1, g1), (h2, λ (on, (k', d'), awaited). g2 (own.1 (on, k', d'), (on, awaited)))),
      λ ((h1, g1), (h2, g2)). (
        after_tied.1 (h1, h2),
        after_plain.1 (
          g1,
          λ (plain, (on, awaited)). let (_, k', d') = own.0 plain in g2 (on, (k', d'), awaited),
        ),
      ),
    )

seen-All :
    (t : Tasks) (c : Bool) (seen : Seen) (x : ℕ) (xs : List ℕ)
    → All (Allowed t c (verify_turn t c seen x).1) xs
      ↔ (All (Allowed t c seen) xs × All (MayFollow t c x) xs)
seen-All t c seen x [] = (λ h. (tt, tt), λ h. tt)
seen-All t c seen x (y ∷ ys) =
    let here = seen-Allowed t c seen x y in
    let there = seen-All t c seen x ys in
    (
      λ (h, g). let (a, b) = here.0 h in let (rest, follow) = there.0 g in ((a, rest), (b, follow)),
      λ ((a, rest), (b, follow)). (here.1 (a, b), there.1 (rest, follow)),
    )

entries-InOrder :
    (t : Tasks) (c : Bool) (seen : Seen) (xs : List ℕ)
    → (verify_entries t c seen xs ≡ true) ↔ (All (Allowed t c seen) xs × InOrder t c xs)
entries-InOrder t c seen [] = (λ h. (tt, tt), λ h. refl)
entries-InOrder t c seen (x ∷ xs) =
    let here = passes-Allowed t c seen x in
    let both = seen-All t c seen x xs in
    let there = entries-InOrder t c (verify_turn t c seen x).1 xs in
    elim (Bool-cases (verify_turn t c seen x).0) [
      | inl e ↦
          rw e (λ h. absurd (absurd_test h), λ h. absurd (absurd_test (sym (here.1 h.0.0) ∙ e)))
      | inr e ↦ rw e (
        λ h.
            let (later, order) = there.0 h in
            let (allowed, follow) = both.0 later in ((here.0 e, allowed), (follow, order)),
        λ ((_, allowed), (follow, order)). there.1 (both.1 (allowed, follow), order),
      )
    ]

-- Entries pass from the start when they are in order.
pub start-InOrder :
    (t : Tasks) (c : Bool) (xs : List ℕ)
    → (verify_entries t c (record { tied = false; plain = false }) xs ≡ true) ↔ InOrder t c xs
start-InOrder t c xs =
    let iff = entries-InOrder t c (record { tied = false; plain = false }) xs in
    (λ h. (iff.0 h).1, λ h. iff.1 (all_allowed xs, h))
  where
    all_allowed : (ys : List ℕ) → All (Allowed t c (record { tied = false; plain = false })) ys
    all_allowed [] = tt
    all_allowed (y ∷ ys) =
        ((λ q. absurd (absurd_test q.0), λ q. absurd (absurd_test q.0)), all_allowed ys)
