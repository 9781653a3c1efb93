-- ===== src/WorkShares/Safety.antt =====
-- What the chain of work shares promises.
use libgomp_a.Base.{ℕ, suc, ◌^◌, ◌<◌, ◌≡◌, ◌≢◌, refl, sym, ap, ◌∙◌, arith, ◌↔◌, ℕ_discrete, Option}
use mathlib.Core.Path.{subst}
use libgomp_a.WorkShares.{
  Pc, initialising, inside, Sharing, Step, start, try_lock, mark_lock, see, create, publish,
  complete, release, initial, Reach, here, later,
}
use libgomp_a.Pool.Shares.{Reach-IsShared}
use libgomp_a.Pool.Shares
use libgomp_a.WorkShares.Rounds.{is_making, Inv, StatusAt, settled, going_on}
use libgomp_a.WorkShares.Ask.{Inv-start, Inv-try, Inv-mark, Inv-see}
use libgomp_a.WorkShares.Make.{initialising_phase, Inv-publish}
use libgomp_a.WorkShares.Create.{Inv-create}
use libgomp_a.WorkShares.End.{top_hi, apart}
use libgomp_a.WorkShares.Turns.{Inv-complete}
use libgomp_a.WorkShares.Release.{Inv-release}

module _ (n : ℕ) (some_thread : 0 < n) (small : n < 2 ^ 32) (next_free : ℕ → Option ℕ) where
  Inv-initial : Inv n (initial next_free)
  Inv-initial = record {
    seq = λ _. 0;
    lo = 0;
    top = 0;
    hi = 0;
    low = omega arith;
    status = λ j lj. (omega arith, omega arith, refl);
    links = λ r a b. absurd (omega arith);
    phase = settled refl refl (λ j lj. refl);
    counts = λ r a b. absurd (omega arith);
    turn = going_on 0 some_thread (omega arith) (λ j lj. refl);
    shared = Reach-IsShared next_free _ Shares.here;
  }

  Inv-step : (s t : Sharing) → Inv n s → Step n s t → Inv n t
  Inv-step s _ inv (start i lt e) = Inv-start n s inv i lt e
  Inv-step s _ inv (try_lock i lt e) = Inv-try n s inv i lt e
  Inv-step s _ inv (mark_lock i lt e) = Inv-mark n s inv i lt e
  Inv-step s _ inv (see i ws lt e at) = Inv-see n s inv i lt ws e at
  Inv-step s _ inv (create i base lt e away) = Inv-create n s inv i lt base e away
  Inv-step s _ inv (publish i lt e) = Inv-publish n s inv i lt e
  Inv-step s _ inv (complete i lt e) = Inv-complete n s inv i lt small e
  Inv-step s _ inv (release i last lt e at) = Inv-release n s inv i lt last e at

  Inv-Reach : {s : Sharing} → Reach n next_free s → Inv n s
  Inv-Reach here = Inv-initial
  Inv-Reach (later reach step) = Inv-step _ _ (Inv-Reach reach) step

  place :
      (s : Sharing) (inv : Inv n s) (k : Pc) (j : ℕ)
      → j < n
      → (s.threads j).pc ≡ k
      → StatusAt inv.seq inv.lo inv.top k (s.threads j)
  place s inv k j lj e =
      subst (λ k. StatusAt inv.seq inv.lo inv.top k (s.threads j)) e (inv.status j lj)

  -- Two threads that are inside work-sharing constructs have the same work share exactly if they
  -- are at the same construct, counted from the start of the team, for a team of one to 2 ^ 32 - 1
  -- threads that run at any speed, take work shares from the cache and give them back, and a
  -- gomp_malloc that never returns blocks that the team already has.
  pub work_share_start-same_iff :
      (s : Sharing) (i j : ℕ)
      → Reach n next_free s
      → i < n
      → j < n
      → (s.threads i).pc ≡ inside
      → (s.threads j).pc ≡ inside
      → ((s.threads i).work_share ≡ (s.threads j).work_share)
        ↔ ((s.threads i).round ≡ (s.threads j).round)
  work_share_start-same_iff s i j reach li lj at_i at_j =
      let inv = Inv-Reach reach in
      let (p, lo_p, p_top, (r, w, _)) = place s inv inside i li at_i in
      let (q, lo_q, q_top, (r', w', _)) = place s inv inside j lj at_j in
      let room = top_hi n s inv i li inv.phase in
      (
        (λ same. elim (ℕ_discrete p q) [
          | yes e ↦ r ∙ ap suc e ∙ sym r'
          | no ne ↦ absurd (
              apart n s inv i li (suc p) (suc q) (omega arith) (omega arith) (omega arith)
                (omega arith) (λ z. ne (omega arith)) (sym w ∙ same ∙ w'))
        ]),
        (λ same. w ∙ ap inv.seq (sym r ∙ same ∙ r') ∙ sym w'),
      )

  -- A thread that has been told that it is the first at a construct, and has not published the work
  -- share yet, is alone with it: every other thread that is inside a construct is at an earlier one
  -- and has another work share, and no other thread has been told the same.
  pub work_share_start-first :
      (s : Sharing) (i j : ℕ)
      → Reach n next_free s
      → i < n
      → j < n
      → j ≢ i
      → (s.threads i).pc ≡ initialising
      → ((s.threads j).pc ≢ initialising)
        × ((s.threads j).pc ≡ inside
            → ((s.threads j).round < (s.threads i).round)
              × ((s.threads j).work_share ≢ (s.threads i).work_share))
  work_share_start-first s i j reach li lj ne at_i =
      let inv = Inv-Reach reach in
      let (r, w, _) = place s inv initialising i li at_i in
      let (h, _, _, others) = initialising_phase n s inv i li at_i inv.phase in
      let low = inv.low in
      (
        (λ at_j. let z = sym (others j lj ne) ∙ ap is_making at_j in cc),
        (λ at_j.
            let (q, lo_q, q_top, (r', w', _)) = place s inv inside j lj at_j in
            (
              omega arith,
              (λ same.
                  apart n s inv i li (suc q) (suc inv.top) (omega arith) (omega arith) (omega arith)
                    (omega arith) (λ z. absurd (omega arith)) (sym w' ∙ same ∙ w)),
            )),
      )
