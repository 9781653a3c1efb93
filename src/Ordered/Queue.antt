-- ===== src/Ordered/Queue.antt =====
-- `gomp_ordered_first` and `gomp_ordered_sync` on the circular queue, against a plain queue of
-- the threads that wait for the ordered section, in the order of their iteration blocks.
use libgomp_a.Base.{
  ℕ, suc, ◌+◌, ◌-◌, ◌^◌, ◌≤◌, ◌<◌, ◌≡◌, ◌≢◌, refl, ap, ◌∙◌, none, some, List, [], ◌∷◌, ◌++◌, arith,
  Bool, true, false, if◌then◌else◌, ◌==◌, u32, uint_max, eq→==, ne→not_==, length, length-append,
  set, length-set,
}
use libgomp_a.Ordered.{Ordered, wrap_index, ordered_first, ordered_sync}
use libgomp_a.Ordered.Ring.{entries, entries-enqueue}

-- The posts that a thread has not waited for: one for the head of the queue, until it is let in.
abbrev pub token : List ℕ → Bool → ℕ → ℕ
token [] inside i = 0
token (h ∷ q) true i = 0
token (h ∷ q) false i = if h == i then 1 else 0

abbrev pub owner_of : List ℕ → Bool → ℕ
owner_of [] inside = uint_max
owner_of (h ∷ q) true = h
owner_of (h ∷ q) false = uint_max

-- The work share stands for the queue `q`; `inside` says that its head has been let in.
pub record Holds (threads : ℕ) (o : Ordered) (q : List ℕ) (inside : Bool) : Type 0 where
  pub size : length o.team_ids ≡ threads
  pub cur_in : o.cur < threads
  pub used : o.num_used ≡ length q
  pub room : length q ≤ threads
  pub ids : entries o.team_ids threads o.cur (length q) ≡ q
  pub tokens : (i : ℕ) → o.release i ≡ token q inside i
  pub owner : o.owner ≡ owner_of q inside

-- Whether the head is inside after a thread has joined the queue.
abbrev pub joined : List ℕ → Bool → Bool
joined [] inside = false
joined (h ∷ q) inside = inside

token_append :
    (x : ℕ) (q : List ℕ) (me : ℕ) (inside : Bool) (i : ℕ)
    → token (x ∷ q) inside i ≡ token (x ∷ (q ++ me ∷ [])) inside i
token_append x q me true i = refl
token_append x q me false i = refl

owner_append :
    (x : ℕ) (q : List ℕ) (me : ℕ) (inside : Bool)
    → owner_of (x ∷ q) inside ≡ owner_of (x ∷ (q ++ me ∷ [])) inside
owner_append x q me true = refl
owner_append x q me false = refl

pub head_eq : (x y : ℕ) (xs ys : List ℕ) → x ∷ xs ≡ y ∷ ys → x ≡ y
head_eq x y xs ys e = cc

pub tail_eq : (x y : ℕ) (xs ys : List ℕ) → x ∷ xs ≡ y ∷ ys → xs ≡ ys
tail_eq x y xs ys e = cc

module _ (threads : ℕ) (two : 2 ≤ threads) (few : threads < 2 ^ 31) where
  team_test : (threads == 1) ≡ false
  team_test = ne→not_== threads 1 (omega arith)

  enqueued_ids :
      {o : Ordered} {q : List ℕ} {inside : Bool} (me : ℕ)
      → Holds threads o q inside
      → length q < threads
      → entries
          (set o.team_ids (wrap_index threads (u32 (o.cur + o.num_used))) me)
          threads
          o.cur
          (length (q ++ me ∷ []))
        ≡ q ++ me ∷ []
  enqueued_ids {o} {q} me h lt =
      ap
        (λ n.
          entries (set o.team_ids (wrap_index threads (u32 (o.cur + o.num_used))) me) threads o.cur
            n)
        {y = suc (length q)} (omega (arith, length-append q (me ∷ [])))
      ∙ ap
          (λ n.
            entries (set o.team_ids (wrap_index threads (u32 (o.cur + n))) me) threads o.cur
              (suc (length q)))
          h.used
      ∙ entries-enqueue threads few o.team_ids me o.cur (length q) h.cur_in lt h.size
      ∙ ap (λ l. l ++ me ∷ []) h.ids

  -- `gomp_ordered_first` puts the thread at the end of the queue, and wakes it if it is alone there.
  pub first-Holds :
      {o : Ordered} {q : List ℕ} {inside : Bool} (me : ℕ)
      → Holds threads o q inside
      → length q < threads
      → Holds threads (ordered_first (some threads) me o) (q ++ me ∷ []) (joined q inside)
  unfolding ordered_first
  first-Holds {o} {q = []} {inside} me h lt =
      rw (team_test, eq→== o.num_used 0 h.used)
        (record {
          size = length-set o.team_ids (wrap_index threads (u32 (o.cur + o.num_used))) me ∙ h.size;
          cur_in = h.cur_in;
          used = omega (arith, h.used);
          room = omega arith;
          ids = enqueued_ids me h lt;
          tokens = λ i. ground (arith, h.tokens i);
          owner = h.owner;
        })
  first-Holds {o} {q = x ∷ q} {inside} me h lt =
      rw (team_test, ne→not_== o.num_used 0 (omega (arith, h.used)))
        (record {
          size = length-set o.team_ids (wrap_index threads (u32 (o.cur + o.num_used))) me ∙ h.size;
          cur_in = h.cur_in;
          used = omega (arith, h.used, length-append q (me ∷ []));
          room = omega (arith, length-append q (me ∷ []));
          ids = enqueued_ids me h lt;
          tokens = λ i. h.tokens i ∙ token_append x q me inside i;
          owner = h.owner ∙ owner_append x q me inside;
        })

  -- A thread at the head of the queue passes `gomp_ordered_sync`, and is inside from then on.
  pub sync-head :
      {o : Ordered} {q : List ℕ} {inside : Bool} (me : ℕ)
      → me < threads
      → Holds threads o (me ∷ q) inside
      → (o' : Ordered) × (ordered_sync (some threads) me o ≡ some o')
        × Holds threads o' (me ∷ q) true
  unfolding ordered_sync
  sync-head {o} {q} {inside = true} me lt h = (o, rw (team_test, eq→== o.owner me h.owner), h)
  sync-head {o} {q} {inside = false} me lt h = (
    record o { owner = me; release = λ j. if me == j then o.release j - 1 else o.release j },
    rw (
      team_test,
      ne→not_== o.owner me (omega (arith, h.owner)),
      ne→not_== (o.release me) 0 (ground (arith, h.tokens me)),
    ),
    record {
      size = h.size;
      cur_in = h.cur_in;
      used = h.used;
      room = h.room;
      ids = h.ids;
      tokens = λ i. ground (arith, h.tokens i);
      owner = refl;
    },
  )

  -- A thread that is not at the head of the queue blocks in `gomp_ordered_sync`.
  pub sync-blocks :
      {o : Ordered} {q : List ℕ} {inside : Bool} (me : ℕ)
      → me < threads
      → Holds threads o q inside
      → ((rest : List ℕ) → q ≢ me ∷ rest)
      → ordered_sync (some threads) me o ≡ none
  unfolding ordered_sync
  sync-blocks {o} {q = []} {inside} me lt h ne = rw (
    team_test,
    ne→not_== o.owner me (omega (arith, h.owner)),
    eq→== (o.release me) 0 (h.tokens me),
  )
  sync-blocks {o} {q = x ∷ q} {inside = true} me lt h ne =
      let other : x ≢ me = λ e. ne q (ap (λ y. y ∷ q) e) in
      rw (
        team_test,
        ne→not_== o.owner me (omega (arith, h.owner)),
        eq→== (o.release me) 0 (h.tokens me),
      )
  sync-blocks {o} {q = x ∷ q} {inside = false} me lt h ne =
      let other : x ≢ me = λ e. ne q (ap (λ y. y ∷ q) e) in
      rw (
        team_test,
        ne→not_== o.owner me (omega (arith, h.owner)),
        eq→== (o.release me) 0 (ground (arith, h.tokens me)),
      )
