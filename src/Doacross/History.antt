-- ===== src/Doacross/History.antt =====
-- Doacross posts and waits over a whole loop: a wait reads the last post to its entry.
use libgomp_a.Base.{
  ℕ, ◌<◌, ◌≡◌, ◌↔◌, refl, sym, ap, ◌∙◌, arith, List, [], ◌∷◌, Option, none, some, true, ◌==◌,
  if◌then◌else◌, length, get_or, get_or-set_self, get_or-set_ne, length-set, ulong_max, All, inl,
  inr, eq→==, ne→not_==, choice-some, Option-cases,
}
use mathlib.Core.Path.{subst}
use mathlib.Core.Bool.{true≢false}
use native.Mathlib.Decide.{ℕ_discrete}
use libgomp_a.Iter.{WorkShare, Schedule}
use libgomp_a.Ordered.{team_size}
use libgomp_a.Doacross.{
  Doacross, doacross_init, doacross_post, doacross_wait, post_entry, posted_row, wait_entry,
  row_reached, flatten, zeros, num_entries, static_entry,
}
use libgomp_a.Doacross.Lex.{LexLe, InRange}
use libgomp_a.Doacross.Packing.{AreLong}
use libgomp_a.Doacross.Post.{
  doacross_init-Packs, row_reached-LexLe, row_reached-zeros, doacross_init-rows, empty_rows-length,
  empty_rows-get,
}

-- All but the rows.
abbrev fixed : Doacross → Doacross
fixed d = record d { rows = [] }

-- A wait for `xs` may go on once `xs` itself or a later iteration was posted.
abbrev pub Reached : List ℕ → Option (List ℕ) → Type 0
Reached xs none = ⊥
Reached xs (some ys) = LexLe xs ys

-- What a post of a loop over `counts` may be: an iteration of the loop, but not number 2 ^ 64 - 1
-- of the packing.
abbrev pub Postable : List ℕ → Doacross → ℕ × List ℕ → Type 0
Postable counts d p = InRange counts p.1 × (flatten p.1 d.shift_counts < ulong_max)

module _ (sched : Schedule) where
  -- The posts of a loop, the newest first, each with the thread that makes it.
  abbrev pub posts : List (ℕ × List ℕ) → Doacross → Doacross
  posts [] d = d
  posts ((me, ys) ∷ older) d = doacross_post sched me ys (posts older d)

  -- The last iteration that was posted to entry `e`.
  abbrev pub latest : ℕ → List (ℕ × List ℕ) → Doacross → Option (List ℕ)
  latest e [] d = none
  latest e ((me, ys) ∷ older) d =
      let before = latest e older d in
      if post_entry sched me (get_or ys 0 0) d == e then some ys else before

  abbrev row_of : Doacross → List ℕ → Option (List ℕ) → List ℕ
  row_of d unposted none = unposted
  row_of d unposted (some ys) = posted_row ys d

  posts-fixed : (ps : List (ℕ × List ℕ)) (d : Doacross) → fixed (posts ps d) ≡ fixed d
  unfolding doacross_post
  posts-fixed [] d = refl
  posts-fixed ((me, ys) ∷ older) d = posts-fixed older d

  posts-length : (ps : List (ℕ × List ℕ)) (d : Doacross) → length (posts ps d).rows ≡ length d.rows
  unfolding doacross_post
  posts-length [] d = refl
  posts-length ((me, ys) ∷ older) d = length-set (posts older d).rows _ _ ∙ posts-length older d

  post_entry-fixed :
      (me first : ℕ) (d : Doacross)
      → post_entry sched me first d ≡ post_entry sched me first (fixed d)
  unfolding post_entry
  post_entry-fixed me first d = refl

  posted_row-fixed : (ys : List ℕ) (d : Doacross) → posted_row ys d ≡ posted_row ys (fixed d)
  unfolding posted_row
  posted_row-fixed ys d = refl

  -- Where the posts of a loop leave the entries, the widths and the packing as they were.
  unmoved {ℓ} :
      {A : Type ℓ} (f : Doacross → A)
      → ((d : Doacross) → f d ≡ f (fixed d))
      → (ps : List (ℕ × List ℕ)) (d : Doacross) → f (posts ps d) ≡ f d
  unmoved f e ps d = e (posts ps d) ∙ ap f (posts-fixed ps d) ∙ sym (e d)

  -- An entry holds the last post to it.
  posts-row :
      (ps : List (ℕ × List ℕ)) (d : Doacross) (e : ℕ)
      → e < length d.rows
      → get_or (posts ps d).rows e [] ≡ row_of d (get_or d.rows e []) (latest e ps d)
  unfolding doacross_post
  posts-row [] d e h = refl
  posts-row ((me, ys) ∷ older) d e h =
      let first = get_or ys 0 0 in
      let entry = unmoved (post_entry sched me first) (post_entry-fixed me first) older d in
      let row = unmoved (posted_row ys) (posted_row-fixed ys) older d in
      let len = posts-length older d in
      rw (entry, row)
        (elim (ℕ_discrete (post_entry sched me first d) e) [
          | yes same ↦
              rw (eq→== _ _ same, same) (get_or-set_self (posts older d).rows e _ [] (omega arith))
          | no differ ↦
              rw (ne→not_== _ _ differ)
                (get_or-set_ne (posts older d).rows _ e _ [] differ ∙ posts-row older d e h)
        ])

  latest-Postable :
      (counts : List ℕ) (e : ℕ) (ps : List (ℕ × List ℕ)) (d : Doacross) (ys : List ℕ)
      → All (Postable counts d) ps
      → latest e ps d ≡ some ys
      → InRange counts ys × (flatten ys d.shift_counts < ulong_max)
  latest-Postable counts e [] d ys all q = cc
  latest-Postable counts e ((me, zs) ∷ older) d ys all q =
      elim (choice-some (post_entry sched me (get_or zs 0 0) d == e) zs (latest e older d) ys q) [
        | inl same ↦ subst (λ us. Postable counts d (me, us)) same all.0
        | inr before ↦ latest-Postable counts e older d ys all.1 before
      ]

wait_entry-fixed :
    (ws : WorkShare) (threads first : ℕ) (d : Doacross)
    → wait_entry ws threads first d ≡ wait_entry ws threads first (fixed d)
unfolding wait_entry static_entry
wait_entry-fixed ws threads first d = refl

row_reached-fixed :
    (xs row : List ℕ) (d : Doacross) → row_reached xs d row ≡ row_reached xs (fixed d) row
unfolding row_reached
row_reached-fixed xs row d = refl

-- A set-up work share: every entry holds zeros, one per element.
rows-init :
    (team : Option ℕ) (sched : Schedule) (counts : List ℕ) (chunk_size : ℕ) (d : Doacross) (e : ℕ)
    → doacross_init team sched counts chunk_size ≡ some d
    → e < length d.rows
    → get_or d.rows e [] ≡ zeros (if d.flattened then 1 else length counts)
rows-init team sched counts chunk_size d e made h =
    let rows = doacross_init-rows team sched counts chunk_size d made in
    let width = if d.flattened then 1 else length counts in
    let entries = num_entries sched (team_size team) (get_or counts 0 0) chunk_size in
    let len = ap length rows ∙ empty_rows-length entries width in
    ap (λ rs. get_or rs e []) rows ∙ empty_rows-get entries width e (omega arith)

-- A doacross loop in a team, set up for counts below 2 ^ 63: after any posts of iterations of the
-- loop whose packed number is below 2 ^ 64 - 1, a wait for an iteration of the loop, which reads an
-- entry of the array, goes on exactly if the last post to that entry was for this iteration or
-- a lexicographically later one; it never goes on where nothing was posted to the entry.
pub doacross_wait-latest_post :
    (team : Option ℕ) (ws : WorkShare) (n : ℕ) (ns : List ℕ) (chunk_size : ℕ) (d : Doacross)
    (threads : ℕ) (ps : List (ℕ × List ℕ)) (xs : List ℕ)
    → AreLong (n ∷ ns)
    → doacross_init team ws.sched (n ∷ ns) chunk_size ≡ some d
    → All (Postable (n ∷ ns) d) ps
    → InRange (n ∷ ns) xs
    → wait_entry ws threads (get_or xs 0 0) d < length d.rows
    → (doacross_wait ws threads xs (posts ws.sched ps d) ≡ true)
      ↔ Reached xs (latest ws.sched (wait_entry ws threads (get_or xs 0 0) d) ps d)
unfolding doacross_wait
doacross_wait-latest_post team ws n ns chunk_size d threads ps xs long made posted hx inside =
    let e = wait_entry ws threads (get_or xs 0 0) d in
    let entry =
      unmoved ws.sched (wait_entry ws threads (get_or xs 0 0))
        (wait_entry-fixed ws threads (get_or xs 0 0)) ps d in
    let row = posts-row ws.sched ps d e inside in
    let test =
      unmoved ws.sched
        (λ d'. row_reached xs d' (row_of ws.sched d (get_or d.rows e []) (latest ws.sched e ps d)))
        (row_reached-fixed xs (row_of ws.sched d (get_or d.rows e []) (latest ws.sched e ps d))) ps
        d in
    rw (entry, row, test)
      (elim (Option-cases (latest ws.sched e ps d)) [
        | inl nothing ↦
            let empty = rows-init team ws.sched (n ∷ ns) chunk_size d e made inside in
            let shut = ap (row_reached xs d) empty ∙ row_reached-zeros n ns xs d long hx in
            rw nothing (λ h. true≢false (sym h ∙ shut), λ h. absurd h)
        | inr (ys, last) ↦
            let (hy, small) = latest-Postable ws.sched (n ∷ ns) e ps d ys posted last in
            rw last (
              row_reached-LexLe (n ∷ ns) xs ys d long hx hy
                (doacross_init-Packs team ws.sched (n ∷ ns) chunk_size d long made) small)
      ])
