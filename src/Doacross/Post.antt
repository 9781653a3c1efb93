-- ===== src/Doacross/Post.antt =====
-- What a wait sees of the posts: `GOMP_doacross_post` and `GOMP_doacross_wait` together.
use libgomp_a.Base.{
  ℕ, zero, suc, ◌+◌, ◌≤◌, ◌<◌, ◌≡◌, ◌&&◌, >>=-some, guard-some, ◌↔◌, inl, inr, refl, sym, ap, ◌∙◌,
  arith, List, [], ◌∷◌, Option, some, true, false, Bool-cases, leb, ◌==◌, if◌then◌else◌, word, map,
  length, get_or, lt→ltb, ltb→lt, leb→le, ulong_max,
}
use libgomp_a.Iter.Blocks.{word-eq}
use mathlib.Core.Option.{some-injective}
use libgomp_a.Iter.{Schedule}
use libgomp_a.Ordered.{alone, team_size}
use libgomp_a.Doacross.{
  Doacross, doacross_init, posted_row, row_reached, elements_reached, zeros, empty_rows,
  num_entries, keep_quotient, is_static, flatten, shifts, new_doacross, count_bits,
}
use libgomp_a.Doacross.Lex.{LexLe, InRange, Fits, key-LexLe, total}
use libgomp_a.Doacross.Packing.{AreLong, flatten-key, count_bits-Fits}

-- One element per counter: the loop over the elements compares the counters in order.
elements_reached-LexLe :
    (ns xs ys : List ℕ)
    → AreLong ns
    → InRange ns xs
    → InRange ns ys
    → (elements_reached xs (map (λ y. word (y + 1)) ys) ≡ true) ↔ LexLe xs ys
unfolding elements_reached
elements_reached-LexLe [] [] ys long hx hy = (λ _. tt, λ _. refl)
elements_reached-LexLe [] (x ∷ xs) ys long hx hy = absurd hx
elements_reached-LexLe (n ∷ ns) [] ys long hx hy = absurd hx
elements_reached-LexLe (n ∷ ns) (x ∷ xs) [] long hx hy = absurd hy
elements_reached-LexLe (n ∷ ns) (x ∷ xs) (y ∷ ys) long hx hy =
    let ih = elements_reached-LexLe ns xs ys long.1 hx.1 hy.1 in
    let sx = word-eq (x + 1) (omega arith) in
    let sy = word-eq (y + 1) (omega arith) in rw (sx, sy) (ground arith)

-- What the set-up guarantees of a work share that packs its counters.
abbrev pub Packs : List ℕ → Doacross → Type 0
Packs counts d =
    (bs : List ℕ) × (d.shift_counts ≡ (shifts bs).0)
    × (total bs ≤ 64)
    × ((xs : List ℕ) → InRange counts xs → Fits bs xs)

new_doacross-fields :
    (sched : Schedule) (entries : ℕ) (counts : List ℕ) (chunk_size : ℕ) (bs : List ℕ) (num : ℕ)
    → ((new_doacross sched entries counts chunk_size bs num).flattened ≡ leb num 64)
      × ((new_doacross sched entries counts chunk_size bs num).shift_counts
          ≡ (if leb num 64 then (shifts bs).0 else []))
      × ((new_doacross sched entries counts chunk_size bs num).rows
          ≡ empty_rows entries (if leb num 64 then 1 else length counts))
unfolding new_doacross keep_quotient
new_doacross-fields sched entries counts chunk_size bs num =
    elim (Bool-cases (is_static sched && (chunk_size == 0))) [
      | inl kept ↦ rw kept (refl, refl, refl)
      | inr e ↦ rw e (refl, refl, refl)
    ]

-- How a work share that was set up came about.
pub doacross_init-made :
    (team : Option ℕ) (sched : Schedule) (counts : List ℕ) (chunk_size : ℕ) (d : Doacross)
    → doacross_init team sched counts chunk_size ≡ some d
    → (r : List ℕ × ℕ) × (count_bits counts 0 ≡ some r)
      × (new_doacross sched
            (num_entries sched (team_size team) (get_or counts 0 0) chunk_size)
            counts
            chunk_size
            r.0
            r.1
          ≡ d)
unfolding doacross_init
doacross_init-made team sched counts chunk_size d e =
    let (r, counted, made) = >>=-some (count_bits counts 0) _ d (guard-some (alone team) _ d e).1 in
    (r, counted, some-injective _ _ made)

pub doacross_init-Packs :
    (team : Option ℕ) (sched : Schedule) (counts : List ℕ) (chunk_size : ℕ) (d : Doacross)
    → AreLong counts
    → doacross_init team sched counts chunk_size ≡ some d
    → d.flattened ≡ true
    → Packs counts d
doacross_init-Packs team sched counts chunk_size d long e packed =
    let (r, counted, same) = doacross_init-made team sched counts chunk_size d e in
    let entries = num_entries sched (team_size team) (get_or counts 0 0) chunk_size in
    let (flat, shift, _) = new_doacross-fields sched entries counts chunk_size r.0 r.1 in
    let wide : leb r.1 64 ≡ true = sym flat ∙ ap (λ d'. d'.flattened) same ∙ packed in
    let le = leb→le r.1 64 wide in
    let (sum, fits) = count_bits-Fits counts 0 r long counted le in
    let shift' : d.shift_counts ≡ (shifts r.0).0 =
      sym (ap (λ d'. d'.shift_counts) same)
      ∙ shift
      ∙ ap (λ c. if c then (shifts r.0).0 else []) wide in
    (r.0, shift', omega arith, fits)

-- A row that was posted for `ys` lets a wait for `xs` go on exactly if `xs` does not come later.
pub row_reached-LexLe :
    (counts xs ys : List ℕ) (d : Doacross)
    → AreLong counts
    → InRange counts xs
    → InRange counts ys
    → (d.flattened ≡ true → Packs counts d)
    → flatten ys d.shift_counts < ulong_max
    → (row_reached xs d (posted_row ys d) ≡ true) ↔ LexLe xs ys
unfolding row_reached posted_row
row_reached-LexLe counts xs ys d long hx hy packs small = elim (Bool-cases d.flattened) [
  | inl packed ↦
      let (bs, shift, le, fits) = packs packed in
      let x' = ap (flatten xs) shift ∙ flatten-key bs xs le (fits xs hx) in
      let y' = ap (flatten ys) shift ∙ flatten-key bs ys le (fits ys hy) in
      let (to, from) = key-LexLe bs xs ys 0 (fits xs hx) (fits ys hy) in
      rw packed (λ h. to (omega (arith, ltb→lt _ _ h)), λ h. lt→ltb _ _ (omega (arith, from h)))
  | inr wide ↦ rw wide (elements_reached-LexLe counts xs ys long hx hy)
]

-- A row that nobody has posted lets nobody go on.
pub row_reached-zeros :
    (n : ℕ) (ns xs : List ℕ) (d : Doacross)
    → AreLong (n ∷ ns)
    → InRange (n ∷ ns) xs
    → row_reached xs d (zeros (if d.flattened then 1 else suc (length ns))) ≡ false
unfolding row_reached zeros elements_reached
row_reached-zeros n ns [] d long h = absurd h
row_reached-zeros n ns (x ∷ xs) d long h = elim (Bool-cases d.flattened) [
  | inl packed ↦ rw packed (ground arith)
  | inr wide ↦ rw wide (ground (arith, long.0, h.0))
]

pub empty_rows-length : (n width : ℕ) → length (empty_rows n width) ≡ n
unfolding empty_rows
empty_rows-length zero width = refl
empty_rows-length (suc n) width = ap suc (empty_rows-length n width)

pub empty_rows-get : (n width e : ℕ) → e < n → get_or (empty_rows n width) e [] ≡ zeros width
unfolding empty_rows
empty_rows-get zero width e h = absurd (omega arith)
empty_rows-get (suc n) width zero h = refl
empty_rows-get (suc n) width (suc e) h = empty_rows-get n width e (omega arith)

-- A set-up work share: every entry holds zeros, one per element.
pub doacross_init-rows :
    (team : Option ℕ) (sched : Schedule) (counts : List ℕ) (chunk_size : ℕ) (d : Doacross)
    → doacross_init team sched counts chunk_size ≡ some d
    → d.rows
      ≡ empty_rows
          (num_entries sched (team_size team) (get_or counts 0 0) chunk_size)
          (if d.flattened then 1 else length counts)
doacross_init-rows team sched counts chunk_size d e =
    let (r, counted, same) = doacross_init-made team sched counts chunk_size d e in
    let entries = num_entries sched (team_size team) (get_or counts 0 0) chunk_size in
    let (flat, _, rows) = new_doacross-fields sched entries counts chunk_size r.0 r.1 in
    rw (sym same, flat) rows
