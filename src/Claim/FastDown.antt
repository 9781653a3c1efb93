-- ===== src/Claim/FastDown.antt =====
-- The fast path of `gomp_iter_dynamic_next` for a loop that counts down: under the bound that
-- `gomp_loop_init` tests, `ws->next` does not overflow, and the blocks are those of the locked function.
use mathlib.Core.Path.{subst}
use libgomp_a.Base.{
  ℕ, suc, ◌+◌, ◌*◌, ◌^◌, ◌≤◌, ◌<◌, ◌≡◌, ◌⊎◌, ap, sym, ◌∙◌, none, some, arith, true, false,
  Bool-cases, inl, inr, ℤ, pos, negsuc, pos_part, neg_part, if◌then◌else◌, ltb_ℤ, leb_ℤ, ◌+ℤ◌, ◌-ℤ◌,
  ◌≤ℤ◌, ◌<ℤ◌, +ℤ_parts, -ℤ_parts, eq_of_parts, long_max, <ℤ_ne,
}
use libgomp_a.Iter.{WorkShare}
use libgomp_a.Claim.{
  fetch_add, fetch_block, Fetches, Fetch, granted, refused, Fetched, begun, then_call,
}
use libgomp_a.Claim.FastPath.{fetch_add-exact}
use libgomp_a.Claim.Pass.{full_end, clip_down}
use libgomp_a.Claim.Dynamic.{Replays, locked_full}

module _ (ws : WorkShare) (threads c : ℕ) (down : ws.incr <ℤ pos 0)
    (chunk : ws.chunk_size ≡ negsuc c) (narrow : suc c < 2 ^ 31) (ahead : ws.end ≤ℤ ws.next)
    (begins : ws.next ≤ℤ pos long_max)
    (room : neg_part ws.end + (threads + 1) * suc c < long_max + pos_part ws.end) where
  -- `ws->next`, or the end once it is past that.
  abbrev pub reached_down : ℤ → ℤ
  reached_down x = if ltb_ℤ (x) ws.end then ws.end else x

  record Inv (s : Fetches) : Type 0 where
    total : s.active + s.finished ≡ threads
    low : s.next ≤ℤ ws.next
    high :
        pos_part ws.end + neg_part s.next
        ≤ pos_part s.next + neg_part ws.end + (s.finished + 1) * suc c
    log : Replays ws s.handed (record ws { next = reached_down s.next })

  steps : (f : ℕ) → f < threads → (f + 2) * suc c ≤ (threads + 1) * suc c
  steps f h = grind arith

  added : {s : Fetches} → Inv s → 0 < s.active → fetch_add s.next ws.chunk_size ≡ s.next +ℤ negsuc c
  added {s} inv h =
      let sum = +ℤ_parts s.next (negsuc c) in
      let bound = steps s.finished (omega (arith, inv.total)) in
      rw chunk (
        fetch_add-exact s.next (negsuc c) (omega arith) (omega arith) (omega arith) (omega arith)
          (omega arith) (omega arith))

  direction : ltb_ℤ (pos 0) ws.incr ≡ false
  direction = ground arith

  not_there :
      {x : ℤ} {b : ℤ × ℤ}
      → fetch_block ws x ≡ some b
      → (ws.end <ℤ x) × (b ≡ (x, reached_down (x +ℤ ws.chunk_size)))
  unfolding fetch_block
  not_there {x} {b} h =
      let q = direction in
      elim (Bool-cases (leb_ℤ x ws.end)) [
        | inl e ↦ ground (arith, e)
        | inr e ↦ (ground (arith, e), ground (arith, e))
      ]

  is_there : (x : ℤ) → fetch_block ws x ≡ none → x ≤ℤ ws.end
  unfolding fetch_block
  is_there x h =
      let q = direction in
      elim (Bool-cases (leb_ℤ x ws.end)) [ inl e ↦ ground (arith, e) | inr e ↦ ground (arith, e) ]

  reached-before : (x : ℤ) → ws.end <ℤ x → reached_down x ≡ x
  reached-before x h = ground arith

  reached-past : (x : ℤ) → x ≤ℤ ws.end → reached_down x ≡ ws.end
  reached-past x h = elim (Bool-cases (ltb_ℤ (x) ws.end)) [
    | inl e ↦ rw e
    | inr e ↦ rw e (eq_of_parts x ws.end (ground (arith, e)))
  ]

  full-reached : (x : ℤ) → ws.end <ℤ x → reached_down (x +ℤ ws.chunk_size) ≡ full_end ws x
  full-reached x h =
      let sum = +ℤ_parts x ws.chunk_size in
      let left = -ℤ_parts ws.end x in
      let rest = +ℤ_parts x (ws.end -ℤ x) in
      rw (clip_down ws.incr ws.chunk_size (ws.end -ℤ x) down)
        (elim (Bool-cases (ltb_ℤ ws.chunk_size (ws.end -ℤ x))) [
          | inl e ↦ rw e (
              reached-past (x +ℤ ws.chunk_size) (ground (arith, e))
              ∙ eq_of_parts ws.end (x +ℤ (ws.end -ℤ x)) (omega arith))
          | inr e ↦ rw e (elim (Bool-cases (ltb_ℤ (x +ℤ ws.chunk_size) ws.end)) [
            | inl p ↦ ground (arith, e, p)
            | inr p ↦ rw p
          ])
        ])

  Fetch-Inv : {s t : Fetches} → Fetch ws s t → Inv s → Inv t
  Fetch-Inv {s} (granted {b} some_active e) inv =
      let sum = +ℤ_parts s.next (negsuc c) in
      let next = added inv some_active in
      let (before, block) = not_there e in
      record {
        total = inv.total;
        low = rw next (omega arith);
        high = rw next (omega arith);
        log = (
          record ws { next = s.next },
          subst (λ x. Replays ws s.handed (record ws { next = x })) (reached-before s.next before)
              inv.log,
          rw (block, next, ← chunk)
              (locked_full ws s.next (reached_down (s.next +ℤ ws.chunk_size))
                (λ q. <ℤ_ne ws.end s.next before (sym q)) (full-reached s.next before)),
        );
      }
  Fetch-Inv {s} (refused some_active e) inv =
      let sum = +ℤ_parts s.next (negsuc c) in
      let next = added inv some_active in
      let past = is_there s.next e in
      record {
        total = omega (arith, inv.total);
        low = rw next (omega arith);
        high = rw next (omega arith);
        log =
            subst (λ x. Replays ws s.handed (record ws { next = x }))
              (reached-past s.next past
                ∙ sym (reached-past (fetch_add s.next ws.chunk_size) (rw next (omega arith))))
              inv.log;
      }

  Fetched-Inv : {s : Fetches} → Fetched ws threads s → Inv s
  Fetched-Inv begun = record {
    total = omega arith;
    low = omega arith;
    high = omega arith;
    log = ap (λ x. record ws { next = x }) (reached_start (Bool-cases (ltb_ℤ (ws.next) ws.end)));
  }
    where
      reached_start :
          (ltb_ℤ (ws.next) ws.end ≡ true) ⊎ (ltb_ℤ (ws.next) ws.end ≡ false)
          → reached_down ws.next ≡ ws.next
      reached_start (inl e) = ground (arith, e)
      reached_start (inr e) = rw e
  Fetched-Inv (then_call r st) = Fetch-Inv st (Fetched-Inv r)

  -- The log is that of the locked function, and `ws->next` has stayed a `long`.
  pub fetched-Replays :
      (s : Fetches)
      → Fetched ws threads s
      → Replays ws s.handed (record ws { next = reached_down s.next })
        × (negsuc long_max ≤ℤ s.next)
        × (s.next ≤ℤ pos long_max)
  fetched-Replays s r =
      let inv = Fetched-Inv r in
      let bound : (s.finished + 1) * suc c ≤ (threads + 1) * suc c =
        share s.finished threads (omega (arith, inv.total)) in
      (inv.log, omega arith, omega arith)
    where
      share : (f t : ℕ) → f ≤ t → (f + 1) * suc c ≤ (t + 1) * suc c
      share f t h = grind arith
