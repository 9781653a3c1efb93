-- ===== src/Claim/Up.antt =====
-- A loop of `gomp_iter_dynamic_next` that counts up is fair: threads that race hold useful chunks.
use mathlib.Core.Path.{subst}
use libgomp_a.Base.{
  ◌≡◌, ◌≢◌, ◌⊎◌, refl, some, arith, Bool-cases, inl, inr, ℤ, pos, if◌then◌else◌, ltb_ℤ, ◌+ℤ◌, ◌-ℤ◌,
  ◌≤ℤ◌, ◌<ℤ◌, +ℤ_parts, -ℤ_parts, eq_of_parts, ◌∙◌, sym, ap,
}
use libgomp_a.Iter.{WorkShare, clip_chunk}
use libgomp_a.Claim.{dynamic_attempt}
use libgomp_a.Claim.Replay.{IsFair}
use libgomp_a.Claim.Pass.{attempt_none, attempt_some, clip_up, full_end}

-- A loop that counts up: the shorter of what is left and the chunk.
abbrev cut_up : ℤ → ℤ → ℤ
cut_up l c = if ltb_ℤ l c then l else c

cut_up_cases :
    (l c : ℤ) → (cut_up l c ≤ℤ l) × (cut_up l c ≤ℤ c) × ((cut_up l c ≡ c) ⊎ (cut_up l c ≡ l))
cut_up_cases l c = elim (Bool-cases (ltb_ℤ l c)) [
  | inl e ↦ rw e (omega arith, ground arith, inr refl)
  | inr e ↦ rw e (ground arith, omega arith, inl refl)
]

cut_up_moves : (l c : ℤ) → pos 0 <ℤ l → pos 0 <ℤ c → pos 0 <ℤ cut_up l c
cut_up_moves l c hl hc = elim (Bool-cases (ltb_ℤ l c)) [ inl e ↦ rw e hl | inr e ↦ rw e hc ]

-- A chunk cut before that still covers what is left is as good as the whole chunk.
cut_up_same : (l c d : ℤ) → c ≤ℤ d → (c ≡ d) ⊎ (l ≤ℤ c) → cut_up l c ≡ cut_up l d
cut_up_same l c d le (inl e) = rw e
cut_up_same l c d le (inr h) = ground arith

left_up : (a e : ℤ) → a ≤ℤ e → a ≢ e → pos 0 <ℤ e -ℤ a
left_up a e le ne = grind (arith, -ℤ_parts e a, eq_of_parts a e)

module _ (ws : WorkShare) (up : pos 0 <ℤ ws.incr) (chunk : pos 0 <ℤ ws.chunk_size) where
  abbrev pub BehindUp : ℤ → ℤ → Type 0
  BehindUp a b = (a ≤ℤ b) × (a ≤ℤ ws.end → b ≤ℤ ws.end)

  abbrev pub HoldsUp : ℤ → ℤ → Type 0
  HoldsUp a c = (pos 0 <ℤ c) × (c ≤ℤ ws.chunk_size) × ((c ≡ ws.chunk_size) ⊎ (ws.end -ℤ a ≤ℤ c))

  cut_up_holds :
      (a c k : ℤ) → HoldsUp a c → pos 0 <ℤ k → k ≤ℤ c → (k ≡ c) ⊎ (k ≡ ws.end -ℤ a) → HoldsUp a k
  cut_up_holds a c k h pk le (inl e) = subst (HoldsUp a) (sym e) h
  cut_up_holds a c k h pk le (inr e) = (pk, omega (arith, h.1), inr (rw e (omega arith)))

  later_up : (a b c : ℤ) → HoldsUp a c → a ≤ℤ b → HoldsUp b c
  later_up a b c (p, le, inl e) h = (p, le, inl e)
  later_up a b c (p, le, inr q) h =
      (p, le, inr (omega (arith, -ℤ_parts ws.end a, -ℤ_parts ws.end b)))

  starts_up :
      (a c n k : ℤ)
      → a ≤ℤ ws.end
      → HoldsUp a c
      → dynamic_attempt ws a c ≡ some (n, k)
      → (a ≢ ws.end) × (n ≡ full_end ws a) × BehindUp a n × HoldsUp a k
  starts_up a c n k le holds h =
      let (ne, kc, na) = attempt_some ws a c n k h in
      let l = ws.end -ℤ a in
      let ks : k ≡ cut_up l c = kc ∙ clip_up ws.incr c l up in
      let full : cut_up l c ≡ clip_chunk ws.incr ws.chunk_size l =
        cut_up_same l c ws.chunk_size holds.1 holds.2 ∙ sym (clip_up ws.incr ws.chunk_size l up) in
      let (under, within, which) =
        subst (λ x. (x ≤ℤ l) × (x ≤ℤ c) × ((x ≡ c) ⊎ (x ≡ l))) (sym ks) (cut_up_cases l c) in
      let moves : pos 0 <ℤ k =
        subst (λ x. pos 0 <ℤ x) (sym ks) (cut_up_moves l c (left_up a ws.end le ne) holds.0) in
      let sum = +ℤ_parts a k in
      let left = -ℤ_parts ws.end a in
      (
        ne,
        na ∙ ap (λ x. a +ℤ x) (ks ∙ full),
        rw na (omega arith, λ _. omega arith),
        cut_up_holds a c k holds moves within which,
      )

  pub IsFair-up :
      ws.next ≤ℤ ws.end → IsFair (dynamic_attempt ws) ws.chunk_size ws.end ws.next (full_end ws)
  IsFair-up le = record {
    Behind = BehindUp;
    Holds = HoldsUp;
    behind_refl = λ a. (omega arith, λ h. h);
    behind_trans = λ a b c h k. (omega (arith, h.0, k.0), λ e. k.1 (h.1 e));
    holds_full = λ a _. (chunk, omega arith, inl refl);
    holds_later = λ a b c h k. later_up a b c h k.0;
    end_last = λ a h. eq_of_parts a ws.end (let p = h.1 (omega arith) in omega (arith, h.0));
    stops = attempt_none ws;
    starts = λ a c n k b hold h. starts_up a c n k (b.1 le) hold h;
  }
