-- ===== src/Claim/Down.antt =====
-- A loop of `gomp_iter_dynamic_next` that counts down is fair: threads that race hold useful chunks.
use mathlib.Core.Path.{subst}
use libgomp_a.Base.{
  ◌≡◌, ◌≢◌, ◌⊎◌, refl, some, arith, Bool-cases, inl, inr, ℤ, pos, if◌then◌else◌, ltb_ℤ, ◌+ℤ◌, ◌-ℤ◌,
  ◌≤ℤ◌, ◌<ℤ◌, +ℤ_parts, -ℤ_parts, eq_of_parts, ◌∙◌, sym, ap,
}
use libgomp_a.Iter.{WorkShare, clip_chunk}
use libgomp_a.Claim.{dynamic_attempt}
use libgomp_a.Claim.Replay.{IsFair}
use libgomp_a.Claim.Pass.{attempt_none, attempt_some, clip_down, full_end}

-- A loop that counts down: the shorter of what is left and the chunk.
abbrev cut_down : ℤ → ℤ → ℤ
cut_down l c = if ltb_ℤ c l then l else c

cut_down_cases :
    (l c : ℤ)
    → (l ≤ℤ cut_down l c) × (c ≤ℤ cut_down l c) × ((cut_down l c ≡ c) ⊎ (cut_down l c ≡ l))
cut_down_cases l c = elim (Bool-cases (ltb_ℤ c l)) [
  | inl e ↦ rw e (omega arith, ground arith, inr refl)
  | inr e ↦ rw e (ground arith, omega arith, inl refl)
]

cut_down_moves : (l c : ℤ) → l <ℤ pos 0 → c <ℤ pos 0 → cut_down l c <ℤ pos 0
cut_down_moves l c hl hc = elim (Bool-cases (ltb_ℤ c l)) [ inl e ↦ rw e hl | inr e ↦ rw e hc ]

-- A chunk cut before that still covers what is left is as good as the whole chunk.
cut_down_same : (l c d : ℤ) → d ≤ℤ c → (c ≡ d) ⊎ (c ≤ℤ l) → cut_down l c ≡ cut_down l d
cut_down_same l c d le (inl e) = rw e
cut_down_same l c d le (inr h) = ground arith

left_down : (a e : ℤ) → e ≤ℤ a → a ≢ e → e -ℤ a <ℤ pos 0
left_down a e le ne = grind (arith, -ℤ_parts e a, eq_of_parts a e)

module _ (ws : WorkShare) (down : ws.incr <ℤ pos 0) (chunk : ws.chunk_size <ℤ pos 0) where
  abbrev pub BehindDown : ℤ → ℤ → Type 0
  BehindDown a b = (b ≤ℤ a) × (ws.end ≤ℤ a → ws.end ≤ℤ b)

  abbrev pub HoldsDown : ℤ → ℤ → Type 0
  HoldsDown a c = (c <ℤ pos 0) × (ws.chunk_size ≤ℤ c) × ((c ≡ ws.chunk_size) ⊎ (c ≤ℤ ws.end -ℤ a))

  cut_down_holds :
      (a c k : ℤ)
      → HoldsDown a c
      → k <ℤ pos 0
      → c ≤ℤ k
      → (k ≡ c) ⊎ (k ≡ ws.end -ℤ a)
      → HoldsDown a k
  cut_down_holds a c k h pk le (inl e) = subst (HoldsDown a) (sym e) h
  cut_down_holds a c k h pk le (inr e) = (pk, omega (arith, h.1), inr (rw e (omega arith)))

  later_down : (a b c : ℤ) → HoldsDown a c → b ≤ℤ a → HoldsDown b c
  later_down a b c (p, le, inl e) h = (p, le, inl e)
  later_down a b c (p, le, inr q) h =
      (p, le, inr (omega (arith, -ℤ_parts ws.end a, -ℤ_parts ws.end b)))

  starts_down :
      (a c n k : ℤ)
      → ws.end ≤ℤ a
      → HoldsDown a c
      → dynamic_attempt ws a c ≡ some (n, k)
      → (a ≢ ws.end) × (n ≡ full_end ws a) × BehindDown a n × HoldsDown a k
  starts_down a c n k le holds h =
      let (ne, kc, na) = attempt_some ws a c n k h in
      let l = ws.end -ℤ a in
      let ks : k ≡ cut_down l c = kc ∙ clip_down ws.incr c l down in
      let full : cut_down l c ≡ clip_chunk ws.incr ws.chunk_size l =
        cut_down_same l c ws.chunk_size holds.1 holds.2
        ∙ sym (clip_down ws.incr ws.chunk_size l down) in
      let (under, within, which) =
        subst (λ x. (l ≤ℤ x) × (c ≤ℤ x) × ((x ≡ c) ⊎ (x ≡ l))) (sym ks) (cut_down_cases l c) in
      let moves : k <ℤ pos 0 =
        subst (λ x. x <ℤ pos 0) (sym ks) (cut_down_moves l c (left_down a ws.end le ne) holds.0) in
      let sum = +ℤ_parts a k in
      let left = -ℤ_parts ws.end a in
      (
        ne,
        na ∙ ap (λ x. a +ℤ x) (ks ∙ full),
        rw na (omega arith, λ _. omega arith),
        cut_down_holds a c k holds moves within which,
      )

  pub IsFair-down :
      ws.end ≤ℤ ws.next → IsFair (dynamic_attempt ws) ws.chunk_size ws.end ws.next (full_end ws)
  IsFair-down le = record {
    Behind = BehindDown;
    Holds = HoldsDown;
    behind_refl = λ a. (omega arith, λ h. h);
    behind_trans = λ a b c h k. (omega (arith, h.0, k.0), λ e. k.1 (h.1 e));
    holds_full = λ a _. (chunk, omega arith, inl refl);
    holds_later = λ a b c h k. later_down a b c h k.0;
    end_last = λ a h. eq_of_parts a ws.end (let p = h.1 (omega arith) in omega (arith, h.0));
    stops = attempt_none ws;
    starts = λ a c n k b hold h. starts_down a c n k (b.1 le) hold h;
  }
