-- ===== src/Claim/Replay.antt =====
-- Whatever the order of the threads' accesses, the blocks handed out are those of sequential calls.
use libgomp_a.Base.{
  ℕ, ◌≡◌, ◌≢◌, refl, none, some, List, [], ◌∷◌, ℤ, ◌==◌, sym, ◌∙◌, Bool-cases, inl, inr,
}
use mathlib.Core.Path.{subst}
use libgomp_a.Claim.{
  Attempt, Pc, outside, turned_away, pass, swap, Race, update, Step, load, refuse, plan, win, lose,
  Reach, here, later,
}

-- What a loop's attempts must satisfy: an order in which `next` only moves on, and the chunks that
-- a thread may still hold when `next` is at a point. `fresh` is an attempt's end at the full chunk.
pub record IsFair (attempt : Attempt) (chunk_size end start : ℤ) (fresh : ℤ → ℤ) : Type 1 where
  pub Behind : ℤ → ℤ → Type 0
  pub Holds : ℤ → ℤ → Type 0
  pub behind_refl : (a : ℤ) → Behind a a
  pub behind_trans : (a b c : ℤ) → Behind a b → Behind b c → Behind a c
  pub holds_full : (a : ℤ) → Behind start a → Holds a chunk_size
  pub holds_later : (a b c : ℤ) → Holds a c → Behind a b → Holds b c
  pub end_last : (a : ℤ) → Behind end a → a ≡ end
  pub stops : (a c : ℤ) → attempt a c ≡ none → a ≡ end
  pub starts :
      (a c n k : ℤ)
      → Behind start a
      → Holds a c
      → attempt a c ≡ some (n, k)
      → (a ≢ end) × (n ≡ fresh a) × Behind a n × Holds a k

-- The log of blocks is a run of attempts at the full chunk, one after the other.
abbrev pub Run : (ℤ → ℤ) → ℤ → ℤ → List (ℤ × ℤ) → ℤ → Type 0
Run fresh end start [] next = next ≡ start
Run fresh end start (b ∷ log) next =
    Run fresh end start log b.0 × (b.0 ≢ end) × (b.1 ≡ fresh b.0) × (next ≡ b.1)

module _ {attempt : Attempt} {chunk_size end start : ℤ} {fresh : ℤ → ℤ}
    (fair : IsFair attempt chunk_size end start fresh) where
  open fair use {
    Behind, Holds, behind_refl, behind_trans, holds_full, holds_later, end_last, stops, starts,
  }

  -- What the locals of a thread say about `next`.
  abbrev Local : ℤ → Pc → Type 0
  Local next outside = Unit
  Local next turned_away = next ≡ end
  Local next (pass a c) = Behind start a × Behind a next × Holds a c
  Local next (swap a c n) =
      Behind start a × Behind a next × Holds a c × (a ≢ end) × (n ≡ fresh a) × Behind a n

  record Inv (s : Race) : Type 0 where
    run : Run fresh end start s.handed s.next
    begun : Behind start s.next
    locals : (i : ℕ) → Local s.next (s.pc i)

  -- A thread's facts stay true when `next` moves on from where it is not the end.
  Local-later : (a b : ℤ) (p : Pc) → Behind a b → a ≢ end → Local a p → Local b p
  Local-later a b outside h ne l = tt
  Local-later a b turned_away h ne l = absurd (ne l)
  Local-later a b (pass x c) h ne l = (l.0, behind_trans x a b l.1 h, l.2)
  Local-later a b (swap x c n) h ne l = (l.0, behind_trans x a b l.1 h, l.2, l.3, l.4, l.5)

  Local-update :
      (next : ℤ) (pc : ℕ → Pc) (i : ℕ) (p : Pc)
      → ((j : ℕ) → Local next (pc j))
      → Local next p
      → (j : ℕ) → Local next (update pc i p j)
  Local-update next pc i p all l j = elim (Bool-cases (i == j)) [
    | inl same ↦ rw same l
    | inr other ↦ rw other (all j)
  ]

  own : {s : Race} (inv : Inv s) (i : ℕ) {p : Pc} → s.pc i ≡ p → Local s.next p
  own {s} inv i e = subst (Local s.next) e (inv.locals i)

  Step-Inv : {s t : Race} → Step attempt chunk_size s t → Inv s → Inv t
  Step-Inv {s} (load i e) inv = record {
    run = inv.run;
    begun = inv.begun;
    locals =
        Local-update s.next s.pc i (pass s.next chunk_size) inv.locals
          (inv.begun, behind_refl s.next, holds_full s.next inv.begun);
  }
  Step-Inv {s} (refuse i {start = a} {chunk = c} e none_left) inv = record {
    run = inv.run;
    begun = inv.begun;
    locals =
        let l = own inv i e in
        Local-update s.next s.pc i turned_away inv.locals
          (end_last s.next (subst (λ x. Behind x s.next) (stops a c none_left) l.1));
  }
  Step-Inv {s} (plan i {start = a} {chunk = c} {nend = n} {cut = k} e more) inv = record {
    run = inv.run;
    begun = inv.begun;
    locals =
        let l = own inv i e in
        let f = starts a c n k l.0 l.2 more in
        Local-update s.next s.pc i (swap a k n) inv.locals (l.0, l.1, f.3, f.0, f.1, f.2);
  }
  Step-Inv {s} (win i {start = a} {chunk = c} {nend = n} e same) inv =
      let l = own inv i e in
      let ne : s.next ≢ end = λ q. l.3 (sym same ∙ q) in
      let on : Behind s.next n = subst (λ x. Behind x n) (sym same) l.5 in
      record {
        run = (subst (λ x. Run fresh end start s.handed x) same inv.run, l.3, l.4, refl);
        begun = behind_trans start s.next n inv.begun on;
        locals =
            Local-update n s.pc i outside (λ j. Local-later s.next n (s.pc j) on ne (inv.locals j))
              tt;
      }
  Step-Inv {s} (lose i {start = a} {chunk = c} {nend = n} e other) inv = record {
    run = inv.run;
    begun = inv.begun;
    locals =
        let l = own inv i e in
        Local-update s.next s.pc i (pass s.next c) inv.locals
          (inv.begun, behind_refl s.next, holds_later a s.next c l.2 l.1);
  }

  Reach-Inv : {s : Race} → Reach attempt chunk_size start s → Inv s
  Reach-Inv here = record { run = refl; begun = behind_refl start; locals = λ _. tt }
  Reach-Inv (later r st) = Step-Inv st (Reach-Inv r)

  pub Reach-Run :
      {s : Race} → Reach attempt chunk_size start s → Run fresh end start s.handed s.next
  Reach-Run r = (Reach-Inv r).run

  pub turned_away-end :
      {s : Race} → Reach attempt chunk_size start s → (i : ℕ) → s.pc i ≡ turned_away → s.next ≡ end
  turned_away-end r i e = own (Reach-Inv r) i e
