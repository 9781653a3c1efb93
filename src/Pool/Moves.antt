-- ===== src/Pool/Moves.antt =====
-- `alloc_work_share` and `free_work_share` move blocks between the lists of a team.
use libgomp_a.Base.{
  ℕ, suc, ◌-◌, ◌*◌, ◌<◌, ◌≡◌, ◌≢◌, refl, sym, ap, ◌∙◌, arith, Option, none, some, List, [], ◌∷◌,
  ◌++◌, All, ◌==◌, eq→==, ne→not_==, if◌then◌else◌, put, put_self, put_other, append_assoc,
  Distinct, Distinct-insert, Distinct-remove, All-insert, All-remove, All-append, All-left,
  All-right, Fresh,
}
use mathlib.Core.Path.{subst}
use libgomp_a.Pool.{Pool, alloc_work_share, free_work_share, take_free, new_chunk, link_chunk}
use libgomp_a.Pool.Link.{link_chunk-Chain, link_chunk_other}
use libgomp_a.Pool.Chains.{Chain, Chain-put, Distinct-range, Outside, Outside-Fresh, range}

-- The blocks are those of the list for allocation, of the free list, and the ones in use, each in
-- one place only, and `made` lists every block that the team has got from gomp_malloc.
pub record IsShared (p : Pool) (used made : List ℕ) : Type 0 where
  pub ready : List ℕ
  pub freed : List ℕ
  pub is_ready : Chain p.next_free p.list_alloc ready
  pub is_freed : Chain p.next_free p.list_free freed
  pub distinct : Distinct (ready ++ (freed ++ used))
  pub within : (b count : ℕ) → Outside b count made → Outside b count (ready ++ (freed ++ used))
  pub has_chunk : 0 < p.chunk

-- The blocks made once `alloc_work_share` has returned `p'`.
abbrev pub made_by : ℕ → Pool → Pool → List ℕ → List ℕ
made_by base p p' made = if p'.chunk == p.chunk then made else range base p'.chunk ++ made

abbrev pub IsTaken : ℕ → Pool → List ℕ → List ℕ → ℕ × Pool → Type 0
IsTaken base p used made r = Fresh r.0 used × IsShared r.1 (r.0 ∷ used) (made_by base p r.1 made)

-- A block from the front to the blocks in use, and back.
Distinct-into :
    (b : ℕ) (xs ys zs : List ℕ)
    → Distinct (b ∷ (xs ++ (ys ++ zs)))
    → Distinct (xs ++ (ys ++ b ∷ zs))
Distinct-into b xs ys zs d = subst Distinct (append_assoc xs ys (b ∷ zs)) (
    Distinct-insert b (xs ++ ys) zs (subst (λ l. Distinct (b ∷ l)) (sym (append_assoc xs ys zs)) d))

All-into :
    (P : ℕ → Type 0) (b : ℕ) (xs ys zs : List ℕ)
    → All P (b ∷ (xs ++ (ys ++ zs)))
    → All P (xs ++ (ys ++ b ∷ zs))
All-into P b xs ys zs (h, a) =
    subst (All P) (append_assoc xs ys (b ∷ zs))
      (All-insert P b (xs ++ ys) zs h (subst (All P) (sym (append_assoc xs ys zs)) a))

made_by_same :
    (base : ℕ) (p p' : Pool) (made : List ℕ) → p'.chunk ≡ p.chunk → made_by base p p' made ≡ made
made_by_same base p p' made e = rw (eq→== p'.chunk p.chunk e) refl

made_by_more :
    (base : ℕ) (p p' : Pool) (made : List ℕ)
    → p'.chunk ≢ p.chunk
    → made_by base p p' made ≡ range base p'.chunk ++ made
made_by_more base p p' made e = rw (ne→not_== p'.chunk p.chunk e) refl

-- The list for allocation is not empty.
take_ready :
    (base : ℕ) (p : Pool) (used made : List ℕ) (b : ℕ) (ready freed : List ℕ)
    → Chain p.next_free (p.next_free b) ready
    → Chain p.next_free p.list_free freed
    → Distinct (b ∷ (ready ++ (freed ++ used)))
    → ((c count : ℕ) → Outside c count made → Outside c count (b ∷ (ready ++ (freed ++ used))))
    → 0 < p.chunk
    → IsTaken base p used made (b, record p { list_alloc = p.next_free b })
take_ready base p used made b ready freed is_ready is_freed distinct within has_chunk = (
  All-right (λ c. b ≢ c) freed used (All-right (λ c. b ≢ c) ready (freed ++ used) distinct.0),
  record {
    ready = ready;
    freed = freed;
    is_ready = is_ready;
    is_freed = is_freed;
    distinct = Distinct-into b ready freed used distinct;
    within = λ c count o.
        All-into _ b ready freed used (within c count (subst (Outside c count) same o));
    has_chunk = has_chunk;
  },
)
  where
    same : made_by base p (record p { list_alloc = p.next_free b }) made ≡ made
    same = made_by_same base p (record p { list_alloc = p.next_free b }) made refl

-- It is empty, and the free list has a block `next` after its first, `ws`.
take_freed :
    (base : ℕ) (p : Pool) (used made : List ℕ) (ws next : ℕ) (freed : List ℕ)
    → p.list_free ≡ some ws
    → Chain p.next_free (p.next_free next) freed
    → Distinct (ws ∷ (next ∷ (freed ++ used)))
    → ((c count : ℕ) → Outside c count made → Outside c count (ws ∷ (next ∷ (freed ++ used))))
    → 0 < p.chunk
    → IsTaken base p used made (
      next,
      record p { next_free = put p.next_free ws none; list_alloc = put p.next_free ws none next },
    )
take_freed base p used made ws next freed first rest ((ne, fw), (fn, d)) within has_chunk = (
  All-right (λ c. next ≢ c) freed used fn,
  record {
    ready = freed;
    freed = ws ∷ [];
    is_ready =
        subst (λ h. Chain cut h freed) (sym (put_other p.next_free ws next none ne))
          (Chain-put p.next_free (p.next_free next) freed ws none
            (All-left (λ c. ws ≢ c) freed used fw) rest);
    is_freed = (first, put_self p.next_free ws none);
    distinct =
        Distinct-insert ws freed (next ∷ used)
          (All-insert (λ c. ws ≢ c) next freed used ne fw, Distinct-insert next freed used (fn, d));
    within = λ c count o.
        let (h, (h', a)) = within c count (subst (Outside c count) same o) in
        All-insert _ ws freed (next ∷ used) h (All-insert _ next freed used h' a);
    has_chunk = has_chunk;
  },
)
  where
    cut : ℕ → Option ℕ
    cut = put p.next_free ws none

    after : Pool
    after = record p { next_free = cut; list_alloc = cut next }

    same : made_by base p after made ≡ made
    same = made_by_same base p after made refl

-- Both lists give nothing: a chunk of twice as many blocks as the last.
take_new :
    (base : ℕ) (p : Pool) (used made freed : List ℕ)
    → Chain p.next_free p.list_free freed
    → Distinct (freed ++ used)
    → ((c count : ℕ) → Outside c count made → Outside c count (freed ++ used))
    → 0 < p.chunk
    → Outside base (p.chunk * 2) made
    → IsTaken base p used made (new_chunk base p)
unfolding new_chunk
take_new base p used made freed is_freed distinct within has_chunk away = (
  Outside-Fresh base count base used (omega arith) (omega arith) (All-right _ freed used old),
  record {
    ready = range (suc base) (suc k);
    freed = freed;
    is_ready =
        subst (λ j. Chain (link_chunk base count p.next_free) (some j) (range (suc base) (suc k)))
          (omega arith)
          (link_chunk-Chain base count p.next_free (suc base) k (omega arith) (omega arith));
    is_freed =
        link_chunk_other base count p.next_free p.list_free freed (omega arith)
          (All-left _ freed used old) is_freed;
    distinct = Distinct-into base (range (suc base) (suc k)) freed used (
        Distinct-range base count base (suc (suc k)) (freed ++ used) (omega arith) (omega arith) old
          distinct);
    within = λ c n o.
        All-into _ base (range (suc base) (suc k)) freed used
          (blocks c n (subst (Outside c n) more o));
    has_chunk = omega arith;
  },
)
  where
    count : ℕ
    count = p.chunk * 2

    k : ℕ
    k = p.chunk * 2 - 2

    old : Outside base count (freed ++ used)
    old = within base count away

    more : made_by base p (new_chunk base p).1 made ≡ range base (suc (suc k)) ++ made
    more =
        made_by_more base p (new_chunk base p).1 made (λ e. absurd (omega arith))
        ∙ ap (λ m. range base m ++ made) {y = suc (suc (p.chunk * 2 - 2))} (omega arith)

    blocks :
        (c n : ℕ)
        → Outside c n (range base (suc (suc k)) ++ made)
        → Outside c n (range base (suc (suc k)) ++ (freed ++ used))
    blocks c n o =
        All-append _ (range base (suc (suc k))) (freed ++ used)
          (All-left _ (range base (suc (suc k))) made o)
          (within c n (All-right _ (range base (suc (suc k))) made o))

-- `alloc_work_share` returns a block that is not in use, and every block stays in one place.
pub alloc_work_share-IsTaken :
    (base : ℕ) (p : Pool) (used made : List ℕ)
    → IsShared p used made
    → Outside base (p.chunk * 2) made
    → IsTaken base p used made (alloc_work_share base p)
unfolding alloc_work_share new_chunk
alloc_work_share-IsTaken base p used made shared away =
    by_lists shared.ready shared.freed shared.is_ready shared.is_freed shared.distinct shared.within
  where
    by_lists :
        (ready freed : List ℕ)
        → Chain p.next_free p.list_alloc ready
        → Chain p.next_free p.list_free freed
        → Distinct (ready ++ (freed ++ used))
        → ((c n : ℕ) → Outside c n made → Outside c n (ready ++ (freed ++ used)))
        → IsTaken base p used made (alloc_work_share base p)
    by_lists (b ∷ ready) freed (e, r) f d w =
        rw (alloc_work_share, e)
          (take_ready base p used made b ready freed r f d w shared.has_chunk)
    by_lists [] [] e f d w =
        rw (alloc_work_share, e, take_free, f)
          (take_new base p used made [] f d w shared.has_chunk away)
    by_lists [] (ws ∷ []) e (f, g) d w =
        rw (alloc_work_share, e, take_free, f, g)
          (take_new base p used made (ws ∷ []) (f, g) d w shared.has_chunk away)
    by_lists [] (ws ∷ next ∷ freed) e (f, (g, rest)) d w =
        rw (alloc_work_share, e, take_free, f, g)
          (take_freed base p used made ws next freed f rest d w shared.has_chunk)

append_nested : (xs ys zs us : List ℕ) → ((xs ++ ys) ++ zs) ++ us ≡ xs ++ (ys ++ (zs ++ us))
append_nested xs ys zs us = append_assoc (xs ++ ys) zs us ∙ append_assoc xs ys (zs ++ us)

Distinct-out :
    (b : ℕ) (xs ys zs us : List ℕ)
    → Distinct (xs ++ (ys ++ (zs ++ b ∷ us)))
    → Distinct (b ∷ (xs ++ (ys ++ (zs ++ us))))
Distinct-out b xs ys zs us d =
    subst (λ l. Distinct (b ∷ l)) (append_nested xs ys zs us)
      (Distinct-remove b ((xs ++ ys) ++ zs) us
        (subst Distinct (sym (append_nested xs ys zs (b ∷ us))) d))

All-out :
    (P : ℕ → Type 0) (b : ℕ) (xs ys zs us : List ℕ)
    → All P (xs ++ (ys ++ (zs ++ b ∷ us)))
    → All P (b ∷ (xs ++ (ys ++ (zs ++ us))))
All-out P b xs ys zs us a =
    subst (λ l. All P (b ∷ l)) (append_nested xs ys zs us)
      (All-remove P b ((xs ++ ys) ++ zs) us
        (subst (All P) (sym (append_nested xs ys zs (b ∷ us))) a))

-- `free_work_share` of a block in use puts it on the free list.
pub free_work_share-IsShared :
    (p : Pool) (before after made : List ℕ) (ws : ℕ)
    → IsShared p (before ++ ws ∷ after) made
    → IsShared (free_work_share ws p) (before ++ after) made
unfolding free_work_share
free_work_share-IsShared p before after made ws shared =
    let ready = shared.ready in
    let freed = shared.freed in
    let rest = freed ++ (before ++ after) in
    let (away, d) = Distinct-out ws ready freed before after shared.distinct in
    record {
      ready = ready;
      freed = ws ∷ freed;
      is_ready =
          Chain-put p.next_free p.list_alloc ready ws p.list_free
            (All-left (λ c. ws ≢ c) ready rest away) shared.is_ready;
      is_freed = (
        refl,
        subst (λ h. Chain (put p.next_free ws p.list_free) h freed)
            (sym (put_self p.next_free ws p.list_free))
            (Chain-put p.next_free p.list_free freed ws p.list_free
              (All-left (λ c. ws ≢ c) freed (before ++ after)
                (All-right (λ c. ws ≢ c) ready rest away))
              shared.is_freed),
      );
      distinct = Distinct-insert ws ready rest (away, d);
      within = λ c n o.
          let (h, a) = All-out _ ws ready freed before after (shared.within c n o) in
          All-insert _ ws ready rest h a;
      has_chunk = shared.has_chunk;
    }
