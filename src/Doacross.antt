-- ===== src/Doacross.antt =====
-- Doacross loops: ordered.c from `gomp_doacross_init` to `GOMP_doacross_wait`, with
-- `struct gomp_doacross_work_share` (libgomp.h). Counts are iteration numbers, never negative, so
-- they are numbers below 2 ^ 63. The array has one row per entry: one element that holds a packed
-- iteration, or `ncounts` elements; an element 0 means that nothing has been posted.
pub mod Packing
pub mod Lex
pub mod Post
pub mod History
pub mod Sink
use Prim.Native.Nat.{bit_or}
use libgomp_a.Base.{
  ℕ, zero, suc, ◌+◌, ◌-◌, ◌*◌, ◌/◌, ◌%◌, ◌^◌, Option, none, some, List, [], ◌∷◌, ltb, leb, ◌==◌,
  ◌>>=◌, Bool, true, false, ◌&&◌, if◌then◌else◌, word, sub_word, to_word, get_or, set, length, map,
}
use libgomp_a.Iter.{WorkShare, Schedule, static, dynamic, guided, auto, runtime}
use libgomp_a.Ordered.{alone, team_size}

-- `struct gomp_doacross_work_share`: `rows` is `array`, without the rows' addresses, and `chunk_or_q`
-- the union of `chunk_size` and `q`.
pub record Doacross : Type 0 where
  pub chunk_or_q : ℕ
  pub ncounts : ℕ
  pub flattened : Bool
  pub shift_counts : List ℕ
  pub boundary : ℕ
  pub t : ℕ
  pub rows : List (List ℕ)

-- `__builtin_clzl` on the lowest `k` bits.
unfoldable pub leading_zeros : ℕ → ℕ → ℕ
leading_zeros zero w = 0
leading_zeros (suc k) w = let rest = leading_zeros k w in if ltb w (2 ^ k) then suc rest else 0

-- `this_bits`
unfoldable pub this_bits : ℕ → ℕ
unfolding leading_zeros
this_bits count = if count == 1 then 1 else 64 - leading_zeros 64 (sub_word count 1)

-- One count of the loop over `bits`: the bits recorded for it (0 where none are) and `num_bits`.
unfoldable pub bits_step : ℕ → ℕ → ℕ × ℕ
unfolding this_bits
bits_step num_bits count =
    if leb num_bits 64
    then (if leb (num_bits + this_bits count) 64
        then (this_bits count, num_bits + this_bits count)
        else (0, 65))
    else (0, num_bits)

-- The loop over the counts; `none` where a count is 0 and the function returns.
unfoldable pub count_bits : List ℕ → ℕ → Option (List ℕ × ℕ)
unfolding bits_step
count_bits [] num_bits = some ([], num_bits)
count_bits (count ∷ counts) num_bits =
    let (bits, num_bits') = bits_step num_bits count in
    let rest = count_bits counts num_bits' in
    if count == 0 then none else rest >>= λ r. some (bits ∷ r.0, r.1)

-- The loop that fills `shift_counts` from the last count to the first, and `shift_count` after it.
unfoldable pub shifts : List ℕ → List ℕ × ℕ
shifts [] = ([], 0)
shifts (bits ∷ rest) =
    let (filled, shift_count) = shifts rest in (shift_count ∷ filled, shift_count + bits)

unfoldable pub zeros : ℕ → List ℕ
zeros zero = []
zeros (suc n) = 0 ∷ zeros n

unfoldable pub empty_rows : ℕ → ℕ → List (List ℕ)
unfolding zeros
empty_rows zero width = []
empty_rows (suc n) width = zeros width ∷ empty_rows n width

-- `num_ents`
unfoldable pub num_entries : Schedule → ℕ → ℕ → ℕ → ℕ
num_entries static threads count chunk_size = threads
num_entries guided threads count chunk_size = count
num_entries runtime threads count chunk_size = (count - 1) / chunk_size + 1
num_entries dynamic threads count chunk_size = (count - 1) / chunk_size + 1
num_entries auto threads count chunk_size = (count - 1) / chunk_size + 1

unfoldable pub is_static : Schedule → Bool
is_static static = true
is_static runtime = false
is_static dynamic = false
is_static guided = false
is_static auto = false

-- `counts[0] / num_ents` and `counts[0] % num_ents`, kept for `schedule(static)`; otherwise the
-- fields are not read.
unfoldable pub keep_quotient : ℕ → ℕ → Doacross → Doacross
keep_quotient count entries d =
    let q = count / entries in
    let t = count % entries in record d { chunk_or_q = q; boundary = t * (q + 1); t = t }

-- The work share of a doacross loop whose bits have been counted: the counts are packed into one
-- word where that is wide enough.
unfoldable pub new_doacross : Schedule → ℕ → List ℕ → ℕ → List ℕ → ℕ → Doacross
unfolding shifts empty_rows keep_quotient is_static
new_doacross sched entries counts chunk_size bits num_bits =
    let packed = leb num_bits 64 in
    let d : Doacross = record {
      chunk_or_q = chunk_size;
      ncounts = length counts;
      flattened = packed;
      shift_counts = if packed then (shifts bits).0 else [];
      boundary = 0;
      t = 0;
      rows = empty_rows entries (if packed then 1 else length counts);
    } in
    if is_static sched && (chunk_size == 0) then keep_quotient (get_or counts 0 0) entries d else d

-- `gomp_doacross_init`; `none` where it leaves `ws->doacross` NULL.
unfoldable pub doacross_init : Option ℕ → Schedule → List ℕ → ℕ → Option Doacross
unfolding count_bits num_entries new_doacross
doacross_init team sched counts chunk_size =
    if alone team
    then none
    else count_bits counts 0 >>= λ b. some (
        new_doacross sched (num_entries sched (team_size team) (get_or counts 0 0) chunk_size)
          counts chunk_size b.0 b.1)

-- The loop that packs the remaining counts onto `flattened`.
unfoldable pub pack_onto : ℕ → List ℕ → List ℕ → ℕ
pack_onto acc [] _ = acc
pack_onto acc (_ ∷ _) [] = acc
pack_onto acc (count ∷ counts) (shift ∷ shift_counts) =
    pack_onto (bit_or acc (word (count * 2 ^ shift))) counts shift_counts

-- `flattened`, before the `flattened++` of a post
unfoldable pub flatten : List ℕ → List ℕ → ℕ
unfolding pack_onto
flatten [] _ = 0
flatten (_ ∷ _) [] = 0
flatten (count ∷ counts) (shift ∷ shift_counts) =
    pack_onto (word (count * 2 ^ shift)) counts shift_counts

-- The entry that a post writes.
unfoldable pub post_entry : Schedule → ℕ → ℕ → Doacross → ℕ
post_entry sched team_id first d = elim sched [
  | static ↦ team_id
  | guided ↦ first
  | runtime ↦ first / d.chunk_or_q
  | dynamic ↦ first / d.chunk_or_q
  | auto ↦ first / d.chunk_or_q
]

-- The elements that a post writes; a store of the value already there changes nothing.
unfoldable pub posted_row : List ℕ → Doacross → List ℕ
unfolding flatten
posted_row counts d =
    if d.flattened
    then word (flatten counts d.shift_counts + 1) ∷ []
    else map (λ count. word (count + 1)) counts

-- `GOMP_doacross_post`, with `ws->doacross` not NULL.
unfoldable pub doacross_post : Schedule → ℕ → List ℕ → Doacross → Doacross
unfolding post_entry posted_row
doacross_post sched team_id counts d = record d {
  rows = set d.rows (post_entry sched team_id (get_or counts 0 0) d) (posted_row counts d);
}

-- The entry that a wait for `first` reads, with a static schedule.
unfoldable pub static_entry : WorkShare → ℕ → ℕ → Doacross → ℕ
static_entry ws threads first d =
    if to_word ws.chunk_size == 0
    then (if ltb first d.boundary
        then first / (d.chunk_or_q + 1)
        else (first - d.boundary) / d.chunk_or_q + d.t)
    else first / to_word ws.chunk_size % threads

-- The entry that a wait reads.
unfoldable pub wait_entry : WorkShare → ℕ → ℕ → Doacross → ℕ
unfolding static_entry
wait_entry ws threads first d = elim ws.sched [
  | static ↦ static_entry ws threads first d
  | guided ↦ first
  | runtime ↦ first / d.chunk_or_q
  | dynamic ↦ first / d.chunk_or_q
  | auto ↦ first / d.chunk_or_q
]

-- One pass of the loop over the elements: `true` where it leaves the waiting loop.
unfoldable pub elements_reached : List ℕ → List ℕ → Bool
elements_reached [] _ = true
elements_reached (_ ∷ _) [] = true
elements_reached (this ∷ rest) (cur ∷ row) =
    let later = elements_reached rest row in
    if ltb (word (this + 1)) cur then true else if ltb cur (word (this + 1)) then false else later

-- Whether a row lets a wait for `counts` go on.
unfoldable pub row_reached : List ℕ → Doacross → List ℕ → Bool
unfolding flatten elements_reached
row_reached counts d row =
    if d.flattened
    then ltb (flatten counts d.shift_counts) (get_or row 0 0)
    else elements_reached counts row

-- One look of `GOMP_doacross_wait` at the array; it repeats the look until the result is `true`.
unfoldable pub doacross_wait : WorkShare → ℕ → List ℕ → Doacross → Bool
unfolding wait_entry row_reached
doacross_wait ws threads counts d =
    row_reached counts d (get_or d.rows (wait_entry ws threads (get_or counts 0 0) d) [])
