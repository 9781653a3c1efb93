-- ===== src/WorkShares/Rounds.antt =====
-- What holds of a team between two steps: the work shares that are in use are those of consecutive
-- constructs, and each thread is at one of these.
use libgomp_a.Base.{ℕ, suc, ◌≤◌, ◌<◌, ◌≡◌, ◌≢◌, Bool, true, false, some}
use libgomp_a.Pool.Moves.{IsShared}
use libgomp_a.Barrier.Count.{count_true}
use libgomp_a.WorkShares.{
  PtrLock, unset, owned, awaited, ready, Pc, outside, asking, slow, waiting, creating, initialising,
  inside, freeing, Member, Sharing,
}
use libgomp_a.WorkShares.Counts.{done, finished}
use libgomp_a.WorkShares.Live.{live}

abbrev pub is_held : PtrLock → Bool
is_held owned = true
is_held awaited = true
is_held _ = false

abbrev pub is_making : Pc → Bool
is_making creating = true
is_making initialising = true
is_making _ = false

abbrev pub is_freeing : Pc → Bool
is_freeing freeing = true
is_freeing _ = false

-- A thread that asks for the work share behind that of construct `p`.
abbrev pub IsBefore : (seq : ℕ → ℕ) (lo top : ℕ) → Member → Type 0
IsBefore seq lo top t =
    (p : ℕ) × (t.round ≡ suc p)
    × (lo ≤ p)
    × (p ≤ top)
    × (t.work_share ≡ seq p)
    × (t.last_work_share ≡ some (seq p))

-- A thread in the construct behind number `p`.
abbrev pub IsIn : (seq : ℕ → ℕ) (p : ℕ) → Member → Type 0
IsIn seq p t = (t.round ≡ suc p) × (t.work_share ≡ seq (suc p)) × (t.last_work_share ≡ some (seq p))

-- `lo` is the oldest work share in use, `top` the last one that all threads can find.
abbrev pub StatusAt : (seq : ℕ → ℕ) (lo top : ℕ) → Pc → Member → Type 0
StatusAt seq lo top outside t = (lo ≤ t.round) × (t.round ≤ top) × (t.work_share ≡ seq t.round)
StatusAt seq lo top asking t = IsBefore seq lo top t
StatusAt seq lo top slow t = IsBefore seq lo top t
StatusAt seq lo top waiting t = IsBefore seq lo top t
StatusAt seq lo top creating t =
    (t.round ≡ suc top) × (t.work_share ≡ seq top) × (t.last_work_share ≡ some (seq top))
StatusAt seq lo top initialising t = IsIn seq top t
StatusAt seq lo top inside t = (p : ℕ) × (lo ≤ p) × (p < top) × IsIn seq p t
StatusAt seq lo top freeing t = (lo < top) × IsIn seq lo t

abbrev pub Status : (seq : ℕ → ℕ) (lo top : ℕ) → Member → Type 0
Status seq lo top t = StatusAt seq lo top t.pc t

-- Whether somebody makes the next work share, `hi` being the last one made.
pub data Phase (n : ℕ) (seq : ℕ → ℕ) (top hi : ℕ) (next : ℕ → PtrLock) (f : ℕ → Member)
    : Type 0 where
  settled :
      hi ≡ top
      → next (seq top) ≡ unset
      → ((j : ℕ) → j < n → is_making (f j).pc ≡ false)
      → Phase n seq top hi next f
  claimed :
      (c : ℕ)
      → hi ≡ top
      → is_held (next (seq top)) ≡ true
      → (f c).pc ≡ creating
      → ((j : ℕ) → j < n → j ≢ c → is_making (f j).pc ≡ false)
      → Phase n seq top hi next f
  made :
      (c : ℕ)
      → hi ≡ suc top
      → is_held (next (seq top)) ≡ true
      → next (seq hi) ≡ unset
      → (f c).pc ≡ initialising
      → ((j : ℕ) → j < n → j ≢ c → is_making (f j).pc ≡ false)
      → Phase n seq top hi next f

-- Whether all threads have ended the construct behind number `lo`; then one of them frees it.
pub data Turn (n lo : ℕ) (f : ℕ → Member) : Type 0 where
  going_on :
      (j : ℕ)
      → j < n
      → done (f j) ≤ lo
      → ((j : ℕ) → j < n → is_freeing (f j).pc ≡ false)
      → Turn n lo f
  closing :
      (c : ℕ)
      → c < n
      → (f c).pc ≡ freeing
      → ((j : ℕ) → j < n → lo < done (f j))
      → ((j : ℕ) → j < n → j ≢ c → is_freeing (f j).pc ≡ false)
      → Turn n lo f

abbrev pub Links : (seq : ℕ → ℕ) (lo top : ℕ) → (ℕ → PtrLock) → Type 0
Links seq lo top next = (r : ℕ) → lo ≤ r → r < top → next (seq r) ≡ ready (seq (suc r))

pub record Inv (n : ℕ) (s : Sharing) : Type 0 where
  pub seq : ℕ → ℕ
  pub lo : ℕ
  pub top : ℕ
  pub hi : ℕ
  pub low : lo ≤ top
  pub status : (j : ℕ) → j < n → Status seq lo top (s.threads j)
  pub links : Links seq lo top s.next_ws
  pub phase : Phase n seq top hi s.next_ws s.threads
  pub counts : (r : ℕ) → lo < r → r ≤ hi → s.completed (seq r) ≡ count_true (finished r s.threads) n
  pub turn : Turn n lo s.threads
  pub shared : IsShared s.pool (live seq lo hi) s.made
