-- ===== src/Base/Word.antt =====
-- `unsigned long` is a number below 2 ^ 64, `unsigned` one below 2 ^ 32; the casts between these
-- and `long` on an LP64 target.
use Prim.Native.Nat.{ℕ, ◌+◌, ◌-◌, ◌%◌, ◌^◌, ◌<◌}
use mathlib.Core.Path.{◌≡◌}
use native.Mathlib.Omega.{arith}
use libgomp_a.Base.Tests.{ltb, if◌then◌else◌}
use libgomp_a.Base.Int.{ℤ, pos, negsuc}

abbrev pub word : ℕ → ℕ
word n = n % 2 ^ 64

abbrev pub u32 : ℕ → ℕ
u32 n = n % 2 ^ 32

-- `a - b` on `unsigned long`
abbrev pub sub_word : ℕ → ℕ → ℕ
sub_word a b = (a + 2 ^ 64 - b) % 2 ^ 64

abbrev pub sub_u32 : ℕ → ℕ → ℕ
sub_u32 a b = (a + 2 ^ 32 - b) % 2 ^ 32

-- ULONG_MAX, which is also `(unsigned long) -1`
abbrev pub ulong_max : ℕ
ulong_max = 2 ^ 64 - 1

abbrev pub long_max : ℕ
long_max = 2 ^ 63 - 1

abbrev pub uint_max : ℕ
uint_max = 2 ^ 32 - 1

abbrev pub int_max : ℕ
int_max = 2 ^ 31 - 1

-- `(unsigned long) z`
abbrev pub to_word : ℤ → ℕ
to_word (pos n) = n % 2 ^ 64
to_word (negsuc n) = 2 ^ 64 - 1 - n % 2 ^ 64

-- `(long) w`
abbrev pub to_long : ℕ → ℤ
to_long w = if ltb w (2 ^ 63) then pos w else negsuc (2 ^ 64 - 1 - w)

-- `(int) w`
abbrev pub to_int : ℕ → ℤ
to_int w = let low = w % 2 ^ 32 in if ltb low (2 ^ 31) then pos low else negsuc (2 ^ 32 - 1 - low)

pub to_long-to_word : (n : ℕ) → n < 2 ^ 63 → to_long (to_word (pos n)) ≡ pos n
to_long-to_word n h = ground arith
