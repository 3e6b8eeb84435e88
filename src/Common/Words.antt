-- ===== src/Common/Words.antt =====
-- Fixed-width C arithmetic on native numbers, and the bytes of a word.
use Prim.Native.Nat.{ℕ, ◌+◌, ◌-◌, ◌*◌, ◌/◌, ◌%◌, ◌^◌, ◌<◌}
use ucp.Common.Tests.{ltb, if◌then◌else◌}

abbrev pub u8_mod : ℕ
u8_mod = 256

abbrev pub u32_mod : ℕ
u32_mod = 4294967296

-- UINT32_MAX
abbrev pub u32_max : ℕ
u32_max = 4294967295

-- `size_t` is 64 bits wide.
abbrev pub size_mod : ℕ
size_mod = 18446744073709551616

-- `x + 1` and `x - 1` on a `uint32_t` wrap around.
abbrev pub succ32 : ℕ → ℕ
succ32 x = (x + 1) % u32_mod

abbrev pub pred32 : ℕ → ℕ
pred32 x = (x + u32_mod - 1) % u32_mod

-- `(size_t) -n` for the small error codes.
abbrev pub size_neg : ℕ → ℕ
size_neg n = size_mod - n

pub data ℤ : Type 0 where
  pos : ℕ → ℤ
  negsuc : ℕ → ℤ

-- `SSIZE_MAX + 1`
abbrev pub ssize_limit : ℕ
ssize_limit = 9223372036854775808

-- A `size_t` kept in a `ssize_t`.
abbrev pub to_ssize : ℕ → ℤ
to_ssize n = if ltb n ssize_limit then pos n else negsuc (size_mod - n - 1)

abbrev pub IsByte : ℕ → Type 0
IsByte b = b < u8_mod

abbrev pub IsU32 : ℕ → Type 0
IsU32 w = w < u32_mod

-- `x >> k` and `x << k`, the latter before it is cut to its width.
abbrev pub shr : ℕ → ℕ → ℕ
shr x k = x / 2 ^ k

abbrev pub shl : ℕ → ℕ → ℕ
shl x k = x * 2 ^ k
