-- ===== src/Prelude/Int.antt =====
-- `std::int64_t` as the integer it stands for, and its conversions from and to 64-bit words.
use Prim.Native.Nat.{ℕ, ◌+◌, ◌-◌, ◌^◌, ◌<◌}
use mathlib.Core.Path.{◌≡◌}
use mathlib.Core.Bool.{Bool, true}
use native.Mathlib.Omega.{arith}
use fix_protocol.Prelude.Tests.{if◌then◌else◌, ltb, leb}

-- `negsuc n` is -(n + 1).
pub data ℤ : Type 0 where
  pos : ℕ → ℤ
  negsuc : ℕ → ℤ

abbrev pub u64_mod : ℕ
u64_mod = 2 ^ 64

abbrev pub i64_half : ℕ
i64_half = 2 ^ 63

-- `static_cast<std::int64_t>` of a 64-bit word.
abbrev pub to_int64 : ℕ → ℤ
to_int64 n = if ltb n i64_half then pos n else negsuc (u64_mod - n - 1)

-- `static_cast<std::uint64_t>` of an int64.
abbrev pub to_uint64 : ℤ → ℕ
to_uint64 (pos n) = n
to_uint64 (negsuc n) = u64_mod - (n + 1)

pub to_uint64-to_int64 : (n : ℕ) → n < u64_mod → to_uint64 (to_int64 n) ≡ n
to_uint64-to_int64 n h = ground arith

-- x <= 0.
abbrev pub is_nonpositive : ℤ → Bool
is_nonpositive (pos n) = leb n 0
is_nonpositive (negsuc n) = true
