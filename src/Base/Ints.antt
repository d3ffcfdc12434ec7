-- ===== src/Base/Ints.antt =====
-- Python integers where their sign matters, and their 32-bit patterns in big-endian bytes.
use Prim.Native.Nat.{ℕ, ◌+◌, ◌-◌, ◌*◌, ◌/◌, ◌%◌, ◌^◌, ◌<◌}
use mathlib.Core.Path.{◌≡◌}
use mathlib.Core.Bool.{Bool, true}
use mathlib.Core.List.{List, [], ◌∷◌}
use native.Mathlib.Omega.{arith}
use zero_hdsc.Base.Tests.{ltb, if◌then◌else◌}

-- `negsuc n` is -(n + 1).
pub data ℤ : Type 0 where
  pos : ℕ → ℤ
  negsuc : ℕ → ℤ

-- n & 0xFFFFFFFF
unfoldable pub low_32 : ℤ → ℕ
low_32 (pos n) = n % 2 ^ 32
low_32 (negsuc n) = 2 ^ 32 - 1 - n % 2 ^ 32

-- -2 ** 31 <= n < 2 ** 31
abbrev pub fits_32 : ℤ → Bool
fits_32 (pos n) = ltb n (2 ^ 31)
fits_32 (negsuc n) = ltb n (2 ^ 31)

-- The integer whose two's complement is the given pattern.
unfoldable pub signed_32 : ℕ → ℤ
signed_32 u = if ltb u (2 ^ 31) then pos u else negsuc (2 ^ 32 - 1 - u)

-- The four bytes of a pattern, the highest first.
unfoldable pub be_bytes : ℕ → List ℕ
be_bytes u = (u / 2 ^ 24 % 256) ∷ (u / 2 ^ 16 % 256) ∷ (u / 2 ^ 8 % 256) ∷ (u % 256) ∷ []

unfoldable pub from_be : List ℕ → ℕ
from_be (a ∷ b ∷ c ∷ d ∷ []) = a * 2 ^ 24 + b * 2 ^ 16 + c * 2 ^ 8 + d
from_be _ = 0

pub from_be-be_bytes : (u : ℕ) → u < 2 ^ 32 → from_be (be_bytes u) ≡ u
unfolding from_be be_bytes
from_be-be_bytes u h = omega arith

pub low_32-lt : (n : ℤ) → low_32 n < 2 ^ 32
unfolding low_32
low_32-lt (pos n) = omega arith
low_32-lt (negsuc n) = omega arith

pub signed_32-low_32 : (n : ℤ) → fits_32 n ≡ true → signed_32 (low_32 n) ≡ n
unfolding signed_32 low_32
signed_32-low_32 (pos n) h = ground arith
signed_32-low_32 (negsuc n) h = ground arith
