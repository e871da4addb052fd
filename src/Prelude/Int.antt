-- ===== src/Prelude/Int.antt =====
-- Signed integers over the native numbers, and their two's complement in n bytes.
use Prim.Native.Nat.{ℕ, ◌-◌, ◌*◌, ◌%◌}
use mathlib.Core.Bool.{Bool}
use node_red_contrib_opcua_s.Prelude.Tests.{ltb, leb, if◌then◌else◌}

-- `negsuc n` is -(n + 1).
pub data ℤ : Type 0 where
  pos : ℕ → ℤ
  negsuc : ℕ → ℤ

-- a - b, as an integer.
abbrev pub sub_ℕ : ℕ → ℕ → ℤ
sub_ℕ a b = if leb b a then pos (a - b) else negsuc (b - a - 1)

-- The unsigned reading of an integer modulo `m`.
unfoldable pub wrap : ℕ → ℤ → ℕ
wrap m (pos n) = n % m
wrap m (negsuc n) = m - 1 - n % m

-- The signed reading of a number below `2 * h`.
unfoldable pub signed : ℕ → ℕ → ℤ
signed h u = if ltb u h then pos u else negsuc (2 * h - 1 - u)

-- -h ≤ i < h
abbrev pub in_signed_range : ℕ → ℤ → Bool
in_signed_range h (pos n) = ltb n h
in_signed_range h (negsuc n) = ltb n h
