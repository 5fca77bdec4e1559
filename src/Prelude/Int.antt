-- ===== src/Prelude/Int.antt =====
-- Python's `int`, as far as the program subtracts and compares.
use Prim.Native.Nat.{ℕ, suc, ◌+◌, ◌-◌}
use mathlib.Core.Bool.{Bool}
use tai_mcp_ssh.Prelude.Tests.{leb, ltb, if◌then◌else◌}

-- `negsuc n` is -(n + 1).
pub data ℤ : Type 0 where
  pos : ℕ → ℤ
  negsuc : ℕ → ℤ

abbrev pub pos_part : ℤ → ℕ
pos_part (pos n) = n
pos_part (negsuc n) = 0

abbrev pub neg_part : ℤ → ℕ
neg_part (pos n) = 0
neg_part (negsuc n) = suc n

-- a - b, as an integer
abbrev pub sub_ℕ : ℕ → ℕ → ℤ
sub_ℕ a b = if leb b a then pos (a - b) else negsuc (b - a - 1)

-- i - n
infixl 65 ◌-ℤℕ◌
unfoldable pub ◌-ℤℕ◌ : ℤ → ℕ → ℤ
◌-ℤℕ◌ i n = sub_ℕ (pos_part i) (neg_part i + n)

-- i < j
abbrev pub ltz : ℤ → ℤ → Bool
ltz i j = ltb (pos_part i + neg_part j) (pos_part j + neg_part i)
