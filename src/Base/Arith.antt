-- ===== src/Base/Arith.antt =====
-- `usize` arithmetic of the 32-bit embedded targets, with the checks of the source.
use Prim.Native.Nat.{ℕ, ◌+◌, ◌*◌, ◌%◌}
use mathlib.Core.Option.{Option, none, some}
use rs_lxmflite.Base.Tests.{ltb, if◌then◌else◌}

abbrev pub usize_mod : ℕ
usize_mod = 4294967296

-- `usize::checked_add`, `usize::checked_mul`, and `usize::checked_shl` by eight: the last refuses
-- only a shift of 32 or more, and drops the bits that leave the word.
abbrev pub checked_add : ℕ → ℕ → Option ℕ
checked_add a b = if ltb (a + b) usize_mod then some (a + b) else none

abbrev pub checked_mul : ℕ → ℕ → Option ℕ
checked_mul a b = if ltb (a * b) usize_mod then some (a * b) else none

abbrev pub shl_byte : ℕ → ℕ
shl_byte v = v * 256 % usize_mod
