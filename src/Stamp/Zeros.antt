-- ===== src/Stamp/Zeros.antt =====
-- The value of a digest against its bits.
use rs_lxmflite.Base.{
  ℕ, suc, ◌+◌, ◌%◌, ◌≤◌, ◌≡◌, sym, ap, ◌∙◌, Bool, true, false, List, [], ◌∷◌, ◌++◌, arith, leb,
  dec_le, ne→==,
}
use rs_lxmflite.Stamp.{leading_zeros, value_loop}

-- The bits of a byte, highest first, and those of bytes in a row.
abbrev pub byte_bits : ℕ → List Bool
byte_bits b =
    leb 128 b
    ∷ leb 64 (b % 128)
    ∷ leb 32 (b % 64)
    ∷ leb 16 (b % 32)
    ∷ leb 8 (b % 16)
    ∷ leb 4 (b % 8)
    ∷ leb 2 (b % 4)
    ∷ leb 1 (b % 2)
    ∷ []

abbrev pub bits_of : List ℕ → List Bool
bits_of [] = []
bits_of (b ∷ bs) = byte_bits b ++ bits_of bs

-- How many bits stand before the first that is set.
abbrev pub zeros : List Bool → ℕ
zeros [] = 0
zeros (true ∷ bits) = 0
zeros (false ∷ bits) = suc (zeros bits)

zeros_byte : (b : ℕ) (bits : List Bool) → 1 ≤ b → zeros (byte_bits b ++ bits) ≡ leading_zeros b
unfolding leading_zeros
zeros_byte b bits h = ground arith

-- The value of a digest is what was counted, and the number of zero bits in front of the first
-- that is set.
pub value_loop-zeros :
    (acc : ℕ) (bytes : List ℕ) → value_loop acc bytes ≡ acc + zeros (bits_of bytes)
unfolding value_loop
value_loop-zeros acc [] = omega arith
value_loop-zeros acc (b ∷ bytes) = elim (dec_le 1 b) [
  | yes set ↦
      rw (ne→== b 0 (λ e. omega arith)) (ap (λ n. acc + n) (sym (zeros_byte b (bits_of bytes) set)))
  | no nul ↦
      let e : b ≡ 0 = omega arith in
      rw e (value_loop-zeros (acc + leading_zeros 0) bytes ∙ omega arith)
]
