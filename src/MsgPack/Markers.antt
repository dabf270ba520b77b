-- ===== src/MsgPack/Markers.antt =====
-- `format`, the arms of the walker's match, against the table of the format.
use rs_lxmflite.Base.{
  ℕ, zero, suc, subst, ◌-◌, ◌+◌, ◌*◌, ◌/◌, ◌%◌, ◌≤◌, ◌<◌, ◌≡◌, refl, arith, ◌≢◌, ◌⊎◌, inl, inr,
  bit_and,
}
use rs_lxmflite.Base.Bytes.{IsByte}
use rs_lxmflite.Base.Tables.{agree_below, agree_below_sound}
use rs_lxmflite.MsgPack.{
  Format, single, reserved, fixed, sized, items, sized_array, sized_map, format,
}
use rs_lxmflite.MsgPack.Grammar.{
  Lead, positive_fixint, negative_fixint, nil_marker, false_marker, true_marker, uint8, uint16,
  uint32, uint64, int8, int16, int32, int64, float32, float64, fixstr, str8, str16, str32, bin8,
  bin16, bin32, fixarray, fixmap, array16, array32, map16, map32,
}

pub bit_and-31 : (b : ℕ) → b < 256 → bit_and b 0x1f ≡ b % 32
unfolding agree_below
bit_and-31 = agree_below_sound _ _ 256 refl

pub bit_and-15 : (b : ℕ) → b < 256 → bit_and b 0x0f ≡ b % 16
unfolding agree_below
bit_and-15 = agree_below_sound _ _ 256 refl

-- Every marker of the table takes its arm.
pub Lead-format : {b : ℕ} {m : Format} → Lead b m → format b ≡ m
unfolding format
Lead-format (positive_fixint h) = ground arith
Lead-format (negative_fixint h k) = ground arith
Lead-format {b} (fixstr e h) = ground (arith, bit_and-31 b)
Lead-format {b} (fixarray e h) = ground (arith, bit_and-15 b)
Lead-format {b} (fixmap e h k) = ground (arith, bit_and-15 b)
Lead-format (nil_marker e) = rw e
Lead-format (false_marker e) = rw e
Lead-format (true_marker e) = rw e
Lead-format (uint8 e) = rw e
Lead-format (uint16 e) = rw e
Lead-format (uint32 e) = rw e
Lead-format (uint64 e) = rw e
Lead-format (int8 e) = rw e
Lead-format (int16 e) = rw e
Lead-format (int32 e) = rw e
Lead-format (int64 e) = rw e
Lead-format (float32 e) = rw e
Lead-format (float64 e) = rw e
Lead-format (str8 e) = rw e
Lead-format (str16 e) = rw e
Lead-format (str32 e) = rw e
Lead-format (bin8 e) = rw e
Lead-format (bin16 e) = rw e
Lead-format (bin32 e) = rw e
Lead-format (array16 e) = rw e
Lead-format (array32 e) = rw e
Lead-format (map16 e) = rw e
Lead-format (map32 e) = rw e

-- What a marker can be, given the arm it takes.
single_cases :
    (b : ℕ)
    → format b ≡ single
    → (b ≤ 0x7f) ⊎ ((0xe0 ≤ b) ⊎ ((b ≡ 0xc0) ⊎ ((b ≡ 0xc2) ⊎ (b ≡ 0xc3))))
unfolding format
single_cases b e = ground arith

fixed_cases :
    (b n : ℕ)
    → b < 256
    → format b ≡ fixed n
    → ((b ≡ 0xa0 + n) × (n ≤ 31)) ⊎ ((0xca ≤ b) × (b ≤ 0xd3))
unfolding format
fixed_cases b n h e = ground (arith, bit_and-31 b)

-- The ten markers of numbers with a fixed width.
number_Lead : (i b n : ℕ) → i < 10 → b ≡ 0xca + i → format b ≡ fixed n → Lead b (fixed n)
unfolding format
number_Lead zero b n h e f = subst (Lead b) (rw e at f) (float32 e)
number_Lead (suc zero) b n h e f = subst (Lead b) (rw e at f) (float64 e)
number_Lead (suc (suc zero)) b n h e f = subst (Lead b) (rw e at f) (uint8 e)
number_Lead (suc (suc (suc zero))) b n h e f = subst (Lead b) (rw e at f) (uint16 e)
number_Lead (suc (suc (suc (suc zero)))) b n h e f = subst (Lead b) (rw e at f) (uint32 e)
number_Lead (suc (suc (suc (suc (suc zero))))) b n h e f = subst (Lead b) (rw e at f) (uint64 e)
number_Lead (suc (suc (suc (suc (suc (suc zero)))))) b n h e f = subst (Lead b) (rw e at f) (int8 e)
number_Lead (suc (suc (suc (suc (suc (suc (suc zero))))))) b n h e f =
    subst (Lead b) (rw e at f) (int16 e)
number_Lead (suc (suc (suc (suc (suc (suc (suc (suc zero)))))))) b n h e f =
    subst (Lead b) (rw e at f) (int32 e)
number_Lead (suc (suc (suc (suc (suc (suc (suc (suc (suc zero))))))))) b n h e f =
    subst (Lead b) (rw e at f) (int64 e)
number_Lead (suc (suc (suc (suc (suc (suc (suc (suc (suc (suc i)))))))))) b n h e f =
    absurd (omega arith)

sized_cases :
    (b n : ℕ)
    → format b ≡ sized n
    → (((b ≡ 0xc4) ⊎ (b ≡ 0xd9)) × (n ≡ 1))
      ⊎ ((((b ≡ 0xc5) ⊎ (b ≡ 0xda)) × (n ≡ 2)) ⊎ (((b ≡ 0xc6) ⊎ (b ≡ 0xdb)) × (n ≡ 4)))
unfolding format
sized_cases b n e = ground arith

items_cases :
    (b n : ℕ)
    → b < 256
    → format b ≡ items n
    → ((b ≡ 0x90 + n) × (n ≤ 15)) ⊎ ((b ≡ 0x80 + n / 2) × (n / 2 ≤ 15) × (n ≡ 2 * (n / 2)))
unfolding format
items_cases b n h e = ground (arith, bit_and-15 b)

array_cases : (b n : ℕ) → format b ≡ sized_array n → ((b ≡ 0xdc) × (n ≡ 2)) ⊎ ((b ≡ 0xdd) × (n ≡ 4))
unfolding format
array_cases b n e = ground arith

map_cases : (b n : ℕ) → format b ≡ sized_map n → ((b ≡ 0xde) × (n ≡ 2)) ⊎ ((b ≡ 0xdf) × (n ≡ 4))
unfolding format
map_cases b n e = ground arith

-- And every byte whose arm is not the refusing one stands in the table.
pub format-Lead : {b : ℕ} (m : Format) → IsByte b → m ≢ reserved → format b ≡ m → Lead b m
format-Lead {b} single h r e = elim (single_cases b e) [
  | inl p ↦ positive_fixint p
  | inr (inl p) ↦ negative_fixint p (omega arith)
  | inr (inr (inl p)) ↦ nil_marker p
  | inr (inr (inr (inl p))) ↦ false_marker p
  | inr (inr (inr (inr p))) ↦ true_marker p
]
format-Lead reserved h r e = absurd (r refl)
format-Lead {b} (fixed n) h r e = elim (fixed_cases b n h e) [
  | inl (p, k) ↦ fixstr p k
  | inr (lo, hi) ↦ number_Lead (b - 0xca) b n (omega arith) (omega arith) e
]
format-Lead {b} (sized n) h r e = elim (sized_cases b n e) [
  | inl (inl p, k) ↦ rw k (bin8 p)
  | inl (inr p, k) ↦ rw k (str8 p)
  | inr (inl (inl p, k)) ↦ rw k (bin16 p)
  | inr (inl (inr p, k)) ↦ rw k (str16 p)
  | inr (inr (inl p, k)) ↦ rw k (bin32 p)
  | inr (inr (inr p, k)) ↦ rw k (str32 p)
]
format-Lead {b} (items n) h r e = elim (items_cases b n h e) [
  | inl (p, k) ↦ fixarray p k
  | inr (p, k, d) ↦ fixmap p k d
]
format-Lead {b} (sized_array n) h r e = elim (array_cases b n e) [
  | inl (p, k) ↦ rw k (array16 p)
  | inr (p, k) ↦ rw k (array32 p)
]
format-Lead {b} (sized_map n) h r e = elim (map_cases b n e) [
  | inl (p, k) ↦ rw k (map16 p)
  | inr (p, k) ↦ rw k (map32 p)
]

-- The number of bytes of a length prefix, for the arms that read one.
abbrev pub prefix_width : Format → ℕ
prefix_width (sized n) = n
prefix_width (sized_array n) = n
prefix_width (sized_map n) = n
prefix_width _ = 0

-- A length prefix has at most four bytes.
pub prefix_width-le : {b : ℕ} {m : Format} → Lead b m → prefix_width m ≤ 4
prefix_width-le (positive_fixint h) = omega arith
prefix_width-le _ = omega arith
