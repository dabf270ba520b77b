-- ===== src/Propagation.antt =====
-- src/propagation.rs: what a client of a propagation node sends and reads. Encryption, requests with
-- a transfer limit and announces are not here.
pub mod Announce
pub mod Available
pub mod Bounded
pub mod Crypt
pub mod Delivery
pub mod Entry
pub mod Append
pub mod Items
pub mod Request
pub mod Requested
pub mod Stamped
use rs_lxmflite.Base.{
  ℕ, zero, suc, ◌+◌, ◌-◌, ◌%◌, ◌/◌, ◌++◌, bit_and, Bool, true, false, not, ◌||◌, ◌&&◌, Option, none,
  some, List, [], ◌∷◌, leb, ltb, ◌==◌, if◌then◌else◌, length, get_or, set, take, drop, slice,
  checked_add,
}
use rs_lxmflite.Base.Bytes.{be_value, be16, be64}
use rs_lxmflite.Base.Compare.{bytes_eq}
use rs_lxmflite.Base.Result.{
  Result, ok, err, ◌>>=◌, ◌>>◌, ok_or, refuse, malformed_payload, too_long, output_too_small,
}
use rs_lxmflite.MsgPack.{skip_value}
use rs_lxmflite.Fields.{value_as_bytes}
use rs_lxmflite.Payload.{copy_at, lxmf_packed_prefix}
use rs_lxmflite.Rns.{Rns}

pub record ArrayItems : Type 0 where
  pub dat : List ℕ
  pub pos : ℕ
  pub remaining : ℕ

-- The match of `array_items` on the first byte.
unfoldable pub array_header : List ℕ → Result ArrayItems
array_header dat =
    let b = get_or dat 0 0 in
    if leb 0x90 b && leb b 0x9f
    then ok (record { dat = dat; pos = 1; remaining = bit_and b 15 })
    else if b == 0xdc
    then ok (record { dat = dat; pos = 3; remaining = be_value (slice dat 1 3) })
    else if b == 0xdd
    then ok (record { dat = dat; pos = 5; remaining = be_value (slice dat 1 5) })
    else err malformed_payload

unfoldable pub array_items : List ℕ → Result ArrayItems
unfolding array_header
array_items dat = do
  end ← skip_value dat 0 0
  refuse (not (end == length dat)) malformed_payload
  array_header dat

-- `ArrayItems::next`: the item, and the iterator behind it.
unfoldable pub next_item : ArrayItems → Option (List ℕ × ArrayItems)
next_item it = if it.remaining == 0 then none else elim (skip_value it.dat it.pos 0) [
  | err e ↦ none
  | ok end ↦ some (slice it.dat it.pos end, record it { pos = end; remaining = it.remaining - 1 })
]

unfoldable pub response_data : List ℕ → List ℕ → Result (List ℕ)
unfolding array_items next_item
response_data dat expected_id = do
  items ← array_items dat
  refuse (not (items.remaining == 2)) malformed_payload
  (id, items) ← ok_or (next_item items) malformed_payload
  bytes ← ok_or (value_as_bytes id) malformed_payload
  refuse (not (bytes_eq bytes expected_id)) malformed_payload
  (item, items) ← ok_or (next_item items) malformed_payload
  ok item

-- The bytes of an advertised id.
unfoldable pub transient_id : List ℕ → Result (List ℕ)
transient_id item = do
  bytes ← ok_or (value_as_bytes item) malformed_payload
  refuse (not (length bytes == 32)) malformed_payload
  ok bytes

-- The loop of `available_at` over the `n` items that are left.
unfoldable pub available_loop : ℕ → ℕ → ℕ → ArrayItems → Option (List ℕ) → Result (Option (List ℕ))
unfolding next_item transient_id
available_loop zero index position it found = ok found
available_loop (suc n) index position it found = elim (next_item it) [
  | none ↦ ok found
  | some (item, it') ↦ transient_id item >>= λ id.
      available_loop n index (position + 1) it' (if position == index then some id else found)
]

unfoldable pub available_at : List ℕ → ℕ → Result (Option (List ℕ) × ℕ)
unfolding array_items available_loop
available_at dat index = do
  items ← array_items dat
  first ← available_loop items.remaining index 0 items none
  ok (first, items.remaining)

unfoldable pub first_available : List ℕ → Result (Option (List ℕ) × ℕ)
unfolding available_at
first_available dat = available_at dat 0

unfoldable pub fetched_message : List ℕ → Result (Option (List ℕ))
unfolding array_items next_item
fetched_message dat = do
  items ← array_items dat
  refuse (ltb 1 items.remaining) malformed_payload
  elim (next_item items) [
    | none ↦ ok none
    | some (item, items') ↦
        ok_or (value_as_bytes item) malformed_payload >>= λ bytes. ok (some bytes)
  ]

-- The guards of `append_recipient_stamp`, in their order.
unfoldable pub stamp_guards : List ℕ → ℕ → List ℕ → Result (Unit {0})
stamp_guards packed packed_len stamp = do
  refuse (leb packed_len lxmf_packed_prefix || ltb (length packed) packed_len) malformed_payload
  refuse (not (length stamp == 16 || length stamp == 32)) malformed_payload
  refuse (not (get_or packed lxmf_packed_prefix 0 == 0x94)) malformed_payload
  end ← skip_value (take packed_len packed) lxmf_packed_prefix 0
  refuse (not (end == packed_len)) malformed_payload

-- The new length, and the buffer.
unfoldable pub append_recipient_stamp : List ℕ → ℕ → List ℕ → Result (ℕ × List ℕ)
unfolding stamp_guards
append_recipient_stamp packed packed_len stamp = do
  stamp_guards packed packed_len stamp
  end ← ok_or (checked_add packed_len (2 + length stamp)) too_long
  refuse (ltb (length packed) end) output_too_small
  let marked = set (set packed packed_len 0xc4) (packed_len + 1) (length stamp % 256)
  ok (end, set (copy_at (packed_len + 2) stamp marked) lxmf_packed_prefix 0x95)

-- `f64::is_finite` of a bit pattern: the exponent is not all ones.
unfoldable pub is_finite : ℕ → Bool
is_finite bits = not (bits / 4503599627370496 % 2048 == 2047)

-- The header of an upload of one entry.
unfoldable pub upload_header : ℕ → ℕ → List ℕ
upload_header timestamp entry_len =
    0x92
    ∷ 0xcb
    ∷ (be64 timestamp
        ++ (0x91 ∷ (if leb entry_len 0xff then 0xc4 ∷ entry_len ∷ [] else 0xc5 ∷ be16 entry_len)))

unfoldable pub wrap_upload : Rns → List ℕ → ℕ → List ℕ → ℕ → Result (ℕ × List ℕ)
unfolding is_finite upload_header
wrap_upload rns buffer encrypted_len stamp timestamp = do
  refuse (not (is_finite timestamp)) malformed_payload
  refuse
      (ltb encrypted_len (16 + rns.ecies_fixed_overhead + 16) || ltb (length buffer) encrypted_len)
      malformed_payload
  entry_len ← ok_or (checked_add encrypted_len 32) too_long
  refuse (ltb 0xffff entry_len) too_long
  let prefix = if leb entry_len 0xff then 13 else 14
  total ← ok_or (checked_add entry_len prefix) too_long
  refuse (ltb (length buffer) total) output_too_small
  let moved = copy_at prefix (take encrypted_len buffer) buffer
  let stamped = copy_at (prefix + encrypted_len) stamp moved
  ok (total, copy_at 0 (upload_header timestamp entry_len) stamped)
