-- ===== src/Fields.antt =====
-- src/lxmf.rs: the outer fields map. Its keys are MessagePack integers of any width; it is
-- validated with a caller's scratch, or without one by comparing each key to those before it.
pub mod Keys
pub mod Maps
pub mod Headers
pub mod Format
pub mod Entries
pub mod Accepts
use rs_lxmflite.Base.{
  ℕ, zero, suc, ◌+◌, ◌-◌, ◌*◌, ◌/◌, ◌^◌, bit_and, Bool, true, false, ◌&&◌, ◌||◌, Option, none, some,
  List, [], ◌∷◌, leb, ltb, ◌==◌, if◌then◌else◌, length, get_or, set, take, slice, replicate,
}
use rs_lxmflite.Base.Int.{ℤ, pos, negsuc, int_eq}
use rs_lxmflite.Base.Bytes.{be_value}
use rs_lxmflite.Base.Result.{
  Result, ok, err, ◌>>=◌, ◌>>◌, ok_or, refuse, to_option, malformed_payload, too_many_fields,
  duplicate_field,
}
use rs_lxmflite.MsgPack.{skip_value, read_bin}

-- `FieldId`, an i128 in the range of a MessagePack integer. `FieldId::try_from`:
unfoldable pub field_id_try_from : ℤ → Option ℤ
field_id_try_from (pos n) = if ltb n (2 ^ 64) then some (pos n) else none
field_id_try_from (negsuc n) = if ltb n (2 ^ 63) then some (negsuc n) else none

-- `FieldId::as_standard`
unfoldable pub as_standard : ℤ → Option ℕ
as_standard (pos n) = if ltb n 256 then some n else none
as_standard (negsuc n) = none

-- `marker as i8`, as an integer.
unfoldable pub from_i8 : ℕ → ℤ
from_i8 b = if ltb b 128 then pos b else negsuc (255 - b)

-- `(value << 8) | byte`: the shift leaves eight zero bits for the byte.
unfoldable pub push_byte : ℤ → ℕ → ℤ
push_byte (pos n) b = pos (n * 256 + b)
push_byte (negsuc n) b = negsuc (suc n * 256 - b - 1)

unfoldable pub push_bytes : ℤ → List ℕ → ℤ
unfolding push_byte
push_bytes v [] = v
push_bytes v (b ∷ bs) = push_bytes (push_byte v b) bs

-- The width and the sign of the integer encodings with a marker of their own.
unfoldable pub id_width : ℕ → Option (ℕ × Bool)
id_width marker =
    if marker == 0xcc
    then some (1, false)
    else if marker == 0xcd
    then some (2, false)
    else if marker == 0xce
    then some (4, false)
    else if marker == 0xcf
    then some (8, false)
    else if marker == 0xd0
    then some (1, true)
    else if marker == 0xd1
    then some (2, true)
    else if marker == 0xd2
    then some (4, true)
    else if marker == 0xd3
    then some (8, true)
    else none

-- The bytes behind the marker, if they are there, as an integer in range.
unfoldable pub wide_id : List ℕ → ℕ → Option (ℕ × Bool) → Option (ℤ × ℕ)
unfolding push_bytes field_id_try_from
wide_id dat at none = none
wide_id dat at (some (width, signed)) =
    let bytes = slice dat (at + 1) (at + 1 + width) in
    let negative = signed && leb 0x80 (get_or bytes 0 0) in
    let value = push_bytes (if negative then negsuc 0 else pos 0) bytes in
    if ltb (length dat) (at + 1 + width)
    then none
    else elim (field_id_try_from value) [ none ↦ none | some id ↦ some (id, at + 1 + width) ]

unfoldable pub read_field_id : List ℕ → ℕ → Option (ℤ × ℕ)
unfolding from_i8 id_width wide_id
read_field_id dat at =
    let marker = get_or dat at 0 in
    if leb (length dat) at
    then none
    else if leb marker 0x7f
    then some (pos marker, at + 1)
    else if leb 0xe0 marker
    then some (from_i8 marker, at + 1)
    else wide_id dat at (id_width marker)

-- The position of the first entry and the number of entries.
unfoldable pub read_map_header : List ℕ → Option (ℕ × ℕ)
read_map_header dat =
    let b = get_or dat 0 0 in
    if leb (length dat) 0
    then none
    else if leb 0x80 b && leb b 0x8f
    then some (1, bit_and b 0x0f)
    else if b == 0xde && leb 3 (length dat)
    then some (3, be_value (slice dat 1 3))
    else if b == 0xdf && leb 5 (length dat)
    then some (5, be_value (slice dat 1 5))
    else none

-- `keys.contains(&key)`
abbrev pub contains : List ℤ → ℤ → Bool
contains [] key = false
contains (k ∷ ks) key = int_eq k key || contains ks key

-- `LxmfFieldScratch::new`
abbrev pub new_scratch : List ℤ
new_scratch = replicate 64 (pos 0)

-- The loop of `validate_fields`: `n` entries are left, and `index` have been seen.
unfoldable pub validate_loop : List ℕ → ℕ → ℕ → ℕ → List ℤ → Result ℕ × List ℤ
validate_loop fields zero index at keys = (ok at, keys)
validate_loop fields (suc n) index at keys = elim (read_field_id fields at) [
  | none ↦ (err malformed_payload, keys)
  | some (key, after_key) ↦
      let keys' = set keys index key in
      let next : Result ℕ × List ℤ = elim (skip_value fields after_key 0) [
        | err e ↦ (err e, keys')
        | ok at' ↦ validate_loop fields n (index + 1) at' keys'
      ] in
      if contains (take index keys) key then (err duplicate_field, keys) else next
]

-- Where all entries are read, they must end the slice.
unfoldable pub at_end : List ℕ → Result ℕ → Result (Unit {0})
at_end fields r = do at ← r; refuse (if at == length fields then false else true) malformed_payload

-- The result, and the scratch as it is left.
unfoldable pub validate_fields : List ℕ → List ℤ → Result (Unit {0}) × List ℤ
unfolding read_map_header validate_loop at_end
validate_fields fields keys = elim (read_map_header fields) [
  | none ↦ (ok tt, keys)
  | some (at, count) ↦
      let (r, keys') = validate_loop fields count 0 at keys in
      if ltb 64 count
      then (err too_many_fields, keys)
      else if ltb ((length fields - at) / 2) count
      then (err malformed_payload, keys)
      else (at_end fields r, keys')
]

-- The inner loop of `validate_fields_without_scratch`: the `n` keys before this one.
unfoldable pub prior_loop : List ℕ → ℤ → ℕ → ℕ → Result (Unit {0})
prior_loop fields key zero prior = ok tt
prior_loop fields key (suc n) prior = do
  (previous, end) ← ok_or (read_field_id fields prior) malformed_payload
  refuse (int_eq previous key) duplicate_field
  prior' ← skip_value fields end 0
  prior_loop fields key n prior'

-- The outer loop, with `n` entries left and `index` entries behind it.
unfoldable pub pairs_loop : List ℕ → ℕ → ℕ → ℕ → ℕ → Result ℕ
unfolding prior_loop
pairs_loop fields first zero index at = ok at
pairs_loop fields first (suc n) index at = do
  (key, after_key) ← ok_or (read_field_id fields at) malformed_payload
  prior_loop fields key index first
  at' ← skip_value fields after_key 0
  pairs_loop fields first n (index + 1) at'

unfoldable pub validate_fields_without_scratch : List ℕ → Result (Unit {0})
unfolding read_map_header pairs_loop at_end
validate_fields_without_scratch fields = do
  (first, count) ← ok_or (read_map_header fields) malformed_payload
  refuse (ltb 64 count) too_many_fields
  at_end fields (pairs_loop fields first count 0 first)

-- The loop of `field_value_id` over `n` entries.
unfoldable pub find_loop : List ℕ → ℤ → ℕ → ℕ → Option (List ℕ)
find_loop fields key zero at = none
find_loop fields key (suc n) at = elim (read_field_id fields at) [
  | none ↦ none
  | some (id, after_key) ↦ elim (skip_value fields after_key 0) [
    | err e ↦ none
    | ok end ↦
        let rest = find_loop fields key n end in
        if int_eq id key then some (slice fields after_key end) else rest
  ]
]

unfoldable pub field_value_id : List ℕ → ℤ → Option (List ℕ)
unfolding validate_fields_without_scratch find_loop
field_value_id fields key = elim (validate_fields_without_scratch fields) [
  | err e ↦ none
  | ok _ ↦ elim (read_map_header fields) [
    | none ↦ none
    | some (at, count) ↦ find_loop fields key count at
  ]
]

unfoldable pub field_value : List ℕ → ℕ → Option (List ℕ)
unfolding field_value_id
field_value fields key = field_value_id fields (pos key)

unfoldable pub value_as_bytes : List ℕ → Option (List ℕ)
unfolding read_bin
value_as_bytes value = elim (read_bin value 0) [ err e ↦ none | ok (b, _) ↦ some b ]
