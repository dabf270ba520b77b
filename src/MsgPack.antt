-- ===== src/MsgPack.antt =====
-- src/lxmf.rs: the bounded MessagePack walker `skip_value` and the readers beside it.
pub mod Grammar
pub mod Markers
pub mod Prefix
pub mod Bounds
pub mod Rows
pub mod Complete
pub mod Sound
pub mod Blob
use rs_lxmflite.Base.{
  ℕ, zero, suc, ◌+◌, ◌-◌, ◌*◌, bit_and, Bool, ◌&&◌, ◌||◌, Option, none, some, List, [], ◌∷◌, leb,
  ltb, ◌==◌, if◌then◌else◌, length, get_or, slice, checked_add, checked_mul, shl_byte,
}
use rs_lxmflite.Base.Bytes.{be_value}
use rs_lxmflite.Base.Result.{Result, ok, err, ◌>>=◌, ok_or, malformed_payload}

-- What the arm of the `match b` of `skip_value` does, by its length arguments.
pub data Format : Type 0 where
  single reserved : Format
  fixed sized items sized_array sized_map : ℕ → Format

-- The arms in the order of the source.
unfoldable pub format : ℕ → Format
format b =
    if leb b 0x7f || leb 0xe0 b || b == 0xc0 || b == 0xc2 || b == 0xc3
    then single
    else if b == 0xcc || b == 0xd0
    then fixed 1
    else if b == 0xcd || b == 0xd1
    then fixed 2
    else if b == 0xca || b == 0xce || b == 0xd2
    then fixed 4
    else if b == 0xcb || b == 0xcf || b == 0xd3
    then fixed 8
    else if b == 0xc4 || b == 0xd9
    then sized 1
    else if b == 0xc5 || b == 0xda
    then sized 2
    else if b == 0xc6 || b == 0xdb
    then sized 4
    else if leb 0xa0 b && leb b 0xbf
    then fixed (bit_and b 0x1f)
    else if leb 0x90 b && leb b 0x9f
    then items (bit_and b 0x0f)
    else if leb 0x80 b && leb b 0x8f
    then items (2 * bit_and b 0x0f)
    else if b == 0xdc
    then sized_array 2
    else if b == 0xdd
    then sized_array 4
    else if b == 0xde
    then sized_map 2
    else if b == 0xdf
    then sized_map 4
    else reserved

-- `.filter(|&e| e <= len)`
abbrev pub within : ℕ → Option ℕ → Option ℕ
within len none = none
within len (some e) = if leb e len then some e else none

-- `start + n`, checked and bounded by the slice.
unfoldable pub body : List ℕ → ℕ → ℕ → Result ℕ
body dat start n = ok_or (within (length dat) (checked_add start n)) malformed_payload

-- The loop of `len_at` over the bytes of the prefix.
unfoldable pub len_loop : ℕ → List ℕ → Option ℕ
len_loop v [] = some v
len_loop v (x ∷ xs) = elim (checked_add (shl_byte v) x) [ none ↦ none | some v' ↦ len_loop v' xs ]

-- A big-endian length prefix of `nb` bytes.
unfoldable pub len_at : List ℕ → ℕ → ℕ → Result ℕ
unfolding body len_loop
len_at dat start nb = do
  end ← body dat start nb
  ok_or (len_loop 0 (slice dat start end)) malformed_payload

-- `n * 2` for the keys and values of a map.
unfoldable pub kv : ℕ → Result ℕ
kv n = ok_or (checked_mul n 2) malformed_payload

-- `count` values in a row, each skipped by `next`.
unfoldable pub skip_n : (ℕ → Result ℕ) → ℕ → ℕ → Result ℕ
skip_n next zero pos = ok pos
skip_n next (suc count) pos = next pos >>= λ pos'. skip_n next count pos'

-- One arm, from the position `p` behind the marker.
unfoldable pub skip_format : (ℕ → Result ℕ) → List ℕ → ℕ → Format → Result ℕ
unfolding body len_at kv skip_n
skip_format next dat p single = ok p
skip_format next dat p (fixed n) = body dat p n
skip_format next dat p (sized nb) = do n ← len_at dat p nb; body dat (p + nb) n
skip_format next dat p (items n) = skip_n next n p
skip_format next dat p (sized_array nb) = do n ← len_at dat p nb; skip_n next n (p + nb)
skip_format next dat p (sized_map nb) = do n ← len_at dat p nb; m ← kv n; skip_n next m (p + nb)
skip_format next dat p reserved = err malformed_payload

-- `skip_value` with `room` levels left, which is 9 - depth: the guard `depth > 8` is `room = 0`.
unfoldable pub skip_level : ℕ → List ℕ → ℕ → Result ℕ
unfolding format skip_format
skip_level zero dat pos = err malformed_payload
skip_level (suc room) dat pos =
    if leb (length dat) pos
    then err malformed_payload
    else skip_format (skip_level room dat) dat (pos + 1) (format (get_or dat pos 0))

unfoldable pub skip_value : List ℕ → ℕ → ℕ → Result ℕ
unfolding skip_level
skip_value dat pos depth = skip_level (9 - depth) dat pos

-- The header's length and the body's length that the marker at `pos` announces.
unfoldable pub bin_header : List ℕ → ℕ → Result (ℕ × ℕ)
bin_header dat pos =
    let b = get_or dat pos 0 in
    if (b == 0xc4 || b == 0xd9) && leb (pos + 2) (length dat)
    then ok (2, get_or dat (pos + 1) 0)
    else if (b == 0xc5 || b == 0xda) && leb (pos + 3) (length dat)
    then ok (3, be_value (slice dat (pos + 1) (pos + 3)))
    else if (b == 0xc6 || b == 0xdb) && leb (pos + 5) (length dat)
    then ok (5, be_value (slice dat (pos + 1) (pos + 5)))
    else if leb 0xa0 b && leb b 0xbf
    then ok (1, bit_and b 0x1f)
    else err malformed_payload

-- A bin or str value at `pos`: its bytes, and the position behind it.
unfoldable pub read_bin : List ℕ → ℕ → Result (List ℕ × ℕ)
unfolding bin_header body
read_bin dat pos = if leb (length dat) pos then err malformed_payload else do
  (hdr, len) ← bin_header dat pos
  end ← body dat (pos + hdr) len
  ok (slice dat (pos + hdr) end, end)
