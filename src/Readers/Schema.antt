-- ===== src/Readers/Schema.antt =====
-- src/lxmf.rs: `map_bytes_value`, the value of a text key in a structured map.
use rs_lxmflite.Base.{
  ℕ, zero, suc, ◌+◌, ◌-◌, ◌/◌, Bool, false, ◌&&◌, ◌||◌, Option, none, some, List, [], ◌∷◌, leb, ltb,
  ◌==◌, if◌then◌else◌, length, get_or, slice,
}
use rs_lxmflite.Base.Compare.{bytes_eq}
use rs_lxmflite.Base.Int.{ℤ, int_eq}
use rs_lxmflite.Base.Maybe.{◌>>=◌, ◌>>◌}
use rs_lxmflite.Base.Result.{to_option}
use rs_lxmflite.MsgPack.{skip_value, read_bin}
use rs_lxmflite.Fields.{read_field_id, read_map_header}

-- A place in a UTF-8 text: so many continuation bytes are due, the next in this range.
pub record Utf8State : Type 0 where
  pub due : ℕ
  pub low : ℕ
  pub high : ℕ

abbrev pub continuing : ℕ → ℕ → ℕ → Option Utf8State
continuing due low high = some (record { due = due; low = low; high = high })

-- The first byte of a character.
unfoldable pub utf8_lead : ℕ → Option Utf8State
utf8_lead b =
    if leb b 0x7f
    then continuing 0 0x80 0xbf
    else if leb 0xc2 b && leb b 0xdf
    then continuing 1 0x80 0xbf
    else if b == 0xe0
    then continuing 2 0xa0 0xbf
    else if b == 0xed
    then continuing 2 0x80 0x9f
    else if leb 0xe1 b && leb b 0xef
    then continuing 2 0x80 0xbf
    else if b == 0xf0
    then continuing 3 0x90 0xbf
    else if leb 0xf1 b && leb b 0xf3
    then continuing 3 0x80 0xbf
    else if b == 0xf4
    then continuing 3 0x80 0x8f
    else none

unfoldable pub utf8_step : Utf8State → ℕ → Option Utf8State
unfolding utf8_lead
utf8_step s b =
    if s.due == 0
    then utf8_lead b
    else if leb s.low b && leb b s.high
    then continuing (s.due - 1) 0x80 0xbf
    else none

unfoldable pub utf8_from : Utf8State → List ℕ → Bool
unfolding utf8_step
utf8_from s [] = s.due == 0
utf8_from s (b ∷ bs) = elim (utf8_step s b) [ none ↦ false | some s' ↦ utf8_from s' bs ]

-- `core::str::from_utf8`
unfoldable pub from_utf8 : List ℕ → Option (List ℕ)
unfolding utf8_from
from_utf8 bs = if utf8_from (record { due = 0; low = 0x80; high = 0xbf }) bs then some bs else none

pub data SchemaKey : Type 0 where
  integer : ℤ → SchemaKey
  text : List ℕ → SchemaKey

-- The derived equality of keys.
unfoldable pub key_eq : SchemaKey → SchemaKey → Bool
key_eq (integer a) (integer b) = int_eq a b
key_eq (text a) (text b) = bytes_eq a b
key_eq _ _ = false

unfoldable pub read_schema_key : List ℕ → ℕ → Option (SchemaKey × ℕ)
unfolding from_utf8 read_bin read_field_id
read_schema_key map at =
    let marker = get_or map at 0 in
    let as_text : Option (SchemaKey × ℕ) =
      to_option (read_bin map at) >>= λ (bytes, end). from_utf8 bytes >>= λ s. some (text s, end) in
    let as_integer : Option (SchemaKey × ℕ) =
      read_field_id map at >>= λ (id, end). some (integer id, end) in
    if leb (length map) at
    then none
    else if (leb 0xa0 marker && leb marker 0xbf) || (leb 0xd9 marker && leb marker 0xdb)
    then as_text
    else as_integer

-- The inner loop: the `n` keys before this one.
unfoldable pub schema_prior : List ℕ → SchemaKey → ℕ → ℕ → Option (Unit {0})
unfolding read_schema_key key_eq
schema_prior map current zero prior = some tt
schema_prior map current (suc n) prior = read_schema_key map prior >>= λ (previous, end).
    (if key_eq previous current then none else some tt)
    >> (to_option (skip_value map end 0) >>= λ prior'. schema_prior map current n prior')

-- The outer loop, with `n` entries left and `index` behind it: where it ends, and what it has found.
unfoldable pub schema_loop :
    List ℕ → List ℕ → ℕ → ℕ → ℕ → ℕ → Option (List ℕ) → Option (ℕ × Option (List ℕ))
unfolding read_schema_key key_eq schema_prior
schema_loop map wanted first zero index at found = some (at, found)
schema_loop map wanted first (suc n) index at found =
    read_schema_key map at >>= λ (current, after_key).
    schema_prior map current index first
    >> (to_option (skip_value map after_key 0) >>= λ end.
        schema_loop map wanted first n (index + 1) end
          (if key_eq current (text wanted) then some (slice map after_key end) else found))

unfoldable pub map_bytes_value : List ℕ → List ℕ → Option (List ℕ)
unfolding from_utf8 read_map_header schema_loop
map_bytes_value map key = do
  wanted ← from_utf8 key
  (first, count) ← read_map_header map
  (if ltb 64 count || ltb ((length map - first) / 2) count then none else some tt)
  (end, found) ← schema_loop map wanted first count 0 first none
  if end == length map then found else none
