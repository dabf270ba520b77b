-- ===== src/Readers.antt =====
-- src/lxmf.rs: the readers of optional fields: audio, tickets, and members of structured maps.
pub mod Audio
pub mod Float
pub mod Schema
use rs_lxmflite.Base.{
  ℕ, suc, ◌+◌, ◌-◌, ◌*◌, ◌/◌, ◌%◌, ◌^◌, Bool, true, false, not, ◌&&◌, ◌||◌, Option, none, some,
  List, [], ◌∷◌, leb, ltb, ◌==◌, if◌then◌else◌, length, get_or, take, drop, slice,
}
use rs_lxmflite.Base.Bytes.{be_value}
use rs_lxmflite.Base.Compare.{bytes_eq}
use rs_lxmflite.Base.Int.{ℤ, pos, negsuc}
use rs_lxmflite.Base.Result.{Result, ok, err, ◌>>=◌, ◌>>◌, ok_or, refuse, malformed_payload}
use rs_lxmflite.MsgPack.{read_bin}
use rs_lxmflite.Payload.{field_audio}
use rs_lxmflite.Fields.{from_i8, validate_fields_without_scratch, field_value}
use rs_lxmflite.Propagation.{is_finite}
use rs_lxmflite.Readers.Float.{f64_of_nat, f64_of_int, widen, f64_le}

-- `data.get(from..to)`
abbrev pub get_range : List ℕ → ℕ → ℕ → Option (List ℕ)
get_range dat from to = if leb to (length dat) then some (slice dat from to) else none

-- The header of an array of two, in its three encodings.
unfoldable pub pair_header : List ℕ → Option ℕ
pair_header value =
    if bytes_eq (take 1 value) (0x92 ∷ [])
    then some 1
    else if bytes_eq (take 3 value) (0xdc ∷ 0 ∷ 2 ∷ [])
    then some 3
    else if bytes_eq (take 5 value) (0xdd ∷ 0 ∷ 0 ∷ 0 ∷ 2 ∷ [])
    then some 5
    else none

-- The number of bytes of an integer encoding with a marker of its own.
unfoldable pub integer_width : ℕ → Option ℕ
integer_width marker =
    if marker == 0xcc || marker == 0xd0
    then some 1
    else if marker == 0xcd || marker == 0xd1
    then some 2
    else if marker == 0xce || marker == 0xd2
    then some 4
    else if marker == 0xcf || marker == 0xd3
    then some 8
    else none

-- `iter().any(|&b| b != 0)`
unfoldable pub any_nonzero : List ℕ → Bool
any_nonzero [] = false
any_nonzero (b ∷ bs) = not (b == 0) || any_nonzero bs

-- The last byte of an integer whose other bytes are zero.
unfoldable pub narrow_integer : ℕ → ℕ → List ℕ → Option (ℕ × ℕ)
unfolding any_nonzero
narrow_integer marker width number =
    if any_nonzero (take (width - 1) number) || (marker == 0xd0 && ltb 0x7f (get_or number 0 0))
    then none
    else some (get_or number (width - 1) 0, width + 1)

unfoldable pub read_audio_integer : List ℕ → Option (ℕ × ℕ)
unfolding integer_width narrow_integer
read_audio_integer value =
    let marker = get_or value 0 0 in
    if leb (length value) 0
    then none
    else if leb marker 0x7f
    then some (marker, 1)
    else elim (integer_width marker) [
      | none ↦ none
      | some width ↦ elim (get_range value 1 (1 + width)) [
        | none ↦ none
        | some number ↦ narrow_integer marker width number
      ]
    ]

pub record AudioField : Type 0 where
  pub mode : ℕ
  pub bytes : List ℕ

-- The value of an audio field.
unfoldable pub audio_value : List ℕ → Result AudioField
unfolding pair_header read_audio_integer read_bin
audio_value value = do
  array_header ← ok_or (pair_header value) malformed_payload
  (mode, width) ← ok_or (read_audio_integer (drop array_header value)) malformed_payload
  let bin_start = array_header + width
  let marker = get_or value bin_start 0
  refuse (leb (length value) bin_start || not (leb 0xc4 marker && leb marker 0xc6))
      malformed_payload
  (bytes, end) ← read_bin value bin_start
  refuse (not (end == length value)) malformed_payload
  ok (record { mode = mode; bytes = bytes })

unfoldable pub audio_field : List ℕ → Result (Option AudioField)
unfolding validate_fields_without_scratch field_value audio_value
audio_field fields = do
  validate_fields_without_scratch fields
  elim (field_value fields field_audio) [
    | none ↦ ok none
    | some value ↦ audio_value value >>= λ audio. ok (some audio)
  ]

-- `FIELD_TICKET`
abbrev pub field_ticket : ℕ
field_ticket = 0x0c

pub record TicketField : Type 0 where
  pub expires : ℕ
  pub ticket : List ℕ

-- The number behind a marker of its own, as an `f64`.
unfoldable pub wide_number : ℕ → ℕ → List ℕ → ℕ
unfolding widen f64_of_nat f64_of_int
wide_number marker width bytes =
    let raw = be_value bytes in
    let modulus = 2 ^ (8 * width) in
    if marker == 0xca
    then widen raw
    else if marker == 0xcb
    then raw
    else if leb 0xcc marker && leb marker 0xcf
    then f64_of_nat raw
    else f64_of_int (if ltb (2 * raw) modulus then pos raw else negsuc (modulus - 1 - raw))

-- The widths that `read_number` gives to its markers.
unfoldable pub number_width : ℕ → Option ℕ
unfolding integer_width
number_width marker =
    if marker == 0xca then some 4 else if marker == 0xcb then some 8 else integer_width marker

unfoldable pub read_number : List ℕ → ℕ → Option (ℕ × ℕ)
unfolding number_width wide_number f64_of_nat f64_of_int from_i8
read_number dat at =
    let marker = get_or dat at 0 in
    if leb (length dat) at
    then none
    else if leb marker 0x7f
    then some (f64_of_nat marker, at + 1)
    else if leb 0xe0 marker
    then some (f64_of_int (from_i8 marker), at + 1)
    else elim (number_width marker) [
      | none ↦ none
      | some width ↦ elim (get_range dat (at + 1) (at + 1 + width)) [
        | none ↦ none
        | some bytes ↦ some (wide_number marker width bytes, at + 1 + width)
      ]
    ]

-- The value of a ticket field, at a time.
unfoldable pub ticket_value : List ℕ → ℕ → Option TicketField
unfolding pair_header read_number read_bin is_finite f64_le
ticket_value value now = elim (pair_header value) [
  | none ↦ none
  | some first ↦ elim (read_number value first) [
    | none ↦ none
    | some (expires, after) ↦ elim (read_bin value after) [
      | err e ↦ none
      | ok (ticket, end) ↦
          if not (end == length value) || not (is_finite expires) || f64_le expires now
          then none
          else if length ticket == 16
          then some (record { expires = expires; ticket = ticket })
          else none
    ]
  ]
]

unfoldable pub ticket_field : List ℕ → ℕ → Option TicketField
unfolding field_value ticket_value
ticket_field fields now = elim (field_value fields field_ticket) [
  | none ↦ none
  | some value ↦ ticket_value value now
]
