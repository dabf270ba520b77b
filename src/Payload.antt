-- ===== src/Payload.antt =====
-- src/lxmf.rs: the payload encoder. One encoder runs over two writers: into a caller's buffer, and
-- into a count.
pub mod Bits
pub mod Bytes
pub mod Copies
pub mod Emits
pub mod FieldSet
pub mod Size
pub mod Sorted
pub mod Written
use rs_lxmflite.Base.{
  ℕ, zero, suc, ◌+◌, ◌/◌, ◌%◌, ◌^◌, bit_and, bit_or, Bool, List, [], ◌∷◌, ◌++◌, leb, ltb, ◌==◌,
  if◌then◌else◌, length, get_or, set, take, drop, replicate, checked_add, usize_mod,
}
use rs_lxmflite.Base.Bytes.{be16, be32, be64}
use rs_lxmflite.Base.Result.{
  Result, ok, err, ◌>>=◌, ◌>>◌, ok_or, refuse, too_long, output_too_small, too_many_fields,
  duplicate_field, malformed_payload,
}
use rs_lxmflite.MsgPack.{skip_value}

-- The trait `PayloadWriter`. A method returns the writer's new state; a writer that has failed is
-- used no more, and its state is not kept.
pub record PayloadWriter : Type 1 where
  pub State : Type 0
  pub Field : Type 0
  pub write : State → List ℕ → Result State
  pub field_len : Field → ℕ
  pub field : State → Field → Result State

pub record SliceWriter : Type 0 where
  pub output : List ℕ
  pub position : ℕ

-- `output[at..at + bytes.len()].copy_from_slice(bytes)`, in range.
abbrev pub copy_at : ℕ → List ℕ → List ℕ → List ℕ
copy_at at bytes output = take at output ++ (bytes ++ drop (at + length bytes) output)

unfoldable pub slice_write : SliceWriter → List ℕ → Result SliceWriter
slice_write w bytes = do
  end ← ok_or (checked_add w.position (length bytes)) too_long
  refuse (ltb (length w.output) end) output_too_small
  ok (record { output = copy_at w.position bytes w.output; position = end })

abbrev pub slice_writer : PayloadWriter
slice_writer = record {
  State = SliceWriter;
  Field = List ℕ;
  write = slice_write;
  field_len = length;
  field = slice_write;
}

unfoldable pub size_field : ℕ → ℕ → Result ℕ
size_field n len = ok_or (checked_add n len) too_long

abbrev pub size_writer : PayloadWriter
size_writer = record {
  State = ℕ;
  Field = ℕ;
  write = λ n bytes. size_field n (length bytes);
  field_len = λ n. n;
  field = size_field;
}

abbrev pub max_fields : ℕ
max_fields = 64

abbrev pub field_audio : ℕ
field_audio = 0x07

-- One caller-encoded outer field: its id and the bytes of its value.
abbrev pub EncodedField : Type 0
EncodedField = ℕ × List ℕ

pub data PayloadFields (F : Type 0) : Type 0 where
  empty : PayloadFields F
  audio : ℕ → F → PayloadFields F
  encoded : List EncodedField → List ℕ → PayloadFields F

-- `present[id / 8] & (1 << (id % 8)) != 0`
unfoldable pub is_present : List ℕ → ℕ → Bool
is_present present id =
    if bit_and (get_or present (id / 8) 0) (2 ^ (id % 8)) == 0 then Bool.false else Bool.true

module _ (w : PayloadWriter) where
  open w use {State, Field, write, field_len, field}

  -- `length as u8` and `length as u16` keep the low bits; the big-endian bytes do that by themselves.
  unfoldable pub write_sized : ℕ → Field → State → Result State
  write_sized len f s =
      if leb len 0xff
      then (write s (0xc4 ∷ (len % 256) ∷ []) >>= λ s. field s f)
      else if leb len 0xffff
      then (write s (0xc5 ∷ []) >>= λ s. write s (be16 len) >>= λ s. field s f)
      else do
        refuse (leb usize_mod len) too_long
        s ← write s (0xc6 ∷ [])
        s ← write s (be32 len)
        field s f

  unfoldable pub write_bin : Field → State → Result State
  unfolding write_sized
  write_bin f = write_sized (field_len f) f

  unfoldable pub write_fields_header : ℕ → State → Result State
  write_fields_header count s = do
    refuse (ltb max_fields count) too_many_fields
    write s (if ltb count 16 then bit_or 0x80 (count % 256) ∷ [] else 0xde ∷ 0 ∷ (count % 256) ∷ [])

  -- An id or an audio mode as a minimal MessagePack unsigned integer.
  unfoldable pub write_small : ℕ → State → Result State
  write_small n s = if leb n 0x7f then write s (n ∷ []) else write s (0xcc ∷ n ∷ [])

  -- The inner loop: the values of the entries that have this id.
  unfoldable pub write_values : ℕ → List EncodedField → State → Result State
  write_values id [] s = ok s
  write_values id ((entry_id, value) ∷ entries) s = do
    s ← if entry_id == id then write s value else ok s
    write_values id entries s

  -- The outer loop: `n` ids from `id` on.
  unfoldable pub write_ids : List EncodedField → List ℕ → ℕ → ℕ → State → Result State
  write_ids entries present zero id s = ok s
  write_ids entries present (suc n) id s = do
    s ← if is_present present id then (do s ← write_small id s; write_values id entries s) else ok s
    write_ids entries present n (id + 1) s

  unfoldable pub write_fields : PayloadFields Field → State → Result State
  unfolding write_fields_header write_small write_bin write_ids write_values
  write_fields empty s = write_fields_header 0 s
  write_fields (audio mode bytes) s = do
    s ← write_fields_header 1 s
    s ← write s (field_audio ∷ 0x92 ∷ [])
    s ← write_small mode s
    write_bin bytes s
  write_fields (encoded entries present) s = do
    s ← write_fields_header (length entries) s
    write_ids entries present 256 0 s

  -- A timestamp is the bit pattern of an `f64`.
  unfoldable pub write_payload : ℕ → Field → Field → PayloadFields Field → State → Result State
  unfolding write_bin write_fields
  write_payload timestamp title content fields s = do
    s ← write s (0x94 ∷ 0xcb ∷ [])
    s ← write s (be64 timestamp)
    s ← write_bin title s
    s ← write_bin content s
    write_fields fields s

-- The loop of `encoded_field_set` over the entries.
unfoldable pub field_set_loop : List ℕ → List EncodedField → Result (List ℕ)
unfolding is_present
field_set_loop present [] = ok present
field_set_loop present ((id, value) ∷ fields) = do
  refuse (is_present present id) duplicate_field
  let present' = set present (id / 8) (bit_or (get_or present (id / 8) 0) (2 ^ (id % 8)))
  end ← skip_value value 0 1
  refuse (if end == length value then Bool.false else Bool.true) malformed_payload
  field_set_loop present' fields

unfoldable pub encoded_field_set : List EncodedField → Result (List ℕ)
unfolding field_set_loop
encoded_field_set fields = do
  refuse (ltb max_fields (length fields)) too_many_fields
  field_set_loop (replicate 32 0) fields

-- `LXMF_DEST_LENGTH + PLAINTEXT_PREFIX`, with `PLAINTEXT_PREFIX` = 16 + 64.
abbrev pub lxmf_packed_prefix : ℕ
lxmf_packed_prefix = 96

unfoldable pub packed_len : ℕ → ℕ → Result ℕ
unfolding write_payload size_field
packed_len title_len content_len =
    write_payload size_writer 0 title_len content_len empty lxmf_packed_prefix

unfoldable pub packed_len_with_audio : ℕ → ℕ → ℕ → ℕ → Result ℕ
unfolding write_payload size_field
packed_len_with_audio title_len content_len mode audio_len =
    write_payload size_writer 0 title_len content_len (audio mode audio_len) lxmf_packed_prefix

unfoldable pub packed_len_with_fields : ℕ → ℕ → List EncodedField → Result ℕ
unfolding write_payload size_field encoded_field_set
packed_len_with_fields title_len content_len fields = do
  present ← encoded_field_set fields
  write_payload size_writer 0 title_len content_len (encoded fields present) lxmf_packed_prefix

-- The packed length, and the buffer with the payload at its front.
unfoldable pub pack_payload :
    ℕ → List ℕ → List ℕ → PayloadFields (List ℕ) → List ℕ → Result (ℕ × List ℕ)
unfolding write_payload slice_write
pack_payload timestamp title content fields out = do
  w ←
      write_payload slice_writer timestamp title content fields
        (record { output = out; position = 0 })
  ok (w.position, w.output)
