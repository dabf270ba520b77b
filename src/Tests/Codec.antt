-- ===== src/Tests/Codec.antt =====
-- Runs of the MessagePack walker and of the payload encoder.
use rs_lxmflite.Base.{ℕ, ◌≤◌, ◌<◌, ◌≡◌, refl, List, [], ◌∷◌, ◌++◌, arith, replicate}
use rs_lxmflite.Base.Result.{ok, err, output_too_small, malformed_payload}
use rs_lxmflite.MsgPack.{
  skip_value, skip_level, skip_format, skip_n, body, len_at, format, read_bin, bin_header,
}
use rs_lxmflite.MsgPack.Grammar.{
  IsValue, fixarray, short_row, more, done, alone, nil_marker, positive_fixint,
}
use rs_lxmflite.MsgPack.Bounds.{skip_value_bounds}
use rs_lxmflite.MsgPack.Complete.{skip_value-IsValue}
use rs_lxmflite.MsgPack.Sound.{skip_value_sound}
use rs_lxmflite.MsgPack.Blob.{IsBlob, short, read_bin-IsBlob, read_bin_sound}
use rs_lxmflite.Payload.{
  empty, audio, pack_payload, write_payload, size_writer, write_bin, write_sized, write_fields,
  write_fields_header, write_small, size_field,
}
use rs_lxmflite.Payload.Bytes.{payload_bytes, bin_bytes, fields_bytes, map_header}
use rs_lxmflite.Payload.Size.{pack_payload_lem, packed_size_exact}

-- `[nil, 5]` behind a byte that is not part of it.
abbrev two_items : List ℕ
two_items = 0x00 ∷ 0x92 ∷ 0xc0 ∷ 0x05 ∷ 0xff ∷ []

two_items_skipped : skip_value two_items 1 0 ≡ ok 4
unfolding skip_value skip_level skip_format skip_n format
two_items_skipped = refl

-- A bin32 that claims more than the slice has, up to the whole address space.
bin32_too_long :
    skip_value (0xc6 ∷ 0xff ∷ 0xff ∷ 0xff ∷ 0xff ∷ 0x01 ∷ []) 0 0 ≡ err malformed_payload
unfolding skip_value skip_level skip_format format len_at body
bin32_too_long = refl

skip_value_bounds_example : (1 < 4) × (4 ≤ 5)
skip_value_bounds_example = skip_value_bounds two_items 1 0 4 two_items_skipped

two_items-IsValue : IsValue 9 (0x92 ∷ 0xc0 ∷ 0x05 ∷ [])
two_items-IsValue = short_row (fixarray {n = 2} refl (omega arith)) (
    more (0xc0 ∷ []) (0x05 ∷ []) (alone (nil_marker refl))
      (more (0x05 ∷ []) [] (alone (positive_fixint (omega arith))) done refl) refl)

skip_value-IsValue_example : skip_value two_items 1 0 ≡ ok 4
skip_value-IsValue_example =
    skip_value-IsValue two_items 1 0 (0x92 ∷ 0xc0 ∷ 0x05 ∷ []) (0xff ∷ []) (omega arith)
      (omega arith) (record { reads = refl; inside = omega arith }) two_items-IsValue

skip_value_sound_example : IsValue 9 (0x92 ∷ 0xc0 ∷ 0x05 ∷ [])
skip_value_sound_example =
    skip_value_sound two_items 1 0 4 (omega arith) (omega arith) two_items_skipped

-- A fixstr and a bin8 with the content `[65]`.
abbrev blobs : List ℕ
blobs = 0xa1 ∷ 65 ∷ 0xc4 ∷ 1 ∷ 65 ∷ []

read_bin-IsBlob_example : read_bin blobs 0 ≡ ok (65 ∷ [], 2)
read_bin-IsBlob_example =
    read_bin-IsBlob blobs 0 (0xa1 ∷ 65 ∷ []) (65 ∷ []) (0xc4 ∷ 1 ∷ 65 ∷ []) (omega arith)
      (record { reads = refl; inside = omega arith }) (short refl (omega arith))

bin8_read : read_bin blobs 2 ≡ ok (65 ∷ [], 5)
unfolding read_bin bin_header body
bin8_read = refl

read_bin_sound_example : IsBlob (0xc4 ∷ 1 ∷ 65 ∷ []) (65 ∷ []) × (2 < 5) × (5 ≤ 5)
read_bin_sound_example = read_bin_sound blobs 2 (omega arith) (omega arith) bin8_read

abbrev packed_hi : List ℕ
packed_hi =
    0x94 ∷ 0xcb ∷ 0 ∷ 0 ∷ 0 ∷ 0 ∷ 0 ∷ 0 ∷ 0 ∷ 1 ∷ 0xc4 ∷ 1 ∷ 84 ∷ 0xc4 ∷ 2 ∷ 72 ∷ 105 ∷ 0x80 ∷ []

pack_payload_lem_example :
    pack_payload 1 (84 ∷ []) (72 ∷ 105 ∷ []) empty (replicate 20 7)
    ≡ ok (18, packed_hi ++ (7 ∷ 7 ∷ []))
unfolding payload_bytes bin_bytes fields_bytes map_header
pack_payload_lem_example =
    pack_payload_lem 1 (84 ∷ []) (72 ∷ 105 ∷ []) empty (replicate 20 7) (omega arith) (omega arith)
      (omega arith) tt

audio_size : write_payload size_writer 0 0 1 (audio 9 3) 0 ≡ ok 24
unfolding write_payload write_bin write_sized write_fields write_fields_header write_small
    size_field
audio_size = refl

packed_size_exact_example :
    pack_payload 1 [] (72 ∷ []) (audio 9 (1 ∷ 2 ∷ 3 ∷ [])) (replicate 23 7) ≡ err output_too_small
packed_size_exact_example =
    packed_size_exact 1 [] (72 ∷ []) (audio 9 (1 ∷ 2 ∷ 3 ∷ [])) 0 24 (replicate 23 7) (omega arith)
      (omega arith) (omega arith) (omega arith) (omega arith) audio_size
