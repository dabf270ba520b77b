-- ===== src/Tests/Link.antt =====
-- Messages over a link between two identities of the toy network stack.
use rs_lxmflite.Base.{ℕ, ◌+◌, ◌≡◌, refl, List, [], ◌∷◌, arith, length, take, drop, slice, replicate}
use rs_lxmflite.Base.Result.{ok}
use rs_lxmflite.MsgPack.Grammar.{IsRow, short_row, fixmap}
use rs_lxmflite.MsgPack.Blob.{short}
use rs_lxmflite.Fields.{new_scratch, validate_fields}
use rs_lxmflite.Payload.{empty, audio}
use rs_lxmflite.Payload.Bytes.{payload_bytes, bin_bytes, fields_bytes, map_header, small_bytes}
use rs_lxmflite.Message.{
  LxmfView, Decoded, BuiltLink, decode_payload, build_link_inner, build_link, build_link_with_audio,
  parse_link,
}
use rs_lxmflite.Message.Build.{BuffersFit, packed_message, hashed_part, build_link_inner_lem}
use rs_lxmflite.Message.Decode.{decode_payload-laid_out}
use rs_lxmflite.Message.Authentic.{IsSigned, parse_link_sound}
use rs_lxmflite.Message.Parse.{parse_link_lem}
use rs_lxmflite.Tests.Toy.{toy, toy_laws}
use rs_lxmflite.Message.Ordinary.{parse_link-build_link, parse_link-build_link_with_audio}

abbrev buffer : List ℕ
buffer = replicate 160 0

hi_fits : BuffersFit (length (payload_bytes 1 (84 ∷ []) (72 ∷ 105 ∷ []) empty)) buffer buffer
unfolding payload_bytes bin_bytes fields_bytes map_header
hi_fits = record {
  out_room = omega arith;
  scratch_room = omega arith;
  scratch_slice = omega arith;
  lower = omega arith;
}

build_link_inner_lem_example :
    (b : BuiltLink) × (build_link_inner toy 3
        (replicate 64 9)
        1
        (84 ∷ [])
        (72 ∷ 105 ∷ [])
        empty
        buffer
        buffer
      ≡ ok b)
    × (b.len ≡ 96 + length (payload_bytes 1 (84 ∷ []) (72 ∷ 105 ∷ []) empty))
    × (take b.len b.out
        ≡ packed_message
            (replicate 16 9)
            (replicate 16 3)
            (replicate 64 3)
            (payload_bytes 1 (84 ∷ []) (72 ∷ 105 ∷ []) empty))
    × (b.dest_hash ≡ replicate 16 9)
    × (b.message_id
        ≡ toy.sha256 (
            hashed_part
              (replicate 16 9)
              (replicate 16 3)
              (payload_bytes 1 (84 ∷ []) (72 ∷ 105 ∷ []) empty)))
    × (drop b.len b.out ≡ drop b.len buffer)
build_link_inner_lem_example =
    build_link_inner_lem toy toy_laws 3 (replicate 64 9) 1 (84 ∷ []) (72 ∷ 105 ∷ []) empty buffer
      buffer (omega arith) (omega arith) tt hi_fits

parse_link-build_link_example :
    (b : BuiltLink) × (build_link toy 3 (replicate 64 9) 1 (84 ∷ []) (72 ∷ 105 ∷ []) buffer buffer
      ≡ ok b)
    × (parse_link toy 9 (take b.len b.out) (replicate 64 3) buffer new_scratch
        ≡ ok (record {
          message_id = b.message_id;
          source_hash = replicate 16 3;
          timestamp = 1;
          title = 84 ∷ [];
          content = 72 ∷ 105 ∷ [];
          fields = 0x80 ∷ [];
        }))
parse_link-build_link_example =
    parse_link-build_link toy toy_laws 3 9 1 (84 ∷ []) (72 ∷ 105 ∷ []) new_scratch buffer buffer
      buffer
      (record {
        timestamp_fits = omega arith;
        title_slice = omega arith;
        content_slice = omega arith;
        title_octets = omega arith;
        content_octets = omega arith;
      })
      hi_fits (omega (arith, hi_fits))

sound_fits : BuffersFit (length (payload_bytes 1 [] (72 ∷ []) (audio 9 (1 ∷ 2 ∷ [])))) buffer buffer
unfolding payload_bytes bin_bytes fields_bytes map_header small_bytes
sound_fits = record {
  out_room = omega arith;
  scratch_room = omega arith;
  scratch_slice = omega arith;
  lower = omega arith;
}

parse_link-build_link_with_audio_example :
    (b : BuiltLink) × (build_link_with_audio toy 3
        (replicate 64 9)
        1
        []
        (72 ∷ [])
        9
        (1 ∷ 2 ∷ [])
        buffer
        buffer
      ≡ ok b)
    × (parse_link toy 9 (take b.len b.out) (replicate 64 3) buffer new_scratch
        ≡ ok (record {
          message_id = b.message_id;
          source_hash = replicate 16 3;
          timestamp = 1;
          title = [];
          content = 72 ∷ [];
          fields = 0x81 ∷ 0x07 ∷ 0x92 ∷ 9 ∷ 0xc4 ∷ 2 ∷ 1 ∷ 2 ∷ [];
        }))
unfolding bin_bytes small_bytes
parse_link-build_link_with_audio_example =
    parse_link-build_link_with_audio toy toy_laws 3 9 1 [] (72 ∷ []) 9 (1 ∷ 2 ∷ []) new_scratch
      buffer buffer buffer
      (record {
        timestamp_fits = omega arith;
        title_slice = omega arith;
        content_slice = omega arith;
        title_octets = tt;
        content_octets = omega arith;
      })
      (omega arith) (omega arith) (omega arith) refl sound_fits (omega (arith, sound_fits))

-- The elements of a payload with a fifth one, a stamp of one byte, behind them.
abbrev stamped : List ℕ
stamped =
    0x95 ∷ 0xcb ∷ 0 ∷ 0 ∷ 0 ∷ 0 ∷ 0 ∷ 0 ∷ 0 ∷ 1 ∷ 0xa1 ∷ 84 ∷ 0xa1 ∷ 72 ∷ 0x80 ∷ 0xc4 ∷ 1 ∷ 9 ∷ []

empty_map_valid : (validate_fields (0x80 ∷ []) new_scratch).0 ≡ ok tt
unfolding validate_fields
empty_map_valid = refl

stamped_decoded :
    decode_payload stamped new_scratch
    ≡ ok (record {
      timestamp = 1;
      title = 84 ∷ [];
      content = 72 ∷ [];
      after_content = 14;
      after_fields = 15;
    })
stamped_decoded =
    decode_payload-laid_out 0x95 (0 ∷ 0 ∷ 0 ∷ 0 ∷ 0 ∷ 0 ∷ 0 ∷ 1 ∷ []) (0xa1 ∷ 84 ∷ [])
      (0xa1 ∷ 72 ∷ []) (0x80 ∷ []) (0xc4 ∷ 1 ∷ 9 ∷ []) (84 ∷ []) (72 ∷ []) new_scratch
      (record { high = refl; low = omega arith }) refl (short refl (omega arith))
      (short refl (omega arith)) (short_row (fixmap {n = 0} refl (omega arith) refl) IsRow.done)
      empty_map_valid stamped refl (omega arith) (omega arith)

decode_payload-laid_out_example :
    decode_payload stamped new_scratch
    ≡ ok (record {
      timestamp = 1;
      title = 84 ∷ [];
      content = 72 ∷ [];
      after_content = 14;
      after_fields = 15;
    })
decode_payload-laid_out_example =
    decode_payload-laid_out 0x95 (0 ∷ 0 ∷ 0 ∷ 0 ∷ 0 ∷ 0 ∷ 0 ∷ 1 ∷ []) (0xa1 ∷ 84 ∷ [])
      (0xa1 ∷ 72 ∷ []) (0x80 ∷ []) (0xc4 ∷ 1 ∷ 9 ∷ []) (84 ∷ []) (72 ∷ []) new_scratch
      (record { high = refl; low = omega arith }) refl (short refl (omega arith))
      (short refl (omega arith)) (short_row (fixmap {n = 0} refl (omega arith) refl) IsRow.done)
      empty_map_valid stamped refl (omega arith) (omega arith)

abbrev stamped_message : List ℕ
stamped_message = packed_message (replicate 16 9) (replicate 16 3) (replicate 64 3) stamped

abbrev stamped_view : LxmfView
stamped_view = record {
  message_id = replicate 32 47;
  source_hash = replicate 16 3;
  timestamp = 1;
  title = 84 ∷ [];
  content = 72 ∷ [];
  fields = 0x80 ∷ [];
}

stamped_parsed :
    parse_link toy 9 stamped_message (replicate 64 3) buffer new_scratch ≡ ok stamped_view
stamped_parsed =
    parse_link_lem toy toy_laws 9 (replicate 64 3) buffer new_scratch
      (packed_message (replicate 16 9) (replicate 16 3) (replicate 64 3) stamped) (replicate 64 3)
      (take 14 (drop 1 stamped)) (0xc4 ∷ 1 ∷ 9 ∷ []) 0x95
      (record {
        timestamp = 1;
        title = 84 ∷ [];
        content = 72 ∷ [];
        after_content = 14;
        after_fields = 15;
      })
      refl refl stamped_decoded refl (omega arith) refl

parse_link_sound_example :
    (slice stamped_message 0 16 ≡ replicate 16 9)
    × (replicate 16 3 ≡ slice stamped_message 16 32)
    × ((d : Decoded) × (decode_payload (drop 96 stamped_message) new_scratch ≡ ok d)
        × IsSigned toy
            (replicate 16 9)
            (replicate 16 3)
            (replicate 64 3)
            stamped
            (replicate 64 3)
            buffer
            d
            stamped_view)
parse_link_sound_example =
    parse_link_sound toy 9 stamped_message (replicate 64 3) buffer new_scratch stamped_view
      stamped_parsed

parse_link_lem_example :
    parse_link toy 9
      (packed_message (replicate 16 9) (replicate 16 3) (replicate 64 3) stamped)
      (replicate 64 3)
      buffer
      new_scratch
    ≡ ok (record {
      message_id = replicate 32 47;
      source_hash = replicate 16 3;
      timestamp = 1;
      title = 84 ∷ [];
      content = 72 ∷ [];
      fields = 0x80 ∷ [];
    })
parse_link_lem_example =
    parse_link_lem toy toy_laws 9 (replicate 64 3) buffer new_scratch
      (packed_message (replicate 16 9) (replicate 16 3) (replicate 64 3) stamped) (replicate 64 3)
      (take 14 (drop 1 stamped)) (0xc4 ∷ 1 ∷ 9 ∷ []) 0x95
      (record {
        timestamp = 1;
        title = 84 ∷ [];
        content = 72 ∷ [];
        after_content = 14;
        after_fields = 15;
      })
      refl refl stamped_decoded refl (omega arith) refl
