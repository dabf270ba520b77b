-- ===== src/Tests/Carried.antt =====
-- A message with fields of the caller's, from one identity of the toy network stack to another.
use rs_lxmflite.Base.{ℕ, ◌≡◌, [], ◌∷◌, refl, arith, take, replicate}
use rs_lxmflite.Base.Result.{ok}
use rs_lxmflite.Fields.{new_scratch, field_value}
use rs_lxmflite.Payload.Bytes.{fields_bytes}
use rs_lxmflite.Message.{BuiltLink, build_link_with_fields, parse_link}
use rs_lxmflite.Message.Carried.{given, parse_link-build_link_with_fields}
use rs_lxmflite.Tests.Toy.{toy, toy_laws}
use rs_lxmflite.Tests.Packet.{
  room, noted, noted_fields, noted_ids, noted-IsTyped, noted_accepted, noted-length, noted_buffers,
  hi-IsText,
}

parse_link-build_link_with_fields_example :
    (b : BuiltLink) × (build_link_with_fields toy 3
        (replicate 64 9)
        1
        (84 ∷ [])
        (72 ∷ 105 ∷ [])
        noted_fields
        room
        room
      ≡ ok b)
    × (parse_link toy 9 (take b.len b.out) (replicate 64 3) room new_scratch
        ≡ ok (record {
          message_id = b.message_id;
          source_hash = replicate 16 3;
          timestamp = 1;
          title = 84 ∷ [];
          content = 72 ∷ 105 ∷ [];
          fields = fields_bytes noted;
        }))
    × ((id : ℕ) → field_value (fields_bytes noted) id ≡ given id noted_fields)
parse_link-build_link_with_fields_example =
    parse_link-build_link_with_fields toy toy_laws 3 9 1 (84 ∷ []) (72 ∷ 105 ∷ []) noted_fields
      noted_ids new_scratch room room room hi-IsText noted-IsTyped noted_accepted refl noted_buffers
      (omega (arith, noted-length))
