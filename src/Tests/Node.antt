-- ===== src/Tests/Node.antt =====
-- Requests to a node, its answers and its announce.
use rs_lxmflite.Base.{
  ℕ, ◌+◌, ◌≡◌, refl, true, false, none, some, List, [], ◌∷◌, ◌++◌, arith, take, replicate,
}
use rs_lxmflite.Base.Result.{ok, ◌>>=◌, ◌>>◌, refuse, output_too_small, too_long}
use rs_lxmflite.MsgPack.{skip_value}
use rs_lxmflite.Fields.{value_as_bytes}
use rs_lxmflite.MsgPack.Grammar.{IsValue}
use rs_lxmflite.Payload.{empty, audio}
use rs_lxmflite.Payload.Bytes.{payload_bytes, bin_bytes, fields_bytes, map_header, small_bytes}
use rs_lxmflite.Message.{build_link_inner}
use rs_lxmflite.Message.Refusals.{build_link_inner-refuses}
use rs_lxmflite.Propagation.{ArrayItems, available_at}
use rs_lxmflite.Propagation.Announce.{NodeAnnounce, parse_node_announce}
use rs_lxmflite.Propagation.Bounded.{IsBounded, parse_node_announce-IsBounded}
use rs_lxmflite.Propagation.Request.{fetch, body_len, build_get_request}
use rs_lxmflite.Propagation.Requested.{request_bytes, build_get_request_lem}
use rs_lxmflite.Readers.{audio_field}
use rs_lxmflite.Readers.Audio.{audio_field-audio}
use rs_lxmflite.Tests.Toy.{toy, toy_laws}

-- A list of two ids.
abbrev two_ids : List ℕ
two_ids = 0x92 ∷ 0xc4 ∷ 32 ∷ (replicate 32 1 ++ (0xc4 ∷ 32 ∷ replicate 32 2))

abbrev two_items : ArrayItems
two_items = record { dat = two_ids; pos = 1; remaining = 2 }

second_id : available_at two_ids 1 ≡ ok (some (replicate 32 2), 2)
unfolding available_at skip_value value_as_bytes
second_id = refl

abbrev announce : List ℕ
announce = 0x97 ∷ 0xc2 ∷ 1 ∷ 0xc3 ∷ 10 ∷ 20 ∷ 0x93 ∷ 16 ∷ 3 ∷ 18 ∷ 0x80 ∷ []

abbrev announced : NodeAnnounce
announced = record {
  timebase = 1;
  enabled = true;
  transfer_limit_kb = 10;
  sync_limit_kb = 20;
  stamp_cost = 16;
  stamp_flex = 3;
  peering_cost = 18;
  name = none;
}

announce_parsed : parse_node_announce announce ≡ some announced
unfolding parse_node_announce skip_value
announce_parsed = refl

parse_node_announce-IsBounded_example : IsBounded announced
parse_node_announce-IsBounded_example =
    parse_node_announce-IsBounded announce announced announce_parsed

build_get_request_lem_example :
    (after : List ℕ) × (build_get_request toy 0x4024000000000000
        (fetch (replicate 32 1) 1000)
        (replicate 80 0)
      ≡ ok (28 + body_len (fetch (replicate 32 1) 1000), after))
    × (take (28 + body_len (fetch (replicate 32 1) 1000)) after
        ≡ request_bytes toy 0x4024000000000000 (fetch (replicate 32 1) 1000))
    × IsValue 9 (request_bytes toy 0x4024000000000000 (fetch (replicate 32 1) 1000))
unfolding build_get_request
build_get_request_lem_example =
    build_get_request_lem toy toy_laws 0x4024000000000000 (fetch (replicate 32 1) 1000)
      (replicate 80 0) refl refl (refl, refl) (omega arith)

audio_field-audio_example :
    audio_field (fields_bytes (audio 3 (1 ∷ 2 ∷ [])))
    ≡ ok (some (record { mode = 3; bytes = 1 ∷ 2 ∷ [] }))
unfolding fields_bytes map_header small_bytes bin_bytes
audio_field-audio_example =
    audio_field-audio 3 (1 ∷ 2 ∷ []) (omega arith) (omega arith) (omega arith) (omega arith)

build_link_inner-refuses_example :
    (build_link_inner toy 3
        (replicate 64 9)
        1
        []
        (replicate 30 72)
        empty
        (replicate 120 0)
        (replicate 90 0)
      >>= λ b. ok tt)
    ≡ (refuse false output_too_small >> refuse true too_long)
unfolding payload_bytes bin_bytes fields_bytes map_header
build_link_inner-refuses_example =
    build_link_inner-refuses toy 3 (replicate 64 9) 1 [] (replicate 30 72) empty (replicate 120 0)
      (replicate 90 0) (omega arith) (omega arith) tt (omega arith)
