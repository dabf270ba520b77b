-- ===== src/Tests/Packet.antt =====
-- Messages in a single packet, and stamped messages, between two identities of the toy network stack.
use rs_lxmflite.Base.{
  ◌+◌, subst, sym, All, ℕ, ◌≡◌, refl, ap, ◌∙◌, inl, none, List, [], ◌∷◌, ◌++◌, arith, length, take,
  replicate, take-length_append,
}
use rs_lxmflite.Base.Result.{ok, ◌>>=◌}
use rs_lxmflite.MsgPack.{skip_value}
use rs_lxmflite.MsgPack.Grammar.{
  IsValue, short_row, fixmap, fixstr, uint8, nil_marker, positive_fixint, alone, plain, done, more,
}
use rs_lxmflite.Fields.{new_scratch}
use rs_lxmflite.Payload.{PayloadFields, EncodedField, empty, encoded, encoded_field_set, is_present}
use rs_lxmflite.Payload.FieldSet.{IsTyped}
use rs_lxmflite.Payload.Bytes.{
  ids_bytes, values_of, small_bytes, payload_bytes, bin_bytes, fields_bytes, map_header,
}
use rs_lxmflite.Message.{LxmfView, BuiltLink, build_link_inner, parse_link}
use rs_lxmflite.Message.Build.{BuffersFit}
use rs_lxmflite.Message.Encoded.{Sendable}
use rs_lxmflite.Message.RoundTrip.{hashed_for, message_for, parse_link-packed}
use rs_lxmflite.Message.Composed.{Composed}
use rs_lxmflite.Message.Ordinary.{IsText, empty-Sendable}
use rs_lxmflite.Opportunistic.{
  BuiltPacket, build_opportunistic_inner, parse_opportunistic, seal_opportunistic, parse_decrypted,
  of_crypto, parse_opportunistic_ratchet, parse_opportunistic_ratchet_hint,
  peek_source_opportunistic_ratchet,
}
use rs_lxmflite.Opportunistic.Peek.{peek-parse_hint}
use rs_lxmflite.Opportunistic.RoundTrip.{
  FrameFits, plaintext_for, parse_decrypted-plaintext,
  parse_opportunistic-build_opportunistic_inner,
}
use rs_lxmflite.Opportunistic.Sealed.{seal_opportunistic-build_link_inner}
use rs_lxmflite.Opportunistic.Parse.{parse_decrypted-parse_link}
use rs_lxmflite.Propagation.{append_recipient_stamp}
use rs_lxmflite.Propagation.Stamped.{parse_link-append_recipient_stamp}
use rs_lxmflite.Propagation.Crypt.{Encrypted, Decrypted, encrypt_message, decrypt_message}
use rs_lxmflite.Propagation.Delivery.{parse_link-decrypt_message}
use rs_lxmflite.Tests.Toy.{toy, toy_laws, toy_ecies, toy_hint, toy_in_place}

abbrev pub room : List ℕ
room = replicate 200 0

hi-Sendable : Sendable 1 (84 ∷ []) (72 ∷ 105 ∷ []) empty new_scratch
hi-Sendable = empty-Sendable 1 (84 ∷ []) (72 ∷ 105 ∷ []) new_scratch (record {
  timestamp_fits = omega arith;
  title_slice = omega arith;
  content_slice = omega arith;
  title_octets = omega arith;
  content_octets = omega arith;
})

hi_length : length (payload_bytes 1 (84 ∷ []) (72 ∷ 105 ∷ []) empty) ≡ 18
unfolding payload_bytes bin_bytes fields_bytes map_header
hi_length = refl

-- The same text with two fields of the caller's, given in the other order than that of their ids.
abbrev pub noted_fields : List EncodedField
noted_fields = (200, 0xc0 ∷ []) ∷ (5, 0xa1 ∷ 65 ∷ []) ∷ []

abbrev pub noted_ids : List ℕ
noted_ids = 32 ∷ (replicate 24 0 ++ (1 ∷ replicate 6 0))

abbrev pub noted : PayloadFields (List ℕ)
noted = encoded noted_fields noted_ids

pub noted-IsTyped : All IsTyped noted_fields
noted-IsTyped = (
  record { id_fits = omega arith; bytes = omega arith; short = omega arith },
  (record { id_fits = omega arith; bytes = omega arith; short = omega arith }, tt),
)

pub noted_accepted : encoded_field_set noted_fields ≡ ok noted_ids
unfolding encoded_field_set skip_value
noted_accepted = refl

pub hi-IsText : IsText 1 (84 ∷ []) (72 ∷ 105 ∷ [])
hi-IsText = record {
  timestamp_fits = omega arith;
  title_slice = omega arith;
  content_slice = omega arith;
  title_octets = omega arith;
  content_octets = omega arith;
}

noted-Composed : Composed 1 (84 ∷ []) (72 ∷ 105 ∷ []) noted
noted-Composed = record { text = hi-IsText; fields = (noted-IsTyped, noted_accepted) }

abbrev noted_map : List ℕ
noted_map = 0x82 ∷ 5 ∷ 0xa1 ∷ 65 ∷ 0xcc ∷ 200 ∷ 0xc0 ∷ []

noted_bytes : fields_bytes noted ≡ noted_map
unfolding fields_bytes map_header ids_bytes values_of small_bytes is_present
noted_bytes = refl

pub noted-length : length (payload_bytes 1 (84 ∷ []) (72 ∷ 105 ∷ []) noted) ≡ 24
unfolding payload_bytes bin_bytes fields_bytes map_header ids_bytes values_of small_bytes is_present
noted-length = refl

noted_frame : FrameFits toy (length (payload_bytes 1 (84 ∷ []) (72 ∷ 105 ∷ []) noted)) 200
noted_frame = record {
  small = omega arith;
  frame = omega (arith, noted-length);
  total = 136;
  cipher_len = ap (λ n. toy.ecies_ciphertext_len (80 + n)) noted-length;
  cipher_room = omega arith;
}

pub noted_buffers : BuffersFit (length (payload_bytes 1 (84 ∷ []) (72 ∷ 105 ∷ []) noted)) room room
noted_buffers = record {
  out_room = omega (arith, noted-length);
  scratch_room = omega (arith, noted-length);
  scratch_slice = omega arith;
  lower = omega (arith, noted-length);
}

noted_value : IsValue 8 (fields_bytes noted)
noted_value = subst (IsValue 8) (sym noted_bytes) (
    short_row (fixmap {n = 2} refl (omega arith) refl) (
      more (5 ∷ []) _ (alone (positive_fixint (omega arith)))
        (more (0xa1 ∷ 65 ∷ []) _ (plain (fixstr {n = 1} refl (omega arith)))
          (more (0xcc ∷ 200 ∷ []) _ (plain (uint8 refl))
            (more (0xc0 ∷ []) [] (alone (nil_marker refl)) done refl) refl)
          refl)
        refl))

parse_opportunistic-build_opportunistic_inner_example :
    (b : BuiltPacket) × (build_opportunistic_inner toy 3
        (replicate 64 9)
        none
        1
        (84 ∷ [])
        (72 ∷ 105 ∷ [])
        noted
        []
        []
        room
      ≡ ok b)
    × (parse_opportunistic toy 9 (take b.len b.out) (replicate 64 3) (replicate 400 0) new_scratch
        ≡ ok (record {
          message_id = b.message_id;
          source_hash = replicate 16 3;
          timestamp = 1;
          title = 84 ∷ [];
          content = 72 ∷ 105 ∷ [];
          fields = fields_bytes noted;
        }))
parse_opportunistic-build_opportunistic_inner_example =
    parse_opportunistic-build_opportunistic_inner toy toy_laws toy_ecies 3 9 1 (84 ∷ [])
      (72 ∷ 105 ∷ []) noted new_scratch [] [] room (replicate 400 0) noted-Composed refl noted_frame
      (omega arith)

seal_opportunistic-build_link_inner_example :
    (b : BuiltLink) × (p : BuiltPacket) × (sealed : List ℕ) × (build_link_inner toy 3
        (replicate 64 9)
        1
        (84 ∷ [])
        (72 ∷ 105 ∷ [])
        noted
        room
        room
      ≡ ok b)
    × (build_opportunistic_inner toy 3
          (replicate 64 9)
          none
          1
          (84 ∷ [])
          (72 ∷ 105 ∷ [])
          noted
          []
          []
          room
        ≡ ok p)
    × (seal_opportunistic toy b.out b.len (replicate 64 9) none [] [] ≡ ok (p.len, sealed))
    × (take p.len sealed ≡ take p.len p.out)
    × (b.message_id ≡ p.message_id)
unfolding noted_frame
seal_opportunistic-build_link_inner_example =
    seal_opportunistic-build_link_inner toy toy_laws toy_ecies 3 (replicate 64 9) none 1 (84 ∷ [])
      (72 ∷ 105 ∷ []) noted [] [] room room room noted-Composed noted_value noted_buffers
      (omega arith) noted_frame (omega arith)

parse_link-append_recipient_stamp_example :
    (b : BuiltLink) × (end : ℕ) × (stamped : List ℕ) × (build_link_inner toy 3
        (replicate 64 9)
        1
        (84 ∷ [])
        (72 ∷ 105 ∷ [])
        noted
        room
        room
      ≡ ok b)
    × (append_recipient_stamp b.out b.len (replicate 16 7) ≡ ok (end, stamped))
    × (parse_link toy 9 (take end stamped) (replicate 64 3) room new_scratch
        ≡ ok (record {
          message_id = b.message_id;
          source_hash = replicate 16 3;
          timestamp = 1;
          title = 84 ∷ [];
          content = 72 ∷ 105 ∷ [];
          fields = fields_bytes noted;
        }))
parse_link-append_recipient_stamp_example =
    parse_link-append_recipient_stamp toy toy_laws 3 9 1 (84 ∷ []) (72 ∷ 105 ∷ []) noted new_scratch
      (replicate 16 7) room room room noted-Composed refl noted_value
      (record { width = inl refl; octets = omega arith }) noted_buffers
      (omega (arith, noted-length)) (omega arith) (omega (arith, noted-length))

-- The plaintext of a message of one byte of content.
abbrev plaintext : List ℕ
plaintext =
    replicate 80 3 ++ (0x94 ∷ 0xcb ∷ 0 ∷ 0 ∷ 0 ∷ 0 ∷ 0 ∷ 0 ∷ 0 ∷ 1 ∷ 0xa0 ∷ 0xa1 ∷ 72 ∷ 0x80 ∷ [])

parse_decrypted-parse_link_example :
    parse_decrypted toy 9 (replicate 64 3) plaintext new_scratch
    ≡ parse_link toy 9 (toy.lxmf_delivery_hash 9 ++ plaintext) (replicate 64 3) room new_scratch
parse_decrypted-parse_link_example =
    parse_decrypted-parse_link toy toy_laws 9 (replicate 64 3) plaintext room new_scratch
      (omega arith) (omega arith)

-- The plaintext and the packet of the first message, and what its recipient sees.
abbrev hi_plaintext : List ℕ
hi_plaintext =
    plaintext_for toy toy_laws toy_ecies 3 (replicate 64 9)
      (payload_bytes 1 (84 ∷ []) (72 ∷ 105 ∷ []) empty)

abbrev hi_packet : List ℕ
hi_packet = replicate 32 0 ++ hi_plaintext

abbrev hi_view : LxmfView
hi_view = record {
  message_id =
      toy.sha256 (hashed_for toy toy_laws 3 9 (payload_bytes 1 (84 ∷ []) (72 ∷ 105 ∷ []) empty));
  source_hash = replicate 16 3;
  timestamp = 1;
  title = 84 ∷ [];
  content = 72 ∷ 105 ∷ [];
  fields = fields_bytes empty;
}

hi_parsed :
    parse_opportunistic_ratchet toy 9 [] hi_packet (replicate 64 3) (replicate 400 0) new_scratch
    ≡ ok (hi_view, none)
unfolding parse_opportunistic_ratchet of_crypto payload_bytes bin_bytes fields_bytes map_header
hi_parsed =
    ap (λ r. r >>= λ v. ok (v, none))
      (parse_decrypted-plaintext toy toy_laws toy_ecies 3 9 1 (84 ∷ []) (72 ∷ 105 ∷ []) empty
        new_scratch hi-Sendable (omega arith) (omega (arith, hi_length)))

peek-parse_hint_example :
    (peek_source_opportunistic_ratchet toy 9 [] hi_packet (replicate 400 0)
      ≡ ok (replicate 16 3, none))
    × (replicate 16 3 ≡ toy.delivery_destination (toy.identity_hash (replicate 64 3)))
    × (parse_opportunistic_ratchet_hint toy 9 [] none hi_packet
          (replicate 64 3)
          (replicate 400 0)
          new_scratch
        ≡ ok hi_view)
peek-parse_hint_example =
    peek-parse_hint toy toy_hint 9 [] hi_packet (replicate 64 3) (replicate 400 0) new_scratch
      hi_view none hi_parsed

-- The first message, packed for a link, and its entry for a node.
abbrev hi_message : List ℕ
hi_message =
    message_for toy toy_laws 3 9 (payload_bytes 1 (84 ∷ []) (72 ∷ 105 ∷ []) empty)
      (payload_bytes 1 (84 ∷ []) (72 ∷ 105 ∷ []) empty)

hi_accepted :
    parse_link toy 9 (take 114 (hi_message ++ replicate 50 0)) (replicate 64 3) room new_scratch
    ≡ ok hi_view
hi_accepted =
    ap (λ m. parse_link toy 9 m (replicate 64 3) room new_scratch)
      (take-length_append 114 hi_message (replicate 50 0) (omega (arith, hi_length)))
    ∙ parse_link-packed toy toy_laws 3 9 1 (84 ∷ []) (72 ∷ 105 ∷ []) empty new_scratch room
        hi-Sendable (omega (arith, hi_length)) (omega (arith, hi_length))

parse_link-decrypt_message_example :
    (e : Encrypted) × (d : Decrypted) × (encrypt_message toy
        (hi_message ++ replicate 50 0)
        114
        (replicate 64 9)
        none
        []
        []
      ≡ ok e)
    × (decrypt_message toy (take e.len e.buffer) 9 [] ≡ ok d)
    × (parse_link toy 9 (take d.len d.buffer) (replicate 64 3) room new_scratch ≡ ok hi_view)
    × (d.transient_id ≡ e.transient_id)
    × (d.ratchet ≡ none)
unfolding payload_bytes bin_bytes fields_bytes map_header
parse_link-decrypt_message_example =
    parse_link-decrypt_message toy toy_laws toy_in_place 9 (hi_message ++ replicate 50 0)
      (replicate 64 3) room 114 new_scratch hi_view [] [] 130 [] hi_accepted (omega arith)
      (omega arith) refl (omega arith) (λ e h. tt)
