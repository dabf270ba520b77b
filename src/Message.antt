-- ===== src/Message.antt =====
-- src/lxmf.rs: the packed message for Link and Resource delivery, and the decoding that both
-- inbound paths share.
pub mod Build
pub mod Composed
pub mod Carried
pub mod Decode
pub mod Encoded
pub mod Ordinary
pub mod Authentic
pub mod Parse
pub mod Refusals
pub mod RoundTrip
pub mod Whole
use rs_lxmflite.Base.{
  ℕ, ◌+◌, ◌-◌, bit_and, Bool, true, false, not, ◌||◌, List, [], ◌∷◌, ◌++◌, leb, ltb, ◌==◌,
  if◌then◌else◌, length, get_or, set, take, drop, slice,
}
use rs_lxmflite.Base.Bytes.{be_value}
use rs_lxmflite.Base.Compare.{bytes_eq}
use rs_lxmflite.Base.Int.{ℤ}
use rs_lxmflite.Base.Result.{
  Result, ok, err, ◌>>=◌, ◌>>◌, refuse, map_err, too_long, output_too_small, malformed_payload,
  destination_mismatch, source_hash_mismatch, signature_invalid,
}
use rs_lxmflite.MsgPack.{skip_value, read_bin}
use rs_lxmflite.Fields.{validate_fields}
use rs_lxmflite.Payload.{
  PayloadFields, empty, audio, encoded, EncodedField, copy_at, pack_payload, encoded_field_set,
  lxmf_packed_prefix,
}
use rs_lxmflite.Rns.{Rns}

-- `LxmfView`; the timestamp is the bit pattern of an `f64`.
pub record LxmfView : Type 0 where
  pub message_id : List ℕ
  pub source_hash : List ℕ
  pub timestamp : ℕ
  pub title : List ℕ
  pub content : List ℕ
  pub fields : List ℕ

-- What `build_link_inner` leaves in the caller's buffers, and the length that it returns.
pub record BuiltLink : Type 0 where
  pub len : ℕ
  pub out : List ℕ
  pub scratch : List ℕ
  pub dest_hash : List ℕ
  pub message_id : List ℕ

-- The elements of a decoded payload array.
pub record Decoded : Type 0 where
  pub timestamp : ℕ
  pub title : List ℕ
  pub content : List ℕ
  pub after_content : ℕ
  pub after_fields : ℕ

-- `[timestamp, title, content, fields, ..]` at the start of `payload`.
unfoldable pub decode_payload : List ℕ → List ℤ → Result Decoded
decode_payload payload keys = do
  refuse (leb (length payload) 0 || not (bit_and (get_or payload 0 0) 0xf0 == 0x90))
      malformed_payload
  refuse (ltb (bit_and (get_or payload 0 0) 0x0f) 4) malformed_payload
  refuse (ltb (length payload) 10 || not (get_or payload 1 0 == 0xcb)) malformed_payload
  (title, after_title) ← read_bin payload 10
  (content, after_content) ← read_bin payload after_title
  after_fields ← skip_value payload after_content 0
  (validate_fields (slice payload after_content after_fields) keys).0
  ok (record {
    timestamp = be_value (slice payload 2 10);
    title = title;
    content = content;
    after_content = after_content;
    after_fields = after_fields;
  })

module _ (rns : Rns) where
  open rns use {
    LocalIdentity, lxmf_delivery_hash, sign, sha256, identity_hash, delivery_destination, verify,
  }

  -- The tail of `build_link_inner`, once the payload of `plen` bytes stands in `packed`, which is
  -- the scratch with the payload from byte 32 on: hash, sign, and fill the output.
  unfoldable pub assemble_link : LocalIdentity → List ℕ → List ℕ → ℕ → List ℕ → List ℕ → BuiltLink
  assemble_link source dest_hash source_hash plen packed out =
      let headed = copy_at 16 source_hash (copy_at 0 dest_hash packed) in
      let hash = sha256 (take (32 + plen) headed) in
      let hashed = copy_at (32 + plen) hash headed in
      let signature = sign source (take (64 + plen) hashed) in
      let prefixed = copy_at 32 signature (copy_at 16 source_hash (copy_at 0 dest_hash out)) in
      record {
        len = lxmf_packed_prefix + plen;
        out = copy_at lxmf_packed_prefix (slice hashed 32 (32 + plen)) prefixed;
        scratch = hashed;
        dest_hash = dest_hash;
        message_id = hash;
      }

  unfoldable pub build_link_inner :
      LocalIdentity
      → List ℕ
      → ℕ
      → List ℕ
      → List ℕ
      → PayloadFields (List ℕ)
      → List ℕ
      → List ℕ
      → Result BuiltLink
  unfolding assemble_link
  build_link_inner source recipient timestamp title content fields out scratch = do
    refuse (ltb (length scratch) (64 + 11) || ltb (length out) (lxmf_packed_prefix + 11))
        output_too_small
    let dest_hash = delivery_destination (identity_hash recipient)
    let source_hash = lxmf_delivery_hash source
    (plen, middle) ←
        map_err (λ _. too_long)
          (pack_payload timestamp title content fields (slice scratch 32 (length scratch - 32)))
    refuse (ltb (length out) (lxmf_packed_prefix + plen)) too_long
    ok (assemble_link source dest_hash source_hash plen (copy_at 32 middle scratch) out)

  unfoldable pub build_link :
      LocalIdentity → List ℕ → ℕ → List ℕ → List ℕ → List ℕ → List ℕ → Result BuiltLink
  unfolding build_link_inner
  build_link source recipient timestamp title content out scratch =
      build_link_inner source recipient timestamp title content empty out scratch

  unfoldable pub build_link_with_audio :
      LocalIdentity → List ℕ → ℕ → List ℕ → List ℕ → ℕ → List ℕ → List ℕ → List ℕ → Result BuiltLink
  unfolding build_link_inner
  build_link_with_audio source recipient timestamp title content mode bytes out scratch =
      build_link_inner source recipient timestamp title content (audio mode bytes) out scratch

  unfoldable pub build_link_with_fields :
      LocalIdentity
      → List ℕ
      → ℕ
      → List ℕ
      → List ℕ
      → List EncodedField
      → List ℕ
      → List ℕ
      → Result BuiltLink
  unfolding build_link_inner encoded_field_set
  build_link_with_fields source recipient timestamp title content fields out scratch = do
    present ← encoded_field_set fields
    build_link_inner source recipient timestamp title content (encoded fields present) out scratch

  -- The hash behind `n` bytes of payload in the marked scratch, and the signature over both.
  unfoldable pub verify_marked : ℕ → List ℕ → List ℕ → List ℕ → Result (List ℕ)
  verify_marked n marked source_public_key signature = do
    let hash = sha256 (take (32 + n) marked)
    let hashed = copy_at (32 + n) hash marked
    refuse (not (verify (drop 32 source_public_key) (take (64 + n) hashed) signature))
        signature_invalid
    ok hash

  -- The tail of `parse_link`: the four elements are hashed behind both destination hashes, with the
  -- array's marker forced to 0x94, and the signature is verified over that and the hash.
  unfoldable pub authenticate :
      List ℕ → List ℕ → List ℕ → List ℕ → List ℕ → List ℕ → Decoded → Result LxmfView
  unfolding verify_marked
  authenticate dest_hash source_hash signature payload source_public_key scratch d = do
    let p4_len = d.after_fields
    refuse (ltb (length scratch) (64 + p4_len)) output_too_small
    let copied =
        copy_at 32 (take p4_len payload) (copy_at 16 source_hash (copy_at 0 dest_hash scratch))
    hash ← verify_marked p4_len (set copied 32 0x94) source_public_key signature
    ok (record {
      message_id = hash;
      source_hash = source_hash;
      timestamp = d.timestamp;
      title = d.title;
      content = d.content;
      fields = slice payload d.after_content d.after_fields;
    })

  unfoldable pub parse_link : LocalIdentity → List ℕ → List ℕ → List ℕ → List ℤ → Result LxmfView
  unfolding decode_payload authenticate
  parse_link me dat source_public_key scratch keys = do
    refuse (ltb (length dat) (lxmf_packed_prefix + 1)) malformed_payload
    let dest_hash = slice dat 0 16
    refuse (not (bytes_eq dest_hash (lxmf_delivery_hash me))) destination_mismatch
    let source_hash = slice dat 16 32
    let signature = slice dat 32 96
    let payload = drop 96 dat
    let claimed = delivery_destination (identity_hash source_public_key)
    refuse (not (bytes_eq claimed source_hash)) source_hash_mismatch
    d ← decode_payload payload keys
    authenticate dest_hash source_hash signature payload source_public_key scratch d
