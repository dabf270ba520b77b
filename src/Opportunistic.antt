-- ===== src/Opportunistic.antt =====
-- src/lxmf.rs: messages in a single encrypted packet, built, sealed, parsed and peeked at.
pub mod Build
pub mod Parse
pub mod Peek
pub mod RoundTrip
pub mod Seal
pub mod Sealed
use rs_lxmflite.Base.{
  ℕ, ◌+◌, ◌-◌, Bool, not, ◌||◌, Option, none, some, List, [], ◌∷◌, leb, ltb, ◌==◌, if◌then◌else◌,
  length, get_or, set, take, drop, slice, replicate,
}
use rs_lxmflite.Base.Compare.{bytes_eq}
use rs_lxmflite.Base.Int.{ℤ}
use rs_lxmflite.Base.Result.{
  Result, ok, err, ◌>>=◌, ◌>>◌, refuse, map_err, LxmfError, too_long, output_too_small, crypto,
  malformed_payload, destination_mismatch, source_hash_mismatch,
}
use rs_lxmflite.MsgPack.{skip_value}
use rs_lxmflite.Payload.{
  PayloadFields, empty, encoded, EncodedField, copy_at, pack_payload, encoded_field_set,
  lxmf_packed_prefix,
}
use rs_lxmflite.Rns.{
  Rns, CryptoError, CryptoResult, plaintext_too_long, out_too_small, authentication_failed, done,
  failed,
}
use rs_lxmflite.Message.{LxmfView, Decoded, decode_payload, verify_marked}

-- `LxmfError::from`
unfoldable pub from_crypto : CryptoError → LxmfError
from_crypto plaintext_too_long = too_long
from_crypto out_too_small = output_too_small
from_crypto authentication_failed = crypto

-- `?` on a result of the crypto functions.
unfoldable pub of_crypto : {A : Type 0} → CryptoResult A → Result A
unfolding from_crypto
of_crypto (done a) = ok a
of_crypto (failed e) = err (from_crypto e)

-- `SOURCE_HASH + SIGNATURE`, in front of the payload in a plaintext.
abbrev pub plaintext_prefix : ℕ
plaintext_prefix = 80

-- What a builder leaves in the caller's buffers, and the length that it returns.
pub record BuiltPacket : Type 0 where
  pub len : ℕ
  pub out : List ℕ
  pub dest_hash : List ℕ
  pub message_id : List ℕ

-- `OutputTooSmall` of the fixed payload buffer is `TooLong`.
unfoldable pub frame_error : LxmfError → LxmfError
frame_error output_too_small = too_long
frame_error other = other

-- The guards of `seal_opportunistic` on the framing of the packed message.
unfoldable pub seal_guards : List ℕ → ℕ → Result (Unit {0})
seal_guards buffer packed_len = do
  refuse (leb packed_len lxmf_packed_prefix || ltb (length buffer) packed_len) malformed_payload
  refuse
      (not
        (get_or buffer lxmf_packed_prefix 0 == 0x94 || get_or buffer lxmf_packed_prefix 0 == 0x95))
      malformed_payload
  end ← skip_value (take packed_len buffer) lxmf_packed_prefix 0
  refuse (not (end == packed_len)) malformed_payload

-- The announced ratchet, or the first half of the public key.
unfoldable pub target_key : List ℕ → Option (List ℕ) → List ℕ
target_key recipient none = take 32 recipient
target_key recipient (some ratchet) = ratchet

module _ (rns : Rns) where
  open rns use {
    LocalIdentity, public_key, private_key, local_hash, lxmf_delivery_hash, sign, sha256,
    identity_hash, delivery_destination, max_ecies_plaintext, ecies_plaintext_offset,
    ecies_ciphertext_len, ecies_encrypt, ecies_decrypt, ecies_decrypt_with_ratchets,
    ecies_decrypt_with_ratchet_hint, ecies_encrypt_in_place,
  }

  abbrev pub max_lxmf_payload : ℕ
  max_lxmf_payload = max_ecies_plaintext - plaintext_prefix

  -- `[0u8; LXMF_DEST_LENGTH * 2 + MAX_LXMF_PAYLOAD + MESSAGE_ID_LENGTH]`
  abbrev pub signed_zeros : List ℕ
  signed_zeros = replicate (32 + max_lxmf_payload + 32) 0

  -- The tail of `build_plaintext`: hash and sign the payload, and fill the output.
  unfoldable pub assemble_plaintext :
      LocalIdentity → List ℕ → List ℕ → List ℕ → List ℕ → Result BuiltPacket
  assemble_plaintext source dest_hash source_hash payload out =
      let plen = length payload in
      let headed = copy_at 32 payload (copy_at 16 source_hash (copy_at 0 dest_hash signed_zeros)) in
      let hash = sha256 (take (32 + plen) headed) in
      let signature = sign source (take (64 + plen) (copy_at (32 + plen) hash headed)) in
      let pt_len = plaintext_prefix + plen in
      refuse (ltb (length out) pt_len || ltb max_ecies_plaintext pt_len) too_long
      >> ok (record {
        len = pt_len;
        out = copy_at 80 payload (copy_at 16 signature (copy_at 0 source_hash out));
        dest_hash = dest_hash;
        message_id = hash;
      })

  unfoldable pub build_plaintext :
      LocalIdentity
      → List ℕ
      → ℕ
      → List ℕ
      → List ℕ
      → PayloadFields (List ℕ)
      → List ℕ
      → Result BuiltPacket
  unfolding assemble_plaintext frame_error
  build_plaintext source recipient timestamp title content fields out = do
    let dest_hash = delivery_destination (identity_hash recipient)
    let source_hash = lxmf_delivery_hash source
    (plen, payload) ←
        map_err frame_error
          (pack_payload timestamp title content fields (replicate max_lxmf_payload 0))
    assemble_plaintext source dest_hash source_hash (take plen payload) out

  unfoldable pub build_plaintext_for_parity :
      LocalIdentity → List ℕ → ℕ → List ℕ → List ℕ → List ℕ → Result BuiltPacket
  unfolding build_plaintext
  build_plaintext_for_parity source recipient timestamp title content out =
      build_plaintext source recipient timestamp title content empty out

  -- The length is that of the ciphertext, which stands at the front of the output.
  unfoldable pub build_opportunistic_inner :
      LocalIdentity
      → List ℕ
      → Option (List ℕ)
      → ℕ
      → List ℕ
      → List ℕ
      → PayloadFields (List ℕ)
      → List ℕ
      → List ℕ
      → List ℕ
      → Result BuiltPacket
  unfolding build_plaintext target_key of_crypto
  build_opportunistic_inner source recipient ratchet timestamp title content fields ephemeral iv
        out =
      do
        b ←
            build_plaintext source recipient timestamp title content fields
              (replicate max_ecies_plaintext 0)
        c ← of_crypto (
            ecies_encrypt (take b.len b.out) (target_key recipient ratchet)
              (identity_hash recipient) ephemeral iv (length out))
        ok (record {
          len = length c;
          out = copy_at 0 c out;
          dest_hash = b.dest_hash;
          message_id = b.message_id;
        })

  unfoldable pub build_opportunistic_ratchet :
      LocalIdentity
      → List ℕ
      → Option (List ℕ)
      → ℕ
      → List ℕ
      → List ℕ
      → List ℕ
      → List ℕ
      → List ℕ
      → Result BuiltPacket
  unfolding build_opportunistic_inner
  build_opportunistic_ratchet source recipient ratchet timestamp title content ephemeral iv out =
      build_opportunistic_inner source recipient ratchet timestamp title content empty ephemeral iv
        out

  unfoldable pub build_opportunistic :
      LocalIdentity → List ℕ → ℕ → List ℕ → List ℕ → List ℕ → List ℕ → List ℕ → Result BuiltPacket
  unfolding build_opportunistic_ratchet
  build_opportunistic source recipient timestamp title content ephemeral iv out =
      build_opportunistic_ratchet source recipient none timestamp title content ephemeral iv out

  unfoldable pub build_opportunistic_ratchet_with_fields :
      LocalIdentity
      → List ℕ
      → Option (List ℕ)
      → ℕ
      → List ℕ
      → List ℕ
      → List EncodedField
      → List ℕ
      → List ℕ
      → List ℕ
      → Result BuiltPacket
  unfolding build_opportunistic_inner
  build_opportunistic_ratchet_with_fields source recipient ratchet timestamp title content fields
        ephemeral iv out =
      do
        present ← encoded_field_set fields
        build_opportunistic_inner source recipient ratchet timestamp title content
            (encoded fields present) ephemeral iv out

  unfoldable pub build_opportunistic_with_fields :
      LocalIdentity
      → List ℕ
      → ℕ
      → List ℕ
      → List ℕ
      → List EncodedField
      → List ℕ
      → List ℕ
      → List ℕ
      → Result BuiltPacket
  unfolding build_opportunistic_ratchet_with_fields
  build_opportunistic_with_fields source recipient timestamp title content fields ephemeral iv out =
      build_opportunistic_ratchet_with_fields source recipient none timestamp title content fields
        ephemeral iv out

  -- The length of the ciphertext, and the buffer.
  unfoldable pub seal_opportunistic :
      List ℕ → ℕ → List ℕ → Option (List ℕ) → List ℕ → List ℕ → Result (ℕ × List ℕ)
  unfolding seal_guards target_key of_crypto
  seal_opportunistic buffer packed_len recipient ratchet ephemeral iv = do
    seal_guards buffer packed_len
    let hash = identity_hash recipient
    refuse (not (bytes_eq (take 16 buffer) (delivery_destination hash))) destination_mismatch
    let plaintext_len = packed_len - 16
    refuse (ltb max_ecies_plaintext plaintext_len) too_long
    total ← of_crypto (ecies_ciphertext_len plaintext_len)
    refuse (ltb (length buffer) total) output_too_small
    let moved = copy_at ecies_plaintext_offset (slice buffer 16 packed_len) buffer
    c ← of_crypto (
        ecies_encrypt_in_place (target_key recipient ratchet) hash ephemeral iv (take total moved)
          plaintext_len)
    ok (total, copy_at 0 c moved)

  -- The tail of `parse_decrypted`: the four elements are hashed in buffers of its own.
  unfoldable pub authenticate_decrypted :
      LocalIdentity → List ℕ → List ℕ → List ℕ → List ℕ → Decoded → Result LxmfView
  unfolding verify_marked
  authenticate_decrypted me source_hash signature payload source_public_key d = do
    let p4_len = d.after_fields
    refuse (ltb max_lxmf_payload p4_len) malformed_payload
    let payload4 = set (copy_at 0 (take p4_len payload) (replicate max_lxmf_payload 0)) 0 0x94
    let headed = copy_at 16 source_hash (copy_at 0 (lxmf_delivery_hash me) signed_zeros)
    hash ←
        verify_marked rns p4_len (copy_at 32 (take p4_len payload4) headed) source_public_key
          signature
    ok (record {
      message_id = hash;
      source_hash = source_hash;
      timestamp = d.timestamp;
      title = d.title;
      content = d.content;
      fields = slice payload d.after_content d.after_fields;
    })

  unfoldable pub parse_decrypted : LocalIdentity → List ℕ → List ℕ → List ℤ → Result LxmfView
  unfolding decode_payload authenticate_decrypted
  parse_decrypted me source_public_key plaintext keys = do
    refuse (ltb (length plaintext) (plaintext_prefix + 1)) malformed_payload
    let source_hash = take 16 plaintext
    let signature = slice plaintext 16 80
    let payload = drop 80 plaintext
    let claimed = delivery_destination (identity_hash source_public_key)
    refuse (not (bytes_eq claimed source_hash)) source_hash_mismatch
    d ← decode_payload payload keys
    authenticate_decrypted me source_hash signature payload source_public_key d

  unfoldable pub parse_opportunistic :
      LocalIdentity → List ℕ → List ℕ → List ℕ → List ℤ → Result LxmfView
  unfolding parse_decrypted of_crypto
  parse_opportunistic me packet source_public_key scratch keys = do
    refuse (ltb (length scratch) max_ecies_plaintext) output_too_small
    plaintext ←
        of_crypto (ecies_decrypt packet (take 32 (private_key me)) (local_hash me) (length scratch))
    parse_decrypted me source_public_key plaintext keys

  unfoldable pub parse_opportunistic_ratchet :
      LocalIdentity
      → List (List ℕ)
      → List ℕ
      → List ℕ
      → List ℕ
      → List ℤ
      → Result (LxmfView × Option ℕ)
  unfolding parse_decrypted of_crypto
  parse_opportunistic_ratchet me ratchets packet source_public_key scratch keys = do
    refuse (ltb (length scratch) max_ecies_plaintext) output_too_small
    (plaintext, which) ← of_crypto (
        ecies_decrypt_with_ratchets packet ratchets (take 32 (private_key me)) (local_hash me)
          (length scratch))
    v ← parse_decrypted me source_public_key plaintext keys
    ok (v, which)

  unfoldable pub parse_opportunistic_ratchet_hint :
      LocalIdentity → List (List ℕ) → Option ℕ → List ℕ → List ℕ → List ℕ → List ℤ → Result LxmfView
  unfolding parse_decrypted of_crypto
  parse_opportunistic_ratchet_hint me ratchets hint packet source_public_key scratch keys = do
    refuse (ltb (length scratch) max_ecies_plaintext) output_too_small
    plaintext ← of_crypto (
        ecies_decrypt_with_ratchet_hint packet ratchets (take 32 (private_key me)) (local_hash me)
          hint (length scratch))
    parse_decrypted me source_public_key plaintext keys

  unfoldable pub peek_source_opportunistic_ratchet :
      LocalIdentity → List (List ℕ) → List ℕ → List ℕ → Result (List ℕ × Option ℕ)
  unfolding of_crypto
  peek_source_opportunistic_ratchet me ratchets packet scratch = do
    refuse (ltb (length scratch) max_ecies_plaintext) output_too_small
    (plaintext, which) ← of_crypto (
        ecies_decrypt_with_ratchets packet ratchets (take 32 (private_key me)) (local_hash me)
          (length scratch))
    refuse (ltb (length plaintext) (plaintext_prefix + 1)) malformed_payload
    ok (take 16 plaintext, which)

  unfoldable pub peek_source_opportunistic : LocalIdentity → List ℕ → List ℕ → Result (List ℕ)
  unfolding peek_source_opportunistic_ratchet
  peek_source_opportunistic me packet scratch = do
    (hash, which) ← peek_source_opportunistic_ratchet me [] packet scratch
    ok hash
