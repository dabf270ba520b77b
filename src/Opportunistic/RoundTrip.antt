-- ===== src/Opportunistic/RoundTrip.antt =====
-- src/lxmf.rs: what the opportunistic builders encrypt, `parse_opportunistic` reads back.
use rs_lxmflite.Base.{
  ℕ, ◌+◌, ◌≤◌, ◌<◌, ◌≡◌, refl, sym, ap, ◌∙◌, none, Option, List, ◌++◌, append_assoc, arith, length,
  take, replicate, length-append, length-replicate, take-length_append, le→ltb,
}
use rs_lxmflite.Base.Int.{ℤ}
use rs_lxmflite.Base.Result.{Result, ok}
use rs_lxmflite.Payload.{PayloadFields, copy_at}
use rs_lxmflite.Payload.Bytes.{fields_bytes, payload_bytes}
use rs_lxmflite.Rns.{Rns, IdentityLaws, EciesLaws, done}
use rs_lxmflite.Message.{LxmfView, parse_link}
use rs_lxmflite.Message.Build.{signed_part, recipient_destination}
use rs_lxmflite.Message.Encoded.{Sendable}
use rs_lxmflite.Message.Composed.{Composed, Composed-Sendable}
use rs_lxmflite.Message.RoundTrip.{hashed_for, message_for, parse_link-packed}
use rs_lxmflite.Opportunistic.{
  BuiltPacket, of_crypto, target_key, build_opportunistic_inner, parse_decrypted,
  parse_opportunistic,
}
use rs_lxmflite.Opportunistic.Build.{packed_plaintext, build_plaintext_lem}
use rs_lxmflite.Opportunistic.Parse.{parse_decrypted-parse_link}

-- A payload of `n` bytes fits a single packet, and its ciphertext the output.
pub record FrameFits (rns : Rns) (n room : ℕ) : Type 0 where
  pub small : rns.max_ecies_plaintext < 2147483648
  pub frame : 80 + n ≤ rns.max_ecies_plaintext
  pub total : ℕ
  pub cipher_len : rns.ecies_ciphertext_len (80 + n) ≡ done total
  pub cipher_room : total ≤ room

module _ (rns : Rns) (laws : IdentityLaws rns) (ecies : EciesLaws rns) where
  open rns use {
    LocalIdentity, public_key, private_key, local_hash, lxmf_delivery_hash, sha256, sign,
    identity_hash, max_ecies_plaintext, ecies_encrypt, ecies_decrypt,
  }

  -- What one identity encrypts for another.
  abbrev pub plaintext_for : LocalIdentity → List ℕ → List ℕ → List ℕ
  plaintext_for source recipient payload =
      packed_plaintext (lxmf_delivery_hash source)
        (sign source (
          signed_part rns (recipient_destination rns laws recipient) (lxmf_delivery_hash source)
            payload))
        payload

  pub length-plaintext_for :
      (source : LocalIdentity) (recipient payload : List ℕ)
      → length (plaintext_for source recipient payload) ≡ 80 + length payload
  length-plaintext_for source recipient payload =
      let src = lxmf_delivery_hash source in
      let signature =
        sign source (signed_part rns (recipient_destination rns laws recipient) src payload) in
      omega (
        arith,
        length-append src signature,
        length-append (src ++ signature) payload,
        ap length (laws.delivery_hash source) ∙ laws.length-destination _,
        laws.length-sign source
            (signed_part rns (recipient_destination rns laws recipient) src payload),
      )

  -- Where the message fits a single packet, the builder succeeds: its output starts with the
  -- ciphertext of the plaintext for the target key.
  pub build_opportunistic_inner_lem :
      (source : LocalIdentity) (recipient : List ℕ) (ratchet : Option (List ℕ)) (timestamp : ℕ)
      (title content : List ℕ) (fs : PayloadFields (List ℕ)) (keys : List ℤ)
      (ephemeral iv out : List ℕ)
      → let payload = payload_bytes timestamp title content fs in
        Sendable timestamp title content fs keys
        → (fits : FrameFits rns (length payload) (length out))
        → (b : BuiltPacket) × (build_opportunistic_inner rns source recipient ratchet timestamp
              title content fs ephemeral iv out
            ≡ ok b)
          × (ecies_encrypt
                (plaintext_for source recipient payload)
                (target_key recipient ratchet)
                (identity_hash recipient)
                ephemeral
                iv
                (length out)
              ≡ done (take b.len b.out))
          × (b.message_id
              ≡ sha256 (
                  (recipient_destination rns laws recipient ++ lxmf_delivery_hash source)
                  ++ payload))
          × (b.len ≡ fits.total)
          × (length (take b.len b.out) ≡ b.len)
  unfolding build_opportunistic_inner of_crypto
  build_opportunistic_inner_lem source recipient ratchet timestamp title content fs keys ephemeral
        iv out s fits =
      let payload = payload_bytes timestamp title content fs in
      let zeros = replicate max_ecies_plaintext 0 in
      let (p, built, len, plain, dest, id) =
        build_plaintext_lem rns laws source recipient timestamp title content fs zeros fits.small
          s.title_slice s.content_slice s.fields_fit fits.frame
          (omega (arith, length-replicate {A = ℕ} max_ecies_plaintext 0, fits)) in
      let width = length-plaintext_for source recipient payload in
      let (c, encrypted, size) =
        ecies.encrypts (plaintext_for source recipient payload) (target_key recipient ratchet)
          (identity_hash recipient) ephemeral iv (length out) fits.total
          (omega (arith, width, fits)) (ap rns.ecies_ciphertext_len width ∙ fits.cipher_len)
          fits.cipher_room in
      (
        record {
          len = length c;
          out = copy_at 0 c out;
          dest_hash = p.dest_hash;
          message_id = p.message_id;
        },
        rw (built, plain, encrypted),
        encrypted ∙ ap done (sym (take-length_append (length c) c _ refl)),
        id,
        size,
        ap length (take-length_append (length c) c _ refl),
      )

  -- What is encrypted, behind the receiver's delivery hash, is the full packed message.
  message_for-plaintext :
      (source me : LocalIdentity) (payload : List ℕ)
      → lxmf_delivery_hash me ++ plaintext_for source (public_key me) payload
        ≡ message_for rns laws source me payload payload
  message_for-plaintext source me payload =
      ap (λ dest. dest ++ plaintext_for source (public_key me) payload) (laws.delivery_hash me)
      ∙ simp append_assoc

  -- The parser's tail on the plaintext of a message.
  pub parse_decrypted-plaintext :
      (source me : LocalIdentity) (timestamp : ℕ) (title content : List ℕ)
      (fs : PayloadFields (List ℕ)) (keys : List ℤ)
      → let payload = payload_bytes timestamp title content fs in
        Sendable timestamp title content fs keys
        → max_ecies_plaintext < 2147483648
        → 80 + length payload ≤ max_ecies_plaintext
        → parse_decrypted rns me
            (public_key source)
            (plaintext_for source (public_key me) payload)
            keys
          ≡ ok (record {
            message_id = sha256 (hashed_for rns laws source me payload);
            source_hash = lxmf_delivery_hash source;
            timestamp = timestamp;
            title = title;
            content = content;
            fields = fields_bytes fs;
          })
  parse_decrypted-plaintext source me timestamp title content fs keys s small frame =
      let payload = payload_bytes timestamp title content fs in
      let plain = plaintext_for source (public_key me) payload in
      let width = length-plaintext_for source (public_key me) payload in
      let scratch = replicate (64 + length plain) 0 in
      let room = length-replicate {A = ℕ} (64 + length plain) 0 in
      parse_decrypted-parse_link rns laws me (public_key source) plain scratch keys
        (omega (arith, width)) (omega (arith, room))
      ∙ ap (λ m. parse_link rns me m (public_key source) scratch keys)
          (message_for-plaintext source me payload)
      ∙ parse_link-packed rns laws source me timestamp title content fs keys scratch s (omega arith)
          (omega (arith, room, width))

  -- The packet that one identity builds for another, encrypted to that other's public key, is
  -- accepted by that other, who has the sender's public key: the parser returns the title, the
  -- content, the timestamp and the fields that were packed, the sender's delivery hash, and the
  -- message id that the builder returned. The fields are none, an audio field, or entries that
  -- `encoded_field_set` has accepted; the packed message fits a single packet, its ciphertext the
  -- output; the parser's scratch has room for a plaintext, and its scratch of keys has 64.
  pub parse_opportunistic-build_opportunistic_inner :
      (source me : LocalIdentity) (timestamp : ℕ) (title content : List ℕ)
      (fs : PayloadFields (List ℕ)) (keys : List ℤ) (ephemeral iv out scratch : List ℕ)
      → Composed timestamp title content fs
      → length keys ≡ 64
      → FrameFits rns (length (payload_bytes timestamp title content fs)) (length out)
      → max_ecies_plaintext ≤ length scratch
      → (b : BuiltPacket) × (build_opportunistic_inner rns source
            (public_key me)
            none
            timestamp
            title
            content
            fs
            ephemeral
            iv
            out
          ≡ ok b)
        × (parse_opportunistic rns me (take b.len b.out) (public_key source) scratch keys
            ≡ ok (record {
              message_id = b.message_id;
              source_hash = lxmf_delivery_hash source;
              timestamp = timestamp;
              title = title;
              content = content;
              fields = fields_bytes fs;
            }))
  unfolding parse_opportunistic target_key of_crypto
  parse_opportunistic-build_opportunistic_inner source me timestamp title content fs keys ephemeral
        iv out scratch composed wide fits reads =
      let s =
        Composed-Sendable timestamp title content fs keys composed wide
          (omega (arith, fits.small, fits.frame)) in
      let payload = payload_bytes timestamp title content fs in
      let plain = plaintext_for source (public_key me) payload in
      let (b, built, encrypted, id, size, front) =
        build_opportunistic_inner_lem source (public_key me) none timestamp title content fs keys
          ephemeral iv out s fits in
      let decrypted : ecies_decrypt (take b.len b.out) (take 32 (private_key me)) (local_hash me)
            (length scratch)
          ≡ done plain =
        ecies.decrypts me plain ephemeral iv (take b.len b.out) (length out) (length scratch)
          (omega (arith, length-plaintext_for source (public_key me) payload, fits)) encrypted
          reads in
      let view : List ℕ → Result LxmfView = λ hash. ok (record {
        message_id = hash;
        source_hash = lxmf_delivery_hash source;
        timestamp = timestamp;
        title = title;
        content = content;
        fields = fields_bytes fs;
      }) in
      (
        b,
        built,
        rw (le→ltb (length scratch) max_ecies_plaintext reads, decrypted)
              (parse_decrypted-plaintext source me timestamp title content fs keys s fits.small
                fits.frame)
            ∙ ap view (sym id),
      )
