-- ===== src/Message/RoundTrip.antt =====
-- src/lxmf.rs: what `build_link_inner` builds, `parse_link` reads back.
use rs_lxmflite.Base.{
  ℕ, ◌+◌, ◌≤◌, ◌<◌, usize_mod, ◌≡◌, refl, sym, ap, ap₂, ◌∙◌, List, [], ◌∷◌, ◌++◌, append-nil, arith,
  length, take, drop,
}
use rs_lxmflite.Base.Bytes.{IsByte, IsBytes}
use rs_lxmflite.Base.Int.{ℤ}
use rs_lxmflite.Base.Result.{Result, ok}
use rs_lxmflite.Payload.{PayloadFields}
use rs_lxmflite.Payload.Bytes.{fields_bytes, payload_bytes}
use rs_lxmflite.Rns.{Rns, IdentityLaws}
use rs_lxmflite.Message.{LxmfView, BuiltLink, build_link_inner, parse_link}
use rs_lxmflite.Message.Build.{
  hashed_part, signed_part, packed_message, recipient_destination, BuffersFit, build_link_inner_lem,
}
use rs_lxmflite.Message.Encoded.{
  Sendable, elements_of, payload_bytes-elements, decode_payload-elements, elements_fields,
  length-payload_bytes,
}
use rs_lxmflite.Message.Decode.{IsPayloadMarker}
use rs_lxmflite.Message.Parse.{parse_link_lem}

module _ (rns : Rns) (laws : IdentityLaws rns) where
  open rns use {
    LocalIdentity, public_key, sign, sha256, verify, lxmf_delivery_hash, delivery_destination,
    identity_hash,
  }

  -- What one identity signs for another: the hashed part, and the message with a payload.
  abbrev pub hashed_for : LocalIdentity → LocalIdentity → List ℕ → List ℕ
  hashed_for source me payload =
      hashed_part (recipient_destination rns laws (public_key me)) (lxmf_delivery_hash source)
        payload

  abbrev pub message_for : LocalIdentity → LocalIdentity → List ℕ → List ℕ → List ℕ
  message_for source me signed payload =
      packed_message (recipient_destination rns laws (public_key me)) (lxmf_delivery_hash source)
        (sign source (hashed_for source me signed ++ sha256 (hashed_for source me signed))) payload

  -- Elements that were signed behind the marker 0x94 are accepted behind any marker of four elements
  -- or more, and whatever follows them.
  pub parse_link-elements :
      (source me : LocalIdentity) (timestamp : ℕ) (title content : List ℕ)
      (fs : PayloadFields (List ℕ)) (keys : List ℤ) (buffer : List ℕ) (m : ℕ) (rest : List ℕ)
      → let elements = elements_of timestamp title content fs in
        let payload = payload_bytes timestamp title content fs in
        Sendable timestamp title content fs keys
        → IsPayloadMarker m
        → IsByte m
        → IsBytes rest
        → length (m ∷ (elements ++ rest)) < usize_mod
        → 64 + length payload ≤ length buffer
        → parse_link rns me
            (message_for source me payload (m ∷ (elements ++ rest)))
            (public_key source)
            buffer
            keys
          ≡ ok (record {
            message_id = sha256 (hashed_for source me payload);
            source_hash = lxmf_delivery_hash source;
            timestamp = timestamp;
            title = title;
            content = content;
            fields = fields_bytes fs;
          })
  parse_link-elements source me timestamp title content fs keys buffer m rest s marker byte bytes
        small reads =
      let payload = payload_bytes timestamp title content fs in
      let whole = payload_bytes-elements timestamp title content fs in
      let to_me = laws.delivery_hash me in
      let from_source = laws.delivery_hash source in
      let to = recipient_destination rns laws (public_key me) in
      let from = recipient_destination rns laws (public_key source) in
      let elements = elements_of timestamp title content fs in
      let signature = sign source (signed_part rns to (lxmf_delivery_hash source) payload) in
      let same_hashed : hashed_part (lxmf_delivery_hash me) from (0x94 ∷ elements)
          ≡ hashed_for source me payload =
        ap₂ (λ (d f : List ℕ). hashed_part d f (0x94 ∷ elements)) to_me (sym from_source)
        ∙ ap (hashed_for source me) (sym whole) in
      let parsed =
        parse_link_lem rns laws me (public_key source) buffer keys
          (message_for source me payload (m ∷ (elements ++ rest))) signature elements rest m _
          (ap₂ (λ (d f : List ℕ). packed_message d f signature (m ∷ (elements ++ rest))) (sym to_me)
            from_source)
          (laws.length-sign source _)
          (decode_payload-elements timestamp title content fs keys m rest s marker byte bytes small)
          (sym (length-payload_bytes timestamp title content fs) ∙ ap length whole)
          (omega (arith, ap length whole))
          (ap (λ h. verify (drop 32 (public_key source)) (h ++ sha256 h) signature) same_hashed
            ∙ laws.sign_verifies source _) in
      let view : List ℕ → List ℕ → List ℕ → Result LxmfView = λ hash sender fields. ok (record {
        message_id = hash;
        source_hash = sender;
        timestamp = timestamp;
        title = title;
        content = content;
        fields = fields;
      }) in
      parsed
      ∙ ap (view _ _) (elements_fields timestamp title content fs m rest)
      ∙ ap₂ (λ (h f : List ℕ). view h f (fields_bytes fs)) (ap sha256 same_hashed) (sym from_source)

  -- The message as it was packed.
  pub parse_link-packed :
      (source me : LocalIdentity) (timestamp : ℕ) (title content : List ℕ)
      (fs : PayloadFields (List ℕ)) (keys : List ℤ) (buffer : List ℕ)
      → let payload = payload_bytes timestamp title content fs in
        Sendable timestamp title content fs keys
        → length payload < usize_mod
        → 64 + length payload ≤ length buffer
        → parse_link rns me (message_for source me payload payload) (public_key source) buffer keys
          ≡ ok (record {
            message_id = sha256 (hashed_for source me payload);
            source_hash = lxmf_delivery_hash source;
            timestamp = timestamp;
            title = title;
            content = content;
            fields = fields_bytes fs;
          })
  parse_link-packed source me timestamp title content fs keys buffer s small reads =
      let payload = payload_bytes timestamp title content fs in
      let elements = elements_of timestamp title content fs in
      let closed : payload ≡ 0x94 ∷ (elements ++ []) =
        payload_bytes-elements timestamp title content fs
        ∙ ap (λ t. 0x94 ∷ t) (sym (append-nil elements)) in
      ap (λ p. parse_link rns me (message_for source me payload p) (public_key source) buffer keys)
        closed
      ∙ parse_link-elements source me timestamp title content fs keys buffer 0x94 [] s
          (record { high = refl; low = omega arith }) (omega arith) tt
          (omega (arith, ap length closed)) reads

  -- The message that one identity packs for another is accepted by that other, who has its public
  -- key: the parser returns the title, the content, the timestamp and the fields that were packed,
  -- the sender's delivery hash, and the message id that the builder returned.
  pub parse_link-build_link_inner :
      (source me : LocalIdentity) (timestamp : ℕ) (title content : List ℕ)
      (fs : PayloadFields (List ℕ)) (keys : List ℤ) (out scratch buffer : List ℕ)
      → Sendable timestamp title content fs keys
      → BuffersFit (length (payload_bytes timestamp title content fs)) out scratch
      → 64 + length (payload_bytes timestamp title content fs) ≤ length buffer
      → (b : BuiltLink) × (build_link_inner rns source
            (public_key me)
            timestamp
            title
            content
            fs
            out
            scratch
          ≡ ok b)
        × (parse_link rns me (take b.len b.out) (public_key source) buffer keys
            ≡ ok (record {
              message_id = b.message_id;
              source_hash = lxmf_delivery_hash source;
              timestamp = timestamp;
              title = title;
              content = content;
              fields = fields_bytes fs;
            }))
  parse_link-build_link_inner source me timestamp title content fs keys out scratch buffer s room
        reads =
      let payload = payload_bytes timestamp title content fs in
      let (b, built, len, message, dest, id, rest) =
        build_link_inner_lem rns laws source (public_key me) timestamp title content fs out scratch
          s.title_slice s.content_slice s.fields_fit room in
      let view : List ℕ → Result LxmfView = λ hash. ok (record {
        message_id = hash;
        source_hash = lxmf_delivery_hash source;
        timestamp = timestamp;
        title = title;
        content = content;
        fields = fields_bytes fs;
      }) in
      (
        b,
        built,
        ap (λ p. parse_link rns me p (public_key source) buffer keys) message
            ∙ parse_link-packed source me timestamp title content fs keys buffer s
                (omega (arith, room)) reads
            ∙ ap view (sym id),
      )
