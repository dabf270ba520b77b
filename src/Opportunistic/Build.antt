-- ===== src/Opportunistic/Build.antt =====
-- The plaintext of an opportunistic packet, in terms of the parts of the message.
use rs_lxmflite.Base.{
  ℕ, ◌+◌, ◌≤◌, ◌<◌, ◌≡◌, refl, sym, ap, ◌∙◌, List, [], ◌++◌, arith, le→leb, le→ltb, length, take,
  drop, replicate, length-append, length-replicate, take-length_append,
}
use rs_lxmflite.Base.Result.{ok}
use rs_lxmflite.Payload.{PayloadFields, copy_at, pack_payload}
use rs_lxmflite.Payload.Bytes.{payload_bytes}
use rs_lxmflite.Payload.Emits.{IsSlice}
use rs_lxmflite.Payload.Size.{FieldsFit, pack_payload_lem}
use rs_lxmflite.Rns.{Rns, IdentityLaws}
use rs_lxmflite.Payload.Copies.{copy_behind_front}
use rs_lxmflite.Message.Build.{
  copied_buffer, hashed_part, signed_part, hashed_buffer, hash_of_front, signed_front,
  recipient_destination,
}
use rs_lxmflite.Opportunistic.{
  BuiltPacket, max_lxmf_payload, signed_zeros, assemble_plaintext, build_plaintext,
}

-- The packed message without its destination hash.
abbrev pub packed_plaintext : List ℕ → List ℕ → List ℕ → List ℕ
packed_plaintext source signature payload = (source ++ signature) ++ payload

module _ (rns : Rns) (laws : IdentityLaws rns) where
  open rns use {LocalIdentity, sha256, sign, lxmf_delivery_hash, max_ecies_plaintext}

  plaintext_output :
      (src signature payload out : List ℕ)
      → length src ≡ 16
      → length signature ≡ 64
      → 80 + length payload ≤ length out
      → take (80 + length payload) (copy_at 80 payload (copy_at 16 signature (copy_at 0 src out)))
        ≡ packed_plaintext src signature payload
  plaintext_output src signature payload out hs hg room =
      ap (λ b. take (80 + length payload) (copy_at 80 payload b))
        (ap (copy_at 16 signature) (copy_behind_front 0 [] out src refl)
          ∙ copy_behind_front 16 src (drop (length src) out) signature (sym hs))
      ∙ ap (take (80 + length payload)) (
          copy_behind_front 80 (src ++ signature) _ payload
            (omega (arith, length-append src signature)))
      ∙ take-length_append (80 + length payload) (packed_plaintext src signature payload) _
          (omega (arith, length-append src signature, length-append (src ++ signature) payload))

  -- Where the payload fits a single frame and the output, the plaintext is built: it is the sender's
  -- delivery hash, the signature over the hashes, the payload and their hash, and the payload; the
  -- message id is that hash.
  pub build_plaintext_lem :
      (source : LocalIdentity) (recipient : List ℕ) (timestamp : ℕ) (title content : List ℕ)
      (fs : PayloadFields (List ℕ)) (out : List ℕ)
      → max_ecies_plaintext < 2147483648
      → IsSlice title
      → IsSlice content
      → FieldsFit fs
      → let payload = payload_bytes timestamp title content fs in
        let dest = recipient_destination rns laws recipient in
        let src = lxmf_delivery_hash source in
        80 + length payload ≤ max_ecies_plaintext
        → 80 + length payload ≤ length out
        → (b : BuiltPacket) × (build_plaintext rns source recipient timestamp title content fs out
            ≡ ok b)
          × (b.len ≡ 80 + length payload)
          × (take b.len b.out
              ≡ packed_plaintext src (sign source (signed_part rns dest src payload)) payload)
          × (b.dest_hash ≡ dest)
          × (b.message_id ≡ sha256 (hashed_part dest src payload))
  unfolding build_plaintext assemble_plaintext hashed_buffer
  build_plaintext_lem source recipient timestamp title content fs out small ht hc hf frame room =
      let payload = payload_bytes timestamp title content fs in
      let dest = recipient_destination rns laws recipient in
      let src = lxmf_delivery_hash source in
      let hd = laws.length-destination (rns.identity_hash recipient) in
      let hs : length src ≡ 16 =
        ap length (laws.delivery_hash source) ∙ laws.length-destination _ in
      let zeros = replicate (max_lxmf_payload rns) 0 in
      let width = length-replicate {A = ℕ} (max_lxmf_payload rns) 0 in
      let packed : pack_payload timestamp title content fs zeros
          ≡ ok (length payload, payload ++ drop (length payload) zeros) =
        pack_payload_lem timestamp title content fs zeros (omega (arith, width)) ht hc hf
        ∙ rw (le→leb (length payload) (length zeros) (omega (arith, width))) in
      let front = take-length_append (length payload) payload (drop (length payload) zeros) refl in
      let headed = copy_at 32 payload (copy_at 16 src (copy_at 0 dest (signed_zeros rns))) in
      let e = copied_buffer dest src payload (signed_zeros rns) hd hs in
      let signature =
        sign source
          (take (64 + length payload) (hashed_buffer rns laws dest src payload _ headed hd hs e)) in
      (
        _,
        rw (
          packed,
          front,
          le→ltb (length out) (80 + length payload) room,
          le→ltb max_ecies_plaintext (80 + length payload) frame,
        ),
        refl,
        ap (λ s. take (80 + length payload) (copy_at 80 payload (copy_at 16 s (copy_at 0 src out))))
              (ap (sign source) (signed_front rns laws dest src payload _ headed hd hs e))
            ∙ plaintext_output src (sign source (signed_part rns dest src payload)) payload out hs
                (laws.length-sign source _) room,
        refl,
        hash_of_front rns laws dest src payload _ headed hd hs e,
      )
