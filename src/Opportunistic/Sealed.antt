-- ===== src/Opportunistic/Sealed.antt =====
-- src/lxmf.rs: a message packed for a link and sealed is the packet of the direct builder.
use rs_lxmflite.Base.{
  ℕ, ◌+◌, ◌≤◌, ◌<◌, ◌≡◌, refl, sym, ap, ap₂, ◌∙◌, subst, Option, List, ◌∷◌, ◌++◌, append_assoc,
  arith, length, length-append, length-drop, take, drop, usize_mod, take-length_append,
  take-append-drop,
}
use rs_lxmflite.Base.Bytes.{IsBytes}
use rs_lxmflite.Base.Int.{ℤ}
use rs_lxmflite.Base.Result.{Result, ok}
use rs_lxmflite.MsgPack.Grammar.{IsValue}
use rs_lxmflite.Payload.{PayloadFields, copy_at}
use rs_lxmflite.Payload.Bytes.{fields_bytes, payload_bytes}
use rs_lxmflite.Rns.{Rns, IdentityLaws, EciesLaws, done}
use rs_lxmflite.Message.{BuiltLink, build_link_inner}
use rs_lxmflite.Message.Build.{
  BuffersFit, packed_message, length-packed_message, signed_part, recipient_destination,
  build_link_inner_lem,
}
use rs_lxmflite.Message.Encoded.{Sendable, elements_of, payload_bytes-elements}
use rs_lxmflite.Message.Composed.{Composed, Composed-Sendable}
use rs_lxmflite.Fields.{new_scratch}
use rs_lxmflite.Message.Whole.{payload_bytes-IsValue, packed_message-IsBytes}
use rs_lxmflite.Opportunistic.{
  BuiltPacket, target_key, build_opportunistic_inner, seal_opportunistic,
}
use rs_lxmflite.Opportunistic.RoundTrip.{
  FrameFits, plaintext_for, length-plaintext_for, build_opportunistic_inner_lem,
}
use rs_lxmflite.Opportunistic.Seal.{IsSealable, seal_opportunistic_lem}

module _ (rns : Rns) (laws : IdentityLaws rns) (ecies : EciesLaws rns) where
  open rns use {
    LocalIdentity, sign, lxmf_delivery_hash, identity_hash, ecies_plaintext_offset,
    ecies_ciphertext_len, ecies_encrypt,
  }

  -- The sealer on the full packed message.
  seal_packed :
      (source : LocalIdentity) (recipient : List ℕ) (ratchet : Option (List ℕ)) (timestamp : ℕ)
      (title content : List ℕ) (fs : PayloadFields (List ℕ)) (keys : List ℤ)
      (ephemeral iv c more : List ℕ)
      → let payload = payload_bytes timestamp title content fs in
        let dest = recipient_destination rns laws recipient in
        let src = lxmf_delivery_hash source in
        let message =
          packed_message dest src (sign source (signed_part rns dest src payload)) payload in
        let plain = plaintext_for rns laws ecies source recipient payload in
        Sendable timestamp title content fs keys
        → IsValue 8 (fields_bytes fs)
        → length (message ++ more) < usize_mod
        → length plain ≤ rns.max_ecies_plaintext
        → ecies_ciphertext_len (length plain) ≡ done (length c)
        → length c ≤ length (message ++ more)
        → ecies_encrypt plain
            (target_key recipient ratchet)
            (identity_hash recipient)
            ephemeral
            iv
            (length c)
          ≡ done c
        → seal_opportunistic rns (message ++ more) (length message) recipient ratchet ephemeral iv
          ≡ ok (length c, copy_at 0 c (copy_at ecies_plaintext_offset plain (message ++ more)))
  seal_packed source recipient ratchet timestamp title content fs keys ephemeral iv c more s value
        small frame total room encrypted =
      let payload = payload_bytes timestamp title content fs in
      let elements = elements_of timestamp title content fs in
      let dest = recipient_destination rns laws recipient in
      let src = lxmf_delivery_hash source in
      let signed = signed_part rns dest src payload in
      let head = src ++ sign source signed in
      let whole = payload_bytes-elements timestamp title content fs in
      let regrouped : packed_message dest src (sign source signed) payload
          ≡ (dest ++ head) ++ (0x94 ∷ elements) =
        ap (λ p. ((dest ++ src) ++ sign source signed) ++ p) whole ∙ simp append_assoc in
      let plain : plaintext_for rns laws ecies source recipient payload
          ≡ head ++ (0x94 ∷ elements) =
        ap (λ p. head ++ p) whole in
      let sealable : IsSealable dest head elements more 0x94 = record {
        length_dest = laws.length-destination _;
        length_head = omega (
          arith,
          length-append src (sign source signed),
          laws.length-sign source signed,
          ap length (laws.delivery_hash source) ∙ laws.length-destination _,
        );
        four_or_five = refl;
        value =
            subst (IsValue 9) whole (
              payload_bytes-IsValue timestamp title content fs s.title_slice s.content_slice value);
        octets = subst IsBytes regrouped (
            packed_message-IsBytes rns laws source recipient signed timestamp title content fs keys
              s);
        small = subst (λ b. length (b ++ more) < usize_mod) regrouped small;
      } in
      let run : List ℕ → Result (ℕ × List ℕ) = λ message.
        seal_opportunistic rns (message ++ more) (length message) recipient ratchet ephemeral iv in
      let answer : List ℕ → List ℕ → Result (ℕ × List ℕ) = λ p message.
        ok (length c, copy_at 0 c (copy_at ecies_plaintext_offset p (message ++ more))) in
      ap run regrouped
      ∙ seal_opportunistic_lem rns laws ecies recipient head elements more 0x94 ratchet ephemeral iv
          c sealable (subst (λ p. length p ≤ rns.max_ecies_plaintext) plain frame)
          (subst (λ p. ecies_ciphertext_len (length p) ≡ done (length c)) plain total)
          (subst (λ m. length c ≤ length (m ++ more)) regrouped room)
          (subst
            (λ p.
              ecies_encrypt p (target_key recipient ratchet) (identity_hash recipient) ephemeral iv
                (length c)
              ≡ done c)
            plain encrypted)
      ∙ ap₂ answer (sym plain) (sym regrouped)

  -- A message built for a link and then sealed is, byte for byte, the packet that the opportunistic
  -- builder makes from the same parts, with the same message id. The fields are none, an audio
  -- field, or entries that `encoded_field_set` has accepted, nested one level less than it takes; the
  -- packed message fits a single packet, and every buffer has room.
  pub seal_opportunistic-build_link_inner :
      (source : LocalIdentity) (recipient : List ℕ) (ratchet : Option (List ℕ)) (timestamp : ℕ)
      (title content : List ℕ) (fs : PayloadFields (List ℕ))
      (ephemeral iv out scratch packet : List ℕ)
      → let n = length (payload_bytes timestamp title content fs) in
        Composed timestamp title content fs
        → IsValue 8 (fields_bytes fs)
        → BuffersFit n out scratch
        → length out < usize_mod
        → (fits : FrameFits rns n (length packet)) → fits.total ≤ length out
        → (b : BuiltLink) × (p : BuiltPacket) × (sealed : List ℕ) × (build_link_inner rns source
              recipient timestamp title content fs out scratch
            ≡ ok b)
          × (build_opportunistic_inner rns source recipient ratchet timestamp title content fs
                ephemeral iv packet
              ≡ ok p)
          × (seal_opportunistic rns b.out b.len recipient ratchet ephemeral iv ≡ ok (p.len, sealed))
          × (take p.len sealed ≡ take p.len p.out)
          × (b.message_id ≡ p.message_id)
  seal_opportunistic-build_link_inner source recipient ratchet timestamp title content fs ephemeral
        iv out scratch packet composed value room small fits fits_out =
      let keys = new_scratch in
      let s =
        Composed-Sendable timestamp title content fs keys composed refl
          (omega (arith, fits.small, fits.frame)) in
      let payload = payload_bytes timestamp title content fs in
      let plain = plaintext_for rns laws ecies source recipient payload in
      let (b, linked, len, message, dest, link_id, rest) =
        build_link_inner_lem rns laws source recipient timestamp title content fs out scratch
          s.title_slice s.content_slice s.fields_fit room in
      let (p, built, encrypted, id, size, width) =
        build_opportunistic_inner_lem rns laws ecies source recipient ratchet timestamp title
          content fs keys ephemeral iv packet s fits in
      let c = take p.len p.out in
      let more = drop b.len b.out in
      let front = take b.len b.out in
      let split : front ++ more ≡ b.out = take-append-drop b.len b.out in
      let dest_at = recipient_destination rns laws recipient in
      let src = lxmf_delivery_hash source in
      let packed =
        packed_message dest_at src (sign source (signed_part rns dest_at src payload)) payload in
      let packed_len : length packed ≡ 96 + length payload =
        length-packed_message dest_at src _ payload (laws.length-destination _)
          (ap length (laws.delivery_hash source) ∙ laws.length-destination _)
          (laws.length-sign source _) in
      let whole : packed ++ more ≡ b.out = ap (λ m. m ++ more) (sym message) ∙ split in
      let width_out : length (packed ++ more) ≡ length out = omega (
        arith,
        length-append packed more,
        packed_len,
        len,
        ap length rest,
        length-drop b.len out,
        room,
      ) in
      let plain_len = length-plaintext_for rns laws ecies source recipient payload in
      let sealed = copy_at 0 c (copy_at ecies_plaintext_offset plain (packed ++ more)) in
      let run : List ℕ → ℕ → Result (ℕ × List ℕ) =
        λ buffer n. seal_opportunistic rns buffer n recipient ratchet ephemeral iv in
      (
        b,
        p,
        sealed,
        linked,
        built,
        ap₂ run (sym whole) (len ∙ sym packed_len)
            ∙ seal_packed source recipient ratchet timestamp title content fs keys ephemeral iv c
                more s value (omega (arith, width_out)) (omega (arith, plain_len, fits))
                (ap ecies_ciphertext_len plain_len
                  ∙ fits.cipher_len
                  ∙ ap done (sym size ∙ sym width))
                (omega (arith, width_out, width, size))
                (ecies.room_free plain (target_key recipient ratchet) (identity_hash recipient)
                  ephemeral iv c (length packet) (length c) (omega (arith, plain_len, fits))
                  encrypted (omega arith))
            ∙ ap (λ n. ok (n, sealed)) width,
        take-length_append p.len c _ (sym width),
        link_id ∙ sym id,
      )
