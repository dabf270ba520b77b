-- ===== src/Opportunistic/Parse.antt =====
-- A decrypted packet is parsed as the full packed message over a link is.
use rs_lxmflite.Base.{
  ℕ, suc, ◌+◌, ◌-◌, ◌≤◌, ◌≡◌, refl, sym, ap, ap₂, ◌∙◌, Bool, not, ◌||◌, List, [], ◌∷◌, ◌++◌, arith,
  ltb, le→ltb, leb, get_or, bit_and, ◌==◌, length, take, drop, slice, set, replicate, length-append,
  length-take, length-drop, drop-length_append, take-length_append, drop-drop, ltb→le, Bool-cases,
  inl, inr, take-append-drop,
}
use rs_lxmflite.Base.Compare.{bytes_eq, bytes_eq_refl}
use rs_lxmflite.Base.Int.{ℤ}
use rs_lxmflite.Base.Result.{
  Result, ok, err, ◌>>=◌, ◌>>◌, refuse, bind_congr, >>=-eq-ok, malformed_payload,
  source_hash_mismatch, destination_mismatch,
}
use rs_lxmflite.MsgPack.{skip_value, read_bin}
use rs_lxmflite.MsgPack.Bounds.{skip_value_bounds}
use rs_lxmflite.Fields.{validate_fields}
use rs_lxmflite.Payload.{copy_at}
use rs_lxmflite.Rns.{Rns, IdentityLaws}
use rs_lxmflite.Message.{LxmfView, Decoded, decode_payload, authenticate, parse_link}
use rs_lxmflite.Message.Build.{copied_buffer}
use rs_lxmflite.Message.Parse.{parse_buffer, verify_marked_step}
use rs_lxmflite.Opportunistic.{
  max_lxmf_payload, signed_zeros, authenticate_decrypted, parse_decrypted,
}

-- A payload that decodes has its four elements inside.
pub decode_payload_bounds :
    (payload : List ℕ) (keys : List ℤ) (d : Decoded)
    → decode_payload payload keys ≡ ok d
    → (1 ≤ d.after_fields) × (d.after_fields ≤ length payload)
unfolding decode_payload
decode_payload_bounds payload keys d h =
    let (u1, c1, h1) =
      >>=-eq-ok
        (refuse (leb (length payload) 0 || not (bit_and (get_or payload 0 0) 0xf0 == 0x90))
          malformed_payload)
        _ h in
    let (u2, c2, h2) =
      >>=-eq-ok (refuse (ltb (bit_and (get_or payload 0 0) 0x0f) 4) malformed_payload) _ h1 in
    let (u3, c3, h3) =
      >>=-eq-ok
        (refuse (ltb (length payload) 10 || not (get_or payload 1 0 == 0xcb)) malformed_payload) _
        h2 in
    let (t, c4, h4) = >>=-eq-ok (read_bin payload 10) _ h3 in
    let (c, c5, h5) = >>=-eq-ok (read_bin payload t.1) _ h4 in
    let (after, c6, h6) = >>=-eq-ok (skip_value payload c.1 0) _ h5 in
    let (u7, c7, h7) = >>=-eq-ok (validate_fields (slice payload c.1 after) keys).0 _ h6 in
    let same : after ≡ d.after_fields = ap (λ r. end_of r) h7 in
    omega (arith, same, skip_value_bounds payload c.1 0 after c6)
  where
    end_of : Result Decoded → ℕ
    end_of (ok x) = x.after_fields
    end_of (err e) = 0

module _ (rns : Rns) (laws : IdentityLaws rns) where
  open rns use {
    LocalIdentity, lxmf_delivery_hash, delivery_destination, identity_hash, max_ecies_plaintext,
  }

  -- Both tails hash and verify the same bytes.
  same_authentication :
      (me : LocalIdentity) (src signature elements rest key scratch : List ℕ) (m : ℕ) (d : Decoded)
      → length src ≡ 16
      → d.after_fields ≡ suc (length elements)
      → 64 + suc (length elements) ≤ length scratch
      → suc (length elements) ≤ max_lxmf_payload rns
      → authenticate_decrypted rns me src signature (m ∷ (elements ++ rest)) key d
        ≡ authenticate rns
            (lxmf_delivery_hash me)
            src
            signature
            (m ∷ (elements ++ rest))
            key
            scratch
            d
  unfolding authenticate authenticate_decrypted
  same_authentication me src signature elements rest key scratch m d hs ends room frame =
      let dest = lxmf_delivery_hash me in
      let n = d.after_fields in
      let hd : length dest ≡ 16 = ap length (laws.delivery_hash me) ∙ laws.length-destination _ in
      let payload = m ∷ (elements ++ rest) in
      let four : take n payload ≡ m ∷ elements = take-length_append n (m ∷ elements) rest ends in
      let zeros = replicate (max_lxmf_payload rns) 0 in
      let four' : take n (set (copy_at 0 (take n payload) zeros) 0 0x94) ≡ 0x94 ∷ elements =
        ap (λ p. take n (set (copy_at 0 p zeros) 0 0x94)) four
        ∙ take-length_append n (0x94 ∷ elements) _ ends in
      let finish : List ℕ → Result LxmfView = λ hash. ok (record {
        message_id = hash;
        source_hash = src;
        timestamp = d.timestamp;
        title = d.title;
        content = d.content;
        fields = slice payload d.after_content d.after_fields;
      }) in
      let in_link =
        ap (λ p. set (copy_at 32 p (copy_at 16 src (copy_at 0 dest scratch))) 32 0x94) four
        ∙ parse_buffer dest src elements scratch m hd hs in
      let in_packet =
        ap (λ p. copy_at 32 p (copy_at 16 src (copy_at 0 dest (signed_zeros rns)))) four'
        ∙ copied_buffer dest src (0x94 ∷ elements) (signed_zeros rns) hd hs in
      rw
        (
          le→ltb (max_lxmf_payload rns) n (omega arith),
          le→ltb (length scratch) (64 + n) (omega arith),
        )
        (ap (λ r. r >>= finish)
          (verify_marked_step rns laws n dest src (0x94 ∷ elements) _ _ key signature ends hd hs
              in_packet
            ∙ sym (
                verify_marked_step rns laws n dest src (0x94 ∷ elements) _ _ key signature ends hd
                  hs in_link)))

  -- A payload with four elements inside, as a marker, those elements and the rest.
  same_tail :
      (me : LocalIdentity) (src signature payload key scratch : List ℕ) (d : Decoded)
      → length src ≡ 16
      → 1 ≤ d.after_fields
      → d.after_fields ≤ length payload
      → 64 + length payload ≤ length scratch
      → length payload ≤ max_lxmf_payload rns
      → authenticate_decrypted rns me src signature payload key d
        ≡ authenticate rns (lxmf_delivery_hash me) src signature payload key scratch d
  same_tail me src signature [] key scratch d hs one inside room frame = absurd (omega arith)
  same_tail me src signature (m ∷ tail) key scratch d hs one inside room frame =
      let k = d.after_fields - 1 in
      let count = length-take k tail in
      ap (λ t. authenticate_decrypted rns me src signature (m ∷ t) key d)
        (sym (take-append-drop k tail))
      ∙ same_authentication me src signature (take k tail) (drop k tail) key scratch m d hs
          (omega (arith, count)) (omega (arith, count)) (omega (arith, count))
      ∙ ap (λ t. authenticate rns (lxmf_delivery_hash me) src signature (m ∷ t) key scratch d)
          (take-append-drop k tail)

  -- A decrypted plaintext that fits a single frame is parsed, or refused with the same error, as
  -- `parse_link` does with the message that has the receiver's delivery hash in front of it and a
  -- scratch with room for it.
  pub parse_decrypted-parse_link :
      (me : LocalIdentity) (key plaintext scratch : List ℕ) (keys : List ℤ)
      → length plaintext ≤ max_ecies_plaintext
      → 64 + length plaintext ≤ length scratch
      → parse_decrypted rns me key plaintext keys
        ≡ parse_link rns me (lxmf_delivery_hash me ++ plaintext) key scratch keys
  unfolding parse_decrypted parse_link
  parse_decrypted-parse_link me key plaintext scratch keys frame room =
      let dest = lxmf_delivery_hash me in
      let dat = dest ++ plaintext in
      let hd : length dest ≡ 16 = ap length (laws.delivery_hash me) ∙ laws.length-destination _ in
      let behind : (n k : ℕ) → k ≡ 16 + n → drop k dat ≡ drop n plaintext = λ n k e.
        sym (drop-drop 16 n k dat e)
        ∙ ap (drop n) (drop-length_append 16 dest plaintext (sym hd)) in
      let src = take 16 plaintext in
      let payload = drop 80 plaintext in
      let claimed = delivery_destination (identity_hash key) in
      let short : ltb (length dat) 97 ≡ ltb (length plaintext) 81 =
        ground (arith, length-append dest plaintext) in
      let for_me : slice dat 0 16 ≡ dest = take-length_append 16 dest plaintext (sym hd) in
      let src_at : slice dat 16 32 ≡ src = ap (take 16) (behind 0 16 refl) in
      let signature_at : slice dat 32 96 ≡ slice plaintext 16 80 =
        ap (take 64) (behind 16 32 refl) in
      let payload_at : drop 96 dat ≡ payload = behind 80 96 refl in
      let link : Bool → List ℕ → List ℕ → List ℕ → List ℕ → Result LxmfView = λ b to from sig p.
        refuse b malformed_payload
        >> (refuse (not (bytes_eq to dest)) destination_mismatch
            >> (refuse (not (bytes_eq claimed from)) source_hash_mismatch
                >> (decode_payload p keys >>= authenticate rns to from sig p key scratch))) in
      let sig = slice plaintext 16 80 in
      let aligned : parse_link rns me dat key scratch keys
          ≡ link (ltb (length plaintext) 81) dest src sig payload =
        ap₂ (λ b to. link b to (slice dat 16 32) (slice dat 32 96) (drop 96 dat)) short for_me
        ∙ ap₂ (λ from g. link (ltb (length plaintext) 81) dest from g (drop 96 dat)) src_at
            signature_at
        ∙ ap (link (ltb (length plaintext) 81) dest src sig) payload_at in
      let short_of = ltb (length plaintext) 81 in
      let run : Bool → Result LxmfView → Result LxmfView = λ b answer.
        refuse b malformed_payload
        >> (refuse (not (bytes_eq claimed src)) source_hash_mismatch >> answer) in
      let in_packet : Result LxmfView =
        decode_payload payload keys >>= authenticate_decrypted rns me src sig payload key in
      let in_link : Result LxmfView =
        decode_payload payload keys >>= authenticate rns dest src sig payload key scratch in
      let same : run short_of in_packet ≡ run short_of in_link = elim (Bool-cases short_of) [
        | inl missing ↦ ap (λ b. run b in_packet) missing ∙ sym (ap (λ b. run b in_link) missing)
        | inr there ↦
            let long = ltb→le (length plaintext) 81 there in
            ap (run short_of) (
              bind_congr (decode_payload payload keys) _ _ (λ d e.
                let (one, inside) = decode_payload_bounds payload keys d e in
                same_tail me src sig payload key scratch d (omega (arith, length-take 16 plaintext))
                  one inside (omega (arith, length-drop 80 plaintext))
                  (omega (arith, length-drop 80 plaintext))))
      ] in
      let mine : link short_of dest src sig payload ≡ run short_of in_link =
        ap
          (λ z.
            refuse short_of malformed_payload
            >> (refuse (not z) destination_mismatch
                >> (refuse (not (bytes_eq claimed src)) source_hash_mismatch >> in_link)))
          (bytes_eq_refl dest) in
      let start : parse_decrypted rns me key plaintext keys ≡ run short_of in_packet = refl in
      start ∙ same ∙ sym mine ∙ sym aligned
