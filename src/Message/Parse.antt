-- ===== src/Message/Parse.antt =====
-- `parse_link` on a packed message: what a valid signature makes of it.
use rs_lxmflite.Base.{
  ℕ, suc, ◌+◌, ◌≤◌, ◌≡◌, sym, ap, ap₂, ◌∙◌, true, not, List, ◌∷◌, ◌++◌, append_assoc, arith, le→ltb,
  length, take, drop, slice, set, length-append, take-length_append, drop-length_append,
}
use rs_lxmflite.Base.Compare.{bytes_eq_refl}
use rs_lxmflite.Base.Int.{ℤ}
use rs_lxmflite.Base.Slices.{set_behind, ReadsAt, ReadsAt-skip, ReadsAt-first, slice-ReadsAt}
use rs_lxmflite.Base.Result.{Result, ok, ◌>>=◌, ◌>>◌, refuse, signature_invalid}
use rs_lxmflite.Payload.{copy_at}
use rs_lxmflite.Rns.{Rns, IdentityLaws}
use rs_lxmflite.Message.{LxmfView, Decoded, decode_payload, verify_marked, authenticate, parse_link}
use rs_lxmflite.Message.Build.{
  copied_buffer, hashed_part, signed_part, packed_message, length-packed_message, hashed_buffer,
  hash_of_front, signed_front,
}

-- The scratch of `parse_link`: both hashes and the first four elements behind the marker 0x94.
pub parse_buffer :
    (dest src elements scratch : List ℕ) (m : ℕ)
    → length dest ≡ 16
    → length src ≡ 16
    → set (copy_at 32 (m ∷ elements) (copy_at 16 src (copy_at 0 dest scratch))) 32 0x94
      ≡ hashed_part dest src (0x94 ∷ elements)
        ++ drop (length (m ∷ elements)) (drop (length src) (drop (length dest) scratch))
parse_buffer dest src elements scratch m hd hs =
    let rest = drop (length (m ∷ elements)) (drop (length src) (drop (length dest) scratch)) in
    ap (λ b. set b 32 0x94)
      (copied_buffer dest src (m ∷ elements) scratch hd hs
        ∙ append_assoc (dest ++ src) (m ∷ elements) rest)
    ∙ set_behind 32 (dest ++ src) (elements ++ rest) m 0x94 (omega (arith, length-append dest src))
    ∙ sym (append_assoc (dest ++ src) (0x94 ∷ elements) rest)

-- The parts of a packed message stand where the parser looks for them.
record Parts (dat dest src signature payload : List ℕ) : Type 0 where
  dest_at : slice dat 0 16 ≡ dest
  src_at : slice dat 16 32 ≡ src
  signature_at : slice dat 32 96 ≡ signature
  payload_at : drop 96 dat ≡ payload
  size : length dat ≡ 96 + length payload

packed-Parts :
    (dat dest src signature payload : List ℕ)
    → dat ≡ packed_message dest src signature payload
    → length dest ≡ 16
    → length src ≡ 16
    → length signature ≡ 64
    → Parts dat dest src signature payload
packed-Parts dat dest src signature payload e hd hs hg =
    let whole : ReadsAt dat 0 (dest ++ (src ++ signature)) payload = record {
      reads = e ∙ ap (λ t. t ++ payload) (append_assoc dest src signature);
      inside = omega arith;
    } in
    let behind = ReadsAt-skip dest (src ++ signature) payload 16 (omega arith) whole in
    let at_signature = ReadsAt-skip src signature payload 32 (omega arith) behind in
    record {
      dest_at =
          slice-ReadsAt 16 (omega arith) (ReadsAt-first dest (src ++ signature) payload whole);
      src_at = slice-ReadsAt 32 (omega arith) (ReadsAt-first src signature payload behind);
      signature_at = slice-ReadsAt 96 (omega arith) at_signature;
      payload_at =
          ap (drop 96) e
          ∙ drop-length_append 96 ((dest ++ src) ++ signature) payload
              (omega (arith, length-append dest src, length-append (dest ++ src) signature));
      size = ap length e ∙ length-packed_message dest src signature payload hd hs hg;
    }

-- The answer of `verify_marked` depends on the hashed part alone.
pub verify_marked_step :
    (rns : Rns) (laws : IdentityLaws rns) (n : ℕ)
    (dest src elements rest marked key signature : List ℕ)
    → n ≡ length elements
    → length dest ≡ 16
    → length src ≡ 16
    → marked ≡ hashed_part dest src elements ++ rest
    → verify_marked rns n marked key signature ≡ (
        refuse
          (not (rns.verify (drop 32 key) (signed_part rns dest src elements) signature))
          signature_invalid
        >> ok (rns.sha256 (hashed_part dest src elements)))
unfolding verify_marked hashed_buffer
verify_marked_step rns laws n dest src elements rest marked key signature hn hd hs e =
    let answer : List ℕ → List ℕ → Result (List ℕ) = λ signed hash.
      refuse (not (rns.verify (drop 32 key) signed signature)) signature_invalid >> ok hash in
    ap (λ k. verify_marked rns k marked key signature) hn
    ∙ ap₂ answer (signed_front rns laws dest src elements rest marked hd hs e)
        (hash_of_front rns laws dest src elements rest marked hd hs e)

module _ (rns : Rns) (laws : IdentityLaws rns) where
  open rns use {sha256, verify, lxmf_delivery_hash, delivery_destination, identity_hash}

  -- The view of an accepted message.
  abbrev view_of : List ℕ → List ℕ → Decoded → List ℕ → LxmfView
  view_of hash src d payload = record {
    message_id = hash;
    source_hash = src;
    timestamp = d.timestamp;
    title = d.title;
    content = d.content;
    fields = slice payload d.after_content d.after_fields;
  }

  verify_marked_lem :
      (n : ℕ) (dest src elements rest marked key signature : List ℕ)
      → n ≡ length elements
      → length dest ≡ 16
      → length src ≡ 16
      → marked ≡ hashed_part dest src elements ++ rest
      → verify (drop 32 key) (signed_part rns dest src elements) signature ≡ true
      → verify_marked rns n marked key signature ≡ ok (sha256 (hashed_part dest src elements))
  verify_marked_lem n dest src elements rest marked key signature hn hd hs e valid =
      verify_marked_step rns laws n dest src elements rest marked key signature hn hd hs e
      ∙ rw valid

  authenticate_lem :
      (dest src signature elements rest key scratch : List ℕ) (m : ℕ) (d : Decoded)
      → length dest ≡ 16
      → length src ≡ 16
      → d.after_fields ≡ suc (length elements)
      → 64 + suc (length elements) ≤ length scratch
      → verify (drop 32 key) (signed_part rns dest src (0x94 ∷ elements)) signature ≡ true
      → authenticate rns dest src signature (m ∷ (elements ++ rest)) key scratch d
        ≡ ok (
            view_of
              (sha256 (hashed_part dest src (0x94 ∷ elements)))
              src
              d
              (m ∷ (elements ++ rest)))
  unfolding authenticate
  authenticate_lem dest src signature elements rest key scratch m d hd hs ends room valid =
      let payload = m ∷ (elements ++ rest) in
      let finish : List ℕ → Result LxmfView = λ hash. ok (view_of hash src d payload) in
      let four : take d.after_fields payload ≡ m ∷ elements =
        take-length_append d.after_fields (m ∷ elements) rest ends in
      let headed = copy_at 16 src (copy_at 0 dest scratch) in
      let marked =
        ap (λ p. set (copy_at 32 p headed) 32 0x94) four
        ∙ parse_buffer dest src elements scratch m hd hs in
      rw (le→ltb (length scratch) (64 + d.after_fields) (omega arith)) (
        ap (λ r. r >>= finish)
          (verify_marked_lem d.after_fields dest src (0x94 ∷ elements) _ _ key signature ends hd hs
            marked valid))

  -- A message to `me`, from the holder of the key, whose payload decodes and whose signature
  -- verifies over the first four elements, is accepted, with the hash of those as its id. What
  -- follows the fourth element, and the array's own count, make no difference.
  pub parse_link_lem :
      (me : rns.LocalIdentity) (key scratch : List ℕ) (keys : List ℤ)
      (dat signature elements rest : List ℕ) (m : ℕ) (d : Decoded)
      → let dest = lxmf_delivery_hash me in
        let src = delivery_destination (identity_hash key) in
        let payload = m ∷ (elements ++ rest) in
        dat ≡ packed_message dest src signature payload
        → length signature ≡ 64
        → decode_payload payload keys ≡ ok d
        → d.after_fields ≡ suc (length elements)
        → 64 + suc (length elements) ≤ length scratch
        → verify (drop 32 key) (signed_part rns dest src (0x94 ∷ elements)) signature ≡ true
        → parse_link rns me dat key scratch keys
          ≡ ok (view_of (sha256 (hashed_part dest src (0x94 ∷ elements))) src d payload)
  unfolding parse_link
  parse_link_lem me key scratch keys dat signature elements rest m d e hg decoded ends room valid =
      let dest = lxmf_delivery_hash me in
      let src = delivery_destination (identity_hash key) in
      let hd = ap length (laws.delivery_hash me) ∙ laws.length-destination _ in
      let hs = laws.length-destination (identity_hash key) in
      let p = packed-Parts dat dest src signature (m ∷ (elements ++ rest)) e hd hs hg in
      rw
        (
          le→ltb (length dat) 97 (omega (arith, p.size)),
          p.dest_at,
          p.src_at,
          p.signature_at,
          p.payload_at,
          bytes_eq_refl dest,
          bytes_eq_refl src,
          decoded,
        )
        (authenticate_lem dest src signature elements rest key scratch m d hd hs ends room valid)
