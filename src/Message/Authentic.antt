-- ===== src/Message/Authentic.antt =====
-- What `parse_link` has checked of a message that it accepts.
use rs_lxmflite.Base.{
  ℕ, ◌+◌, ◌≡◌, sym, ap, ◌∙◌, true, not, List, ltb, length, take, drop, slice, set, not-false,
}
use rs_lxmflite.Base.Compare.{bytes_eq, bytes_eq→eq}
use rs_lxmflite.Base.Int.{ℤ}
use rs_lxmflite.Base.Result.{
  ok, malformed_payload, destination_mismatch, source_hash_mismatch, output_too_small, refuse,
  >>=-eq-ok, signature_invalid, refuse-eq-ok, ok_injective,
}
use rs_lxmflite.Payload.{copy_at, lxmf_packed_prefix}
use rs_lxmflite.Rns.{Rns}
use rs_lxmflite.Message.{LxmfView, Decoded, decode_payload, verify_marked, authenticate, parse_link}

module _ (rns : Rns) where
  open rns use {
    LocalIdentity, sha256, verify, lxmf_delivery_hash, delivery_destination, identity_hash,
  }

  -- The scratch of `parse_link` with the first `n` bytes of the payload behind both hashes.
  abbrev pub marked_scratch : List ℕ → List ℕ → List ℕ → List ℕ → ℕ → List ℕ
  marked_scratch dest src payload scratch n =
      set (copy_at 32 (take n payload) (copy_at 16 src (copy_at 0 dest scratch))) 32 0x94

  -- What the tail of `parse_link` has checked, and the view that it shows.
  pub record IsSigned (dest src signature payload key scratch : List ℕ) (d : Decoded) (v : LxmfView)
      : Type 0 where
    pub source : v.source_hash ≡ src
    pub id :
        v.message_id
        ≡ sha256
            (take (32 + d.after_fields) (marked_scratch dest src payload scratch d.after_fields))
    pub signed :
        verify
          (drop 32 key)
          (take (64 + d.after_fields) (
            copy_at
              (32 + d.after_fields)
              v.message_id
              (marked_scratch dest src payload scratch d.after_fields)))
          signature
        ≡ true
    pub same_text : (v.title ≡ d.title) × (v.content ≡ d.content) × (v.timestamp ≡ d.timestamp)
    pub same_fields : v.fields ≡ slice payload d.after_content d.after_fields

  verify_marked_sound :
      (n : ℕ) (marked key signature hash : List ℕ)
      → verify_marked rns n marked key signature ≡ ok hash
      → (hash ≡ sha256 (take (32 + n) marked))
        × (verify (drop 32 key) (take (64 + n) (copy_at (32 + n) hash marked)) signature ≡ true)
  unfolding verify_marked
  verify_marked_sound n marked key signature hash h =
      let hash0 = sha256 (take (32 + n) marked) in
      let valid = λ (x : List ℕ).
        verify (drop 32 key) (take (64 + n) (copy_at (32 + n) x marked)) signature in
      let (u, c, e) = >>=-eq-ok (refuse (not (valid hash0)) signature_invalid) _ h in
      let same : hash0 ≡ hash = ok_injective e in
      (sym same, sym (ap valid same) ∙ not-false (valid hash0) (refuse-eq-ok _ signature_invalid c))

  authenticate_sound :
      (dest src signature payload key scratch : List ℕ) (d : Decoded) (v : LxmfView)
      → authenticate rns dest src signature payload key scratch d ≡ ok v
      → IsSigned dest src signature payload key scratch d v
  unfolding authenticate
  authenticate_sound dest src signature payload key scratch d v h =
      let n = d.after_fields in
      let marked = marked_scratch dest src payload scratch n in
      let (u, c, h1) = >>=-eq-ok (refuse (ltb (length scratch) (64 + n)) output_too_small) _ h in
      let (hash, verified, h2) = >>=-eq-ok (verify_marked rns n marked key signature) _ h1 in
      let shown = ok_injective h2 in
      let (hashed, valid) = verify_marked_sound n marked key signature hash verified in
      let id : hash ≡ v.message_id = ap (λ w. w.message_id) shown in
      record {
        source = sym (ap (λ w. w.source_hash) shown);
        id = sym id ∙ hashed;
        signed =
            ap (λ x. verify (drop 32 key) (take (64 + n) (copy_at (32 + n) x marked)) signature)
              (sym id)
            ∙ valid;
        same_text = (
          sym (ap (λ w. w.title) shown),
          sym (ap (λ w. w.content) shown),
          sym (ap (λ w. w.timestamp) shown),
        );
        same_fields = sym (ap (λ w. w.fields) shown);
      }

  -- A message that `parse_link` accepts is for its identity; its source hash is that of the key; its
  -- payload decodes to the title, content, timestamp and fields of the view; the message id is the
  -- hash of both destination hashes and the first four elements behind the marker 0x94; and its
  -- signature verifies under the key over those bytes and the id.
  pub parse_link_sound :
      (me : LocalIdentity) (dat key scratch : List ℕ) (keys : List ℤ) (v : LxmfView)
      → parse_link rns me dat key scratch keys ≡ ok v
      → (slice dat 0 16 ≡ lxmf_delivery_hash me)
        × (delivery_destination (identity_hash key) ≡ slice dat 16 32)
        × ((d : Decoded) × (decode_payload (drop 96 dat) keys ≡ ok d)
            × IsSigned
                (slice dat 0 16)
                (slice dat 16 32)
                (slice dat 32 96)
                (drop 96 dat)
                key
                scratch
                d
                v)
  unfolding parse_link
  parse_link_sound me dat key scratch keys v h =
      let dest = slice dat 0 16 in
      let src = slice dat 16 32 in
      let claimed = delivery_destination (identity_hash key) in
      let (u1, c1, h1) =
        >>=-eq-ok (refuse (ltb (length dat) (lxmf_packed_prefix + 1)) malformed_payload) _ h in
      let (u2, c2, h2) =
        >>=-eq-ok (refuse (not (bytes_eq dest (lxmf_delivery_hash me))) destination_mismatch) _
          h1 in
      let (u3, c3, h3) =
        >>=-eq-ok (refuse (not (bytes_eq claimed src)) source_hash_mismatch) _ h2 in
      let (d, decodes, h4) = >>=-eq-ok (decode_payload (drop 96 dat) keys) _ h3 in
      (
        bytes_eq→eq dest (lxmf_delivery_hash me)
            (not-false _ (refuse-eq-ok _ destination_mismatch c2)),
        bytes_eq→eq claimed src (not-false _ (refuse-eq-ok _ source_hash_mismatch c3)),
        (
          d,
          decodes,
          authenticate_sound dest src (slice dat 32 96) (drop 96 dat) key scratch d v h4,
        ),
      )
