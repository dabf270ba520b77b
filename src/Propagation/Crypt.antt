-- ===== src/Propagation/Crypt.antt =====
-- src/propagation.rs: the encrypted entries that a node keeps.
use rs_lxmflite.Base.{
  ℕ, ◌+◌, ◌-◌, not, ◌||◌, Option, none, some, List, [], ◌∷◌, ◌++◌, leb, ltb, if◌then◌else◌, length,
  take, drop, slice, checked_add,
}
use rs_lxmflite.Base.Compare.{bytes_eq}
use rs_lxmflite.Base.Result.{
  Result, ok, err, ◌>>=◌, ◌>>◌, ok_or, refuse, crypto, malformed_payload, destination_mismatch,
  output_too_small, too_long,
}
use rs_lxmflite.Payload.{copy_at, lxmf_packed_prefix}
use rs_lxmflite.Rns.{Rns, done, failed}
use rs_lxmflite.Opportunistic.{of_crypto, target_key}

-- What `encrypt_message` returns, and the buffer.
pub record Encrypted : Type 0 where
  pub len : ℕ
  pub transient_id : List ℕ
  pub buffer : List ℕ

-- What `decrypt_message` returns, and the buffer.
pub record Decrypted : Type 0 where
  pub len : ℕ
  pub transient_id : List ℕ
  pub ratchet : Option ℕ
  pub buffer : List ℕ

module _ (rns : Rns) where
  open rns use {
    LocalIdentity, private_key, local_hash, lxmf_delivery_hash, sha256, identity_hash,
    delivery_destination, ecies_plaintext_offset, ecies_fixed_overhead, ecies_ciphertext_len,
    ecies_encrypt_in_place, ecies_decrypt_in_place,
  }

  unfoldable pub encrypt_message :
      List ℕ → ℕ → List ℕ → Option (List ℕ) → List ℕ → List ℕ → Result Encrypted
  unfolding target_key of_crypto
  encrypt_message buffer packed_len recipient ratchet ephemeral iv = do
    refuse (leb packed_len lxmf_packed_prefix || ltb (length buffer) packed_len) malformed_payload
    let hash = identity_hash recipient
    refuse (not (bytes_eq (take 16 buffer) (delivery_destination hash))) destination_mismatch
    let plaintext_len = packed_len - 16
    sealed_len ← of_crypto (ecies_ciphertext_len plaintext_len)
    total ← ok_or (checked_add 16 sealed_len) too_long
    refuse (ltb (length buffer) total) output_too_small
    let moved = copy_at (16 + ecies_plaintext_offset) (slice buffer 16 packed_len) buffer
    c ← of_crypto (
        ecies_encrypt_in_place (target_key recipient ratchet) hash ephemeral iv
          (slice moved 16 total) plaintext_len)
    let entry = copy_at 16 c moved
    ok (record { len = total; transient_id = sha256 (take total entry); buffer = entry })

  -- The loop of `decrypt_message` over the keys from this index on; an attempt may change the buffer.
  unfoldable pub decrypt_loop :
      LocalIdentity → List ℕ → ℕ → ℕ → List (List ℕ) → List ℕ → Result Decrypted
  decrypt_loop me id count index [] buffer = err crypto
  decrypt_loop me id count index (key ∷ keys) buffer =
      let (opened, body) = ecies_decrypt_in_place key (local_hash me) (drop 16 buffer) in
      let tried = copy_at 16 body buffer in
      elim opened [
        | failed e ↦ decrypt_loop me id count (index + 1) keys tried
        | done n ↦
            let start = 16 + ecies_plaintext_offset in
            ok (record {
              len = 16 + n;
              transient_id = id;
              ratchet = if ltb index count then some index else none;
              buffer = copy_at 16 (slice tried start (start + n)) tried;
            })
      ]

  unfoldable pub decrypt_message : List ℕ → LocalIdentity → List (List ℕ) → Result Decrypted
  unfolding decrypt_loop
  decrypt_message buffer me ratchets = do
    refuse (ltb (length buffer) (16 + ecies_fixed_overhead + 16)) malformed_payload
    refuse (not (bytes_eq (take 16 buffer) (lxmf_delivery_hash me))) destination_mismatch
    decrypt_loop me (sha256 buffer) (length ratchets) 0
        (ratchets ++ (take 32 (private_key me) ∷ [])) buffer
