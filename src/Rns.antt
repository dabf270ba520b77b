-- ===== src/Rns.antt =====
-- What the message code takes from the crates `rns_lite_core` and `ed25519_dalek`: hashes,
-- identities, signatures and the ECIES functions. They are parameters of the model.
use rs_lxmflite.Base.{ℕ, ◌+◌, ◌≤◌, ◌≡◌, Bool, true, Option, List, length, take, drop, slice}
use rs_lxmflite.Base.Bytes.{IsBytes}

-- `rns_lite_core::crypto::CryptoError`
pub data CryptoError : Type 0 where
  plaintext_too_long out_too_small authentication_failed : CryptoError

pub data CryptoResult (A : Type 0) : Type 0 where
  done : A → CryptoResult A
  failed : CryptoError → CryptoResult A

pub record Rns : Type 1 where
  pub LocalIdentity : Type 0
  pub public_key : LocalIdentity → List ℕ
  pub private_key : LocalIdentity → List ℕ
  pub local_hash : LocalIdentity → List ℕ
  pub lxmf_delivery_hash : LocalIdentity → List ℕ
  pub sign : LocalIdentity → List ℕ → List ℕ
  pub sha256 : List ℕ → List ℕ
  pub identity_hash : List ℕ → List ℕ
  -- `destination_hash_from_parts(&name_hash(LXMF_DELIVERY_NAME), Some(hash))`
  pub delivery_destination : List ℕ → List ℕ
  -- `VerifyingKey::from_bytes(key)?.verify(message, signature)` succeeds.
  pub verify : List ℕ → List ℕ → List ℕ → Bool
  pub max_ecies_plaintext : ℕ
  pub ecies_plaintext_offset : ℕ
  pub ecies_fixed_overhead : ℕ
  pub ecies_ciphertext_len : ℕ → CryptoResult ℕ
  -- Plaintext, target key, identity hash, ephemeral key, iv and room: the ciphertext.
  pub ecies_encrypt : List ℕ → List ℕ → List ℕ → List ℕ → List ℕ → ℕ → CryptoResult (List ℕ)
  -- Ciphertext, key, identity hash and room: the plaintext.
  pub ecies_decrypt : List ℕ → List ℕ → List ℕ → ℕ → CryptoResult (List ℕ)
  -- The same over retained keys before the base key, with the index of the one that served.
  pub ecies_decrypt_with_ratchets :
      List ℕ → List (List ℕ) → List ℕ → List ℕ → ℕ → CryptoResult (List ℕ × Option ℕ)
  pub ecies_decrypt_with_ratchet_hint :
      List ℕ → List (List ℕ) → List ℕ → List ℕ → Option ℕ → ℕ → CryptoResult (List ℕ)
  -- Target key, identity hash, ephemeral key, iv, a buffer with the plaintext at
  -- `ecies_plaintext_offset`, and the plaintext's length: the buffer with the ciphertext.
  pub ecies_encrypt_in_place :
      List ℕ → List ℕ → List ℕ → List ℕ → List ℕ → ℕ → CryptoResult (List ℕ)
  -- Key, identity hash and a buffer with the ciphertext: the plaintext's length, and the buffer,
  -- which has the plaintext at `ecies_plaintext_offset` where the call has succeeded.
  pub ecies_decrypt_in_place : List ℕ → List ℕ → List ℕ → CryptoResult ℕ × List ℕ

-- What the documentation of those crates promises of identities, hashes and signatures.
pub record IdentityLaws (rns : Rns) : Type 0 where
  pub delivery_hash :
      (i : rns.LocalIdentity)
      → rns.lxmf_delivery_hash i ≡ rns.delivery_destination (rns.identity_hash (rns.public_key i))
  pub length-destination : (h : List ℕ) → length (rns.delivery_destination h) ≡ 16
  pub length-sha256 : (m : List ℕ) → length (rns.sha256 m) ≡ 32
  pub length-sign : (i : rns.LocalIdentity) (m : List ℕ) → length (rns.sign i m) ≡ 64
  pub sign_verifies :
      (i : rns.LocalIdentity) (m : List ℕ)
      → rns.verify (drop 32 (rns.public_key i)) m (rns.sign i m) ≡ true
  pub local_hash_lem :
      (i : rns.LocalIdentity) → rns.local_hash i ≡ rns.identity_hash (rns.public_key i)
  pub destination-IsBytes : (h : List ℕ) → IsBytes (rns.delivery_destination h)
  pub sign-IsBytes : (i : rns.LocalIdentity) (m : List ℕ) → IsBytes (rns.sign i m)

-- What it promises of ECIES for the plaintexts of a single packet, those of at most
-- `max_ecies_plaintext` bytes: such a plaintext is encrypted, in place or not, to a ciphertext of the
-- announced length, which does not depend on the room for it, and which the holder of the target key
-- decrypts.
pub record EciesLaws (rns : Rns) : Type 0 where
  pub encrypts :
      (plain target hash ephemeral iv : List ℕ) (room n : ℕ)
      → length plain ≤ rns.max_ecies_plaintext
      → rns.ecies_ciphertext_len (length plain) ≡ done n
      → n ≤ room
      → (c : List ℕ) × (rns.ecies_encrypt plain target hash ephemeral iv room ≡ done c)
        × (length c ≡ n)
  pub room_free :
      (plain target hash ephemeral iv c : List ℕ) (room room' : ℕ)
      → length plain ≤ rns.max_ecies_plaintext
      → rns.ecies_encrypt plain target hash ephemeral iv room ≡ done c
      → length c ≤ room'
      → rns.ecies_encrypt plain target hash ephemeral iv room' ≡ done c
  pub decrypts :
      (i : rns.LocalIdentity) (plain ephemeral iv c : List ℕ) (room room' : ℕ)
      → length plain ≤ rns.max_ecies_plaintext
      → rns.ecies_encrypt plain
          (take 32 (rns.public_key i))
          (rns.identity_hash (rns.public_key i))
          ephemeral
          iv
          room
        ≡ done c
      → rns.max_ecies_plaintext ≤ room'
      → rns.ecies_decrypt c (take 32 (rns.private_key i)) (rns.local_hash i) room' ≡ done plain
  pub offset_fits :
      (n total : ℕ)
      → rns.ecies_ciphertext_len n ≡ done total
      → rns.ecies_plaintext_offset + n ≤ total
  pub in_place :
      (target hash ephemeral iv buffer : List ℕ) (n total : ℕ)
      → n ≤ rns.max_ecies_plaintext
      → rns.ecies_ciphertext_len n ≡ done total
      → length buffer ≡ total
      → rns.ecies_encrypt_in_place target hash ephemeral iv buffer n
        ≡ rns.ecies_encrypt
            (slice buffer rns.ecies_plaintext_offset (rns.ecies_plaintext_offset + n))
            target
            hash
            ephemeral
            iv
            total

-- What it promises of a hint. The index that has served: only that key is tried, and it serves again.
pub record HintLaws (rns : Rns) : Type 0 where
  pub hinted :
      (cipher : List ℕ) (ratchets : List (List ℕ)) (key hash plain : List ℕ) (which : Option ℕ)
      (room : ℕ)
      → rns.ecies_decrypt_with_ratchets cipher ratchets key hash room ≡ done (plain, which)
      → rns.ecies_decrypt_with_ratchet_hint cipher ratchets key hash which room ≡ done plain

-- In place, the identity opens this ciphertext to this plaintext.
abbrev pub Opens : (rns : Rns) → rns.LocalIdentity → List ℕ → List ℕ → Type 0
Opens rns i c plain =
    (body : List ℕ) × (rns.ecies_decrypt_in_place (take 32 (rns.private_key i)) (rns.local_hash i) c
      ≡ (done (length plain), body))
    × (length body ≡ length c)
    × (slice body rns.ecies_plaintext_offset (rns.ecies_plaintext_offset + length plain) ≡ plain)

-- What it promises of ECIES in place, for every plaintext that a ciphertext length is announced for:
-- in a buffer of that length it is encrypted, and the holder of the target key opens the result. An
-- attempt that fails leaves the buffer as it was.
pub record InPlaceLaws (rns : Rns) : Type 0 where
  pub offset_fits :
      (n total : ℕ)
      → rns.ecies_ciphertext_len n ≡ done total
      → rns.ecies_plaintext_offset + n ≤ total
  pub block_fits :
      (n total : ℕ)
      → rns.ecies_ciphertext_len n ≡ done total
      → rns.ecies_fixed_overhead + 16 ≤ total
  pub seals :
      (i : rns.LocalIdentity) (ephemeral iv buffer : List ℕ) (n total : ℕ)
      → rns.ecies_ciphertext_len n ≡ done total
      → length buffer ≡ total
      → (c : List ℕ) × (rns.ecies_encrypt_in_place
            (take 32 (rns.public_key i))
            (rns.identity_hash (rns.public_key i))
            ephemeral
            iv
            buffer
            n
          ≡ done c)
        × (length c ≡ total)
        × Opens rns i c (slice buffer rns.ecies_plaintext_offset (rns.ecies_plaintext_offset + n))
  pub refused_unchanged :
      (key hash c body : List ℕ) (e : CryptoError)
      → rns.ecies_decrypt_in_place key hash c ≡ (failed e, body)
      → body ≡ c
