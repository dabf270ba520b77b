-- ===== src/Message/Build.antt =====
-- What `build_link_inner` leaves in its buffers, in terms of the parts of the message.
use rs_lxmflite.Base.{
  ℕ, ◌+◌, ◌-◌, ◌≤◌, ◌≡◌, refl, sym, ap, ap₂, ◌∙◌, List, [], ◌++◌, append_assoc, arith, le→leb,
  le→ltb, length, take, drop, slice, length-append, take-length_append, drop-length_append,
  drop-drop,
}
use rs_lxmflite.Base.Slices.{length-slice}
use rs_lxmflite.Base.Result.{ok}
use rs_lxmflite.Payload.{PayloadFields, copy_at, pack_payload}
use rs_lxmflite.Payload.Copies.{copy_behind_front, drop-copy_at}
use rs_lxmflite.Payload.Bytes.{payload_bytes, bin_bytes}
use rs_lxmflite.Payload.Emits.{IsSlice}
use rs_lxmflite.Payload.Size.{FieldsFit, pack_payload_lem}
use rs_lxmflite.Rns.{Rns, IdentityLaws}
use rs_lxmflite.Message.{BuiltLink, assemble_link, build_link_inner}

-- The bytes that are hashed, those that are signed, and the packed message.
abbrev pub hashed_part : List ℕ → List ℕ → List ℕ → List ℕ
hashed_part dest source payload = (dest ++ source) ++ payload

abbrev pub signed_part : Rns → List ℕ → List ℕ → List ℕ → List ℕ
signed_part rns dest source payload =
    hashed_part dest source payload ++ rns.sha256 (hashed_part dest source payload)

abbrev pub packed_message : List ℕ → List ℕ → List ℕ → List ℕ → List ℕ
packed_message dest source signature payload = ((dest ++ source) ++ signature) ++ payload

pub length-packed_message :
    (dest source signature payload : List ℕ)
    → length dest ≡ 16
    → length source ≡ 16
    → length signature ≡ 64
    → length (packed_message dest source signature payload) ≡ 96 + length payload
length-packed_message dest source signature payload hd hs hg = omega (
  arith,
  length-append dest source,
  length-append (dest ++ source) signature,
  length-append ((dest ++ source) ++ signature) payload,
)

-- Both hashes and then `bytes` go over the front of a buffer.
pub copied_buffer :
    (dest source bytes buffer : List ℕ)
    → length dest ≡ 16
    → length source ≡ 16
    → copy_at 32 bytes (copy_at 16 source (copy_at 0 dest buffer))
      ≡ hashed_part dest source bytes
        ++ drop (length bytes) (drop (length source) (drop (length dest) buffer))
copied_buffer dest source bytes buffer hd hs =
    ap (copy_at 32 bytes) (
      ap (copy_at 16 source) (copy_behind_front 0 [] buffer dest refl)
      ∙ copy_behind_front 16 dest (drop (length dest) buffer) source (sym hd))
    ∙ copy_behind_front 32 (dest ++ source) _ bytes (omega (arith, length-append dest source))

pub length-bin_bytes : (bs : List ℕ) → 1 ≤ length (bin_bytes bs)
unfolding bin_bytes
length-bin_bytes bs = ground arith

-- The two hashes go over the front of a buffer that holds the payload from byte 32 on.
pub headed_buffer :
    (dest source payload rest buffer : List ℕ)
    → length dest ≡ 16
    → length source ≡ 16
    → drop 32 buffer ≡ payload ++ rest
    → copy_at 16 source (copy_at 0 dest buffer) ≡ hashed_part dest source payload ++ rest
headed_buffer dest source payload rest buffer hd hs e =
    ap (copy_at 16 source) (copy_behind_front 0 [] buffer dest refl)
    ∙ copy_behind_front 16 dest (drop (length dest) buffer) source (sym hd)
    ∙ ap (λ t. (dest ++ source) ++ t)
        (drop-drop (length dest) (length source) 32 buffer (omega arith) ∙ e)
    ∙ sym (append_assoc (dest ++ source) payload rest)

-- A payload of `n` bytes fits the buffers.
pub record BuffersFit (n : ℕ) (out scratch : List ℕ) : Type 0 where
  pub out_room : 96 + n ≤ length out
  pub scratch_room : 64 + n ≤ length scratch
  pub scratch_slice : IsSlice scratch
  pub lower : 11 ≤ n

module _ (rns : Rns) (laws : IdentityLaws rns) where
  open rns use {
    LocalIdentity, sha256, sign, lxmf_delivery_hash, delivery_destination, identity_hash,
  }

  -- From the headed buffer on: the hash, the signed bytes and the payload are where they belong.
  module _ (dest src payload rest headed : List ℕ) (hd : length dest ≡ 16) (hs : length src ≡ 16)
      (e : headed ≡ hashed_part dest src payload ++ rest) where
    unfoldable pub hashed_buffer : List ℕ
    hashed_buffer =
        copy_at (32 + length payload) (sha256 (take (32 + length payload) headed)) headed

    pub front_length : 32 + length payload ≡ length (hashed_part dest src payload)
    front_length = omega (arith, length-append (dest ++ src) payload, length-append dest src)

    pub hash_of_front :
        sha256 (take (32 + length payload) headed) ≡ sha256 (hashed_part dest src payload)
    hash_of_front = ap sha256 (
        ap (take (32 + length payload)) e
        ∙ take-length_append (32 + length payload) (hashed_part dest src payload) rest front_length)

    hashed_buffer_lem : hashed_buffer ≡ signed_part rns dest src payload ++ drop 32 rest
    unfolding hashed_buffer
    hashed_buffer_lem =
        ap₂ (copy_at (32 + length payload)) hash_of_front e
        ∙ copy_behind_front (32 + length payload) (hashed_part dest src payload) rest
            (sha256 (hashed_part dest src payload)) front_length
        ∙ ap (λ n. signed_part rns dest src payload ++ drop n rest) (laws.length-sha256 _)

    pub signed_front : take (64 + length payload) hashed_buffer ≡ signed_part rns dest src payload
    signed_front =
        ap (take (64 + length payload)) hashed_buffer_lem
        ∙ take-length_append (64 + length payload) (signed_part rns dest src payload) (drop 32 rest)
            (omega (
              arith,
              front_length,
              laws.length-sha256 (hashed_part dest src payload),
              length-append (hashed_part dest src payload) (sha256 (hashed_part dest src payload)),
            ))

    payload_slice : slice hashed_buffer 32 (32 + length payload) ≡ payload
    payload_slice =
        let back = sha256 (hashed_part dest src payload) ++ drop 32 rest in
        let regrouped : hashed_buffer ≡ (dest ++ src) ++ (payload ++ back) =
          hashed_buffer_lem
          ∙ append_assoc (hashed_part dest src payload) (sha256 (hashed_part dest src payload))
              (drop 32 rest)
          ∙ append_assoc (dest ++ src) payload back in
        ap (λ b. slice b 32 (32 + length payload)) regrouped
        ∙ ap (take (32 + length payload - 32)) (
            drop-length_append 32 (dest ++ src) (payload ++ back)
              (omega (arith, length-append dest src)))
        ∙ take-length_append (32 + length payload - 32) payload back (omega arith)

  -- The output buffer: both hashes, the signature and the payload, in front of what was there.
  pub filled_output :
      (dest src signature payload out : List ℕ)
      → length dest ≡ 16
      → length src ≡ 16
      → length signature ≡ 64
      → copy_at 96 payload (copy_at 32 signature (copy_at 16 src (copy_at 0 dest out)))
        ≡ packed_message dest src signature payload ++ drop (96 + length payload) out
  filled_output dest src signature payload out hd hs hg =
      ap (λ b. copy_at 96 payload (copy_at 32 signature b))
        (ap (copy_at 16 src) (copy_behind_front 0 [] out dest refl)
          ∙ copy_behind_front 16 dest (drop (length dest) out) src (sym hd))
      ∙ ap (copy_at 96 payload)
          (copy_behind_front 32 (dest ++ src) _ signature (omega (arith, length-append dest src)))
      ∙ copy_behind_front 96 ((dest ++ src) ++ signature) _ payload
          (omega (arith, length-append dest src, length-append (dest ++ src) signature))
      ∙ ap (λ t. packed_message dest src signature payload ++ t)
          (ap (λ b. drop (length payload) (drop (length signature) b))
              (drop-drop (length dest) (length src) (length dest + length src) out refl)
            ∙ ap (drop (length payload))
                (drop-drop (length dest + length src) (length signature) 96 out (omega arith))
            ∙ drop-drop 96 (length payload) (96 + length payload) out refl)

  -- The buffers after the tail of `build_link_inner`.
  pub assemble_link_lem :
      (source : LocalIdentity) (dest src payload rest packed out : List ℕ)
      → length dest ≡ 16
      → length src ≡ 16
      → drop 32 packed ≡ payload ++ rest
      → let built = assemble_link rns source dest src (length payload) packed out in
        (built.out
          ≡ packed_message dest src (sign source (signed_part rns dest src payload)) payload
            ++ drop (96 + length payload) out)
        × (built.message_id ≡ sha256 (hashed_part dest src payload))
  unfolding assemble_link hashed_buffer
  assemble_link_lem source dest src payload rest packed out hd hs e =
      let headed = copy_at 16 src (copy_at 0 dest packed) in
      let h = headed_buffer dest src payload rest packed hd hs e in
      let signature = sign source (signed_part rns dest src payload) in
      (
        ap₂
              (λ (body sig : List ℕ).
                copy_at 96 body (copy_at 32 sig (copy_at 16 src (copy_at 0 dest out))))
              (payload_slice dest src payload rest headed hd hs h)
              (ap (sign source) (signed_front dest src payload rest headed hd hs h))
            ∙ filled_output dest src signature payload out hd hs (laws.length-sign source _),
        hash_of_front dest src payload rest headed hd hs h,
      )

  -- The destination of the recipient with this public key.
  abbrev pub recipient_destination : List ℕ → List ℕ
  recipient_destination recipient = delivery_destination (identity_hash recipient)

  -- Where the payload fits both buffers, the message is built: the output starts with the packed
  -- message, whose signature is the sender's over the hashes, the payload and their hash, and goes on
  -- as it was; the message id is that hash.
  pub build_link_inner_lem :
      (source : LocalIdentity) (recipient : List ℕ) (timestamp : ℕ) (title content : List ℕ)
      (fs : PayloadFields (List ℕ)) (out scratch : List ℕ)
      → IsSlice title
      → IsSlice content
      → FieldsFit fs
      → BuffersFit (length (payload_bytes timestamp title content fs)) out scratch
      → let payload = payload_bytes timestamp title content fs in
        let dest = recipient_destination recipient in
        let src = lxmf_delivery_hash source in
        (b : BuiltLink) × (build_link_inner rns source recipient timestamp title content fs out
            scratch
          ≡ ok b)
        × (b.len ≡ 96 + length payload)
        × (take b.len b.out
            ≡ packed_message dest src (sign source (signed_part rns dest src payload)) payload)
        × (b.dest_hash ≡ dest)
        × (b.message_id ≡ sha256 (hashed_part dest src payload))
        × (drop b.len b.out ≡ drop b.len out)
  unfolding build_link_inner
  build_link_inner_lem source recipient timestamp title content fs out scratch ht hc hf room =
      let payload = payload_bytes timestamp title content fs in
      let dest = recipient_destination recipient in
      let src = lxmf_delivery_hash source in
      let window = slice scratch 32 (length scratch - 32) in
      let width : length window ≡ length scratch - 64 = omega (
        arith,
        length-slice scratch 32 (length scratch - 32) (omega (arith, room)) (omega arith),
      ) in
      let middle = payload ++ drop (length payload) window in
      let packed = copy_at 32 middle scratch in
      let built = assemble_link rns source dest src (length payload) packed out in
      let written : pack_payload timestamp title content fs window ≡ ok (length payload, middle) =
        pack_payload_lem timestamp title content fs window (omega (arith, room)) ht hc hf
        ∙ rw (le→leb (length payload) (length window) (omega (arith, room))) in
      let behind : drop 32 packed
          ≡ payload ++ (drop (length payload) window ++ drop (32 + length middle) scratch) =
        drop-copy_at 32 middle scratch (omega (arith, room))
        ∙ append_assoc payload (drop (length payload) window) (drop (32 + length middle) scratch) in
      let dest_len = laws.length-destination (identity_hash recipient) in
      let src_len : length src ≡ 16 =
        ap length (laws.delivery_hash source) ∙ laws.length-destination _ in
      let parts = assemble_link_lem source dest src payload _ packed out dest_len src_len behind in
      let signature = sign source (signed_part rns dest src payload) in
      let width =
        length-packed_message dest src signature payload dest_len src_len
          (laws.length-sign source _) in
      (
        built,
        rw (
          le→ltb (length scratch) 75 (omega (arith, room)),
          le→ltb (length out) 107 (omega (arith, room)),
          written,
          le→ltb (length out) (96 + length payload) (room.out_room),
        ),
        (unfold assemble_link in refl),
        ap (take (96 + length payload)) parts.0
            ∙ take-length_append (96 + length payload) (packed_message dest src signature payload) _
                (sym width),
        (unfold assemble_link in refl),
        parts.1,
        ap (drop (96 + length payload)) parts.0
            ∙ drop-length_append (96 + length payload) (packed_message dest src signature payload) _
                (sym width),
      )
