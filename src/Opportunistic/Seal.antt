-- ===== src/Opportunistic/Seal.antt =====
-- src/lxmf.rs: `seal_opportunistic` on a packed message.
use rs_lxmflite.Base.{
  ℕ, ◌-◌, ◌≤◌, ◌<◌, ◌≡◌, refl, sym, ap, ◌∙◌, true, ◌||◌, Option, List, [], ◌∷◌, ◌++◌, append_assoc,
  append-nil, arith, length, length-append, take, drop, get_or, usize_mod, take-length_append,
  drop-length_append, lt→leb, le→ltb, ==_refl, ◌==◌, length-take,
}
use rs_lxmflite.Base.Bytes.{IsBytes}
use rs_lxmflite.Base.Compare.{bytes_eq_refl}
use rs_lxmflite.Base.Slices.{ReadsAt, get_or-ReadsAt}
use rs_lxmflite.Base.Result.{ok}
use rs_lxmflite.MsgPack.{skip_value}
use rs_lxmflite.MsgPack.Grammar.{IsValue}
use rs_lxmflite.MsgPack.Complete.{skip_value-IsValue}
use rs_lxmflite.Payload.{copy_at}
use rs_lxmflite.Rns.{Rns, IdentityLaws, EciesLaws, done}
use rs_lxmflite.Payload.Copies.{length-copy_at, slice-copy_at}
use rs_lxmflite.Message.Build.{recipient_destination}
use rs_lxmflite.Opportunistic.{of_crypto, target_key, seal_guards, seal_opportunistic}

-- A packed message that the sealer takes: the destination, the prefix of a plaintext, and an array.
pub record IsSealable (dest head elements more : List ℕ) (m : ℕ) : Type 0 where
  pub length_dest : length dest ≡ 16
  pub length_head : length head ≡ 80
  pub four_or_five : (m == 0x94 || m == 0x95) ≡ true
  pub value : IsValue 9 (m ∷ elements)
  pub octets : IsBytes ((dest ++ head) ++ (m ∷ elements))
  pub small : length (((dest ++ head) ++ (m ∷ elements)) ++ more) < usize_mod

-- The framing of such a message passes.
seal_guards_lem :
    (dest head elements more : List ℕ) (m : ℕ)
    → let message = (dest ++ head) ++ (m ∷ elements) in
      IsSealable dest head elements more m → seal_guards (message ++ more) (length message) ≡ ok tt
unfolding seal_guards
seal_guards_lem dest head elements more m s =
    let front = dest ++ head in
    let message = front ++ (m ∷ elements) in
    let packed = message ++ more in
    let whole = length-append front (m ∷ elements) in
    let lead = length-append dest head in
    let all = length-append message more in
    let at_value : ReadsAt message 96 (m ∷ elements) [] = record {
      reads =
          drop-length_append 96 front (m ∷ elements) (omega (arith, lead, s))
          ∙ sym (append-nil (m ∷ elements));
      inside = omega (arith, whole, lead, s);
    } in
    let at_marker : ReadsAt packed 96 (m ∷ elements) more = record {
      reads =
          ap (drop 96) (append_assoc front (m ∷ elements) more)
          ∙ drop-length_append 96 front (m ∷ (elements ++ more)) (omega (arith, lead, s));
      inside = omega (arith, whole, all, lead, s);
    } in
    let marker : get_or packed 96 0 ≡ m = get_or-ReadsAt 0 at_marker in
    let walked : skip_value (take (length message) packed) 96 0 ≡ ok (length message) =
      ap (λ b. skip_value b 96 0) (take-length_append (length message) message more refl)
      ∙ skip_value-IsValue message 96 0 (m ∷ elements) [] (omega (arith, all, s.small)) s.octets
          at_value s.value
      ∙ ap ok (omega (arith, whole, lead, s)) in
    rw (
      lt→leb (length message) 96 (omega (arith, whole, lead, s)),
      le→ltb (length packed) (length message) (omega (arith, all)),
      marker,
      s.four_or_five,
      walked,
      ==_refl (length message),
    )

module _ (rns : Rns) (laws : IdentityLaws rns) (ecies : EciesLaws rns) where
  open rns use {
    identity_hash, max_ecies_plaintext, ecies_plaintext_offset, ecies_ciphertext_len, ecies_encrypt,
  }

  -- The sealer overwrites the front of the buffer with the ciphertext of the plaintext, which is the
  -- message without its destination.
  pub seal_opportunistic_lem :
      (recipient head elements more : List ℕ) (m : ℕ) (ratchet : Option (List ℕ))
      (ephemeral iv c : List ℕ)
      → let dest = recipient_destination rns laws recipient in
        let message = (dest ++ head) ++ (m ∷ elements) in
        let plain = head ++ (m ∷ elements) in
        IsSealable dest head elements more m
        → length plain ≤ max_ecies_plaintext
        → ecies_ciphertext_len (length plain) ≡ done (length c)
        → length c ≤ length (message ++ more)
        → ecies_encrypt plain
            (target_key recipient ratchet)
            (identity_hash recipient)
            ephemeral
            iv
            (length c)
          ≡ done c
        → seal_opportunistic rns (message ++ more) (length message) recipient ratchet ephemeral iv
          ≡ ok (length c, copy_at 0 c (copy_at ecies_plaintext_offset plain (message ++ more)))
  unfolding seal_opportunistic of_crypto
  seal_opportunistic_lem recipient head elements more m ratchet ephemeral iv c s frame total room
        encrypted =
      let dest = recipient_destination rns laws recipient in
      let message = (dest ++ head) ++ (m ∷ elements) in
      let plain = head ++ (m ∷ elements) in
      let buffer = message ++ more in
      let whole = length-append (dest ++ head) (m ∷ elements) in
      let lead = length-append dest head in
      let inner = length-append head (m ∷ elements) in
      let all = length-append message more in
      let split : buffer ≡ dest ++ (plain ++ more) = simp append_assoc in
      let for_them : take 16 buffer ≡ dest =
        ap (take 16) split ∙ take-length_append 16 dest _ (sym s.length_dest) in
      let size : length message - 16 ≡ length plain = omega (arith, whole, lead, inner, s) in
      let body : take (length plain) (drop 16 buffer) ≡ plain =
        ap (take (length plain))
          (ap (drop 16) split ∙ drop-length_append 16 dest (plain ++ more) (sym s.length_dest))
        ∙ take-length_append (length plain) plain more refl in
      let moved = copy_at ecies_plaintext_offset plain buffer in
      let fits = ecies.offset_fits (length plain) (length c) total in
      let kept : length moved ≡ length buffer =
        length-copy_at ecies_plaintext_offset plain buffer (omega arith) in
      let sealed =
        ecies.in_place (target_key recipient ratchet) (identity_hash recipient) ephemeral iv
          (take (length c) moved) (length plain) (length c) frame total
          (omega (arith, kept, length-take (length c) moved))
        ∙ ap
            (λ p.
              ecies_encrypt p (target_key recipient ratchet) (identity_hash recipient) ephemeral iv
                (length c))
            (slice-copy_at ecies_plaintext_offset (length c) plain buffer fits room)
        ∙ encrypted in
      rw (
        seal_guards_lem dest head elements more m s,
        for_them,
        bytes_eq_refl dest,
        size,
        body,
        le→ltb max_ecies_plaintext (length plain) frame,
        total,
        le→ltb (length buffer) (length c) room,
        sealed,
      )
