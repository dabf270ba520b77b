-- ===== src/Propagation/Delivery.antt =====
-- A message on its way over a propagation node: encrypted by its sender, fetched and decrypted by its
-- recipient, and parsed.
use rs_lxmflite.Base.{
  ℕ, ◌+◌, ◌-◌, ◌≤◌, ◌<◌, ◌≡◌, refl, sym, ap, ap₂, ◌∙◌, subst, none, List, ◌++◌, arith, length,
  length-take, length-drop, take, drop, slice, usize_mod, take-append-drop, ltb, ltb→le, drop-take,
}
use rs_lxmflite.Base.Int.{ℤ}
use rs_lxmflite.Base.Result.{ok, refuse, >>=-eq-ok, refuse-eq-ok, malformed_payload}
use rs_lxmflite.Rns.{Rns, IdentityLaws, InPlaceLaws, done}
use rs_lxmflite.Message.{LxmfView, parse_link}
use rs_lxmflite.Message.Authentic.{parse_link_sound}
use rs_lxmflite.Message.Build.{recipient_destination}
use rs_lxmflite.Propagation.Crypt.{Encrypted, Decrypted, encrypt_message, decrypt_message}
use rs_lxmflite.Propagation.Entry.{RatchetsRefuse, decrypt_message-encrypt_message}

module _ (rns : Rns) (laws : IdentityLaws rns) (ecies : InPlaceLaws rns) where
  open rns use {
    LocalIdentity, public_key, identity_hash, lxmf_delivery_hash, ecies_ciphertext_len,
    ecies_encrypt,
  }

  accepted_length :
      (me : LocalIdentity) (dat key scratch : List ℕ) (keys : List ℤ) (v : LxmfView)
      → parse_link rns me dat key scratch keys ≡ ok v
      → 97 ≤ length dat
  unfolding parse_link
  accepted_length me dat key scratch keys v h =
      let (u, c, rest) = >>=-eq-ok (refuse (ltb (length dat) 97) malformed_payload) _ h in
      ltb→le (length dat) 97 (refuse-eq-ok _ malformed_payload c)

  -- A packed message that its recipient accepts, of any length that a ciphertext length is announced
  -- for, is encrypted to the recipient's public key as an entry for a node, in a buffer with room for
  -- the entry; the recipient decrypts it, under the transient id that the encryption returned, to a
  -- message that is accepted with the same view. The retained keys, if there are any, refuse the
  -- ciphertext.
  pub parse_link-decrypt_message :
      (me : LocalIdentity) (buffer key scratch : List ℕ) (len : ℕ) (keys : List ℤ) (v : LxmfView)
      (ephemeral iv : List ℕ) (total : ℕ) (ratchets : List (List ℕ))
      → parse_link rns me (take len buffer) key scratch keys ≡ ok v
      → len ≤ length buffer
      → length buffer < usize_mod
      → ecies_ciphertext_len (len - 16) ≡ done total
      → 16 + total ≤ length buffer
      → RatchetsRefuse rns laws ecies me buffer len ephemeral iv ratchets
      → (e : Encrypted) × (d : Decrypted) × (encrypt_message rns buffer len
            (public_key me)
            none
            ephemeral
            iv
          ≡ ok e)
        × (decrypt_message rns (take e.len e.buffer) me ratchets ≡ ok d)
        × (parse_link rns me (take d.len d.buffer) key scratch keys ≡ ok v)
        × (d.transient_id ≡ e.transient_id)
        × (d.ratchet ≡ none)
  parse_link-decrypt_message me buffer key scratch len keys v ephemeral iv total ratchets accepted
        inside small announced room refused =
      let dat = take len buffer in
      let long = accepted_length me dat key scratch keys v accepted in
      let (for_me, claimed, rest) = parse_link_sound rns me dat key scratch keys v accepted in
      let dest = recipient_destination rns laws (public_key me) in
      let plain = slice buffer 16 len in
      let more = drop len buffer in
      let width = length-take len buffer in
      let tail : drop 16 dat ≡ plain = drop-take 16 len (len - 16) buffer refl in
      let message : dest ++ plain ≡ dat =
        ap₂ (λ a b. a ++ b) (sym (laws.delivery_hash me) ∙ sym for_me) (sym tail)
        ∙ take-append-drop 16 dat in
      let whole : (dest ++ plain) ++ more ≡ buffer =
        ap (λ m. m ++ more) message ∙ take-append-drop len buffer in
      let plain_len : length plain ≡ len - 16 =
        omega (arith, sym (ap length tail), length-drop 16 dat, width) in
      let message_len : length (dest ++ plain) ≡ len = omega (arith, ap length message, width) in
      let (e, d, run, opened, text, transient, which) =
        decrypt_message-encrypt_message rns laws ecies me plain more ephemeral iv total ratchets
          (omega (arith, plain_len, width, long))
          (subst (λ b. length b < usize_mod) (sym whole) small)
          (ap ecies_ciphertext_len plain_len ∙ announced)
          (subst (λ b. 16 + total ≤ length b) (sym whole) room)
          (subst
            (λ b. RatchetsRefuse rns laws ecies me b (length (dest ++ plain)) ephemeral iv ratchets)
            (sym whole)
            (subst (λ n. RatchetsRefuse rns laws ecies me buffer n ephemeral iv ratchets)
              (sym message_len) refused)) in
      (
        e,
        d,
        ap₂ (λ b n. encrypt_message rns b n (public_key me) none ephemeral iv) (sym whole)
              (sym message_len)
            ∙ run,
        opened,
        ap (λ m. parse_link rns me m key scratch keys) (text ∙ message) ∙ accepted,
        transient,
        which,
      )
