-- ===== src/Opportunistic/Peek.antt =====
-- src/lxmf.rs: the first look at a packet's sender, and the parsers that follow it.
use rs_lxmflite.Base.{
  ℕ, ◌≡◌, refl, sym, ap, ◌∙◌, Option, List, ltb, length, take, slice, drop, not, false, not-false,
}
use rs_lxmflite.Base.Compare.{bytes_eq, bytes_eq→eq}
use rs_lxmflite.Base.Int.{ℤ}
use rs_lxmflite.Base.Result.{
  ok, refuse, >>=-eq-ok, refuse-eq-ok, ok_injective, output_too_small, malformed_payload,
  source_hash_mismatch,
}
use rs_lxmflite.Rns.{Rns, HintLaws, CryptoResult, done, failed}
use rs_lxmflite.Message.{LxmfView, decode_payload, verify_marked}
use rs_lxmflite.Opportunistic.{
  of_crypto, max_lxmf_payload, authenticate_decrypted, parse_decrypted, parse_opportunistic_ratchet,
  parse_opportunistic_ratchet_hint, peek_source_opportunistic_ratchet,
}

of_crypto-ok : {A : Type 0} (r : CryptoResult A) (a : A) → of_crypto r ≡ ok a → r ≡ done a
unfolding of_crypto
of_crypto-ok (done b) a h = ap done (ok_injective h)
of_crypto-ok (failed e) a h = cc

module _ (rns : Rns) where
  open rns use {
    LocalIdentity, private_key, local_hash, delivery_destination, identity_hash,
    max_ecies_plaintext, ecies_decrypt_with_ratchets,
  }

  -- The sender's hash in an accepted plaintext is that of the key.
  parse_decrypted-source :
      (me : LocalIdentity) (key plaintext : List ℕ) (keys : List ℤ) (v : LxmfView)
      → parse_decrypted rns me key plaintext keys ≡ ok v
      → (v.source_hash ≡ take 16 plaintext)
        × (delivery_destination (identity_hash key) ≡ take 16 plaintext)
        × (ltb (length plaintext) 81 ≡ false)
  unfolding parse_decrypted authenticate_decrypted
  parse_decrypted-source me key plaintext keys v h =
      let src = take 16 plaintext in
      let (u1, c1, h1) = >>=-eq-ok (refuse (ltb (length plaintext) 81) malformed_payload) _ h in
      let (u2, c2, h2) =
        >>=-eq-ok
          (refuse (not (bytes_eq (delivery_destination (identity_hash key)) src))
            source_hash_mismatch)
          _ h1 in
      let (d, c3, h3) = >>=-eq-ok (decode_payload (drop 80 plaintext) keys) _ h2 in
      let (u4, c4, h4) =
        >>=-eq-ok (refuse (ltb (max_lxmf_payload rns) d.after_fields) malformed_payload) _ h3 in
      let (hash, c5, h5) =
        >>=-eq-ok (verify_marked rns d.after_fields _ key (slice plaintext 16 80)) _ h4 in
      (
        sym (ap (λ w. w.source_hash) (ok_injective h5)),
        bytes_eq→eq (delivery_destination (identity_hash key)) src
            (not-false _ (refuse-eq-ok _ source_hash_mismatch c2)),
        refuse-eq-ok _ malformed_payload c1,
      )

  -- A packet that the ratchet parser accepts has the sender whose hash the first look at it returns,
  -- which is the delivery hash of the key; that look selects the parser's ratchet key; and the
  -- parser that tries only the selected key returns the same view.
  pub peek-parse_hint :
      (hints : HintLaws rns) (me : LocalIdentity) (ratchets : List (List ℕ))
      (packet key scratch : List ℕ) (keys : List ℤ) (v : LxmfView) (which : Option ℕ)
      → parse_opportunistic_ratchet rns me ratchets packet key scratch keys ≡ ok (v, which)
      → (peek_source_opportunistic_ratchet rns me ratchets packet scratch
          ≡ ok (v.source_hash, which))
        × (v.source_hash ≡ delivery_destination (identity_hash key))
        × (parse_opportunistic_ratchet_hint rns me ratchets which packet key scratch keys ≡ ok v)
  unfolding parse_opportunistic_ratchet parse_opportunistic_ratchet_hint
      peek_source_opportunistic_ratchet of_crypto
  peek-parse_hint hints me ratchets packet key scratch keys v which h =
      let mine = take 32 (private_key me) in
      let (u1, c1, h1) =
        >>=-eq-ok (refuse (ltb (length scratch) max_ecies_plaintext) output_too_small) _ h in
      let (opened, c2, h2) =
        >>=-eq-ok
          (of_crypto
            (ecies_decrypt_with_ratchets packet ratchets mine (local_hash me) (length scratch)))
          _ h1 in
      let (w, c3, h3) = >>=-eq-ok (parse_decrypted rns me key opened.0 keys) _ h2 in
      let same = ok_injective h3 in
      let parsed : parse_decrypted rns me key opened.0 keys ≡ ok v = c3 ∙ ap (λ p. ok p.0) same in
      let (source, claimed, long) = parse_decrypted-source me key opened.0 keys v parsed in
      let room = refuse-eq-ok _ output_too_small c1 in
      let decrypted : ecies_decrypt_with_ratchets packet ratchets mine (local_hash me)
            (length scratch)
          ≡ done (opened.0, which) =
        of_crypto-ok _ opened c2 ∙ ap (λ p. done (opened.0, p.1)) same in
      (
        rw (room, decrypted, long, source) refl,
        source ∙ sym claimed,
        rw
            (
              room,
              hints.hinted packet ratchets mine (local_hash me) opened.0 which (length scratch)
                  decrypted,
            )
            parsed,
      )
