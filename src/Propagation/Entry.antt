-- ===== src/Propagation/Entry.antt =====
-- src/propagation.rs: a message encrypted for a node, and what its recipient gets back.
use rs_lxmflite.Base.{
  subst, ℕ, ◌+◌, ◌-◌, ◌≤◌, ◌<◌, ◌≡◌, refl, sym, ap, ap₂, ◌∙◌, Option, none, some, ltb,
  if◌then◌else◌, List, [], ◌∷◌, ◌++◌, append_assoc, append-nil, arith, length, length-append,
  length-take, length-drop, take, drop, slice, usize_mod, take-length_append, drop-length_append,
  drop-drop, lt→leb, le→ltb, lt→ltb, All, drop-take,
}
use rs_lxmflite.Base.Compare.{bytes_eq_refl}
use rs_lxmflite.Base.Result.{Result, ok}
use rs_lxmflite.Payload.{copy_at}
use rs_lxmflite.Rns.{Rns, IdentityLaws, InPlaceLaws, Opens, CryptoError, CryptoResult, done, failed}
use rs_lxmflite.Payload.Copies.{
  drop_all, drop-copy_at, length-copy_at, slice-copy_at, take-copy_at, copy_same, front-copy_at,
}
use rs_lxmflite.Message.Build.{recipient_destination}
use rs_lxmflite.Opportunistic.{of_crypto, target_key}
use rs_lxmflite.Propagation.Crypt.{
  Encrypted, Decrypted, encrypt_message, decrypt_loop, decrypt_message,
}

module _ (rns : Rns) (laws : IdentityLaws rns) (ecies : InPlaceLaws rns) where
  open rns use {
    LocalIdentity, public_key, private_key, local_hash, lxmf_delivery_hash, sha256, identity_hash,
    ecies_plaintext_offset, ecies_ciphertext_len, ecies_fixed_overhead, max_ecies_plaintext,
    ecies_decrypt_in_place,
  }

  -- The message with more behind it, and the part of the buffer that is encrypted in place, once the
  -- plaintext has been moved there.
  abbrev message_buffer : LocalIdentity → List ℕ → List ℕ → List ℕ
  message_buffer me plain more = (recipient_destination rns laws (public_key me) ++ plain) ++ more

  abbrev staged : LocalIdentity → List ℕ → List ℕ → ℕ → List ℕ
  staged me plain more total =
      take total
        (drop 16 (copy_at (16 + ecies_plaintext_offset) plain (message_buffer me plain more)))

  staged-plain :
      (me : LocalIdentity) (plain more : List ℕ) (total : ℕ)
      → ecies_ciphertext_len (length plain) ≡ done total
      → 16 + total ≤ length (message_buffer me plain more)
      → (length (staged me plain more total) ≡ total)
        × (slice
              (staged me plain more total)
              ecies_plaintext_offset
              (ecies_plaintext_offset + length plain)
            ≡ plain)
  staged-plain me plain more total announced room =
      let buffer = message_buffer me plain more in
      let at = 16 + ecies_plaintext_offset in
      let moved = copy_at at plain buffer in
      let fits = ecies.offset_fits (length plain) total announced in
      let kept : length moved ≡ length buffer = length-copy_at at plain buffer (omega arith) in
      (
        omega (arith, length-take total (drop 16 moved), length-drop 16 moved, kept),
        ap (λ b. slice b ecies_plaintext_offset (ecies_plaintext_offset + length plain))
              (sym (drop-take 16 (16 + total) total moved (omega arith)))
            ∙ ap₂ take {x = ecies_plaintext_offset + length plain - ecies_plaintext_offset}
                {y = at + length plain - at} (omega arith)
                (drop-drop 16 ecies_plaintext_offset at (take (16 + total) moved) refl)
            ∙ slice-copy_at at (16 + total) plain buffer (omega arith) room,
      )

  -- The encryption with a ciphertext that the crate returns.
  encrypt_message_given :
      (me : LocalIdentity) (plain more ephemeral iv : List ℕ) (total : ℕ) (c : List ℕ)
      → let dest = recipient_destination rns laws (public_key me) in
        80 < length plain
        → length (message_buffer me plain more) < usize_mod
        → ecies_ciphertext_len (length plain) ≡ done total
        → 16 + total ≤ length (message_buffer me plain more)
        → rns.ecies_encrypt_in_place
            (take 32 (public_key me))
            (identity_hash (public_key me))
            ephemeral
            iv
            (staged me plain more total)
            (length plain)
          ≡ done c
        → length c ≡ total
        → (e : Encrypted) × (encrypt_message rns
              (message_buffer me plain more)
              (length (dest ++ plain))
              (public_key me)
              none
              ephemeral
              iv
            ≡ ok e)
          × (take e.len e.buffer ≡ dest ++ c)
          × (e.transient_id ≡ sha256 (dest ++ c))
  unfolding encrypt_message of_crypto target_key
  encrypt_message_given me plain more ephemeral iv total c long small announced room sealed width =
      let recipient = public_key me in
      let dest = recipient_destination rns laws recipient in
      let message = dest ++ plain in
      let buffer = message ++ more in
      let dest_len = laws.length-destination (identity_hash recipient) in
      let whole = length-append dest plain in
      let all = length-append message more in
      let split : buffer ≡ dest ++ (plain ++ more) = append_assoc dest plain more in
      let for_them : take 16 buffer ≡ dest =
        ap (take 16) split ∙ take-length_append 16 dest _ (sym dest_len) in
      let size : length message - 16 ≡ length plain = omega (arith, whole, dest_len) in
      let body : take (length plain) (drop 16 buffer) ≡ plain =
        ap (take (length plain))
          (ap (drop 16) split ∙ drop-length_append 16 dest (plain ++ more) (sym dest_len))
        ∙ take-length_append (length plain) plain more refl in
      let at = 16 + ecies_plaintext_offset in
      let moved = copy_at at plain buffer in
      let fits = ecies.offset_fits (length plain) total announced in
      let front : take (16 + total) (copy_at 16 c moved) ≡ dest ++ c =
        ap (λ n. take (16 + n) (copy_at 16 c moved)) (sym width)
        ∙ front-copy_at 16 dest c moved (sym dest_len)
            (take-copy_at 16 at plain buffer (omega arith) (omega arith) ∙ for_them) in
      let behind : 16 + total - 16 ≡ total = omega arith in
      (
        record {
          len = 16 + total;
          transient_id = sha256 (take (16 + total) (copy_at 16 c moved));
          buffer = copy_at 16 c moved;
        },
        rw (
          lt→leb (length message) 96 (omega (arith, whole, dest_len)),
          le→ltb (length buffer) (length message) (omega (arith, all)),
          for_them,
          bytes_eq_refl dest,
          size,
          body,
          announced,
          lt→ltb (16 + total) usize_mod (omega arith),
          le→ltb (length buffer) (16 + total) room,
          behind,
          sealed,
        ),
        front,
        ap sha256 front,
      )

  -- The entry is the destination and the ciphertext of the rest of the message.
  pub encrypt_message_lem :
      (me : LocalIdentity) (plain more ephemeral iv : List ℕ) (total : ℕ)
      → let dest = recipient_destination rns laws (public_key me) in
        80 < length plain
        → length (message_buffer me plain more) < usize_mod
        → ecies_ciphertext_len (length plain) ≡ done total
        → 16 + total ≤ length (message_buffer me plain more)
        → (e : Encrypted) × (c : List ℕ) × (encrypt_message rns
              (message_buffer me plain more)
              (length (dest ++ plain))
              (public_key me)
              none
              ephemeral
              iv
            ≡ ok e)
          × (take e.len e.buffer ≡ dest ++ c)
          × (e.transient_id ≡ sha256 (dest ++ c))
          × Opens rns me c plain
          × (length c ≡ total)
  encrypt_message_lem me plain more ephemeral iv total long small announced room =
      let (staged_len, back) = staged-plain me plain more total announced room in
      let (c, sealed, width, opens) =
        ecies.seals me ephemeral iv (staged me plain more total) (length plain) total announced
          staged_len in
      let (e, run, front, id) =
        encrypt_message_given me plain more ephemeral iv total c long small announced room sealed
          width in
      (e, c, run, front, id, subst (Opens rns me c) back opens, width)

  -- A key that the ciphertext refuses.
  abbrev pub Refuses : LocalIdentity → List ℕ → List ℕ → Type 0
  Refuses me c key =
      (e : CryptoError) × (body : List ℕ) × (ecies_decrypt_in_place key (local_hash me) c
        ≡ (failed e, body))

  -- The retained keys refuse the ciphertext of the entry that the encryption makes.
  abbrev pub RatchetsRefuse : LocalIdentity → List ℕ → ℕ → List ℕ → List ℕ → List (List ℕ) → Type 0
  RatchetsRefuse me buffer len ephemeral iv ratchets =
      (e : Encrypted)
      → encrypt_message rns buffer len (public_key me) none ephemeral iv ≡ ok e
      → All (Refuses me (drop 16 (take e.len e.buffer))) ratchets

  -- What the loop makes of one attempt on a buffer.
  after_attempt :
      LocalIdentity
      → List ℕ
      → ℕ
      → ℕ
      → List (List ℕ)
      → List ℕ
      → CryptoResult ℕ × List ℕ
      → Result Decrypted
  after_attempt me id count index keys buffer (opened, body) =
      let tried = copy_at 16 body buffer in
      let start = 16 + ecies_plaintext_offset in
      elim opened [
        | failed e ↦ decrypt_loop rns me id count (index + 1) keys tried
        | done m ↦ ok (record {
          len = 16 + m;
          transient_id = id;
          ratchet = if ltb index count then some index else none;
          buffer = copy_at 16 (slice tried start (start + m)) tried;
        })
      ]

  -- The loop over retained keys that refuse, and the base key that opens.
  decrypt_loop_lem :
      (me : LocalIdentity) (id c plain : List ℕ) (count index : ℕ) (ratchets : List (List ℕ))
      (dest : List ℕ)
      → length dest ≡ 16
      → count ≡ index + length ratchets
      → All (Refuses me c) ratchets
      → Opens rns me c plain
      → (d : Decrypted) × (decrypt_loop rns me id count index
            (ratchets ++ (take 32 (private_key me) ∷ []))
            (dest ++ c)
          ≡ ok d)
        × (take d.len d.buffer ≡ dest ++ plain)
        × (d.transient_id ≡ id)
        × (d.ratchet ≡ none)
  unfolding decrypt_loop after_attempt
  decrypt_loop_lem me id c plain count index [] dest hd hc refused opens =
      let base = take 32 (private_key me) in
      let (body, opened, width, inside) = opens in
      let tail : drop 16 (dest ++ c) ≡ c = drop-length_append 16 dest c (sym hd) in
      let front : take 16 (dest ++ c) ≡ dest = take-length_append 16 dest c (sym hd) in
      let tried = copy_at 16 body (dest ++ c) in
      let n = length plain in
      let at = 16 + ecies_plaintext_offset in
      let both : rns.ecies_decrypt_in_place base (local_hash me) (drop 16 (dest ++ c))
          ≡ (done n, body) =
        ap (rns.ecies_decrypt_in_place base (local_hash me)) tail ∙ opened in
      let past : drop (16 + length body) (dest ++ c) ≡ [] =
        sym (drop-drop 16 (length body) (16 + length body) (dest ++ c) refl)
        ∙ ap (drop (length body)) tail
        ∙ ap (λ k. drop k c) width
        ∙ drop_all c in
      let fixed : drop 16 tried ≡ body =
        drop-copy_at 16 body (dest ++ c) (omega (arith, length-append dest c))
        ∙ ap (λ t. body ++ t) past
        ∙ append-nil body in
      let got : slice tried at (at + n) ≡ plain =
        ap₂ take {x = at + n - at} {y = ecies_plaintext_offset + n - ecies_plaintext_offset}
          (omega arith)
          (sym (drop-drop 16 ecies_plaintext_offset at tried refl)
            ∙ ap (drop ecies_plaintext_offset) fixed)
        ∙ inside in
      let answer : Option ℕ → List ℕ → Result Decrypted = λ r b.
        ok (record { len = 16 + n; transient_id = id; ratchet = r; buffer = copy_at 16 b tried }) in
      (
        record { len = 16 + n; transient_id = id; ratchet = none; buffer = copy_at 16 plain tried },
        ap (after_attempt me id count index [] (dest ++ c)) both
            ∙ ap₂ answer (rw (le→ltb index count (omega arith)) refl) got,
        front-copy_at 16 dest plain tried (sym hd) (
            take-copy_at 16 16 body (dest ++ c) (omega arith) (omega (arith, length-append dest c))
            ∙ front),
        refl,
        refl,
      )
  decrypt_loop_lem me id c plain count index (key ∷ keys) dest hd hc refused opens =
      let base = take 32 (private_key me) in
      let (e, body, failing) = refused.0 in
      let kept =
        failing
        ∙ ap (λ b. (failed e, b)) (ecies.refused_unchanged key (local_hash me) c body e failing) in
      let tail : drop 16 (dest ++ c) ≡ c = drop-length_append 16 dest c (sym hd) in
      let same : copy_at 16 c (dest ++ c) ≡ dest ++ c =
        ap (λ b. copy_at 16 b (dest ++ c)) (sym tail) ∙ copy_same 16 (dest ++ c) in
      let (d, run, text, transient, which) =
        decrypt_loop_lem me id c plain count (index + 1) keys dest hd (omega arith) refused.1
          opens in
      (
        d,
        ap (after_attempt me id count index (keys ++ (base ∷ [])) (dest ++ c))
              (ap (rns.ecies_decrypt_in_place key (local_hash me)) tail ∙ kept)
            ∙ ap (decrypt_loop rns me id count (index + 1) (keys ++ (base ∷ []))) same
            ∙ run,
        text,
        transient,
        which,
      )

  -- What its recipient decrypts from an entry, whatever retained keys refuse it before the base key.
  decrypt_message_lem :
      (me : LocalIdentity) (c plain : List ℕ) (ratchets : List (List ℕ))
      → ecies_fixed_overhead + 16 ≤ length c
      → All (Refuses me c) ratchets
      → Opens rns me c plain
      → (d : Decrypted) × (decrypt_message rns (lxmf_delivery_hash me ++ c) me ratchets ≡ ok d)
        × (take d.len d.buffer ≡ lxmf_delivery_hash me ++ plain)
        × (d.transient_id ≡ sha256 (lxmf_delivery_hash me ++ c))
        × (d.ratchet ≡ none)
  unfolding decrypt_message
  decrypt_message_lem me c plain ratchets long refused opens =
      let dest = lxmf_delivery_hash me in
      let hd : length dest ≡ 16 = ap length (laws.delivery_hash me) ∙ laws.length-destination _ in
      let (d, run, text, transient, which) =
        decrypt_loop_lem me (sha256 (dest ++ c)) c plain (length ratchets) 0 ratchets dest hd
          (omega arith) refused opens in
      (
        d,
        rw
            (
              le→ltb (length (dest ++ c)) (16 + ecies_fixed_overhead + 16)
                  (omega (arith, length-append dest c)),
              take-length_append 16 dest c (sym hd),
              bytes_eq_refl dest,
            )
            run,
        text,
        transient,
        which,
      )

  -- A message to an identity, encrypted to its public key as an entry for a node, comes back to that
  -- identity as it was, under the transient id that the encryption returned. The retained keys, if
  -- there are any, refuse the ciphertext.
  pub decrypt_message-encrypt_message :
      (me : LocalIdentity) (plain more ephemeral iv : List ℕ) (total : ℕ) (ratchets : List (List ℕ))
      → let message = recipient_destination rns laws (public_key me) ++ plain in
        80 < length plain
        → length (message ++ more) < usize_mod
        → ecies_ciphertext_len (length plain) ≡ done total
        → 16 + total ≤ length (message ++ more)
        → RatchetsRefuse me (message ++ more) (length message) ephemeral iv ratchets
        → (e : Encrypted) × (d : Decrypted) × (encrypt_message rns
              (message ++ more)
              (length message)
              (public_key me)
              none
              ephemeral
              iv
            ≡ ok e)
          × (decrypt_message rns (take e.len e.buffer) me ratchets ≡ ok d)
          × (take d.len d.buffer ≡ message)
          × (d.transient_id ≡ e.transient_id)
          × (d.ratchet ≡ none)
  decrypt_message-encrypt_message me plain more ephemeral iv total ratchets long small announced
        room refused =
      let to_me = laws.delivery_hash me in
      let dest = recipient_destination rns laws (public_key me) in
      let (e, c, run, entry, id, opens, width) =
        encrypt_message_lem me plain more ephemeral iv total long small announced room in
      let body : drop 16 (take e.len e.buffer) ≡ c =
        ap (drop 16) entry ∙ drop-length_append 16 dest c (sym (laws.length-destination _)) in
      let (d, opened, text, transient, which) =
        decrypt_message_lem me c plain ratchets
          (omega (arith, width, ecies.block_fits (length plain) total announced))
          (subst (λ b. All (Refuses me b) ratchets) body (refused e run)) opens in
      (
        e,
        d,
        run,
        ap (λ b. decrypt_message rns b me ratchets) (entry ∙ ap (λ h. h ++ c) (sym to_me)) ∙ opened,
        text ∙ ap (λ h. h ++ plain) to_me,
        transient ∙ ap (λ h. sha256 (h ++ c)) to_me ∙ sym id,
        which,
      )
