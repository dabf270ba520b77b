-- ===== src/Tests/Toy.antt =====
-- A toy network stack, in which an identity is a number, hashes repeat a byte, a signature repeats
-- the key's first byte, and a ciphertext is its plaintext behind 32 zeros.
use rs_lxmflite.Base.{
  ℕ, ◌+◌, ◌-◌, ◌%◌, ◌≤◌, ◌≡◌, refl, sym, ap, ◌∙◌, Bool, true, false, Option, none, List, [], ◌++◌,
  arith, length, get_or, take, drop, replicate, leb, le→leb, leb→le, length-drop, length-take,
  slice, take-length_append, append-nil,
}
use rs_lxmflite.Base.Compare.{bytes_eq, bytes_eq_refl}
use rs_lxmflite.Rns.{
  Rns, IdentityLaws, EciesLaws, HintLaws, InPlaceLaws, CryptoError, CryptoResult,
  plaintext_too_long, out_too_small, authentication_failed,
}

abbrev guard_crypto : {A : Type 0} → Bool → CryptoError → CryptoResult A → CryptoResult A
guard_crypto true e rest = rest
guard_crypto false e rest = CryptoResult.failed e

abbrev toy_encrypt : List ℕ → ℕ → CryptoResult (List ℕ)
toy_encrypt plain room = guard_crypto (leb (length plain) 400) plaintext_too_long (
    guard_crypto (leb (32 + length plain) room) out_too_small
      (CryptoResult.done (replicate 32 0 ++ plain)))

abbrev toy_decrypt : List ℕ → CryptoResult (List ℕ)
toy_decrypt c =
    guard_crypto (leb 32 (length c)) authentication_failed (CryptoResult.done (drop 32 c))

abbrev map_crypto : {A B : Type 0} → (A → B) → CryptoResult A → CryptoResult B
map_crypto f (CryptoResult.done a) = CryptoResult.done (f a)
map_crypto f (CryptoResult.failed e) = CryptoResult.failed e

abbrev base_key : List ℕ → List ℕ × Option ℕ
base_key plain = (plain, none)

abbrev pub toy : Rns
toy = record {
  LocalIdentity = ℕ;
  public_key = λ i. replicate 64 (i % 256);
  private_key = λ i. replicate 64 (i % 256);
  local_hash = λ i. replicate 16 (i % 256);
  lxmf_delivery_hash = λ i. replicate 16 (i % 256);
  sign = λ i m. replicate 64 (i % 256);
  sha256 = λ m. replicate 32 (length m % 256);
  identity_hash = λ k. replicate 16 (get_or k 0 0);
  delivery_destination = λ k. replicate 16 (get_or k 0 0 % 256);
  verify = λ k m s. bytes_eq s (replicate 64 (get_or k 0 0));
  max_ecies_plaintext = 400;
  ecies_plaintext_offset = 32;
  ecies_fixed_overhead = 16;
  ecies_ciphertext_len = λ n. CryptoResult.done (32 + n);
  ecies_encrypt = λ plain target hash ephemeral iv room. toy_encrypt plain room;
  ecies_decrypt = λ cipher key hash room. toy_decrypt cipher;
  ecies_decrypt_with_ratchets =
      λ cipher ratchets key hash room. map_crypto base_key (toy_decrypt cipher);
  ecies_decrypt_with_ratchet_hint = λ cipher ratchets key hash hint room. toy_decrypt cipher;
  ecies_encrypt_in_place = λ target hash ephemeral iv buffer n.
      CryptoResult.done (replicate 32 0 ++ take n (drop 32 buffer));
  ecies_decrypt_in_place = λ key hash buffer. (map_crypto length (toy_decrypt buffer), buffer);
}

abbrev pub toy_laws : IdentityLaws toy
toy_laws = record {
  delivery_hash = λ i. ap (replicate 16) (omega arith);
  length-destination = λ k. refl;
  length-sha256 = λ m. refl;
  length-sign = λ i m. refl;
  sign_verifies = λ i m. bytes_eq_refl (replicate 64 (i % 256));
  local_hash_lem = λ i. refl;
  destination-IsBytes = λ k. omega arith;
  sign-IsBytes = λ i m. omega arith;
}

done_injective : {A : Type 0} {a b : A} → CryptoResult.done a ≡ CryptoResult.done b → a ≡ b
done_injective e = cc

guard_crypto-done :
    {A : Type 0} (b : Bool) (e : CryptoError) (rest : CryptoResult A) (c : A)
    → guard_crypto b e rest ≡ CryptoResult.done c
    → (b ≡ true) × (rest ≡ CryptoResult.done c)
guard_crypto-done true e rest c h = (refl, h)
guard_crypto-done false e rest c h = cc

toy_encrypt-fits :
    (plain : List ℕ) (room : ℕ)
    → length plain ≤ 400
    → 32 + length plain ≤ room
    → toy_encrypt plain room ≡ CryptoResult.done (replicate 32 0 ++ plain)
toy_encrypt-fits plain room h k =
    rw (le→leb (length plain) 400 h, le→leb (32 + length plain) room k)

toy_encrypt-done :
    (plain : List ℕ) (room : ℕ) (c : List ℕ)
    → toy_encrypt plain room ≡ CryptoResult.done c
    → (replicate 32 0 ++ plain ≡ c) × (length plain ≤ 400)
toy_encrypt-done plain room c h =
    let (short, rest) = guard_crypto-done (leb (length plain) 400) plaintext_too_long _ c h in
    let (fits, made) = guard_crypto-done (leb (32 + length plain) room) out_too_small _ c rest in
    (done_injective made, leb→le (length plain) 400 short)

toy_len-done : (n total : ℕ) → toy.ecies_ciphertext_len n ≡ CryptoResult.done total → 32 + n ≡ total
toy_len-done n total e = done_injective e

map_crypto-done :
    (r : CryptoResult (List ℕ)) (plain : List ℕ) (which : Option ℕ)
    → map_crypto base_key r ≡ CryptoResult.done (plain, which)
    → r ≡ CryptoResult.done plain
map_crypto-done (CryptoResult.done p) plain which h =
    ap (λ q. CryptoResult.done (q.0)) (done_injective h)
map_crypto-done (CryptoResult.failed e) plain which h = cc

pub toy_ecies : EciesLaws toy
toy_ecies = record {
  encrypts = λ plain target hash ephemeral iv room n h e k.
      let same = toy_len-done (length plain) n e in
      (replicate 32 0 ++ plain, toy_encrypt-fits plain room h (omega arith), omega arith);
  room_free = λ plain target hash ephemeral iv c room room' h e k.
      let (same, short) = toy_encrypt-done plain room c e in
      toy_encrypt-fits plain room' short (omega (arith, ap length same))
      ∙ ap CryptoResult.done same;
  decrypts = λ i plain ephemeral iv c room room' h e k.
      ap toy_decrypt (sym (toy_encrypt-done plain room c e).0)
      ∙ rw (le→leb 32 (length (replicate 32 0 ++ plain)) (omega arith)) refl;
  offset_fits = λ n total e. omega (arith, toy_len-done n total e);
  in_place = λ target hash ephemeral iv buffer n total h e k.
      let same = toy_len-done n total e in
      let plain = slice buffer 32 (32 + n) in
      let width : length plain ≡ n =
        omega (arith, length-take (32 + n - 32) (drop 32 buffer), length-drop 32 buffer) in
      ap (λ m. CryptoResult.done (replicate 32 0 ++ take m (drop 32 buffer))) {x = n}
        {y = 32 + n - 32} (omega arith)
      ∙ sym (toy_encrypt-fits plain total (omega (arith, width)) (omega (arith, width)));
}

pub toy_hint : HintLaws toy
toy_hint = record {
  hinted = λ cipher ratchets key hash plain which room e.
      map_crypto-done (toy_decrypt cipher) plain which e;
}

pub toy_in_place : InPlaceLaws toy
toy_in_place = record {
  offset_fits = λ n total e. omega (arith, toy_len-done n total e);
  block_fits = λ n total e. omega (arith, toy_len-done n total e);
  seals = λ i ephemeral iv buffer n total e k.
      let same = toy_len-done n total e in
      let staged = take n (drop 32 buffer) in
      let c = replicate 32 0 ++ staged in
      let width : length staged ≡ n =
        omega (arith, length-take n (drop 32 buffer), length-drop 32 buffer) in
      let cut : slice buffer 32 (32 + n) ≡ staged =
        ap (λ m. take m (drop 32 buffer)) {x = 32 + n - 32} {y = n} (omega arith) in
      (
        c,
        refl,
        omega (arith, width),
        (
          c,
          rw (le→leb 32 (length c) (omega arith), cut) refl,
          refl,
          rw cut (
              ap (λ m. take m staged) {x = 32 + length staged - 32} {y = length staged}
                (omega arith)
              ∙ ap (take (length staged)) (sym (append-nil staged))
              ∙ take-length_append (length staged) staged [] refl),
        ),
      );
  refused_unchanged = λ key hash c body e h. sym (ap (λ p. p.1) h);
}
