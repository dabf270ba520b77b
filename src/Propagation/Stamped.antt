-- ===== src/Propagation/Stamped.antt =====
-- A message built for a link, with a recipient stamp behind it, as the parser reads it.
use rs_lxmflite.Base.{
  ℕ, ◌+◌, ◌-◌, ◌≤◌, ◌<◌, ◌≡◌, ◌⊎◌, refl, inl, inr, sym, ap, ap₂, ◌∙◌, subst, List, [], ◌∷◌, ◌++◌,
  append_assoc, arith, length, length-append, length-drop, take, drop, usize_mod,
  take-length_append, take-append-drop,
}
use rs_lxmflite.Base.Bytes.{IsByte, IsBytes}
use rs_lxmflite.Base.Int.{ℤ}
use rs_lxmflite.Base.Result.{Result, ok}
use rs_lxmflite.MsgPack.Grammar.{IsValue}
use rs_lxmflite.Payload.{PayloadFields}
use rs_lxmflite.Payload.Bytes.{fields_bytes, payload_bytes}
use rs_lxmflite.Rns.{Rns, IdentityLaws}
use rs_lxmflite.Message.{LxmfView, BuiltLink, build_link_inner, parse_link}
use rs_lxmflite.Message.Build.{
  BuffersFit, length-packed_message, recipient_destination, build_link_inner_lem,
}
use rs_lxmflite.Message.Encoded.{Sendable, elements_of, payload_bytes-elements}
use rs_lxmflite.Message.Composed.{Composed, Composed-Sendable}
use rs_lxmflite.Message.Whole.{payload_bytes-IsValue, packed_message-IsBytes}
use rs_lxmflite.Message.RoundTrip.{hashed_for, message_for, parse_link-elements}
use rs_lxmflite.Propagation.{append_recipient_stamp}
use rs_lxmflite.Propagation.Append.{append_recipient_stamp_lem}

-- A recipient's stamp: a ticket stamp of 16 bytes, or a proof of work of 32.
pub record IsRecipientStamp (stamp : List ℕ) : Type 0 where
  pub width : (length stamp ≡ 16) ⊎ (length stamp ≡ 32)
  pub octets : IsBytes stamp

IsRecipientStamp-IsByte : (stamp : List ℕ) → IsRecipientStamp stamp → IsByte (length stamp)
IsRecipientStamp-IsByte stamp st = elim (st.width) [ inl e ↦ omega arith | inr e ↦ omega arith ]

two_first : (rest : List ℕ) → 2 ≤ length rest → (x y : ℕ) × (more : List ℕ) × (rest ≡ x ∷ y ∷ more)
two_first [] h = absurd (omega arith)
two_first (x ∷ []) h = absurd (omega arith)
two_first (x ∷ y ∷ more) h = (x, y, more, refl)

module _ (rns : Rns) (laws : IdentityLaws rns) where
  open rns use {LocalIdentity, public_key, lxmf_delivery_hash, sign, sha256}

  -- What `append_recipient_stamp` leaves in a buffer with the message and more.
  stamped_packed :
      (source me : LocalIdentity) (timestamp : ℕ) (title content : List ℕ)
      (fs : PayloadFields (List ℕ)) (keys : List ℤ) (stamp rest : List ℕ)
      → let payload = payload_bytes timestamp title content fs in
        let message = message_for rns laws source me payload payload in
        Sendable timestamp title content fs keys
        → IsValue 8 (fields_bytes fs)
        → IsRecipientStamp stamp
        → 2 + length stamp ≤ length rest
        → length (message ++ rest) < usize_mod
        → (n : ℕ) × (buffer : List ℕ) × (append_recipient_stamp
              (message ++ rest)
              (length message)
              stamp
            ≡ ok (n, buffer))
          × (take n buffer
              ≡ message_for rns laws source me payload (
                  0x95 ∷ (elements_of timestamp title content fs ++ (0xc4 ∷ length stamp ∷ stamp))))
  stamped_packed source me timestamp title content fs keys stamp rest s value st room small =
      let payload = payload_bytes timestamp title content fs in
      let elements = elements_of timestamp title content fs in
      let message = message_for rns laws source me payload payload in
      let dest = recipient_destination rns laws (public_key me) in
      let src = lxmf_delivery_hash source in
      let signed =
        hashed_for rns laws source me payload ++ sha256 (hashed_for rns laws source me payload) in
      let front = (dest ++ src) ++ sign source signed in
      let whole = payload_bytes-elements timestamp title content fs in
      let same : message ≡ front ++ (0x94 ∷ elements) = ap (λ p. front ++ p) whole in
      let (x, y, more, split) = two_first rest (omega arith) in
      let front_len : length front ≡ 96 = omega (
        arith,
        length-append dest src,
        length-append (dest ++ src) (sign source signed),
        laws.length-sign source signed,
        laws.length-destination (rns.identity_hash (public_key me)),
        ap length (laws.delivery_hash source) ∙ laws.length-destination _,
      ) in
      let tail = 0xc4 ∷ length stamp ∷ stamp in
      let left = drop (length stamp) more in
      let n = length (front ++ (0x94 ∷ elements)) + (2 + length stamp) in
      let run : List ℕ → List ℕ → Result (ℕ × List ℕ) =
        λ m r. append_recipient_stamp (m ++ r) (length m) stamp in
      (
        n,
        (front ++ (0x95 ∷ elements)) ++ (tail ++ left),
        ap₂ run same split
            ∙ append_recipient_stamp_lem front elements stamp more x y front_len
                (subst IsBytes same (
                  packed_message-IsBytes rns laws source (public_key me) signed timestamp title
                    content fs keys s))
                (subst (IsValue 9) whole (
                  payload_bytes-IsValue timestamp title content fs s.title_slice s.content_slice
                    value))
                st.width (omega (arith, ap length split))
                (subst (λ r. length ((front ++ (0x94 ∷ elements)) ++ r) < usize_mod) split
                  (subst (λ m. length (m ++ rest) < usize_mod) same small)),
        ap (take n) (sym (append_assoc (front ++ (0x95 ∷ elements)) tail left))
            ∙ take-length_append n ((front ++ (0x95 ∷ elements)) ++ tail) left (
                omega (
                  arith,
                  length-append front (0x94 ∷ elements),
                  length-append (front ++ (0x95 ∷ elements)) tail,
                  length-append front (0x95 ∷ elements),
                ))
            ∙ append_assoc front (0x95 ∷ elements) tail,
      )

  -- A recipient stamp behind a message built for a link leaves it as it was for its recipient: the
  -- parser accepts the stamped message and returns the parts that were packed and the message id that
  -- the builder returned. The fields are none, an audio field, or entries that `encoded_field_set` has
  -- accepted, nested one level less than it takes; the output has room for the stamp, the other buffers
  -- for the payload, and the parser's scratch for 64 keys.
  pub parse_link-append_recipient_stamp :
      (source me : LocalIdentity) (timestamp : ℕ) (title content : List ℕ)
      (fs : PayloadFields (List ℕ)) (keys : List ℤ) (stamp out scratch buffer : List ℕ)
      → let n = length (payload_bytes timestamp title content fs) in
        Composed timestamp title content fs
        → length keys ≡ 64
        → IsValue 8 (fields_bytes fs)
        → IsRecipientStamp stamp
        → BuffersFit n out scratch
        → 98 + length stamp + n ≤ length out
        → length out < usize_mod
        → 64 + n ≤ length buffer
        → (b : BuiltLink) × (end : ℕ) × (stamped : List ℕ) × (build_link_inner rns source
              (public_key me)
              timestamp
              title
              content
              fs
              out
              scratch
            ≡ ok b)
          × (append_recipient_stamp b.out b.len stamp ≡ ok (end, stamped))
          × (parse_link rns me (take end stamped) (public_key source) buffer keys
              ≡ ok (record {
                message_id = b.message_id;
                source_hash = lxmf_delivery_hash source;
                timestamp = timestamp;
                title = title;
                content = content;
                fields = fields_bytes fs;
              }))
  parse_link-append_recipient_stamp source me timestamp title content fs keys stamp out scratch
        buffer composed wide value st fits room small reads =
      let s =
        Composed-Sendable timestamp title content fs keys composed wide
          (omega (arith, room, small)) in
      let payload = payload_bytes timestamp title content fs in
      let elements = elements_of timestamp title content fs in
      let (b, built, len, message, dest, id, rest) =
        build_link_inner_lem rns laws source (public_key me) timestamp title content fs out scratch
          s.title_slice s.content_slice s.fields_fit fits in
      let packed = message_for rns laws source me payload payload in
      let more = drop b.len b.out in
      let packed_len : length packed ≡ 96 + length payload =
        length-packed_message (recipient_destination rns laws (public_key me))
          (lxmf_delivery_hash source) _ payload (laws.length-destination _)
          (ap length (laws.delivery_hash source) ∙ laws.length-destination _)
          (laws.length-sign source _) in
      let more_len : length more ≡ length out - b.len = ap length rest ∙ length-drop b.len out in
      let whole : packed ++ more ≡ b.out =
        ap (λ m. m ++ more) (sym message) ∙ take-append-drop b.len b.out in
      let (end, stamped, appended, front) =
        stamped_packed source me timestamp title content fs keys stamp more s value st
          (omega (arith, more_len, len))
          (omega (arith, length-append packed more, more_len, packed_len, len)) in
      let tail = 0xc4 ∷ length stamp ∷ stamp in
      let view : List ℕ → Result LxmfView = λ hash. ok (record {
        message_id = hash;
        source_hash = lxmf_delivery_hash source;
        timestamp = timestamp;
        title = title;
        content = content;
        fields = fields_bytes fs;
      }) in
      (
        b,
        end,
        stamped,
        built,
        ap₂ (λ (m : List ℕ) (n : ℕ). append_recipient_stamp m n stamp) (sym whole)
              (len ∙ sym packed_len)
            ∙ appended,
        ap (λ m. parse_link rns me m (public_key source) buffer keys) front
            ∙ parse_link-elements rns laws source me timestamp title content fs keys buffer 0x95
                tail s (record { high = refl; low = omega arith }) (omega arith)
                (omega arith, (IsRecipientStamp-IsByte stamp st, st.octets))
                (omega (
                  arith,
                  length-append elements tail,
                  ap length (payload_bytes-elements timestamp title content fs),
                ))
                reads
            ∙ ap view (sym id),
      )
