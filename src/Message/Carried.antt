-- ===== src/Message/Carried.antt =====
-- src/lxmf.rs: messages of `build_link_with_fields`, and the values that a lookup finds in them.
use rs_lxmflite.Base.{
  ℕ, zero, suc, ◌+◌, ◌≤◌, ◌<◌, ◌≡◌, refl, sym, ap, ◌∙◌, Bool, false, ◌||◌, Bool-cases, inl, inr,
  Option, none, some, List, [], ◌∷◌, append-nil, arith, ◌==◌, if◌then◌else◌, length, take, All,
  ==_iff, ==_refl, ne→==, dec_lt,
}
use rs_lxmflite.Base.Int.{ℤ, pos}
use rs_lxmflite.Base.Result.{ok, ◌>>=◌}
use rs_lxmflite.Fields.{field_value}
use rs_lxmflite.Fields.Accepts.{lookup}
use rs_lxmflite.Fields.Format.{field_value_id-IsMap}
use rs_lxmflite.Payload.{EncodedField, encoded, encoded_field_set}
use rs_lxmflite.Payload.Bytes.{fields_bytes, payload_bytes, values_of}
use rs_lxmflite.Payload.FieldSet.{
  IsTyped, occurs, Distinct, IsFieldSet, encoded_field_set_sound, encoded_field_set-Marks,
}
use rs_lxmflite.Payload.Sorted.{Distinct-fresh, values_of-absent}
use rs_lxmflite.Payload.Written.{sorted_entries, encoded-IsMap, encoded-IsBytes}
use rs_lxmflite.Rns.{Rns, IdentityLaws}
use rs_lxmflite.Message.{BuiltLink, build_link_inner, build_link_with_fields, parse_link}
use rs_lxmflite.Message.Build.{BuffersFit}
use rs_lxmflite.Message.Composed.{Composed-Sendable, length-fields}
use rs_lxmflite.Message.Ordinary.{IsText}
use rs_lxmflite.Message.RoundTrip.{parse_link-build_link_inner}

-- The value that the caller gave for an id.
abbrev pub given : ℕ → List EncodedField → Option (List ℕ)
given id [] = none
given id ((k, value) ∷ fields) = if k == id then some value else given id fields

lookup-below :
    (fields : List EncodedField) (n i j : ℕ)
    → j < i
    → lookup (pos j) (sorted_entries fields n i) ≡ none
lookup-below fields zero i j h = refl
lookup-below fields (suc n) i j h = elim (Bool-cases (occurs i fields)) [
  | inr off ↦ rw off (lookup-below fields n (i + 1) j (omega arith))
  | inl on ↦ rw (on, ne→== i j (λ e. omega arith)) (lookup-below fields n (i + 1) j (omega arith))
]

lookup-above :
    (fields : List EncodedField) (n i j : ℕ)
    → i + n ≤ j
    → lookup (pos j) (sorted_entries fields n i) ≡ none
lookup-above fields zero i j h = refl
lookup-above fields (suc n) i j h = elim (Bool-cases (occurs i fields)) [
  | inr off ↦ rw off (lookup-above fields n (i + 1) j (omega arith))
  | inl on ↦ rw (on, ne→== i j (λ e. omega arith)) (lookup-above fields n (i + 1) j (omega arith))
]

lookup-within :
    (fields : List EncodedField) (n i j : ℕ)
    → i ≤ j
    → j < i + n
    → lookup (pos j) (sorted_entries fields n i)
      ≡ (if occurs j fields then some (values_of j fields) else none)
lookup-within fields zero i j low high = absurd (omega arith)
lookup-within fields (suc n) i j low high = elim (Bool-cases (i == j)) [
  | inl same ↦
      let at : j ≡ i = sym ((==_iff i j).0 same) in
      elim (Bool-cases (occurs i fields)) [
        | inl on ↦ rw (at, on, ==_refl i) refl
        | inr off ↦ rw (at, off) (lookup-below fields n (i + 1) i (omega arith))
      ]
  | inr other ↦
      let past : i + 1 ≤ j = ground arith in
      elim (Bool-cases (occurs i fields)) [
        | inl on ↦ rw (on, other) (lookup-within fields n (i + 1) j past (omega arith))
        | inr off ↦ rw off (lookup-within fields n (i + 1) j past (omega arith))
      ]
]

given-values :
    (j : ℕ) (fields : List EncodedField) (seen : ℕ → Bool)
    → Distinct seen fields
    → given j fields ≡ (if occurs j fields then some (values_of j fields) else none)
unfolding values_of
given-values j [] seen d = refl
given-values j ((k, value) ∷ fields) seen (fresh, d) = elim (Bool-cases (k == j)) [
  | inr other ↦ rw other (given-values j fields (λ i. k == i || seen i) d)
  | inl same ↦
      let gone = Distinct-fresh fields (λ i. k == i || seen i) j d (ap (λ b. b || seen j) same) in
      rw (same, values_of-absent j fields gone) (ap some (sym (append-nil value)))
]

occurs-small :
    (j : ℕ) (fields : List EncodedField) → All IsTyped fields → 256 ≤ j → occurs j fields ≡ false
occurs-small j [] t h = refl
occurs-small j ((k, value) ∷ fields) (t, ts) h =
    rw (ne→== k j (λ e. omega (arith, t.id_fits)), occurs-small j fields ts h) refl

lookup-given :
    (fields : List EncodedField) (j : ℕ)
    → All IsTyped fields
    → IsFieldSet fields
    → lookup (pos j) (sorted_entries fields 256 0) ≡ given j fields
lookup-given fields j t set = elim (dec_lt j 256) [
  | yes low ↦
      lookup-within fields 256 0 j (omega arith) (omega arith)
      ∙ sym (given-values j fields (λ i. false) set.1)
  | no high ↦
      lookup-above fields 256 0 j (omega arith)
      ∙ sym (
          given-values j fields (λ i. false) set.1
          ∙ rw (occurs-small j fields t (omega arith)) refl)
]

module _ (rns : Rns) (laws : IdentityLaws rns) where
  open rns use {LocalIdentity, public_key, lxmf_delivery_hash}

  -- A message that `build_link_with_fields` packs, from entries that `encoded_field_set` accepts, is
  -- parsed by its recipient, who has the sender's public key: title, content, timestamp, sender and
  -- message id come back, and in the fields that come back a lookup of any id finds the value that the
  -- caller gave for it, in whatever order, and nothing for an id that the caller did not give. The
  -- buffers have room for the payload, on both sides, and the parser's scratch is for 64 keys.
  pub parse_link-build_link_with_fields :
      (source me : LocalIdentity) (timestamp : ℕ) (title content : List ℕ)
      (fields : List EncodedField) (present : List ℕ) (keys : List ℤ) (out scratch buffer : List ℕ)
      → let fs = encoded fields present in
        IsText timestamp title content
        → All IsTyped fields
        → encoded_field_set fields ≡ ok present
        → length keys ≡ 64
        → BuffersFit (length (payload_bytes timestamp title content fs)) out scratch
        → 64 + length (payload_bytes timestamp title content fs) ≤ length buffer
        → (b : BuiltLink) × (build_link_with_fields rns source
              (public_key me)
              timestamp
              title
              content
              fields
              out
              scratch
            ≡ ok b)
          × (parse_link rns me (take b.len b.out) (public_key source) buffer keys
              ≡ ok (record {
                message_id = b.message_id;
                source_hash = lxmf_delivery_hash source;
                timestamp = timestamp;
                title = title;
                content = content;
                fields = fields_bytes fs;
              }))
          × ((id : ℕ) → field_value (fields_bytes fs) id ≡ given id fields)
  unfolding build_link_with_fields field_value
  parse_link-build_link_with_fields source me timestamp title content fields present keys out
        scratch buffer text typed accepted wide room reads =
      let fs = encoded fields present in
      let set = encoded_field_set_sound fields present typed accepted in
      let marks = encoded_field_set-Marks fields present typed accepted in
      let small = length-fields timestamp title content fs in
      let (b, built, parsed) =
        parse_link-build_link_inner rns laws source me timestamp title content fs keys out scratch
          buffer
          (Composed-Sendable timestamp title content fs keys
            (record { text = text; fields = (typed, accepted) }) wide (omega (arith, room)))
          room reads in
      (
        b,
        ap
              (λ r. r >>= λ p.
                build_link_inner rns source (public_key me) timestamp title content
                  (encoded fields p) out scratch)
              accepted
            ∙ built,
        parsed,
        λ id.
            field_value_id-IsMap (fields_bytes fs) (omega (arith, small, room))
              (encoded-IsBytes fields typed set present marks) (sorted_entries fields 256 0)
              (pos id) (encoded-IsMap fields typed set present marks)
            ∙ lookup-given fields id typed set,
      )
