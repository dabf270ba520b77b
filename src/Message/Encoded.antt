-- ===== src/Message/Encoded.antt =====
-- src/lxmf.rs: a payload that `write_payload` writes, as the decoder reads it.
use rs_lxmflite.Base.{
  ℕ, ◌+◌, ◌%◌, ◌/◌, ◌<◌, ◌≡◌, refl, ap, ◌∙◌, List, [], ◌∷◌, ◌++◌, append_assoc, arith, leb, length,
  slice, length-append, usize_mod, All-append, Bool-cases, inl, inr,
}
use rs_lxmflite.Base.Bytes.{IsByte, IsBytes, be16, be32, be64, be16-IsBytes, be_value-be64}
use rs_lxmflite.Base.Slices.{ReadsAt, ReadsAt-skip, slice-ReadsAt}
use rs_lxmflite.Base.Int.{ℤ}
use rs_lxmflite.Base.Result.{ok}
use rs_lxmflite.MsgPack.Grammar.{IsValue, bin8, bin16, bin32}
use rs_lxmflite.MsgPack.Blob.{IsBlob, long}
use rs_lxmflite.Fields.{validate_fields}
use rs_lxmflite.Payload.{PayloadFields}
use rs_lxmflite.Payload.Bytes.{bin_bytes, fields_bytes, payload_bytes}
use rs_lxmflite.Payload.Emits.{IsSlice}
use rs_lxmflite.Payload.Size.{FieldsFit}
use rs_lxmflite.Message.{decode_payload}
use rs_lxmflite.Message.Decode.{IsPayloadMarker, decode_payload-laid_out}

-- A bin value is written so that it reads back.
pub bin_bytes-IsBlob : (bs : List ℕ) → IsSlice bs → IsBlob (bin_bytes bs) bs
unfolding bin_bytes
bin_bytes-IsBlob bs h = elim (Bool-cases (leb (length bs) 0xff)) [
  | inl s ↦ rw s (long (length bs % 256 ∷ []) (bin8 refl) (ground arith) refl)
  | inr s ↦ elim (Bool-cases (leb (length bs) 0xffff)) [
    | inl t ↦ rw (s, t) (long (be16 (length bs)) (bin16 refl) (ground arith) refl)
    | inr t ↦ rw (s, t) (long (be32 (length bs)) (bin32 refl) (omega arith) refl)
  ]
]

be32-IsBytes : (n : ℕ) → IsBytes (be32 n)
be32-IsBytes n = omega arith

pub bin_bytes-IsBytes : (bs : List ℕ) → IsBytes bs → IsBytes (bin_bytes bs)
unfolding bin_bytes
bin_bytes-IsBytes bs h = elim (Bool-cases (leb (length bs) 0xff)) [
  | inl s ↦ rw s (omega arith, (ground arith, h))
  | inr s ↦ elim (Bool-cases (leb (length bs) 0xffff)) [
    | inl t ↦
        rw (s, t)
          (omega arith, All-append IsByte (be16 (length bs)) bs (be16-IsBytes (length bs)) h)
    | inr t ↦
        rw (s, t)
          (omega arith, All-append IsByte (be32 (length bs)) bs (be32-IsBytes (length bs)) h)
  ]
]

-- What a sender's message is about: the parts of a payload whose fields are a valid field map.
pub record Sendable (timestamp : ℕ) (title content : List ℕ) (fs : PayloadFields (List ℕ))
    (keys : List ℤ) : Type 0 where
  pub timestamp_fits : timestamp < 18446744073709551616
  pub title_slice : IsSlice title
  pub content_slice : IsSlice content
  pub title_octets : IsBytes title
  pub content_octets : IsBytes content
  pub fields_fit : FieldsFit fs
  pub fields_octets : IsBytes (fields_bytes fs)
  pub fields_value : IsValue 9 (fields_bytes fs)
  pub fields_valid : (validate_fields (fields_bytes fs) keys).0 ≡ ok tt

pub payload_bytes-IsBytes :
    (timestamp : ℕ) (title content : List ℕ) (fs : PayloadFields (List ℕ))
    → IsBytes title
    → IsBytes content
    → IsBytes (fields_bytes fs)
    → IsBytes (payload_bytes timestamp title content fs)
unfolding payload_bytes
payload_bytes-IsBytes timestamp title content fs ht hc hf =
    let bin_content =
      All-append IsByte (bin_bytes content) (fields_bytes fs) (bin_bytes-IsBytes content hc) hf in
    let bins = bin_bytes title ++ (bin_bytes content ++ fields_bytes fs) in
    let bins_bytes =
      All-append IsByte (bin_bytes title) _ (bin_bytes-IsBytes title ht) bin_content in
    All-append IsByte (0x94 ∷ 0xcb ∷ []) (be64 timestamp ++ bins) (omega arith) (
      All-append IsByte (be32 (timestamp / 4294967296)) (be32 timestamp ++ bins) (be32-IsBytes _)
        (All-append IsByte (be32 timestamp) bins (be32-IsBytes timestamp) bins_bytes))

-- The elements of a payload, behind its marker.
abbrev pub elements_of : ℕ → List ℕ → List ℕ → PayloadFields (List ℕ) → List ℕ
elements_of timestamp title content fs =
    0xcb ∷ (be64 timestamp ++ (bin_bytes title ++ (bin_bytes content ++ fields_bytes fs)))

pub payload_bytes-elements :
    (timestamp : ℕ) (title content : List ℕ) (fs : PayloadFields (List ℕ))
    → payload_bytes timestamp title content fs ≡ 0x94 ∷ elements_of timestamp title content fs
unfolding payload_bytes
payload_bytes-elements timestamp title content fs = refl

elements-IsBytes :
    (timestamp : ℕ) (title content : List ℕ) (fs : PayloadFields (List ℕ)) (keys : List ℤ)
    → Sendable timestamp title content fs keys
    → IsBytes (elements_of timestamp title content fs)
unfolding payload_bytes
elements-IsBytes timestamp title content fs keys s =
    (payload_bytes-IsBytes timestamp title content fs s.title_octets s.content_octets
      s.fields_octets).1

-- The decoder reads the elements of an encoded payload, behind any marker of four elements or
-- more, and whatever follows them.
pub decode_payload-elements :
    (timestamp : ℕ) (title content : List ℕ) (fs : PayloadFields (List ℕ)) (keys : List ℤ) (m : ℕ)
    (rest : List ℕ)
    → let payload = m ∷ (elements_of timestamp title content fs ++ rest) in
      Sendable timestamp title content fs keys
      → IsPayloadMarker m
      → IsByte m
      → IsBytes rest
      → length payload < usize_mod
      → decode_payload payload keys
        ≡ ok (record {
          timestamp = timestamp;
          title = title;
          content = content;
          after_content = 10 + length (bin_bytes title) + length (bin_bytes content);
          after_fields =
              10 + length (bin_bytes title) + length (bin_bytes content) + length (fields_bytes fs);
        })
decode_payload-elements timestamp title content fs keys m rest s marker byte bytes small =
    let elements = elements_of timestamp title content fs in
    decode_payload-laid_out m (be64 timestamp) (bin_bytes title) (bin_bytes content)
      (fields_bytes fs) rest title content keys marker refl (bin_bytes-IsBlob title s.title_slice)
      (bin_bytes-IsBlob content s.content_slice) s.fields_value s.fields_valid
      (m ∷ (elements ++ rest)) (simp append_assoc) small
      (
        byte,
        All-append IsByte elements rest (elements-IsBytes timestamp title content fs keys s) bytes,
      )
    ∙ ap
        (λ t. ok (record {
          timestamp = t;
          title = title;
          content = content;
          after_content = 10 + length (bin_bytes title) + length (bin_bytes content);
          after_fields =
              10 + length (bin_bytes title) + length (bin_bytes content) + length (fields_bytes fs);
        }))
        (be_value-be64 timestamp s.timestamp_fits)

-- The fields stand last among the elements.
pub elements_fields :
    (timestamp : ℕ) (title content : List ℕ) (fs : PayloadFields (List ℕ)) (m : ℕ) (rest : List ℕ)
    → let content_end = 10 + length (bin_bytes title) + length (bin_bytes content) in
      slice
        (m ∷ (elements_of timestamp title content fs ++ rest))
        content_end
        (content_end + length (fields_bytes fs))
      ≡ fields_bytes fs
elements_fields timestamp title content fs m rest =
    let content_end = 10 + length (bin_bytes title) + length (bin_bytes content) in
    let front = m ∷ 0xcb ∷ (be64 timestamp ++ (bin_bytes title ++ bin_bytes content)) in
    let payload = m ∷ (elements_of timestamp title content fs ++ rest) in
    let whole : ReadsAt payload 0 (front ++ fields_bytes fs) rest = record {
      reads = simp append_assoc;
      inside = omega arith;
    } in
    slice-ReadsAt (content_end + length (fields_bytes fs)) refl (
      ReadsAt-skip front (fields_bytes fs) rest content_end
        (omega (arith, length-append (bin_bytes title) (bin_bytes content))) whole)

pub length-payload_bytes :
    (timestamp : ℕ) (title content : List ℕ) (fs : PayloadFields (List ℕ))
    → length (payload_bytes timestamp title content fs)
      ≡ 10 + length (bin_bytes title) + length (bin_bytes content) + length (fields_bytes fs)
unfolding payload_bytes
length-payload_bytes timestamp title content fs = omega (
  arith,
  length-append (bin_bytes title) (bin_bytes content ++ fields_bytes fs),
  length-append (bin_bytes content) (fields_bytes fs),
)
