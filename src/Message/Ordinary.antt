-- ===== src/Message/Ordinary.antt =====
-- src/lxmf.rs: the messages of `build_link`, with no fields, and of `build_link_with_audio`, with
-- the audio field, and their round trips.
use rs_lxmflite.Base.{
  ℕ, suc, ◌+◌, ◌≤◌, ◌<◌, ◌≡◌, refl, sym, ap, ◌∙◌, Bool-cases, inl, inr, List, [], ◌∷◌, ◌++◌, arith,
  leb, lt→leb, append-nil, length, take, usize_mod, All-append, some, length-append,
}
use rs_lxmflite.Base.Bytes.{IsByte, IsBytes}
use rs_lxmflite.Base.Int.{ℤ, pos}
use rs_lxmflite.Base.Result.{ok}
use rs_lxmflite.Base.Slices.{ReadsAt, slice-ReadsAt}
use rs_lxmflite.MsgPack.{skip_value}
use rs_lxmflite.MsgPack.Grammar.{
  IsValue, positive_fixint, fixmap, fixarray, uint8, alone, plain, short_row, done, more,
}
use rs_lxmflite.MsgPack.Blob.{IsBlob-IsValue}
use rs_lxmflite.MsgPack.Complete.{skip_value-IsValue}
use rs_lxmflite.Fields.{validate_fields, read_field_id, read_map_header}
use rs_lxmflite.Fields.Entries.{here, entry}
use rs_lxmflite.Fields.Accepts.{IsFieldMap, validate_fields_iff}
use rs_lxmflite.Payload.{empty, audio}
use rs_lxmflite.Payload.Bytes.{bin_bytes, small_bytes, map_header, fields_bytes, payload_bytes}
use rs_lxmflite.Payload.Emits.{IsSlice}
use rs_lxmflite.Rns.{Rns, IdentityLaws}
use rs_lxmflite.Message.{BuiltLink, build_link, build_link_with_audio, parse_link}
use rs_lxmflite.Message.Build.{BuffersFit}
use rs_lxmflite.Message.Encoded.{Sendable, bin_bytes-IsBytes, bin_bytes-IsBlob}
use rs_lxmflite.Message.RoundTrip.{parse_link-build_link_inner}

-- A timestamp, a title and a content that a message can have.
pub record IsText (timestamp : ℕ) (title content : List ℕ) : Type 0 where
  pub timestamp_fits : timestamp < 18446744073709551616
  pub title_slice : IsSlice title
  pub content_slice : IsSlice content
  pub title_octets : IsBytes title
  pub content_octets : IsBytes content

pub empty-Sendable :
    (timestamp : ℕ) (title content : List ℕ) (keys : List ℤ)
    → IsText timestamp title content
    → Sendable timestamp title content empty keys
unfolding fields_bytes map_header validate_fields
empty-Sendable timestamp title content keys t = record {
  timestamp_fits = t.timestamp_fits;
  title_slice = t.title_slice;
  content_slice = t.content_slice;
  title_octets = t.title_octets;
  content_octets = t.content_octets;
  fields_fit = tt;
  fields_octets = omega arith;
  fields_value = short_row (fixmap {n = 0} refl (omega arith) refl) done;
  fields_valid = refl;
}

-- `[mode, data]`, the value of the audio field.
abbrev pub audio_bytes : ℕ → List ℕ → List ℕ
audio_bytes mode bytes = 0x92 ∷ (small_bytes mode ++ bin_bytes bytes)

small_bytes-IsValue : (room mode : ℕ) → mode < 256 → IsValue (suc room) (small_bytes mode)
unfolding small_bytes
small_bytes-IsValue room mode h = elim (Bool-cases (leb mode 0x7f)) [
  | inl s ↦ rw s (alone (positive_fixint (ground arith)))
  | inr s ↦ rw s (plain (uint8 refl))
]

small_bytes-IsBytes : (mode : ℕ) → mode < 256 → IsBytes (small_bytes mode)
unfolding small_bytes
small_bytes-IsBytes mode h = elim (Bool-cases (leb mode 0x7f)) [
  | inl s ↦ rw s (omega arith)
  | inr s ↦ rw s (omega arith)
]

pub audio_bytes-IsValue :
    (room mode : ℕ) (bytes : List ℕ)
    → mode < 256
    → IsSlice bytes
    → IsValue (suc (suc room)) (audio_bytes mode bytes)
audio_bytes-IsValue room mode bytes hm hb = short_row (fixarray {n = 2} refl (omega arith)) (
    more (small_bytes mode) (bin_bytes bytes) (small_bytes-IsValue room mode hm)
      (more (bin_bytes bytes) [] (IsBlob-IsValue room (bin_bytes-IsBlob bytes hb)) done
        (simp append-nil))
      refl)

pub audio_fields_bytes :
    (mode : ℕ) (bytes : List ℕ)
    → fields_bytes (audio mode bytes) ≡ 0x81 ∷ 0x07 ∷ audio_bytes mode bytes
unfolding fields_bytes map_header
audio_fields_bytes mode bytes = refl

audio_octets :
    (mode : ℕ) (bytes : List ℕ)
    → mode < 256
    → IsBytes bytes
    → IsBytes (0x81 ∷ 0x07 ∷ audio_bytes mode bytes)
audio_octets mode bytes hm hb =
    All-append IsByte (0x81 ∷ 0x07 ∷ 0x92 ∷ []) (small_bytes mode ++ bin_bytes bytes) (omega arith)
      (All-append IsByte (small_bytes mode) (bin_bytes bytes) (small_bytes-IsBytes mode hm)
        (bin_bytes-IsBytes bytes hb))

-- The map of the audio field alone.
pub audio-IsFieldMap :
    (mode : ℕ) (bytes : List ℕ)
    → mode < 256
    → IsSlice bytes
    → IsBytes bytes
    → length (0x81 ∷ 0x07 ∷ audio_bytes mode bytes) < usize_mod
    → IsFieldMap (0x81 ∷ 0x07 ∷ audio_bytes mode bytes) 1 1 ((pos 7, audio_bytes mode bytes) ∷ [])
unfolding read_field_id
audio-IsFieldMap mode bytes hm hs hb small =
    let fields = 0x81 ∷ 0x07 ∷ audio_bytes mode bytes in
    let at_value : ReadsAt fields 2 (audio_bytes mode bytes) [] = record {
      reads = simp append-nil;
      inside = omega arith;
    } in
    let skipped : skip_value fields 2 0 ≡ ok (length fields) =
      skip_value-IsValue fields 2 0 (audio_bytes mode bytes) [] small
        (audio_octets mode bytes hm hb) at_value (audio_bytes-IsValue 7 mode bytes hm hs)
      ∙ ap ok (omega arith) in
    let at_key : read_field_id fields 1 ≡ some (pos 7, 2) =
      rw (lt→leb (length fields) 1 (omega arith)) refl in
    record {
      walks =
          entry 2 at_key skipped (sym (slice-ReadsAt (length fields) (omega arith) at_value)) here;
      size = refl;
      few = omega arith;
      distinct = (refl, tt);
    }

pub audio_header :
    (mode : ℕ) (bytes : List ℕ)
    → read_map_header (0x81 ∷ 0x07 ∷ audio_bytes mode bytes) ≡ some (1, 1)
unfolding read_map_header
audio_header mode bytes =
    rw (lt→leb (length (0x81 ∷ 0x07 ∷ audio_bytes mode bytes)) 0 (omega arith)) refl

pub audio-Sendable :
    (timestamp : ℕ) (title content : List ℕ) (mode : ℕ) (bytes : List ℕ) (keys : List ℤ)
    → IsText timestamp title content
    → mode < 256
    → IsSlice bytes
    → IsBytes bytes
    → length keys ≡ 64
    → length (0x81 ∷ 0x07 ∷ audio_bytes mode bytes) < usize_mod
    → Sendable timestamp title content (audio mode bytes) keys
unfolding fields_bytes map_header
audio-Sendable timestamp title content mode bytes keys t hm hs hb hk small = record {
  timestamp_fits = t.timestamp_fits;
  title_slice = t.title_slice;
  content_slice = t.content_slice;
  title_octets = t.title_octets;
  content_octets = t.content_octets;
  fields_fit = hs;
  fields_octets = audio_octets mode bytes hm hb;
  fields_value = short_row (fixmap {n = 1} refl (omega arith) refl) (
      more (0x07 ∷ []) (audio_bytes mode bytes) (alone (positive_fixint (omega arith)))
        (more (audio_bytes mode bytes) [] (audio_bytes-IsValue 6 mode bytes hm hs) done
          (simp append-nil))
        refl);
  fields_valid =
      (validate_fields_iff (0x81 ∷ 0x07 ∷ audio_bytes mode bytes) keys 1 1 hk
          (audio_header mode bytes)).1
        (_, audio-IsFieldMap mode bytes hm hs hb small);
}

length-audio_fields :
    (timestamp : ℕ) (title content : List ℕ) (mode : ℕ) (bytes : List ℕ)
    → length (0x81 ∷ 0x07 ∷ audio_bytes mode bytes)
      ≤ length (payload_bytes timestamp title content (audio mode bytes))
unfolding payload_bytes fields_bytes map_header
length-audio_fields timestamp title content mode bytes = omega (
  arith,
  length-append (bin_bytes title) (bin_bytes content ++ fields_bytes (audio mode bytes)),
  length-append (bin_bytes content) (fields_bytes (audio mode bytes)),
)

module _ (rns : Rns) (laws : IdentityLaws rns) where
  open rns use {LocalIdentity, public_key, lxmf_delivery_hash}

  -- A message that `build_link` packs from one identity for another is parsed by that other, who has
  -- the sender's public key: title, content, timestamp, sender and message id come back, and the
  -- fields are the empty map. The buffers have room for the payload, on both sides.
  pub parse_link-build_link :
      (source me : LocalIdentity) (timestamp : ℕ) (title content : List ℕ) (keys : List ℤ)
      (out scratch buffer : List ℕ)
      → IsText timestamp title content
      → BuffersFit (length (payload_bytes timestamp title content empty)) out scratch
      → 64 + length (payload_bytes timestamp title content empty) ≤ length buffer
      → (b : BuiltLink) × (build_link rns source (public_key me) timestamp title content out scratch
          ≡ ok b)
        × (parse_link rns me (take b.len b.out) (public_key source) buffer keys
            ≡ ok (record {
              message_id = b.message_id;
              source_hash = lxmf_delivery_hash source;
              timestamp = timestamp;
              title = title;
              content = content;
              fields = 0x80 ∷ [];
            }))
  unfolding build_link fields_bytes map_header
  parse_link-build_link source me timestamp title content keys out scratch buffer t room reads =
      parse_link-build_link_inner rns laws source me timestamp title content empty keys out scratch
        buffer (empty-Sendable timestamp title content keys t) room reads

  -- The same for `build_link_with_audio`: the fields that come back are the map of the one entry
  -- with the key 7 and the value `[mode, data]`.
  pub parse_link-build_link_with_audio :
      (source me : LocalIdentity) (timestamp : ℕ) (title content : List ℕ) (mode : ℕ)
      (bytes : List ℕ) (keys : List ℤ) (out scratch buffer : List ℕ)
      → IsText timestamp title content
      → mode < 256
      → IsSlice bytes
      → IsBytes bytes
      → length keys ≡ 64
      → BuffersFit (length (payload_bytes timestamp title content (audio mode bytes))) out scratch
      → 64 + length (payload_bytes timestamp title content (audio mode bytes)) ≤ length buffer
      → (b : BuiltLink) × (build_link_with_audio rns source
            (public_key me)
            timestamp
            title
            content
            mode
            bytes
            out
            scratch
          ≡ ok b)
        × (parse_link rns me (take b.len b.out) (public_key source) buffer keys
            ≡ ok (record {
              message_id = b.message_id;
              source_hash = lxmf_delivery_hash source;
              timestamp = timestamp;
              title = title;
              content = content;
              fields = 0x81 ∷ 0x07 ∷ audio_bytes mode bytes;
            }))
  unfolding build_link_with_audio fields_bytes map_header
  parse_link-build_link_with_audio source me timestamp title content mode bytes keys out scratch
        buffer t hm hs hb hk room reads =
      parse_link-build_link_inner rns laws source me timestamp title content (audio mode bytes) keys
        out scratch buffer
        (audio-Sendable timestamp title content mode bytes keys t hm hs hb hk
          (omega (arith, room, length-audio_fields timestamp title content mode bytes)))
        room reads
