-- ===== src/Message/Composed.antt =====
-- src/lxmf.rs: the parts of a message as the public builders take them.
use rs_lxmflite.Base.{
  ℕ, ◌≤◌, ◌<◌, ◌≡◌, ap, List, [], ◌∷◌, ◌++◌, arith, length, All, usize_mod, length-append, inl,
}
use rs_lxmflite.Base.Bytes.{IsBytes}
use rs_lxmflite.Base.Int.{ℤ}
use rs_lxmflite.Base.Result.{ok}
use rs_lxmflite.Fields.Format.{validate_fields-IsMap}
use rs_lxmflite.Payload.{PayloadFields, empty, audio, encoded, EncodedField, encoded_field_set}
use rs_lxmflite.Payload.Bytes.{bin_bytes, fields_bytes, payload_bytes}
use rs_lxmflite.Payload.Emits.{IsSlice}
use rs_lxmflite.Payload.FieldSet.{IsTyped, encoded_field_set_sound, encoded_field_set-Marks}
use rs_lxmflite.Payload.Written.{encoded-IsMap, encoded-IsValue, encoded-IsBytes}
use rs_lxmflite.Message.Encoded.{Sendable}
use rs_lxmflite.Message.Ordinary.{IsText, empty-Sendable, audio-Sendable, audio_fields_bytes}

-- Fields as the builders pass them on: none, the audio field with a `u8` and a slice, or entries that
-- `encoded_field_set` has accepted, with its set.
abbrev pub IsBuilt : PayloadFields (List ℕ) → Type 0
IsBuilt empty = Unit
IsBuilt (audio mode bytes) = (mode < 256) × IsSlice bytes × IsBytes bytes
IsBuilt (encoded fields present) = All IsTyped fields × (encoded_field_set fields ≡ ok present)

-- What a builder packs. Everything but `fields` is what the types of the source give.
pub record Composed (timestamp : ℕ) (title content : List ℕ) (fs : PayloadFields (List ℕ))
    : Type 0 where
  pub text : IsText timestamp title content
  pub fields : IsBuilt fs

typed-IsSlice : (fields : List EncodedField) → All IsTyped fields → All (λ e. IsSlice e.1) fields
typed-IsSlice [] t = tt
typed-IsSlice (f ∷ fields) (t, ts) = (t.short, typed-IsSlice fields ts)

pub encoded-Sendable :
    (timestamp : ℕ) (title content : List ℕ) (fields : List EncodedField) (present : List ℕ)
    (keys : List ℤ)
    → IsText timestamp title content
    → All IsTyped fields
    → encoded_field_set fields ≡ ok present
    → length keys ≡ 64
    → length (fields_bytes (encoded fields present)) < usize_mod
    → Sendable timestamp title content (encoded fields present) keys
encoded-Sendable timestamp title content fields present keys t typed accepted wide small =
    let set = encoded_field_set_sound fields present typed accepted in
    let marks = encoded_field_set-Marks fields present typed accepted in
    let octets = encoded-IsBytes fields typed set present marks in
    record {
      timestamp_fits = t.timestamp_fits;
      title_slice = t.title_slice;
      content_slice = t.content_slice;
      title_octets = t.title_octets;
      content_octets = t.content_octets;
      fields_fit = (set.0, typed-IsSlice fields typed);
      fields_octets = octets;
      fields_value = encoded-IsValue fields typed set present marks;
      fields_valid =
          (validate_fields-IsMap (fields_bytes (encoded fields present)) small octets keys wide).1
            (inl (_, encoded-IsMap fields typed set present marks));
    }

pub length-fields :
    (timestamp : ℕ) (title content : List ℕ) (fs : PayloadFields (List ℕ))
    → length (fields_bytes fs) ≤ length (payload_bytes timestamp title content fs)
unfolding payload_bytes
length-fields timestamp title content fs = omega (
  arith,
  length-append (bin_bytes title) (bin_bytes content ++ fields_bytes fs),
  length-append (bin_bytes content) (fields_bytes fs),
)

pub Composed-Sendable :
    (timestamp : ℕ) (title content : List ℕ) (fs : PayloadFields (List ℕ)) (keys : List ℤ)
    → Composed timestamp title content fs
    → length keys ≡ 64
    → length (payload_bytes timestamp title content fs) < usize_mod
    → Sendable timestamp title content fs keys
Composed-Sendable timestamp title content empty keys c wide small =
    empty-Sendable timestamp title content keys c.text
Composed-Sendable timestamp title content (audio mode bytes) keys c wide small =
    audio-Sendable timestamp title content mode bytes keys c.text c.fields.0 c.fields.1 c.fields.2
      wide
      (omega (
        arith,
        length-fields timestamp title content (audio mode bytes),
        ap length (audio_fields_bytes mode bytes),
      ))
Composed-Sendable timestamp title content (encoded fields present) keys c wide small =
    encoded-Sendable timestamp title content fields present keys c.text c.fields.0 c.fields.1 wide
      (omega (arith, length-fields timestamp title content (encoded fields present)))
