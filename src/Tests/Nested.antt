-- ===== src/Tests/Nested.antt =====
-- Caller-encoded fields, and a field value of the greatest depth that the encoder accepts: it is built and parsed on the Link
-- path, and the walk over the whole payload refuses it.
use rs_lxmflite.Base.{ℕ, ◌≡◌, ◌⊎◌, All, refl, arith, List, [], ◌∷◌, ◌++◌, replicate}
use rs_lxmflite.Base.Result.{ok, err, LxmfError, malformed_payload}
use rs_lxmflite.MsgPack.{skip_value, skip_level, skip_format, body, format}
use rs_lxmflite.Payload.FieldSet.{IsTyped, IsFieldSet, Marks, occurs, encoded_field_set_decides}
use rs_lxmflite.Payload.{EncodedField, encoded_field_set, field_set_loop, is_present}
use rs_lxmflite.Fields.{
  new_scratch, read_map_header, read_field_id, validate_fields, validate_loop, at_end,
}
use rs_lxmflite.Propagation.{stamp_guards}

-- Seven arrays of one element, and nil.
abbrev seven_deep : List ℕ
seven_deep = replicate 7 0x91 ++ 0xc0 ∷ []

abbrev payload_of : List ℕ → List ℕ
payload_of value = 0x94 ∷ 0xcb ∷ replicate 8 0 ++ 0xc4 ∷ 0 ∷ 0xc4 ∷ 0 ∷ 0x81 ∷ 0x05 ∷ value

seven_deep_accepted : encoded_field_set ((5, seven_deep) ∷ []) ≡ ok (32 ∷ replicate 31 0)
unfolding encoded_field_set field_set_loop is_present skip_value skip_level skip_format format body
seven_deep_accepted = refl

seven_deep_refused :
    stamp_guards (replicate 96 0 ++ payload_of seven_deep) 120 (replicate 16 0)
    ≡ err malformed_payload
unfolding stamp_guards skip_value skip_level skip_format format body
seven_deep_refused = refl

-- One level less passes.
six_deep_stamped :
    stamp_guards (replicate 96 0 ++ payload_of (replicate 6 0x91 ++ 0xc0 ∷ [])) 119 (replicate 16 0)
    ≡ ok tt
unfolding stamp_guards skip_value skip_level skip_format format body
six_deep_stamped = refl

-- The reader of the Link path takes the map of fields.
seven_deep_read : (validate_fields (0x81 ∷ 0x05 ∷ seven_deep) new_scratch).0 ≡ ok tt
unfolding validate_fields validate_loop at_end read_map_header read_field_id skip_value skip_level
    skip_format format body
seven_deep_read = refl

abbrev two_encoded : List EncodedField
two_encoded = (5, seven_deep) ∷ (200, 0xc0 ∷ []) ∷ []

two_encoded-IsTyped : All IsTyped two_encoded
two_encoded-IsTyped = (
  record { id_fits = omega arith; bytes = omega arith; short = omega arith },
  (record { id_fits = omega arith; bytes = omega arith; short = omega arith }, tt),
)

encoded_field_set_decides_example :
    ((present : List ℕ) × (encoded_field_set two_encoded ≡ ok present)
      × IsFieldSet two_encoded
      × Marks present (λ id. occurs id two_encoded))
    ⊎ ((e : LxmfError) × (encoded_field_set two_encoded ≡ err e) × (¬ IsFieldSet two_encoded))
encoded_field_set_decides_example = encoded_field_set_decides two_encoded two_encoded-IsTyped
