-- ===== src/Tests/FieldMap.antt =====
-- Runs of the validators and of the lookup on a map of two fields.
use rs_lxmflite.Base.{◌≢◌, ◌⊎◌, ℕ, ◌≡◌, ◌↔◌, refl, some, List, [], ◌∷◌, arith}
use rs_lxmflite.Base.Int.{pos}
use rs_lxmflite.Base.Result.{ok, err, duplicate_field}
use rs_lxmflite.MsgPack.{skip_value, skip_level, skip_format, body, format}
use rs_lxmflite.Fields.{
  new_scratch, read_map_header, read_field_id, validate_fields, validate_loop, at_end,
  validate_fields_without_scratch, field_value_id,
}
use rs_lxmflite.Fields.Entries.{Entry, validate_fields-agrees}
use rs_lxmflite.MsgPack.Grammar.{plain, alone, fixstr, nil_marker}
use rs_lxmflite.Fields.Keys.{positive}
use rs_lxmflite.Fields.Maps.{short_map, no_entries, an_entry}
use rs_lxmflite.Fields.Format.{
  IsMap, HasHeader, validate_fields-IsMap, validate_fields_without_scratch-IsMap,
  field_value_id-IsMap,
}

abbrev two_fields : List ℕ
two_fields = 0x82 ∷ 0x05 ∷ 0xa1 ∷ 0x41 ∷ 0x07 ∷ 0xc0 ∷ []

abbrev two_entries : List Entry
two_entries = (pos 5, 0xa1 ∷ 0x41 ∷ []) ∷ (pos 7, 0xc0 ∷ []) ∷ []

two_fields_header : read_map_header two_fields ≡ some (1, 2)
unfolding read_map_header
two_fields_header = refl

same_key_twice :
    (validate_fields (0x82 ∷ 0x05 ∷ 0xc0 ∷ 0x05 ∷ 0xc0 ∷ []) new_scratch).0 ≡ err duplicate_field
unfolding validate_fields validate_loop at_end read_map_header read_field_id skip_value skip_level
    skip_format format body
same_key_twice = refl

validate_fields-agrees_example :
    (validate_fields two_fields new_scratch).0 ≡ validate_fields_without_scratch two_fields
validate_fields-agrees_example =
    validate_fields-agrees two_fields new_scratch 1 2 refl two_fields_header (omega arith)

two_fields-IsMap : IsMap two_fields two_entries
two_fields-IsMap = record {
  hdr = 0x82 ∷ [];
  rest = 0x05 ∷ 0xa1 ∷ 0x41 ∷ 0x07 ∷ 0xc0 ∷ [];
  split = refl;
  header = short_map (omega arith) refl;
  entries =
      an_entry (0x05 ∷ []) (0xa1 ∷ 0x41 ∷ []) (0x07 ∷ 0xc0 ∷ []) (positive (omega arith))
        (plain (fixstr {n = 1} refl (omega arith)))
        (an_entry (0x07 ∷ []) (0xc0 ∷ []) [] (positive (omega arith)) (alone (nil_marker refl))
          no_entries refl)
        refl;
  few = omega arith;
  distinct = (tt, ((λ e. other_key e, tt), tt));
}
  where
    other_key : pos 5 ≢ pos 7
    other_key e = cc

validate_fields-IsMap_example :
    ((validate_fields two_fields new_scratch).0 ≡ ok tt)
    ↔ (((es : List Entry) × IsMap two_fields es) ⊎ (¬ HasHeader two_fields))
validate_fields-IsMap_example =
    validate_fields-IsMap two_fields (omega arith) (omega arith) new_scratch refl

validate_fields_without_scratch-IsMap_example :
    (validate_fields_without_scratch two_fields ≡ ok tt) ↔ ((es : List Entry) × IsMap two_fields es)
validate_fields_without_scratch-IsMap_example =
    validate_fields_without_scratch-IsMap two_fields (omega arith) (omega arith)

field_value_id-IsMap_example : field_value_id two_fields (pos 7) ≡ some (0xc0 ∷ [])
field_value_id-IsMap_example =
    field_value_id-IsMap two_fields (omega arith) (omega arith) two_entries (pos 7) two_fields-IsMap
