-- ===== src/Payload/Bytes.antt =====
-- The bytes of a payload, with no writer and no failure: what the encoder is to write.
use rs_lxmflite.Base.{
  ℕ, zero, suc, ◌+◌, ◌%◌, bit_or, List, [], ◌∷◌, ◌++◌, leb, ltb, ◌==◌, if◌then◌else◌, length,
}
use rs_lxmflite.Base.Bytes.{be16, be32, be64}
use rs_lxmflite.Payload.{
  PayloadFields, empty, audio, encoded, EncodedField, is_present, field_audio,
}

unfoldable pub bin_bytes : List ℕ → List ℕ
bin_bytes bs =
    if leb (length bs) 0xff
    then 0xc4 ∷ (length bs % 256) ∷ bs
    else if leb (length bs) 0xffff
    then 0xc5 ∷ (be16 (length bs) ++ bs)
    else 0xc6 ∷ (be32 (length bs) ++ bs)

unfoldable pub map_header : ℕ → List ℕ
map_header count =
    if ltb count 16 then bit_or 0x80 (count % 256) ∷ [] else 0xde ∷ 0 ∷ (count % 256) ∷ []

unfoldable pub small_bytes : ℕ → List ℕ
small_bytes n = if leb n 0x7f then n ∷ [] else 0xcc ∷ n ∷ []

unfoldable pub values_of : ℕ → List EncodedField → List ℕ
values_of id [] = []
values_of id ((entry_id, value) ∷ entries) =
    (if entry_id == id then value else []) ++ values_of id entries

unfoldable pub ids_bytes : List EncodedField → List ℕ → ℕ → ℕ → List ℕ
ids_bytes entries present zero id = []
ids_bytes entries present (suc n) id =
    (if is_present present id then small_bytes id ++ values_of id entries else [])
    ++ ids_bytes entries present n (id + 1)

unfoldable pub fields_bytes : PayloadFields (List ℕ) → List ℕ
fields_bytes empty = map_header 0
fields_bytes (audio mode bytes) =
    map_header 1 ++ ((field_audio ∷ 0x92 ∷ []) ++ (small_bytes mode ++ bin_bytes bytes))
fields_bytes (encoded entries present) =
    map_header (length entries) ++ ids_bytes entries present 256 0

-- `[timestamp, title, content, fields]`
unfoldable pub payload_bytes : ℕ → List ℕ → List ℕ → PayloadFields (List ℕ) → List ℕ
payload_bytes timestamp title content fields =
    (0x94 ∷ 0xcb ∷ [])
    ++ (be64 timestamp ++ (bin_bytes title ++ (bin_bytes content ++ fields_bytes fields)))
