-- ===== src/Readers/Audio.antt =====
-- src/lxmf.rs: `audio_field` reads back what the encoder writes for an audio field.
use rs_lxmflite.Base.{
  ℕ, suc, ◌+◌, ◌<◌, ◌≡◌, inl, inr, refl, sym, ap, ap₂, ◌∙◌, true, false, ◌&&◌, Bool-cases, Option,
  none, some, List, [], ◌∷◌, ◌++◌, append-nil, arith, leb, le→leb, lt→leb, get_or-drop, drop-drop,
  drop-length_append, ==_refl, length, get_or, drop, length-append, usize_mod,
}
use rs_lxmflite.Base.Bytes.{IsBytes}
use rs_lxmflite.Base.Slices.{ReadsAt}
use rs_lxmflite.Base.Int.{pos}
use rs_lxmflite.Base.Result.{Result, ok, ◌>>=◌}
use rs_lxmflite.MsgPack.{read_bin}
use rs_lxmflite.MsgPack.Blob.{read_bin-IsBlob}
use rs_lxmflite.Fields.{validate_fields_without_scratch, field_value_id, field_value}
use rs_lxmflite.Fields.Accepts.{validate_fields_without_scratch_iff, field_value_id-IsFieldMap}
use rs_lxmflite.Payload.{audio}
use rs_lxmflite.Payload.Bytes.{bin_bytes, small_bytes, fields_bytes}
use rs_lxmflite.Payload.Emits.{IsSlice}
use rs_lxmflite.Message.Build.{length-bin_bytes}
use rs_lxmflite.Message.Encoded.{bin_bytes-IsBlob}
use rs_lxmflite.Message.Ordinary.{audio_bytes, audio-IsFieldMap, audio_header, audio_fields_bytes}
use rs_lxmflite.Readers.{
  AudioField, pair_header, narrow_integer, read_audio_integer, audio_value, audio_field,
}

-- The marker of a bin value.
bin_marker :
    (bs : List ℕ)
    → (leb 0xc4 (get_or (bin_bytes bs) 0 0) && leb (get_or (bin_bytes bs) 0 0) 0xc6) ≡ true
unfolding bin_bytes
bin_marker bs = elim (Bool-cases (leb (length bs) 0xff)) [
  | inl s ↦ rw s refl
  | inr s ↦ elim (Bool-cases (leb (length bs) 0xffff)) [
    | inl t ↦ rw (s, t) refl
    | inr t ↦ rw (s, t) refl
  ]
]

-- The mode, as the encoder writes it.
read_short :
    (mode : ℕ) (rest : List ℕ)
    → leb mode 0x7f ≡ true
    → read_audio_integer (mode ∷ rest) ≡ some (mode, 1)
unfolding read_audio_integer
read_short mode rest s = rw (lt→leb (suc (length rest)) 0 (omega arith), s) refl

read_wide : (mode : ℕ) (rest : List ℕ) → read_audio_integer (0xcc ∷ mode ∷ rest) ≡ some (mode, 2)
unfolding read_audio_integer narrow_integer
read_wide mode rest =
    rw
      (
        lt→leb (suc (suc (length rest))) 0 (omega arith),
        le→leb 2 (suc (suc (length rest))) (omega arith),
      )
      refl

read_audio_integer-small :
    (mode : ℕ) (rest : List ℕ)
    → read_audio_integer (small_bytes mode ++ rest) ≡ some (mode, length (small_bytes mode))
unfolding small_bytes
read_audio_integer-small mode rest = elim (Bool-cases (leb mode 0x7f)) [
  | inl s ↦
      let short : small_bytes mode ≡ mode ∷ [] = rw s refl in
      ap (λ b. read_audio_integer (b ++ rest)) short
      ∙ read_short mode rest s
      ∙ ap (λ b. some (mode, length b)) (sym short)
  | inr s ↦
      let wide : small_bytes mode ≡ 0xcc ∷ mode ∷ [] = rw s refl in
      ap (λ b. read_audio_integer (b ++ rest)) wide
      ∙ read_wide mode rest
      ∙ ap (λ b. some (mode, length b)) (sym wide)
]

-- The value of an audio field.
audio_value-audio_bytes :
    (mode : ℕ) (bytes : List ℕ)
    → IsSlice bytes
    → length (audio_bytes mode bytes) < usize_mod
    → audio_value (audio_bytes mode bytes) ≡ ok (record { mode = mode; bytes = bytes })
unfolding audio_value pair_header
audio_value-audio_bytes mode bytes hs small =
    let value = audio_bytes mode bytes in
    let bin = bin_bytes bytes in
    let start = 1 + length (small_bytes mode) in
    let whole = length-append (small_bytes mode) bin in
    let behind : drop start value ≡ bin =
      sym (drop-drop 1 (length (small_bytes mode)) start value refl)
      ∙ drop-length_append (length (small_bytes mode)) (small_bytes mode) bin refl in
    let at : ReadsAt value start bin [] = record {
      reads = behind ∙ sym (append-nil bin);
      inside = omega (arith, whole);
    } in
    let read = read_bin-IsBlob value start bin bytes [] small at (bin_bytes-IsBlob bytes hs) in
    let marker : get_or value start 0 ≡ get_or bin 0 0 =
      sym (get_or-drop start 0 start value 0 (omega arith)) ∙ ap (λ b. get_or b 0 0) behind in
    let inside : leb (length value) start ≡ false =
      lt→leb (length value) start (omega (arith, whole, length-bin_bytes bytes)) in
    let width : start + length bin ≡ length value = omega (arith, whole) in
    rw (
      read_audio_integer-small mode bin,
      read,
      read_bin,
      inside,
      marker,
      bin_marker bytes,
      width,
      ==_refl (length value),
    )

-- The audio field that the encoder writes is read back: the mode and the bytes.
pub audio_field-audio :
    (mode : ℕ) (bytes : List ℕ)
    → mode < 256
    → IsSlice bytes
    → IsBytes bytes
    → length (fields_bytes (audio mode bytes)) < usize_mod
    → audio_field (fields_bytes (audio mode bytes))
      ≡ ok (some (record { mode = mode; bytes = bytes }))
unfolding audio_field field_value
audio_field-audio mode bytes hm hs hb small =
    let fields = 0x81 ∷ 0x07 ∷ audio_bytes mode bytes in
    let whole = audio_fields_bytes mode bytes in
    let little : length fields < usize_mod = omega (arith, ap length whole) in
    let map = audio-IsFieldMap mode bytes hm hs hb little in
    let header = audio_header mode bytes in
    let valid = (validate_fields_without_scratch_iff fields 1 1 header).1 (_, map) in
    let found = field_value_id-IsFieldMap fields 1 1 _ (pos 7) header map in
    let finish : Result AudioField → Result (Option AudioField) = λ r. r >>= λ a. ok (some a) in
    let run : Result (Unit {0}) → Option (List ℕ) → Result (Option AudioField) =
      λ r o. r >>= λ u. elim o [ none ↦ ok none | some value ↦ finish (audio_value value) ] in
    let start : audio_field fields
        ≡ run (validate_fields_without_scratch fields) (field_value_id fields (pos 7)) =
      refl in
    ap audio_field whole
    ∙ start
    ∙ ap₂ run valid found
    ∙ ap finish (audio_value-audio_bytes mode bytes hs (omega arith))
