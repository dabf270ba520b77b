-- ===== src/Payload/Size.antt =====
-- The two writers keep the laws, so counting and construction agree to the byte.
use rs_lxmflite.Base.{
  ℕ, ◌+◌, ◌-◌, ◌≤◌, ◌<◌, ◌≡◌, refl, sym, ap, ap₂, ◌∙◌, Bool, true, false, Bool-cases, inl, inr,
  List, [], ◌++◌, append_assoc, arith, leb, if◌then◌else◌, length, drop, usize_mod, dec_le, le→leb,
  lt→leb, checked_add, lt→leb, le→leb, leb→le, leb→lt, length-append, length-drop,
  take-length_append, drop-length_append, drop-drop, All,
}
use rs_lxmflite.Base.Result.{Result, ok, err, ◌>>=◌, ok_or, too_long, output_too_small}
use rs_lxmflite.Payload.{
  SliceWriter, slice_write, slice_writer, size_field, size_writer, PayloadFields, empty, audio,
  encoded, write_payload, pack_payload, copy_at,
}
use rs_lxmflite.Payload.Bytes.{payload_bytes}
use rs_lxmflite.Payload.Emits.{
  IsSlice, WriterLaws, FieldsRepresent, empty_fields, audio_field, encoded_fields,
  write_payload-Emits,
}

size_field-append :
    (start : ℕ) (bs cs : List ℕ)
    → (size_field start (length bs) >>= λ n. size_field n (length cs))
      ≡ size_field start (length (bs ++ cs))
unfolding size_field
size_field-append start bs cs = ground (arith, length-append bs cs)

-- Counting from `start`.
abbrev size_laws : ℕ → WriterLaws size_writer
size_laws start = record {
  after = λ bs. size_field start (length bs);
  Represents = λ f cs. f ≡ length cs;
  after-write = λ bs cs h. size_field-append start bs cs;
  after-field = λ bs cs f e h.
      ap (λ k. size_field start (length bs) >>= λ n. size_field n k) e
      ∙ size_field-append start bs cs;
  field_len_lem = λ f cs e. e;
}

-- A buffer that holds `bs` at its front, if it is long enough.
abbrev filled : List ℕ → List ℕ → Result SliceWriter
filled out bs =
    if leb (length bs) (length out)
    then ok (record { output = bs ++ drop (length bs) out; position = length bs })
    else err output_too_small

length-filled :
    (bs out : List ℕ) → length bs ≤ length out → length (bs ++ drop (length bs) out) ≡ length out
length-filled bs out h =
    omega (arith, length-append bs (drop (length bs) out), length-drop (length bs) out)

copy_behind :
    (out bs cs : List ℕ)
    → copy_at (length bs) cs (bs ++ drop (length bs) out)
      ≡ (bs ++ cs) ++ drop (length (bs ++ cs)) out
copy_behind out bs cs =
    ap₂ (λ (front back : List ℕ). front ++ (cs ++ back))
      (take-length_append (length bs) bs (drop (length bs) out) refl)
      (sym (
          drop-drop (length bs) (length cs) (length bs + length cs) (bs ++ drop (length bs) out)
            refl)
        ∙ ap (drop (length cs)) (drop-length_append (length bs) bs (drop (length bs) out) refl)
        ∙ drop-drop (length bs) (length cs) (length (bs ++ cs)) out (length-append bs cs))
    ∙ sym (append_assoc bs cs (drop (length (bs ++ cs)) out))

slice_write-filled :
    (out bs cs : List ℕ)
    → IsSlice out
    → IsSlice cs
    → length bs ≤ length out
    → slice_write (record { output = bs ++ drop (length bs) out; position = length bs }) cs
      ≡ filled out (bs ++ cs)
unfolding slice_write
slice_write-filled out bs cs ho hc h =
    rw (copy_behind out bs cs, length-filled bs out h) (ground (arith, length-append bs cs))

filled-append :
    (out bs cs : List ℕ)
    → IsSlice out
    → IsSlice cs
    → (filled out bs >>= λ s. slice_write s cs) ≡ filled out (bs ++ cs)
filled-append out bs cs ho hc = elim (Bool-cases (leb (length bs) (length out))) [
  | inl fits ↦ rw fits (slice_write-filled out bs cs ho hc (leb→le _ _ fits))
  | inr over ↦ rw (
    over,
    lt→leb (length (bs ++ cs)) (length out) (omega (arith, leb→lt _ _ over, length-append bs cs)),
  )
]

abbrev slice_laws : (out : List ℕ) → IsSlice out → WriterLaws slice_writer
slice_laws out ho = record {
  after = filled out;
  Represents = λ f cs. f ≡ cs;
  after-write = λ bs cs h. filled-append out bs cs ho h;
  after-field = λ bs cs f e h.
      ap (λ k. filled out bs >>= λ s. slice_write s k) e ∙ filled-append out bs cs ho h;
  field_len_lem = λ f cs e. ap length e;
}

written : SliceWriter → Result (ℕ × List ℕ)
written w = ok (w.position, w.output)

if_distributes :
    (a : ℕ) (o : List ℕ) (b : Bool)
    → ((if b then ok (record { output = o; position = a }) else err output_too_small) >>= written)
      ≡ (if b then ok (a, o) else err output_too_small)
unfolding written
if_distributes a o true = refl
if_distributes a o false = refl

filled-nil : (out : List ℕ) → filled out [] ≡ ok (record { output = out; position = 0 })
filled-nil out = rw (le→leb 0 (length out) (omega arith))

size_field-zero : (start : ℕ) → start < usize_mod → size_field start 0 ≡ ok start
unfolding size_field
size_field-zero start h = ground arith

-- The fields are of the sizes that a device's memory and the field limit allow.
abbrev pub FieldsFit : PayloadFields (List ℕ) → Type 0
FieldsFit empty = Unit
FieldsFit (audio mode bytes) = IsSlice bytes
FieldsFit (encoded entries present) = (length entries ≤ 64) × All (λ e. IsSlice e.1) entries

-- The same fields for the count, which is given lengths.
abbrev pub field_sizes : PayloadFields (List ℕ) → PayloadFields ℕ
field_sizes empty = empty
field_sizes (audio mode bytes) = audio mode (length bytes)
field_sizes (encoded entries present) = encoded entries present

slice_fields :
    (out : List ℕ) (ho : IsSlice out) (fs : PayloadFields (List ℕ))
    → FieldsFit fs
    → FieldsRepresent (slice_laws out ho) fs fs
slice_fields out ho empty h = empty_fields
slice_fields out ho (audio mode bytes) h = audio_field refl h
slice_fields out ho (encoded entries present) h = encoded_fields h.0 h.1

size_fields :
    (start : ℕ) (fs : PayloadFields (List ℕ))
    → FieldsFit fs
    → FieldsRepresent (size_laws start) (field_sizes fs) fs
size_fields start empty h = empty_fields
size_fields start (audio mode bytes) h = audio_field refl h
size_fields start (encoded entries present) h = encoded_fields h.0 h.1

-- Packing a payload into a buffer succeeds exactly if the payload fits: then its bytes stand at the
-- front, the rest of the buffer is as it was, and the length is theirs. Else the error is
-- `OutputTooSmall`.
pub pack_payload_lem :
    (timestamp : ℕ) (title content : List ℕ) (fs : PayloadFields (List ℕ)) (out : List ℕ)
    → IsSlice out
    → IsSlice title
    → IsSlice content
    → FieldsFit fs
    → let bytes = payload_bytes timestamp title content fs in
      pack_payload timestamp title content fs out ≡ (
        if leb (length bytes) (length out)
        then ok (length bytes, bytes ++ drop (length bytes) out)
        else err output_too_small)
unfolding pack_payload written
pack_payload_lem timestamp title content fs out ho ht hc h =
    let start : SliceWriter = record { output = out; position = 0 } in
    let run : SliceWriter → Result SliceWriter =
      write_payload slice_writer timestamp title content fs in
    let bytes = payload_bytes timestamp title content fs in
    ap (λ m. m >>= run >>= written) (sym (filled-nil out))
    ∙ ap (λ m. m >>= written)
        (write_payload-Emits slice_writer (slice_laws out ho) timestamp title content title content
          refl ht refl hc (slice_fields out ho fs h) [])
    ∙ if_distributes (length bytes) (bytes ++ drop (length bytes) out)
        (leb (length bytes) (length out))

-- Counting a payload answers its start plus the length of the payload, or `TooLong` if that leaves
-- `usize`.
pub size_payload :
    (timestamp : ℕ) (title content : List ℕ) (fs : PayloadFields (List ℕ)) (start : ℕ)
    → start < usize_mod
    → IsSlice title
    → IsSlice content
    → FieldsFit fs
    → write_payload size_writer timestamp (length title) (length content) (field_sizes fs) start
      ≡ ok_or (checked_add start (length (payload_bytes timestamp title content fs))) too_long
size_payload timestamp title content fs start hs ht hc h =
    ap
      (λ m.
        m >>= write_payload size_writer timestamp (length title) (length content) (field_sizes fs))
      (sym (size_field-zero start hs))
    ∙ write_payload-Emits size_writer (size_laws start) timestamp (length title) (length content)
        title content refl ht refl hc (size_fields start fs h) []
    ∙ (unfold size_field in refl)

-- The timestamp does not matter for the length.
length-payload_bytes :
    (t u : ℕ) (title content : List ℕ) (fs : PayloadFields (List ℕ))
    → length (payload_bytes t title content fs) ≡ length (payload_bytes u title content fs)
unfolding payload_bytes
length-payload_bytes t u title content fs = refl

-- One size for admission and for construction: with the size that the counting run of the encoder
-- answers, from any start, packing succeeds exactly in the buffers that have that room, and
-- reports exactly that length, with the payload at the front of the buffer.
pub packed_size_exact :
    (timestamp : ℕ) (title content : List ℕ) (fs : PayloadFields (List ℕ)) (start size : ℕ)
    (out : List ℕ)
    → start < usize_mod
    → IsSlice out
    → IsSlice title
    → IsSlice content
    → FieldsFit fs
    → write_payload size_writer 0 (length title) (length content) (field_sizes fs) start ≡ ok size
    → pack_payload timestamp title content fs out ≡ (
        if leb size (start + length out)
        then ok (size - start, payload_bytes timestamp title content fs ++ drop (size - start) out)
        else err output_too_small)
packed_size_exact timestamp title content fs start size out hs ho ht hc h e =
    pack_payload_lem timestamp title content fs out ho ht hc h ∙ same
  where
    bytes : List ℕ
    bytes = payload_bytes timestamp title content fs

    total : size ≡ start + length bytes
    total = ground (
      arith,
      size_payload 0 title content fs start hs ht hc h,
      length-payload_bytes 0 timestamp title content fs,
    )

    answer : Bool → ℕ → Result (ℕ × List ℕ)
    answer fits n = if fits then ok (n, bytes ++ drop n out) else err output_too_small

    same :
        answer (leb (length bytes) (length out)) (length bytes)
        ≡ answer (leb size (start + length out)) (size - start)
    same = elim (dec_le (length bytes) (length out)) [
      | yes fits ↦
          rw
            (
              le→leb (length bytes) (length out) fits,
              le→leb size (start + length out) (omega (arith, total)),
            )
            (ap (λ n. ok (n, bytes ++ drop n out)) (omega (arith, total)))
      | no over ↦ rw (
        lt→leb (length bytes) (length out) (omega arith),
        lt→leb size (start + length out) (omega (arith, total, over)),
      )
    ]
