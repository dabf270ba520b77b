-- ===== src/Payload/Emits.antt =====
-- The encoder over any writer that keeps the laws of a sequence of bytes: it emits `payload_bytes`.
use rs_lxmflite.Base.{
  ℕ, zero, suc, ◌+◌, ◌≤◌, ◌<◌, ◌≡◌, refl, sym, ap, ◌∙◌, Bool, true, false, ◌%◌, List, [], ◌∷◌, ◌++◌,
  append_assoc, append-nil, arith, leb, ltb, ◌==◌, if◌then◌else◌, length, usize_mod, lt→leb, le→ltb,
  All,
}
use rs_lxmflite.Base.Bytes.{be16, be32, be64}
use rs_lxmflite.Base.Result.{Result, ok, LxmfError, ◌>>=◌, ◌>>◌, refuse, bind_assoc, bind_ok}
use rs_lxmflite.Payload.{
  PayloadWriter, PayloadFields, empty, audio, encoded, EncodedField, is_present, field_audio,
  max_fields, write_sized, write_bin, write_fields_header, write_small, write_values, write_ids,
  write_fields, write_payload,
}
use rs_lxmflite.Payload.Bytes.{
  bin_bytes, map_header, small_bytes, values_of, ids_bytes, fields_bytes, payload_bytes,
}

-- A slice of bytes is shorter than half the address space.
abbrev pub IsSlice : List ℕ → Type 0
IsSlice bs = length bs < 2147483648

-- A writer whose state is that of one write of all the bytes so far.
pub record WriterLaws (w : PayloadWriter) : Type 1 where
  pub after : List ℕ → Result w.State
  pub Represents : w.Field → List ℕ → Type 0
  pub after-write :
      (bs cs : List ℕ) → IsSlice cs → (after bs >>= λ s. w.write s cs) ≡ after (bs ++ cs)
  pub after-field :
      (bs cs : List ℕ) (f : w.Field)
      → Represents f cs
      → IsSlice cs
      → (after bs >>= λ s. w.field s f) ≡ after (bs ++ cs)
  pub field_len_lem : (f : w.Field) (cs : List ℕ) → Represents f cs → w.field_len f ≡ length cs

-- The fields to write, over either kind of field.
pub data FieldsRepresent {w : PayloadWriter} (l : WriterLaws w)
    : PayloadFields w.Field → PayloadFields (List ℕ) → Type 0 where
  empty_fields : FieldsRepresent l empty empty
  audio_field :
      {mode : ℕ} {f : w.Field} {bs : List ℕ}
      → l.Represents f bs
      → IsSlice bs
      → FieldsRepresent l (audio mode f) (audio mode bs)
  encoded_fields :
      {entries : List EncodedField} {present : List ℕ}
      → length entries ≤ 64
      → All (λ e. IsSlice e.1) entries
      → FieldsRepresent l (encoded entries present) (encoded entries present)

module _ (w : PayloadWriter) (l : WriterLaws w) where
  open l use {after, Represents, after-write, after-field, field_len_lem}

  -- Wherever it starts, `prog` writes `bytes`.
  abbrev Emits : (w.State → Result w.State) → List ℕ → Type 0
  Emits prog bytes = (bs : List ℕ) → (after bs >>= prog) ≡ after (bs ++ bytes)

  Emits-seq :
      (p q : w.State → Result w.State) (a b : List ℕ)
      → Emits p a
      → Emits q b
      → Emits (λ s. p s >>= q) (a ++ b)
  Emits-seq p q a b hp hq bs =
      sym (bind_assoc (after bs) p q)
      ∙ ap (λ m. m >>= q) (hp bs)
      ∙ hq (bs ++ a)
      ∙ ap after (append_assoc bs a b)

  Emits-ok : Emits ok []
  Emits-ok bs = bind_ok (after bs) ∙ ap after (sym (append-nil bs))

  Emits-if :
      (b : Bool) (p q : w.State → Result w.State) (x y : List ℕ)
      → (b ≡ true → Emits p x)
      → (b ≡ false → Emits q y)
      → Emits (λ s. if b then p s else q s) (if b then x else y)
  Emits-if true p q x y h k = h refl
  Emits-if false p q x y h k = k refl

  -- A guard that passes.
  Emits-guard :
      (b : Bool) (e : LxmfError) (p : w.State → Result w.State) (x : List ℕ)
      → b ≡ false
      → Emits p x
      → Emits (λ s. refuse b e >> p s) x
  Emits-guard true e p x h k = cc
  Emits-guard false e p x h k = k

  Emits-write : (cs : List ℕ) → IsSlice cs → Emits (λ s. w.write s cs) cs
  Emits-write cs h bs = after-write bs cs h

  module _ (f : w.Field) (bs : List ℕ) (r : Represents f bs) (h : IsSlice bs) where
    Emits-field : Emits (λ s. w.field s f) bs
    Emits-field pre = after-field pre bs f r h

    -- A fixed head, then the length, then the content.
    write_sized-Emits : Emits (write_sized w (length bs) f) (bin_bytes bs)
    unfolding write_sized bin_bytes
    write_sized-Emits =
        Emits-if (leb len 0xff) _ _ _ _
          (λ _.
            Emits-seq _ _ (0xc4 ∷ (len % 256) ∷ []) bs (Emits-write _ (omega arith)) Emits-field)
          (λ _.
            Emits-if (leb len 0xffff) _ _ _ _
              (λ _.
                Emits-seq _ _ (0xc5 ∷ []) (be16 len ++ bs) (Emits-write _ (omega arith))
                  (Emits-seq _ _ (be16 len) bs (Emits-write _ (omega arith)) Emits-field))
              (λ _. Emits-guard (leb usize_mod len) _ _ _ (omega (arith, lt→leb usize_mod len)) (
                Emits-seq _ _ (0xc6 ∷ []) (be32 len ++ bs) (Emits-write _ (omega arith))
                  (Emits-seq _ _ (be32 len) bs (Emits-write _ (omega arith)) Emits-field))))
      where
        len : ℕ
        len = length bs

    write_bin-Emits : Emits (write_bin w f) (bin_bytes bs)
    unfolding write_bin
    write_bin-Emits = rw (field_len_lem f bs r) write_sized-Emits

  write_small-Emits : (n : ℕ) → Emits (write_small w n) (small_bytes n)
  unfolding write_small small_bytes
  write_small-Emits n =
      Emits-if (leb n 0x7f) _ _ _ _ (λ _. Emits-write _ (omega arith))
        (λ _. Emits-write _ (omega arith))

  write_fields_header-Emits :
      (count : ℕ) → count ≤ 64 → Emits (write_fields_header w count) (map_header count)
  unfolding write_fields_header map_header
  write_fields_header-Emits count h =
      Emits-guard (ltb max_fields count) _ _ _ (omega (arith, le→ltb max_fields count))
        (Emits-write _ (ground arith))

  write_values-Emits :
      (id : ℕ) (entries : List EncodedField)
      → All (λ e. IsSlice e.1) entries
      → Emits (write_values w id entries) (values_of id entries)
  unfolding write_values values_of
  write_values-Emits id [] h = Emits-ok
  write_values-Emits id ((entry_id, value) ∷ entries) h =
      Emits-seq _ _ _ _
        (Emits-if (entry_id == id) _ _ _ _ (λ _. Emits-write value h.0) (λ _. Emits-ok))
        (write_values-Emits id entries h.1)

  write_ids-Emits :
      (entries : List EncodedField) (present : List ℕ) (n id : ℕ)
      → All (λ e. IsSlice e.1) entries
      → Emits (write_ids w entries present n id) (ids_bytes entries present n id)
  unfolding write_ids ids_bytes
  write_ids-Emits entries present zero id h = Emits-ok
  write_ids-Emits entries present (suc n) id h =
      Emits-seq _ _ _ _
        (Emits-if (is_present present id) _ _ _ _
          (λ _. Emits-seq _ _ _ _ (write_small-Emits id) (write_values-Emits id entries h))
          (λ _. Emits-ok))
        (write_ids-Emits entries present n (id + 1) h)

  write_fields-Emits :
      {fs : PayloadFields w.Field} {spec : PayloadFields (List ℕ)}
      → FieldsRepresent l fs spec
      → Emits (write_fields w fs) (fields_bytes spec)
  unfolding write_fields fields_bytes
  write_fields-Emits empty_fields = write_fields_header-Emits 0 (omega arith)
  write_fields-Emits (audio_field {mode} {f} {bs} r h) =
      Emits-seq _ _ (map_header 1) _ (write_fields_header-Emits 1 (omega arith)) (
        Emits-seq _ _ (field_audio ∷ 0x92 ∷ []) _ (Emits-write _ (omega arith))
          (Emits-seq _ _ (small_bytes mode) _ (write_small-Emits mode) (write_bin-Emits f bs r h)))
  write_fields-Emits (encoded_fields {entries} {present} few slices) =
      Emits-seq _ _ (map_header (length entries)) _ (write_fields_header-Emits (length entries) few)
        (write_ids-Emits entries present 256 0 slices)

  pub write_payload-Emits :
      (timestamp : ℕ) (title_f content_f : w.Field) (title content : List ℕ)
      {fs : PayloadFields w.Field} {spec : PayloadFields (List ℕ)}
      → Represents title_f title
      → IsSlice title
      → Represents content_f content
      → IsSlice content
      → FieldsRepresent l fs spec
      → Emits
          (write_payload w timestamp title_f content_f fs)
          (payload_bytes timestamp title content spec)
  unfolding write_payload payload_bytes
  write_payload-Emits timestamp tf cf title content rt ht rc hc r =
      Emits-seq _ _ (0x94 ∷ 0xcb ∷ []) _ (Emits-write _ (omega arith)) (
        Emits-seq _ _ (be64 timestamp) _ (Emits-write _ (omega arith)) (
          Emits-seq _ _ (bin_bytes title) _ (write_bin-Emits tf title rt ht) (
            Emits-seq _ _ (bin_bytes content) _ (write_bin-Emits cf content rc hc)
              (write_fields-Emits r))))
