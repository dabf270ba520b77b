-- ===== src/Payload/Written.antt =====
-- src/lxmf.rs: caller-encoded fields, as `write_fields` writes them, are one map of the format.
use rs_lxmflite.Base.{
  ℕ, zero, suc, ◌+◌, ◌*◌, ◌%◌, ◌≤◌, ◌<◌, ◌≡◌, ◌≢◌, refl, sym, ◌∙◌, subst, false, Bool-cases, inl,
  inr, List, [], ◌∷◌, ◌++◌, append_assoc, arith, leb, ltb, if◌then◌else◌, length, All, All-append,
  bit_or, leb→le, ltb→lt,
}
use rs_lxmflite.Base.Bytes.{IsByte, IsBytes, be_value}
use rs_lxmflite.Base.Int.{ℤ, pos}
use rs_lxmflite.Base.Tables.{agree_below, agree_below_sound}
use rs_lxmflite.MsgPack.Grammar.{
  IsValue, IsRow, positive_fixint, uint8, fixmap, map16, alone, plain, short_row, dictionary, done,
  more,
}
use rs_lxmflite.MsgPack.Rows.{IsValue-suc}
use rs_lxmflite.Fields.Entries.{Entry, keys_of}
use rs_lxmflite.Fields.Keys.{Key, positive, wide, uint8_form, unsigned_bytes, Encodes}
use rs_lxmflite.Fields.Maps.{MapHeader, short_map, map16_header, IsEntries, no_entries, an_entry}
use rs_lxmflite.Fields.Format.{NoRepeats, IsMap}
use rs_lxmflite.Payload.{EncodedField, is_present, encoded}
use rs_lxmflite.Payload.Bytes.{map_header, small_bytes, values_of, ids_bytes, fields_bytes}
use rs_lxmflite.Payload.FieldSet.{IsTyped, occurs, Marks, IsFieldSet}
use rs_lxmflite.Payload.Sorted.{values_of-IsValue, values_of-IsBytes, tally, tally-fields}

-- The entries of the `n` ids from `id` on, in the order of the ids.
abbrev pub sorted_entries : List EncodedField → ℕ → ℕ → List Entry
sorted_entries fields zero id = []
sorted_entries fields (suc n) id =
    if occurs id fields
    then (pos id, values_of id fields) ∷ sorted_entries fields n (id + 1)
    else sorted_entries fields n (id + 1)

small_bytes-Key : (id : ℕ) → id < 256 → Key (pos id) (small_bytes id)
unfolding small_bytes
small_bytes-Key id h = elim (Bool-cases (leb id 0x7f)) [
  | inl low ↦ rw low (positive (leb→le id 0x7f low))
  | inr high ↦
      let enc : Encodes false (id ∷ []) (pos id) =
        subst (λ v. Encodes false (id ∷ []) (pos v)) {x = be_value (id ∷ [])} {y = id} (omega arith)
          unsigned_bytes in
      rw high (wide uint8_form enc)
]

small_id-IsValue : (room id : ℕ) → IsValue (suc room) (small_bytes id)
unfolding small_bytes
small_id-IsValue room id = elim (Bool-cases (leb id 0x7f)) [
  | inl low ↦ rw low (alone (positive_fixint (leb→le id 0x7f low)))
  | inr high ↦ rw high (plain (uint8 refl))
]

small_id-IsBytes : (id : ℕ) → id < 256 → IsBytes (small_bytes id)
unfolding small_bytes
small_id-IsBytes id h = elim (Bool-cases (leb id 0x7f)) [
  | inl low ↦ rw low (h, tt)
  | inr high ↦ rw high (omega arith, (h, tt))
]

module _ (fields : List EncodedField) (typed : All IsTyped fields) (set : IsFieldSet fields)
    (present : List ℕ) (marks : Marks present (λ id. occurs id fields)) where
  -- What the encoder writes for the ids are these entries.
  ids_bytes-IsEntries :
      (n id : ℕ)
      → id + n ≤ 256
      → IsEntries (sorted_entries fields n id) (ids_bytes fields present n id)
  unfolding ids_bytes
  ids_bytes-IsEntries zero id h = no_entries
  ids_bytes-IsEntries (suc n) id h =
      let rest = ids_bytes-IsEntries n (id + 1) (omega arith) in
      elim (Bool-cases (occurs id fields)) [
        | inr off ↦ rw (marks id, off) rest
        | inl on ↦
            rw (marks id, on)
              (an_entry (small_bytes id) (values_of id fields) (ids_bytes fields present n (id + 1))
                (small_bytes-Key id (omega arith))
                (IsValue-suc (values_of-IsValue id fields (λ i. false) set.1 set.2 on)) rest
                (append_assoc (small_bytes id) (values_of id fields)
                  (ids_bytes fields present n (id + 1))))
      ]

  ids_bytes-IsRow :
      (n id : ℕ) → IsRow 8 (2 * length (sorted_entries fields n id)) (ids_bytes fields present n id)
  unfolding ids_bytes
  ids_bytes-IsRow zero id = done
  ids_bytes-IsRow (suc n) id =
      let rest = ids_bytes-IsRow n (id + 1) in
      elim (Bool-cases (occurs id fields)) [
        | inr off ↦ rw (marks id, off) rest
        | inl on ↦
            let tail = ids_bytes fields present n (id + 1) in
            let count = length (sorted_entries fields n (id + 1)) in
            let two : suc (suc (2 * count)) ≡ 2 * suc count = omega arith in
            let row : IsRow 8 (suc (suc (2 * count)))
                ((small_bytes id ++ values_of id fields) ++ tail) =
              more (small_bytes id) (values_of id fields ++ tail) (small_id-IsValue 7 id)
                (more (values_of id fields) tail
                  (values_of-IsValue id fields (λ i. false) set.1 set.2 on) rest refl)
                (append_assoc (small_bytes id) (values_of id fields) tail) in
            rw (marks id, on)
              (subst (λ k. IsRow 8 k ((small_bytes id ++ values_of id fields) ++ tail)) two row)
      ]

  ids_bytes-IsBytes : (n id : ℕ) → id + n ≤ 256 → IsBytes (ids_bytes fields present n id)
  unfolding ids_bytes
  ids_bytes-IsBytes zero id h = tt
  ids_bytes-IsBytes (suc n) id h =
      let tail = ids_bytes-IsBytes n (id + 1) (omega arith) in
      elim (Bool-cases (is_present present id)) [
        | inr off ↦ rw off tail
        | inl on ↦ rw on (
            All-append IsByte (small_bytes id ++ values_of id fields) _
              (All-append IsByte (small_bytes id) _ (small_id-IsBytes id (omega arith))
                (values_of-IsBytes id fields typed))
              tail)
      ]

-- As many entries as ids.
length-sorted :
    (fields : List EncodedField) (n id : ℕ)
    → length (sorted_entries fields n id) ≡ tally (λ i. occurs i fields) n id
unfolding tally
length-sorted fields zero id = refl
length-sorted fields (suc n) id = elim (Bool-cases (occurs id fields)) [
  | inl on ↦ rw on (omega (arith, length-sorted fields n (id + 1)))
  | inr off ↦ rw off (omega (arith, length-sorted fields n (id + 1)))
]

-- Keys below an id.
abbrev Below : ℕ → ℤ → Type 0
Below id key = (j : ℕ) × (key ≡ pos j) × (j < id)

Below-apart : (id : ℕ) (seen : List ℤ) → All (Below id) seen → All (λ s. s ≢ pos id) seen
Below-apart id [] h = tt
Below-apart id (s ∷ seen) ((j, e, l), h) = (
  λ p. let same : pos j ≡ pos id = sym e ∙ p in absurd (omega (arith, pos_injective same)),
  Below-apart id seen h,
)
  where
    pos_injective : {a b : ℕ} → pos a ≡ pos b → a ≡ b
    pos_injective e = cc

Below-suc : (id : ℕ) (seen : List ℤ) → All (Below id) seen → All (Below (id + 1)) seen
Below-suc id [] h = tt
Below-suc id (s ∷ seen) ((j, e, l), h) = ((j, e, omega arith), Below-suc id seen h)

sorted-NoRepeats :
    (fields : List EncodedField) (n id : ℕ) (seen : List ℤ)
    → All (Below id) seen
    → NoRepeats seen (keys_of (sorted_entries fields n id))
sorted-NoRepeats fields zero id seen h = tt
sorted-NoRepeats fields (suc n) id seen h = elim (Bool-cases (occurs id fields)) [
  | inr off ↦ rw off (sorted-NoRepeats fields n (id + 1) seen (Below-suc id seen h))
  | inl on ↦ rw on (
    Below-apart id seen h,
    sorted-NoRepeats fields n (id + 1) (seen ++ (pos id ∷ [])) (
        All-append (Below (id + 1)) seen (pos id ∷ []) (Below-suc id seen h)
          ((id, refl, omega arith), tt)),
  )
]

marker_table : (i : ℕ) → i < 16 → bit_or 0x80 (i % 256) ≡ 0x80 + i
unfolding agree_below
marker_table = agree_below_sound (λ i. bit_or 0x80 (i % 256)) (λ i. 0x80 + i) 16 refl

map_header-MapHeader : (count : ℕ) → count ≤ 64 → MapHeader count (map_header count)
unfolding map_header
map_header-MapHeader count h = elim (Bool-cases (ltb count 16)) [
  | inl few ↦
      rw few
        (short_map (omega (arith, ltb→lt count 16 few)) (marker_table count (ltb→lt count 16 few)))
  | inr many ↦ rw many (map16_header (0 ∷ (count % 256) ∷ []) refl (omega arith))
]

map_header-IsBytes : (count : ℕ) → IsBytes (map_header count)
unfolding map_header
map_header-IsBytes count = elim (Bool-cases (ltb count 16)) [
  | inl few ↦
      let at = marker_table count (ltb→lt count 16 few) in
      rw few (omega (arith, at, ltb→lt count 16 few), tt)
  | inr many ↦ rw many (omega arith)
]

map_header-IsValue :
    (count : ℕ) (bs : List ℕ)
    → count ≤ 64
    → IsRow 8 (2 * count) bs
    → IsValue 9 (map_header count ++ bs)
unfolding map_header
map_header-IsValue count bs h row = elim (Bool-cases (ltb count 16)) [
  | inl few ↦
      let low = ltb→lt count 16 few in
      rw few (short_row (fixmap {n = count} (marker_table count low) (omega arith) refl) row)
  | inr many ↦ rw many (dictionary (0 ∷ (count % 256) ∷ []) bs (map16 refl) (omega arith) row refl)
]

module _ (fields : List EncodedField) (typed : All IsTyped fields) (set : IsFieldSet fields)
    (present : List ℕ) (marks : Marks present (λ id. occurs id fields)) where
  size : length (sorted_entries fields 256 0) ≡ length fields
  size = length-sorted fields 256 0 ∙ tally-fields fields (λ i. false) typed set.1

  -- Caller-encoded fields that the encoder accepts are written as one map of the format: an entry for
  -- each, in the order of the ids.
  pub encoded-IsMap : IsMap (fields_bytes (encoded fields present)) (sorted_entries fields 256 0)
  unfolding fields_bytes
  encoded-IsMap = record {
    hdr = map_header (length fields);
    rest = ids_bytes fields present 256 0;
    split = refl;
    header =
        subst (λ n. MapHeader n (map_header (length fields))) (sym size)
          (map_header-MapHeader (length fields) set.0);
    entries = ids_bytes-IsEntries fields typed set present marks 256 0 (omega arith);
    few = omega (arith, size, set.0);
    distinct = sorted-NoRepeats fields 256 0 [] tt;
  }

  pub encoded-IsValue : IsValue 9 (fields_bytes (encoded fields present))
  unfolding fields_bytes
  encoded-IsValue = map_header-IsValue (length fields) (ids_bytes fields present 256 0) set.0 (
      subst (λ n. IsRow 8 (2 * n) (ids_bytes fields present 256 0)) size
        (ids_bytes-IsRow fields typed set present marks 256 0))

  pub encoded-IsBytes : IsBytes (fields_bytes (encoded fields present))
  unfolding fields_bytes
  encoded-IsBytes =
      All-append IsByte (map_header (length fields)) _ (map_header-IsBytes (length fields))
        (ids_bytes-IsBytes fields typed set present marks 256 0 (omega arith))
