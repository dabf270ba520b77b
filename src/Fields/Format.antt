-- ===== src/Fields/Format.antt =====
-- What the two validators accept and a lookup finds, by the format's own description of a map.
use rs_lxmflite.Base.{
  ℕ, ◌≤◌, ◌<◌, ◌≡◌, ◌≢◌, ◌↔◌, ◌⊎◌, inl, inr, refl, sym, ap, ◌∙◌, subst, false, Bool-cases, none,
  some, Option-cases, List, [], ◌∷◌, ◌++◌, append-nil, arith, length, drop, usize_mod, All,
  length-append, drop-length_append,
}
use rs_lxmflite.Base.Bytes.{IsBytes}
use rs_lxmflite.Base.Int.{ℤ, int_eq, int_eq_iff}
use rs_lxmflite.Base.Result.{ok}
use rs_lxmflite.Fields.{
  contains, read_map_header, validate_fields, validate_fields_without_scratch, field_value_id,
}
use rs_lxmflite.Fields.Entries.{Entry, keys_of}
use rs_lxmflite.Fields.Accepts.{
  IsFieldMap, Distinct, lookup, validate_fields_iff, validate_fields_without_scratch_iff,
  field_value_id-IsFieldMap,
}
use rs_lxmflite.Fields.Maps.{MapHeader, IsEntries, IsEntries-Walks, Walks-IsEntries}
use rs_lxmflite.Fields.Headers.{read_map_header-MapHeader, read_map_header_sound}

-- No key occurs twice, nor among those of `seen`.
abbrev pub NoRepeats : List ℤ → List ℤ → Type 0
NoRepeats seen [] = Unit
NoRepeats seen (k ∷ ks) = All (λ s. s ≢ k) seen × NoRepeats (seen ++ (k ∷ [])) ks

contains-apart : (seen : List ℤ) (k : ℤ) → contains seen k ≡ false → All (λ s. s ≢ k) seen
contains-apart [] k h = tt
contains-apart (s ∷ seen) k h = elim (Bool-cases (int_eq s k)) [
  | inl same ↦ cc
  | inr other ↦ (λ e. let same = (int_eq_iff s k).1 e in cc, contains-apart seen k (rw other at h))
]

apart-contains : (seen : List ℤ) (k : ℤ) → All (λ s. s ≢ k) seen → contains seen k ≡ false
apart-contains [] k h = refl
apart-contains (s ∷ seen) k (n, h) = elim (Bool-cases (int_eq s k)) [
  | inl same ↦ absurd (n ((int_eq_iff s k).0 same))
  | inr other ↦ rw other (apart-contains seen k h)
]

Distinct-NoRepeats : (seen ks : List ℤ) → Distinct seen ks → NoRepeats seen ks
Distinct-NoRepeats seen [] d = tt
Distinct-NoRepeats seen (k ∷ ks) (h, d) =
    (contains-apart seen k h, Distinct-NoRepeats (seen ++ (k ∷ [])) ks d)

NoRepeats-Distinct : (seen ks : List ℤ) → NoRepeats seen ks → Distinct seen ks
NoRepeats-Distinct seen [] d = tt
NoRepeats-Distinct seen (k ∷ ks) (h, d) =
    (apart-contains seen k h, NoRepeats-Distinct (seen ++ (k ∷ [])) ks d)

-- A map of the format with these entries: its header, and at most 64 entries with integer keys, none
-- of them twice, and complete values.
pub record IsMap (fields : List ℕ) (es : List Entry) : Type 0 where
  pub hdr : List ℕ
  pub rest : List ℕ
  pub split : fields ≡ hdr ++ rest
  pub header : MapHeader (length es) hdr
  pub entries : IsEntries es rest
  pub few : length es ≤ 64
  pub distinct : NoRepeats [] (keys_of es)

-- The slice begins with the header of a map.
abbrev pub HasHeader : List ℕ → Type 0
HasHeader fields =
    (hdr : List ℕ) × (rest : List ℕ) × (count : ℕ) × (fields ≡ hdr ++ rest) × MapHeader count hdr

IsMap-header :
    {fields : List ℕ} {es : List Entry} (m : IsMap fields es)
    → read_map_header fields ≡ some (length m.hdr, length es)
IsMap-header {es} m =
    ap read_map_header m.split ∙ read_map_header-MapHeader m.hdr m.rest (length es) m.header

module _ (fields : List ℕ) (small : length fields < usize_mod) (bytes : IsBytes fields) where
  IsMap-IsFieldMap :
      {es : List Entry} (m : IsMap fields es) → IsFieldMap fields (length m.hdr) (length es) es
  IsMap-IsFieldMap {es} m = record {
    walks = IsEntries-Walks fields small bytes (length m.hdr) m.entries (record {
      reads =
          ap (drop (length m.hdr)) m.split
          ∙ drop-length_append (length m.hdr) m.hdr m.rest refl
          ∙ sym (append-nil m.rest);
      inside = omega (arith, ap length m.split, length-append m.hdr m.rest);
    });
    size = refl;
    few = m.few;
    distinct = NoRepeats-Distinct [] (keys_of es) m.distinct;
  }

  IsFieldMap-IsMap :
      (first count : ℕ) (es : List Entry)
      → read_map_header fields ≡ some (first, count)
      → IsFieldMap fields first count es
      → IsMap fields es
  IsFieldMap-IsMap first count es e m =
      let h = read_map_header_sound fields first count bytes e in
      record {
        hdr = h.hdr;
        rest = h.rest;
        split = h.split;
        header = subst (λ n. MapHeader n h.hdr) (sym m.size) h.header;
        entries =
            subst (IsEntries es)
              (ap (λ n. drop n fields) h.width
                ∙ ap (drop (length h.hdr)) h.split
                ∙ drop-length_append (length h.hdr) h.hdr h.rest refl)
              (Walks-IsEntries fields small bytes m.walks refl);
        few = omega (arith, m.few, m.size);
        distinct = Distinct-NoRepeats [] (keys_of es) m.distinct;
      }

  header_or_none :
      ((first : ℕ) × (count : ℕ) × (read_map_header fields ≡ some (first, count))
        × HasHeader fields)
      ⊎ ((read_map_header fields ≡ none) × (¬ HasHeader fields))
  header_or_none = elim (Option-cases (read_map_header fields)) [
    | inr ((first, count), e) ↦
        let h = read_map_header_sound fields first count bytes e in
        inl (first, count, e, (h.hdr, h.rest, count, h.split, h.header))
    | inl e ↦ inr (
      e,
      λ (hdr, rest, count, split, m).
          let found = ap read_map_header split ∙ read_map_header-MapHeader hdr rest count m in cc,
    )
  ]

  -- The validator without a scratch accepts exactly the maps of the format that fill the slice, with at
  -- most 64 entries, integer keys of which none occurs twice, and complete values. The slice is of
  -- bytes, fewer than the address space has.
  pub validate_fields_without_scratch-IsMap :
      (validate_fields_without_scratch fields ≡ ok tt) ↔ ((es : List Entry) × IsMap fields es)
  unfolding validate_fields_without_scratch
  validate_fields_without_scratch-IsMap = (accepts, passes)
    where
      accepts : validate_fields_without_scratch fields ≡ ok tt → (es : List Entry) × IsMap fields es
      accepts h = elim header_or_none [
        | inl (first, count, e, has) ↦
            let (es, m) = (validate_fields_without_scratch_iff fields first count e).0 h in
            (es, IsFieldMap-IsMap first count es e m)
        | inr (e, n) ↦ cc (rw (e, validate_fields_without_scratch) at h)
      ]

      passes : (es : List Entry) × IsMap fields es → validate_fields_without_scratch fields ≡ ok tt
      passes (es, m) =
          (validate_fields_without_scratch_iff fields (length m.hdr) (length es) (IsMap-header m)).1
            (es, IsMap-IsFieldMap m)

  -- The validator with a scratch of 64 keys, whatever it holds, accepts exactly the same maps, and also
  -- the slices that do not begin with the header of a map. The slice is of bytes, fewer than the address
  -- space has.
  pub validate_fields-IsMap :
      (keys : List ℤ)
      → length keys ≡ 64
      → ((validate_fields fields keys).0 ≡ ok tt)
        ↔ (((es : List Entry) × IsMap fields es) ⊎ (¬ HasHeader fields))
  unfolding validate_fields
  validate_fields-IsMap keys wide = (accepts, passes)
    where
      accepts :
          (validate_fields fields keys).0 ≡ ok tt
          → ((es : List Entry) × IsMap fields es) ⊎ (¬ HasHeader fields)
      accepts h = elim header_or_none [
        | inl (first, count, e, has) ↦
            let (es, m) = (validate_fields_iff fields keys first count wide e).0 h in
            inl (es, IsFieldMap-IsMap first count es e m)
        | inr (e, n) ↦ inr n
      ]

      passes :
          ((es : List Entry) × IsMap fields es) ⊎ (¬ HasHeader fields)
          → (validate_fields fields keys).0 ≡ ok tt
      passes (inl (es, m)) =
          (validate_fields_iff fields keys (length m.hdr) (length es) wide (IsMap-header m)).1
            (es, IsMap-IsFieldMap m)
      passes (inr n) = elim header_or_none [
        | inl (first, count, e, has) ↦ absurd (n has)
        | inr (e, n') ↦ rw (e, validate_fields) refl
      ]

  -- A lookup in a map of the format answers the encoded value of the entry with that key, and nothing
  -- where no entry has it. The slice is of bytes, fewer than the address space has.
  pub field_value_id-IsMap :
      (es : List Entry) (key : ℤ) → IsMap fields es → field_value_id fields key ≡ lookup key es
  field_value_id-IsMap es key m =
      field_value_id-IsFieldMap fields (length m.hdr) (length es) es key (IsMap-header m)
        (IsMap-IsFieldMap m)
