-- ===== src/Fields/Accepts.antt =====
-- What the validators accept, and what a lookup finds in it.
use rs_lxmflite.Base.{
  ℕ, zero, suc, ◌+◌, ◌-◌, ◌*◌, ◌/◌, ◌≤◌, ◌<◌, ◌≡◌, ◌≢◌, ◌↔◌, inl, inr, refl, sym, ap, ◌∙◌, false,
  Bool-cases, Option, none, some, List, [], ◌∷◌, ◌++◌, arith, ltb, if◌then◌else◌, length, slice,
  dec_le, le→ltb, lt→ltb, ==_refl,
}
use rs_lxmflite.Base.Int.{ℤ, int_eq}
use rs_lxmflite.Base.Result.{
  Result, ok, ok_or, refuse, >>=-eq-ok, malformed_payload, duplicate_field, too_many_fields,
}
use rs_lxmflite.MsgPack.{skip_value}
use rs_lxmflite.MsgPack.Bounds.{skip_value_bounds}
use rs_lxmflite.Fields.{
  read_field_id, read_map_header, contains, at_end, validate_fields,
  validate_fields_without_scratch, find_loop, field_value_id,
}
use rs_lxmflite.Fields.Entries.{
  check, Entry, keys_of, Walks, here, entry, validate_fields-agrees, pairs_loop-check,
}

-- No key occurs twice, nor among those seen before.
abbrev pub Distinct : List ℤ → List ℤ → Type 0
Distinct seen [] = Unit
Distinct seen (k ∷ ks) = (contains seen k ≡ false) × Distinct (seen ++ (k ∷ [])) ks

-- A field map: entries that fill the slice, at most 64 of them, with distinct keys.
pub record IsFieldMap (fields : List ℕ) (first count : ℕ) (es : List Entry) : Type 0 where
  pub walks : Walks fields first es (length fields)
  pub size : length es ≡ count
  pub few : count ≤ 64
  pub distinct : Distinct [] (keys_of es)

check_sound :
    (fields : List ℕ) (seen : List ℤ) (n at : ℕ) {q : ℕ}
    → check fields seen n at ≡ ok q
    → (es : List Entry) × Walks fields at es q × (length es ≡ n) × Distinct seen (keys_of es)
unfolding check
check_sound fields seen zero at {q} h =
    let same : at ≡ q = ground arith in ([], rw same here, refl, tt)
check_sound fields seen (suc n) at {q} h =
    let ((key, after), hr, h1) =
      >>=-eq-ok (ok_or (read_field_id fields at) malformed_payload) _ h in
    let (u, hc, h2) = >>=-eq-ok (refuse (contains seen key) duplicate_field) _ h1 in
    let (at', hs, h3) = >>=-eq-ok (skip_value fields after 0) _ h2 in
    let (es, w, len, d) = check_sound fields (seen ++ (key ∷ [])) n at' h3 in
    (
      (key, slice fields after at') ∷ es,
      entry after (ground arith) hs refl w,
      ap suc len,
      (ground arith, d),
    )

check_complete :
    {fields : List ℕ} {at q : ℕ} {es : List Entry} (seen : List ℤ)
    → Walks fields at es q
    → Distinct seen (keys_of es)
    → check fields seen (length es) at ≡ ok q
unfolding check
check_complete seen here d = refl
check_complete seen (entry {key} a e s v w) d =
    rw (e, d.0, s) (check_complete (seen ++ (key ∷ [])) w d.1)

-- A key has a byte at least.
read_field_id_forward :
    (fields : List ℕ) (at : ℕ) {key : ℤ} {after : ℕ}
    → read_field_id fields at ≡ some (key, after)
    → at < after
unfolding read_field_id
read_field_id_forward fields at h = ground arith

-- An entry has two bytes at least.
Walks-length :
    {fields : List ℕ} {p q : ℕ} {es : List Entry} → Walks fields p es q → p + 2 * length es ≤ q
Walks-length here = omega arith
Walks-length {fields} {p} (entry {q} a e s v w) =
    omega
      (arith, read_field_id_forward fields p e, skip_value_bounds fields a 0 q s, Walks-length w)

at_end-eq_ok : (fields : List ℕ) (r : Result ℕ) → at_end fields r ≡ ok tt → r ≡ ok (length fields)
unfolding at_end
at_end-eq_ok fields r h = ground arith

-- Without a scratch, exactly the field maps pass.
pub validate_fields_without_scratch_iff :
    (fields : List ℕ) (first count : ℕ)
    → read_map_header fields ≡ some (first, count)
    → (validate_fields_without_scratch fields ≡ ok tt)
      ↔ ((es : List Entry) × IsFieldMap fields first count es)
unfolding validate_fields_without_scratch
validate_fields_without_scratch_iff fields first count e = (accepts, passes)
  where
    accepts :
        validate_fields_without_scratch fields ≡ ok tt
        → (es : List Entry) × IsFieldMap fields first count es
    accepts h =
        let (u, hf, hl) =
          >>=-eq-ok (refuse (ltb 64 count) too_many_fields) _
            (rw (e, validate_fields_without_scratch) at h) in
        let done = at_end-eq_ok fields _ hl in
        let (es, w, len, d) =
          check_sound fields [] count first
            (sym (pairs_loop-check fields first count first [] here) ∙ done) in
        (es, record { walks = w; size = len; few = ground arith; distinct = d })

    passes :
        (es : List Entry) × IsFieldMap fields first count es
        → validate_fields_without_scratch fields ≡ ok tt
    passes (es, m) =
        let walked =
          pairs_loop-check fields first (length es) first [] here
          ∙ check_complete [] m.walks m.distinct in
        rw (e, validate_fields_without_scratch, le→ltb 64 count m.few, ← m.size, walked)
          (unfold at_end in rw (==_refl (length fields)))

-- A count that the bytes cannot hold is refused before any entry is read.
refused :
    (fields : List ℕ) (keys : List ℤ) (first count : ℕ)
    → read_map_header fields ≡ some (first, count)
    → (length fields - first) / 2 < count
    → (validate_fields fields keys).0 ≢ ok tt
unfolding validate_fields
refused fields keys first count e h = elim (Bool-cases (ltb 64 count)) [
  | inl many ↦ rw (e, validate_fields, many) (λ p. cc)
  | inr few ↦ rw (e, validate_fields, few, lt→ltb ((length fields - first) / 2) count h) (λ p. cc)
]

-- With a scratch of 64 keys, whatever it holds, exactly the field maps pass too.
pub validate_fields_iff :
    (fields : List ℕ) (keys : List ℤ) (first count : ℕ)
    → length keys ≡ 64
    → read_map_header fields ≡ some (first, count)
    → ((validate_fields fields keys).0 ≡ ok tt)
      ↔ ((es : List Entry) × IsFieldMap fields first count es)
validate_fields_iff fields keys first count len e = (accepts, passes)
  where
    accepts :
        (validate_fields fields keys).0 ≡ ok tt
        → (es : List Entry) × IsFieldMap fields first count es
    accepts h = elim (dec_le count ((length fields - first) / 2)) [
      | yes fits ↦
          (validate_fields_without_scratch_iff fields first count e).0
            (sym (validate_fields-agrees fields keys first count len e fits) ∙ h)
      | no over ↦ absurd (refused fields keys first count e (omega arith) h)
    ]

    passes :
        (es : List Entry) × IsFieldMap fields first count es
        → (validate_fields fields keys).0 ≡ ok tt
    passes (es, m) =
        validate_fields-agrees fields keys first count len e
          (omega (arith, Walks-length m.walks, m.size))
        ∙ (validate_fields_without_scratch_iff fields first count e).1 (es, m)

-- The encoded value of the first entry with the key.
abbrev pub lookup : ℤ → List Entry → Option (List ℕ)
lookup key [] = none
lookup key ((k, value) ∷ es) = if int_eq k key then some value else lookup key es

find_loop-Walks :
    {fields : List ℕ} {at q : ℕ} {es : List Entry} (key : ℤ)
    → Walks fields at es q
    → find_loop fields key (length es) at ≡ lookup key es
unfolding find_loop
find_loop-Walks key here = refl
find_loop-Walks {fields} {at} key (entry a e s v w) =
    rw (e, find_loop, s, ← v, find_loop-Walks key w)

-- A lookup in a field map answers the encoded value of the entry with that key, and nothing where
-- no entry has it.
pub field_value_id-IsFieldMap :
    (fields : List ℕ) (first count : ℕ) (es : List Entry) (key : ℤ)
    → read_map_header fields ≡ some (first, count)
    → IsFieldMap fields first count es
    → field_value_id fields key ≡ lookup key es
unfolding field_value_id
field_value_id-IsFieldMap fields first count es key e m =
    let valid = (validate_fields_without_scratch_iff fields first count e).1 (es, m) in
    rw (valid, field_value_id, e, ← m.size, find_loop-Walks key m.walks)
