-- ===== src/Payload/FieldSet.antt =====
-- src/lxmf.rs: which fields `encoded_field_set` accepts, and the set that it answers.
use rs_lxmflite.Base.{
  ◌⊎◌, inl, inr, ℕ, ◌+◌, ◌-◌, ◌≤◌, ◌<◌, ◌≡◌, refl, sym, ap, subst, ◌∙◌, Bool, true, false, ◌||◌,
  List, [], ◌∷◌, append-nil, arith, ltb, ◌==◌, length, All, take, replicate, if◌then◌else◌,
  usize_mod, ltb→le, le→ltb, ==_refl, take-length_append,
}
use rs_lxmflite.Base.Bytes.{IsBytes}
use rs_lxmflite.Base.Result.{
  ok, refuse, >>=-eq-ok, refuse-eq-ok, duplicate_field, malformed_payload, too_many_fields,
}
use rs_lxmflite.Base.Result.{LxmfError, Result-cases, ok_injective, err}
use rs_lxmflite.MsgPack.{skip_value}
use rs_lxmflite.MsgPack.Grammar.{IsValue}
use rs_lxmflite.MsgPack.Sound.{skip_value_sound}
use rs_lxmflite.MsgPack.Complete.{skip_value-IsValue}
use rs_lxmflite.Payload.{EncodedField, is_present, field_set_loop, encoded_field_set}
use rs_lxmflite.Payload.Bits.{
  IsBits, marked, is_present-marked, marked-IsBits, empty-IsBits, is_present-empty,
}

-- What the types of the source give: a `u8`, and a slice.
pub record IsTyped (field : EncodedField) : Type 0 where
  pub id_fits : field.0 < 256
  pub bytes : IsBytes field.1
  pub short : length field.1 < 2147483648

abbrev pub occurs : ℕ → List EncodedField → Bool
occurs id [] = false
occurs id ((k, value) ∷ fields) = k == id || occurs id fields

-- No id occurs twice, nor among those that `seen` has.
abbrev pub Distinct : (ℕ → Bool) → List EncodedField → Type 0
Distinct seen [] = Unit
Distinct seen ((id, value) ∷ fields) = (seen id ≡ false) × Distinct (λ k. id == k || seen k) fields

-- Every value is one complete value, with at most eight levels of nesting.
abbrev pub AreValues : List EncodedField → Type 0
AreValues = All (λ field. IsValue 8 field.1)

or_false : (b : Bool) → b || false ≡ b
or_false true = refl
or_false false = refl

take-length : (xs : List ℕ) → take (length xs) xs ≡ xs
take-length xs =
    ap (take (length xs)) (sym (append-nil xs)) ∙ take-length_append (length xs) xs [] refl

whole_sound :
    (value : List ℕ)
    → IsBytes value
    → length value < usize_mod
    → skip_value value 0 1 ≡ ok (length value)
    → IsValue 8 value
whole_sound value bytes short h =
    subst (IsValue 8)
      (ap (λ n. take n value) {x = length value - 0} {y = length value} (omega arith)
        ∙ take-length value)
      (skip_value_sound value 0 1 (length value) short bytes h)

whole_complete :
    (value : List ℕ)
    → IsBytes value
    → length value < usize_mod
    → IsValue 8 value
    → skip_value value 0 1 ≡ ok (length value)
whole_complete value bytes short v =
    skip_value-IsValue value 0 1 value [] short bytes
      (record { reads = sym (append-nil value); inside = omega arith }) v
    ∙ ap ok {x = 0 + length value} {y = length value} (omega arith)

-- The set of the ids that `seen` has.
abbrev pub Marks : List ℕ → (ℕ → Bool) → Type 0
Marks present seen = (id : ℕ) → is_present present id ≡ seen id

-- Everything that the loop passes is distinct and a value.
loop_sound :
    (fields : List EncodedField) (present : List ℕ) (seen : ℕ → Bool) {present' : List ℕ}
    → All IsTyped fields
    → IsBits present
    → Marks present seen
    → field_set_loop present fields ≡ ok present'
    → Distinct seen fields × AreValues fields
unfolding field_set_loop
loop_sound [] present seen t b m h = (tt, tt)
loop_sound ((id, value) ∷ fields) present seen (t, ts) b m h =
    let (u, fresh, h1) = >>=-eq-ok (refuse (is_present present id) duplicate_field) _ h in
    let (end, skipped, h2) = >>=-eq-ok (skip_value value 0 1) _ h1 in
    let (u', exact, h3) =
      >>=-eq-ok (refuse (if end == length value then false else true) malformed_payload) _ h2 in
    let all : end ≡ length value = ground arith in
    let (d, vs) =
      loop_sound fields (marked present id) (λ k. id == k || seen k) ts
        (marked-IsBits present id b t.id_fits)
        (λ k. is_present-marked present id k b t.id_fits ∙ ap (λ c. id == k || c) (m k)) h3 in
    (
      (sym (m id) ∙ refuse-eq-ok (is_present present id) duplicate_field fresh, d),
      (whole_sound value t.bytes (omega (arith, t.short)) (skipped ∙ ap ok all), vs),
    )

-- The loop passes everything that is, and adds the ids to the set.
loop_complete :
    (fields : List EncodedField) (present : List ℕ) (seen : ℕ → Bool)
    → All IsTyped fields
    → IsBits present
    → Marks present seen
    → Distinct seen fields
    → AreValues fields
    → (present' : List ℕ) × (field_set_loop present fields ≡ ok present')
      × Marks present' (λ id. occurs id fields || seen id)
unfolding field_set_loop
loop_complete [] present seen t b m d v = (present, refl, m)
loop_complete ((id, value) ∷ fields) present seen (t, ts) b m (fresh, d) (v, vs) =
    let (present', e, m') =
      loop_complete fields (marked present id) (λ k. id == k || seen k) ts
        (marked-IsBits present id b t.id_fits)
        (λ k. is_present-marked present id k b t.id_fits ∙ ap (λ c. id == k || c) (m k)) d vs in
    (
      present',
      rw
          (
            m id,
            fresh,
            whole_complete value t.bytes (omega (arith, t.short)) v,
            ==_refl (length value),
          )
          e,
      λ k. ground (arith, m' k),
    )

-- At most 64 fields with distinct ids, each with one complete value.
abbrev pub IsFieldSet : List EncodedField → Type 0
IsFieldSet fields = (length fields ≤ 64) × Distinct (λ id. false) fields × AreValues fields

pub encoded_field_set_sound :
    (fields : List EncodedField) (present : List ℕ)
    → All IsTyped fields
    → encoded_field_set fields ≡ ok present
    → IsFieldSet fields
unfolding encoded_field_set
encoded_field_set_sound fields present t h =
    let (u, few, h1) = >>=-eq-ok (refuse (ltb 64 (length fields)) too_many_fields) _ h in
    let (d, vs) =
      loop_sound fields (replicate 32 0) (λ id. false) t empty-IsBits is_present-empty h1 in
    (ltb→le 64 (length fields) (refuse-eq-ok (ltb 64 (length fields)) too_many_fields few), d, vs)

pub encoded_field_set_complete :
    (fields : List EncodedField)
    → All IsTyped fields
    → IsFieldSet fields
    → (present : List ℕ) × (encoded_field_set fields ≡ ok present)
      × Marks present (λ id. occurs id fields)
unfolding encoded_field_set
encoded_field_set_complete fields t (few, d, vs) =
    let (present, e, m) =
      loop_complete fields (replicate 32 0) (λ id. false) t empty-IsBits is_present-empty d vs in
    (present, rw (le→ltb 64 (length fields) few) e, λ id. m id ∙ or_false (occurs id fields))

-- The set that is answered has exactly the ids of the fields.
pub encoded_field_set-Marks :
    (fields : List EncodedField) (present : List ℕ)
    → All IsTyped fields
    → encoded_field_set fields ≡ ok present
    → Marks present (λ id. occurs id fields)
encoded_field_set-Marks fields present t h =
    let (present', e, m) =
      encoded_field_set_complete fields t (encoded_field_set_sound fields present t h) in
    subst (λ p. Marks p (λ id. occurs id fields)) (ok_injective (sym e ∙ h)) m

-- Either `encoded_field_set` accepts, and the fields are at most 64 with distinct ids, each with one
-- complete value nested at most eight levels deep, and the set that it answers has exactly their ids;
-- or it answers an error, and the fields are not so. The ids are bytes, and the values slices
-- of bytes.
pub encoded_field_set_decides :
    (fields : List EncodedField)
    → All IsTyped fields
    → ((present : List ℕ) × (encoded_field_set fields ≡ ok present)
        × IsFieldSet fields
        × Marks present (λ id. occurs id fields))
      ⊎ ((e : LxmfError) × (encoded_field_set fields ≡ err e) × (¬ IsFieldSet fields))
encoded_field_set_decides fields t = elim (Result-cases (encoded_field_set fields)) [
  | inl (present, h) ↦ inl (
    present,
    h,
    encoded_field_set_sound fields present t h,
    encoded_field_set-Marks fields present t h,
  )
  | inr (e, h) ↦
      inr (e, h, λ set. let (present, h', m) = encoded_field_set_complete fields t set in cc)
]
