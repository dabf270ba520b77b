-- ===== src/Fields/Entries.antt =====
-- The outer map as a list of entries, and both validators against it.
use rs_lxmflite.Base.{
  ℕ, zero, suc, ◌+◌, ◌-◌, ◌/◌, ◌≤◌, ◌<◌, ◌≡◌, inl, inr, refl, sym, ap, ◌∙◌, Bool, true, false, ◌||◌,
  Bool-cases, some, Option-cases, List, [], ◌∷◌, ◌++◌, arith, ltb, length, set, take, slice,
  length-set, le→ltb, ltb→le, length-append,
}
use rs_lxmflite.Base.Int.{ℤ, int_eq}
use rs_lxmflite.Base.Result.{
  Result, ok, ◌>>=◌, ◌>>◌, ok_or, refuse, Result-cases, malformed_payload, duplicate_field,
}
use rs_lxmflite.MsgPack.{skip_value}
use rs_lxmflite.Fields.{
  read_field_id, read_map_header, contains, validate_loop, at_end, validate_fields, prior_loop,
  pairs_loop, validate_fields_without_scratch,
}

-- One pass that knows the keys seen so far: what both validators compute.
unfoldable pub check : List ℕ → List ℤ → ℕ → ℕ → Result ℕ
check fields seen zero at = ok at
check fields seen (suc n) at = do
  (key, after_key) ← ok_or (read_field_id fields at) malformed_payload
  refuse (contains seen key) duplicate_field
  at' ← skip_value fields after_key 0
  check fields (seen ++ (key ∷ [])) n at'

take-set :
    (keys : List ℤ) (index : ℕ) (key : ℤ)
    → index < length keys
    → take (suc index) (set keys index key) ≡ take index keys ++ (key ∷ [])
take-set [] index key h = absurd (omega arith)
take-set (k ∷ keys) zero key h = refl
take-set (k ∷ keys) (suc index) key h = ap (λ ks. k ∷ ks) (take-set keys index key (omega arith))

take-set_next :
    (keys : List ℤ) (index : ℕ) (key : ℤ)
    → index < length keys
    → take (index + 1) (set keys index key) ≡ take index keys ++ (key ∷ [])
take-set_next keys index key h =
    ap (λ n. take n (set keys index key)) {y = suc index} (omega arith) ∙ take-set keys index key h

-- With the scratch, the keys seen are those at its front.
pub validate_loop-check :
    (fields : List ℕ) (n index at : ℕ) (keys : List ℤ)
    → index + n ≤ length keys
    → (validate_loop fields n index at keys).0 ≡ check fields (take index keys) n at
unfolding validate_loop check
validate_loop-check fields zero index at keys h = refl
validate_loop-check fields (suc n) index at keys h = elim (Option-cases (read_field_id fields at)) [
  | inl e ↦ ground arith
  | inr ((key, after_key), e) ↦ elim (Result-cases (skip_value fields after_key 0)) [
    | inr (x, s) ↦ ground arith
    | inl (at', s) ↦
        let front = take-set_next keys index key (omega arith) in
        let ih =
          validate_loop-check fields n (index + 1) at' (set keys index key)
            (omega (arith, length-set keys index key)) in
        ground (arith, ap (λ ks. check fields ks n at') front)
  ]
]

abbrev pub Entry : Type 0
Entry = ℤ × List ℕ

abbrev pub keys_of : List Entry → List ℤ
keys_of [] = []
keys_of ((key, value) ∷ es) = key ∷ keys_of es

-- From `p` on stand the entries `es`, keys and encoded values, and the last of them ends at `q`.
pub data Walks (fields : List ℕ) : ℕ → List Entry → ℕ → Type 0 where
  here : {p : ℕ} → Walks fields p [] p
  entry :
      {p q r : ℕ} {key : ℤ} {value : List ℕ} {es : List Entry} (after_key : ℕ)
      → read_field_id fields p ≡ some (key, after_key)
      → skip_value fields after_key 0 ≡ ok q
      → value ≡ slice fields after_key q
      → Walks fields q es r
      → Walks fields p ((key, value) ∷ es) r

Walks-snoc :
    {fields : List ℕ} {p q r after_key : ℕ} {key : ℤ} {es : List Entry}
    → Walks fields p es q
    → read_field_id fields q ≡ some (key, after_key)
    → skip_value fields after_key 0 ≡ ok r
    → Walks fields p (es ++ ((key, slice fields after_key r) ∷ [])) r
Walks-snoc {after_key} here e s = entry after_key e s refl here
Walks-snoc (entry a e' s' v w) e s = entry a e' s' v (Walks-snoc w e s)

keys_of-append : (es fs : List Entry) → keys_of (es ++ fs) ≡ keys_of es ++ keys_of fs
keys_of-append [] fs = refl
keys_of-append ((key, value) ∷ es) fs = ap (λ ks. key ∷ ks) (keys_of-append es fs)

refuse_or :
    (a b : Bool)
    → (refuse a duplicate_field >> refuse b duplicate_field) ≡ refuse (a || b) duplicate_field
refuse_or true b = refl
refuse_or false b = refl

-- Where the earlier entries can be walked, the inner loop only looks for the key among theirs.
prior_loop-Walks :
    {fields : List ℕ} {first at : ℕ} {es : List Entry} (key : ℤ)
    → Walks fields first es at
    → prior_loop fields key (length es) first ≡ refuse (contains (keys_of es) key) duplicate_field
unfolding prior_loop
prior_loop-Walks key here = refl
prior_loop-Walks key (entry {key = k} {es} a e s v w) =
    rw (e, s, prior_loop-Walks key w) (refuse_or (int_eq k key) (contains (keys_of es) key))

pub pairs_loop-check :
    (fields : List ℕ) (first n at : ℕ) (es : List Entry)
    → Walks fields first es at
    → pairs_loop fields first n (length es) at ≡ check fields (keys_of es) n at
unfolding pairs_loop check
pairs_loop-check fields first zero at es w = refl
pairs_loop-check fields first (suc n) at es w = elim (Option-cases (read_field_id fields at)) [
  | inl e ↦ ground arith
  | inr ((key, after_key), e) ↦ elim (Result-cases (skip_value fields after_key 0)) [
    | inr (x, s) ↦ ground (arith, prior_loop-Walks key w)
    | inl (at', s) ↦
        let last : List Entry = (key, slice fields after_key at') ∷ [] in
        let ih = pairs_loop-check fields first n at' (es ++ last) (Walks-snoc w e s) in
        let size : length (es ++ last) ≡ length es + 1 = omega (arith, length-append es last) in
        ground (
          arith,
          ap (λ k. pairs_loop fields first n k at') size,
          ap (λ ks. check fields ks n at') (keys_of-append es last),
          prior_loop-Walks key w,
        )
  ]
]

-- Where the map's header is readable and its count is not refused out of hand, the validator with a
-- scratch and the one without answer alike, the error included, whatever the scratch holds.
pub validate_fields-agrees :
    (fields : List ℕ) (keys : List ℤ) (first count : ℕ)
    → length keys ≡ 64
    → read_map_header fields ≡ some (first, count)
    → count ≤ (length fields - first) / 2
    → (validate_fields fields keys).0 ≡ validate_fields_without_scratch fields
unfolding validate_fields validate_fields_without_scratch
validate_fields-agrees fields keys first count len e h = elim (Bool-cases (ltb 64 count)) [
  | inl many ↦ rw (e, many, validate_fields)
  | inr few ↦
      let with_scratch : (validate_loop fields count 0 first keys).0 ≡ check fields [] count first =
        validate_loop-check fields count 0 first keys (omega (arith, ltb→le 64 count few)) in
      rw (e, validate_fields, few, le→ltb ((length fields - first) / 2) count h)
        (ap (at_end fields)
          (with_scratch ∙ sym (pairs_loop-check fields first count first [] here)))
]
