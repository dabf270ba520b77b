-- ===== src/Fields/Keys.antt =====
-- The integer keys of the outer map by the format's own description, and `read_field_id` against it.
use rs_lxmflite.Base.{
  ℕ, zero, suc, ◌+◌, ◌-◌, ◌*◌, ◌≤◌, ◌<◌, ◌≡◌, refl, sym, ap, ap₂, le→ltb, ◌∙◌, subst, Bool, true,
  false, ◌&&◌, Option, none, some, List, [], ◌∷◌, arith, leb, if◌then◌else◌, length, get_or, slice,
  Bool-cases, take, All-take, All-drop, length-take, length-drop, take-append-drop, dec_le,
  ℕ_discrete, ne→==, drop, inl, inr, lt→ltb, lt→leb, le→leb, leb→le, leb→lt,
}
use rs_lxmflite.Base.Int.{ℤ, pos, negsuc}
use rs_lxmflite.Base.Bytes.{IsByte, IsBytes, be_from, be_value, weight, be_from-add, be_value-bound}
use rs_lxmflite.Base.Slices.{ReadsAt, ReadsAt-bound, ReadsAt-skip, get_or-ReadsAt, slice-ReadsAt}
use rs_lxmflite.Fields.{
  from_i8, field_id_try_from, push_byte, push_bytes, id_width, wide_id, read_field_id,
}

-- The integer formats with a marker of their own: the marker, the number of bytes behind it, and
-- whether they are signed.
pub data IntForm : ℕ → ℕ → Bool → Type 0 where
  uint8_form : IntForm 0xcc 1 false
  uint16_form : IntForm 0xcd 2 false
  uint32_form : IntForm 0xce 4 false
  uint64_form : IntForm 0xcf 8 false
  int8_form : IntForm 0xd0 1 true
  int16_form : IntForm 0xd1 2 true
  int32_form : IntForm 0xd2 4 true
  int64_form : IntForm 0xd3 8 true

-- Big-endian bytes as an integer, in two's complement where they are signed.
pub data Encodes : Bool → List ℕ → ℤ → Type 0 where
  unsigned_bytes : {bs : List ℕ} → Encodes false bs (pos (be_value bs))
  sign_clear : {bs : List ℕ} → get_or bs 0 0 < 0x80 → Encodes true bs (pos (be_value bs))
  sign_set :
      {bs : List ℕ} {n : ℕ}
      → 0x80 ≤ get_or bs 0 0
      → n + 1 + be_value bs ≡ weight (length bs)
      → Encodes true bs (negsuc n)

-- An integer, and an encoding of it.
pub data Key : ℤ → List ℕ → Type 0 where
  positive : {n : ℕ} → n ≤ 0x7f → Key (pos n) (n ∷ [])
  negative : {n b : ℕ} → n < 32 → b + n ≡ 255 → Key (negsuc n) (b ∷ [])
  wide :
      {b : ℕ} {bs : List ℕ} {signed : Bool} {key : ℤ}
      → IntForm b (length bs) signed
      → Encodes signed bs key
      → Key key (b ∷ bs)

Encodes-unique :
    {signed : Bool} {bs : List ℕ} {j k : ℤ} → Encodes signed bs j → Encodes signed bs k → j ≡ k
Encodes-unique unsigned_bytes unsigned_bytes = refl
Encodes-unique (sign_clear h) (sign_clear k) = refl
Encodes-unique (sign_clear h) (sign_set k e) = absurd (omega arith)
Encodes-unique (sign_set k e) (sign_clear h) = absurd (omega arith)
Encodes-unique (sign_set {n = m} k e) (sign_set {n = n} k' e') = ap negsuc (omega arith)

push_bytes-pos : (v : ℕ) (bs : List ℕ) → push_bytes (pos v) bs ≡ pos (be_from v bs)
unfolding push_bytes push_byte
push_bytes-pos v [] = refl
push_bytes-pos v (b ∷ bs) = push_bytes-pos (v * 256 + b) bs

-- From below zero, the bytes count from the bottom.
push_bytes-negsuc :
    (n : ℕ) (bs : List ℕ)
    → IsBytes bs
    → (m : ℕ) × (push_bytes (negsuc n) bs ≡ negsuc m)
      × (m + 1 + be_value bs ≡ (n + 1) * weight (length bs))
unfolding push_bytes push_byte
push_bytes-negsuc n [] h = (n, refl, omega arith)
push_bytes-negsuc n (b ∷ bs) (hb, h) =
    let n' = suc n * 256 - b - 1 in
    let (m, e, total) = push_bytes-negsuc n' bs h in
    let more = be_from-add bs 0 b in
    let low : n' + 1 + b ≡ (n + 1) * 256 = omega arith in
    (m, e, grind (arith, more, total, low, ap (λ k. k * weight (length bs)) low))

in_range-pos : (v : ℕ) → v < 18446744073709551616 → field_id_try_from (pos v) ≡ some (pos v)
unfolding field_id_try_from
in_range-pos v h = rw (lt→ltb v 18446744073709551616 h) refl

in_range-negsuc : (n : ℕ) → n < 9223372036854775808 → field_id_try_from (negsuc n) ≡ some (negsuc n)
unfolding field_id_try_from
in_range-negsuc n h = rw (lt→ltb n 9223372036854775808 h) refl

IntForm-weight : {b w : ℕ} {signed : Bool} → IntForm b w signed → weight w ≤ 18446744073709551616
IntForm-weight uint8_form = omega arith
IntForm-weight uint16_form = omega arith
IntForm-weight uint32_form = omega arith
IntForm-weight uint64_form = omega arith
IntForm-weight int8_form = omega arith
IntForm-weight int16_form = omega arith
IntForm-weight int32_form = omega arith
IntForm-weight int64_form = omega arith

-- Where the first byte has its high bit, the bytes count for half of what they can, at least.
high_half : (bs : List ℕ) → 0x80 ≤ get_or bs 0 0 → weight (length bs) ≤ 2 * be_value bs
high_half [] h = absurd (omega arith)
high_half (b ∷ bs) h =
    let start : be_value (b ∷ bs) ≡ be_from b bs =
      ap (λ v. be_from v bs) {x = 0 * 256 + b} {y = b} (omega arith) in
    omega (
      arith,
      start,
      be_from-add bs 0 128,
      be_from-add bs 128 (b - 128),
      ap (λ v. be_from v bs) {x = 128 + (b - 128)} {y = b} (omega arith),
      ap (λ v. be_from v bs) {x = 0 + 128} {y = 128} (omega arith),
    )

-- What the reader makes of the bytes of a form.
abbrev form_key : Bool → List ℕ → ℤ
form_key signed bs = push_bytes (if signed && leb 0x80 (get_or bs 0 0) then negsuc 0 else pos 0) bs

clear_value :
    (bs : List ℕ)
    → weight (length bs) ≤ 18446744073709551616
    → IsBytes bs
    → field_id_try_from (pos (be_value bs)) ≡ some (pos (be_value bs))
clear_value bs top h = in_range-pos (be_value bs) (omega (arith, be_value-bound bs h))

-- The bytes of a form stand for an integer that a field id can have.
form_value :
    (signed : Bool) (bs : List ℕ)
    → weight (length bs) ≤ 18446744073709551616
    → IsBytes bs
    → (key : ℤ) × (form_key signed bs ≡ key)
      × (field_id_try_from key ≡ some key)
      × Encodes signed bs key
form_value false bs top h =
    (pos (be_value bs), push_bytes-pos 0 bs, clear_value bs top h, unsigned_bytes)
form_value true bs top h = elim (Bool-cases (leb 0x80 (get_or bs 0 0))) [
  | inr low ↦ (
    pos (be_value bs),
    rw low (push_bytes-pos 0 bs),
    clear_value bs top h,
    sign_clear (leb→lt 0x80 (get_or bs 0 0) low),
  )
  | inl high ↦
      let first = leb→le 0x80 (get_or bs 0 0) high in
      let (m, e, total) = push_bytes-negsuc 0 bs h in
      (
        negsuc m,
        rw high e,
        in_range-negsuc m (omega (arith, total, high_half bs first)),
        sign_set first (omega (arith, total)),
      )
]

id_width-IntForm : {b w : ℕ} {signed : Bool} → IntForm b w signed → id_width b ≡ some (w, signed)
unfolding id_width
id_width-IntForm uint8_form = refl
id_width-IntForm uint16_form = refl
id_width-IntForm uint32_form = refl
id_width-IntForm uint64_form = refl
id_width-IntForm int8_form = refl
id_width-IntForm int16_form = refl
id_width-IntForm int32_form = refl
id_width-IntForm int64_form = refl

IntForm-between : {b w : ℕ} {signed : Bool} → IntForm b w signed → (0xcc ≤ b) × (b < 0xd4)
IntForm-between uint8_form = omega arith
IntForm-between uint16_form = omega arith
IntForm-between uint32_form = omega arith
IntForm-between uint64_form = omega arith
IntForm-between int8_form = omega arith
IntForm-between int16_form = omega arith
IntForm-between int32_form = omega arith
IntForm-between int64_form = omega arith

-- A key is read wherever it stands: its integer, and the position behind it.
pub read_field_id-Key :
    (dat : List ℕ) (at : ℕ) (k back : List ℕ) (key : ℤ)
    → ReadsAt dat at k back
    → IsBytes k
    → Key key k
    → read_field_id dat at ≡ some (key, at + length k)
unfolding read_field_id from_i8 wide_id
read_field_id-Key dat at k back key r h (positive {n} low) =
    rw
      (
        lt→leb (length dat) at (omega (arith, ReadsAt-bound r)),
        get_or-ReadsAt 0 r,
        le→leb n 0x7f low,
      )
      refl
read_field_id-Key dat at k back key r h (negative {n} {b} low e) =
    let up : (255 - b) ≡ n = omega arith in
    rw
      (
        lt→leb (length dat) at (omega (arith, ReadsAt-bound r)),
        get_or-ReadsAt 0 r,
        lt→leb b 0x7f (omega arith),
        le→leb 0xe0 b (omega arith),
        le→ltb b 128 (omega arith),
        up,
      )
      refl
read_field_id-Key dat at k back key r h (wide {b} {bs} {signed} f enc) =
    let between = IntForm-between f in
    let (key', made, range, enc') = form_value signed bs (IntForm-weight f) h.1 in
    let same = Encodes-unique enc' enc in
    let body =
      slice-ReadsAt (at + 1 + length bs) refl (ReadsAt-skip (b ∷ []) bs back (at + 1) refl r) in
    let value : form_key signed (slice dat (at + 1) (at + 1 + length bs)) ≡ key' =
      ap (form_key signed) body ∙ made in
    rw
      (
        lt→leb (length dat) at (omega (arith, ReadsAt-bound r)),
        get_or-ReadsAt 0 r,
        lt→leb b 0x7f (omega arith),
        lt→leb 0xe0 b (omega arith),
        id_width-IntForm f,
        value,
        le→ltb (length dat) (at + 1 + length bs) (omega (arith, ReadsAt-bound r)),
        range,
      )
      (ap₂ (λ (j : ℤ) (n : ℕ). some (j, n)) same (omega arith))

-- The marker of a form, or none.
data FormOf (b : ℕ) : Type 0 where
  a_form : (w : ℕ) (signed : Bool) → IntForm b w signed → FormOf b
  no_form : id_width b ≡ none → FormOf b

form_at : (b c w : ℕ) (signed : Bool) → IntForm c w signed → b ≡ c → FormOf b
form_at b c w signed f e = a_form w signed (subst (λ m. IntForm m w signed) (sym e) f)

form_of : (b : ℕ) → FormOf b
unfolding id_width
form_of b = elim (ℕ_discrete b 0xcc) [
  | yes e ↦ form_at b 0xcc 1 false uint8_form e
  | no n0 ↦ elim (ℕ_discrete b 0xcd) [
    | yes e ↦ form_at b 0xcd 2 false uint16_form e
    | no n1 ↦ elim (ℕ_discrete b 0xce) [
      | yes e ↦ form_at b 0xce 4 false uint32_form e
      | no n2 ↦ elim (ℕ_discrete b 0xcf) [
        | yes e ↦ form_at b 0xcf 8 false uint64_form e
        | no n3 ↦ elim (ℕ_discrete b 0xd0) [
          | yes e ↦ form_at b 0xd0 1 true int8_form e
          | no n4 ↦ elim (ℕ_discrete b 0xd1) [
            | yes e ↦ form_at b 0xd1 2 true int16_form e
            | no n5 ↦ elim (ℕ_discrete b 0xd2) [
              | yes e ↦ form_at b 0xd2 4 true int32_form e
              | no n6 ↦ elim (ℕ_discrete b 0xd3) [
                | yes e ↦ form_at b 0xd3 8 true int64_form e
                | no n7 ↦ no_form (
                    rw
                      (
                        ne→== b 0xcc n0,
                        ne→== b 0xcd n1,
                        ne→== b 0xce n2,
                        ne→== b 0xcf n3,
                        ne→== b 0xd0 n4,
                        ne→== b 0xd1 n5,
                        ne→== b 0xd2 n6,
                        ne→== b 0xd3 n7,
                      )
                      refl)
              ]
            ]
          ]
        ]
      ]
    ]
  ]
]

drop-inside :
    (dat : List ℕ) (at : ℕ) → at < length dat → (m : ℕ) × (tail : List ℕ) × (drop at dat ≡ m ∷ tail)
drop-inside [] at h = absurd (omega arith)
drop-inside (d ∷ dat) zero h = (d, dat, refl)
drop-inside (d ∷ dat) (suc at) h = drop-inside dat at (omega arith)

-- A key that has been read, where it stands.
pub record KeyAt (dat : List ℕ) (at after : ℕ) (key : ℤ) : Type 0 where
  pub bytes : List ℕ
  pub back : List ℕ
  pub stands : ReadsAt dat at bytes back
  pub encodes : Key key bytes
  pub width : after ≡ at + length bytes

KeyAt-found :
    (dat : List ℕ) (at : ℕ) (k back : List ℕ) (key key' : ℤ) (after : ℕ)
    → ReadsAt dat at k back
    → IsBytes k
    → Key key' k
    → read_field_id dat at ≡ some (key, after)
    → KeyAt dat at after key
KeyAt-found dat at k back key key' after r h e got =
    let same : some (key', at + length k) ≡ some (key, after) =
      sym (read_field_id-Key dat at k back key' r h e) ∙ got in
    let both = some_injective same in
    record {
      bytes = k;
      back = back;
      stands = r;
      encodes = subst (λ j. Key j k) (ap (λ p. p.0) both) e;
      width = sym (ap (λ p. p.1) both);
    }
  where
    some_injective : {p q : ℤ × ℕ} → some p ≡ some q → p ≡ q
    some_injective e = cc

inside-read : (dat : List ℕ) (at : ℕ) {p : ℤ × ℕ} → read_field_id dat at ≡ some p → at < length dat
unfolding read_field_id
inside-read dat at h = elim (Bool-cases (leb (length dat) at)) [
  | inl over ↦ absurd (impossible (rw over at h))
  | inr inside ↦ leb→lt (length dat) at inside
]
  where
    impossible : {p : ℤ × ℕ} → none ≡ some p → ⊥
    impossible e = cc

read-wide :
    (dat : List ℕ) (at m : ℕ)
    → at < length dat
    → get_or dat at 0 ≡ m
    → 0x7f < m
    → m < 0xe0
    → read_field_id dat at ≡ wide_id dat at (id_width m)
unfolding read_field_id
read-wide dat at m inside e low high =
    rw (lt→leb (length dat) at inside, e, lt→leb m 0x7f low, lt→leb 0xe0 m high) refl

wide_id-short :
    (dat : List ℕ) (at w : ℕ) (signed : Bool)
    → length dat < at + 1 + w
    → wide_id dat at (some (w, signed)) ≡ none
unfolding wide_id
wide_id-short dat at w signed h = rw (lt→ltb (length dat) (at + 1 + w) h) refl

wide_id-none : (dat : List ℕ) (at : ℕ) → wide_id dat at none ≡ none
unfolding wide_id
wide_id-none dat at = refl

refused : {A : Type 0} {r : Option (ℤ × ℕ)} {p : ℤ × ℕ} → r ≡ some p → r ≡ none → A
refused h e = cc

-- Whatever is read as a key is one.
pub read_field_id_sound :
    (dat : List ℕ) (at after : ℕ) (key : ℤ)
    → IsBytes dat
    → read_field_id dat at ≡ some (key, after)
    → KeyAt dat at after key
read_field_id_sound dat at after key bytes h =
    let inside = inside-read dat at h in
    let (m, tail, e) = drop-inside dat at inside in
    let octets : IsBytes (m ∷ tail) = subst IsBytes e (All-drop IsByte at dat bytes) in
    let one : ReadsAt dat at (m ∷ []) tail = record { reads = e; inside = omega arith } in
    elim (dec_le m 0x7f) [
      | yes low ↦
          KeyAt-found dat at (m ∷ []) tail key (pos m) after one (octets.0, tt) (positive low) h
      | no over ↦ elim (dec_le 0xe0 m) [
        | yes high ↦
            KeyAt-found dat at (m ∷ []) tail key (negsuc (255 - m)) after one (octets.0, tt)
              (negative (omega arith) (omega (arith, octets.0))) h
        | no under ↦
            let wider =
              read-wide dat at m inside (get_or-ReadsAt 0 one) (omega arith) (omega arith) in
            elim (form_of m) [
              | no_form x ↦ refused h (wider ∙ ap (wide_id dat at) x ∙ wide_id-none dat at)
              | a_form w signed f ↦ elim (dec_le (at + 1 + w) (length dat)) [
                | no short ↦ refused h (
                    wider
                    ∙ ap (wide_id dat at) (id_width-IntForm f)
                    ∙ wide_id-short dat at w signed (omega arith))
                | yes fits ↦
                    let bs = take w tail in
                    let width : w ≡ length bs =
                      omega (arith, length-take w tail, length-drop at dat, ap length e) in
                    let form : IntForm m (length bs) signed =
                      subst (λ n. IntForm m n signed) width f in
                    let body = All-take IsByte w tail octets.1 in
                    let (key', made, range, enc) =
                      form_value signed bs (IntForm-weight form) body in
                    KeyAt-found dat at (m ∷ bs) (drop w tail) key key' after
                      (record {
                        reads = e ∙ ap (λ t. m ∷ t) (sym (take-append-drop w tail));
                        inside = omega arith;
                      })
                      (octets.0, body) (wide form enc) h
              ]
            ]
      ]
    ]
