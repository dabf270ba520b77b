-- ===== src/Payload/Bits.antt =====
-- src/lxmf.rs: the set of ids of `encoded_field_set`, one bit for each.
use rs_lxmflite.Base.{
  ℕ, zero, suc, ◌+◌, ◌*◌, ◌/◌, ◌%◌, ◌^◌, ◌<◌, ◌≡◌, refl, sym, ap, ◌∙◌, Bool, true, false, ◌||◌,
  bit_and, bit_or, List, [], ◌∷◌, arith, if◌then◌else◌, ◌==◌, length, get_or, set, replicate,
  length-set, ℕ_discrete, ne→==,
}
use rs_lxmflite.Base.Tables.{agree_below, agree_below_sound}
use rs_lxmflite.Payload.{is_present}

-- One where the number is not zero.
abbrev flag : ℕ → ℕ
flag zero = 0
flag (suc n) = 1

-- A byte, the bit that is set in it and the bit that is read, in one number.
abbrev read_after : ℕ → ℕ
read_after i = flag (bit_and (bit_or (i / 64) (2 ^ (i / 8 % 8))) (2 ^ (i % 8)))

abbrev read_before : ℕ → ℕ
read_before i = if i / 8 % 8 == i % 8 then 1 else flag (bit_and (i / 64) (2 ^ (i % 8)))

abbrev byte_after : ℕ → ℕ
byte_after i = bit_or (i / 8) (2 ^ (i % 8)) / 256

after_table : (i : ℕ) → i < 16384 → read_after i ≡ read_before i
unfolding agree_below
after_table = agree_below_sound read_after read_before 16384 refl

byte_table : (i : ℕ) → i < 2048 → byte_after i ≡ 0
unfolding agree_below
byte_table = agree_below_sound byte_after (λ i. 0) 2048 refl

bit_or-IsByte : (b k : ℕ) → b < 256 → k < 8 → bit_or b (2 ^ k) < 256
bit_or-IsByte b k h l =
    let packed = byte_table (8 * b + k) (omega arith) in
    let high : (8 * b + k) / 8 ≡ b = omega arith in
    let low : (8 * b + k) % 8 ≡ k = omega arith in
    let zero_above : bit_or b (2 ^ k) / 256 ≡ 0 = rw (high, low) at packed in
    omega (arith, zero_above)

-- Setting the bit `k` leaves the others.
bit_after :
    (b k j : ℕ)
    → b < 256
    → k < 8
    → j < 8
    → flag (bit_and (bit_or b (2 ^ k)) (2 ^ j)) ≡ (if k == j then 1 else flag (bit_and b (2 ^ j)))
bit_after b k j h l m =
    let packed = after_table (64 * b + 8 * k + j) (omega arith) in
    let high : (64 * b + 8 * k + j) / 64 ≡ b = omega arith in
    let mid : (64 * b + 8 * k + j) / 8 % 8 ≡ k = omega arith in
    let low : (64 * b + 8 * k + j) % 8 ≡ j = omega arith in rw (high, mid, low) at packed

get_or-set :
    (xs : List ℕ) (i j v d : ℕ)
    → i < length xs
    → get_or (set xs i v) j d ≡ (if i == j then v else get_or xs j d)
get_or-set [] i j v d h = absurd (omega arith)
get_or-set (x ∷ xs) zero zero v d h = refl
get_or-set (x ∷ xs) zero (suc j) v d h = ground arith
get_or-set (x ∷ xs) (suc i) zero v d h = ground arith
get_or-set (x ∷ xs) (suc i) (suc j) v d h = ground (arith, get_or-set xs i j v d)

-- 32 bytes.
pub record IsBits (present : List ℕ) : Type 0 where
  pub size : length present ≡ 32
  pub bytes : (i : ℕ) → get_or present i 0 < 256

-- The set with one more id.
abbrev pub marked : List ℕ → ℕ → List ℕ
marked present id = set present (id / 8) (bit_or (get_or present (id / 8) 0) (2 ^ (id % 8)))

flag_test : (n : ℕ) → (if n == 0 then false else true) ≡ (flag n == 1)
flag_test zero = refl
flag_test (suc n) = ground arith

is_present-flag :
    (present : List ℕ) (id : ℕ)
    → is_present present id ≡ (flag (bit_and (get_or present (id / 8) 0) (2 ^ (id % 8))) == 1)
unfolding is_present
is_present-flag present id = flag_test (bit_and (get_or present (id / 8) 0) (2 ^ (id % 8)))

same_byte : (id id' : ℕ) → id / 8 ≡ id' / 8 → (id == id') ≡ (id % 8 == id' % 8)
same_byte id id' e = elim (ℕ_discrete id id') [
  | yes p ↦ ground (arith, ap (λ x. x % 8) p)
  | no n ↦ ne→== id id' n ∙ sym (ne→== (id % 8) (id' % 8) (λ q. n (omega (arith, e, q))))
]

one_or : (c : Bool) (n : ℕ) → ((if c then 1 else n) == 1) ≡ c || (n == 1)
one_or true n = refl
one_or false n = refl

-- Marking an id adds it to the set, and changes nothing else.
pub is_present-marked :
    (present : List ℕ) (id id' : ℕ)
    → IsBits present
    → id < 256
    → is_present (marked present id) id' ≡ (id == id') || is_present present id'
is_present-marked present id id' bits small =
    let there =
      get_or-set present (id / 8) (id' / 8) (bit_or (get_or present (id / 8) 0) (2 ^ (id % 8))) 0
        (omega (arith, bits.size)) in
    let bit =
      bit_after (get_or present (id / 8) 0) (id % 8) (id' % 8) (bits.bytes (id / 8)) (omega arith)
        (omega arith) in
    elim (ℕ_discrete (id / 8) (id' / 8)) [
      | yes e ↦
          let at_id : get_or (marked present id) (id' / 8) 0
              ≡ bit_or (get_or present (id / 8) 0) (2 ^ (id % 8)) =
            ground (arith, there, e) in
          let bits_tell : (id == id') ≡ (id % 8 == id' % 8) = same_byte id id' e in
          rw
            (
              is_present-flag (marked present id) id',
              at_id,
              bit,
              is_present-flag present id',
              ← e,
              bits_tell,
            )
            (one_or (id % 8 == id' % 8) _)
      | no n ↦
          let apart : (id == id') ≡ false = ne→== id id' (λ p. n (ap (λ x. x / 8) p)) in
          rw (is_present-flag (marked present id) id', there, ne→== (id / 8) (id' / 8) n, apart)
            (sym (is_present-flag present id'))
    ]

pub marked-IsBits :
    (present : List ℕ) (id : ℕ) → IsBits present → id < 256 → IsBits (marked present id)
marked-IsBits present id bits small = record {
  size = length-set present (id / 8) _ ∙ bits.size;
  bytes = λ i.
      let there =
        get_or-set present (id / 8) i (bit_or (get_or present (id / 8) 0) (2 ^ (id % 8))) 0
          (omega (arith, bits.size)) in
      ground (
        arith,
        there,
        bits.bytes i,
        bit_or-IsByte (get_or present (id / 8) 0) (id % 8) (bits.bytes (id / 8)) (omega arith),
      );
}

no_bits : (n i : ℕ) → get_or {A = ℕ} (replicate n 0) i 0 ≡ 0
no_bits zero i = refl
no_bits (suc n) zero = refl
no_bits (suc n) (suc i) = no_bits n i

pub empty-IsBits : IsBits (replicate 32 0)
empty-IsBits = record { size = refl; bytes = λ i. omega (arith, no_bits 32 i) }

bit_and-zero : (j : ℕ) → j < 8 → bit_and 0 (2 ^ j) ≡ 0
unfolding agree_below
bit_and-zero = agree_below_sound (λ j. bit_and 0 (2 ^ j)) (λ j. 0) 8 refl

pub is_present-empty : (id : ℕ) → is_present (replicate 32 0) id ≡ false
is_present-empty id =
    rw
      (
        is_present-flag (replicate 32 0) id,
        no_bits 32 (id / 8),
        bit_and-zero (id % 8) (omega arith),
      )
      refl
