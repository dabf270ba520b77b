-- ===== src/Stamp/Nonce.antt =====
-- The nonce as a counter of as many bits as it has.
use rs_lxmflite.Base.{
  ℕ, suc, ap, ◌∙◌, Bool-cases, inl, inr, ◌+◌, ◌*◌, ◌%◌, ◌<◌, ◌≡◌, refl, sym, dec_le, le→leb, lt→leb,
  le→ltb, lt→ltb, ltb, Bool, List, [], ◌∷◌, arith, length, leb, if◌then◌else◌,
}
use rs_lxmflite.Base.Bytes.{IsBytes, be_value, be_from, weight, be_from-add, be_value-bound}
use rs_lxmflite.Stamp.{add_one, next_nonce}

pub length-add_one : (bs : List ℕ) → length (add_one bs).0 ≡ length bs
unfolding add_one
length-add_one [] = refl
length-add_one (b ∷ bs) = elim (Bool-cases (add_one bs).1) [
  | inl c ↦ rw c (ap suc (length-add_one bs))
  | inr c ↦ rw c (ap suc (length-add_one bs))
]

-- The weight of a carry out of the bytes.
abbrev carried : Bool → ℕ → ℕ
carried c n = if c then weight n else 0

carry_into :
    (b : ℕ) (next bs : List ℕ) (acc : ℕ)
    → b < 256
    → length next ≡ length bs
    → be_from (acc + b) next + weight (length bs) ≡ be_from (acc + b) bs + 1
    → be_from (acc + (b + 1) % 256) next + (if leb 256 (b + 1) then 256 * weight (length bs) else 0)
      ≡ be_from (acc + b) bs + 1
carry_into b next bs acc hb len ih = elim (dec_le 255 b) [
  | yes top ↦ rw (le→leb 256 (b + 1) (omega arith)) (
      omega (
        arith,
        be_from-add next acc 255,
        ap weight len,
        ap (λ t. be_from (acc + t) next) {x = b} {y = 255} (omega arith),
        ap (λ t. be_from (acc + t) next) {x = (b + 1) % 256} {y = 0} (omega arith),
        ap (λ t. be_from t next) {x = acc + 0} {y = acc} (omega arith),
        ih,
      ))
  | no low ↦ rw (lt→leb 256 (b + 1) (omega arith)) (
      omega (
        arith,
        be_from-add next (acc + b) 1,
        ap weight len,
        ap (λ t. be_from t next) {x = acc + (b + 1) % 256} {y = acc + b + 1} (omega arith),
        ih,
      ))
]

add_one-be_from :
    (bs : List ℕ) (acc : ℕ)
    → IsBytes bs
    → be_from acc (add_one bs).0 + carried (add_one bs).1 (length bs) ≡ be_from acc bs + 1
unfolding add_one
add_one-be_from [] acc h = omega arith
add_one-be_from (b ∷ bs) acc h = elim (Bool-cases (add_one bs).1) [
  | inl c ↦ rw c (
      carry_into b (add_one bs).0 bs (acc * 256) h.0 (length-add_one bs) (
        ap (λ x. be_from (acc * 256 + b) (add_one bs).0 + carried x (length bs)) (sym c)
        ∙ add_one-be_from bs (acc * 256 + b) h.1))
  | inr c ↦ rw c (
      ap (λ x. be_from (acc * 256 + b) (add_one bs).0 + carried x (length bs)) (sym c)
      ∙ add_one-be_from bs (acc * 256 + b) h.1)
]

add_one-IsBytes : (bs : List ℕ) → IsBytes bs → IsBytes (add_one bs).0
unfolding add_one
add_one-IsBytes [] h = tt
add_one-IsBytes (b ∷ bs) h = elim (Bool-cases (add_one bs).1) [
  | inl c ↦ rw c (omega arith, add_one-IsBytes bs h.1)
  | inr c ↦ rw c (h.0, add_one-IsBytes bs h.1)
]

next_nonce-value :
    (nonce : List ℕ)
    → IsBytes nonce
    → be_value (next_nonce nonce)
      ≡ (if ltb (be_value nonce + 1) (weight (length nonce)) then be_value nonce + 1 else 0)
unfolding next_nonce
next_nonce-value nonce h = elim (Bool-cases (add_one nonce).1) [
  | inl c ↦
      let total =
        ap (λ x. be_value (next_nonce nonce) + carried x (length nonce)) (sym c)
        ∙ add_one-be_from nonce 0 h in
      rw (le→ltb (be_value nonce + 1) (weight (length nonce)) (omega (arith, total)))
        (omega (arith, total, be_value-bound nonce h))
  | inr c ↦
      let total =
        ap (λ x. be_value (next_nonce nonce) + carried x (length nonce)) (sym c)
        ∙ add_one-be_from nonce 0 h in
      let below = be_value-bound (next_nonce nonce) (add_one-IsBytes nonce h) in
      rw
        (lt→ltb (be_value nonce + 1) (weight (length nonce))
          (omega (arith, total, below, ap weight (length-add_one nonce))))
        (omega (arith, total))
]

-- The next nonce has as many bytes; it is the number that follows, and zero behind the last one.
pub next_nonce_lem :
    (nonce : List ℕ)
    → IsBytes nonce
    → (length (next_nonce nonce) ≡ length nonce)
      × IsBytes (next_nonce nonce)
      × (be_value (next_nonce nonce)
          ≡ (if ltb (be_value nonce + 1) (weight (length nonce)) then be_value nonce + 1 else 0))
unfolding next_nonce
next_nonce_lem nonce h = (length-add_one nonce, add_one-IsBytes nonce h, next_nonce-value nonce h)
