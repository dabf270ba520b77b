-- ===== src/Readers/Float.antt =====
-- Numbers as the bits of an `f64`: conversions from integers and from `f32`, and the order.
use rs_lxmflite.Base.{
  ℕ, zero, suc, ◌+◌, ◌-◌, ◌*◌, ◌/◌, ◌%◌, ◌^◌, Bool, true, false, leb, ltb, ◌==◌, if◌then◌else◌,
}
use rs_lxmflite.Base.Int.{ℤ, pos, negsuc}
use rs_lxmflite.Propagation.Request.{round_half_even}

-- The place of the highest bit that is set, where at most `fuel` places are above the lowest.
unfoldable pub top_bit : ℕ → ℕ → ℕ
top_bit zero n = 0
top_bit (suc fuel) n = let rest = top_bit fuel (n / 2) in if leb n 1 then 0 else 1 + rest

-- `n as f64` of an integer below 2^64: to the nearest, and to the even one of two.
unfoldable pub f64_of_nat : ℕ → ℕ
unfolding top_bit round_half_even
f64_of_nat n =
    let k = top_bit 64 n in
    if n == 0
    then 0
    else if leb k 52
    then (1023 + k) * 2 ^ 52 + (n * 2 ^ (52 - k) - 2 ^ 52)
    else (1023 + k) * 2 ^ 52 + (round_half_even n (2 ^ (k - 52)) - 2 ^ 52)

unfoldable pub f64_of_int : ℤ → ℕ
unfolding f64_of_nat
f64_of_int (pos n) = f64_of_nat n
f64_of_int (negsuc n) = 2 ^ 63 + f64_of_nat (suc n)

-- `f64::from(f32)`: exact, with the small values normalised.
unfoldable pub widen : ℕ → ℕ
unfolding top_bit
widen bits =
    let sign = bits / 2 ^ 31 * 2 ^ 63 in
    let e = bits / 2 ^ 23 % 2 ^ 8 in
    let f = bits % 2 ^ 23 in
    let k = top_bit 23 f in
    if e == 255
    then sign + 2047 * 2 ^ 52 + f * 2 ^ 29
    else if leb 1 e
    then sign + (e + 896) * 2 ^ 52 + f * 2 ^ 29
    else if f == 0
    then sign
    else sign + (874 + k) * 2 ^ 52 + (f - 2 ^ k) * 2 ^ (52 - k)

-- `a <= b` of bit patterns: false with a NaN, and the zeros of both signs are equal.
unfoldable pub f64_le : ℕ → ℕ → Bool
f64_le a b =
    let ma = a % 2 ^ 63 in
    let mb = b % 2 ^ 63 in
    let infinity = 2047 * 2 ^ 52 in
    if ltb infinity ma
    then false
    else if ltb infinity mb
    then false
    else if ltb a (2 ^ 63)
    then (if ltb b (2 ^ 63) then leb ma mb else ma + mb == 0)
    else (if ltb b (2 ^ 63) then true else leb mb ma)
