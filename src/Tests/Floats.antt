-- ===== src/Tests/Floats.antt =====
-- Conversions to the bits of an `f64`, at concrete numbers.
use rs_lxmflite.Base.{◌≡◌, refl, true, none, some, [], ◌∷◌}
use rs_lxmflite.Readers.Float.{f64_of_nat, widen, f64_le}
use rs_lxmflite.Propagation.Request.{thousandth}
use rs_lxmflite.Propagation.Announce.{unsigned}
use rs_lxmflite.Readers.Schema.{from_utf8}

limit_of_one_byte : thousandth 1 ≡ 0x3F50624DD2F1A9FC
unfolding thousandth
limit_of_one_byte = refl

limit_of_a_thousand : thousandth 1000 ≡ 0x3FF0000000000000
unfolding thousandth
limit_of_a_thousand = refl

limit_of_the_last : thousandth 65535 ≡ 0x4050623D70A3D70A
unfolding thousandth
limit_of_the_last = refl

last_u64 : f64_of_nat 18446744073709551615 ≡ 0x43F0000000000000
unfolding f64_of_nat
last_u64 = refl

tie_to_even : f64_of_nat 9007199254740993 ≡ 0x4340000000000000
unfolding f64_of_nat
tie_to_even = refl

one_tenth : widen 0x3DCCCCCD ≡ 0x3FB99999A0000000
unfolding widen
one_tenth = refl

least_f32 : widen 1 ≡ 0x36A0000000000000
unfolding widen
least_f32 = refl

zeros_are_equal : f64_le 0 0x8000000000000000 ≡ true
unfolding f64_le
zeros_are_equal = refl

float_cost : unsigned (0xca ∷ 0x41 ∷ 0x84 ∷ 0 ∷ 0 ∷ []) ≡ some 16
unfolding unsigned
float_cost = refl

surrogates_are_refused : from_utf8 (0xed ∷ 0xa0 ∷ 0x80 ∷ []) ≡ none
unfolding from_utf8
surrogates_are_refused = refl
