-- ===== src/Propagation/Request.antt =====
-- src/propagation.rs: the request for the messages that a node keeps.
use rs_lxmflite.Base.{
  ℕ, zero, suc, ◌+◌, ◌-◌, ◌*◌, ◌/◌, ◌%◌, ◌^◌, ◌++◌, Bool, false, not, ◌||◌, List, [], ◌∷◌, leb, ltb,
  ◌==◌, if◌then◌else◌, length, take,
}
use rs_lxmflite.Base.Bytes.{be64}
use rs_lxmflite.Base.Result.{Result, ok, ◌>>◌, refuse, malformed_payload, output_too_small}
use rs_lxmflite.Payload.{copy_at}
use rs_lxmflite.Rns.{Rns}
use rs_lxmflite.Propagation.{is_finite}

pub data GetRequest : Type 0 where
  list : GetRequest
  fetch : List ℕ → ℕ → GetRequest
  purge : List ℕ → GetRequest

-- `timestamp < 0.0` of a bit pattern: a set sign bit, and neither a zero nor a NaN.
unfoldable pub is_negative : ℕ → Bool
is_negative bits = if leb bits (2 ^ 63) then false else leb bits 0xfff0000000000000

unfoldable pub limit_is_zero : GetRequest → Bool
limit_is_zero list = false
limit_is_zero (fetch id limit) = limit == 0
limit_is_zero (purge id) = false

-- A quotient to the nearest integer, and to the even one of two.
unfoldable pub round_half_even : ℕ → ℕ → ℕ
round_half_even a b =
    let q = a / b in
    let r = 2 * (a % b) in if ltb r b then q else if ltb b r then q + 1 else q + q % 2

-- The least shift, of `fuel` from this one on, that gives `n / 1000` its 53 bits.
unfoldable pub scale : ℕ → ℕ → ℕ → ℕ
scale zero n shift = shift
scale (suc fuel) n shift =
    let later = scale fuel n (shift + 1) in
    if leb (1000 * 2 ^ 52) (n * 2 ^ shift) then shift else later

-- The bits of `f64::from(n) / 1000.0`, where `0 < n < 65536`: the quotient lies between 2^-10 and 2^7,
-- so that the shift is one of 46 to 62.
unfoldable pub thousandth : ℕ → ℕ
unfolding round_half_even scale
thousandth n =
    let shift = scale 17 n 46 in
    (1023 + 52 - shift) * 2 ^ 52 + (round_half_even (n * 2 ^ shift) 1000 - 2 ^ 52)

-- What is written behind the first 28 bytes.
unfoldable pub request_body : GetRequest → List ℕ
unfolding thousandth
request_body list = 0x92 ∷ 0xc0 ∷ 0xc0 ∷ []
request_body (fetch id limit) =
    0x93 ∷ 0x91 ∷ 0xc4 ∷ 32 ∷ (id ++ (0x90 ∷ 0xcb ∷ be64 (thousandth limit)))
request_body (purge id) = 0x92 ∷ 0xc0 ∷ 0x91 ∷ 0xc4 ∷ 32 ∷ id

unfoldable pub body_len : GetRequest → ℕ
body_len list = 3
body_len (purge id) = 37
body_len (fetch id limit) = 46

-- `b"/get"`
abbrev pub get_path : List ℕ
get_path = 47 ∷ 103 ∷ 101 ∷ 116 ∷ []

-- The length, and the output.
unfoldable pub build_get_request : Rns → ℕ → GetRequest → List ℕ → Result (ℕ × List ℕ)
unfolding is_finite is_negative limit_is_zero request_body body_len
build_get_request rns timestamp request out = do
  refuse (not (is_finite timestamp) || is_negative timestamp || limit_is_zero request)
      malformed_payload
  let total = 28 + body_len request
  refuse (ltb (length out) total) output_too_small
  let stamped = copy_at 2 (be64 timestamp) (copy_at 0 (0x93 ∷ 0xcb ∷ []) out)
  let addressed = copy_at 12 (take 16 (rns.sha256 get_path)) (copy_at 10 (0xc4 ∷ 16 ∷ []) stamped)
  ok (total, copy_at 28 (request_body request) addressed)
