-- ===== src/Propagation/Announce.antt =====
-- src/propagation.rs: the announces of propagation nodes and of delivery destinations.
use rs_lxmflite.Base.{
  ℕ, ◌+◌, ◌-◌, ◌*◌, ◌/◌, ◌%◌, ◌^◌, Bool, true, false, not, ◌&&◌, ◌||◌, Option, none, some, List, [],
  ◌∷◌, leb, ltb, ◌==◌, if◌then◌else◌, length, get_or, slice,
}
use rs_lxmflite.Base.Bytes.{be_value}
use rs_lxmflite.Base.Compare.{bytes_eq}
use rs_lxmflite.Base.Maybe.{◌>>=◌, ◌>>◌}
use rs_lxmflite.Base.Result.{to_option}
use rs_lxmflite.Fields.{field_value, value_as_bytes}
use rs_lxmflite.Propagation.{ArrayItems, array_items, next_item}

-- `slice.get(from..to)`
abbrev pub get_range : List ℕ → ℕ → ℕ → Option (List ℕ)
get_range dat from to = if leb to (length dat) then some (slice dat from to) else none

-- `u64::try_from` of the signed integer with these bits, where `half` is its sign bit.
unfoldable pub signed_as_u64 : ℕ → ℕ → Option ℕ
signed_as_u64 half bits = if ltb bits half then some bits else none

-- A float with this many bits of mantissa and exponent, if it is finite, not negative and below 2^64,
-- truncated to an integer. The widening of a 32-bit float is exact, so it is read in its own format.
unfoldable pub float_as_u64 : ℕ → ℕ → ℕ → Option ℕ
float_as_u64 mantissa exponent bits =
    let bias = 2 ^ (exponent - 1) - 1 in
    let e = bits / 2 ^ mantissa % 2 ^ exponent in
    let f = bits % 2 ^ mantissa in
    let negative = leb (2 ^ (mantissa + exponent)) bits in
    let significand = 2 ^ mantissa + f in
    let point = bias + mantissa in
    if e == 2 ^ exponent - 1
    then none
    else if negative
    then (if e == 0 && f == 0 then some 0 else none)
    else if leb (bias + 64) e
    then none
    else if ltb e bias
    then some 0
    else if leb point e
    then some (significand * 2 ^ (e - point))
    else some (significand / 2 ^ (point - e))

-- The match of `unsigned` on the markers with bytes behind them.
unfoldable pub wide_unsigned : List ℕ → ℕ → Option ℕ
unfolding signed_as_u64 float_as_u64
wide_unsigned dat marker =
    if marker == 0xcc
    then get_range dat 1 2 >>= (λ bs. some (be_value bs))
    else if marker == 0xcd
    then get_range dat 1 3 >>= (λ bs. some (be_value bs))
    else if marker == 0xce
    then get_range dat 1 5 >>= (λ bs. some (be_value bs))
    else if marker == 0xcf
    then get_range dat 1 9 >>= (λ bs. some (be_value bs))
    else if marker == 0xd0
    then get_range dat 1 2 >>= (λ bs. signed_as_u64 (2 ^ 7) (be_value bs))
    else if marker == 0xd1
    then get_range dat 1 3 >>= (λ bs. signed_as_u64 (2 ^ 15) (be_value bs))
    else if marker == 0xd2
    then get_range dat 1 5 >>= (λ bs. signed_as_u64 (2 ^ 31) (be_value bs))
    else if marker == 0xd3
    then get_range dat 1 9 >>= (λ bs. signed_as_u64 (2 ^ 63) (be_value bs))
    else if marker == 0xca
    then get_range dat 1 5 >>= (λ bs. float_as_u64 23 8 (be_value bs))
    else if marker == 0xcb
    then get_range dat 1 9 >>= (λ bs. float_as_u64 52 11 (be_value bs))
    else none

unfoldable pub unsigned : List ℕ → Option ℕ
unfolding wide_unsigned
unsigned dat =
    let b = get_or dat 0 0 in
    if leb (length dat) 0 then none else if leb b 0x7f then some b else wide_unsigned dat b

-- `u8::try_from`
unfoldable pub as_u8 : ℕ → Option ℕ
as_u8 n = if ltb n 256 then some n else none

-- `u64::checked_mul`, for its refusal.
unfoldable pub checked_mul_u64 : ℕ → ℕ → Option ℕ
checked_mul_u64 a b = if ltb (a * b) (2 ^ 64) then some (a * b) else none

unfoldable pub require : Bool → Option (Unit {0})
require true = some tt
require false = none

-- The value of one of the three costs.
unfoldable pub cost_byte : List ℕ → Option ℕ
unfolding unsigned as_u8
cost_byte item = unsigned item >>= as_u8

-- `[0xc2]` and `[0xc3]`
unfoldable pub flag : List ℕ → Option Bool
flag item =
    if bytes_eq item (0xc2 ∷ [])
    then some false
    else if bytes_eq item (0xc3 ∷ [])
    then some true
    else none

-- The first byte of a map.
unfoldable pub is_map : List ℕ → Bool
is_map item =
    let b = get_or item 0 0 in
    not (leb (length item) 0) && ((leb 0x80 b && leb b 0x8f) || b == 0xde || b == 0xdf)

pub record NodeAnnounce : Type 0 where
  pub timebase : ℕ
  pub enabled : Bool
  pub transfer_limit_kb : ℕ
  pub sync_limit_kb : ℕ
  pub stamp_cost : ℕ
  pub stamp_flex : ℕ
  pub peering_cost : ℕ
  pub name : Option (List ℕ)

-- The numbers up to the limits, and the rest of the items.
unfoldable pub announce_limits : ArrayItems → Option (ℕ × Bool × ℕ × ℕ × ArrayItems)
unfolding next_item flag require checked_mul_u64 unsigned
announce_limits items = do
  (legacy, items) ← next_item items
  (item, items) ← next_item items
  timebase ← unsigned item
  require (ltb timebase (2 ^ 63))
  (item, items) ← next_item items
  enabled ← flag item
  (item, items) ← next_item items
  transfer_limit_kb ← unsigned item
  (item, items) ← next_item items
  sync_limit_kb ← unsigned item
  transfer_bytes ← checked_mul_u64 transfer_limit_kb 1000
  sync_bytes ← checked_mul_u64 sync_limit_kb 1000
  some (timebase, enabled, transfer_limit_kb, sync_limit_kb, items)

unfoldable pub announce_costs : List ℕ → Option (ℕ × ℕ × ℕ)
unfolding array_items next_item require cost_byte
announce_costs item = do
  costs ← to_option (array_items item)
  require (leb 3 costs.remaining)
  (item, costs) ← next_item costs
  stamp_cost ← cost_byte item
  (item, costs) ← next_item costs
  stamp_flex ← cost_byte item
  (item, costs) ← next_item costs
  peering_cost ← cost_byte item
  some (stamp_cost, stamp_flex, peering_cost)

unfoldable pub parse_node_announce : List ℕ → Option NodeAnnounce
unfolding array_items next_item require announce_limits announce_costs is_map field_value
    value_as_bytes
parse_node_announce dat = do
  items ← to_option (array_items dat)
  require (leb 7 items.remaining)
  (timebase, enabled, transfer_limit_kb, sync_limit_kb, items) ← announce_limits items
  (item, items) ← next_item items
  (stamp_cost, stamp_flex, peering_cost) ← announce_costs item
  (metadata, items) ← next_item items
  require (is_map metadata)
  some (record {
    timebase = timebase;
    enabled = enabled;
    transfer_limit_kb = transfer_limit_kb;
    sync_limit_kb = sync_limit_kb;
    stamp_cost = stamp_cost;
    stamp_flex = stamp_flex;
    peering_cost = peering_cost;
    name = field_value metadata 1 >>= value_as_bytes;
  })

-- Floats are no delivery costs.
unfoldable pub integer_cost : List ℕ → Option (Option ℕ)
unfolding unsigned as_u8
integer_cost cost =
    let b = get_or cost 0 0 in
    if not (leb (length cost) 0) && (b == 0xca || b == 0xcb)
    then none
    else unsigned cost >>= (λ n. as_u8 n >>= (λ c. some (some c)))

unfoldable pub delivery_stamp_cost : List ℕ → Option (Option ℕ)
unfolding array_items next_item integer_cost
delivery_stamp_cost dat = do
  items ← to_option (array_items dat)
  (name, items) ← next_item items
  (cost, items) ← next_item items
  if bytes_eq cost (0xc0 ∷ []) then some none else integer_cost cost
