-- ===== src/Propagation/Bounded.antt =====
-- src/propagation.rs: the numbers of an announce that is accepted.
use rs_lxmflite.Base.{
  ℕ, ◌*◌, ◌^◌, ◌<◌, ◌≡◌, refl, sym, subst, Bool, true, false, none, some, List, arith, leb, ltb,
  if◌then◌else◌, ltb→lt,
}
use rs_lxmflite.Base.Maybe.{>>=-eq-some}
use rs_lxmflite.Base.Result.{to_option}
use rs_lxmflite.Propagation.{ArrayItems, array_items, next_item}
use rs_lxmflite.Propagation.Announce.{
  NodeAnnounce, parse_node_announce, unsigned, as_u8, checked_mul_u64, require, announce_limits,
  announce_costs, cost_byte, flag, is_map,
}

require-some : (b : Bool) {u : Unit {0}} → require b ≡ some u → b ≡ true
unfolding require
require-some true h = refl
require-some false h = cc

checked_mul_u64-some : (a b c : ℕ) → checked_mul_u64 a b ≡ some c → a * b < 2 ^ 64
unfolding checked_mul_u64
checked_mul_u64-some a b c h = guarded (ltb (a * b) (2 ^ 64)) h refl
  where
    guarded :
        (t : Bool)
        → (if t then some (a * b) else none) ≡ some c
        → t ≡ ltb (a * b) (2 ^ 64)
        → a * b < 2 ^ 64
    guarded true h e = ltb→lt (a * b) (2 ^ 64) (sym e)
    guarded false h e = cc

as_u8-some : (n c : ℕ) → as_u8 n ≡ some c → c < 256
unfolding as_u8
as_u8-some n c h = ground arith

cost_byte-some : (item : List ℕ) (c : ℕ) → cost_byte item ≡ some c → c < 256
unfolding cost_byte
cost_byte-some item c h =
    let (n, e, rest) = >>=-eq-some (unsigned item) as_u8 h in as_u8-some n c rest

some_injective : {A : Type 0} {a b : A} → some a ≡ some b → a ≡ b
some_injective e = cc

-- The bounds on what stands in front of the costs.
abbrev LimitsBounded : ℕ × Bool × ℕ × ℕ × ArrayItems → Type 0
LimitsBounded (timebase, enabled, transfer, sync, items) =
    (timebase < 2 ^ 63) × (transfer * 1000 < 2 ^ 64) × (sync * 1000 < 2 ^ 64)

announce_limits-LimitsBounded :
    (items : ArrayItems) (r : ℕ × Bool × ℕ × ℕ × ArrayItems)
    → announce_limits items ≡ some r
    → LimitsBounded r
unfolding announce_limits
announce_limits-LimitsBounded items r h0 =
    let (n2, c2, h3) = >>=-eq-some (next_item items) _ h0 in
    let (n3, c3, h4) = >>=-eq-some (next_item (n2.1)) _ h3 in
    let (timebase, c4, h5) = >>=-eq-some (unsigned (n3.0)) _ h4 in
    let (u5, c5, h6) = >>=-eq-some (require (ltb timebase (2 ^ 63))) _ h5 in
    let (n6, c6, h7) = >>=-eq-some (next_item (n3.1)) _ h6 in
    let (enabled, c7, h8) = >>=-eq-some (flag (n6.0)) _ h7 in
    let (n8, c8, h9) = >>=-eq-some (next_item (n6.1)) _ h8 in
    let (transfer, c9, h10) = >>=-eq-some (unsigned (n8.0)) _ h9 in
    let (n10, c10, h11) = >>=-eq-some (next_item (n8.1)) _ h10 in
    let (sync, c11, h12) = >>=-eq-some (unsigned (n10.0)) _ h11 in
    let (t12, c12, h13) = >>=-eq-some (checked_mul_u64 transfer 1000) _ h12 in
    let (s13, c13, h14) = >>=-eq-some (checked_mul_u64 sync 1000) _ h13 in
    subst LimitsBounded (some_injective h14) (
      ltb→lt timebase (2 ^ 63) (require-some _ c5),
      checked_mul_u64-some transfer 1000 t12 c12,
      checked_mul_u64-some sync 1000 s13 c13,
    )

abbrev CostsBounded : ℕ × ℕ × ℕ → Type 0
CostsBounded (cost, flex, peering) = (cost < 256) × (flex < 256) × (peering < 256)

announce_costs-CostsBounded :
    (item : List ℕ) (r : ℕ × ℕ × ℕ) → announce_costs item ≡ some r → CostsBounded r
unfolding announce_costs
announce_costs-CostsBounded item r h0 =
    let (costs, c15, h16) = >>=-eq-some (to_option (array_items item)) _ h0 in
    let (u16, c16, h17) = >>=-eq-some (require (leb 3 (costs.remaining))) _ h16 in
    let (n17, c17, h18) = >>=-eq-some (next_item costs) _ h17 in
    let (cost, c18, h19) = >>=-eq-some (cost_byte (n17.0)) _ h18 in
    let (n19, c19, h20) = >>=-eq-some (next_item (n17.1)) _ h19 in
    let (flex, c20, h21) = >>=-eq-some (cost_byte (n19.0)) _ h20 in
    let (n21, c21, h22) = >>=-eq-some (next_item (n19.1)) _ h21 in
    let (peering, c22, h23) = >>=-eq-some (cost_byte (n21.0)) _ h22 in
    subst CostsBounded (some_injective h23) (
      cost_byte-some (n17.0) cost c18,
      cost_byte-some (n19.0) flex c20,
      cost_byte-some (n21.0) peering c22,
    )

-- What a caller can compute with an accepted announce without an overflow.
pub record IsBounded (a : NodeAnnounce) : Type 0 where
  pub timebase : a.timebase < 2 ^ 63
  pub transfer : a.transfer_limit_kb * 1000 < 2 ^ 64
  pub sync : a.sync_limit_kb * 1000 < 2 ^ 64
  pub cost : a.stamp_cost < 256
  pub flex : a.stamp_flex < 256
  pub peering : a.peering_cost < 256

-- An accepted announce has a timebase in the range of an `i64`, limits whose number of bytes fits a
-- `u64`, and costs of one byte.
pub parse_node_announce-IsBounded :
    (dat : List ℕ) (a : NodeAnnounce) → parse_node_announce dat ≡ some a → IsBounded a
unfolding parse_node_announce
parse_node_announce-IsBounded dat a h0 =
    let (items0, c0, h1) = >>=-eq-some (to_option (array_items dat)) _ h0 in
    let (u1, c1, h2) = >>=-eq-some (require (leb 7 (items0.remaining))) _ h1 in
    let (limits, c2, h3) = >>=-eq-some (announce_limits items0) _ h2 in
    let (n3, c3, h4) = >>=-eq-some (next_item (limits.4)) _ h3 in
    let (costs, c4, h5) = >>=-eq-some (announce_costs (n3.0)) _ h4 in
    let (n5, c5, h6) = >>=-eq-some (next_item (n3.1)) _ h5 in
    let (u6, c6, h7) = >>=-eq-some (require (is_map (n5.0))) _ h6 in
    let (timebase, transfer, sync) = announce_limits-LimitsBounded items0 limits c2 in
    let (cost, flex, peering) = announce_costs-CostsBounded (n3.0) costs c4 in
    subst IsBounded (some_injective h7) (record {
      timebase = timebase;
      transfer = transfer;
      sync = sync;
      cost = cost;
      flex = flex;
      peering = peering;
    })
