-- ===== src/Stamp.antt =====
-- src/stamp.rs: tickets, the workblock of a proof of work, and the resumable search for a stamp.
pub mod Nonce
pub mod Prefix
pub mod Zeros
pub mod Search
pub mod First
pub mod Live
pub mod Run
use rs_lxmflite.Base.{
  ℕ, zero, suc, ◌+◌, ◌-◌, ◌%◌, ◌/◌, Bool, true, false, not, Option, none, some, List, [], ◌∷◌, leb,
  ltb, ◌==◌, if◌then◌else◌, min, take, set, replicate, length,
}
use rs_lxmflite.Base.Bytes.{be16}

-- What the code takes from the crates `sha2` and `hkdf`: the incremental hash, and HKDF with the
-- hash, a salt and the key material, expanded with no info to 256 bytes.
pub record Hashing : Type 1 where
  pub Sha256 : Type 0
  pub new : Sha256
  pub update : Sha256 → List ℕ → Sha256
  pub finalize : Sha256 → List ℕ
  pub expand256 : List ℕ → List ℕ → List ℕ

pub data StampKind : Type 0 where
  message propagation peering : StampKind

unfoldable pub rounds : StampKind → ℕ
rounds message = 3000
rounds propagation = 1000
rounds peering = 25

-- Canonical MessagePack of the round: the count of bytes, and the three bytes of the buffer.
unfoldable pub pack_round : ℕ → List ℕ → ℕ × List ℕ
pack_round round out =
    if leb round 0x7f
    then (1, set out 0 round)
    else if leb round 0xff
    then (2, set (set out 0 0xcc) 1 round)
    else (3, 0xcd ∷ be16 round)

-- `u8::leading_zeros`
unfoldable pub leading_zeros : ℕ → ℕ
leading_zeros b =
    if leb 128 b
    then 0
    else if leb 64 b
    then 1
    else if leb 32 b
    then 2
    else if leb 16 b
    then 3
    else if leb 8 b
    then 4
    else if leb 4 b
    then 5
    else if leb 2 b
    then 6
    else if leb 1 b
    then 7
    else 8

-- The loop of `value` over the digest.
unfoldable pub value_loop : ℕ → List ℕ → ℕ
unfolding leading_zeros
value_loop acc [] = acc
value_loop acc (byte ∷ bytes) =
    let acc' = acc + leading_zeros byte in
    let rest = value_loop acc' bytes in if not (byte == 0) then acc' else rest

-- The carry loop over the nonce, from its last byte on: the bytes, and whether a carry leaves them.
unfoldable pub add_one : List ℕ → List ℕ × Bool
add_one [] = ([], true)
add_one (byte ∷ bytes) =
    let (bytes', carry) = add_one bytes in
    if carry then ((byte + 1) % 256 ∷ bytes', leb 256 (byte + 1)) else (byte ∷ bytes', false)

unfoldable pub next_nonce : List ℕ → List ℕ
unfolding add_one
next_nonce nonce = (add_one nonce).0

pub data Progress : Type 0 where
  preparing : ℕ → ℕ → Progress
  searching : ℕ → Progress
  complete : List ℕ → ℕ → Progress
  exhausted cancelled : Progress

unfoldable pub cancel_progress : Progress → Progress
cancel_progress (preparing completed total) = cancelled
cancel_progress (searching attempts) = cancelled
cancel_progress (complete stamp v) = complete stamp v
cancel_progress exhausted = exhausted
cancel_progress cancelled = cancelled

module _ (h : Hashing) where
  open h use {Sha256, new, update, finalize, expand256}

  unfoldable pub ticket_stamp : List ℕ → List ℕ → List ℕ
  ticket_stamp ticket message_id = take 16 (finalize (update (update new ticket) message_id))

  pub record Workblock : Type 0 where
    pub material : List ℕ
    pub prefix : Sha256
    pub completed : ℕ
    pub total : ℕ

  unfoldable pub new_workblock : List ℕ → StampKind → Workblock
  unfolding rounds
  new_workblock material kind = record {
    material = material;
    prefix = new;
    completed = 0;
    total = rounds kind;
  }

  unfoldable pub ready : Workblock → Bool
  ready w = w.completed == w.total

  -- The 256 bytes that HKDF makes of the material and the round.
  unfoldable pub chunk : List ℕ → ℕ → List ℕ
  unfolding pack_round
  chunk material round =
      let (n, packed) = pack_round round (replicate 3 0) in
      let salt = update (update new material) (take n packed) in expand256 (finalize salt) material

  -- The body of the loop of `advance`.
  unfoldable pub advance_round : Workblock → Workblock
  unfolding chunk
  advance_round w = record w {
    prefix = update w.prefix (chunk w.material w.completed);
    completed = w.completed + 1;
  }

  unfoldable pub advance_loop : ℕ → Workblock → Workblock
  unfolding advance_round
  advance_loop zero w = w
  advance_loop (suc n) w = advance_loop n (advance_round w)

  -- The result is `ready` of the workblock that is left.
  unfoldable pub advance : ℕ → Workblock → Workblock
  unfolding advance_loop
  advance budget w = advance_loop (min budget (w.total - w.completed)) w

  unfoldable pub value : Workblock → List ℕ → Option ℕ
  unfolding ready value_loop
  value w stamp =
      if not (ready w) then none else some (value_loop 0 (finalize (update w.prefix stamp)))

  pub record StampSearch : Type 0 where
    pub workblock : Workblock
    pub nonce : List ℕ
    pub cost : ℕ
    pub attempts : ℕ
    pub limit : ℕ
    pub progress : Progress

  unfoldable pub new_search : List ℕ → StampKind → ℕ → List ℕ → ℕ → StampSearch
  unfolding new_workblock rounds
  new_search material kind cost seed attempt_limit = record {
    workblock = new_workblock material kind;
    nonce = seed;
    cost = cost;
    attempts = 0;
    limit = attempt_limit;
    progress =
        if cost == 0
        then complete (replicate 32 0) 0
        else if attempt_limit == 0
        then exhausted
        else preparing 0 (rounds kind);
  }

  unfoldable pub cancel : StampSearch → StampSearch
  unfolding cancel_progress
  cancel s = record s { progress = cancel_progress s.progress }

  -- The arm of `step` for a search that prepares.
  unfoldable pub prepare : ℕ → ℕ → StampSearch → StampSearch
  unfolding advance ready
  prepare round_budget total s =
      let w = advance round_budget s.workblock in
      record s {
        workblock = w;
        progress = if ready w then searching s.attempts else preparing w.completed total;
      }

  -- What follows the loop of a search that found nothing.
  unfoldable pub end_slice : StampSearch → StampSearch
  end_slice s = record s {
    progress = if s.attempts == s.limit then exhausted else searching s.attempts;
  }

  -- The loop over at most `n` attempts; `none` is the panic of `expect`.
  unfoldable pub search_loop : ℕ → StampSearch → Option StampSearch
  unfolding value next_nonce end_slice
  search_loop zero s = some (end_slice s)
  search_loop (suc n) s =
      let tried = record s { attempts = s.attempts + 1 } in
      let rest = search_loop n (record tried { nonce = next_nonce s.nonce }) in
      elim (value s.workblock s.nonce) [
        | none ↦ none
        | some v ↦
            if leb s.cost v then some (record tried { progress = complete s.nonce v }) else rest
      ]

  unfoldable pub step_at : Progress → ℕ → ℕ → StampSearch → Option StampSearch
  unfolding prepare search_loop
  step_at (preparing completed total) round_budget attempt_budget s =
      some (prepare round_budget total s)
  step_at (searching attempts) round_budget attempt_budget s =
      search_loop (min attempt_budget (s.limit - s.attempts)) s
  step_at (complete stamp v) round_budget attempt_budget s = some s
  step_at exhausted round_budget attempt_budget s = some s
  step_at cancelled round_budget attempt_budget s = some s

  unfoldable pub step : ℕ → ℕ → StampSearch → Option StampSearch
  unfolding step_at
  step round_budget attempt_budget s = step_at s.progress round_budget attempt_budget s
