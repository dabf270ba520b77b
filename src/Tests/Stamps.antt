-- ===== src/Tests/Stamps.antt =====
-- A search with a toy hash, whose digest is the last byte that it absorbed.
use rs_lxmflite.Base.{
  length, ℕ, ◌+◌, ◌≤◌, ◌≡◌, refl, ◌⊎◌, none, some, List, [], ◌∷◌, ◌++◌, append_assoc, append-nil,
  arith, replicate,
}
use rs_lxmflite.Base.Bytes.{IsBytes, be_value}
use rs_lxmflite.Stamp.{
  Hashing, peering, rounds, searching, new_workblock, advance, value, StampSearch, new_search,
  cancel, step, complete, next_nonce, value_loop, add_one, pack_round,
}
use rs_lxmflite.Stamp.Nonce.{next_nonce_lem}
use rs_lxmflite.Stamp.Zeros.{value_loop-zeros}
use rs_lxmflite.Stamp.Prefix.{UpdateLaws, advance-advance, value-advance}
use rs_lxmflite.Stamp.Search.{IsSearch, new_search-IsSearch, cancel-IsSearch, step-IsSearch}
use rs_lxmflite.Stamp.First.{nonce_at, Hit, Miss, step-searching}
use rs_lxmflite.Stamp.Live.{step-completes}
use rs_lxmflite.Stamp.Run.{IsTerminal, steps, steps-IsTerminal}

abbrev last_byte : List ℕ → List ℕ
last_byte [] = 255 ∷ []
last_byte (b ∷ []) = b ∷ []
last_byte (b ∷ c ∷ bs) = last_byte (c ∷ bs)

abbrev toy : Hashing
toy = record {
  Sha256 = List ℕ;
  new = [];
  update = λ s bs. s ++ bs;
  finalize = last_byte;
  expand256 = λ salt material. salt ++ material;
}

abbrev toy_laws : UpdateLaws toy
toy_laws = record { update_nil = λ s. append-nil s; update_append = λ s a b. append_assoc s a b }

packed_rounds :
    (pack_round 127 (replicate 3 0) ≡ (1, 127 ∷ 0 ∷ 0 ∷ []))
    × (pack_round 128 (replicate 3 0) ≡ (2, 0xcc ∷ 128 ∷ 0 ∷ []))
    × (pack_round 2999 (replicate 3 0) ≡ (3, 0xcd ∷ 0x0b ∷ 0xb7 ∷ []))
unfolding pack_round
packed_rounds = (refl, refl, refl)

nonce_carries : next_nonce (1 ∷ 255 ∷ 255 ∷ []) ≡ 2 ∷ 0 ∷ 0 ∷ []
unfolding next_nonce add_one
nonce_carries = refl

next_nonce_lem_example :
    (length (next_nonce (1 ∷ 255 ∷ 255 ∷ [])) ≡ 3)
    × IsBytes (next_nonce (1 ∷ 255 ∷ 255 ∷ []))
    × (be_value (next_nonce (1 ∷ 255 ∷ 255 ∷ [])) ≡ 131072)
next_nonce_lem_example = next_nonce_lem (1 ∷ 255 ∷ 255 ∷ []) (omega arith)

value_loop-zeros_example : value_loop 0 (0 ∷ 32 ∷ 7 ∷ []) ≡ 10
value_loop-zeros_example = value_loop-zeros 0 (0 ∷ 32 ∷ 7 ∷ [])

advance-advance_example :
    advance toy 3 (advance toy 2 (new_workblock toy (7 ∷ []) peering))
    ≡ advance toy 5 (new_workblock toy (7 ∷ []) peering)
unfolding new_workblock rounds
advance-advance_example = advance-advance toy 2 3 (new_workblock toy (7 ∷ []) peering) (omega arith)

value-advance_example :
    value toy (advance toy 24 (new_workblock toy (7 ∷ []) peering)) (1 ∷ []) ≡ none
unfolding rounds
value-advance_example = value-advance toy toy_laws (7 ∷ []) (1 ∷ []) peering 24

abbrev start : StampSearch toy
start = new_search toy (7 ∷ []) peering 4 (200 ∷ []) 1000

new_search-IsSearch_example : IsSearch toy start
new_search-IsSearch_example = new_search-IsSearch toy (7 ∷ []) peering 4 (200 ∷ []) 1000

cancel-IsSearch_example : IsSearch toy (cancel toy start)
cancel-IsSearch_example =
    cancel-IsSearch toy start (new_search-IsSearch toy (7 ∷ []) peering 4 (200 ∷ []) 1000)

step-IsSearch_example : (s : StampSearch toy) × (step toy 10 10 start ≡ some s) × IsSearch toy s
step-IsSearch_example =
    step-IsSearch toy 10 10 start (new_search-IsSearch toy (7 ∷ []) peering 4 (200 ∷ []) 1000)

-- A prepared search at the nonce 200, which reaches the cost of four bits at 256, that is at 0.
abbrev prepared : StampSearch toy
prepared = record {
  workblock = record { material = 7 ∷ []; prefix = []; completed = 25; total = 25 };
  nonce = 200 ∷ [];
  cost = 4;
  attempts = 0;
  limit = 1000;
  progress = searching 0;
}

step-searching_example :
    (s : StampSearch toy) × (step toy 1 10 prepared ≡ some s)
    × (Hit toy prepared s 10 ⊎ Miss toy prepared s 10)
step-searching_example = step-searching toy 1 10 0 prepared (refl, refl, omega arith) refl

step-completes_example :
    (s : StampSearch toy) × (k reached : ℕ) × (step toy 1 100 prepared ≡ some s)
    × (s.progress ≡ complete (nonce_at k (200 ∷ [])) reached)
    × (value toy prepared.workblock (nonce_at k (200 ∷ [])) ≡ some reached)
    × (4 ≤ reached)
    × (k ≤ 56)
unfolding value next_nonce
step-completes_example =
    step-completes toy 1 100 0 56 8 prepared (refl, refl, omega arith) refl (omega arith) refl
      (omega arith)

steps-IsTerminal_example :
    (s : StampSearch toy) × (steps toy (1 + rounds peering + 1000) 10 10 start ≡ some s)
    × IsTerminal toy s.progress
    × IsSearch toy s
steps-IsTerminal_example =
    steps-IsTerminal toy 10 10 (7 ∷ []) peering 4 (200 ∷ []) 1000 (omega arith) (omega arith)
