-- ===== src/Stamp/Live.antt =====
-- A search reports a stamp that is there to be found.
use rs_lxmflite.Base.{
  ℕ, zero, suc, ◌-◌, ◌≤◌, ◌<◌, ◌≡◌, sym, ◌∙◌, inl, inr, some, List, arith, min, dec_lt,
}
use rs_lxmflite.Stamp.{Hashing, value, searching, complete, StampSearch, next_nonce, step}
use rs_lxmflite.Stamp.Search.{IsSearch}
use rs_lxmflite.Stamp.First.{nonce_at, AllBelow, step-searching}

some_injective : {A : Type 0} {a b : A} → some a ≡ some b → a ≡ b
some_injective e = cc

module _ (h : Hashing) where
  -- One of the nonces whose values are below the cost.
  AllBelow-at :
      (s : StampSearch h) (n i : ℕ) (nonce : List ℕ)
      → AllBelow h s n nonce
      → i < n
      → (u : ℕ) × (value h s.workblock (nonce_at i nonce) ≡ some u) × (u < s.cost)
  AllBelow-at s zero i nonce below less = absurd (omega arith)
  AllBelow-at s (suc n) zero nonce below less = below.0
  AllBelow-at s (suc n) (suc i) nonce below less =
      AllBelow-at s n i (next_nonce nonce) (below.1) (omega arith)

  no_enough :
      (s : StampSearch h) (n i v : ℕ)
      → AllBelow h s n s.nonce
      → i < n
      → value h s.workblock (nonce_at i s.nonce) ≡ some v
      → s.cost ≤ v
      → ⊥
  no_enough s n i v below less known enough =
      let (u, is, low) = AllBelow-at s n i s.nonce below less in
      omega (arith, some_injective (sym is ∙ known))

  -- Where one of the nonces that a step may try reaches the cost, the step completes the search: the
  -- stamp is that nonce or an earlier one, and its value, which is reported with it, reaches the cost.
  pub step-completes :
      (round_budget attempt_budget attempts i v : ℕ) (s : StampSearch h)
      → IsSearch h s
      → s.progress ≡ searching attempts
      → i < min attempt_budget (s.limit - s.attempts)
      → value h s.workblock (nonce_at i s.nonce) ≡ some v
      → s.cost ≤ v
      → (s' : StampSearch h) × (k reached : ℕ) × (step h round_budget attempt_budget s ≡ some s')
        × (s'.progress ≡ complete (nonce_at k s.nonce) reached)
        × (value h s.workblock (nonce_at k s.nonce) ≡ some reached)
        × (s.cost ≤ reached)
        × (k ≤ i)
  step-completes round_budget attempt_budget attempts i v s p e less known enough =
      let n = min attempt_budget (s.limit - s.attempts) in
      let (s', run, outcome) = step-searching h round_budget attempt_budget attempts s p e in
      elim outcome [
        | inr miss ↦ absurd (no_enough s n i v (miss.below) less known enough)
        | inl hit ↦ elim (dec_lt i (hit.index)) [
          | yes early ↦ absurd (no_enough s (hit.index) i v (hit.below) early known enough)
          | no late ↦
              (s', hit.index, hit.reached, run, hit.reported, hit.is_value, hit.enough, omega arith)
        ]
      ]
