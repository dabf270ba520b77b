-- ===== src/Stamp/Search.antt =====
-- The search for a stamp: what holds of every search that the operations reach.
use rs_lxmflite.Base.{
  replicate, ℕ, zero, suc, ◌+◌, ◌-◌, ◌≤◌, ◌<◌, ◌≡◌, refl, ◌∙◌, true, false, Bool-cases, inl, inr,
  ◌⊎◌, some, List, arith, min, leb, leb→le, ◌==◌, ==_iff, ==→lt, ne→==,
}
use rs_lxmflite.Stamp.{
  Hashing, StampKind, message, propagation, peering, rounds, new_workblock, ready, advance,
  advance_loop, value, value_loop, Progress, preparing, searching, complete, exhausted, cancelled,
  StampSearch, new_search, cancel, cancel_progress, prepare, end_slice, search_loop, next_nonce,
  step_at, step,
}
use rs_lxmflite.Stamp.Prefix.{advance_loop-total, advance_loop-completed, value-ready}

rounds_pos : (kind : StampKind) → 0 < rounds kind
unfolding rounds
rounds_pos message = omega arith
rounds_pos propagation = omega arith
rounds_pos peering = omega arith

module _ (h : Hashing) where
  -- What each state of a search promises.
  abbrev pub Promise : StampSearch h → Progress → Type 0
  Promise s (preparing completed total) =
      (s.workblock.completed < s.workblock.total)
      × (completed ≡ s.workblock.completed)
      × (total ≡ s.workblock.total)
      × (s.attempts ≡ 0)
      × (0 < s.limit)
  Promise s (searching attempts) =
      (s.workblock.completed ≡ s.workblock.total) × (attempts ≡ s.attempts) × (s.attempts < s.limit)
  Promise s (complete stamp v) =
      ((s.cost ≡ 0) × (v ≡ 0) × (stamp ≡ replicate 32 0) × (s.attempts ≤ s.limit))
      ⊎ ((value h s.workblock stamp ≡ some v) × (s.cost ≤ v) × (s.attempts ≤ s.limit))
  Promise s exhausted = s.attempts ≡ s.limit
  Promise s cancelled = s.attempts ≤ s.limit

  abbrev pub IsSearch : StampSearch h → Type 0
  IsSearch s = Promise s s.progress

  -- A new search is one.
  pub new_search-IsSearch :
      (material : List ℕ) (kind : StampKind) (cost : ℕ) (seed : List ℕ) (limit : ℕ)
      → IsSearch (new_search h material kind cost seed limit)
  unfolding new_search new_workblock rounds
  new_search-IsSearch material kind zero seed limit = inl (refl, refl, refl, omega arith)
  new_search-IsSearch material kind (suc cost) seed zero =
      rw (ne→== (suc cost) 0 (λ e. omega arith)) refl
  new_search-IsSearch material kind (suc cost) seed (suc limit) =
      rw (ne→== (suc cost) 0 (λ e. omega arith), ne→== (suc limit) 0 (λ e. omega arith))
        (rounds_pos kind, refl, refl, refl, omega arith)

  pub cancel-IsSearch : (s : StampSearch h) → IsSearch s → IsSearch (cancel h s)
  unfolding cancel cancel_progress
  cancel-IsSearch s p = go s.progress p
    where
      go : (q : Progress) → Promise s q → Promise (cancel h s) (cancel_progress q)
      go (preparing c t) p = omega (arith, p)
      go (searching a) p = omega (arith, p)
      go (complete stamp v) p = p
      go exhausted p = p
      go cancelled p = p

  pub prepare-IsSearch :
      (budget c total : ℕ) (s : StampSearch h)
      → Promise s (preparing c total)
      → IsSearch (prepare h budget total s)
  unfolding prepare advance ready
  prepare-IsSearch budget c total s p =
      let n = min budget (s.workblock.total - s.workblock.completed) in
      let w = advance_loop h n s.workblock in
      let count = advance_loop-completed h n s.workblock in
      let all = advance_loop-total h n s.workblock in
      elim (Bool-cases (w.completed == w.total)) [
        | inl done ↦ rw done ((==_iff w.completed w.total).0 done, refl, omega (arith, p))
        | inr short ↦ rw short (
          ==→lt w.completed w.total short (omega (arith, count, all, p)),
          refl,
          omega (arith, p, all),
          p.3,
          p.4,
        )
      ]

  -- The search after a nonce that does not reach the cost.
  abbrev pub tried : StampSearch h → StampSearch h
  tried s = record s { attempts = s.attempts + 1; nonce = next_nonce s.nonce }

  -- The search at a nonce that does.
  abbrev pub found : StampSearch h → ℕ → StampSearch h
  found s v = record s { attempts = s.attempts + 1; progress = complete s.nonce v }

  pub search_loop-found :
      (n : ℕ) (s : StampSearch h) (v : ℕ)
      → value h s.workblock s.nonce ≡ some v
      → leb s.cost v ≡ true
      → search_loop h (suc n) s ≡ some (found s v)
  unfolding search_loop
  search_loop-found n s v known enough = rw (known, search_loop, enough) refl

  pub search_loop-missed :
      (n : ℕ) (s : StampSearch h) (v : ℕ)
      → value h s.workblock s.nonce ≡ some v
      → leb s.cost v ≡ false
      → search_loop h (suc n) s ≡ search_loop h n (tried s)
  unfolding search_loop
  search_loop-missed n s v known low = rw (known, search_loop, low) refl

  -- The loop never meets the panic, and keeps the promise.
  pub search_loop-IsSearch :
      (n : ℕ) (s : StampSearch h)
      → s.workblock.completed ≡ s.workblock.total
      → s.attempts + n ≤ s.limit
      → (s' : StampSearch h) × (search_loop h n s ≡ some s') × IsSearch s'
  unfolding search_loop end_slice
  search_loop-IsSearch zero s e le = elim (Bool-cases (s.attempts == s.limit)) [
    | inl spent ↦ (_, refl, rw spent ((==_iff s.attempts s.limit).0 spent))
    | inr left ↦ (_, refl, rw left (e, refl, ==→lt s.attempts s.limit left (omega arith)))
  ]
  search_loop-IsSearch (suc n) s e le =
      let v = value_loop 0 (h.finalize (h.update s.workblock.prefix s.nonce)) in
      let known : value h s.workblock s.nonce ≡ some v = value-ready h s.workblock s.nonce e in
      let (s', run, keeps) = search_loop-IsSearch n (tried s) e (omega arith) in
      elim (Bool-cases (leb s.cost v)) [
        | inl enough ↦ (
          found s v,
          search_loop-found n s v known enough,
          inr (known, leb→le s.cost v enough, omega arith),
        )
        | inr low ↦ (s', search_loop-missed n s v known low ∙ run, keeps)
      ]

  -- From a search, a step does not meet the panic on an unprepared prefix, and leaves a search: its
  -- counts are within their limits, it searches only with a complete workblock, and a stamp that it
  -- reports has the value that it reports, which reaches the cost, within the limit of attempts. The
  -- exception is a cost of zero, where the stamp may be that of zeros, reported with the value zero
  -- and never hashed.
  pub step-IsSearch :
      (round_budget attempt_budget : ℕ) (s : StampSearch h)
      → IsSearch s
      → (s' : StampSearch h) × (step h round_budget attempt_budget s ≡ some s') × IsSearch s'
  unfolding step step_at
  step-IsSearch round_budget attempt_budget s p = go s.progress p refl
    where
      go :
          (q : Progress)
          → Promise s q
          → s.progress ≡ q
          → (s' : StampSearch h) × (step_at h q round_budget attempt_budget s ≡ some s')
            × IsSearch s'
      go (preparing c t) p e = (_, refl, prepare-IsSearch round_budget c t s p)
      go (searching a) p e =
          search_loop-IsSearch (min attempt_budget (s.limit - s.attempts)) s p.0 (omega (arith, p))
      go (complete stamp v) p e = (s, refl, rw e p)
      go exhausted p e = (s, refl, rw e p)
      go cancelled p e = (s, refl, rw e p)
