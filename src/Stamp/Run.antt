-- ===== src/Stamp/Run.antt =====
-- A search that is stepped on ends.
use rs_lxmflite.Base.{
  ℕ, zero, suc, ◌+◌, ◌-◌, ◌≤◌, ◌≡◌, refl, sym, subst, ◌∙◌, Bool-cases, inl, inr, Option, none, some,
  List, arith, min, leb, ◌==◌,
}
use rs_lxmflite.Stamp.{
  Hashing, StampKind, rounds, value, value_loop, Progress, preparing, searching, complete,
  exhausted, cancelled, StampSearch, new_search, new_workblock, advance, advance_loop, ready,
  prepare, end_slice, search_loop, step_at, step,
}
use rs_lxmflite.Stamp.Prefix.{value-ready, advance_loop-completed, advance_loop-total}
use rs_lxmflite.Stamp.Search.{
  Promise, IsSearch, tried, found, search_loop-found, search_loop-missed, step-IsSearch,
  new_search-IsSearch,
}

some_injective : {A : Type 0} {a b : A} → some a ≡ some b → a ≡ b
some_injective e = cc

module _ (h : Hashing) where
  -- The search has a result, which stays.
  abbrev pub IsTerminal : Progress → Type 0
  IsTerminal (complete stamp v) = Unit
  IsTerminal exhausted = Unit
  IsTerminal cancelled = Unit
  IsTerminal (preparing completed total) = ⊥
  IsTerminal (searching attempts) = ⊥

  -- How many units of work are left.
  abbrev work_at : StampSearch h → Progress → ℕ
  work_at s (preparing completed total) =
      1 + (s.workblock.total - s.workblock.completed) + (s.limit - s.attempts)
  work_at s (searching attempts) = s.limit - s.attempts
  work_at s (complete stamp v) = 0
  work_at s exhausted = 0
  work_at s cancelled = 0

  abbrev work : StampSearch h → ℕ
  work s = work_at s s.progress

  search_loop-work :
      (n : ℕ) (s : StampSearch h)
      → s.workblock.completed ≡ s.workblock.total
      → (s' : StampSearch h) × (search_loop h n s ≡ some s') × (work s' ≤ s.limit - s.attempts - n)
  unfolding search_loop end_slice
  search_loop-work zero s e = elim (Bool-cases (s.attempts == s.limit)) [
    | inl spent ↦ (end_slice h s, refl, rw spent (omega arith))
    | inr left ↦ (end_slice h s, refl, rw left (omega arith))
  ]
  search_loop-work (suc n) s e =
      let v = value_loop 0 (h.finalize (h.update s.workblock.prefix s.nonce)) in
      let known : value h s.workblock s.nonce ≡ some v = value-ready h s.workblock s.nonce e in
      let (s', run, less) = search_loop-work n (tried h s) e in
      elim (Bool-cases (leb s.cost v)) [
        | inl enough ↦ (found h s v, search_loop-found h n s v known enough, omega arith)
        | inr low ↦ (s', search_loop-missed h n s v known low ∙ run, omega (arith, less))
      ]

  prepare-work :
      (budget c total : ℕ) (s : StampSearch h)
      → 1 ≤ budget
      → Promise h s (preparing c total)
      → work (prepare h budget total s) + 1 ≤ work_at s (preparing c total)
  unfolding prepare advance ready
  prepare-work budget c total s some_budget p =
      let n = min budget (s.workblock.total - s.workblock.completed) in
      let w = advance_loop h n s.workblock in
      let count = advance_loop-completed h n s.workblock in
      let all = advance_loop-total h n s.workblock in
      elim (Bool-cases (w.completed == w.total)) [
        | inl done ↦ rw done (omega (arith, p))
        | inr short ↦ rw short (omega (arith, p, count, all))
      ]

  -- With budgets that are not zero, a step does some of the work that is left.
  step-work :
      (round_budget attempt_budget : ℕ) (s : StampSearch h)
      → 1 ≤ round_budget
      → 1 ≤ attempt_budget
      → IsSearch h s
      → (s' : StampSearch h) × (step h round_budget attempt_budget s ≡ some s')
        × (work s' ≤ work s - 1)
  unfolding step step_at
  step-work round_budget attempt_budget s hr ha p = go s.progress p refl
    where
      go :
          (q : Progress)
          → Promise h s q
          → s.progress ≡ q
          → (s' : StampSearch h) × (step_at h q round_budget attempt_budget s ≡ some s')
            × (work s' ≤ work_at s q - 1)
      go (preparing c t) p e = (_, refl, omega (arith, prepare-work round_budget c t s hr p))
      go (searching a) p e =
          let n = min attempt_budget (s.limit - s.attempts) in
          let (s', run, less) = search_loop-work n s p.0 in (s', run, omega (arith, less, p))
      go (complete stamp v) p e = (s, refl, rw e (omega arith))
      go exhausted p e = (s, refl, rw e (omega arith))
      go cancelled p e = (s, refl, rw e (omega arith))

  -- The caller's loop: `n` steps with the same budgets.
  unfoldable pub steps : ℕ → ℕ → ℕ → StampSearch h → Option (StampSearch h)
  unfolding step
  steps zero round_budget attempt_budget s = some s
  steps (suc n) round_budget attempt_budget s = elim (step h round_budget attempt_budget s) [
    | none ↦ none
    | some s' ↦ steps n round_budget attempt_budget s'
  ]

  steps-work :
      (n round_budget attempt_budget : ℕ) (s : StampSearch h)
      → 1 ≤ round_budget
      → 1 ≤ attempt_budget
      → IsSearch h s
      → (s' : StampSearch h) × (steps n round_budget attempt_budget s ≡ some s')
        × IsSearch h s'
        × (work s' ≤ work s - n)
  unfolding steps
  steps-work zero round_budget attempt_budget s hr ha p = (s, refl, p, omega arith)
  steps-work (suc n) round_budget attempt_budget s hr ha p =
      let (s1, run, less) = step-work round_budget attempt_budget s hr ha p in
      let (s2, run2, p2) = step-IsSearch h round_budget attempt_budget s p in
      let same : s2 ≡ s1 = some_injective (sym run2 ∙ run) in
      let (s', rest, p', less') =
        steps-work n round_budget attempt_budget s1 hr ha (subst (IsSearch h) same p2) in
      (s', rw (run, steps) rest, p', omega (arith, less, less'))

  no_work-IsTerminal :
      (s : StampSearch h) (q : Progress) → Promise h s q → work_at s q ≡ 0 → IsTerminal q
  no_work-IsTerminal s (preparing c t) p e = absurd (omega arith)
  no_work-IsTerminal s (searching a) p e = absurd (omega (arith, p))
  no_work-IsTerminal s (complete stamp v) p e = tt
  no_work-IsTerminal s exhausted p e = tt
  no_work-IsTerminal s cancelled p e = tt

  work_of_new :
      (material : List ℕ) (kind : StampKind) (cost : ℕ) (seed : List ℕ) (limit : ℕ)
      → work (new_search h material kind cost seed limit) ≤ 1 + rounds kind + limit
  unfolding new_search new_workblock
  work_of_new material kind cost seed limit = elim (Bool-cases (cost == 0)) [
    | inl free ↦ rw free (omega arith)
    | inr paid ↦ elim (Bool-cases (limit == 0)) [
      | inl none_left ↦ rw (paid, none_left) (omega arith)
      | inr left ↦ rw (paid, left) (omega arith)
    ]
  ]

  -- A new search, stepped with budgets of one or more, has a result after as many steps as the
  -- kind has rounds, and the limit has attempts, and one; no step on the way panics, and the result
  -- keeps what a search promises.
  pub steps-IsTerminal :
      (round_budget attempt_budget : ℕ) (material : List ℕ) (kind : StampKind) (cost : ℕ)
      (seed : List ℕ) (limit : ℕ)
      → 1 ≤ round_budget
      → 1 ≤ attempt_budget
      → (s : StampSearch h) × (steps
            (1 + rounds kind + limit)
            round_budget
            attempt_budget
            (new_search h material kind cost seed limit)
          ≡ some s)
        × IsTerminal s.progress
        × IsSearch h s
  steps-IsTerminal round_budget attempt_budget material kind cost seed limit hr ha =
      let start = new_search h material kind cost seed limit in
      let (s, run, p, less) =
        steps-work (1 + rounds kind + limit) round_budget attempt_budget start hr ha
          (new_search-IsSearch h material kind cost seed limit) in
      (
        s,
        run,
        no_work-IsTerminal s s.progress p
            (omega (arith, less, work_of_new material kind cost seed limit)),
        p,
      )
