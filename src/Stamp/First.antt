-- ===== src/Stamp/First.antt =====
-- Which stamp a slice of the search reports.
use rs_lxmflite.Base.{
  ℕ, zero, suc, ◌+◌, ◌-◌, ◌≤◌, ◌<◌, ◌≡◌, refl, subst, ap, ◌∙◌, Bool-cases, inl, inr, ◌⊎◌, some,
  List, arith, min, leb, leb→lt, leb→le, ◌==◌, if◌then◌else◌,
}
use rs_lxmflite.Stamp.{
  Hashing, value, value_loop, searching, complete, exhausted, StampSearch, end_slice, search_loop,
  next_nonce, step_at, step,
}
use rs_lxmflite.Stamp.Prefix.{value-ready}
use rs_lxmflite.Stamp.Search.{
  Promise, IsSearch, tried, found, search_loop-found, search_loop-missed,
}

-- The `n`-th nonce after the seed.
abbrev pub nonce_at : ℕ → List ℕ → List ℕ
nonce_at zero nonce = nonce
nonce_at (suc n) nonce = nonce_at n (next_nonce nonce)

module _ (h : Hashing) where
  -- The first `n` nonces have values below the cost of the search.
  abbrev pub AllBelow : StampSearch h → ℕ → List ℕ → Type 0
  AllBelow s zero nonce = Unit
  AllBelow s (suc n) nonce =
      ((u : ℕ) × (value h s.workblock nonce ≡ some u) × (u < s.cost))
      × AllBelow s n (next_nonce nonce)

  -- The nonce `k` is the first to reach the cost, and is reported.
  pub record Hit (s s' : StampSearch h) (n : ℕ) : Type 0 where
    pub index : ℕ
    pub reached : ℕ
    pub in_slice : index < n
    pub below : AllBelow s index s.nonce
    pub is_value : value h s.workblock (nonce_at index s.nonce) ≡ some reached
    pub enough : s.cost ≤ reached
    pub reported : s'.progress ≡ complete (nonce_at index s.nonce) reached
    pub counted : s'.attempts ≡ s.attempts + index + 1

  -- No nonce of the slice reaches the cost, and the search stands behind it.
  pub record Miss (s s' : StampSearch h) (n : ℕ) : Type 0 where
    pub below : AllBelow s n s.nonce
    pub resumes : s'.nonce ≡ nonce_at n s.nonce
    pub counted : s'.attempts ≡ s.attempts + n
    pub open_or_spent :
        s'.progress ≡ (if s.attempts + n == s.limit then exhausted else searching (s.attempts + n))

  search_loop_lem :
      (n : ℕ) (s : StampSearch h)
      → s.workblock.completed ≡ s.workblock.total
      → (s' : StampSearch h) × (search_loop h n s ≡ some s') × (Hit s s' n ⊎ Miss s s' n)
  unfolding search_loop end_slice
  search_loop_lem zero s e = (
    end_slice h s,
    refl,
    inr (record {
      below = tt;
      resumes = refl;
      counted = omega arith;
      open_or_spent =
          ap (λ a. if a == s.limit then exhausted else searching a) {x = s.attempts}
            {y = s.attempts + 0} (omega arith);
    }),
  )
  search_loop_lem (suc n) s e =
      let v = value_loop 0 (h.finalize (h.update s.workblock.prefix s.nonce)) in
      let known : value h s.workblock s.nonce ≡ some v = value-ready h s.workblock s.nonce e in
      elim (Bool-cases (leb s.cost v)) [
        | inl enough ↦ (
          found h s v,
          search_loop-found h n s v known enough,
          inl (record {
            index = 0;
            reached = v;
            in_slice = omega arith;
            below = tt;
            is_value = known;
            enough = leb→le s.cost v enough;
            reported = refl;
            counted = omega arith;
          }),
        )
        | inr low ↦
            let (s', run, outcome) = search_loop_lem n (tried h s) e in
            (
              s',
              search_loop-missed h n s v known low ∙ run,
              later n s s' v known (leb→lt s.cost v low) outcome,
            )
      ]
    where
      later :
          (n : ℕ) (s s' : StampSearch h) (v : ℕ)
          → value h s.workblock s.nonce ≡ some v
          → v < s.cost
          → Hit (tried h s) s' n ⊎ Miss (tried h s) s' n
          → Hit s s' (suc n) ⊎ Miss s s' (suc n)
      later n s s' v known low (inl o) = inl (record {
        index = suc o.index;
        reached = o.reached;
        in_slice = omega (arith, o);
        below = ((v, known, low), o.below);
        is_value = o.is_value;
        enough = o.enough;
        reported = o.reported;
        counted = omega (arith, o.counted);
      })
      later n s s' v known low (inr o) = inr (record {
        below = ((v, known, low), o.below);
        resumes = o.resumes;
        counted = omega (arith, o.counted);
        open_or_spent =
            o.open_or_spent
            ∙ ap (λ a. if a == s.limit then exhausted else searching a) {x = s.attempts + 1 + n}
                {y = s.attempts + suc n} (omega arith);
      })

  -- A step of a search that searches tries the next nonces in order, as many as the budget and the
  -- limit leave: it reports the first whose value reaches the cost, or none does, and the search
  -- stands at the nonce behind them, exhausted exactly if the limit is reached.
  pub step-searching :
      (round_budget attempt_budget attempts : ℕ) (s : StampSearch h)
      → IsSearch h s
      → s.progress ≡ searching attempts
      → let n = min attempt_budget (s.limit - s.attempts) in
        (s' : StampSearch h) × (step h round_budget attempt_budget s ≡ some s')
        × (Hit s s' n ⊎ Miss s s' n)
  unfolding step step_at
  step-searching round_budget attempt_budget attempts s p e =
      let prepared : s.workblock.completed ≡ s.workblock.total = (subst (Promise h s) e p).0 in
      let (s', run, outcome) =
        search_loop_lem (min attempt_budget (s.limit - s.attempts)) s prepared in
      (s', ap (λ q. step_at h q round_budget attempt_budget s) e ∙ run, outcome)
