-- ===== src/Stamp/Prefix.antt =====
-- The workblock: preparation in slices of any size, and the hash that it prepares.
use rs_lxmflite.Base.{
  ℕ, zero, suc, ◌+◌, ◌-◌, ◌≤◌, ◌<◌, ◌≡◌, refl, sym, ap, ◌∙◌, none, some, List, [], ◌++◌, arith, min,
  leb, ==_iff, ne→==, le→leb, lt→leb, if◌then◌else◌, dec_le,
}
use rs_lxmflite.Stamp.Zeros.{bits_of, zeros, value_loop-zeros}
use rs_lxmflite.Stamp.{
  Hashing, StampKind, rounds, value_loop, Workblock, new_workblock, ready, chunk, advance_round,
  advance_loop, advance, value,
}

-- Absorbing in parts is absorbing the whole.
pub record UpdateLaws (h : Hashing) : Type 0 where
  pub update_nil : (s : h.Sha256) → h.update s [] ≡ s
  pub update_append :
      (s : h.Sha256) (a b : List ℕ) → h.update (h.update s a) b ≡ h.update s (a ++ b)

module _ (h : Hashing) where
  open h use {Sha256, new, update, finalize}

  -- The chunks of `n` rounds from `first` on.
  unfoldable pub blocks : List ℕ → ℕ → ℕ → List ℕ
  blocks material first zero = []
  blocks material first (suc n) = chunk h material first ++ blocks material (first + 1) n

  pub advance_loop-add :
      (m n : ℕ) (w : Workblock h) → advance_loop h (m + n) w ≡ advance_loop h n (advance_loop h m w)
  unfolding advance_loop
  advance_loop-add zero n w = ap (λ k. advance_loop h k w) {x = 0 + n} {y = n} (omega arith)
  advance_loop-add (suc m) n w =
      ap (λ k. advance_loop h k w) {x = suc m + n} {y = suc (m + n)} (omega arith)
      ∙ advance_loop-add m n (advance_round h w)

  pub advance_loop-total : (n : ℕ) (w : Workblock h) → (advance_loop h n w).total ≡ w.total
  unfolding advance_loop
  advance_loop-total zero w = refl
  advance_loop-total (suc n) w =
      advance_loop-total n (advance_round h w) ∙ (unfold advance_round in refl)

  pub advance_loop-completed :
      (n : ℕ) (w : Workblock h) → (advance_loop h n w).completed ≡ w.completed + n
  unfolding advance_loop advance_round
  advance_loop-completed zero w = omega arith
  advance_loop-completed (suc n) w = advance_loop-completed n (advance_round h w) ∙ omega arith

  pub advance_loop-material : (n : ℕ) (w : Workblock h) → (advance_loop h n w).material ≡ w.material
  unfolding advance_loop advance_round
  advance_loop-material zero w = refl
  advance_loop-material (suc n) w = advance_loop-material n (advance_round h w)

  pub advance_loop-prefix :
      (laws : UpdateLaws h) (n : ℕ) (w : Workblock h)
      → (advance_loop h n w).prefix ≡ update w.prefix (blocks w.material w.completed n)
  unfolding advance_loop advance_round blocks
  advance_loop-prefix laws zero w = sym (laws.update_nil w.prefix)
  advance_loop-prefix laws (suc n) w =
      advance_loop-prefix laws n (advance_round h w)
      ∙ laws.update_append w.prefix (chunk h w.material w.completed)
          (blocks w.material (w.completed + 1) n)

  -- Two slices of preparation are one with the sum of their budgets.
  pub advance-advance :
      (a b : ℕ) (w : Workblock h)
      → w.completed ≤ w.total
      → advance h b (advance h a w) ≡ advance h (a + b) w
  unfolding advance
  advance-advance a b w le =
      let m = min a (w.total - w.completed) in
      let left = (advance_loop h m w).total - (advance_loop h m w).completed in
      sym (advance_loop-add m (min b left) w)
      ∙ ap (λ k. advance_loop h k w) {x = m + min b left} {y = min (a + b) (w.total - w.completed)}
          (omega (arith, advance_loop-total m w, advance_loop-completed m w))

  pub value-ready :
      (w : Workblock h) (stamp : List ℕ)
      → w.completed ≡ w.total
      → value h w stamp ≡ some (value_loop 0 (finalize (update w.prefix stamp)))
  unfolding value ready
  value-ready w stamp e = rw ((==_iff w.completed w.total).1 e) refl

  value-unready :
      (w : Workblock h) (stamp : List ℕ) → w.completed < w.total → value h w stamp ≡ none
  unfolding value ready
  value-unready w stamp lt = rw (ne→== w.completed w.total (λ e. omega arith)) refl

  -- From a new workblock, the value of a stamp is there exactly if the budgets of the slices of
  -- preparation sum up to the rounds of the kind at least; it is then the count of the leading zero
  -- bits in the hash of all the chunks and the stamp.
  pub value-advance :
      (laws : UpdateLaws h) (material stamp : List ℕ) (kind : StampKind) (budget : ℕ)
      → value h (advance h budget (new_workblock h material kind)) stamp ≡ (
          if leb (rounds kind) budget
          then some
              (zeros (bits_of (finalize (update new (blocks material 0 (rounds kind) ++ stamp)))))
          else none)
  unfolding advance new_workblock
  value-advance laws material stamp kind budget =
      let fresh = new_workblock h material kind in
      let n = min budget (rounds kind - 0) in
      let count = advance_loop-completed n fresh in
      let total = advance_loop-total n fresh in
      elim (dec_le (rounds kind) budget) [
        | yes enough ↦ rw (le→leb (rounds kind) budget enough) (
            value-ready (advance_loop h n fresh) stamp (omega (arith, count, total))
            ∙ ap (λ p. some (value_loop 0 (finalize (update p stamp))))
                (advance_loop-prefix laws n fresh)
            ∙ ap
                (λ k.
                  some (value_loop 0 (finalize (update (update new (blocks material 0 k)) stamp))))
                {x = n} {y = rounds kind} (omega arith)
            ∙ ap (λ p. some (value_loop 0 (finalize p)))
                (laws.update_append new (blocks material 0 (rounds kind)) stamp)
            ∙ ap some (value_loop-zeros 0 _ ∙ omega arith))
        | no short ↦
            rw (lt→leb (rounds kind) budget (omega arith))
              (value-unready (advance_loop h n fresh) stamp (omega (arith, count, total)))
      ]
