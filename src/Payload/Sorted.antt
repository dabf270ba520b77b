-- ===== src/Payload/Sorted.antt =====
-- src/lxmf.rs: the fields that `write_fields` writes for caller-encoded entries, by the format.
use rs_lxmflite.Base.{
  ℕ, zero, suc, ◌+◌, ◌≤◌, ◌<◌, ◌≡◌, refl, sym, ap, ◌∙◌, subst, Bool, true, false, ◌||◌, Bool-cases,
  inl, inr, List, [], ◌∷◌, append-nil, arith, ◌==◌, if◌then◌else◌, length, All, All-append, ==_iff,
  ==_refl, ne→==,
}
use rs_lxmflite.Base.Bytes.{IsByte, IsBytes}
use rs_lxmflite.MsgPack.Grammar.{IsValue}
use rs_lxmflite.Payload.{EncodedField}
use rs_lxmflite.Payload.Bytes.{values_of}
use rs_lxmflite.Payload.FieldSet.{IsTyped, occurs, Distinct, AreValues}

-- An id that has been seen does not come again.
pub Distinct-fresh :
    (fields : List EncodedField) (seen : ℕ → Bool) (k : ℕ)
    → Distinct seen fields
    → seen k ≡ true
    → occurs k fields ≡ false
Distinct-fresh [] seen k d h = refl
Distinct-fresh ((id, value) ∷ fields) seen k (fresh, d) h = elim (Bool-cases (id == k)) [
  | inl same ↦ let clash : seen id ≡ true = ap seen ((==_iff id k).0 same) ∙ h in cc
  | inr other ↦
      rw other
        (Distinct-fresh fields (λ j. id == j || seen j) k d (ap (λ b. b || seen k) other ∙ h))
]

pub values_of-absent :
    (id : ℕ) (fields : List EncodedField) → occurs id fields ≡ false → values_of id fields ≡ []
unfolding values_of
values_of-absent id [] h = refl
values_of-absent id ((k, value) ∷ fields) h = elim (Bool-cases (k == id)) [
  | inl same ↦ cc (rw same at h)
  | inr other ↦ rw other (values_of-absent id fields (rw other at h))
]

-- The value of the field with the id.
pub values_of-IsValue :
    (id : ℕ) (fields : List EncodedField) (seen : ℕ → Bool)
    → Distinct seen fields
    → AreValues fields
    → occurs id fields ≡ true
    → IsValue 8 (values_of id fields)
unfolding values_of
values_of-IsValue id [] seen d vs h = cc
values_of-IsValue id ((k, value) ∷ fields) seen (fresh, d) (v, vs) h = elim (Bool-cases (k == id)) [
  | inl same ↦
      let gone = Distinct-fresh fields (λ j. k == j || seen j) id d (ap (λ b. b || seen id) same) in
      rw (same, values_of-absent id fields gone) (subst (IsValue 8) (sym (append-nil value)) v)
  | inr other ↦ rw other (values_of-IsValue id fields (λ j. k == j || seen j) d vs (rw other at h))
]

pub values_of-IsBytes :
    (id : ℕ) (fields : List EncodedField) → All IsTyped fields → IsBytes (values_of id fields)
unfolding values_of
values_of-IsBytes id [] t = tt
values_of-IsBytes id ((k, value) ∷ fields) (t, ts) =
    let more = values_of-IsBytes id fields ts in
    elim (Bool-cases (k == id)) [
      | inl same ↦ rw same (All-append IsByte value (values_of id fields) t.bytes more)
      | inr other ↦ rw other more
    ]

-- How many of `n` ids from `id` on a set has.
unfoldable pub tally : (ℕ → Bool) → ℕ → ℕ → ℕ
tally f zero id = 0
tally f (suc n) id = (if f id then 1 else 0) + tally f n (id + 1)

tally-out : (f : ℕ → Bool) (k n id : ℕ) → k < id → tally (λ i. k == i || f i) n id ≡ tally f n id
unfolding tally
tally-out f k zero id h = refl
tally-out f k (suc n) id h =
    rw (ne→== k id (λ e. omega arith), tally-out f k n (id + 1) (omega arith)) refl

tally-one :
    (f : ℕ → Bool) (k n id : ℕ)
    → f k ≡ false
    → id ≤ k
    → k < id + n
    → tally (λ i. k == i || f i) n id ≡ 1 + tally f n id
unfolding tally
tally-one f k zero id off low high = absurd (omega arith)
tally-one f k (suc n) id off low high = elim (Bool-cases (k == id)) [
  | inl same ↦
      let at : k ≡ id = (==_iff k id).0 same in
      let clear : f id ≡ false = ap f (sym at) ∙ off in
      rw (same, clear, tally-out f k n (id + 1) (omega arith)) (omega arith)
  | inr other ↦
      let past : id + 1 ≤ k = ground arith in
      rw (other, tally-one f k n (id + 1) off past (omega arith)) (omega arith)
]

tally-none : (n id : ℕ) → tally (λ i. false) n id ≡ 0
unfolding tally
tally-none zero id = refl
tally-none (suc n) id = omega (arith, tally-none n (id + 1))

pub tally-fields :
    (fields : List EncodedField) (seen : ℕ → Bool)
    → All IsTyped fields
    → Distinct seen fields
    → tally (λ i. occurs i fields) 256 0 ≡ length fields
tally-fields [] seen t d = tally-none 256 0
tally-fields ((k, value) ∷ fields) seen (t, ts) (fresh, d) =
    let new =
      Distinct-fresh fields (λ j. k == j || seen j) k d (ap (λ b. b || seen k) (==_refl k)) in
    tally-one (λ i. occurs i fields) k 256 0 new (omega arith) (omega (arith, t.id_fits))
    ∙ omega (arith, tally-fields fields (λ j. k == j || seen j) ts d)
