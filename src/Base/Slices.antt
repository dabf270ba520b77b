-- ===== src/Base/Slices.antt =====
-- Positions in a list: `get_or`, `drop` and `slice` where the list is known from a position on.
use Prim.Native.Nat.{ℕ, zero, suc, ◌+◌, ◌-◌, ◌≤◌, ◌<◌}
use mathlib.Core.Path.{◌≡◌, refl, sym, ap, ◌∙◌}
use mathlib.Core.List.{List, [], ◌∷◌, ◌++◌, append_assoc}
use native.Mathlib.Omega.{arith}
use rs_lxmflite.Base.Lists.{
  length, get_or, set, take, drop, slice, length-append, length-take, length-drop,
  take-length_append, drop-length_append, drop-drop, get_or-drop, take-append-drop,
}

module _ {ℓ} {A : Type ℓ} where
  -- `xs` reads `front` at `pos`, with `back` behind it.
  pub record ReadsAt (xs : List A) (pos : ℕ) (front back : List A) : Type ℓ where
    pub reads : drop pos xs ≡ front ++ back
    pub inside : pos ≤ length xs

  pub ReadsAt-end :
      {xs : List A} {pos : ℕ} {front back : List A}
      → ReadsAt xs pos front back
      → pos + length front + length back ≡ length xs
  ReadsAt-end {xs} {pos} {front} {back} r =
      omega (arith, ap length r.reads, length-drop pos xs, length-append front back, r.inside)

  pub ReadsAt-bound :
      {xs : List A} {pos : ℕ} {front back : List A}
      → ReadsAt xs pos front back
      → pos + length front ≤ length xs
  ReadsAt-bound r = omega (arith, ReadsAt-end r)

  pub get_or-ReadsAt :
      {xs : List A} {pos : ℕ} {x : A} {front back : List A} (d : A)
      → ReadsAt xs pos (x ∷ front) back
      → get_or xs pos d ≡ x
  get_or-ReadsAt {xs} {pos} d r =
      sym (get_or-drop pos 0 pos xs d (omega arith)) ∙ ap (λ ys. get_or ys 0 d) r.reads

  -- Past a first part of what is read, the rest is read.
  pub ReadsAt-skip :
      {xs : List A} {pos : ℕ} (front mid back : List A) (q : ℕ)
      → q ≡ pos + length front
      → ReadsAt xs pos (front ++ mid) back
      → ReadsAt xs q mid back
  ReadsAt-skip {xs} {pos} front mid back q e r = record {
    reads =
        sym (drop-drop pos (length front) q xs e)
        ∙ ap (drop (length front)) (r.reads ∙ append_assoc front mid back)
        ∙ drop-length_append (length front) front (mid ++ back) refl;
    inside = omega (arith, ReadsAt-bound r, length-append front mid);
  }

  -- The first part of what is read, as a reading of its own.
  pub ReadsAt-first :
      {xs : List A} {pos : ℕ} (front mid back : List A)
      → ReadsAt xs pos (front ++ mid) back
      → ReadsAt xs pos front (mid ++ back)
  ReadsAt-first front mid back r = record {
    reads = r.reads ∙ append_assoc front mid back;
    inside = r.inside;
  }

  pub slice-ReadsAt :
      {xs : List A} {pos : ℕ} {front back : List A} (e : ℕ)
      → e ≡ pos + length front
      → ReadsAt xs pos front back
      → slice xs pos e ≡ front
  slice-ReadsAt {xs} {pos} {front} {back} e h r =
      ap (take (e - pos)) r.reads ∙ take-length_append (e - pos) front back (omega arith)

  pub take-ReadsAt :
      {xs : List A} {pos : ℕ} {front back : List A} (n : ℕ)
      → n ≡ length front
      → ReadsAt xs pos front back
      → take n (drop pos xs) ≡ front
  take-ReadsAt {front} {back} n h r = ap (take n) r.reads ∙ take-length_append n front back h

  pub length-slice : (xs : List A) (p e : ℕ) → p ≤ e → e ≤ length xs → length (slice xs p e) ≡ e - p
  length-slice xs p e h k = omega (arith, length-take (e - p) (drop p xs), length-drop p xs)

  -- What stands between two positions is read at the first.
  pub ReadsAt-slice :
      (xs : List A) (p e : ℕ) → p ≤ e → e ≤ length xs → ReadsAt xs p (slice xs p e) (drop e xs)
  ReadsAt-slice xs p e h k = record {
    reads =
        sym (take-append-drop (e - p) (drop p xs))
        ∙ ap (λ ys. slice xs p e ++ ys) (drop-drop p (e - p) e xs (omega arith));
    inside = omega arith;
  }

  -- A reading of as many elements as lie between two positions is that slice.
  pub slice-append :
      (xs : List A) (p q e : ℕ)
      → p ≤ q
      → q ≤ e
      → e ≤ length xs
      → slice xs p e ≡ slice xs p q ++ slice xs q e
  slice-append xs p q e h k l =
      slice-ReadsAt e
        (omega (
          arith,
          length-append (slice xs p q) (slice xs q e),
          length-slice xs p q h (omega arith),
          length-slice xs q e k l,
        ))
        (record {
          reads =
              (ReadsAt-slice xs p q h (omega arith)).reads
              ∙ ap (λ ys. slice xs p q ++ ys) (ReadsAt-slice xs q e k l).reads
              ∙ sym (append_assoc (slice xs p q) (slice xs q e) (drop e xs));
          inside = omega arith;
        })

  pub drop-cons :
      (xs : List A) (p : ℕ) (d : A) → p < length xs → drop p xs ≡ get_or xs p d ∷ drop (suc p) xs
  drop-cons [] p d h = absurd (omega arith)
  drop-cons (x ∷ xs) zero d h = refl
  drop-cons (x ∷ xs) (suc p) d h = drop-cons xs p d (omega arith)

  pub slice-cons :
      (xs : List A) (p e : ℕ) (d : A)
      → p < e
      → e ≤ length xs
      → slice xs p e ≡ get_or xs p d ∷ slice xs (p + 1) e
  slice-cons xs p e d h k =
      let step = ReadsAt-slice xs (p + 1) e (omega arith) k in
      slice-ReadsAt e (omega (arith, length-slice xs (p + 1) e (omega arith) k)) (record {
        reads =
            drop-cons xs p d (omega arith)
            ∙ ap (λ ys. get_or xs p d ∷ ys)
                (ap (λ j. drop j xs) (let s : suc p ≡ p + 1 = omega arith in s) ∙ step.reads);
        inside = omega arith;
      })

  pub slice_one :
      (xs : List A) (p e : ℕ) (d : A)
      → e ≡ p + 1
      → p < length xs
      → slice xs p e ≡ get_or xs p d ∷ []
  slice_one xs p e d q h =
      let nothing : e - (p + 1) ≡ 0 = omega arith in
      slice-cons xs p e d (omega arith) (omega arith) ∙ rw nothing

-- To set the element behind a known front.
pub set_behind :
    (n : ℕ) (front back : List ℕ) (x v : ℕ)
    → n ≡ length front
    → set (front ++ (x ∷ back)) n v ≡ front ++ (v ∷ back)
set_behind zero [] back x v e = refl
set_behind zero (y ∷ front) back x v e = absurd (omega arith)
set_behind (suc n) [] back x v e = absurd (omega arith)
set_behind (suc n) (y ∷ front) back x v e =
    ap (λ t. y ∷ t) (set_behind n front back x v (omega arith))
