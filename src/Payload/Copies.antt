-- ===== src/Payload/Copies.antt =====
-- What copies into a buffer leave in it.
use rs_lxmflite.Base.{
  ℕ, ◌+◌, ◌-◌, ◌≤◌, ◌≡◌, refl, sym, ap, ap₂, ◌∙◌, List, [], ◌++◌, append_assoc, append-nil, arith,
  length, take, drop, slice, length-append, length-take, length-drop, take-take, drop-take,
  take-length_append, drop-length_append, drop-drop, take-append-drop,
}
use rs_lxmflite.Payload.{copy_at}

-- A copy behind a known front joins it.
pub copy_behind_front :
    (n : ℕ) (front back bytes : List ℕ)
    → n ≡ length front
    → copy_at n bytes (front ++ back) ≡ (front ++ bytes) ++ drop (length bytes) back
copy_behind_front n front back bytes e =
    ap₂ (λ (a b : List ℕ). a ++ (bytes ++ b)) (take-length_append n front back e)
      (sym (drop-drop n (length bytes) (n + length bytes) (front ++ back) refl)
        ∙ ap (drop (length bytes)) (drop-length_append n front back e))
    ∙ sym (append_assoc front bytes (drop (length bytes) back))

-- Behind the start of a copy stand the copied bytes.
pub drop-copy_at :
    (n : ℕ) (bytes out : List ℕ)
    → n ≤ length out
    → drop n (copy_at n bytes out) ≡ bytes ++ drop (n + length bytes) out
drop-copy_at n bytes out h =
    drop-length_append n (take n out) (bytes ++ drop (n + length bytes) out)
      (omega (arith, length-take n out))

pub length-copy_at :
    (n : ℕ) (bytes out : List ℕ)
    → n + length bytes ≤ length out
    → length (copy_at n bytes out) ≡ length out
length-copy_at n bytes out h = omega (
  arith,
  length-append (take n out) (bytes ++ drop (n + length bytes) out),
  length-append bytes (drop (n + length bytes) out),
  length-take n out,
  length-drop (n + length bytes) out,
)

-- The copied bytes, read from a front of the buffer that has them.
pub slice-copy_at :
    (n m : ℕ) (bytes out : List ℕ)
    → n + length bytes ≤ m
    → m ≤ length out
    → slice (take m (copy_at n bytes out)) n (n + length bytes) ≡ bytes
slice-copy_at n m bytes out h k =
    ap (take (n + length bytes - n)) (drop-take n m (m - n) (copy_at n bytes out) refl)
    ∙ take-take (n + length bytes - n) (m - n) (drop n (copy_at n bytes out)) (omega arith)
    ∙ ap (take (n + length bytes - n)) (drop-copy_at n bytes out (omega arith))
    ∙ take-length_append (n + length bytes - n) bytes _ (omega arith)

-- In front of a copy, a buffer stays as it was.
pub take-copy_at :
    (k n : ℕ) (bytes out : List ℕ)
    → k ≤ n
    → n ≤ length out
    → take k (copy_at n bytes out) ≡ take k out
take-copy_at k n bytes out h room =
    sym (take-take k n (copy_at n bytes out) h)
    ∙ ap (take k) (take-length_append n (take n out) _ (omega (arith, length-take n out)))
    ∙ take-take k n out h

pub drop_all : (xs : List ℕ) → drop (length xs) xs ≡ []
drop_all xs =
    ap (drop (length xs)) (sym (append-nil xs)) ∙ drop-length_append (length xs) xs [] refl

-- A copy of what stands there changes nothing.
pub copy_same : (n : ℕ) (xs : List ℕ) → copy_at n (drop n xs) xs ≡ xs
copy_same n xs =
    ap (λ t. take n xs ++ (drop n xs ++ t))
      (sym (drop-drop n (length (drop n xs)) (n + length (drop n xs)) xs refl)
        ∙ drop_all (drop n xs))
    ∙ ap (λ t. take n xs ++ t) (append-nil (drop n xs))
    ∙ take-append-drop n xs

-- The front of a buffer and a copy behind it.
pub front-copy_at :
    (n : ℕ) (front bytes out : List ℕ)
    → n ≡ length front
    → take n out ≡ front
    → take (n + length bytes) (copy_at n bytes out) ≡ front ++ bytes
front-copy_at n front bytes out e h =
    ap (λ f. take (n + length bytes) (f ++ (bytes ++ drop (n + length bytes) out))) h
    ∙ ap (take (n + length bytes)) (sym (append_assoc front bytes (drop (n + length bytes) out)))
    ∙ take-length_append (n + length bytes) (front ++ bytes) _
        (omega (arith, length-append front bytes))
