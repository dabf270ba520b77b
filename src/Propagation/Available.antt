-- ===== src/Propagation/Available.antt =====
-- src/propagation.rs: `available_at` and `response_data` in terms of the items of their arrays.
use rs_lxmflite.Base.{
  ℕ, zero, suc, ◌+◌, ◌≡◌, Option, none, some, List, [], ◌∷◌, ◌==◌, if◌then◌else◌, length,
}
use rs_lxmflite.Base.Result.{err, malformed_payload, Result, ok, ◌>>=◌}
use rs_lxmflite.MsgPack.Blob.{IsBlob}
use rs_lxmflite.Propagation.{transient_id}

-- The ids that items hold, or the first error among them.
abbrev ids_of : List (List ℕ) → Result (List (List ℕ))
ids_of [] = ok []
ids_of (x ∷ xs) = transient_id x >>= λ id. (ids_of xs >>= λ ids. ok (id ∷ ids))

-- `slice.get(index)`
abbrev pub nth : List (List ℕ) → ℕ → Option (List ℕ)
nth [] n = none
nth (x ∷ xs) zero = some x
nth (x ∷ xs) (suc n) = nth xs n

-- What the loop picks from ids that begin at a position.
abbrev pick : ℕ → ℕ → List (List ℕ) → Option (List ℕ) → Option (List ℕ)
pick index position [] found = found
pick index position (id ∷ ids) found =
    pick index (position + 1) ids (if position == index then some id else found)

-- The items are bin or str values of 32 bytes each, with these contents.
pub data AreIds : List (List ℕ) → List (List ℕ) → Type 0 where
  no_ids : AreIds [] []
  an_id :
      {x id : List ℕ} {xs ids : List (List ℕ)}
      → IsBlob x id
      → length id ≡ 32
      → AreIds xs ids
      → AreIds (x ∷ xs) (id ∷ ids)

-- What is made of the content that is read.
from_read : Result (List ℕ × ℕ) → Result (List ℕ)
from_read (err e) = err malformed_payload
from_read (ok (id, end)) = if length id == 32 then ok id else err malformed_payload
