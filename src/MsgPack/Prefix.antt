-- ===== src/MsgPack/Prefix.antt =====
-- Length prefixes and bodies: `body` and `len_at` with their checks, in plain arithmetic.
use rs_lxmflite.Base.{
  ℕ, ◌+◌, ◌-◌, ◌*◌, ◌≤◌, ◌<◌, ◌≡◌, refl, some, List, [], ◌∷◌, arith, length, take, drop,
  length-take, All-take, All-drop, usize_mod,
}
use rs_lxmflite.Base.Bytes.{IsByte, IsBytes, be_from, be_value, be_from-ge, be_value-lt}
use rs_lxmflite.Base.Result.{ok, >>=-eq-ok}
use rs_lxmflite.MsgPack.{body, len_loop, len_at, kv}

pub body-ok :
    (dat : List ℕ) (p n : ℕ)
    → length dat < usize_mod
    → p + n ≤ length dat
    → body dat p n ≡ ok (p + n)
unfolding body
body-ok dat p n s h = ground arith

pub body-eq_ok :
    (dat : List ℕ) (p n : ℕ) {e : ℕ} → body dat p n ≡ ok e → (e ≡ p + n) × (e ≤ length dat)
unfolding body
body-eq_ok dat p n h = ground arith

len_loop-be_from :
    (v : ℕ) (bs : List ℕ) → be_from v bs < usize_mod → len_loop v bs ≡ some (be_from v bs)
unfolding len_loop
len_loop-be_from v [] h = refl
len_loop-be_from v (b ∷ bs) h =
    ground (arith, be_from-ge (v * 256 + b) bs, len_loop-be_from (v * 256 + b) bs h)

-- A prefix that lies in the slice is read as a big-endian number.
pub len_at-ok :
    (dat : List ℕ) (p nb : ℕ)
    → length dat < usize_mod
    → IsBytes dat
    → nb ≤ 4
    → p + nb ≤ length dat
    → len_at dat p nb ≡ ok (be_value (take nb (drop p dat)))
unfolding len_at
len_at-ok dat p nb s bs n4 h =
    let e : p + nb - p ≡ nb = omega arith in
    rw (body-ok dat p nb s h, e, len_loop-be_from 0 (take nb (drop p dat)) small)
  where
    small : be_value (take nb (drop p dat)) < usize_mod
    small =
        be_value-lt _ (All-take IsByte nb _ (All-drop IsByte p dat bs))
          (omega (arith, length-take nb (drop p dat)))

pub len_at_inside : (dat : List ℕ) (p nb : ℕ) {n : ℕ} → len_at dat p nb ≡ ok n → p + nb ≤ length dat
unfolding len_at
len_at_inside dat p nb h =
    let (e, q, _) = >>=-eq-ok (body dat p nb) _ h in omega (arith, body-eq_ok dat p nb q)

-- A prefix that is read lies in the slice, and is that number.
pub len_at-eq_ok :
    (dat : List ℕ) (p nb : ℕ) {n : ℕ}
    → length dat < usize_mod
    → IsBytes dat
    → nb ≤ 4
    → len_at dat p nb ≡ ok n
    → (p + nb ≤ length dat) × (n ≡ be_value (take nb (drop p dat)))
len_at-eq_ok dat p nb s bs n4 h =
    let inside = len_at_inside dat p nb h in
    (inside, ground (arith, len_at-ok dat p nb s bs n4 inside))

-- A map's doubled count is exact where it is not refused.
pub kv-ok : (n : ℕ) → n * 2 < usize_mod → kv n ≡ ok (n * 2)
unfolding kv
kv-ok n h = ground arith

pub kv-eq_ok : (n : ℕ) {m : ℕ} → kv n ≡ ok m → m ≡ n * 2
unfolding kv
kv-eq_ok n h = ground arith
