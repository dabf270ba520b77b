-- ===== src/MsgPack/Bounds.antt =====
-- Where `skip_value` and `read_bin` can leave the position.
use rs_lxmflite.Base.{
  ℕ, zero, suc, ◌+◌, ◌-◌, ◌≤◌, ◌<◌, ◌≡◌, List, arith, length, get_or, leb, Bool-cases, inl, inr,
}
use rs_lxmflite.Base.Result.{Result, ok, >>=-eq-ok}
use rs_lxmflite.MsgPack.{
  Format, single, reserved, fixed, sized, items, sized_array, sized_map, format, len_at, kv, skip_n,
  skip_format, skip_level, skip_value,
}
use rs_lxmflite.MsgPack.Prefix.{body-eq_ok, len_at_inside}

-- A walker that goes forward and stays inside `len`.
abbrev pub Forward : ℕ → (ℕ → Result ℕ) → Type 0
Forward len next = (p e : ℕ) → next p ≡ ok e → (p < e) × (e ≤ len)

pub skip_n-Forward :
    {len : ℕ} (next : ℕ → Result ℕ)
    → Forward len next
    → (count p e : ℕ) → p ≤ len
    → skip_n next count p ≡ ok e
    → (p + count ≤ e) × (e ≤ len)
unfolding skip_n
skip_n-Forward next f zero p e i h = ground arith
skip_n-Forward next f (suc count) p e i h =
    let (q, hq, rest) = >>=-eq-ok (next p) _ h in
    let step = f p q hq in omega (arith, skip_n-Forward next f count q e step.1 rest)

module _ (dat : List ℕ) (next : ℕ → Result ℕ) (f : Forward (length dat) next) where
  pub skip_format_forward :
      (p e : ℕ) (m : Format)
      → p ≤ length dat
      → skip_format next dat p m ≡ ok e
      → (p ≤ e) × (e ≤ length dat)
  unfolding skip_format
  skip_format_forward p e single i h = ground arith
  skip_format_forward p e reserved i h = cc
  skip_format_forward p e (fixed n) i h = omega (arith, body-eq_ok dat p n h)
  skip_format_forward p e (items n) i h = omega (arith, skip_n-Forward next f n p e i h)
  skip_format_forward p e (sized nb) i h =
      let (n, hn, hb) = >>=-eq-ok (len_at dat p nb) _ h in
      omega (arith, body-eq_ok dat (p + nb) n hb)
  skip_format_forward p e (sized_array nb) i h =
      let (n, hn, hb) = >>=-eq-ok (len_at dat p nb) _ h in
      omega (arith, skip_n-Forward next f n (p + nb) e (len_at_inside dat p nb hn) hb)
  skip_format_forward p e (sized_map nb) i h =
      let (n, hn, hk) = >>=-eq-ok (len_at dat p nb) _ h in
      let (m, hm, hb) = >>=-eq-ok (kv n) _ hk in
      omega (arith, skip_n-Forward next f m (p + nb) e (len_at_inside dat p nb hn) hb)

pub skip_level-Forward : (room : ℕ) (dat : List ℕ) → Forward (length dat) (skip_level room dat)
unfolding skip_level
skip_level-Forward zero dat p e h = cc
skip_level-Forward (suc room) dat p e h = elim (Bool-cases (leb (length dat) p)) [
  | inl out ↦ cc (rw out at h)
  | inr inside ↦
      let step =
        skip_format_forward dat (skip_level room dat) (skip_level-Forward room dat) (p + 1) e
          (format (get_or dat p 0)) (ground arith) (rw inside at h) in
      omega (arith, step)
]

-- Whatever the bytes, the position and the depth, a position that `skip_value` returns lies behind
-- the one it was given and not behind the end of the slice.
pub skip_value_bounds :
    (dat : List ℕ) (pos depth e : ℕ)
    → skip_value dat pos depth ≡ ok e
    → (pos < e) × (e ≤ length dat)
unfolding skip_value
skip_value_bounds dat pos depth e h = skip_level-Forward (9 - depth) dat pos e h
