-- ===== src/MsgPack/Sound.antt =====
-- Whatever the walker skips is a value of the grammar.
use rs_lxmflite.Base.{
  ℕ, zero, suc, ◌+◌, ◌-◌, ◌*◌, ◌≤◌, ◌<◌, ◌≡◌, ◌≢◌, refl, sym, ap, ◌∙◌, List, [], ◌∷◌, ◌++◌, arith,
  length, get_or, take, drop, slice, leb, usize_mod, subst, inl, inr, Bool-cases, length-take,
  length-drop,
}
use rs_lxmflite.Base.Bytes.{IsBytes, IsByte, be_value}
use rs_lxmflite.Base.Slices.{length-slice, slice-append, slice-cons}
use rs_lxmflite.Base.Result.{Result, ok, >>=-eq-ok}
use rs_lxmflite.MsgPack.{
  Format, fixed, sized, items, sized_array, sized_map, single, reserved, format, len_at, kv, skip_n,
  skip_format, skip_level, skip_value,
}
use rs_lxmflite.MsgPack.Grammar.{
  Lead, IsValue, IsRow, alone, plain, prefixed, short_row, array, dictionary, done, more,
}
use rs_lxmflite.MsgPack.Markers.{format-Lead, prefix_width-le}
use rs_lxmflite.MsgPack.Prefix.{body-eq_ok, len_at-eq_ok, kv-eq_ok}
use rs_lxmflite.MsgPack.Bounds.{Forward, skip_n-Forward, skip_level-Forward, skip_format_forward}

-- A walker over `dat` that skips values only.
abbrev SkipsValues : List ℕ → ℕ → (ℕ → Result ℕ) → Type 0
SkipsValues dat room next = (p e : ℕ) → next p ≡ ok e → IsValue room (slice dat p e)

pub IsByte-get_or : (dat : List ℕ) (p : ℕ) → IsBytes dat → IsByte (get_or dat p 0)
IsByte-get_or [] p h = omega arith
IsByte-get_or (x ∷ xs) zero h = h.0
IsByte-get_or (x ∷ xs) (suc p) h = IsByte-get_or xs p h.1

module _ (dat : List ℕ) (small : length dat < usize_mod) (bytes : IsBytes dat) where
  skip_n_sound :
      {room : ℕ} (next : ℕ → Result ℕ)
      → Forward (length dat) next
      → SkipsValues dat room next
      → (count p e : ℕ) → p ≤ length dat
      → skip_n next count p ≡ ok e
      → IsRow room count (slice dat p e)
  unfolding skip_n
  skip_n_sound {room} next f v zero p e i h = let same : e - p ≡ 0 = ground arith in rw same done
  skip_n_sound next f v (suc count) p e i h =
      let (q, hq, rest) = >>=-eq-ok (next p) _ h in
      let step = f p q hq in
      let far = skip_n-Forward next f count q e step.1 rest in
      more (slice dat p q) (slice dat q e) (v p q hq) (skip_n_sound next f v count q e step.1 rest)
        (slice-append dat p q e (omega arith) (omega arith) far.1)

  -- A length prefix, and what stands between it and `e`.
  record Prefixed (p nb n e : ℕ) : Type 0 where
    width : length (take nb (drop p dat)) ≡ nb
    value : n ≡ be_value (take nb (drop p dat))
    parts : slice dat p e ≡ take nb (drop p dat) ++ slice dat (p + nb) e

  prefix_parts :
      (p nb n e : ℕ)
      → nb ≤ 4
      → p + nb ≤ e
      → e ≤ length dat
      → len_at dat p nb ≡ ok n
      → Prefixed p nb n e
  prefix_parts p nb n e w i k h =
      let (inside, v) = len_at-eq_ok dat p nb small bytes w h in
      let cut : p + nb - p ≡ nb = omega arith in
      record {
        width = omega (arith, length-take nb (drop p dat), length-drop p dat);
        value = v;
        parts = slice-append dat p (p + nb) e (omega arith) i k ∙ rw cut;
      }

  skip_format_sound :
      {room b : ℕ} (next : ℕ → Result ℕ)
      → Forward (length dat) next
      → SkipsValues dat room next
      → (p e : ℕ) (m : Format) → p ≤ length dat
      → Lead b m
      → skip_format next dat p m ≡ ok e
      → IsValue (suc room) (b ∷ slice dat p e)
  unfolding skip_format
  skip_format_sound next f v p e single i l h =
      let same : e - p ≡ 0 = ground arith in rw same (alone l)
  skip_format_sound next f v p e reserved i l h = cc
  skip_format_sound {room} {b} next f v p e (fixed n) i l h =
      let at_end = body-eq_ok dat p n h in
      let len : n ≡ length (slice dat p e) =
        omega (arith, length-slice dat p e (omega arith) at_end.1) in
      plain (subst (λ k. Lead b (fixed k)) len l)
  skip_format_sound next f v p e (items n) i l h = short_row l (skip_n_sound next f v n p e i h)
  skip_format_sound {room} {b} next f v p e (sized nb) i l h =
      let (n, hn, hb) = >>=-eq-ok (len_at dat p nb) _ h in
      let at_end = body-eq_ok dat (p + nb) n hb in
      let parts = prefix_parts p nb n e (prefix_width-le l) (omega arith) at_end.1 hn in
      prefixed (take nb (drop p dat)) (slice dat (p + nb) e)
        (subst (λ k. Lead b (sized k)) (sym parts.width) l)
        (omega (arith, length-slice dat (p + nb) e (omega arith) at_end.1, parts.value)) parts.parts
  skip_format_sound {room} {b} next f v p e (sized_array nb) i l h =
      let (n, hn, hb) = >>=-eq-ok (len_at dat p nb) _ h in
      let start = (len_at-eq_ok dat p nb small bytes (prefix_width-le l) hn).0 in
      let far = skip_n-Forward next f n (p + nb) e start hb in
      let parts = prefix_parts p nb n e (prefix_width-le l) (omega arith) far.1 hn in
      array (take nb (drop p dat)) (slice dat (p + nb) e)
        (subst (λ k. Lead b (sized_array k)) (sym parts.width) l) parts.value
        (skip_n_sound next f v n (p + nb) e start hb) parts.parts
  skip_format_sound {room} {b} next f v p e (sized_map nb) i l h =
      let (n, hn, hk) = >>=-eq-ok (len_at dat p nb) _ h in
      let (m, hm, hb) = >>=-eq-ok (kv n) _ hk in
      let start = (len_at-eq_ok dat p nb small bytes (prefix_width-le l) hn).0 in
      let far = skip_n-Forward next f m (p + nb) e start hb in
      let parts = prefix_parts p nb n e (prefix_width-le l) (omega arith) far.1 hn in
      dictionary (take nb (drop p dat)) (slice dat (p + nb) e)
        (subst (λ k. Lead b (sized_map k)) (sym parts.width) l)
        (kv-eq_ok n hm ∙ ap (λ k. k * 2) parts.value) (skip_n_sound next f v m (p + nb) e start hb)
        parts.parts

skip_format_lead :
    (next : ℕ → Result ℕ) (dat : List ℕ) (p : ℕ) {e : ℕ} {m : Format}
    → skip_format next dat p m ≡ ok e
    → m ≢ reserved
unfolding skip_format
skip_format_lead next dat p {e} {m} h q = cc (ap (skip_format next dat p) q)

skip_level_sound :
    (dat : List ℕ)
    → length dat < usize_mod
    → IsBytes dat
    → (room : ℕ) → SkipsValues dat room (skip_level room dat)
unfolding skip_level
skip_level_sound dat small bytes zero p e h = cc
skip_level_sound dat small bytes (suc room) p e h = elim (Bool-cases (leb (length dat) p)) [
  | inl out ↦ cc (rw out at h)
  | inr inside ↦
      let step = rw inside at h in
      let next : ℕ → Result ℕ = skip_level room dat in
      let b = get_or dat p 0 in
      let l =
        format-Lead (format b) (IsByte-get_or dat p bytes) (skip_format_lead next dat (p + 1) step)
          refl in
      let forward = skip_level-Forward room dat in
      let far = skip_format_forward dat next forward (p + 1) e (format b) (ground arith) step in
      rw (slice-cons dat p e 0 (omega arith) far.1) (
        skip_format_sound dat small bytes next forward (skip_level_sound dat small bytes room)
          (p + 1) e (format b) (ground arith) l step)
]

-- What `skip_value` steps over is one complete value of the format, which is not and does not hold a
-- value of an extension type, nested at most as deep as the
-- depth leaves room for. (The slice is of bytes, and shorter than the address space.)
pub skip_value_sound :
    (dat : List ℕ) (pos depth e : ℕ)
    → length dat < usize_mod
    → IsBytes dat
    → skip_value dat pos depth ≡ ok e
    → IsValue (9 - depth) (slice dat pos e)
unfolding skip_value
skip_value_sound dat pos depth e small bytes h =
    skip_level_sound dat small bytes (9 - depth) pos e h
