-- ===== src/MsgPack/Complete.antt =====
-- The walker accepts every value of the grammar, wherever it stands in a slice.
use rs_lxmflite.Base.{
  ℕ, suc, ◌+◌, ◌-◌, ◌*◌, ◌≤◌, ◌<◌, ◌≡◌, refl, sym, ap, ◌∙◌, List, [], ◌∷◌, ◌++◌, arith, length,
  lt→leb, usize_mod, length-append,
}
use rs_lxmflite.Base.Bytes.{IsBytes, be_value}
use rs_lxmflite.Base.Slices.{
  ReadsAt, ReadsAt-bound, get_or-ReadsAt, ReadsAt-skip, ReadsAt-first, take-ReadsAt,
}
use rs_lxmflite.Base.Result.{Result, ok, ◌>>=◌}
use rs_lxmflite.MsgPack.{
  Format, sized, sized_array, sized_map, len_at, skip_n, skip_format, skip_level, skip_value,
}
use rs_lxmflite.MsgPack.Grammar.{
  Lead, IsValue, IsRow, alone, plain, prefixed, short_row, array, dictionary, done, more,
}
use rs_lxmflite.MsgPack.Markers.{Lead-format, prefix_width-le}
use rs_lxmflite.MsgPack.Prefix.{body-ok, len_at-ok, kv-ok}

-- A value has a byte at least, so a row is no shorter than its number of values.
IsValue-length : {room : ℕ} {bs : List ℕ} → IsValue room bs → 1 ≤ length bs
IsValue-length (alone l) = omega arith
IsValue-length _ = omega arith

pub IsRow-length : {room n : ℕ} {bs : List ℕ} → IsRow room n bs → n ≤ length bs
IsRow-length done = omega arith
IsRow-length (more xs ys v row e) =
    omega (arith, IsValue-length v, IsRow-length row, ap length e, length-append xs ys)

module _ (dat : List ℕ) (small : length dat < usize_mod) (bytes : IsBytes dat) where
  -- The length prefix that stands behind a marker.
  prefix-ReadsAt :
      {m : Format} {b : ℕ} (l : Lead b m) (p : ℕ) (hdr bs back : List ℕ)
      → length hdr ≤ 4
      → ReadsAt dat p (hdr ++ bs) back
      → len_at dat p (length hdr) ≡ ok (be_value hdr)
  prefix-ReadsAt l p hdr bs back w r =
      len_at-ok dat p (length hdr) small bytes w
        (omega (arith, ReadsAt-bound r, length-append hdr bs))
      ∙ ap (λ h. ok (be_value h)) (take-ReadsAt (length hdr) refl (ReadsAt-first hdr bs back r))

  -- One step: past a marker of the table, its arm is taken.
  skip_level-Lead :
      {m : Format} {b : ℕ} (room pos : ℕ) (xs back : List ℕ)
      → Lead b m
      → ReadsAt dat pos (b ∷ xs) back
      → skip_level (suc room) dat pos ≡ skip_format (skip_level room dat) dat (pos + 1) m
  unfolding skip_level
  skip_level-Lead room pos xs back l r =
      rw (
        lt→leb (length dat) pos (omega (arith, ReadsAt-bound r)),
        get_or-ReadsAt 0 r,
        Lead-format l,
      )

  behind_marker :
      {b : ℕ} (pos : ℕ) (xs back : List ℕ)
      → ReadsAt dat pos (b ∷ xs) back
      → ReadsAt dat (pos + 1) xs back
  behind_marker {b} pos xs back r = ReadsAt-skip (b ∷ []) xs back (pos + 1) (omega arith) r

  skip_sized :
      {b : ℕ} (next : ℕ → Result ℕ) (p : ℕ) (hdr bs back : List ℕ)
      → Lead b (sized (length hdr))
      → length bs ≡ be_value hdr
      → ReadsAt dat p (hdr ++ bs) back
      → skip_format next dat p (sized (length hdr)) ≡ ok (p + length (hdr ++ bs))
  unfolding skip_format
  skip_sized next p hdr bs back l e r =
      let total = length-append hdr bs in
      rw (prefix-ReadsAt l p hdr bs back (prefix_width-le l) r) (
        body-ok dat (p + length hdr) (be_value hdr) small (omega (arith, ReadsAt-bound r, total))
        ∙ ap ok (omega (arith, total)))

  -- Where a length prefix is read, the row behind it is what is skipped.
  skip_array :
      {b : ℕ} (next : ℕ → Result ℕ) (p : ℕ) (hdr bs back : List ℕ)
      → Lead b (sized_array (length hdr))
      → ReadsAt dat p (hdr ++ bs) back
      → skip_format next dat p (sized_array (length hdr))
        ≡ skip_n next (be_value hdr) (p + length hdr)
  unfolding skip_format
  skip_array next p hdr bs back l r = rw (prefix-ReadsAt l p hdr bs back (prefix_width-le l) r)

  skip_dictionary :
      {b : ℕ} (next : ℕ → Result ℕ) (p : ℕ) (hdr bs back : List ℕ)
      → Lead b (sized_map (length hdr))
      → be_value hdr * 2 ≤ length bs
      → ReadsAt dat p (hdr ++ bs) back
      → skip_format next dat p (sized_map (length hdr))
        ≡ skip_n next (be_value hdr * 2) (p + length hdr)
  unfolding skip_format
  skip_dictionary next p hdr bs back l w r = rw (
    prefix-ReadsAt l p hdr bs back (prefix_width-le l) r,
    kv-ok (be_value hdr) (omega (arith, ReadsAt-bound r, length-append hdr bs)),
  )

  mutual
    unfolding skip_format skip_n

    skip_level-IsValue :
        {room : ℕ} {bs : List ℕ}
        → IsValue room bs
        → (pos : ℕ) (back : List ℕ) → ReadsAt dat pos bs back
        → skip_level room dat pos ≡ ok (pos + length bs)
    skip_level-IsValue (alone {room} l) pos back r = skip_level-Lead room pos [] back l r
    skip_level-IsValue (plain {room} {bs} l) pos back r =
        skip_level-Lead room pos bs back l r
        ∙ body-ok dat (pos + 1) (length bs) small (omega (arith, ReadsAt-bound r))
        ∙ ap ok (omega arith)
    skip_level-IsValue (prefixed {room} {xs} hdr bs l e x) pos back r =
        let r' = rw x at (behind_marker pos xs back r) in
        skip_level-Lead room pos xs back l r
        ∙ skip_sized (skip_level room dat) (pos + 1) hdr bs back l e r'
        ∙ ap ok (omega (arith, ap length x))
    skip_level-IsValue (short_row {room} {n} {xs} l row) pos back r =
        skip_level-Lead room pos xs back l r
        ∙ skip_n-IsRow row (pos + 1) back (behind_marker pos xs back r)
        ∙ ap ok (omega arith)
    skip_level-IsValue (array {room} {n} {xs} hdr bs l e row x) pos back r =
        let r' = rw x at (behind_marker pos xs back r) in
        let inner = ReadsAt-skip hdr bs back (pos + 1 + length hdr) refl r' in
        skip_level-Lead room pos xs back l r
        ∙ skip_array (skip_level room dat) (pos + 1) hdr bs back l r'
        ∙ ap (λ k. skip_n (skip_level room dat) k (pos + 1 + length hdr)) (sym e)
        ∙ skip_n-IsRow row (pos + 1 + length hdr) back inner
        ∙ ap ok (omega (arith, ap length x, length-append hdr bs))
    skip_level-IsValue (dictionary {room} {n} {xs} hdr bs l e row x) pos back r =
        let r' = rw x at (behind_marker pos xs back r) in
        let inner = ReadsAt-skip hdr bs back (pos + 1 + length hdr) refl r' in
        skip_level-Lead room pos xs back l r
        ∙ skip_dictionary (skip_level room dat) (pos + 1) hdr bs back l
            (omega (arith, IsRow-length row)) r'
        ∙ ap (λ k. skip_n (skip_level room dat) k (pos + 1 + length hdr)) (sym e)
        ∙ skip_n-IsRow row (pos + 1 + length hdr) back inner
        ∙ ap ok (omega (arith, ap length x, length-append hdr bs))

    skip_n-IsRow :
        {room n : ℕ} {bs : List ℕ}
        → IsRow room n bs
        → (pos : ℕ) (back : List ℕ) → ReadsAt dat pos bs back
        → skip_n (skip_level room dat) n pos ≡ ok (pos + length bs)
    skip_n-IsRow done pos back r = ap ok (omega arith)
    skip_n-IsRow (more {room} {n} xs ys v row e) pos back r =
        let r' = rw e at r in
        let next : ℕ → Result ℕ = skip_level room dat in
        ap (λ m. m >>= skip_n next n)
          (skip_level-IsValue v pos (ys ++ back) (ReadsAt-first xs ys back r'))
        ∙ skip_n-IsRow row (pos + length xs) back
            (ReadsAt-skip xs ys back (pos + length xs) refl r')
        ∙ ap ok (omega (arith, ap length e, length-append xs ys))

-- A value of the format that is not, and does not hold, one of an extension type, nested at most as
-- deep as the depth leaves room for, is skipped exactly:
-- `skip_value` answers the position behind it, wherever in a slice it stands and whatever follows.
pub skip_value-IsValue :
    (dat : List ℕ) (pos depth : ℕ) (bs back : List ℕ)
    → length dat < usize_mod
    → IsBytes dat
    → ReadsAt dat pos bs back
    → IsValue (9 - depth) bs
    → skip_value dat pos depth ≡ ok (pos + length bs)
unfolding skip_value
skip_value-IsValue dat pos depth bs back small bytes r v =
    skip_level-IsValue dat small bytes v pos back r
