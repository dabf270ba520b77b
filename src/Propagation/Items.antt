-- ===== src/Propagation/Items.antt =====
-- src/propagation.rs: what the iterator of `array_items` yields.
use rs_lxmflite.Base.{
  ℕ, suc, ◌+◌, ◌-◌, ◌≤◌, ◌<◌, ◌≡◌, inl, inr, refl, sym, ap, ◌∙◌, subst, false, not, ◌&&◌,
  Bool-cases, none, some, List, [], ◌∷◌, ◌++◌, append-nil, arith, leb, ◌==◌, length, get_or, take,
  drop, slice, bit_and, usize_mod, All, length-append, drop-drop, take-length_append,
  drop-length_append, ==_iff, not-false,
}
use rs_lxmflite.Base.Bytes.{IsBytes, be_value}
use rs_lxmflite.Base.Slices.{ReadsAt, ReadsAt-first, ReadsAt-skip, slice-ReadsAt}
use rs_lxmflite.Base.Result.{
  ok, err, refuse, >>=-eq-ok, refuse-eq-ok, ok_injective, malformed_payload,
}
use rs_lxmflite.MsgPack.{skip_value, format}
use rs_lxmflite.MsgPack.Grammar.{IsValue, IsRow, done, more}
use rs_lxmflite.MsgPack.Rows.{IsValue-suc, IsLongRow, short-IsRow-items, array-sized}
use rs_lxmflite.MsgPack.Bounds.{skip_value_bounds}
use rs_lxmflite.MsgPack.Sound.{skip_value_sound}
use rs_lxmflite.MsgPack.Complete.{skip_value-IsValue}
use rs_lxmflite.Propagation.{ArrayItems, array_header, array_items, next_item}

-- An iterator that yields these items, and then nothing.
pub data Yields : ArrayItems → List (List ℕ) → Type 0 where
  ended : {it : ArrayItems} → next_item it ≡ none → Yields it []
  yields :
      {it next : ArrayItems} {x : List ℕ} {xs : List (List ℕ)}
      → next_item it ≡ some (x, next)
      → Yields next xs
      → Yields it (x ∷ xs)

abbrev pub concat : List (List ℕ) → List ℕ
concat [] = []
concat (x ∷ xs) = x ++ concat xs

-- Items that an iterator yields: as many as it says, and together the rest of the slice.
pub record HasItems (it : ArrayItems) (xs : List (List ℕ)) : Type 0 where
  pub yielded : Yields it xs
  pub count : length xs ≡ it.remaining
  pub values : All (IsValue 8) xs

module _ (dat : List ℕ) (small : length dat < usize_mod) (bytes : IsBytes dat) where
  row_items :
      {n : ℕ} {bs : List ℕ}
      → IsRow 8 n bs
      → (pos : ℕ) (back : List ℕ) → ReadsAt dat pos bs back
      → (xs : List (List ℕ)) × HasItems (record { dat = dat; pos = pos; remaining = n }) xs
        × (concat xs ≡ bs)
  unfolding next_item
  row_items done pos back r = ([], record { yielded = ended refl; count = refl; values = tt }, refl)
  row_items (more {n} {zs} xs ys v row e) pos back r =
      let r' = subst (λ b. ReadsAt dat pos b back) e r in
      let first = ReadsAt-first xs ys back r' in
      let end = pos + length xs in
      let skipped : skip_value dat pos 0 ≡ ok end =
        skip_value-IsValue dat pos 0 xs (ys ++ back) small bytes first (IsValue-suc v) in
      let item : slice dat pos end ≡ xs = slice-ReadsAt end refl first in
      let (rest, has, joined) = row_items row end back (ReadsAt-skip xs ys back end refl r') in
      let some_left : (suc n == 0) ≡ false = ground arith in
      let fewer : suc n - 1 ≡ n = omega arith in
      let stepped : next_item (record { dat = dat; pos = pos; remaining = suc n })
          ≡ some (xs, record { dat = dat; pos = end; remaining = n }) =
        rw (some_left, skipped, item, fewer) in
      (
        xs ∷ rest,
        record {
          yielded = yields stepped (has.yielded);
          count = ap suc (has.count);
          values = (v, has.values);
        },
        ap (λ t. xs ++ t) joined ∙ sym e,
      )

  -- The items behind a header that has been read.
  from_header :
      {n pos : ℕ} {bs : List ℕ} {it : ArrayItems}
      → array_header dat ≡ ok (record { dat = dat; pos = pos; remaining = n })
      → array_header dat ≡ ok it
      → IsRow 8 n bs
      → drop pos dat ≡ bs
      → pos ≤ length dat
      → (xs : List (List ℕ)) × HasItems it xs × (concat xs ≡ drop (it.pos) dat)
  from_header {n} {pos} {bs} made h row at inside =
      let (xs, has, joined) =
        row_items row pos [] (record { reads = at ∙ sym (append-nil bs); inside = inside }) in
      subst (λ i. (xs : List (List ℕ)) × HasItems i xs × (concat xs ≡ drop (i.pos) dat))
        (ok_injective (sym made ∙ h)) (xs, has, joined ∙ sym at)

  -- Behind a marker with `width` bytes of length.
  long_items :
      (b width : ℕ) (tail : List ℕ) (it : ArrayItems)
      → dat ≡ b ∷ tail
      → IsLongRow 8 width tail
      → array_header dat
        ≡ ok (record { dat = dat; pos = 1 + width; remaining = be_value (take width (drop 1 dat)) })
      → array_header dat ≡ ok it
      → (xs : List (List ℕ)) × HasItems it xs × (concat xs ≡ drop (it.pos) dat)
  long_items b width tail it e long made h =
      let behind : drop 1 dat ≡ long.hdr ++ long.bs = ap (drop 1) e ∙ long.split in
      let hdr : take width (drop 1 dat) ≡ long.hdr =
        ap (take width) behind
        ∙ take-length_append width (long.hdr) (long.bs) (sym (long.length_hdr)) in
      let at : drop (1 + width) dat ≡ long.bs =
        sym (drop-drop 1 width (1 + width) dat refl)
        ∙ ap (drop width) behind
        ∙ drop-length_append width (long.hdr) (long.bs) (sym (long.length_hdr)) in
      from_header
        (made ∙ ap (λ n. ok (record { dat = dat; pos = 1 + width; remaining = be_value n })) hdr) h
        (long.row) at
        (omega (
          arith,
          ap length e,
          ap length (long.split),
          length-append (long.hdr) (long.bs),
          long.length_hdr,
        ))

  refused : {it : ArrayItems} {A : Type 0} → err malformed_payload ≡ ok it → A
  refused h = cc

  -- The header of an array, and the position behind it.
  header_items :
      (b : ℕ) (tail : List ℕ) (it : ArrayItems)
      → dat ≡ b ∷ tail
      → IsValue 9 (b ∷ tail)
      → array_header dat ≡ ok it
      → (xs : List (List ℕ)) × HasItems it xs × (concat xs ≡ drop (it.pos) dat)
  unfolding array_header format
  header_items b tail it e v h =
      let first : get_or dat 0 0 ≡ b = ap (λ d. get_or d 0 0) e in
      elim (Bool-cases (leb 0x90 b && leb b 0x9f)) [
        | inl short ↦
            let row : IsRow 8 (bit_and b 15) tail = short-IsRow-items v (ground arith) in
            from_header {pos = 1} (rw (first, short) refl) h row (ap (drop 1) e)
              (omega (arith, ap length e))
        | inr long ↦ elim (Bool-cases (b == 0xdc)) [
          | inl two ↦
              long_items b 2 tail it e (array-sized v (ground arith)) (rw (first, long, two) refl) h
          | inr two ↦ elim (Bool-cases (b == 0xdd)) [
            | inl four ↦
                long_items b 4 tail it e (array-sized v (ground arith))
                  (rw (first, long, two, four) refl) h
            | inr four ↦ refused (sym (rw (first, long, two, four) refl) ∙ h)
          ]
        ]
      ]

-- Where a slice of bytes is one array and nothing more, the iterator yields as many items as its header
-- says, each a complete value; put together they are the slice behind the header. So the iterator never
-- stops early.
pub array_items_sound :
    (dat : List ℕ) (it : ArrayItems)
    → length dat < usize_mod
    → IsBytes dat
    → array_items dat ≡ ok it
    → (xs : List (List ℕ)) × HasItems it xs × (concat xs ≡ drop (it.pos) dat)
unfolding array_items
array_items_sound [] it small bytes h =
    let (end, skipped, h1) = >>=-eq-ok (skip_value [] 0 0) _ h in
    absurd (omega (arith, skip_value_bounds [] 0 0 end skipped))
array_items_sound (b ∷ tail) it small bytes h =
    let dat = b ∷ tail in
    let (end, skipped, h1) = >>=-eq-ok (skip_value dat 0 0) _ h in
    let (u, c, header) = >>=-eq-ok (refuse (not (end == length dat)) malformed_payload) _ h1 in
    let ends : end ≡ length dat =
      (==_iff end (length dat)).0 (not-false _ (refuse-eq-ok _ malformed_payload c)) in
    let whole : slice dat 0 end ≡ dat =
      slice-ReadsAt end (omega (arith, ends))
        (record { reads = sym (append-nil dat); inside = omega arith }) in
    header_items dat small bytes b tail it refl
      (subst (IsValue 9) whole (skip_value_sound dat 0 0 end small bytes skipped)) header
