-- ===== src/MsgPack/Blob.antt =====
-- `read_bin`: it reads exactly the bin and str values of the format.
use rs_lxmflite.Base.{
  ℕ, suc, ◌+◌, ◌≤◌, ◌<◌, ◌≡◌, ◌⊎◌, refl, sym, ap, ap₂, ◌∙◌, List, [], ◌∷◌, ◌++◌, arith, length,
  get_or, slice, leb, lt→leb, usize_mod, subst, inl, inr, Bool-cases, length-append,
}
use rs_lxmflite.Base.Bytes.{IsBytes, IsByte, be_value}
use rs_lxmflite.Base.Slices.{
  ReadsAt, ReadsAt-bound, get_or-ReadsAt, ReadsAt-skip, ReadsAt-first, slice-ReadsAt, length-slice,
  slice-append, slice-cons, slice_one,
}
use rs_lxmflite.Base.Result.{ok, >>=-eq-ok}
use rs_lxmflite.MsgPack.{sized, body, bin_header, read_bin}
use rs_lxmflite.MsgPack.Grammar.{
  Lead, IsValue, plain, prefixed, fixstr, bin8, bin16, bin32, str8, str16, str32,
}
use rs_lxmflite.MsgPack.Prefix.{body-ok, body-eq_ok}
use rs_lxmflite.MsgPack.Markers.{bit_and-31}
use rs_lxmflite.MsgPack.Sound.{IsByte-get_or}

-- An encoded bin or str, and its content.
pub data IsBlob : List ℕ → List ℕ → Type 0 where
  long :
      {b : ℕ} {xs bs : List ℕ} (hdr : List ℕ)
      → Lead b (sized (length hdr))
      → length bs ≡ be_value hdr
      → xs ≡ hdr ++ bs
      → IsBlob (b ∷ xs) bs
  short : {b : ℕ} {bs : List ℕ} → b ≡ 0xa0 + length bs → length bs ≤ 31 → IsBlob (b ∷ bs) bs

pub IsBlob-IsValue : {xs bs : List ℕ} (room : ℕ) → IsBlob xs bs → IsValue (suc room) xs
IsBlob-IsValue room (long {bs} hdr l e x) = prefixed hdr bs l e x
IsBlob-IsValue room (short e h) = plain (fixstr e h)

-- What the header of a long form says: its own length, and that of the content.
abbrev LongHeader : List ℕ → ℕ → ℕ → Type 0
LongHeader dat pos nb =
    bin_header dat pos ≡ ok (1 + nb, be_value (slice dat (pos + 1) (pos + 1 + nb)))

module _ (dat : List ℕ) (pos : ℕ) where
  header_one :
      {b : ℕ}
      → (b ≡ 0xc4) ⊎ (b ≡ 0xd9)
      → get_or dat pos 0 ≡ b
      → pos + 2 ≤ length dat
      → LongHeader dat pos 1
  unfolding bin_header
  header_one m g h = rw (slice_one dat (pos + 1) (pos + 1 + 1) 0 refl (omega arith)) (ground arith)

  header_two :
      {b : ℕ}
      → (b ≡ 0xc5) ⊎ (b ≡ 0xda)
      → get_or dat pos 0 ≡ b
      → pos + 3 ≤ length dat
      → LongHeader dat pos 2
  unfolding bin_header
  header_two m g h = let e : pos + 1 + 2 ≡ pos + 3 = omega arith in rw e (ground arith)

  header_four :
      {b : ℕ}
      → (b ≡ 0xc6) ⊎ (b ≡ 0xdb)
      → get_or dat pos 0 ≡ b
      → pos + 5 ≤ length dat
      → LongHeader dat pos 4
  unfolding bin_header
  header_four m g h = let e : pos + 1 + 4 ≡ pos + 5 = omega arith in rw e (ground arith)

  bin_header-long :
      {b nb : ℕ}
      → Lead b (sized nb)
      → get_or dat pos 0 ≡ b
      → pos + 1 + nb ≤ length dat
      → LongHeader dat pos nb
  bin_header-long (bin8 e) g h = header_one (inl e) g (omega arith)
  bin_header-long (str8 e) g h = header_one (inr e) g (omega arith)
  bin_header-long (bin16 e) g h = header_two (inl e) g (omega arith)
  bin_header-long (str16 e) g h = header_two (inr e) g (omega arith)
  bin_header-long (bin32 e) g h = header_four (inl e) g (omega arith)
  bin_header-long (str32 e) g h = header_four (inr e) g (omega arith)

  bin_header-short : (n : ℕ) → get_or dat pos 0 ≡ 0xa0 + n → n ≤ 31 → bin_header dat pos ≡ ok (1, n)
  unfolding bin_header
  bin_header-short n g h = ground (arith, bit_and-31 (get_or dat pos 0))

  -- Which of the arms answered.
  abbrev HeaderArms : ℕ → ℕ → Type 0
  HeaderArms hdr len =
      ((get_or dat pos 0 ≡ 0xa0 + len) × (len ≤ 31) × (hdr ≡ 1))
      ⊎ ((((get_or dat pos 0 ≡ 0xc4) ⊎ (get_or dat pos 0 ≡ 0xd9)) × (pos + 2 ≤ length dat))
          ⊎ ((((get_or dat pos 0 ≡ 0xc5) ⊎ (get_or dat pos 0 ≡ 0xda)) × (pos + 3 ≤ length dat))
              ⊎ (((get_or dat pos 0 ≡ 0xc6) ⊎ (get_or dat pos 0 ≡ 0xdb)) × (pos + 5 ≤ length dat))))

  header_arms :
      IsByte (get_or dat pos 0)
      → {hdr len : ℕ} → bin_header dat pos ≡ ok (hdr, len)
      → HeaderArms hdr len
  unfolding bin_header
  header_arms h e = ground (arith, bit_and-31 (get_or dat pos 0))

  bin_header_cases :
      IsByte (get_or dat pos 0)
      → {hdr len : ℕ} → bin_header dat pos ≡ ok (hdr, len)
      → ((get_or dat pos 0 ≡ 0xa0 + len) × (len ≤ 31) × (hdr ≡ 1))
        ⊎ ((nb : ℕ) × Lead (get_or dat pos 0) (sized nb) × (pos + 1 + nb ≤ length dat))
  bin_header_cases h e = elim (header_arms h e) [
    | inl p ↦ inl p
    | inr (inl (inl p, q)) ↦ inr (1, bin8 p, omega arith)
    | inr (inl (inr p, q)) ↦ inr (1, str8 p, omega arith)
    | inr (inr (inl (inl p, q))) ↦ inr (2, bin16 p, omega arith)
    | inr (inr (inl (inr p, q))) ↦ inr (2, str16 p, omega arith)
    | inr (inr (inr (inl p, q))) ↦ inr (4, bin32 p, omega arith)
    | inr (inr (inr (inr p, q))) ↦ inr (4, str32 p, omega arith)
  ]

-- `read_bin` once its header is known.
read_bin-header :
    (dat : List ℕ) (pos hdr len : ℕ)
    → length dat < usize_mod
    → pos < length dat
    → bin_header dat pos ≡ ok (hdr, len)
    → pos + hdr + len ≤ length dat
    → read_bin dat pos ≡ ok (slice dat (pos + hdr) (pos + hdr + len), pos + hdr + len)
unfolding read_bin
read_bin-header dat pos hdr len small i e h =
    rw (lt→leb (length dat) pos i, e, body-ok dat (pos + hdr) len small h)

-- `read_bin` reads a bin or str value wherever it stands: its content, and the position behind it.
pub read_bin-IsBlob :
    (dat : List ℕ) (pos : ℕ) (xs bs back : List ℕ)
    → length dat < usize_mod
    → ReadsAt dat pos xs back
    → IsBlob xs bs
    → read_bin dat pos ≡ ok (bs, pos + length xs)
read_bin-IsBlob dat pos xs bs back small r (short e h) =
    let at_body = ReadsAt-skip (_ ∷ []) bs back (pos + 1) (omega arith) r in
    read_bin-header dat pos 1 (length bs) small (omega (arith, ReadsAt-bound r))
      (bin_header-short dat pos (length bs) (get_or-ReadsAt 0 r ∙ e) h)
      (omega (arith, ReadsAt-bound r))
    ∙ ap₂ (λ (c : List ℕ) (k : ℕ). ok (c, k)) (slice-ReadsAt (pos + 1 + length bs) refl at_body)
        (omega arith)
read_bin-IsBlob dat pos xs bs back small r (long {xs = ys} hdr l e x) =
    let after = rw x at (ReadsAt-skip (_ ∷ []) ys back (pos + 1) (omega arith) r) in
    let at_hdr = ReadsAt-first hdr bs back after in
    let at_body = ReadsAt-skip hdr bs back (pos + 1 + length hdr) refl after in
    let stated = slice-ReadsAt (pos + 1 + length hdr) refl at_hdr in
    let bound = ReadsAt-bound at_body in
    read_bin-header dat pos (1 + length hdr) (length bs) small (omega (arith, ReadsAt-bound r))
      (bin_header-long dat pos l (get_or-ReadsAt 0 r) (omega arith)
        ∙ ap (λ k. ok (1 + length hdr, k)) (ap be_value stated ∙ sym e))
      (omega arith)
    ∙ ap₂ (λ (c : List ℕ) (k : ℕ). ok (c, k))
        (slice-ReadsAt (pos + (1 + length hdr) + length bs) (omega arith) (shift_reading at_body))
        (omega (arith, ap length x, length-append hdr bs))
  where
    shift_reading :
        {ys zs : List ℕ}
        → ReadsAt dat (pos + 1 + length hdr) ys zs
        → ReadsAt dat (pos + (1 + length hdr)) ys zs
    shift_reading {ys} {zs} = subst (λ k. ReadsAt dat k ys zs) (omega arith)

-- A successful `read_bin`, taken apart.
record BinRead (dat : List ℕ) (pos : ℕ) (bs : List ℕ) (e hdr len : ℕ) : Type 0 where
  header : bin_header dat pos ≡ ok (hdr, len)
  start : pos < length dat
  total : e ≡ pos + hdr + len
  inside : e ≤ length dat
  content : bs ≡ slice dat (pos + hdr) e

read_bin_parts :
    (dat : List ℕ) (pos : ℕ) {bs : List ℕ} {e : ℕ}
    → read_bin dat pos ≡ ok (bs, e)
    → (hdr : ℕ) × (len : ℕ) × BinRead dat pos bs e hdr len
unfolding read_bin
read_bin_parts dat pos h = elim (Bool-cases (leb (length dat) pos)) [
  | inl out ↦ cc (rw out at h)
  | inr inside ↦
      let (p, e, rest) = >>=-eq-ok (bin_header dat pos) _ (rw inside at h) in
      let (q, e', last) = >>=-eq-ok (body dat (pos + p.0) p.1) _ rest in
      let fits = body-eq_ok dat (pos + p.0) p.1 e' in
      (
        p.0,
        p.1,
        record {
          header = e;
          start = ground arith;
          total = ground (arith, fits, last);
          inside = ground (arith, fits, last);
          content = ground (arith, fits, last);
        },
      )
]

sound_parts :
    (dat : List ℕ) (pos : ℕ) (bs : List ℕ) (e hdr len : ℕ)
    → length dat < usize_mod
    → IsBytes dat
    → BinRead dat pos bs e hdr len
    → IsBlob (slice dat pos e) bs
sound_parts dat pos bs e hdr len small bytes r =
    elim (bin_header_cases dat pos (IsByte-get_or dat pos bytes) r.header) [
      | inl (g, w, one) ↦
          let same : bs ≡ slice dat (pos + 1) e = rw (← one) r.content in
          let size : length bs ≡ len =
            rw same (omega (arith, r.total, r.inside, length-slice dat (pos + 1) e)) in
          rw (slice-cons dat pos e 0 (omega (arith, r.total)) r.inside, ← same)
            (short (omega arith) (omega arith))
      | inr (nb, l, room) ↦
          let prefix = slice dat (pos + 1) (pos + 1 + nb) in
          let width : nb ≡ length prefix =
            omega (arith, length-slice dat (pos + 1) (pos + 1 + nb) (omega arith) room) in
          let same = sym r.header ∙ bin_header-long dat pos l refl room in
          let hdr_is : hdr ≡ 1 + nb = ground arith in
          let len_is : len ≡ be_value prefix = ground arith in
          let start : pos + hdr ≡ pos + 1 + nb = omega arith in
          let content : bs ≡ slice dat (pos + 1 + nb) e = r.content ∙ rw start in
          rw (slice-cons dat pos e 0 (omega (arith, r.total)) r.inside) (
            long prefix (subst (λ k. Lead (get_or dat pos 0) (sized k)) width l)
              (omega (
                arith,
                ap length content,
                r.total,
                length-slice dat (pos + 1 + nb) e (omega (arith, r.total)) r.inside,
              ))
              (slice-append dat (pos + 1) (pos + 1 + nb) e (omega arith) (omega (arith, r.total))
                  r.inside
                ∙ rw content))
    ]

header_pos : (dat : List ℕ) (pos : ℕ) {hdr len : ℕ} → bin_header dat pos ≡ ok (hdr, len) → 1 ≤ hdr
unfolding bin_header
header_pos dat pos h = ground arith

-- What `read_bin` returns is the content of the bin or str value that ends where it says.
pub read_bin_sound :
    (dat : List ℕ) (pos : ℕ) {bs : List ℕ} {e : ℕ}
    → length dat < usize_mod
    → IsBytes dat
    → read_bin dat pos ≡ ok (bs, e)
    → IsBlob (slice dat pos e) bs × (pos < e) × (e ≤ length dat)
read_bin_sound dat pos {bs} {e} small bytes h =
    let (hdr, len, r) = read_bin_parts dat pos h in
    (
      sound_parts dat pos bs e hdr len small bytes r,
      omega (arith, header_pos dat pos r.header, r.total),
      r.inside,
    )
