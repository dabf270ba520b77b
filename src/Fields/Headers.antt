-- ===== src/Fields/Headers.antt =====
-- `read_map_header` against the headers of the format.
use rs_lxmflite.Base.{
  ℕ, ◌-◌, ◌≡◌, refl, sym, ap, ◌∙◌, subst, Option, some, none, List, [], ◌∷◌, ◌++◌, arith, bit_and,
  leb, ◌==◌, ◌&&◌, length, take, drop, length-append, length-take, take-length_append,
  take-append-drop, le→leb, lt→leb, Bool-cases, inl, inr,
}
use rs_lxmflite.Base.Bytes.{IsBytes, be_value}
use rs_lxmflite.MsgPack.Markers.{bit_and-15}
use rs_lxmflite.Fields.{read_map_header}
use rs_lxmflite.Fields.Maps.{MapHeader, short_map, map16_header, map32_header}

-- A header of the format is read: its length, and the number of entries.
pub read_map_header-MapHeader :
    (hdr rest : List ℕ) (count : ℕ)
    → MapHeader count hdr
    → read_map_header (hdr ++ rest) ≡ some (length hdr, count)
unfolding read_map_header
read_map_header-MapHeader hdr rest count (short_map {b} few e) =
    let low : bit_and b 0x0f ≡ count = omega (arith, bit_and-15 b (omega arith)) in
    rw
      (
        le→leb 0x80 b (omega arith),
        le→leb b 0x8f (omega arith),
        low,
        lt→leb (length (b ∷ rest)) 0 (omega arith),
      )
      refl
read_map_header-MapHeader hdr rest count (map16_header hs two e) =
    let body : take 2 (hs ++ rest) ≡ hs = take-length_append 2 hs rest (sym two) in
    rw
      (
        le→leb 3 (length (0xde ∷ (hs ++ rest))) (omega (arith, length-append hs rest)),
        lt→leb (length (0xde ∷ (hs ++ rest))) 0 (omega arith),
        body,
        e,
        two,
      )
      refl
read_map_header-MapHeader hdr rest count (map32_header hs four e) =
    let body : take 4 (hs ++ rest) ≡ hs = take-length_append 4 hs rest (sym four) in
    rw
      (
        le→leb 5 (length (0xdf ∷ (hs ++ rest))) (omega (arith, length-append hs rest)),
        lt→leb (length (0xdf ∷ (hs ++ rest))) 0 (omega arith),
        body,
        e,
        four,
      )
      refl

-- A slice that begins with a header.
pub record HeaderOf (dat : List ℕ) (first count : ℕ) : Type 0 where
  pub hdr : List ℕ
  pub rest : List ℕ
  pub split : dat ≡ hdr ++ rest
  pub header : MapHeader count hdr
  pub width : first ≡ length hdr

header_found :
    (dat hdr rest : List ℕ) (count' first count : ℕ)
    → dat ≡ hdr ++ rest
    → MapHeader count' hdr
    → read_map_header dat ≡ some (first, count)
    → HeaderOf dat first count
header_found dat hdr rest count' first count e m h =
    let both =
      some_injective
        (sym (read_map_header-MapHeader hdr rest count' m) ∙ ap read_map_header (sym e) ∙ h) in
    record {
      hdr = hdr;
      rest = rest;
      split = e;
      header = subst (λ n. MapHeader n hdr) (ap (λ p. p.1) both) m;
      width = sym (ap (λ p. p.0) both);
    }
  where
    some_injective : {p q : ℕ × ℕ} → some p ≡ some q → p ≡ q
    some_injective e = cc

refused : {A : Type 0} {r : Option (ℕ × ℕ)} {p : ℕ × ℕ} → r ≡ some p → r ≡ none → A
refused h e = cc

-- What is read as a header is one.
pub read_map_header_sound :
    (dat : List ℕ) (first count : ℕ)
    → IsBytes dat
    → read_map_header dat ≡ some (first, count)
    → HeaderOf dat first count
unfolding read_map_header
read_map_header_sound [] first count bytes h = cc
read_map_header_sound (b ∷ tail) first count bytes h =
    let filled = lt→leb (length (b ∷ tail)) 0 (omega arith) in
    elim (Bool-cases (leb 0x80 b && leb b 0x8f)) [
      | inl short ↦
          header_found (b ∷ tail) (b ∷ []) tail (b - 0x80) first count refl
            (short_map (ground arith) (ground arith)) h
      | inr long ↦ elim (Bool-cases (b == 0xde && leb 3 (length (b ∷ tail)))) [
        | inl two ↦
            let here : b ≡ 0xde = ground arith in
            header_found (b ∷ tail) (0xde ∷ take 2 tail) (drop 2 tail) (be_value (take 2 tail))
              first count
              (ap (λ m. m ∷ tail) here ∙ ap (λ t. 0xde ∷ t) (sym (take-append-drop 2 tail)))
              (map16_header (take 2 tail) (ground (arith, length-take 2 tail)) refl) h
        | inr two ↦ elim (Bool-cases (b == 0xdf && leb 5 (length (b ∷ tail)))) [
          | inl four ↦
              let here : b ≡ 0xdf = ground arith in
              header_found (b ∷ tail) (0xdf ∷ take 4 tail) (drop 4 tail) (be_value (take 4 tail))
                first count
                (ap (λ m. m ∷ tail) here ∙ ap (λ t. 0xdf ∷ t) (sym (take-append-drop 4 tail)))
                (map32_header (take 4 tail) (ground (arith, length-take 4 tail)) refl) h
          | inr four ↦ refused h (rw (filled, long, two, four) refl)
        ]
      ]
    ]
