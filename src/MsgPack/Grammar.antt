-- ===== src/MsgPack/Grammar.antt =====
-- MessagePack without its extension types, by the format's table: which bytes are one complete value,
-- nested at most so deep. Nothing here refers to the walker but the shapes that a marker's arm takes.
-- The extension types (ext 8 to 32 at 0xc7 to 0xc9, fixext 1 to 16 at 0xd4 to 0xd8) are not in the
-- profile of the code, which refuses them like the marker 0xc1 that the format does not use.
use rs_lxmflite.Base.{ℕ, zero, suc, ◌+◌, ◌*◌, ◌≤◌, ◌≡◌, List, [], ◌∷◌, ◌++◌, length}
use rs_lxmflite.Base.Bytes.{be_value}
use rs_lxmflite.MsgPack.{Format, single, fixed, sized, items, sized_array, sized_map}

-- The table of the format's specification, the extension types left out: a marker, and what follows
-- it.
pub data Lead : ℕ → Format → Type 0 where
  positive_fixint : {b : ℕ} → b ≤ 0x7f → Lead b single
  negative_fixint : {b : ℕ} → 0xe0 ≤ b → b ≤ 0xff → Lead b single
  nil_marker : {b : ℕ} → b ≡ 0xc0 → Lead b single
  false_marker : {b : ℕ} → b ≡ 0xc2 → Lead b single
  true_marker : {b : ℕ} → b ≡ 0xc3 → Lead b single
  uint8 : {b : ℕ} → b ≡ 0xcc → Lead b (fixed 1)
  uint16 : {b : ℕ} → b ≡ 0xcd → Lead b (fixed 2)
  uint32 : {b : ℕ} → b ≡ 0xce → Lead b (fixed 4)
  uint64 : {b : ℕ} → b ≡ 0xcf → Lead b (fixed 8)
  int8 : {b : ℕ} → b ≡ 0xd0 → Lead b (fixed 1)
  int16 : {b : ℕ} → b ≡ 0xd1 → Lead b (fixed 2)
  int32 : {b : ℕ} → b ≡ 0xd2 → Lead b (fixed 4)
  int64 : {b : ℕ} → b ≡ 0xd3 → Lead b (fixed 8)
  float32 : {b : ℕ} → b ≡ 0xca → Lead b (fixed 4)
  float64 : {b : ℕ} → b ≡ 0xcb → Lead b (fixed 8)
  fixstr : {b n : ℕ} → b ≡ 0xa0 + n → n ≤ 31 → Lead b (fixed n)
  str8 : {b : ℕ} → b ≡ 0xd9 → Lead b (sized 1)
  str16 : {b : ℕ} → b ≡ 0xda → Lead b (sized 2)
  str32 : {b : ℕ} → b ≡ 0xdb → Lead b (sized 4)
  bin8 : {b : ℕ} → b ≡ 0xc4 → Lead b (sized 1)
  bin16 : {b : ℕ} → b ≡ 0xc5 → Lead b (sized 2)
  bin32 : {b : ℕ} → b ≡ 0xc6 → Lead b (sized 4)
  fixarray : {b n : ℕ} → b ≡ 0x90 + n → n ≤ 15 → Lead b (items n)
  fixmap : {b n k : ℕ} → b ≡ 0x80 + n → n ≤ 15 → k ≡ 2 * n → Lead b (items k)
  array16 : {b : ℕ} → b ≡ 0xdc → Lead b (sized_array 2)
  array32 : {b : ℕ} → b ≡ 0xdd → Lead b (sized_array 4)
  map16 : {b : ℕ} → b ≡ 0xde → Lead b (sized_map 2)
  map32 : {b : ℕ} → b ≡ 0xdf → Lead b (sized_map 4)

-- One complete value, or a row of `n` values, with at most `room` levels of nesting.
mutual
  pub data IsValue : ℕ → List ℕ → Type 0 where
    alone : {room b : ℕ} → Lead b single → IsValue (suc room) (b ∷ [])
    plain : {room b : ℕ} {bs : List ℕ} → Lead b (fixed (length bs)) → IsValue (suc room) (b ∷ bs)
    prefixed :
        {room b : ℕ} {xs : List ℕ} (hdr bs : List ℕ)
        → Lead b (sized (length hdr))
        → length bs ≡ be_value hdr
        → xs ≡ hdr ++ bs
        → IsValue (suc room) (b ∷ xs)
    short_row :
        {room b n : ℕ} {xs : List ℕ}
        → Lead b (items n)
        → IsRow room n xs
        → IsValue (suc room) (b ∷ xs)
    array :
        {room b n : ℕ} {xs : List ℕ} (hdr bs : List ℕ)
        → Lead b (sized_array (length hdr))
        → n ≡ be_value hdr
        → IsRow room n bs
        → xs ≡ hdr ++ bs
        → IsValue (suc room) (b ∷ xs)
    dictionary :
        {room b n : ℕ} {xs : List ℕ} (hdr bs : List ℕ)
        → Lead b (sized_map (length hdr))
        → n ≡ be_value hdr * 2
        → IsRow room n bs
        → xs ≡ hdr ++ bs
        → IsValue (suc room) (b ∷ xs)

  pub data IsRow : ℕ → ℕ → List ℕ → Type 0 where
    done : {room : ℕ} → IsRow room zero []
    more :
        {room n : ℕ} {zs : List ℕ} (xs ys : List ℕ)
        → IsValue room xs
        → IsRow room n ys
        → zs ≡ xs ++ ys
        → IsRow room (suc n) zs
