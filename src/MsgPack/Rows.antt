-- ===== src/MsgPack/Rows.antt =====
-- Arrays by their headers, and values with room for more nesting.
use rs_lxmflite.Base.{ℕ, suc, ◌≡◌, sym, ◌∙◌, subst, List, ◌∷◌, ◌++◌, length}
use rs_lxmflite.Base.Bytes.{be_value}
use rs_lxmflite.MsgPack.{items, sized_array, format}
use rs_lxmflite.MsgPack.Grammar.{
  IsValue, IsRow, alone, plain, prefixed, short_row, array, dictionary, done, more,
}
use rs_lxmflite.MsgPack.Markers.{Lead-format}

-- What may be nested so deep may be nested one level deeper.
mutual
  pub IsValue-suc : {room : ℕ} {xs : List ℕ} → IsValue room xs → IsValue (suc room) xs
  IsValue-suc (alone l) = alone l
  IsValue-suc (plain l) = plain l
  IsValue-suc (prefixed hdr bs l e x) = prefixed hdr bs l e x
  IsValue-suc (short_row l row) = short_row l (IsRow-suc row)
  IsValue-suc (array hdr bs l e row x) = array hdr bs l e (IsRow-suc row) x
  IsValue-suc (dictionary hdr bs l e row x) = dictionary hdr bs l e (IsRow-suc row) x

  pub IsRow-suc : {room n : ℕ} {xs : List ℕ} → IsRow room n xs → IsRow (suc room) n xs
  IsRow-suc done = done
  IsRow-suc (more xs ys v row e) = more xs ys (IsValue-suc v) (IsRow-suc row) e

same_items : {m n : ℕ} → items m ≡ items n → m ≡ n
same_items e = cc

same_sized : {m n : ℕ} → sized_array m ≡ sized_array n → m ≡ n
same_sized e = cc

-- A value whose marker gives the number of its items.
pub short-IsRow-items :
    {room b n : ℕ} {xs : List ℕ}
    → IsValue (suc room) (b ∷ xs)
    → format b ≡ items n
    → IsRow room n xs
short-IsRow-items (alone l) e = cc (Lead-format l)
short-IsRow-items (plain l) e = cc (Lead-format l)
short-IsRow-items (prefixed hdr bs l k x) e = cc (Lead-format l)
short-IsRow-items {room} {xs} (short_row l row) e =
    subst (λ k. IsRow room k xs) (same_items (sym (Lead-format l) ∙ e)) row
short-IsRow-items (array hdr bs l k row x) e = cc (Lead-format l)
short-IsRow-items (dictionary hdr bs l k row x) e = cc (Lead-format l)

-- An array whose marker is followed by so many bytes of length.
pub record IsLongRow (room width : ℕ) (xs : List ℕ) : Type 0 where
  pub hdr : List ℕ
  pub bs : List ℕ
  pub length_hdr : length hdr ≡ width
  pub row : IsRow room (be_value hdr) bs
  pub split : xs ≡ hdr ++ bs

pub array-sized :
    {room b width : ℕ} {xs : List ℕ}
    → IsValue (suc room) (b ∷ xs)
    → format b ≡ sized_array width
    → IsLongRow room width xs
array-sized (alone l) e = cc (Lead-format l)
array-sized (plain l) e = cc (Lead-format l)
array-sized (prefixed hdr bs l k x) e = cc (Lead-format l)
array-sized (short_row l row) e = cc (Lead-format l)
array-sized {room} (array hdr bs l k row x) e = record {
  hdr = hdr;
  bs = bs;
  length_hdr = same_sized (sym (Lead-format l) ∙ e);
  row = subst (λ j. IsRow room j bs) k row;
  split = x;
}
array-sized (dictionary hdr bs l k row x) e = cc (Lead-format l)
