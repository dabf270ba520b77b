-- ===== src/Fields/Maps.antt =====
-- The outer fields map by the format's own description, and the walk over its entries.
use rs_lxmflite.Base.{
  ℕ, ◌+◌, ◌-◌, ◌≤◌, ◌<◌, ◌≡◌, refl, sym, ap, ap₂, ◌∙◌, subst, List, [], ◌∷◌, ◌++◌, arith, length,
  take, drop, usize_mod, All-take, All-drop, take-length_append, drop-length_append, drop-drop,
  take-append-drop,
}
use rs_lxmflite.Base.Bytes.{IsByte, IsBytes, be_value}
use rs_lxmflite.Base.Int.{ℤ}
use rs_lxmflite.Base.Slices.{ReadsAt, ReadsAt-end, ReadsAt-first, ReadsAt-skip, slice-ReadsAt}
use rs_lxmflite.MsgPack.Grammar.{IsValue}
use rs_lxmflite.MsgPack.Bounds.{skip_value_bounds}
use rs_lxmflite.MsgPack.Sound.{skip_value_sound}
use rs_lxmflite.MsgPack.Complete.{skip_value-IsValue}
use rs_lxmflite.Payload.Copies.{drop_all}
use rs_lxmflite.Fields.Entries.{Entry, Walks, here, entry}
use rs_lxmflite.Fields.Keys.{Key, read_field_id-Key, read_field_id_sound}

-- The header of a map of so many entries.
pub data MapHeader : ℕ → List ℕ → Type 0 where
  short_map : {count b : ℕ} → count ≤ 15 → b ≡ 0x80 + count → MapHeader count (b ∷ [])
  map16_header :
      {count : ℕ} (hs : List ℕ) → length hs ≡ 2 → count ≡ be_value hs → MapHeader count (0xde ∷ hs)
  map32_header :
      {count : ℕ} (hs : List ℕ) → length hs ≡ 4 → count ≡ be_value hs → MapHeader count (0xdf ∷ hs)

-- Keys and complete values, one behind the other.
pub data IsEntries : List Entry → List ℕ → Type 0 where
  no_entries : IsEntries [] []
  an_entry :
      {key : ℤ} {es : List Entry} {bs : List ℕ} (k value rest : List ℕ)
      → Key key k
      → IsValue 9 value
      → IsEntries es rest
      → bs ≡ k ++ (value ++ rest)
      → IsEntries ((key, value) ∷ es) bs

reads-IsBytes :
    {xs : List ℕ} {pos : ℕ} {front back : List ℕ}
    → IsBytes xs
    → ReadsAt xs pos front back
    → IsBytes front
reads-IsBytes {xs} {pos} {front} {back} h r =
    subst IsBytes
      (ap (take (length front)) r.reads ∙ take-length_append (length front) front back refl)
      (All-take IsByte (length front) (drop pos xs) (All-drop IsByte pos xs h))

module _ (fields : List ℕ) (small : length fields < usize_mod) (bytes : IsBytes fields) where
  pub IsEntries-Walks :
      {es : List Entry} {bs : List ℕ} (at : ℕ)
      → IsEntries es bs
      → ReadsAt fields at bs []
      → Walks fields at es (length fields)
  IsEntries-Walks at no_entries r =
      let same : at ≡ length fields = omega (arith, ReadsAt-end r) in
      subst (λ n. Walks fields at [] n) same here
  IsEntries-Walks {bs} at (an_entry {key} {es} k value rest e v more split) r =
      let r0 = subst (λ b. ReadsAt fields at b []) split r in
      let after = at + length k in
      let end = after + length value in
      let at_key = ReadsAt-first k (value ++ rest) [] r0 in
      let behind = ReadsAt-skip k (value ++ rest) [] after refl r0 in
      let at_value = ReadsAt-first value rest [] behind in
      entry after
        (read_field_id-Key fields at k ((value ++ rest) ++ []) key at_key
          (reads-IsBytes bytes at_key) e)
        (skip_value-IsValue fields after 0 value (rest ++ []) small bytes at_value v)
        (sym (slice-ReadsAt end refl at_value))
        (IsEntries-Walks end more (ReadsAt-skip value rest [] end refl behind))

  pub Walks-IsEntries :
      {es : List Entry} {at q : ℕ}
      → Walks fields at es q
      → q ≡ length fields
      → IsEntries es (drop at fields)
  Walks-IsEntries {at} here e =
      subst (λ b. IsEntries [] b) (sym (ap (λ n. drop n fields) e ∙ drop_all fields)) no_entries
  Walks-IsEntries {at} (entry {q} {key} {value} {es} after got skipped v w) e =
      let key_at = read_field_id_sound fields at after key bytes got in
      let rest = drop q fields in
      let bounds = skip_value_bounds fields after 0 q skipped in
      let behind : drop after fields ≡ value ++ rest =
        sym (take-append-drop (q - after) (drop after fields))
        ∙ ap₂ (λ (a b : List ℕ). a ++ b) (sym v)
            (drop-drop after (q - after) q fields (omega (arith, bounds))) in
      let back : key_at.back ≡ drop after fields =
        sym (drop-length_append (length key_at.bytes) key_at.bytes key_at.back refl)
        ∙ ap (drop (length key_at.bytes)) (sym key_at.stands.reads)
        ∙ drop-drop at (length key_at.bytes) after fields key_at.width in
      an_entry key_at.bytes value rest key_at.encodes
        (subst (IsValue 9) (sym v) (skip_value_sound fields after 0 q small bytes skipped))
        (Walks-IsEntries w e) (key_at.stands.reads ∙ ap (λ t. key_at.bytes ++ t) (back ∙ behind))
