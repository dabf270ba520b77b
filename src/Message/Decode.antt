-- ===== src/Message/Decode.antt =====
-- `decode_payload` on a payload that is laid out as the encoder does it.
use rs_lxmflite.Base.{
  ℕ, ◌+◌, ◌≤◌, ◌<◌, ◌≡◌, refl, ap, ◌∙◌, List, [], ◌∷◌, ◌++◌, append_assoc, arith, lt→leb, le→ltb,
  length, slice, usize_mod, bit_and, subst, get_or,
}
use rs_lxmflite.Base.Bytes.{IsBytes, be_value}
use rs_lxmflite.Base.Int.{ℤ}
use rs_lxmflite.Base.Slices.{ReadsAt, ReadsAt-bound, ReadsAt-skip, ReadsAt-first, slice-ReadsAt}
use rs_lxmflite.Base.Result.{ok}
use rs_lxmflite.MsgPack.Grammar.{IsValue}
use rs_lxmflite.MsgPack.Complete.{skip_value-IsValue}
use rs_lxmflite.MsgPack.Blob.{IsBlob, read_bin-IsBlob}
use rs_lxmflite.Fields.{validate_fields}
use rs_lxmflite.Message.{decode_payload}

-- The marker of an array of four to fifteen elements.
pub record IsPayloadMarker (m : ℕ) : Type 0 where
  pub high : bit_and m 0xf0 ≡ 0x90
  pub low : 4 ≤ bit_and m 0x0f

regroup : (a b c d e : List ℕ) → a ++ (b ++ (c ++ (d ++ e))) ≡ (a ++ (b ++ (c ++ d))) ++ e
regroup a b c d e = simp append_assoc

module _ (m : ℕ) (ts title_bytes content_bytes field_bytes rest title content : List ℕ)
    (keys : List ℤ) (marker : IsPayloadMarker m) (ts_len : length ts ≡ 8)
    (title_blob : IsBlob title_bytes title) (content_blob : IsBlob content_bytes content)
    (fields_value : IsValue 9 field_bytes)
    (fields_valid : (validate_fields field_bytes keys).0 ≡ ok tt) where
  abbrev pub content_end : ℕ
  content_end = 10 + length title_bytes + length content_bytes

  abbrev pub fields_end : ℕ
  fields_end = content_end + length field_bytes

  -- The elements are decoded, whatever follows the fourth.
  pub decode_payload-laid_out :
      (payload : List ℕ)
      → payload ≡ (m ∷ 0xcb ∷ ts) ++ (title_bytes ++ (content_bytes ++ (field_bytes ++ rest)))
      → length payload < usize_mod
      → IsBytes payload
      → decode_payload payload keys
        ≡ ok (record {
          timestamp = be_value ts;
          title = title;
          content = content;
          after_content = content_end;
          after_fields = fields_end;
        })
  unfolding decode_payload
  decode_payload-laid_out payload e small bytes = rw (
    first,
    marker.high,
    lt→leb (length payload) 0 (omega (arith, ap length e)),
    le→ltb (bit_and m 15) 4 marker.low,
    second,
    le→ltb (length payload) 10 (omega (arith, ReadsAt-bound at_title)),
    read_bin-IsBlob payload 10 title_bytes title (content_bytes ++ (field_bytes ++ rest)) small
        at_title title_blob,
    read_bin-IsBlob payload (10 + length title_bytes) content_bytes content (field_bytes ++ rest)
        small at_content content_blob,
    skip_value-IsValue payload content_end 0 field_bytes rest small bytes at_fields fields_value,
    slice-ReadsAt fields_end refl at_fields,
    fields_valid,
    stamp,
  )
    where
      first : get_or payload 0 0 ≡ m
      first = ap (λ p. get_or p 0 0) e

      second : get_or payload 1 0 ≡ 0xcb
      second = ap (λ p. get_or p 1 0) e

      whole :
          ReadsAt payload 0
            ((m ∷ 0xcb ∷ ts) ++ (title_bytes ++ (content_bytes ++ field_bytes)))
            rest
      whole = record {
        reads = e ∙ ap (λ t. m ∷ 0xcb ∷ t) (regroup ts title_bytes content_bytes field_bytes rest);
        inside = omega arith;
      }

      after_ts : ReadsAt payload 10 (title_bytes ++ (content_bytes ++ field_bytes)) rest
      after_ts =
          ReadsAt-skip (m ∷ 0xcb ∷ ts) (title_bytes ++ (content_bytes ++ field_bytes)) rest 10
            (omega arith) whole

      at_title : ReadsAt payload 10 title_bytes (content_bytes ++ (field_bytes ++ rest))
      at_title =
          subst (ReadsAt payload 10 title_bytes) (append_assoc content_bytes field_bytes rest)
            (ReadsAt-first title_bytes (content_bytes ++ field_bytes) rest after_ts)

      after_title : ReadsAt payload (10 + length title_bytes) (content_bytes ++ field_bytes) rest
      after_title = ReadsAt-skip title_bytes (content_bytes ++ field_bytes) rest _ refl after_ts

      at_content : ReadsAt payload (10 + length title_bytes) content_bytes (field_bytes ++ rest)
      at_content = ReadsAt-first content_bytes field_bytes rest after_title

      at_fields : ReadsAt payload content_end field_bytes rest
      at_fields = ReadsAt-skip content_bytes field_bytes rest _ refl after_title

      stamp : slice payload 2 10 ≡ ts
      stamp = slice-ReadsAt 10 (omega arith) (
          ReadsAt-first ts (title_bytes ++ (content_bytes ++ field_bytes)) rest (
            ReadsAt-skip (m ∷ 0xcb ∷ []) (ts ++ (title_bytes ++ (content_bytes ++ field_bytes)))
              rest 2 (omega arith) whole))
