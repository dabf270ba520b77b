-- ===== src/Tests/Upload.antt =====
-- A recipient stamp appended, and a list of ids read.
use rs_lxmflite.Base.{ℕ, suc, ◌≡◌, refl, inl, some, List, [], ◌∷◌, ◌++◌, arith, replicate}
use rs_lxmflite.Base.Result.{ok, err, malformed_payload}
use rs_lxmflite.MsgPack.{
  skip_value, skip_level, skip_format, skip_n, format, body, len_at, read_bin, bin_header,
}
use rs_lxmflite.MsgPack.Grammar.{IsValue, IsRow, short_row, fixarray, alone, nil_marker, more}
use rs_lxmflite.Fields.{value_as_bytes}
use rs_lxmflite.Propagation.{
  array_items, array_header, next_item, available_at, available_loop, transient_id, fetched_message,
  append_recipient_stamp,
}
use rs_lxmflite.Propagation.Append.{append_recipient_stamp_lem}

fetched_one : fetched_message (0x91 ∷ 0xc4 ∷ 2 ∷ 7 ∷ 8 ∷ []) ≡ ok (some (7 ∷ 8 ∷ []))
unfolding fetched_message array_items array_header next_item value_as_bytes read_bin bin_header
    skip_value skip_level skip_format skip_n format len_at body
fetched_one = refl

short_id_refused : available_at (0x91 ∷ 0xc4 ∷ 2 ∷ 7 ∷ 8 ∷ []) 0 ≡ err malformed_payload
unfolding available_at available_loop transient_id array_items array_header next_item value_as_bytes
    read_bin bin_header skip_value skip_level skip_format skip_n format len_at body
short_id_refused = refl

four_nils : IsValue 9 (0x94 ∷ 0xc0 ∷ 0xc0 ∷ 0xc0 ∷ 0xc0 ∷ [])
four_nils =
    short_row (fixarray {n = 4} refl (omega arith))
      (one_more (one_more (one_more (one_more IsRow.done))))
  where
    one_more : {n : ℕ} {xs : List ℕ} → IsRow 8 n xs → IsRow 8 (suc n) (0xc0 ∷ xs)
    one_more {xs} row = more (0xc0 ∷ []) xs (alone (nil_marker refl)) row refl

append_recipient_stamp_lem_example :
    append_recipient_stamp
      ((replicate 96 1 ++ (0x94 ∷ 0xc0 ∷ 0xc0 ∷ 0xc0 ∷ 0xc0 ∷ [])) ++ (0 ∷ 0 ∷ replicate 17 0))
      101
      (replicate 16 9)
    ≡ ok (
      119,
      (replicate 96 1 ++ (0x95 ∷ 0xc0 ∷ 0xc0 ∷ 0xc0 ∷ 0xc0 ∷ []))
          ++ ((0xc4 ∷ 16 ∷ replicate 16 9) ++ (0 ∷ [])),
    )
append_recipient_stamp_lem_example =
    append_recipient_stamp_lem (replicate 96 1) (0xc0 ∷ 0xc0 ∷ 0xc0 ∷ 0xc0 ∷ []) (replicate 16 9)
      (replicate 17 0) 0 0 refl (omega arith) four_nils (inl refl) (omega arith) (omega arith)
