-- ===== src/Propagation/Append.antt =====
-- A recipient stamp behind a packed message.
use rs_lxmflite.Base.{
  ℕ, ◌+◌, ◌%◌, ◌≤◌, ◌<◌, ◌≡◌, ◌⊎◌, inl, inr, refl, sym, ap, ◌∙◌, true, ◌||◌, List, [], ◌∷◌, ◌++◌,
  append_assoc, append-nil, arith, length, length-append, take, drop, set, get_or, usize_mod,
  take-length_append, drop-length_append, lt→leb, le→ltb, lt→ltb, ==_refl, ◌==◌,
}
use rs_lxmflite.Base.Bytes.{IsBytes}
use rs_lxmflite.Base.Slices.{ReadsAt, set_behind, get_or-ReadsAt}
use rs_lxmflite.Base.Result.{ok}
use rs_lxmflite.MsgPack.{skip_value}
use rs_lxmflite.MsgPack.Grammar.{IsValue}
use rs_lxmflite.MsgPack.Complete.{skip_value-IsValue}
use rs_lxmflite.Payload.{copy_at}
use rs_lxmflite.Payload.Copies.{copy_behind_front}
use rs_lxmflite.Propagation.{stamp_guards, append_recipient_stamp}

stamp_length :
    (stamp : List ℕ)
    → (length stamp ≡ 16) ⊎ (length stamp ≡ 32)
    → (length stamp == 16 || length stamp == 32) ≡ true
stamp_length stamp (inl e) = rw e refl
stamp_length stamp (inr e) = rw e refl

-- The writes of `append_recipient_stamp`, on a buffer with the message and two bytes at least.
stamped_buffer :
    (front elements stamp more : List ℕ) (x y n : ℕ)
    → length front ≡ 96
    → n ≡ length (front ++ (0x94 ∷ elements))
    → length stamp < 256
    → set
        (copy_at (n + 2) stamp (
          set
            (set ((front ++ (0x94 ∷ elements)) ++ (x ∷ y ∷ more)) n 0xc4)
            (n + 1)
            (length stamp % 256)))
        96
        0x95
      ≡ (front ++ (0x95 ∷ elements)) ++ ((0xc4 ∷ length stamp ∷ stamp) ++ drop (length stamp) more)
stamped_buffer front elements stamp more x y n hf hn hs =
    let message = front ++ (0x94 ∷ elements) in
    let len = length stamp % 256 in
    let after = drop (length stamp) more in
    let tail = 0xc4 ∷ len ∷ (stamp ++ after) in
    ap (λ b. set (copy_at (n + 2) stamp (set b (n + 1) len)) 96 0x95)
      (set_behind n message (y ∷ more) x 0xc4 hn
        ∙ sym (append_assoc message (0xc4 ∷ []) (y ∷ more)))
    ∙ ap (λ b. set (copy_at (n + 2) stamp b) 96 0x95)
        (set_behind (n + 1) (message ++ (0xc4 ∷ [])) more y len
            (omega (arith, length-append message (0xc4 ∷ [])))
          ∙ append_assoc message (0xc4 ∷ []) (len ∷ more)
          ∙ sym (append_assoc message (0xc4 ∷ len ∷ []) more))
    ∙ ap (λ b. set b 96 0x95)
        (copy_behind_front (n + 2) (message ++ (0xc4 ∷ len ∷ [])) more stamp
            (omega (arith, length-append message (0xc4 ∷ len ∷ [])))
          ∙ simp append_assoc)
    ∙ set_behind 96 front (elements ++ tail) 0x94 0x95 (sym hf)
    ∙ sym (append_assoc front (0x95 ∷ elements) tail)
    ∙ ap (λ k. (front ++ (0x95 ∷ elements)) ++ (0xc4 ∷ k ∷ (stamp ++ after))) (omega arith)

-- A stamp of 16 or 32 bytes behind a packed message of four elements, in a buffer with room for it:
-- the array's marker becomes that of five elements, the stamp stands behind the fourth as a bin
-- value, and nothing else in the buffer changes. The prefix is 96 bytes, and the elements behind it
-- are one complete value.
pub append_recipient_stamp_lem :
    (front elements stamp more : List ℕ) (x y : ℕ)
    → let message = front ++ (0x94 ∷ elements) in
      length front ≡ 96
      → IsBytes message
      → IsValue 9 (0x94 ∷ elements)
      → (length stamp ≡ 16) ⊎ (length stamp ≡ 32)
      → length stamp ≤ length more
      → length (message ++ (x ∷ y ∷ more)) < usize_mod
      → append_recipient_stamp (message ++ (x ∷ y ∷ more)) (length message) stamp
        ≡ ok (
          length message + (2 + length stamp),
          (front ++ (0x95 ∷ elements))
              ++ ((0xc4 ∷ length stamp ∷ stamp) ++ drop (length stamp) more),
        )
unfolding append_recipient_stamp stamp_guards
append_recipient_stamp_lem front elements stamp more x y hf bytes value hs room small =
    let message = front ++ (0x94 ∷ elements) in
    let packed = message ++ (x ∷ y ∷ more) in
    let whole = length-append front (0x94 ∷ elements) in
    let all = length-append message (x ∷ y ∷ more) in
    let at_value : ReadsAt message 96 (0x94 ∷ elements) [] = record {
      reads =
          drop-length_append 96 front (0x94 ∷ elements) (sym hf)
          ∙ sym (append-nil (0x94 ∷ elements));
      inside = omega (arith, whole);
    } in
    let at_marker : ReadsAt packed 96 (0x94 ∷ elements) (x ∷ y ∷ more) = record {
      reads =
          ap (drop 96) (append_assoc front (0x94 ∷ elements) (x ∷ y ∷ more))
          ∙ drop-length_append 96 front (0x94 ∷ (elements ++ (x ∷ y ∷ more))) (sym hf);
      inside = omega (arith, whole, all);
    } in
    let marker : get_or packed 96 0 ≡ 0x94 = get_or-ReadsAt 0 at_marker in
    let walked : skip_value (take (length message) packed) 96 0 ≡ ok (length message) =
      ap (λ b. skip_value b 96 0) (take-length_append (length message) message (x ∷ y ∷ more) refl)
      ∙ skip_value-IsValue message 96 0 (0x94 ∷ elements) [] (omega (arith, all)) bytes at_value
          value
      ∙ ap ok (omega (arith, whole)) in
    let below : length stamp < 256 = elim hs [ inl e ↦ omega arith | inr e ↦ omega arith ] in
    rw (
      lt→leb (length message) 96 (omega (arith, whole)),
      le→ltb (length packed) (length message) (omega (arith, all)),
      stamp_length stamp hs,
      marker,
      walked,
      ==_refl (length message),
      lt→ltb (length message + (2 + length stamp)) usize_mod (omega (arith, all)),
      le→ltb (length packed) (length message + (2 + length stamp)) (omega (arith, all)),
      stamped_buffer front elements stamp more x y (length message) hf refl below,
    )
