-- ===== src/Message/Refusals.antt =====
-- src/lxmf.rs: when the builders refuse, and with which error.
use rs_lxmflite.Base.{
  ℕ, ◌+◌, ◌-◌, ◌≡◌, inl, inr, refl, true, false, ◌||◌, Bool, Bool-cases, List, arith, ltb, length,
  slice, le→ltb, lt→ltb, le→leb, lt→leb, dec_le,
}
use rs_lxmflite.Base.Slices.{length-slice}
use rs_lxmflite.Base.Result.{ok, ◌>>=◌, ◌>>◌, refuse, output_too_small, too_long}
use rs_lxmflite.Payload.{PayloadFields}
use rs_lxmflite.Payload.Bytes.{payload_bytes}
use rs_lxmflite.Payload.Emits.{IsSlice}
use rs_lxmflite.Payload.Size.{FieldsFit, pack_payload_lem}
use rs_lxmflite.Rns.{Rns}
use rs_lxmflite.Message.{BuiltLink, build_link_inner}

refuse_then :
    (b : Bool) (a : BuiltLink) → ((refuse b too_long >> ok a) >>= λ x. ok tt) ≡ refuse b too_long
refuse_then true a = refl
refuse_then false a = refl

module _ (rns : Rns) where
  open rns use {LocalIdentity}

  -- Without room for the shortest message the error is `OutputTooSmall`; with it, a payload too long
  -- for either buffer is `TooLong`; else the message is built.
  pub build_link_inner-refuses :
      (source : LocalIdentity) (recipient : List ℕ) (timestamp : ℕ) (title content : List ℕ)
      (fs : PayloadFields (List ℕ)) (out scratch : List ℕ)
      → IsSlice title
      → IsSlice content
      → FieldsFit fs
      → IsSlice scratch
      → let n = length (payload_bytes timestamp title content fs) in
        (build_link_inner rns source recipient timestamp title content fs out scratch >>= λ b.
        ok tt)
        ≡ (refuse (ltb (length scratch) 75 || ltb (length out) 107) output_too_small
            >> refuse (ltb (length scratch) (64 + n) || ltb (length out) (96 + n)) too_long)
  unfolding build_link_inner
  build_link_inner-refuses source recipient timestamp title content fs out scratch ht hc hf hs =
      let n = length (payload_bytes timestamp title content fs) in
      let window = slice scratch 32 (length scratch - 32) in
      elim (Bool-cases (ltb (length scratch) 75 || ltb (length out) 107)) [
        | inl short ↦ rw short refl
        | inr room ↦
            let width : length window ≡ length scratch - 64 =
              omega (
                arith,
                length-slice scratch 32 (length scratch - 32) (ground arith) (omega arith),
              ) in
            let packed =
              pack_payload_lem timestamp title content fs window (omega (arith, width)) ht hc hf in
            elim (dec_le n (length window)) [
              | yes fits ↦
                  rw
                    (
                      room,
                      packed,
                      le→leb n (length window) fits,
                      le→ltb (length scratch) (64 + n) (ground (arith, width)),
                    )
                    (refuse_then (ltb (length out) (96 + n)) _)
              | no over ↦
                  rw
                    (
                      room,
                      packed,
                      lt→leb n (length window) (omega arith),
                      lt→ltb (length scratch) (64 + n) (ground (arith, width)),
                    )
                    refl
            ]
      ]
