-- ===== src/Message/Whole.antt =====
-- src/lxmf.rs: the payload as one value, and the packed message as bytes.
use rs_lxmflite.Base.{ℕ, refl, sym, subst, List, [], ◌∷◌, ◌++◌, append-nil, arith, All-append}
use rs_lxmflite.Base.Bytes.{IsByte, IsBytes, be64}
use rs_lxmflite.Base.Int.{ℤ}
use rs_lxmflite.MsgPack.Grammar.{IsValue, float64, fixarray, plain, short_row, done, more}
use rs_lxmflite.MsgPack.Blob.{IsBlob-IsValue}
use rs_lxmflite.Payload.{PayloadFields}
use rs_lxmflite.Payload.Bytes.{bin_bytes, fields_bytes, payload_bytes}
use rs_lxmflite.Payload.Emits.{IsSlice}
use rs_lxmflite.Rns.{Rns, IdentityLaws}
use rs_lxmflite.Message.Build.{packed_message, recipient_destination}
use rs_lxmflite.Message.Encoded.{Sendable, bin_bytes-IsBlob, payload_bytes-IsBytes}

-- A payload is an array of four values, whose fields may be nested one level less than alone.
pub payload_bytes-IsValue :
    (timestamp : ℕ) (title content : List ℕ) (fs : PayloadFields (List ℕ))
    → IsSlice title
    → IsSlice content
    → IsValue 8 (fields_bytes fs)
    → IsValue 9 (payload_bytes timestamp title content fs)
unfolding payload_bytes
payload_bytes-IsValue timestamp title content fs ht hc hf =
    short_row (fixarray {n = 4} refl (omega arith)) (
      more (0xcb ∷ be64 timestamp) _ (plain (float64 refl))
        (more (bin_bytes title) _ (IsBlob-IsValue 7 (bin_bytes-IsBlob title ht))
          (more (bin_bytes content) _ (IsBlob-IsValue 7 (bin_bytes-IsBlob content hc))
            (more (fields_bytes fs) [] hf done (sym (append-nil (fields_bytes fs)))) refl)
          refl)
        refl)

module _ (rns : Rns) (laws : IdentityLaws rns) where
  open rns use {LocalIdentity, sign, lxmf_delivery_hash}

  pub packed_message-IsBytes :
      (source : LocalIdentity) (recipient signed : List ℕ) (timestamp : ℕ) (title content : List ℕ)
      (fs : PayloadFields (List ℕ)) (keys : List ℤ)
      → Sendable timestamp title content fs keys
      → IsBytes (
          packed_message
            (recipient_destination rns laws recipient)
            (lxmf_delivery_hash source)
            (sign source signed)
            (payload_bytes timestamp title content fs))
  packed_message-IsBytes source recipient signed timestamp title content fs keys s =
      let dest = recipient_destination rns laws recipient in
      let src = lxmf_delivery_hash source in
      let src_bytes : IsBytes src =
        subst IsBytes (sym (laws.delivery_hash source)) (laws.destination-IsBytes _) in
      All-append IsByte ((dest ++ src) ++ sign source signed) _
        (All-append IsByte (dest ++ src) _
          (All-append IsByte dest src (laws.destination-IsBytes _) src_bytes)
          (laws.sign-IsBytes source signed))
        (payload_bytes-IsBytes timestamp title content fs s.title_octets s.content_octets
          s.fields_octets)
