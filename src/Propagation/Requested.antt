-- ===== src/Propagation/Requested.antt =====
-- src/propagation.rs: the bytes of a request.
use rs_lxmflite.Base.{
  subst, ℕ, suc, ◌+◌, ◌≤◌, ◌≡◌, refl, sym, ap, ◌∙◌, true, false, List, [], ◌∷◌, ◌++◌, append-nil,
  append_assoc, arith, length, take, length-take, le→ltb, length-append, ◌==◌,
}
use rs_lxmflite.Base.Bytes.{be64}
use rs_lxmflite.Base.Result.{ok}
use rs_lxmflite.MsgPack.Grammar.{
  IsValue, alone, plain, prefixed, short_row, done, more, nil_marker, float64, bin8, fixarray,
}
use rs_lxmflite.Payload.{copy_at}
use rs_lxmflite.Payload.Copies.{front-copy_at}
use rs_lxmflite.Rns.{Rns, IdentityLaws}
use rs_lxmflite.Propagation.{is_finite}
use rs_lxmflite.Propagation.Items.{concat}
use rs_lxmflite.Propagation.Request.{
  GetRequest, list, fetch, purge, is_negative, limit_is_zero, thousandth, request_body, body_len,
  get_path, build_get_request,
}

-- A request whose ids have 32 bytes, and whose limit is not zero.
abbrev pub IsRequest : GetRequest → Type 0
IsRequest list = Unit
IsRequest (fetch id limit) = (length id ≡ 32) × ((limit == 0) ≡ false)
IsRequest (purge id) = length id ≡ 32

-- MessagePack values, and an array of values that are encoded already.
abbrev pub nil_value : List ℕ
nil_value = 0xc0 ∷ []

abbrev pub float_value : ℕ → List ℕ
float_value bits = 0xcb ∷ be64 bits

abbrev pub bin_value : List ℕ → List ℕ
bin_value bytes = 0xc4 ∷ length bytes ∷ bytes

abbrev pub array_value : List (List ℕ) → List ℕ
array_value items = (0x90 + length items) ∷ concat items

-- `[nil, nil]` for a list, `[[id], [], limit]` for a fetch, and `[nil, [id]]` for a purge.
abbrev pub request_data : GetRequest → List ℕ
request_data list = array_value (nil_value ∷ nil_value ∷ [])
request_data (fetch id limit) =
    array_value
      (array_value (bin_value id ∷ []) ∷ array_value [] ∷ float_value (thousandth limit) ∷ [])
request_data (purge id) = array_value (nil_value ∷ array_value (bin_value id ∷ []) ∷ [])

-- `[timestamp, hash("/get"), data]`
abbrev pub request_bytes : Rns → ℕ → GetRequest → List ℕ
request_bytes rns timestamp request =
    array_value (
      float_value timestamp ∷ bin_value (take 16 (rns.sha256 get_path)) ∷ request_data request ∷ [])

-- The same with the code's body.
abbrev packed_request : Rns → ℕ → GetRequest → List ℕ
packed_request rns timestamp request =
    0x93
    ∷ 0xcb
    ∷ (be64 timestamp ++ (0xc4 ∷ 16 ∷ (take 16 (rns.sha256 get_path) ++ request_body request)))

length-request_body :
    (request : GetRequest) → IsRequest request → length (request_body request) ≡ body_len request
unfolding request_body body_len
length-request_body list h = refl
length-request_body (fetch id limit) h =
    omega (arith, length-append id (0x90 ∷ 0xcb ∷ be64 (thousandth limit)), h.0)
length-request_body (purge id) h = omega (arith, h)

-- The body is the description of the request.
request_body-data :
    (request : GetRequest) → IsRequest request → request_body request ≡ request_data request
unfolding request_body
request_body-data list h = refl
request_body-data (fetch id limit) h = rw h.0 (simp append-nil)
request_body-data (purge id) h = rw h (simp append-nil)

bin_id : (room : ℕ) (id : List ℕ) → length id ≡ 32 → IsValue (suc room) (0xc4 ∷ 32 ∷ id)
bin_id room id h = prefixed (32 ∷ []) id (bin8 refl) (omega (arith, h)) refl

-- An array of one id.
one_id :
    (room : ℕ) (id : List ℕ) → length id ≡ 32 → IsValue (suc (suc room)) (0x91 ∷ 0xc4 ∷ 32 ∷ id)
one_id room id h =
    short_row (fixarray {n = 1} refl (omega arith))
      (more (0xc4 ∷ 32 ∷ id) [] (bin_id room id h) done (sym (append-nil (0xc4 ∷ 32 ∷ id))))

request_body-IsValue : (request : GetRequest) → IsRequest request → IsValue 8 (request_body request)
unfolding request_body
request_body-IsValue list h = short_row (fixarray {n = 2} refl (omega arith)) (
    more (0xc0 ∷ []) (0xc0 ∷ []) (alone (nil_marker refl))
      (more (0xc0 ∷ []) [] (alone (nil_marker refl)) done refl) refl)
request_body-IsValue (fetch id limit) h = short_row (fixarray {n = 3} refl (omega arith)) (
    more (0x91 ∷ 0xc4 ∷ 32 ∷ id) _ (one_id 5 id (h.0))
      (more (0x90 ∷ []) _ (short_row (fixarray {n = 0} refl (omega arith)) done)
        (more (0xcb ∷ be64 (thousandth limit)) [] (plain (float64 refl)) done refl) refl)
      refl)
request_body-IsValue (purge id) h = short_row (fixarray {n = 2} refl (omega arith)) (
    more (0xc0 ∷ []) _ (alone (nil_marker refl))
      (more (0x91 ∷ 0xc4 ∷ 32 ∷ id) [] (one_id 5 id h) done
        (sym (append-nil (0x91 ∷ 0xc4 ∷ 32 ∷ id))))
      refl)

IsRequest-limit : (request : GetRequest) → IsRequest request → limit_is_zero request ≡ false
unfolding limit_is_zero
IsRequest-limit list h = refl
IsRequest-limit (fetch id limit) h = h.1
IsRequest-limit (purge id) h = refl

module _ (rns : Rns) (laws : IdentityLaws rns) where
  build_get_request-packed :
      (timestamp : ℕ) (request : GetRequest) (out : List ℕ)
      → is_finite timestamp ≡ true
      → is_negative timestamp ≡ false
      → IsRequest request
      → 28 + body_len request ≤ length out
      → (after : List ℕ) × (build_get_request rns timestamp request out
          ≡ ok (28 + body_len request, after))
        × (take (28 + body_len request) after ≡ packed_request rns timestamp request)
        × IsValue 9 (packed_request rns timestamp request)
  unfolding build_get_request
  build_get_request-packed timestamp request out finite positive valid room =
      let path = take 16 (rns.sha256 get_path) in
      let path_len : length path ≡ 16 =
        omega (arith, length-take 16 (rns.sha256 get_path), laws.length-sha256 get_path) in
      let body = request_body request in
      let width = length-request_body request valid in
      let o1 = copy_at 0 (0x93 ∷ 0xcb ∷ []) out in
      let o2 = copy_at 2 (be64 timestamp) o1 in
      let o3 = copy_at 10 (0xc4 ∷ 16 ∷ []) o2 in
      let o4 = copy_at 12 path o3 in
      let f2 = 0x93 ∷ 0xcb ∷ be64 timestamp in
      let f4 : take 28 o4 ≡ (f2 ++ (0xc4 ∷ 16 ∷ [])) ++ path =
        ap (λ n. take (12 + n) o4) (sym path_len)
        ∙ front-copy_at 12 (f2 ++ (0xc4 ∷ 16 ∷ [])) path o3 refl (
            front-copy_at 10 f2 (0xc4 ∷ 16 ∷ []) o2 refl (
              front-copy_at 2 (0x93 ∷ 0xcb ∷ []) (be64 timestamp) o1 refl
                (front-copy_at 0 [] (0x93 ∷ 0xcb ∷ []) out refl refl))) in
      (
        copy_at 28 body o4,
        rw
            (
              finite,
              positive,
              IsRequest-limit request valid,
              le→ltb (length out) (28 + body_len request) room,
            )
            refl,
        ap (λ n. take (28 + n) (copy_at 28 body o4)) (sym width)
            ∙ front-copy_at 28 ((f2 ++ (0xc4 ∷ 16 ∷ [])) ++ path) body o4
                (omega (arith, length-append (f2 ++ (0xc4 ∷ 16 ∷ [])) path, path_len)) f4
            ∙ simp append_assoc,
        short_row (fixarray {n = 3} refl (omega arith)) (
            more (0xcb ∷ be64 timestamp) _ (plain (float64 refl))
              (more (0xc4 ∷ 16 ∷ path) _
                (prefixed (16 ∷ []) path (bin8 refl) (omega (arith, path_len)) refl)
                (more body [] (request_body-IsValue request valid) done (sym (append-nil body)))
                refl)
              refl),
      )

  packed_request-bytes :
      (timestamp : ℕ) (request : GetRequest)
      → IsRequest request
      → packed_request rns timestamp request ≡ request_bytes rns timestamp request
  packed_request-bytes timestamp request valid =
      let path_len : length (take 16 (rns.sha256 get_path)) ≡ 16 =
        omega (arith, length-take 16 (rns.sha256 get_path), laws.length-sha256 get_path) in
      rw (path_len, request_body-data request valid) (simp append-nil)

  -- A request at a finite time that is not negative, with a limit that is not zero, is built where the
  -- output has room: 31 bytes for a list, 65 for a purge, and 74 for a fetch. They are one complete
  -- array of the time, the path's hash cut to 16 bytes, and the data of the request: `[nil, nil]` for a
  -- list, `[[id], [], limit]` for a fetch, with the bits that `thousandth` computes for the limit, and
  -- `[nil, [id]]` for a purge.
  pub build_get_request_lem :
      (timestamp : ℕ) (request : GetRequest) (out : List ℕ)
      → is_finite timestamp ≡ true
      → is_negative timestamp ≡ false
      → IsRequest request
      → 28 + body_len request ≤ length out
      → (after : List ℕ) × (build_get_request rns timestamp request out
          ≡ ok (28 + body_len request, after))
        × (take (28 + body_len request) after ≡ request_bytes rns timestamp request)
        × IsValue 9 (request_bytes rns timestamp request)
  build_get_request_lem timestamp request out finite positive valid room =
      let (after, built, front, value) =
        build_get_request-packed timestamp request out finite positive valid room in
      let same = packed_request-bytes timestamp request valid in
      (after, built, front ∙ same, subst (IsValue 9) same value)
