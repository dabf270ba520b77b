-- ===== src/Base/Result.antt =====
-- src/lxmf.rs: `LxmfError`, and `Result` with the operator `?` as bind.
use mathlib.Core.Path.{◌≡◌, refl}
use mathlib.Core.Logic.{◌⊎◌, inl, inr}
use mathlib.Core.Bool.{Bool, true, false}
use mathlib.Core.Option.{Option, none, some}

pub data LxmfError : Type 0 where
  too_long output_too_small crypto malformed_payload signature_invalid : LxmfError
  source_hash_mismatch destination_mismatch too_many_fields duplicate_field : LxmfError

pub data Result {ℓ} (A : Type ℓ) : Type ℓ where
  ok : A → Result A
  err : LxmfError → Result A

-- `if b { return Err(e); }`
abbrev pub refuse : Bool → LxmfError → Result (Unit {0})
refuse true e = err e
refuse false e = ok tt

abbrev pub ok_or {ℓ} : {A : Type ℓ} → Option A → LxmfError → Result A
ok_or none e = err e
ok_or (some a) e = ok a

-- `Result::ok`
abbrev pub to_option {ℓ} : {A : Type ℓ} → Result A → Option A
to_option (ok a) = some a
to_option (err e) = none

-- `Result::map_err`
abbrev pub map_err {ℓ} : {A : Type ℓ} → (LxmfError → LxmfError) → Result A → Result A
map_err f (ok a) = ok a
map_err f (err e) = err (f e)

-- `?`: an error ends the computation, a value goes on to the rest.
infixl 5 ◌>>=◌
abbrev pub ◌>>=◌ {ℓ κ} : {A : Type ℓ} {B : Type κ} → Result A → (A → Result B) → Result B
err why >>= rest = err why
ok x >>= rest = rest x

-- A check in front of the rest.
infixl 5 ◌>>◌
abbrev pub ◌>>◌ {ℓ} : {B : Type ℓ} → Result (Unit {0}) → Result B → Result B
check >> rest = check >>= λ u. rest

-- What a computation that ends in a value has been through.
module _ {ℓ κ} {A : Type ℓ} {B : Type κ} where
  pub >>=-eq-ok :
      (first : Result A) (rest : A → Result B) {y : B}
      → (first >>= rest) ≡ ok y
      → (x : A) × (first ≡ ok x) × (rest x ≡ ok y)
  >>=-eq-ok (err why) rest h = cc
  >>=-eq-ok (ok x) rest h = (x, refl, h)

-- Two ways to go on that agree on the value.
pub bind_congr {ℓ κ} :
    {A : Type ℓ} {B : Type κ} (m : Result A) (p q : A → Result B)
    → ((x : A) → m ≡ ok x → p x ≡ q x)
    → (m >>= p) ≡ (m >>= q)
bind_congr (err why) p q same = refl
bind_congr (ok x) p q same = same x refl

pub Result-cases {ℓ} :
    {A : Type ℓ} (r : Result A) → ((a : A) × (r ≡ ok a)) ⊎ ((e : LxmfError) × (r ≡ err e))
Result-cases (ok a) = inl (a, refl)
Result-cases (err e) = inr (e, refl)

pub bind_assoc {ℓ κ μ} :
    {A : Type ℓ} {B : Type κ} {C : Type μ} (m : Result A) (f : A → Result B) (g : B → Result C)
    → ((m >>= f) >>= g) ≡ (m >>= λ a. f a >>= g)
bind_assoc (err why) f g = refl
bind_assoc (ok x) f g = refl

pub bind_ok {ℓ} : {A : Type ℓ} (m : Result A) → (m >>= ok) ≡ m
bind_ok (err why) = refl
bind_ok (ok x) = refl

-- A check that lets the rest go on.
pub refuse-eq-ok : (b : Bool) (e : LxmfError) {u : Unit {0}} → refuse b e ≡ ok u → b ≡ false
refuse-eq-ok true e h = cc
refuse-eq-ok false e h = refl

pub ok_injective : {A : Type 0} {a b : A} → ok a ≡ ok b → a ≡ b
ok_injective e = cc
