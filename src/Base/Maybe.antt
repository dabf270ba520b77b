-- ===== src/Base/Maybe.antt =====
-- `?` on options, for the functions that return `Option`.
use mathlib.Core.Option.{Option, none, some}
use mathlib.Core.Path.{◌≡◌, refl}

infixl 5 ◌>>=◌
abbrev pub ◌>>=◌ {ℓ κ} : {A : Type ℓ} {B : Type κ} → Option A → (A → Option B) → Option B
none >>= rest = none
some x >>= rest = rest x

infixl 5 ◌>>◌
abbrev pub ◌>>◌ {ℓ} : {B : Type ℓ} → Option (Unit {0}) → Option B → Option B
check >> rest = check >>= λ u. rest

-- What a chain that ends in a value has been through.
pub >>=-eq-some {ℓ κ} :
    {A : Type ℓ} {B : Type κ} (first : Option A) (rest : A → Option B) {y : B}
    → (first >>= rest) ≡ some y
    → (x : A) × (first ≡ some x) × (rest x ≡ some y)
>>=-eq-some none rest h = cc
>>=-eq-some (some x) rest h = (x, refl, h)
