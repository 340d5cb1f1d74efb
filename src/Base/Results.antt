-- ===== src/Base/Results.antt =====
-- A result with an error value, and its do blocks.
use mathlib.Core.Path.{◌≡◌, refl}
use mathlib.Core.Bool.{Bool, true, false}

-- A Go pair of a value and an error.
pub data Fallible {ℓ κ} (E : Type ℓ) (A : Type κ) : Type (ℓ ⊔ κ) where
  err : (fault : E) → Fallible E A
  ok : (value : A) → Fallible E A

-- `if !test { return e }`.
abbrev pub require {ℓ} : {E : Type ℓ} (test : Bool) (fault : E) → Fallible E (Unit {0})
require false fault = err fault
require true fault = ok tt

infixl 5 ◌>>=◌
abbrev pub ◌>>=◌ {ℓ κ μ} :
    {E : Type ℓ} {A : Type κ} {B : Type μ} (first : Fallible E A) (rest : A → Fallible E B)
    → Fallible E B
err fault >>= rest = err fault
ok value >>= rest = rest value

pub >>=-eq-ok {ℓ κ μ} :
    {E : Type ℓ} {A : Type κ} {B : Type μ} {out : B} (first : Fallible E A)
    (rest : A → Fallible E B) (succeeds : first >>= rest ≡ ok out)
    → (value : A) × (first ≡ ok value) × (rest value ≡ ok out)
>>=-eq-ok (err fault) rest succeeds = cc
>>=-eq-ok (ok value) rest succeeds = (value, refl, succeeds)

infixl 5 ◌>>◌
abbrev pub ◌>>◌ {ℓ κ} :
    {E : Type ℓ} {B : Type κ} (check : Fallible E (Unit {0})) (rest : Fallible E B) → Fallible E B
check >> rest = check >>= λ done. rest

pub >>-eq-ok {ℓ κ} :
    {E : Type ℓ} {B : Type κ} {out : B} (check : Fallible E (Unit {0})) (rest : Fallible E B)
    (succeeds : check >> rest ≡ ok out)
    → (check ≡ ok tt) × (rest ≡ ok out)
>>-eq-ok (err fault) rest succeeds = cc
>>-eq-ok (ok tt) rest succeeds = (refl, succeeds)

pub require-eq-ok {ℓ} : {E : Type ℓ} (b : Bool) (e : E) → require b e ≡ ok tt → b ≡ true
require-eq-ok true e h = refl
require-eq-ok false e h = cc

-- The test has passed, and what follows has succeeded.
pub require->>-eq-ok {ℓ κ} :
    {E : Type ℓ} {B : Type κ} (t : Bool) (e : E) (k : Fallible E B) {b : B}
    → (require t e >> k) ≡ ok b
    → (t ≡ true) × (k ≡ ok b)
require->>-eq-ok true e k h = (refl, h)
require->>-eq-ok false e k h = cc
