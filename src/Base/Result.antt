-- ===== src/Base/Result.antt =====
-- A call that may raise: the value or the error.
use mathlib.Core.Bool.{Bool, true, false}
use mathlib.Core.Path.{◌≡◌, refl}

pub data Result {ℓ κ} (E : Type κ) (A : Type ℓ) : Type (ℓ ⊔ κ) where
  ok : A → Result E A
  err : E → Result E A

infixl 5 ◌>>=◌ ◌>>◌
unfoldable pub ◌>>=◌ {ℓ κ μ} :
    {E : Type μ} {A : Type ℓ} {B : Type κ} → Result E A → (A → Result E B) → Result E B
ok a >>= f = f a
err e >>= f = err e

unfoldable pub ◌>>◌ {κ μ} :
    {E : Type μ} {B : Type κ} → Result E (Unit {0}) → Result E B → Result E B
unfolding ◌>>=◌
m >> k = m >>= λ _. k

-- `if b: raise e`
unfoldable pub refuse {μ} : {E : Type μ} → Bool → E → Result E (Unit {0})
refuse true e = err e
refuse false e = ok tt

pub bind_ok {ℓ κ μ} :
    {E : Type μ} {A : Type ℓ} {B : Type κ} (m : Result E A) (f : A → Result E B) (b : B)
    → (m >>= f) ≡ ok b
    → (a : A) × ((m ≡ ok a) × (f a ≡ ok b))
unfolding ◌>>=◌
bind_ok (ok a) f b h = (a, (refl, h))
bind_ok (err e) f b h = cc

pub refuse_ok {κ μ} :
    {E : Type μ} {B : Type κ} (c : Bool) (e : E) (k : Result E B) (b : B)
    → (refuse c e >> k) ≡ ok b
    → (c ≡ false) × (k ≡ ok b)
unfolding ◌>>=◌ ◌>>◌ refuse
refuse_ok true e k b h = cc
refuse_ok false e k b h = (refl, h)

pub refuse_over {κ μ} :
    {E : Type μ} {B : Type κ} (c : Bool) (e : E) (k : Result E B) (b : B)
    → c ≡ false
    → k ≡ ok b
    → (refuse c e >> k) ≡ ok b
unfolding ◌>>=◌ ◌>>◌ refuse
refuse_over true e k b h g = cc
refuse_over false e k b h g = g

pub ok_eq {ℓ μ} :
    {E : Type μ} {A : Type ℓ} {a b : A} → (let x : Result E A = ok a in x ≡ ok b) → a ≡ b
ok_eq h = cc

pub bind_over {ℓ κ μ} :
    {E : Type μ} {A : Type ℓ} {B : Type κ} (m : Result E A) (f : A → Result E B) (a : A)
    (b : Result E B)
    → m ≡ ok a
    → f a ≡ b
    → (m >>= f) ≡ b
unfolding ◌>>=◌
bind_over m f a b h g = rw h g
