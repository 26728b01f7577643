-- ===== src/Prelude/Run.antt =====
-- The outcome of code that asserts and indexes arrays: a value, or a fault, which stands for a
-- failed `Assert` and for an access out of bounds.
use mathlib.Core.Path.{◌≡◌, refl}
use mathlib.Core.Bool.{Bool, true, false}

pub data Run {ℓ} (A : Type ℓ) : Type ℓ where
  done : A → Run A
  fault : Run A

infixl 5 ◌>>=◌ ◌>>◌
abbrev pub ◌>>=◌ {ℓ κ} : {A : Type ℓ} {B : Type κ} → Run A → (A → Run B) → Run B
done a >>= f = f a
fault >>= f = fault

abbrev pub ◌>>◌ {ℓ} : {B : Type ℓ} → Run (Unit {0}) → Run B → Run B
m >> k = m >>= λ _. k

-- `Assert(b)`.
abbrev pub check : Bool → Run (Unit {0})
check true = done tt
check false = fault

-- A run that ends in a value, which meets `P`.
abbrev pub Returns {ℓ} : {A : Type ℓ} → (A → Type 0) → Run A → Type 0
Returns P (done a) = P a
Returns P fault = ⊥

pub Returns-mono {ℓ} :
    {A : Type ℓ} {P Q : A → Type 0} (r : Run A) → Returns P r → ((a : A) → P a → Q a) → Returns Q r
Returns-mono (done a) p weaken = weaken a p
Returns-mono fault p weaken = p

pub Returns-bind {ℓ κ} :
    {A : Type ℓ} {B : Type κ} {P : A → Type 0} (r : Run A) (k : A → Run B) (Q : B → Type 0)
    → Returns P r
    → ((a : A) → P a → Returns Q (k a))
    → Returns Q (r >>= k)
Returns-bind (done a) k Q p next = next a p
Returns-bind fault k Q p next = p

pub bind_assoc {ℓ κ μ} :
    {A : Type ℓ} {B : Type κ} {D : Type μ} (r : Run A) (f : A → Run B) (g : B → Run D)
    → (r >>= f) >>= g ≡ r >>= (λ a. f a >>= g)
bind_assoc (done a) f g = refl
bind_assoc fault f g = refl
