-- ===== src/Prelude/Results.antt =====
-- What holds of the value that a call ends with; a call that faults has none.
use mathlib.Core.Option.{Option, none, some}
use mathlib.Core.Bool.{Bool, true, false}
use mathlib.Core.Path.{◌≡◌, refl}
use phantom_os.Prelude.Tests.{◌>>=◌, if◌then◌else◌}

pub data Ends {ℓ} {A : Type ℓ} (P : A → Type ℓ) : Option A → Type ℓ where
  ends : {a : A} → P a → Ends P (some a)

-- A call and then another one.
pub Ends-bind {ℓ} :
    {A B : Type ℓ} {P : A → Type ℓ} {Q : B → Type ℓ} {r : Option A} {f : A → Option B}
    → Ends P r
    → ((a : A) → P a → Ends Q (f a))
    → Ends Q (r >>= f)
Ends-bind (ends {a} h) k = k a h

-- After a call whose value is known.
pub Ends-value {ℓ} :
    {A : Type ℓ} {P : A → Type ℓ} {r : Option A} {a : A} → r ≡ some a → P a → Ends P r
Ends-value e h = rw e (ends h)

pub Ends-map {ℓ} :
    {A : Type ℓ} {P Q : A → Type ℓ} {r : Option A} → Ends P r → ((a : A) → P a → Q a) → Ends Q r
Ends-map (ends {a} h) k = ends (k a h)

pub Ends-if {ℓ} :
    {A : Type ℓ} {P : A → Type ℓ} (b : Bool) {r r' : Option A}
    → Ends P r
    → Ends P r'
    → Ends P (if b then r else r')
Ends-if true h k = h
Ends-if false h k = k

-- A call that ends has a value; where the value is known, it is the one.
pub end_value {ℓ} :
    {A : Type ℓ} {P : A → Type ℓ} {r : Option A} → Ends P r → (a : A) × (r ≡ some a) × P a
end_value (ends {a} h) = (a, refl, h)

pub at_value {ℓ} :
    {A : Type ℓ} {P : A → Type ℓ} {r : Option A} {a : A} → r ≡ some a → Ends P r → P a
at_value {A = A} {P = P} e h = from (rw e at h)
  where
    from : {a : A} → Ends P (some a) → P a
    from (ends h) = h

pub bind_assoc {ℓ} :
    {A B C : Type ℓ} (r : Option A) (f : A → Option B) (g : B → Option C)
    → ((r >>= f) >>= g) ≡ (r >>= λ a. f a >>= g)
bind_assoc none f g = refl
bind_assoc (some a) f g = refl
