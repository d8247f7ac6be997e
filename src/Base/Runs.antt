-- ===== src/Base/Runs.antt =====
-- Runs that may not return: a run gives a value with a property.
use mathlib.Core.Path.{◌≡◌, refl}
use mathlib.Core.Option
use mathlib.Core.Option.{Option, none, some}

-- The run returns, with a value that satisfies `P`.
pub data Gives {ℓ κ} {A : Type ℓ} (P : A → Type κ) : Option A → Type (ℓ ⊔ κ) where
  gives : {a : A} → P a → Gives P (some a)

module _ {ℓ κ ℓ' κ'} {A : Type ℓ} {B : Type ℓ'} (P : A → Type κ) (Q : B → Type κ') where
  pub Gives-bind :
      {r : Option A} {f : A → Option B}
      → Gives P r
      → ((a : A) → P a → Gives Q (f a))
      → Gives Q (Option.bind r f)
  unfolding mathlib.Core.Option.bind
  Gives-bind (gives {a} p) next = next a p

  pub Gives-map :
      {r : Option A} {f : A → B} → Gives P r → ((a : A) → P a → Q (f a)) → Gives Q (Option.map f r)
  Gives-map (gives {a} p) next = gives (next a p)

pub Gives-there {ℓ κ} :
    {A : Type ℓ} (P : A → Type κ) {r : Option A} → Gives P r → (a : A) × (r ≡ some a) × P a
Gives-there P (gives {a} p) = (a, refl, p)

pub Gives-mono {ℓ κ κ'} :
    {A : Type ℓ} (P : A → Type κ) (Q : A → Type κ') {r : Option A}
    → Gives P r
    → ((a : A) → P a → Q a)
    → Gives Q r
Gives-mono P Q (gives {a} p) next = gives (next a p)
