-- ===== src/Base/Options.antt =====
-- Steps that may fail, one after the other: `do` blocks of options.
use mathlib.Core.Path.{◌≡◌, refl, subst}
use mathlib.Core.Bool.{Bool, true, false}
use leveldb_study.Base.Tests.{some_inj, if◌then◌else◌}
use mathlib.Core.Option.{Option, none, some}

infixl 5 ◌>>=◌
abbrev pub ◌>>=◌ {ℓ κ} : {A : Type ℓ} {B : Type κ} → Option A → (A → Option B) → Option B
none >>= f = none
some a >>= f = f a

module _ {ℓ κ μ} {A : Type ℓ} {B : Type κ} {C : Type μ} where
  pub >>=_assoc :
      (m : Option A) (f : A → Option B) (g : B → Option C)
      → (m >>= f >>= g) ≡ (m >>= λ a. f a >>= g)
  >>=_assoc none f g = refl
  >>=_assoc (some a) f g = refl

-- To use a bind that succeeds: what follows from its two steps.
pub >>=-elim {ℓ κ μ} :
    {A : Type ℓ} {B : Type κ} {P : Type μ} (m : Option A) (f : A → Option B) {b : B}
    → ((a : A) → m ≡ some a → f a ≡ some b → P)
    → (m >>= f) ≡ some b
    → P
>>=-elim none f k h = cc
>>=-elim (some a) f k h = k a refl h

pub >>=_cong {ℓ κ} :
    {A : Type ℓ} {B : Type κ} (m : Option A) (f g : A → Option B)
    → ((a : A) → f a ≡ g a)
    → (m >>= f) ≡ (m >>= g)
>>=_cong none f g h = refl
>>=_cong (some a) f g h = h a

-- A property of the result, if there is one.
pub record Each {A : Type 0} (P : A → Type 0) (m : Option A) : Type 0 where
  pub at : (a : A) → m ≡ some a → P a

pub Each-some : {A : Type 0} {P : A → Type 0} {a : A} → P a → Each P (some a)
Each-some {P} h = record { at = λ b e. subst P (some_inj e) h }

pub Each-none : {A : Type 0} {P : A → Type 0} → Each P none
Each-none = record { at = λ a e. cc }

pub Each->>= :
    {A B : Type 0} {P : B → Type 0} (m : Option A) (f : A → Option B)
    → ((a : A) → m ≡ some a → Each P (f a))
    → Each P (m >>= f)
Each->>= none f h = Each-none
Each->>= (some a) f h = h a refl

pub Each-if :
    {A : Type 0} {P : A → Type 0} (b : Bool) {m n : Option A}
    → Each P m
    → Each P n
    → Each P (if b then m else n)
Each-if true h k = h
Each-if false h k = k
