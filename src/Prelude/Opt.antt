-- ===== src/Prelude/Opt.antt =====
-- Chains of steps of which each may be undefined (`none`), such as an access past an array's end.
use mathlib.Core.Path.{◌≡◌, ◌∙◌, refl, ap, subst}
use mathlib.Core.Bool.{Bool, true, false}
use if2230_2023_ntaraja.Prelude.Tests.{if◌then◌else◌}
use mathlib.Core.Option.{Option, none, some, none-ne-some}

infixl 5 ◌>>=◌
abbrev pub ◌>>=◌ {ℓ κ} : {A : Type ℓ} {B : Type κ} → Option A → (A → Option B) → Option B
none >>= f = none
some a >>= f = f a

abbrev pub value_or {ℓ} : {A : Type ℓ} → A → Option A → A
value_or a none = a
value_or a (some b) = b

pub some_inj {ℓ} : {A : Type ℓ} {a b : A} → some a ≡ some b → a ≡ b
some_inj {a = a} e = ap (value_or a) e

-- Whatever is returned has the property.
unfoldable pub Returns : {A : Type 0} → (A → Type 0) → Option A → Type 0
Returns P none = Unit
Returns P (some a) = P a

pub Returns-some :
    {A : Type 0} (P : A → Type 0) (m : Option A) (a : A) → m ≡ some a → Returns P m → P a
unfolding Returns
Returns-some P m a e h = subst (Returns P) e h

pub Returns-bind :
    {A B : Type 0} (P : A → Type 0) (Q : B → Type 0) (m : Option A) (f : A → Option B)
    → Returns P m
    → ((a : A) → P a → Returns Q (f a))
    → Returns Q (m >>= f)
unfolding Returns
Returns-bind P Q none f h k = tt
Returns-bind P Q (some a) f h k = k a h

pub Returns-any :
    {A B : Type 0} (Q : B → Type 0) (m : Option A) (f : A → Option B)
    → ((a : A) → Returns Q (f a))
    → Returns Q (m >>= f)
unfolding Returns
Returns-any Q none f k = tt
Returns-any Q (some a) f k = k a

-- The same up to a view: both undefined, or the views of what they return are equal
unfoldable pub Agree : {A B : Type 0} → (A → B) → Option A → Option A → Type 0
Agree f none none = Unit
Agree f none (some b) = ⊥
Agree f (some a) none = ⊥
Agree f (some a) (some b) = f a ≡ f b

pub Agree-refl : {A B : Type 0} (f : A → B) (x : Option A) → Agree f x x
unfolding Agree
Agree-refl f none = tt
Agree-refl f (some a) = refl

pub Agree-bind :
    {A B C : Type 0} (f : A → B) (m : Option C) (g h : C → Option A)
    → ((c : C) → Agree f (g c) (h c))
    → Agree f (m >>= g) (m >>= h)
unfolding Agree
Agree-bind f none g h k = tt
Agree-bind f (some c) g h k = k c

pub Agree-if :
    {A B : Type 0} (f : A → B) (b : Bool) (x x' y y' : Option A)
    → Agree f x x'
    → Agree f y y'
    → Agree f (if b then x else y) (if b then x' else y')
Agree-if f true x x' y y' p q = p
Agree-if f false x x' y y' p q = q

-- What one returns, the other does, up to the view.
pub Agree-some :
    {A B : Type 0} (f : A → B) (x y : Option A) (a : A)
    → Agree f x y
    → y ≡ some a
    → (b : A) × (x ≡ some b) × (f b ≡ f a)
unfolding Agree
Agree-some f none none a h e = absurd (none-ne-some _ e)
Agree-some f none (some b) a h e = absurd h
Agree-some f (some b) none a h e = absurd h
Agree-some f (some b) (some c) a h e = (b, refl, h ∙ ap f (some_inj e))

pub Agree-eq : {A : Type 0} (x y : Option A) → Agree (λ a. a) x y → x ≡ y
unfolding Agree
Agree-eq none none h = refl
Agree-eq none (some b) h = absurd h
Agree-eq (some a) none h = absurd h
Agree-eq (some a) (some b) h = ap some h
