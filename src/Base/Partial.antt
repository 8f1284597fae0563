-- ===== src/Base/Partial.antt =====
-- A run of Go code that may panic: `none` is the panic.
use mathlib.Core.Path.{◌≡◌, refl, ◌∙◌}
use mathlib.Core.Option.{Option, none, some}
use mathlib.Core.List.{List, [], ◌∷◌, ◌++◌}
use mathlib.Core.Bool.{Bool, true, false}
use tyk_pump.Base.Lists.{All}
use tyk_pump.Base.Tests.{if◌then◌else◌}

-- `abbrev`, so that `some a >>= f` computes wherever it stands.
infixl 5 ◌>>=◌
abbrev pub ◌>>=◌ {ℓ κ} : {A : Type ℓ} {B : Type κ} → Option A → (A → Option B) → Option B
none >>= f = none
some a >>= f = f a

-- A loop over a slice, on a state.
unfoldable pub for_each {ℓ κ} :
    {A : Type ℓ} {S : Type κ} → (A → S → Option S) → List A → S → Option S
for_each f [] s = some s
for_each f (x ∷ xs) s = f x s >>= λ s'. for_each f xs s'

pub >>=-eq-some {ℓ κ} :
    {A : Type ℓ} {B : Type κ} (m : Option A) (f : A → Option B) {b : B}
    → (m >>= f) ≡ some b
    → (a : A) × (m ≡ some a) × (f a ≡ some b)
>>=-eq-some none f h = cc
>>=-eq-some (some a) f h = (a, refl, h)

-- The run returns, with a result of which `P` holds.
abbrev pub Yields {ℓ} : {A : Type ℓ} → (A → Type 0) → Option A → Type 0
Yields P none = ⊥
Yields P (some a) = P a

pub bind-Yields {ℓ κ} :
    {A : Type ℓ} {B : Type κ} (P : A → Type 0) (Q : B → Type 0) (m : Option A) (f : A → Option B)
    → Yields P m
    → ((a : A) → P a → Yields Q (f a))
    → Yields Q (m >>= f)
bind-Yields P Q none f h k = absurd h
bind-Yields P Q (some a) f h k = k a h

pub if-Yields {ℓ} :
    {A : Type ℓ} (P : A → Type 0) (b : Bool) (x y : Option A)
    → Yields P x
    → Yields P y
    → Yields P (if b then x else y)
if-Yields P true x y h k = h
if-Yields P false x y h k = k

-- An invariant that every round keeps holds after the loop, which returns.
pub for_each-Yields {ℓ κ} :
    {A : Type ℓ} {S : Type κ} (P : S → Type 0) (f : A → S → Option S) (xs : List A) (s : S)
    → ((x : A) (s : S) → P s → Yields P (f x s))
    → P s
    → Yields P (for_each f xs s)
unfolding for_each
for_each-Yields P f [] s k h = h
for_each-Yields P f (x ∷ xs) s k h =
    bind-Yields P P (f x s) (for_each f xs) (k x s h) (λ s' h'. for_each-Yields P f xs s' k h')

-- What a run yields, as an equation.
pub Yields-some {ℓ} :
    {A : Type ℓ} (P : A → Type 0) (o : Option A) → Yields P o → (a : A) × (o ≡ some a) × P a
Yields-some P none h = absurd h
Yields-some P (some a) h = (a, refl, h)

-- The same, where the rounds rely on a property of the elements.
pub for_each-Yields_of {ℓ κ} :
    {A : Type ℓ} {S : Type κ} (Q : A → Type 0) (P : S → Type 0) (f : A → S → Option S) (xs : List A)
    (s : S)
    → ((x : A) (s : S) → Q x → P s → Yields P (f x s))
    → All Q xs
    → P s
    → Yields P (for_each f xs s)
unfolding for_each
for_each-Yields_of Q P f [] s k q h = h
for_each-Yields_of Q P f (x ∷ xs) s k q h =
    bind-Yields P P (f x s) (for_each f xs) (k x s q.0 h)
      (λ s' h'. for_each-Yields_of Q P f xs s' k q.1 h')

pub >>=_assoc {ℓ κ μ} :
    {A : Type ℓ} {B : Type κ} {C : Type μ} (m : Option A) (f : A → Option B) (g : B → Option C)
    → (m >>= λ a. f a >>= g) ≡ (m >>= f >>= g)
>>=_assoc none f g = refl
>>=_assoc (some a) f g = refl

pub bind-cong {ℓ κ} :
    {A : Type ℓ} {B : Type κ} (m : Option A) {f g : A → Option B}
    → ((a : A) → f a ≡ g a)
    → (m >>= f) ≡ (m >>= g)
bind-cong none h = refl
bind-cong (some a) h = h a

-- A conditional result, branch by branch.
pub if-some {ℓ} :
    {A : Type ℓ} (b : Bool) (o o' : Option A) (x y : A)
    → o ≡ some x
    → o' ≡ some y
    → (if b then o else o') ≡ some (if b then x else y)
if-some true o o' x y h k = h
if-some false o o' x y h k = k

pub ap-if {ℓ κ} :
    {A : Type ℓ} {B : Type κ} (f : A → B) (b : Bool) (x y : A) (z : B)
    → f x ≡ z
    → f y ≡ z
    → f (if b then x else y) ≡ z
ap-if f true x y z h k = h
ap-if f false x y z h k = k

pub for_each-append {ℓ κ} :
    {A : Type ℓ} {S : Type κ} (f : A → S → Option S) (xs ys : List A) (s : S)
    → for_each f (xs ++ ys) s ≡ (for_each f xs s >>= for_each f ys)
unfolding for_each
for_each-append f [] ys s = refl
for_each-append f (x ∷ xs) ys s =
    bind-cong (f x s) (λ t. for_each-append f xs ys t)
    ∙ >>=_assoc (f x s) (for_each f xs) (for_each f ys)
