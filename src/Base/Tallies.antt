-- ===== src/Base/Tallies.antt =====
-- Numbers kept by key in a map, and what a loop adds to them, modulo 2 ^ 64.
use Prim.Native.Nat.{ℕ, ◌+◌, ◌%◌, ◌<◌}
use mathlib.Core.Path.{◌≡◌, ap, ◌∙◌, subst}
use mathlib.Core.Logic.{inl, inr}
use mathlib.Core.Option.{Option, none, some, some-injective}
use mathlib.Core.List.{List, [], ◌∷◌}
use native.Mathlib.Omega.{arith}
use tyk_pump.Base.Tests.{Bool-cases, if◌then◌else◌}
use tyk_pump.Base.Strings.{Text, same, same_iff}
use tyk_pump.Base.Maps.{Map, lookup, insert, lookup-insert}
use tyk_pump.Base.Partial.{for_each, >>=-eq-some}

-- A number of the value, 0 where there is none.
abbrev pub number_in {ℓ} : {A : Type ℓ} → (A → ℕ) → Option A → ℕ
number_in get none = 0
number_in get (some a) = get a

-- A number of the value at a key.
abbrev pub number_at {ℓ} : {A : Type ℓ} → (A → ℕ) → Text → Map A → ℕ
number_at get k m = number_in get (lookup k m)

-- The sum of a weight over a list.
abbrev pub sum_of {ℓ} : {A : Type ℓ} → (A → ℕ) → List A → ℕ
sum_of w [] = 0
sum_of w (x ∷ xs) = w x + sum_of w xs

module _ {ℓ} {A : Type ℓ} (get : A → ℕ) where
  pub number_in-if :
      (key k : Text) (a : A) (m : Map A) (w : ℕ)
      → get a ≡ (number_at get key m + w) % 18446744073709551616
      → number_at get k m < 18446744073709551616
      → number_in get (if same key k then some a else lookup k m)
        ≡ (number_at get k m + (if same key k then w else 0)) % 18446744073709551616
  number_in-if key k a m w h b = elim (Bool-cases (same key k)) [
    | inl e ↦
        rw e (h ∙ ap (λ j. (number_at get j m + w) % 18446744073709551616) ((same_iff key k).0 e))
    | inr e ↦ rw e (omega arith)
  ]

  -- Storing a value at one key adds to the number of that key alone.
  pub insert-number_at :
      (key k : Text) (a : A) (m : Map A) (w : ℕ)
      → get a ≡ (number_at get key m + w) % 18446744073709551616
      → number_at get k m < 18446744073709551616
      → number_at get k (insert key a m)
        ≡ (number_at get k m + (if same key k then w else 0)) % 18446744073709551616
  insert-number_at key k a m w h b = rw (lookup-insert key k a m) (number_in-if key k a m w h b)

-- A loop adds up what its rounds add.
pub for_each-sum_of {ℓ κ} :
    {A : Type ℓ} {S : Type κ} (P : S → Type 0) (get : S → ℕ) (w : A → ℕ) (f : A → S → Option S)
    → ((x : A) (s s' : S)
        → P s
        → f x s ≡ some s'
        → P s' × (get s' ≡ (get s + w x) % 18446744073709551616))
    → (xs : List A) (s s' : S) → P s
    → get s < 18446744073709551616
    → for_each f xs s ≡ some s'
    → P s' × (get s' ≡ (get s + sum_of w xs) % 18446744073709551616)
unfolding for_each
for_each-sum_of P get w f step [] s s' p b h =
    let e = some-injective s s' h in (subst P e p, rw (← e) (omega arith))
for_each-sum_of P get w f step (x ∷ xs) s s' p b h =
    let (t, e, g) = >>=-eq-some (f x s) (for_each f xs) h in
    let (q, first) = step x s t p e in
    let (r, rest) = for_each-sum_of P get w f step xs t s' q (omega (arith, first)) g in
    (r, omega (arith, first, rest))
