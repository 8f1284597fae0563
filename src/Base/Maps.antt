-- ===== src/Base/Maps.antt =====
-- A Go map with string keys: an association list with the keys in the order of first insertion.
use Prim.Native.Nat.{ℕ}
use mathlib.Core.Path.{◌≡◌, refl}
use mathlib.Core.Option.{Option, none, some}
use mathlib.Core.List.{List, [], ◌∷◌}
use native.Mathlib.Omega.{arith}
use mathlib.Core.Bool.{Bool, true, false}
use tyk_pump.Base.Lists.{All}
use tyk_pump.Base.Tests.{if◌then◌else◌}
use tyk_pump.Base.Strings.{Text, same, same_refl, same_iff}

abbrev pub Map {ℓ} : Type ℓ → Type ℓ
Map V = List (Text × V)

module _ {ℓ} {V : Type ℓ} where
  -- `v, ok := m[k]`
  unfoldable pub lookup : Text → Map V → Option V
  lookup k [] = none
  lookup k ((j, v) ∷ m) = if same j k then some v else lookup k m

  -- `m[k] = v`
  unfoldable pub insert : Text → V → Map V → Map V
  insert k v [] = (k, v) ∷ []
  insert k v ((j, w) ∷ m) = if same j k then (j, v) ∷ m else (j, w) ∷ insert k v m

  pub lookup-insert :
      (k j : Text) (v : V) (m : Map V)
      → lookup j (insert k v m) ≡ (if same k j then some v else lookup j m)
  unfolding lookup insert
  lookup-insert k j v [] = refl
  lookup-insert k j v ((i, w) ∷ m) =
      ground (arith, same_iff i k, same_iff i j, same_iff k j, lookup-insert k j v m)

  pub lookup-insert_self : (k : Text) (v : V) (m : Map V) → lookup k (insert k v m) ≡ some v
  lookup-insert_self k v m = rw (lookup-insert, same_refl)

  -- The maps hold the same; a Go map has no order.
  abbrev pub Agrees : Map V → Map V → Type ℓ
  Agrees m n = (k : Text) → lookup k m ≡ lookup k n

  pub insert-Agrees :
      (k : Text) (v : V) (m n : Map V) → Agrees m n → Agrees (insert k v m) (insert k v n)
  insert-Agrees k v m n h j = rw (lookup-insert k j v m, lookup-insert k j v n, h j) refl

  pub insert-insert-Agrees :
      (j k : Text) (v w : V) (m : Map V)
      → same j k ≡ false
      → Agrees (insert k w (insert j v m)) (insert j v (insert k w m))
  insert-insert-Agrees j k v w m h i =
      rw
        (
          lookup-insert k i w (insert j v m),
          lookup-insert j i v m,
          lookup-insert j i v (insert k w m),
          lookup-insert k i w m,
        )
        (ground (arith, same_iff j i, same_iff k i, same_iff j k))

module _ {ℓ κ} {V : Type ℓ} (P : V → Type κ) where
  -- A property of all values of a map.
  abbrev pub AllValues : Map V → Type κ
  AllValues m = All (λ e. P e.1) m

  pub insert-AllValues :
      (k : Text) (v : V) (m : Map V) → P v → AllValues m → AllValues (insert k v m)
  unfolding insert
  insert-AllValues k v [] p h = (p, tt)
  insert-AllValues k v ((j, w) ∷ m) p h = at (same j k) (insert-AllValues k v m p h.1)
    where
      at :
          (b : Bool)
          → AllValues (insert k v m)
          → AllValues (if b then (j, v) ∷ m else (j, w) ∷ insert k v m)
      at true t = (p, h.1)
      at false t = (h.0, t)

  -- What is made of the value that is found, or of none.
  pub lookup-AllValues {μ} :
      (Q : Option V → Type μ) (k : Text) (m : Map V)
      → Q none
      → ((v : V) → P v → Q (some v))
      → AllValues m
      → Q (lookup k m)
  unfolding lookup
  lookup-AllValues Q k [] n f h = n
  lookup-AllValues Q k ((j, v) ∷ m) n f h = at (same j k) (lookup-AllValues Q k m n f h.1)
    where
      at : (b : Bool) → Q (lookup k m) → Q (if b then some v else lookup k m)
      at true t = f v h.0
      at false t = t

-- `m[k]` of a map of integers: 0 where the key is missing.
unfoldable pub get_or_zero : Text → Map ℕ → ℕ
unfolding lookup
get_or_zero k [] = 0
get_or_zero k ((j, n) ∷ m) = if same j k then n else get_or_zero k m

pub get_or_zero-insert :
    (k j : Text) (n : ℕ) (m : Map ℕ)
    → get_or_zero j (insert k n m) ≡ (if same k j then n else get_or_zero j m)
unfolding get_or_zero insert
get_or_zero-insert k j n [] = refl
get_or_zero-insert k j n ((i, w) ∷ m) =
    ground (arith, same_iff i k, same_iff i j, same_iff k j, get_or_zero-insert k j n m)
