-- ===== src/Aggregate/Change/Places.antt =====
-- analytics/aggregate.go: the paths of counters in a document are different.
use mathlib.Core.List.{append_assoc, head-eq_of_cons-eq, tail-eq_of_cons-eq}
use mathlib.Core.Path.{ap₂}
use tyk_pump.Base.{
  ℕ, ◌≡◌, ◌≢◌, refl, sym, ◌∙◌, ◌⊎◌, inl, inr, Bool, true, false, not, ◌&&◌, [], ◌∷◌, ◌++◌, Text,
  text, any, same, is_empty, ◌==◌, arith, if◌then◌else◌,
}
use tyk_pump.Aggregate.Change.{constructor_of}

-- The text has a dot.
abbrev pub has_dot : Text → Bool
has_dot t = any (λ x. x == 46) t

no_dot : (x : ℕ) (n : Text) → has_dot (x ∷ n) ≡ false → 46 ≢ x
no_dot x n h e = ground arith

no_dot_behind : (x : ℕ) (n : Text) → has_dot (x ∷ n) ≡ false → has_dot n ≡ false
no_dot_behind x n h = ground arith

dot_inside : (d g f : Text) → has_dot f ≡ false → f ≢ d ++ (46 ∷ g)
dot_inside [] g [] h e = cc
dot_inside [] g (x ∷ f) h e = no_dot x f h (sym (head-eq_of_cons-eq e))
dot_inside (y ∷ d) g [] h e = cc
dot_inside (y ∷ d) g (x ∷ f) h e = dot_inside d g f (no_dot_behind x f h) (tail-eq_of_cons-eq e)

-- A text without a dot, up to the first dot.
pub split_first :
    (n m r s : Text)
    → has_dot n ≡ false
    → has_dot m ≡ false
    → n ++ (46 ∷ r) ≡ m ++ (46 ∷ s)
    → (n ≡ m) × (r ≡ s)
split_first [] [] r s h k e = (refl, tail-eq_of_cons-eq e)
split_first [] (y ∷ m) r s h k e = absurd (no_dot y m k (head-eq_of_cons-eq e))
split_first (x ∷ n) [] r s h k e = absurd (no_dot x n h (sym (head-eq_of_cons-eq e)))
split_first (x ∷ n) (y ∷ m) r s h k e =
    let (p, q) =
      split_first n m r s (no_dot_behind x n h) (no_dot_behind y m k) (tail-eq_of_cons-eq e) in
    (ap₂ ◌∷◌ (head-eq_of_cons-eq e) p, q)

-- A text without a dot, behind the last dot.
pub split_last :
    (c d f g : Text)
    → has_dot f ≡ false
    → has_dot g ≡ false
    → c ++ (46 ∷ f) ≡ d ++ (46 ∷ g)
    → (c ≡ d) × (f ≡ g)
split_last [] [] f g h k e = (refl, tail-eq_of_cons-eq e)
split_last [] (y ∷ d) f g h k e = absurd (dot_inside d g f h (tail-eq_of_cons-eq e))
split_last (x ∷ c) [] f g h k e = absurd (dot_inside c f g k (sym (tail-eq_of_cons-eq e)))
split_last (x ∷ c) (y ∷ d) f g h k e =
    let (p, q) = split_last c d f g h k (tail-eq_of_cons-eq e) in
    (ap₂ ◌∷◌ (head-eq_of_cons-eq e) p, q)

-- The name of a map of counters: not empty, without a dot, and not that of the total.
abbrev pub is_name : Text → Bool
is_name n = not (is_empty n) && not (has_dot n) && not (same n (text "total"))

-- Where a counter can stand: under the name of a map, or as the total.
abbrev pub IsPlace : Text → Text → Type 0
IsPlace n v = (is_name n ≡ true) ⊎ ((n ≡ []) × (v ≡ text "total"))

-- The path of a place, without the dot behind it.
abbrev pub place : Text → Text → Text
place n v = if is_empty n then v else n ++ (46 ∷ v)

pub constructor_of-place : (n v : Text) → constructor_of n v ≡ place n v ++ (46 ∷ [])
unfolding constructor_of
constructor_of-place [] v = refl
constructor_of-place (x ∷ n) v = sym (append_assoc (x ∷ n) (46 ∷ v) (46 ∷ []))

place_of_total : (n v : Text) → (n ≡ []) × (v ≡ text "total") → place n v ≡ text "total"
place_of_total [] v h = h.1
place_of_total (x ∷ n) v h = cc

dot_free : (n : Text) → is_name n ≡ true → has_dot n ≡ false
dot_free n h = ground arith

pub place-IsPlace :
    (n v m w : Text) → IsPlace n v → IsPlace m w → place n v ≡ place m w → (n ≡ m) × (v ≡ w)
place-IsPlace n v m w (inr h) (inr k) e = (h.0 ∙ sym k.0, h.1 ∙ sym k.1)
place-IsPlace [] v m w (inl h) k e = cc
place-IsPlace n v [] w h (inl k) e = cc
place-IsPlace (x ∷ n) v (y ∷ m) w (inl h) (inl k) e =
    split_first (x ∷ n) (y ∷ m) v w (dot_free (x ∷ n) h) (dot_free (y ∷ m) k) e
place-IsPlace (x ∷ n) v m w (inl h) (inr k) e =
    absurd (dot_inside (x ∷ n) v (text "total") refl (sym (place_of_total m w k) ∙ sym e))
place-IsPlace n v (y ∷ m) w (inr h) (inl k) e =
    absurd (dot_inside (y ∷ m) w (text "total") refl (sym (place_of_total n v h) ∙ e))
