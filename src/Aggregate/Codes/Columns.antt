-- ===== src/Aggregate/Codes/Columns.antt =====
-- analytics/aggregate.go: reading and writing the columns.
use tyk_pump.Base.{
  ℕ, ◌+◌, ◌%◌, ◌<◌, ◌≡◌, refl, ◌∙◌, ◌≢◌, Bool, true, false, not, ◌&&◌, [], ◌∷◌, Option, none, some,
  Text, text, same, same_iff, same→eq, is_empty, Int64, add64, Map, lookup, insert, lookup-insert,
  number_at, All, leb, Bool-cases, inl, inr, if◌then◌else◌, arith,
}
use tyk_pump.Aggregate.Codes.{Code, zero_code}

-- A text of digits.
unfoldable pub all_digits : Text → Bool
all_digits [] = true
all_digits (d ∷ ds) = leb 48 d && leb d 57 && all_digits ds

-- The field's number, 0 where there is no such field.
abbrev pub column : Text → Code → ℕ
column n c = number_at (λ v. v) n c

abbrev pub is_there : Option Int64 → Bool
is_there none = false
is_there (some v) = true

abbrev pub is_field : Text → Code → Bool
is_field n c = is_there (lookup n c)

abbrev pub class_of : Text → Text
class_of [] = []
class_of (d ∷ ds) = d ∷ text "x"

-- The column of a code: its own, if there is one, or that of its class.
abbrev pub column_of : Text → Text
column_of k = if is_field k zero_code then k else class_of k

-- An entry of the map of errors: a response code in decimal, and a number.
pub record IsEntry (e : Text × Int64) : Type 0 where
  pub digits : all_digits e.0 ≡ true
  pub not_empty : is_empty e.0 ≡ false
  pub small : e.1 < 18446744073709551616

-- No code stands twice.
unfoldable pub is_new : Text → Map Int64 → Bool
is_new k [] = true
is_new k (e ∷ es) = not (same k e.0) && is_new k es

unfoldable pub are_new : Map Int64 → Bool
unfolding is_new
are_new [] = true
are_new (e ∷ es) = is_new e.0 es && are_new es

not_digit : (d : ℕ) → all_digits (d ∷ text "x") ≢ true
unfolding all_digits
not_digit d h = ground arith

-- The class of a code is no text of digits.
pub class_is_no_code :
    (k j : Text) → is_empty k ≡ false → all_digits j ≡ true → same (class_of k) j ≡ false
unfolding all_digits
class_is_no_code [] j e h = cc
class_is_no_code (d ∷ ds) j e h = elim (Bool-cases (same (class_of (d ∷ ds)) j)) [
  | inl s ↦ absurd (not_digit d (rw (← same→eq (class_of (d ∷ ds)) j s) at h))
  | inr s ↦ s
]

-- The columns have the fields of `Code`, and the fields of the codes to come hold 0.
pub record Ready (es : Map Int64) (c : Code) : Type 0 where
  pub named : (n : Text) → is_field n c ≡ is_field n zero_code
  pub empty : All (λ e. column e.0 c ≡ 0) es
  pub bounded : (n : Text) → column n c < 18446744073709551616

pub insert-column :
    (key n : Text) (w : Int64) (c : Code)
    → column n (insert key w c) ≡ (if same key n then w else column n c)
insert-column key n w c = elim (Bool-cases (same key n)) [
  | inl e ↦ rw (lookup-insert key n w c, e) refl
  | inr e ↦ rw (lookup-insert key n w c, e) refl
]

insert-is_field :
    (key n : Text) (w : Int64) (c : Code)
    → is_field key c ≡ true
    → is_field n (insert key w c) ≡ is_field n c
insert-is_field key n w c h = elim (Bool-cases (same key n)) [
  | inl e ↦ rw (lookup-insert key n w c, e, ← (same_iff key n).0 e, h) refl
  | inr e ↦ rw (lookup-insert key n w c, e) refl
]

-- Writing into a field that is none of the codes to come.
pub insert-Ready :
    (key : Text) (w : Int64) (es : Map Int64) (c : Code)
    → w < 18446744073709551616
    → is_field key c ≡ true
    → All (λ e. same key e.0 ≡ false) es
    → Ready es c
    → Ready es (insert key w c)
insert-Ready key w es c small field apart h = record {
  named = λ n. insert-is_field key n w c field ∙ h.named n;
  empty = still_empty es apart h.empty;
  bounded = λ n. rw (insert-column key n w c) (ground (arith, h.bounded n));
}
  where
    still_empty :
        (ds : Map Int64)
        → All (λ e. same key e.0 ≡ false) ds
        → All (λ e. column e.0 c ≡ 0) ds
        → All (λ e. column e.0 (insert key w c) ≡ 0) ds
    still_empty [] a k = tt
    still_empty (d ∷ ds) a k = (rw (insert-column key d.0 w c, a.0) (k.0), still_empty ds a.1 k.1)

pub new-apart : (k : Text) (es : Map Int64) → is_new k es ≡ true → All (λ e. same k e.0 ≡ false) es
unfolding is_new
new-apart k [] h = tt
new-apart k (e ∷ es) h = (ground arith, new-apart k es (ground arith))

pub class-apart :
    (k : Text) (es : Map Int64)
    → is_empty k ≡ false
    → All IsEntry es
    → All (λ e. same (class_of k) e.0 ≡ false) es
class-apart k [] h a = tt
class-apart k (e ∷ es) h a = (class_is_no_code k e.0 h a.0.digits, class-apart k es h a.1)

pub add64-small : (a b : Int64) → add64 a b < 18446744073709551616
unfolding add64
add64-small a b = omega arith

pub add64-swap : (a b : Int64) → add64 a b ≡ (b + a) % 18446744073709551616
unfolding add64
add64-swap a b = omega arith

pub no_there : (o : Option Int64) → o ≡ none → is_there o ≢ true
no_there o e h = cc (rw e at h)
