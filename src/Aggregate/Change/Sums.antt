-- ===== src/Aggregate/Change/Sums.antt =====
-- analytics/aggregate.go: what an assignment of `generateBSONFromProperty` does to each path.
use mathlib.Core.List.{append_assoc}
use tyk_pump.Base.{
  ◌≡◌, ◌≢◌, refl, sym, ap, ◌∙◌, inl, inr, true, false, [], ◌∷◌, ◌++◌, Option, some, Text, text,
  same, same_iff, same-append, Int64, Map, lookup, insert, lookup-insert, All, Bool-cases, arith,
  if◌then◌else◌,
}
use tyk_pump.Aggregate.Counter.{Counter}
use tyk_pump.Aggregate.Codes.Columns.{all_digits}
use tyk_pump.Aggregate.Change.{
  Bson, number, real, constructor_of, put_all, errors_of, error_fields, inc_fields,
}
use tyk_pump.Aggregate.Change.Places.{
  has_dot, split_last, IsPlace, place, constructor_of-place, place-IsPlace,
}

-- The numbers of a counter that a document adds up.
pub data Sum : Type 0 where
  hits success error_total total_request_time total_upstream_latency total_latency : Sum

abbrev pub sum_name : Sum → Text
sum_name Sum.hits = text "hits"
sum_name Sum.success = text "success"
sum_name Sum.error_total = text "errortotal"
sum_name Sum.total_request_time = text "totalrequesttime"
sum_name Sum.total_upstream_latency = text "totalupstreamlatency"
sum_name Sum.total_latency = text "totallatency"

abbrev pub sum_of : Sum → Counter → Bson
sum_of Sum.hits c = number c.hits
sum_of Sum.success c = number c.success
sum_of Sum.error_total c = number c.error_total
sum_of Sum.total_request_time c = real c.total_request_time
sum_of Sum.total_upstream_latency c = number c.total_upstream_latency
sum_of Sum.total_latency c = number c.total_latency

-- The last value that a field is given.
abbrev pub latest : Text → Map Bson → Option Bson → Option Bson
latest f [] o = o
latest f ((g, v) ∷ fields) o = latest f fields (if same g f then some v else o)

pub lookup-put_all :
    (path f : Text) (fields m : Map Bson)
    → lookup (path ++ f) (put_all path fields m) ≡ latest f fields (lookup (path ++ f) m)
unfolding put_all
lookup-put_all path f [] m = refl
lookup-put_all path f ((g, v) ∷ fields) m =
    lookup-put_all path f fields (insert (path ++ g) v m)
    ∙ ap (latest f fields) (
        lookup-insert (path ++ g) (path ++ f) v m
        ∙ ap (λ b. if b then some v else lookup (path ++ f) m) (same-append path g f))

put_elsewhere :
    (j path : Text) (fields m : Map Bson)
    → All (λ e. same (path ++ e.0) j ≡ false) fields
    → lookup j (put_all path fields m) ≡ lookup j m
unfolding put_all
put_elsewhere j path [] m a = refl
put_elsewhere j path ((g, v) ∷ fields) m a =
    put_elsewhere j path fields (insert (path ++ g) v m) a.1
    ∙ lookup-insert (path ++ g) j v m
    ∙ ap (λ b. if b then some v else lookup j m) a.0

no_error : (q : Sum) (k : Text) → same (text "errormap." ++ k) (sum_name q) ≡ false
unfolding same
no_error Sum.hits k = refl
no_error Sum.success k = refl
no_error Sum.error_total k = refl
no_error Sum.total_request_time k = refl
no_error Sum.total_upstream_latency k = refl
no_error Sum.total_latency k = refl

latest-error_fields :
    (q : Sum) (m : Map Int64) (rest : Map Bson) (o : Option Bson)
    → latest (sum_name q) (error_fields m ++ rest) o ≡ latest (sum_name q) rest o
latest-error_fields q [] rest o = refl
latest-error_fields q ((k, n) ∷ m) rest o =
    ap (λ b. latest (sum_name q) (error_fields m ++ rest) (if b then some (number n) else o))
      (no_error q k)
    ∙ latest-error_fields q m rest o

pub latest-inc_fields :
    (q : Sum) (c : Counter) (o : Option Bson)
    → latest (sum_name q) (inc_fields c) o ≡ some (sum_of q c)
unfolding same
latest-inc_fields Sum.hits c o = latest-error_fields Sum.hits (errors_of c.error_map) _ _
latest-inc_fields Sum.success c o = latest-error_fields Sum.success (errors_of c.error_map) _ _
latest-inc_fields Sum.error_total c o =
    latest-error_fields Sum.error_total (errors_of c.error_map) _ _
latest-inc_fields Sum.total_request_time c o =
    latest-error_fields Sum.total_request_time (errors_of c.error_map) _ _
latest-inc_fields Sum.total_upstream_latency c o =
    latest-error_fields Sum.total_upstream_latency (errors_of c.error_map) _ _
latest-inc_fields Sum.total_latency c o =
    latest-error_fields Sum.total_latency (errors_of c.error_map) _ _

-- A code is written in digits.
abbrev pub IsCode : Text × Int64 → Type 0
IsCode e = all_digits e.0 ≡ true

digits_alone : (k : Text) → all_digits k ≡ true → has_dot k ≡ false
unfolding all_digits
digits_alone [] h = refl
digits_alone (x ∷ k) h = ground (arith, digits_alone k)

not_digits : (q : Sum) → all_digits (sum_name q) ≡ false
unfolding all_digits
not_digits Sum.hits = refl
not_digits Sum.success = refl
not_digits Sum.error_total = refl
not_digits Sum.total_request_time = refl
not_digits Sum.total_upstream_latency = refl
not_digits Sum.total_latency = refl

no_code : (q : Sum) (k : Text) → all_digits k ≡ true → k ≢ sum_name q
no_code q k h e = cc (not_digits q, ap all_digits e)

sum_name-has_dot : (q : Sum) → has_dot (sum_name q) ≡ false
sum_name-has_dot Sum.hits = refl
sum_name-has_dot Sum.success = refl
sum_name-has_dot Sum.error_total = refl
sum_name-has_dot Sum.total_request_time = refl
sum_name-has_dot Sum.total_upstream_latency = refl
sum_name-has_dot Sum.total_latency = refl

module _ (n v m w : Text) (here : IsPlace n v) (there : IsPlace m w)
    (differs : (n ≡ m) × (v ≡ w) → ⊥) (q : Sum) where
  path_of : (d e : Text) → (place d e ++ (46 ∷ [])) ++ sum_name q ≡ place d e ++ (46 ∷ sum_name q)
  path_of d e = append_assoc (place d e) (46 ∷ []) (sum_name q)

  false_of : (s t : Text) → s ≢ t → same s t ≡ false
  false_of s t h = elim (Bool-cases (same s t)) [
    | inl e ↦ absurd (h ((same_iff s t).0 e))
    | inr e ↦ e
  ]

  other_field :
      (g : Text)
      → has_dot g ≡ false
      → same (constructor_of n v ++ g) (constructor_of m w ++ sum_name q) ≡ false
  other_field g h = false_of _ _ (λ e.
      let (p, r) = split_last (place n v) (place m w) g (sum_name q) h (sum_name-has_dot q) (
        sym (append_assoc (place n v) (46 ∷ []) g)
        ∙ ap (λ t. t ++ g) (sym (constructor_of-place n v))
        ∙ e
        ∙ ap (λ t. t ++ sum_name q) (constructor_of-place m w)
        ∙ path_of m w) in
      differs (place-IsPlace n v m w here there p))

  other_error :
      (k : Text)
      → all_digits k ≡ true
      → same (constructor_of n v ++ (text "errormap." ++ k)) (constructor_of m w ++ sum_name q)
        ≡ false
  other_error k h = false_of _ _ (λ e.
      let (p, r) =
        split_last (constructor_of n v ++ text "errormap") (place m w) k (sum_name q)
          (digits_alone k h) (sum_name-has_dot q)
          (append_assoc (constructor_of n v) (text "errormap") (46 ∷ k)
            ∙ e
            ∙ ap (λ t. t ++ sum_name q) (constructor_of-place m w)
            ∙ path_of m w) in
      no_code q k h r)

  other_errors :
      (es : Map Int64) (rest : Map Bson)
      → All IsCode es
      → All (λ e. same (constructor_of n v ++ e.0) (constructor_of m w ++ sum_name q) ≡ false) rest
      → All
          (λ e. same (constructor_of n v ++ e.0) (constructor_of m w ++ sum_name q) ≡ false)
          (error_fields es ++ rest)
  other_errors [] rest a b = b
  other_errors (e ∷ es) rest a b = (other_error e.0 a.0, other_errors es rest a.1 b)

  pub put_inc_elsewhere :
      (c : Counter) (doc : Map Bson)
      → All IsCode (errors_of c.error_map)
      → lookup (constructor_of m w ++ sum_name q) (put_all (constructor_of n v) (inc_fields c) doc)
        ≡ lookup (constructor_of m w ++ sum_name q) doc
  put_inc_elsewhere c doc a = put_elsewhere _ (constructor_of n v) (inc_fields c) doc (
    other_field (text "hits") refl,
    (
      other_field (text "success") refl,
      (
        other_field (text "errortotal") refl,
        other_errors (errors_of c.error_map) _ a (
          other_field (text "totalrequesttime") refl,
          (
            other_field (text "totalupstreamlatency") refl,
            (other_field (text "totallatency") refl, tt),
          ),
        ),
      ),
    ),
  )
