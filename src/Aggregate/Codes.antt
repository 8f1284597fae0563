-- ===== src/Aggregate/Codes.antt =====
-- analytics/aggregate.go: `Code`, the columns of response codes, and `ProcessStatusCodes`, which fills
-- them by the names of the fields.
pub mod Columns
pub mod Sums
use tyk_pump.Base.{
  ℕ, Bool, true, false, List, [], ◌∷◌, map, Option, none, some, ◌>>=◌, for_each, Text, text, Int64,
  add64, Map, lookup, insert,
}

-- The names of the fields of `Code`, without the prefix "Code" that they share.
abbrev pub code_names : List Text
code_names =
    text "1x"
    ∷ text "200"
    ∷ text "201"
    ∷ text "2x"
    ∷ text "301"
    ∷ text "302"
    ∷ text "303"
    ∷ text "304"
    ∷ text "3x"
    ∷ text "400"
    ∷ text "401"
    ∷ text "403"
    ∷ text "404"
    ∷ text "429"
    ∷ text "4x"
    ∷ text "500"
    ∷ text "501"
    ∷ text "502"
    ∷ text "503"
    ∷ text "504"
    ∷ text "5x"
    ∷ []

-- `Code`: the fields are reached by their names alone.
abbrev pub Code : Type 0
Code = Map Int64

-- `Code{}`
abbrev pub zero_code : Code
zero_code = map (λ n. (n, 0)) code_names

-- The field of the class of a code, "Code" + k[0] + "x", gets the number in addition. `k[0]` of an empty
-- text panics; a class without a field is left out.
abbrev pub add_to_field : Text → Int64 → Option Int64 → Code → Code
add_to_field name v none c = c
add_to_field name v (some old) c = insert name (add64 v old) c

unfoldable pub add_to_class : Text → Int64 → Code → Option Code
add_to_class [] v c = none
add_to_class (d ∷ ds) v c = some (add_to_field (d ∷ text "x") v (lookup (d ∷ text "x") c) c)

-- A code with a field of its own is written into it.
abbrev pub set_or_add : Option Int64 → Text → Int64 → Code → Option Code
set_or_add (some old) k v c = some (insert k v c)
set_or_add none k v c = add_to_class k v c

-- One round of the loop over the map of errors.
unfoldable pub process_status_code : Text × Int64 → Code → Option Code
process_status_code (k, v) c = set_or_add (lookup k c) k v c

-- `ProcessStatusCodes`
unfoldable pub process_status_codes : Map Int64 → Code → Option Code
process_status_codes error_map c = for_each process_status_code error_map c
