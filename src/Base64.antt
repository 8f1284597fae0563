-- ===== src/Base64.antt =====
-- Go's `base64.StdEncoding`.
use tyk_pump.Base.{
  ℕ, ◌+◌, ◌-◌, ◌*◌, ◌/◌, ◌%◌, not, ◌&&◌, ◌||◌, ◌==◌, ltb, leb, [], ◌∷◌, ◌++◌, Option, none, some,
  ◌>>=◌, Text, filter, if◌then◌else◌,
}

-- `base64.StdEncoding.EncodeToString`
sextet : ℕ → ℕ
sextet n =
    if ltb n 26
    then b'A' + n
    else if ltb n 52
    then b'a' + (n - 26)
    else if ltb n 62
    then b'0' + (n - 52)
    else if n == 62
    then b'+'
    else b'/'

unfoldable pub base64 : Text → Text
unfolding sextet
base64 [] = []
base64 (a ∷ []) = sextet (a / 4) ∷ sextet (a % 4 * 16) ∷ b'=' ∷ b'=' ∷ []
base64 (a ∷ b ∷ []) =
    sextet (a / 4) ∷ sextet (a % 4 * 16 + b / 16) ∷ sextet (b % 16 * 4) ∷ b'=' ∷ []
base64 (a ∷ b ∷ c ∷ s) =
    sextet (a / 4)
    ∷ sextet (a % 4 * 16 + b / 16)
    ∷ sextet (b % 16 * 4 + c / 64)
    ∷ sextet (c % 64)
    ∷ base64 s

-- The value of a character, if it has one.
value_of : ℕ → Option ℕ
value_of c =
    if leb b'A' c && leb c b'Z'
    then some (c - b'A')
    else if leb b'a' c && leb c b'z'
    then some (c - b'a' + 26)
    else if leb b'0' c && leb c b'9'
    then some (c - b'0' + 52)
    else if c == b'+'
    then some 62
    else if c == b'/'
    then some 63
    else none

third_byte : ℕ → ℕ → ℕ → Option Text
unfolding value_of
third_byte c first y =
    if c == b'='
    then some (first ∷ [])
    else value_of c >>= λ z. some (first ∷ (y % 16 * 16 + z / 4) ∷ [])

-- The last group of four characters, which ends in one or two signs of padding.
last_group : ℕ → ℕ → ℕ → Option Text
unfolding value_of third_byte
last_group a b c = do x ← value_of a; y ← value_of b; third_byte c (x * 4 + y / 16) y

full_group : ℕ → ℕ → ℕ → ℕ → Option Text
unfolding value_of
full_group a b c d = do
  x ← value_of a
  y ← value_of b
  z ← value_of c
  w ← value_of d
  some ((x * 4 + y / 16) ∷ (y % 16 * 16 + z / 4) ∷ (z % 4 * 64 + w) ∷ [])

groups : Text → Option Text
unfolding last_group full_group
groups [] = some []
groups (a ∷ b ∷ c ∷ d ∷ []) = if d == b'=' then last_group a b c else full_group a b c d
groups (a ∷ b ∷ c ∷ d ∷ s) = do bytes ← full_group a b c d; rest ← groups s; some (bytes ++ rest)
groups _ = none

-- `base64.StdEncoding.DecodeString`: line ends are skipped.
unfoldable pub decode_base64 : Text → Option Text
unfolding groups
decode_base64 s = groups (filter (λ c. not (c == 10 || c == 13)) s)
