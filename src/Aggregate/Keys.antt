-- ===== src/Aggregate/Keys.antt =====
-- analytics/aggregate.go: how tags and paths become keys.
use tyk_pump.Base.{
  ℕ, zero, suc, ◌+◌, ◌-◌, ◌/◌, ◌%◌, Bool, true, not, ◌==◌, ltb, List, [], ◌∷◌, Text, text,
  has_prefix, length, filter, any, if◌then◌else◌,
}
use mathlib.Core.List.{reverse, map}
use tyk_pump.Base64.{base64}

-- `hex.EncodeToString`
abbrev hex_digit : ℕ → ℕ
hex_digit n = if ltb n 10 then b'0' + n else b'a' + (n - 10)

unfoldable pub hex : Text → Text
hex [] = []
hex (c ∷ s) = hex_digit (c / 16 % 16) ∷ hex_digit (c % 16) ∷ hex s

-- `strings.TrimLeft(s, c)` of one byte, and `strings.TrimRight`.
trim_left_byte : ℕ → Text → Text
trim_left_byte c [] = []
trim_left_byte c (x ∷ s) = if x == c then trim_left_byte c s else x ∷ s

trim_right_byte : ℕ → Text → Text
unfolding trim_left_byte
trim_right_byte c s = reverse (trim_left_byte c (reverse s))

-- `doHash`
unfoldable pub do_hash : Text → Text
unfolding trim_right_byte
do_hash s = trim_right_byte b'=' (base64 s)

-- `ignoreTag`
unfoldable pub ignore_tag : Text → List Text → Bool
ignore_tag tag prefixes =
    if has_prefix tag (text "key-") then true else any (has_prefix tag) prefixes

-- `replaceUnsupportedChars`: a dot becomes the four bytes `\u2e`.
unfoldable pub replace_unsupported_chars : Text → Text
replace_unsupported_chars [] = []
replace_unsupported_chars (c ∷ s) =
    if c == b'.'
    then 92 ∷ b'u' ∷ b'2' ∷ b'e' ∷ replace_unsupported_chars s
    else c ∷ replace_unsupported_chars s

-- The encodings in UTF-8 of the characters that `unicode.IsSpace` accepts.
abbrev spaces : List Text
spaces =
    (9 ∷ [])
    ∷ (10 ∷ [])
    ∷ (11 ∷ [])
    ∷ (12 ∷ [])
    ∷ (13 ∷ [])
    ∷ (32 ∷ [])
    ∷ (0xc2 ∷ 0x85 ∷ [])
    ∷ (0xc2 ∷ 0xa0 ∷ [])
    ∷ (0xe1 ∷ 0x9a ∷ 0x80 ∷ [])
    ∷ (0xe2 ∷ 0x80 ∷ 0x80 ∷ [])
    ∷ (0xe2 ∷ 0x80 ∷ 0x81 ∷ [])
    ∷ (0xe2 ∷ 0x80 ∷ 0x82 ∷ [])
    ∷ (0xe2 ∷ 0x80 ∷ 0x83 ∷ [])
    ∷ (0xe2 ∷ 0x80 ∷ 0x84 ∷ [])
    ∷ (0xe2 ∷ 0x80 ∷ 0x85 ∷ [])
    ∷ (0xe2 ∷ 0x80 ∷ 0x86 ∷ [])
    ∷ (0xe2 ∷ 0x80 ∷ 0x87 ∷ [])
    ∷ (0xe2 ∷ 0x80 ∷ 0x88 ∷ [])
    ∷ (0xe2 ∷ 0x80 ∷ 0x89 ∷ [])
    ∷ (0xe2 ∷ 0x80 ∷ 0x8a ∷ [])
    ∷ (0xe2 ∷ 0x80 ∷ 0xa8 ∷ [])
    ∷ (0xe2 ∷ 0x80 ∷ 0xa9 ∷ [])
    ∷ (0xe2 ∷ 0x80 ∷ 0xaf ∷ [])
    ∷ (0xe2 ∷ 0x81 ∷ 0x9f ∷ [])
    ∷ (0xe3 ∷ 0x80 ∷ 0x80 ∷ [])
    ∷ []

abbrev drop_bytes : Text → Text → Text
drop_bytes [] s = s
drop_bytes (p ∷ ps) [] = []
drop_bytes (p ∷ ps) (x ∷ s) = drop_bytes ps s

-- The text without the first of these prefixes that it has.
drop_one : List Text → Text → Text
drop_one [] s = s
drop_one (p ∷ ps) s = if has_prefix s p then drop_bytes p s else drop_one ps s

-- As many rounds as there are bytes are enough: each round that drops something drops a byte.
drop_all : ℕ → List Text → Text → Text
unfolding drop_one
drop_all zero ps s = s
drop_all (suc n) ps s = drop_all n ps (drop_one ps s)

-- `strings.TrimSpace`: from the left, then from the right on the reversed bytes.
pub trim_space : Text → Text
unfolding drop_all
trim_space s =
    let t = drop_all (length s) spaces s in
    reverse (drop_all (length t) (map reverse spaces) (reverse t))

-- `TrimTag`
unfoldable pub trim_tag : Text → Text
unfolding trim_space
trim_tag tag = filter (λ c. not (c == b'.')) (trim_space tag)
