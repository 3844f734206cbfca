-- ===== src/Base/Base64.antt =====
-- base64.StdEncoding of Go's encoding/base64, over bytes: EncodeToString and DecodeString.
pub mod RoundTrip
use sandkasten.Base.Tests.{ltb, leb, ◌==◌, if◌then◌else◌}
use Prim.Native.Nat.{ℕ, ◌+◌, ◌-◌, ◌*◌, ◌/◌, ◌%◌}
use mathlib.Core.Bool.{Bool, true, false, ◌&&◌, ◌||◌}
use mathlib.Core.Option.{Option, none, some}
use mathlib.Core.List.{List, [], ◌∷◌}

-- The digit that stands for a number below 64.
unfoldable pub digit : ℕ → ℕ
digit n =
    if ltb n 26
    then b'A' + n
    else if ltb n 52
    then b'a' + (n - 26)
    else if ltb n 62
    then b'0' + (n - 52)
    else if ltb n 63
    then b'+'
    else b'/'

unfoldable pub encode : List ℕ → List ℕ
unfolding digit
encode [] = []
encode (a ∷ []) = digit (a / 4) ∷ digit (a % 4 * 16) ∷ b'=' ∷ b'=' ∷ []
encode (a ∷ b ∷ []) = digit (a / 4) ∷ digit (a % 4 * 16 + b / 16) ∷ digit (b % 16 * 4) ∷ b'=' ∷ []
encode (a ∷ b ∷ c ∷ s) =
    digit (a / 4)
    ∷ digit (a % 4 * 16 + b / 16)
    ∷ digit (b % 16 * 4 + c / 64)
    ∷ digit (c % 64)
    ∷ encode s

-- The number that a digit stands for.
unfoldable pub digit_value : ℕ → Option ℕ
digit_value c =
    if leb b'A' c && leb c b'Z'
    then some (c - b'A')
    else if leb b'a' c && leb c b'z'
    then some (c - b'a' + 26)
    else if leb b'0' c && leb c b'9'
    then some (c - b'0' + 52)
    else if c == b'+'
    then some 62
    else if c == b'/'
    then some 63
    else none

-- The bytes of two, three and four digits; the bits that are left over are dropped.
abbrev pub two_digits : Option ℕ → Option ℕ → Option (List ℕ)
two_digits (some a) (some b) = some ((a * 4 + b / 16) ∷ [])
two_digits _ _ = none

abbrev pub three_digits : Option ℕ → Option ℕ → Option ℕ → Option (List ℕ)
three_digits (some a) (some b) (some c) = some ((a * 4 + b / 16) ∷ (b % 16 * 16 + c / 4) ∷ [])
three_digits _ _ _ = none

abbrev pub four_digits :
    Option ℕ → Option ℕ → Option ℕ → Option ℕ → Option (List ℕ) → Option (List ℕ)
four_digits (some a) (some b) (some c) (some d) (some s) =
    some ((a * 4 + b / 16) ∷ (b % 16 * 16 + c / 4) ∷ (c % 4 * 64 + d) ∷ s)
four_digits _ _ _ _ _ = none

-- A quantum that ends in padding stands last.
abbrev pub padded : ℕ → ℕ → ℕ → List ℕ → Option (List ℕ)
padded a b c [] =
    if c == b'='
    then two_digits (digit_value a) (digit_value b)
    else three_digits (digit_value a) (digit_value b) (digit_value c)
padded a b c (d ∷ s) = none

unfoldable pub decode_quanta : List ℕ → Option (List ℕ)
unfolding digit_value
decode_quanta [] = some []
decode_quanta (a ∷ b ∷ c ∷ d ∷ s) =
    let rest = decode_quanta s in
    if d == b'='
    then padded a b c s
    else four_digits (digit_value a) (digit_value b) (digit_value c) (digit_value d) rest
decode_quanta _ = none

-- Ends of lines are skipped wherever they stand.
abbrev pub is_line_end : ℕ → Bool
is_line_end c = c == 10 || c == 13

unfoldable pub without_line_ends : List ℕ → List ℕ
without_line_ends [] = []
without_line_ends (c ∷ s) = if is_line_end c then without_line_ends s else c ∷ without_line_ends s

unfoldable pub decode : List ℕ → Option (List ℕ)
unfolding decode_quanta without_line_ends
decode s = decode_quanta (without_line_ends s)
