-- ===== src/Lbrycrd/Hex.antt =====
-- Go's encoding/hex, as lbrycrd/script.go and daemon/processing use it.
use chainquery.Prelude.{
  ℕ, ◌+◌, ◌-◌, ◌*◌, ◌/◌, ◌%◌, ◌<◌, ◌≡◌, refl, ap, ◌&&◌, Option, none, some, List, [], ◌∷◌, arith,
  ltb, leb, if◌then◌else◌, All,
}
use chainquery.Prelude.Text.{Text}

abbrev pub Bytes : Type 0
Bytes = List ℕ

-- The digit characters are `0` to `9` and `a` to `f`.
abbrev hex_digit : ℕ → ℕ
hex_digit n = if ltb n 10 then 48 + n else 87 + n

unfoldable pub hex_encode : Bytes → Text
hex_encode [] = []
hex_encode (b ∷ bs) = hex_digit (b / 16) ∷ hex_digit (b % 16) ∷ hex_encode bs

-- Decoding takes the upper case letters too.
abbrev from_hex_char : ℕ → Option ℕ
from_hex_char c =
    if leb 48 c && leb c 57
    then some (c - 48)
    else if leb 97 c && leb c 102
    then some (c - 87)
    else if leb 65 c && leb c 70
    then some (c - 55)
    else none

abbrev pair : Option ℕ → Option ℕ → Option Bytes → Option Bytes
pair (some hi) (some lo) (some rest) = some ((16 * hi + lo) ∷ rest)
pair _ _ _ = none

-- `none` is an odd length or a byte that is no digit.
unfoldable pub hex_decode : Text → Option Bytes
hex_decode [] = some []
hex_decode (c ∷ []) = none
hex_decode (c ∷ d ∷ s) = pair (from_hex_char c) (from_hex_char d) (hex_decode s)

abbrev pub IsByte : ℕ → Type 0
IsByte b = b < 256

from_hex_char-hex_digit : (n : ℕ) → n < 16 → from_hex_char (hex_digit n) ≡ some n
from_hex_char-hex_digit n h = ground arith

-- Decoding an encoding gives the bytes back.
pub hex_decode-hex_encode : (bs : Bytes) → All IsByte bs → hex_decode (hex_encode bs) ≡ some bs
unfolding hex_encode hex_decode
hex_decode-hex_encode [] h = refl
hex_decode-hex_encode (b ∷ bs) h =
    rw
      (
        from_hex_char-hex_digit (b / 16) (omega arith),
        from_hex_char-hex_digit (b % 16) (omega arith),
        hex_decode-hex_encode bs h.1,
      )
      (ap (λ (n : ℕ). some (n ∷ bs)) (omega arith))
