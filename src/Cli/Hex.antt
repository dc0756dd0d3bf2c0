-- ===== src/Cli/Hex.antt =====
-- The hexadecimal texts of app/main.cpp: `nibble`, `from_hex`, `fixed_hex`, `to_hex`.
use perfectvaluecubesymmetri.Base.{
  ℕ, ◌+◌, ◌-◌, ◌*◌, ◌/◌, ◌%◌, ◌<◌, ◌≡◌, refl, ap, Bool, true, false, not, ◌&&◌, [], ◌∷◌, arith, leb,
  ◌==◌, if◌then◌else◌, Bytes, AllBytes, length, get_or, Result, ok, err, invalid_argument, ◌>>=◌,
  ◌>>◌, throw_if, Text, codes, all_below, all_below-lt, String,
}

-- `std::tolower` in the C locale.
abbrev pub to_lower : ℕ → ℕ
to_lower c = if leb b'A' c && leb c b'Z' then c + 32 else c

pub nibble : ℕ → Result ℕ
nibble c =
    let d = to_lower c in
    if leb b'0' c && leb c b'9'
    then ok (c - b'0')
    else if leb b'a' d && leb d b'f'
    then ok (10 + d - b'a')
    else err (invalid_argument "invalid hex character")

-- The loop of `from_hex`, two characters to a byte; `|` joins disjoint bits.
pub from_pairs : Text → Result Bytes
unfolding nibble
from_pairs [] = ok []
from_pairs (high ∷ []) = ok []
from_pairs (high ∷ low ∷ rest) = do
  h ← nibble high
  l ← nibble low
  bytes ← from_pairs rest
  ok ((h * 16 + l) ∷ bytes)

pub from_hex : Text → Result Bytes
unfolding from_pairs
from_hex text = do
  throw_if (not (length text % 2 == 0)) (invalid_argument "hex input must have even length")
  from_pairs text

pub fixed_hex : ℕ → Text → String → Result Bytes
unfolding from_hex
fixed_hex size text field = do
  parsed ← from_hex text
  throw_if (not (length parsed == size))
      (invalid_argument (Prim.Native.String.◌++◌ field " has wrong length"))
  ok parsed

abbrev pub digits : Text
digits = codes "0123456789abcdef"

abbrev pub hex_digit : ℕ → ℕ
hex_digit n = get_or digits n 0

pub to_hex : Bytes → Text
to_hex [] = []
to_hex (b ∷ bytes) = hex_digit (b / 16 % 16) ∷ hex_digit (b % 16) ∷ to_hex bytes

-- A digit written for a value below 16 is read as that value.
reads_back : ℕ → Bool
reads_back n = elim (nibble (hex_digit n)) [ ok m ↦ m == n | err e ↦ false ]

digit_table : all_below 16 reads_back ≡ true
unfolding all_below reads_back nibble
digit_table = refl

is_ok : (r : Result ℕ) (n : ℕ) → elim r [ ok m ↦ m == n | err e ↦ false ] ≡ true → r ≡ ok n
is_ok (ok m) n h = ground arith
is_ok (err e) n h = ground arith

nibble-hex_digit : (n : ℕ) → n < 16 → nibble (hex_digit n) ≡ ok n
unfolding reads_back
nibble-hex_digit n h = is_ok (nibble (hex_digit n)) n (all_below-lt 16 reads_back n digit_table h)

length-to_hex : (bytes : Bytes) → length (to_hex bytes) ≡ 2 * length bytes
unfolding to_hex
length-to_hex [] = refl
length-to_hex (b ∷ bytes) = omega (arith, length-to_hex bytes)

from_pairs-to_hex : (bytes : Bytes) → AllBytes bytes → from_pairs (to_hex bytes) ≡ ok bytes
unfolding from_pairs to_hex
from_pairs-to_hex [] h = refl
from_pairs-to_hex (b ∷ bytes) h =
    rw
      (
        nibble-hex_digit (b / 16 % 16) (omega arith),
        nibble-hex_digit (b % 16) (omega arith),
        from_pairs-to_hex bytes h.1,
      )
      (ap (λ x. ok (x ∷ bytes)) (omega (arith, h.0)))

even-to_hex : (bytes : Bytes) → not (length (to_hex bytes) % 2 == 0) ≡ false
even-to_hex bytes = ground (arith, length-to_hex bytes)

-- What `to_hex` prints for bytes, `from_hex` reads.
pub from_hex-to_hex : (bytes : Bytes) → AllBytes bytes → from_hex (to_hex bytes) ≡ ok bytes
unfolding from_hex
from_hex-to_hex bytes h = rw (even-to_hex bytes) (from_pairs-to_hex bytes h)

-- The same for a field of a fixed size.
pub fixed_hex-to_hex :
    (bytes : Bytes) (field : String)
    → AllBytes bytes
    → fixed_hex (length bytes) (to_hex bytes) field ≡ ok bytes
unfolding fixed_hex
fixed_hex-to_hex bytes field h = ground (arith, from_hex-to_hex bytes h)
