-- ===== src/Binarysort.antt =====
-- internal/binarysort/binarysort.go: encodings that are meant to sort as the values do.
pub mod Order
pub mod Sextets
pub mod RoundTrip
mod Samples
use genji.Prelude.{ℕ, zero, suc, ◌+◌, ◌-◌, ◌*◌, ◌/◌, ◌%◌, Bool, true, false, List, [], ◌∷◌, ◌++◌}
use genji.Prelude.{◌<◌, ◌≡◌, All, Bytes, ltb, leb, ◌==◌, if◌then◌else◌, length}
use genji.Prelude.Int.{ℤ, to_uint64, of_uint64, half64, mod64}
use genji.Prelude.Double.{double_le}
use genji.Prelude.Results.{Result, ok, err}

pub data DecodeError : Type 0 where
  cannot_decode_bool cannot_decode_uint64 cannot_decode_float64 : DecodeError

unfoldable pub append_bool : Bytes → Bool → Bytes
append_bool buf x = if x then buf ++ 1 ∷ [] else buf ++ 0 ∷ []

unfoldable pub decode_bool : Bytes → Result DecodeError Bool
decode_bool [] = err cannot_decode_bool
decode_bool (b ∷ buf) = ok (b == 1)

-- `n` bytes of `x`, the most significant first, before `rest`.
unfoldable pub big_endian : ℕ → ℕ → Bytes → Bytes
big_endian zero x rest = rest
big_endian (suc n) x rest = big_endian n (x / 256) ((x % 256) ∷ rest)

-- The number that the next `n` bytes write behind `acc`.
unfoldable pub uint_of : ℕ → ℕ → Bytes → ℕ
uint_of zero acc buf = acc
uint_of (suc n) acc [] = acc
uint_of (suc n) acc (b ∷ buf) = uint_of n (acc * 256 + b) buf

unfoldable pub append_uint64 : Bytes → ℕ → Bytes
unfolding big_endian
append_uint64 buf x = buf ++ big_endian 8 x []

unfoldable pub decode_uint64 : Bytes → Result DecodeError ℕ
unfolding uint_of
decode_uint64 buf = if ltb (length buf) 8 then err cannot_decode_uint64 else ok (uint_of 8 0 buf)

-- `uint64(x) + math.MaxInt64 + 1`
unfoldable pub append_int64 : Bytes → ℤ → Bytes
unfolding append_uint64
append_int64 buf x = append_uint64 buf ((to_uint64 x + half64) % mod64)

decode_int64_of : Result DecodeError ℕ → Result DecodeError ℤ
decode_int64_of (ok x) = ok (of_uint64 ((x + mod64 - half64) % mod64))
decode_int64_of (err e) = err e

unfoldable pub decode_int64 : Bytes → Result DecodeError ℤ
unfolding decode_uint64 decode_int64_of
decode_int64 buf = decode_int64_of (decode_uint64 buf)

-- `x ^ (1 << 63)` and `x ^ (1 << 64 - 1)` on a uint64.
abbrev pub flip_sign : ℕ → ℕ
flip_sign x = if ltb x half64 then x + half64 else x - half64

abbrev pub flip_all : ℕ → ℕ
flip_all x = mod64 - 1 - x

-- The bits that are written for the float64 with the bits `x`: its test is `x >= 0`.
unfoldable pub float_bits : ℕ → ℕ
float_bits x = if double_le 0 x then flip_sign x else flip_all x

-- `x` is the bit pattern of the float64.
unfoldable pub append_float64 : Bytes → ℕ → Bytes
unfolding append_uint64
append_float64 buf x = append_uint64 buf (float_bits x)

-- What `DecodeFloat64` makes of the uint64 that it reads.
abbrev pub float_bits_back : ℕ → ℕ
float_bits_back x = if leb half64 x then flip_sign x else flip_all x

unfoldable pub decode_float64 : Bytes → Result DecodeError ℕ
unfolding uint_of
decode_float64 buf =
    if ltb (length buf) 8 then err cannot_decode_float64 else ok (float_bits_back (uint_of 8 0 buf))

-- base64encoder
abbrev pub base64encoder : Bytes
base64encoder =
    45 ∷ 48 ∷ 49 ∷ 50 ∷ 51 ∷ 52 ∷ 53 ∷ 54 ∷ 55 ∷ 56 ∷ 57 ∷ 65 ∷ 66 ∷ 67 ∷ 68 ∷ 69 ∷ 70 ∷ 71 ∷ 72
    ∷ 73 ∷ 74 ∷ 75 ∷ 76 ∷ 77 ∷ 78 ∷ 79 ∷ 80 ∷ 81 ∷ 82 ∷ 83 ∷ 84 ∷ 85 ∷ 86 ∷ 87 ∷ 88 ∷ 89 ∷ 90 ∷ 95
    ∷ 97 ∷ 98 ∷ 99 ∷ 100 ∷ 101 ∷ 102 ∷ 103 ∷ 104 ∷ 105 ∷ 106 ∷ 107 ∷ 108 ∷ 109 ∷ 110 ∷ 111 ∷ 112
    ∷ 113 ∷ 114 ∷ 115 ∷ 116 ∷ 117 ∷ 118 ∷ 119 ∷ 120 ∷ 121 ∷ 122 ∷ []

-- The element at a place.
unfoldable pub at : Bytes → ℕ → ℕ
at [] i = 0
at (x ∷ xs) zero = x
at (x ∷ xs) (suc i) = at xs i

unfoldable pub letters : Bytes → List ℕ → Bytes
unfolding at
letters alphabet [] = []
letters alphabet (i ∷ is) = at alphabet i ∷ letters alphabet is

-- Three bytes as four numbers of six bits, and what is left with zero bits behind it.
unfoldable pub sextets : Bytes → List ℕ
sextets [] = []
sextets (a ∷ []) = a / 4 ∷ a % 4 * 16 ∷ []
sextets (a ∷ b ∷ []) = a / 4 ∷ (a % 4 * 16 + b / 16) ∷ b % 16 * 4 ∷ []
sextets (a ∷ b ∷ c ∷ s) = a / 4 ∷ (a % 4 * 16 + b / 16) ∷ (b % 16 * 4 + c / 64) ∷ c % 64 ∷ sextets s

abbrev pub IsBytes : Bytes → Type 0
IsBytes s = All (λ b. b < 256) s

-- The encoding without padding that encoding/base64 makes of an alphabet, as RFC 4648 has it.
pub record Base64 : Type 0 where
  pub encode : Bytes → Bytes → Bytes
  pub encode-sextets :
      (alphabet s : Bytes) → IsBytes s → encode alphabet s ≡ letters alphabet (sextets s)

-- AppendBase64
unfoldable pub append_base64 : Base64 → Bytes → Bytes → Bytes
append_base64 b64 buf s = buf ++ b64.encode base64encoder s
