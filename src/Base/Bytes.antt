-- ===== src/Base/Bytes.antt =====
-- Big-endian bytes of 16- and 32-bit words, as the answers and the SPI messages carry them.
use Prim.Native.Nat.{ℕ, ◌+◌, ◌*◌, ◌/◌, ◌%◌, ◌<◌}
use mathlib.Core.Path.{◌≡◌}
use native.Mathlib.Omega.{arith}

-- `(uint8_t)x`.
abbrev pub byte : ℕ → ℕ
byte x = x % 256

-- `(uint8_t)(x >> 8)`, `(uint8_t)(x >> 16)`, `(uint8_t)(x >> 24)`.
abbrev pub byte1 : ℕ → ℕ
byte1 x = x / 256 % 256

abbrev pub byte2 : ℕ → ℕ
byte2 x = x / 65536 % 256

abbrev pub byte3 : ℕ → ℕ
byte3 x = x / 16777216 % 256

-- `(hi << 8) | lo` of two bytes.
abbrev pub u16 : ℕ → ℕ → ℕ
u16 hi lo = hi * 256 + lo

-- `(a << 24) | (b << 16) | (c << 8) | d` of four bytes.
abbrev pub u32 : ℕ → ℕ → ℕ → ℕ → ℕ
u32 a b c d = a * 16777216 + b * 65536 + c * 256 + d

pub u16-bytes : (x : ℕ) → x < 65536 → u16 (byte1 x) (byte x) ≡ x
u16-bytes x h = omega arith

pub u32-bytes : (x : ℕ) → x < 4294967296 → u32 (byte3 x) (byte2 x) (byte1 x) (byte x) ≡ x
u32-bytes x h = omega arith
