-- ===== src/Protocol/Bytes.antt =====
-- The standard library's conversions of fixed-width integers to and from network byte order.
use rsdhcp.Prelude.{ℕ, ◌+◌, ◌*◌, ◌/◌, ◌%◌, ◌^◌, ◌<◌, ◌≡◌, List, [], ◌∷◌, All, arith}

abbrev pub IsByte : ℕ → Type 0
IsByte b = b < 256

abbrev pub IsU16 : ℕ → Type 0
IsU16 n = n < 2 ^ 16

abbrev pub IsU32 : ℕ → Type 0
IsU32 n = n < 2 ^ 32

-- `u16::to_be_bytes` and `u32::to_be_bytes`.
unfoldable pub u16_to_be_bytes : ℕ → List ℕ
u16_to_be_bytes n = (n / 256 % 256) ∷ (n % 256) ∷ []

unfoldable pub u32_to_be_bytes : ℕ → List ℕ
u32_to_be_bytes n = (n / 16_777_216 % 256) ∷ (n / 65_536 % 256) ∷ (n / 256 % 256) ∷ (n % 256) ∷ []

-- `u16::from_be_bytes` and `u32::from_be_bytes`, on the bytes of the array.
unfoldable pub u16_from_be_bytes : ℕ → ℕ → ℕ
u16_from_be_bytes a b = a * 256 + b

unfoldable pub u32_from_be_bytes : ℕ → ℕ → ℕ → ℕ → ℕ
u32_from_be_bytes a b c d = a * 16_777_216 + b * 65_536 + c * 256 + d

pub u16_bytes : (n : ℕ) → IsU16 n → u16_from_be_bytes (n / 256 % 256) (n % 256) ≡ n
unfolding u16_from_be_bytes
u16_bytes n h = omega arith

pub u32_bytes :
    (n : ℕ)
    → IsU32 n
    → u32_from_be_bytes (n / 16_777_216 % 256) (n / 65_536 % 256) (n / 256 % 256) (n % 256) ≡ n
unfolding u32_from_be_bytes
u32_bytes n h = omega arith

pub u16_from_be_bytes-lt : (a b : ℕ) → IsByte a → IsByte b → IsU16 (u16_from_be_bytes a b)
unfolding u16_from_be_bytes
u16_from_be_bytes-lt a b ha hb = omega arith

pub u32_from_be_bytes-lt :
    (a b c d : ℕ) → IsByte a → IsByte b → IsByte c → IsByte d → IsU32 (u32_from_be_bytes a b c d)
unfolding u32_from_be_bytes
u32_from_be_bytes-lt a b c d ha hb hc hd = omega arith

-- The bytes of a number that was put together from two or four bytes are those bytes.
pub u16_to_be_bytes-from :
    (a b : ℕ) → IsByte a → IsByte b → u16_to_be_bytes (u16_from_be_bytes a b) ≡ a ∷ b ∷ []
unfolding u16_to_be_bytes u16_from_be_bytes
u16_to_be_bytes-from a b ha hb = ground arith

pub u32_to_be_bytes-from :
    (a b c d : ℕ)
    → IsByte a
    → IsByte b
    → IsByte c
    → IsByte d
    → u32_to_be_bytes (u32_from_be_bytes a b c d) ≡ a ∷ b ∷ c ∷ d ∷ []
unfolding u32_to_be_bytes u32_from_be_bytes
u32_to_be_bytes-from a b c d ha hb hc hd = ground arith

pub u16_to_be_bytes-IsByte : (n : ℕ) → All IsByte (u16_to_be_bytes n)
unfolding u16_to_be_bytes
u16_to_be_bytes-IsByte n = omega arith

pub u32_to_be_bytes-IsByte : (n : ℕ) → All IsByte (u32_to_be_bytes n)
unfolding u32_to_be_bytes
u32_to_be_bytes-IsByte n = omega arith
