-- ===== src/Text.antt =====
-- The formatting of the standard library that the source uses. A text is the list of its bytes.
pub mod Plain
use rsdhcp.Prelude.{List, [], if◌then◌else◌, ltb, map, ℕ, ◌%◌, ◌++◌, ◌+◌, ◌-◌, ◌/◌, ◌∷◌}
use rsdhcp.Protocol.Bytes.{u32_to_be_bytes}

unfoldable pub hex_digit : ℕ → ℕ
hex_digit n = if ltb n 10 then b'0' + n else b'A' + (n - 10)

-- `format!("{:02X?}", b)` for a byte.
unfoldable pub octet : ℕ → List ℕ
unfolding hex_digit
octet b = hex_digit (b / 16) ∷ hex_digit (b % 16) ∷ []

-- `format!("{}", b)` for a byte.
unfoldable pub decimal : ℕ → List ℕ
decimal b =
    if ltb b 10
    then (b'0' + b) ∷ []
    else if ltb b 100
    then (b'0' + b / 10) ∷ (b'0' + b % 10) ∷ []
    else (b'0' + b / 100) ∷ (b'0' + b / 10 % 10) ∷ (b'0' + b % 10) ∷ []

-- `join(":")` and its like, on a separator of one byte.
unfoldable pub join : ℕ → List (List ℕ) → List ℕ
join sep [] = []
join sep (x ∷ []) = x
join sep (x ∷ y ∷ ys) = x ++ sep ∷ join sep (y ∷ ys)

-- `Ipv4Addr::to_string`
unfoldable pub ipv4_text : ℕ → List ℕ
unfolding decimal join u32_to_be_bytes
ipv4_text ip = join b'.' (map decimal (u32_to_be_bytes ip))
