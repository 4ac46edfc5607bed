-- ===== src/External.antt =====
-- What the program takes from third-party crates, as interfaces that the model is given.
use rsdhcp.Prelude.{Bool, List, Option, [], none, some, ℕ, ◌∷◌, ◌≡◌}
use rsdhcp.Prelude.Int.{ℤ}

-- `byteorder::ReadBytesExt::read_u8` on a cursor. The list is what the cursor has not read yet;
-- `none` is the I/O error at the end of the data.
pub record ByteOrder : Type 0 where
  pub read_u8 : List ℕ → Option (ℕ × List ℕ)
  pub read_u8-nil : read_u8 [] ≡ none
  pub read_u8-cons : (b : ℕ) (rest : List ℕ) → read_u8 (b ∷ rest) ≡ some (b, rest)

-- The parts of the `ipnet` crate that the program uses: an `Ipv4Net` has an address and a netmask,
-- and the address that it is made from is the one that it has, host bits included.
pub record Ipnet : Type 1 where
  pub Ipv4Net : Type 0
  pub addr : Ipv4Net → ℕ
  pub netmask : Ipv4Net → ℕ
  pub with_netmask : ℕ → ℕ → Option Ipv4Net
  pub contains : Ipv4Net → ℕ → Bool
  pub addr-with_netmask :
      (ip mask : ℕ) (net : Ipv4Net) → with_netmask ip mask ≡ some net → addr net ≡ ip

-- The parts of the `chrono` crate that the program uses. `Utc::now()` is an argument of the
-- operations that ask for the time.
pub record Chrono : Type 1 where
  pub DateTime : Type 0
  pub Duration : Type 0
  pub seconds : ℤ → Duration
  pub hours : ℤ → Duration
  pub num_seconds : Duration → ℤ
  pub add : DateTime → Duration → DateTime
  pub sub : DateTime → DateTime → Duration
  pub before : DateTime → DateTime → Bool
