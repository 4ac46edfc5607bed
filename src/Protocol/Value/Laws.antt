-- ===== src/Protocol/Value/Laws.antt =====
-- What each value type means by a valid value, and what an implementation of `ValueSerde` owes.
use rsdhcp.Prelude.{All, List, length, ℕ, ◌<◌, ◌^◌, ◌≡◌, ◌≤◌}
use rsdhcp.Prelude.Int.{negsuc, pos, ℤ}
use rsdhcp.Protocol.Bytes.{IsByte, IsU32}
use rsdhcp.Protocol.Enums.{MessageType}
use rsdhcp.Protocol.Errors.{ok}
use rsdhcp.Protocol.Value.{ClientFqdn, Ipv4Addr, ValueSerde, trim_end}

pub record IsCodec {A : Type 0} (s : ValueSerde A) (Valid : A → Type 0) : Type 0 where
  pub decode-encode : (a : A) → Valid a → s.from_network (s.to_network a) ≡ ok a
  pub decode-Valid :
      (bytes : List ℕ) (a : A) → All IsByte bytes → s.from_network bytes ≡ ok a → Valid a
  pub encode-IsByte : (a : A) → Valid a → All IsByte (s.to_network a)
  pub encode-length :
      (bytes : List ℕ) (a : A)
      → s.from_network bytes ≡ ok a
      → length (s.to_network a) ≤ length bytes

abbrev pub IsI32 : ℤ → Type 0
IsI32 (pos n) = n < 2 ^ 31
IsI32 (negsuc n) = n < 2 ^ 31

-- A text that an option can carry: ASCII, and not ending in a zero byte.
abbrev pub IsText : List ℕ → Type 0
IsText s = All (λ b. b < 128) s × (trim_end s ≡ s)

abbrev pub IsIpPair : Ipv4Addr × Ipv4Addr → Type 0
IsIpPair p = IsU32 p.0 × IsU32 p.1

abbrev pub IsKnown : MessageType → Type 0
IsKnown (MessageType.unknown v) = ⊥
IsKnown _ = Unit {0}

abbrev pub IsFqdn : ClientFqdn → Type 0
IsFqdn f = IsByte f.flags × (1 ≤ length f.domain_name) × All IsByte f.domain_name
