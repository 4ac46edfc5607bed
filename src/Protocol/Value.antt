-- ===== src/Protocol/Value.antt =====
-- The value types of rsdhcp/src/protocol/option.rs and their `ValueSerde` implementations.
-- An Ipv4Addr is the u32 of its octets; a String is the bytes of its UTF-8 form.
pub mod Laws
pub mod Numbers
pub mod Structures
use rsdhcp.Prelude.{
  ℕ, ◌+◌, ◌-◌, ◌%◌, ◌^◌, Bool, true, false, not, ◌&&◌, Option, none, some, List, [], ◌∷◌, ◌++◌, ltb,
  ◌==◌, if◌then◌else◌, length, get_or, drop,
}
use rsdhcp.Prelude.Int.{ℤ, pos, negsuc}
use rsdhcp.Protocol.Errors.{
  Result, ok, err, client_fqdn_length, u8_length, u16_length, u16_list_length, u32_length,
  i32_length, ipv4_length, ip_list_length, ip_mask_list_length, message_type_length,
  invalid_message_type, invalid_ascii,
}
use rsdhcp.Protocol.Enums.{MessageType, message_from, message_code}
use rsdhcp.Protocol.Bytes.{u16_to_be_bytes, u32_to_be_bytes, u16_from_be_bytes, u32_from_be_bytes}

abbrev pub Ipv4Addr : Type 0
Ipv4Addr = ℕ

-- The trait. Implementations are values of this record, named after their Rust type.
pub record ValueSerde (A : Type 0) : Type 0 where
  pub from_network : List ℕ → Result A
  pub to_network : A → List ℕ

unfoldable pub u8_from_network : List ℕ → Result ℕ
u8_from_network bytes = if not (length bytes == 1) then err u8_length else ok (get_or bytes 0 0)

unfoldable pub u8_to_network : ℕ → List ℕ
u8_to_network n = n ∷ []

unfoldable pub bytes_from_network : List ℕ → Result (List ℕ)
bytes_from_network bytes = ok bytes

unfoldable pub bytes_to_network : List ℕ → List ℕ
bytes_to_network bytes = bytes

-- `<[u8; 2]>::try_from` and `<[u8; 4]>::try_from` take slices of just that length.
unfoldable pub u16_from_network : List ℕ → Result ℕ
u16_from_network (a ∷ b ∷ []) = ok (u16_from_be_bytes a b)
u16_from_network _ = err u16_length

unfoldable pub u16_to_network : ℕ → List ℕ
u16_to_network n = u16_to_be_bytes n

-- The `for_each` over `chunks_exact(2)`, which leaves out what is shorter than a chunk.
unfoldable pub u16_chunks : List ℕ → List ℕ
u16_chunks (a ∷ b ∷ rest) = u16_from_be_bytes a b ∷ u16_chunks rest
u16_chunks _ = []

unfoldable pub u16_list_from_network : List ℕ → Result (List ℕ)
u16_list_from_network bytes =
    if not (length bytes % 2 == 0) then err u16_list_length else ok (u16_chunks bytes)

unfoldable pub u16_list_to_network : List ℕ → List ℕ
u16_list_to_network [] = []
u16_list_to_network (n ∷ ns) = u16_to_be_bytes n ++ u16_list_to_network ns

unfoldable pub u32_from_network : List ℕ → Result ℕ
u32_from_network (a ∷ b ∷ c ∷ d ∷ []) = ok (u32_from_be_bytes a b c d)
u32_from_network _ = err u32_length

unfoldable pub u32_to_network : ℕ → List ℕ
u32_to_network n = u32_to_be_bytes n

-- `i32::from_be_bytes` and `i32::to_be_bytes`: two's complement.
unfoldable pub i32_of_u32 : ℕ → ℤ
i32_of_u32 n = if ltb n (2 ^ 31) then pos n else negsuc (2 ^ 32 - n - 1)

unfoldable pub u32_of_i32 : ℤ → ℕ
u32_of_i32 (pos n) = n
u32_of_i32 (negsuc n) = 2 ^ 32 - n - 1

unfoldable pub i32_from_network : List ℕ → Result ℤ
i32_from_network (a ∷ b ∷ c ∷ d ∷ []) = ok (i32_of_u32 (u32_from_be_bytes a b c d))
i32_from_network _ = err i32_length

unfoldable pub i32_to_network : ℤ → List ℕ
i32_to_network z = u32_to_be_bytes (u32_of_i32 z)

unfoldable pub is_ascii : List ℕ → Bool
is_ascii [] = true
is_ascii (b ∷ bs) = ltb b 128 && is_ascii bs

abbrev pub is_empty {ℓ} : {A : Type ℓ} → List A → Bool
is_empty [] = true
is_empty (b ∷ bs) = false

-- `trim_end_matches(char::from(0))`
unfoldable pub trim_end : List ℕ → List ℕ
trim_end [] = []
trim_end (b ∷ bs) = let rest = trim_end bs in if is_empty rest && b == 0 then [] else b ∷ rest

-- Bytes that are no UTF-8 have one above 127, so both ways to fail are this one test: the source
-- answers them with one message.
unfoldable pub string_from_network : List ℕ → Result (List ℕ)
string_from_network bytes = if is_ascii bytes then ok (trim_end bytes) else err invalid_ascii

unfoldable pub string_to_network : List ℕ → List ℕ
string_to_network s = s

unfoldable pub ipv4_from_network : List ℕ → Result Ipv4Addr
ipv4_from_network (a ∷ b ∷ c ∷ d ∷ []) = ok (u32_from_be_bytes a b c d)
ipv4_from_network _ = err ipv4_length

unfoldable pub ipv4_to_network : Ipv4Addr → List ℕ
ipv4_to_network ip = u32_to_be_bytes ip

unfoldable pub ip_chunks : List ℕ → List Ipv4Addr
ip_chunks (a ∷ b ∷ c ∷ d ∷ rest) = u32_from_be_bytes a b c d ∷ ip_chunks rest
ip_chunks _ = []

unfoldable pub ip_list_from_network : List ℕ → Result (List Ipv4Addr)
ip_list_from_network bytes =
    if not (length bytes % 4 == 0) then err ip_list_length else ok (ip_chunks bytes)

unfoldable pub ip_list_to_network : List Ipv4Addr → List ℕ
ip_list_to_network [] = []
ip_list_to_network (ip ∷ ips) = u32_to_be_bytes ip ++ ip_list_to_network ips

-- The `loop` over `offset`: the list is `bytes[offset..]`, and it stops when eight do not remain.
unfoldable pub ip_mask_loop : List ℕ → List (Ipv4Addr × Ipv4Addr)
ip_mask_loop (a ∷ b ∷ c ∷ d ∷ e ∷ f ∷ g ∷ h ∷ rest) =
    (u32_from_be_bytes a b c d, u32_from_be_bytes e f g h) ∷ ip_mask_loop rest
ip_mask_loop _ = []

unfoldable pub ip_mask_list_from_network : List ℕ → Result (List (Ipv4Addr × Ipv4Addr))
ip_mask_list_from_network bytes =
    if not (length bytes % 8 == 0) then err ip_mask_list_length else ok (ip_mask_loop bytes)

unfoldable pub ip_mask_list_to_network : List (Ipv4Addr × Ipv4Addr) → List ℕ
ip_mask_list_to_network [] = []
ip_mask_list_to_network ((addr, mask) ∷ rest) =
    u32_to_be_bytes addr ++ (u32_to_be_bytes mask ++ ip_mask_list_to_network rest)

-- `if let MessageType::Unknown(v) = mt { return Err(..) }`
abbrev pub known : MessageType → Result MessageType
known (MessageType.unknown v) = err (invalid_message_type v)
known mt = ok mt

unfoldable pub message_type_from_network : List ℕ → Result MessageType
message_type_from_network bytes =
    if not (length bytes == 1)
    then err message_type_length
    else known (message_from (get_or bytes 0 0))

unfoldable pub message_type_to_network : MessageType → List ℕ
message_type_to_network mt = message_code mt ∷ []

pub record ClientFqdn : Type 0 where
  pub flags : ℕ
  pub domain_name : List ℕ

unfoldable pub client_fqdn_from_network : List ℕ → Result ClientFqdn
client_fqdn_from_network bytes =
    if ltb (length bytes) 4
    then err client_fqdn_length
    else ok (record { flags = get_or bytes 0 0; domain_name = drop 3 bytes })

unfoldable pub client_fqdn_to_network : ClientFqdn → List ℕ
client_fqdn_to_network f = f.flags ∷ 255 ∷ 255 ∷ f.domain_name

-- The implementations of the trait.
abbrev pub u8_serde : ValueSerde ℕ
u8_serde = record { from_network = u8_from_network; to_network = u8_to_network }

abbrev pub bytes_serde : ValueSerde (List ℕ)
bytes_serde = record { from_network = bytes_from_network; to_network = bytes_to_network }

abbrev pub u16_serde : ValueSerde ℕ
u16_serde = record { from_network = u16_from_network; to_network = u16_to_network }

abbrev pub u16_list_serde : ValueSerde (List ℕ)
u16_list_serde = record { from_network = u16_list_from_network; to_network = u16_list_to_network }

abbrev pub u32_serde : ValueSerde ℕ
u32_serde = record { from_network = u32_from_network; to_network = u32_to_network }

abbrev pub i32_serde : ValueSerde ℤ
i32_serde = record { from_network = i32_from_network; to_network = i32_to_network }

abbrev pub string_serde : ValueSerde (List ℕ)
string_serde = record { from_network = string_from_network; to_network = string_to_network }

abbrev pub ipv4_serde : ValueSerde Ipv4Addr
ipv4_serde = record { from_network = ipv4_from_network; to_network = ipv4_to_network }

abbrev pub ip_list_serde : ValueSerde (List Ipv4Addr)
ip_list_serde = record { from_network = ip_list_from_network; to_network = ip_list_to_network }

abbrev pub ip_mask_list_serde : ValueSerde (List (Ipv4Addr × Ipv4Addr))
ip_mask_list_serde = record {
  from_network = ip_mask_list_from_network;
  to_network = ip_mask_list_to_network;
}

abbrev pub message_type_serde : ValueSerde MessageType
message_type_serde = record {
  from_network = message_type_from_network;
  to_network = message_type_to_network;
}

abbrev pub client_fqdn_serde : ValueSerde ClientFqdn
client_fqdn_serde = record {
  from_network = client_fqdn_from_network;
  to_network = client_fqdn_to_network;
}
