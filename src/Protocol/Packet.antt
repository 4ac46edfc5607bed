-- ===== src/Protocol/Packet.antt =====
-- `DhcpPacket` of rsdhcp/src/protocol/packet.rs: the fixed header, its wire form, and what a
-- packet says of its sender.
pub mod Hex
pub mod Reply
pub mod WellFormed
pub mod Header
pub mod RoundTrip
pub mod Decode
pub mod Checked
pub mod Accepts
pub mod Limit
pub mod State
use rsdhcp.External.{ByteOrder}
use rsdhcp.Prelude.{
  Bool, List, Option, [], drop, false, get_or, if◌then◌else◌, length, ltb, max, none, not,
  replicate, some, take, true, ℕ, ◌&&◌, ◌++◌, ◌-◌, ◌/◌, ◌==◌, ◌^◌, ◌∷◌,
}
use rsdhcp.Protocol.Bytes.{u16_from_be_bytes, u16_to_be_bytes, u32_from_be_bytes, u32_to_be_bytes}
use rsdhcp.Protocol.Enums.{
  ClientState, DhcpOperation, HardwareType, MessageType, boot_reply, discover, hardware_code,
  hardware_from, init, init_reboot, operation_code, operation_from, rebinding, renewing, request,
  selecting,
}
use rsdhcp.Protocol.Errors.{
  Result, err, incorrect_cookie, insufficient_bytes, ok, try_from_slice, ◌>>=◌,
}
use rsdhcp.Protocol.Option.{DhcpOption, address_request_code, dhcp_msg_type, dhcp_server_id_code}
use rsdhcp.Protocol.Options.{DhcpOptions, get_option}
use rsdhcp.Protocol.Options.Overflow.{Overflowed, to_network_overflow}
use rsdhcp.Protocol.Value.{Ipv4Addr}
use rsdhcp.Protocol.Options

abbrev pub cookie_bytes : List ℕ
cookie_bytes = 99 ∷ 130 ∷ 83 ∷ 99 ∷ []

abbrev pub dhcp_header_len : ℕ
dhcp_header_len = 240

abbrev pub min_max_message_len : ℕ
min_max_message_len = 576

pub record DhcpPacket : Type 0 where
  pub op : DhcpOperation
  pub htype : HardwareType
  pub hlen : ℕ
  pub hops : ℕ
  pub xid : ℕ
  pub secs : ℕ
  pub flags : ℕ
  pub ciaddr : Ipv4Addr
  pub yiaddr : Ipv4Addr
  pub siaddr : Ipv4Addr
  pub giaddr : Ipv4Addr
  pub chaddr : List ℕ
  pub sname : List ℕ
  pub file : List ℕ
  pub cookie : List ℕ
  pub options : DhcpOptions
  pub max_client_message_size : Option ℕ
  pub received_by_broadcast : Bool

-- `raw[a..b]`
abbrev pub slice : ℕ → ℕ → List ℕ → List ℕ
slice a b raw = take (b - a) (drop a raw)

-- `try_into()?` into `[u8; 4]` and `[u8; 2]` under `from_be_bytes`, and into an array of n bytes.
unfoldable pub to_u32 : List ℕ → Result ℕ
to_u32 (a ∷ b ∷ c ∷ d ∷ []) = ok (u32_from_be_bytes a b c d)
to_u32 _ = err try_from_slice

unfoldable pub to_u16 : List ℕ → Result ℕ
to_u16 (a ∷ b ∷ []) = ok (u16_from_be_bytes a b)
to_u16 _ = err try_from_slice

unfoldable pub to_array : ℕ → List ℕ → Result (List ℕ)
to_array n bytes = if length bytes == n then ok bytes else err try_from_slice

-- The fixed header, with no options yet.
unfoldable pub read_header : List ℕ → Bool → Result DhcpPacket
unfolding to_u32 to_u16 Options.from_list
read_header raw broadcast = do
  xid ← to_u32 (slice 4 8 raw)
  secs ← to_u16 (slice 8 10 raw)
  flags ← to_u16 (slice 10 12 raw)
  ciaddr ← to_u32 (slice 12 16 raw)
  yiaddr ← to_u32 (slice 16 20 raw)
  siaddr ← to_u32 (slice 20 24 raw)
  giaddr ← to_u32 (slice 24 28 raw)
  chaddr ← to_array 16 (slice 28 44 raw)
  sname ← to_array 64 (slice 44 108 raw)
  file ← to_array 128 (slice 108 236 raw)
  cookie ← to_array 4 (slice 236 240 raw)
  ok (record {
    op = operation_from (get_or raw 0 0);
    htype = hardware_from (get_or raw 1 0);
    hlen = get_or raw 2 0;
    hops = get_or raw 3 0;
    xid = xid;
    secs = secs;
    flags = flags;
    ciaddr = ciaddr;
    yiaddr = yiaddr;
    siaddr = siaddr;
    giaddr = giaddr;
    chaddr = chaddr;
    sname = sname;
    file = file;
    cookie = cookie;
    options = Options.from_list none;
    max_client_message_size = none;
    received_by_broadcast = broadcast;
  })

-- The comparison of arrays, `packet.cookie != COOKIE`.
unfoldable pub bytes_eq : List ℕ → List ℕ → Bool
bytes_eq [] [] = true
bytes_eq (x ∷ xs) (y ∷ ys) = x == y && bytes_eq xs ys
bytes_eq _ _ = false

module _ ⦃crate : ByteOrder⦄ where
  -- What follows the cookie check: the options, if there are bytes for them.
  unfoldable pub read_options : List ℕ → DhcpPacket → Result DhcpPacket
  read_options raw packet =
      if ltb 240 (length raw)
      then (do
        options ← Options.from_network (drop 240 raw)
        ok (record packet { options = options }))
      else ok packet

  unfoldable pub from_network : List ℕ → Bool → Result DhcpPacket
  unfolding read_header read_options bytes_eq
  from_network raw broadcast = if ltb (length raw) 240 then err insufficient_bytes else do
    packet ← read_header raw broadcast
    if not (bytes_eq packet.cookie cookie_bytes)
        then err incorrect_cookie
        else read_options raw packet

-- `file[0..fd.len()].copy_from_slice(&fd)`
abbrev pub overwrite : List ℕ → Option (List ℕ) → List ℕ
overwrite field none = field
overwrite field (some d) = d ++ drop (length d) field

-- The zeros that bring the options to 60 bytes.
abbrev pub pad_options : List ℕ → List ℕ
pad_options options =
    if ltb (length options) 60 then options ++ replicate (60 - length options) 0 else options

-- The sequence of pushes and extends of `to_network`.
unfoldable pub assemble : DhcpPacket → List ℕ → List ℕ → List ℕ → List ℕ
unfolding u32_to_be_bytes u16_to_be_bytes
assemble p options file sname =
    operation_code p.op
    ∷ hardware_code p.htype
    ∷ p.hlen
    ∷ p.hops
    ∷ (u32_to_be_bytes p.xid
        ++ (u16_to_be_bytes p.secs
            ++ (u16_to_be_bytes p.flags
                ++ (u32_to_be_bytes p.ciaddr
                    ++ (u32_to_be_bytes p.yiaddr
                        ++ (u32_to_be_bytes p.siaddr
                            ++ (u32_to_be_bytes p.giaddr
                                ++ (p.chaddr
                                    ++ (sname
                                        ++ (file ++ (cookie_bytes ++ pad_options options)))))))))))

unfoldable pub max_options_len : ℕ → ℕ
max_options_len m = max m min_max_message_len - dhcp_header_len

-- The options spread by the client's limit.
unfoldable pub overflowed : DhcpPacket → ℕ → Overflowed
unfolding max_options_len
overflowed p m =
    to_network_overflow p.options (max_options_len m) (get_or p.file 0 0 == 0)
      (get_or p.sname 0 0 == 0)

unfoldable pub to_network : DhcpPacket → List ℕ
unfolding assemble overflowed
to_network p = elim p.max_client_message_size [
  | some m ↦
      let r = overflowed p m in
      assemble p r.bytes (overwrite p.file r.file_data) (overwrite p.sname r.sname_data)
  | none ↦ assemble p (Options.to_network p.options) p.file p.sname
]

-- The loop of `message_type`: the first option of the variant.
unfoldable pub first_message_type : List DhcpOption → Option MessageType
first_message_type [] = none
first_message_type (dhcp_msg_type mt ∷ os) = some mt
first_message_type (o ∷ os) = first_message_type os

unfoldable pub message_type : DhcpPacket → Option MessageType
unfolding first_message_type
message_type p = first_message_type p.options.options

abbrev pub is_unspecified : Ipv4Addr → Bool
is_unspecified ip = ip == 0

abbrev pub is_some {ℓ} : {A : Type ℓ} → Option A → Bool
is_some none = false
is_some (some a) = true

unfoldable pub broadcast_by_client : DhcpPacket → Bool
broadcast_by_client p = if not (is_unspecified p.giaddr) then true else p.received_by_broadcast

-- `self.flags >> 15 == 1`
unfoldable pub return_broadcast : DhcpPacket → Bool
return_broadcast p = p.flags / 2 ^ 15 == 1

-- The four tests for a request, in their order.
unfoldable pub request_state : DhcpPacket → Option ClientState
unfolding broadcast_by_client
request_state p =
    let server_id = is_some (get_option p.options dhcp_server_id_code) in
    let requested = is_some (get_option p.options address_request_code) in
    let ciaddr_unspecified = is_unspecified p.ciaddr in
    let by_broadcast = broadcast_by_client p in
    if ciaddr_unspecified && server_id && requested
    then some selecting
    else if not by_broadcast
        && not ciaddr_unspecified
        && is_unspecified p.giaddr
        && not server_id
        && not requested
    then some renewing
    else if by_broadcast && not ciaddr_unspecified && not server_id && not requested
    then some rebinding
    else if ciaddr_unspecified && not server_id && requested
    then some init_reboot
    else none

-- `if let Some(..) = self.message_type()` for the two types that tell a state.
unfoldable pub state_of_type : DhcpPacket → Option MessageType → Option ClientState
unfolding request_state
state_of_type p (some discover) = some init
state_of_type p (some request) = request_state p
state_of_type p _ = none

unfoldable pub state_of_operation : DhcpPacket → DhcpOperation → Option ClientState
unfolding state_of_type message_type
state_of_operation p boot_reply = none
state_of_operation p _ = state_of_type p (message_type p)

unfoldable pub client_state : DhcpPacket → Option ClientState
unfolding state_of_operation
client_state p = state_of_operation p p.op

unfoldable pub add_option : DhcpPacket → DhcpOption → DhcpPacket
add_option p o = record p { options = record { options = p.options.options ++ o ∷ [] } }
