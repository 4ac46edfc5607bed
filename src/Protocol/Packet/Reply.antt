-- ===== src/Protocol/Packet/Reply.antt =====
-- `response` and `nak` of rsdhcp/src/protocol/packet.rs: the packets that answer a client.
pub mod Owed
pub mod Laws
pub mod Sendable
use rsdhcp.Backends.{Lease}
use rsdhcp.External.{Chrono, Ipnet}
use rsdhcp.Prelude.{
  List, Option, [], if◌then◌else◌, ltb, none, not, replicate, some, ℕ, ◌&&◌, ◌++◌, ◌^◌, ◌∷◌,
}
use rsdhcp.Prelude.Int.{negsuc, pos, ℤ}
use rsdhcp.Protocol.Enums.{
  MessageType, acknowledge, boot_reply, discover, inform, neg_acknowledge, offer, request,
}
use rsdhcp.Protocol.Option.{
  DhcpOption, address_time, client_id_code, dhcp_max_msg_size, dhcp_max_msg_size_code,
  dhcp_msg_type, dhcp_msg_type_code, dhcp_server_id, subnet_mask,
}
use rsdhcp.Protocol.Options.{DhcpOptions, get_option}
use rsdhcp.Protocol.Packet.{DhcpPacket, cookie_bytes, is_unspecified}
use rsdhcp.Protocol.Value.{Ipv4Addr}

abbrev pub default_lease_time_secs : ℕ
default_lease_time_secs = 3600

-- The message type of a response, by that of the request's option.
unfoldable pub response_type : Option DhcpOption → MessageType
response_type (some (dhcp_msg_type discover)) = offer
response_type (some (dhcp_msg_type request)) = acknowledge
response_type (some (dhcp_msg_type inform)) = acknowledge
response_type _ = MessageType.unknown 255

-- `num_seconds() > 0` and `try_into()` into a u32, or the default.
unfoldable pub lease_seconds : ℤ → ℕ
lease_seconds (pos n) = if ltb 0 n && ltb n (2 ^ 32) then n else default_lease_time_secs
lease_seconds (negsuc n) = default_lease_time_secs

abbrev pub client_limit : Option DhcpOption → Option ℕ
client_limit (some (dhcp_max_msg_size s)) = some s
client_limit _ = none

abbrev pub to_list {ℓ} : {A : Type ℓ} → Option A → List A
to_list none = []
to_list (some a) = a ∷ []

abbrev pub lease_options : Option DhcpOptions → List DhcpOption
lease_options none = []
lease_options (some o) = o.options

-- The reply that both start from: the fields that are copied from the request or set to zero.
abbrev pub blank_reply : DhcpPacket → DhcpPacket
blank_reply p = record {
  op = boot_reply;
  htype = p.htype;
  hlen = p.hlen;
  hops = 0;
  xid = p.xid;
  secs = 0;
  flags = p.flags;
  ciaddr = p.ciaddr;
  yiaddr = p.yiaddr;
  siaddr = p.siaddr;
  giaddr = p.giaddr;
  chaddr = p.chaddr;
  sname = replicate 64 0;
  file = replicate 128 0;
  cookie = cookie_bytes;
  options = record { options = [] };
  max_client_message_size = none;
  received_by_broadcast = p.received_by_broadcast;
}

abbrev pub or_else {ℓ} : {A : Type ℓ} → Option A → A → A
or_else none d = d
or_else (some a) d = a

module _ ⦃ipnet : Ipnet⦄ ⦃chrono : Chrono⦄ where
  abbrev pub mask_option : Option ipnet.Ipv4Net → List DhcpOption
  mask_option none = []
  mask_option (some ip) = subnet_mask (ipnet.netmask ip) ∷ []

  abbrev pub leased_address : Ipv4Addr → Option ipnet.Ipv4Net → Ipv4Addr
  leased_address before none = before
  leased_address before (some ip) = ipnet.addr ip

  -- The options of a response, in the order of the pushes.
  unfoldable pub response_options : DhcpPacket → Lease → List DhcpOption
  unfolding response_type lease_seconds get_option
  response_options p lease =
      dhcp_msg_type (response_type (get_option p.options dhcp_msg_type_code))
      ∷ dhcp_server_id lease.server_identifier
      ∷ address_time (lease_seconds (chrono.num_seconds lease.lease_duration))
      ∷ (mask_option lease.yiaddr
          ++ (to_list (get_option p.options client_id_code) ++ lease_options lease.options))

  unfoldable pub response : DhcpPacket → Lease → DhcpPacket
  unfolding response_options
  response p lease = record (blank_reply p) {
    max_client_message_size = client_limit (get_option p.options dhcp_max_msg_size_code);
    yiaddr = leased_address p.yiaddr lease.yiaddr;
    siaddr = or_else lease.siaddr p.siaddr;
    file = or_else lease.file (replicate 128 0);
    options = record { options = response_options p lease };
  }

unfoldable pub nak : DhcpPacket → DhcpPacket
nak p = record (blank_reply p) {
  flags = (if not (is_unspecified p.giaddr) then 0x8000 else p.flags);
  ciaddr = 0;
  yiaddr = 0;
  siaddr = 0;
  options = record {
    options = dhcp_msg_type neg_acknowledge ∷ to_list (get_option p.options client_id_code);
  };
}
