-- ===== src/Protocol/Packet/Reply/Sendable.antt =====
-- Replies to well-formed requests are well formed, so that a client can decode them.
use rsdhcp.Backends.{Lease}
use rsdhcp.External.{Chrono, Ipnet}
use rsdhcp.Prelude.{
  All, All-append, List, Option, Option-cases, arith, inl, inr, length, length-replicate, none,
  refl, replicate, some, suc, zero, ℕ, ◌≡◌,
}
use rsdhcp.Prelude.Int.{negsuc, pos, ℤ}
use rsdhcp.Protocol.Bytes.{IsByte, IsU32, u32_to_be_bytes}
use rsdhcp.Protocol.Enums.{MessageType, boot_reply, neg_acknowledge, operation_code, operation_from}
use rsdhcp.Protocol.Option.{
  address_time, client_id_code, dhcp_msg_type, dhcp_msg_type_code, dhcp_server_id, subnet_mask,
}
use rsdhcp.Protocol.Option.Wire.{value_bytes}
use rsdhcp.Protocol.Options.{find_code, get_option}
use rsdhcp.Protocol.Options.Stream.{IsWire}
use rsdhcp.Protocol.Packet.{DhcpPacket, message_type}
use rsdhcp.Protocol.Packet.Reply.{
  blank_reply, lease_options, lease_seconds, leased_address, mask_option, nak, or_else, response,
  response_options, response_type, to_list,
}
use rsdhcp.Protocol.Packet.Reply.Laws.{find_code-All}
use rsdhcp.Protocol.Packet.Reply.Owed.{
  IsAnsweredBy, IsAsked, acknowledged_inform, acknowledged_request, offered,
  response_type-IsAnsweredBy,
}
use rsdhcp.Protocol.Packet.WellFormed.{IsWellFormed}
use rsdhcp.Protocol.Value.{Ipv4Addr, ipv4_to_network, message_type_to_network, u32_to_network}
use rsdhcp.Protocol.Value.Laws.{IsKnown}

message_type-IsWire : (mt : MessageType) → IsKnown mt → IsWire (dhcp_msg_type mt)
unfolding value_bytes message_type_to_network
message_type-IsWire mt h = record { carried = tt; valid = h; fits = omega arith }

ip-IsWire : (ip : ℕ) → IsU32 ip → IsWire (dhcp_server_id ip) × IsWire (subnet_mask ip)
unfolding value_bytes ipv4_to_network u32_to_be_bytes
ip-IsWire ip h = (
  record { carried = tt; valid = h; fits = omega arith },
  record { carried = tt; valid = h; fits = omega arith },
)

lease_seconds-lt : (z : ℤ) → IsU32 (lease_seconds z)
unfolding lease_seconds
lease_seconds-lt (pos n) = ground arith
lease_seconds-lt (negsuc n) = omega arith

address_time-IsWire : (n : ℕ) → IsU32 n → IsWire (address_time n)
unfolding value_bytes u32_to_network u32_to_be_bytes
address_time-IsWire n h = record { carried = tt; valid = h; fits = omega arith }

zeros-IsByte : (n : ℕ) → All IsByte (replicate n 0)
zeros-IsByte zero = tt
zeros-IsByte (suc n) = (omega arith, zeros-IsByte n)

client_id-IsWire :
    (p : DhcpPacket)
    → All IsWire p.options.options
    → All IsWire (to_list (get_option p.options client_id_code))
unfolding get_option
client_id-IsWire p w = elim (Option-cases (find_code client_id_code p.options.options)) [
  | inl e ↦ rw e tt
  | inr (o, e) ↦ rw e (find_code-All IsWire client_id_code p.options.options o w e, tt)
]

reply_operation : operation_from (operation_code boot_reply) ≡ boot_reply
unfolding operation_from operation_code
reply_operation = refl

reply_operation_fits : IsByte (operation_code boot_reply)
unfolding operation_code
reply_operation_fits = omega arith

-- A blank reply to a well-formed request is well formed.
blank_reply-IsWellFormed : (p : DhcpPacket) → IsWellFormed p → IsWellFormed (blank_reply p)
blank_reply-IsWellFormed p w = record {
  op_code = reply_operation;
  op_byte = reply_operation_fits;
  htype_code = w.htype_code;
  htype_byte = w.htype_byte;
  hlen_byte = w.hlen_byte;
  hops_byte = omega arith;
  xid_u32 = w.xid_u32;
  secs_u16 = omega arith;
  flags_u16 = w.flags_u16;
  ciaddr_u32 = w.ciaddr_u32;
  yiaddr_u32 = w.yiaddr_u32;
  siaddr_u32 = w.siaddr_u32;
  giaddr_u32 = w.giaddr_u32;
  chaddr_length = w.chaddr_length;
  chaddr_bytes = w.chaddr_bytes;
  sname_length = length-replicate {A = ℕ} 64 0;
  sname_bytes = zeros-IsByte 64;
  file_length = length-replicate {A = ℕ} 128 0;
  file_bytes = zeros-IsByte 128;
  cookie_fixed = refl;
  options_wire = tt;
}

-- A NAK for a well-formed request is well formed.
pub nak-IsWellFormed : (p : DhcpPacket) → IsWellFormed p → IsWellFormed (nak p)
unfolding nak
nak-IsWellFormed p w =
    let b = blank_reply-IsWellFormed p w in
    record {
      op_code = b.op_code;
      op_byte = b.op_byte;
      htype_code = b.htype_code;
      htype_byte = b.htype_byte;
      hlen_byte = b.hlen_byte;
      hops_byte = b.hops_byte;
      xid_u32 = b.xid_u32;
      secs_u16 = b.secs_u16;
      flags_u16 = ground (arith, w.flags_u16);
      ciaddr_u32 = omega arith;
      yiaddr_u32 = omega arith;
      siaddr_u32 = omega arith;
      giaddr_u32 = b.giaddr_u32;
      chaddr_length = b.chaddr_length;
      chaddr_bytes = b.chaddr_bytes;
      sname_length = b.sname_length;
      sname_bytes = b.sname_bytes;
      file_length = b.file_length;
      file_bytes = b.file_bytes;
      cookie_fixed = b.cookie_fixed;
      options_wire = (message_type-IsWire neg_acknowledge tt, client_id-IsWire p w.options_wire);
    }

or_else-holds :
    {A : Type 0} (P : A → Type 0) (o : Option A) (d : A)
    → P d
    → ((a : A) → o ≡ some a → P a)
    → P (or_else o d)
or_else-holds P none d h k = h
or_else-holds P (some a) d h k = k a refl

answered_by-IsKnown : (t u : MessageType) → IsAnsweredBy t u → IsKnown u
answered_by-IsKnown _ _ offered = tt
answered_by-IsKnown _ _ acknowledged_request = tt
answered_by-IsKnown _ _ acknowledged_inform = tt

module _ ⦃ipnet : Ipnet⦄ ⦃chrono : Chrono⦄ where
  -- A lease whose values have their widths and whose options a field can carry.
  pub record IsGrant (lease : Lease) : Type 0 where
    pub server_u32 : IsU32 lease.server_identifier
    pub address_u32 :
        (ip : ipnet.Ipv4Net)
        → lease.yiaddr ≡ some ip
        → IsU32 (ipnet.addr ip) × IsU32 (ipnet.netmask ip)
    pub siaddr_u32 : (ip : Ipv4Addr) → lease.siaddr ≡ some ip → IsU32 ip
    pub file_field : (f : List ℕ) → lease.file ≡ some f → (length f ≡ 128) × All IsByte f
    pub options_wire : All IsWire (lease_options lease.options)

  mask-IsWire :
      (yiaddr : Option ipnet.Ipv4Net)
      → ((ip : ipnet.Ipv4Net) → yiaddr ≡ some ip → IsU32 (ipnet.netmask ip))
      → All IsWire (mask_option yiaddr)
  mask-IsWire none h = tt
  mask-IsWire (some ip) h = ((ip-IsWire (ipnet.netmask ip) (h ip refl)).1, tt)

  leased-lt :
      (before : Ipv4Addr) (yiaddr : Option ipnet.Ipv4Net)
      → IsU32 before
      → ((ip : ipnet.Ipv4Net) → yiaddr ≡ some ip → IsU32 (ipnet.addr ip))
      → IsU32 (leased_address before yiaddr)
  leased-lt before none b h = b
  leased-lt before (some ip) b h = h ip refl

  response_options-IsWire :
      (p : DhcpPacket) (lease : Lease)
      → IsWellFormed p
      → IsGrant lease
      → IsKnown (response_type (get_option p.options dhcp_msg_type_code))
      → All IsWire (response_options p lease)
  unfolding response_options
  response_options-IsWire p lease w g known_type =
      let seconds = lease_seconds (chrono.num_seconds lease.lease_duration) in
      (
        message_type-IsWire _ known_type,
        (
          (ip-IsWire lease.server_identifier g.server_u32).0,
          (
            address_time-IsWire seconds
                (lease_seconds-lt (chrono.num_seconds lease.lease_duration)),
            All-append IsWire (mask_option lease.yiaddr) _
                (mask-IsWire lease.yiaddr (λ ip e. (g.address_u32 ip e).1))
                (All-append IsWire (to_list (get_option p.options client_id_code))
                  (lease_options lease.options) (client_id-IsWire p w.options_wire) g.options_wire),
          ),
        ),
      )

  -- A response to a well-formed discover, request or inform, with a lease whose values have their
  -- widths, is well formed.
  pub response-IsWellFormed :
      (p : DhcpPacket) (t : MessageType) (lease : Lease)
      → IsWellFormed p
      → IsGrant lease
      → message_type p ≡ some t
      → IsAsked t
      → IsWellFormed (response p lease)
  unfolding response
  response-IsWellFormed p t lease w g typed asked =
      let known_type = answered_by-IsKnown _ _ (response_type-IsAnsweredBy p t typed asked) in
      let b = blank_reply-IsWellFormed p w in
      record {
        op_code = b.op_code;
        op_byte = b.op_byte;
        htype_code = b.htype_code;
        htype_byte = b.htype_byte;
        hlen_byte = b.hlen_byte;
        hops_byte = b.hops_byte;
        xid_u32 = b.xid_u32;
        secs_u16 = b.secs_u16;
        flags_u16 = b.flags_u16;
        ciaddr_u32 = b.ciaddr_u32;
        yiaddr_u32 = leased-lt p.yiaddr lease.yiaddr b.yiaddr_u32 (λ ip e. (g.address_u32 ip e).0);
        siaddr_u32 = or_else-holds IsU32 lease.siaddr p.siaddr b.siaddr_u32 g.siaddr_u32;
        giaddr_u32 = b.giaddr_u32;
        chaddr_length = b.chaddr_length;
        chaddr_bytes = b.chaddr_bytes;
        sname_length = b.sname_length;
        sname_bytes = b.sname_bytes;
        file_length =
            or_else-holds (λ f. length f ≡ 128) lease.file (replicate 128 0) b.file_length
              (λ f e. (g.file_field f e).0);
        file_bytes =
            or_else-holds (All IsByte) lease.file (replicate 128 0) b.file_bytes
              (λ f e. (g.file_field f e).1);
        cookie_fixed = b.cookie_fixed;
        options_wire = response_options-IsWire p lease w g known_type;
      }
