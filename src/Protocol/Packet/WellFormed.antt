-- ===== src/Protocol/Packet/WellFormed.antt =====
-- The packets that the wire can carry.
use rsdhcp.Prelude.{All, length, ◌≡◌}
use rsdhcp.Protocol.Bytes.{IsByte, IsU16, IsU32}
use rsdhcp.Protocol.Enums.{hardware_code, hardware_from, operation_code, operation_from}
use rsdhcp.Protocol.Options.Stream.{IsWire}
use rsdhcp.Protocol.Packet.{DhcpPacket, cookie_bytes}

-- Every header field has its width, every option can be carried, and the operation and hardware
-- type are those of their byte.
pub record IsWellFormed (p : DhcpPacket) : Type 0 where
  pub op_code : operation_from (operation_code p.op) ≡ p.op
  pub op_byte : IsByte (operation_code p.op)
  pub htype_code : hardware_from (hardware_code p.htype) ≡ p.htype
  pub htype_byte : IsByte (hardware_code p.htype)
  pub hlen_byte : IsByte p.hlen
  pub hops_byte : IsByte p.hops
  pub xid_u32 : IsU32 p.xid
  pub secs_u16 : IsU16 p.secs
  pub flags_u16 : IsU16 p.flags
  pub ciaddr_u32 : IsU32 p.ciaddr
  pub yiaddr_u32 : IsU32 p.yiaddr
  pub siaddr_u32 : IsU32 p.siaddr
  pub giaddr_u32 : IsU32 p.giaddr
  pub chaddr_length : length p.chaddr ≡ 16
  pub chaddr_bytes : All IsByte p.chaddr
  pub sname_length : length p.sname ≡ 64
  pub sname_bytes : All IsByte p.sname
  pub file_length : length p.file ≡ 128
  pub file_bytes : All IsByte p.file
  pub cookie_fixed : p.cookie ≡ cookie_bytes
  pub options_wire : All IsWire p.options.options
