-- ===== src/Examples/Dialogue.antt =====
-- Datagrams that the server receives, on the memory store.
use rsdhcp.Backends.{Lease, granted}
use rsdhcp.Backends.Memory.{handle_discover, memory_store, offered_lease}
use rsdhcp.Backends.Memory.Config.{MemoryConfig, from_cfg}
use rsdhcp.Backends.Memory.Database.{Memory}
use rsdhcp.Backends.Memory.Sound.{IsSound}
use rsdhcp.Examples.Setting.{
  clock, cursor, discover_bytes, discover_packet, networks, server_ip, store_with,
}
use rsdhcp.Prelude.{Option, [], arith, if◌then◌else◌, not, refl, some, true, ◌∷◌, ◌≡◌}
use rsdhcp.Protocol.Bytes.{u16_from_be_bytes, u32_from_be_bytes}
use rsdhcp.Protocol.Enums.{MessageType, discover, hardware_from, message_from, operation_from}
use rsdhcp.Protocol.Errors.{ok}
use rsdhcp.Protocol.Option.{code, router}
use rsdhcp.Protocol.Option.Arms.{new}
use rsdhcp.Protocol.Options.{get_option}
use rsdhcp.Protocol.Packet.{
  DhcpPacket, from_network, is_unspecified, message_type, to_array, to_network,
}
use rsdhcp.Protocol.Packet.Reply.{response}
use rsdhcp.Protocol.Packet.Reply.Owed.{asked_discover}
use rsdhcp.Protocol.Value.{bytes_from_network, message_type_from_network, u16_from_network}
use rsdhcp.Server.{Datagram, find_lease, process_packet_data}
use rsdhcp.Server.Acknowledged.{process_packet_data-response}
use rsdhcp.Server.Answered.{leased, process_packet_data-sent}
use rsdhcp.Server.Answers.{IsSent, process_packet_data-IsSent}
use rsdhcp.Server.Served.{Reached-IsSound, received, started}
use rsdhcp.Protocol.Options as Options

abbrev empty_store : Memory
empty_store = store_with []

abbrev settings : MemoryConfig
settings = record {
  scope = (0x0a00_0002, 0x0a00_0004);
  gateway = server_ip;
  mask = 0xffff_ff00;
  domain = [];
  dns_servers = [];
  dns_search = [];
}

abbrev discover_answer : Option Datagram × Memory
discover_answer =
    process_packet_data memory_store 100 server_ip (some 0xffff_ffff) discover_bytes empty_store

abbrev offer_packet : DhcpPacket
offer_packet =
    response discover_packet
      (record (offered_lease 100 discover_packet (0x0a00_0002, 0xffff_ff00)
        (router (server_ip ∷ []) ∷ [])) { server_identifier = server_ip })

offer_sent :
    process_packet_data memory_store 100 server_ip (some 0xffff_ffff) discover_bytes empty_store ≡ (
      some (record {
        dest = record { ip = 0xffff_ffff; port = 68 };
        payload = to_network offer_packet;
      }),
      discover_answer.1,
    )
unfolding process_packet_data from_network to_array Options.from_network operation_from
    hardware_from u32_from_be_bytes u16_from_be_bytes new bytes_from_network u16_from_network
    message_type_from_network message_from get_option code handle_discover response
offer_sent = refl

process_packet_data-IsSent_example :
    IsSent memory_store 100 server_ip
      (from_network discover_bytes true)
      empty_store
      (record { dest = record { ip = 0xffff_ffff; port = 68 }; payload = to_network offer_packet })
      discover_answer.1
process_packet_data-IsSent_example =
    process_packet_data-IsSent memory_store 100 server_ip (some 0xffff_ffff) discover_bytes
      empty_store
      (record { dest = record { ip = 0xffff_ffff; port = 68 }; payload = to_network offer_packet })
      discover_answer.1 offer_sent

discover_decoded : from_network discover_bytes true ≡ ok discover_packet
unfolding from_network to_array Options.from_network operation_from hardware_from u32_from_be_bytes
    u16_from_be_bytes new bytes_from_network u16_from_network message_type_from_network message_from
discover_decoded = refl

abbrev first_lease : Lease
first_lease =
    offered_lease 100 discover_packet (0x0a00_0002, 0xffff_ff00) (router (server_ip ∷ []) ∷ [])

discover_granted :
    find_lease memory_store 100 server_ip discover_packet discover empty_store
    ≡ (granted first_lease, discover_answer.1)
unfolding process_packet_data from_network to_array Options.from_network operation_from
    hardware_from u32_from_be_bytes u16_from_be_bytes new bytes_from_network u16_from_network
    message_type_from_network message_from get_option code handle_discover find_lease
discover_granted = refl

process_packet_data-sent_example :
    (d : Datagram) × (process_packet_data memory_store 100 server_ip
        (some 0xffff_ffff)
        discover_bytes
        empty_store
      ≡ (some d, discover_answer.1))
unfolding get_option code message_type offered_lease
process_packet_data-sent_example =
    process_packet_data-sent memory_store 100 server_ip (some 0xffff_ffff) discover_bytes
      discover_packet discover empty_store discover_answer.1 (granted first_lease) discover_decoded
      (λ ip e. cc) refl asked_discover discover_granted
      (leased first_lease (0x0a00_0002, 0xffff_ff00) refl (λ z. omega arith))

Reached-IsSound_example : IsSound discover_answer.1
unfolding from_cfg
Reached-IsSound_example =
    Reached-IsSound discover_answer.1
      (received 100 server_ip (some 0xffff_ffff) discover_bytes empty_store (started settings))

process_packet_data-response_example :
    (p : DhcpPacket) × (t : MessageType) × (lease : Lease) × (from_network discover_bytes true
      ≡ ok p)
    × (message_type p ≡ some t)
    × (find_lease memory_store 100
          (if not (is_unspecified p.giaddr) then p.giaddr else server_ip)
          p
          t
          empty_store
        ≡ (granted lease, discover_answer.1))
    × (to_network offer_packet
        ≡ to_network (response p (record lease { server_identifier = server_ip })))
process_packet_data-response_example =
    process_packet_data-response 100 server_ip (some 0xffff_ffff) discover_bytes empty_store
      discover_answer.1
      (record { dest = record { ip = 0xffff_ffff; port = 68 }; payload = to_network offer_packet })
      offer_sent
