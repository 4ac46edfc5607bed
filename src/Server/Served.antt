-- ===== src/Server/Served.antt =====
-- The server with the memory store: what holds after any sequence of datagrams.
use rsdhcp.Backends.Memory.{
  handle_decline, handle_inform, handle_release, handle_request_rebinding, handle_request_selecting,
  memory_store, requested_address,
}
use rsdhcp.Backends.Memory.Config.{MemoryConfig, from_cfg}
use rsdhcp.Backends.Memory.Database.{Memory, get_lease_for_xid}
use rsdhcp.Backends.Memory.Laws.{Distinct}
use rsdhcp.Backends.Memory.Sound.{
  IsSound, IsSound-Maskless, handle_discover-IsSound, handle_request_init_reboot-refused,
  handle_request_renewing-IsSound, remove_lease-IsSound, remove_of-IsSound,
}
use rsdhcp.External.{ByteOrder, Chrono, Ipnet}
use rsdhcp.Prelude.{
  Bool-cases, List, Option, Option-cases, if◌then◌else◌, inl, inr, none, not, some, ℕ,
}
use rsdhcp.Protocol.Enums.{
  ClientState, MessageType, decline, discover, init, init_reboot, rebinding, release, renewing,
  request, selecting,
}
use rsdhcp.Protocol.Errors.{Result, err, ok}
use rsdhcp.Protocol.Option.{address_request_code, dhcp_server_id_code}
use rsdhcp.Protocol.Options.{get_option}
use rsdhcp.Protocol.Packet.{DhcpPacket, client_state, from_network, is_unspecified, message_type}
use rsdhcp.Protocol.Value.{Ipv4Addr}
use rsdhcp.Server.{
  find_lease, for_another_server, handle_request, process_message, process_packet,
  process_packet_data, sent_to_broadcast,
}

module _ ⦃crate : ByteOrder⦄ ⦃ipnet : Ipnet⦄ ⦃chrono : Chrono⦄ where
  -- The states that the server can come to from a store that was just configured, one datagram
  -- after another.
  pub data Reached : Memory → Type 0 where
    started : (cfg : MemoryConfig) → Reached (from_cfg cfg)
    received :
        (now : chrono.DateTime) (recv_ip : Ipv4Addr) (destination : Option Ipv4Addr)
        (bytes : List ℕ) (m : Memory)
        → Reached m
        → Reached (process_packet_data memory_store now recv_ip destination bytes m).1

  handle_request-IsSound :
      (now : chrono.DateTime) (ip : Ipv4Addr) (p : DhcpPacket) (state : Option ClientState)
      (m : Memory)
      → IsSound m
      → IsSound (handle_request memory_store now ip p state m).1
  unfolding handle_request handle_request_selecting handle_request_rebinding
  handle_request-IsSound now ip p (some selecting) m s =
      elim (Option-cases (requested_address (get_option p.options address_request_code))) [
        | inl e ↦ rw (handle_request_selecting, e) s
        | inr (a, e) ↦ rw (handle_request_selecting, e) s
      ]
  handle_request-IsSound now ip p (some init_reboot) m s =
      let (x, e) = handle_request_init_reboot-refused now ip p m (IsSound-Maskless m s) in rw (e) s
  handle_request-IsSound now ip p (some renewing) m s = handle_request_renewing-IsSound now ip p m s
  handle_request-IsSound now ip p (some rebinding) m s =
      handle_request_renewing-IsSound now ip p m s
  handle_request-IsSound now ip p (some init) m s = s
  handle_request-IsSound now ip p none m s = s

  find_lease-IsSound :
      (now : chrono.DateTime) (ip : Ipv4Addr) (p : DhcpPacket) (t : MessageType) (m : Memory)
      → IsSound m
      → IsSound (find_lease memory_store now ip p t m).1
  unfolding find_lease handle_inform
  find_lease-IsSound now ip p discover m s = handle_discover-IsSound now ip p m s
  find_lease-IsSound now ip p request m s = handle_request-IsSound now ip p (client_state p) m s
  find_lease-IsSound now ip p _ m s = s

  process_message-IsSound :
      (now : chrono.DateTime) (recv_ip : Ipv4Addr) (p : DhcpPacket) (t : Option MessageType)
      (m : Memory)
      → IsSound m
      → IsSound (process_message memory_store now recv_ip p t m).1
  unfolding process_message handle_release handle_decline
  process_message-IsSound now recv_ip p none m s = s
  process_message-IsSound now recv_ip p (some release) m s = remove_lease-IsSound p.yiaddr m s
  process_message-IsSound now recv_ip p (some decline) m s =
      remove_of-IsSound (get_lease_for_xid p.xid m) m s
  process_message-IsSound now recv_ip p (some t) m s =
      find_lease-IsSound now (if not (is_unspecified p.giaddr) then p.giaddr else recv_ip) p t m s

  process_packet-IsSound :
      (now : chrono.DateTime) (recv_ip : Ipv4Addr) (packet : Result DhcpPacket) (m : Memory)
      → IsSound m
      → IsSound (process_packet memory_store now recv_ip packet m).1
  unfolding process_packet
  process_packet-IsSound now recv_ip (err e) m s = s
  process_packet-IsSound now recv_ip (ok p) m s =
      elim (Bool-cases (for_another_server (get_option p.options dhcp_server_id_code) recv_ip)) [
        | inl t ↦ rw (t) s
        | inr f ↦ rw (f) (process_message-IsSound now recv_ip p (message_type p) m s)
      ]

  -- Every state that the server comes to from a configured store is sound: an address has at most one
  -- lease, a lease stands under its own address, that address is in the scope, and the lease names
  -- no subnet mask.
  pub Reached-IsSound : (m : Memory) → Reached m → IsSound m
  unfolding process_packet_data Distinct from_cfg
  Reached-IsSound _ (started cfg) = record { distinct = tt; entries = tt }
  Reached-IsSound _ (received now recv_ip destination bytes m r) =
      process_packet-IsSound now recv_ip (from_network bytes (sent_to_broadcast destination)) m
        (Reached-IsSound m r)
